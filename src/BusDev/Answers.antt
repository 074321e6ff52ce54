-- ===== src/BusDev/Answers.antt =====
-- rumpxendev/busdev.c: answers to requests, and the requests that the close of the device makes.
use rumpuser_xen.Prelude.{
  ℕ, ◌-◌, Bool, true, false, ◌&&◌, ◌||◌, Option, none, some, List, [], ◌∷◌, ◌==◌, ltb, leb,
  if◌then◌else◌, length, remove,
}
use rumpuser_xen.XenStore.Calls.{Call, ok, bug, hang, asleep}
use rumpuser_xen.BusDev.{
  Kind, plain, transaction_start, transaction_end, watch, unwatch, other, Proto, Request, Watch,
  Dev, set_visible, make_request, make_watch_request,
}

abbrev pub find_watch : ℕ → List Watch → Option Watch
find_watch i [] = none
find_watch i (w ∷ ws) = if w.wid == i then some w else find_watch i ws

abbrev pub remove_watch : ℕ → List Watch → List Watch
remove_watch i [] = []
remove_watch i (w ∷ ws) = if w.wid == i then ws else w ∷ remove_watch i ws

abbrev pub find_request : ℕ → List Request → Option Request
find_request i [] = none
find_request i (r ∷ rs) = if r.rid == i then some r else find_request i rs

abbrev pub remove_request : ℕ → List Request → List Request
remove_request i [] = []
remove_request i (r ∷ rs) = if r.rid == i then rs else r ∷ remove_request i rs

-- The last byte of an answer.
abbrev pub last_byte : List ℕ → ℕ
last_byte [] = 0
last_byte (x ∷ []) = x
last_byte (x ∷ y ∷ xs) = last_byte (y ∷ xs)

-- What a reader of the device gets: the struct's type and `req_id`, and the payload.
pub record Reply : Type 0 where
  pub reply_type : ℕ
  pub reply_id : ℕ
  pub payload : List ℕ

abbrev pub and_next {ℓ} : {A : Type ℓ} → Call Dev → (Dev → Call A) → Call A
and_next (ok d) rest = rest d
and_next bug rest = bug
and_next hang rest = hang
and_next asleep rest = asleep

abbrev pub unwatch_found : ℕ → Option Watch → Dev → Call Dev
unwatch_found i none d = bug
unwatch_found i (some w) d =
    if w.visible_to_user then bug else ok (record d { watches = remove_watch i d.watches })

-- From the label do_unwatch on.
unfoldable pub do_unwatch : ℕ → Dev → Call Dev
do_unwatch i d = unwatch_found i (find_watch i d.watches) d

-- The switch. `tx` is what strtoul makes of the memory that it is pointed to.
unfoldable pub response_switch : Kind → Bool → ℕ → ℕ → List ℕ → Dev → Call Dev
response_switch plain error u tx payload d = ok d
response_switch transaction_start error u tx payload d =
    if error
    then ok d
    else if leb 2 (length payload) && (last_byte payload == 0)
    then ok (record d { transactions = tx ∷ d.transactions })
    else bug
response_switch transaction_end error u tx payload d = ok d
response_switch watch error u tx payload d =
    if error then do_unwatch u d else ok (record d { watches = set_visible true u d.watches })
response_switch unwatch error u tx payload d = if error then bug else do_unwatch u d
response_switch other error u tx payload d = ok d

-- The request is done with.
abbrev pub settle : Reply → ℕ → Dev → Call (Reply × Dev)
settle reply rid d =
    if ltb 0 d.outstanding_requests
    then ok (
      reply,
      record d {
        outstanding_requests = d.outstanding_requests - 1;
        requests = remove_request rid d.requests;
      },
    )
    else bug

module _ (p : Proto) where
  open p use {kind, xs_unwatch, xs_transaction_end, xs_error}

  -- xenbus_id_release, of the identifier that the request has had in use, leaves no trace.
  unfoldable pub process_response : Request → ℕ → ℕ → List ℕ → Dev → Call (Reply × Dev)
  process_response r type tx payload d =
      let error = type == xs_error in
      let reply : Reply = record { reply_type = type; reply_id = r.user_id; payload = payload } in
      if error || (type == r.req_type)
      then and_next (response_switch (kind r.req_type) error r.u tx payload d) (settle reply r.rid)
      else bug

  -- The first loop of xenbus_dev_close's round. The `user_id` of these requests is not set.
  unfoldable pub close_watches : List Watch → Dev → Call Dev
  close_watches [] d = ok d
  close_watches (w ∷ ws) d =
      if w.visible_to_user
      then and_next
          (make_watch_request p 0 xs_unwatch 0 w
            (record d { watches = set_visible false w.wid d.watches }))
          (λ d'. close_watches ws d')
      else close_watches ws d

  -- The second, whose message is the string "F".
  unfoldable pub close_transactions : List ℕ → Dev → Call Dev
  close_transactions [] d = ok d
  close_transactions (t ∷ ts) d =
      and_next
        (make_request p 0 xs_transaction_end 0 t ((70 ∷ 0 ∷ []) ∷ [])
          (record d { transactions = remove t d.transactions }))
        (λ d'. close_transactions ts d')

  -- A round of the loop up to the test of the requests that are outstanding.
  unfoldable pub close_round : Dev → Call Dev
  close_round d = and_next (close_watches d.watches d) (λ d'. close_transactions d'.transactions d')
