-- ===== src/BusDev.antt =====
-- rumpxendev/busdev.c: the device /dev/xen/xenbus, through which a process of the rump kernel talks to XenStore.
-- What is written to it are requests, in any pieces; what is read are answers and watch events.
-- Xen's struct xsd_sockmsg and its numbers are a parameter, as are the tokens that xen/xenbus/xenbus.c
-- gives, and the state of its identifiers and its ring at each call. A struct that xbd_malloc returns is named by the number of that call.
pub mod Ways
pub mod Room
pub mod Buffer
pub mod Writing
pub mod Finishing
pub mod Pieces
pub mod Answers
pub mod Counts
pub mod Strings
pub mod Asking
pub mod Reading
pub mod Shares
pub mod Answering
pub mod Closing
mod Tests
use rumpuser_xen.Prelude.{
  ◌≢◌, ℕ, zero, suc, ◌+◌, ◌-◌, ◌*◌, ◌^◌, ◌≤◌, ◌<◌, ◌≡◌, Bool, true, false, not, ◌&&◌, Option, none,
  some, List, [], ◌∷◌, ◌++◌, ◌==◌, ◌/=◌, ltb, leb, if◌then◌else◌, min, length, take, drop, member,
  remove,
}
use rumpuser_xen.XenStore.{Wire, ReqRing, Requests, id_allocate, xb_write}
use rumpuser_xen.XenStore.Ids.{IsCounted}
use rumpuser_xen.XenStore.Message.{IsWords}
use rumpuser_xen.XenStore.Sending.{allocated, sent_off}
use rumpuser_xen.XenStore.Calls.{Call, ok, bug, hang, asleep}

-- The groups of request types of the switch; the first are the nine that are passed on as they are.
pub data Kind : Type 0 where
  plain : Kind
  transaction_start : Kind
  transaction_end : Kind
  watch : Kind
  unwatch : Kind
  other : Kind

-- The fields of the struct, which are in its own bytes; XENSTORE_PAYLOAD_MAX; the numbers of the types; and
-- which calls of xbd_malloc have memory. `requests_at` and `ring_at` are the identifiers and the ring of requests as
-- the n-th call of make_request finds them, whatever other threads and XenStore did to them before it; xenbus's
-- tokens are at most 20 characters, the room that it has for them less the NUL.
pub record Proto : Type 0 where
  pub sizeof_msg : ℕ
  pub payload_max : ℕ
  pub type_of : List ℕ → ℕ
  pub req_id_of : List ℕ → ℕ
  pub tx_id_of : List ℕ → ℕ
  pub len_of : List ℕ → ℕ
  pub len_own : (xs ys : List ℕ) → sizeof_msg ≤ length xs → len_of (xs ++ ys) ≡ len_of xs
  pub some_bytes : 0 < sizeof_msg
  pub kind : ℕ → Kind
  pub xs_watch : ℕ
  pub xs_unwatch : ℕ
  pub xs_transaction_end : ℕ
  pub kind_watch : kind xs_watch ≡ watch
  pub kind_unwatch : kind xs_unwatch ≡ unwatch
  pub kind_end : kind xs_transaction_end ≡ transaction_end
  pub xs_error : ℕ
  pub wire : Wire
  pub same_size : wire.sizeof_msg ≡ sizeof_msg
  pub queue : ℕ
  pub queue_set : queue ≢ 0
  pub requests_at : ℕ → Requests
  pub requests_counted : (n : ℕ) → IsCounted (requests_at n)
  pub ring_at : ℕ → ReqRing
  pub ring_words : (n : ℕ) → IsWords (ring_at n)
  pub token : ℕ → List ℕ
  pub token_short : (i : ℕ) → length (token i) ≤ 20
  pub has_memory : ℕ → Bool

pub data Errno : Type 0 where
  no_error : Errno
  enomem : Errno
  einval : Errno
  eagain : Errno
  erestart : Errno

-- `u` is the watch that a request for one is about.
pub record Request : Type 0 where
  pub rid : ℕ
  pub user_id : ℕ
  pub req_type : ℕ
  pub u : ℕ

pub record Watch : Type 0 where
  pub wid : ℕ
  pub path : List ℕ
  pub user_token : List ℕ
  pub visible_to_user : Bool

-- A call of xenbus_xb_write: the type, the identifier, the transaction and the pieces.
pub record Message : Type 0 where
  pub req_type : ℕ
  pub xb_id : ℕ
  pub tx_id : ℕ
  pub pieces : List (List ℕ)

-- `wbuf` are the bytes that are used of it, a transaction is its `tx_id`; `requests` are those that
-- `outstanding_requests` counts, `sent` what was written to XenStore, `made` and `calls` how often
-- make_request and xbd_malloc were called.
pub record Dev : Type 0 where
  pub outstanding_requests : ℕ
  pub transactions : List ℕ
  pub watches : List Watch
  pub wbuf : List ℕ
  pub requests : List Request
  pub sent : List Message
  pub made : ℕ
  pub calls : ℕ

abbrev pub int_max : ℕ
int_max = 2 ^ 31 - 1

-- strcmp of strings without their NUL.
abbrev pub same_string : List ℕ → List ℕ → Bool
same_string [] [] = true
same_string [] (y ∷ ys) = false
same_string (x ∷ xs) [] = false
same_string (x ∷ xs) (y ∷ ys) = (x == y) && same_string xs ys

abbrev pub find_visible_watch : List ℕ → List ℕ → List Watch → Option ℕ
find_visible_watch path token [] = none
find_visible_watch path token (w ∷ ws) =
    if w.visible_to_user && same_string path w.path && same_string token w.user_token
    then some w.wid
    else find_visible_watch path token ws

abbrev pub set_visible : Bool → ℕ → List Watch → List Watch
set_visible v i [] = []
set_visible v i (w ∷ ws) =
    if w.wid == i then record w { visible_to_user = v } ∷ ws else w ∷ set_visible v i ws

-- The bytes before the first NUL and those behind it.
abbrev pub past : ℕ → Option (List ℕ × List ℕ) → Option (List ℕ × List ℕ)
past x none = none
past x (some (s, rest)) = some (x ∷ s, rest)

unfoldable pub watch_message_parse_string : List ℕ → Option (List ℕ × List ℕ)
watch_message_parse_string [] = none
watch_message_parse_string (x ∷ xs) =
    if x == 0 then some ([], xs) else past x (watch_message_parse_string xs)

abbrev pub with_token : List ℕ → Option (List ℕ × List ℕ) → Option (List ℕ × List ℕ)
with_token path none = none
with_token path (some (token, rest)) = some (path, token)

abbrev pub with_path : Option (List ℕ × List ℕ) → Option (List ℕ × List ℕ)
with_path none = none
with_path (some (path, rest)) = with_token path (watch_message_parse_string rest)

abbrev pub return : Errno → Call Dev → Call (Errno × Dev)
return e (ok d) = ok (e, d)
return e bug = bug
return e hang = hang
return e asleep = asleep

module _ (p : Proto) where
  open p use {
    sizeof_msg, payload_max, type_of, req_id_of, tx_id_of, len_of, kind, xs_watch, xs_unwatch,
    xs_transaction_end,
  }

  -- The path and the token.
  unfoldable pub watch_message_parse : List ℕ → Option (List ℕ × List ℕ)
  watch_message_parse msg =
      with_path (watch_message_parse_string (take (len_of msg) (drop sizeof_msg msg)))

  abbrev pub xbd_malloc : Dev → Bool × Dev
  xbd_malloc d = (p.has_memory d.calls, record d { calls = d.calls + 1 })

  -- The device with a request more.
  abbrev pub added : ℕ → ℕ → ℕ → ℕ → List (List ℕ) → ℕ → Dev → Dev
  added user_id req_type u tx_id wreqs id d = record d {
    outstanding_requests = d.outstanding_requests + 1;
    requests = record { rid = d.made; user_id = user_id; req_type = req_type; u = u } ∷ d.requests;
    sent =
        d.sent ++ (record { req_type = req_type; xb_id = id; tx_id = tx_id; pieces = wreqs } ∷ []);
    made = d.made + 1;
  }

  -- With the identifier.
  abbrev pub with_id : ℕ → ℕ → ℕ → ℕ → List (List ℕ) → Dev → Call ℕ → Call Dev
  with_id user_id req_type u tx_id wreqs d (ok id) =
      if ltb d.outstanding_requests int_max
      then sent_off (added user_id req_type u tx_id wreqs id d)
          (xb_write p.wire req_type id tx_id wreqs (p.ring_at d.made))
      else bug
  with_id user_id req_type u tx_id wreqs d bug = bug
  with_id user_id req_type u tx_id wreqs d hang = hang
  with_id user_id req_type u tx_id wreqs d asleep = asleep

  -- The event is that of the request, by its number.
  unfoldable pub make_request : ℕ → ℕ → ℕ → ℕ → List (List ℕ) → Dev → Call Dev
  make_request user_id req_type u tx_id wreqs d =
      with_id user_id req_type u tx_id wreqs d
        (allocated (id_allocate p.queue d.made (p.requests_at d.made)))

  -- The strings are sent with their NULs.
  abbrev pub make_watch_request : ℕ → ℕ → ℕ → Watch → Dev → Call Dev
  make_watch_request user_id req_type tx_id w d =
      make_request user_id req_type w.wid tx_id
        ((w.path ++ (0 ∷ [])) ∷ (p.token w.wid ++ (0 ∷ [])) ∷ []) d

  -- All that is used of the buffer behind the header is passed on.
  abbrev pub forward_request : Dev → Call Dev
  forward_request d =
      make_request (req_id_of d.wbuf) (type_of d.wbuf) 0 (tx_id_of d.wbuf)
        (drop sizeof_msg d.wbuf ∷ []) d

  -- Everything buffered is discarded.
  abbrev pub write_trouble : Dev → Call (Errno × Dev)
  write_trouble d = ok (einval, record d { wbuf = [] })

  abbrev pub process_plain : Dev → Call (Errno × Dev)
  process_plain d =
      if tx_id_of d.wbuf /= 0 && not (member (tx_id_of d.wbuf) d.transactions)
      then write_trouble d
      else return no_error (forward_request d)

  abbrev pub process_start : Dev → Call (Errno × Dev)
  process_start d =
      let (got, d1) = xbd_malloc d in
      if tx_id_of d.wbuf /= 0
      then write_trouble d
      else if got
      then return no_error (forward_request d1)
      else ok (enomem, d1)

  abbrev pub process_end : Dev → Call (Errno × Dev)
  process_end d =
      if tx_id_of d.wbuf == 0
      then write_trouble d
      else if member (tx_id_of d.wbuf) d.transactions
      then return no_error
          (forward_request (record d { transactions = remove (tx_id_of d.wbuf) d.transactions }))
      else write_trouble d

  -- The watch and the copies of its two strings are three calls of xbd_malloc.
  abbrev pub new_watch : ℕ → List ℕ → List ℕ → Watch
  new_watch i path token = record {
    wid = i;
    path = path;
    user_token = token;
    visible_to_user = false;
  }

  abbrev pub add_watch : List ℕ → List ℕ → Dev → Call (Errno × Dev)
  add_watch path token d =
      let (got, d1) = xbd_malloc d in
      let (got_path, d2) = xbd_malloc d1 in
      let (got_token, d3) = xbd_malloc d2 in
      let w = new_watch d.calls path token in
      if not got
      then ok (enomem, d1)
      else if got_path && got_token
      then return no_error (
          make_watch_request (req_id_of d.wbuf) (type_of d.wbuf) (tx_id_of d.wbuf) w
            (record d3 { watches = w ∷ d3.watches }))
      else ok (enomem, d3)

  abbrev pub process_watch : Option (List ℕ × List ℕ) → Dev → Call (Errno × Dev)
  process_watch none d = write_trouble d
  process_watch (some (path, token)) d =
      if tx_id_of d.wbuf /= 0 then write_trouble d else add_watch path token d

  abbrev pub drop_watch : List ℕ → List ℕ → Option ℕ → Dev → Call (Errno × Dev)
  drop_watch path token none d = write_trouble d
  drop_watch path token (some i) d = return no_error (
      make_watch_request (req_id_of d.wbuf) (type_of d.wbuf) (tx_id_of d.wbuf)
        (new_watch i path token) (record d { watches = set_visible false i d.watches }))

  abbrev pub process_unwatch : Option (List ℕ × List ℕ) → Dev → Call (Errno × Dev)
  process_unwatch none d = write_trouble d
  process_unwatch (some (path, token)) d =
      if tx_id_of d.wbuf /= 0
      then write_trouble d
      else drop_watch path token (find_visible_watch path token d.watches) d

  abbrev pub switch : Kind → Dev → Call (Errno × Dev)
  switch plain d = process_plain d
  switch transaction_start d = process_start d
  switch transaction_end d = process_end d
  switch watch d = process_watch (watch_message_parse d.wbuf) d
  switch unwatch d = process_unwatch (watch_message_parse d.wbuf) d
  switch other d = write_trouble d

  unfoldable pub process_request : Dev → Call (Errno × Dev)
  process_request d =
      let (got, d1) = xbd_malloc d in
      if got then switch (kind (type_of d.wbuf)) d1 else ok (enomem, d1)
