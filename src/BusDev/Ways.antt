-- ===== src/BusDev/Ways.antt =====
-- rumpxendev/busdev.c: what process_request can come to, whatever the request.
use rumpuser_xen.Prelude.{
  zero, suc, inl, inr, ◌≡◌, List, [], ◌∷◌, Bool-cases, length, length-drop, take, drop, ◌≤◌, ℕ, ◌+◌,
  ◌<◌, refl, ap, Bool, true, false, not, ◌&&◌, Option, none, some, arith, ◌==◌, ◌/=◌, if◌then◌else◌,
  member, remove,
}
use rumpuser_xen.XenStore.Calls.{Call, ok}
use rumpuser_xen.BusDev.{
  past, with_token, with_path, watch_message_parse_string, Kind, plain, transaction_start,
  transaction_end, watch, unwatch, other, Proto, Errno, no_error, enomem, einval, Dev,
  find_visible_watch, set_visible, return, watch_message_parse, make_watch_request, forward_request,
  new_watch, add_watch, process_watch, drop_watch, process_unwatch, switch, process_request,
}

-- Whether a request of the kind names a watch.
abbrev pub names_watch : Kind → Bool
names_watch plain = false
names_watch transaction_start = false
names_watch transaction_end = false
names_watch watch = true
names_watch unwatch = true
names_watch other = false

length-take_short : (n : ℕ) (xs : List ℕ) → length (take n xs) ≤ length xs
length-take_short zero xs = omega arith
length-take_short (suc n) [] = omega arith
length-take_short (suc n) (x ∷ xs) = omega (arith, length-take_short n xs)

-- A first string of at most so many bytes.
abbrev IsWithin : ℕ → Option (List ℕ × List ℕ) → Type 0
IsWithin n none = Unit
IsWithin n (some (s, rest)) = length s ≤ n

past-IsWithin :
    (n x : ℕ) (o : Option (List ℕ × List ℕ)) → IsWithin n o → IsWithin (suc n) (past x o)
past-IsWithin n x none h = tt
past-IsWithin n x (some (s, rest)) h = omega (arith, h)

parse_one-IsWithin : (xs : List ℕ) → IsWithin (length xs) (watch_message_parse_string xs)
unfolding watch_message_parse_string
parse_one-IsWithin [] = tt
parse_one-IsWithin (x ∷ xs) = elim (Bool-cases (x == 0)) [
  | inl e ↦ rw e (omega arith)
  | inr e ↦
      rw e (past-IsWithin (length xs) x (watch_message_parse_string xs) (parse_one-IsWithin xs))
]

token-IsWithin :
    (n : ℕ) (path : List ℕ) (o : Option (List ℕ × List ℕ))
    → length path ≤ n
    → IsWithin n (with_token path o)
token-IsWithin n path none l = tt
token-IsWithin n path (some (token, rest)) l = l

path-IsWithin :
    (n m : ℕ) (o : Option (List ℕ × List ℕ)) → n ≤ m → IsWithin n o → IsWithin m (with_path o)
path-IsWithin n m none l h = tt
path-IsWithin n m (some (path, rest)) l h =
    token-IsWithin m path (watch_message_parse_string rest) (omega (arith, h, l))

parse-IsWithin : (p : Proto) (msg : List ℕ) → IsWithin (length msg) (watch_message_parse p msg)
unfolding watch_message_parse
parse-IsWithin p msg =
    let body = take (p.len_of msg) (drop p.sizeof_msg msg) in
    path-IsWithin (length body) (length msg) (watch_message_parse_string body)
      (omega (
        arith,
        length-take_short (p.len_of msg) (drop p.sizeof_msg msg),
        length-drop p.sizeof_msg msg,
      ))
      (parse_one-IsWithin body)

module _ (p : Proto) where
  open p use {type_of, req_id_of, tx_id_of, kind}

  -- What holds of each way in which process_request ends: the buffer is discarded; there is no memory; a request is
  -- passed on; a watch is asked for, which is new; a watch that is visible is to go.
  pub record Ends (d : Dev) (P : Call (Errno × Dev) → Type 0) : Type 0 where
    pub trouble : (c : ℕ) → d.calls ≤ c → P (ok (einval, record d { calls = c; wbuf = [] }))
    pub no_memory : (c : ℕ) → d.calls ≤ c → P (ok (enomem, record d { calls = c }))
    pub passed_on :
        (c : ℕ) (trs : List ℕ)
        → d.calls ≤ c
        → names_watch (kind (type_of d.wbuf)) ≡ false
        → P (return no_error (forward_request p (record d { calls = c; transactions = trs })))
    pub asked_for :
        (c i : ℕ) (path token : List ℕ)
        → d.calls ≤ i
        → i < c
        → kind (type_of d.wbuf) ≡ watch
        → length path ≤ length d.wbuf
        → let w = new_watch p i path token in
          P (
            return no_error (
              make_watch_request p
                (req_id_of d.wbuf)
                (type_of d.wbuf)
                (tx_id_of d.wbuf)
                w
                (record d { calls = c; watches = w ∷ d.watches })))
    pub to_go :
        (c i : ℕ) (path token : List ℕ)
        → d.calls ≤ c
        → kind (type_of d.wbuf) ≡ unwatch
        → find_visible_watch path token d.watches ≡ some i
        → length path ≤ length d.wbuf
        → P (
            return no_error (
              make_watch_request p
                (req_id_of d.wbuf)
                (type_of d.wbuf)
                (tx_id_of d.wbuf)
                (new_watch p i path token)
                (record d { calls = c; watches = set_visible false i d.watches })))

  module _ (d : Dev) (P : Call (Errno × Dev) → Type 0) (e : Ends d P) where
    abbrev d1 : Dev
    d1 = record d { calls = d.calls + 1 }

    if_either : {x y : Call (Errno × Dev)} (b : Bool) → P x → P y → P (if b then x else y)
    if_either true a c = a
    if_either false a c = c

    add_watch-Ends :
        (path token : List ℕ)
        → kind (type_of d.wbuf) ≡ watch
        → length path ≤ length d.wbuf
        → P (add_watch p path token d1)
    add_watch-Ends path token k z =
        if_either (not (p.has_memory d1.calls)) (e.no_memory (d.calls + 1 + 1) (omega arith)) (
          if_either (p.has_memory (d1.calls + 1) && p.has_memory (d1.calls + 1 + 1))
            (e.asked_for (d.calls + 1 + 1 + 1 + 1) (d.calls + 1) path token (omega arith)
              (omega arith) k z)
            (e.no_memory (d.calls + 1 + 1 + 1 + 1) (omega arith)))

    drop_watch-Ends :
        (path token : List ℕ) (o : Option ℕ)
        → kind (type_of d.wbuf) ≡ unwatch
        → find_visible_watch path token d.watches ≡ o
        → length path ≤ length d.wbuf
        → P (drop_watch p path token o d1)
    drop_watch-Ends path token none k f z = e.trouble (d.calls + 1) (omega arith)
    drop_watch-Ends path token (some i) k f z =
        e.to_go (d.calls + 1) i path token (omega arith) k f z

    process_watch-Ends :
        (o : Option (List ℕ × List ℕ))
        → kind (type_of d.wbuf) ≡ watch
        → IsWithin (length d.wbuf) o
        → P (process_watch p o d1)
    process_watch-Ends none k z = e.trouble (d.calls + 1) (omega arith)
    process_watch-Ends (some (path, token)) k z =
        if_either (tx_id_of d.wbuf /= 0) (e.trouble (d.calls + 1) (omega arith))
          (add_watch-Ends path token k z)

    process_unwatch-Ends :
        (o : Option (List ℕ × List ℕ))
        → kind (type_of d.wbuf) ≡ unwatch
        → IsWithin (length d.wbuf) o
        → P (process_unwatch p o d1)
    process_unwatch-Ends none k z = e.trouble (d.calls + 1) (omega arith)
    process_unwatch-Ends (some (path, token)) k z =
        if_either (tx_id_of d.wbuf /= 0) (e.trouble (d.calls + 1) (omega arith))
          (drop_watch-Ends path token (find_visible_watch path token d.watches) k refl z)

    switch-Ends : (k : Kind) → kind (type_of d.wbuf) ≡ k → P (switch p k d1)
    switch-Ends plain k =
        if_either (tx_id_of d.wbuf /= 0 && not (member (tx_id_of d.wbuf) d.transactions))
          (e.trouble (d.calls + 1) (omega arith))
          (e.passed_on (d.calls + 1) d.transactions (omega arith) (ap names_watch k))
    switch-Ends transaction_start k =
        if_either (tx_id_of d.wbuf /= 0) (e.trouble (d.calls + 1) (omega arith)) (
          if_either (p.has_memory (d.calls + 1))
            (e.passed_on (d.calls + 1 + 1) d.transactions (omega arith) (ap names_watch k))
            (e.no_memory (d.calls + 1 + 1) (omega arith)))
    switch-Ends transaction_end k =
        if_either (tx_id_of d.wbuf == 0) (e.trouble (d.calls + 1) (omega arith)) (
          if_either (member (tx_id_of d.wbuf) d.transactions)
            (e.passed_on (d.calls + 1) (remove (tx_id_of d.wbuf) d.transactions) (omega arith)
              (ap names_watch k))
            (e.trouble (d.calls + 1) (omega arith)))
    switch-Ends watch k =
        process_watch-Ends (watch_message_parse p d.wbuf) k (parse-IsWithin p d.wbuf)
    switch-Ends unwatch k =
        process_unwatch-Ends (watch_message_parse p d.wbuf) k (parse-IsWithin p d.wbuf)
    switch-Ends other k = e.trouble (d.calls + 1) (omega arith)

    pub process_request-Ends : P (process_request p d)
    unfolding process_request
    process_request-Ends =
        if_either (p.has_memory d.calls) (switch-Ends (kind (type_of d.wbuf)) refl)
          (e.no_memory (d.calls + 1) (omega arith))
