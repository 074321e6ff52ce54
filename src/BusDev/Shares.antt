-- ===== src/BusDev/Shares.antt =====
-- rumpxendev/busdev.c: a message that is read in pieces.
use rumpuser_xen.Prelude.{
  length-drop, take_all, Bool-cases, ◌<◌, ◌≤◌, ◌∙◌, ap, sym, refl, inl, inr, take, drop, ◌++◌, ℕ,
  zero, suc, ◌+◌, ◌-◌, ◌≡◌, Bool, true, false, Option, none, some, List, [], ◌∷◌, arith, ◌==◌,
  length,
}
use rumpuser_xen.BusDev.{Proto, no_error, enomem, einval, eagain, erestart}
use rumpuser_xen.BusDev.Reading.{
  Reader, Read, returned, unset, waiting, crashed, unfinished, copied, with_rmsg, read_loop,
  dev_read,
}

length-take_fit : (n : ℕ) (xs : List ℕ) → n ≤ length xs → length (take n xs) ≡ n
length-take_fit zero xs l = refl
length-take_fit (suc n) [] l = absurd (omega (arith, l))
length-take_fit (suc n) (x ∷ xs) l = omega (arith, length-take_fit n xs (omega (arith, l)))

append_none : (xs : List ℕ) → xs ++ [] ≡ xs
append_none [] = refl
append_none (x ∷ xs) = ap (λ t. x ∷ t) (append_none xs)

take_rest : (n : ℕ) (xs : List ℕ) → take n xs ++ drop n xs ≡ xs
take_rest zero xs = refl
take_rest (suc n) [] = refl
take_rest (suc n) (x ∷ xs) = ap (λ t. x ∷ t) (take_rest n xs)

drop_nil : (n : ℕ) → drop {A = ℕ} n [] ≡ []
drop_nil zero = refl
drop_nil (suc n) = refl

drop-drop : (k n : ℕ) (xs : List ℕ) → drop (k + n) xs ≡ drop n (drop k xs)
drop-drop zero n xs = (let z : 0 + n ≡ n = omega arith in ap (λ t. drop t xs) z)
drop-drop (suc k) n [] = drop_nil (suc k + n) ∙ sym (drop_nil n)
drop-drop (suc k) n (x ∷ xs) =
    (let z : suc k + n ≡ suc (k + n) = omega arith in ap (λ t. drop t (x ∷ xs)) z)
    ∙ drop-drop k n xs

take_then : (n k : ℕ) (m : List ℕ) → take n (drop k m) ++ drop (k + n) m ≡ drop k m
take_then n k m = ap (λ t. take n (drop k m) ++ t) (drop-drop k n m) ∙ take_rest n (drop k m)

module _ (p : Proto) (header : ℕ → ℕ → ℕ → ℕ → List ℕ) (xs_watch_event : ℕ) where
  -- What a process gets that reads so many bytes at a time, until a read fails or sleeps.
  abbrev pub read_then : (Reader → List ℕ × Option Reader) → Read → List ℕ × Option Reader
  read_then rest (returned no_error out r) = (out ++ (rest r).0, (rest r).1)
  read_then rest (returned enomem out r) = (out, none)
  read_then rest (returned einval out r) = (out, none)
  read_then rest (returned eagain out r) = (out, none)
  read_then rest (returned erestart out r) = (out, none)
  read_then rest (unset r) = ([], none)
  read_then rest (waiting out r) = (out, none)
  read_then rest crashed = ([], none)
  read_then rest unfinished = ([], none)

  pub read_each : Bool → List ℕ → Reader → List ℕ × Option Reader
  read_each nonblock [] r = ([], some r)
  read_each nonblock (n ∷ ns) r =
      read_then (λ r'. read_each nonblock ns r') (dev_read p header xs_watch_event nonblock n r)

  copied_enomem :
      (n : ℕ) (m : List ℕ) (r : Reader)
      → (copied p header xs_watch_event n m r).queued_enomem ≡ r.queued_enomem
  copied_enomem n m r = elim (Bool-cases (r.rmsg_done + n == length m)) [
    | inl e ↦ rw e refl
    | inr e ↦ rw e refl
  ]

  read_nothing :
      (n : ℕ) (nonblock : Bool) (out : List ℕ) (r : Reader)
      → r.queued_enomem ≡ false
      → read_loop p header xs_watch_event (suc n) nonblock 0 out r ≡ returned no_error out r
  unfolding read_loop
  read_nothing n nonblock out r q = rw q refl

  -- A read that asks for no more than the rest of the message.
  dev_read_piece :
      (nonblock : Bool) (n : ℕ) (m : List ℕ) (r : Reader)
      → r.rmsg ≡ some m
      → r.queued_enomem ≡ false
      → 0 < n
      → r.rmsg_done + n ≤ length m
      → dev_read p header xs_watch_event nonblock n r
        ≡ returned no_error (take n (drop r.rmsg_done m)) (copied p header xs_watch_event n m r)
  unfolding dev_read read_loop
  dev_read_piece nonblock n m r e q some_n l =
      let new = take n (drop r.rmsg_done m) in
      let size : length new ≡ n =
        length-take_fit n (drop r.rmsg_done m) (omega (arith, length-drop r.rmsg_done m, l)) in
      let fuel : n + 1 ≡ suc (suc (n - 1)) = omega (arith, some_n) in
      let wanted : (n == 0) ≡ false = ground (arith, some_n) in
      let rest : ℕ → List ℕ → Reader → Read =
        λ resid' out' r'. read_loop p header xs_watch_event (suc (n - 1)) nonblock resid' out' r' in
      let start : read_loop p header xs_watch_event (suc (suc (n - 1))) nonblock n [] r
          ≡ with_rmsg p header xs_watch_event rest nonblock true n [] r.rmsg r =
        rw (q, wanted) refl in
      let zero_left : n - length new ≡ 0 = omega (arith, size) in
      ap (λ k. read_loop p header xs_watch_event k nonblock n [] r) fuel
      ∙ start
      ∙ ap (λ o. with_rmsg p header xs_watch_event rest nonblock true n [] o r) e
      ∙ ap (λ k. rest k new (copied p header xs_watch_event (length new) m r)) zero_left
      ∙ read_nothing (n - 1) nonblock new (copied p header xs_watch_event (length new) m r)
          (copied_enomem (length new) m r ∙ q)
      ∙ ap (λ k. returned no_error new (copied p header xs_watch_event k m r)) size

  -- So many bytes in all.
  abbrev pub sum : List ℕ → ℕ
  sum [] = 0
  sum (n ∷ ns) = n + sum ns

  dev_read_none :
      (nonblock : Bool) (r : Reader)
      → r.queued_enomem ≡ false
      → dev_read p header xs_watch_event nonblock 0 r ≡ returned no_error [] r
  unfolding dev_read
  dev_read_none nonblock r q =
      let fuel : 0 + 1 ≡ suc 0 = omega arith in
      ap (λ k. read_loop p header xs_watch_event k nonblock 0 [] r) fuel
      ∙ read_nothing 0 nonblock [] r q

  read_each_none :
      (nonblock : Bool) (ns : List ℕ) (r : Reader)
      → sum ns ≡ 0
      → r.queued_enomem ≡ false
      → read_each nonblock ns r ≡ ([], some r)
  unfolding read_each
  read_each_none nonblock [] r s q = refl
  read_each_none nonblock (n ∷ ns) r s q =
      let z : n ≡ 0 = omega (arith, s) in
      ap
        (λ k.
          read_then (λ r'. read_each nonblock ns r')
            (dev_read p header xs_watch_event nonblock k r))
        z
      ∙ ap (read_then (λ r'. read_each nonblock ns r')) (dev_read_none nonblock r q)
      ∙ read_each_none nonblock ns r (omega (arith, s)) q

  -- A message that is partly read and then read in pieces of any sizes, empty ones too, that come to the rest
  -- of it: the process gets the rest, and the next read starts with the next message.
  pub read_each-message :
      (nonblock : Bool) (ns : List ℕ) (m : List ℕ) (r : Reader)
      → r.rmsg ≡ some m
      → r.queued_enomem ≡ false
      → r.rmsg_done < length m
      → r.rmsg_done + sum ns ≡ length m
      → read_each nonblock ns r
        ≡ (drop r.rmsg_done m, some (record r { rmsg = none; rmsg_done = 0 }))
  unfolding read_each
  read_each-message nonblock [] m r e q l s = absurd (omega (arith, l, s))
  read_each-message nonblock (n ∷ ns) m r e q l s = elim (Bool-cases (n == 0)) [
    | inl z ↦
        let z' : n ≡ 0 = ground (arith, z) in
        ap
          (λ k.
            read_then (λ r'. read_each nonblock ns r')
              (dev_read p header xs_watch_event nonblock k r))
          z'
        ∙ ap (read_then (λ r'. read_each nonblock ns r')) (dev_read_none nonblock r q)
        ∙ read_each-message nonblock ns m r e q l (omega (arith, s, z'))
    | inr z ↦
        let some_n : 0 < n = ground (arith, z) in
        let new = take n (drop r.rmsg_done m) in
        let first =
          ap (read_then (λ r'. read_each nonblock ns r'))
            (dev_read_piece nonblock n m r e q some_n (omega (arith, s))) in
        elim (Bool-cases (r.rmsg_done + n == length m)) [
          | inl d ↦
              let end : copied p header xs_watch_event n m r
                  ≡ record r { rmsg = none; rmsg_done = 0 } =
                rw d refl in
              let whole : new ≡ drop r.rmsg_done m =
                take_all n (drop r.rmsg_done m) (ground (arith, length-drop r.rmsg_done m, d)) in
              let after_it =
                read_each_none nonblock ns (record r { rmsg = none; rmsg_done = 0 })
                  (ground (arith, d, s)) q in
              first
              ∙ ap (λ r'. read_then (λ t. read_each nonblock ns t) (returned no_error new r')) end
              ∙ ap (λ t. (new ++ t.0, t.1)) after_it
              ∙ ap (λ t. (t, some (record r { rmsg = none; rmsg_done = 0 })))
                  (append_none new ∙ whole)
          | inr d ↦
              let r1 : Reader = record r { rmsg_done = r.rmsg_done + n } in
              let end : copied p header xs_watch_event n m r ≡ r1 = rw d refl in
              let ih =
                read_each-message nonblock ns m r1 e q (ground (arith, d, s, l))
                  (omega (arith, s)) in
              first
              ∙ ap (λ r'. read_then (λ t. read_each nonblock ns t) (returned no_error new r')) end
              ∙ ap (λ t. (new ++ t.0, t.1)) ih
              ∙ ap (λ t. (t, some (record r { rmsg = none; rmsg_done = 0 })))
                  (take_then n r.rmsg_done m)
        ]
  ]
