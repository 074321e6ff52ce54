-- ===== src/BusDev/Asking.antt =====
-- rumpxendev/busdev.c: process_request keeps the device's books, and what it passes on.
use rumpuser_xen.Prelude.{
  sym, Bool, length-drop, ℕ, ◌+◌, ◌≤◌, ◌≡◌, ap, inl, inr, true, false, ◌&&◌, List, [], ◌∷◌, ◌++◌,
  arith, ◌==◌, ltb, if◌then◌else◌, length, drop, Bool-cases, ==_iff,
}
use rumpuser_xen.XenStore.Calls.{Call, ok, bug, hang, asleep}
use rumpuser_xen.BusDev.{
  added, Proto, Errno, no_error, Watch, Dev, int_max, set_visible, return, make_request, new_watch,
  process_request,
}
use mathlib.Core.Path.{subst}
use rumpuser_xen.XenStore.{total}
use rumpuser_xen.BusDev.Room.{open_at, make_request-all, make_request-goes, watch_bytes}
use rumpuser_xen.BusDev.Ways.{names_watch, process_request-Ends}
use rumpuser_xen.BusDev.Counts.{
  named, shown, asked, IsDev, shown-le-named, named-set_visible, shown-set_visible,
  find_visible_watch-shown,
}

module _ (p : Proto) where
  open p use {sizeof_msg, kind, type_of, req_id_of, tx_id_of}

  -- Whether the next request with so many bytes finds room.
  abbrev pub has_room : ℕ → Dev → Bool
  has_room bytes d = ltb d.outstanding_requests int_max && open_at p d.made bytes

  -- The books are right afterwards, and it neither stops nor sleeps but for lack of room.
  abbrev pub Booked : Bool → Call (Errno × Dev) → Type 0
  Booked room (ok (e, d)) = IsDev p d
  Booked room bug = room ≡ false
  Booked room hang = room ≡ false
  Booked room asleep = room ≡ false

  -- The request that is made puts the books right.
  abbrev pub NextRight : ℕ → ℕ → Dev → Type 0
  NextRight req_type u d =
      (i : ℕ)
      → shown i d.watches
          + asked p i d.requests
          + (if names_watch (kind req_type) && (u == i) then 1 else 0)
        ≡ named i d.watches

  pub added-IsDev :
      (user_id req_type u tx_id id : ℕ) (wreqs : List (List ℕ)) (d : Dev)
      → d.outstanding_requests ≡ length d.requests
      → ((i : ℕ) → named i d.watches ≤ 1)
      → ((i : ℕ) → d.calls ≤ i → named i d.watches ≡ 0)
      → NextRight req_type u d
      → IsDev p (added p user_id req_type u tx_id wreqs id d)
  added-IsDev user_id req_type u tx_id id wreqs d count once fresh tie = record {
    count = omega (arith, count);
    once = once;
    tie = λ i. omega (arith, tie i);
    fresh = fresh;
  }

  make_request_right :
      (user_id req_type u tx_id bytes : ℕ) (wreqs : List (List ℕ)) (d : Dev)
      → total wreqs ≤ bytes
      → d.outstanding_requests ≡ length d.requests
      → ((i : ℕ) → named i d.watches ≤ 1)
      → ((i : ℕ) → d.calls ≤ i → named i d.watches ≡ 0)
      → NextRight req_type u d
      → Booked
          (has_room bytes d)
          (return no_error (make_request p user_id req_type u tx_id wreqs d))
  make_request_right user_id req_type u tx_id bytes wreqs d small count once fresh tie =
      let P : Call Dev → Type 0 = λ c. Booked (has_room bytes d) (return no_error c) in
      let good = λ (id : ℕ). added-IsDev user_id req_type u tx_id id wreqs d count once fresh tie in
      elim (Bool-cases (has_room bytes d)) [
        | inl e ↦
            let (id, r) =
              make_request-goes p user_id req_type u tx_id wreqs d bytes (ground (arith, e)) small
                (ground (arith, e)) in
            subst P (sym r) (good id)
        | inr e ↦ make_request-all p user_id req_type u tx_id wreqs d P good e e e
      ]

  one_more :
      (i j : ℕ) (ws : List Watch)
      → named i ws ≡ 0
      → named j ws ≤ 1
      → (if i == j then 1 else 0) + named j ws ≤ 1
  one_more i j ws z l = elim (Bool-cases (i == j)) [
    | inl e ↦ ground (arith, e, z, ap (λ k. named k ws) ((==_iff i j).0 e))
    | inr e ↦ ground (arith, e, l)
  ]

  -- A request, whatever it is, keeps the books, and so does one that is refused or finds no memory: each watch stays
  -- visible or has one request about it under way. It returns, without a failed assertion or BUG_ON and without a
  -- sleep in xenbus, unless INT_MAX requests are under way, no identifier is free, the ring has no room for the header and
  -- 22 bytes more than the buffer holds, or the reader's index is within the ring's size of 2 ^ 32.
  pub process_request-IsDev :
      (d : Dev) → IsDev p d → Booked (has_room (length d.wbuf + 22) d) (process_request p d)
  process_request-IsDev d w =
      process_request-Ends p d (Booked (has_room (length d.wbuf + 22) d)) (record {
        trouble = λ c l. record {
          count = w.count;
          once = w.once;
          tie = w.tie;
          fresh = λ i m. w.fresh i (omega (arith, l, m));
        };
        no_memory = λ c l. record {
          count = w.count;
          once = w.once;
          tie = w.tie;
          fresh = λ i m. w.fresh i (omega (arith, l, m));
        };
        passed_on = λ c trs l k.
            make_request_right (req_id_of d.wbuf) (type_of d.wbuf) 0 (tx_id_of d.wbuf)
              (length d.wbuf + 22) (drop sizeof_msg d.wbuf ∷ [])
              (record d { calls = c; transactions = trs })
              (omega (arith, length-drop sizeof_msg d.wbuf)) w.count w.once
              (λ i m. w.fresh i (omega (arith, l, m))) (λ i. ground (arith, w.tie i, k));
        asked_for = λ c i path token l l' k short.
            let k' : names_watch (kind (type_of d.wbuf)) ≡ true = ap names_watch k in
            make_request_right (req_id_of d.wbuf) (type_of d.wbuf) i (tx_id_of d.wbuf)
              (length d.wbuf + 22) ((path ++ (0 ∷ [])) ∷ (p.token i ++ (0 ∷ [])) ∷ [])
              (record d { calls = c; watches = new_watch p i path token ∷ d.watches })
              (omega (arith, watch_bytes p path i, short)) w.count
              (λ j. one_more i j d.watches (w.fresh i l) (w.once j))
              (λ j m. ground (arith, w.fresh j (omega (arith, l, l', m)), l', m))
              (λ j. ground (arith, w.tie j, k'));
        to_go = λ c i path token l k f short.
            let k' : names_watch (kind (type_of d.wbuf)) ≡ true = ap names_watch k in
            let visible = find_visible_watch-shown path token d.watches i f in
            let one : named i d.watches ≡ 1 =
              omega (arith, visible, shown-le-named i d.watches, w.once i) in
            make_request_right (req_id_of d.wbuf) (type_of d.wbuf) i (tx_id_of d.wbuf)
              (length d.wbuf + 22) ((path ++ (0 ∷ [])) ∷ (p.token i ++ (0 ∷ [])) ∷ [])
              (record d { calls = c; watches = set_visible false i d.watches })
              (omega (arith, watch_bytes p path i, short)) w.count
              (λ j. omega (arith, named-set_visible false i j d.watches, w.once j))
              (λ j m.
                omega
                  (arith, named-set_visible false i j d.watches, w.fresh j (omega (arith, l, m))))
              (λ j. ground (
                arith,
                w.tie j,
                w.tie i,
                visible,
                one,
                k',
                named-set_visible false i j d.watches,
                shown-set_visible false i j d.watches one,
              ));
      })
