-- ===== src/BusDev/Room.antt =====
-- rumpxendev/busdev.c: what make_request comes to, and when it neither stops nor sleeps.
use rumpuser_xen.Prelude.{
  ℕ, ◌+◌, ◌≤◌, ◌<◌, ◌≡◌, ap, ◌∙◌, Bool, true, false, List, [], ◌∷◌, ◌++◌, arith, ltb, if◌then◌else◌,
  length, length-append,
}
use rumpuser_xen.XenStore.{total, id_allocate, xb_write}
use rumpuser_xen.XenStore.Sending.{
  allocated, sent_off, sent_off-all, is_open, allocated_lem, sent_off_lem,
}
use rumpuser_xen.XenStore.Calls.{Call, ok, bug, hang, asleep}
use rumpuser_xen.BusDev.{Proto, Dev, int_max, added, with_id, make_request}

module _ (p : Proto) where
  -- The n-th call of make_request has an identifier, and room for so many bytes behind the header.
  abbrev pub open_at : ℕ → ℕ → Bool
  open_at n bytes = is_open p.wire bytes (p.requests_at n) (p.ring_at n)

  module _ (user_id req_type u tx_id : ℕ) (wreqs : List (List ℕ)) (d : Dev) where
    either :
        (P : Call Dev → Type 0) (b : Bool) {x : Call Dev} → P x → P bug → P (if b then x else bug)
    either P true a c = a
    either P false a c = c

    with_id-all :
        (P : Call Dev → Type 0)
        → ((id : ℕ) → P (ok (added p user_id req_type u tx_id wreqs id d)))
        → P bug
        → P hang
        → P asleep
        → (c : Call ℕ) → P (with_id p user_id req_type u tx_id wreqs d c)
    with_id-all P good stop endless sleep (ok id) =
        either P (ltb d.outstanding_requests int_max)
          (sent_off-all P (added p user_id req_type u tx_id wreqs id d)
            (xb_write p.wire req_type id tx_id wreqs (p.ring_at d.made)) (good id) stop endless
            sleep)
          stop
    with_id-all P good stop endless sleep bug = stop
    with_id-all P good stop endless sleep hang = endless
    with_id-all P good stop endless sleep asleep = sleep

    -- A property of what it comes to, in every case.
    pub make_request-all :
        (P : Call Dev → Type 0)
        → ((id : ℕ) → P (ok (added p user_id req_type u tx_id wreqs id d)))
        → P bug
        → P hang
        → P asleep
        → P (make_request p user_id req_type u tx_id wreqs d)
    unfolding make_request
    make_request-all P good stop endless sleep =
        with_id-all P good stop endless sleep
          (allocated (id_allocate p.queue d.made (p.requests_at d.made)))

    -- With room it returns.
    pub make_request-goes :
        (bytes : ℕ)
        → open_at d.made bytes ≡ true
        → total wreqs ≤ bytes
        → d.outstanding_requests < int_max
        → (id : ℕ) × (make_request p user_id req_type u tx_id wreqs d
            ≡ ok (added p user_id req_type u tx_id wreqs id d))
    unfolding make_request
    make_request-goes bytes o l few =
        let (id, e) =
          allocated_lem p.queue d.made (p.requests_at d.made) p.queue_set
            (p.requests_counted d.made) (ground (arith, o)) in
        let room : ltb d.outstanding_requests int_max ≡ true = ground (arith, few) in
        let x = added p user_id req_type u tx_id wreqs id d in
        let w =
          sent_off_lem x p.wire req_type id tx_id bytes wreqs (p.ring_at d.made)
            (p.ring_words d.made) l (ground (arith, o)) (ground (arith, o)) in
        (
          id,
          ap (with_id p user_id req_type u tx_id wreqs d) e
              ∙ ap
                  (λ t.
                    if t
                    then sent_off x (xb_write p.wire req_type id tx_id wreqs (p.ring_at d.made))
                    else bug)
                  room
              ∙ w,
        )

  -- How many bytes a request about a watch has, its NULs and the token counted.
  pub watch_bytes :
      (path : List ℕ) (i : ℕ)
      → total ((path ++ (0 ∷ [])) ∷ (p.token i ++ (0 ∷ [])) ∷ []) ≤ length path + 22
  watch_bytes path i =
      omega
        (arith, length-append path (0 ∷ []), length-append (p.token i) (0 ∷ []), p.token_short i)
