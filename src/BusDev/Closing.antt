-- ===== src/BusDev/Closing.antt =====
-- rumpxendev/busdev.c: xenbus_dev_close takes everything back.
use rumpuser_xen.Prelude.{
  All, ℕ, ◌+◌, ◌≤◌, ◌<◌, ◌≡◌, refl, ap, ◌∙◌, inl, inr, Bool, true, false, ◌||◌, List, [], ◌∷◌, ◌++◌,
  arith, ◌==◌, ◌/=◌, if◌then◌else◌, length, remove, List-cases, Bool-cases, ==_refl,
}
use rumpuser_xen.XenStore.Calls.{ok}
use rumpuser_xen.BusDev.{
  added, Proto, Watch, Dev, int_max, set_visible, make_request, make_watch_request,
}
use rumpuser_xen.XenStore.{total}
use rumpuser_xen.BusDev.Room.{open_at, make_request-goes, watch_bytes}
use rumpuser_xen.BusDev.Asking.{NextRight, added-IsDev}
use rumpuser_xen.BusDev.Ways.{names_watch}
use rumpuser_xen.BusDev.Answers.{and_next, close_watches, close_transactions, close_round}
use rumpuser_xen.BusDev.Counts.{
  named, shown, asked, IsDev, shown-le-named, named-set_visible, shown-set_visible,
}

abbrev pub is_empty {ℓ} : {A : Type ℓ} → List A → Bool
is_empty [] = true
is_empty (x ∷ xs) = false

-- xenbus has an identifier and room for so many bytes at every call; the string "F" is two.
module _ (p : Proto) (bytes : ℕ) (opened : (n : ℕ) → open_at p n bytes ≡ true)
    (two : 2 ≤ bytes) where
  open p use {kind, xs_unwatch, xs_transaction_end}

  -- Requests about the watches are no longer.
  abbrev pub AllFit : List Watch → Type 0
  AllFit ws = All (λ w. length w.path + 22 ≤ bytes) ws

  -- A request that is made while there is room.
  record Made (d d' : Dev) : Type 0 where
    same_watches : d'.watches ≡ d.watches
    same_transactions : d'.transactions ≡ d.transactions
    one_more : d'.outstanding_requests ≡ d.outstanding_requests + 1
    right : IsDev p d'

  make_request-Made :
      (req_type u tx_id : ℕ) (wreqs : List (List ℕ)) (d : Dev)
      → total wreqs ≤ bytes
      → d.outstanding_requests < int_max
      → d.outstanding_requests ≡ length d.requests
      → ((i : ℕ) → named i d.watches ≤ 1)
      → ((i : ℕ) → d.calls ≤ i → named i d.watches ≡ 0)
      → NextRight p req_type u d
      → (d' : Dev) × (make_request p 0 req_type u tx_id wreqs d ≡ ok d') × Made d d'
  make_request-Made req_type u tx_id wreqs d small l count once fresh tie =
      let (id, r) = make_request-goes p 0 req_type u tx_id wreqs d bytes (opened d.made) small l in
      (
        added p 0 req_type u tx_id wreqs id d,
        r,
        record {
          same_watches = refl;
          same_transactions = refl;
          one_more = refl;
          right = added-IsDev p 0 req_type u tx_id id wreqs d count once fresh tie;
        },
      )

  close_watches-hidden :
      (ws : List Watch) (d : Dev)
      → IsDev p d
      → AllFit ws
      → ((i : ℕ) → named i ws ≤ 1)
      → ((i : ℕ) → shown i d.watches ≡ shown i ws)
      → d.outstanding_requests + length ws ≤ int_max
      → (d' : Dev) × (close_watches p ws d ≡ ok d')
        × IsDev p d'
        × ((i : ℕ) → shown i d'.watches ≡ 0)
        × (d'.transactions ≡ d.transactions)
        × (d'.outstanding_requests ≤ d.outstanding_requests + length ws)
  unfolding close_watches
  close_watches-hidden [] d w fit once same l = (d, refl, w, same, refl, omega arith)
  close_watches-hidden (x ∷ ws) d w (fit, fits) once same l = elim (Bool-cases x.visible_to_user) [
    | inr e ↦
        let (d', c, w', none_shown, trs, few) =
          close_watches-hidden ws d w fits (λ i. omega (arith, once i))
            (λ i. ground (arith, same i, e)) (omega (arith, l)) in
        let skip : close_watches p (x ∷ ws) d ≡ close_watches p ws d = rw e refl in
        (d', skip ∙ c, w', none_shown, trs, omega (arith, few))
    | inl e ↦
        let i = x.wid in
        let own : (i == i) ≡ true = ==_refl i in
        let le = shown-le-named i d.watches in
        let visible : shown i d.watches ≡ 1 = ground (arith, same i, e, own, le, w.once i) in
        let one : named i d.watches ≡ 1 = omega (arith, le, visible, w.once i) in
        let k : names_watch (kind xs_unwatch) ≡ true = ap names_watch p.kind_unwatch in
        let d1 : Dev = record d { watches = set_visible false i d.watches } in
        let (d2, made, m) =
          make_request-Made xs_unwatch i 0 ((x.path ++ (0 ∷ [])) ∷ (p.token i ++ (0 ∷ [])) ∷ []) d1
            (omega (arith, watch_bytes p x.path i, fit)) (omega (arith, l)) w.count
            (λ j. omega (arith, named-set_visible false i j d.watches, w.once j))
            (λ j u. omega (arith, named-set_visible false i j d.watches, w.fresh j u))
            (λ j. ground (
              arith,
              w.tie j,
              w.tie i,
              visible,
              one,
              k,
              named-set_visible false i j d.watches,
              shown-set_visible false i j d.watches one,
            )) in
        let rest : (j : ℕ) → shown j d2.watches ≡ shown j ws = λ j.
          ap (shown j) m.same_watches
          ∙ shown-set_visible false i j d.watches one
          ∙ ground (arith, same j, e, once j, shown-le-named j ws) in
        let (d', c, w', none_shown, trs, few) =
          close_watches-hidden ws d2 m.right fits (λ j. omega (arith, once j)) rest
            (omega (arith, l, m.one_more)) in
        let go : close_watches p (x ∷ ws) d
            ≡ and_next (make_watch_request p 0 xs_unwatch 0 x d1) (λ d3. close_watches p ws d3) =
          rw e refl in
        (
          d',
          go ∙ ap (λ o. and_next o (λ d3. close_watches p ws d3)) made ∙ c,
          w',
          none_shown,
          trs ∙ m.same_transactions,
          omega (arith, few, m.one_more),
        )
  ]

  close_transactions-none :
      (ts : List ℕ) (d : Dev)
      → IsDev p d
      → d.transactions ≡ ts
      → ((i : ℕ) → shown i d.watches ≡ 0)
      → d.outstanding_requests + length ts ≤ int_max
      → (d' : Dev) × (close_transactions p ts d ≡ ok d')
        × IsDev p d'
        × ((i : ℕ) → shown i d'.watches ≡ 0)
        × (d'.transactions ≡ [])
  unfolding close_transactions
  close_transactions-none [] d w e none_shown l = (d, refl, w, none_shown, e)
  close_transactions-none (t ∷ ts) d w e none_shown l =
      let k : names_watch (kind xs_transaction_end) ≡ false = ap names_watch p.kind_end in
      let d1 : Dev = record d { transactions = remove t d.transactions } in
      let (d2, made, m) =
        make_request-Made xs_transaction_end 0 t ((70 ∷ 0 ∷ []) ∷ []) d1 (omega (arith, two))
          (omega (arith, l)) w.count w.once w.fresh (λ i. ground (arith, w.tie i, k)) in
      let first : remove t (t ∷ ts) ≡ ts = rw (==_refl t) refl in
      let (d', c, w', hidden, none_left) =
        close_transactions-none ts d2 m.right (m.same_transactions ∙ ap (remove t) e ∙ first)
          (λ i. ap (shown i) m.same_watches ∙ none_shown i) (omega (arith, l, m.one_more)) in
      (d', ap (λ o. and_next o (λ d3. close_transactions p ts d3)) made ∙ c, w', hidden, none_left)

  -- A watch that is there has a visible one or a request.
  no_watches :
      (d : Dev)
      → IsDev p d
      → ((i : ℕ) → shown i d.watches ≡ 0)
      → (d.outstanding_requests /= 0 || is_empty d.watches) ≡ true
  no_watches d w hidden = elim (List-cases d.watches) [
    | inl e ↦ ap (λ ws. d.outstanding_requests /= 0 || is_empty ws) e ∙ ground arith
    | inr (x, ws, e) ↦
        let own : (x.wid == x.wid) ≡ true = ==_refl x.wid in
        let one : 1 ≤ (if x.wid == x.wid then 1 else 0) + named x.wid ws = ground (arith, own) in
        let here : 1 ≤ named x.wid d.watches = omega (arith, ap (named x.wid) e, one) in
        elim (List-cases d.requests) [
          | inl e2 ↦ absurd (omega (arith, here, w.tie x.wid, hidden x.wid, ap (asked p x.wid) e2))
          | inr (r, rs, e2) ↦ ground (arith, w.count, ap length e2)
        ]
  ]

  -- A round of the loop of xenbus_dev_close, while xenbus has an identifier and room on its ring for each of its
  -- requests, with the reader's index more than the ring's size below 2 ^ 32, and with room for them below
  -- INT_MAX: it stops at no assertion or BUG_ON and does not sleep in xenbus, the books stay right, no transaction is left, and
  -- either a request is under way, whose answer the close waits for, or no watch is left, as the
  -- assertions behind the loop demand.
  pub close_round-IsDev :
      (d : Dev)
      → IsDev p d
      → AllFit d.watches
      → d.outstanding_requests + length d.watches + length d.transactions ≤ int_max
      → (d' : Dev) × (close_round p d ≡ ok d')
        × IsDev p d'
        × (d'.transactions ≡ [])
        × ((d'.outstanding_requests /= 0 || is_empty d'.watches) ≡ true)
  unfolding close_round
  close_round-IsDev d w fits l =
      let (d1, c1, w1, hidden1, trs, few) =
        close_watches-hidden d.watches d w fits w.once (λ i. refl) (omega (arith, l)) in
      let (d2, c2, w2, hidden2, none_left) =
        close_transactions-none d1.transactions d1 w1 refl hidden1
          (omega (arith, l, few, ap length trs)) in
      (
        d2,
        ap (λ o. and_next o (λ d3. close_transactions p d3.transactions d3)) c1 ∙ c2,
        w2,
        none_left,
        no_watches d2 w2 hidden2,
      )
