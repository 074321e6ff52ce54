-- ===== src/Events/Pending.antt =====
-- xen/hypervisor.c: which events the sweep over the words leaves pending.
use mathlib.Core.Path.{subst}
use rumpuser_xen.Prelude.{
  ℕ, zero, suc, ◌+◌, ◌*◌, ◌<◌, ◌≡◌, refl, ap, ◌∙◌, inl, inr, Bool, true, false, not, ◌&&◌, arith,
  ◌==◌, ltb, if◌then◌else◌, Bool-cases, ==_iff, leb,
}
use rumpuser_xen.Events.{Call, Events, active, do_event}
use rumpuser_xen.Events.Sweep.{
  Quiet, sweep_word, sweep, do_event-masked, sweep_word_on, sweep_word_off, sweep_on, sweep_off,
  do_event-pending,
}

module _ (run : Call → Events → Events) (q : Quiet run) where
  sweep_word-masked : (n w k : ℕ) (e : Events) → (sweep_word run n w k e).masked ≡ e.masked
  unfolding sweep_word
  sweep_word-masked zero w k e = refl
  sweep_word-masked (suc n) w k e = elim (Bool-cases (active e (w * 64 + k))) [
    | inr a ↦ rw (sweep_word_off run n w k e a) (sweep_word-masked n w (k + 1) e)
    | inl a ↦ rw (sweep_word_on run n w k e a) (
        sweep_word-masked n w (k + 1) (do_event run (w * 64 + k) e)
        ∙ do_event-masked run q (w * 64 + k) e)
  ]

  pending_off :
      (w k n p : ℕ) (e : Events)
      → active e (w * 64 + k) ≡ false
      → (if leb (w * 64 + (k + 1)) p && ltb p (w * 64 + (k + 1) + n) && not (e.masked p)
          then false
          else e.pending p)
        ≡ (if leb (w * 64 + k) p && ltb p (w * 64 + k + suc n) && not (e.masked p)
            then false
            else e.pending p)
  pending_off w k n p e a = elim (Bool-cases ((w * 64 + k) == p)) [
    | inl b ↦
        let a' : active e p ≡ false =
          subst (λ m. active e m ≡ false) ((==_iff (w * 64 + k) p).0 b) a in
        ground (arith, a')
    | inr b ↦ ground (arith, b)
  ]

  pending_on :
      (w k n p : ℕ) (e : Events)
      → active e (w * 64 + k) ≡ true
      → (let e' = do_event run (w * 64 + k) e in
          if leb (w * 64 + (k + 1)) p && ltb p (w * 64 + (k + 1) + n) && not (e'.masked p)
          then false
          else e'.pending p)
        ≡ (if leb (w * 64 + k) p && ltb p (w * 64 + k + suc n) && not (e.masked p)
            then false
            else e.pending p)
  pending_on w k n p e a = elim (Bool-cases ((w * 64 + k) == p)) [
    | inl b ↦
        let a' : active e p ≡ true =
          subst (λ m. active e m ≡ true) ((==_iff (w * 64 + k) p).0 b) a in
        ground (
          arith,
          a',
          b,
          do_event-pending run q (w * 64 + k) p e,
          ap (λ f. f p) (do_event-masked run q (w * 64 + k) e),
        )
    | inr b ↦ ground (
      arith,
      b,
      do_event-pending run q (w * 64 + k) p e,
      ap (λ f. f p) (do_event-masked run q (w * 64 + k) e),
    )
  ]

  sweep_word-pending :
      (n w k p : ℕ) (e : Events)
      → (sweep_word run n w k e).pending p ≡ (
          if leb (w * 64 + k) p && ltb p (w * 64 + k + n) && not (e.masked p)
          then false
          else e.pending p)
  unfolding sweep_word
  sweep_word-pending zero w k p e = ground arith
  sweep_word-pending (suc n) w k p e = elim (Bool-cases (active e (w * 64 + k))) [
    | inr a ↦
        rw (sweep_word_off run n w k e a)
          (sweep_word-pending n w (k + 1) p e ∙ pending_off w k n p e a)
    | inl a ↦
        rw (sweep_word_on run n w k e a)
          (sweep_word-pending n w (k + 1) p (do_event run (w * 64 + k) e) ∙ pending_on w k n p e a)
  ]

  word_selected :
      (n w i j : ℕ) (l1 : ℕ → Bool) (e : Events)
      → j < 64
      → l1 w ≡ true
      → (let e' = sweep_word run 64 w 0 e in
          if leb (w + 1) i && ltb i (w + 1 + n) && l1 i && not (e'.masked (i * 64 + j))
          then false
          else e'.pending (i * 64 + j))
        ≡ (if leb w i && ltb i (w + suc n) && l1 i && not (e.masked (i * 64 + j))
            then false
            else e.pending (i * 64 + j))
  word_selected n w i j l1 e c a =
      let p = sweep_word-pending 64 w 0 (i * 64 + j) e in
      let m = ap (λ f. f (i * 64 + j)) (sweep_word-masked 64 w 0 e) in
      elim (Bool-cases (w == i)) [
        | inl b ↦
            let a' : l1 i ≡ true = subst (λ k. l1 k ≡ true) ((==_iff w i).0 b) a in
            ground (arith, a', b, p, m)
        | inr b ↦ ground (arith, b, p, m)
      ]

  word_skipped :
      (n w i j : ℕ) (l1 : ℕ → Bool) (e : Events)
      → l1 w ≡ false
      → (if leb (w + 1) i && ltb i (w + 1 + n) && l1 i && not (e.masked (i * 64 + j))
          then false
          else e.pending (i * 64 + j))
        ≡ (if leb w i && ltb i (w + suc n) && l1 i && not (e.masked (i * 64 + j))
            then false
            else e.pending (i * 64 + j))
  word_skipped n w i j l1 e a = elim (Bool-cases (w == i)) [
    | inl b ↦
        let a' : l1 i ≡ false = subst (λ k. l1 k ≡ false) ((==_iff w i).0 b) a in
        ground (arith, a', b)
    | inr b ↦ ground (arith, b)
  ]

  -- Of the words that are selected only masked events are left pending; all else is as before.
  pub sweep-pending :
      (n w i j : ℕ) (l1 : ℕ → Bool) (e : Events)
      → j < 64
      → (sweep run n w l1 e).pending (i * 64 + j) ≡ (
          if leb w i && ltb i (w + n) && l1 i && not (e.masked (i * 64 + j))
          then false
          else e.pending (i * 64 + j))
  unfolding sweep
  sweep-pending zero w i j l1 e c = ground arith
  sweep-pending (suc n) w i j l1 e c = elim (Bool-cases (l1 w)) [
    | inl a ↦ rw (sweep_on run n w l1 e a) (
        sweep-pending n (w + 1) i j l1 (sweep_word run 64 w 0 e) c ∙ word_selected n w i j l1 e c a)
    | inr a ↦
        rw (sweep_off run n w l1 e a)
          (sweep-pending n (w + 1) i j l1 e c ∙ word_skipped n w i j l1 e a)
  ]
