-- ===== src/Events/Sweep.antt =====
-- xen/hypervisor.c: the loops of `do_hypervisor_callback` against a walk over all ports in order, where the
-- handlers leave the bitmaps and the table of handlers alone.
use mathlib.Core.Path.{subst}
use rumpuser_xen.Prelude.{
  ℕ, zero, suc, ◌+◌, ◌*◌, ◌≤◌, ◌<◌, ◌≡◌, refl, sym, ap, ◌∙◌, inl, inr, Bool, true, false, none,
  some, arith, ◌==◌, ltb, if◌then◌else◌, update, update_ne, Bool-cases, ==_iff,
}
use rumpuser_xen.Sched.{ok}
use rumpuser_xen.Events.{
  Call, Events, active, ffs, clear_evtchn, do_event, demux_word, demux, nr_evs,
}

-- No event comes in while a handler runs, and it changes no mask and no handler.
pub record Quiet (run : Call → Events → Events) : Type 0 where
  pub pending_kept : (c : Call) (e : Events) → (run c e).pending ≡ e.pending
  pub masked_kept : (c : Call) (e : Events) → (run c e).masked ≡ e.masked
  pub handler_kept : (c : Call) (e : Events) → (run c e).handler ≡ e.handler
  pub arg_kept : (c : Call) (e : Events) → (run c e).arg ≡ e.arg
  pub calls_kept : (c : Call) (e : Events) → (run c e).calls ≡ e.calls

-- The lowest bit: none below it is set.
pub ffs_found :
    (word : ℕ → Bool) (n i k : ℕ)
    → k < n
    → ((j : ℕ) → j < k → word (i + j) ≡ false)
    → word (i + k) ≡ true
    → ffs word n i ≡ some (i + k)
unfolding ffs
ffs_found word zero i k l below at = absurd (omega arith)
ffs_found word (suc n) i zero l below at =
    let z : i + 0 ≡ i = omega arith in rw (subst (λ j. word j ≡ true) z at) (ap some (sym z))
ffs_found word (suc n) i (suc k) l below at =
    let s : i + suc k ≡ i + 1 + k = omega arith in
    let b : word i ≡ false = subst (λ j. word j ≡ false) (omega arith) (below 0 (omega arith)) in
    let r =
      ffs_found word n (i + 1) k (omega arith)
        (λ j h. subst (λ m. word m ≡ false) (omega arith) (below (suc j) (omega arith)))
        (subst (λ m. word m ≡ true) s at) in
    rw b (r ∙ ap some (sym s))

pub extend_below :
    (word : ℕ → Bool) (k j : ℕ)
    → ((j : ℕ) → j < k → word j ≡ false)
    → word k ≡ false
    → j < k + 1
    → word j ≡ false
extend_below word k j below at l = elim (Bool-cases (j == k)) [
  | inl e ↦ subst (λ m. word m ≡ false) (sym ((==_iff j k).0 e)) at
  | inr e ↦ below j (ground (arith, e))
]

pub ffs-none :
    (word : ℕ → Bool) (n i : ℕ) → ((j : ℕ) → j < n → word (i + j) ≡ false) → ffs word n i ≡ none
unfolding ffs
ffs-none word zero i below = refl
ffs-none word (suc n) i below =
    let b : word i ≡ false = subst (λ j. word j ≡ false) (omega arith) (below 0 (omega arith)) in
    rw b (
      ffs-none word n (i + 1)
        (λ j l. subst (λ m. word m ≡ false) (omega arith) (below (suc j) (omega arith))))

cleared :
    (l1 : ℕ → Bool) (w j : ℕ) → (j < w → l1 j ≡ false) → j < w + 1 → update l1 w false j ≡ false
cleared l1 w j below l = elim (Bool-cases (w == j)) [
  | inl b ↦ rw b refl
  | inr b ↦ rw b (below (ground (arith, b)))
]

module _ (run : Call → Events → Events) where
  -- Each port of a word once, from bit `k` on.
  unfoldable pub sweep_word : ℕ → ℕ → ℕ → Events → Events
  sweep_word zero w k e = e
  sweep_word (suc n) w k e =
      sweep_word n w (k + 1) (if active e (w * 64 + k) then do_event run (w * 64 + k) e else e)

  -- Each word that is selected once.
  unfoldable pub sweep : ℕ → ℕ → (ℕ → Bool) → Events → Events
  sweep zero w l1 e = e
  sweep (suc n) w l1 e = sweep n (w + 1) l1 (if l1 w then sweep_word 64 w 0 e else e)

  pub sweep_word_on :
      (n w k : ℕ) (e : Events)
      → active e (w * 64 + k) ≡ true
      → sweep_word (suc n) w k e ≡ sweep_word n w (k + 1) (do_event run (w * 64 + k) e)
  unfolding sweep_word
  sweep_word_on n w k e a =
      ap (λ b. sweep_word n w (k + 1) (if b then do_event run (w * 64 + k) e else e)) a

  pub sweep_word_off :
      (n w k : ℕ) (e : Events)
      → active e (w * 64 + k) ≡ false
      → sweep_word (suc n) w k e ≡ sweep_word n w (k + 1) e
  unfolding sweep_word
  sweep_word_off n w k e a =
      ap (λ b. sweep_word n w (k + 1) (if b then do_event run (w * 64 + k) e else e)) a

  pub sweep_on :
      (n w : ℕ) (l1 : ℕ → Bool) (e : Events)
      → l1 w ≡ true
      → sweep (suc n) w l1 e ≡ sweep n (w + 1) l1 (sweep_word 64 w 0 e)
  unfolding sweep
  sweep_on n w l1 e a = ap (λ b. sweep n (w + 1) l1 (if b then sweep_word 64 w 0 e else e)) a

  pub sweep_off :
      (n w : ℕ) (l1 : ℕ → Bool) (e : Events)
      → l1 w ≡ false
      → sweep (suc n) w l1 e ≡ sweep n (w + 1) l1 e
  unfolding sweep
  sweep_off n w l1 e a = ap (λ b. sweep n (w + 1) l1 (if b then sweep_word 64 w 0 e else e)) a

  module _ (q : Quiet run) where
    open q use {pending_kept, masked_kept}

    pub do_event-pending :
        (port p : ℕ) (e : Events)
        → (do_event run port e).pending p ≡ (if port == p then false else e.pending p)
    unfolding do_event clear_evtchn
    do_event-pending port p e = elim (Bool-cases (ltb port nr_evs)) [
      | inl b ↦ rw b (ap (λ f. f p) (q.pending_kept _ _))
      | inr b ↦ rw b refl
    ]

    pub do_event-masked : (port : ℕ) (e : Events) → (do_event run port e).masked ≡ e.masked
    unfolding do_event clear_evtchn
    do_event-masked port e = elim (Bool-cases (ltb port nr_evs)) [
      | inl b ↦ rw b (q.masked_kept _ _)
      | inr b ↦ rw b refl
    ]

    pub do_event-table :
        (port : ℕ) (e : Events)
        → ((do_event run port e).handler ≡ e.handler) × ((do_event run port e).arg ≡ e.arg)
    unfolding do_event clear_evtchn
    do_event-table port e = elim (Bool-cases (ltb port nr_evs)) [
      | inl b ↦ rw b (q.handler_kept _ _, q.arg_kept _ _)
      | inr b ↦ rw b (refl, refl)
    ]

    -- An event that was handled is not active, and no other becomes so.
    pub do_event-active :
        (port p : ℕ) (e : Events)
        → active (do_event run port e) p ≡ (if port == p then false else active e p)
    do_event-active port p e =
        ground (arith, do_event-pending port p e, ap (λ f. f p) (do_event-masked port e))

    later :
        (e : Events) (w k j : ℕ)
        → (j < k → active e (w * 64 + j) ≡ false)
        → j < k + 1
        → (if (w * 64 + k) == (w * 64 + j) then false else active e (w * 64 + j)) ≡ false
    later e w k j below l = elim (Bool-cases ((w * 64 + k) == (w * 64 + j))) [
      | inl b ↦ rw b refl
      | inr b ↦ rw b (below (ground (arith, b)))
    ]

    pub demux_word-sweep :
        (n k w fuel : ℕ) (e : Events)
        → k + n ≡ 64
        → ((j : ℕ) → j < k → active e (w * 64 + j) ≡ false)
        → n < fuel
        → demux_word run fuel w e ≡ ok (sweep_word n w k e)
    unfolding demux_word sweep_word
    demux_word-sweep n k w zero e s below f = absurd (omega arith)
    demux_word-sweep zero k w (suc fuel) e s below f =
        let none_left : ffs (λ i. active e (w * 64 + i)) 64 0 ≡ none =
          ffs-none (λ i. active e (w * 64 + i)) 64 0
            (λ j l.
              subst (λ m. active e (w * 64 + m) ≡ false) (omega arith) (below j (omega arith))) in
        rw (none_left, demux_word) refl
    demux_word-sweep (suc n) k w (suc fuel) e s below f =
        elim (Bool-cases (active e (w * 64 + k))) [
          | inl at ↦
              let z : 0 + k ≡ k = omega arith in
              let next : ffs (λ i. active e (w * 64 + i)) 64 0 ≡ some k =
                ffs_found (λ i. active e (w * 64 + i)) 64 0 k (omega arith)
                  (λ j l. subst (λ m. active e (w * 64 + m) ≡ false) (omega arith) (below j l))
                  (subst (λ m. active e (w * 64 + m) ≡ true) (sym z) at)
                ∙ ap some z in
              rw (next, demux_word)
                (rw at (
                  demux_word-sweep n (k + 1) w fuel (do_event run (w * 64 + k) e) (omega arith)
                    (λ j l. do_event-active (w * 64 + k) (w * 64 + j) e ∙ later e w k j (below j) l)
                    (omega arith)))
          | inr off ↦ rw off (
              demux_word-sweep n (k + 1) w (suc fuel) e (omega arith)
                (λ j l. extend_below (λ i. active e (w * 64 + i)) k j below off l) (omega arith))
        ]

    -- With a unit of fuel for each bit of a word and one more, the loops come to an end and have walked
    -- over the words that were selected and the ports that were active, in order.
    pub demux-sweep :
        (n w words fuel : ℕ) (l1 l1' : ℕ → Bool) (e : Events)
        → w + n ≡ 64
        → ((j : ℕ) → j < w → l1 j ≡ false)
        → ((j : ℕ) → w ≤ j → l1 j ≡ l1' j)
        → n < words
        → 64 < fuel
        → demux run words fuel l1 e ≡ ok (sweep n w l1' e)
    unfolding demux sweep
    demux-sweep n w zero fuel l1 l1' e s below same f g = absurd (omega arith)
    demux-sweep zero w (suc words) fuel l1 l1' e s below same f g =
        let none_left : ffs l1 64 0 ≡ none =
          ffs-none l1 64 0
            (λ j l. subst (λ m. l1 m ≡ false) (omega arith) (below j (omega arith))) in
        rw (none_left, demux) refl
    demux-sweep (suc n) w (suc words) fuel l1 l1' e s below same f g = elim (Bool-cases (l1 w)) [
      | inl at ↦
          let z : 0 + w ≡ w = omega arith in
          let next : ffs l1 64 0 ≡ some w =
            ffs_found l1 64 0 w (omega arith)
              (λ j l. subst (λ m. l1 m ≡ false) (omega arith) (below j l))
              (subst (λ m. l1 m ≡ true) (sym z) at)
            ∙ ap some z in
          let at' : l1' w ≡ true = sym (same w (omega arith)) ∙ at in
          let word = demux_word-sweep 64 0 w fuel e (omega arith) (λ j l. absurd (omega arith)) g in
          let ih =
            demux-sweep n (w + 1) words fuel (update l1 w false) l1' (sweep_word 64 w 0 e)
              (omega arith) (λ j l. cleared l1 w j (below j) l)
              (λ j l. update_ne l1 w j false (omega arith) ∙ same j (omega arith)) (omega arith)
              g in
          rw (next, demux) (rw (word, demux) (rw at' ih))
      | inr off ↦
          let off' : l1' w ≡ false = sym (same w (omega arith)) ∙ off in
          rw off' (
            demux-sweep n (w + 1) (suc words) fuel l1 l1' e (omega arith)
              (λ j l. extend_below l1 w j below off l) (λ j l. same j (omega arith)) (omega arith)
              g)
    ]
