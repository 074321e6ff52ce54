-- ===== src/Events/Due.antt =====
-- xen/hypervisor.c: the calls that the sweep over the words makes.
use rumpuser_xen.Prelude.{
  ℕ, zero, suc, ◌+◌, ◌*◌, ◌≤◌, ◌≡◌, refl, sym, ap, ◌∙◌, inl, inr, Bool, ◌&&◌, List, [], ◌∷◌, ◌++◌,
  arith, ltb, if◌then◌else◌, Bool-cases, ==_of_ne, if_false,
}
use rumpuser_xen.Events.{Call, Events, active, clear_evtchn, do_event, nr_evs}
use rumpuser_xen.Events.Sweep.{
  Quiet, sweep_word, sweep, do_event-active, do_event-table, sweep_word_on, sweep_word_off,
  sweep_on, sweep_off,
}

-- The calls for the ports of a word from bit `k` on that are due, and have a handler.
abbrev pub due_word : Events → ℕ → ℕ → ℕ → List Call
due_word e zero w k = []
due_word e (suc n) w k =
    if active e (w * 64 + k) && ltb (w * 64 + k) nr_evs
    then (record { port = w * 64 + k; handler = e.handler (w * 64 + k); arg = e.arg (w * 64 + k) })
      ∷ due_word e n w (k + 1)
    else due_word e n w (k + 1)

-- The calls for `n` words from one on, those selected by `l1`, in the order of the ports.
abbrev pub due : (ℕ → Bool) → Events → ℕ → ℕ → List Call
due l1 e zero w = []
due l1 e (suc n) w = (if l1 w then due_word e 64 w 0 else []) ++ due l1 e n (w + 1)

-- A log that has the latest call first.
abbrev pub logged {ℓ} : {A : Type ℓ} → List A → List A → List A
logged [] log = log
logged (c ∷ cs) log = logged cs (c ∷ log)

logged-append : (xs ys log : List Call) → logged (xs ++ ys) log ≡ logged ys (logged xs log)
logged-append [] ys log = refl
logged-append (x ∷ xs) ys log = logged-append xs ys (x ∷ log)

-- Two states in which the same handlers are due from a bit on.
abbrev Agree : Events → Events → ℕ → Type 0
Agree e e' p =
    (j : ℕ)
    → p ≤ j
    → (active e j ≡ active e' j) × (e.handler j ≡ e'.handler j) × (e.arg j ≡ e'.arg j)

due_word-Agree :
    (n w k : ℕ) (e e' : Events) → Agree e e' (w * 64 + k) → due_word e n w k ≡ due_word e' n w k
due_word-Agree zero w k e e' h = refl
due_word-Agree (suc n) w k e e' h =
    let (a, b, c) = h (w * 64 + k) (omega arith) in
    let ih = due_word-Agree n w (k + 1) e e' (λ j l. h j (omega arith)) in rw (a, b, c, ih) refl

pub due-Agree :
    (n w : ℕ) (l1 : ℕ → Bool) (e e' : Events) → Agree e e' (w * 64) → due l1 e n w ≡ due l1 e' n w
due-Agree zero w l1 e e' h = refl
due-Agree (suc n) w l1 e e' h =
    let a = due_word-Agree 64 w 0 e e' (λ j l. h j (omega arith)) in
    let ih = due-Agree n (w + 1) l1 e e' (λ j l. h j (omega arith)) in rw (a, ih) refl

first_logged :
    (e : Events) (n w k port : ℕ)
    → logged (due_word e n w (k + 1)) (
        if ltb port nr_evs
        then (record { port = port; handler = e.handler port; arg = e.arg port }) ∷ e.calls
        else e.calls)
      ≡ logged
          (if ltb port nr_evs
            then (record { port = port; handler = e.handler port; arg = e.arg port })
              ∷ due_word e n w (k + 1)
            else due_word e n w (k + 1))
          e.calls
first_logged e n w k port = elim (Bool-cases (ltb port nr_evs)) [
  | inl b ↦ rw b refl
  | inr b ↦ rw b refl
]

module _ (run : Call → Events → Events) (q : Quiet run) where
  do_event-Agree : (port : ℕ) (e : Events) → Agree (do_event run port e) e (port + 1)
  do_event-Agree port e j l = (
    do_event-active run q port j e ∙ if_false _ _ (==_of_ne port j (omega arith)),
    ap (λ f. f j) (do_event-table run q port e).0,
    ap (λ f. f j) (do_event-table run q port e).1,
  )

  do_event-calls :
      (port : ℕ) (e : Events)
      → (do_event run port e).calls ≡ (
          if ltb port nr_evs
          then (record { port = port; handler = e.handler port; arg = e.arg port }) ∷ e.calls
          else e.calls)
  unfolding do_event clear_evtchn
  do_event-calls port e = elim (Bool-cases (ltb port nr_evs)) [
    | inl b ↦ rw b (q.calls_kept _ _)
    | inr b ↦ rw b refl
  ]

  -- A word that is walked over: its calls are logged, and what lies behind it is as before.
  sweep_word-due :
      (n w k : ℕ) (e : Events) → (sweep_word run n w k e).calls ≡ logged (due_word e n w k) e.calls
  unfolding sweep_word
  sweep_word-due zero w k e = refl
  sweep_word-due (suc n) w k e = elim (Bool-cases (active e (w * 64 + k))) [
    | inr a ↦ rw (sweep_word_off run n w k e a, a) (sweep_word-due n w (k + 1) e)
    | inl a ↦
        let port = w * 64 + k in
        let e' = do_event run port e in
        let same = due_word-Agree n w (k + 1) e' e (λ j l. do_event-Agree port e j (omega arith)) in
        rw (sweep_word_on run n w k e a, a)
          (sweep_word-due n w (k + 1) e'
            ∙ ap (λ cs. logged cs e'.calls) same
            ∙ ap (logged (due_word e n w (k + 1))) (do_event-calls port e)
            ∙ first_logged e n w k port)
  ]

  sweep_word-Agree : (n w k : ℕ) (e : Events) → Agree (sweep_word run n w k e) e (w * 64 + k + n)
  unfolding sweep_word
  sweep_word-Agree zero w k e j l = (refl, refl, refl)
  sweep_word-Agree (suc n) w k e j l =
      let port = w * 64 + k in
      elim (Bool-cases (active e port)) [
        | inr a ↦ rw (sweep_word_off run n w k e a) (sweep_word-Agree n w (k + 1) e j (omega arith))
        | inl a ↦
            let (x, y, z) = sweep_word-Agree n w (k + 1) (do_event run port e) j (omega arith) in
            let (x', y', z') = do_event-Agree port e j (omega arith) in
            rw (sweep_word_on run n w k e a) (x ∙ x', y ∙ y', z ∙ z')
      ]

  pub sweep-due :
      (n w : ℕ) (l1 : ℕ → Bool) (e : Events)
      → (sweep run n w l1 e).calls ≡ logged (due l1 e n w) e.calls
  unfolding sweep
  sweep-due zero w l1 e = refl
  sweep-due (suc n) w l1 e = elim (Bool-cases (l1 w)) [
    | inr a ↦ rw (sweep_off run n w l1 e a, a) (sweep-due n (w + 1) l1 e)
    | inl a ↦
        let e' = sweep_word run 64 w 0 e in
        let same = due-Agree n (w + 1) l1 e' e (λ j l. sweep_word-Agree 64 w 0 e j (omega arith)) in
        rw (sweep_on run n w l1 e a, a)
          (sweep-due n (w + 1) l1 e'
            ∙ ap (λ cs. logged cs e'.calls) same
            ∙ ap (logged (due l1 e n (w + 1))) (sweep_word-due 64 w 0 e)
            ∙ sym (logged-append (due_word e 64 w 0) (due l1 e n (w + 1)) e.calls))
  ]
