-- ===== src/Synch/Mutex/Steps.antt =====
-- rumphyper_synch.c, mutexes: each call keeps the invariant.
use rumpuser_xen.Prelude.{
  ℕ, ◌+◌, ◌-◌, ◌^◌, ◌<◌, ◌≡◌, ◌≢◌, ◌⊎◌, refl, sym, ap, ◌∙◌, inl, inr, true, List, [], ◌∷◌, arith,
  ◌==◌, if◌then◌else◌, update, member, Distinct, Bool-cases, if_true, if_false, ==_iff, ne_of_==,
}
use mathlib.Core.Path.{subst}
use native.Mathlib.Decide.{ℕ_discrete as dec_eq}
use rumpuser_xen.Sched.{wake, ok}
use rumpuser_xen.Synch.Waiters.{success, ebusy, curlwp, World, wait, wake_waiter, wakeup_one}
use rumpuser_xen.Synch.Mutex.{
  Mtx, returned, blocked, mutex_tryenter, mutex_enter_loop, mutex_enter_resume, mutex_exit,
}
use rumpuser_xen.Synch.Mutex.System.{outside, entering, waiting, System, run, lwp_of, arrive, enter}
use rumpuser_xen.Synch.Mutex.Inv.{
  Inv, Off, acquired, Off-outside, acquired-Inv, queued_up-Inv, Off-resume, contended-Inv,
}

tryenter_free :
    (m : Mtx) (w : World)
    → m.v + 1 < 2 ^ 31
    → ((m.v ≡ 0) ⊎ (curlwp w ≡ m.o))
    → mutex_tryenter m w ≡ (success, record m { v = m.v + 1; o = curlwp w })
unfolding mutex_tryenter
tryenter_free m w b c = ground arith

tryenter_busy : (m : Mtx) (w : World) → m.v ≢ 0 → curlwp w ≢ m.o → mutex_tryenter m w ≡ (ebusy, m)
unfolding mutex_tryenter
tryenter_busy m w n c = ground arith

-- The mutex can be had, or another thread has it.
verdict : (m : Mtx) (l : ℕ) → ((m.v ≡ 0) ⊎ (l ≡ m.o)) ⊎ ((m.v ≢ 0) × (l ≢ m.o))
verdict m l = elim (dec_eq m.v 0) [
  | yes e ↦ inl (inl e)
  | no n ↦ elim (dec_eq l m.o) [ yes e ↦ inl (inr e) | no k ↦ inr (n, k) ]
]

module _ {s : System} (v : Inv s) (t : ℕ) (b : s.mtx.v + 1 < 2 ^ 31) (n : lwp_of s t ≢ 0) where
  pub enter-Inv : s.pc t ≡ outside → Inv (enter t s)
  unfolding enter
  enter-Inv p = elim (verdict s.mtx (lwp_of s t)) [
    | inl c ↦
        let e : enter t s ≡ acquired t s.mtx.waiters s =
          ground (arith, tryenter_free s.mtx (run t s.world) b c) in
        subst Inv (sym e) (acquired-Inv v t s.mtx.waiters (Off-outside v t (ground arith)) b n c)
    | inr (k, l) ↦
        let e : enter t s ≡ record s { world = run t s.world; pc = update s.pc t entering } =
          ground (arith, tryenter_busy s.mtx (run t s.world) k l) in
        subst Inv (sym e) (contended-Inv v t p k)
  ]

  pub loop-Inv :
      (wh : List ℕ)
      → Off t wh s
      → Inv (arrive t s (mutex_enter_loop (λ w. w) (record s.mtx { waiters = wh }) (run t s.world)))
  unfolding mutex_enter_loop
  loop-Inv wh f =
      let m = record s.mtx { waiters = wh } in
      let w = run t s.world in
      elim (verdict s.mtx (lwp_of s t)) [
        | inl c ↦
            let e : mutex_enter_loop (λ x. x) m w
                ≡ (returned, record m { v = s.mtx.v + 1; o = lwp_of s t }, w) =
              ground (arith, tryenter_free m w b c) in
            subst (λ r. Inv (arrive t s r)) (sym e) (acquired-Inv v t wh f b n c)
        | inr (k, l) ↦
            let e : mutex_enter_loop (λ x. x) m w
                ≡ (blocked, record m { waiters = (wait wh 0 w).0 }, (wait wh 0 w).1) =
              ground (arith, tryenter_busy m w k l) in
            subst (λ r. Inv (arrive t s r)) (sym e) (queued_up-Inv v t wh f k)
      ]

  pub resume-Inv : Inv (arrive t s (mutex_enter_resume (λ w. w) s.mtx (run t s.world)))
  unfolding mutex_enter_resume
  resume-Inv = loop-Inv _ (Off-resume v t)

-- The thread leaves the mutex, and stays inside an outer enter of its own.
left : ℕ → System → System
left t s = record s {
  mtx = record s.mtx { v = s.mtx.v - 1 };
  world = run t s.world;
  depth = update s.depth t (s.depth t - 1);
}

-- It leaves for good: the first waiter of the queue, if there is one, is woken.
freed_by : ℕ → List ℕ → System → System
freed_by t wh s =
    let (wh', w) = wakeup_one wh (run t s.world) in
    record s {
      mtx = record s.mtx { v = 0; o = 0; waiters = wh' };
      world = w;
      depth = update s.depth t (s.depth t - 1);
    }

mutex_exit_lem :
    (m : Mtx) (w : World)
    → m.v < 2 ^ 31
    → 0 < m.v
    → mutex_exit m w ≡ (
        if m.v == 1
        then ok (
          record m { v = 0; o = 0; waiters = (wakeup_one m.waiters w).0 },
          (wakeup_one m.waiters w).1,
        )
        else ok (record m { v = m.v - 1 }, w))
unfolding mutex_exit
mutex_exit_lem m w b h = ground arith

-- The invariant behind an exit with this result.
abbrev pub Exited : ℕ → System → Mtx × World → Type 0
Exited t s (m, w) = Inv (record s { mtx = m; world = w; depth = update s.depth t (s.depth t - 1) })

ok-injective {ℓ} : {A : Type ℓ} {a b : A} → ok a ≡ ok b → a ≡ b
ok-injective h = cc

module _ {s : System} (v : Inv s) (t : ℕ) (h : 0 < s.depth t) where
  named_holder : lwp_of s t ≢ 0
  named_holder e = let (l, d) = v.held t h in ground (arith, v.free)

  sole : (u : ℕ) → 0 < s.depth u → t ≡ u
  sole u k =
      let (l, d) = v.held t h in let (l', d') = v.held u k in v.named t u (l ∙ sym l') named_holder

  left-Inv : s.mtx.v ≢ 1 → Inv (left t s)
  unfolding left
  left-Inv n =
      let (l, d) = v.held t h in
      record {
        named = v.named;
        small = ground (arith, v.small);
        free = λ e. ground (arith, v.free e);
        freed = λ e. absurd (omega arith);
        held = λ u k. elim (Bool-cases (t == u)) [
          | inl e ↦ ground (arith, (==_iff t u).0 e)
          | inr e ↦ absurd (ne_of_== t u e (sole u (ground arith)))
        ];
        holder = λ e. (t, l, ground arith);
        once = v.once;
        queued = v.queued;
        marked = v.marked;
        woken = v.woken;
        handed = λ e. absurd (omega arith);
      }

  none_left : s.mtx.v ≡ 1 → (u : ℕ) → update s.depth t (s.depth t - 1) u ≡ 0
  none_left one u = elim (Bool-cases (t == u)) [
    | inl e ↦ ground (arith, v.held t)
    | inr e ↦ elim (dec_eq (s.depth u) 0) [
      | yes z ↦ ground arith
      | no z ↦ absurd (ne_of_== t u e (sole u (omega arith)))
    ]
  ]

  freed_by-Inv : (wh : List ℕ) → s.mtx.v ≡ 1 → s.mtx.waiters ≡ wh → Inv (freed_by t wh s)
  unfolding freed_by wakeup_one wake_waiter wake
  freed_by-Inv [] one e =
      let (l, d) = v.held t h in
      record {
        named = v.named;
        small = omega arith;
        free = λ e. refl;
        freed = λ e. refl;
        held = λ u k. ground (arith, none_left one u);
        holder = λ k. absurd (k refl);
        once = tt;
        queued = λ u k. cc;
        marked = λ u p o. rw e at (v.marked u p o);
        woken = v.woken;
        handed = λ k. inl refl;
      }
  freed_by-Inv (x ∷ wh) one e =
      let (l, d) = v.held t h in
      let once : Distinct (x ∷ wh) = rw e at v.once in
      let queued = λ (u : ℕ) (k : member u (x ∷ wh) ≡ true). v.queued u (ap (member u) e ∙ k) in
      let marked = λ (u : ℕ) (p : s.pc u ≡ waiting) (o : s.world.onlist u ≡ true).
        sym (ap (member u) e) ∙ v.marked u p o in
      record {
        named = λ a b p q. v.named a b (ground arith) (ground arith);
        small = omega arith;
        free = λ e. refl;
        freed = λ e. refl;
        held = λ u k. ground (arith, none_left one u);
        holder = λ k. absurd (k refl);
        once = once.1;
        queued = λ u k. ground (arith, once, queued u);
        marked = λ u p o. ground (arith, marked u);
        woken = λ u p o. ground (arith, v.woken u);
        handed = λ k. inr (x, inr ((queued x (ground arith)).0, ground arith));
      }

  -- A call of `rumpuser_mutex_exit` by a holder keeps the invariant.
  pub exit-Inv :
      (m : Mtx) (w : World) → mutex_exit s.mtx (run t s.world) ≡ ok (m, w) → Exited t s (m, w)
  unfolding freed_by left
  exit-Inv m w e =
      let (l, d) = v.held t h in
      let exited = mutex_exit_lem s.mtx (run t s.world) v.small (ground arith) in
      elim (Bool-cases (s.mtx.v == 1)) [
        | inl one ↦
            subst (Exited t s) (sym (ok-injective (sym e ∙ exited ∙ if_true _ _ one)))
              (freed_by-Inv s.mtx.waiters ((==_iff s.mtx.v 1).0 one) refl)
        | inr more ↦
            subst (Exited t s) (sym (ok-injective (sym e ∙ exited ∙ if_false _ _ more)))
              (left-Inv (ne_of_== s.mtx.v 1 more))
      ]

  -- It does not stop at its assertion.
  pub exit_total : (r : Mtx × World) × (mutex_exit s.mtx (run t s.world) ≡ ok r)
  exit_total =
      let (l, d) = v.held t h in
      let exited = mutex_exit_lem s.mtx (run t s.world) v.small (ground arith) in
      elim (Bool-cases (s.mtx.v == 1)) [
        | inl one ↦ (_, exited ∙ if_true _ _ one)
        | inr more ↦ (_, exited ∙ if_false _ _ more)
      ]
