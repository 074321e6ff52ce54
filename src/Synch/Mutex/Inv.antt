-- ===== src/Synch/Mutex/Inv.antt =====
-- rumphyper_synch.c, mutexes: the invariant of the threads that use one, and the states that keep it.
use rumpuser_xen.Prelude.{
  ℕ, ◌+◌, ◌^◌, ◌<◌, ◌≡◌, ◌≢◌, ◌⊎◌, refl, sym, inl, inr, true, false, List, [], ◌∷◌, arith, ◌==◌,
  update, member, Distinct, Bool-cases, ==_iff, ne_of_==, member-append, Distinct-snoc,
}
use mathlib.Core.Path.{subst}
use native.Mathlib.Decide.{ℕ_discrete as dec_eq}
use rumpuser_xen.Sched.{wake, block}
use rumpuser_xen.Synch.Waiters.{wait, wait_resume}
use rumpuser_xen.Synch.Waiters.Laws.{IsQueue, wait_resume_lem}
use rumpuser_xen.Synch.Mutex.{returned, blocked}
use rumpuser_xen.Synch.Mutex.System.{outside, entering, waiting, System, run, lwp_of, arrive}

-- The thread has seen, or will see, that the mutex may be free: it is before a round of the loop, or
-- has been taken off the queue.
abbrev pub IsComing : System → ℕ → Type 0
IsComing s t = (s.pc t ≡ entering) ⊎ ((s.pc t ≡ waiting) × (s.world.onlist t ≡ false))

pub record Inv (s : System) : Type 0 where
  pub named : (t u : ℕ) → lwp_of s t ≡ lwp_of s u → lwp_of s t ≢ 0 → t ≡ u
  pub small : s.mtx.v < 2 ^ 31
  pub free : s.mtx.o ≡ 0 → s.mtx.v ≡ 0
  pub freed : s.mtx.v ≡ 0 → s.mtx.o ≡ 0
  pub held : (t : ℕ) → 0 < s.depth t → (lwp_of s t ≡ s.mtx.o) × (s.depth t ≡ s.mtx.v)
  pub holder : s.mtx.v ≢ 0 → (t : ℕ) × (lwp_of s t ≡ s.mtx.o) × (s.depth t ≡ s.mtx.v)
  pub once : Distinct s.mtx.waiters
  pub queued :
      (t : ℕ) → member t s.mtx.waiters ≡ true → (s.pc t ≡ waiting) × (s.world.onlist t ≡ true)
  pub marked : (t : ℕ) → s.pc t ≡ waiting → s.world.onlist t ≡ true → member t s.mtx.waiters ≡ true
  pub woken :
      (t : ℕ)
      → s.pc t ≡ waiting
      → s.world.onlist t ≡ false
      → (s.world.sched.thread t).runnable ≡ true
  pub handed : s.mtx.v ≡ 0 → (s.mtx.waiters ≡ []) ⊎ ((t : ℕ) × IsComing s t)

-- The queue without the thread, the others on it as they were.
pub record Off (t : ℕ) (wh : List ℕ) (s : System) : Type 0 where
  pub once : Distinct wh
  pub gone : member t wh ≡ false
  pub kept : (u : ℕ) → t ≢ u → member u wh ≡ member u s.mtx.waiters

-- The thread gets the mutex.
abbrev pub acquired : ℕ → List ℕ → System → System
acquired t wh s =
    arrive t s
      (returned, record s.mtx { waiters = wh; v = s.mtx.v + 1; o = lwp_of s t }, run t s.world)

-- The thread joins the end of the queue.
abbrev pub queued_up : ℕ → List ℕ → System → System
queued_up t wh s =
    let (wh', w) = wait wh 0 (run t s.world) in
    arrive t s (blocked, record s.mtx { waiters = wh' }, w)

module _ {s : System} (v : Inv s) (t : ℕ) where
  pub Off-outside : s.pc t ≢ waiting → Off t s.mtx.waiters s
  Off-outside n = record { once = v.once; gone = ground (arith, v.queued t); kept = λ u h. refl }

  depth-eq-v : lwp_of s t ≢ 0 → ((s.mtx.v ≡ 0) ⊎ (lwp_of s t ≡ s.mtx.o)) → s.depth t ≡ s.mtx.v
  depth-eq-v n c = elim (dec_eq s.mtx.v 0) [
    | yes e ↦ ground (arith, v.held t)
    | no ne ↦
        let (u, l, d) = v.holder ne in
        let l' : lwp_of s t ≡ lwp_of s u = ground arith in
        subst (λ x. s.depth x ≡ s.mtx.v) (sym (v.named t u l' n)) d
  ]

  alone :
      lwp_of s t ≢ 0 → ((s.mtx.v ≡ 0) ⊎ (lwp_of s t ≡ s.mtx.o)) → (u : ℕ) → 0 < s.depth u → t ≡ u
  alone n c u h = let (l, d) = v.held u h in v.named t u (ground arith) n

  pub acquired-Inv :
      (wh : List ℕ)
      → Off t wh s
      → s.mtx.v + 1 < 2 ^ 31
      → lwp_of s t ≢ 0
      → ((s.mtx.v ≡ 0) ⊎ (lwp_of s t ≡ s.mtx.o))
      → Inv (acquired t wh s)
  unfolding arrive
  acquired-Inv wh f b n c = record {
    named = v.named;
    small = b;
    free = λ e. absurd (n e);
    freed = λ e. absurd (omega arith);
    held = λ u h. elim (Bool-cases (t == u)) [
      | inl e ↦ ground (arith, (==_iff t u).0 e, depth-eq-v n c)
      | inr e ↦ absurd (ne_of_== t u e (alone n c u (ground arith)))
    ];
    holder = λ e. (t, refl, ground (arith, depth-eq-v n c));
    once = f.once;
    queued = λ u h. ground (arith, f.gone, f.kept u, v.queued u);
    marked = λ u p o. ground (arith, f.kept u, v.marked u);
    woken = λ u p o. ground (arith, v.woken u);
    handed = λ e. absurd (omega arith);
  }

  pub queued_up-Inv : (wh : List ℕ) → Off t wh s → s.mtx.v ≢ 0 → Inv (queued_up t wh s)
  unfolding arrive wait block
  queued_up-Inv wh f n = record {
    named = λ a b p q. v.named a b (ground arith) (ground arith);
    small = v.small;
    free = v.free;
    freed = v.freed;
    held = λ u h. ground (arith, v.held u);
    holder = λ e. let (u, l, d) = v.holder e in (u, ground arith, d);
    once = Distinct-snoc t wh f.once f.gone;
    queued = λ u h. ground (arith, f.gone, f.kept u, v.queued u, member-append u wh (t ∷ []));
    marked = λ u p o. ground (arith, f.kept u, v.marked u, member-append u wh (t ∷ []));
    woken = λ u p o. ground (arith, v.woken u);
    handed = λ e. absurd (n e);
  }

  pub Off-resume : Off t (wait_resume s.mtx.waiters (run t s.world)).0 s
  Off-resume =
      let q : IsQueue s.mtx.waiters (run t s.world) = record {
        once = v.once;
        marked = λ u h. (v.queued u h).1;
      } in
      let (a, b, c, d) = wait_resume_lem s.mtx.waiters (run t s.world) q in
      record { once = a; gone = b; kept = c }

  pub contended-Inv :
      s.pc t ≡ outside
      → s.mtx.v ≢ 0
      → Inv (record s { world = run t s.world; pc = update s.pc t entering })
  contended-Inv p n = record {
    named = v.named;
    small = v.small;
    free = v.free;
    freed = v.freed;
    held = v.held;
    holder = v.holder;
    once = v.once;
    queued = λ u h. ground (arith, v.queued u);
    marked = λ u q o. ground (arith, v.marked u);
    woken = λ u q o. ground (arith, v.woken u);
    handed = λ e. absurd (n e);
  }

  pub stirred-Inv : Inv (record s { world = record s.world { sched = wake t s.world.sched } })
  unfolding wake
  stirred-Inv = record {
    named = λ a b p q. v.named a b (ground arith) (ground arith);
    small = v.small;
    free = v.free;
    freed = v.freed;
    held = λ u h. ground (arith, v.held u);
    holder = λ e. let (u, l, d) = v.holder e in (u, ground arith, d);
    once = v.once;
    queued = v.queued;
    marked = v.marked;
    woken = λ u p o. ground (arith, v.woken u);
    handed = v.handed;
  }
