-- ===== src/Synch/Mutex/System.antt =====
-- Threads that use one mutex, in any interleaving that the scheduler allows: a thread runs from one
-- call that may block to the next. While a thread is inside the upcalls of `rumpuser_mutex_enter`
-- others may run, so it stands in a state of its own there.
use rumpuser_xen.Prelude.{ℕ, ◌+◌, ◌-◌, ◌^◌, ◌<◌, ◌≡◌, ◌≢◌, true, update}
use rumpuser_xen.Sched.{wake, ok}
use rumpuser_xen.Synch.Waiters.{success, World}
use rumpuser_xen.Synch.Mutex.{
  Mtx, Progress, returned, blocked, mutex_tryenter, mutex_enter_loop, mutex_enter_resume,
  mutex_exit,
}

-- Where a thread stands: in its own code, with or without the mutex; before a round of the loop of
-- `rumpuser_mutex_enter`; or inside `wait`.
pub data Pc : Type 0 where
  outside entering waiting : Pc

-- `depth` counts, for each thread, the enters that it has not yet left.
pub record System : Type 0 where
  pub mtx : Mtx
  pub world : World
  pub pc : ℕ → Pc
  pub depth : ℕ → ℕ

-- The scheduler has switched to the thread.
abbrev pub run : ℕ → World → World
run t w = record w { sched = record w.sched { current = t } }

abbrev pub lwp_of : System → ℕ → ℕ
lwp_of s t = (s.world.sched.thread t).lwp

unfoldable pub arrive : ℕ → System → Progress × Mtx × World → System
arrive t s (returned, m, w) = record {
  mtx = m;
  world = w;
  pc = update s.pc t outside;
  depth = update s.depth t (s.depth t + 1);
}
arrive t s (blocked, m, w) = record s { mtx = m; world = w; pc = update s.pc t waiting }

-- The first test of `rumpuser_mutex_enter`.
unfoldable pub enter : ℕ → System → System
enter t s =
    let (e, m) = mutex_tryenter s.mtx (run t s.world) in
    elim e [
      | success ↦ arrive t s (returned, m, run t s.world)
      | _ ↦ record s { world = run t s.world; pc = update s.pc t entering }
    ]

pub data Step (s : System) : System → Type 0 where
  enters : (t : ℕ) → lwp_of s t ≢ 0 → s.pc t ≡ outside → Step s (enter t s)
  loops :
      (t : ℕ)
      → lwp_of s t ≢ 0
      → s.pc t ≡ entering
      → Step s (arrive t s (mutex_enter_loop (λ w. w) s.mtx (run t s.world)))
  resumes :
      (t : ℕ)
      → lwp_of s t ≢ 0
      → s.pc t ≡ waiting
      → (s.world.sched.thread t).runnable ≡ true
      → Step s (arrive t s (mutex_enter_resume (λ w. w) s.mtx (run t s.world)))
  exits :
      (t : ℕ) {m : Mtx} {w : World}
      → s.pc t ≡ outside
      → 0 < s.depth t
      → mutex_exit s.mtx (run t s.world) ≡ ok (m, w)
      → Step s (record s { mtx = m; world = w; depth = update s.depth t (s.depth t - 1) })
  stirs : (t : ℕ) → Step s (record s { world = record s.world { sched = wake t s.world.sched } })

-- The nesting of enters stays below the largest `int`.
pub data Reach (s : System) : System → Type 0 where
  here : Reach s s
  next : {t u : System} → Reach s t → t.mtx.v + 1 < 2 ^ 31 → Step t u → Reach s u
