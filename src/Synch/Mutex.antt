-- ===== src/Synch/Mutex.antt =====
-- rumphyper_synch.c: mutexes. `o` is the owner's lwp, 0 for NULL.
pub mod System
pub mod Inv
pub mod Steps
pub mod Exclusion
use rumpuser_xen.Prelude.{ℕ, Bool, true, false, ◌&&◌, List, [], ◌∷◌, ◌==◌, ◌/=◌, if◌then◌else◌}
use rumpuser_xen.Sched.{Outcome, ok, bug, hang}
use rumpuser_xen.Synch.Waiters.{
  Errno, success, ebusy, World, me, wait, wait_resume, wakeup_one, inc_int, dec_int, positive_int,
  curlwp,
}

pub record Mtx : Type 0 where
  pub waiters : List ℕ
  pub v : ℕ
  pub kmutex : Bool  -- RUMPUSER_MTX_KMUTEX in `flags`
  pub spin : Bool  -- RUMPUSER_MTX_SPIN in `flags`
  pub o : ℕ

-- `rumpuser_mutex_init`, on the memory that `malloc` returned.
unfoldable pub mutex_init : Bool → Bool → Mtx
mutex_init kmutex spin = record { waiters = []; v = 0; kmutex = kmutex; spin = spin; o = 0 }

unfoldable pub mutex_tryenter : Mtx → World → Errno × Mtx
mutex_tryenter m w =
    if m.v /= 0 && m.o /= curlwp w
    then (ebusy, m)
    else (success, record m { v = inc_int m.v; o = curlwp w })

-- Where a call stands that may block: it has returned, or it is inside `wait` and calls `schedule`.
pub data Progress : Type 0 where
  returned blocked : Progress

-- The loop of `rumpuser_mutex_enter`, from its test to the next call of `schedule`, or to its end
-- behind `rumpkern_sched`. The rump kernel's upcalls are arguments.
unfoldable pub mutex_enter_loop : (World → World) → Mtx → World → Progress × Mtx × World
mutex_enter_loop sched_up m w =
    let (e, m') = mutex_tryenter m w in
    elim e [
      | success ↦ (returned, m', sched_up w)
      | _ ↦ let (wh, w') = wait m.waiters 0 w in (blocked, record m { waiters = wh }, w')
    ]

unfoldable pub mutex_enter :
    (World → World) → (World → World) → Mtx → World → Progress × Mtx × World
mutex_enter unsched_up sched_up m w =
    let (e, m') = mutex_tryenter m w in
    elim e [ success ↦ (returned, m', w) | _ ↦ mutex_enter_loop sched_up m (unsched_up w) ]

-- The loop's next round, from the return of `schedule`. What `wait` returns is not looked at.
unfoldable pub mutex_enter_resume : (World → World) → Mtx → World → Progress × Mtx × World
mutex_enter_resume sched_up m w =
    mutex_enter_loop sched_up (record m { waiters = (wait_resume m.waiters w).0 }) w

-- A failure only prints a line.
unfoldable pub mutex_enter_nowrap : Mtx → World → Mtx
mutex_enter_nowrap m w = (mutex_tryenter m w).1

unfoldable pub mutex_exit : Mtx → World → Outcome (Mtx × World)
mutex_exit m w =
    if positive_int m.v
    then (let m' = record m { v = dec_int m.v } in
        if m'.v == 0
        then (let (wh, w') = wakeup_one m.waiters w in ok (record m' { o = 0; waiters = wh }, w'))
        else ok (m', w))
    else bug

unfoldable pub mutex_destroy : Mtx → Outcome (Unit {0})
mutex_destroy m = elim m.waiters [ [] ↦ (if m.o == 0 then ok tt else bug) | _ ↦ bug ]

unfoldable pub mutex_owner : Mtx → ℕ
mutex_owner m = m.o
