-- ===== src/Synch/Condvar.antt =====
-- rumphyper_synch.c: condition variables.
pub mod Laws
use rumpuser_xen.Prelude.{
  ℕ, ◌+◌, ◌*◌, ◌%◌, ◌^◌, Bool, true, false, ◌&&◌, List, [], ◌==◌, ◌/=◌, if◌then◌else◌,
}
use rumpuser_xen.Sched.{Outcome, ok, bug, hang}
use rumpuser_xen.Synch.Waiters.{
  Errno, World, wait, wait_resume, wakeup_one, wakeup_all, inc_int, dec_int,
}
use rumpuser_xen.Synch.Mutex.{Mtx, mutex_exit, mutex_enter_nowrap}

pub record Cv : Type 0 where
  pub waiters : List ℕ
  pub nwaiters : ℕ

-- The rump kernel's upcalls, which are given the mutex too: they give up its CPU and take it again.
pub record Upcalls : Type 0 where
  pub unsched : Mtx → World → Mtx × World
  pub sched : Mtx → World → Mtx × World

unfoldable pub cv_init : Cv
cv_init = record { waiters = []; nwaiters = 0 }

unfoldable pub cv_destroy : Cv → Outcome (Unit {0})
cv_destroy cv = if cv.nwaiters == 0 then ok tt else bug

unfoldable pub cv_unsched : Upcalls → Mtx → World → Outcome (Mtx × World)
cv_unsched up m w = let (m', w') = up.unsched m w in mutex_exit m' w'

unfoldable pub cv_resched : Upcalls → Mtx → World → Mtx × World
cv_resched up m w =
    if m.kmutex && m.spin
    then (let (m', w') = up.sched m w in (mutex_enter_nowrap m' w', w'))
    else up.sched (mutex_enter_nowrap m w) w

-- The caller counts as a waiter before it lets go of the mutex.
unfoldable pub cv_arrive : Cv → Cv
cv_arrive cv = record cv { nwaiters = inc_int cv.nwaiters }

-- The part of the wait functions from the release of the mutex on, up to `schedule`.
unfoldable pub cv_block : ℕ → Cv → Outcome (Mtx × World) → Outcome (Cv × Mtx × World)
cv_block nsec cv (ok (m, w)) =
    let (wh, w') = wait cv.waiters nsec w in ok (record cv { waiters = wh }, m, w')
cv_block nsec cv bug = bug
cv_block nsec cv hang = hang

unfoldable pub cv_wait : Upcalls → Cv → Mtx → World → Outcome (Cv × Mtx × World)
cv_wait up cv m w = cv_block 0 (cv_arrive cv) (cv_unsched up m w)

-- `sec` and `nsec` are int64_t, as bit patterns; the sum is taken in uint64_t.
unfoldable pub cv_timedwait : Upcalls → ℕ → ℕ → Cv → Mtx → World → Outcome (Cv × Mtx × World)
cv_timedwait up sec nsec cv m w =
    cv_block ((sec * 1_000_000_000 + nsec) % 2 ^ 64) (cv_arrive cv) (cv_unsched up m w)

unfoldable pub cv_wait_nowrap : Cv → Mtx → World → Outcome (Cv × Mtx × World)
cv_wait_nowrap cv m w = cv_block 0 (cv_arrive cv) (mutex_exit m w)

-- The end of the wait functions, from the return of `schedule` on; `rumpuser_cv_wait` drops the
-- error number.
unfoldable pub cv_wait_resume : Upcalls → Cv → Mtx → World → Errno × Cv × Mtx × World
cv_wait_resume up cv m w =
    let (wh, e) = wait_resume cv.waiters w in
    let (m', w') = cv_resched up m w in
    (e, record { waiters = wh; nwaiters = dec_int cv.nwaiters }, m', w')

unfoldable pub cv_wait_nowrap_resume : Cv → Mtx → World → Cv × Mtx
cv_wait_nowrap_resume cv m w =
    let (wh, e) = wait_resume cv.waiters w in
    (record { waiters = wh; nwaiters = dec_int cv.nwaiters }, mutex_enter_nowrap m w)

unfoldable pub cv_signal : Cv → World → Cv × World
cv_signal cv w = let (wh, w') = wakeup_one cv.waiters w in (record cv { waiters = wh }, w')

unfoldable pub cv_broadcast : Cv → World → Cv × World
cv_broadcast cv w = let (wh, w') = wakeup_all cv.waiters w in (record cv { waiters = wh }, w')

unfoldable pub cv_has_waiters : Cv → Bool
cv_has_waiters cv = cv.nwaiters /= 0
