-- ===== src/Synch/Condvar/Laws.antt =====
-- rumphyper_synch.c, condition variables: what a wait gives up, what it takes back, and when it
-- returns without the mutex.
use rumpuser_xen.Prelude.{
  ℕ, ◌+◌, ◌*◌, ◌%◌, ◌^◌, ◌<◌, ◌≡◌, ◌≢◌, refl, sym, ap, ◌∙◌, false, List, [], ◌∷◌, ◌++◌, arith, ◌==◌,
  if◌then◌else◌, member,
}
use rumpuser_xen.Sched.{wake, block, ok}
use rumpuser_xen.Sched.Time.{add_time}
use rumpuser_xen.Synch.Waiters.{World, me, wait, wake_waiter, wakeup_one, curlwp, inc_int}
use rumpuser_xen.Synch.Waiters.Laws.{IsQueue, wait_resume_lem}
use rumpuser_xen.Synch.Mutex.{Mtx, mutex_tryenter, mutex_enter_nowrap, mutex_exit}
use rumpuser_xen.Synch.Condvar.{
  Cv, Upcalls, cv_arrive, cv_block, cv_unsched, cv_wait_nowrap, cv_wait_nowrap_resume, cv_timedwait,
}

me-wakeup_one : (wh : List ℕ) (w : World) → me (wakeup_one wh w).1 ≡ me w
unfolding wakeup_one wake_waiter wake
me-wakeup_one [] w = refl
me-wakeup_one (t ∷ wh) w = refl

wakeup_one_now : (wh : List ℕ) (w : World) → (wakeup_one wh w).1.sched.now ≡ w.sched.now
unfolding wakeup_one wake_waiter wake
wakeup_one_now [] w = refl
wakeup_one_now (t ∷ wh) w = refl

wait_timer :
    (wh : List ℕ) (nsec : ℕ) (w : World)
    → let w' = (wait wh nsec w).1 in
      ((w'.sched.thread (me w)).runnable ≡ false)
      × ((w'.sched.thread (me w)).wakeup_time
          ≡ (if nsec == 0 then 0 else add_time w.sched.now nsec))
unfolding wait block
wait_timer wh nsec w = ground arith

-- A thread that waits and holds the mutex once gives it up, joins the end of the queue, is counted,
-- and sleeps with no timeout; the first thread that waits for the mutex is taken off its queue.
pub cv_wait_nowrap-releases :
    (cv : Cv) (m : Mtx) (w : World)
    → m.v ≡ 1
    → cv.nwaiters + 1 < 2 ^ 31
    → (cv' : Cv) × (m' : Mtx) × (w' : World) × (cv_wait_nowrap cv m w ≡ ok (cv', m', w'))
      × (m'.v ≡ 0)
      × (m'.o ≡ 0)
      × (m'.waiters ≡ (wakeup_one m.waiters w).0)
      × (cv'.waiters ≡ cv.waiters ++ (me w ∷ []))
      × (cv'.nwaiters ≡ cv.nwaiters + 1)
      × ((w'.sched.thread (me w)).runnable ≡ false)
      × ((w'.sched.thread (me w)).wakeup_time ≡ 0)
unfolding cv_wait_nowrap cv_block cv_arrive mutex_exit wait block
cv_wait_nowrap-releases cv m w one b =
    let e = me-wakeup_one m.waiters w in
    let w₁ = (wakeup_one m.waiters w).1 in
    (
      record { waiters = (wait cv.waiters 0 w₁).0; nwaiters = cv.nwaiters + 1 },
      record m { v = 0; o = 0; waiters = (wakeup_one m.waiters w).0 },
      (wait cv.waiters 0 w₁).1,
      ground arith,
      refl,
      refl,
      refl,
      ap (λ t. cv.waiters ++ (t ∷ [])) e,
      refl,
      ground (arith, e),
      ground (arith, e),
    )

-- A thread that returns from such a wait to a free mutex holds it once, is off the queue, which has
-- kept the others, and is no longer counted.
pub cv_wait_nowrap_resume_free :
    (cv : Cv) (m : Mtx) (w : World)
    → IsQueue cv.waiters w
    → m.v ≡ 0
    → 0 < cv.nwaiters
    → cv.nwaiters < 2 ^ 31
    → let (cv', m') = cv_wait_nowrap_resume cv m w in
      (m'.v ≡ 1)
      × (m'.o ≡ curlwp w)
      × (cv'.nwaiters + 1 ≡ cv.nwaiters)
      × (member (me w) cv'.waiters ≡ false)
      × ((t : ℕ) → me w ≢ t → member t cv'.waiters ≡ member t cv.waiters)
unfolding cv_wait_nowrap_resume mutex_enter_nowrap mutex_tryenter
cv_wait_nowrap_resume_free cv m w q z p b =
    let (a, g, k, c) = wait_resume_lem cv.waiters w q in
    (ground arith, ground arith, ground arith, g, k)

-- A thread that is woken while another has the mutex returns from the wait without it: nothing of
-- the mutex changes.
pub cv_wait_nowrap_resume_busy :
    (cv : Cv) (m : Mtx) (w : World)
    → m.v ≢ 0
    → m.o ≢ curlwp w
    → (cv_wait_nowrap_resume cv m w).1 ≡ m
unfolding cv_wait_nowrap_resume mutex_enter_nowrap mutex_tryenter
cv_wait_nowrap_resume_busy cv m w n k = ground arith

-- The timed wait sleeps until the time that the arguments say, counted in 64 bits, and without end
-- if they come to 0 there. (An upcall that leaves the mutex and the world alone, and a mutex that is
-- held once.)
pub cv_timedwait-timer :
    (up : Upcalls) (sec nsec : ℕ) (cv : Cv) (m : Mtx) (w : World)
    → up.unsched m w ≡ (m, w)
    → m.v ≡ 1
    → (cv' : Cv) × (m' : Mtx) × (w' : World) × (cv_timedwait up sec nsec cv m w ≡ ok (cv', m', w'))
      × ((w'.sched.thread (me w)).runnable ≡ false)
      × ((w'.sched.thread (me w)).wakeup_time ≡ (
          if (sec * 1_000_000_000 + nsec) % 2 ^ 64 == 0
          then 0
          else add_time w.sched.now ((sec * 1_000_000_000 + nsec) % 2 ^ 64)))
unfolding cv_timedwait cv_block cv_arrive cv_unsched mutex_exit
cv_timedwait-timer up sec nsec cv m w e one =
    let w₁ = (wakeup_one m.waiters w).1 in
    let d = (sec * 1_000_000_000 + nsec) % 2 ^ 64 in
    let (r, t) = wait_timer cv.waiters d w₁ in
    let a = me-wakeup_one m.waiters w in
    let b = wakeup_one_now m.waiters w in
    (
      record { waiters = (wait cv.waiters d w₁).0; nwaiters = inc_int cv.nwaiters },
      record m { v = 0; o = 0; waiters = (wakeup_one m.waiters w).0 },
      (wait cv.waiters d w₁).1,
      ground (arith, e),
      ap (λ u. ((wait cv.waiters d w₁).1.sched.thread u).runnable) (sym a) ∙ r,
      ap (λ u. ((wait cv.waiters d w₁).1.sched.thread u).wakeup_time) (sym a)
          ∙ t
          ∙ ap (λ n. if d == 0 then 0 else add_time n d) b,
    )
