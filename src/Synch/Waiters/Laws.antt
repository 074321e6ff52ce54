-- ===== src/Synch/Waiters/Laws.antt =====
-- rumphyper_synch.c, lines 46 to 98: a queue of waiters names each waiting thread once, and a thread
-- that returns from `wait` is on no queue, whether it was woken or timed out.
use rumpuser_xen.Prelude.{
  ℕ, ◌≡◌, ◌≢◌, ◌↔◌, refl, inl, inr, true, false, not, ◌&&◌, List, [], ◌∷◌, arith, if◌then◌else◌,
  member, Distinct, Bool-cases, member-append, member-remove_ne, member-remove_self,
  Distinct-remove, Distinct-snoc,
}
use rumpuser_xen.Sched.{wake}
use rumpuser_xen.Synch.Waiters.{
  etimedout, World, me, wait, wait_resume, wake_waiter, wakeup_one, wakeup_all,
}

-- The queue names a thread once, and each thread on it has its mark.
pub record IsQueue (wh : List ℕ) (w : World) : Type 0 where
  pub once : Distinct wh
  pub marked : (t : ℕ) → member t wh ≡ true → w.onlist t ≡ true

-- A thread that is not queued joins the end of the queue.
pub wait-IsQueue :
    (wh : List ℕ) (nsec : ℕ) (w : World)
    → IsQueue wh w
    → member (me w) wh ≡ false
    → IsQueue (wait wh nsec w).0 (wait wh nsec w).1
unfolding wait
wait-IsQueue wh nsec w q n = record {
  once = Distinct-snoc (me w) wh q.once n;
  marked = λ t h. ground (arith, member-append t wh (me w ∷ []), q.marked t);
}

pub wakeup_one-IsQueue :
    (wh : List ℕ) (w : World) → IsQueue wh w → IsQueue (wakeup_one wh w).0 (wakeup_one wh w).1
unfolding wakeup_one wake_waiter
wakeup_one-IsQueue [] w q = q
wakeup_one-IsQueue (t ∷ wh) w q = record {
  once = q.once.1;
  marked = λ u h. ground (arith, q.once, q.marked u);
}

-- The thread that returns from `wait` is off the queue, the others stay as they were, and the
-- result is a timeout exactly if no one had taken the thread off.
pub wait_resume_lem :
    (wh : List ℕ) (w : World)
    → IsQueue wh w
    → let (wh', e) = wait_resume wh w in
      Distinct wh'
      × (member (me w) wh' ≡ false)
      × ((t : ℕ) → me w ≢ t → member t wh' ≡ member t wh)
      × ((e ≡ etimedout) ↔ (w.onlist (me w) ≡ true))
unfolding wait_resume
wait_resume_lem wh w q = elim (Bool-cases (w.onlist (me w))) [
  | inl on ↦ rw on (
    Distinct-remove (me w) wh q.once,
    member-remove_self (me w) wh q.once,
    (λ t n. member-remove_ne (me w) t wh n),
    ((λ e. refl), (λ e. refl)),
  )
  | inr off ↦
      rw off (q.once, ground (arith, q.marked (me w)), (λ t n. refl), ((λ e. cc), (λ e. cc)))
]

-- `wakeup_all` empties the queue; it makes exactly the threads on it runnable, with no timeout
-- pending and off the queue, and leaves every other thread alone.
pub wakeup_all_lem :
    (wh : List ℕ) (w : World)
    → let (wh', w') = wakeup_all wh w in
      (wh' ≡ [])
      × ((t : ℕ)
          → (w'.sched.thread t ≡ (
              if member t wh
              then record (w.sched.thread t) { wakeup_time = 0; runnable = true }
              else w.sched.thread t))
            × (w'.onlist t ≡ (not (member t wh) && w.onlist t)))
unfolding wakeup_all wake_waiter wake
wakeup_all_lem [] w = (refl, (λ t. (refl, refl)))
wakeup_all_lem (x ∷ wh) w =
    let (a, b) = wakeup_all_lem wh (wake_waiter x w) in (a, (λ t. ground (arith, b t)))
