-- ===== src/Synch/Rwlock/Laws.antt =====
-- rumphyper_synch.c, reader and writer locks: who is let in, who is woken on the way out, and where
-- the code does not keep readers and writers apart.
use rumpuser_xen.Prelude.{
  ℕ, ◌+◌, ◌-◌, ◌^◌, ◌<◌, ◌≡◌, ◌≢◌, ◌⊎◌, refl, Bool, true, false, not, ◌||◌, List, [], ◌∷◌, arith,
  ◌==◌, if◌then◌else◌, member,
}
use rumpuser_xen.Sched.{ok}
use rumpuser_xen.Synch.Waiters.{
  Errno, success, ebusy, World, wake_waiter, wakeup_one, positive_int, minus_one, curlwp,
}
use rumpuser_xen.Synch.Waiters.Laws.{wakeup_all_lem}
use rumpuser_xen.Synch.Rwlock.{
  Rwlock, reader, writer, Rw, is_empty, rw_tryenter, rw_drop, rw_hand_over, rw_exit, rw_held,
  rw_downgrade,
}

-- What a lock grants, as the code sees it: to nobody, to a number of readers, or to a writer.
pub data Grant : Type 0 where
  free : Grant
  readers : ℕ → Grant
  written : ℕ → Grant

unfoldable pub grant : Rw → Grant
grant r = if r.o == 0 then (if r.v == 0 then free else readers r.v) else written r.o

-- The rules of a lock that prefers writers, for a thread of lwp `l` that wants in.
unfoldable pub admit : Rwlock → Bool → ℕ → Grant → Errno × Grant
admit reader writers_wait l free = if writers_wait then (ebusy, free) else (success, readers 1)
admit reader writers_wait l (readers n) =
    if writers_wait then (ebusy, readers n) else (success, readers (n + 1))
admit reader writers_wait l (written k) = (ebusy, written k)
admit writer writers_wait l free = (success, written l)
admit writer writers_wait l (readers n) = (ebusy, readers n)
admit writer writers_wait l (written k) = (ebusy, written k)

-- And for a holder that leaves.
unfoldable pub leave : Grant → Grant
leave free = free
leave (readers n) = if n == 1 then free else readers (n - 1)
leave (written l) = free

-- A thread that tries to enter is let in, or not, by the rules of a lock that prefers writers: a
-- reader not while a writer has the lock or waits for it, a writer not while another has it. For a
-- writer this is so only where no reader has the lock. (The readers are fewer than the largest
-- `int`, and the thread has an lwp.)
pub rw_tryenter_refines :
    (lk : Rwlock) (r : Rw) (w : World)
    → r.v + 1 < 2 ^ 31
    → curlwp w ≢ 0
    → (lk ≡ writer → r.v ≡ 0)
    → let (e, r') = rw_tryenter lk r w in
      (e, grant r') ≡ admit lk (not (is_empty r.wwait)) (curlwp w) (grant r)
unfolding rw_tryenter grant admit
rw_tryenter_refines reader r w b n h = ground arith
rw_tryenter_refines writer r w b n h = ground (arith, h refl)

-- The lock has no owner behind the first half of an exit, whoever leaves.
rw_drop_o : (r : Rw) → (rw_drop r).o ≡ 0
unfolding rw_drop
rw_drop_o r = ground arith

-- A reader that leaves takes the lock from the writer that came in beside it: the writer owns it no
-- longer, and the reader is still counted.
pub reader_exit_frees_writer :
    (r : Rw) (w u : World)
    → r.o ≡ 0
    → positive_int r.v ≡ true
    → curlwp w ≢ 0
    → let r' = (rw_tryenter writer r w).1 in
      let r'' = (rw_exit r' u).0 in
      (rw_held writer r' w ≡ true) × (rw_held writer r'' w ≡ false) × (r''.v ≡ r.v)
unfolding rw_tryenter rw_held rw_exit rw_hand_over rw_drop
reader_exit_frees_writer r w u e p n = ground arith

-- A holder that leaves leaves by those rules, if a writer does not share the lock with readers.
pub rw_exit_refines :
    (r : Rw) (w : World)
    → r.v < 2 ^ 31
    → ((r.o ≡ 0) × (r.v ≢ 0)) ⊎ ((r.o ≢ 0) × (r.v ≡ 0))
    → grant (rw_exit r w).0 ≡ leave (grant r)
unfolding rw_exit rw_hand_over rw_drop grant leave
rw_exit_refines r w b h = ground arith

-- What the exit of a lock does to its queues: a waiting writer is woken alone, and if none waits
-- exactly the waiting readers are made runnable.
pub rw_exit-wakes :
    (r : Rw) (w : World)
    → let (r', w') = rw_exit r w in
      ((t : ℕ) (ts : List ℕ)
        → r.wwait ≡ t ∷ ts
        → (r'.wwait ≡ ts) × (r'.rwait ≡ r.rwait) × (w' ≡ wake_waiter t w))
      × (r.wwait ≡ []
          → (r'.wwait ≡ [])
            × (r'.rwait ≡ [])
            × ((t : ℕ)
                → (w'.sched.thread t).runnable ≡ (member t r.rwait || (w.sched.thread t).runnable)))
unfolding rw_exit rw_hand_over rw_drop wakeup_one
rw_exit-wakes r w =
    let (a, b) = wakeup_all_lem r.rwait w in
    (
      (λ t ts e. ground (arith, e)),
      (λ e. (ground (arith, e), ground (arith, e, a), (λ t. ground (arith, e, a, b t)))),
    )

-- A writer that downgrades keeps other readers out, since it stays the owner; and the count that it
-- leaves tells a reader that comes after its exit that nobody holds the lock.
pub downgrade_loses_reader :
    (r : Rw) (w u : World)
    → r.o ≡ curlwp w
    → curlwp w ≢ 0
    → r.rwait ≡ []
    → r.wwait ≡ []
    → let r₁ = record r { v = minus_one } in
      let r₂ = (rw_exit r₁ w).0 in
      let (e, r₃) = rw_tryenter reader r₂ u in
      (rw_downgrade r w ≡ ok r₁)
      × ((rw_tryenter reader r₁ u).0 ≡ ebusy)
      × (e ≡ success)
      × (rw_held reader r₃ u ≡ false)
unfolding rw_downgrade rw_exit rw_hand_over rw_drop rw_tryenter rw_held
downgrade_loses_reader r w u e n a b = ground arith
