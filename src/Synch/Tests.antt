-- ===== src/Synch/Tests.antt =====
-- Runs of the locks on small inputs, and their theorems at states that meet their hypotheses.
use rumpuser_xen.Prelude.{ℕ, ◌<◌, ◌≡◌, ◌⊎◌, refl, inl, true, false, ◌||◌, [], ◌∷◌, arith, ◌==◌}
use rumpuser_xen.Sched.{Sched, ok}
use rumpuser_xen.Synch.Waiters.{World, wait}
use rumpuser_xen.Synch.Waiters.Laws.{IsQueue}
use rumpuser_xen.Synch.Mutex.{Mtx, mutex_init, mutex_tryenter, mutex_enter_loop, mutex_exit}
use rumpuser_xen.Synch.Mutex.System.{
  outside, entering, waiting, System, run, lwp_of, arrive, enter, enters, loops, Reach, here, next,
}
use rumpuser_xen.Synch.Mutex.Exclusion.{IsFresh, mutual_exclusion, no_lost_wakeup}
use rumpuser_xen.Synch.Rwlock.{Rw, writer, rw_tryenter, rw_exit, rw_held}
use rumpuser_xen.Synch.Rwlock.Laws.{
  grant, admit, leave, rw_tryenter_refines, rw_exit_refines, reader_exit_frees_writer,
}
use rumpuser_xen.Synch.Condvar.{Cv, Upcalls}

-- Each thread has the lwp of its own address; thread 1 runs.
abbrev sched : Sched
sched = record {
  thread = λ t. record {
    runnable = true;
    must_join = false;
    joined = false;
    ext_stack = false;
    timed_out = false;
    wakeup_time = 0;
    lwp = t;
    cookie = 0;
    stack = 4096;
    started = true;
  };
  thread_list = 1 ∷ 2 ∷ 3 ∷ [];
  exited_threads = [];
  joinwq = [];
  current = 1;
  now = 100;
  in_callback = false;
  irqs_off = false;
  hook_set = false;
  hook_calls = [];
  freed = [];
  freed_stacks = [];
}

abbrev world : World
world = record { sched = sched; onlist = λ t. false }

-- Threads 2 and 3 are queued.
abbrev queued : World
queued = record { sched = sched; onlist = λ t. t == 2 || t == 3 }

abbrev fresh : System
fresh = record { mtx = mutex_init true false; world = world; pc = λ t. outside; depth = λ t. 0 }

fresh-IsFresh : IsFresh fresh
fresh-IsFresh = record {
  kmutex = true;
  spin = false;
  made = refl;
  named = λ t u e n. e;
  idle = λ t. (refl, refl);
}

-- Thread 1 has entered.
abbrev one_in : System
one_in = enter 1 fresh

one_in-Reach : Reach fresh one_in
unfolding mutex_init
one_in-Reach = next here (omega arith) (enters 1 (omega arith) refl)

mutual_exclusion_example :
    (◌≡◌ {A = ℕ} 1 1) × (one_in.mtx.v ≡ one_in.depth 1) × (one_in.mtx.o ≡ lwp_of one_in 1)
unfolding enter arrive mutex_tryenter mutex_init
mutual_exclusion_example =
    mutual_exclusion fresh-IsFresh one_in-Reach 1 1 (omega arith) (omega arith)

-- Thread 2 tries, fails, and waits.
abbrev two_tries : System
two_tries = enter 2 one_in

abbrev two_waits : System
two_waits = arrive 2 two_tries (mutex_enter_loop (λ w. w) two_tries.mtx (run 2 two_tries.world))

two_waits-Reach : Reach fresh two_waits
unfolding enter arrive mutex_tryenter mutex_init
two_waits-Reach =
    next (next one_in-Reach (omega arith) (enters 2 (omega arith) refl)) (omega arith)
      (loops 2 (omega arith) refl)

no_lost_wakeup_example :
    ((t : ℕ) × (0 < two_waits.depth t)
      × ((r : Mtx × World) × (mutex_exit two_waits.mtx (run t two_waits.world) ≡ ok r)))
    ⊎ ((t : ℕ) × ((two_waits.pc t ≡ entering)
          ⊎ ((two_waits.pc t ≡ waiting) × ((two_waits.world.sched.thread t).runnable ≡ true))))
unfolding enter arrive mutex_tryenter mutex_init mutex_enter_loop wait
no_lost_wakeup_example = no_lost_wakeup fresh-IsFresh two_waits-Reach 2 refl

pair-IsQueue : IsQueue (2 ∷ 3 ∷ []) queued
pair-IsQueue = record { once = (refl, (refl, tt)); marked = λ t h. ground arith }

-- Two readers are in, a writer waits.
abbrev read_by_two : Rw
read_by_two = record { rwait = []; wwait = 3 ∷ []; v = 2; o = 0 }

abbrev unlocked : Rw
unlocked = record { rwait = []; wwait = []; v = 0; o = 0 }

abbrev written_by_one : Rw
written_by_one = record { rwait = 2 ∷ 3 ∷ []; wwait = []; v = 0; o = 1 }

rw_tryenter_refines_example :
    let (e, r') = rw_tryenter writer unlocked world in
    (e, grant r') ≡ admit writer false 1 (grant unlocked)
rw_tryenter_refines_example =
    rw_tryenter_refines writer unlocked world (omega arith) (omega arith) (λ e. refl)

rw_exit_refines_example : grant (rw_exit read_by_two world).0 ≡ leave (grant read_by_two)
rw_exit_refines_example = rw_exit_refines read_by_two world (omega arith) (inl (refl, omega arith))

reader_exit_frees_writer_example :
    let r' = (rw_tryenter writer read_by_two world).1 in
    let r'' = (rw_exit r' (run 2 world)).0 in
    (rw_held writer r' world ≡ true) × (rw_held writer r'' world ≡ false) × (r''.v ≡ 2)
reader_exit_frees_writer_example =
    reader_exit_frees_writer read_by_two world (run 2 world) refl refl (omega arith)

abbrev written_alone : Rw
written_alone = record unlocked { o = 1 }

-- Thread 1 holds the mutex once, and threads 2 and 3 wait on the condition variable.
abbrev held : Mtx
held = record { waiters = []; v = 1; kmutex = false; spin = false; o = 1 }

abbrev busy_cv : Cv
busy_cv = record { waiters = 2 ∷ 3 ∷ []; nwaiters = 2 }

abbrev open_mtx : Mtx
open_mtx = record held { v = 0; o = 0 }

abbrev quiet : Upcalls
quiet = record { unsched = λ m w. (m, w); sched = λ m w. (m, w) }
