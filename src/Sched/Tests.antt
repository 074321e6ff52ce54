-- ===== src/Sched/Tests.antt =====
-- Runs of the scheduler on small inputs, and its theorems at states that meet their hypotheses.
use rumpuser_xen.Prelude.{ℕ, ◌≡◌, ◌⊎◌, refl, true, false, some, [], ◌∷◌, member, Distinct}
use rumpuser_xen.Sched.{
  Thread, Sched, wake, block, expire, requeue, scan, examine, switch_threads, free_thread, reap,
  resume, pick, schedule, ok,
}
use rumpuser_xen.Sched.Time.{le_time, lt_time}
use rumpuser_xen.Sched.Threads.{
  create_thread, exit_thread, exit_gate, exit_leave, wake_joiner, join_test,
}
use rumpuser_xen.Sched.Fairness.{Nearer, schedule_fair}
use rumpuser_xen.Sched.Reach.{IsRunning, here, next, exits, Reach-live}

abbrev plain : ℕ → Thread
plain t = record {
  runnable = true;
  must_join = false;
  joined = false;
  ext_stack = false;
  timed_out = false;
  wakeup_time = 0;
  lwp = t;
  cookie = 0;
  stack = 4096;
  started = true;
}

-- Threads 1, 2 and 3, of which the first runs.
abbrev three : Sched
three = record {
  thread = plain;
  thread_list = 1 ∷ 2 ∷ 3 ∷ [];
  exited_threads = [];
  joinwq = [];
  current = 1;
  now = 100;
  in_callback = false;
  irqs_off = false;
  hook_set = false;
  hook_calls = [];
  freed = [];
  freed_stacks = [];
}

-- All of them asleep, until time 500.
abbrev asleep : Sched
asleep = record three { thread = λ t. record (plain t) { runnable = false; wakeup_time = 500 } }

-- Nothing but time passes while the domain is blocked.
abbrev timer : ℕ → Sched → Sched
timer until s = record s { now = until }

round_robin : (examine three).1 ≡ some 1
unfolding examine scan expire requeue
round_robin = refl

schedule_fair_example :
    (s' : Sched) × (schedule timer 1 three ≡ ok s') × ((s'.current ≡ 3) ⊎ Nearer 3 three s')
schedule_fair_example = schedule_fair timer 0 three 3 refl refl refl refl

-- A blocked list is scanned again once its timeout has passed.
wakes_at_timeout : (t : Sched) × (schedule timer 2 asleep ≡ ok t) × (t.now ≡ 500) × (t.current ≡ 1)
unfolding schedule pick examine scan expire requeue wake le_time lt_time resume switch_threads reap
wakes_at_timeout = (_, refl, refl, refl)

three-IsRunning : IsRunning three
three-IsRunning = record {
  sound = record {
    listed_once = (refl, (refl, (refl, tt)));
    exited_once = tt;
    freed_once = tt;
    apart = λ t h. refl;
    listed_live = λ t h. refl;
    exited_live = λ t h. refl;
    current_live = refl;
  };
  running = refl;
}

-- The first thread exits; the second comes out of `schedule` and frees it.
abbrev after_exit : Sched
after_exit = resume 2 (requeue 2 (exit_leave three))

exit_frees :
    (after_exit.thread_list ≡ 3 ∷ 2 ∷ [])
    × (after_exit.freed ≡ 1 ∷ [])
    × (after_exit.freed_stacks ≡ 4096 ∷ [])
    × (after_exit.exited_threads ≡ [])
unfolding resume requeue exit_leave switch_threads reap free_thread
exit_frees = (refl, refl, refl, refl)

exit_schedules : schedule timer 1 (exit_thread three) ≡ ok after_exit
unfolding schedule pick examine scan expire requeue exit_thread exit_leave
exit_schedules = refl

Reach-live_example :
    (member after_exit.current after_exit.thread_list ≡ true)
    × ((t : ℕ)
        → member t after_exit.thread_list ≡ true
        → (member t after_exit.exited_threads ≡ false) × (member t after_exit.freed ≡ false))
    × Distinct after_exit.freed
Reach-live_example =
    Reach-live {idle = timer}
      (λ m s. record { thread_list = refl; exited_threads = refl; freed = refl; current = refl })
      three-IsRunning (next here (exits 1 exit_schedules))

-- A thread on a stack of the caller's, which has exited.
abbrev external : Sched
external = record (create_thread 9 0 0 77 three) { exited_threads = 9 ∷ [] }

-- The joiner that comes after the exit returns at once, and lets the thread go.
join_after_exit :
    (t : Sched) × (join_test 1
        (exit_gate (record three { thread = λ t. record (plain t) { must_join = true } }))
      ≡ (t, true))
    × ((t.thread 1).must_join ≡ false)
    × ((t.thread 1).runnable ≡ true)
unfolding join_test exit_gate wake_joiner wake block
join_after_exit = (_, refl, refl, refl)
