-- ===== src/Sched/Threads.antt =====
-- xen/sched.c and xen/arch/x86/sched.c: creating, ending, joining and putting to sleep a thread.
use rumpuser_xen.Prelude.{ℕ, Bool, true, false, List, [], ◌∷◌, ◌++◌, ◌==◌, if◌then◌else◌, remove}
use rumpuser_xen.Sched.{JoinWaiter, Sched, modify, wake, block, Outcome, ok, bug}
use rumpuser_xen.Sched.Time.{add_time, millisecs}

-- `xmalloc` and `alloc_pages` are the library's and the page allocator's: `t` is the memory that
-- the first returned, with whatever it holds, and `pages` what the second returned. That memory is
-- no longer free.
unfoldable pub arch_create_thread : ℕ → ℕ → ℕ → Sched → Sched
arch_create_thread t pages stack s =
    modify t
      (λ th.
        record (if stack == 0
          then record th { stack = pages }
          else record th { stack = stack; ext_stack = true }) { started = false })
      (record s { freed = remove t s.freed })

unfoldable pub create_thread : ℕ → ℕ → ℕ → ℕ → Sched → Sched
create_thread t pages cookie stack s =
    let s' = arch_create_thread t pages stack s in
    let s'' =
      modify t
        (λ th. record th {
          runnable = true;
          must_join = false;
          joined = false;
          ext_stack = false;
          timed_out = false;
          wakeup_time = 0;
          lwp = 0;
          cookie = cookie;
        })
        s' in
    record s'' { thread_list = s''.thread_list ++ (t ∷ []) }

-- The joiner that waits for the thread, if one does, is woken.
unfoldable pub wake_joiner : ℕ → List JoinWaiter → Sched → Sched
wake_joiner t [] s = s
wake_joiner t (jw ∷ ws) s = if jw.jw_wanted == t then wake jw.jw_thread s else wake_joiner t ws s

-- One round of the loop at the head of `exit_thread`, up to the call of `schedule`.
unfoldable pub exit_gate : Sched → Sched
exit_gate s =
    let s' = modify s.current (λ th. record th { joined = true }) s in
    block s.current (wake_joiner s.current s'.joinwq s')

unfoldable pub exit_leave : Sched → Sched
exit_leave s =
    modify s.current (λ th. record th { runnable = false })
      (record s {
        thread_list = remove s.current s.thread_list;
        exited_threads = s.current ∷ s.exited_threads;
      })

-- `exit_thread` from its start, or from a return of `schedule` in its loop, to the next `schedule`.
unfoldable pub exit_thread : Sched → Sched
exit_thread s = if (s.thread s.current).must_join then exit_gate s else exit_leave s

abbrev pub remove_waiter : ℕ → List JoinWaiter → List JoinWaiter
remove_waiter t [] = []
remove_waiter t (jw ∷ ws) = if jw.jw_thread == t then ws else jw ∷ remove_waiter t ws

-- The loop test of `join_thread` and what follows it: `true` if the function returns, `false` if it
-- has gone on the queue and calls `schedule`.
unfoldable pub join_test : ℕ → Sched → Sched × Bool
join_test j s =
    if (s.thread j).joined
    then (wake j (modify j (λ th. record th { must_join = false }) s), true)
    else (let jw : JoinWaiter = record { jw_thread = s.current; jw_wanted = j } in
        (block s.current (record s { joinwq = s.joinwq ++ (jw ∷ []) }), false))

unfoldable pub join_thread : ℕ → Sched → Outcome (Sched × Bool)
join_thread j s = if (s.thread j).must_join then ok (join_test j s) else bug

-- `join_thread` from a return of `schedule`.
unfoldable pub join_resume : ℕ → Sched → Sched × Bool
join_resume j s = join_test j (record s { joinwq = remove_waiter s.current s.joinwq })

-- `dosleep` up to `schedule`, and behind it.
unfoldable pub dosleep : ℕ → Sched → Sched
dosleep time s =
    modify s.current (λ th. record th { wakeup_time = time; timed_out = false; runnable = false }) s

unfoldable pub dosleep_resume : Sched → Sched × Bool
dosleep_resume s =
    (modify s.current (λ th. record th { timed_out = false }) s, (s.thread s.current).timed_out)

unfoldable pub msleep : ℕ → Sched → Sched
msleep ms s = dosleep (add_time s.now (millisecs ms)) s

unfoldable pub absmsleep : ℕ → Sched → Sched
absmsleep ms s = dosleep (millisecs ms) s

unfoldable pub init_mainlwp : ℕ → Sched → Sched
init_mainlwp cookie s = modify s.current (λ th. record th { cookie = cookie }) s
