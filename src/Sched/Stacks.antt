-- ===== src/Sched/Stacks.antt =====
-- xen/sched.c and xen/arch/x86/sched.c: the stack of a thread that exits.
use rumpuser_xen.Prelude.{ℕ, ◌≡◌, ◌≢◌, [], ◌∷◌, arith}
use rumpuser_xen.Sched.{Sched, free_thread, reap}
use rumpuser_xen.Sched.Threads.{create_thread, arch_create_thread}

-- A thread that was created on a stack of the caller's loses the mark of that: when it has exited
-- and another thread comes out of `schedule`, its stack is given to the page allocator. (The state
-- `u` is any later one in which the thread is the one that has exited, with its stack and that mark
-- as `create_thread` left them.)
pub external_stack_freed :
    (t pages cookie stack me : ℕ) (s u : Sched)
    → stack ≢ 0
    → me ≢ t
    → u.exited_threads ≡ t ∷ []
    → (u.thread t).stack ≡ ((create_thread t pages cookie stack s).thread t).stack
    → (u.thread t).ext_stack ≡ ((create_thread t pages cookie stack s).thread t).ext_stack
    → (reap me u.exited_threads u).freed_stacks ≡ stack ∷ u.freed_stacks
unfolding create_thread arch_create_thread reap free_thread
external_stack_freed t pages cookie stack me s u n d e a b = rw e (ground arith)
