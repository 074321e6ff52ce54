-- ===== src/Synch/Thread.antt =====
-- rumphyper_synch.c: the threads of the rump kernel, and the lwp
-- that each stands for.
use rumpuser_xen.Prelude.{ℕ, Bool, true, ◌==◌, if◌then◌else◌}
use rumpuser_xen.Sched.{Sched, modify, Outcome, ok, bug}
use rumpuser_xen.Sched.Threads.{create_thread}
use rumpuser_xen.Synch.Waiters.{Errno, success, einval}

-- `rumpuser_thread_create`. `t` is the memory of the new thread, 0 if there is none: then the
-- thread's fields are those of address 0.
unfoldable pub thread_create : ℕ → ℕ → Bool → Sched → Errno × Sched
thread_create t pages joinable s =
    let s' = create_thread t pages 0 0 s in
    if t == 0
    then (einval, s')
    else (success, if joinable then modify t (λ th. record th { must_join = true }) s' else s')

-- enum rumplwpop
pub data Lwpop : Type 0 where
  create destroy set clear : Lwpop

unfoldable pub curlwpop : Lwpop → ℕ → Sched → Outcome Sched
curlwpop create l s = ok s
curlwpop destroy l s = ok s
curlwpop set l s = ok (modify s.current (λ th. record th { lwp = l }) s)
curlwpop clear l s =
    if (s.thread s.current).lwp == l
    then ok (modify s.current (λ th. record th { lwp = 0 }) s)
    else bug
