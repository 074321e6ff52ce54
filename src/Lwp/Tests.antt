-- ===== src/Lwp/Tests.antt =====
-- Tests and witnesses of lib/_lwp.c: the main lwp and a second one, at the addresses 8192 and 12288.
use rumpuser_xen.Prelude.{
  ℕ, ◌≡◌, refl, true, false, none, some, [], ◌∷◌, ◌++◌, arith, ◌==◌, if◌then◌else◌,
}
use rumpuser_xen.Sched.{Thread, Sched}
use rumpuser_xen.Lwp.{
  cpu, cpu_none, Schedulable, Lwps, Timespec, lwpid2scd, lwp_exit, lwp_self, lwp_park,
}
use rumpuser_xen.Lwp.Lookup.{Ids}
use rumpuser_xen.Lwp.Issue.{lwp_exit-Ids}
use rumpuser_xen.Lwp.Hook.{OnlyCurrent, switches, switches-OnlyCurrent}
use rumpuser_xen.Lwp.Park.{lwp_park-deadline, Woken}

abbrev blank_thread : Thread
blank_thread = record {
  runnable = true;
  must_join = false;
  joined = false;
  ext_stack = false;
  timed_out = false;
  wakeup_time = 0;
  lwp = 0;
  cookie = 0;
  stack = 0;
  started = true;
}

abbrev main_sched : Sched
main_sched = record {
  thread = λ t. blank_thread;
  thread_list = 512 ∷ 256 ∷ [];
  exited_threads = [];
  joinwq = [];
  current = 256;
  now = 0;
  in_callback = false;
  irqs_off = false;
  hook_set = true;
  hook_calls = [];
  freed = [];
  freed_stacks = [];
}

abbrev lwp_cell : ℕ → Schedulable
lwp_cell p = record {
  thread = if p == 8192 then 256 else 512;
  lwpid = if p == 8192 then 1 else 2;
  name = none;
  start = 0;
  arg = 0;
  stack = 0;
  curcpu = if p == 8192 then cpu 0 else cpu_none;
  pctr = 0;
}

abbrev two_lwps : Lwps
two_lwps = record {
  scd = lwp_cell;
  scheds = 8192 ∷ 12288 ∷ [];
  curlwpid = 2;
  curtcb = 8192;
  sched = main_sched;
}

two_lwps-Ids : Ids two_lwps
two_lwps-Ids = record {
  linked = (refl, (refl, tt));
  different = (refl, (refl, tt));
  issued = (omega arith, (omega arith, tt));
}

lwp_exit-Ids_example :
    let l' = lwp_exit two_lwps in
    Ids l'
    × (lwpid2scd l'.scd l'.scheds (lwp_self two_lwps) ≡ none)
    × (lwpid2scd l'.scd l'.scheds 2 ≡ lwpid2scd two_lwps.scd two_lwps.scheds 2)
unfolding lwp_self
lwp_exit-Ids_example = lwp_exit-Ids 2 two_lwps two_lwps-Ids refl (omega arith)

two_lwps-OnlyCurrent : OnlyCurrent two_lwps
two_lwps-OnlyCurrent p z n = ground arith

switches-OnlyCurrent_example :
    let l' = switches ((12288 ∷ 0 ∷ []) ++ (8192 ∷ [])) two_lwps in
    OnlyCurrent l' × (l'.curtcb ≡ 8192) × ((l'.scd 8192).curcpu ≡ cpu 0)
switches-OnlyCurrent_example =
    switches-OnlyCurrent (12288 ∷ 0 ∷ []) 8192 two_lwps two_lwps-OnlyCurrent (omega arith)

-- 50 days, which are more milliseconds than 32 bits hold.
abbrev fifty_days : Timespec
fifty_days = record { tv_sec = 4320000; tv_nsec = 5 }

lwp_park-deadline_example :
    let l' = lwp_park true (some fifty_days) 0 two_lwps in
    Woken fifty_days (l'.sched.thread l'.sched.current).wakeup_time
lwp_park-deadline_example = lwp_park-deadline fifty_days 0 two_lwps (omega arith) (omega arith)

abbrev no_lwps : Lwps
no_lwps = record two_lwps { scheds = []; curlwpid = 1 }
