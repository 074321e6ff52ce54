-- ===== src/Events/Tests.antt =====
-- Tests and witnesses of xen/events.c and xen/hypervisor.c: three ports, one of them masked.
use rumpuser_xen.Prelude.{◌+◌, ◌≡◌, refl, true, false, ◌||◌, [], ◌∷◌, arith, ◌==◌}
use rumpuser_xen.Sched.{ok}
use rumpuser_xen.Events.{
  Call, Events, do_hypervisor_callback, bind_evtchn, unbind_evtchn, do_event, clear_evtchn,
  mask_evtchn,
}
use rumpuser_xen.Events.Sweep.{Quiet}
use rumpuser_xen.Events.Callback.{Served, do_hypervisor_callback-Served}

abbrev idle_run : Call → Events → Events
idle_run c e = e

idle_run-Quiet : Quiet idle_run
idle_run-Quiet = record {
  pending_kept = λ c e. refl;
  masked_kept = λ c e. refl;
  handler_kept = λ c e. refl;
  arg_kept = λ c e. refl;
  calls_kept = λ c e. refl;
}

-- Ports 3, 5 and 70 are pending, and 5 is masked.
abbrev three_pending : Events
three_pending = record {
  handler = λ p. p + 100;
  arg = λ p. 0;
  count = λ p. 0;
  bound = λ p. (p == 3) || (p == 70);
  pending = λ p. (p == 3) || (p == 5) || (p == 70);
  masked = λ p. p == 5;
  pending_sel = λ w. (w == 0) || (w == 1);
  upcall_pending = true;
  upcall_mask = false;
  in_callback = false;
  calls = [];
  closed = [];
}

do_hypervisor_callback-Served_example :
    (e' : Events) × (do_hypervisor_callback idle_run 65 three_pending ≡ ok e')
    × Served three_pending e'
do_hypervisor_callback-Served_example =
    do_hypervisor_callback-Served idle_run 65 three_pending idle_run-Quiet (omega arith)

-- A handler that is bound is called, and one that is unbound is not.
call_of_bound :
    (do_event idle_run 7 (bind_evtchn 7 55 66 three_pending)).calls
    ≡ record { port = 7; handler = 55; arg = 66 } ∷ []
unfolding do_event bind_evtchn clear_evtchn
call_of_bound = refl

unbound_is_closed : (unbind_evtchn 70 three_pending).closed ≡ 70 ∷ []
unfolding unbind_evtchn clear_evtchn mask_evtchn
unbound_is_closed = refl
