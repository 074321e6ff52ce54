-- ===== src/Events/Callback.antt =====
-- xen/hypervisor.c: `do_hypervisor_callback` serves every event that is due, once and in order.
use rumpuser_xen.Prelude.{ℕ, ◌+◌, ◌*◌, ◌<◌, ◌≡◌, refl, ap, ◌∙◌, true, false, not, ◌&&◌, arith}
use rumpuser_xen.Sched.{ok}
use rumpuser_xen.Events.{Call, Events, nothing, do_hypervisor_callback}
use rumpuser_xen.Events.Sweep.{Quiet, sweep, demux-sweep}
use rumpuser_xen.Events.Due.{due, logged, due-Agree, sweep-due}
use rumpuser_xen.Events.Pending.{sweep-pending}

-- The state after the callback, where the handlers are quiet: its calls are those for the events that
-- are due, once each and in the order of the ports, and of the selected words only masked events are
-- left pending, while all else of the bitmap is as before.
abbrev pub Served : Events → Events → Type 0
Served e e' =
    (e'.calls ≡ logged (due e.pending_sel e 64 0) e.calls)
    × ((i j : ℕ)
        → i < 64
        → j < 64
        → e'.pending (i * 64 + j)
          ≡ (e.pending (i * 64 + j) && not (e.pending_sel i && not (e.masked (i * 64 + j)))))

-- If handlers are quiet, do_hypervisor_callback ends with fuel for 65 events in a word. It calls
-- the handlers of all events that are selected, pending, not masked and in the table, once each and in
-- the order of the ports; only masked events of the selected words stay pending, and the bits of
-- other words stay as they were.
pub do_hypervisor_callback-Served :
    (run : Call → Events → Events) (fuel : ℕ) (e : Events)
    → Quiet run
    → 64 < fuel
    → (e' : Events) × (do_hypervisor_callback run fuel e ≡ ok e') × Served e e'
unfolding do_hypervisor_callback
do_hypervisor_callback-Served run fuel e q f =
    let e0 = record e { in_callback = true; upcall_pending = false; pending_sel = nothing } in
    let r =
      demux-sweep run q 64 0 65 fuel e.pending_sel e.pending_sel e0 (omega arith)
        (λ j l. absurd (omega arith)) (λ j l. refl) (omega arith) f in
    let e1 = sweep run 64 0 e.pending_sel e0 in
    (
      record e1 { in_callback = false },
      rw (r, do_hypervisor_callback) refl,
      (
        sweep-due run q 64 0 e.pending_sel e0
            ∙ ap (λ cs. logged cs e.calls)
                (due-Agree 64 0 e.pending_sel e0 e (λ j l. (refl, refl, refl))),
        λ i j a b. sweep-pending run q 64 0 i j e.pending_sel e0 b ∙ ground (arith, a),
      ),
    )
