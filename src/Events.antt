-- ===== src/Events.antt =====
-- xen/events.c, and the callback of xen/hypervisor.c: event channels. A bitmap that is shared with
-- the hypervisor is a function of the bit's number, its words of 64 bits in a row. What a handler does to
-- all of this is a parameter.
pub mod Sweep
pub mod Due
pub mod Pending
pub mod Callback
pub mod Ports
mod Tests
use rumpuser_xen.Prelude.{
  ℕ, zero, suc, ◌+◌, ◌-◌, ◌*◌, ◌/◌, ◌%◌, ◌^◌, Bool, true, false, not, ◌&&◌, ◌||◌, Option, none,
  some, List, [], ◌∷◌, ◌==◌, ◌/=◌, ltb, if◌then◌else◌, update,
}
use rumpuser_xen.Sched.{Outcome, ok, bug, hang}

-- A call of a handler: the port, the handler and its `data`.
pub record Call : Type 0 where
  pub port : ℕ
  pub handler : ℕ
  pub arg : ℕ

pub record Events : Type 0 where
  pub handler : ℕ → ℕ  -- of `ev_actions`, by the port
  pub arg : ℕ → ℕ
  pub count : ℕ → ℕ
  pub bound : ℕ → Bool  -- `bound_ports`
  pub pending : ℕ → Bool  -- `evtchn_pending`
  pub masked : ℕ → Bool  -- `evtchn_mask`
  pub pending_sel : ℕ → Bool
  pub upcall_pending : Bool
  pub upcall_mask : Bool
  pub in_callback : Bool
  pub calls : List Call  -- the latest first
  pub closed : List ℕ  -- the ports of EVTCHNOP_close, the latest first

abbrev pub nr_evs : ℕ
nr_evs = 1024

-- It stands for the address of the function.
abbrev pub default_handler : ℕ
default_handler = 1

abbrev pub nothing : ℕ → Bool
nothing i = false

unfoldable pub mask_evtchn : ℕ → Events → Events
mask_evtchn port e = record e { masked = update e.masked port true }

unfoldable pub clear_evtchn : ℕ → Events → Events
clear_evtchn port e = record e { pending = update e.pending port false }

-- Is the bit of active_evtchns set?
abbrev pub active : Events → ℕ → Bool
active e port = e.pending port && not (e.masked port)

-- The lowest bit that is set among so many from one on; none if the word is 0.
unfoldable pub ffs : (ℕ → Bool) → ℕ → ℕ → Option ℕ
ffs word zero i = none
ffs word (suc n) i = if word i then some i else ffs word n (i + 1)

unfoldable pub bind_evtchn : ℕ → ℕ → ℕ → Events → Events
bind_evtchn port handler arg e = record e {
  arg = update e.arg port arg;
  handler = update e.handler port handler;
  bound = update e.bound port true;
}

unfoldable pub unbind_evtchn : ℕ → Events → Events
unbind_evtchn port e =
    let e' = clear_evtchn port (mask_evtchn port e) in
    record e' {
      handler = update e'.handler port default_handler;
      arg = update e'.arg port 0;
      bound = update e'.bound port false;
      closed = port ∷ e'.closed;
    }

-- The result of the hypercall and, if that is 0, the port that it chose.
pub record Chosen : Type 0 where
  pub rc : ℕ
  pub port : ℕ

-- bind_virq and bind_pirq; -1 is the largest port number.
unfoldable pub bind_irq : Chosen → ℕ → ℕ → Events → ℕ × Events
bind_irq op handler arg e =
    if op.rc /= 0 then (2 ^ 32 - 1, e) else (op.port, bind_evtchn op.port handler arg e)

-- evtchn_alloc_unbound and evtchn_bind_interdomain: the result, and what is stored through the last
-- argument, if anything is.
unfoldable pub bind_channel : Chosen → ℕ → ℕ → Events → ℕ × Option ℕ × Events
bind_channel op handler arg e =
    if op.rc /= 0
    then (op.rc, none, e)
    else (op.rc, some op.port, bind_evtchn op.port handler arg e)

-- The body of the loop of `unbind_all_ports` for one port.
unfoldable pub unbind_port : ℕ → ℕ → ℕ → Events → Events
unbind_port console store i e =
    if (i == console) || (i == store)
    then e
    else if e.bound i
    then (let e' = mask_evtchn i (record e { bound = update e.bound i false }) in
        clear_evtchn i (record e' { closed = i ∷ e'.closed }))
    else e

-- `n` ports from one on.
unfoldable pub unbind_ports : ℕ → ℕ → ℕ → ℕ → Events → Events
unbind_ports console store zero i e = e
unbind_ports console store (suc n) i e =
    unbind_ports console store n (i + 1) (unbind_port console store i e)

unfoldable pub unbind_all_ports : ℕ → ℕ → Events → Events
unbind_all_ports console store e = record (unbind_ports console store nr_evs 0 e) {
  upcall_pending = false;
  pending_sel = nothing;
}

unfoldable pub init_ports : ℕ → ℕ → Events → Events
init_ports zero i e = e
init_ports (suc n) i e =
    init_ports n (i + 1) (mask_evtchn i (record e { handler = update e.handler i default_handler }))

unfoldable pub init_events : Events → Events
init_events e = init_ports nr_evs 0 e

module _ (run : Call → Events → Events) where
  unfoldable pub do_event : ℕ → Events → Events
  do_event port e =
      let e' = clear_evtchn port e in
      let call : Call = record { port = port; handler = e'.handler port; arg = e'.arg port } in
      if ltb port nr_evs
      then run call (record e' {
        count = update e'.count port ((e'.count port + 1) % 2 ^ 32);
        calls = call ∷ e'.calls;
      })
      else e'

  -- The inner loop of `do_hypervisor_callback`, for one word of events.
  unfoldable pub demux_word : ℕ → ℕ → Events → Outcome Events
  demux_word zero l1i e = hang
  demux_word (suc fuel) l1i e = elim (ffs (λ i. active e (l1i * 64 + i)) 64 0) [
    | none ↦ ok e
    | some l2i ↦ demux_word fuel l1i (do_event (l1i * 64 + l2i) e)
  ]

  -- The outer loop; each word of events has its own fuel.
  unfoldable pub demux : ℕ → ℕ → (ℕ → Bool) → Events → Outcome Events
  demux zero fuel l1 e = hang
  demux (suc words) fuel l1 e = elim (ffs l1 64 0) [
    | none ↦ ok e
    | some l1i ↦ elim (demux_word fuel l1i e) [
      | ok e' ↦ demux words fuel (update l1 l1i false) e'
      | bug ↦ bug
      | hang ↦ hang
    ]
  ]

  -- `fuel` bounds the events that one word yields.
  unfoldable pub do_hypervisor_callback : ℕ → Events → Outcome Events
  do_hypervisor_callback fuel e =
      let e' = record e { in_callback = true; upcall_pending = false; pending_sel = nothing } in
      elim (demux 65 fuel e.pending_sel e') [
        | ok e'' ↦ ok (record e'' { in_callback = false })
        | bug ↦ bug
        | hang ↦ hang
      ]

  -- The loop of `force_evtchn_callback`; `rounds` bounds the upcalls that come while one is handled.
  unfoldable pub force_loop : ℕ → ℕ → Bool → Events → Outcome Events
  force_loop zero fuel save e = hang
  force_loop (suc rounds) fuel save e = elim e.upcall_pending [
    | false ↦ ok e
    | true ↦ elim (do_hypervisor_callback fuel (record e { upcall_mask = true })) [
      | ok e' ↦ force_loop rounds fuel save (record e' { upcall_mask = save })
      | bug ↦ bug
      | hang ↦ hang
    ]
  ]

  unfoldable pub force_evtchn_callback : ℕ → ℕ → Events → Outcome Events
  force_evtchn_callback rounds fuel e = force_loop rounds fuel e.upcall_mask e

  unfoldable pub unmask_evtchn : ℕ → ℕ → ℕ → Events → Outcome Events
  unmask_evtchn rounds fuel port e =
      let e1 = record e { masked = update e.masked port false } in
      let e2 = record e1 { pending_sel = update e1.pending_sel (port / 64) true } in
      let e3 = record e2 { upcall_pending = true } in
      if e1.pending port && not (e1.pending_sel (port / 64))
      then (if e3.upcall_mask then ok e3 else force_evtchn_callback rounds fuel e3)
      else ok e1
