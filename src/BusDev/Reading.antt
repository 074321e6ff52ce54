-- ===== src/BusDev/Reading.antt =====
-- rumpxendev/busdev.c: watch events and answers become messages, which xenbus_dev_read hands out in any pieces.
use rumpuser_xen.Prelude.{
  ℕ, zero, suc, ◌+◌, ◌-◌, Bool, true, false, not, ◌||◌, Option, none, some, List, [], ◌∷◌, ◌++◌,
  ◌==◌, if◌then◌else◌, length, take, drop,
}
use Prim.Native.Nat.{bit_and, bit_or}
use rumpuser_xen.XenStore.Calls.{Call, ok, bug, hang, asleep}
use rumpuser_xen.BusDev.{Proto, Errno, no_error, enomem, eagain, erestart, Request, Watch, Dev}
use rumpuser_xen.BusDev.Answers.{find_watch, find_request, Reply, process_response}

-- What xenbus puts on the queue of the device: that a watch fired, with the path of what changed; or the answer to a
-- request, with its type, its transaction, its payload, and what strtoul makes of where it is pointed to.
pub data Event : Type 0 where
  fired : ℕ → List ℕ → Event
  answered : ℕ → ℕ → ℕ → List ℕ → ℕ → Event

-- The rest of the struct xenbus_dev_data; the message that is partly read is its bytes.
pub record Reader : Type 0 where
  pub dev : Dev
  pub events : List Event
  pub rmsg : Option (List ℕ)
  pub rmsg_done : ℕ
  pub queued_enomem : Bool
  pub want_restart : Bool

-- What next_event_msg comes to: a message; no message, and an error; no message and no error, for lack of
-- memory; or the thread sleeps.
pub data Next : Type 0 where
  got : List ℕ → Reader → Next
  failed : Errno → Reader → Next
  no_msg : Reader → Next
  sleeps : Reader → Next
  stopped : Next

-- What a read comes to, with the bytes that it copied. `unset` is a return with an error that was never set.
pub data Read : Type 0 where
  returned : Errno → List ℕ → Reader → Read
  unset : Reader → Read
  waiting : List ℕ → Reader → Read
  crashed : Read
  unfinished : Read

abbrev pub is_none : Option (List ℕ) → Bool
is_none none = true
is_none (some m) = false

-- The checks of a message's size are left out. `header` gives the bytes of the struct xsd_sockmsg, from its fields in their order.
module _ (p : Proto) (header : ℕ → ℕ → ℕ → ℕ → List ℕ) (xs_watch_event : ℕ) where
  abbrev pub watch_payload : List ℕ → List ℕ → List ℕ
  watch_payload epath token = epath ++ (0 ∷ (token ++ (0 ∷ [])))

  abbrev pub watch_event_of : List ℕ → Option Watch → Reader → Next
  watch_event_of epath none r = stopped
  watch_event_of epath (some w) r =
      let data_of = watch_payload epath w.user_token in
      let r' = record r { dev = record r.dev { calls = r.dev.calls + 1 } } in
      if p.has_memory r.dev.calls
      then got (header xs_watch_event 0 0 (length data_of) ++ data_of) r'
      else no_msg (record r' { queued_enomem = true })

  unfoldable pub process_watch_event : ℕ → List ℕ → Reader → Next
  process_watch_event i epath r = watch_event_of epath (find_watch i r.dev.watches) r

  abbrev pub response_msg : ℕ → Call (Reply × Dev) → Reader → Next
  response_msg tx_id (ok (m, d)) r =
      got (header m.reply_type m.reply_id tx_id (length m.payload) ++ m.payload)
        (record r { dev = d })
  response_msg tx_id bug r = stopped
  response_msg tx_id hang r = stopped
  response_msg tx_id asleep r = stopped

  abbrev pub answer_of : ℕ → ℕ → List ℕ → ℕ → Option Request → Reader → Next
  answer_of type tx_id payload tx none r = stopped
  answer_of type tx_id payload tx (some q) r =
      response_msg tx_id (process_response p q type tx payload r.dev) r

  unfoldable pub process_event : Event → Reader → Next
  process_event (fired i epath) r = process_watch_event i epath r
  process_event (answered rid type tx_id payload tx) r =
      answer_of type tx_id payload tx (find_request rid r.dev.requests) r

  -- As a read calls it. A thread that sleeps starts again here.
  abbrev pub next_of : Bool → List Event → Reader → Next
  next_of nonblock [] r =
      if r.want_restart then failed erestart r else if nonblock then failed eagain r else sleeps r
  next_of nonblock (e ∷ es) r = process_event e (record r { events = es })

  unfoldable pub next_event_msg : Bool → Reader → Next
  next_event_msg nonblock r = next_of nonblock r.events r

  -- uiomove of the message, which is freed once it is complete.
  abbrev pub copied : ℕ → List ℕ → Reader → Reader
  copied n m r =
      if r.rmsg_done + n == length m
      then record r { rmsg = none; rmsg_done = 0 }
      else record r { rmsg_done = r.rmsg_done + n }

  abbrev pub piece : ℕ → List ℕ → Reader → List ℕ
  piece resid m r = take resid (drop r.rmsg_done m)

  -- How a round goes on: with a message to copy from, or to the end. `rest` is the next round, `nothing_yet`
  -- whether no byte was copied.
  abbrev pub copy_piece : (ℕ → List ℕ → Reader → Read) → ℕ → List ℕ → List ℕ → Reader → Read
  copy_piece rest resid out m r =
      let new = piece resid m r in rest (resid - length new) (out ++ new) (copied (length new) m r)

  abbrev pub with_next : (ℕ → List ℕ → Reader → Read) → Bool → ℕ → List ℕ → Next → Read
  with_next rest nothing_yet resid out (got m r) =
      copy_piece rest resid out m (record r { rmsg = some m })
  with_next rest nothing_yet resid out (failed e r) =
      if nothing_yet then returned e out r else returned no_error out r
  with_next rest nothing_yet resid out (no_msg r) =
      if nothing_yet then unset r else returned no_error out r
  with_next rest nothing_yet resid out (sleeps r) = waiting out r
  with_next rest nothing_yet resid out stopped = crashed

  abbrev pub with_rmsg :
      (ℕ → List ℕ → Reader → Read) → Bool → Bool → ℕ → List ℕ → Option (List ℕ) → Reader → Read
  with_rmsg rest nonblock nothing_yet resid out none r =
      with_next rest nothing_yet resid out (next_event_msg nonblock r)
  with_rmsg rest nonblock nothing_yet resid out (some m) r = copy_piece rest resid out m r

  -- The loop, with fuel: `resid` is how much is asked for still and `out` what was copied.
  unfoldable pub read_loop : ℕ → Bool → ℕ → List ℕ → Reader → Read
  read_loop zero nonblock resid out r = unfinished
  read_loop (suc n) nonblock resid out r =
      let nothing_yet = length out == 0 in
      if r.queued_enomem
      then (if nothing_yet
          then returned enomem out (record r { queued_enomem = false })
          else returned no_error out r)
      else if resid == 0
      then returned no_error out r
      else with_rmsg (λ resid' out' r'. read_loop n nonblock resid' out' r') nonblock nothing_yet
          resid out r.rmsg r

  -- Every message has bytes, so that a round more than the bytes asked for is enough.
  unfoldable pub dev_read : Bool → ℕ → Reader → Read
  dev_read nonblock resid r = read_loop (resid + 1) nonblock resid [] r

  -- `rbits` and `wbits` are the flags of poll for reading and for writing. What waits in `events` does not count.
  abbrev pub dev_poll : ℕ → ℕ → ℕ → Reader → ℕ
  dev_poll rbits wbits events r =
      let readable = not (is_none r.rmsg) || r.queued_enomem || r.want_restart in
      bit_or (bit_and events wbits) (if readable then bit_and events rbits else 0)

  abbrev pub dev_restart : Reader → Reader
  dev_restart r = record r { want_restart = true }

  -- A device that was opened, if there was memory for its struct.
  abbrev pub dev_open : Reader
  dev_open = record {
    dev = record {
      outstanding_requests = 0;
      transactions = [];
      watches = [];
      wbuf = [];
      requests = [];
      sent = [];
      made = 0;
      calls = 1;
    };
    events = [];
    rmsg = none;
    rmsg_done = 0;
    queued_enomem = false;
    want_restart = false;
  }
