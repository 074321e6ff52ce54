-- ===== src/BusDev/Tests.antt =====
-- rumpxendev/busdev.c: runs of the device, and where its theorems apply.
use rumpuser_xen.Prelude.{
  ◌%◌, map, none, ℕ, zero, suc, ◌≤◌, ◌≡◌, refl, true, false, ◌||◌, some, List, [], ◌∷◌, ◌++◌, arith,
  ◌==◌, ◌/=◌, if◌then◌else◌, length,
}
use rumpuser_xen.XenStore.Calls.{Call, ok, bug, hang, asleep}
use rumpuser_xen.BusDev.{
  make_request, process_request, Errno, Kind, plain, transaction_start, transaction_end, watch,
  unwatch, other, Proto, Dev, watch_message_parse,
}
use rumpuser_xen.BusDev.Room.{open_at}
use rumpuser_xen.XenStore.{
  Wire, Requests, ReqRing, id_allocate, probe_loop, xb_write, copy_loop, publish,
}
use rumpuser_xen.XenStore.Ids.{IsCounted, in_use}
use rumpuser_xen.BusDev.Pieces.{write_each, whole, write_each-whole}
use rumpuser_xen.BusDev.Strings.{watch_message_parse-strings}
use rumpuser_xen.BusDev.Answers.{response_switch, process_response, close_round}
use rumpuser_xen.BusDev.Reading.{
  Reader, answered, Read, returned, unset, waiting, crashed, unfinished, process_event,
  next_event_msg, dev_read, read_loop, dev_poll,
}
use rumpuser_xen.BusDev.Shares.{read_each, read_each-message}
use rumpuser_xen.BusDev.Counts.{IsDev}
use rumpuser_xen.BusDev.Asking.{Booked, process_request-IsDev}
use rumpuser_xen.BusDev.Answering.{process_response-IsDev}
use rumpuser_xen.BusDev.Closing.{is_empty, close_round-IsDev}

-- A header of four bytes: the type, the identifier, the transaction and the size.
abbrev byte : ℕ → List ℕ → ℕ
byte n [] = 0
byte zero (x ∷ xs) = x
byte (suc n) (x ∷ xs) = byte n xs

byte_own : (n : ℕ) (xs ys : List ℕ) → suc n ≤ length xs → byte n (xs ++ ys) ≡ byte n xs
byte_own n [] ys l = absurd (omega (arith, l))
byte_own zero (x ∷ xs) ys l = refl
byte_own (suc n) (x ∷ xs) ys l = byte_own n xs ys (omega (arith, l))

abbrev kind_of : ℕ → Kind
kind_of t =
    if t == 2
    then plain
    else if t == 4
    then watch
    else if t == 5
    then unwatch
    else if t == 7
    then transaction_end
    else if t == 6
    then transaction_start
    else other

abbrev wire : Wire
wire = record {
  size = 1024;
  mask = λ i. i % 1024;
  sizeof_msg = 4;
  header = λ type req_id tx_id len. type ∷ req_id ∷ tx_id ∷ len ∷ [];
  small = omega arith;
  mask_below = λ i. omega arith;
  mask_next = λ i. ground arith;
  mask_wrap = λ i. omega arith;
  header_length = λ type req_id tx_id len. refl;
  type_of = byte 0;
  req_id_of = byte 1;
  len_of = byte 3;
  type_header = λ type req_id tx_id len l. refl;
  req_id_header = λ type req_id tx_id len l. refl;
  len_header = λ type req_id tx_id len l. refl;
  watch_event = 15;
}

-- No identifier is in use, and nothing waits on the ring.
abbrev idle : Requests
idle = record { reply_queue = λ i. 0; for_queue = λ i. 0; nr_live_reqs = 0; probe = 0; woken = 0 }

idle-IsCounted : IsCounted idle
unfolding in_use
idle-IsCounted = record { live = refl; probe_below = omega arith }

abbrev empty_ring : ReqRing
empty_ring = record { req = λ i. 0; req_cons = 50; req_prod = 50 }

abbrev proto : Proto
proto = record {
  sizeof_msg = 4;
  payload_max = 16;
  type_of = byte 0;
  req_id_of = byte 1;
  tx_id_of = byte 2;
  len_of = byte 3;
  len_own = byte_own 3;
  some_bytes = omega arith;
  kind = kind_of;
  xs_watch = 4;
  xs_unwatch = 5;
  xs_transaction_end = 7;
  kind_watch = refl;
  kind_unwatch = refl;
  kind_end = refl;
  xs_error = 16;
  wire = wire;
  same_size = refl;
  queue = 4096;
  queue_set = omega arith;
  requests_at = λ n. idle;
  requests_counted = λ n. idle-IsCounted;
  ring_at = λ n. empty_ring;
  ring_words = λ n. (omega arith, omega arith);
  token = λ i. 42 ∷ i ∷ [];
  token_short = λ i. omega arith;
  has_memory = λ i. true;
}

abbrev opened : Dev
opened = record {
  outstanding_requests = 0;
  transactions = [];
  watches = [];
  wbuf = [];
  requests = [];
  sent = [];
  made = 0;
  calls = 0;
}

opened-IsDev : IsDev proto opened
opened-IsDev = record {
  count = refl;
  once = λ i. omega arith;
  tie = λ i. refl;
  fresh = λ i l. refl;
}

-- A read of "ab", and a watch of "a" with the token "t".
abbrev a_read : List ℕ
a_read = 2 ∷ 9 ∷ 0 ∷ 3 ∷ 97 ∷ 98 ∷ 0 ∷ []

abbrev a_watch : List ℕ
a_watch = 4 ∷ 8 ∷ 0 ∷ 4 ∷ 97 ∷ 0 ∷ 116 ∷ 0 ∷ []

open_always : (n : ℕ) → open_at proto n 42 ≡ true
open_always n = refl

write_each-whole_example :
    write_each proto ((2 ∷ 9 ∷ []) ∷ [] ∷ (0 ∷ 3 ∷ 97 ∷ []) ∷ (98 ∷ 0 ∷ []) ∷ []) opened
    ≡ whole proto a_read opened
write_each-whole_example =
    write_each-whole proto ((2 ∷ 9 ∷ []) ∷ [] ∷ (0 ∷ 3 ∷ 97 ∷ []) ∷ (98 ∷ 0 ∷ []) ∷ []) a_read
      opened refl (refl, omega arith) refl

watch_message_parse-strings_example : watch_message_parse proto a_watch ≡ some (97 ∷ [], 116 ∷ [])
watch_message_parse-strings_example =
    watch_message_parse-strings proto a_watch (97 ∷ []) (116 ∷ []) [] (refl, tt) (refl, tt) refl

process_request-IsDev_example :
    Booked proto true (process_request proto (record opened { wbuf = a_watch }))
process_request-IsDev_example =
    process_request-IsDev proto (record opened { wbuf = a_watch })
      (record { count = refl; once = λ i. omega arith; tie = λ i. refl; fresh = λ i l. refl })

-- Two reads in one write: the first is passed on with the second behind its payload.
abbrev pieces_sent : Call (Errno × Dev) → List (List (List ℕ))
pieces_sent (ok (e, d)) = map (λ m. m.pieces) d.sent
pieces_sent bug = []
pieces_sent hang = []
pieces_sent asleep = []

two_reads_run :
    pieces_sent (process_request proto (record opened { wbuf = a_read ++ a_read }))
    ≡ ((97 ∷ 98 ∷ 0 ∷ a_read) ∷ []) ∷ []
unfolding process_request make_request id_allocate probe_loop xb_write copy_loop publish
two_reads_run = refl

-- A watch is asked for.
abbrev asking : Dev
asking = record opened {
  outstanding_requests = 1;
  watches = record { wid = 1; path = 97 ∷ []; user_token = 116 ∷ []; visible_to_user = false } ∷ [];
  requests = record { rid = 0; user_id = 8; req_type = 4; u = 1 } ∷ [];
  made = 1;
  calls = 4;
}

asking-IsDev : IsDev proto asking
asking-IsDev = record {
  count = refl;
  once = λ i. ground arith;
  tie = λ i. ground arith;
  fresh = λ i l. ground (arith, l);
}

process_response-IsDev_example :
    (d' : Dev) × (process_response proto
        (record { rid = 0; user_id = 8; req_type = 4; u = 1 })
        4
        0
        (79 ∷ 75 ∷ 0 ∷ [])
        asking
      ≡ ok (record { reply_type = 4; reply_id = 8; payload = 79 ∷ 75 ∷ 0 ∷ [] }, d'))
    × IsDev proto d'
    × (d'.requests ≡ [])
process_response-IsDev_example =
    process_response-IsDev proto (record { rid = 0; user_id = 8; req_type = 4; u = 1 }) 4 0
      (79 ∷ 75 ∷ 0 ∷ []) asking asking-IsDev refl refl refl

-- The watch is visible, and a transaction is open.
abbrev closing : Dev
closing = record opened {
  transactions = 7 ∷ [];
  watches = record { wid = 1; path = 97 ∷ []; user_token = 116 ∷ []; visible_to_user = true } ∷ [];
  made = 1;
  calls = 4;
}

closing-IsDev : IsDev proto closing
closing-IsDev = record {
  count = refl;
  once = λ i. ground arith;
  tie = λ i. ground arith;
  fresh = λ i l. ground (arith, l);
}

close_round-IsDev_example :
    (d' : Dev) × (close_round proto closing ≡ ok d')
    × IsDev proto d'
    × (d'.transactions ≡ [])
    × ((d'.outstanding_requests /= 0 || is_empty d'.watches) ≡ true)
close_round-IsDev_example =
    close_round-IsDev proto 42 open_always (omega arith) closing closing-IsDev (omega arith, tt)
      (omega arith)

-- Two bytes of the message were read.
abbrev reading : Reader
reading = record {
  dev = asking;
  events = [];
  rmsg = some a_read;
  rmsg_done = 2;
  queued_enomem = false;
  want_restart = false;
}

abbrev head : ℕ → ℕ → ℕ → ℕ → List ℕ
head type req_id tx_id len = type ∷ req_id ∷ tx_id ∷ len ∷ []

read_each-message_example :
    read_each proto head 15 false (3 ∷ 0 ∷ 2 ∷ []) reading
    ≡ (0 ∷ 3 ∷ 97 ∷ 98 ∷ 0 ∷ [], some (record reading { rmsg = none; rmsg_done = 0 }))
read_each-message_example =
    read_each-message proto head 15 false (3 ∷ 0 ∷ 2 ∷ []) a_read reading refl refl (omega arith)
      (omega arith)

-- An answer waits: a read gets it, but poll says that there is nothing to read.
abbrev answered_reader : Reader
answered_reader = record reading {
  rmsg = none;
  rmsg_done = 0;
  events = answered 0 4 0 (79 ∷ 75 ∷ 0 ∷ []) 0 ∷ [];
}

abbrev bytes_of : Read → List ℕ
bytes_of (returned e out r) = out
bytes_of (unset r) = []
bytes_of (waiting out r) = out
bytes_of crashed = []
bytes_of unfinished = []

read_run : bytes_of (dev_read proto head 15 true 5 answered_reader) ≡ 4 ∷ 8 ∷ 0 ∷ 3 ∷ 79 ∷ []
unfolding dev_read read_loop next_event_msg process_event process_response response_switch
read_run = refl

poll_run : dev_poll proto head 15 1 4 1 answered_reader ≡ 0
poll_run = refl
