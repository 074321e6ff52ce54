-- ===== src/XenStore/Tests.antt =====
-- xen/xenbus/xenbus.c: messages of a domain whose header is four words in little-endian order, and where the
-- theorems on XenStore apply.
use rumpuser_xen.Prelude.{
  ℕ, ◌+◌, ◌*◌, ◌/◌, ◌%◌, ◌^◌, ◌<◌, ◌≡◌, refl, ◌||◌, some, List, [], ◌∷◌, ◌++◌, arith, ◌==◌,
  if◌then◌else◌, update, length, drop,
}
use rumpuser_xen.Sched.{ok, bug}
use rumpuser_xen.XenStore.{
  Wire, ReqRing, Requests, nr_reqs, store_bytes, load_bytes, memcpy_from_ring, xb_write,
  id_allocate,
}
use rumpuser_xen.XenStore.Ids.{IsCounted, in_use, id_allocate-Fresh}
use rumpuser_xen.XenStore.Thread.{Bus, take_message}
use rumpuser_xen.XenStore.Request.{Answers, msg_begin, msg_end, msg_reply-answered}
use rumpuser_xen.XenStore.Message.{message, pending, xb_write-wrap_bug}

abbrev word_bytes : ℕ → List ℕ
word_bytes n = n % 256 ∷ n / 256 % 256 ∷ n / 65_536 % 256 ∷ n / 16_777_216 % 256 ∷ []

abbrev word_of : List ℕ → ℕ
word_of (a ∷ b ∷ c ∷ d ∷ xs) = a + b * 256 + c * 65_536 + d * 16_777_216
word_of xs = 0

word_of-bytes :
    (n : ℕ)
    → n < 2 ^ 32
    → n % 256 + n / 256 % 256 * 256 + n / 65_536 % 256 * 65_536 + n / 16_777_216 % 256 * 16_777_216
      ≡ n
word_of-bytes n l = omega arith

abbrev wire : Wire
wire = record {
  size = 1024;
  mask = λ i. i % 1024;
  sizeof_msg = 16;
  header = λ type req_id tx_id len.
      word_bytes type ++ word_bytes req_id ++ word_bytes tx_id ++ word_bytes len;
  small = omega arith;
  mask_below = λ i. omega arith;
  mask_next = λ i. ground arith;
  mask_wrap = λ i. omega arith;
  header_length = λ type req_id tx_id len. refl;
  type_of = λ msg. word_of msg;
  req_id_of = λ msg. word_of (drop 4 msg);
  len_of = λ msg. word_of (drop 12 msg);
  type_header = λ type req_id tx_id len l. word_of-bytes type l;
  req_id_header = λ type req_id tx_id len l. word_of-bytes req_id l;
  len_header = λ type req_id tx_id len l. word_of-bytes len l;
  watch_event = 15;
}

-- Three bytes wait, and the next message runs over the end of the ring.
abbrev near_end : ReqRing
near_end = record { req = λ p. 7; req_cons = 1015; req_prod = 1018 }

-- A path and its NUL in two requests.
abbrev read_path : List (List ℕ)
read_path = (97 ∷ 98 ∷ []) ∷ [] ∷ (0 ∷ []) ∷ []

-- The ring is empty, and its indices are about to wrap around.
abbrev near_wrap : ReqRing
near_wrap = record { req = λ p. 7; req_cons = 4_294_967_196; req_prod = 4_294_967_196 }

xb_write-wrap_bug_example : xb_write wire 2 5 0 read_path near_wrap ≡ bug
xb_write-wrap_bug_example =
    xb_write-wrap_bug wire 2 5 0 read_path near_wrap (omega arith, omega arith) (omega arith)
      (omega arith) (omega arith)

-- The identifiers 3 and 4 are in use, and the search starts at 3.
abbrev two_live : Requests
two_live = record {
  reply_queue = λ i. if (i == 3) || (i == 4) then 64 else 0;
  for_queue = λ i. 80 + i;
  nr_live_reqs = 2;
  probe = 3;
  woken = 0;
}

two_live-IsCounted : IsCounted two_live
unfolding in_use
two_live-IsCounted = record { live = refl; probe_below = omega arith }

id_allocate-Fresh_example :
    (id : ℕ) × (s' : Requests) × (id_allocate 128 256 two_live ≡ ok (some (id, s')))
    × (id < nr_reqs)
    × (two_live.reply_queue id ≡ 0)
    × (s'.reply_queue ≡ update two_live.reply_queue id 128)
    × (s'.for_queue ≡ update two_live.for_queue id 256)
    × IsCounted s'
id_allocate-Fresh_example =
    id_allocate-Fresh 128 256 two_live (λ e. omega (arith, e)) two_live-IsCounted (omega arith)

-- Messages that were stored from the start of the ring on, and one watch.
abbrev arrived : List ℕ → Bus
arrived msgs = record {
  rsp = store_bytes 0 msgs (λ p. 0);
  rsp_cons = 0;
  rsp_prod = length msgs;
  requests = two_live;
  watches = record { address = 512; token = 116 ∷ []; events = 96 } ∷ [];
  reply = λ e. [];
  path = λ e. [];
  token = λ e. [];
  watch = λ e. 0;
  queue = λ q. [];
  wakes = [];
  freed = [];
}

abbrev answer : Bus
answer = arrived (wire.header 2 4 0 2 ++ (79 ∷ 75 ∷ []) ++ (9 ∷ []))

abbrev fired : Bus
fired = arrived (wire.header 15 0 0 4 ++ (97 ∷ 0 ∷ 116 ∷ 0 ∷ []))

-- XenStore answers every request by OK.
abbrev says_ok : ℕ → Bus → Bus
says_ok id c = record c {
  rsp = store_bytes 0 (wire.header 2 id 0 2 ++ (79 ∷ 75 ∷ [])) (λ p. 0);
  rsp_cons = 0;
  rsp_prod = 18;
}

says_ok-Answers : (id : ℕ) (c : Bus) → Answers wire 2 0 (79 ∷ 75 ∷ []) id c (says_ok id c)
unfolding store_bytes load_bytes memcpy_from_ring
says_ok-Answers id c = record {
  requests_same = refl;
  queue_same = refl;
  words = (omega arith, omega arith);
  room = omega arith;
  there = refl;
}

abbrev idle : Bus
idle = arrived []

msg_reply-answered_example :
    (id : ℕ) × (b1 : Bus) × (ring' : ReqRing) × (b2 : Bus) × (b3 : Bus) × (msg_begin wire 128 256 2
        0 read_path idle near_end
      ≡ ok (some (id, b1, ring')))
    × (pending wire ring' ≡ pending wire near_end ++ message wire 2 id 0 read_path)
    × (take_message wire 1024 (says_ok id b1) ≡ ok (some b2))
    × (msg_end wire 128 256 id b2 ≡ ok (some (wire.header 2 id 0 2 ++ (79 ∷ 75 ∷ []), b3)))
    × ((i : ℕ) → b3.requests.reply_queue i ≡ two_live.reply_queue i)
    × IsCounted b3.requests
msg_reply-answered_example =
    msg_reply-answered wire 128 256 2 2 0 0 1024 read_path (79 ∷ 75 ∷ []) idle near_end says_ok
      (λ e. omega (arith, e)) two_live-IsCounted (omega arith) (omega arith, omega arith)
      (omega arith) (omega arith) (omega arith) (λ e. omega (arith, e)) says_ok-Answers
