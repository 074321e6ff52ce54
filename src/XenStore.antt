-- ===== src/XenStore.antt =====
-- xen/xenbus/xenbus.c: the ring of requests to XenStore, the ring of its answers, and the identifiers
-- of the requests that wait. What Xen's header io/xs_wire.h says of the rings and of the
-- struct xsd_sockmsg is a parameter.
pub mod Ring
pub mod Write
pub mod Message
pub mod Ids
pub mod Thread
pub mod Parts
pub mod Deliver
pub mod Request
pub mod Calls
pub mod Sending
mod Tests
use rumpuser_xen.Prelude.{
  ℕ, zero, suc, ◌+◌, ◌-◌, ◌*◌, ◌%◌, ◌^◌, ◌≤◌, ◌<◌, ◌≡◌, Bool, true, false, ◌&&◌, ◌||◌, Option, none,
  some, List, [], ◌∷◌, ◌++◌, ◌==◌, ◌/=◌, ltb, if◌then◌else◌, update, min, length, take, drop,
}
use rumpuser_xen.Sched.{Outcome, ok, bug, hang}

-- `size` is XENSTORE_RING_SIZE and `mask` MASK_XENSTORE_IDX: an index that grows by one takes the next place,
-- and the first one after the last, also where it wraps around. `header` gives the bytes of the
-- struct, from its fields in their order, `sizeof_msg` is how many they are, and three of the fields, which
-- are words, are read back. `watch_event` is XS_WATCH_EVENT.
pub record Wire : Type 0 where
  pub size : ℕ
  pub mask : ℕ → ℕ
  pub sizeof_msg : ℕ
  pub header : ℕ → ℕ → ℕ → ℕ → List ℕ
  pub small : size < 2 ^ 31
  pub mask_below : (i : ℕ) → mask i < size
  pub mask_next : (i : ℕ) → mask (i + 1) ≡ (if mask i + 1 == size then 0 else mask i + 1)
  pub mask_wrap : (i : ℕ) → mask (i % 2 ^ 32) ≡ mask i
  pub header_length :
      (type req_id tx_id len : ℕ) → length (header type req_id tx_id len) ≡ sizeof_msg
  pub type_of : List ℕ → ℕ
  pub req_id_of : List ℕ → ℕ
  pub len_of : List ℕ → ℕ
  pub type_header :
      (type req_id tx_id len : ℕ) → type < 2 ^ 32 → type_of (header type req_id tx_id len) ≡ type
  pub req_id_header :
      (type req_id tx_id len : ℕ)
      → req_id < 2 ^ 32
      → req_id_of (header type req_id tx_id len) ≡ req_id
  pub len_header :
      (type req_id tx_id len : ℕ) → len < 2 ^ 32 → len_of (header type req_id tx_id len) ≡ len
  pub watch_event : ℕ

-- The requests of struct xenstore_domain_interface: the indices are words that run freely.
pub record ReqRing : Type 0 where
  pub req : ℕ → ℕ
  pub req_cons : ℕ
  pub req_prod : ℕ

-- memcpy into a ring, and out of one.
unfoldable pub store_bytes : ℕ → List ℕ → (ℕ → ℕ) → ℕ → ℕ
store_bytes p [] ring = ring
store_bytes p (x ∷ xs) ring = store_bytes (p + 1) xs (update ring p x)

unfoldable pub load_bytes : ℕ → ℕ → (ℕ → ℕ) → List ℕ
load_bytes p zero ring = []
load_bytes p (suc n) ring = ring p ∷ load_bytes (p + 1) n ring

abbrev pub total : List (List ℕ) → ℕ
total [] = 0
total (r ∷ rs) = length r + total rs

-- `total_off < len` on int; `len` is the bit pattern.
abbrev pub more_to_copy : ℕ → ℕ → Bool
more_to_copy len total_off = ltb total_off len && ltb len (2 ^ 31)

-- What the loop of xenbus_xb_write leaves: `req_off`, `total_off`, `prod` and the ring's bytes.
abbrev pub Copied : Type 0
Copied = ℕ × ℕ × ℕ × (ℕ → ℕ)

module _ (w : Wire) where
  open w use {size, mask, sizeof_msg, header}

  -- The loop, with fuel; the requests are those from `cur_req` on, and behind the last one is no other.
  unfoldable pub copy_loop : ℕ → ℕ → ℕ → ℕ → ℕ → List (List ℕ) → (ℕ → ℕ) → Outcome Copied
  copy_loop zero len total_off req_off prod reqs ring =
      if more_to_copy len total_off then hang else ok (req_off, total_off, prod, ring)
  copy_loop (suc fuel) len total_off req_off prod [] ring =
      if more_to_copy len total_off then bug else ok (req_off, total_off, prod, ring)
  copy_loop (suc fuel) len total_off req_off prod (cur ∷ reqs) ring =
      let this_chunk = min (length cur - req_off) (size - mask prod) in
      let ring' = store_bytes (mask prod) (take this_chunk (drop req_off cur)) ring in
      let at_end = req_off + this_chunk == length cur in
      let rest =
        copy_loop fuel len (total_off + this_chunk) (if at_end then 0 else req_off + this_chunk)
          ((prod + this_chunk) % 2 ^ 32) (if at_end then reqs else cur ∷ reqs) ring' in
      if more_to_copy len total_off then rest else ok (req_off, total_off, prod, ring)

  -- What comes behind the loop: the three BUG_ON, and the index that is made public.
  unfoldable pub publish : ℕ → ReqRing → Outcome Copied → Outcome (Option ReqRing)
  publish len r bug = bug
  publish len r hang = hang
  publish len r (ok (req_off, total_off, prod, ring)) =
      if (req_off /= 0) || (total_off /= len) || ltb ((r.req_cons + size) % 2 ^ 32) prod
      then bug
      else ok (some (record r { req = ring; req_prod = (r.req_prod + len) % 2 ^ 32 }))

  -- None if it has to wait for room; after the wait the same test comes again, and the call goes on
  -- as from its start.
  unfoldable pub xb_write : ℕ → ℕ → ℕ → List (List ℕ) → ReqRing → Outcome (Option ReqRing)
  xb_write type req_id trans_id reqs r =
      let data_len = total reqs % 2 ^ 32 in
      let len = (data_len + sizeof_msg) % 2 ^ 32 in
      let m = header type req_id trans_id data_len in
      if ltb size len && ltb len (2 ^ 31)
      then bug
      else if ltb size ((r.req_prod + len + 2 ^ 32 - r.req_cons) % 2 ^ 32)
      then ok none
      else publish len r (copy_loop (len + length reqs + 1) len 0 0 r.req_prod (m ∷ reqs) r.req)

  -- The bytes that are copied.
  unfoldable pub memcpy_from_ring : (ℕ → ℕ) → ℕ → ℕ → List ℕ
  memcpy_from_ring ring off len =
      let c1 = min len (size - off) in load_bytes off c1 ring ++ load_bytes 0 (len - c1) ring

-- The requests that wait for an answer, by identifier: the queue, 0 if the identifier is not in use,
-- and the event. `woken` counts the calls of wake_up on req_wq.
pub record Requests : Type 0 where
  pub reply_queue : ℕ → ℕ
  pub for_queue : ℕ → ℕ
  pub nr_live_reqs : ℕ
  pub probe : ℕ
  pub woken : ℕ

abbrev pub nr_reqs : ℕ
nr_reqs = 32

-- The loop that looks for an identifier from `o_probe` on, with fuel.
unfoldable pub probe_loop : ℕ → ℕ → ℕ → (ℕ → ℕ) → Outcome ℕ
probe_loop zero probe o_probe reply_queue = hang
probe_loop (suc fuel) probe o_probe reply_queue =
    let next = (o_probe + 1) % nr_reqs in
    let rest = probe_loop fuel probe next reply_queue in
    if reply_queue o_probe == 0 then ok o_probe else if next == probe then bug else rest

-- None if all are in use and the caller has to wait.
unfoldable pub id_allocate : ℕ → ℕ → Requests → Outcome (Option (ℕ × Requests))
id_allocate queue event s =
    if ltb s.nr_live_reqs nr_reqs
    then elim (probe_loop nr_reqs s.probe s.probe s.reply_queue) [
      | ok id ↦ ok (
          some (
            id,
            record s {
              nr_live_reqs = s.nr_live_reqs + 1;
              reply_queue = update s.reply_queue id queue;
              for_queue = update s.for_queue id event;
              probe = (id + 1) % nr_reqs;
            },
          ))
      | bug ↦ bug
      | hang ↦ hang
    ]
    else ok none

unfoldable pub id_release : ℕ → Requests → Outcome Requests
id_release id s =
    let live = s.nr_live_reqs - 1 in
    if s.reply_queue id == 0
    then bug
    else ok (record s {
      reply_queue = update s.reply_queue id 0;
      nr_live_reqs = live;
      woken = s.woken + (if live == nr_reqs - 1 then 1 else 0);
    })
