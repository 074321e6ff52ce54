-- ===== src/XenStore/Thread.antt =====
-- xen/xenbus/xenbus.c: the thread that takes XenStore's answers and watch events off their ring, and the
-- queues of events it fills.
use rumpuser_xen.Prelude.{
  ℕ, ◌+◌, ◌-◌, ◌%◌, ◌^◌, Bool, true, false, ◌&&◌, ◌||◌, Option, none, some, List, [], ◌∷◌, ◌++◌,
  ◌==◌, ltb, leb, if◌then◌else◌, update, length, drop,
}
use rumpuser_xen.Sched.{Outcome, ok, bug, hang}
use rumpuser_xen.XenStore.{Wire, Requests, nr_reqs, memcpy_from_ring}

-- A struct xenbus_watch at its address; the token is the bytes before its NUL.
pub record Watch : Type 0 where
  pub address : ℕ
  pub token : List ℕ
  pub events : ℕ

-- The answers of struct xenstore_domain_interface, the requests and the watches, the fields of the events and the
-- queues by their addresses, and what was done: the queues whose waiters were woken and the events that
-- were freed, the last one first.
pub record Bus : Type 0 where
  pub rsp : ℕ → ℕ
  pub rsp_cons : ℕ
  pub rsp_prod : ℕ
  pub requests : Requests
  pub watches : List Watch
  pub reply : ℕ → List ℕ
  pub path : ℕ → List ℕ
  pub token : ℕ → List ℕ
  pub watch : ℕ → ℕ
  pub queue : ℕ → List ℕ
  pub wakes : List ℕ
  pub freed : List ℕ

unfoldable pub queue_event : ℕ → ℕ → Bus → Bus
queue_event q event b = record b {
  queue = update b.queue q (b.queue q ++ (event ∷ []));
  wakes = q ∷ b.wakes;
}

-- The first event of a queue, if there is one, taken off it.
unfoldable pub remove_event : ℕ → Bus → Option ℕ × Bus
remove_event q b = elim (b.queue q) [
  | [] ↦ (none, b)
  | event ∷ rest ↦ (some event, record b { queue = update b.queue q rest })
]

-- A string in memory, up to its NUL.
abbrev pub c_string : List ℕ → List ℕ
c_string [] = []
c_string (x ∷ xs) = if x == 0 then [] else x ∷ c_string xs

-- `!strcmp`.
abbrev pub same_string : List ℕ → List ℕ → Bool
same_string [] [] = true
same_string [] (y ∷ ys) = false
same_string (x ∷ xs) [] = false
same_string (x ∷ xs) (y ∷ ys) = (x == y) && same_string xs ys

unfoldable pub find_watch : List ℕ → List Watch → Option Watch
find_watch token [] = none
find_watch token (x ∷ xs) = if same_string x.token token then some x else find_watch token xs

-- An event for the watch that was found, if there is one with a queue; else it is freed.
unfoldable pub file_event : ℕ → Option Watch → Bus → Bus
file_event event none b = record b { freed = event ∷ b.freed }
file_event event (some x) b =
    let b' = record b { watch = update b.watch event x.address } in
    if x.events == 0 then record b' { freed = event ∷ b'.freed } else queue_event x.events event b'

abbrev pub delivered : Outcome Bus → Outcome (Option Bus)
delivered (ok b) = ok (some b)
delivered bug = bug
delivered hang = hang

module _ (w : Wire) where
  open w use {mask, sizeof_msg, type_of, req_id_of, len_of, watch_event}

  -- A watch event of `len` bytes, in memory that malloc gives at `event`. The data hold two NULs.
  unfoldable pub take_watch_event : ℕ → ℕ → Bus → Bus
  take_watch_event event len b =
      let bytes = memcpy_from_ring w b.rsp (mask ((b.rsp_cons + sizeof_msg) % 2 ^ 32)) len in
      let path = c_string bytes in
      let token = c_string (drop (length path + 1) bytes) in
      let b' = record b {
        path = update b.path event path;
        token = update b.token event token;
        rsp_cons = (b.rsp_cons + len + sizeof_msg) % 2 ^ 32;
      } in
      file_event event (find_watch token b.watches) b'

  -- An answer. The identifier of one that does not wait points to no event, or past the end of req_info.
  unfoldable pub take_reply : ℕ → ℕ → Bus → Outcome Bus
  take_reply req_id len b =
      let event = b.requests.for_queue req_id in
      let queue = b.requests.reply_queue req_id in
      let b' = record b {
        reply =
            update b.reply event (memcpy_from_ring w b.rsp (mask b.rsp_cons) (len + sizeof_msg));
        rsp_cons = (b.rsp_cons + len + sizeof_msg) % 2 ^ 32;
      } in
      if leb nr_reqs req_id || (queue == 0) then bug else ok (queue_event queue event b')

  -- One pass of the inner loop of xenbus_thread_func; none where it breaks.
  unfoldable pub take_message : ℕ → Bus → Outcome (Option Bus)
  take_message event b =
      let avail = (b.rsp_prod + 2 ^ 32 - b.rsp_cons) % 2 ^ 32 in
      let msg = memcpy_from_ring w b.rsp (mask b.rsp_cons) sizeof_msg in
      if ltb avail sizeof_msg || ltb avail (sizeof_msg + len_of msg)
      then ok none
      else if type_of msg == watch_event
      then ok (some (take_watch_event event (len_of msg) b))
      else delivered (take_reply (req_id_of msg) (len_of msg) b)
