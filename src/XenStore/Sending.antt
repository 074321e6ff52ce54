-- ===== src/XenStore/Sending.antt =====
-- xen/xenbus/xenbus.c: xenbus_id_allocate and xenbus_xb_write for a caller that sleeps while they wait.
use rumpuser_xen.Prelude.{
  ℕ, ◌+◌, ◌≤◌, ◌<◌, ◌≡◌, ◌≢◌, ap, Bool, ◌&&◌, Option, none, some, List, arith, leb, ltb, ◌^◌,
}
use rumpuser_xen.Sched.{Outcome, ok, bug, hang}
use rumpuser_xen.XenStore.{Wire, ReqRing, Requests, nr_reqs, total, id_allocate, xb_write}
use rumpuser_xen.XenStore.Ids.{IsCounted, id_allocate-Fresh}
use rumpuser_xen.XenStore.Message.{used, IsWords, xb_write-pending}
use rumpuser_xen.XenStore.Calls.{Call, call_ok, call_bug, call_hang, call_asleep}

abbrev pub allocated : Outcome (Option (ℕ × Requests)) → Call ℕ
allocated (ok (some (id, s))) = call_ok id
allocated (ok none) = call_asleep
allocated bug = call_bug
allocated hang = call_hang

-- What goes on once the message is on the ring.
abbrev pub sent_off {ℓ} : {A : Type ℓ} → A → Outcome (Option ReqRing) → Call A
sent_off x (ok (some r)) = call_ok x
sent_off x (ok none) = call_asleep
sent_off x bug = call_bug
sent_off x hang = call_hang

-- A property of what it comes to, in every case.
pub sent_off-all {ℓ κ} :
    {A : Type ℓ} (P : Call A → Type κ) (x : A) (o : Outcome (Option ReqRing))
    → P (call_ok x)
    → P call_bug
    → P call_hang
    → P call_asleep
    → P (sent_off x o)
sent_off-all P x (ok (some r)) a b c d = a
sent_off-all P x (ok none) a b c d = d
sent_off-all P x bug a b c d = b
sent_off-all P x hang a b c d = c

-- An identifier is free, there is room on the ring for a message with so many bytes behind its header, and the
-- reader's index is not within the ring's size of its wrap-around.
abbrev pub is_open : Wire → ℕ → Requests → ReqRing → Bool
is_open w n s r =
    ltb s.nr_live_reqs nr_reqs
    && leb (used r + (n + w.sizeof_msg)) w.size
    && ltb (r.req_cons + w.size) (2 ^ 32)

pub allocated_lem :
    (queue event : ℕ) (s : Requests)
    → queue ≢ 0
    → IsCounted s
    → s.nr_live_reqs < nr_reqs
    → (id : ℕ) × (allocated (id_allocate queue event s) ≡ call_ok id)
allocated_lem queue event s ne c l =
    let (id, s', e, a1, a2, a3, a4, a5) = id_allocate-Fresh queue event s ne c l in
    (id, ap allocated e)

pub sent_off_lem {ℓ} :
    {A : Type ℓ} (x : A) (w : Wire) (type req_id trans_id n : ℕ) (reqs : List (List ℕ))
    (r : ReqRing)
    → IsWords r
    → total reqs ≤ n
    → used r + (n + w.sizeof_msg) ≤ w.size
    → r.req_cons + w.size < 2 ^ 32
    → sent_off x (xb_write w type req_id trans_id reqs r) ≡ call_ok x
sent_off_lem x w type req_id trans_id n reqs r words l room far =
    let (r', e, a1, a2, a3) =
      xb_write-pending w type req_id trans_id reqs r words (omega (arith, l, room)) far in
    ap (sent_off x) e
