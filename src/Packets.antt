-- ===== src/Packets.antt =====
-- rumphyper_net.c: the packets that the network front end hands over in its interrupt handler, and the thread
-- that delivers them to the rump kernel.
pub mod Queue
pub mod Fifo
mod Tests
use rumpuser_xen.Prelude.{
  ℕ, zero, suc, ◌+◌, ◌-◌, ◌%◌, ◌≤◌, ◌<◌, ◌≡◌, Bool, true, false, not, ◌&&◌, List, [], ◌∷◌, ◌++◌,
  ◌==◌, ◌/=◌, ltb, if◌then◌else◌, update, length,
}

abbrev pub maxpkt : ℕ
maxpkt = 2000

abbrev pub nbuf : ℕ
nbuf = 64

-- Where the thread of `pusher` is: not started yet, in schedule(), or with a copy of a packet in
-- rump_virtif_pktdeliver. Interrupts are off everywhere else.
pub data Phase : Type 0 where
  starting : Phase
  sleeping : Phase
  delivering : List ℕ → Phase

-- struct virtif_user, with the bytes of a packet up to pkt_dlen; the thread of `pusher`; and the packets that
-- were delivered, in their order.
pub record Viu : Type 0 where
  pub viu_rcvr : ℕ
  pub viu_read : ℕ
  pub viu_write : ℕ
  pub viu_pkts : ℕ → List ℕ
  pub runnable : Bool
  pub phase : Phase
  pub delivered : List (List ℕ)

-- What memset leaves, and a thread that is to start.
abbrev pub new_viu : Viu
new_viu = record {
  viu_rcvr = 0;
  viu_read = 0;
  viu_write = 0;
  viu_pkts = λ i. [];
  runnable = true;
  phase = starting;
  delivered = [];
}

-- The only thread that is ever woken is that of `pusher`.
unfoldable pub myrecv : List ℕ → Viu → Viu
myrecv bytes s =
    let nextw = (s.viu_write + 1) % nbuf in
    let s' = record s { viu_pkts = update s.viu_pkts s.viu_write bytes; viu_write = nextw } in
    if nextw == s.viu_read
    then s
    else if ltb maxpkt (length bytes)
    then s
    else if s.viu_rcvr /= 0
    then record s' { runnable = true }
    else s'

-- The head of the loop of `pusher`, whose thread is `me`: it sleeps on an empty ring, else copies the first
-- packet.
unfoldable pub pusher_next : ℕ → Viu → Viu
pusher_next me s =
    if s.viu_read == s.viu_write
    then record s { viu_rcvr = me; runnable = false; phase = sleeping }
    else record s { phase = delivering (s.viu_pkts s.viu_read) }

-- After schedule().
unfoldable pub pusher_resume : ℕ → Viu → Viu
pusher_resume me s = pusher_next me (record s { viu_rcvr = 0 })

-- After the delivery of its copy.
unfoldable pub pusher_delivered : ℕ → List ℕ → Viu → Viu
pusher_delivered me bytes s =
    pusher_next me
      (record s { delivered = s.delivered ++ (bytes ∷ []); viu_read = (s.viu_read + 1) % nbuf })

-- Whether `myrecv` keeps a packet.
abbrev pub keeps : List ℕ → Viu → Bool
keeps bytes s = not ((s.viu_write + 1) % nbuf == s.viu_read) && not (ltb maxpkt (length bytes))

-- The states that interrupts and the thread lead to, with the packets that were kept so far.
pub data Reach (me : ℕ) : List (List ℕ) → Viu → Type 0 where
  created : Reach me [] new_viu
  received :
      {kept : List (List ℕ)} {s : Viu} (bytes : List ℕ)
      → Reach me kept s
      → Reach me (if keeps bytes s then kept ++ (bytes ∷ []) else kept) (myrecv bytes s)
  started :
      {kept : List (List ℕ)} {s : Viu}
      → Reach me kept s
      → s.phase ≡ starting
      → Reach me kept (pusher_next me s)
  resumed :
      {kept : List (List ℕ)} {s : Viu}
      → Reach me kept s
      → s.phase ≡ sleeping
      → s.runnable ≡ true
      → Reach me kept (pusher_resume me s)
  done :
      {kept : List (List ℕ)} {s : Viu} (bytes : List ℕ)
      → Reach me kept s
      → s.phase ≡ delivering bytes
      → Reach me kept (pusher_delivered me bytes s)
