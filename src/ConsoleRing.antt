-- ===== src/ConsoleRing.antt =====
-- xen/console/xencons_ring.c: the output ring of the console, which this domain fills and a daemon
-- of another domain empties. The ring's size and the macro MASK_XENCONS_IDX are Xen's.
pub mod Queue
pub mod Input
pub mod Print
pub mod Send
mod Tests
use rumpuser_xen.Prelude.{
  ℕ, zero, suc, ◌+◌, ◌-◌, ◌%◌, ◌^◌, ◌<◌, ◌≢◌, Bool, true, false, Option, none, some, List, [], ◌∷◌,
  ◌++◌, ◌==◌, ltb, if◌then◌else◌, update,
}
use rumpuser_xen.Sched.{Outcome, ok, bug, hang}

-- The part of struct xencons_interface for output: the indices are words that run freely.
pub record OutRing : Type 0 where
  pub out : ℕ → ℕ
  pub out_cons : ℕ
  pub out_prod : ℕ

-- `prod - cons` on XENCONS_RING_IDX.
abbrev pub used : OutRing → ℕ
used r = (r.out_prod + 2 ^ 32 - r.out_cons) % 2 ^ 32

-- `size` is sizeof(intf->out). Among so many indices in a row no two share a place.
pub record Geometry : Type 0 where
  pub size : ℕ
  pub mask : ℕ → ℕ
  pub small : size < 2 ^ 32
  pub apart : (i d : ℕ) → 0 < d → d < size → i < 2 ^ 32 → mask i ≢ mask ((i + d) % 2 ^ 32)

module _ (g : Geometry) where
  open g use {size, mask}

  -- The loop of xencons_ring_send_no_notify: how many bytes were sent, and the ring.
  unfoldable pub send_bytes : List ℕ → OutRing → ℕ × OutRing
  send_bytes [] r = (0, r)
  send_bytes (c ∷ cs) r =
      let r' = record r {
        out = update r.out (mask r.out_prod) c;
        out_prod = (r.out_prod + 1) % 2 ^ 32;
      } in
      let (sent, r'') = send_bytes cs r' in if ltb (used r) size then (suc sent, r'') else (0, r)

  -- No ring is NULL.
  unfoldable pub ring_send_no_notify : List ℕ → Option OutRing → Outcome (ℕ × Option OutRing)
  ring_send_no_notify bytes none = ok (0, none)
  ring_send_no_notify bytes (some r) =
      let (sent, r') = send_bytes bytes r in if ltb size (used r) then bug else ok (sent, some r')

-- The part of struct xencons_interface for input, from its first byte on, and what was printed.
pub record InRing : Type 0 where
  pub bytes : ℕ → ℕ
  pub in_cons : ℕ
  pub in_prod : ℕ
  pub printed : List ℕ

-- The characters of "\nNo console input handler.\n".
abbrev pub no_handler : List ℕ
no_handler =
    10 ∷ 78 ∷ 111 ∷ 32 ∷ 99 ∷ 111 ∷ 110 ∷ 115 ∷ 111 ∷ 108 ∷ 101 ∷ 32 ∷ 105 ∷ 110 ∷ 112 ∷ 117 ∷ 116
    ∷ 32 ∷ 104 ∷ 97 ∷ 110 ∷ 100 ∷ 108 ∷ 101 ∷ 114 ∷ 46 ∷ 10 ∷ []

-- `xencons_rx` on one byte at a place: the NUL is written behind it, so the string has at most the
-- one character.
unfoldable pub xencons_rx : ℕ → InRing → InRing
xencons_rx place r =
    let bytes' = update r.bytes (place + 1) 0 in
    let c = bytes' place in
    record r {
      bytes = bytes';
      printed =
          r.printed ++ (if c == 0 then [] else c ∷ []) ++ (if c == 13 then no_handler else []);
    }

-- The loop of console_handle_input; no result if the fuel runs out.
unfoldable pub rx_loop : (ℕ → ℕ) → ℕ → ℕ → InRing → Option InRing
rx_loop mask zero cons r = if cons == r.in_prod then some (record r { in_cons = cons }) else none
rx_loop mask (suc fuel) cons r =
    let rest = rx_loop mask fuel ((cons + 1) % 2 ^ 32) (xencons_rx (mask cons) r) in
    if cons == r.in_prod then some (record r { in_cons = cons }) else rest

-- One unit of fuel for each byte that waits.
unfoldable pub console_handle_input : ℕ → (ℕ → ℕ) → InRing → Outcome InRing
console_handle_input size mask r =
    let waiting = (r.in_prod + 2 ^ 32 - r.in_cons) % 2 ^ 32 in
    let done = rx_loop mask waiting r.in_cons r in
    if ltb size waiting then bug else elim done [ some r' ↦ ok r' | none ↦ hang ]
