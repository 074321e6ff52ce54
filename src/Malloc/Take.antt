-- ===== src/Malloc/Take.antt =====
-- lib/memalloc.c: what memalloc returns lies in a block of its own.
use native.Mathlib.Nat.{two-pow-succ, one-le-pow, pow-le-pow_right, mul-le-mul_right}
use rumpuser_xen.Prelude.{
  List-cases, ℕ, suc, ◌+◌, ◌-◌, ◌*◌, ◌/◌, ◌%◌, ◌^◌, ◌≤◌, ◌<◌, ◌≡◌, ◌⊎◌, refl, sym, ap, ◌∙◌, inl,
  inr, false, some, List, [], ◌∷◌, arith, ◌==◌, ◌/=◌, ltb, leb, if◌then◌else◌, update, update_self,
  All, Bool-cases, test_mask, bit-low_mask,
}
use Prim.Native.Nat.{bit_and}
use mathlib.Core.Path.{subst}
use rumpuser_xen.Pages.Neighbours.{pow_add}
use rumpuser_xen.Malloc.{
  Heap, magic, pagebucket, load, round_down, is_null, corealloc, morecore, take_block, take_first,
  take_from, take_picked, memalloc, bucket_for, memalloc_aligned,
}
use rumpuser_xen.Pages.Chunks.{hits}
use rumpuser_xen.Malloc.Memory.{store_outside, load-store}
use rumpuser_xen.Malloc.Sizes.{
  IsBlock, pick_bucket_fits, round_down-add, round_down-le, round_down-above,
}
use rumpuser_xen.Malloc.Blocks.{IsHeap, free_at-update, aligned-update}
use rumpuser_xen.Malloc.More.{order_of, morecore-IsHeap}

-- The header of a block in use before the caller's address.
abbrev pub Header : (ℕ → ℕ) → ℕ → ℕ → ℕ → Type 0
Header mem rv op b =
    (load 8 (rv - 16) mem ≡ rv - op) × (mem (rv - 16 + 8) ≡ magic) × (mem (rv - 16 + 9) ≡ b)

-- An address of the caller's: in an aligned block with its header and so many bytes, and aligned itself.
abbrev pub Placed : ℕ → ℕ → (ℕ → ℕ) → ℕ → ℕ → ℕ → Type 0
Placed nbytes align mem rv op b =
    IsBlock b op
    × Header mem rv op b
    × (op + 16 ≤ rv)
    × (rv + nbytes ≤ op + 2 ^ (b + 5))
    × ((q : ℕ) × (rv ≡ q * align))

-- The list of the blocks of the size that is needed is empty, and the page allocator has no pages for more.
abbrev pub Exhausted : ℕ → ℕ → Heap → Type 0
Exhausted nbytes align h =
    (b : ℕ) × (bucket_for (nbytes + round_down (16 + align - 1) align) ≡ some b)
    × (h.nextf b ≡ [])
    × ((corealloc (order_of b) h.pages).0 ≡ 0)

-- What memalloc comes to: NULL if there is no such block to be had, else an address in a block that was free.
abbrev pub Got : ℕ → ℕ → Heap → List (ℕ × ℕ) → ℕ × Heap → Type 0
Got nbytes align h live (rv, h') =
    ((rv ≡ 0) × IsHeap h' live × Exhausted nbytes align h)
    ⊎ ((op b : ℕ) × IsHeap h' ((op, b) ∷ live) × (b ≤ 26) × Placed nbytes align h'.mem rv op b)

padding : (m : ℕ) → 0 < m → (16 ≤ round_down (16 + m - 1) m) × (m ≤ round_down (16 + m - 1) m)
padding m l =
    let above = round_down-above (16 + m - 1) m l in
    let k = (16 + m - 1) / m in
    let zero_case : k ≡ 0 → 16 ≤ 0 = λ e. omega (arith, above, ap (λ t. t * m) e) in
    let some_k : 1 ≤ k = elim (Bool-cases (k == 0)) [
      | inl e ↦ absurd (omega (arith, zero_case (ground (arith, e))))
      | inr e ↦ ground (arith, e)
    ] in
    (omega (arith, above), omega (arith, mul-le-mul_right m some_k))

exponent_le : (a c : ℕ) → 2 ^ a ≤ 2 ^ c → a ≤ c
exponent_le a c l = elim (Bool-cases (leb a c)) [
  | inl e ↦ ground (arith, e)
  | inr e ↦
      let big : 2 ^ suc c ≤ 2 ^ a =
        pow-le-pow_right (omega arith) {i = suc c} {j = a} (ground (arith, e)) in
      absurd (omega (arith, big, l, two-pow-succ c, one-le-pow c 2 (omega arith)))
]

pub take_block-Placed :
    (nbytes a b op : ℕ) (rest : List ℕ) (h : Heap)
    → IsBlock b op
    → b ≤ 26
    → nbytes + round_down (16 + 2 ^ a - 1) (2 ^ a) ≤ 2 ^ (b + 5)
    → let r = take_block (2 ^ a) b op rest h in Placed nbytes (2 ^ a) r.1.mem r.0 op b
unfolding take_block
take_block-Placed nbytes a b op rest h (q, e) k fit =
    let m = 2 ^ a in
    let one = one-le-pow a 2 (omega arith) in
    let pad = round_down (16 + m - 1) m in
    let (low, high) = padding m one in
    let le = exponent_le a (b + 5) (omega (arith, high, fit)) in
    let z : (b + 5 - a) + a ≡ b + 5 = omega (arith, le) in
    let q' = q * 2 ^ (b + 5 - a) in
    let assoc : q * 2 ^ (b + 5 - a) * m ≡ q * (2 ^ (b + 5 - a) * m) = grind arith in
    let op' : op ≡ q' * m =
      e ∙ ap (λ t. q * t) (sym (ap (λ n. 2 ^ n) z) ∙ pow_add (b + 5 - a) a) ∙ sym assoc in
    let rv = round_down (op + 16 + m - 1) m in
    let sum : op + 16 + m - 1 ≡ q' * m + (16 + m - 1) = omega (arith, op', one) in
    let at : rv ≡ q' * m + pad =
      ap (λ t. round_down t m) sum ∙ round_down-add q' (16 + m - 1) m one in
    let hdr = rv - 16 in
    let mem1 = update (update h.mem (hdr + 8) magic) (hdr + 9) b in
    let small : 2 ^ (b + 5) ≤ 2 ^ 31 =
      pow-le-pow_right (omega arith) {i = b + 5} {j = 31} (omega (arith, k)) in
    let multiple : q' * m + pad ≡ (q' + (16 + m - 1) / m) * m = grind arith in
    (
      (q, e),
      (
        load-store hdr (rv - op) mem1 (omega (arith, at, op', fit, small)),
        store_outside 8 hdr (rv - op) mem1 (hdr + 8) (ground arith) ∙ ground arith,
        store_outside 8 hdr (rv - op) mem1 (hdr + 9) (ground arith)
            ∙ update_self (update h.mem (hdr + 8) magic) (hdr + 9) b,
      ),
      omega (arith, at, op', low),
      omega (arith, at, op', fit),
      (q' + (16 + m - 1) / m, at ∙ multiple),
    )

take_block-IsHeap :
    (align b op : ℕ) (rest : List ℕ) (h : Heap) (live : List (ℕ × ℕ))
    → b ≤ 26
    → IsHeap h live
    → h.nextf b ≡ op ∷ rest
    → IsBlock b op × IsHeap (take_block align b op rest h).1 ((op, b) ∷ live)
unfolding take_block
take_block-IsHeap align b op rest h live l w e =
    let (al, others) = subst (All (IsBlock b)) e (w.aligned b) in
    (
      al,
      record {
        sound = w.sound;
        apart = λ v. omega (
          arith,
          w.apart v,
          free_at-update h.nextf b rest v (omega (arith, l)),
          ap (λ xs. hits (b + 5) xs v) e,
        );
        aligned = aligned-update h.nextf b rest others w.aligned;
      },
    )

pub take_from_direct :
    (m b op : ℕ) (rest : List ℕ) (h : Heap)
    → h.nextf b ≡ op ∷ rest
    → take_from m b h ≡ take_block m b op rest h
unfolding take_from
take_from_direct m b op rest h e =
    ap (λ t. let h' = if t then morecore b h else h in take_first m b (h'.nextf b) h')
      (ap is_null e)
    ∙ ap (λ l. take_first m b l h) e

pub take_from_more :
    (m b : ℕ) (h : Heap)
    → h.nextf b ≡ []
    → take_from m b h ≡ take_first m b ((morecore b h).nextf b) (morecore b h)
unfolding take_from
take_from_more m b h e =
    ap (λ t. let h' = if t then morecore b h else h in take_first m b (h'.nextf b) h')
      (ap is_null e)

take_from-Got :
    (nbytes a b : ℕ) (h : Heap) (live : List (ℕ × ℕ))
    → b ≤ 26
    → nbytes + round_down (16 + 2 ^ a - 1) (2 ^ a) ≤ 2 ^ (b + 5)
    → bucket_for (nbytes + round_down (16 + 2 ^ a - 1) (2 ^ a)) ≡ some b
    → IsHeap h live
    → Got nbytes (2 ^ a) h live (take_from (2 ^ a) b h)
take_from-Got nbytes a b h live l fit pick w = elim (List-cases (h.nextf b)) [
  | inr (op, rest, e) ↦
      let (al, w') = take_block-IsHeap (2 ^ a) b op rest h live l w e in
      subst (Got nbytes (2 ^ a) h live) (sym (take_from_direct (2 ^ a) b op rest h e))
        (inr (op, b, w', l, take_block-Placed nbytes a b op rest h al l fit))
  | inl e ↦
      let more = morecore b h in
      let (w1, stocked) = morecore-IsHeap b h live l w e in
      let came = take_from_more (2 ^ a) b h e in
      subst (Got nbytes (2 ^ a) h live) (sym came) (elim stocked [
        | inl (z, e') ↦
            subst (Got nbytes (2 ^ a) h live) (ap (λ xs. take_first (2 ^ a) b xs more) (sym e'))
              (inl (refl, w1, (b, pick, e, z)))
        | inr (op, rest, e') ↦
            let (al, w') = take_block-IsHeap (2 ^ a) b op rest more live l w1 e' in
            subst (Got nbytes (2 ^ a) h live) (ap (λ xs. take_first (2 ^ a) b xs more) (sym e'))
              (inr (op, b, w', l, take_block-Placed nbytes a b op rest more al l fit))
      ])
]

bucket_for_fits :
    (bytes : ℕ)
    → bytes ≤ 2 ^ 31
    → (b : ℕ) × (bucket_for bytes ≡ some b) × (b ≤ 26) × (bytes ≤ 2 ^ (b + 5))
unfolding bucket_for
bucket_for_fits bytes bound = elim (Bool-cases (leb bytes 4096)) [
  | inl t ↦
      let (b, e, low, high, holds) =
        pick_bucket_fits 28 bytes 32 0 bound refl (omega arith) (omega arith) in
      (b, rw t e, high, holds)
  | inr t ↦
      let (b, e, low, high, holds) =
        pick_bucket_fits 28 bytes 4096 pagebucket bound refl (omega arith) (omega arith) in
      (b, rw t e, high, holds)
]

pub memalloc_even :
    (nbytes a : ℕ) (h : Heap)
    → 3 ≤ a
    → memalloc nbytes (2 ^ a) h ≡ memalloc_aligned nbytes (2 ^ a) h
unfolding memalloc
memalloc_even nbytes a h l =
    let m = 2 ^ a in
    let eight : 2 ^ 3 ≤ m = pow-le-pow_right (omega arith) {i = 3} {j = a} l in
    let large : ltb m 8 ≡ false = ground (arith, eight) in
    let power : (bit_and (m - 1) m /= 0) ≡ false =
      test_mask (m - 1) a ∙ bit-low_mask a a ∙ ground arith in
    ap (λ t. if t then (0, h) else memalloc_aligned nbytes (if ltb m 8 then 8 else m) h) power
    ∙ ap (λ t. memalloc_aligned nbytes (if t then 8 else m) h) large

pub memalloc_picks :
    (nbytes a : ℕ) (h : Heap)
    → 3 ≤ a
    → nbytes + 2 ^ a + 16 ≤ 2 ^ 31
    → (b : ℕ) × (memalloc nbytes (2 ^ a) h ≡ take_from (2 ^ a) b h)
      × (b ≤ 26)
      × (nbytes + round_down (16 + 2 ^ a - 1) (2 ^ a) ≤ 2 ^ (b + 5))
      × (bucket_for (nbytes + round_down (16 + 2 ^ a - 1) (2 ^ a)) ≡ some b)
memalloc_picks nbytes a h l fit =
    let m = 2 ^ a in
    let bytes = nbytes + round_down (16 + m - 1) m in
    let below = round_down-le (16 + m - 1) m in
    let cut : bytes % 2 ^ 64 ≡ bytes = omega (arith, fit, below) in
    let (b, e, high, holds) = bucket_for_fits bytes (omega (arith, fit, below)) in
    (
      b,
      memalloc_even nbytes a h l
          ∙ ap (λ t. take_picked m (bucket_for t) h) cut
          ∙ ap (λ t. take_picked m t h) e,
      high,
      holds,
      e,
    )

-- For an alignment that is a power of two from 8 on and a size that with both the alignment and the header is at
-- most 2 ^ 31 bytes: memalloc returns NULL only if the list of the size that is needed
-- is empty and the page allocator has no pages for such blocks; else an
-- aligned address in a block that shares no byte with another block, free or in use, with the header
-- before the address and room for the bytes behind it, and all blocks stay apart.
pub memalloc-Got :
    (nbytes a : ℕ) (h : Heap) (live : List (ℕ × ℕ))
    → 3 ≤ a
    → nbytes + 2 ^ a + 16 ≤ 2 ^ 31
    → IsHeap h live
    → Got nbytes (2 ^ a) h live (memalloc nbytes (2 ^ a) h)
memalloc-Got nbytes a h live l fit w =
    let (b, e, high, holds, pick) = memalloc_picks nbytes a h l fit in
    subst (Got nbytes (2 ^ a) h live) (sym e) (take_from-Got nbytes a b h live high holds pick w)
