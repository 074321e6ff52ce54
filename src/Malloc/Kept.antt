-- ===== src/Malloc/Kept.antt =====
-- lib/memalloc.c: which bytes of memory memalloc and memfree write.
use native.Mathlib.Nat.{pow-le-pow_right}
use rumpuser_xen.Prelude.{
  List-cases, ℕ, ◌+◌, ◌-◌, ◌/◌, ◌^◌, ◌≤◌, ◌<◌, ◌≡◌, refl, sym, ap, ◌∙◌, inl, inr, true, List, [],
  ◌∷◌, arith, ◌==◌, update, update_ne, All, Bool-cases,
}
use mathlib.Core.Path.{subst}
use rumpuser_xen.Pages.{allocated_in_map, alloc_pages}
use rumpuser_xen.Pages.Chunks.{holds, hits}
use rumpuser_xen.Pages.Alloc.{alloc_pages-IsSound}
use rumpuser_xen.Malloc.{
  Heap, magic, nbuckets, store, write_links, head_or_null, round_down, corealloc, morecore,
  take_block, take_first, take_from, memalloc,
}
use rumpuser_xen.Malloc.Memory.{store_outside}
use rumpuser_xen.Malloc.Blocks.{IsHeap, used_at, hits-le-free_at}
use rumpuser_xen.Malloc.Sizes.{IsBlock}
use rumpuser_xen.Malloc.More.{
  order_of, order_below, blocks_of, blocks_of_lem, morecore_lem, page_address-Fresh,
  morecore-IsHeap,
}
use rumpuser_xen.Malloc.Take.{take_block-Placed, take_from_direct, take_from_more, memalloc_picks}

pub block_size : (b : ℕ) → 32 ≤ 2 ^ (b + 5)
block_size b = pow-le-pow_right (omega arith) {i = 5} {j = b + 5} (omega arith)

-- The links of blocks lie within them.
write_links_outside :
    (b : ℕ) (ops : List ℕ) (mem : ℕ → ℕ) (v : ℕ)
    → hits (b + 5) ops v ≡ 0
    → write_links ops mem v ≡ mem v
unfolding write_links
write_links_outside b [] mem v h = refl
write_links_outside b (op ∷ ops) mem v h =
    write_links_outside b ops (store 8 op (head_or_null ops) mem) v (omega (arith, h))
    ∙ store_outside 8 op (head_or_null ops) mem v (ground (arith, h, block_size b))

-- The header of a block lies within it.
take_block_outside :
    (nbytes a b op : ℕ) (rest : List ℕ) (h : Heap) (v : ℕ)
    → IsBlock b op
    → b ≤ 26
    → nbytes + round_down (16 + 2 ^ a - 1) (2 ^ a) ≤ 2 ^ (b + 5)
    → holds op (b + 5) v ≡ 0
    → (take_block (2 ^ a) b op rest h).1.mem v ≡ h.mem v
unfolding take_block
take_block_outside nbytes a b op rest h v al k fit out =
    let (blk, hd, low, high, mult) = take_block-Placed nbytes a b op rest h al k fit in
    let rv = round_down (op + 16 + 2 ^ a - 1) (2 ^ a) in
    let hdr = rv - 16 in
    let mem0 = update h.mem (hdr + 8) magic in
    store_outside 8 hdr (rv - op) (update mem0 (hdr + 9) b) v (ground (arith, out, low, high))
    ∙ update_ne mem0 (hdr + 9) v b (λ e. ground (arith, out, low, high, e))
    ∙ update_ne h.mem (hdr + 8) v magic (λ e. ground (arith, out, low, high, e))

-- A byte of a block in use is in no free block and in a page that is allocated.
used_byte :
    (h : Heap) (live : List (ℕ × ℕ)) (v b : ℕ)
    → b < nbuckets
    → IsHeap h live
    → 0 < used_at live v
    → (hits (b + 5) (h.nextf b) v ≡ 0) × (allocated_in_map h.pages.alloc_bitmap (v / 4096) ≡ true)
used_byte h live v b l w u =
    (ground (arith, hits-le-free_at h.nextf b v l, w.apart v, u), ground (arith, w.apart v, u))

morecore_outside :
    (b : ℕ) (h : Heap) (live : List (ℕ × ℕ)) (v : ℕ)
    → b ≤ 26
    → IsHeap h live
    → 0 < used_at live v
    → (morecore b h).mem v ≡ h.mem v
unfolding corealloc
morecore_outside b h live v l w u =
    let o = order_of b in
    let r = corealloc o h.pages in
    let fresh =
      page_address-Fresh o h.pages (alloc_pages o h.pages) w.sound
        (alloc_pages-IsSound o h.pages (order_below b l) w.sound) in
    let lem = morecore_lem b h in
    let mine = (used_byte h live v b (omega (arith, l)) w u).1 in
    elim (Bool-cases (r.0 == 0)) [
      | inl z ↦
          let same : morecore b h ≡ record h { pages = r.1 } = lem ∙ rw z refl in
          ap (λ k. k.mem v) same
      | inr z ↦ elim fresh.2 [
        | inl n ↦ absurd (ground (arith, z, n))
        | inr (q, a, free, now) ↦
            let (al, hs) = blocks_of_lem b r.0 q a in
            let blocks = blocks_of b r.0 in
            let same : morecore b h ≡ record h {
              pages = r.1;
              nextf = update h.nextf b blocks;
              mem = write_links blocks h.mem;
            } =
              lem ∙ rw z refl in
            ap (λ k. k.mem v) same
            ∙ write_links_outside b blocks h.mem v (ground (arith, hs v, free v, mine))
      ]
    ]

take_from_outside :
    (nbytes a b : ℕ) (h : Heap) (live : List (ℕ × ℕ)) (v : ℕ)
    → b ≤ 26
    → nbytes + round_down (16 + 2 ^ a - 1) (2 ^ a) ≤ 2 ^ (b + 5)
    → IsHeap h live
    → 0 < used_at live v
    → (take_from (2 ^ a) b h).1.mem v ≡ h.mem v
take_from_outside nbytes a b h live v l fit w u =
    let first : (g : Heap)
        → IsHeap g live
        → (take_first (2 ^ a) b (g.nextf b) g).1.mem v ≡ g.mem v =
      λ g w'.
        let mine = (used_byte g live v b (omega (arith, l)) w' u).0 in
        elim (List-cases (g.nextf b)) [
          | inl e ↦ ap (λ xs. (take_first (2 ^ a) b xs g).1.mem v) e
          | inr (op, rest, e) ↦
              let (al, others) = subst (All (IsBlock b)) e (w'.aligned b) in
              let out : holds op (b + 5) v ≡ 0 =
                omega (arith, mine, ap (λ xs. hits (b + 5) xs v) e) in
              ap (λ xs. (take_first (2 ^ a) b xs g).1.mem v) e
              ∙ take_block_outside nbytes a b op rest g v al l fit out
        ] in
    elim (List-cases (h.nextf b)) [
      | inr (op, rest, e) ↦
          ap (λ t. t.1.mem v) (take_from_direct (2 ^ a) b op rest h e)
          ∙ ap (λ xs. (take_first (2 ^ a) b xs h).1.mem v) (sym e)
          ∙ first h w
      | inl e ↦
          ap (λ t. t.1.mem v) (take_from_more (2 ^ a) b h e)
          ∙ first (morecore b h) (morecore-IsHeap b h live l w e).0
          ∙ morecore_outside b h live v l w u
    ]

-- While free blocks and those in use share no byte, memalloc with an alignment that is a power of two from 8 on,
-- and a size of at most 2 ^ 31 bytes with the alignment and 16, changes no byte of a block in use.
pub memalloc_outside :
    (nbytes a : ℕ) (h : Heap) (live : List (ℕ × ℕ)) (v : ℕ)
    → 3 ≤ a
    → nbytes + 2 ^ a + 16 ≤ 2 ^ 31
    → IsHeap h live
    → 0 < used_at live v
    → (memalloc nbytes (2 ^ a) h).1.mem v ≡ h.mem v
memalloc_outside nbytes a h live v l fit w u =
    let (b, e, high, holds, pick) = memalloc_picks nbytes a h l fit in
    ap (λ t. t.1.mem v) e ∙ take_from_outside nbytes a b h live v high holds w u
