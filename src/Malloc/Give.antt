-- ===== src/Malloc/Give.antt =====
-- lib/memalloc.c: memfree gives a block back.
use rumpuser_xen.Prelude.{
  ℕ, ◌+◌, ◌-◌, ◌%◌, ◌^◌, ◌≤◌, ◌<◌, ◌≡◌, ap, ◌∙◌, false, List, ◌∷◌, arith, ◌==◌, ◌/=◌, leb,
  if◌then◌else◌, update, update_self,
}
use rumpuser_xen.Sched.{ok, bug}
use rumpuser_xen.Pages.Chunks.{holds}
use rumpuser_xen.Malloc.{Heap, magic, nbuckets, load, store, head_or_null, give_back, memfree}
use rumpuser_xen.Malloc.Memory.{store_outside}
use rumpuser_xen.Malloc.Sizes.{IsBlock}
use rumpuser_xen.Malloc.Blocks.{IsHeap, free_at-update, aligned-update}
use rumpuser_xen.Malloc.Kept.{block_size}
use rumpuser_xen.Malloc.Take.{Header}

-- The heap after a block went back.
abbrev pub returned : ℕ → ℕ → Heap → Heap
returned op b h = record h {
  mem = store 8 op (head_or_null (h.nextf b)) h.mem;
  nextf = update h.nextf b (op ∷ h.nextf b);
}

pub memfree_lem :
    (rv op b : ℕ) (h : Heap)
    → Header h.mem rv op b
    → op + 16 ≤ rv
    → rv < 2 ^ 64
    → b ≤ 26
    → memfree rv h ≡ ok (returned op b h)
unfolding memfree
memfree_lem rv op b h (pad, mg, ix) low high k =
    let null : (rv == 0) ≡ false = ground (arith, low) in
    let fine : (h.mem (rv - 16 + 8) /= magic) ≡ false = ground (arith, mg) in
    let orig : (rv + 2 ^ 64 - load 8 (rv - 16) h.mem) % 2 ^ 64 ≡ op =
      omega (arith, pad, low, high) in
    let size : leb nbuckets b ≡ false = ground (arith, k) in
    rw (null, fine)
      (ap (λ t. give_back t (h.mem (rv - 16 + 9)) h) orig
        ∙ ap (λ t. give_back op t h) ix
        ∙ ap (λ t. if t then bug else ok (returned op b h)) size)

pub returned-IsHeap :
    (op b : ℕ) (h : Heap) (live : List (ℕ × ℕ))
    → b ≤ 26
    → IsBlock b op
    → IsHeap h ((op, b) ∷ live)
    → IsHeap (returned op b h) live
returned-IsHeap op b h live k al w = record {
  sound = w.sound;
  apart =
      λ v. omega (arith, w.apart v, free_at-update h.nextf b (op ∷ h.nextf b) v (omega (arith, k)));
  aligned = aligned-update h.nextf b (op ∷ h.nextf b) (al, w.aligned b) w.aligned;
}

-- memfree of an address that memalloc gave, whose header is as memalloc wrote it, returns; the block is on its list
-- and no longer in use, all blocks stay apart, and no byte outside the block is changed.
pub memfree-IsHeap :
    (rv op b : ℕ) (h : Heap) (live : List (ℕ × ℕ)) (v : ℕ)
    → IsHeap h ((op, b) ∷ live)
    → IsBlock b op
    → Header h.mem rv op b
    → op + 16 ≤ rv
    → rv < 2 ^ 64
    → b ≤ 26
    → holds op (b + 5) v ≡ 0
    → (h' : Heap) × (memfree rv h ≡ ok h')
      × IsHeap h' live
      × (h'.nextf b ≡ op ∷ h.nextf b)
      × (h'.mem v ≡ h.mem v)
memfree-IsHeap rv op b h live v w al hd low high k out = (
  returned op b h,
  memfree_lem rv op b h hd low high k,
  returned-IsHeap op b h live k al w,
  update_self h.nextf b (op ∷ h.nextf b),
  store_outside 8 op (head_or_null (h.nextf b)) h.mem v (ground (arith, out, block_size b)),
)
