-- ===== src/Malloc/Rump.antt =====
-- rumphyper_base.c: the memory of the rump kernel, a page from the page allocator or else a block from memalloc.
use native.Mathlib.Nat.{mul-div_cancel}
use rumpuser_xen.Prelude.{
  ℕ, ◌+◌, ◌*◌, ◌/◌, ◌≤◌, ◌<◌, ◌≡◌, ap, ◌∙◌, true, false, ◌&&◌, some, List, arith, ◌==◌, leb, ltb,
  if◌then◌else◌,
}
use mathlib.Core.Path.{subst}
use rumpuser_xen.Sched.{Outcome, ok, bug, hang}
use rumpuser_xen.Pages.{Pages, freelist_size, allocated_in_map, alloc_pages, free_pages}
use rumpuser_xen.Pages.Alloc.{Allocated, alloc_pages-IsSound}
use rumpuser_xen.Pages.Cover.{IsSound}
use rumpuser_xen.Pages.Free.{IsLimited}
use rumpuser_xen.Pages.Roundtrip.{free_pages-alloc_pages}
use rumpuser_xen.Malloc.{Heap, page_address, corealloc, memalloc, memfree}
use rumpuser_xen.Malloc.Blocks.{IsHeap, free_at, used_at}

abbrev pub page_size : ℕ
page_size = 4096

-- alloc_page() is alloc_pages(0).
abbrev pub page_of : ℕ × Pages → Heap → ℕ × Heap
page_of (v, s) h = (v, record h { pages = s })

-- The address, 0 where rumpuser_malloc returns ENOMEM.
unfoldable pub rumpuser_malloc : ℕ → ℕ → Heap → Outcome (ℕ × Heap)
rumpuser_malloc len alignment h =
    if len == page_size
    then (if leb alignment page_size then ok (page_of (corealloc 0 h.pages) h) else bug)
    else ok (memalloc len alignment h)

abbrev pub with_pages : Heap → Outcome Pages → Outcome Heap
with_pages h (ok s) = ok (record h { pages = s })
with_pages h bug = bug
with_pages h hang = hang

unfoldable pub rumpuser_free : ℕ → ℕ → Heap → Outcome Heap
rumpuser_free buf buflen h =
    if buflen == page_size
    then with_pages h (free_pages (buf / page_size) 0 h.pages)
    else memfree buf h

-- The page allocator's part of a heap is exchanged, and the pages with blocks stay allocated.
exchange_pages :
    (h : Heap) (s : Pages) (live : List (ℕ × ℕ))
    → IsHeap h live
    → IsSound s
    → ((v : ℕ)
        → free_at h.nextf v + used_at live v
          ≤ (if allocated_in_map s.alloc_bitmap (v / 4096) then 1 else 0))
    → IsHeap (record h { pages = s }) live
exchange_pages h s live w sound apart = record { sound = sound; apart = apart; aligned = w.aligned }

-- With the page ch free and next in turn, not page 0, and memory below 2 ^ 51 pages: rumpuser_malloc of a page gives
-- its address and leaves malloc's blocks as they are, none of which holds the byte v if that is in the page;
-- and rumpuser_free of the page brings the map of allocated pages back to what it was, the blocks still in place.
pub rumpuser_free-rumpuser_malloc :
    (alignment ch v : ℕ) (s1 : Pages) (h : Heap) (live : List (ℕ × ℕ))
    → alignment ≤ page_size
    → 0 < ch
    → IsHeap h live
    → IsLimited h.pages.alloc_bitmap
    → alloc_pages 0 h.pages ≡ (some ch, s1)
    → let h1 = record h { pages = s1 } in
      (rumpuser_malloc page_size alignment h ≡ ok (ch * page_size, h1))
      × IsHeap h1 live
      × ((v / page_size == ch && ltb 0 (free_at h.nextf v + used_at live v)) ≡ false)
      × ((h' : Heap) × (rumpuser_free (ch * page_size) page_size h1 ≡ ok h')
          × IsHeap h' live
          × (allocated_in_map h'.pages.alloc_bitmap v ≡ allocated_in_map h.pages.alloc_bitmap v))
unfolding rumpuser_malloc rumpuser_free corealloc
rumpuser_free-rumpuser_malloc alignment ch v s1 h live l some_ch w lim e =
    let small : 0 < freelist_size = omega arith in
    let a : Allocated 0 h.pages (some ch, s1) =
      subst (Allocated 0 h.pages) e (alloc_pages-IsSound 0 h.pages small w.sound) in
    let (sound1, al, free, now) = a in
    let (s', freed, sound', same) = free_pages-alloc_pages 0 ch h.pages s1 small w.sound lim e in
    let fits : leb alignment page_size ≡ true = ground (arith, l) in
    let h1 : Heap = record h { pages = s1 } in
    let page : ch * page_size / page_size ≡ ch = mul-div_cancel ch (omega arith) in
    (
      ap (λ t. if t then ok (page_of (page_address (alloc_pages 0 h.pages)) h) else bug) fits
          ∙ ap (λ t. ok (page_of (page_address t) h)) e,
      exchange_pages h s1 live w sound1 (λ u. ground (arith, w.apart u, now (u / 4096))),
      ground (arith, w.apart v, free ch, free (v / 4096)),
      (
        record h { pages = s' },
        ap (λ t. with_pages h1 (free_pages t 0 s1)) page ∙ ap (with_pages h1) freed,
        exchange_pages h s' live w sound' (λ u. ground (arith, w.apart u, same (u / 4096))),
        same v,
      ),
    )
