-- ===== src/Malloc/Tests.antt =====
-- lib/memalloc.c: runs of the allocator, and where its theorems apply.
use rumpuser_xen.Prelude.{
  ◌==◌, false, ◌*◌, ℕ, ◌+◌, ◌-◌, ◌/◌, ◌%◌, ◌^◌, ◌≡◌, refl, ◌∙◌, true, not, ◌&&◌, List, [], ◌∷◌,
  arith, ltb, leb, update,
}
use rumpuser_xen.Sched.{ok}
use rumpuser_xen.Pages.Free.{IsLimited}
use rumpuser_xen.Malloc.Rump.{
  page_size, rumpuser_malloc, rumpuser_free, rumpuser_free-rumpuser_malloc,
}
use rumpuser_xen.Pages.{
  alloc_pages, find_level, split_chunk, Pages, freelist_size, allocated_in_map, map_free,
  link_chunk,
}
use rumpuser_xen.Pages.Clear.{map_free_lem}
use rumpuser_xen.Pages.Chunks.{holds, cover}
use rumpuser_xen.Pages.Cover.{Ties, IsSound, link_chunk-Ties}
use rumpuser_xen.Pages.Init.{no_chunks}
use rumpuser_xen.Pages.Bitmap.{allocated-bit, bit_ones}
use rumpuser_xen.Malloc.{
  Heap, magic, page_bucket_loop, load, room_of, memalloc, malloc, cleared, calloc, memfree,
}
use rumpuser_xen.Malloc.Blocks.{IsHeap, free_at, used_at}
use rumpuser_xen.Malloc.Take.{Header, Got, memalloc-Got}
use rumpuser_xen.Malloc.Kept.{memalloc_outside}
use rumpuser_xen.Malloc.Give.{memfree-IsHeap}

page_bucket_run : page_bucket_loop 20 4096 32 0 ≡ 7
unfolding page_bucket_loop
page_bucket_run = refl

-- No page is free.
abbrev taken : Pages
taken = record { alloc_bitmap = λ j. 2 ^ 64 - 1; free_head = λ i. []; level = λ p. 0 }

taken_all : (v : ℕ) → allocated_in_map taken.alloc_bitmap v ≡ true
taken_all v = allocated-bit taken.alloc_bitmap v ∙ bit_ones (v % 64) (omega arith)

-- The pages from 8 to 15 are free.
abbrev pool : Pages
pool =
    link_chunk 8 3 (record {
      alloc_bitmap = map_free 8 8 taken.alloc_bitmap;
      free_head = λ i. [];
      level = λ p. 0;
    })

pool-IsSound : IsSound pool
pool-IsSound =
    let opened : Pages = record {
      alloc_bitmap = map_free 8 8 taken.alloc_bitmap;
      free_head = λ i. [];
      level = λ p. 0;
    } in
    let w : Ties opened (λ v. 0 + holds 8 3 v) = record {
      exact = λ v.
          ground
            (arith, no_chunks freelist_size v, taken_all v, map_free_lem 8 8 taken.alloc_bitmap v);
      heads = λ i k. tt;
    } in
    link_chunk-Ties 8 3 opened (λ v. 0) (omega arith) (1, refl) w

-- One block of 128 bytes is in use, at the start of page 16.
abbrev heap : Heap
heap = record {
  pages = pool;
  nextf = λ b. [];
  mem = update (update (update (λ a. 0) 65536 16) 65544 magic) 65545 2;
}

abbrev in_use : List (ℕ × ℕ)
in_use = (65536, 2) ∷ []

nothing_free : (v : ℕ) → free_at (λ b. []) v ≡ 0
unfolding cover
nothing_free v = refl

pool_pages : (v : ℕ) → allocated_in_map pool.alloc_bitmap v ≡ not (leb 8 v && ltb v 16)
unfolding link_chunk
pool_pages v = map_free_lem 8 8 taken.alloc_bitmap v ∙ ground (arith, taken_all v)

heap-IsHeap : IsHeap heap in_use
heap-IsHeap = record {
  sound = pool-IsSound;
  apart = λ v. ground (arith, nothing_free v, pool_pages (v / 4096));
  aligned = λ b. tt;
}

heap_header : Header heap.mem 65552 65536 2
unfolding load
heap_header = (refl, refl, refl)

memalloc-Got_example : Got 100 8 heap in_use (memalloc 100 8 heap)
memalloc-Got_example = memalloc-Got 100 3 heap in_use (omega arith) (omega arith) heap-IsHeap

memfree-IsHeap_example :
    (h' : Heap) × (memfree 65552 heap ≡ ok h')
    × IsHeap h' []
    × (h'.nextf 2 ≡ 65536 ∷ [])
    × (h'.mem 70000 ≡ 0)
memfree-IsHeap_example =
    memfree-IsHeap 65552 65536 2 heap [] 70000 heap-IsHeap (512, refl) heap_header (omega arith)
      (omega arith) (omega arith) refl

-- A block of 32 bytes, with 16 for the caller, is taken to hold none of them.
room_run : room_of 65552 (update heap.mem 65545 0) ≡ 0
unfolding room_of load
room_run = refl

-- The product wraps around to 16.
calloc_run : calloc (2 ^ 60 + 1) 16 heap ≡ cleared 16 (malloc 16 heap)
calloc_run = refl

pool-IsLimited : IsLimited pool.alloc_bitmap
pool-IsLimited v l = pool_pages v ∙ ground (arith, l)

rumpuser_free-rumpuser_malloc_example :
    let s1 = (alloc_pages 0 pool).1 in
    let h1 = record heap { pages = s1 } in
    (rumpuser_malloc page_size 64 heap ≡ ok (8 * page_size, h1))
    × IsHeap h1 in_use
    × ((32800 / page_size == 8 && ltb 0 (free_at heap.nextf 32800 + used_at in_use 32800)) ≡ false)
    × ((h' : Heap) × (rumpuser_free (8 * page_size) page_size h1 ≡ ok h')
        × IsHeap h' in_use
        × (allocated_in_map h'.pages.alloc_bitmap 32800 ≡ allocated_in_map pool.alloc_bitmap 32800))
unfolding alloc_pages find_level split_chunk link_chunk
rumpuser_free-rumpuser_malloc_example =
    rumpuser_free-rumpuser_malloc 64 8 32800 (alloc_pages 0 pool).1 heap in_use (omega arith)
      (omega arith) heap-IsHeap pool-IsLimited refl

memalloc_outside_example : (memalloc 100 8 heap).1.mem 65600 ≡ heap.mem 65600
memalloc_outside_example =
    memalloc_outside 100 3 heap in_use 65600 (omega arith) (omega arith) heap-IsHeap (omega arith)
