-- ===== src/Pages/Tests.antt =====
-- xen/mm.c: runs of the page allocator, and where its theorems apply.
use rumpuser_xen.Prelude.{
  ℕ, ◌+◌, ◌-◌, ◌%◌, ◌^◌, ◌≡◌, refl, ◌∙◌, true, not, ◌&&◌, some, List, [], ◌∷◌, arith, ltb, leb,
}
use rumpuser_xen.Sched.{Outcome, ok, bug, hang}
use rumpuser_xen.Pages.{
  Pages, freelist_size, allocated_in_map, map_free, link_chunk, find_level, split_chunk,
  alloc_pages, to_merge, merge, free_pages, init_page_allocator,
}
use rumpuser_xen.Pages.Bitmap.{allocated-bit, bit_ones}
use rumpuser_xen.Pages.Clear.{map_free_lem}
use rumpuser_xen.Pages.Chunks.{holds}
use rumpuser_xen.Pages.Cover.{Ties, IsSound, link_chunk-Ties}
use rumpuser_xen.Pages.Alloc.{Allocated, alloc_pages-IsSound}
use rumpuser_xen.Pages.Free.{IsLimited, free_pages-IsSound}
use rumpuser_xen.Pages.Roundtrip.{free_pages-alloc_pages}
use rumpuser_xen.Pages.Init.{pool_start, no_chunks, init_page_allocator-IsSound}

-- No page is free.
abbrev taken : Pages
taken = record { alloc_bitmap = λ j. 2 ^ 64 - 1; free_head = λ i. []; level = λ p. 0 }

taken_all : (v : ℕ) → allocated_in_map taken.alloc_bitmap v ≡ true
taken_all v = allocated-bit taken.alloc_bitmap v ∙ bit_ones (v % 64) (omega arith)

taken-IsSound : IsSound taken
taken-IsSound = record {
  exact = λ v. ground (arith, no_chunks freelist_size v, taken_all v);
  heads = λ i k. tt;
}

-- The pages from 8 to 15 are free, in one chunk.
abbrev opened : Pages
opened = record {
  alloc_bitmap = map_free 8 8 taken.alloc_bitmap;
  free_head = λ i. [];
  level = λ p. 0;
}

abbrev pool : Pages
pool = link_chunk 8 3 opened

pool-IsSound : IsSound pool
pool-IsSound =
    let w : Ties opened (λ v. 0 + holds 8 3 v) = record {
      exact = λ v.
          ground
            (arith, no_chunks freelist_size v, taken_all v, map_free_lem 8 8 taken.alloc_bitmap v);
      heads = λ i k. tt;
    } in
    link_chunk-Ties 8 3 opened (λ v. 0) (omega arith) (1, refl) w

alloc_pages-IsSound_example : Allocated 1 pool (alloc_pages 1 pool)
alloc_pages-IsSound_example = alloc_pages-IsSound 1 pool (omega arith) pool-IsSound

-- The chunk is halved twice.
alloc_pages_run :
    let (got, s) = alloc_pages 1 pool in
    (got ≡ some 8) × (s.free_head 1 ≡ 10 ∷ []) × (s.free_head 2 ≡ 12 ∷ [])
unfolding alloc_pages find_level split_chunk link_chunk
alloc_pages_run = (refl, refl, refl)

free_pages-IsSound_example :
    (s' : Pages) × (free_pages 8 2 taken ≡ ok s')
    × IsSound s'
    × ((v : ℕ)
        → allocated_in_map s'.alloc_bitmap v
          ≡ (allocated_in_map taken.alloc_bitmap v && not (leb 8 v && ltb v (8 + 2 ^ 2))))
free_pages-IsSound_example =
    free_pages-IsSound 8 2 taken (omega arith) taken-IsSound (λ v l. taken_all v) (2, refl)
      (omega arith) (λ v a b. taken_all v)

abbrev before_merge : Pages
before_merge = link_chunk 12 2 (record {
  alloc_bitmap = map_free 12 4 taken.alloc_bitmap;
  free_head = λ i. [];
  level = λ p. 0;
})

abbrev free_list : ℕ → Outcome Pages → List ℕ
free_list i (ok s) = s.free_head i
free_list i bug = []
free_list i hang = []

-- The pages 8 to 11 merge with their free neighbours 12 to 15.
free_pages_run :
    (free_list 2 (free_pages 8 2 before_merge) ≡ [])
    × (free_list 3 (free_pages 8 2 before_merge) ≡ 8 ∷ [])
unfolding free_pages merge to_merge link_chunk map_free allocated_in_map
free_pages_run = (refl, refl)

init_page_allocator-IsSound_example :
    (s' : Pages) × (init_page_allocator 1 9 taken ≡ ok s')
    × IsSound s'
    × ((v : ℕ) → allocated_in_map s'.alloc_bitmap v ≡ not (leb (pool_start 1 9) v && ltb v 9))
init_page_allocator-IsSound_example =
    init_page_allocator-IsSound 1 9 taken (omega arith) (omega arith) (λ j l. refl)

pool-IsLimited : IsLimited pool.alloc_bitmap
unfolding link_chunk
pool-IsLimited v l = map_free_lem 8 8 taken.alloc_bitmap v ∙ ground (arith, taken_all v, l)

free_pages-alloc_pages_example :
    let s1 = (alloc_pages 1 pool).1 in
    (s' : Pages) × (free_pages 8 1 s1 ≡ ok s')
    × IsSound s'
    × ((v : ℕ) → allocated_in_map s'.alloc_bitmap v ≡ allocated_in_map pool.alloc_bitmap v)
unfolding alloc_pages find_level split_chunk link_chunk
free_pages-alloc_pages_example =
    free_pages-alloc_pages 1 8 pool (alloc_pages 1 pool).1 (omega arith) pool-IsSound pool-IsLimited
      refl
