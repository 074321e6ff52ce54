-- ===== src/Pages/Init.antt =====
-- xen/mm.c: `init_page_allocator` leaves sound lists, and all pages of the pool free.
use native.Mathlib.Nat.{one-le-pow, mul-div_cancel}
use rumpuser_xen.Prelude.{
  ℕ, zero, suc, ◌+◌, ◌-◌, ◌*◌, ◌/◌, ◌%◌, ◌^◌, ◌≤◌, ◌<◌, ◌≡◌, refl, sym, ap, ◌∙◌, inl, inr, true,
  not, ◌&&◌, [], arith, ◌==◌, ltb, leb, if◌then◌else◌, Bool-cases, bit,
}
use rumpuser_xen.Sched.{ok}
use rumpuser_xen.Pages.{
  Pages, freelist_size, allocated_in_map, map_free, fill_words, link_chunk, pool_level, fill_pool,
  init_page_allocator,
}
use rumpuser_xen.Pages.Bitmap.{allocated-bit, fill_words_lem, bit_ones}
use rumpuser_xen.Pages.Clear.{map_free_lem}
use rumpuser_xen.Pages.Chunks.{holds, cover}
use rumpuser_xen.Pages.Cover.{IsAligned, Ties, IsSound, link_chunk-Ties}
use rumpuser_xen.Pages.Alloc.{Ties-same, double_pow}
use rumpuser_xen.Pages.Free.{limit}

-- 1 if the page lies in a range, else 0.
abbrev in_range : ℕ → ℕ → ℕ → ℕ
in_range min range v = if leb min v && ltb v (min + range) then 1 else 0

-- The level that is chosen fits what is left and the page.
pool_level_fits :
    (n i min range : ℕ)
    → i + n ≡ freelist_size
    → IsAligned min i
    → 2 ^ i ≤ range
    → range ≤ limit
    → let j = pool_level n i min range in (j < freelist_size) × IsAligned min j × (2 ^ j ≤ range)
unfolding pool_level
pool_level_fits zero i min range z a l b =
    let q : i ≡ 52 = omega arith in absurd (omega (arith, l, b, ap (λ k. 2 ^ k) q))
pool_level_fits (suc n) i min range z (q, e) l b =
    elim (Bool-cases (leb (2 ^ (i + 1)) range && (min / 2 ^ i % 2 == 0))) [
      | inr f ↦ rw f (omega arith, (q, e), l)
      | inl f ↦
          let d : min / 2 ^ i ≡ q =
            ap (λ t. t / 2 ^ i) e ∙ mul-div_cancel q (one-le-pow i 2 (omega arith)) in
          let even : q ≡ 2 * (q / 2) = ground (arith, f, d) in
          let next : i + 1 ≡ suc i = omega arith in
          let a' : min ≡ (q / 2) * 2 ^ (i + 1) =
            e
            ∙ ap (λ t. t * 2 ^ i) even
            ∙ sym (double_pow (q / 2) i)
            ∙ ap (λ k. (q / 2) * 2 ^ k) (sym next) in
          rw f (pool_level_fits n (i + 1) min range (omega arith) (q / 2, a') (ground (arith, f)) b)
    ]

fill_pool-IsSound :
    (fuel min range : ℕ) (s : Pages)
    → range ≤ fuel
    → range ≤ limit
    → Ties s (in_range min range)
    → (s' : Pages) × (fill_pool fuel min range s ≡ ok s')
      × IsSound s'
      × (s'.alloc_bitmap ≡ s.alloc_bitmap)
unfolding fill_pool link_chunk
fill_pool-IsSound zero min range s l b w =
    let z : range ≡ 0 = omega arith in
    let t : (range == 0) ≡ true = ground arith in
    (s, rw t refl, Ties-same s (in_range min range) (λ v. 0) (λ v. ground (arith, z)) w, refl)
fill_pool-IsSound (suc fuel) min range s l b w = elim (Bool-cases (range == 0)) [
  | inl t ↦
      (s, rw t refl, Ties-same s (in_range min range) (λ v. 0) (λ v. ground (arith, t)) w, refl)
  | inr t ↦
      let i = pool_level freelist_size 0 min range in
      let (k, a, fit) =
        pool_level_fits freelist_size 0 min range refl (min, omega arith) (ground (arith, t)) b in
      let one = one-le-pow i 2 (omega arith) in
      let w1 =
        Ties-same s (in_range min range)
          (λ v. in_range (min + 2 ^ i) (range - 2 ^ i) v + holds min i v) (λ v. ground (arith, fit))
          w in
      let w2 = link_chunk-Ties min i s (in_range (min + 2 ^ i) (range - 2 ^ i)) k a w1 in
      let (s', e, sound, same) =
        fill_pool-IsSound fuel (min + 2 ^ i) (range - 2 ^ i) (link_chunk min i s)
          (omega (arith, one, l)) (omega (arith, b)) w2 in
      (s', rw t e, sound, same)
]

-- The first page behind the bitmap.
abbrev pub pool_start : ℕ → ℕ → ℕ
pool_start min max = min + ((max * 4096 + 1) / 2 ^ 15 + 4095) / 4096

pub no_chunks : (n v : ℕ) → cover n (λ i. []) v ≡ 0
unfolding cover
no_chunks zero v = refl
no_chunks (suc n) v = omega (arith, no_chunks n v)

-- If the bitmap fits below the end of memory, that is at most 2 ^ 51 pages, and what lies behind the
-- bitmap reads as allocated, then init_page_allocator ends; the lists are sound, and the free pages
-- are exactly those behind the bitmap and below the end.
pub init_page_allocator-IsSound :
    (min max : ℕ) (s : Pages)
    → pool_start min max ≤ max
    → max ≤ limit
    → ((j : ℕ)
        → ((max * 4096 + 1) / 2 ^ 15 + 4095) / 4096 * 512 ≤ j
        → s.alloc_bitmap j ≡ 2 ^ 64 - 1)
    → (s' : Pages) × (init_page_allocator min max s ≡ ok s')
      × IsSound s'
      × ((v : ℕ)
          → allocated_in_map s'.alloc_bitmap v ≡ not (leb (pool_start min max) v && ltb v max))
unfolding init_page_allocator
init_page_allocator-IsSound min max s l b behind =
    let n = ((max * 4096 + 1) / 2 ^ 15 + 4095) / 4096 * 512 in
    let start = pool_start min max in
    let ones = fill_words (2 ^ 64 - 1) n 0 s.alloc_bitmap in
    let all : (j : ℕ) → ones j ≡ 2 ^ 64 - 1 =
      λ j. fill_words_lem (2 ^ 64 - 1) n 0 s.alloc_bitmap j ∙ ground (arith, behind j) in
    let set : (v : ℕ) → allocated_in_map ones v ≡ true = λ v.
      allocated-bit ones v
      ∙ ap (λ x. bit x (v % 64)) (all (v / 64))
      ∙ bit_ones (v % 64) (omega arith) in
    let now : (v : ℕ)
        → allocated_in_map (map_free start (max - start) ones) v ≡ not (leb start v && ltb v max) =
      λ v. map_free_lem start (max - start) ones v ∙ ground (arith, set v, l) in
    let s1 = record s { free_head = λ i. []; alloc_bitmap = map_free start (max - start) ones } in
    let w : Ties s1 (in_range start (max - start)) = record {
      exact = λ v. ground (arith, no_chunks freelist_size v, now v, l);
      heads = λ i k. tt;
    } in
    let (s', e, sound, same) =
      fill_pool-IsSound (max - start) start (max - start) s1 (omega arith) (omega (arith, b)) w in
    (s', e, sound, λ v. ap (λ x. allocated_in_map x v) same ∙ now v)
