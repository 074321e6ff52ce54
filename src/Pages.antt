-- ===== src/Pages.antt =====
-- xen/mm.c: the page allocator. The image is linked at address 0, so that virtual and physical
-- addresses are the same numbers; a page, and the chunk that starts at it, is given by its page
-- number. A list of free chunks is the list of their pages; the level in a chunk's head is a cell of the
-- page. The level in a chunk's tail is written and never read, and is left out.
pub mod Bitmap
pub mod Clear
pub mod Chunks
pub mod Cover
pub mod Alloc
pub mod Neighbours
pub mod Free
pub mod Roundtrip
pub mod Init
mod Tests
use Prim.Native.Nat.{bit_and, bit_or}
use rumpuser_xen.Prelude.{
  ℕ, zero, suc, ◌+◌, ◌-◌, ◌*◌, ◌/◌, ◌%◌, ◌^◌, Bool, true, false, not, ◌&&◌, ◌||◌, Option, none,
  some, List, [], ◌∷◌, ◌==◌, ◌/=◌, ltb, leb, if◌then◌else◌, update, remove,
}
use rumpuser_xen.Sched.{Outcome, ok, bug, hang}

pub record Pages : Type 0 where
  pub alloc_bitmap : ℕ → ℕ  -- by the index of the word
  pub free_head : ℕ → List ℕ  -- by the level
  pub level : ℕ → ℕ  -- `level` in the head at a page

abbrev pub freelist_size : ℕ
freelist_size = 52

unfoldable pub allocated_in_map : (ℕ → ℕ) → ℕ → Bool
allocated_in_map words pn = bit_and (words (pn / 64)) (2 ^ (pn % 64)) /= 0

-- The loop that writes whole words.
unfoldable pub fill_words : ℕ → ℕ → ℕ → (ℕ → ℕ) → ℕ → ℕ
fill_words v zero idx words = words
fill_words v (suc n) idx words = fill_words v n (idx + 1) (update words idx v)

unfoldable pub map_alloc : ℕ → ℕ → (ℕ → ℕ) → ℕ → ℕ
map_alloc first_page nr_pages words =
    let curr_idx = first_page / 64 in
    let start_off = first_page % 64 in
    let end_idx = (first_page + nr_pages) / 64 in
    let end_off = (first_page + nr_pages) % 64 in
    let within = bit_and (2 ^ end_off - 1) (2 ^ 64 - 2 ^ start_off) in
    let words1 = update words curr_idx (bit_or (words curr_idx) (2 ^ 64 - 2 ^ start_off)) in
    let words2 = fill_words (2 ^ 64 - 1) (end_idx - curr_idx - 1) (curr_idx + 1) words1 in
    if curr_idx == end_idx
    then update words curr_idx (bit_or (words curr_idx) within)
    else update words2 end_idx (bit_or (words2 end_idx) (2 ^ end_off - 1))

unfoldable pub map_free : ℕ → ℕ → (ℕ → ℕ) → ℕ → ℕ
map_free first_page nr_pages words =
    let curr_idx = first_page / 64 in
    let start_off = first_page % 64 in
    let end_idx = (first_page + nr_pages) / 64 in
    let end_off = (first_page + nr_pages) % 64 in
    let outside = bit_or (2 ^ 64 - 2 ^ end_off) (2 ^ start_off - 1) in
    let words1 = update words curr_idx (bit_and (words curr_idx) (2 ^ start_off - 1)) in
    let words2 = fill_words 0 (end_idx - curr_idx - 1) (curr_idx + 1) words1 in
    if curr_idx == end_idx
    then update words curr_idx (bit_and (words curr_idx) outside)
    else update words2 end_idx (bit_and (words2 end_idx) (2 ^ 64 - 2 ^ end_off))

-- A chunk at the head of the list of its level.
unfoldable pub link_chunk : ℕ → ℕ → Pages → Pages
link_chunk ch i s = record s {
  level = update s.level ch i;
  free_head = update s.free_head i (ch ∷ s.free_head i);
}

-- The smallest level from `i` on, of `n` that are left, with a free chunk, and that chunk.
unfoldable pub find_level : ℕ → ℕ → Pages → Option (ℕ × ℕ)
find_level zero i s = none
find_level (suc n) i s = elim (s.free_head i) [
  | [] ↦ find_level n (i + 1) s
  | ch ∷ rest ↦ some (i, ch)
]

-- The loop that halves a chunk: `n` times down to `order`.
unfoldable pub split_chunk : ℕ → ℕ → ℕ → Pages → Pages
split_chunk zero order ch s = s
split_chunk (suc n) order ch s =
    split_chunk n order ch (link_chunk (ch + 2 ^ (order + n)) (order + n) s)

-- The page, or none for the result 0.
unfoldable pub alloc_pages : ℕ → Pages → Option ℕ × Pages
alloc_pages order s = elim (find_level (freelist_size - order) order s) [
  | none ↦ (none, s)
  | some (i, ch) ↦
      let s1 = record s { free_head = update s.free_head i (remove ch (s.free_head i)) } in
      let s2 = split_chunk (i - order) order ch s1 in
      (some ch, record s2 { alloc_bitmap = map_alloc ch (2 ^ order) s2.alloc_bitmap })
]

-- The chunk's neighbour of the same size: the one before it if its address has the bit of the size.
unfoldable pub to_merge : ℕ → ℕ → ℕ
to_merge ch order = if ch / 2 ^ order % 2 /= 0 then ch - 2 ^ order else ch + 2 ^ order

-- The loop that merges, with the chunk and its level at the end; `n` levels are left.
unfoldable pub merge : ℕ → ℕ → ℕ → Pages → ℕ × ℕ × Pages
merge zero ch order s = (ch, order, s)
merge (suc n) ch order s =
    let other = to_merge ch order in
    let s' = record s { free_head = update s.free_head order (remove other (s.free_head order)) } in
    let rest = merge n (if ch / 2 ^ order % 2 /= 0 then other else ch) (order + 1) s' in
    if allocated_in_map s.alloc_bitmap other || (s.level other /= order)
    then (ch, order, s)
    else rest

-- A level past the last list would be written out of bounds.
unfoldable pub free_pages : ℕ → ℕ → Pages → Outcome Pages
free_pages ch order s =
    let s1 = record s { alloc_bitmap = map_free ch (2 ^ order) s.alloc_bitmap } in
    let (ch', order', s2) = merge (freelist_size - order) ch order s1 in
    if ltb order' freelist_size then ok (link_chunk ch' order' s2) else bug

-- The level of the next chunk of the free pool: the first level whose bit the page number has, or
-- the last whose double is no larger than what is left. `n` levels can be tried.
unfoldable pub pool_level : ℕ → ℕ → ℕ → ℕ → ℕ
pool_level zero i min range = i
pool_level (suc n) i min range =
    let next = pool_level n (i + 1) min range in
    if leb (2 ^ (i + 1)) range && (min / 2 ^ i % 2 == 0) then next else i

-- The loop that puts the pages from `min` on into the lists, with fuel.
unfoldable pub fill_pool : ℕ → ℕ → ℕ → Pages → Outcome Pages
fill_pool zero min range s = if range == 0 then ok s else hang
fill_pool (suc fuel) min range s =
    let i = pool_level freelist_size 0 min range in
    let rest = fill_pool fuel (min + 2 ^ i) (range - 2 ^ i) (link_chunk min i s) in
    if range == 0 then ok s else rest

-- `min` and `max` are page numbers, those of the addresses rounded up and down, and `bitmap` is the number
-- of pages that the bitmap takes, from `min` on. The memory that is not cleared is all ones.
unfoldable pub init_page_allocator : ℕ → ℕ → Pages → Outcome Pages
init_page_allocator min max s =
    let bitmap_pages = ((max * 4096 + 1) / 2 ^ 15 + 4095) / 4096 in
    let min' = min + bitmap_pages in
    let s' = record s {
      free_head = λ i. [];
      alloc_bitmap =
          map_free min' (max - min')
            (fill_words (2 ^ 64 - 1) (bitmap_pages * 512) 0 s.alloc_bitmap);
    } in
    fill_pool (max - min') min' (max - min') s'
