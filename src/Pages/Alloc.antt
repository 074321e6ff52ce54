-- ===== src/Pages/Alloc.antt =====
-- xen/mm.c: `alloc_pages` takes a chunk that is free, and the lists and the bitmap stay tied.
use native.Mathlib.Nat.{two-pow-succ}
use mathlib.Core.Path.{subst}
use rumpuser_xen.Prelude.{
  ℕ, zero, suc, ◌+◌, ◌-◌, ◌*◌, ◌^◌, ◌≤◌, ◌<◌, ◌≡◌, ◌⊎◌, refl, sym, ap, ◌∙◌, inl, inr, Bool, true,
  false, not, ◌&&◌, ◌||◌, Option, none, some, List, [], ◌∷◌, arith, ◌==◌, ltb, leb, update, member,
  remove, Bool-cases, Option-cases, ==_iff,
}
use rumpuser_xen.Pages.{
  Pages, freelist_size, allocated_in_map, map_alloc, link_chunk, find_level, split_chunk,
  alloc_pages,
}
use rumpuser_xen.Pages.Bitmap.{map_alloc_lem}
use rumpuser_xen.Pages.Chunks.{holds, holds_halves}
use rumpuser_xen.Pages.Cover.{
  IsAligned, IsHead, Ties, IsSound, All-member, link_chunk-Ties, unlink_chunk-Ties,
}

pub Ties-same :
    (s : Pages) (out out' : ℕ → ℕ) → ((v : ℕ) → out v ≡ out' v) → Ties s out → Ties s out'
Ties-same s out out' e w = record { exact = λ v. omega (arith, w.exact v, e v); heads = w.heads }

abbrev pub is_empty : List ℕ → Bool
is_empty [] = true
is_empty (x ∷ xs) = false

List-cases : (xs : List ℕ) → (xs ≡ []) ⊎ ((x : ℕ) × (r : List ℕ) × (xs ≡ x ∷ r))
List-cases [] = inl refl
List-cases (x ∷ r) = inr (x, r, refl)

find_level_found :
    (n i j ch : ℕ) (s : Pages)
    → find_level n i s ≡ some (j, ch)
    → (i ≤ j) × (j < i + n) × (member ch (s.free_head j) ≡ true)
unfolding find_level
find_level_found zero i j ch s e = cc
find_level_found (suc n) i j ch s e = elim (List-cases (s.free_head i)) [
  | inl z ↦
      let e' : find_level n (i + 1) s ≡ some (j, ch) = ground (arith, e, z) in
      let (a, b, m) = find_level_found n (i + 1) j ch s e' in (omega arith, omega arith, m)
  | inr (x, r, z) ↦
      let q : i ≡ j = ground (arith, e, z) in
      let c : x ≡ ch = ground (arith, e, z) in
      let m : member ch (s.free_head i) ≡ true = ground (arith, z, c) in
      (omega (arith, q), omega (arith, q), subst (λ k. member ch (s.free_head k) ≡ true) q m)
]

find_level-none :
    (n i : ℕ) (s : Pages)
    → find_level n i s ≡ none
    → (j : ℕ) → (leb i j && ltb j (i + n) && not (is_empty (s.free_head j))) ≡ false
unfolding find_level
find_level-none zero i s e j = ground arith
find_level-none (suc n) i s e j = elim (List-cases (s.free_head i)) [
  | inl z ↦
      let e' : find_level n (i + 1) s ≡ none = ground (arith, e, z) in
      elim (Bool-cases (i == j)) [
        | inl q ↦
            let y : s.free_head j ≡ [] = ap s.free_head (sym ((==_iff i j).0 q)) ∙ z in
            ground (arith, y)
        | inr q ↦ ground (arith, q, find_level-none n (i + 1) s e' j)
      ]
  | inr (x, r, z) ↦ ground (arith, e, z)
]

pub double_pow : (q i : ℕ) → q * 2 ^ suc i ≡ 2 * q * 2 ^ i
double_pow q i = grind (arith, two-pow-succ i)

pub odd_pow : (q i : ℕ) → (2 * q + 1) * 2 ^ i ≡ 2 * q * 2 ^ i + 2 ^ i
odd_pow q i = grind arith

IsAligned-half : (ch i : ℕ) → IsAligned ch (suc i) → IsAligned ch i
IsAligned-half ch i (q, e) = (2 * q, e ∙ double_pow q i)

IsAligned-spare : (ch i : ℕ) → IsAligned ch (suc i) → IsAligned (ch + 2 ^ i) i
IsAligned-spare ch i (q, e) = (2 * q + 1, omega (arith, e, double_pow q i, odd_pow q i))

split_chunk-Ties :
    (n order ch : ℕ) (s : Pages) (out : ℕ → ℕ)
    → order + n < freelist_size
    → IsAligned ch (order + n)
    → Ties s (λ v. out v + holds ch (order + n) v)
    → let s' = split_chunk n order ch s in
      IsAligned ch order
      × Ties s' (λ v. out v + holds ch order v)
      × (s'.alloc_bitmap ≡ s.alloc_bitmap)
unfolding split_chunk link_chunk
split_chunk-Ties zero order ch s out l a w =
    let z : order + 0 ≡ order = omega arith in
    (subst (IsAligned ch) z a, subst (λ i. Ties s (λ v. out v + holds ch i v)) z w, refl)
split_chunk-Ties (suc n) order ch s out l a w =
    let z : order + suc n ≡ suc (order + n) = omega arith in
    let a' = subst (IsAligned ch) z a in
    let spare = ch + 2 ^ (order + n) in
    let w' =
      Ties-same s (λ v. out v + holds ch (order + suc n) v)
        (λ v. out v + holds ch (order + n) v + holds spare (order + n) v)
        (λ v. omega (arith, ap (λ i. holds ch i v) z, holds_halves ch (order + n) v)) w in
    let linked =
      link_chunk-Ties spare (order + n) s (λ v. out v + holds ch (order + n) v) (omega arith)
        (IsAligned-spare ch (order + n) a') w' in
    split_chunk-Ties n order ch (link_chunk spare (order + n) s) out (omega arith)
      (IsAligned-half ch (order + n) a') linked

-- What alloc_pages does: with no chunk of the order or above nothing changes; else the chunk is
-- aligned, was free in all its pages, and now is allocated, with no other page changed.
abbrev pub Allocated : ℕ → Pages → Option ℕ × Pages → Type 0
Allocated order s (none, s') =
    (s' ≡ s)
    × ((j : ℕ) → (leb order j && ltb j freelist_size && not (is_empty (s.free_head j))) ≡ false)
Allocated order s (some ch, s') =
    IsSound s'
    × IsAligned ch order
    × ((v : ℕ) → (leb ch v && ltb v (ch + 2 ^ order) && allocated_in_map s.alloc_bitmap v) ≡ false)
    × ((v : ℕ)
        → allocated_in_map s'.alloc_bitmap v
          ≡ (allocated_in_map s.alloc_bitmap v || (leb ch v && ltb v (ch + 2 ^ order))))

take_chunk :
    (order i ch : ℕ) (s : Pages)
    → order ≤ i
    → i < freelist_size
    → member ch (s.free_head i) ≡ true
    → IsSound s
    → let s1 = record s { free_head = update s.free_head i (remove ch (s.free_head i)) } in
      let s2 = split_chunk (i - order) order ch s1 in
      Allocated order s
        (some ch, record s2 { alloc_bitmap = map_alloc ch (2 ^ order) s2.alloc_bitmap })
take_chunk order i ch s l k m w =
    let s1 = record s { free_head = update s.free_head i (remove ch (s.free_head i)) } in
    let s2 = split_chunk (i - order) order ch s1 in
    let z : i ≡ order + (i - order) = omega arith in
    let (lev, al) = All-member (IsHead s.level i) ch (s.free_head i) (w.heads i k) m in
    let w1 = unlink_chunk-Ties ch i s (λ v. 0) k m w in
    let (a, w2, b) =
      split_chunk-Ties (i - order) order ch s1 (λ v. 0) (omega arith) (subst (IsAligned ch) z al)
        (subst (λ n. Ties s1 (λ v. 0 + holds ch n v)) z w1) in
    let now = λ (v : ℕ).
      map_alloc_lem ch (2 ^ order) s2.alloc_bitmap v
      ∙ ap (λ x. allocated_in_map x v || (leb ch v && ltb v (ch + 2 ^ order))) b in
    (
      record {
        exact = λ v. ground (arith, w2.exact v, now v, ap (λ x. allocated_in_map x v) b);
        heads = w2.heads;
      },
      a,
      λ v. ground (arith, w2.exact v, ap (λ x. allocated_in_map x v) b),
      now,
    )

-- On sound lists alloc_pages does one of these.
pub alloc_pages-IsSound :
    (order : ℕ) (s : Pages)
    → order < freelist_size
    → IsSound s
    → Allocated order s (alloc_pages order s)
unfolding alloc_pages
alloc_pages-IsSound order s l w = elim (Option-cases (find_level (freelist_size - order) order s)) [
  | inl e ↦
      rw (e, alloc_pages)
        (refl, λ j. ground (arith, find_level-none (freelist_size - order) order s e j))
  | inr ((i, ch), e) ↦
      let (a, b, m) = find_level_found (freelist_size - order) order i ch s e in
      rw (e, alloc_pages) (take_chunk order i ch s a (omega arith) m w)
]
