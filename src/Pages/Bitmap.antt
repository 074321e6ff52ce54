-- ===== src/Pages/Bitmap.antt =====
-- xen/mm.c: the allocation bitmap as a set of pages, and how `map_alloc` adds a range to it.
use Prim.Native.Nat.{bit_and, bit_or}
use rumpuser_xen.Prelude.{
  ℕ, zero, suc, ◌+◌, ◌-◌, ◌/◌, ◌%◌, ◌^◌, ◌<◌, ◌≡◌, ap, ◌∙◌, inl, inr, Bool, true, false, not, ◌&&◌,
  ◌||◌, arith, ◌==◌, ltb, leb, if◌then◌else◌, update, Bool-cases, ==_iff, bit, bit-and, bit-or,
  bit-low_mask, bit-high_mask, test_mask,
}
use rumpuser_xen.Pages.{allocated_in_map, fill_words, map_alloc}

pub allocated-bit :
    (words : ℕ → ℕ) (q : ℕ) → allocated_in_map words q ≡ bit (words (q / 64)) (q % 64)
unfolding allocated_in_map
allocated-bit words q = test_mask (words (q / 64)) (q % 64)

pub ltb-not-leb : (a b : ℕ) → ltb a b ≡ not (leb b a)
ltb-not-leb a b = ground arith

pub leb-not-ltb : (a b : ℕ) → leb a b ≡ not (ltb b a)
leb-not-ltb a b = ground arith

pub fill_words_lem :
    (v n idx : ℕ) (words : ℕ → ℕ) (j : ℕ)
    → fill_words v n idx words j ≡ (if leb idx j && ltb j (idx + n) then v else words j)
unfolding fill_words
fill_words_lem v zero idx words j = ground arith
fill_words_lem v (suc n) idx words j =
    ground (arith, fill_words_lem v n (idx + 1) (update words idx v) j)

-- The bits of the words that are written, by the place of the word.
pub bit_ones : (k : ℕ) → k < 64 → bit (2 ^ 64 - 1) k ≡ true
bit_ones k l = bit-low_mask 64 k ∙ ground (arith, l)

pub bit_zero : (k : ℕ) → bit 0 k ≡ false
bit_zero k = bit-low_mask 0 k ∙ ground arith

-- The arithmetic of the two cases: which bits of the word of a page lie in the range.
pub within_range :
    (first n q : ℕ)
    → first / 64 ≡ (first + n) / 64
    → ((first / 64 == q / 64) && (leb (first % 64) (q % 64) && ltb (q % 64) ((first + n) % 64)))
      ≡ (leb first q && ltb q (first + n))
within_range first n q e = ground arith

map_alloc-bit_within :
    (first n : ℕ) (words : ℕ → ℕ) (q : ℕ)
    → (first / 64 == (first + n) / 64) ≡ true
    → bit (map_alloc first n words (q / 64)) (q % 64) ≡ (
        bit (words (q / 64)) (q % 64)
        || ((first / 64 == q / 64)
            && (leb (first % 64) (q % 64) && ltb (q % 64) ((first + n) % 64))))
unfolding map_alloc
map_alloc-bit_within first n words q e =
    let k = q % 64 in
    let hi = bit-high_mask 64 (first % 64) k (omega arith) (omega arith) in
    let lo = bit-low_mask ((first + n) % 64) k in
    let within = bit_and (2 ^ ((first + n) % 64) - 1) (2 ^ 64 - 2 ^ (first % 64)) in
    elim (Bool-cases (first / 64 == q / 64)) [
      | inl f ↦
          let w : words (first / 64) ≡ words (q / 64) =
            ap words ((==_iff (first / 64) (q / 64)).0 f) in
          let o = bit-or (words (first / 64)) within k in
          let a = bit-and (2 ^ ((first + n) % 64) - 1) (2 ^ 64 - 2 ^ (first % 64)) k in
          rw e (rw f (o ∙ ground (arith, ap (λ x. bit x k) w, a, hi, lo)))
      | inr f ↦ rw e (rw f (ground arith))
    ]

-- The words between the first and the last, and these two, for a range over several words.
unfoldable pub across : ℕ → ℕ → ℕ → Bool
across first n q =
    ((first / 64 == q / 64) && leb (first % 64) (q % 64))
    || (ltb (first / 64) (q / 64) && ltb (q / 64) ((first + n) / 64))
    || (((first + n) / 64 == q / 64) && ltb (q % 64) ((first + n) % 64))

pub across_range :
    (first n q : ℕ)
    → (first / 64 == (first + n) / 64) ≡ false
    → across first n q ≡ (leb first q && ltb q (first + n))
unfolding across
across_range first n q e = ground arith

-- What the loop over whole words makes of a word.
module _ (v : ℕ) (words : ℕ → ℕ) (c e x : ℕ) (l : c < e) where
  unfoldable pub filled : ℕ → ℕ
  filled = fill_words v (e - c - 1) (c + 1) (update words c x)

  filled_first : filled c ≡ x
  unfolding filled
  filled_first = fill_words_lem v (e - c - 1) (c + 1) (update words c x) c ∙ ground (arith, l)

  pub filled_last : filled e ≡ words e
  unfolding filled
  filled_last = fill_words_lem v (e - c - 1) (c + 1) (update words c x) e ∙ ground (arith, l)

  pub filled_word :
      (y j k : ℕ)
      → bit (update filled e y j) k ≡ (
          if e == j
          then bit y k
          else if c == j
          then bit x k
          else if ltb c j && ltb j e
          then bit v k
          else bit (words j) k)
  unfolding filled
  filled_word y j k = ground (arith, l, fill_words_lem v (e - c - 1) (c + 1) (update words c x) j)

-- How the bits of a word come together, of a first word with the bits `hi` set, a last one with the bits
-- `lo` set and those between that are all set.
joined_or :
    (c e j : ℕ) (y x v w wc we lo hi : Bool)
    → y ≡ (we || lo)
    → x ≡ (wc || hi)
    → v ≡ true
    → (e ≡ j → we ≡ w)
    → (c ≡ j → wc ≡ w)
    → c < e
    → (if e == j then y else if c == j then x else if ltb c j && ltb j e then v else w)
      ≡ (w || (((c == j) && hi) || (ltb c j && ltb j e) || ((e == j) && lo)))
joined_or c e j y x v w wc we lo hi hy hx hv he hc l = elim (Bool-cases (e == j)) [
  | inl a ↦ ground (arith, he ((==_iff e j).0 a))
  | inr a ↦ elim (Bool-cases (c == j)) [
    | inl b ↦ ground (arith, hc ((==_iff c j).0 b))
    | inr b ↦ ground arith
  ]
]

map_alloc-bit-across :
    (first n : ℕ) (words : ℕ → ℕ) (q : ℕ)
    → (first / 64 == (first + n) / 64) ≡ false
    → bit (map_alloc first n words (q / 64)) (q % 64)
      ≡ (bit (words (q / 64)) (q % 64) || across first n q)
unfolding map_alloc across filled
map_alloc-bit-across first n words q d =
    let c = first / 64 in
    let e = (first + n) / 64 in
    let j = q / 64 in
    let k = q % 64 in
    let v = 2 ^ 64 - 1 in
    let x = bit_or (words c) (2 ^ 64 - 2 ^ (first % 64)) in
    let l : c < e = ground (arith, d) in
    let last = filled_last v words c e x l in
    let y = bit_or (filled v words c e x l e) (2 ^ ((first + n) % 64) - 1) in
    let bx =
      bit-or (words c) (2 ^ 64 - 2 ^ (first % 64)) k
      ∙ ap (λ b. bit (words c) k || b)
          (bit-high_mask 64 (first % 64) k (omega arith) (omega arith)) in
    let by =
      bit-or (filled v words c e x l e) (2 ^ ((first + n) % 64) - 1) k
      ∙ ap (λ w. bit w k || bit (2 ^ ((first + n) % 64) - 1) k) last
      ∙ ap (λ b. bit (words e) k || b) (bit-low_mask ((first + n) % 64) k) in
    rw d (
      filled_word v words c e x l y j k
      ∙ joined_or c e j (bit y k) (bit x k) (bit v k) (bit (words j) k) (bit (words c) k)
          (bit (words e) k) (ltb k ((first + n) % 64)) (leb (first % 64) k) by bx
          (bit_ones k (omega arith)) (ap (λ i. bit (words i) k)) (ap (λ i. bit (words i) k)) l)

-- map_alloc sets the bits of the range and no other.
pub map_alloc_lem :
    (first n : ℕ) (words : ℕ → ℕ) (q : ℕ)
    → allocated_in_map (map_alloc first n words) q
      ≡ (allocated_in_map words q || (leb first q && ltb q (first + n)))
map_alloc_lem first n words q =
    allocated-bit (map_alloc first n words) q ∙ elim (Bool-cases (first / 64 == (first + n) / 64)) [
      | inl e ↦ ground (
        arith,
        map_alloc-bit_within first n words q e,
        within_range first n q ((==_iff (first / 64) ((first + n) / 64)).0 e),
        allocated-bit words q,
      )
      | inr e ↦
          map_alloc-bit-across first n words q e
          ∙ ground (arith, across_range first n q e, allocated-bit words q)
    ]
