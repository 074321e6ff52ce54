-- ===== src/Pages/Clear.antt =====
-- xen/mm.c: how `map_free` takes a range out of the allocation bitmap.
use Prim.Native.Nat.{bit_and, bit_or}
use rumpuser_xen.Prelude.{
  ℕ, ◌+◌, ◌-◌, ◌/◌, ◌%◌, ◌^◌, ◌<◌, ◌≡◌, ap, ◌∙◌, inl, inr, Bool, true, false, not, ◌&&◌, ◌||◌,
  arith, ◌==◌, ltb, leb, if◌then◌else◌, Bool-cases, ==_iff, bit, bit-and, bit-or, bit-low_mask,
  bit-high_mask,
}
use rumpuser_xen.Pages.{allocated_in_map, map_free}
use rumpuser_xen.Pages.Bitmap.{
  allocated-bit, ltb-not-leb, leb-not-ltb, bit_zero, within_range, across, across_range, filled,
  filled_last, filled_word,
}

-- The same for the words of map_free, which clears.
joined_and :
    (c e j : ℕ) (y x v w wc we lo hi : Bool)
    → y ≡ (we && not lo)
    → x ≡ (wc && not hi)
    → v ≡ false
    → (e ≡ j → we ≡ w)
    → (c ≡ j → wc ≡ w)
    → c < e
    → (if e == j then y else if c == j then x else if ltb c j && ltb j e then v else w)
      ≡ (w && not (((c == j) && hi) || (ltb c j && ltb j e) || ((e == j) && lo)))
joined_and c e j y x v w wc we lo hi hy hx hv he hc l = elim (Bool-cases (e == j)) [
  | inl a ↦ ground (arith, he ((==_iff e j).0 a))
  | inr a ↦ elim (Bool-cases (c == j)) [
    | inl b ↦ ground (arith, hc ((==_iff c j).0 b))
    | inr b ↦ ground arith
  ]
]

map_free-bit_within :
    (first n : ℕ) (words : ℕ → ℕ) (q : ℕ)
    → (first / 64 == (first + n) / 64) ≡ true
    → bit (map_free first n words (q / 64)) (q % 64) ≡ (
        bit (words (q / 64)) (q % 64)
        && not (
            (first / 64 == q / 64)
            && (leb (first % 64) (q % 64) && ltb (q % 64) ((first + n) % 64))))
unfolding map_free
map_free-bit_within first n words q e =
    let k = q % 64 in
    let hi = bit-high_mask 64 ((first + n) % 64) k (omega arith) (omega arith) in
    let lo = bit-low_mask (first % 64) k in
    let outside = bit_or (2 ^ 64 - 2 ^ ((first + n) % 64)) (2 ^ (first % 64) - 1) in
    elim (Bool-cases (first / 64 == q / 64)) [
      | inl f ↦
          let w : words (first / 64) ≡ words (q / 64) =
            ap words ((==_iff (first / 64) (q / 64)).0 f) in
          let o = bit-and (words (first / 64)) outside k in
          let a = bit-or (2 ^ 64 - 2 ^ ((first + n) % 64)) (2 ^ (first % 64) - 1) k in
          rw e (rw f (o ∙ ground (arith, ap (λ x. bit x k) w, a, hi, lo)))
      | inr f ↦ rw e (rw f (ground arith))
    ]

map_free-bit-across :
    (first n : ℕ) (words : ℕ → ℕ) (q : ℕ)
    → (first / 64 == (first + n) / 64) ≡ false
    → bit (map_free first n words (q / 64)) (q % 64)
      ≡ (bit (words (q / 64)) (q % 64) && not (across first n q))
unfolding map_free across filled
map_free-bit-across first n words q d =
    let c = first / 64 in
    let e = (first + n) / 64 in
    let j = q / 64 in
    let k = q % 64 in
    let x = bit_and (words c) (2 ^ (first % 64) - 1) in
    let l : c < e = ground (arith, d) in
    let last = filled_last 0 words c e x l in
    let y = bit_and (filled 0 words c e x l e) (2 ^ 64 - 2 ^ ((first + n) % 64)) in
    let bx =
      bit-and (words c) (2 ^ (first % 64) - 1) k
      ∙ ap (λ b. bit (words c) k && b) (bit-low_mask (first % 64) k ∙ ltb-not-leb k (first % 64)) in
    let by =
      bit-and (filled 0 words c e x l e) (2 ^ 64 - 2 ^ ((first + n) % 64)) k
      ∙ ap (λ w. bit w k && bit (2 ^ 64 - 2 ^ ((first + n) % 64)) k) last
      ∙ ap (λ b. bit (words e) k && b)
          (bit-high_mask 64 ((first + n) % 64) k (omega arith) (omega arith)
            ∙ leb-not-ltb ((first + n) % 64) k) in
    rw d (
      filled_word 0 words c e x l y j k
      ∙ joined_and c e j (bit y k) (bit x k) (bit 0 k) (bit (words j) k) (bit (words c) k)
          (bit (words e) k) (ltb k ((first + n) % 64)) (leb (first % 64) k) by bx (bit_zero k)
          (ap (λ i. bit (words i) k)) (ap (λ i. bit (words i) k)) l)

-- map_free clears the bits of the range and no other.
pub map_free_lem :
    (first n : ℕ) (words : ℕ → ℕ) (q : ℕ)
    → allocated_in_map (map_free first n words) q
      ≡ (allocated_in_map words q && not (leb first q && ltb q (first + n)))
map_free_lem first n words q =
    allocated-bit (map_free first n words) q ∙ elim (Bool-cases (first / 64 == (first + n) / 64)) [
      | inl e ↦ ground (
        arith,
        map_free-bit_within first n words q e,
        within_range first n q ((==_iff (first / 64) ((first + n) / 64)).0 e),
        allocated-bit words q,
      )
      | inr e ↦
          map_free-bit-across first n words q e
          ∙ ground (arith, across_range first n q e, allocated-bit words q)
    ]
