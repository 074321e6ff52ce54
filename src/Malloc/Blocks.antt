-- ===== src/Malloc/Blocks.antt =====
-- lib/memalloc.c: which bytes the free blocks and those in use hold.
use native.Mathlib.Nat.{one-le-pow, mul-div_cancel}
use rumpuser_xen.Prelude.{
  ℕ, zero, suc, ◌+◌, ◌-◌, ◌*◌, ◌/◌, ◌^◌, ◌≤◌, ◌<◌, ◌≡◌, refl, sym, ap, ◌∙◌, inl, inr, ◌&&◌, List,
  [], ◌∷◌, arith, ◌==◌, ltb, leb, if◌then◌else◌, update, update_self, update_ne, All, Bool-cases,
  ==_iff, ne_of_==,
}
use mathlib.Core.Path.{subst}
use rumpuser_xen.Pages.{allocated_in_map}
use rumpuser_xen.Pages.Chunks.{holds, hits, cover, cover-update, hits-le-cover}
use rumpuser_xen.Pages.Cover.{IsSound}
use rumpuser_xen.Pages.Neighbours.{pow_add}
use rumpuser_xen.Malloc.{Heap, nbuckets, pagebucket, carve}
use rumpuser_xen.Malloc.Sizes.{IsBlock}

-- The lists by the logarithm of the size.
abbrev pub by_shift : (ℕ → List ℕ) → ℕ → List ℕ
by_shift nextf i = if ltb i 5 then [] else nextf (i - 5)

-- How many free blocks hold a byte.
abbrev pub free_at : (ℕ → List ℕ) → ℕ → ℕ
free_at nextf v = cover 35 (by_shift nextf) v

-- How many blocks in use, each with its bucket, hold a byte.
abbrev pub used_at : List (ℕ × ℕ) → ℕ → ℕ
used_at [] v = 0
used_at ((op, b) ∷ live) v = holds op (b + 5) v + used_at live v

-- No two blocks share a byte, all lie in pages that are allocated, and the free ones are aligned.
pub record IsHeap (h : Heap) (live : List (ℕ × ℕ)) : Type 0 where
  pub sound : IsSound h.pages
  pub apart :
      (v : ℕ)
      → free_at h.nextf v + used_at live v
        ≤ (if allocated_in_map h.pages.alloc_bitmap (v / 4096) then 1 else 0)
  pub aligned : (b : ℕ) → All (IsBlock b) (h.nextf b)

cover_same : (n : ℕ) (f g : ℕ → List ℕ) (v : ℕ) → ((i : ℕ) → f i ≡ g i) → cover n f v ≡ cover n g v
unfolding cover
cover_same zero f g v h = refl
cover_same (suc n) f g v h = omega (arith, ap (λ xs. hits n xs v) (h n), cover_same n f g v h)

-- A list is exchanged.
pub free_at-update :
    (nextf : ℕ → List ℕ) (b : ℕ) (xs : List ℕ) (v : ℕ)
    → b < nbuckets
    → free_at (update nextf b xs) v + hits (b + 5) (nextf b) v ≡ free_at nextf v + hits (b + 5) xs v
free_at-update nextf b xs v l =
    let same =
      cover_same 35 (by_shift (update nextf b xs)) (update (by_shift nextf) (b + 5) xs) v
        (λ i. ground arith) in
    let here : by_shift nextf (b + 5) ≡ nextf b =
      let z : b + 5 - 5 ≡ b = omega arith in ground (arith, ap nextf z) in
    omega (
      arith,
      same,
      cover-update 35 (b + 5) (by_shift nextf) xs v (omega (arith, l)),
      ap (λ ys. hits (b + 5) ys v) here,
    )

pub hits-le-free_at :
    (nextf : ℕ → List ℕ) (b v : ℕ) → b < nbuckets → hits (b + 5) (nextf b) v ≤ free_at nextf v
hits-le-free_at nextf b v l =
    let here : by_shift nextf (b + 5) ≡ nextf b =
      let z : b + 5 - 5 ≡ b = omega arith in ground (arith, ap nextf z) in
    omega (
      arith,
      hits-le-cover 35 (b + 5) (by_shift nextf) v (omega (arith, l)),
      ap (λ ys. hits (b + 5) ys v) here,
    )

pub aligned-update :
    (nextf : ℕ → List ℕ) (b : ℕ) (xs : List ℕ)
    → All (IsBlock b) xs
    → ((c : ℕ) → All (IsBlock c) (nextf c))
    → (c : ℕ) → All (IsBlock c) (update nextf b xs c)
aligned-update nextf b xs a h c = elim (Bool-cases (b == c)) [
  | inl e ↦
      subst (λ k. All (IsBlock k) (update nextf b xs k)) ((==_iff b c).0 e)
        (subst (All (IsBlock b)) (sym (update_self nextf b xs)) a)
  | inr e ↦ subst (All (IsBlock c)) (sym (update_ne nextf b c xs (ne_of_== b c e))) (h c)
]

-- The blocks that are carved hold their whole range once.
pub carve-hits :
    (n op i v : ℕ)
    → hits i (carve n op (2 ^ i)) v ≡ (if leb op v && ltb v (op + n * 2 ^ i) then 1 else 0)
carve-hits zero op i v = ground arith
carve-hits (suc n) op i v =
    let e : suc n * 2 ^ i ≡ 2 ^ i + n * 2 ^ i = grind arith in
    ground (arith, carve-hits n (op + 2 ^ i) i v, e)

pub carve-aligned : (n b q : ℕ) → All (IsBlock b) (carve n (q * 2 ^ (b + 5)) (2 ^ (b + 5)))
carve-aligned zero b q = tt
carve-aligned (suc n) b q =
    let e : suc q * 2 ^ (b + 5) ≡ q * 2 ^ (b + 5) + 2 ^ (b + 5) = grind arith in
    (
      (q, refl),
      subst (λ p. All (IsBlock b) (carve n p (2 ^ (b + 5)))) e (carve-aligned n b (suc q)),
    )

-- How a page is divided.
pub page_blocks :
    (b : ℕ)
    → b < pagebucket
    → (4096 / 2 ^ (b + 5) ≡ 2 ^ (7 - b))
      × (4096 / 2 ^ (7 - b) ≡ 2 ^ (b + 5))
      × (2 ^ (7 - b) * 2 ^ (b + 5) ≡ 4096)
page_blocks b l =
    let z : (7 - b) + (b + 5) ≡ 12 = omega (arith, l) in
    let z' : (b + 5) + (7 - b) ≡ 12 = omega (arith, l) in
    let whole : 2 ^ (7 - b) * 2 ^ (b + 5) ≡ 4096 =
      sym (pow_add (7 - b) (b + 5)) ∙ ap (λ k. 2 ^ k) z in
    let whole' : 2 ^ (b + 5) * 2 ^ (7 - b) ≡ 4096 =
      sym (pow_add (b + 5) (7 - b)) ∙ ap (λ k. 2 ^ k) z' in
    (
      ap (λ k. k / 2 ^ (b + 5)) (sym whole)
          ∙ mul-div_cancel (2 ^ (7 - b)) (one-le-pow (b + 5) 2 (omega arith)),
      ap (λ k. k / 2 ^ (7 - b)) (sym whole')
          ∙ mul-div_cancel (2 ^ (b + 5)) (one-le-pow (7 - b) 2 (omega arith)),
      whole,
    )
