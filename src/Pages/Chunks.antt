-- ===== src/Pages/Chunks.antt =====
-- xen/mm.c: how many free chunks of the lists hold a page.
use native.Mathlib.Nat.{two-pow-succ, one-le-pow}
use rumpuser_xen.Prelude.{
  ℕ, zero, suc, ◌+◌, ◌^◌, ◌≤◌, ◌<◌, ◌≡◌, refl, sym, ap, ◌∙◌, inl, inr, true, ◌&&◌, List, [], ◌∷◌,
  arith, ◌==◌, ltb, leb, if◌then◌else◌, update, update_self, update_ne, member, remove, Bool-cases,
  ==_iff,
}

-- 1 if the chunk of level `i` at page `p` holds the page `v`, else 0.
abbrev pub holds : ℕ → ℕ → ℕ → ℕ
holds p i v = if leb p v && ltb v (p + 2 ^ i) then 1 else 0

abbrev pub hits : ℕ → List ℕ → ℕ → ℕ
hits i [] v = 0
hits i (p ∷ ps) v = holds p i v + hits i ps v

-- How many chunks of the first `n` lists hold a page.
unfoldable pub cover : ℕ → (ℕ → List ℕ) → ℕ → ℕ
cover zero free v = 0
cover (suc n) free v = hits n (free n) v + cover n free v

pub holds_self : (p i : ℕ) → holds p i p ≡ 1
holds_self p i = ground (arith, one-le-pow i 2)

-- A chunk is its two halves.
pub holds_halves : (p i v : ℕ) → holds p (suc i) v ≡ holds p i v + holds (p + 2 ^ i) i v
holds_halves p i v = ground (arith, two-pow-succ i)

pub hits-remove :
    (i p : ℕ) (ps : List ℕ) (v : ℕ)
    → member p ps ≡ true
    → hits i (remove p ps) v + holds p i v ≡ hits i ps v
hits-remove i p [] v m = cc
hits-remove i p (q ∷ ps) v m = elim (Bool-cases (q == p)) [
  | inl e ↦ rw e (ap (λ k. hits i ps v + holds k i v) (sym ((==_iff q p).0 e)) ∙ omega arith)
  | inr e ↦ let ih = hits-remove i p ps v (ground (arith, e)) in rw e (omega (arith, ih))
]

cover_beyond :
    (n i : ℕ) (free : ℕ → List ℕ) (xs : List ℕ) (v : ℕ)
    → n ≤ i
    → cover n (update free i xs) v ≡ cover n free v
unfolding cover
cover_beyond zero i free xs v l = refl
cover_beyond (suc n) i free xs v l =
    let e : update free i xs n ≡ free n = update_ne free i n xs (omega arith) in
    let ih = cover_beyond n i free xs v (omega arith) in rw e (ap (λ k. hits n (free n) v + k) ih)

pub cover-update :
    (n i : ℕ) (free : ℕ → List ℕ) (xs : List ℕ) (v : ℕ)
    → i < n
    → cover n (update free i xs) v + hits i (free i) v ≡ cover n free v + hits i xs v
unfolding cover
cover-update zero i free xs v l = absurd (omega arith)
cover-update (suc n) i free xs v l = elim (Bool-cases (i == n)) [
  | inl e ↦
      let q = (==_iff i n).0 e in
      let s : update free i xs n ≡ xs = ap (update free i xs) (sym q) ∙ update_self free i xs in
      let h = ap (λ k. hits k (free k) v) q in
      let h' = ap (λ k. hits k xs v) q in
      let b = cover_beyond n i free xs v (omega (arith, q)) in rw s (omega (arith, b, h, h'))
  | inr e ↦
      let s : update free i xs n ≡ free n = update_ne free i n xs (ground (arith, e)) in
      let ih = cover-update n i free xs v (ground (arith, e)) in rw s (omega (arith, ih))
]

pub hits-le-cover :
    (n i : ℕ) (free : ℕ → List ℕ) (v : ℕ) → i < n → hits i (free i) v ≤ cover n free v
unfolding cover
hits-le-cover zero i free v l = absurd (omega arith)
hits-le-cover (suc n) i free v l = elim (Bool-cases (i == n)) [
  | inl e ↦ omega (arith, ap (λ k. hits k (free k) v) ((==_iff i n).0 e))
  | inr e ↦ omega (arith, hits-le-cover n i free v (ground (arith, e)))
]

-- A page that is held is held by some chunk.
pub hits_some :
    (i : ℕ) (ps : List ℕ) (v : ℕ)
    → 0 < hits i ps v
    → (p : ℕ) × (member p ps ≡ true) × (p ≤ v) × (v < p + 2 ^ i)
hits_some i [] v h = absurd (omega arith)
hits_some i (p ∷ ps) v h = elim (Bool-cases (leb p v && ltb v (p + 2 ^ i))) [
  | inl e ↦ (p, ground arith, ground (arith, e), ground (arith, e))
  | inr e ↦ let (q, m, a, b) = hits_some i ps v (ground (arith, e)) in (q, ground (arith, m), a, b)
]

pub cover_some :
    (n : ℕ) (free : ℕ → List ℕ) (v : ℕ)
    → 0 < cover n free v
    → (i p : ℕ) × (i < n) × (member p (free i) ≡ true) × (p ≤ v) × (v < p + 2 ^ i)
unfolding cover
cover_some zero free v h = absurd (omega arith)
cover_some (suc n) free v h = elim (Bool-cases (hits n (free n) v == 0)) [
  | inl e ↦
      let (i, p, l, m, a, b) = cover_some n free v (ground (arith, e)) in
      (i, p, omega arith, m, a, b)
  | inr e ↦
      let (p, m, a, b) = hits_some n (free n) v (ground (arith, e)) in (n, p, omega arith, m, a, b)
]
