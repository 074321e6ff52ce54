-- ===== src/GrantMap/Places.antt =====
-- xen/gntmap.c: the places that the addresses of a range of pages have in the column of the entries.
use mathlib.Core.Path.{subst}
use rumpuser_xen.Prelude.{
  ℕ, zero, suc, ◌+◌, ◌≤◌, ◌<◌, ◌≡◌, ◌≢◌, refl, ap, ◌∙◌, inl, inr, true, false, List, [], ◌∷◌, ◌++◌,
  arith, ◌==◌, if◌then◌else◌, member, Distinct, member-append, Bool-cases, ==_iff, ◌^◌, ◌*◌, All,
}
use rumpuser_xen.GrantMap.{page_at}
use rumpuser_xen.GrantMap.Column.{fill, clear}

-- The column with these addresses taken out.
abbrev pub erase : List ℕ → List ℕ → List ℕ
erase ms [] = []
erase ms (x ∷ xs) = (if member x ms then 0 else x) ∷ erase ms xs

abbrev pub count : ℕ → List ℕ → ℕ
count a [] = 0
count a (x ∷ xs) = if x == a then suc (count a xs) else count a xs

pub member-count : (a : ℕ) (xs : List ℕ) → member a xs ≡ false → count a xs ≡ 0
member-count a [] m = refl
member-count a (x ∷ xs) m = ground (arith, member-count a xs)

pub clear-count : (a b : ℕ) (xs : List ℕ) → b ≢ 0 → count b (clear a xs) ≤ count b xs
clear-count a b [] n = omega arith
clear-count a b (x ∷ xs) n = ground (arith, clear-count a b xs n)

pub fill-count : (a b : ℕ) (xs : List ℕ) → b ≢ 0 → a ≢ b → count b (fill a xs) ≤ count b xs
fill-count a b [] n k = omega arith
fill-count a b (x ∷ xs) n k = ground (arith, fill-count a b xs n k)

pub fill-count_self : (a : ℕ) (xs : List ℕ) → a ≢ 0 → count a (fill a xs) ≤ suc (count a xs)
fill-count_self a [] n = omega arith
fill-count_self a (x ∷ xs) n = ground (arith, fill-count_self a xs n)

pub clear-member : (a b : ℕ) (xs : List ℕ) → b ≢ 0 → a ≢ b → member b (clear a xs) ≡ member b xs
clear-member a b [] n k = refl
clear-member a b (x ∷ xs) n k = ground (arith, clear-member a b xs n k)

pub fill-member : (a b : ℕ) (xs : List ℕ) → b ≢ 0 → a ≢ b → member b (fill a xs) ≡ member b xs
fill-member a b [] n k = refl
fill-member a b (x ∷ xs) n k = ground (arith, fill-member a b xs n k)

pub fill-member_self : (a : ℕ) (xs : List ℕ) → member 0 xs ≡ true → member a (fill a xs) ≡ true
fill-member_self a [] m = cc
fill-member_self a (x ∷ xs) m = ground (arith, fill-member_self a xs)

-- Without its one place the address is erased.
pub clear-erase :
    (a : ℕ) (ms xs : List ℕ)
    → count a xs ≤ 1
    → a ≢ 0
    → member 0 ms ≡ false
    → member a ms ≡ false
    → erase ms (clear a xs) ≡ erase (a ∷ ms) xs
clear-erase a ms [] c n z m = refl
clear-erase a ms (x ∷ xs) c n z m = elim (Bool-cases (x == a)) [
  | inl e ↦ ground (arith, erase_none a ms xs)
  | inr e ↦ ground (arith, clear-erase a ms xs)
]
  where
    erase_none : (a : ℕ) (ms xs : List ℕ) → count a xs ≡ 0 → erase (a ∷ ms) xs ≡ erase ms xs
    erase_none a ms [] h = refl
    erase_none a ms (x ∷ xs) h = ground (arith, erase_none a ms xs)

pub erase_absent :
    (a : ℕ) (ms xs : List ℕ) → member a xs ≡ false → erase (ms ++ (a ∷ [])) xs ≡ erase ms xs
erase_absent a ms [] f = refl
erase_absent a ms (x ∷ xs) f = ground (arith, member-append x ms (a ∷ []), erase_absent a ms xs)

-- A new address in a free place is erased with the rest.
pub fill-erase :
    (a : ℕ) (ms xs : List ℕ)
    → member a xs ≡ false
    → erase (ms ++ (a ∷ [])) (fill a xs) ≡ erase ms xs
fill-erase a ms [] f = refl
fill-erase a ms (x ∷ xs) f = ground (
  arith,
  member-append x ms (a ∷ []),
  member-append a ms (a ∷ []),
  erase_absent a ms xs,
  fill-erase a ms xs,
)

-- The addresses of `n` pages from page `i` of a range on.
abbrev pub pages : ℕ → ℕ → ℕ → List ℕ
pages addr zero i = []
pages addr (suc n) i = page_at addr i ∷ pages addr n (i + 1)

pub pages_snoc :
    (addr n i : ℕ) → pages addr (suc n) i ≡ pages addr n i ++ (page_at addr (i + n) ∷ [])
pages_snoc addr zero i = ap (λ k. page_at addr k ∷ []) (omega arith)
pages_snoc addr (suc n) i =
    ap (λ l. page_at addr i ∷ l)
      (pages_snoc addr n (i + 1)
        ∙ ap (λ k. pages addr n (i + 1) ++ (page_at addr k ∷ [])) (omega arith))

pub page_at_lem : (addr i : ℕ) → addr + 4096 * i < 2 ^ 64 → page_at addr i ≡ addr + 4096 * i
page_at_lem addr i l = omega arith

-- A range that does not wrap around has different addresses.
pub member-pages :
    (addr n i k : ℕ)
    → k < i
    → addr + 4096 * (i + n) ≤ 2 ^ 64
    → member (page_at addr k) (pages addr n i) ≡ false
member-pages addr zero i k l b = refl
member-pages addr (suc n) i k l b = ground (
  arith,
  page_at_lem addr i (omega arith),
  page_at_lem addr k (omega arith),
  member-pages addr n (i + 1) k (omega arith) (omega arith),
)

pub pages_suc : (addr i : ℕ) → pages addr (i + 1) 0 ≡ pages addr i 0 ++ (page_at addr i ∷ [])
pages_suc addr i =
    let one : i + 1 ≡ suc i = omega arith in
    let same : 0 + i ≡ i = omega arith in
    ap (λ k. pages addr k 0) one
    ∙ pages_snoc addr i 0
    ∙ ap (λ k. pages addr i 0 ++ (page_at addr k ∷ [])) same

pub page_nonzero : (addr i : ℕ) → 0 < addr → addr + 4096 * i < 2 ^ 64 → page_at addr i ≢ 0
page_nonzero addr i p b e = omega (arith, page_at_lem addr i b)

-- An address that stands in just one place.
abbrev pub Once : List ℕ → ℕ → Type 0
Once xs b = (b ≢ 0) × (count b xs ≤ 1) × (member b xs ≡ true)

pub All-apart :
    (P Q : ℕ → Type 0) (a : ℕ) (ms : List ℕ)
    → ((b : ℕ) → a ≢ b → P b → Q b)
    → member a ms ≡ false
    → All P ms
    → All Q ms
All-apart P Q a [] f m h = tt
All-apart P Q a (x ∷ ms) f m h =
    (f x (λ e. ground arith) h.0, All-apart P Q a ms f (ground arith) h.1)

pub Once-clear : (a b : ℕ) (xs : List ℕ) → a ≢ b → Once xs b → Once (clear a xs) b
Once-clear a b xs n (z, c, m) =
    (z, omega (arith, clear-count a b xs z), clear-member a b xs z n ∙ m)

pub Once-fill : (a b : ℕ) (xs : List ℕ) → a ≢ b → Once xs b → Once (fill a xs) b
Once-fill a b xs n (z, c, m) = (z, omega (arith, fill-count a b xs z n), fill-member a b xs z n ∙ m)

pub Distinct-pages : (addr n i : ℕ) → addr + 4096 * (i + n) ≤ 2 ^ 64 → Distinct (pages addr n i)
Distinct-pages addr zero i b = tt
Distinct-pages addr (suc n) i b = (
  member-pages addr n (i + 1) i (omega arith) (omega arith),
  Distinct-pages addr n (i + 1) (omega arith),
)

pub erase_nil : (xs : List ℕ) → erase [] xs ≡ xs
erase_nil [] = refl
erase_nil (x ∷ xs) = ap (λ l. x ∷ l) (erase_nil xs)

pub Once-nonzero : (xs ms : List ℕ) → All (Once xs) ms → member 0 ms ≡ false
Once-nonzero xs [] h = refl
Once-nonzero xs (b ∷ ms) (h, r) = ground (arith, h.0, Once-nonzero xs ms r)

pub Once-apart :
    (a : ℕ) (xs ms : List ℕ) → member a xs ≡ false → All (Once xs) ms → member a ms ≡ false
Once-apart a xs [] f h = refl
Once-apart a xs (b ∷ ms) f ((z, c, m), r) = elim (Bool-cases (b == a)) [
  | inl e ↦ let q : member a xs ≡ true = subst (λ k. member k xs ≡ true) ((==_iff b a).0 e) m in cc
  | inr e ↦ ground (arith, Once-apart a xs ms f r)
]

pub fill_apart :
    (a b : ℕ) (xs : List ℕ) → a ≢ b → member b xs ≡ false → member b (fill a xs) ≡ false
fill_apart a b [] n f = refl
fill_apart a b (x ∷ xs) n f = ground (arith, fill_apart a b xs n)

-- The new page's address stands in the column once.
pub Once-fill_self :
    (a : ℕ) (xs : List ℕ) → a ≢ 0 → member a xs ≡ false → member 0 xs ≡ true → Once (fill a xs) a
Once-fill_self a xs z f m =
    (z, omega (arith, fill-count_self a xs z, member-count a xs f), fill-member_self a xs m)
