-- ===== src/Prelude/Lists.antt =====
-- Lists measured and indexed by native numbers, and the intrusive queues (TAILQ) of the C code
-- as lists of pointers.
use Prim.Native.Nat.{◌-◌, ◌≤◌, ℕ, zero, suc, ◌+◌}
use mathlib.Core.Path.{◌≡◌, refl, ap, ◌∙◌}
use mathlib.Core.Logic.{◌≢◌, ◌⊎◌, inl, inr}
use mathlib.Core.Bool.{Bool, true, false, ◌||◌}
use mathlib.Core.List.{List, [], ◌∷◌, ◌++◌}
use mathlib.Core.Option.{Option, none, some}
use native.Mathlib.Omega.{arith}
use rumpuser_xen.Prelude.Tests.{◌==◌, if◌then◌else◌, Bool-cases}

module _ {ℓ} {A : Type ℓ} where
  abbrev pub length : List A → ℕ
  length [] = 0
  length (x ∷ xs) = suc (length xs)

  abbrev pub get_elem? : List A → ℕ → Option A
  get_elem? [] i = none
  get_elem? (x ∷ xs) zero = some x
  get_elem? (x ∷ xs) (suc i) = get_elem? xs i

  -- A write out of bounds changes nothing.
  abbrev pub set : List A → ℕ → A → List A
  set [] i v = []
  set (x ∷ xs) zero v = v ∷ xs
  set (x ∷ xs) (suc i) v = x ∷ set xs i v

  pub length-append : (xs ys : List A) → length (xs ++ ys) ≡ length xs + length ys
  length-append [] ys = omega arith
  length-append (x ∷ xs) ys = omega (arith, length-append xs ys)

abbrev pub All {ℓ κ} : {A : Type ℓ} → (A → Type κ) → List A → Type κ
All P [] = Unit
All P (x ∷ xs) = P x × All P xs

pub All-append {ℓ κ} :
    {A : Type ℓ} (P : A → Type κ) (xs ys : List A) → All P xs → All P ys → All P (xs ++ ys)
All-append P [] ys hx hy = hy
All-append P (x ∷ xs) ys hx hy = (hx.0, All-append P xs ys hx.1 hy)

-- Is the element on the queue?
abbrev pub member : ℕ → List ℕ → Bool
member a [] = false
member a (x ∷ xs) = (x == a) || member a xs

-- TAILQ_REMOVE of an element, which unlinks it at its one place.
abbrev pub remove : ℕ → List ℕ → List ℕ
remove a [] = []
remove a (x ∷ xs) = if x == a then xs else x ∷ remove a xs

-- No element is linked twice.
abbrev pub Distinct : List ℕ → Type 0
Distinct [] = Unit
Distinct (x ∷ xs) = (member x xs ≡ false) × Distinct xs

pub member-append : (a : ℕ) (xs ys : List ℕ) → member a (xs ++ ys) ≡ (member a xs || member a ys)
member-append a [] ys = refl
member-append a (x ∷ xs) ys = ground (arith, member-append a xs ys)

pub member-remove_self : (a : ℕ) (xs : List ℕ) → Distinct xs → member a (remove a xs) ≡ false
member-remove_self a [] d = refl
member-remove_self a (x ∷ xs) d = ground (arith, member-remove_self a xs d.1)

pub member-remove_ne : (a b : ℕ) (xs : List ℕ) → a ≢ b → member b (remove a xs) ≡ member b xs
member-remove_ne a b [] h = refl
member-remove_ne a b (x ∷ xs) h = ground (arith, member-remove_ne a b xs h)

pub remove_of_not_member : (a : ℕ) (xs : List ℕ) → member a xs ≡ false → remove a xs ≡ xs
remove_of_not_member a [] h = refl
remove_of_not_member a (x ∷ xs) h = ground (arith, remove_of_not_member a xs)

pub Distinct-remove : (a : ℕ) (xs : List ℕ) → Distinct xs → Distinct (remove a xs)
Distinct-remove a [] d = tt
Distinct-remove a (x ∷ xs) d = elim (Bool-cases (x == a)) [
  | inl e ↦ ground arith
  | inr n ↦ ground (arith, member-remove_ne a x xs, Distinct-remove a xs d.1)
]

pub Distinct-snoc :
    (a : ℕ) (xs : List ℕ) → Distinct xs → member a xs ≡ false → Distinct (xs ++ (a ∷ []))
Distinct-snoc a [] d h = (refl, tt)
Distinct-snoc a (x ∷ xs) d h = ground (arith, member-append x xs (a ∷ []), Distinct-snoc a xs d.1)

pub member-remove_of_not :
    (a b : ℕ) (xs : List ℕ) → member b xs ≡ false → member b (remove a xs) ≡ false
member-remove_of_not a b [] h = refl
member-remove_of_not a b (x ∷ xs) h = ground (arith, member-remove_of_not a b xs)

-- To move an element to the end keeps what is linked.
pub member-requeue :
    (a b : ℕ) (xs : List ℕ) → member a xs ≡ true → member b (remove a xs ++ (a ∷ [])) ≡ member b xs
member-requeue a b [] m = cc
member-requeue a b (x ∷ xs) m = ground (arith, member-append b xs (a ∷ []), member-requeue a b xs)

pub Distinct-requeue : (a : ℕ) (xs : List ℕ) → Distinct xs → Distinct (remove a xs ++ (a ∷ []))
Distinct-requeue a xs d =
    Distinct-snoc a (remove a xs) (Distinct-remove a xs d) (member-remove_self a xs d)

module _ {ℓ} {A : Type ℓ} where
  abbrev pub take : ℕ → List A → List A
  take zero xs = []
  take (suc n) [] = []
  take (suc n) (x ∷ xs) = x ∷ take n xs

  abbrev pub drop : ℕ → List A → List A
  drop zero xs = xs
  drop (suc n) [] = []
  drop (suc n) (x ∷ xs) = drop n xs

  pub length-drop : (n : ℕ) (xs : List A) → length (drop n xs) ≡ length xs - n
  length-drop zero xs = omega arith
  length-drop (suc n) [] = omega arith
  length-drop (suc n) (x ∷ xs) = length-drop n xs ∙ omega arith

  pub length-take : (n : ℕ) (xs : List A) → length (take n xs) ≤ n
  length-take zero xs = omega arith
  length-take (suc n) [] = omega arith
  length-take (suc n) (x ∷ xs) = omega (arith, length-take n xs)

  pub take_all : (n : ℕ) (xs : List A) → length xs ≤ n → take n xs ≡ xs
  take_all zero [] h = refl
  take_all zero (x ∷ xs) h = absurd (omega (arith, h))
  take_all (suc n) [] h = refl
  take_all (suc n) (x ∷ xs) h = ap (λ l. x ∷ l) (take_all n xs (omega (arith, h)))

  pub drop_all : (n : ℕ) (xs : List A) → length xs ≤ n → drop n xs ≡ []
  drop_all zero [] h = refl
  drop_all zero (x ∷ xs) h = absurd (omega (arith, h))
  drop_all (suc n) [] h = refl
  drop_all (suc n) (x ∷ xs) h = drop_all n xs (omega (arith, h))

  pub List-cases : (xs : List A) → (xs ≡ []) ⊎ ((x : A) × (r : List A) × (xs ≡ x ∷ r))
  List-cases [] = inl refl
  List-cases (x ∷ r) = inr (x, r, refl)
