-- ===== src/Pages/Neighbours.antt =====
-- xen/mm.c: the neighbour that a freed chunk may merge with.
use native.Mathlib.Nat.{
  two-pow-succ, one-le-pow, le_of_mul-le-mul_right, lt_of_mul-lt-mul_right, mul-div_cancel,
  mul-le-mul_right, mul-lt-mul_of_pos_right,
}
use mathlib.Core.Path.{subst}
use rumpuser_xen.Prelude.{
  ℕ, zero, suc, ◌+◌, ◌-◌, ◌*◌, ◌/◌, ◌%◌, ◌^◌, ◌≤◌, ◌<◌, ◌≡◌, refl, sym, ap, ◌∙◌, inl, inr, true,
  false, List, arith, ◌/=◌, ltb, if◌then◌else◌, member, Bool-cases,
}
use rumpuser_xen.Pages.{Pages, freelist_size, allocated_in_map, to_merge}
use rumpuser_xen.Pages.Chunks.{
  holds, hits, cover, holds_self, holds_halves, hits-remove, hits-le-cover, cover_some,
}
use rumpuser_xen.Pages.Cover.{IsAligned, IsHead, Ties, All-member}
use rumpuser_xen.Pages.Alloc.{double_pow, odd_pow}

pub pow_add : (k o : ℕ) → 2 ^ (k + o) ≡ 2 ^ k * 2 ^ o
pow_add zero o = let z : 0 + o ≡ o = omega arith in ap (λ n. 2 ^ n) z ∙ omega arith
pow_add (suc k) o =
    let z : suc k + o ≡ suc (k + o) = omega arith in
    let d : 2 ^ suc k * 2 ^ o ≡ 2 ^ k * 2 ^ o + 2 ^ k * 2 ^ o = grind (arith, two-pow-succ k) in
    ap (λ n. 2 ^ n) z ∙ omega (arith, two-pow-succ (k + o), pow_add k o, d)

-- The neighbour of a chunk, by the number of the pair of chunks.
pub data Pair (x y : ℕ) : Type 0 where
  lower : (z : ℕ) → x ≡ 2 * z → y ≡ 2 * z + 1 → Pair x y
  upper : (z : ℕ) → x ≡ 2 * z + 1 → y ≡ 2 * z → Pair x y

scaled :
    (m a k x y : ℕ)
    → 0 < m
    → Pair x y
    → 2 * a * m ≤ y * m
    → y * m < (2 * a + 2 * k) * m
    → (2 * a * m ≤ x * m) × (x * m < (2 * a + 2 * k) * m)
scaled m a k x y z pr l u =
    let l' : 2 * a ≤ y = le_of_mul-le-mul_right l z in
    let u' : y < 2 * a + 2 * k = lt_of_mul-lt-mul_right m u in
    let within : (2 * a ≤ x) × (x < 2 * a + 2 * k) = elim pr [
      | lower w f g ↦ (omega arith, omega arith)
      | upper w f g ↦ (omega arith, omega arith)
    ] in
    (mul-le-mul_right m within.0, mul-lt-mul_of_pos_right within.1 z)

-- A larger chunk that holds a chunk's neighbour holds the chunk.
larger_holds :
    (p i o x y : ℕ)
    → o < i
    → IsAligned p i
    → Pair x y
    → p ≤ y * 2 ^ o
    → y * 2 ^ o < p + 2 ^ i
    → holds p i (x * 2 ^ o) ≡ 1
larger_holds p i o x y l (r, e) pr a b =
    let k = 2 ^ (i - suc o) in
    let m = 2 ^ o in
    let z : i ≡ (i - suc o) + suc o = omega arith in
    let big : 2 ^ i ≡ 2 * k * m =
      ap (λ n. 2 ^ n) z ∙ pow_add (i - suc o) (suc o) ∙ double_pow k o in
    let start : p ≡ 2 * (r * k) * m = e ∙ ap (λ t. r * t) big ∙ grind arith in
    let sum : (2 * (r * k) + 2 * k) * m ≡ 2 * (r * k) * m + 2 * k * m = grind arith in
    let (f, g) =
      scaled m (r * k) k x y (one-le-pow o 2 (omega arith)) pr (omega (arith, start, a))
        (omega (arith, start, big, sum, b)) in
    let f' : p ≤ x * m = omega (arith, f, start) in
    let g' : x * m < p + 2 ^ i = omega (arith, g, start, big, sum) in ground (arith, f', g')

-- A smaller aligned chunk, or one of the same size, that holds the first page of a chunk starts there.
smaller_starts :
    (p i o y : ℕ) → i ≤ o → IsAligned p i → p ≤ y * 2 ^ o → y * 2 ^ o < p + 2 ^ i → p ≡ y * 2 ^ o
smaller_starts p i o y l (r, e) a b =
    let k = 2 ^ (o - i) in
    let n = 2 ^ i in
    let z : o ≡ (o - i) + i = omega arith in
    let big : y * 2 ^ o ≡ y * k * n =
      ap (λ t. y * 2 ^ t) z ∙ ap (λ t. y * t) (pow_add (o - i) i) ∙ grind arith in
    let sum : (r + 1) * n ≡ r * n + n = grind arith in
    let l' : r ≤ y * k =
      le_of_mul-le-mul_right (omega (arith, a, e, big)) (one-le-pow i 2 (omega arith)) in
    let u' : y * k < r + 1 = lt_of_mul-lt-mul_right n (omega (arith, b, e, big, sum)) in
    let q : r ≡ y * k = omega (arith, l', u') in e ∙ ap (λ t. t * n) q ∙ sym big

Pair-apart : (x y o : ℕ) → Pair x y → holds (x * 2 ^ o) o (y * 2 ^ o) ≡ 0
Pair-apart x y o (lower z f g) =
    let a : x * 2 ^ o ≡ 2 * z * 2 ^ o = ap (λ t. t * 2 ^ o) f in
    let b : y * 2 ^ o ≡ 2 * z * 2 ^ o + 2 ^ o = ap (λ t. t * 2 ^ o) g ∙ odd_pow z o in
    ground (arith, a, b)
Pair-apart x y o (upper z f g) =
    let a : x * 2 ^ o ≡ 2 * z * 2 ^ o + 2 ^ o = ap (λ t. t * 2 ^ o) f ∙ odd_pow z o in
    let b : y * 2 ^ o ≡ 2 * z * 2 ^ o = ap (λ t. t * 2 ^ o) g in
    ground (arith, a, b, one-le-pow o 2)

member-holds : (i p : ℕ) (ps : List ℕ) (v : ℕ) → member p ps ≡ true → holds p i v ≤ hits i ps v
member-holds i p ps v m = omega (arith, hits-remove i p ps v m)

-- A neighbour that is free and has the chunk's level in its head is on the list of that level.
pub neighbour_listed :
    (s : Pages) (c other o x y : ℕ)
    → c ≡ x * 2 ^ o
    → other ≡ y * 2 ^ o
    → Ties s (holds c o)
    → Pair x y
    → allocated_in_map s.alloc_bitmap other ≡ false
    → s.level other ≡ o
    → (o < freelist_size) × (member other (s.free_head o) ≡ true)
neighbour_listed s c other o x y ec eo w pr f lev =
    let apart : holds c o other ≡ 0 =
      ap (λ t. holds t o other) ec ∙ ap (holds (x * 2 ^ o) o) eo ∙ Pair-apart x y o pr in
    let held : 0 < cover freelist_size s.free_head other =
      ground (arith, w.exact other, apart, f) in
    let (i, p, l, m, a, b) = cover_some freelist_size s.free_head other held in
    let (h, al) = All-member (IsHead s.level i) p (s.free_head i) (w.heads i l) m in
    let a' = subst (λ t. p ≤ t) eo a in
    let b' = subst (λ t. t < p + 2 ^ i) eo b in
    elim (Bool-cases (ltb o i)) [
      | inl q ↦
          let both : holds p i c ≡ 1 =
            ap (holds p i) ec ∙ larger_holds p i o x y (ground (arith, q)) al pr a' b' in
          absurd (
            ground (
              arith,
              w.exact c,
              holds_self c o,
              both,
              member-holds i p (s.free_head i) c m,
              hits-le-cover freelist_size i s.free_head c l,
            ))
      | inr q ↦
          let e : p ≡ other = smaller_starts p i o y (ground (arith, q)) al a' b' ∙ sym eo in
          let j : i ≡ o = sym h ∙ ap s.level e ∙ lev in
          (
            subst (λ k. k < freelist_size) j l,
            subst (λ k. member other (s.free_head k) ≡ true) j
                (subst (λ t. member t (s.free_head i) ≡ true) e m),
          )
    ]

-- Where the neighbour lies, and that a chunk and its neighbour make up one of the next level.
abbrev pub Neighbour : ℕ → ℕ → ℕ → ℕ → Type 0
Neighbour c o other merged =
    (x y : ℕ) × (c ≡ x * 2 ^ o)
    × (other ≡ y * 2 ^ o)
    × Pair x y
    × IsAligned merged (suc o)
    × ((v : ℕ) → holds c o v + holds other o v ≡ holds merged (suc o) v)

pub to_merge-Neighbour :
    (c o : ℕ)
    → IsAligned c o
    → Neighbour c o (to_merge c o) (if c / 2 ^ o % 2 /= 0 then to_merge c o else c)
unfolding to_merge
to_merge-Neighbour c o (q, e) =
    let m = 2 ^ o in
    let d : c / m ≡ q = ap (λ t. t / m) e ∙ mul-div_cancel q (one-le-pow o 2 (omega arith)) in
    let z = q / 2 in
    elim (Bool-cases (c / m % 2 /= 0)) [
      | inl f ↦
          let odd : q ≡ 2 * z + 1 = ground (arith, f, d) in
          let c' : c ≡ 2 * z * m + m = e ∙ ap (λ t. t * m) odd ∙ odd_pow z o in
          let o' : c - m ≡ 2 * z * m = omega (arith, c') in
          let back : c - m + m ≡ c = omega (arith, c') in
          rw f (
            q,
            2 * z,
            e,
            o',
            upper z odd refl,
            (z, o' ∙ sym (double_pow z o)),
            λ v. omega (arith, holds_halves (c - m) o v, ap (λ t. holds t o v) back),
          )
      | inr f ↦
          let even : q ≡ 2 * z = ground (arith, f, d) in
          let c' : c ≡ 2 * z * m = e ∙ ap (λ t. t * m) even in
          let o' : c + m ≡ (2 * z + 1) * m = omega (arith, c', odd_pow z o) in
          rw f (
            q,
            2 * z + 1,
            e,
            o',
            lower z even refl,
            (z, c' ∙ sym (double_pow z o)),
            λ v. omega (arith, holds_halves c o v),
          )
    ]
