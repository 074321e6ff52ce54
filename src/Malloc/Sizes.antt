-- ===== src/Malloc/Sizes.antt =====
-- lib/memalloc.c: the bucket that is picked is large enough, and the caller's address aligned.
use native.Mathlib.Nat.{
  two-pow-succ, one-le-pow, pow-le-pow_right, div-mul-le_self, lt-div-mul-add, mul-add-div,
}
use rumpuser_xen.Prelude.{
  ℕ, zero, suc, ◌+◌, ◌*◌, ◌/◌, ◌%◌, ◌^◌, ◌≤◌, ◌<◌, ◌≡◌, refl, ap, ◌∙◌, inl, inr, false, some, arith,
  ◌==◌, ltb, Bool-cases,
}
use rumpuser_xen.Malloc.{round_down, pick_bucket}

-- A block is aligned to its size.
abbrev pub IsBlock : ℕ → ℕ → Type 0
IsBlock b p = (q : ℕ) × (p ≡ q * 2 ^ (b + 5))

pub pick_bucket_fits :
    (n bytes amt b : ℕ)
    → bytes ≤ 2 ^ 31
    → amt ≡ 2 ^ (b + 5)
    → b ≤ 26
    → 27 ≤ n + b
    → (c : ℕ) × (pick_bucket n bytes amt b ≡ some c) × (b ≤ c) × (c ≤ 26) × (bytes ≤ 2 ^ (c + 5))
unfolding pick_bucket
pick_bucket_fits zero bytes amt b l e u f = absurd (omega arith)
pick_bucket_fits (suc n) bytes amt b l e u f = elim (Bool-cases (ltb amt bytes)) [
  | inr t ↦ (b, rw t refl, omega arith, u, ground (arith, t, e))
  | inl t ↦
      let less : b < 26 = elim (Bool-cases (ltb b 26)) [
        | inl z ↦ ground (arith, z)
        | inr z ↦
            let q : b + 5 ≡ 31 = ground (arith, z, u) in
            absurd (ground (arith, t, e, l, ap (λ k. 2 ^ k) q))
      ] in
      let next : b + 1 + 5 ≡ suc (b + 5) = omega arith in
      let top : 2 ^ (b + 5) ≤ 2 ^ 30 =
        pow-le-pow_right (omega arith) {i = b + 5} {j = 30} (omega (arith, less)) in
      let e' : amt * 2 % 2 ^ 32 ≡ 2 ^ (b + 1 + 5) =
        omega (arith, e, top, two-pow-succ (b + 5), ap (λ k. 2 ^ k) next) in
      let some_left : (amt * 2 % 2 ^ 32 == 0) ≡ false =
        ground (arith, e, top, one-le-pow (b + 5) 2) in
      let (c, r, g, h, k) =
        pick_bucket_fits n bytes (amt * 2 % 2 ^ 32) (b + 1) l e' (omega (arith, less))
          (omega (arith, f)) in
      (c, rw (t, some_left) r, omega (arith, g), h, k)
]

-- Rounding up by an alignment from a multiple of it.
pub round_down-add : (q x m : ℕ) → 0 < m → round_down (q * m + x) m ≡ q * m + round_down x m
round_down-add q x m l =
    let c : q * m + x ≡ m * q + x = grind arith in
    ap (λ t. t / m * m) c ∙ ap (λ t. t * m) (mul-add-div l q x) ∙ grind arith

pub round_down-le : (x m : ℕ) → round_down x m ≤ x
round_down-le x m = div-mul-le_self x m

pub round_down-above : (x m : ℕ) → 0 < m → x < round_down x m + m
round_down-above x m l = lt-div-mul-add l
