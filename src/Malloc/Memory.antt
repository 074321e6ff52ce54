-- ===== src/Malloc/Memory.antt =====
-- lib/memalloc.c: numbers in memory, byte by byte.
use rumpuser_xen.Prelude.{
  ℕ, zero, suc, ◌+◌, ◌/◌, ◌%◌, ◌^◌, ◌≤◌, ◌<◌, ◌≡◌, refl, sym, ◌∙◌, false, ◌&&◌, arith, ltb, leb,
  update, update_self, update_ne,
}
use rumpuser_xen.Malloc.{store, load}

-- What the bytes of a number leave over.
abbrev Fits : ℕ → ℕ → Type 0
Fits zero v = v ≡ 0
Fits (suc n) v = Fits n (v / 256)

-- Bytes outside a write.
pub store_outside :
    (n a v : ℕ) (mem : ℕ → ℕ) (q : ℕ)
    → (leb a q && ltb q (a + n)) ≡ false
    → store n a v mem q ≡ mem q
unfolding store
store_outside zero a v mem q e = refl
store_outside (suc n) a v mem q e =
    store_outside n (a + 1) (v / 256) (update mem a (v % 256)) q (ground (arith, e))
    ∙ update_ne mem a q (v % 256) (λ z. ground (arith, e, z))

load-Fits : (n a v : ℕ) (mem : ℕ → ℕ) → Fits n v → load n a (store n a v mem) ≡ v
unfolding store load
load-Fits zero a v mem f = sym f
load-Fits (suc n) a v mem f =
    let low : store n (a + 1) (v / 256) (update mem a (v % 256)) a ≡ v % 256 =
      store_outside n (a + 1) (v / 256) (update mem a (v % 256)) a (ground arith)
      ∙ update_self mem a (v % 256) in
    let rest = load-Fits n (a + 1) (v / 256) (update mem a (v % 256)) f in omega (arith, low, rest)

pub load-store : (a v : ℕ) (mem : ℕ → ℕ) → v < 2 ^ 64 → load 8 a (store 8 a v mem) ≡ v
load-store a v mem l = load-Fits 8 a v mem (omega (arith, l))

pub load_same :
    (n a : ℕ) (mem mem' : ℕ → ℕ)
    → ((q : ℕ) → a ≤ q → q < a + n → mem' q ≡ mem q)
    → load n a mem' ≡ load n a mem
unfolding load
load_same zero a mem mem' h = refl
load_same (suc n) a mem mem' h =
    let e = h a (omega arith) (omega arith) in
    let rest = load_same n (a + 1) mem mem' (λ q l u. h q (omega (arith, l)) (omega (arith, u))) in
    omega (arith, e, rest)
