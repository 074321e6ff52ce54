-- ===== src/XenStore/Ring.antt =====
-- xen/xenbus/xenbus.c: copying into a ring and out of it, against places that count on without end.
use rumpuser_xen.Prelude.{
  ℕ, zero, suc, ◌+◌, ◌-◌, ◌≤◌, ◌<◌, ◌≡◌, ◌≢◌, refl, sym, ap, ◌∙◌, inl, inr, List, [], ◌∷◌, ◌++◌,
  arith, ltb, if◌then◌else◌, update, update_self, update_ne, min, length, Bool-cases,
}
use mathlib.Core.List.{append-nil}
use rumpuser_xen.XenStore.{Wire, store_bytes, load_bytes, memcpy_from_ring}

module _ (w : Wire) where
  open w use {size, mask}

  -- Byte by byte, each at its own place.
  abbrev pub put : ℕ → List ℕ → (ℕ → ℕ) → ℕ → ℕ
  put i [] ring = ring
  put i (x ∷ xs) ring = put (i + 1) xs (update ring (mask i) x)

  abbrev pub get : ℕ → ℕ → (ℕ → ℕ) → List ℕ
  get i zero ring = []
  get i (suc n) ring = ring (mask i) ∷ get (i + 1) n ring

  pub put-append :
      (i : ℕ) (xs ys : List ℕ) (ring : ℕ → ℕ)
      → put i (xs ++ ys) ring ≡ put (i + length xs) ys (put i xs ring)
  put-append i [] ys ring = let z : i ≡ i + 0 = omega arith in ap (λ j. put j ys ring) z
  put-append i (x ∷ xs) ys ring =
      let z : i + 1 + length xs ≡ i + suc (length xs) = omega arith in
      put-append (i + 1) xs ys (update ring (mask i) x)
      ∙ ap (λ j. put j ys (put (i + 1) xs (update ring (mask i) x))) z

  pub put-wrap :
      (i : ℕ) (xs : List ℕ) (ring : ℕ → ℕ) (j : ℕ) → mask i ≡ mask j → put i xs ring ≡ put j xs ring
  put-wrap i [] ring j e = refl
  put-wrap i (x ∷ xs) ring j e =
      let n : mask (i + 1) ≡ mask (j + 1) = ground (arith, w.mask_next i, w.mask_next j, e) in
      ap (λ p. put (i + 1) xs (update ring p x)) e
      ∙ put-wrap (i + 1) xs (update ring (mask j) x) (j + 1) n

  -- A piece that does not run past the end of the ring.
  pub store_bytes-put :
      (i : ℕ) (xs : List ℕ) (ring : ℕ → ℕ)
      → mask i + length xs ≤ size
      → store_bytes (mask i) xs ring ≡ put i xs ring
  unfolding store_bytes
  store_bytes-put i [] ring l = refl
  store_bytes-put i (x ∷ []) ring l = refl
  store_bytes-put i (x ∷ y ∷ xs) ring l =
      let n : mask i + 1 ≡ mask (i + 1) = ground (arith, w.mask_next i, l) in
      ap (λ p. store_bytes p (y ∷ xs) (update ring (mask i) x)) n
      ∙ store_bytes-put (i + 1) (y ∷ xs) (update ring (mask i) x) (omega (arith, n, l))

  pub load_bytes-get :
      (i n : ℕ) (ring : ℕ → ℕ) → mask i + n ≤ size → load_bytes (mask i) n ring ≡ get i n ring
  unfolding load_bytes
  load_bytes-get i zero ring l = refl
  load_bytes-get i (suc zero) ring l = refl
  load_bytes-get i (suc (suc n)) ring l =
      let e : mask i + 1 ≡ mask (i + 1) = ground (arith, w.mask_next i, l) in
      ap (λ xs. ring (mask i) ∷ xs)
        (ap (λ p. load_bytes p (suc n) ring) e
          ∙ load_bytes-get (i + 1) (suc n) ring (omega (arith, e, l)))

  pub get-append :
      (i n m : ℕ) (ring : ℕ → ℕ) → get i (n + m) ring ≡ get i n ring ++ get (i + n) m ring
  get-append i zero m ring =
      let z : 0 + m ≡ m = omega arith in
      let z' : i ≡ i + 0 = omega arith in ap (λ k. get i k ring) z ∙ ap (λ j. get j m ring) z'
  get-append i (suc n) m ring =
      let z : suc n + m ≡ suc (n + m) = omega arith in
      let z' : i + 1 + n ≡ i + suc n = omega arith in
      ap (λ k. get i k ring) z
      ∙ ap (λ xs. ring (mask i) ∷ xs)
          (get-append (i + 1) n m ring ∙ ap (λ j. get (i + 1) n ring ++ get j m ring) z')

  -- The place `k` behind one.
  pub mask_add :
      (i k : ℕ)
      → k ≤ size
      → mask (i + k) ≡ (if ltb (mask i + k) size then mask i + k else mask i + k - size)
  mask_add i zero l = let z : i + 0 ≡ i = omega arith in ap mask z ∙ ground (arith, w.mask_below i)
  mask_add i (suc k) l =
      let z : i + suc k ≡ i + k + 1 = omega arith in
      ap mask z ∙ ground (arith, w.mask_next (i + k), mask_add i k (omega arith), w.mask_below i, l)

  -- Among as many places in a row as the ring has no two are the same.
  pub mask-apart : (i k : ℕ) → 0 < k → k < size → mask i ≢ mask (i + k)
  mask-apart i k l u e = ground (arith, mask_add i k (omega arith), e, w.mask_below i)

  pub memcpy_from_ring-get :
      (i n : ℕ) (ring : ℕ → ℕ) → n ≤ size → memcpy_from_ring w ring (mask i) n ≡ get i n ring
  unfolding memcpy_from_ring load_bytes
  memcpy_from_ring-get i n ring l =
      let c1 = min n (size - mask i) in
      let below = w.mask_below i in
      elim (Bool-cases (ltb (mask i + n) size)) [
        | inl e ↦
            let q : c1 ≡ n = ground (arith, e) in
            let z : n - c1 ≡ 0 = ground (arith, e) in
            ap (λ k. load_bytes (mask i) k ring ++ load_bytes 0 (n - k) ring) q
            ∙ ap (λ k. load_bytes (mask i) n ring ++ load_bytes 0 k ring)
                (ap (λ k. n - k) (sym q) ∙ z)
            ∙ append-nil (load_bytes (mask i) n ring)
            ∙ load_bytes-get i n ring (ground (arith, e))
        | inr e ↦
            let q : c1 ≡ size - mask i = ground (arith, e) in
            let start : 0 ≡ mask (i + (size - mask i)) =
              ground (arith, mask_add i (size - mask i) (omega arith), below) in
            let whole : size - mask i + (n - (size - mask i)) ≡ n = ground (arith, e, below) in
            ap (λ k. load_bytes (mask i) k ring ++ load_bytes 0 (n - k) ring) q
            ∙ ap (λ xs. xs ++ load_bytes 0 (n - (size - mask i)) ring)
                (load_bytes-get i (size - mask i) ring (omega (arith, below)))
            ∙ ap (λ p. get i (size - mask i) ring ++ load_bytes p (n - (size - mask i)) ring) start
            ∙ ap (λ xs. get i (size - mask i) ring ++ xs)
                (load_bytes-get (i + (size - mask i)) (n - (size - mask i)) ring
                  (omega (arith, start, l)))
            ∙ sym (get-append i (size - mask i) (n - (size - mask i)) ring)
            ∙ ap (λ k. get i k ring) whole
      ]

  -- A byte behind those of some places leaves them.
  get-update :
      (i n d c : ℕ) (ring : ℕ → ℕ)
      → n ≤ d
      → d < size
      → get i n (update ring (mask (i + d)) c) ≡ get i n ring
  get-update i zero d c ring l u = refl
  get-update i (suc n) zero c ring l u = absurd (omega arith)
  get-update i (suc n) (suc d) c ring l u =
      let ne : mask (i + suc d) ≢ mask i = λ e. mask-apart i (suc d) (omega arith) u (sym e) in
      let z : i + 1 + d ≡ i + suc d = omega arith in
      ap (λ x. x ∷ get (i + 1) n (update ring (mask (i + suc d)) c))
        (update_ne ring (mask (i + suc d)) (mask i) c ne)
      ∙ ap (λ j. ring (mask i) ∷ get (i + 1) n (update ring (mask j) c)) (sym z)
      ∙ ap (λ xs. ring (mask i) ∷ xs) (get-update (i + 1) n d c ring (omega arith) (omega arith))

  -- So do several, if all have a place.
  pub get-put_behind :
      (i n d : ℕ) (xs : List ℕ) (ring : ℕ → ℕ)
      → n ≤ d
      → d + length xs ≤ size
      → get i n (put (i + d) xs ring) ≡ get i n ring
  get-put_behind i n d [] ring l u = refl
  get-put_behind i n d (x ∷ xs) ring l u =
      let z : i + d + 1 ≡ i + (d + 1) = omega arith in
      ap (λ j. get i n (put j xs (update ring (mask (i + d)) x))) z
      ∙ get-put_behind i n (d + 1) xs (update ring (mask (i + d)) x) (omega arith) (omega arith)
      ∙ get-update i n d x ring l (omega arith)

  -- What was put is there.
  pub get-put :
      (i : ℕ) (xs : List ℕ) (ring : ℕ → ℕ)
      → length xs ≤ size
      → get i (length xs) (put i xs ring) ≡ xs
  get-put i [] ring l = refl
  get-put i (x ∷ xs) ring l =
      let one : get i 1 (put (i + 1) xs (update ring (mask i) x))
          ≡ get i 1 (update ring (mask i) x) =
        get-put_behind i 1 1 xs (update ring (mask i) x) (omega arith) (omega arith) in
      let first : get i 1 (update ring (mask i) x) ≡ x ∷ [] =
        ap (λ y. y ∷ []) (update_self ring (mask i) x) in
      ap (λ r. r ++ get (i + 1) (length xs) (put (i + 1) xs (update ring (mask i) x))) (one ∙ first)
      ∙ ap (λ l. x ∷ l) (get-put (i + 1) xs (update ring (mask i) x) (omega arith))
