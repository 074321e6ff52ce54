-- ===== src/XenStore/Write.antt =====
-- xen/xenbus/xenbus.c: the loop of xenbus_xb_write copies the bytes of all requests, whole and in order.
use rumpuser_xen.Prelude.{
  ℕ, zero, suc, ◌+◌, ◌-◌, ◌%◌, ◌^◌, ◌≤◌, ◌<◌, ◌≡◌, ◌⊎◌, refl, sym, ap, ◌∙◌, inl, inr, false, List,
  [], ◌∷◌, ◌++◌, arith, ◌==◌, min, length, length-append, take, drop, Bool-cases,
}
use rumpuser_xen.Sched.{Outcome, ok}
use rumpuser_xen.XenStore.{Wire, store_bytes, total, more_to_copy, Copied, copy_loop}
use rumpuser_xen.XenStore.Ring.{put, put-append, put-wrap, store_bytes-put}

abbrev pub joined : List (List ℕ) → List ℕ
joined [] = []
joined (r ∷ rs) = r ++ joined rs

pub length-joined : (rs : List (List ℕ)) → length (joined rs) ≡ total rs
length-joined [] = refl
length-joined (r ∷ rs) = length-append r (joined rs) ∙ omega (arith, length-joined rs)

length-drop : (n : ℕ) (xs : List ℕ) → length (drop n xs) ≡ length xs - n
length-drop zero xs = omega arith
length-drop (suc n) [] = omega arith
length-drop (suc n) (x ∷ xs) = length-drop n xs ∙ omega arith

length-take : (n : ℕ) (xs : List ℕ) → n ≤ length xs → length (take n xs) ≡ n
length-take zero xs l = refl
length-take (suc n) [] l = absurd (omega arith)
length-take (suc n) (x ∷ xs) l = omega (arith, length-take n xs (omega arith))

take-drop : (n : ℕ) (xs : List ℕ) → xs ≡ take n xs ++ drop n xs
take-drop zero xs = refl
take-drop (suc n) [] = refl
take-drop (suc n) (x ∷ xs) = ap (λ l. x ∷ l) (take-drop n xs)

drop_empty : (n : ℕ) → drop {A = ℕ} n [] ≡ []
drop_empty zero = refl
drop_empty (suc n) = refl

drop-drop : (m n : ℕ) (xs : List ℕ) → drop n (drop m xs) ≡ drop (m + n) xs
drop-drop zero n xs = let z : n ≡ 0 + n = omega arith in ap (λ k. drop k xs) z
drop-drop (suc m) n [] =
    let z : suc m + n ≡ suc (m + n) = omega arith in
    drop_empty n ∙ sym (ap {B = List ℕ} (λ k. drop k []) z)
drop-drop (suc m) n (x ∷ xs) =
    let z : suc (m + n) ≡ suc m + n = omega arith in drop-drop m n xs ∙ ap (λ k. drop k (x ∷ xs)) z

empty_of_length : (xs : List ℕ) → length xs ≡ 0 → xs ≡ []
empty_of_length [] e = refl
empty_of_length (x ∷ xs) e = absurd (omega arith)

append_assoc : (xs ys zs : List ℕ) → (xs ++ ys) ++ zs ≡ xs ++ (ys ++ zs)
append_assoc [] ys zs = refl
append_assoc (x ∷ xs) ys zs = ap (λ l. x ∷ l) (append_assoc xs ys zs)

-- What is still to be copied.
abbrev remaining : ℕ → List (List ℕ) → List ℕ
remaining off [] = []
remaining off (c ∷ cs) = drop off c ++ joined cs

remaining_start : (cs : List (List ℕ)) → remaining 0 cs ≡ joined cs
remaining_start [] = refl
remaining_start (c ∷ cs) = refl

-- The offset into the request that is copied: at its start or inside it.
abbrev IsInside : ℕ → List (List ℕ) → Type 0
IsInside off [] = off ≡ 0
IsInside off (c ∷ cs) = (off ≡ 0) ⊎ (off < length c)

at_start :
    (off : ℕ) (cs : List (List ℕ)) → IsInside off cs → length (remaining off cs) ≡ 0 → off ≡ 0
at_start off [] h e = h
at_start off (c ∷ cs) (inl z) e = z
at_start off (c ∷ cs) (inr l) e =
    absurd (omega (arith, l, e, length-append (drop off c) (joined cs), length-drop off c))

IsInside-start : (cs : List (List ℕ)) → IsInside 0 cs
IsInside-start [] = refl
IsInside-start (c ∷ cs) = inl refl

-- A chunk of a request, and what remains behind it.
remaining_chunk :
    (off n : ℕ) (c : List ℕ) (cs : List (List ℕ))
    → remaining off (c ∷ cs) ≡ take n (drop off c) ++ remaining (off + n) (c ∷ cs)
remaining_chunk off n c cs =
    ap (λ l. l ++ joined cs) (take-drop n (drop off c))
    ∙ append_assoc (take n (drop off c)) (drop n (drop off c)) (joined cs)
    ∙ ap (λ l. take n (drop off c) ++ (l ++ joined cs)) (drop-drop off n c)

remaining_end :
    (off : ℕ) (c : List ℕ) (cs : List (List ℕ))
    → off ≡ length c
    → remaining off (c ∷ cs) ≡ remaining 0 cs
remaining_end off c cs e =
    ap (λ l. l ++ joined cs) (empty_of_length (drop off c) (omega (arith, length-drop off c, e)))
    ∙ sym (remaining_start cs)

module _ (w : Wire) where
  open w use {size, mask}

  -- What the loop leaves of bytes that are put from a place on.
  abbrev pub finished : ℕ → ℕ → List ℕ → (ℕ → ℕ) → Outcome Copied
  finished len i xs ring = ok (0, len, (i + length xs) % 2 ^ 32, put w i xs ring)

  finished_chunk :
      (len i n : ℕ) (xs ys zs : List ℕ) (ring : ℕ → ℕ)
      → length xs ≡ n
      → zs ≡ xs ++ ys
      → finished len (i + n) ys (put w i xs ring) ≡ finished len i zs ring
  finished_chunk len i n xs ys zs ring e z =
      let p : (i + n + length ys) % 2 ^ 32 ≡ (i + length zs) % 2 ^ 32 =
        ap (λ k. k % 2 ^ 32) (omega (arith, e, length-append xs ys, ap length z)) in
      let q : put w (i + n) ys (put w i xs ring) ≡ put w i zs ring =
        ap (λ k. put w (i + k) ys (put w i xs ring)) (sym e)
        ∙ sym (put-append w i xs ys ring)
        ∙ ap (λ l. put w i l ring) (sym z) in
      ap (λ k. ok (0, len, k, put w (i + n) ys (put w i xs ring))) p
      ∙ ap (λ r. ok (0, len, (i + length zs) % 2 ^ 32, r)) q

  stopped :
      (len done off prod i : ℕ) (xs : List ℕ) (ring : ℕ → ℕ)
      → done + length xs ≡ len
      → length xs ≡ 0
      → off ≡ 0
      → prod ≡ i % 2 ^ 32
      → ok (off, done, prod, ring) ≡ finished len i xs ring
  stopped len done off prod i xs ring t l e p =
      let z : prod ≡ (i + 0) % 2 ^ 32 = omega (arith, p) in
      let d : done ≡ len = omega (arith, t, l) in
      ap (λ o. ok (o, done, prod, ring)) e
      ∙ ap (λ k. ok (0, k, prod, ring)) d
      ∙ ap (λ k. ok (0, len, k, ring)) z
      ∙ ap (λ ys. finished len i ys ring) (sym (empty_of_length xs l))

  -- The chunk of one pass, stored.
  chunk_stored :
      (n prod i : ℕ) (xs : List ℕ) (ring : ℕ → ℕ)
      → length xs ≡ n
      → n ≤ size - mask prod
      → prod ≡ i % 2 ^ 32
      → store_bytes (mask prod) xs ring ≡ put w i xs ring
  chunk_stored n prod i xs ring e l p =
      store_bytes-put w prod xs ring (omega (arith, e, l, w.mask_below prod))
      ∙ put-wrap w prod xs ring i (ap mask p ∙ w.mask_wrap i)

  pub copy_loop-finished :
      (fuel len done off prod i : ℕ) (cs : List (List ℕ)) (ring : ℕ → ℕ)
      → len < 2 ^ 31
      → done + length (remaining off cs) ≡ len
      → length (remaining off cs) + length cs ≤ fuel
      → prod ≡ i % 2 ^ 32
      → IsInside off cs
      → copy_loop w fuel len done off prod cs ring ≡ finished len i (remaining off cs) ring
  unfolding copy_loop
  copy_loop-finished zero len done off prod i [] ring b t f p h =
      let m : more_to_copy len done ≡ false = ground (arith, t) in
      rw m (stopped len done off prod i [] ring t refl h p)
  copy_loop-finished zero len done off prod i (c ∷ cs) ring b t f p h = absurd (omega arith)
  copy_loop-finished (suc fuel) len done off prod i [] ring b t f p h =
      let m : more_to_copy len done ≡ false = ground (arith, t) in
      rw m (stopped len done off prod i [] ring t refl h p)
  copy_loop-finished (suc fuel) len done off prod i (c ∷ cs) ring b t f p h =
      let all = remaining off (c ∷ cs) in
      let n = min (length c - off) (size - mask prod) in
      let piece = take n (drop off c) in
      let below = w.mask_below prod in
      let off_le : off ≤ length c = elim h [
        | inl z ↦ omega (arith, z)
        | inr l ↦ omega (arith, l)
      ] in
      let e : length piece ≡ n = length-take n (drop off c) (omega (arith, length-drop off c)) in
      let stored = chunk_stored n prod i piece ring e (omega arith) p in
      let ring' = store_bytes (mask prod) piece ring in
      let p' : (prod + n) % 2 ^ 32 ≡ (i + n) % 2 ^ 32 = omega (arith, p) in
      elim (Bool-cases (more_to_copy len done)) [
        | inr m ↦
            let z : length all ≡ 0 = ground (arith, m, t, b) in
            rw m (stopped len done off prod i all ring t z (at_start off (c ∷ cs) h z) p)
        | inl m ↦ elim (Bool-cases (off + n == length c)) [
          | inl q ↦
              let z =
                remaining_chunk off n c cs
                ∙ ap (λ l. piece ++ l) (remaining_end (off + n) c cs (ground (arith, q))) in
              let total' : length all ≡ n + length (remaining 0 cs) =
                ap length z
                ∙ length-append piece (remaining 0 cs)
                ∙ ap (λ k. k + length (remaining 0 cs)) e in
              let ih =
                copy_loop-finished fuel len (done + n) 0 ((prod + n) % 2 ^ 32) (i + n) cs ring' b
                  (omega (arith, t, total')) (omega (arith, f, total')) p' (IsInside-start cs) in
              rw (m, q)
                (ih
                  ∙ ap (finished len (i + n) (remaining 0 cs)) stored
                  ∙ finished_chunk len i n piece (remaining 0 cs) all ring e z)
          | inr q ↦
              let more : off + n < length c = ground (arith, q, off_le) in
              let z = remaining_chunk off n c cs in
              let total' : length all ≡ n + length (remaining (off + n) (c ∷ cs)) =
                ap length z
                ∙ length-append piece (remaining (off + n) (c ∷ cs))
                ∙ ap (λ k. k + length (remaining (off + n) (c ∷ cs))) e in
              let positive : 0 < n = omega (arith, more, below) in
              let ih =
                copy_loop-finished fuel len (done + n) (off + n) ((prod + n) % 2 ^ 32) (i + n)
                  (c ∷ cs) ring' b (omega (arith, t, total')) (omega (arith, f, total', positive))
                  p' (inr more) in
              rw (m, q)
                (ih
                  ∙ ap (finished len (i + n) (remaining (off + n) (c ∷ cs))) stored
                  ∙ finished_chunk len i n piece (remaining (off + n) (c ∷ cs)) all ring e z)
        ]
      ]
