-- ===== src/ConsoleRing/Queue.antt =====
-- xen/console/xencons_ring.c: the output ring as a bounded queue of bytes.
use rumpuser_xen.Prelude.{
  take, ℕ, zero, suc, ◌+◌, ◌-◌, ◌%◌, ◌^◌, ◌≤◌, ◌<◌, ◌≡◌, ◌≢◌, refl, sym, ap, ◌∙◌, inl, inr, false,
  some, List, [], ◌∷◌, ◌++◌, arith, ltb, min, length, update, update_self, update_ne, Bool-cases,
}
use rumpuser_xen.Sched.{ok}
use rumpuser_xen.ConsoleRing.{OutRing, used, Geometry, send_bytes, ring_send_no_notify}

-- The bytes of so many places from an index on.
abbrev pub contents : (ℕ → ℕ) → (ℕ → ℕ) → ℕ → ℕ → List ℕ
contents mask out i zero = []
contents mask out i (suc n) = out (mask i) ∷ contents mask out ((i + 1) % 2 ^ 32) n

-- The bytes that the daemon has still to read.
abbrev pub queue : Geometry → OutRing → List ℕ
queue g r = contents g.mask r.out r.out_cons (used r)

contents_snoc :
    (mask out : ℕ → ℕ) (i n : ℕ)
    → i < 2 ^ 32
    → contents mask out i (suc n) ≡ contents mask out i n ++ (out (mask ((i + n) % 2 ^ 32)) ∷ [])
contents_snoc mask out i zero b = ap (λ k. out (mask k) ∷ []) (omega arith)
contents_snoc mask out i (suc n) b =
    let e : ((i + 1) % 2 ^ 32 + n) % 2 ^ 32 ≡ (i + suc n) % 2 ^ 32 = omega arith in
    ap (λ l. out (mask i) ∷ l)
      (contents_snoc mask out ((i + 1) % 2 ^ 32) n (omega arith)
        ∙ ap (λ k. contents mask out ((i + 1) % 2 ^ 32) n ++ (out (mask k) ∷ [])) e)

-- A write behind the bytes leaves them, as long as there is a place for it.
contents-update :
    (g : Geometry) (out : ℕ → ℕ) (i n p c : ℕ)
    → n < g.size
    → i < 2 ^ 32
    → p ≡ (i + n) % 2 ^ 32
    → contents g.mask (update out (g.mask p) c) i n ≡ contents g.mask out i n
contents-update g out i zero p c l b e = refl
contents-update g out i (suc n) p c l b e =
    let ne : g.mask p ≢ g.mask i = λ k. g.apart i (suc n) (omega arith) l b (sym k ∙ ap g.mask e) in
    let h : update out (g.mask p) c (g.mask i) ≡ out (g.mask i) =
      update_ne out (g.mask p) (g.mask i) c ne in
    let ih =
      contents-update g out ((i + 1) % 2 ^ 32) n p c (omega arith) (omega arith)
        (e ∙ omega arith) in
    ap (λ x. x ∷ contents g.mask (update out (g.mask p) c) ((i + 1) % 2 ^ 32) n) h
    ∙ ap (λ x. out (g.mask i) ∷ x) ih

-- One byte on a ring with room.
push-queue :
    (g : Geometry) (c : ℕ) (r : OutRing)
    → r.out_cons < 2 ^ 32
    → r.out_prod < 2 ^ 32
    → used r < g.size
    → let r' = record r {
      out = update r.out (g.mask r.out_prod) c;
      out_prod = (r.out_prod + 1) % 2 ^ 32;
    } in
      (used r' ≡ suc (used r)) × (queue g r' ≡ queue g r ++ (c ∷ []))
push-queue g c r b p room =
    let r' = record r {
      out = update r.out (g.mask r.out_prod) c;
      out_prod = (r.out_prod + 1) % 2 ^ 32;
    } in
    let s = g.small in
    let u : used r' ≡ suc (used r) = omega arith in
    let e : r.out_prod ≡ (r.out_cons + used r) % 2 ^ 32 = omega arith in
    let at : r'.out (g.mask ((r.out_cons + used r) % 2 ^ 32)) ≡ c =
      ap (λ k. r'.out (g.mask k)) (sym e) ∙ update_self r.out (g.mask r.out_prod) c in
    (
      u,
      ap (contents g.mask r'.out r.out_cons) u
          ∙ contents_snoc g.mask r'.out r.out_cons (used r) b
          ∙ ap (λ x. contents g.mask r'.out r.out_cons (used r) ++ (x ∷ [])) at
          ∙ ap (λ x. x ++ (c ∷ []))
              (contents-update g r.out r.out_cons (used r) r.out_prod c room b e),
    )

append_assoc : (xs ys zs : List ℕ) → (xs ++ ys) ++ zs ≡ xs ++ (ys ++ zs)
append_assoc [] ys zs = refl
append_assoc (x ∷ xs) ys zs = ap (λ l. x ∷ l) (append_assoc xs ys zs)

append_nil : (xs : List ℕ) → xs ≡ xs ++ []
append_nil [] = refl
append_nil (x ∷ xs) = ap (λ l. x ∷ l) (append_nil xs)

-- The indices are words, and no more bytes are on the ring than it has places.
pub record IsWithin (g : Geometry) (r : OutRing) : Type 0 where
  pub cons_word : r.out_cons < 2 ^ 32
  pub prod_word : r.out_prod < 2 ^ 32
  pub bounded : used r ≤ g.size

min_step : (n s u : ℕ) → u < s → suc (min n (s - suc u)) ≡ min (suc n) (s - u)
min_step n s u l = ground arith

send_bytes-queue :
    (g : Geometry) (cs : List ℕ) (r : OutRing)
    → IsWithin g r
    → let (sent, r') = send_bytes g cs r in
      IsWithin g r'
      × (sent ≡ min (length cs) (g.size - used r))
      × (queue g r' ≡ queue g r ++ take sent cs)
unfolding send_bytes
send_bytes-queue g [] r w = (w, ground arith, append_nil (queue g r))
send_bytes-queue g (c ∷ cs) r w = elim (Bool-cases (ltb (used r) g.size)) [
  | inr e ↦ rw e (w, ground (arith, e), append_nil (queue g r))
  | inl e ↦
      let r' = record r {
        out = update r.out (g.mask r.out_prod) c;
        out_prod = (r.out_prod + 1) % 2 ^ 32;
      } in
      let room : used r < g.size = ground (arith, e) in
      let (u, q) = push-queue g c r w.cons_word w.prod_word room in
      let w' : IsWithin g r' = record {
        cons_word = w.cons_word;
        prod_word = omega arith;
        bounded = omega (arith, u);
      } in
      let (w'', n, q') = send_bytes-queue g cs r' w' in
      let sent = (send_bytes g cs r').0 in
      rw e (
        w'',
        ap suc n
            ∙ ap (λ k. suc (min (length cs) (g.size - k))) u
            ∙ min_step (length cs) g.size (used r) room,
        q' ∙ ap (λ l. l ++ take sent cs) q ∙ append_assoc (queue g r) (c ∷ []) (take sent cs),
      )
]

-- On a ring that holds no more than its size, xencons_ring_send_no_notify does not fail; it sends as
-- many bytes as there is room for, from the first on, and behind those that the ring holds.
pub ring_send_no_notify-queue :
    (g : Geometry) (bytes : List ℕ) (r : OutRing)
    → IsWithin g r
    → let room = g.size - used r in
      (r' : OutRing) × (ring_send_no_notify g bytes (some r)
        ≡ ok (min (length bytes) room, some r'))
      × IsWithin g r'
      × (queue g r' ≡ queue g r ++ take (min (length bytes) room) bytes)
unfolding ring_send_no_notify
ring_send_no_notify-queue g bytes r w =
    let (w', n, q) = send_bytes-queue g bytes r w in
    let fine : ltb g.size (used r) ≡ false = ground (arith, w.bounded) in
    (
      (send_bytes g bytes r).1,
      rw fine (ap (λ k. ok (k, some (send_bytes g bytes r).1)) n),
      w',
      q ∙ ap (λ k. queue g r ++ take k bytes) n,
    )
