-- ===== src/Packets/Queue.antt =====
-- rumphyper_net.c: the ring of packets as a queue.
use rumpuser_xen.Prelude.{
  ℕ, zero, suc, ◌+◌, ◌-◌, ◌%◌, ◌<◌, ◌≡◌, refl, ap, ◌∙◌, List, [], ◌∷◌, ◌++◌, arith, update,
  update_self, update_ne,
}
use rumpuser_xen.Packets.{nbuf, Viu}

-- So many packets from a place on.
abbrev pub contents : (ℕ → List ℕ) → ℕ → ℕ → List (List ℕ)
contents pkts i zero = []
contents pkts i (suc n) = pkts i ∷ contents pkts ((i + 1) % nbuf) n

abbrev pub waiting : Viu → ℕ
waiting s = (s.viu_write + nbuf - s.viu_read) % nbuf

abbrev pub queue : Viu → List (List ℕ)
queue s = contents s.viu_pkts s.viu_read (waiting s)

contents-update :
    (pkts : ℕ → List ℕ) (i n p : ℕ) (v : List ℕ)
    → n < nbuf
    → i < nbuf
    → p ≡ (i + n) % nbuf
    → contents (update pkts p v) i n ≡ contents pkts i n
contents-update pkts i zero p v l b e = refl
contents-update pkts i (suc n) p v l b e =
    let h : update pkts p v i ≡ pkts i = update_ne pkts p i v (λ k. omega (arith, k, e, l, b)) in
    ap (λ x. x ∷ contents (update pkts p v) ((i + 1) % nbuf) n) h
    ∙ ap (λ l. pkts i ∷ l)
        (contents-update pkts ((i + 1) % nbuf) n p v (omega arith) (omega arith) (omega (arith, e)))

contents-snoc :
    (pkts : ℕ → List ℕ) (i n p : ℕ)
    → i < nbuf
    → p ≡ (i + n) % nbuf
    → contents pkts i (suc n) ≡ contents pkts i n ++ (pkts p ∷ [])
contents-snoc pkts i zero p b e = let z : i ≡ p = omega (arith, e, b) in ap (λ k. pkts k ∷ []) z
contents-snoc pkts i (suc n) p b e =
    ap (λ l. pkts i ∷ l) (contents-snoc pkts ((i + 1) % nbuf) n p (omega arith) (omega (arith, e)))

-- A packet at the place behind the last.
pub contents-push :
    (pkts : ℕ → List ℕ) (i n p : ℕ) (v : List ℕ)
    → n < nbuf
    → i < nbuf
    → p ≡ (i + n) % nbuf
    → contents (update pkts p v) i (suc n) ≡ contents pkts i n ++ (v ∷ [])
contents-push pkts i n p v l b e =
    contents-snoc (update pkts p v) i n p b e
    ∙ ap (λ c. c ++ (update pkts p v p ∷ [])) (contents-update pkts i n p v l b e)
    ∙ ap (λ x. contents pkts i n ++ (x ∷ [])) (update_self pkts p v)
