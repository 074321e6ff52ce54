-- ===== src/Pages/Cover.antt =====
-- xen/mm.c: what ties the lists of free chunks to the bitmap, and how a chunk leaves and joins a list.
use rumpuser_xen.Prelude.{
  ℕ, ◌+◌, ◌*◌, ◌^◌, ◌<◌, ◌≡◌, sym, ap, ◌∙◌, inl, inr, true, List, [], ◌∷◌, arith, ◌==◌,
  if◌then◌else◌, update, update_self, update_ne, member, remove, All, Bool-cases, ==_iff, ne_of_==,
}
use mathlib.Core.Path.{subst}
use rumpuser_xen.Pages.{Pages, freelist_size, allocated_in_map, link_chunk}
use rumpuser_xen.Pages.Chunks.{
  holds, hits, cover, holds_self, hits-remove, cover-update, hits-le-cover,
}

-- A page that is a multiple of its chunk's size.
abbrev pub IsAligned : ℕ → ℕ → Type 0
IsAligned p i = (q : ℕ) × (p ≡ q * 2 ^ i)

-- A chunk of the list of a level has that level in its head and is aligned.
abbrev pub IsHead : (ℕ → ℕ) → ℕ → ℕ → Type 0
IsHead level i p = (level p ≡ i) × IsAligned p i

-- With chunks taken out of the lists that hold a page as often as `out` says, every page is held just
-- once if it is free in the bitmap, and not at all if it is allocated.
pub record Ties (s : Pages) (out : ℕ → ℕ) : Type 0 where
  pub exact :
      (v : ℕ)
      → cover freelist_size s.free_head v + out v
        ≡ (if allocated_in_map s.alloc_bitmap v then 0 else 1)
  pub heads : (i : ℕ) → i < freelist_size → All (IsHead s.level i) (s.free_head i)

-- No chunk is out of the lists.
abbrev pub IsSound : Pages → Type 0
IsSound s = Ties s (λ v. 0)

All-remove : (P : ℕ → Type 0) (a : ℕ) (xs : List ℕ) → All P xs → All P (remove a xs)
All-remove P a [] h = tt
All-remove P a (x ∷ xs) (h, r) = elim (Bool-cases (x == a)) [
  | inl e ↦ rw e r
  | inr e ↦ rw e (h, All-remove P a xs r)
]

pub All-member : (P : ℕ → Type 0) (a : ℕ) (xs : List ℕ) → All P xs → member a xs ≡ true → P a
All-member P a [] h m = cc
All-member P a (x ∷ xs) (h, r) m = elim (Bool-cases (x == a)) [
  | inl e ↦ subst P ((==_iff x a).0 e) h
  | inr e ↦ All-member P a xs r (ground (arith, e))
]

-- A head that is written anew leaves those of the lists, if none of their chunks holds its page.
heads_kept :
    (level : ℕ → ℕ) (i j p : ℕ) (ps : List ℕ)
    → hits j ps p ≡ 0
    → All (IsHead level j) ps
    → All (IsHead (update level p i) j) ps
heads_kept level i j p [] h a = tt
heads_kept level i j p (q ∷ ps) h (a, r) = elim (Bool-cases (p == q)) [
  | inl e ↦ absurd (omega (arith, h, holds_self p j, ap (λ k. holds k j p) ((==_iff p q).0 e)))
  | inr e ↦ (
    (update_ne level p q i (ne_of_== p q e) ∙ a.0, a.1),
    heads_kept level i j p ps (omega arith) r,
  )
]

pub link_chunk-Ties :
    (ch i : ℕ) (s : Pages) (out : ℕ → ℕ)
    → i < freelist_size
    → IsAligned ch i
    → Ties s (λ v. out v + holds ch i v)
    → Ties (link_chunk ch i s) out
unfolding link_chunk
link_chunk-Ties ch i s out l al w = record {
  exact = λ v.
      omega (arith, w.exact v, cover-update freelist_size i s.free_head (ch ∷ s.free_head i) v l);
  heads = λ j k.
      let alone : hits j (s.free_head j) ch ≡ 0 =
        ground
          (arith, w.exact ch, holds_self ch i, hits-le-cover freelist_size j s.free_head ch k) in
      let kept = heads_kept s.level i j ch (s.free_head j) alone (w.heads j k) in
      elim (Bool-cases (i == j)) [
        | inl e ↦
            let q = (==_iff i j).0 e in
            subst
              (λ n.
                All (IsHead (update s.level ch i) n) (update s.free_head i (ch ∷ s.free_head i) n))
              q
              (subst (All (IsHead (update s.level ch i) i))
                (sym (update_self s.free_head i (ch ∷ s.free_head i)))
                (
                  (update_self s.level ch i, al),
                  subst (λ n. All (IsHead (update s.level ch i) n) (s.free_head n)) (sym q) kept,
                ))
        | inr e ↦
            subst (All (IsHead (update s.level ch i) j))
              (sym (update_ne s.free_head i j (ch ∷ s.free_head i) (ne_of_== i j e))) kept
      ];
}

pub unlink_chunk-Ties :
    (ch i : ℕ) (s : Pages) (out : ℕ → ℕ)
    → i < freelist_size
    → member ch (s.free_head i) ≡ true
    → Ties s out
    → Ties
        (record s { free_head = update s.free_head i (remove ch (s.free_head i)) })
        (λ v. out v + holds ch i v)
unlink_chunk-Ties ch i s out l m w = record {
  exact = λ v. omega (
    arith,
    w.exact v,
    hits-remove i ch (s.free_head i) v m,
    cover-update freelist_size i s.free_head (remove ch (s.free_head i)) v l,
  );
  heads = λ j k. elim (Bool-cases (i == j)) [
    | inl e ↦
        subst (λ n. All (IsHead s.level n) (update s.free_head i (remove ch (s.free_head i)) n))
          ((==_iff i j).0 e)
          (subst (All (IsHead s.level i))
            (sym (update_self s.free_head i (remove ch (s.free_head i))))
            (All-remove (IsHead s.level i) ch (s.free_head i) (w.heads i l)))
    | inr e ↦
        subst (All (IsHead s.level j))
          (sym (update_ne s.free_head i j (remove ch (s.free_head i)) (ne_of_== i j e)))
          (w.heads j k)
  ];
}
