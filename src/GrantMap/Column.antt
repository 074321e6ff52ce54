-- ===== src/GrantMap/Column.antt =====
-- xen/gntmap.c: the addresses of the entries, as a column, and what mapping and unmapping a page do
-- to it.
use rumpuser_xen.Prelude.{
  ℕ, zero, suc, ◌%◌, ◌^◌, ◌≡◌, ◌≢◌, ◌⊎◌, refl, sym, ap, ◌∙◌, inl, inr, Bool, true, false,
  Option-cases, none, some, List, [], ◌∷◌, arith, ◌==◌, if◌then◌else◌, get_elem?, set, member,
  Bool-cases, ==_iff,
}
use mathlib.Core.Path.{subst}
use rumpuser_xen.GrantMap.{
  MapEntry, done, Hypervisor, refused, entry_used, find_free_entry, find_entry, map_entry,
  unmap_entry, munmap_page, map_page,
}

abbrev pub column : List MapEntry → List ℕ
column [] = []
column (e ∷ es) = e.host_addr ∷ column es

-- The first free place takes the address.
abbrev pub fill : ℕ → List ℕ → List ℕ
fill a [] = []
fill a (x ∷ xs) = if x == 0 then a ∷ xs else x ∷ fill a xs

-- The first place with the address becomes free.
abbrev pub clear : ℕ → List ℕ → List ℕ
clear a [] = []
clear a (x ∷ xs) = if x == a then 0 ∷ xs else x ∷ clear a xs

column-set :
    (es : List MapEntry) (i : ℕ) (e : MapEntry)
    → column (set es i e) ≡ set (column es) i e.host_addr
column-set [] i e = refl
column-set (x ∷ es) zero e = refl
column-set (x ∷ es) (suc i) e = ap (λ l. x.host_addr ∷ l) (column-set es i e)

-- A free entry is found exactly if the column has a 0, and to set it fills the column.
find_free_entry-fill :
    (es : List MapEntry) (a i : ℕ)
    → find_free_entry es ≡ some i
    → set (column es) i a ≡ fill a (column es)
unfolding find_free_entry entry_used
find_free_entry-fill [] a i h = refl
find_free_entry-fill (x ∷ es) a i h = elim (Bool-cases (x.host_addr == 0)) [
  | inl e ↦ ground arith
  | inr e ↦ elim (Option-cases (find_free_entry es)) [
    | inl n ↦ ground (arith, n)
    | inr (j, f) ↦
        let q : suc j ≡ i = ground (arith, f) in
        subst (λ k. set (column (x ∷ es)) k a ≡ fill a (column (x ∷ es))) q
          (ground (arith, find_free_entry-fill es a j f))
  ]
]

find_free_entry-member :
    (es : List MapEntry) (i : ℕ) → find_free_entry es ≡ some i → member 0 (column es) ≡ true
unfolding find_free_entry entry_used
find_free_entry-member [] i h = cc
find_free_entry-member (x ∷ es) i h = elim (Option-cases (find_free_entry es)) [
  | inl n ↦ ground (arith, n)
  | inr (j, f) ↦ ground (arith, find_free_entry-member es j f)
]

-- The entry at the index has the address, and to free it clears the column.
abbrev Cleared : List MapEntry → ℕ → ℕ → Type 0
Cleared es a i =
    (e : MapEntry) × (get_elem? es i ≡ some e)
    × (e.host_addr ≡ a)
    × (set (column es) i 0 ≡ clear a (column es))

find_entry-clear : (es : List MapEntry) (a i : ℕ) → find_entry es a ≡ some i → Cleared es a i
unfolding find_entry
find_entry-clear [] a i h = cc
find_entry-clear (x ∷ es) a i h = elim (Bool-cases (x.host_addr == a)) [
  | inl e ↦
      let q : ◌≡◌ {A = ℕ} 0 i = ground arith in
      subst (Cleared (x ∷ es) a) q (x, refl, (==_iff x.host_addr a).0 e, ground arith)
  | inr e ↦ elim (Option-cases (find_entry es a)) [
    | inl n ↦ ground (arith, n)
    | inr (j, f) ↦
        let q : suc j ≡ i = ground (arith, f) in
        let (y, g, k, l) = find_entry-clear es a j f in
        subst (Cleared (x ∷ es) a) q (y, g, k, ground (arith, l))
  ]
]

find_entry-none :
    (es : List MapEntry) (a : ℕ) → find_entry es a ≡ none → member a (column es) ≡ false
unfolding find_entry
find_entry-none [] a h = refl
find_entry-none (x ∷ es) a h = ground (arith, find_entry-none es a)

-- A hypervisor that unmaps every page that it is asked to.
pub record Unmaps (h : Hypervisor) : Type 0 where
  pub obeys : (addr handle : ℕ) (s : h.State) → refused (h.unmap_grant_ref addr handle s).0 ≡ false

module _ (h : Hypervisor) where
  -- A page that is mapped fills the first free place of the column; one that is not leaves it.
  pub map_page-fill :
      (addr domid ref : ℕ) (writable : Bool) (es : List MapEntry) (s : h.State)
      → let (c, es', s') = map_page h addr domid ref writable (es, s) in
        ((c ≡ done) × (column es' ≡ fill addr (column es)) × (member 0 (column es) ≡ true))
        ⊎ ((c ≢ done) × (es' ≡ es))
  unfolding map_page map_entry
  map_page-fill addr domid ref writable es s = elim (Option-cases (find_free_entry es)) [
    | inl n ↦ rw (n, map_page) (inr ((λ e. cc), refl))
    | inr (i, f) ↦
        elim (Bool-cases (refused (h.map_grant_ref ref (domid % 2 ^ 16) addr writable s).0)) [
          | inl r ↦ rw (f, map_page) (rw r (inr ((λ e. cc), refl)))
          | inr r ↦
              rw (f, map_page)
                (rw r (
                  inl (
                    refl,
                    column-set es i _ ∙ find_free_entry-fill es addr i f,
                    find_free_entry-member es i f,
                  )))
        ]
  ]

  -- A page that is found is unmapped and clears its place.
  pub munmap_page-clear :
      (addr : ℕ) (es : List MapEntry) (s : h.State)
      → Unmaps h
      → member addr (column es) ≡ true
      → let (c, es', s') = munmap_page h addr (es, s) in
        (c ≡ done) × (column es' ≡ clear addr (column es))
  unfolding munmap_page unmap_entry
  munmap_page-clear addr es s u m = elim (Option-cases (find_entry es addr)) [
    | inl n ↦ cc (sym m ∙ find_entry-none es addr n)
    | inr (i, f) ↦
        let (e, g, k, l) = find_entry-clear es addr i f in
        rw (f, munmap_page)
          (rw (g, munmap_page) (rw (u.obeys e.host_addr e.handle s) (refl, column-set es i _ ∙ l)))
  ]
