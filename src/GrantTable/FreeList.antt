-- ===== src/GrantTable/FreeList.antt =====
-- xen/gnttab.c: `gnttab_list` is a linked list of the free entries, headed at entry 0, and
-- `gnttab_sem` counts it.
use rumpuser_xen.Prelude.{
  ℕ, zero, suc, ◌+◌, ◌-◌, ◌<◌, ◌≤◌, ◌≡◌, ◌≢◌, ◌⊎◌, ◌↔◌, refl, ◌∙◌, inl, true, false, List, [], ◌∷◌,
  arith, update, length, member, Distinct, All,
}
use rumpuser_xen.Sched.{ok, hang}
use rumpuser_xen.GrantTable.{
  Gnttab, Header, nr_reserved_entries, put_free_entry, put_entries, get_free_entry, init_gnttab,
}

-- The links from an entry on lead through these entries in turn.
abbrev pub Chain : (ℕ → ℕ) → ℕ → List ℕ → Type 0
Chain next p [] = Unit
Chain next p (x ∷ xs) = (next p ≡ x) × Chain next x xs

pub record IsFree (n : ℕ) (g : Gnttab) (free : List ℕ) : Type 0 where
  pub linked : Chain g.list 0 free
  pub once : Distinct free
  pub within : All (λ x. (nr_reserved_entries ≤ x) × (x < n)) free
  pub counted : g.sem ≡ length free

Chain-update :
    (next : ℕ → ℕ) (p r v : ℕ) (xs : List ℕ)
    → r ≢ p
    → member r xs ≡ false
    → Chain next p xs
    → Chain (update next r v) p xs
Chain-update next p r v [] n m c = tt
Chain-update next p r v (x ∷ xs) n m c =
    (ground arith, Chain-update next x r v xs (ground arith) (ground arith) c.1)

-- The head of the list moves.
Chain-head :
    (next next' : ℕ → ℕ) (p q : ℕ) (xs : List ℕ)
    → next' q ≡ next p
    → ((x : ℕ) → member x xs ≡ true → next' x ≡ next x)
    → Chain next p xs
    → Chain next' q xs
Chain-head next next' p q [] e f c = tt
Chain-head next next' p q (x ∷ xs) e f c =
    (e ∙ c.0, Chain-head next next' x x xs (f x (ground arith)) (λ y h. f y (ground arith)) c.1)

within-member :
    (n x : ℕ) (xs : List ℕ)
    → All (λ y. (nr_reserved_entries ≤ y) × (y < n)) xs
    → member x xs ≡ true
    → (nr_reserved_entries ≤ x) × (x < n)
within-member n x [] a m = cc
within-member n x (y ∷ xs) a m = ground (arith, within-member n x xs a.1)

-- An entry that is put back becomes the first free one.
pub put_free_entry-IsFree :
    (n ref : ℕ) (g : Gnttab) (free : List ℕ)
    → IsFree n g free
    → nr_reserved_entries ≤ ref
    → ref < n
    → member ref free ≡ false
    → IsFree n (put_free_entry ref g) (ref ∷ free)
unfolding put_free_entry
put_free_entry-IsFree n ref g free v a b m = record {
  linked = (
    ground arith,
    Chain-head g.list (update (update g.list ref (g.list 0)) 0 ref) 0 ref free (ground arith)
        (λ x h. ground (arith, within-member n x free v.within h)) v.linked,
  );
  once = (m, v.once);
  within = ((a, b), v.within);
  counted = omega (arith, v.counted);
}

-- While an entry is free, `get_free_entry` returns the first and leaves the others; else it waits.
pub get_free_entry_lem :
    (h : Header) (g : Gnttab) (x : ℕ) (free : List ℕ)
    → IsFree h.nr_entries g (x ∷ free)
    → (g' : Gnttab) × (get_free_entry h g ≡ ok (x, g'))
      × IsFree h.nr_entries g' free
      × (g'.table ≡ g.table)
unfolding get_free_entry
get_free_entry_lem h g x free v = (
  record g { list = update g.list 0 (g.list x); sem = g.sem - 1 },
  ground (arith, v.counted, v.linked, v.within),
  record {
    linked =
        Chain-head g.list (update g.list 0 (g.list x)) x 0 free (ground arith)
          (λ y k. ground (arith, within-member h.nr_entries y free v.within.1 k)) v.linked.1;
    once = v.once.1;
    within = v.within.1;
    counted = ground (arith, v.counted);
  },
  refl,
)

pub get_free_entry_empty :
    (h : Header) (g : Gnttab) → IsFree h.nr_entries g [] → get_free_entry h g ≡ hang
unfolding get_free_entry
get_free_entry_empty h g v = ground (arith, v.counted)

-- The entries that `put_entries` has put, the last first.
abbrev pub count_up : ℕ → ℕ → List ℕ → List ℕ
count_up zero i free = free
count_up (suc n) i free = count_up n (i + 1) (i ∷ free)

below-not_member : (i : ℕ) (xs : List ℕ) → All (λ x. x < i) xs → member i xs ≡ false
below-not_member i [] a = refl
below-not_member i (x ∷ xs) a = ground (arith, below-not_member i xs a.1)

below-suc : (i : ℕ) (xs : List ℕ) → All (λ x. x < i) xs → All (λ x. x < i + 1) xs
below-suc i [] a = tt
below-suc i (x ∷ xs) a = (omega (arith, a.0), below-suc i xs a.1)

member-count_up :
    (n i x : ℕ) (free : List ℕ)
    → ((i ≤ x) × (x < i + n)) ⊎ (member x free ≡ true)
    → member x (count_up n i free) ≡ true
member-count_up zero i x free h = ground arith
member-count_up (suc n) i x free h = member-count_up n (i + 1) x (i ∷ free) (ground arith)

put_entries-IsFree :
    (n m i : ℕ) (g : Gnttab) (free : List ℕ)
    → IsFree n g free
    → nr_reserved_entries ≤ i
    → i + m ≤ n
    → All (λ x. x < i) free
    → IsFree n (put_entries m i g) (count_up m i free)
unfolding put_entries
put_entries-IsFree n zero i g free v a b s = v
put_entries-IsFree n (suc m) i g free v a b s =
    put_entries-IsFree n m (i + 1) (put_free_entry i g) (i ∷ free)
      (put_free_entry-IsFree n i g free v a (omega arith) (below-not_member i free s)) (omega arith)
      (omega arith) (omega arith, below-suc i free s)

-- After `init_gnttab`, on a table whose semaphore is 0, the free list holds exactly the entries that
-- are not reserved, each once.
pub init_gnttab-IsFree :
    (h : Header) (g : Gnttab)
    → g.sem ≡ 0
    → nr_reserved_entries ≤ h.nr_entries
    → (free : List ℕ) × IsFree h.nr_entries (init_gnttab h g) free
      × ((x : ℕ) → (member x free ≡ true) ↔ ((nr_reserved_entries ≤ x) × (x < h.nr_entries)))
unfolding init_gnttab
init_gnttab-IsFree h g z b =
    let n = h.nr_entries in
    let free = count_up (n - nr_reserved_entries) nr_reserved_entries [] in
    let v =
      put_entries-IsFree n (n - nr_reserved_entries) nr_reserved_entries g []
        (record { linked = tt; once = tt; within = tt; counted = z }) (omega arith) (omega arith)
        tt in
    (
      free,
      v,
      λ x. (
        within-member n x free v.within,
        λ k. member-count_up (n - nr_reserved_entries) nr_reserved_entries x [] (inl (omega arith)),
      ),
    )
