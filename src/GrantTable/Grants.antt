-- ===== src/GrantTable/Grants.antt =====
-- xen/gnttab.c: a grant has its entry for itself until it ends.
use rumpuser_xen.Prelude.{
  update_self, ap, ℕ, ◌<◌, ◌≤◌, ◌≡◌, ◌≢◌, refl, sym, inl, inr, Bool, true, false, List, [], ◌∷◌,
  arith, ◌==◌, if◌then◌else◌, update, member, remove, Distinct, All, Bool-cases, ==_iff, ne_of_==,
  member-remove_self, member-remove_ne, Distinct-remove,
}
use mathlib.Core.Path.{subst}
use rumpuser_xen.Sched.{Outcome, ok, bug, hang}
use rumpuser_xen.GrantTable.{
  Entry, Gnttab, Header, nr_reserved_entries, put_free_entry, write_entry, grant_access, end_access,
  end_access_loop, set_flags, valid_ref,
}
use rumpuser_xen.GrantTable.FreeList.{IsFree, put_free_entry-IsFree, get_free_entry_lem}

-- The entries of the table: the free list, and those that were granted and not ended, apart.
pub record Ledger (h : Header) (g : Gnttab) (free granted : List ℕ) : Type 0 where
  pub listed : IsFree h.nr_entries g free
  pub once : Distinct granted
  pub valid : All (λ r. (nr_reserved_entries ≤ r) × (r < h.nr_entries)) granted
  pub apart : (r : ℕ) → member r granted ≡ true → member r free ≡ false

-- While an entry is free, `gnttab_grant_access` returns one that no grant has, within the table and not
-- reserved; it writes the frame, the domain and the flags, GTF_permit_access with or without GTF_readonly,
-- into that entry alone, and the entry is a grant's then and not free.
pub grant_access_lem :
    (h : Header) (g : Gnttab) (x : ℕ) (free granted : List ℕ) (domid frame : ℕ) (readonly : Bool)
    → Ledger h g (x ∷ free) granted
    → (g' : Gnttab) × (grant_access h domid frame readonly g ≡ ok (x, g'))
      × (member x granted ≡ false)
      × (nr_reserved_entries ≤ x)
      × (x < h.nr_entries)
      × Ledger h g' free (x ∷ granted)
      × ((g'.table x).frame ≡ frame)
      × ((g'.table x).domid ≡ domid)
      × ((g'.table x).flags ≡ h.flag_or h.permit_access (if readonly then h.readonly else 0))
      × ((r : ℕ) → x ≢ r → g'.table r ≡ g.table r)
unfolding grant_access write_entry
grant_access_lem h g x free granted domid frame readonly l =
    let (g₁, e, f, t) = get_free_entry_lem h g x free l.listed in
    let flags = h.flag_or h.permit_access (if readonly then h.readonly else 0) in
    let new : Entry = record { frame = frame; domid = domid; flags = flags } in
    let fresh : member x granted ≡ false = elim (Bool-cases (member x granted)) [
      | inl m ↦ ground (arith, l.apart x m)
      | inr m ↦ m
    ] in
    (
      record g₁ { table = update g₁.table x new },
      ap (write_entry domid frame flags) e,
      fresh,
      l.listed.within.0.0,
      l.listed.within.0.1,
      record {
        listed = record {
          linked = f.linked;
          once = f.once;
          within = f.within;
          counted = f.counted;
        };
        once = (fresh, l.once);
        valid = (l.listed.within.0, l.valid);
        apart = λ r m. ground (arith, l.apart r, l.listed.once);
      },
      ground arith,
      ground arith,
      ap (λ e. e.flags) (update_self g₁.table x new),
      (λ r n. ground (arith, t)),
    )

All-remove :
    (n r : ℕ) (xs : List ℕ)
    → All (λ x. (nr_reserved_entries ≤ x) × (x < n)) xs
    → All (λ x. (nr_reserved_entries ≤ x) × (x < n)) (remove r xs)
All-remove n r [] a = tt
All-remove n r (x ∷ xs) a = elim (Bool-cases (x == r)) [
  | inl e ↦ rw e a.1
  | inr e ↦ rw e (a.0, All-remove n r xs a.1)
]

valid-member :
    (n r : ℕ) (xs : List ℕ)
    → All (λ x. (nr_reserved_entries ≤ x) × (x < n)) xs
    → member r xs ≡ true
    → (nr_reserved_entries ≤ r) × (r < n)
valid-member n r [] a m = cc
valid-member n r (x ∷ xs) a m = ground (arith, valid-member n r xs a.1)

-- What the end of a grant does to the entries: they stay as they were, or the grant's entry becomes
-- free. `hang` is here only the end of the list of flags that were seen.
abbrev pub Ended : Header → ℕ → List ℕ → List ℕ → Outcome (Bool × Gnttab) → Type 0
Ended h ref free granted (ok (true, g)) = Ledger h g (ref ∷ free) (remove ref granted)
Ended h ref free granted (ok (false, g)) =
    Ledger h g free granted × (h.in_use (g.table ref).flags ≡ true)
Ended h ref free granted bug = ⊥
Ended h ref free granted hang = Unit

-- The table's contents do not matter to the ledger.
Ledger-table :
    (h : Header) (g : Gnttab) (free granted : List ℕ) (table : ℕ → Entry)
    → Ledger h g free granted
    → Ledger h (record g { table = table }) free granted
Ledger-table h g free granted table l = record {
  listed = record {
    linked = l.listed.linked;
    once = l.listed.once;
    within = l.listed.within;
    counted = l.listed.counted;
  };
  once = l.once;
  valid = l.valid;
  apart = l.apart;
}

put_back :
    (h : Header) (g : Gnttab) (ref : ℕ) (free granted : List ℕ)
    → Ledger h g free granted
    → member ref granted ≡ true
    → Ledger h (put_free_entry ref g) (ref ∷ free) (remove ref granted)
put_back h g ref free granted l m =
    let (a, b) = valid-member h.nr_entries ref granted l.valid m in
    record {
      listed = put_free_entry-IsFree h.nr_entries ref g free l.listed a b (l.apart ref m);
      once = Distinct-remove ref granted l.once;
      valid = All-remove h.nr_entries ref granted l.valid;
      apart = λ r k. elim (Bool-cases (ref == r)) [
        | inl e ↦
            let k' : member ref (remove ref granted) ≡ true =
              subst (λ x. member x (remove ref granted) ≡ true) (sym ((==_iff ref r).0 e)) k in
            cc (member-remove_self ref granted l.once)
        | inr e ↦ ground (arith, l.apart r, member-remove_ne ref r granted (ne_of_== ref r e))
      ];
    }

end_access_loop-Ended :
    (h : Header) (ref flags : ℕ) (seen : List ℕ) (g : Gnttab) (free granted : List ℕ)
    → Ledger h g free granted
    → member ref granted ≡ true
    → (g.table ref).flags ≡ flags
    → Ended h ref free granted (end_access_loop h ref flags seen g)
unfolding end_access_loop
end_access_loop-Ended h ref flags [] g free granted l m e = elim (Bool-cases (h.in_use flags)) [
  | inl u ↦ rw u (l, rw e u)
  | inr u ↦ rw u tt
]
end_access_loop-Ended h ref flags (f ∷ seen) g free granted l m e =
    elim (Bool-cases (h.in_use flags)) [
      | inl u ↦ rw u (l, rw e u)
      | inr u ↦ elim (Bool-cases (f == flags)) [
        | inl q ↦
            rw (u, q)
              (put_back h (set_flags ref 0 g) ref free granted (Ledger-table h g free granted _ l)
                m)
        | inr q ↦
            rw (u, q)
              (end_access_loop-Ended h ref f seen (set_flags ref f g) free granted
                (Ledger-table h g free granted _ l) m (ground arith))
      ]
    ]

-- `gnttab_end_access` on a grant in force never stops at its check. It says that it failed only
-- while the other domain uses the page, and then the grant stays in force; when it says that it
-- ended the grant, the entry is the first free one and in force no longer.
pub end_access-Ended :
    (h : Header) (ref : ℕ) (seen : List ℕ) (g : Gnttab) (free granted : List ℕ)
    → Ledger h g free granted
    → member ref granted ≡ true
    → Ended h ref free granted (end_access h ref seen g)
unfolding end_access
end_access-Ended h ref seen g free granted l m =
    let (a, b) = valid-member h.nr_entries ref granted l.valid m in
    let v : valid_ref h ref ≡ true = ground arith in
    rw v (end_access_loop-Ended h ref (g.table ref).flags seen g free granted l m refl)
