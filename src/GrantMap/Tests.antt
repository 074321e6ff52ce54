-- ===== src/GrantMap/Tests.antt =====
-- Tests and witnesses of xen/gntmap.c: three pages, and a hypervisor that maps at most so many.
use rumpuser_xen.Prelude.{ℕ, ◌+◌, ◌≡◌, refl, true, List, [], ◌∷◌, arith, if◌then◌else◌, ltb}
use rumpuser_xen.GrantMap.{
  Hypervisor, map_page, find_free_entry, entry_used, map_entry, map_pages, map_grant_refs,
  gntmap_init, set_max_grants, blank_entries,
}
use rumpuser_xen.GrantMap.Column.{column, Unmaps}
use rumpuser_xen.GrantMap.Rollback.{AllOrNothing, map_grant_refs-AllOrNothing}

-- The state is the count of the pages that are mapped.
abbrev limited : ℕ → Hypervisor
limited most = record {
  State = ℕ;
  map_grant_ref = λ ref dom addr writable s. (
    record { rc = 0; status = if ltb s most then 0 else 1; handle = s + 100 },
    if ltb s most then s + 1 else s,
  );
  unmap_grant_ref = λ addr handle s. (record { rc = 0; status = 0; handle = 0 }, s);
}

abbrev three_refs : List (ℕ × ℕ)
three_refs = (1, 11) ∷ (1, 12) ∷ (2, 13) ∷ []

limited_two-Unmaps : Unmaps (limited 2)
limited_two-Unmaps = record { obeys = λ addr handle s. refl }

map_grant_refs-AllOrNothing_example :
    let (a, m', s') = map_grant_refs (limited 2) true 8192 three_refs true (gntmap_init, 0) in
    AllOrNothing
      (limited 2)
      8192
      3
      (column (set_max_grants true 128 gntmap_init).1.entries)
      (a, m'.entries, s')
unfolding set_max_grants gntmap_init blank_entries
map_grant_refs-AllOrNothing_example =
    map_grant_refs-AllOrNothing (limited 2) true 8192 three_refs true gntmap_init 0
      limited_two-Unmaps (omega arith) (refl, (refl, (refl, tt)))

two_mapped_then_undone : (map_pages (limited 2) 8192 0 true three_refs (blank_entries 4, 0)).0 ≡ 0
unfolding map_pages map_page find_free_entry blank_entries entry_used map_entry
two_mapped_then_undone = refl

three_mapped : (map_pages (limited 3) 8192 0 true three_refs (blank_entries 4, 0)).0 ≡ 8192
unfolding map_pages map_page find_free_entry blank_entries entry_used map_entry
three_mapped = refl

column_of_three :
    column (map_pages (limited 3) 8192 0 true three_refs (blank_entries 4, 0)).1
    ≡ 8192 ∷ 12288 ∷ 16384 ∷ 0 ∷ []
unfolding map_pages map_page find_free_entry blank_entries entry_used map_entry
column_of_three = refl
