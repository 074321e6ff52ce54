-- ===== src/GrantTable/Tests.antt =====
-- The grant table's theorems at states that meet their hypotheses.
use rumpuser_xen.Prelude.{
  ℕ, ◌+◌, ◌<◌, ◌≤◌, ◌≡◌, ◌≢◌, refl, true, false, [], ◌∷◌, arith, ◌==◌, leb, if◌then◌else◌, member,
}
use rumpuser_xen.Sched.{ok}
use rumpuser_xen.GrantTable.{
  Gnttab, Header, nr_reserved_entries, put_free_entry, grant_access, end_transfer,
  end_transfer_loop, await_transfer,
}
use rumpuser_xen.GrantTable.Grants.{Ledger, grant_access_lem}

-- Twelve entries, of which eight are reserved; the flags are small numbers that add up.
abbrev header : Header
header = record {
  nr_entries = 12;
  permit_access = 1;
  readonly = 4;
  accept_transfer = 2;
  flag_or = λ a b. a + b;
  in_use = λ f. leb 8 f;
  committed = λ f. leb 32 f;
  completed = λ f. leb 64 f;
}

abbrev blank : Gnttab
blank = record { table = λ r. record { frame = 0; domid = 0; flags = 0 }; list = λ r. 0; sem = 0 }

-- Entries 8 and 9 are free, 10 is granted.
abbrev partly : Gnttab
partly = record blank { list = λ r. if r == 0 then 8 else if r == 8 then 9 else 0; sem = 2 }

partly-Ledger : Ledger header partly (8 ∷ 9 ∷ []) (10 ∷ [])
partly-Ledger = record {
  listed = record {
    linked = (refl, (refl, tt));
    once = (refl, (refl, tt));
    within = omega arith;
    counted = refl;
  };
  once = (refl, tt);
  valid = omega arith;
  apart = λ r m. ground arith;
}

grant_access_lem_example :
    (g' : Gnttab) × (grant_access header 3 77 true partly ≡ ok (8, g'))
    × (member 8 (10 ∷ []) ≡ false)
    × (nr_reserved_entries ≤ 8)
    × (8 < 12)
    × Ledger header g' (9 ∷ []) (8 ∷ 10 ∷ [])
    × ((g'.table 8).frame ≡ 77)
    × ((g'.table 8).domid ≡ 3)
    × ((g'.table 8).flags ≡ header.flag_or header.permit_access header.readonly)
    × ((r : ℕ) → ◌≢◌ {A = ℕ} 8 r → g'.table r ≡ partly.table r)
grant_access_lem_example =
    grant_access_lem header partly 8 (9 ∷ []) (10 ∷ []) 3 77 true partly-Ledger

-- A committed transfer is waited for, and its frame is returned.
transfer_completes :
    (g : Gnttab) × (end_transfer header 10 ((33, 33) ∷ []) ((40, 0) ∷ (65, 99) ∷ []) partly
      ≡ ok (99, g))
unfolding end_transfer end_transfer_loop await_transfer put_free_entry
transfer_completes = (_, refl)
