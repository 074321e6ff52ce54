-- ===== src/GrantTable.antt =====
-- xen/gnttab.c: the table of pages that other domains may map, and the list of its free entries.
-- What the file takes from Xen's headers (the number of entries and the GTF flags) is a parameter.
pub mod FreeList
pub mod Grants
mod Tests
use rumpuser_xen.Prelude.{
  ℕ, zero, suc, ◌+◌, ◌-◌, ◌<◌, ◌≤◌, Bool, true, false, ◌||◌, List, [], ◌∷◌, ltb, leb, ◌==◌,
  if◌then◌else◌, update,
}
use rumpuser_xen.Sched.{Outcome, ok, bug, hang}

pub record Entry : Type 0 where
  pub frame : ℕ
  pub domid : ℕ
  pub flags : ℕ

pub record Gnttab : Type 0 where
  pub table : ℕ → Entry  -- `gnttab_table`
  pub list : ℕ → ℕ  -- `gnttab_list`
  pub sem : ℕ  -- the count of `gnttab_sem`

abbrev pub nr_reserved_entries : ℕ
nr_reserved_entries = 8

-- xen/grant_table.h
pub record Header : Type 0 where
  pub nr_entries : ℕ  -- NR_GRANT_FRAMES pages of entries
  pub permit_access : ℕ  -- GTF_permit_access
  pub readonly : ℕ  -- GTF_readonly
  pub accept_transfer : ℕ  -- GTF_accept_transfer
  pub flag_or : ℕ → ℕ → ℕ  -- `|` on the flags
  pub in_use : ℕ → Bool  -- GTF_reading or GTF_writing is set
  pub committed : ℕ → Bool  -- GTF_transfer_committed is set
  pub completed : ℕ → Bool  -- GTF_transfer_completed is set

unfoldable pub put_free_entry : ℕ → Gnttab → Gnttab
put_free_entry ref g = record g {
  list = update (update g.list ref (g.list 0)) 0 ref;
  sem = g.sem + 1;
}

-- The loop of `init_gnttab`: `n` rounds from entry `i` on.
unfoldable pub put_entries : ℕ → ℕ → Gnttab → Gnttab
put_entries zero i g = g
put_entries (suc n) i g = put_entries n (i + 1) (put_free_entry i g)

unfoldable pub write_entry : ℕ → ℕ → ℕ → Outcome (ℕ × Gnttab) → Outcome (ℕ × Gnttab)
write_entry domid frame flags (ok (ref, g)) = ok (
  ref,
  record g { table = update g.table ref (record { frame = frame; domid = domid; flags = flags }) },
)
write_entry domid frame flags bug = bug
write_entry domid frame flags hang = hang

abbrev pub set_flags : ℕ → ℕ → Gnttab → Gnttab
set_flags ref f g = record g { table = update g.table ref (record (g.table ref) { flags = f }) }

module _ (h : Header) where
  -- `hang` is a wait at the semaphore, which only a `put_free_entry` ends.
  unfoldable pub get_free_entry : Gnttab → Outcome (ℕ × Gnttab)
  get_free_entry g =
      if g.sem == 0
      then hang
      else (let ref = g.list 0 in
          if ltb ref nr_reserved_entries || leb h.nr_entries ref
          then bug
          else ok (ref, record g { list = update g.list 0 (g.list ref); sem = g.sem - 1 }))

  unfoldable pub grant_access : ℕ → ℕ → Bool → Gnttab → Outcome (ℕ × Gnttab)
  grant_access domid frame readonly g =
      write_entry domid frame (h.flag_or h.permit_access (if readonly then h.readonly else 0))
        (get_free_entry g)

  unfoldable pub grant_transfer : ℕ → ℕ → Gnttab → Outcome (ℕ × Gnttab)
  grant_transfer domid pfn g = write_entry domid pfn h.accept_transfer (get_free_entry g)

  abbrev pub valid_ref : ℕ → Bool
  valid_ref ref = if leb h.nr_entries ref then false else leb nr_reserved_entries ref

  -- The other domain may change the flags at any time: `seen` are the values that the flags have
  -- when each compare-and-exchange reads them. `hang` stands for the end of that list.
  unfoldable pub end_access_loop : ℕ → ℕ → List ℕ → Gnttab → Outcome (Bool × Gnttab)
  end_access_loop ref flags [] g = if h.in_use flags then ok (false, g) else hang
  end_access_loop ref flags (f ∷ seen) g =
      let rest = end_access_loop ref f seen (set_flags ref f g) in
      if h.in_use flags
      then ok (false, g)
      else if f == flags
      then ok (true, put_free_entry ref (set_flags ref 0 g))
      else rest

  unfoldable pub end_access : ℕ → List ℕ → Gnttab → Outcome (Bool × Gnttab)
  end_access ref seen g =
      if valid_ref ref then end_access_loop ref (g.table ref).flags seen g else bug

  -- The wait for the end of a committed transfer, and the frame that it brought. `seen` are the
  -- flags and the frame at each read.
  unfoldable pub await_transfer : ℕ → ℕ → List (ℕ × ℕ) → Gnttab → Outcome (ℕ × Gnttab)
  await_transfer ref flags [] g =
      if h.completed flags then ok ((g.table ref).frame, put_free_entry ref g) else hang
  await_transfer ref flags ((f, frame) ∷ seen) g =
      let rest = await_transfer ref f seen (record g {
        table = update g.table ref (record (g.table ref) { flags = f; frame = frame });
      }) in
      if h.completed flags then ok ((g.table ref).frame, put_free_entry ref g) else rest

  -- The first loop reads the flags, and takes the grant back if they did not change since.
  unfoldable pub end_transfer_loop : ℕ → List (ℕ × ℕ) → List (ℕ × ℕ) → Gnttab → Outcome (ℕ × Gnttab)
  end_transfer_loop ref [] later g = hang
  end_transfer_loop ref ((flags, swapped) ∷ seen) later g =
      let rest = end_transfer_loop ref seen later (set_flags ref swapped g) in
      if h.committed flags
      then await_transfer ref flags later (set_flags ref flags g)
      else if swapped == flags
      then ok (0, put_free_entry ref (set_flags ref 0 g))
      else rest

  unfoldable pub end_transfer : ℕ → List (ℕ × ℕ) → List (ℕ × ℕ) → Gnttab → Outcome (ℕ × Gnttab)
  end_transfer ref seen later g = if valid_ref ref then end_transfer_loop ref seen later g else bug

  -- `init_gnttab`, behind which the table lies in the frames that the hypervisor gave.
  unfoldable pub init_gnttab : Gnttab → Gnttab
  init_gnttab g = put_entries (h.nr_entries - nr_reserved_entries) nr_reserved_entries g
