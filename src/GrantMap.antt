-- ===== src/GrantMap.antt =====
-- xen/gntmap.c: pages of other domains, mapped into this one. The hypervisor's grant table operations
-- are a parameter with a state of their own, and so is the memory that the functions are given.
pub mod Column
pub mod Places
pub mod Rollback
mod Tests
use rumpuser_xen.Prelude.{
  ℕ, zero, suc, ◌+◌, ◌*◌, ◌%◌, ◌^◌, Bool, true, false, Option, none, some, List, [], ◌∷◌, ◌==◌,
  ◌/=◌, ◌||◌, if◌then◌else◌, get_elem?, set,
}

-- struct gntmap_entry; an entry is in use if its address is not 0.
pub record MapEntry : Type 0 where
  pub host_addr : ℕ
  pub handle : ℕ

pub record Gntmap : Type 0 where
  pub nentries : ℕ
  pub entries : List MapEntry

-- What a GNTTABOP_map_grant_ref or GNTTABOP_unmap_grant_ref leaves: the hypercall's result, the
-- operation's status and, of a mapping, the handle.
pub record Reply : Type 0 where
  pub rc : ℕ
  pub status : ℕ
  pub handle : ℕ

pub record Hypervisor : Type 1 where
  pub State : Type 0
  pub map_grant_ref : ℕ → ℕ → ℕ → Bool → State → Reply × State  -- ref, dom, host_addr, writable
  pub unmap_grant_ref : ℕ → ℕ → State → Reply × State  -- host_addr, handle

-- The results of these functions: 0, -EBUSY, -ENOMEM, -EINVAL, or what the hypervisor answered.
pub data Code : Type 0 where
  done busy nomem inval : Code
  failed : ℕ → Code

abbrev pub page_size : ℕ
page_size = 4096

abbrev pub default_max_grants : ℕ
default_max_grants = 128

abbrev pub page_at : ℕ → ℕ → ℕ
page_at addr i = (addr + page_size * i) % 2 ^ 64

unfoldable pub entry_used : MapEntry → Bool
entry_used e = e.host_addr /= 0

-- The index stands for the pointer to the entry.
unfoldable pub find_free_entry : List MapEntry → Option ℕ
find_free_entry [] = none
find_free_entry (e ∷ es) =
    if entry_used e
    then elim (find_free_entry es) [ some i ↦ some (suc i) | none ↦ none ]
    else some 0

unfoldable pub find_entry : List MapEntry → ℕ → Option ℕ
find_entry [] addr = none
find_entry (e ∷ es) addr =
    if e.host_addr == addr
    then some 0
    else elim (find_entry es addr) [ some i ↦ some (suc i) | none ↦ none ]

unfoldable pub blank_entries : ℕ → List MapEntry
blank_entries zero = []
blank_entries (suc n) = record { host_addr = 0; handle = 0 } ∷ blank_entries n

-- `memory` says whether `xmalloc_array` returns any.
unfoldable pub set_max_grants : Bool → ℕ → Gntmap → Code × Gntmap
set_max_grants memory count m =
    if m.nentries /= 0
    then (busy, m)
    else if memory
    then (done, record { nentries = count; entries = blank_entries count })
    else (nomem, record m { entries = [] })

unfoldable pub gntmap_init : Gntmap
gntmap_init = record { nentries = 0; entries = [] }

abbrev pub refused : Reply → Bool
refused r = r.rc /= 0 || r.status /= 0

abbrev pub code_of : Reply → Code
code_of r = failed (if r.rc /= 0 then r.rc else r.status)

module _ (h : Hypervisor) where
  open h use {State, map_grant_ref, unmap_grant_ref}

  -- `_gntmap_map_grant_ref` on the entry at an index.
  unfoldable pub map_entry :
      ℕ → ℕ → ℕ → ℕ → Bool → List MapEntry × State → Code × List MapEntry × State
  map_entry i addr domid ref writable (es, s) =
      let (r, s') = map_grant_ref ref (domid % 2 ^ 16) addr writable s in
      if refused r
      then (code_of r, es, s')
      else (done, set es i (record { host_addr = addr; handle = r.handle }), s')

  -- `_gntmap_unmap_grant_ref` on an entry with its index: only the address is cleared.
  unfoldable pub unmap_entry : ℕ → MapEntry → List MapEntry × State → Code × List MapEntry × State
  unmap_entry i e (es, s) =
      let (r, s') = unmap_grant_ref e.host_addr e.handle s in
      if refused r then (code_of r, es, s') else (done, set es i (record e { host_addr = 0 }), s')

  -- The body of the loop of `gntmap_munmap` for one page.
  unfoldable pub munmap_page : ℕ → List MapEntry × State → Code × List MapEntry × State
  munmap_page addr (es, s) = elim (find_entry es addr) [
    | none ↦ (inval, es, s)
    | some i ↦ elim (get_elem? es i) [ some e ↦ unmap_entry i e (es, s) | none ↦ (inval, es, s) ]
  ]

  -- `count` pages from page `i` of the range on.
  unfoldable pub munmap : ℕ → ℕ → ℕ → List MapEntry × State → Code × List MapEntry × State
  munmap start zero i m = (done, m.0, m.1)
  munmap start (suc count) i m =
      let (c, es, s) = munmap_page (page_at start i) m in
      let rest = munmap start count (i + 1) (es, s) in
      elim c [ done ↦ rest | other ↦ (other, es, s) ]

  -- One page of `gntmap_map_grant_refs`.
  unfoldable pub map_page : ℕ → ℕ → ℕ → Bool → List MapEntry × State → Code × List MapEntry × State
  map_page addr domid ref writable (es, s) = elim (find_free_entry es) [
    | none ↦ (nomem, es, s)
    | some i ↦ map_entry i addr domid ref writable (es, s)
  ]

  -- The pages from page `i` on, one for each domain and reference that are left; if one fails, those
  -- before it are unmapped and the result is NULL.
  unfoldable pub map_pages :
      ℕ → ℕ → Bool → List (ℕ × ℕ) → List MapEntry × State → ℕ × List MapEntry × State
  map_pages addr i writable [] m = (addr, m.0, m.1)
  map_pages addr i writable ((domid, ref) ∷ refs) m =
      let (c, es, s) = map_page (page_at addr i) domid ref writable m in
      let rest = map_pages addr (i + 1) writable refs (es, s) in
      let (c', es', s') = munmap addr i 0 (es, s) in elim c [ done ↦ rest | _ ↦ (0, es', s') ]

  -- `addr` is what `allocate_ondemand` returned.
  unfoldable pub map_grant_refs :
      Bool → ℕ → List (ℕ × ℕ) → Bool → Gntmap × State → ℕ × Gntmap × State
  map_grant_refs memory addr refs writable (m, s) =
      let m' = (set_max_grants memory default_max_grants m).1 in
      let (a, es, s') = map_pages addr 0 writable refs (m'.entries, s) in
      if addr == 0 then (0, m', s) else (a, record m' { entries = es }, s')

  -- The loop of `gntmap_fini`.
  unfoldable pub unmap_all : List MapEntry → State → State
  unmap_all [] s = s
  unmap_all (e ∷ es) s =
      unmap_all es (if entry_used e then (unmap_grant_ref e.host_addr e.handle s).1 else s)

  unfoldable pub gntmap_fini : Gntmap × State → Gntmap × State
  gntmap_fini (m, s) = (record { nentries = 0; entries = [] }, unmap_all m.entries s)
