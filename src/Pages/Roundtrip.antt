-- ===== src/Pages/Roundtrip.antt =====
-- xen/mm.c: what is allocated can be given back.
use mathlib.Core.Path.{subst}
use rumpuser_xen.Prelude.{ℕ, ◌+◌, ◌-◌, ◌^◌, ◌≤◌, ◌<◌, ◌≡◌, inl, inr, some, arith, leb, Bool-cases}
use native.Mathlib.Nat.{one-le-pow}
use rumpuser_xen.Sched.{ok}
use rumpuser_xen.Pages.{Pages, freelist_size, allocated_in_map, alloc_pages, free_pages}
use rumpuser_xen.Pages.Cover.{IsSound}
use rumpuser_xen.Pages.Alloc.{Allocated, alloc_pages-IsSound}
use rumpuser_xen.Pages.Free.{limit, IsLimited, free_pages-IsSound}

-- On sound lists whose memory lies below 2 ^ 51 pages, free_pages takes back every chunk that
-- alloc_pages gave, and the same pages are free as before.
pub free_pages-alloc_pages :
    (order ch : ℕ) (s s1 : Pages)
    → order < freelist_size
    → IsSound s
    → IsLimited s.alloc_bitmap
    → alloc_pages order s ≡ (some ch, s1)
    → (s' : Pages) × (free_pages ch order s1 ≡ ok s')
      × IsSound s'
      × ((v : ℕ) → allocated_in_map s'.alloc_bitmap v ≡ allocated_in_map s.alloc_bitmap v)
free_pages-alloc_pages order ch s s1 l w lim e =
    let a : Allocated order s (some ch, s1) =
      subst (Allocated order s) e (alloc_pages-IsSound order s l w) in
    let (w1, al, free, now) = a in
    let last = ch + 2 ^ order - 1 in
    let one = one-le-pow order 2 (omega arith) in
    let top : ch + 2 ^ order ≤ limit = elim (Bool-cases (leb limit last)) [
      | inl f ↦ absurd (ground (arith, f, free last, lim last, one))
      | inr f ↦ ground (arith, f, one)
    ] in
    let (s', f, w', after) =
      free_pages-IsSound ch order s1 l w1 (λ v b. ground (arith, now v, lim v b)) al top
        (λ v b c. ground (arith, now v, b, c)) in
    (s', f, w', λ v. ground (arith, after v, now v, free v))
