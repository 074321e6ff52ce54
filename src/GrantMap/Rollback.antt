-- ===== src/GrantMap/Rollback.antt =====
-- xen/gntmap.c: `gntmap_map_grant_refs` maps all pages of a range or none.
use mathlib.Core.Path.{subst}
use rumpuser_xen.Prelude.{
  ℕ, zero, suc, ◌+◌, ◌≤◌, ◌<◌, ◌≡◌, ◌≢◌, ◌⊎◌, refl, sym, ap, ◌∙◌, inl, inr, Bool, false, List, [],
  ◌∷◌, ◌++◌, arith, ◌==◌, member, Distinct, Bool-cases, ◌^◌, ◌*◌, All, length, All-append,
}
use rumpuser_xen.GrantMap.{
  MapEntry, Code, done, busy, nomem, inval, failed, Hypervisor, page_at, Gntmap, set_max_grants,
  default_max_grants, munmap_page, map_page, munmap, map_pages, map_grant_refs,
}
use rumpuser_xen.GrantMap.Column.{column, fill, clear, Unmaps, map_page-fill, munmap_page-clear}
use rumpuser_xen.GrantMap.Places.{
  erase, clear-erase, fill-erase, pages, member-pages, pages_suc, page_nonzero, Once, All-apart,
  Once-clear, Once-fill, Distinct-pages, erase_nil, Once-nonzero, Once-apart, fill_apart,
  Once-fill_self,
}

not_done :
    {A : Type 0} (c : Code) (x y : A)
    → c ≢ done
    → elim c [ done ↦ x | busy ↦ y | nomem ↦ y | inval ↦ y | failed k ↦ y ] ≡ y
not_done done x y n = elim (n refl) [ ]
not_done busy x y n = refl
not_done nomem x y n = refl
not_done inval x y n = refl
not_done (failed k) x y n = refl

module _ (h : Hypervisor) where
  -- Pages that stand in the column once are all unmapped, and the column is without them.
  pub munmap-erase :
      (addr n i : ℕ) (es : List MapEntry) (s : h.State)
      → Unmaps h
      → Distinct (pages addr n i)
      → All (Once (column es)) (pages addr n i)
      → let (c, es', s') = munmap h addr n i (es, s) in
        (c ≡ done) × (column es' ≡ erase (pages addr n i) (column es))
  unfolding munmap
  munmap-erase addr zero i es s u d o = (refl, sym (erase_nil (column es)))
  munmap-erase addr (suc n) i es s u (d, ds) ((z, c, o), os) =
      let a = page_at addr i in
      let (m, es', s') = munmap_page h a (es, s) in
      let (e, k) = munmap_page-clear h a es s u o in
      let os' =
        subst (λ l. All (Once l) (pages addr n (i + 1))) (sym k)
          (All-apart (Once (column es)) (Once (clear a (column es))) a (pages addr n (i + 1))
            (λ b. Once-clear a b (column es)) d os) in
      let (f, g) = munmap-erase addr n (i + 1) es' s' u ds os' in
      rw (e, munmap)
        (
          f,
          g
              ∙ ap (erase (pages addr n (i + 1))) k
              ∙ clear-erase a (pages addr n (i + 1)) (column es) c z
                  (Once-nonzero (column es) (pages addr n (i + 1)) os) d,
        )

  abbrev pub AllOrNothing : ℕ → ℕ → List ℕ → ℕ × List MapEntry × h.State → Type 0
  AllOrNothing addr n before (a, es', s') =
      ((a ≡ addr) × All (Once (column es')) (pages addr n 0)) ⊎ ((a ≡ 0) × (column es' ≡ before))

  -- From page `i` on, when those before it are mapped.
  map_pages-rest :
      (addr i : ℕ) (writable : Bool) (refs : List (ℕ × ℕ)) (es : List MapEntry) (s : h.State)
      (before : List ℕ)
      → Unmaps h
      → 0 < addr
      → addr + 4096 * (i + length refs) ≤ 2 ^ 64
      → erase (pages addr i 0) (column es) ≡ before
      → All (Once (column es)) (pages addr i 0)
      → All (λ b. member b (column es) ≡ false) (pages addr (length refs) i)
      → AllOrNothing addr (i + length refs) before (map_pages h addr i writable refs (es, s))
  unfolding map_pages
  map_pages-rest addr i writable [] es s before u p b er on free =
      inl (refl, subst (λ n. All (Once (column es)) (pages addr n 0)) (omega arith) on)
  map_pages-rest addr i writable ((domid, ref) ∷ refs) es s before u p b er on (f, free) =
      let a = page_at addr i in
      let col = column es in
      let (c, es', s') = map_page h a domid ref writable (es, s) in
      elim (map_page-fill h a domid ref writable es s) [
        | inl (e, k, z) ↦
            let q : i + 1 + length refs ≡ i + length ((domid, ref) ∷ refs) = omega arith in
            let on' = subst (All (Once (column es'))) (sym (pages_suc addr i)) (
              subst (λ l. All (Once l) (pages addr i 0 ++ (a ∷ []))) (sym k)
                (All-append (Once (fill a col)) (pages addr i 0) (a ∷ [])
                  (All-apart (Once col) (Once (fill a col)) a (pages addr i 0)
                    (λ b. Once-fill a b col) (Once-apart a col (pages addr i 0) f on) on)
                  (Once-fill_self a col (page_nonzero addr i p (omega arith)) f z, tt))) in
            let er' =
              ap (λ l. erase l (column es')) (pages_suc addr i)
              ∙ ap (erase (pages addr i 0 ++ (a ∷ []))) k
              ∙ fill-erase a (pages addr i 0) col f
              ∙ er in
            let free' =
              subst (λ l. All (λ b. member b l ≡ false) (pages addr (length refs) (i + 1))) (sym k)
                (All-apart (λ b. member b col ≡ false) (λ b. member b (fill a col) ≡ false) a
                  (pages addr (length refs) (i + 1)) (λ b. fill_apart a b col)
                  (member-pages addr (length refs) (i + 1) i (omega arith) (omega arith)) free) in
            let ih =
              map_pages-rest addr (i + 1) writable refs es' s' before u p (omega arith) er' on'
                free' in
            rw (e, map_pages)
              (subst
                (λ n. AllOrNothing addr n before (map_pages h addr (i + 1) writable refs (es', s')))
                q ih)
        | inr (ne, same) ↦
            let (g, r) =
              munmap-erase addr i 0 es' s' u (Distinct-pages addr i 0 (omega arith))
                (subst (λ l. All (Once (column l)) (pages addr i 0)) (sym same) on) in
            subst (AllOrNothing addr (i + length ((domid, ref) ∷ refs)) before)
              (sym (
                not_done c (map_pages h addr (i + 1) writable refs (es', s'))
                  (0, (munmap h addr i 0 (es', s')).1, (munmap h addr i 0 (es', s')).2) ne))
              (inr (refl, r ∙ ap (λ l. erase (pages addr i 0) (column l)) same ∙ er))
      ]

  -- If the hypervisor unmaps what it is asked to, and none of the pages is mapped before, then
  -- map_pages maps all of them and returns the address of the first, or it returns 0 and the entries
  -- hold the addresses that they held before.
  pub map_pages-AllOrNothing :
      (addr : ℕ) (writable : Bool) (refs : List (ℕ × ℕ)) (es : List MapEntry) (s : h.State)
      → Unmaps h
      → 0 < addr
      → addr + 4096 * length refs ≤ 2 ^ 64
      → All (λ b. member b (column es) ≡ false) (pages addr (length refs) 0)
      → AllOrNothing addr (length refs) (column es) (map_pages h addr 0 writable refs (es, s))
  map_pages-AllOrNothing addr writable refs es s u p b free =
      subst (λ n. AllOrNothing addr n (column es) (map_pages h addr 0 writable refs (es, s)))
        (omega arith)
        (map_pages-rest addr 0 writable refs es s (column es) u p (omega arith)
          (erase_nil (column es)) tt free)

  -- If the hypervisor unmaps what it is asked to, the range does not wrap around and none of its pages
  -- is mapped before, then gntmap_map_grant_refs returns the range's address with every page in just
  -- one entry, or 0 with the entries' addresses as they were after gntmap_set_max_grants.
  pub map_grant_refs-AllOrNothing :
      (memory : Bool) (addr : ℕ) (refs : List (ℕ × ℕ)) (writable : Bool) (m : Gntmap) (s : h.State)
      → Unmaps h
      → addr + 4096 * length refs ≤ 2 ^ 64
      → All
          (λ b. member b (column (set_max_grants memory default_max_grants m).1.entries) ≡ false)
          (pages addr (length refs) 0)
      → let (a, m', s') = map_grant_refs h memory addr refs writable (m, s) in
        AllOrNothing addr
          (length refs)
          (column (set_max_grants memory default_max_grants m).1.entries)
          (a, m'.entries, s')
  unfolding map_grant_refs
  map_grant_refs-AllOrNothing memory addr refs writable m s u b free =
      let m' = (set_max_grants memory default_max_grants m).1 in
      elim (Bool-cases (addr == 0)) [
        | inl e ↦ rw e (inr (refl, refl))
        | inr e ↦
            rw e (map_pages-AllOrNothing addr writable refs m'.entries s u (ground arith) b free)
      ]
