-- ===== src/Lwp/Name.antt =====
-- lib/_lwp.c: `_lwp_unpark_all` and `_lwp_setname`.
use rumpuser_xen.Prelude.{
  length-take, take_all, take, ℕ, suc, ◌+◌, ◌-◌, ◌≤◌, ◌<◌, ◌≡◌, refl, sym, ap, ◌∙◌, inl, inr, true,
  false, Option, none, some, List, [], ◌∷◌, ◌++◌, arith, ltb, if◌then◌else◌, length, length-append,
  update_self, Bool-cases, Option-cases,
}
use rumpuser_xen.Lwp.{
  Lwps, no_error, lwpid2scd, lwp_unpark, unpark_each, lwp_unpark_all, lwp_setname,
}
use rumpuser_xen.Lwp.Park.{lwp_unpark-lists, lwp_unpark-found}

-- How many of the identifiers find an lwp.
abbrev pub found : (ℕ → Option ℕ) → List ℕ → ℕ
found look [] = 0
found look (lid ∷ lids) = elim (look lid) [
  | some p ↦ suc (found look lids)
  | none ↦ found look lids
]

found_le : (look : ℕ → Option ℕ) (lids : List ℕ) → found look lids ≤ length lids
found_le look [] = omega arith
found_le look (lid ∷ lids) = ground (arith, found_le look lids)

lwp_unpark_missing :
    (l : Lwps) (lid : ℕ) → lwpid2scd l.scd l.scheds lid ≡ none → (lwp_unpark lid l).0 ≡ false
unfolding lwp_unpark
lwp_unpark_missing l lid e = rw (e, lwp_unpark) refl

unpark_each-found :
    (lids : List ℕ) (rv : ℕ) (l : Lwps)
    → length lids ≤ rv
    → (unpark_each lids rv l).0 + length lids ≡ rv + found (lwpid2scd l.scd l.scheds) lids
unfolding unpark_each
unpark_each-found [] rv l h = omega arith
unpark_each-found (lid ∷ lids) rv l h =
    let l' = (lwp_unpark lid l).1 in
    let (c, s, t) = lwp_unpark-lists lid l in
    let look : lwpid2scd l'.scd l'.scheds ≡ lwpid2scd l.scd l.scheds =
      ap (λ f. lwpid2scd f l'.scheds) c ∙ ap (lwpid2scd l.scd) s in
    let ih : (r : ℕ)
        → length lids ≤ r
        → (unpark_each lids r l').0 + length lids ≡ r + found (lwpid2scd l.scd l.scheds) lids =
      λ r k. unpark_each-found lids r l' k ∙ ap (λ f. r + found f lids) look in
    elim (Option-cases (lwpid2scd l.scd l.scheds lid)) [
      | inl e ↦
          rw (lwp_unpark_missing l lid e, unpark_each)
            (ground (arith, e, ih (rv - 1) (omega arith)))
      | inr (p, e) ↦
          rw ((lwp_unpark-found l lid p e).0, unpark_each) (ground (arith, e, ih rv (omega arith)))
    ]

-- _lwp_unpark_all answers how many of the identifiers name an lwp.
pub lwp_unpark_all-found :
    (targets : List ℕ) (l : Lwps)
    → (lwp_unpark_all (some targets) l).0 ≡ found (lwpid2scd l.scd l.scheds) targets
unfolding lwp_unpark_all
lwp_unpark_all-found targets l =
    omega (arith, unpark_each-found targets (length targets) l (omega arith))

take_fitting :
    (n : ℕ) (xs : List ℕ)
    → take ((if ltb n (length xs + 1) then n else length xs + 1) - 1) xs ≡ take (n - 1) xs
take_fitting n xs = elim (Bool-cases (ltb n (length xs + 1))) [
  | inl e ↦ rw e refl
  | inr e ↦ rw e (
      take_all (length xs + 1 - 1) xs (omega arith) ∙ sym (take_all (n - 1) xs (ground (arith, e))))
]

-- If an lwp has the identifier and there is memory, _lwp_setname succeeds and gives it the first
-- MAXCOMLEN - 1 bytes of the name with a NUL, which is at most MAXCOMLEN bytes.
pub lwp_setname-bounded :
    (maxcomlen lid p : ℕ) (name : List ℕ) (l : Lwps)
    → 0 < maxcomlen
    → lwpid2scd l.scd l.scheds lid ≡ some p
    → let (e, l') = lwp_setname maxcomlen true lid name l in
      let kept = take (maxcomlen - 1) name ++ (0 ∷ []) in
      (e ≡ no_error) × ((l'.scd p).name ≡ some kept) × (length kept ≤ maxcomlen)
unfolding lwp_setname
lwp_setname-bounded maxcomlen lid p name l z f =
    rw (f, lwp_setname)
      (
        refl,
        ap (λ c. c.name) (update_self l.scd p _)
            ∙ ap (λ k. some (k ++ (0 ∷ []))) (take_fitting maxcomlen name),
        omega (
          arith,
          length-append (take (maxcomlen - 1) name) (0 ∷ []),
          length-take (maxcomlen - 1) name,
        ),
      )
