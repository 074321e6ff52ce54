-- ===== src/Lwp/Issue.antt =====
-- lib/_lwp.c: `_lwp_create` and `_lwp_exit` on the list of the lwps.
use mathlib.Core.Path.{subst}
use rumpuser_xen.Prelude.{
  ℕ, suc, ◌+◌, ◌%◌, ◌^◌, ◌≤◌, ◌<◌, ◌≡◌, ◌≢◌, refl, sym, ap, ◌∙◌, inl, inr, true, false, none, some,
  List, [], ◌∷◌, ◌++◌, arith, ◌==◌, member, remove, update, update_self, update_ne, All, All-append,
  Distinct, Distinct-snoc, Distinct-remove, member-remove_self, Option-cases, Bool-cases, ==_iff,
}
use rumpuser_xen.Lwp.{
  Schedulable, Lwps, no_error, lwpid2scd, lwp_create, lwp_exit, lwp_self, cpu_exited,
}
use rumpuser_xen.Lwp.Lookup.{
  Ids, ids, lwpid2scd_absent, lwpid2scd_same, ids_same, lwpid2scd-append, ids-append,
  lwpid2scd-remove, ids-remove,
}

member_above : (k n : ℕ) (xs : List ℕ) → n < k → All (λ i. i ≤ n) xs → member k xs ≡ false
member_above k n [] l h = refl
member_above k n (x ∷ xs) l (h, r) = ground (arith, member_above k n xs l r)

All-weaken : (k n : ℕ) (xs : List ℕ) → n ≤ k → All (λ i. i ≤ n) xs → All (λ i. i ≤ k) xs
All-weaken k n [] l h = tt
All-weaken k n (x ∷ xs) l (h, r) = (omega arith, All-weaken k n xs l r)

All-remove : (a : ℕ) (P : ℕ → Type 0) (xs : List ℕ) → All P xs → All P (remove a xs)
All-remove a P [] h = tt
All-remove a P (x ∷ xs) (h, r) = elim (Bool-cases (x == a)) [
  | inl e ↦ rw e r
  | inr e ↦ rw e (h, All-remove a P xs r)
]

member_ne : (p q : ℕ) (xs : List ℕ) → member p xs ≡ false → member q xs ≡ true → p ≢ q
member_ne p q xs f m e = cc (sym f ∙ ap (λ k. member k xs) e ∙ m)

-- A list with one more lwp at its end, whose identifier is new.
join_Ids :
    (l l' : Lwps) (p : ℕ)
    → Ids l
    → member p l.scheds ≡ false
    → ((q : ℕ) → member q l.scheds ≡ true → (l'.scd q).lwpid ≡ (l.scd q).lwpid)
    → l'.scheds ≡ l.scheds ++ (p ∷ [])
    → (l'.scd p).lwpid ≡ suc l.curlwpid
    → l'.curlwpid ≡ suc l.curlwpid
    → Ids l'
join_Ids l l' p w f same e i c =
    let new =
      member_above (suc l.curlwpid) l.curlwpid (ids l.scd l.scheds) (omega arith) w.issued in
    let k : ids l'.scd l'.scheds ≡ ids l.scd l.scheds ++ (suc l.curlwpid ∷ []) =
      ap (ids l'.scd) e
      ∙ ids-append l'.scd l.scheds p
      ∙ ap (λ x. x ++ ((l'.scd p).lwpid ∷ [])) (ids_same l.scd l'.scd l.scheds same)
      ∙ ap (λ x. ids l.scd l.scheds ++ (x ∷ [])) i in
    record {
      linked = subst Distinct (sym e) (Distinct-snoc p l.scheds w.linked f);
      different =
          subst Distinct (sym k)
            (Distinct-snoc (suc l.curlwpid) (ids l.scd l.scheds) w.different new);
      issued =
          subst (λ n. All (λ i. i ≤ n) (ids l'.scd l'.scheds)) (sym c)
            (subst (All (λ i. i ≤ suc l.curlwpid)) (sym k) (
              All-append (λ i. i ≤ suc l.curlwpid) (ids l.scd l.scheds) (suc l.curlwpid ∷ [])
                (All-weaken (suc l.curlwpid) l.curlwpid (ids l.scd l.scheds) (omega arith) w.issued)
                (omega arith, tt)));
    }

append_found :
    (scd : ℕ → Schedulable) (ps : List ℕ) (p lid : ℕ)
    → lwpid2scd scd ps lid ≡ none
    → (scd p).lwpid ≡ lid
    → lwpid2scd scd (ps ++ (p ∷ [])) lid ≡ some p
append_found scd ps p lid n e = ground (arith, lwpid2scd-append scd ps p lid, n)

append_other :
    (scd : ℕ → Schedulable) (ps : List ℕ) (p lid : ℕ)
    → (scd p).lwpid ≢ lid
    → lwpid2scd scd (ps ++ (p ∷ [])) lid ≡ lwpid2scd scd ps lid
append_other scd ps p lid n = elim (Option-cases (lwpid2scd scd ps lid)) [
  | inl e ↦ ground (arith, lwpid2scd-append scd ps p lid, e)
  | inr (q, e) ↦ ground (arith, lwpid2scd-append scd ps p lid, e)
]

-- If the lwp is not on the list, there is memory for its thread and the identifiers do not wrap
-- around, then _lwp_create succeeds, all identifiers stay different, the new one finds the new lwp,
-- and every other finds what it found before.
pub lwp_create-Ids :
    (p t pages other : ℕ) (l : Lwps)
    → Ids l
    → member p l.scheds ≡ false
    → t ≢ 0
    → l.curlwpid + 1 < 2 ^ 32
    → other ≢ l.curlwpid + 1
    → let (e, lid, l') = lwp_create p t pages l in
      (e ≡ no_error)
      × Ids l'
      × (lwpid2scd l'.scd l'.scheds lid ≡ some p)
      × (lwpid2scd l'.scd l'.scheds other ≡ lwpid2scd l.scd l.scheds other)
unfolding lwp_create
lwp_create-Ids p t pages other l w f z b o =
    let n : (t == 0) ≡ false = ground arith in
    let lid = (l.curlwpid + 1) % 2 ^ 32 in
    let i : lid ≡ suc l.curlwpid = omega arith in
    let c = record (l.scd p) { lwpid = lid; thread = t } in
    let scd' = update l.scd p c in
    let at : (scd' p).lwpid ≡ lid = ap (λ x. x.lwpid) (update_self l.scd p c) in
    let same : (q : ℕ) → member q l.scheds ≡ true → (scd' q).lwpid ≡ (l.scd q).lwpid =
      λ q m. ap (λ x. x.lwpid) (update_ne l.scd p q c (λ e. member_ne p q l.scheds f m e)) in
    let new = member_above lid l.curlwpid (ids l.scd l.scheds) (omega (arith, i)) w.issued in
    rw n (
      refl,
      join_Ids l _ p w f same refl (at ∙ i) i,
      append_found scd' l.scheds p lid
          (lwpid2scd_same l.scd scd' l.scheds lid same ∙ lwpid2scd_absent l.scd l.scheds lid new)
          at,
      append_other scd' l.scheds p other (λ e. o (omega (arith, i, sym e ∙ at)))
          ∙ lwpid2scd_same l.scd scd' l.scheds other same,
    )

-- If the current lwp is on the list, then after _lwp_exit its identifier finds nothing, every other
-- finds what it found before, and the identifiers stay different.
pub lwp_exit-Ids :
    (other : ℕ) (l : Lwps)
    → Ids l
    → member l.curtcb l.scheds ≡ true
    → other ≢ lwp_self l
    → let l' = lwp_exit l in
      Ids l'
      × (lwpid2scd l'.scd l'.scheds (lwp_self l) ≡ none)
      × (lwpid2scd l'.scd l'.scheds other ≡ lwpid2scd l.scd l.scheds other)
unfolding lwp_exit lwp_self
lwp_exit-Ids other l w m o =
    let p = l.curtcb in
    let scd' = update l.scd p (record (l.scd p) { curcpu = cpu_exited }) in
    let lid = (l.scd p).lwpid in
    let rest = remove p l.scheds in
    let same : (q : ℕ) → (scd' q).lwpid ≡ (l.scd q).lwpid = λ q. exited_same l p q in
    let k : ids scd' rest ≡ remove lid (ids l.scd l.scheds) =
      ids_same l.scd scd' rest (λ q h. same q) ∙ ids-remove l.scd l.scheds p w.different m in
    (
      record {
        linked = Distinct-remove p l.scheds w.linked;
        different = subst Distinct (sym k) (Distinct-remove lid (ids l.scd l.scheds) w.different);
        issued =
            subst (All (λ i. i ≤ l.curlwpid)) (sym k)
              (All-remove lid (λ i. i ≤ l.curlwpid) (ids l.scd l.scheds) w.issued);
      },
      lwpid2scd_absent scd' rest lid
          (ap (member lid) k ∙ member-remove_self lid (ids l.scd l.scheds) w.different),
      lwpid2scd_same l.scd scd' rest other (λ q h. same q)
          ∙ lwpid2scd-remove l.scd l.scheds p other (λ e. o (sym e)),
    )
  where
    exited_same :
        (l : Lwps) (p q : ℕ)
        → (update l.scd p (record (l.scd p) { curcpu = cpu_exited }) q).lwpid ≡ (l.scd q).lwpid
    exited_same l p q = elim (Bool-cases (p == q)) [
      | inl e ↦ rw e (ap (λ k. (l.scd k).lwpid) ((==_iff p q).0 e))
      | inr e ↦ rw e refl
    ]
