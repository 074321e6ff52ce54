-- ===== src/Lwp/Lookup.antt =====
-- lib/_lwp.c: the identifiers of the lwps on the list, and finding an lwp by its own.
use mathlib.Core.Path.{subst}
use rumpuser_xen.Prelude.{
  ℕ, ◌≤◌, ◌≡◌, ◌≢◌, refl, ap, inl, inr, true, false, none, some, List, [], ◌∷◌, ◌++◌, arith, ◌==◌,
  if◌then◌else◌, member, remove, All, Distinct, Bool-cases, ==_iff,
}
use rumpuser_xen.Lwp.{Schedulable, Lwps, lwpid2scd}

abbrev pub ids : (ℕ → Schedulable) → List ℕ → List ℕ
ids scd [] = []
ids scd (p ∷ ps) = (scd p).lwpid ∷ ids scd ps

-- No two lwps share an identifier, and the identifiers were issued.
pub record Ids (l : Lwps) : Type 0 where
  pub linked : Distinct l.scheds
  pub different : Distinct (ids l.scd l.scheds)
  pub issued : All (λ i. i ≤ l.curlwpid) (ids l.scd l.scheds)

pub lwpid2scd_absent :
    (scd : ℕ → Schedulable) (ps : List ℕ) (lid : ℕ)
    → member lid (ids scd ps) ≡ false
    → lwpid2scd scd ps lid ≡ none
unfolding lwpid2scd
lwpid2scd_absent scd [] lid m = refl
lwpid2scd_absent scd (p ∷ ps) lid m = ground (arith, lwpid2scd_absent scd ps lid)

member-ids :
    (scd : ℕ → Schedulable) (ps : List ℕ) (p : ℕ)
    → member p ps ≡ true
    → member (scd p).lwpid (ids scd ps) ≡ true
member-ids scd [] p m = cc
member-ids scd (q ∷ ps) p m = elim (Bool-cases (q == p)) [
  | inl e ↦
      let f : (scd q).lwpid ≡ (scd p).lwpid = ap (λ k. (scd k).lwpid) ((==_iff q p).0 e) in
      ground (arith, f)
  | inr e ↦ ground (arith, member-ids scd ps p)
]

-- An lwp on the list is found by its identifier.
pub lwpid2scd-member :
    (scd : ℕ → Schedulable) (ps : List ℕ) (p : ℕ)
    → Distinct (ids scd ps)
    → member p ps ≡ true
    → lwpid2scd scd ps (scd p).lwpid ≡ some p
unfolding lwpid2scd
lwpid2scd-member scd [] p d m = cc
lwpid2scd-member scd (q ∷ ps) p d m = elim (Bool-cases (q == p)) [
  | inl e ↦
      let f : q ≡ p = (==_iff q p).0 e in
      subst (λ k. lwpid2scd scd (q ∷ ps) (scd k).lwpid ≡ some k) f (ground arith)
  | inr e ↦ ground (arith, lwpid2scd-member scd ps p d.1, member-ids scd ps p)
]

-- Only the identifiers of those on the list count.
pub lwpid2scd_same :
    (scd scd' : ℕ → Schedulable) (ps : List ℕ) (lid : ℕ)
    → ((p : ℕ) → member p ps ≡ true → (scd' p).lwpid ≡ (scd p).lwpid)
    → lwpid2scd scd' ps lid ≡ lwpid2scd scd ps lid
unfolding lwpid2scd
lwpid2scd_same scd scd' [] lid same = refl
lwpid2scd_same scd scd' (p ∷ ps) lid same =
    let e : (scd' p).lwpid ≡ (scd p).lwpid = same p (ground arith) in
    let r = lwpid2scd_same scd scd' ps lid (λ q m. same q (ground (arith, m))) in rw (e, r) refl

pub ids_same :
    (scd scd' : ℕ → Schedulable) (ps : List ℕ)
    → ((p : ℕ) → member p ps ≡ true → (scd' p).lwpid ≡ (scd p).lwpid)
    → ids scd' ps ≡ ids scd ps
ids_same scd scd' [] same = refl
ids_same scd scd' (p ∷ ps) same =
    let e : (scd' p).lwpid ≡ (scd p).lwpid = same p (ground arith) in
    let r = ids_same scd scd' ps (λ q m. same q (ground (arith, m))) in rw (e, r) refl

pub lwpid2scd-append :
    (scd : ℕ → Schedulable) (ps : List ℕ) (p lid : ℕ)
    → lwpid2scd scd (ps ++ (p ∷ [])) lid ≡ elim (lwpid2scd scd ps lid) [
      | some q ↦ some q
      | none ↦ if (scd p).lwpid == lid then some p else none
    ]
unfolding lwpid2scd
lwpid2scd-append scd [] p lid = refl
lwpid2scd-append scd (q ∷ ps) p lid = ground (arith, lwpid2scd-append scd ps p lid)

pub ids-append :
    (scd : ℕ → Schedulable) (ps : List ℕ) (p : ℕ)
    → ids scd (ps ++ (p ∷ [])) ≡ ids scd ps ++ ((scd p).lwpid ∷ [])
ids-append scd [] p = refl
ids-append scd (q ∷ ps) p = ap (λ l. (scd q).lwpid ∷ l) (ids-append scd ps p)

-- An lwp that has left the list is not found, and the others are found as before.
pub lwpid2scd-remove :
    (scd : ℕ → Schedulable) (ps : List ℕ) (p lid : ℕ)
    → (scd p).lwpid ≢ lid
    → lwpid2scd scd (remove p ps) lid ≡ lwpid2scd scd ps lid
unfolding lwpid2scd
lwpid2scd-remove scd [] p lid n = refl
lwpid2scd-remove scd (q ∷ ps) p lid n = elim (Bool-cases (q == p)) [
  | inl e ↦
      let f : (scd q).lwpid ≡ (scd p).lwpid = ap (λ k. (scd k).lwpid) ((==_iff q p).0 e) in
      ground (arith, f)
  | inr e ↦ ground (arith, lwpid2scd-remove scd ps p lid n)
]

pub ids-remove :
    (scd : ℕ → Schedulable) (ps : List ℕ) (p : ℕ)
    → Distinct (ids scd ps)
    → member p ps ≡ true
    → ids scd (remove p ps) ≡ remove (scd p).lwpid (ids scd ps)
ids-remove scd [] p d m = refl
ids-remove scd (q ∷ ps) p d m = elim (Bool-cases (q == p)) [
  | inl e ↦
      let f : (scd q).lwpid ≡ (scd p).lwpid = ap (λ k. (scd k).lwpid) ((==_iff q p).0 e) in
      ground (arith, f)
  | inr e ↦ ground (arith, ids-remove scd ps p d.1, member-ids scd ps p)
]
