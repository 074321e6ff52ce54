-- ===== src/Lwp/Hook.antt =====
-- lib/_lwp.c: `schedhook`, which the scheduler calls at each switch, and what the lwps' control blocks
-- then say.
use mathlib.Core.Path.{subst}
use rumpuser_xen.Prelude.{
  ◌++◌, ℕ, ◌≡◌, ◌≢◌, refl, sym, ap, ◌∙◌, inl, inr, Bool, true, false, List, [], ◌∷◌, arith, ◌==◌,
  Bool-cases, ==_iff, ne_of_==,
}
use rumpuser_xen.Lwp.{Lwps, Cpu, cpu, cpu_none, cpu_exited, is_exited, schedhook}

abbrev pub is_running : Cpu → Bool
is_running (cpu n) = true
is_running cpu_none = false
is_running cpu_exited = false

-- No lwp but the current one says that it runs.
abbrev pub OnlyCurrent : Lwps → Type 0
OnlyCurrent l = (p : ℕ) → p ≢ 0 → p ≢ l.curtcb → is_running (l.scd p).curcpu ≡ false

-- The switches of the scheduler to these cookies, one after the other.
unfoldable pub switches : List ℕ → Lwps → Lwps
switches [] l = l
switches (next ∷ nexts) l = switches nexts (schedhook l.curtcb next l)

exited_idle : (c : Cpu) → is_exited c ≡ true → is_running c ≡ false
exited_idle cpu_none e = refl
exited_idle cpu_exited e = refl
exited_idle (cpu n) e = cc

schedhook-curtcb : (prev next : ℕ) (l : Lwps) → (schedhook prev next l).curtcb ≡ next
unfolding schedhook
schedhook-curtcb prev next l = ground arith

schedhook_other :
    (prev next p : ℕ) (l : Lwps) → p ≢ prev → p ≢ next → (schedhook prev next l).scd p ≡ l.scd p
unfolding schedhook
schedhook_other prev next p l h n = ground arith

-- The lwp that is left does not say that it runs, and if it has exited it goes on saying so.
schedhook_left :
    (prev next : ℕ) (l : Lwps)
    → prev ≢ 0
    → prev ≢ next
    → let c = ((schedhook prev next l).scd prev).curcpu in
      (is_running c ≡ false) × (is_exited c ≡ is_exited (l.scd prev).curcpu)
unfolding schedhook
schedhook_left prev next l z n = elim (Bool-cases (is_exited (l.scd prev).curcpu)) [
  | inl e ↦ let i = exited_idle (l.scd prev).curcpu e in ground (arith, i)
  | inr e ↦ ground arith
]

pub schedhook-OnlyCurrent :
    (next : ℕ) (l : Lwps) → OnlyCurrent l → OnlyCurrent (schedhook l.curtcb next l)
schedhook-OnlyCurrent next l o p z n = elim (Bool-cases (l.curtcb == p)) [
  | inl e ↦
      let q = (==_iff l.curtcb p).0 e in
      let n' : l.curtcb ≢ next = λ k. n (sym q ∙ k ∙ sym (schedhook-curtcb l.curtcb next l)) in
      subst (λ k. is_running ((schedhook l.curtcb next l).scd k).curcpu ≡ false) q
        (schedhook_left l.curtcb next l (λ k. z (sym q ∙ k)) n').0
  | inr e ↦
      let k =
        schedhook_other l.curtcb next p l (λ k. ne_of_== l.curtcb p e (sym k))
          (λ k. n (k ∙ sym (schedhook-curtcb l.curtcb next l))) in
      ap (λ c. is_running c.curcpu) k ∙ o p z (λ k. ne_of_== l.curtcb p e (sym k))
]

schedhook_entered :
    (prev next : ℕ) (l : Lwps) → next ≢ 0 → ((schedhook prev next l).scd next).curcpu ≡ cpu 0
unfolding schedhook
schedhook_entered prev next l z = ground arith

-- If no lwp but the current one says that it runs, then the same holds after any switches of the
-- scheduler; and the lwp of the last switch, if it is one, is current and says that it runs.
pub switches-OnlyCurrent :
    (nexts : List ℕ) (last : ℕ) (l : Lwps)
    → OnlyCurrent l
    → last ≢ 0
    → let l' = switches (nexts ++ (last ∷ [])) l in
      OnlyCurrent l' × (l'.curtcb ≡ last) × ((l'.scd last).curcpu ≡ cpu 0)
unfolding switches
switches-OnlyCurrent [] last l o z = (
  schedhook-OnlyCurrent last l o,
  schedhook-curtcb l.curtcb last l,
  schedhook_entered l.curtcb last l z,
)
switches-OnlyCurrent (next ∷ nexts) last l o z =
    switches-OnlyCurrent nexts last (schedhook l.curtcb next l) (schedhook-OnlyCurrent next l o) z
