-- ===== src/Sched/Fairness.antt =====
-- xen/sched.c: a ready thread is not passed over for ever, since the thread that `schedule` takes
-- goes to the end of the list.
use rumpuser_xen.Prelude.{
  ℕ, suc, ◌≡◌, ◌≢◌, refl, sym, ap, ne_of_==, ◌∙◌, ◌⊎◌, inl, inr, true, false, some, List, [], ◌∷◌,
  ◌++◌, arith, ◌==◌, if◌then◌else◌, remove, member, Bool-cases, ==_iff, member-append,
  member-remove_ne,
}
use rumpuser_xen.Sched.{
  Sched, wake, requeue, switch_threads, free_thread, reap, resume, schedule, ok,
}
use rumpuser_xen.Sched.Choice.{
  ready, first_ready, rouse, chosen, first_ready-ready, ready_ne, first_ready-some, schedule-chosen,
}

-- How many threads stand before this one.
abbrev pub ahead : ℕ → List ℕ → ℕ
ahead u [] = 0
ahead u (x ∷ xs) = if x == u then 0 else suc (ahead u xs)

ahead-snoc : (u t : ℕ) (xs : List ℕ) → member u xs ≡ true → ahead u (xs ++ (t ∷ [])) ≡ ahead u xs
ahead-snoc u t [] h = cc
ahead-snoc u t (x ∷ xs) h = ground (arith, ahead-snoc u t xs)

ahead-requeue :
    (now t u : ℕ) (s : Sched) (xs : List ℕ)
    → first_ready now s xs ≡ some t
    → ready now s u ≡ true
    → member u xs ≡ true
    → u ≢ t
    → suc (ahead u (remove t xs ++ (t ∷ []))) ≡ ahead u xs
ahead-requeue now t u s [] f r m n = cc
ahead-requeue now t u s (x ∷ xs) f r m n = elim (Bool-cases (ready now s x)) [
  | inl rx ↦ ground (arith, ahead-snoc u t xs)
  | inr rx ↦ ground (
    arith,
    ready_ne now s x u rx r,
    ready_ne now s x t rx (first_ready-ready now s xs t (rw rx at f)),
    ahead-requeue now t u s xs (rw rx at f) r,
  )
]

reap_keeps :
    (me : ℕ) (ts : List ℕ) (s : Sched)
    → ((reap me ts s).thread ≡ s.thread)
      × ((reap me ts s).thread_list ≡ s.thread_list)
      × ((reap me ts s).current ≡ s.current)
unfolding reap free_thread
reap_keeps me [] s = (refl, refl, refl)
reap_keeps me (t ∷ ts) s = ground (arith, reap_keeps me ts (if t == me then s else free_thread t s))

resume_keeps :
    (t u : ℕ) (s : Sched)
    → u ≢ t
    → ((resume t s).thread u ≡ s.thread u)
      × ((resume t s).thread_list ≡ s.thread_list)
      × ((resume t s).current ≡ t)
unfolding resume switch_threads
resume_keeps t u s n = ground (
  arith,
  reap_keeps t s.exited_threads s,
  reap_keeps t s.exited_threads (switch_threads s.current t s),
)

chosen_keeps :
    (t u : ℕ) (s : Sched)
    → u ≢ t
    → ((chosen (some t) s).thread u ≡ s.thread u)
      × ((chosen (some t) s).thread_list ≡ remove t s.thread_list ++ (t ∷ []))
unfolding chosen rouse requeue wake
chosen_keeps t u s n = ground arith

member-requeue :
    (t u : ℕ) (xs : List ℕ) → u ≢ t → member u xs ≡ true → member u (remove t xs ++ (t ∷ [])) ≡ true
member-requeue t u xs n m =
    ground (arith, member-append u (remove t xs) (t ∷ []), member-remove_ne t u xs)

-- What a call of `schedule` that runs another thread does for a ready thread `u`: one thread fewer
-- stands before it, and it is as ready and as listed as it was.
pub record Nearer (u : ℕ) (s s' : Sched) : Type 0 where
  pub closer : suc (ahead u s'.thread_list) ≡ ahead u s.thread_list
  pub listed : member u s'.thread_list ≡ true
  pub same : s'.thread u ≡ s.thread u

resume-Nearer :
    (t u : ℕ) (s : Sched)
    → first_ready s.now s s.thread_list ≡ some t
    → ready s.now s u ≡ true
    → member u s.thread_list ≡ true
    → u ≢ t
    → Nearer u s (resume t (chosen (some t) s))
resume-Nearer t u s f r m n =
    let (a, b, c) = resume_keeps t u (chosen (some t) s) n in
    let (d, e) = chosen_keeps t u s n in
    record {
      closer = ap (λ l. suc (ahead u l)) (b ∙ e) ∙ ahead-requeue s.now t u s s.thread_list f r m n;
      listed = ap (member u) (b ∙ e) ∙ member-requeue t u s.thread_list n m;
      same = a ∙ d;
    }

-- Outside a callback and with interrupts on, while a ready thread `u` is on the thread list,
-- `schedule` returns at its first scan, and either runs `u` or leaves one thread fewer before `u`,
-- which is still listed and as it was. So `u` runs after no more calls than threads stood before it.
pub schedule_fair :
    (idle : ℕ → Sched → Sched) (fuel : ℕ) (s : Sched) (u : ℕ)
    → s.in_callback ≡ false
    → s.irqs_off ≡ false
    → ready s.now s u ≡ true
    → member u s.thread_list ≡ true
    → (s' : Sched) × (schedule idle (suc fuel) s ≡ ok s') × ((s'.current ≡ u) ⊎ Nearer u s s')
schedule_fair idle fuel s u a b r m =
    let (t, f) = first_ready-some s.now s s.thread_list u m r in
    (
      resume t (chosen (some t) s),
      schedule-chosen idle fuel s t a b f,
      elim (Bool-cases (u == t)) [
        | inl e ↦
            inl (
              (resume_keeps t (suc t) (chosen (some t) s) (omega arith)).2 ∙ sym ((==_iff u t).0 e))
        | inr e ↦ inr (resume-Nearer t u s f r m (ne_of_== u t e))
      ],
    )

pub resume_lists :
    (t : ℕ) (s : Sched) → ((resume t s).thread_list ≡ s.thread_list) × ((resume t s).current ≡ t)
resume_lists t s = let (a, b, c) = resume_keeps t (suc t) s (omega arith) in (b, c)
