-- ===== src/Sched/Choice.antt =====
-- Which thread `schedule` runs next: xen/sched.c's scan of the thread list against the first ready
-- thread of the list.
use rumpuser_xen.Prelude.{
  ℕ, ◌≡◌, ◌≢◌, refl, sym, ◌∙◌, ◌⊎◌, inl, inr, Bool, true, false, ◌&&◌, ◌||◌, Option, none, some,
  List, [], ◌∷◌, arith, ◌/=◌, if◌then◌else◌, All, Bool-cases, member, suc,
}
use mathlib.Core.Path.{subst}
use rumpuser_xen.Sched.{
  Sched, modify, wake, expire, requeue, scan, examine, resume, pick, schedule, ok,
}
use rumpuser_xen.Sched.Time.{
  add_time, le_time, le_time_refl, le_time_trans, lt_time-not_le, le_time-of_lt, seconds,
}

-- The thread can run: it is runnable, or its timeout has passed.
abbrev pub ready : ℕ → Sched → ℕ → Bool
ready now s t =
    (s.thread t).runnable || ((s.thread t).wakeup_time /= 0 && le_time (s.thread t).wakeup_time now)

abbrev pub first_ready : ℕ → Sched → List ℕ → Option ℕ
first_ready now s [] = none
first_ready now s (t ∷ ts) = if ready now s t then some t else first_ready now s ts

-- A thread that was asleep leaves its sleep with the mark of a timeout.
unfoldable pub rouse : ℕ → Sched → Sched
rouse t s =
    if (s.thread t).runnable then s else wake t (modify t (λ th. record th { timed_out = true }) s)

unfoldable pub chosen : Option ℕ → Sched → Sched
chosen none s = s
chosen (some t) s = requeue t (rouse t s)

expire-ready :
    (now t m : ℕ) (s : Sched)
    → ready now s t ≡ true
    → ((expire now t m s).0 ≡ rouse t s) × (((rouse t s).thread t).runnable ≡ true)
unfolding expire rouse wake
expire-ready now t m s h = ground arith

expire_unready :
    (now t m : ℕ) (s : Sched)
    → ready now s t ≡ false
    → ((expire now t m s).0 ≡ s) × ((s.thread t).runnable ≡ false)
unfolding expire
expire_unready now t m s h = ground arith

scan-chosen :
    (now : ℕ) (ts : List ℕ) (m : ℕ) (s : Sched)
    → ((scan now ts m s).0 ≡ chosen (first_ready now s ts) s)
      × ((scan now ts m s).1 ≡ first_ready now s ts)
unfolding scan chosen
scan-chosen now [] m s = (refl, refl)
scan-chosen now (t ∷ ts) m s = elim (Bool-cases (ready now s t)) [
  | inl h ↦ let (e, r) = expire-ready now t m s h in rw (h, e, r) (refl, refl)
  | inr h ↦
      let (e, r) = expire_unready now t m s h in
      rw (h, e, r) (scan-chosen now ts (expire now t m s).1 s)
]

-- `schedule` takes the first ready thread of the list, in list order, as the next one, and nothing
-- if there is none; the only changes are that this thread goes to the end of the list and, if it
-- was asleep, is made runnable with its timeout marked.
pub examine-chosen :
    (s : Sched)
    → ((examine s).1 ≡ first_ready s.now s s.thread_list)
      × ((examine s).0 ≡ chosen (first_ready s.now s s.thread_list) s)
unfolding examine
examine-chosen s =
    let (a, b) = scan-chosen s.now s.thread_list (add_time s.now (seconds 10)) s in (b, a)

-- The time bounds the limit and every timeout that is set, in the signed order.
abbrev pub IsEarliest : ℕ → Sched → List ℕ → Type 0
IsEarliest min s ts =
    All (λ t. (◌⊎◌ ((s.thread t).wakeup_time ≡ 0) (le_time min (s.thread t).wakeup_time ≡ true))) ts

expire_min :
    (now t m : ℕ) (s : Sched)
    → ready now s t ≡ false
    → (le_time (expire now t m s).1 m ≡ true)
      × (◌⊎◌
          ((s.thread t).wakeup_time ≡ 0)
          (le_time (expire now t m s).1 (s.thread t).wakeup_time ≡ true))
unfolding expire
expire_min now t m s h = ground (
  arith,
  le_time_refl m,
  lt_time-not_le (s.thread t).wakeup_time m,
  le_time-of_lt (s.thread t).wakeup_time m,
  le_time_refl (s.thread t).wakeup_time,
)

scan_unready :
    (now t : ℕ) (ts : List ℕ) (m : ℕ) (s : Sched)
    → ready now s t ≡ false
    → scan now (t ∷ ts) m s ≡ scan now ts (expire now t m s).1 s
unfolding scan
scan_unready now t ts m s h = let (e, f) = expire_unready now t m s h in rw (e, f) refl

either_le :
    (w a b : ℕ)
    → le_time a b ≡ true
    → ◌⊎◌ (w ≡ 0) (le_time b w ≡ true)
    → ◌⊎◌ (w ≡ 0) (le_time a w ≡ true)
either_le w a b h (inl e) = inl e
either_le w a b h (inr e) = inr (le_time_trans a b w h e)

scan-IsEarliest :
    (now : ℕ) (ts : List ℕ) (m : ℕ) (s : Sched)
    → first_ready now s ts ≡ none
    → (le_time (scan now ts m s).2 m ≡ true) × IsEarliest (scan now ts m s).2 s ts
unfolding scan
scan-IsEarliest now [] m s h = (le_time_refl m, tt)
scan-IsEarliest now (t ∷ ts) m s h = elim (Bool-cases (ready now s t)) [
  | inl r ↦ ground arith
  | inr r ↦
      let (g, w) = expire_min now t m s r in
      let h' : first_ready now s ts ≡ none = rw r at h in
      let (i, j) = scan-IsEarliest now ts (expire now t m s).1 s h' in
      subst (λ x. (le_time x.2 m ≡ true) × IsEarliest x.2 s (t ∷ ts))
        (sym (scan_unready now t ts m s r)) (le_time_trans _ _ _ i g, (either_le _ _ _ i w, j))
]

-- If no listed thread is ready, `schedule` waits no longer than ten seconds and no longer than the
-- earliest timeout of the list, in the signed order of system time.
pub examine-IsEarliest :
    (s : Sched)
    → first_ready s.now s s.thread_list ≡ none
    → (le_time (examine s).2 (add_time s.now (seconds 10)) ≡ true)
      × IsEarliest (examine s).2 s s.thread_list
unfolding examine
examine-IsEarliest s h = scan-IsEarliest s.now s.thread_list (add_time s.now (seconds 10)) s h

pub first_ready-ready :
    (now : ℕ) (s : Sched) (ts : List ℕ) (t : ℕ)
    → first_ready now s ts ≡ some t
    → ready now s t ≡ true
first_ready-ready now s [] t h = cc
first_ready-ready now s (x ∷ ts) t h = elim (Bool-cases (ready now s x)) [
  | inl r ↦ let h' : some x ≡ some t = rw r at h in let e : x ≡ t = cc in rw e at r
  | inr r ↦ first_ready-ready now s ts t (rw r at h)
]

pub ready_ne :
    (now : ℕ) (s : Sched) (x u : ℕ) → ready now s x ≡ false → ready now s u ≡ true → x ≢ u
ready_ne now s x u p q e = let p' : ready now s u ≡ false = rw e at p in cc (sym q ∙ p')

-- A listed thread that is ready is found, or one before it.
pub first_ready-some :
    (now : ℕ) (s : Sched) (ts : List ℕ) (u : ℕ)
    → member u ts ≡ true
    → ready now s u ≡ true
    → (t : ℕ) × (first_ready now s ts ≡ some t)
first_ready-some now s [] u m r = cc
first_ready-some now s (x ∷ ts) u m r = elim (Bool-cases (ready now s x)) [
  | inl h ↦ (x, rw h)
  | inr h ↦ rw h (first_ready-some now s ts u (ground (arith, ready_ne now s x u h r)) r)
]

pub pick-chosen :
    (idle : ℕ → Sched → Sched) (fuel : ℕ) (s : Sched) (t : ℕ)
    → first_ready s.now s s.thread_list ≡ some t
    → pick idle (suc fuel) s ≡ ok (t, chosen (some t) s)
unfolding pick
pick-chosen idle fuel s t f = let (e, g) = examine-chosen s in ground (arith, e, g, f)

pub pick_waits :
    (idle : ℕ → Sched → Sched) (fuel : ℕ) (s : Sched)
    → first_ready s.now s s.thread_list ≡ none
    → pick idle (suc fuel) s ≡ pick idle fuel (idle (examine s).2 s)
unfolding pick chosen
pick_waits idle fuel s f = let (e, g) = examine-chosen s in ground (arith, e, g, f)

pub schedule-chosen :
    (idle : ℕ → Sched → Sched) (fuel : ℕ) (s : Sched) (t : ℕ)
    → s.in_callback ≡ false
    → s.irqs_off ≡ false
    → first_ready s.now s s.thread_list ≡ some t
    → schedule idle (suc fuel) s ≡ ok (resume t (chosen (some t) s))
unfolding schedule
schedule-chosen idle fuel s t a b f = ground (arith, pick-chosen idle fuel s t f)

pub chosen_member :
    (now t : ℕ) (s : Sched) (ts : List ℕ) → first_ready now s ts ≡ some t → member t ts ≡ true
chosen_member now t s [] f = cc
chosen_member now t s (x ∷ ts) f = elim (Bool-cases (ready now s x)) [
  | inl r ↦ ground arith
  | inr r ↦ ground (arith, chosen_member now t s ts (rw r at f))
]
