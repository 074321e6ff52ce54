-- ===== src/Sched/Reach.antt =====
-- xen/sched.c: what the running thread may call, as a step relation, and what holds in every state
-- that such calls reach.
use mathlib.Core.Path.{subst}
use rumpuser_xen.Prelude.{
  ℕ, ◌≡◌, refl, sym, ◌∙◌, inl, inr, true, false, List, [], ◌∷◌, arith, ◌==◌, remove, member,
  Distinct, Bool-cases, ==_iff, member-append, member-remove_self, Distinct-remove, Distinct-snoc,
  member-remove_of_not, if_true, if_false,
}
use rumpuser_xen.Sched.{
  Sched, JoinWaiter, modify, wake, block, resume, pick, schedule, Outcome, ok, bug, hang,
}
use rumpuser_xen.Sched.Threads.{
  create_thread, arch_create_thread, exit_leave, exit_gate, exit_thread, wake_joiner, join_test,
  remove_waiter, dosleep,
}
use rumpuser_xen.Sched.Safety.{
  IsSound, KeepsLists, SameLists, SameLists-IsSound, Picked, pick-Picked, resume-IsSound,
}
use rumpuser_xen.Sched.Fairness.{resume_lists}

-- The running thread is on the thread list.
pub record IsRunning (s : Sched) : Type 0 where
  pub sound : IsSound s
  pub running : member s.current s.thread_list ≡ true

-- A call of `schedule` that returns leaves a sound state and runs a listed thread.
pub schedule-IsRunning :
    (idle : ℕ → Sched → Sched) (fuel : ℕ) (s s' : Sched)
    → KeepsLists idle
    → IsSound s
    → schedule idle fuel s ≡ ok s'
    → IsRunning s'
unfolding schedule
schedule-IsRunning idle fuel s s' k v e = elim (Bool-cases s.in_callback) [
  | inl c ↦ ground arith
  | inr c ↦ elim (Bool-cases s.irqs_off) [
    | inl i ↦ ground arith
    | inr i ↦ resumed (pick idle fuel s) (pick-Picked idle fuel s k v) (ground arith)
  ]
]
  where
    resumed :
        (o : Outcome (ℕ × Sched))
        → Picked o
        → elim o [ ok (t, s₁) ↦ ok (resume t s₁) | bug ↦ bug | hang ↦ hang ] ≡ ok s'
        → IsRunning s'
    resumed (ok (t, s₁)) p h =
        let e' : resume t s₁ ≡ s' = cc in
        let (a, b) = resume_lists t s₁ in
        subst IsRunning e' (record { sound = resume-IsSound t s₁ p.0 p.1; running = rw (a, b) p.1 })
    resumed bug p h = cc
    resumed hang p h = cc

create_thread-IsRunning :
    (t pages cookie stack : ℕ) (s : Sched)
    → IsRunning s
    → member t s.thread_list ≡ false
    → member t s.exited_threads ≡ false
    → IsRunning (create_thread t pages cookie stack s)
unfolding create_thread arch_create_thread
create_thread-IsRunning t pages cookie stack s r a b =
    let v = r.sound in
    let live = λ (u : ℕ) (h : member u s.freed ≡ false). member-remove_of_not t u s.freed h in
    let added = λ (u : ℕ). member-append u s.thread_list (t ∷ []) in
    record {
      sound = record {
        listed_once = Distinct-snoc t s.thread_list v.listed_once a;
        exited_once = v.exited_once;
        freed_once = Distinct-remove t s.freed v.freed_once;
        apart = λ u h. ground (arith, added u, v.apart u, b);
        listed_live = λ u h.
            ground
              (arith, added u, v.listed_live u, live u, member-remove_self t s.freed v.freed_once);
        exited_live = λ u h. live u (v.exited_live u h);
        current_live = live s.current v.current_live;
      };
      running = added s.current ∙ ground (arith, r.running);
    }

exit_leave-IsSound : (s : Sched) → IsRunning s → IsSound (exit_leave s)
unfolding exit_leave
exit_leave-IsSound s r =
    let v = r.sound in
    let c = s.current in
    let left = λ (u : ℕ). member-remove_of_not c u s.thread_list in
    let gone = member-remove_self c s.thread_list v.listed_once in
    record {
      listed_once = Distinct-remove c s.thread_list v.listed_once;
      exited_once = (v.apart c r.running, v.exited_once);
      freed_once = v.freed_once;
      apart = λ u h. elim (Bool-cases (c == u)) [
        | inl e ↦
            let h' : member c (remove c s.thread_list) ≡ true =
              subst (λ x. member x (remove c s.thread_list) ≡ true) (sym ((==_iff c u).0 e)) h in
            cc gone
        | inr e ↦ ground (arith, left u, v.apart u, h)
      ];
      listed_live = λ u h. ground (arith, left u, v.listed_live u);
      exited_live = λ u h. ground (arith, v.exited_live u, v.current_live);
      current_live = v.current_live;
    }

block_same : (t : ℕ) (s : Sched) → SameLists s (block t s)
unfolding block
block_same t s = record { thread_list = refl; exited_threads = refl; freed = refl; current = refl }

wake_same : (t : ℕ) (s : Sched) → SameLists s (wake t s)
unfolding wake
wake_same t s = record { thread_list = refl; exited_threads = refl; freed = refl; current = refl }

wake_joiner_same : (t : ℕ) (ws : List JoinWaiter) (s : Sched) → SameLists s (wake_joiner t ws s)
unfolding wake_joiner wake
wake_joiner_same t [] s = ground arith
wake_joiner_same t (jw ∷ ws) s = ground (arith, wake_joiner_same t ws s)

exit_gate_same : (s : Sched) → SameLists s (exit_gate s)
unfolding exit_gate block
exit_gate_same s = ground (
  arith,
  wake_joiner_same s.current s.joinwq (modify s.current (λ th. record th { joined = true }) s),
)

join_test_same : (j : ℕ) (s : Sched) → SameLists s (join_test j s).0
unfolding join_test block wake
join_test_same j s = ground arith

dosleep_same : (time : ℕ) (s : Sched) → SameLists s (dosleep time s)
unfolding dosleep
dosleep_same time s = ground arith

SameLists-IsRunning : {s s' : Sched} → SameLists s s' → IsRunning s → IsRunning s'
SameLists-IsRunning k r =
    let a = k.thread_list in
    let d = k.current in
    record { sound = SameLists-IsSound k r.sound; running = rw (a, d) r.running }

exit_thread-IsSound : (s : Sched) → IsRunning s → IsSound (exit_thread s)
unfolding exit_thread
exit_thread-IsSound s r = elim (Bool-cases (s.thread s.current).must_join) [
  | inl e ↦ subst IsSound (sym (if_true _ _ e)) (SameLists-IsSound (exit_gate_same s) r.sound)
  | inr e ↦ subst IsSound (sym (if_false _ _ e)) (exit_leave-IsSound s r)
]

-- One call of the running thread, up to the state in which a thread runs again. A call that
-- switches ends behind `schedule`, in whatever thread that resumed.
pub data Step (idle : ℕ → Sched → Sched) (s : Sched) : Sched → Type 0 where
  creates :
      (t pages cookie stack : ℕ)
      → member t s.thread_list ≡ false
      → member t s.exited_threads ≡ false
      → Step idle s (create_thread t pages cookie stack s)
  wakes : (t : ℕ) → Step idle s (wake t s)
  blocks : (t : ℕ) → Step idle s (block t s)
  yields : (fuel : ℕ) {s' : Sched} → schedule idle fuel s ≡ ok s' → Step idle s s'
  sleeps :
      (fuel time : ℕ) {s' : Sched} → schedule idle fuel (dosleep time s) ≡ ok s' → Step idle s s'
  exits : (fuel : ℕ) {s' : Sched} → schedule idle fuel (exit_thread s) ≡ ok s' → Step idle s s'
  joins_now : (j : ℕ) → (join_test j s).1 ≡ true → Step idle s (join_test j s).0
  joins :
      (fuel j : ℕ) {s' : Sched}
      → (join_test j s).1 ≡ false
      → schedule idle fuel (join_test j s).0 ≡ ok s'
      → Step idle s s'
  unqueues : Step idle s (record s { joinwq = remove_waiter s.current s.joinwq })

pub data Reach (idle : ℕ → Sched → Sched) (s : Sched) : Sched → Type 0 where
  here : Reach idle s s
  next : {t u : Sched} → Reach idle s t → Step idle t u → Reach idle s u

pub Step-IsRunning :
    {idle : ℕ → Sched → Sched} {s s' : Sched}
    → KeepsLists idle
    → IsRunning s
    → Step idle s s'
    → IsRunning s'
Step-IsRunning {s} k r (creates t pages cookie stack a b) =
    create_thread-IsRunning t pages cookie stack s r a b
Step-IsRunning {s} k r (wakes t) = SameLists-IsRunning (wake_same t s) r
Step-IsRunning {s} k r (blocks t) = SameLists-IsRunning (block_same t s) r
Step-IsRunning {idle} {s} k r (yields fuel {s' = s'} e) =
    schedule-IsRunning idle fuel s s' k r.sound e
Step-IsRunning {idle} {s} k r (sleeps fuel time {s' = s'} e) =
    schedule-IsRunning idle fuel (dosleep time s) s' k
      (SameLists-IsSound (dosleep_same time s) r.sound) e
Step-IsRunning {idle} {s} k r (exits fuel {s' = s'} e) =
    schedule-IsRunning idle fuel (exit_thread s) s' k (exit_thread-IsSound s r) e
Step-IsRunning {s} k r (joins_now j e) = SameLists-IsRunning (join_test_same j s) r
Step-IsRunning {idle} {s} k r (joins fuel j {s' = s'} b e) =
    schedule-IsRunning idle fuel (join_test j s).0 s' k
      (SameLists-IsSound (join_test_same j s) r.sound) e
Step-IsRunning k r unqueues =
    SameLists-IsRunning
      (record { thread_list = refl; exited_threads = refl; freed = refl; current = refl }) r

pub Reach-IsRunning :
    {idle : ℕ → Sched → Sched} {s s' : Sched}
    → KeepsLists idle
    → IsRunning s
    → Reach idle s s'
    → IsRunning s'
Reach-IsRunning k r here = r
Reach-IsRunning k r (next w st) = Step-IsRunning k (Reach-IsRunning k r w) st

-- In every state that calls of the running threads reach from a sound one, under callbacks that
-- keep the lists: the running thread is on the thread list, no thread of that list has exited or
-- been freed, and no thread is freed twice.
pub Reach-live :
    {idle : ℕ → Sched → Sched} {s s' : Sched}
    → KeepsLists idle
    → IsRunning s
    → Reach idle s s'
    → (member s'.current s'.thread_list ≡ true)
      × ((t : ℕ)
          → member t s'.thread_list ≡ true
          → (member t s'.exited_threads ≡ false) × (member t s'.freed ≡ false))
      × Distinct s'.freed
Reach-live k r w =
    let r' = Reach-IsRunning k r w in
    let v = r'.sound in (r'.running, λ t h. (v.apart t h, v.listed_live t h), v.freed_once)
