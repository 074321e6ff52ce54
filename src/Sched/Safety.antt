-- ===== src/Sched/Safety.antt =====
-- xen/sched.c: no thread on the thread list and no running thread is ever freed, and none twice.
use rumpuser_xen.Prelude.{
  ℕ, suc, ◌≡◌, ◌≢◌, sym, ap, ◌∙◌, inl, inr, true, false, Option-cases, if_true, if_false, zero,
  some, List, [], ◌∷◌, arith, ◌==◌, remove, member, Distinct, Bool-cases, ==_iff, ne_of_==,
  member-remove_ne, member-remove_self, Distinct-remove, member-remove_of_not, member-requeue,
  Distinct-requeue,
}
use mathlib.Core.Path.{subst}
use rumpuser_xen.Sched.{
  Thread, Sched, wake, requeue, switch_threads, free_thread, reap, resume, pick, examine, Outcome,
  ok, bug, hang,
}
use rumpuser_xen.Sched.Choice.{first_ready, rouse, chosen, pick_waits, pick-chosen, chosen_member}

-- The thread list, the exited threads and the freed ones are apart and name nothing twice, and the
-- running thread is on one of the first two.
pub record IsSound (s : Sched) : Type 0 where
  pub listed_once : Distinct s.thread_list
  pub exited_once : Distinct s.exited_threads
  pub freed_once : Distinct s.freed
  pub apart : (t : ℕ) → member t s.thread_list ≡ true → member t s.exited_threads ≡ false
  pub listed_live : (t : ℕ) → member t s.thread_list ≡ true → member t s.freed ≡ false
  pub exited_live : (t : ℕ) → member t s.exited_threads ≡ true → member t s.freed ≡ false
  pub current_live : member s.current s.freed ≡ false

pub threads-IsSound : (th : ℕ → Thread) (s : Sched) → IsSound s → IsSound (record s { thread = th })
threads-IsSound th s v = record {
  listed_once = v.listed_once;
  exited_once = v.exited_once;
  freed_once = v.freed_once;
  apart = v.apart;
  listed_live = v.listed_live;
  exited_live = v.exited_live;
  current_live = v.current_live;
}

requeue-IsSound :
    (t : ℕ) (s : Sched) → IsSound s → member t s.thread_list ≡ true → IsSound (requeue t s)
unfolding requeue
requeue-IsSound t s v m = record {
  listed_once = Distinct-requeue t s.thread_list v.listed_once;
  exited_once = v.exited_once;
  freed_once = v.freed_once;
  apart = λ u h. v.apart u (sym (member-requeue t u s.thread_list m) ∙ h);
  listed_live = λ u h. v.listed_live u (sym (member-requeue t u s.thread_list m) ∙ h);
  exited_live = v.exited_live;
  current_live = v.current_live;
}

free_thread-IsSound :
    (t : ℕ) (s : Sched)
    → IsSound s
    → member t s.exited_threads ≡ true
    → t ≢ s.current
    → IsSound (free_thread t s)
unfolding free_thread
free_thread-IsSound t s v m n = record {
  listed_once = v.listed_once;
  exited_once = Distinct-remove t s.exited_threads v.exited_once;
  freed_once = ground (arith, v.exited_live t, v.freed_once);
  apart = λ u h. member-remove_of_not t u s.exited_threads (v.apart u h);
  listed_live = λ u h. ground (arith, v.listed_live u, v.apart u, m);
  exited_live = λ u h. ground (
    arith,
    v.exited_live u,
    member-remove_ne t u s.exited_threads,
    member-remove_self t s.exited_threads v.exited_once,
  );
  current_live = ground (arith, v.current_live);
}

-- All of a list is on another.
abbrev Within : List ℕ → List ℕ → Type 0
Within ts xs = (t : ℕ) → member t ts ≡ true → member t xs ≡ true

Within-tail : (t : ℕ) (ts xs : List ℕ) → Within (t ∷ ts) xs → Within ts xs
Within-tail t ts xs w u h = w u (ground arith)

Within-remove :
    (t : ℕ) (ts xs : List ℕ) → member t ts ≡ false → Within (t ∷ ts) xs → Within ts (remove t xs)
Within-remove t ts xs n w u h = elim (Bool-cases (t == u)) [
  | inl e ↦ ground (arith, (==_iff t u).0 e)
  | inr e ↦ member-remove_ne t u xs (ne_of_== t u e) ∙ Within-tail t ts xs w u h
]

reap-IsSound :
    (ts : List ℕ) (s : Sched)
    → IsSound s
    → Distinct ts
    → Within ts s.exited_threads
    → IsSound (reap s.current ts s)
unfolding reap free_thread
reap-IsSound [] s v d w = v
reap-IsSound (t ∷ ts) s v d w = elim (Bool-cases (t == s.current)) [
  | inl e ↦ rw e (reap-IsSound ts s v d.1 (Within-tail t ts s.exited_threads w))
  | inr e ↦ rw e (
      reap-IsSound ts (free_thread t s)
        (free_thread-IsSound t s v (w t (ground arith)) (ne_of_== t s.current e)) d.1
        (Within-remove t ts s.exited_threads d.0 w))
]

requeue-member :
    (t : ℕ) (s : Sched) → member t s.thread_list ≡ true → member t (requeue t s).thread_list ≡ true
unfolding requeue
requeue-member t s m = member-requeue t t s.thread_list m ∙ m

switch-IsSound :
    (t : ℕ) (s : Sched)
    → IsSound s
    → member t s.thread_list ≡ true
    → IsSound (switch_threads s.current t s)
unfolding switch_threads
switch-IsSound t s v m = record {
  listed_once = v.listed_once;
  exited_once = v.exited_once;
  freed_once = v.freed_once;
  apart = v.apart;
  listed_live = v.listed_live;
  exited_live = v.exited_live;
  current_live = v.listed_live t m;
}

pub resume-IsSound :
    (t : ℕ) (s : Sched) → IsSound s → member t s.thread_list ≡ true → IsSound (resume t s)
unfolding resume switch_threads
resume-IsSound t s v m = elim (Bool-cases (s.current == t)) [
  | inl e ↦
      let e' : s.current ≡ t = (==_iff s.current t).0 e in
      rw e (rw (← e') (reap-IsSound s.exited_threads s v v.exited_once (λ u h. h)))
  | inr e ↦ elim (Bool-cases (s.thread t).started) [
    | inl st ↦
        rw (e, st)
          (reap-IsSound s.exited_threads (switch_threads s.current t s) (switch-IsSound t s v m)
            v.exited_once (λ u h. h))
    | inr st ↦
        rw (e, st) (threads-IsSound _ (switch_threads s.current t s) (switch-IsSound t s v m))
  ]
]

rouse-IsSound : (t : ℕ) (s : Sched) → IsSound s → IsSound (rouse t s)
unfolding rouse wake
rouse-IsSound t s v = elim (Bool-cases (s.thread t).runnable) [
  | inl e ↦ subst IsSound (sym (if_true _ _ e)) v
  | inr e ↦ subst IsSound (sym (if_false _ _ e)) (threads-IsSound _ s v)
]

rouse_lists : (t : ℕ) (s : Sched) → (rouse t s).thread_list ≡ s.thread_list
unfolding rouse wake
rouse_lists t s = ground arith

chosen-IsSound :
    (t : ℕ) (s : Sched)
    → IsSound s
    → member t s.thread_list ≡ true
    → IsSound (chosen (some t) s) × (member t (chosen (some t) s).thread_list ≡ true)
unfolding chosen
chosen-IsSound t s v m =
    let m' : member t (rouse t s).thread_list ≡ true = ap (member t) (rouse_lists t s) ∙ m in
    (requeue-IsSound t (rouse t s) (rouse-IsSound t s v) m', requeue-member t (rouse t s) m')

-- The second state has the lists, the freed memory and the running thread of the first.
pub record SameLists (s s' : Sched) : Type 0 where
  pub thread_list : s'.thread_list ≡ s.thread_list
  pub exited_threads : s'.exited_threads ≡ s.exited_threads
  pub freed : s'.freed ≡ s.freed
  pub current : s'.current ≡ s.current

-- What is assumed of the event callbacks that run while the domain is blocked: they wake threads,
-- and neither create, end nor free one.
abbrev pub KeepsLists : (ℕ → Sched → Sched) → Type 0
KeepsLists idle = (m : ℕ) (s : Sched) → SameLists s (idle m s)

pub SameLists-IsSound : {s s' : Sched} → SameLists s s' → IsSound s → IsSound s'
SameLists-IsSound k v =
    let a = k.thread_list in
    let b = k.exited_threads in
    let c = k.freed in
    let d = k.current in
    record {
      listed_once = rw a v.listed_once;
      exited_once = rw b v.exited_once;
      freed_once = rw c v.freed_once;
      apart = rw (a, b) v.apart;
      listed_live = rw (a, c) v.listed_live;
      exited_live = rw (b, c) v.exited_live;
      current_live = rw (c, d) v.current_live;
    }

-- A result of `pick` is sound, and its thread is listed.
abbrev pub Picked : Outcome (ℕ × Sched) → Type 0
Picked (ok (t, s)) = IsSound s × (member t s.thread_list ≡ true)
Picked bug = Unit
Picked hang = Unit

pub pick-Picked :
    (idle : ℕ → Sched → Sched) (fuel : ℕ) (s : Sched)
    → KeepsLists idle
    → IsSound s
    → Picked (pick idle fuel s)
unfolding pick
pick-Picked idle zero s k v = tt
pick-Picked idle (suc fuel) s k v = elim (Option-cases (first_ready s.now s s.thread_list)) [
  | inl f ↦
      subst Picked (sym (pick_waits idle fuel s f))
        (pick-Picked idle fuel (idle (examine s).2 s) k (SameLists-IsSound (k (examine s).2 s) v))
  | inr (t, f) ↦
      subst Picked (sym (pick-chosen idle fuel s t f))
        (chosen-IsSound t s v (chosen_member s.now t s s.thread_list f))
]
