-- ===== src/Synch/Mutex/Exclusion.antt =====
-- rumphyper_synch.c: at most one thread holds a mutex, and a free mutex that threads wait for has a
-- thread on its way to it.
use rumpuser_xen.Prelude.{
  ℕ, ◌+◌, ◌^◌, ◌<◌, ◌≡◌, ◌≢◌, ◌⊎◌, refl, sym, ◌∙◌, inl, inr, Bool, true, [], arith, member,
}
use native.Mathlib.Decide.{ℕ_discrete as dec_eq}
use rumpuser_xen.Sched.{ok}
use rumpuser_xen.Synch.Waiters.{World}
use rumpuser_xen.Synch.Mutex.{Mtx, mutex_init, mutex_exit}
use rumpuser_xen.Synch.Mutex.System.{
  outside, entering, waiting, System, run, lwp_of, Step, enters, loops, resumes, exits, stirs,
  Reach, here, next,
}
use rumpuser_xen.Synch.Mutex.Inv.{Inv, IsComing, stirred-Inv}
use rumpuser_xen.Synch.Mutex.Steps.{enter-Inv, loop-Inv, resume-Inv, exit-Inv, exit_total}
use rumpuser_xen.Synch.Mutex.Inv.{Off-outside}

-- A mutex that `rumpuser_mutex_init` has just made, in a world whose threads have lwps of their own.
pub record IsFresh (s : System) : Type 0 where
  pub kmutex : Bool
  pub spin : Bool
  pub made : s.mtx ≡ mutex_init kmutex spin
  pub named : (t u : ℕ) → lwp_of s t ≡ lwp_of s u → lwp_of s t ≢ 0 → t ≡ u
  pub idle : (t : ℕ) → (s.pc t ≡ outside) × (s.depth t ≡ 0)

fresh-Inv : (s : System) → IsFresh s → Inv s
unfolding mutex_init
fresh-Inv s f =
    let e = f.made in
    record {
      named = f.named;
      small = rw e (omega arith);
      free = λ h. rw e refl;
      freed = λ h. rw e refl;
      held = λ t h. absurd (omega (arith, (f.idle t).1));
      holder = λ h. absurd (h (rw e refl));
      once = rw e tt;
      queued = λ t h. ground (arith, e);
      marked = λ t p o. ground (arith, f.idle t);
      woken = λ t p o. ground (arith, f.idle t);
      handed = λ h. inl (rw e refl);
    }

-- Each step of any thread keeps the invariant.
pub Step-Inv : {s s' : System} → Inv s → s.mtx.v + 1 < 2 ^ 31 → Step s s' → Inv s'
Step-Inv v b (enters t n p) = enter-Inv v t b n p
Step-Inv {s} v b (loops t n p) = loop-Inv v t b n s.mtx.waiters (Off-outside v t (ground arith))
Step-Inv v b (resumes t n p r) = resume-Inv v t b n
Step-Inv v b (exits t {m} {w} p h e) = exit-Inv v t h m w e
Step-Inv v b (stirs t) = stirred-Inv v t

pub Reach-Inv : {s s' : System} → IsFresh s → Reach s s' → Inv s'
Reach-Inv {s} f here = fresh-Inv s f
Reach-Inv f (next r b st) = Step-Inv (Reach-Inv f r) b st

-- Mutual exclusion, for threads that each have an lwp, not NULL, no two the same, which stays theirs: in every
-- state that they reach from a fresh mutex, with enters nested less deep than the largest `int`, two threads that have entered and not left are the same one, and
-- the mutex counts its enters and names its lwp as the owner.
pub mutual_exclusion :
    {s s' : System}
    → IsFresh s
    → Reach s s'
    → (t u : ℕ) → 0 < s'.depth t
    → 0 < s'.depth u
    → (t ≡ u) × (s'.mtx.v ≡ s'.depth t) × (s'.mtx.o ≡ lwp_of s' t)
mutual_exclusion {s' = s'} f r t u h k =
    let v = Reach-Inv f r in
    let (l, d) = v.held t h in
    let (l', d') = v.held u k in
    (v.named t u (l ∙ sym l') (λ e. ground (arith, v.free)), sym d, sym l)

-- No wakeup is lost, for threads that each have an lwp of their own, not NULL and never changed, and with enters
-- nested less deep than the largest `int`: in every state that they reach from a fresh mutex, a mutex with queued threads is held, by a thread whose
-- exit succeeds, or some thread is about to try again: it is in the loop, or was taken off the queue
-- and can run.
pub no_lost_wakeup :
    {s s' : System}
    → IsFresh s
    → Reach s s'
    → (w : ℕ) → member w s'.mtx.waiters ≡ true
    → ((t : ℕ) × (0 < s'.depth t)
        × ((r : Mtx × World) × (mutex_exit s'.mtx (run t s'.world) ≡ ok r)))
      ⊎ ((t : ℕ) × ((s'.pc t ≡ entering)
            ⊎ ((s'.pc t ≡ waiting) × ((s'.world.sched.thread t).runnable ≡ true))))
no_lost_wakeup {s' = s'} f r w h =
    let v = Reach-Inv f r in
    elim (dec_eq s'.mtx.v 0) [
      | no n ↦
          let (t, l, d) = v.holder n in
          let p : 0 < s'.depth t = ground arith in inl (t, p, exit_total v t p)
      | yes e ↦ inr (coming v (v.handed e))
    ]
  where
    coming :
        Inv s'
        → (s'.mtx.waiters ≡ []) ⊎ ((t : ℕ) × IsComing s' t)
        → (t : ℕ) × ((s'.pc t ≡ entering)
            ⊎ ((s'.pc t ≡ waiting) × ((s'.world.sched.thread t).runnable ≡ true)))
    coming v (inl e) = absurd (ground arith)
    coming v (inr (t, inl e)) = (t, inl e)
    coming v (inr (t, inr (p, o))) = (t, inr (p, v.woken t p o))
