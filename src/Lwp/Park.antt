-- ===== src/Lwp/Park.antt =====
-- lib/_lwp.c: parking and unparking, and the deadline of a park with a timeout.
use mathlib.Core.Path.{subst}
use rumpuser_xen.Prelude.{
  ℕ, ◌+◌, ◌*◌, ◌/◌, ◌%◌, ◌^◌, ◌≤◌, ◌<◌, ◌≡◌, ◌⊎◌, refl, sym, ap, ◌∙◌, inl, inr, Bool, true, false,
  none, some, arith, ◌==◌, ltb, member, Distinct, update_self, Bool-cases, Option-cases,
  if◌then◌else◌,
}
use rumpuser_xen.Sched.{wake, block}
use rumpuser_xen.Sched.Threads.{absmsleep, dosleep}
use rumpuser_xen.Lwp.{
  Lwps, Timespec, timeout_msecs, lwpid2scd, lwp_unpark, lwp_park, lwp_self, on_sched,
}
use rumpuser_xen.Lwp.Lookup.{Ids, ids, lwpid2scd-member}

abbrev pub runs : Lwps → ℕ → Bool
runs l p = (l.sched.thread (l.scd p).thread).runnable

pub lwp_unpark-lists :
    (lid : ℕ) (l : Lwps)
    → let l' = (lwp_unpark lid l).1 in
      (l'.scd ≡ l.scd) × (l'.scheds ≡ l.scheds) × (l'.curtcb ≡ l.curtcb)
unfolding lwp_unpark
lwp_unpark-lists lid l = elim (Option-cases (lwpid2scd l.scd l.scheds lid)) [
  | inl e ↦ rw (e, lwp_unpark) (refl, refl, refl)
  | inr (p, e) ↦ rw (e, lwp_unpark) (refl, refl, refl)
]

pub lwp_unpark-found :
    (l : Lwps) (lid p : ℕ)
    → lwpid2scd l.scd l.scheds lid ≡ some p
    → ((lwp_unpark lid l).0 ≡ true) × (runs (lwp_unpark lid l).1 p ≡ true)
unfolding lwp_unpark wake
lwp_unpark-found l lid p e = rw (e, lwp_unpark) (refl, ground arith)

block_stops : (l : Lwps) (p : ℕ) → runs (on_sched (block (l.scd p).thread) l) p ≡ false
unfolding block
block_stops l p = ground arith

block_found :
    (l : Lwps) (p : ℕ)
    → Distinct (ids l.scd l.scheds)
    → member p l.scheds ≡ true
    → let l' = on_sched (block (l.scd p).thread) l in
      (runs l' p ≡ false)
      × ((lwp_unpark (l.scd p).lwpid l').0 ≡ true)
      × (runs (lwp_unpark (l.scd p).lwpid l').1 p ≡ true)
block_found l p d m =
    let l' = on_sched (block (l.scd p).thread) l in
    let (f, r) = lwp_unpark-found l' (l.scd p).lwpid p (lwpid2scd-member l.scd l.scheds p d m) in
    (block_stops l p, f, r)

-- Without a timeout _lwp_park leaves the caller's thread blocked, even if it was unparked before or
-- unparks itself, and a later _lwp_unpark of the caller's identifier finds it and makes it runnable.
pub lwp_park-unpark :
    (abstime : Bool) (unpark : ℕ) (l : Lwps)
    → Ids l
    → member l.curtcb l.scheds ≡ true
    → let l' = lwp_park abstime none unpark l in
      (runs l' l.curtcb ≡ false)
      × ((lwp_unpark (lwp_self l) l').0 ≡ true)
      × (runs (lwp_unpark (lwp_self l) l').1 l.curtcb ≡ true)
unfolding lwp_park lwp_self
lwp_park-unpark abstime unpark l w m = elim (Bool-cases (unpark == 0)) [
  | inl e ↦ rw e (block_found l l.curtcb w.different m)
  | inr e ↦
      let l' = (lwp_unpark unpark l).1 in
      let (c, s, t) = lwp_unpark-lists unpark l in
      let k = ap (λ f. ids f l'.scheds) c ∙ ap (ids l.scd) s in
      let b =
        block_found l' l.curtcb (subst Distinct (sym k) w.different)
          (subst (λ x. member l.curtcb x ≡ true) (sym s) m) in
      let l'' = on_sched (block (l'.scd l.curtcb).thread) l' in
      rw e (
        subst
          (λ i.
            (runs l'' l.curtcb ≡ false)
            × ((lwp_unpark i l'').0 ≡ true)
            × (runs (lwp_unpark i l'').1 l.curtcb ≡ true))
          (ap (λ f. (f l.curtcb).lwpid) c) b)
]

abbrev wakeup_at : ℕ → ℕ → ℕ
wakeup_at sec nsec = (sec * 1000 + nsec / 1_000_000) % 2 ^ 64 % 2 ^ 32 * 1_000_000 % 2 ^ 64

deadline_near :
    (sec nsec : ℕ)
    → sec * 1000 + nsec / 1_000_000 < 2 ^ 32
    → nsec < 1_000_000_000
    → (sec * 1_000_000_000 + nsec < 2 ^ 32 * 1_000_000)
      × (wakeup_at sec nsec ≤ sec * 1_000_000_000 + nsec)
      × (sec * 1_000_000_000 + nsec < wakeup_at sec nsec + 1_000_000)
deadline_near sec nsec l n = (omega arith, omega arith, omega arith)

deadline_far :
    (sec nsec : ℕ)
    → sec < 2 ^ 53
    → 2 ^ 32 ≤ sec * 1000 + nsec / 1_000_000
    → (2 ^ 32 * 1_000_000 ≤ sec * 1_000_000_000 + nsec)
      × (wakeup_at sec nsec + 2 ^ 32 * 1_000_000 ≤ sec * 1_000_000_000 + nsec)
deadline_far sec nsec b l = (omega arith, omega arith)

deadline_none :
    (sec nsec : ℕ) → (sec * 1000 + nsec / 1_000_000) % 2 ^ 64 % 2 ^ 32 ≡ 0 → wakeup_at sec nsec ≡ 0
deadline_none sec nsec z = omega (arith, z)

deadline_some :
    (sec nsec : ℕ) → 0 < (sec * 1000 + nsec / 1_000_000) % 2 ^ 64 % 2 ^ 32 → 0 < wakeup_at sec nsec
deadline_some sec nsec z = omega (arith, z)

-- What a deadline comes to: no timeout at all; a timeout in the deadline's millisecond; or one far too early.
abbrev pub Woken : Timespec → ℕ → Type 0
Woken ts wakeup =
    let msecs = ts.tv_sec * 1000 + ts.tv_nsec / 1_000_000 in
    let deadline = ts.tv_sec * 1_000_000_000 + ts.tv_nsec in
    ((msecs % 2 ^ 32 ≡ 0) × (wakeup ≡ 0))
    ⊎ ((0 < wakeup)
        × (((msecs < 2 ^ 32) × (wakeup ≤ deadline) × (deadline < wakeup + 1_000_000))
            ⊎ ((2 ^ 32 ≤ msecs) × (wakeup + 2 ^ 32 * 1_000_000 ≤ deadline))))

deadline-Woken :
    (ts : Timespec)
    → ts.tv_sec < 2 ^ 53
    → ts.tv_nsec < 1_000_000_000
    → Woken ts (wakeup_at ts.tv_sec ts.tv_nsec)
deadline-Woken ts b n =
    let msecs = ts.tv_sec * 1000 + ts.tv_nsec / 1_000_000 in
    let cut : msecs % 2 ^ 64 ≡ msecs = omega (arith, b, n) in
    elim (Bool-cases (msecs % 2 ^ 32 == 0)) [
      | inl z ↦ inl (
        ground (arith, z),
        deadline_none ts.tv_sec ts.tv_nsec (ap (λ k. k % 2 ^ 32) cut ∙ ground (arith, z)),
      )
      | inr z ↦ inr (
        deadline_some ts.tv_sec ts.tv_nsec
            (subst (λ k. 0 < k % 2 ^ 32) (sym cut) (ground (arith, z))),
        elim (Bool-cases (ltb msecs (2 ^ 32))) [
          | inl e ↦
              let (x, y, z') = deadline_near ts.tv_sec ts.tv_nsec (ground (arith, e)) n in
              inl (ground (arith, e), y, z')
          | inr e ↦
              let (x, y) = deadline_far ts.tv_sec ts.tv_nsec b (ground (arith, e)) in
              inr (ground (arith, e), y)
        ],
      )
    ]

-- With an absolute deadline of less than 2 ^ 53 seconds, whether it unparks another or not: _lwp_park lets the
-- caller sleep without a timeout if the deadline's milliseconds are a multiple of 2 ^ 32; else to the
-- deadline's millisecond if that is below 2 ^ 32 milliseconds, or with a timeout at least 2 ^ 32
-- milliseconds before the deadline.
pub lwp_park-deadline :
    (ts : Timespec) (unpark : ℕ) (l : Lwps)
    → ts.tv_sec < 2 ^ 53
    → ts.tv_nsec < 1_000_000_000
    → let l' = lwp_park true (some ts) unpark l in
      Woken ts (l'.sched.thread l'.sched.current).wakeup_time
unfolding lwp_park absmsleep dosleep timeout_msecs
lwp_park-deadline ts unpark l b n =
    let l1 = if unpark == 0 then l else (lwp_unpark unpark l).1 in
    rw (update_self l1.sched.thread l1.sched.current) (deadline-Woken ts b n)
