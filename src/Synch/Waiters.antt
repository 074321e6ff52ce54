-- ===== src/Synch/Waiters.antt =====
-- rumphyper_synch.c: queues of waiting threads. A `struct waiter` lies on the stack
-- of the thread that waits, which waits once at a time, so that thread's address names it: a
-- `struct waithead` is the list of the threads, and `onlist` a field for each thread.
pub mod Laws
use rumpuser_xen.Prelude.{
  ℕ, ◌%◌, ◌^◌, ◌+◌, ◌-◌, Bool, true, false, ◌&&◌, List, [], ◌∷◌, ◌++◌, ◌/=◌, ltb, if◌then◌else◌,
  update, remove,
}
use rumpuser_xen.Sched.{Sched, Thread, modify, wake, block}
use rumpuser_xen.Sched.Time.{add_time}

-- The error numbers that these functions return; `success` is 0.
pub data Errno : Type 0 where
  success etimedout ebusy einval : Errno

pub record World : Type 0 where
  pub sched : Sched
  pub onlist : ℕ → Bool

abbrev pub me : World → ℕ
me w = w.sched.current

-- `wait` up to its call of `schedule`: the queue and the world.
unfoldable pub wait : List ℕ → ℕ → World → List ℕ × World
wait wh nsec w =
    let s = block (me w) w.sched in
    (
      wh ++ (me w ∷ []),
      record {
        sched =
            (if nsec /= 0
              then modify (me w) (λ th. record th { wakeup_time = add_time s.now nsec }) s
              else s);
        onlist = update w.onlist (me w) true;
      },
    )

-- `wait` behind its call of `schedule`.
unfoldable pub wait_resume : List ℕ → World → List ℕ × Errno
wait_resume wh w = if w.onlist (me w) then (remove (me w) wh, etimedout) else (wh, success)

-- A waiter that has just been unlinked.
unfoldable pub wake_waiter : ℕ → World → World
wake_waiter t w = record { sched = wake t w.sched; onlist = update w.onlist t false }

unfoldable pub wakeup_one : List ℕ → World → List ℕ × World
wakeup_one [] w = ([], w)
wakeup_one (t ∷ wh) w = (wh, wake_waiter t w)

unfoldable pub wakeup_all : List ℕ → World → List ℕ × World
wakeup_all [] w = ([], w)
wakeup_all (t ∷ wh) w = wakeup_all wh (wake_waiter t w)

-- An `int` as its bit pattern below 2 ^ 32.
abbrev pub inc_int : ℕ → ℕ
inc_int v = (v + 1) % 2 ^ 32

abbrev pub dec_int : ℕ → ℕ
dec_int v = (v + 2 ^ 32 - 1) % 2 ^ 32

abbrev pub positive_int : ℕ → Bool
positive_int v = ltb 0 v && ltb v (2 ^ 31)

abbrev pub minus_one : ℕ
minus_one = 2 ^ 32 - 1

-- `rumpuser_curlwp`.
abbrev pub curlwp : World → ℕ
curlwp w = (w.sched.thread (me w)).lwp
