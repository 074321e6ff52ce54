-- ===== src/Sched.antt =====
-- xen/sched.c, include/mini-os/sched.h and the thread creation of xen/arch/x86/sched.c: the
-- cooperative scheduler of one virtual CPU. A `struct thread` is a cell of a store, named by its
-- address (0 is NULL), and a TAILQ is the list of its elements' addresses. The flags word is one
-- Boolean for each flag. A function that reaches `schedule` ends there in the model, and what it
-- does when it is resumed is a function of its own.
pub mod Time
pub mod Threads
pub mod Choice
pub mod Fairness
pub mod Reach
pub mod Stacks
mod Tests
pub mod Safety
use rumpuser_xen.Prelude.{
  ℕ, zero, suc, ◌≡◌, Bool, true, false, not, ◌&&◌, Option, none, some, List, [], ◌∷◌, ◌++◌, ◌==◌,
  ◌/=◌, if◌then◌else◌, update, remove,
}
use Time.{add_time, le_time, lt_time, seconds, millisecs}

pub record Thread : Type 0 where
  pub runnable : Bool  -- RUNNABLE_FLAG
  pub must_join : Bool  -- THREAD_MUSTJOIN
  pub joined : Bool  -- THREAD_JOINED
  pub ext_stack : Bool  -- THREAD_EXTSTACK
  pub timed_out : Bool  -- THREAD_TIMEDOUT
  pub wakeup_time : ℕ  -- s_time_t
  pub lwp : ℕ
  pub cookie : ℕ
  pub stack : ℕ
  pub started : Bool  -- `thr_ip` is no longer `thread_starter`

pub record JoinWaiter : Type 0 where
  pub jw_thread : ℕ
  pub jw_wanted : ℕ

pub record Sched : Type 0 where
  pub thread : ℕ → Thread
  pub thread_list : List ℕ
  pub exited_threads : List ℕ
  pub joinwq : List JoinWaiter
  pub current : ℕ
  pub now : ℕ  -- what NOW() returns
  pub in_callback : Bool
  pub irqs_off : Bool
  pub hook_set : Bool  -- `scheduler_hook` is not NULL
  pub hook_calls : List (ℕ × ℕ)  -- its calls, the latest first
  pub freed : List ℕ  -- the threads given to `xfree` whose memory is not in use again
  pub freed_stacks : List ℕ  -- the stacks given to `free_pages`, the latest first

-- A write through a pointer to a thread.
abbrev pub modify : ℕ → (Thread → Thread) → Sched → Sched
modify t f s = record s { thread = update s.thread t (f (s.thread t)) }

unfoldable pub wake : ℕ → Sched → Sched
wake t = modify t (λ th. record th { wakeup_time = 0; runnable = true })

unfoldable pub block : ℕ → Sched → Sched
block t = modify t (λ th. record th { wakeup_time = 0; runnable = false })

-- The part of the loop body that handles the timeout of one thread, with the earliest wakeup time
-- found so far.
unfoldable pub expire : ℕ → ℕ → ℕ → Sched → Sched × ℕ
expire now t min s =
    if not (s.thread t).runnable && (s.thread t).wakeup_time /= 0
    then (if le_time (s.thread t).wakeup_time now
        then (wake t (modify t (λ th. record th { timed_out = true }) s), min)
        else if lt_time (s.thread t).wakeup_time min
        then (s, (s.thread t).wakeup_time)
        else (s, min))
    else (s, min)

unfoldable pub requeue : ℕ → Sched → Sched
requeue t s = record s { thread_list = remove t s.thread_list ++ (t ∷ []) }

-- The TAILQ_FOREACH_SAFE of `schedule`: the state, `next` and `min_wakeup_time` after it.
unfoldable pub scan : ℕ → List ℕ → ℕ → Sched → Sched × Option ℕ × ℕ
scan now [] min s = (s, none, min)
scan now (t ∷ ts) min s =
    let (s', min') = expire now t min s in
    if (s'.thread t).runnable then (requeue t s', some t, min') else scan now ts min' s'

unfoldable pub examine : Sched → Sched × Option ℕ × ℕ
examine s = scan s.now s.thread_list (add_time s.now (seconds 10)) s

unfoldable pub switch_threads : ℕ → ℕ → Sched → Sched
switch_threads prev next s = record s {
  current = next;
  hook_calls =
      (if s.hook_set
        then ((s.thread prev).cookie, (s.thread next).cookie) ∷ s.hook_calls
        else s.hook_calls);
}

unfoldable pub free_thread : ℕ → Sched → Sched
free_thread t s = record s {
  exited_threads = remove t s.exited_threads;
  freed = t ∷ s.freed;
  freed_stacks =
      (if (s.thread t).ext_stack then s.freed_stacks else (s.thread t).stack ∷ s.freed_stacks);
}

-- The TAILQ_FOREACH_SAFE over the exited threads.
unfoldable pub reap : ℕ → List ℕ → Sched → Sched
reap prev [] s = s
reap prev (t ∷ ts) s = reap prev ts (if t == prev then s else free_thread t s)

-- The end of `schedule`. A thread that was switched out goes on behind `switch_threads` in its own
-- call, in which `prev` is itself; a new thread starts in its own function and reaps nothing.
unfoldable pub resume : ℕ → Sched → Sched
resume next s =
    if s.current == next
    then reap next s.exited_threads s
    else (let s' = switch_threads s.current next s in
        if (s'.thread next).started
        then reap next s'.exited_threads s'
        else modify next (λ th. record th { started = true }) s')

-- What a call may do: go on, stop at BUG() or at a failed ASSERT, or loop for longer than the fuel.
pub data Outcome {ℓ} (A : Type ℓ) : Type ℓ where
  ok : A → Outcome A
  bug : Outcome A
  hang : Outcome A

-- The do-while loop. `idle until` is `block_domain(until)` and `force_evtchn_callback()`.
unfoldable pub pick : (ℕ → Sched → Sched) → ℕ → Sched → Outcome (ℕ × Sched)
pick idle zero s = hang
pick idle (suc fuel) s =
    let (s', next, min) = examine s in
    elim next [ some t ↦ ok (t, s') | none ↦ pick idle fuel (idle min s') ]

unfoldable pub schedule : (ℕ → Sched → Sched) → ℕ → Sched → Outcome Sched
schedule idle fuel s =
    if s.in_callback
    then bug
    else if s.irqs_off
    then bug
    else elim (pick idle fuel s) [ ok (t, s') ↦ ok (resume t s') | bug ↦ bug | hang ↦ hang ]
