-- ===== src/Lwp.antt =====
-- lib/_lwp.c: the light-weight processes of the C library, each a thread of the scheduler. A
-- `struct schedulable` is a cell of a store, named by its address; the thread-local block, its first
-- member, has the same address. What calls `schedule` ends there, and goes on in a function of its own.
pub mod Lookup
pub mod Issue
pub mod Hook
pub mod Park
pub mod Name
pub mod Context
mod Tests
use rumpuser_xen.Prelude.{
  take, ℕ, zero, suc, ◌+◌, ◌-◌, ◌*◌, ◌/◌, ◌%◌, ◌^◌, ◌≡◌, Bool, true, false, Option, none, some,
  List, [], ◌∷◌, ◌++◌, ◌==◌, ◌/=◌, ◌&&◌, ltb, if◌then◌else◌, length, update, remove, min,
}
use rumpuser_xen.Sched.{Sched, wake, block, Outcome, ok, bug}
use rumpuser_xen.Sched.Threads.{
  create_thread, exit_thread, msleep, absmsleep, dosleep_resume, init_mainlwp,
}

-- `lc_curcpu`: LWPCTL_CPU_NONE, LWPCTL_CPU_EXITED, or a processor.
pub data Cpu : Type 0 where
  cpu_none cpu_exited : Cpu
  cpu : ℕ → Cpu

pub record Schedulable : Type 0 where
  pub thread : ℕ
  pub lwpid : ℕ
  pub name : Option (List ℕ)  -- `scd_name`, with its NUL
  pub start : ℕ
  pub arg : ℕ
  pub stack : ℕ
  pub curcpu : Cpu
  pub pctr : ℕ

pub record Lwps : Type 0 where
  pub scd : ℕ → Schedulable
  pub scheds : List ℕ
  pub curlwpid : ℕ
  pub curtcb : ℕ
  pub sched : Sched

pub data Error : Type 0 where
  no_error ebusy esrch enodev enomem etimedout : Error

abbrev pub first_lwpid : ℕ
first_lwpid = 1

abbrev pub stack_size : ℕ
stack_size = 65536

abbrev pub modify_scd : ℕ → (Schedulable → Schedulable) → Lwps → Lwps
modify_scd p f l = record l { scd = update l.scd p (f (l.scd p)) }

abbrev pub on_sched : (Sched → Sched) → Lwps → Lwps
on_sched f l = record l { sched = f l.sched }

-- The context that is filled holds `private` afterwards. `size` is the size that the caller states.
unfoldable pub makecontext : ℕ → ℕ → ℕ → ℕ → ℕ → Lwps → Outcome Lwps
makecontext start arg private base size l =
    if size == 2 * stack_size
    then ok (
        modify_scd private
          (λ c. record c {
            start = start;
            arg = arg;
            stack = (base - base % stack_size + stack_size) % 2 ^ 64;
          })
          l)
    else bug

unfoldable pub lwpid2scd : (ℕ → Schedulable) → List ℕ → ℕ → Option ℕ
lwpid2scd scd [] lid = none
lwpid2scd scd (p ∷ ps) lid = if (scd p).lwpid == lid then some p else lwpid2scd scd ps lid

-- `p` is what the context holds, `t` and `pages` are the memory of the new thread, `t` 0 if there is
-- none.
unfoldable pub lwp_create : ℕ → ℕ → ℕ → Lwps → Error × ℕ × Lwps
lwp_create p t pages l =
    let lid = (l.curlwpid + 1) % 2 ^ 32 in
    let l' =
      on_sched (create_thread t pages p (l.scd p).stack)
        (modify_scd p (λ c. record c { lwpid = lid; thread = t }) (record l { curlwpid = lid })) in
    if t == 0
    then (ebusy, lid, l')
    else (no_error, lid, record l' { scheds = l'.scheds ++ (p ∷ []) })

-- `true` for the result 0, `false` for -1.
unfoldable pub lwp_unpark : ℕ → Lwps → Bool × Lwps
lwp_unpark lid l = elim (lwpid2scd l.scd l.scheds lid) [
  | none ↦ (false, l)
  | some p ↦ (true, on_sched (wake (l.scd p).thread) l)
]

-- The loop, with the count from `rv` down.
unfoldable pub unpark_each : List ℕ → ℕ → Lwps → ℕ × Lwps
unpark_each [] rv l = (rv, l)
unpark_each (lid ∷ lids) rv l =
    let (found, l') = lwp_unpark lid l in unpark_each lids (if found then rv else rv - 1) l'

-- No targets are NULL.
unfoldable pub lwp_unpark_all : Option (List ℕ) → Lwps → ℕ × Lwps
lwp_unpark_all none l = (1024, l)
lwp_unpark_all (some targets) l = unpark_each targets (length targets) l

abbrev pub is_exited : Cpu → Bool
is_exited cpu_exited = true
is_exited cpu_none = false
is_exited (cpu n) = false

-- What the scheduler calls when it switches; a cookie is 0 if its thread is not an lwp.
unfoldable pub schedhook : ℕ → ℕ → Lwps → Lwps
schedhook prev next l =
    let l' = record l { curtcb = next } in
    let l'' =
      if prev == 0
      then l'
      else if is_exited (l'.scd prev).curcpu
      then l'
      else modify_scd prev (λ c. record c { curcpu = cpu_none }) l' in
    if next == 0
    then l''
    else modify_scd next (λ c. record c { curcpu = cpu 0; pctr = (c.pctr + 1) % 2 ^ 32 }) l''

-- `main` is the address of `mainthread`.
unfoldable pub scheduler_init : ℕ → Lwps → Lwps
scheduler_init main l =
    let s = record l.sched { hook_set = true } in
    record (modify_scd main (λ c. record c { thread = s.current }) l) {
      sched = init_mainlwp main s;
      scheds = l.scheds ++ (main ∷ []);
    }

-- struct timespec: the time is not negative.
pub record Timespec : Type 0 where
  pub tv_sec : ℕ
  pub tv_nsec : ℕ

unfoldable pub timeout_msecs : Timespec → ℕ
timeout_msecs ts = (ts.tv_sec * 1000 + ts.tv_nsec / 1_000_000) % 2 ^ 64 % 2 ^ 32

-- `___lwp_park60` up to `schedule`: `abstime` is the flag TIMER_ABSTIME, and `unpark` is 0 for none.
unfoldable pub lwp_park : Bool → Option Timespec → ℕ → Lwps → Lwps
lwp_park abstime ts unpark l =
    let mylwp = l.curtcb in
    let l' = if unpark == 0 then l else (lwp_unpark unpark l).1 in
    elim ts [
      | none ↦ on_sched (block (l'.scd mylwp).thread) l'
      | some t ↦
          on_sched (if abstime then absmsleep (timeout_msecs t) else msleep (timeout_msecs t)) l'
    ]

-- `___lwp_park60` behind `schedule`: the errno of the result -1, or no error.
unfoldable pub lwp_park_resume : Bool → Lwps → Error × Lwps
lwp_park_resume timed l =
    let (s, out) = dosleep_resume l.sched in
    if timed then (if out then etimedout else no_error, record l { sched = s }) else (no_error, l)

unfoldable pub lwp_exit : Lwps → Lwps
lwp_exit l =
    on_sched exit_thread (record (modify_scd l.curtcb (λ c. record c { curcpu = cpu_exited }) l) {
      scheds = remove l.curtcb l.scheds;
    })

unfoldable pub lwp_continue : ℕ → Lwps → Lwps
lwp_continue lid l = elim (lwpid2scd l.scd l.scheds lid) [
  | none ↦ l
  | some p ↦ on_sched (wake (l.scd p).thread) l
]

unfoldable pub lwp_suspend : ℕ → Lwps → Lwps
lwp_suspend lid l = elim (lwpid2scd l.scd l.scheds lid) [
  | none ↦ l
  | some p ↦ on_sched (block (l.scd p).thread) l
]

unfoldable pub lwp_wakeup : ℕ → Lwps → Error × Lwps
lwp_wakeup lid l = elim (lwpid2scd l.scd l.scheds lid) [
  | none ↦ (esrch, l)
  | some p ↦ (enodev, on_sched (wake (l.scd p).thread) l)
]

-- `maxcomlen` is MAXCOMLEN of sys/param.h; `memory` says whether `malloc` returns any. The string is
-- given without its NUL.
unfoldable pub lwp_setname : ℕ → Bool → ℕ → List ℕ → Lwps → Error × Lwps
lwp_setname maxcomlen memory lid name l = elim (lwpid2scd l.scd l.scheds lid) [
  | none ↦ (esrch, l)
  | some p ↦
      let nlen = if ltb maxcomlen (length name + 1) then maxcomlen else length name + 1 in
      if memory
      then (
        no_error,
        modify_scd p (λ c. record c { name = some (take (nlen - 1) name ++ (0 ∷ [])) }) l,
      )
      else (enomem, l)
]

unfoldable pub lwp_self : Lwps → ℕ
lwp_self l = (l.scd l.curtcb).lwpid
