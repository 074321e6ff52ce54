-- ===== src/Synch/Rwlock.antt =====
-- rumphyper_synch.c: reader and writer locks. `v` counts readers, `o` is the lwp
-- of the writer, 0 for NULL.
pub mod Laws
use rumpuser_xen.Prelude.{ℕ, Bool, true, false, ◌&&◌, List, [], ◌∷◌, ◌==◌, if◌then◌else◌}
use rumpuser_xen.Sched.{Outcome, ok, bug}
use rumpuser_xen.Synch.Waiters.{
  Errno, success, ebusy, World, me, wait, wait_resume, wakeup_one, wakeup_all, inc_int, dec_int,
  positive_int, minus_one, curlwp,
}
use rumpuser_xen.Synch.Mutex.{Progress, returned, blocked}

-- enum rumprwlock
pub data Rwlock : Type 0 where
  reader writer : Rwlock

pub record Rw : Type 0 where
  pub rwait : List ℕ
  pub wwait : List ℕ
  pub v : ℕ
  pub o : ℕ

abbrev pub is_empty : List ℕ → Bool
is_empty [] = true
is_empty (_ ∷ _) = false

unfoldable pub rw_init : Rw
rw_init = record { rwait = []; wwait = []; v = 0; o = 0 }

unfoldable pub rw_tryenter : Rwlock → Rw → World → Errno × Rw
rw_tryenter writer r w = if r.o == 0 then (success, record r { o = curlwp w }) else (ebusy, r)
rw_tryenter reader r w =
    if r.o == 0 && is_empty r.wwait then (success, record r { v = inc_int r.v }) else (ebusy, r)

-- The queue that `w` points to in `rumpuser_rw_enter`, read and written.
unfoldable pub queue : Rwlock → Rw → List ℕ
queue writer r = r.wwait
queue reader r = r.rwait

unfoldable pub set_queue : Rwlock → List ℕ → Rw → Rw
set_queue writer wh r = record r { wwait = wh }
set_queue reader wh r = record r { rwait = wh }

unfoldable pub rw_enter_loop : (World → World) → Rwlock → Rw → World → Progress × Rw × World
rw_enter_loop sched_up lk r w =
    let (e, r') = rw_tryenter lk r w in
    elim e [
      | success ↦ (returned, r', sched_up w)
      | _ ↦ let (wh, w') = wait (queue lk r) 0 w in (blocked, set_queue lk wh r, w')
    ]

unfoldable pub rw_enter :
    (World → World) → (World → World) → Rwlock → Rw → World → Progress × Rw × World
rw_enter unsched_up sched_up lk r w =
    let (e, r') = rw_tryenter lk r w in
    elim e [ success ↦ (returned, r', w) | _ ↦ rw_enter_loop sched_up lk r (unsched_up w) ]

unfoldable pub rw_enter_resume : (World → World) → Rwlock → Rw → World → Progress × Rw × World
rw_enter_resume sched_up lk r w =
    rw_enter_loop sched_up lk (set_queue lk (wait_resume (queue lk r) w).0 r) w

-- The first half of `rumpuser_rw_exit`.
unfoldable pub rw_drop : Rw → Rw
rw_drop r = if r.o == 0 then record r { v = dec_int r.v } else record r { o = 0 }

-- The second half: a waiting writer goes first, then all readers.
unfoldable pub rw_hand_over : Rw → World → Rw × World
rw_hand_over r w =
    if is_empty r.wwait
    then (if is_empty r.rwait
        then (r, w)
        else if r.o == 0
        then (let (wh, w') = wakeup_all r.rwait w in (record r { rwait = wh }, w'))
        else (r, w))
    else if r.o == 0
    then (let (wh, w') = wakeup_one r.wwait w in (record r { wwait = wh }, w'))
    else (r, w)

unfoldable pub rw_exit : Rw → World → Rw × World
rw_exit r w = rw_hand_over (rw_drop r) w

unfoldable pub rw_held : Rwlock → Rw → World → Bool
rw_held writer r w = r.o == curlwp w
rw_held reader r w = positive_int r.v

unfoldable pub rw_downgrade : Rw → World → Outcome Rw
rw_downgrade r w = if r.o == curlwp w then ok (record r { v = minus_one }) else bug

unfoldable pub rw_tryupgrade : Rw → World → Errno × Rw
rw_tryupgrade r w =
    if r.v == minus_one then (success, record r { v = 1; o = curlwp w }) else (ebusy, r)
