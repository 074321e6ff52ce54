-- ===== src/Lwp/Context.antt =====
-- lib/_lwp.c: `_lwp_rumpxen_makecontext`, and `_lwp_rumpxen_scheduler_init`.
use rumpuser_xen.Prelude.{
  ℕ, ◌+◌, ◌*◌, ◌%◌, ◌^◌, ◌≤◌, ◌≡◌, refl, ap, ◌∙◌, some, [], ◌∷◌, ◌++◌, arith, update, update_self,
}
use rumpuser_xen.Sched.{ok}
use rumpuser_xen.Lwp.{
  Schedulable, Lwps, stack_size, makecontext, lwpid2scd, scheduler_init, first_lwpid,
}
use rumpuser_xen.Lwp.Lookup.{Ids}

-- The stack of STACK_SIZE bytes that the lwp gets is aligned to its size and lies in the memory of
-- twice that size that the caller gives, if that does not wrap around.
pub makecontext-stack :
    (start arg p base : ℕ) (l : Lwps)
    → base + 2 * stack_size ≤ 2 ^ 64
    → (l' : Lwps) × (makecontext start arg p base (2 * stack_size) l ≡ ok l')
      × ((l'.scd p).stack % stack_size ≡ 0)
      × (base ≤ (l'.scd p).stack)
      × ((l'.scd p).stack + stack_size ≤ base + 2 * stack_size)
unfolding makecontext
makecontext-stack start arg p base l b = (
  _,
  refl,
  rw (update_self l.scd p _) (omega arith),
  rw (update_self l.scd p _) (omega arith),
  rw (update_self l.scd p _) (omega arith),
)

lookup_one :
    (scd : ℕ → Schedulable) (p lid : ℕ) → (scd p).lwpid ≡ lid → lwpid2scd scd (p ∷ []) lid ≡ some p
unfolding lwpid2scd
lookup_one scd p lid e = ground (arith, e)

-- From an empty list with the main lwp's first identifier, _lwp_rumpxen_scheduler_init leaves
-- different identifiers, and the first one finds the main lwp, whose thread is the current one.
pub scheduler_init-Ids :
    (main : ℕ) (l : Lwps)
    → l.scheds ≡ []
    → l.curlwpid ≡ first_lwpid
    → (l.scd main).lwpid ≡ first_lwpid
    → let l' = scheduler_init main l in
      Ids l'
      × (lwpid2scd l'.scd l'.scheds first_lwpid ≡ some main)
      × ((l'.scd main).thread ≡ l.sched.current)
unfolding scheduler_init lwpid2scd
scheduler_init-Ids main l e c i =
    let cell = record (l.scd main) { thread = l.sched.current } in
    let at : (update l.scd main cell main).lwpid ≡ first_lwpid =
      ap (λ x. x.lwpid) (update_self l.scd main cell) ∙ i in
    (
      record {
        linked = rw e (refl, tt);
        different = rw e (refl, tt);
        issued = rw e (omega (arith, at, c), tt);
      },
      ap (λ ps. lwpid2scd (update l.scd main cell) (ps ++ (main ∷ [])) first_lwpid) e
          ∙ lookup_one (update l.scd main cell) main first_lwpid at,
      ap (λ x. x.thread) (update_self l.scd main cell),
    )
