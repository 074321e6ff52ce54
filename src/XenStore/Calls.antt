-- ===== src/XenStore/Calls.antt =====
-- xen/xenbus/xenbus.c: what a function comes to that calls those that may sleep until there is room.

-- A result; a failed assertion or BUG_ON; no end; or a sleep in the middle of a call.
pub data Call {ℓ} (A : Type ℓ) : Type ℓ where
  ok : A → Call A
  bug : Call A
  hang : Call A
  asleep : Call A

-- The same under names that Sched's do not share.
abbrev pub call_ok {ℓ} : {A : Type ℓ} → A → Call A
call_ok x = ok x

abbrev pub call_bug {ℓ} : {A : Type ℓ} → Call A
call_bug = bug

abbrev pub call_hang {ℓ} : {A : Type ℓ} → Call A
call_hang = hang

abbrev pub call_asleep {ℓ} : {A : Type ℓ} → Call A
call_asleep = asleep
