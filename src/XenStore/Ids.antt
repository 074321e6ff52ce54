-- ===== src/XenStore/Ids.antt =====
-- xen/xenbus/xenbus.c: xenbus_id_allocate and xenbus_id_release keep count of the identifiers in use.
use rumpuser_xen.Prelude.{
  ℕ, zero, suc, ◌+◌, ◌-◌, ◌%◌, ◌≤◌, ◌<◌, ◌≡◌, ◌≢◌, refl, sym, ap, ◌∙◌, inl, inr, true, false, some,
  arith, ◌==◌, ltb, if◌then◌else◌, update, update_self, update_ne, Bool-cases, ==_iff,
}
use rumpuser_xen.Sched.{ok}
use rumpuser_xen.XenStore.{Requests, nr_reqs, probe_loop, id_allocate, id_release}

-- How many of the first identifiers are in use.
unfoldable pub in_use : ℕ → (ℕ → ℕ) → ℕ
in_use zero q = 0
in_use (suc n) q = (if q n == 0 then 0 else 1) + in_use n q

pub record IsCounted (s : Requests) : Type 0 where
  pub live : s.nr_live_reqs ≡ in_use nr_reqs s.reply_queue
  pub probe_below : s.probe < nr_reqs

in_use-beyond : (n i : ℕ) (q : ℕ → ℕ) (v : ℕ) → n ≤ i → in_use n (update q i v) ≡ in_use n q
unfolding in_use
in_use-beyond zero i q v l = refl
in_use-beyond (suc n) i q v l =
    let e : update q i v n ≡ q n = update_ne q i n v (omega arith) in
    ground (arith, e, in_use-beyond n i q v (omega arith))

in_use-update :
    (n i : ℕ) (q : ℕ → ℕ) (v : ℕ)
    → i < n
    → in_use n (update q i v) + (if q i == 0 then 0 else 1) ≡ in_use n q + (if v == 0 then 0 else 1)
unfolding in_use
in_use-update zero i q v l = absurd (omega arith)
in_use-update (suc n) i q v l = elim (Bool-cases (i == n)) [
  | inl e ↦
      let z : i ≡ n = (==_iff i n).0 e in
      let a : update q i v n ≡ v = ap (update q i v) (sym z) ∙ update_self q i v in
      let b : q i ≡ q n = ap q z in ground (arith, a, b, in_use-beyond n i q v (omega (arith, z)))
  | inr e ↦
      let a : update q i v n ≡ q n = update_ne q i n v (ground (arith, e)) in
      ground (arith, a, in_use-update n i q v (ground (arith, e)))
]

-- Fewer in use than there are: one is free.
in_use_free : (n : ℕ) (q : ℕ → ℕ) → in_use n q < n → (f : ℕ) × (f < n) × (q f ≡ 0)
unfolding in_use
in_use_free zero q l = absurd (omega arith)
in_use_free (suc n) q l = elim (Bool-cases (q n == 0)) [
  | inl e ↦ (n, omega arith, ground (arith, e))
  | inr e ↦ let (f, k, z) = in_use_free n q (ground (arith, l, e)) in (f, omega (arith, k), z)
]

pub in_use_bound : (n : ℕ) (q : ℕ → ℕ) → in_use n q ≤ n
unfolding in_use
in_use_bound zero q = omega arith
in_use_bound (suc n) q = ground (arith, in_use_bound n q)

-- The loop, `k` places behind its start, with a free place `d` behind the start.
probe_loop_finds :
    (fuel p k d : ℕ) (q : ℕ → ℕ)
    → p < nr_reqs
    → d < nr_reqs
    → k ≤ d
    → nr_reqs ≤ fuel + k
    → q ((p + d) % nr_reqs) ≡ 0
    → (id : ℕ) × (probe_loop fuel p ((p + k) % nr_reqs) q ≡ ok id) × (id < nr_reqs) × (q id ≡ 0)
unfolding probe_loop
probe_loop_finds zero p k d q b l h f z = absurd (omega arith)
probe_loop_finds (suc fuel) p k d q b l h f z =
    let o = (p + k) % nr_reqs in
    elim (Bool-cases (q o == 0)) [
      | inl e ↦ (o, rw e refl, omega arith, ground (arith, e))
      | inr e ↦
          let far : k < d = elim (Bool-cases (k == d)) [
            | inl y ↦
                let same : q o ≡ q ((p + d) % nr_reqs) =
                  ap (λ j. q ((p + j) % nr_reqs)) ((==_iff k d).0 y) in
                absurd (ground (arith, same, z, e))
            | inr y ↦ ground (arith, y)
          ] in
          let next : (p + (k + 1)) % nr_reqs ≡ (o + 1) % nr_reqs = omega arith in
          let apart : ((o + 1) % nr_reqs == p) ≡ false = ground (arith, far) in
          let (id, r, k', z') =
            probe_loop_finds fuel p (k + 1) d q b l (omega arith) (omega arith) z in
          (id, rw (e, apart) (ap (λ j. probe_loop fuel p j q) (sym next) ∙ r), k', z')
    ]

-- If fewer than NR_REQS identifiers are in use, xenbus_id_allocate returns one that was not, after at most
-- NR_REQS steps and without BUG(); it names the caller's queue and event from then on, all others stay,
-- and the count stays right.
pub id_allocate-Fresh :
    (queue event : ℕ) (s : Requests)
    → queue ≢ 0
    → IsCounted s
    → s.nr_live_reqs < nr_reqs
    → (id : ℕ) × (s' : Requests) × (id_allocate queue event s ≡ ok (some (id, s')))
      × (id < nr_reqs)
      × (s.reply_queue id ≡ 0)
      × (s'.reply_queue ≡ update s.reply_queue id queue)
      × (s'.for_queue ≡ update s.for_queue id event)
      × IsCounted s'
unfolding id_allocate
id_allocate-Fresh queue event s ne c l =
    let (f, k, z) = in_use_free nr_reqs s.reply_queue (omega (arith, c.live, l)) in
    let d = (f + nr_reqs - s.probe) % nr_reqs in
    let b = c.probe_below in
    let there : f ≡ (s.probe + d) % nr_reqs = omega (arith, k, b) in
    let start : (s.probe + 0) % nr_reqs ≡ s.probe = omega (arith, b) in
    let (id, r, h, free) =
      probe_loop_finds nr_reqs s.probe 0 d s.reply_queue b (omega arith) (omega arith) (omega arith)
        (ap s.reply_queue (sym there) ∙ z) in
    let r' : probe_loop nr_reqs s.probe s.probe s.reply_queue ≡ ok id =
      ap (λ o. probe_loop nr_reqs s.probe o s.reply_queue) (sym start) ∙ r in
    let few : ltb s.nr_live_reqs nr_reqs ≡ true = ground (arith, l) in
    let s' = record s {
      nr_live_reqs = s.nr_live_reqs + 1;
      reply_queue = update s.reply_queue id queue;
      for_queue = update s.for_queue id event;
      probe = (id + 1) % nr_reqs;
    } in
    let count = in_use-update nr_reqs id s.reply_queue queue h in
    (
      id,
      s',
      rw (few, r') refl,
      h,
      free,
      refl,
      refl,
      record { live = ground (arith, count, c.live, free, ne); probe_below = omega arith },
    )

-- xenbus_id_release of an identifier in use makes it free, keeps all others and the count, and wakes those who
-- wait for one if and only if all were in use.
pub id_release-Freed :
    (id : ℕ) (s : Requests)
    → id < nr_reqs
    → s.reply_queue id ≢ 0
    → IsCounted s
    → (s' : Requests) × (id_release id s ≡ ok s')
      × (s'.reply_queue ≡ update s.reply_queue id 0)
      × IsCounted s'
      × (s'.woken ≡ s.woken + (if in_use nr_reqs s.reply_queue == nr_reqs then 1 else 0))
unfolding id_release
id_release-Freed id s l ne c =
    let used : (s.reply_queue id == 0) ≡ false = ground (arith, ne) in
    let live = s.nr_live_reqs - 1 in
    let count = in_use-update nr_reqs id s.reply_queue 0 l in
    let s' = record s {
      reply_queue = update s.reply_queue id 0;
      nr_live_reqs = live;
      woken = s.woken + (if live == nr_reqs - 1 then 1 else 0);
    } in
    (
      s',
      rw used refl,
      refl,
      record { live = ground (arith, count, c.live, used); probe_below = c.probe_below },
      ground (arith, c.live, count, used),
    )
