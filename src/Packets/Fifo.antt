-- ===== src/Packets/Fifo.antt =====
-- rumphyper_net.c: packets are delivered in the order in which they came, each once, and none is left behind.
use rumpuser_xen.Prelude.{
  ℕ, zero, suc, ◌+◌, ◌-◌, ◌%◌, ◌<◌, ◌≡◌, ◌≢◌, refl, sym, ap, ◌∙◌, inl, inr, false, not, ◌&&◌, List,
  [], ◌∷◌, ◌++◌, arith, ◌==◌, ◌/=◌, ltb, if◌then◌else◌, update, update_ne, length, Bool-cases,
}
use rumpuser_xen.Packets.{
  maxpkt, nbuf, sleeping, delivering, Viu, new_viu, myrecv, pusher_next, pusher_resume,
  pusher_delivered, keeps, Reach, created, received, started, resumed, done,
}
use rumpuser_xen.Packets.Queue.{contents, waiting, queue, contents-push}

append_assoc : (xs ys zs : List (List ℕ)) → (xs ++ ys) ++ zs ≡ xs ++ (ys ++ zs)
append_assoc [] ys zs = refl
append_assoc (x ∷ xs) ys zs = ap (λ l. x ∷ l) (append_assoc xs ys zs)

-- What holds of the ring whatever the thread does.
record IsQueue (kept : List (List ℕ)) (s : Viu) : Type 0 where
  read_below : s.viu_read < nbuf
  write_below : s.viu_write < nbuf
  order : s.delivered ++ queue s ≡ kept

-- The thread delivers the first packet of the ring, and sleeps without being runnable only on an empty ring, with
-- `viu_rcvr` set.
record IsFifo (me : ℕ) (kept : List (List ℕ)) (s : Viu) : Type 0 where
  ring : IsQueue kept s
  busy :
      (bytes : List ℕ)
      → s.phase ≡ delivering bytes
      → (s.viu_read ≢ s.viu_write) × (s.viu_pkts s.viu_read ≡ bytes)
  asleep : s.phase ≡ sleeping → s.runnable ≡ false → (s.viu_read ≡ s.viu_write) × (s.viu_rcvr ≡ me)

module _ (me : ℕ) (positive : me ≢ 0) where
  new-IsFifo : IsFifo me [] new_viu
  new-IsFifo = record {
    ring = record { read_below = omega arith; write_below = omega arith; order = refl };
    busy = λ bytes e. cc;
    asleep = λ e. cc;
  }

  pusher_next-IsFifo :
      (kept : List (List ℕ)) (s : Viu) → IsQueue kept s → IsFifo me kept (pusher_next me s)
  unfolding pusher_next
  pusher_next-IsFifo kept s q = elim (Bool-cases (s.viu_read == s.viu_write)) [
    | inl e ↦ rw e (record {
      ring = record { read_below = q.read_below; write_below = q.write_below; order = q.order };
      busy = λ bytes p. cc;
      asleep = λ p r. (ground (arith, e), refl);
    })
    | inr e ↦ rw e (record {
      ring = record { read_below = q.read_below; write_below = q.write_below; order = q.order };
      busy = λ bytes p. (ground (arith, e), cc);
      asleep = λ p r. cc;
    })
  ]

  pusher_delivered-IsFifo :
      (kept : List (List ℕ)) (s : Viu) (bytes : List ℕ)
      → IsFifo me kept s
      → s.phase ≡ delivering bytes
      → IsFifo me kept (pusher_delivered me bytes s)
  unfolding pusher_delivered
  pusher_delivered-IsFifo kept s bytes f e =
      let (ne, head) = f.busy bytes e in
      let q = f.ring in
      let a = q.read_below in
      let b = q.write_below in
      let next = (s.viu_read + 1) % nbuf in
      let left = (s.viu_write + nbuf - next) % nbuf in
      let many : waiting s ≡ suc left = omega (arith, ne, a, b) in
      let first : queue s ≡ bytes ∷ contents s.viu_pkts next left =
        ap (contents s.viu_pkts s.viu_read) many
        ∙ ap (λ x. x ∷ contents s.viu_pkts next left) head in
      pusher_next-IsFifo kept
        (record s { delivered = s.delivered ++ (bytes ∷ []); viu_read = next })
        (record {
          read_below = omega arith;
          write_below = b;
          order =
              append_assoc s.delivered (bytes ∷ []) (contents s.viu_pkts next left)
              ∙ ap (λ l. s.delivered ++ l) (sym first)
              ∙ q.order;
        })

  myrecv-IsFifo :
      (kept : List (List ℕ)) (s : Viu) (bytes : List ℕ)
      → IsFifo me kept s
      → IsFifo me (if keeps bytes s then kept ++ (bytes ∷ []) else kept) (myrecv bytes s)
  unfolding myrecv
  myrecv-IsFifo kept s bytes f = elim (Bool-cases ((s.viu_write + 1) % nbuf == s.viu_read)) [
    | inl full ↦ rw full f
    | inr room ↦ elim (Bool-cases (ltb maxpkt (length bytes))) [
      | inl big ↦ rw (room, big) f
      | inr fits ↦
          let q = f.ring in
          let a = q.read_below in
          let b = q.write_below in
          let nextw = (s.viu_write + 1) % nbuf in
          let pkts' = update s.viu_pkts s.viu_write bytes in
          let many : (nextw + nbuf - s.viu_read) % nbuf ≡ suc (waiting s) =
            ground (arith, room, a, b) in
          let place : s.viu_write ≡ (s.viu_read + waiting s) % nbuf = omega (arith, a, b) in
          let pushed : contents pkts' s.viu_read ((nextw + nbuf - s.viu_read) % nbuf)
              ≡ queue s ++ (bytes ∷ []) =
            ap (contents pkts' s.viu_read) many
            ∙ contents-push s.viu_pkts s.viu_read (waiting s) s.viu_write bytes (omega arith) a
                place in
          let order' : s.delivered ++ contents pkts' s.viu_read ((nextw + nbuf - s.viu_read) % nbuf)
              ≡ kept ++ (bytes ∷ []) =
            ap (λ l. s.delivered ++ l) pushed
            ∙ sym (append_assoc s.delivered (queue s) (bytes ∷ []))
            ∙ ap (λ l. l ++ (bytes ∷ [])) q.order in
          let head = λ (c : List ℕ) (p : s.phase ≡ delivering c).
            update_ne s.viu_pkts s.viu_write s.viu_read bytes (λ e. (f.busy c p).0 (sym e))
            ∙ (f.busy c p).1 in
          elim (Bool-cases (s.viu_rcvr /= 0)) [
            | inl set ↦
                rw (room, fits, set)
                  (record {
                    ring = record { read_below = a; write_below = omega arith; order = order' };
                    busy = λ c p. ((λ e. ground (arith, room, e)), head c p);
                    asleep = λ p r. cc;
                  })
            | inr unset ↦
                rw (room, fits, unset)
                  (record {
                    ring = record { read_below = a; write_below = omega arith; order = order' };
                    busy = λ c p. ((λ e. ground (arith, room, e)), head c p);
                    asleep =
                        λ p r. absurd (positive (sym (f.asleep p r).1 ∙ ground (arith, unset)));
                  })
          ]
    ]
  ]

  Reach-IsFifo : {kept : List (List ℕ)} {s : Viu} → Reach me kept s → IsFifo me kept s
  unfolding pusher_resume
  Reach-IsFifo created = new-IsFifo
  Reach-IsFifo (received {kept} {s} bytes r) = myrecv-IsFifo kept s bytes (Reach-IsFifo r)
  Reach-IsFifo (started {kept} {s} r e) = pusher_next-IsFifo kept s (Reach-IsFifo r).ring
  Reach-IsFifo (resumed {kept} {s} r e w) =
      let q = (Reach-IsFifo r).ring in
      pusher_next-IsFifo kept (record s { viu_rcvr = 0 })
        (record { read_below = q.read_below; write_below = q.write_below; order = q.order })
  Reach-IsFifo (done {kept} {s} bytes r e) = pusher_delivered-IsFifo kept s bytes (Reach-IsFifo r) e

  length-contents : (pkts : ℕ → List ℕ) (i n : ℕ) → length (contents pkts i n) ≡ n
  length-contents pkts i zero = refl
  length-contents pkts i (suc n) = omega (arith, length-contents pkts ((i + 1) % nbuf) n)

  -- In every state that interrupts and the thread lead to, the packets that were delivered and those that wait
  -- are those that were kept, in their order, each once; at most NBUF - 1 packets wait, and a packet
  -- is dropped for lack of room only then.
  pub Reach-fifo :
      {kept : List (List ℕ)} {s : Viu} (bytes : List ℕ)
      → Reach me kept s
      → (s.delivered ++ queue s ≡ kept)
        × (length (queue s) < nbuf)
        × (keeps bytes s ≡ (ltb (length (queue s)) (nbuf - 1) && not (ltb maxpkt (length bytes))))
  Reach-fifo {kept} {s} bytes r =
      let q = (Reach-IsFifo r).ring in
      let n = length-contents s.viu_pkts s.viu_read (waiting s) in
      (q.order, omega (arith, n), ground (arith, n, q.read_below, q.write_below))

  -- The thread of pusher never sleeps, not being runnable, while a packet waits.
  pub Reach-awake :
      {kept : List (List ℕ)} {s : Viu}
      → Reach me kept s
      → s.phase ≡ sleeping
      → s.runnable ≡ false
      → queue s ≡ []
  Reach-awake {kept} {s} r e w =
      let f = Reach-IsFifo r in
      let z : waiting s ≡ 0 = omega (arith, (f.asleep e w).0, f.ring.read_below) in
      ap (contents s.viu_pkts s.viu_read) z
