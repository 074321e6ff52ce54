-- ===== src/ConsoleRing/Send.antt =====
-- xen/console/xencons_ring.c: xencons_ring_send tries again until the daemon has made room for all bytes.
use rumpuser_xen.Prelude.{
  ℕ, zero, suc, ◌+◌, ◌-◌, ◌≤◌, ◌<◌, ◌≡◌, refl, sym, ap, ◌∙◌, Option, none, some, List, [], ◌∷◌,
  ◌++◌, arith, min, length, take, drop,
}
use rumpuser_xen.Sched.{Outcome, ok, bug, hang}
use rumpuser_xen.ConsoleRing.{OutRing, used, Geometry, ring_send_no_notify}
use rumpuser_xen.ConsoleRing.Queue.{queue, IsWithin, ring_send_no_notify-queue}

-- What a try has sent, unless it failed.
abbrev pub tried : Outcome (ℕ × Option OutRing) → Option (ℕ × OutRing)
tried (ok (part, some r)) = some (part, r)
tried (ok (part, none)) = none
tried bug = none
tried hang = none

-- `daemon sent r got` is what the daemon makes of the ring, and of all that it has read so far, before the
-- try after `sent` bytes. The loop takes fuel.
module _ (g : Geometry) (daemon : ℕ → OutRing → List ℕ → OutRing × List ℕ) where
  unfoldable pub send_loop : ℕ → ℕ → List ℕ → OutRing → List ℕ → Outcome (ℕ × OutRing × List ℕ)
  send_loop fuel sent [] r got = ok (sent, r, got)
  send_loop zero sent (c ∷ cs) r got = hang
  send_loop (suc fuel) sent (c ∷ cs) r got =
      let (r', got') = daemon sent r got in
      elim (tried (ring_send_no_notify g (c ∷ cs) (some r'))) [
        | none ↦ bug
        | some (part, r'') ↦ send_loop fuel (sent + part) (drop part (c ∷ cs)) r'' got'
      ]

  unfoldable pub ring_send : List ℕ → OutRing → List ℕ → Outcome (ℕ × OutRing × List ℕ)
  ring_send bytes r got = send_loop (length bytes) 0 bytes r got

  -- The daemon reads in order and drops nothing, and leaves room for a byte at least.
  abbrev pub IsReader : Type 0
  IsReader =
      (sent : ℕ) (r : OutRing) (got : List ℕ)
      → IsWithin g r
      → let (r', got') = daemon sent r got in
        IsWithin g r' × (got' ++ queue g r' ≡ got ++ queue g r) × (used r' < g.size)

  append_assoc : (xs ys zs : List ℕ) → (xs ++ ys) ++ zs ≡ xs ++ (ys ++ zs)
  append_assoc [] ys zs = refl
  append_assoc (x ∷ xs) ys zs = ap (λ l. x ∷ l) (append_assoc xs ys zs)

  append_empty : (xs : List ℕ) → xs ≡ xs ++ []
  append_empty [] = refl
  append_empty (x ∷ xs) = ap (λ l. x ∷ l) (append_empty xs)

  take-drop : (n : ℕ) (xs : List ℕ) → take n xs ++ drop n xs ≡ xs
  take-drop zero xs = refl
  take-drop (suc n) [] = refl
  take-drop (suc n) (x ∷ xs) = ap (λ l. x ∷ l) (take-drop n xs)

  length-drop : (n : ℕ) (xs : List ℕ) → length (drop n xs) ≡ length xs - n
  length-drop zero xs = omega arith
  length-drop (suc n) [] = omega arith
  length-drop (suc n) (x ∷ xs) = length-drop n xs ∙ omega arith

  -- What is sent in the end.
  abbrev pub Sent : ℕ → List ℕ → OutRing → List ℕ → Outcome (ℕ × OutRing × List ℕ) → Type 0
  Sent sent bytes r got result =
      (r' : OutRing) × (got' : List ℕ) × (result ≡ ok (sent + length bytes, r', got'))
      × IsWithin g r'
      × (got' ++ queue g r' ≡ (got ++ queue g r) ++ bytes)

  send_loop_step :
      (fuel sent c : ℕ) (cs : List ℕ) (r : OutRing) (got : List ℕ) (part : ℕ) (r2 : OutRing)
      → let (r1, got1) = daemon sent r got in
        tried (ring_send_no_notify g (c ∷ cs) (some r1)) ≡ some (part, r2)
        → send_loop (suc fuel) sent (c ∷ cs) r got
          ≡ send_loop fuel (sent + part) (drop part (c ∷ cs)) r2 (daemon sent r got).1
  unfolding send_loop
  send_loop_step fuel sent c cs r got part r2 t = rw (t, send_loop) refl

  send_loop-Sent :
      (fuel sent : ℕ) (bytes : List ℕ) (r : OutRing) (got : List ℕ)
      → IsReader
      → IsWithin g r
      → length bytes ≤ fuel
      → Sent sent bytes r got (send_loop fuel sent bytes r got)
  unfolding send_loop
  send_loop-Sent zero sent [] r got d w l =
      let z : sent ≡ sent + 0 = omega arith in
      (r, got, ap (λ k. ok (k, r, got)) z, w, append_empty (got ++ queue g r))
  send_loop-Sent (suc fuel) sent [] r got d w l =
      let z : sent ≡ sent + 0 = omega arith in
      (r, got, ap (λ k. ok (k, r, got)) z, w, append_empty (got ++ queue g r))
  send_loop-Sent zero sent (c ∷ cs) r got d w l = absurd (omega arith)
  send_loop-Sent (suc fuel) sent (c ∷ cs) r got d w l =
      let (r1, got1) = daemon sent r got in
      let (w1, same, room) = d sent r got w in
      let bytes = c ∷ cs in
      let part = min (length bytes) (g.size - used r1) in
      let (r2, e, w2, q) = ring_send_no_notify-queue g bytes r1 w1 in
      let less = length-drop part bytes in
      let (r', got', f, w', all) =
        send_loop-Sent fuel (sent + part) (drop part bytes) r2 got1 d w2
          (omega (arith, less, room, l)) in
      let total : sent + part + length (drop part bytes) ≡ sent + length bytes =
        omega (arith, less) in
      let t : tried (ring_send_no_notify g bytes (some r1)) ≡ some (part, r2) = ap tried e in
      (
        r',
        got',
        send_loop_step fuel sent c cs r got part r2 t ∙ f ∙ ap (λ k. ok (k, r', got')) total,
        w',
        all
            ∙ ap (λ v. (got1 ++ v) ++ drop part bytes) q
            ∙ ap (λ v. v ++ drop part bytes)
                (sym (append_assoc got1 (queue g r1) (take part bytes)))
            ∙ append_assoc (got1 ++ queue g r1) (take part bytes) (drop part bytes)
            ∙ ap (λ v. v ++ (take part bytes ++ drop part bytes)) same
            ∙ ap (λ v. (got ++ queue g r) ++ v) (take-drop part bytes),
      )

  -- If the daemon reads in order, drops nothing and always leaves room for a byte, xencons_ring_send ends
  -- after at most as many tries as there are bytes and has sent all of them: what the daemon has read
  -- and what still waits are what was read and waited before, and the bytes behind that.
  pub ring_send-Sent :
      (bytes : List ℕ) (r : OutRing) (got : List ℕ)
      → IsReader
      → IsWithin g r
      → Sent 0 bytes r got (ring_send bytes r got)
  unfolding ring_send
  ring_send-Sent bytes r got d w = send_loop-Sent (length bytes) 0 bytes r got d w (omega arith)
