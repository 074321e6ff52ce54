-- ===== src/BusDev/Pieces.antt =====
-- rumpxendev/busdev.c: a request that is written in pieces.
use rumpuser_xen.Prelude.{
  List-cases, drop_all, take_all, ℕ, suc, ◌+◌, ◌-◌, ◌≤◌, ◌<◌, ◌≡◌, refl, sym, ap, ◌∙◌, inl, inr,
  true, false, List, [], ◌∷◌, ◌++◌, arith, ltb, length, drop, length-append, Bool-cases,
}
use mathlib.Core.Path.{subst}
use rumpuser_xen.XenStore.Calls.{Call, ok, bug, hang, asleep}
use rumpuser_xen.BusDev.{
  Proto, Errno, no_error, enomem, einval, eagain, erestart, Dev, process_request,
}
use rumpuser_xen.BusDev.Buffer.{
  packetlen, consume, after, process_packets, written, fill, process_buffer, write_loop, dev_write,
}
use rumpuser_xen.BusDev.Writing.{Kept, process_request-Kept}

-- What a process does that writes one piece after another until an error.
abbrev pub and_then : (Dev → Call (Errno × Dev)) → Call (Errno × ℕ × Dev) → Call (Errno × Dev)
and_then rest (ok (no_error, left, d)) = rest d
and_then rest (ok (enomem, left, d)) = ok (enomem, d)
and_then rest (ok (einval, left, d)) = ok (einval, d)
and_then rest (ok (eagain, left, d)) = ok (eagain, d)
and_then rest (ok (erestart, left, d)) = ok (erestart, d)
and_then rest bug = bug
and_then rest hang = hang
and_then rest asleep = asleep

abbrev pub joined : List (List ℕ) → List ℕ
joined [] = []
joined (c ∷ cs) = c ++ joined cs

append_nil : (xs : List ℕ) → xs ++ [] ≡ xs
append_nil [] = refl
append_nil (x ∷ xs) = ap (λ t. x ∷ t) (append_nil xs)

append_assoc : (xs ys zs : List ℕ) → (xs ++ ys) ++ zs ≡ xs ++ (ys ++ zs)
append_assoc [] ys zs = refl
append_assoc (x ∷ xs) ys zs = ap (λ t. x ∷ t) (append_assoc xs ys zs)

module _ (p : Proto) where
  open p use {sizeof_msg, payload_max, len_of}

  pub write_each : List (List ℕ) → Dev → Call (Errno × Dev)
  write_each [] d = ok (no_error, d)
  write_each (c ∷ cs) d = and_then (λ d'. write_each cs d') (dev_write p c d)

  -- The header is there and says how many bytes there are, which fit.
  abbrev pub IsPacket : List ℕ → Type 0
  IsPacket msg = (length msg ≡ packetlen p msg) × (len_of msg ≤ payload_max)

  -- What a request comes to that is written whole.
  abbrev pub whole : List ℕ → Dev → Call (Errno × Dev)
  whole msg d =
      after p (λ d'. ok (no_error, d')) (length msg) (process_request p (record d { wbuf = msg }))

  no_packet : (n : ℕ) (d : Dev) → d.wbuf ≡ [] → process_packets p (suc n) d ≡ ok (no_error, d)
  unfolding process_packets
  no_packet n d e =
      let short : ltb (length d.wbuf) sizeof_msg ≡ true =
        ground (arith, ap length e, p.some_bytes) in
      rw short refl

  -- The loop leaves a packet alone of which bytes are missing.
  part_of_packet :
      (n : ℕ) (d : Dev) (more : List ℕ)
      → IsPacket (d.wbuf ++ more)
      → 0 < length more
      → process_packets p (suc n) d ≡ ok (no_error, d)
  unfolding process_packets
  part_of_packet n d more (e, l) s = elim (Bool-cases (ltb (length d.wbuf) sizeof_msg)) [
    | inl t ↦ rw t refl
    | inr t ↦
        let own = p.len_own d.wbuf more (ground (arith, t)) in
        let fits : ltb payload_max (len_of d.wbuf) ≡ false = ground (arith, own, l) in
        let short : ltb (length d.wbuf) (packetlen p d.wbuf) ≡ true =
          ground (arith, own, e, s, length-append d.wbuf more) in
        rw (t, fits, short) refl
  ]

  whole_packet :
      (n : ℕ) (d : Dev)
      → IsPacket d.wbuf
      → process_packets p (suc n) d
        ≡ after p (λ d'. process_packets p n d') (length d.wbuf) (process_request p d)
  unfolding process_packets
  whole_packet n d (e, l) =
      let t : ltb (length d.wbuf) sizeof_msg ≡ false = ground (arith, e) in
      let fits : ltb payload_max (len_of d.wbuf) ≡ false = ground (arith, l) in
      let all : ltb (length d.wbuf) (packetlen p d.wbuf) ≡ false = ground (arith, e) in
      rw (t, fits, all)
        (ap (λ k. after p (λ d'. process_packets p n d') k (process_request p d)) (sym e))

  -- One round of the loop takes a piece that fits.
  dev_write_once :
      (x : ℕ) (xs : List ℕ) (d : Dev)
      → length d.wbuf + length (x ∷ xs) ≤ payload_max + sizeof_msg
      → let d' = record d { wbuf = d.wbuf ++ (x ∷ xs) } in
        dev_write p (x ∷ xs) d ≡ written p (λ d''. ok (no_error, 0, d'')) 0 (process_buffer p d')
  unfolding dev_write write_loop
  dev_write_once x xs d l =
      let room = payload_max + sizeof_msg - length d.wbuf in
      let t = take_all room (x ∷ xs) (omega (arith, l)) in
      let z = drop_all room (x ∷ xs) (omega (arith, l)) in
      ap
        (λ k.
          written p (λ d'. write_loop p (length xs) k d') (length k)
            (process_buffer p (fill p (x ∷ xs) d)))
        z
      ∙ ap
          (λ k.
            written p (λ d''. ok (no_error, 0, d'')) 0
              (process_buffer p (record d { wbuf = d.wbuf ++ k })))
          t

  write_nothing :
      (cs : List (List ℕ)) (d : Dev) → joined cs ≡ [] → write_each cs d ≡ ok (no_error, d)
  unfolding write_each dev_write write_loop
  write_nothing [] d e = refl
  write_nothing ([] ∷ cs) d e = write_nothing cs d e
  write_nothing ((x ∷ xs) ∷ cs) d e = absurd (omega (arith, ap length e))

  nothing_written :
      (d : Dev) (cs : List (List ℕ))
      → and_then (λ d'. write_each cs d') (dev_write p [] d) ≡ write_each cs d
  unfolding dev_write write_loop
  nothing_written d cs = refl

  -- Behind a whole packet nothing is left, and only empty pieces follow.
  last_piece :
      (n : ℕ) (msg : List ℕ) (cs : List (List ℕ)) (out : Call (Errno × Dev))
      → joined cs ≡ []
      → Kept msg out
      → and_then
          (λ d'. write_each cs d')
          (written p
            (λ d''. ok (no_error, 0, d''))
            0
            (after p (λ d'. process_packets p (suc n) d') (length msg) out))
        ≡ after p (λ d'. ok (no_error, d')) (length msg) out
  last_piece n msg cs (ok (no_error, d)) e k =
      let none_left : drop (length msg) d.wbuf ≡ [] =
        drop_all (length msg) d.wbuf (omega (arith, ap length k)) in
      ap (λ t. and_then (λ d'. write_each cs d') (written p (λ d''. ok (no_error, 0, d'')) 0 t))
        (no_packet n (consume p (length msg) d) none_left)
      ∙ write_nothing cs (consume p (length msg) d) e
  last_piece n msg cs (ok (enomem, d)) e k = refl
  last_piece n msg cs (ok (einval, d)) e k = refl
  last_piece n msg cs (ok (eagain, d)) e k = refl
  last_piece n msg cs (ok (erestart, d)) e k = refl
  last_piece n msg cs bug e k = refl
  last_piece n msg cs hang e k = refl
  last_piece n msg cs asleep e k = refl

  last_write :
      (cs : List (List ℕ)) (msg : List ℕ) (d : Dev)
      → joined cs ≡ []
      → IsPacket msg
      → and_then
          (λ d'. write_each cs d')
          (written p (λ d''. ok (no_error, 0, d'')) 0 (process_buffer p (record d { wbuf = msg })))
        ≡ whole msg d
  last_write cs msg d e pk =
      let d' = record d { wbuf = msg } in
      let n : length msg ≡ suc (length msg - 1) = omega (arith, pk.0, p.some_bytes) in
      let fuel : length msg + 1 ≡ suc (suc (length msg - 1)) = omega (arith, n) in
      ap
        (λ k.
          and_then (λ t. write_each cs t)
            (written p (λ t. ok (no_error, 0, t)) 0 (process_packets p k d')))
        fuel
      ∙ ap (λ k. and_then (λ t. write_each cs t) (written p (λ t. ok (no_error, 0, t)) 0 k))
          (whole_packet (suc (length msg - 1)) d' pk)
      ∙ last_piece (length msg - 1) msg cs (process_request p d') e (process_request-Kept p d')

  write_rest :
      (cs : List (List ℕ)) (d : Dev) (msg : List ℕ)
      → d.wbuf ++ joined cs ≡ msg
      → IsPacket msg
      → length d.wbuf < length msg
      → write_each cs d ≡ whole msg d
  unfolding write_each
  write_rest [] d msg e pk l = absurd (omega (arith, l, ap length e, length-append d.wbuf []))
  write_rest ([] ∷ cs) d msg e pk l = nothing_written d cs ∙ write_rest cs d msg e pk l
  write_rest ((x ∷ xs) ∷ cs) d msg e pk l =
      let wbuf' = d.wbuf ++ (x ∷ xs) in
      let d' = record d { wbuf = wbuf' } in
      let e' : wbuf' ++ joined cs ≡ msg = append_assoc d.wbuf (x ∷ xs) (joined cs) ∙ e in
      let size = ap length e' ∙ pk.0 in
      let sum = length-append wbuf' (joined cs) in
      let sum' = length-append d.wbuf (x ∷ xs) in
      let fits : length d.wbuf + length (x ∷ xs) ≤ payload_max + sizeof_msg =
        omega (arith, size, sum, sum', pk.1) in
      let go = ap (λ k. and_then (λ t. write_each cs t) k) (dev_write_once x xs d fits) in
      elim (List-cases (joined cs)) [
        | inl none_left ↦
            let all : wbuf' ≡ msg =
              sym (append_nil wbuf') ∙ ap (λ k. wbuf' ++ k) (sym none_left) ∙ e' in
            go
            ∙ ap
                (λ k.
                  and_then (λ t. write_each cs t)
                    (written p (λ t. ok (no_error, 0, t)) 0
                      (process_buffer p (record d { wbuf = k }))))
                all
            ∙ last_write cs msg d none_left pk
        | inr (y, ys, more) ↦
            let some_left : 0 < length (joined cs) = omega (arith, ap length more) in
            let fuel : length wbuf' + 1 ≡ suc (length wbuf') = omega arith in
            go
            ∙ ap (λ k. and_then (λ t. write_each cs t) (written p (λ t. ok (no_error, 0, t)) 0 k))
                (ap (λ k. process_packets p k d') fuel
                  ∙ part_of_packet (length wbuf') d' (joined cs) (subst IsPacket (sym e') pk)
                      some_left)
            ∙ write_rest cs d' msg e' pk (omega (arith, sum, ap length e', some_left))
      ]

  -- A request whose header and payload fit the buffer, written to a device with an empty buffer in any pieces, empty
  -- ones too, comes to what process_request makes of the whole of it, with the buffer empty again.
  pub write_each-whole :
      (cs : List (List ℕ)) (msg : List ℕ) (d : Dev)
      → joined cs ≡ msg
      → IsPacket msg
      → d.wbuf ≡ []
      → write_each cs d ≡ whole msg d
  write_each-whole cs msg d e pk z =
      write_rest cs d msg (ap (λ k. k ++ joined cs) z ∙ e) pk
        (omega (arith, ap length z, pk.0, p.some_bytes))
