-- ===== src/BusDev/Buffer.antt =====
-- rumpxendev/busdev.c: xenbus_dev_write, which gathers bytes in the buffer until a request is there.
use rumpuser_xen.Prelude.{
  ℕ, zero, suc, ◌+◌, ◌-◌, List, [], ◌∷◌, ◌++◌, ltb, if◌then◌else◌, length, take, drop,
}
use rumpuser_xen.XenStore.Calls.{Call, ok, bug, hang, asleep}
use rumpuser_xen.BusDev.{
  Proto, Errno, no_error, enomem, einval, eagain, erestart, Dev, write_trouble, process_request,
}

module _ (p : Proto) where
  open p use {sizeof_msg, payload_max, len_of}

  -- The packet is taken from the buffer, which an error may have emptied; then the loop goes on.
  abbrev pub packetlen : List ℕ → ℕ
  packetlen buffer = len_of buffer + sizeof_msg

  abbrev pub consume : ℕ → Dev → Dev
  consume n d = record d { wbuf = drop n d.wbuf }

  -- What the loop does with the result of a request, `rest` being its further rounds.
  abbrev pub after : (Dev → Call (Errno × Dev)) → ℕ → Call (Errno × Dev) → Call (Errno × Dev)
  after rest l (ok (no_error, d)) = rest (consume l d)
  after rest l (ok (enomem, d)) = ok (enomem, consume l d)
  after rest l (ok (einval, d)) = ok (einval, consume l d)
  after rest l (ok (eagain, d)) = ok (eagain, consume l d)
  after rest l (ok (erestart, d)) = ok (erestart, consume l d)
  after rest l bug = bug
  after rest l hang = hang
  after rest l asleep = asleep

  -- The loop that processes messages in the buffer, with fuel.
  unfoldable pub process_packets : ℕ → Dev → Call (Errno × Dev)
  process_packets zero d = hang
  process_packets (suc n) d =
      if ltb (length d.wbuf) sizeof_msg
      then ok (no_error, d)
      else if ltb payload_max (len_of d.wbuf)
      then write_trouble p d
      else if ltb (length d.wbuf) (packetlen d.wbuf)
      then ok (no_error, d)
      else after (λ d'. process_packets n d') (packetlen d.wbuf) (process_request p d)

  -- What the outer loop does with the result of the inner one.
  abbrev pub written :
      (Dev → Call (Errno × ℕ × Dev)) → ℕ → Call (Errno × Dev) → Call (Errno × ℕ × Dev)
  written rest left (ok (no_error, d)) = rest d
  written rest left (ok (enomem, d)) = ok (enomem, left, d)
  written rest left (ok (einval, d)) = ok (einval, left, d)
  written rest left (ok (eagain, d)) = ok (eagain, left, d)
  written rest left (ok (erestart, d)) = ok (erestart, left, d)
  written rest left bug = bug
  written rest left hang = hang
  written rest left asleep = asleep

  -- uiomove and the inner loop, which has fewer rounds than the buffer bytes.
  abbrev pub fill : List ℕ → Dev → Dev
  fill bytes d = record d { wbuf = d.wbuf ++ take (payload_max + sizeof_msg - length d.wbuf) bytes }

  abbrev pub process_buffer : Dev → Call (Errno × Dev)
  process_buffer d = process_packets (length d.wbuf + 1) d

  -- The loop that reads more until all is taken, with fuel: the error, how many bytes are left, and the device.
  unfoldable pub write_loop : ℕ → List ℕ → Dev → Call (Errno × ℕ × Dev)
  write_loop n [] d = ok (no_error, 0, d)
  write_loop zero (x ∷ xs) d = hang
  write_loop (suc n) (x ∷ xs) d =
      let left = drop (payload_max + sizeof_msg - length d.wbuf) (x ∷ xs) in
      written (λ d'. write_loop n left d') (length left) (process_buffer (fill (x ∷ xs) d))

  -- The copy of the user's bytes is taken not to fail.
  unfoldable pub dev_write : List ℕ → Dev → Call (Errno × ℕ × Dev)
  dev_write bytes d = write_loop (length bytes) bytes d
