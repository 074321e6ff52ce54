-- ===== src/BusDev/Finishing.antt =====
-- rumpxendev/busdev.c: xenbus_dev_write returns while xenbus has room.
use rumpuser_xen.Prelude.{ℕ, ◌+◌, ◌≤◌, ◌<◌, ◌≡◌, true, false, List, length}
use rumpuser_xen.XenStore.Calls.{Call, ok, bug, hang, asleep}
use rumpuser_xen.BusDev.{Proto, Errno, no_error, enomem, einval, eagain, erestart, Dev}
use rumpuser_xen.BusDev.Room.{open_at}

-- What xenbus has room for at every call, the largest request: XENSTORE_PAYLOAD_MAX, the header
-- and 22 bytes for a token and NULs.
module _ (p : Proto)
    (opened : (n : ℕ) → open_at p n (p.payload_max + p.sizeof_msg + 22) ≡ true) where
  open p use {sizeof_msg, payload_max, len_of, type_of, req_id_of, tx_id_of}

  abbrev buffer_size : ℕ
  buffer_size = payload_max + sizeof_msg

  -- It returns; without an error with the buffer as it was and at most a request more, with one with no more
  -- bytes in the buffer.
  abbrev Went : List ℕ → ℕ → Call (Errno × Dev) → Type 0
  Went buf outstanding (ok (no_error, d)) =
      (d.wbuf ≡ buf) × (d.outstanding_requests ≤ outstanding + 1)
  Went buf outstanding (ok (enomem, d)) = length d.wbuf ≤ length buf
  Went buf outstanding (ok (einval, d)) = length d.wbuf ≤ length buf
  Went buf outstanding (ok (eagain, d)) = length d.wbuf ≤ length buf
  Went buf outstanding (ok (erestart, d)) = length d.wbuf ≤ length buf
  Went buf outstanding bug = true ≡ false
  Went buf outstanding hang = true ≡ false
  Went buf outstanding asleep = true ≡ false

  -- It returns, with room in the buffer, and without an error with no more of requests and bytes together.
  abbrev InRoom : ℕ → Call (Errno × Dev) → Type 0
  InRoom most (ok (no_error, d)) =
      (length d.wbuf < buffer_size) × (d.outstanding_requests + length d.wbuf ≤ most)
  InRoom most (ok (enomem, d)) = length d.wbuf < buffer_size
  InRoom most (ok (einval, d)) = length d.wbuf < buffer_size
  InRoom most (ok (eagain, d)) = length d.wbuf < buffer_size
  InRoom most (ok (erestart, d)) = length d.wbuf < buffer_size
  InRoom most bug = true ≡ false
  InRoom most hang = true ≡ false
  InRoom most asleep = true ≡ false

  -- A write returns, with room in the buffer left, and without an error has taken all bytes.
  abbrev pub Finished : ℕ → Call (Errno × ℕ × Dev) → Type 0
  Finished n (ok (no_error, left, d)) = (left ≡ 0) × (length d.wbuf < buffer_size)
  Finished n (ok (enomem, left, d)) = (left ≤ n) × (length d.wbuf < buffer_size)
  Finished n (ok (einval, left, d)) = (left ≤ n) × (length d.wbuf < buffer_size)
  Finished n (ok (eagain, left, d)) = (left ≤ n) × (length d.wbuf < buffer_size)
  Finished n (ok (erestart, left, d)) = (left ≤ n) × (length d.wbuf < buffer_size)
  Finished n bug = true ≡ false
  Finished n hang = true ≡ false
  Finished n asleep = true ≡ false
