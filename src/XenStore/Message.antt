-- ===== src/XenStore/Message.antt =====
-- xen/xenbus/xenbus.c: a message that xenbus_xb_write sends arrives behind those that wait.
use rumpuser_xen.Prelude.{
  ℕ, ◌+◌, ◌-◌, ◌%◌, ◌^◌, ◌≤◌, ◌<◌, ◌≡◌, refl, sym, ap, ◌∙◌, inl, true, false, ◌&&◌, some, List, ◌∷◌,
  ◌++◌, arith, ◌/=◌, ltb, if◌then◌else◌, length, length-append,
}
use rumpuser_xen.Sched.{ok, bug}
use rumpuser_xen.XenStore.{Wire, ReqRing, total, publish, xb_write, memcpy_from_ring}
use rumpuser_xen.XenStore.Ring.{put, get, get-append, get-put, get-put_behind, memcpy_from_ring-get}
use rumpuser_xen.XenStore.Write.{joined, length-joined, copy_loop-finished}

-- How many bytes wait in the ring, and that both indices are words.
abbrev pub used : ReqRing → ℕ
used r = (r.req_prod + 2 ^ 32 - r.req_cons) % 2 ^ 32

abbrev pub IsWords : ReqRing → Type 0
IsWords r = (r.req_cons < 2 ^ 32) × (r.req_prod < 2 ^ 32)

module _ (w : Wire) where
  open w use {size, mask, sizeof_msg, header}

  -- The bytes of a message.
  abbrev pub message : ℕ → ℕ → ℕ → List (List ℕ) → List ℕ
  message type req_id trans_id reqs = header type req_id trans_id (total reqs) ++ joined reqs

  -- The bytes that wait, as the reader of the other ring would copy them.
  abbrev pub pending : ReqRing → List ℕ
  pending r = memcpy_from_ring w r.req (mask r.req_cons) (used r)

  length-message :
      (type req_id trans_id : ℕ) (reqs : List (List ℕ))
      → length (message type req_id trans_id reqs) ≡ total reqs + sizeof_msg
  length-message type req_id trans_id reqs =
      length-append (header type req_id trans_id (total reqs)) (joined reqs)
      ∙ omega (arith, w.header_length type req_id trans_id (total reqs), length-joined reqs)

  -- With room in the ring all comes down to the BUG_ON behind the loop.
  xb_write_publish :
      (type req_id trans_id : ℕ) (reqs : List (List ℕ)) (r : ReqRing)
      → IsWords r
      → used r + (total reqs + sizeof_msg) ≤ size
      → let msg = message type req_id trans_id reqs in
        xb_write w type req_id trans_id reqs r ≡ (
          if ltb ((r.req_cons + size) % 2 ^ 32) ((r.req_prod + length msg) % 2 ^ 32)
          then bug
          else ok (
              some (record r {
                req = put w r.req_prod msg r.req;
                req_prod = (r.req_prod + length msg) % 2 ^ 32;
              })))
  unfolding xb_write publish
  xb_write_publish type req_id trans_id reqs r (a, b) room =
      let small = w.small in
      let n = total reqs in
      let len = n + sizeof_msg in
      let msg = message type req_id trans_id reqs in
      let m = header type req_id trans_id n in
      let e = length-message type req_id trans_id reqs in
      let q1 : n % 2 ^ 32 ≡ n = omega (arith, room, small) in
      let q2 : len % 2 ^ 32 ≡ len = omega (arith, room, small) in
      let t1 : (ltb size len && ltb len (2 ^ 31)) ≡ false = ground (arith, room) in
      let t2 : ltb size ((r.req_prod + len + 2 ^ 32 - r.req_cons) % 2 ^ 32) ≡ false =
        ground (arith, room, small, a, b) in
      let p : r.req_prod ≡ r.req_prod % 2 ^ 32 = omega (arith, b) in
      let cl =
        copy_loop-finished w (len + length reqs + 1) len 0 0 r.req_prod r.req_prod (m ∷ reqs) r.req
          (omega (arith, room, small)) (omega (arith, e)) (omega (arith, e)) p (inl refl) in
      let l : (len /= len) ≡ false = ground arith in
      rw q1 (
        rw (q2, t1, t2)
          (rw cl (
            rw l (
              ap
                (λ k.
                  if ltb ((r.req_cons + size) % 2 ^ 32) ((r.req_prod + length msg) % 2 ^ 32)
                  then bug
                  else ok (
                      some (record r {
                        req = put w r.req_prod msg r.req;
                        req_prod = (r.req_prod + k) % 2 ^ 32;
                      })))
                (sym e)))))

  -- If there is room in the ring and the index of the reader is not within the ring's size of its wrap-around,
  -- xenbus_xb_write ends, without BUG() and without a wait; the whole message is behind what waited, and no
  -- byte that waited is changed.
  pub xb_write-pending :
      (type req_id trans_id : ℕ) (reqs : List (List ℕ)) (r : ReqRing)
      → IsWords r
      → used r + (total reqs + sizeof_msg) ≤ size
      → r.req_cons + size < 2 ^ 32
      → (r' : ReqRing) × (xb_write w type req_id trans_id reqs r ≡ ok (some r'))
        × IsWords r'
        × (r'.req_cons ≡ r.req_cons)
        × (pending r' ≡ pending r ++ message type req_id trans_id reqs)
  xb_write-pending type req_id trans_id reqs r (a, b) room far =
      let small = w.small in
      let msg = message type req_id trans_id reqs in
      let e = length-message type req_id trans_id reqs in
      let u = used r in
      let place : r.req_prod ≡ r.req_cons + u = omega (arith, a, b, room, far) in
      let t : ltb ((r.req_cons + size) % 2 ^ 32) ((r.req_prod + length msg) % 2 ^ 32) ≡ false =
        ground (arith, place, e, room, far) in
      let r' = record r {
        req = put w r.req_prod msg r.req;
        req_prod = (r.req_prod + length msg) % 2 ^ 32;
      } in
      let u' : used r' ≡ u + length msg = omega (arith, place, e, room, far) in
      let sum : u + length msg ≤ size = omega (arith, e, room) in
      (
        r',
        xb_write_publish type req_id trans_id reqs r (a, b) room ∙ rw t refl,
        (a, omega arith),
        refl,
        memcpy_from_ring-get w r.req_cons (used r') r'.req (omega (arith, u', sum))
            ∙ ap (λ k. get w r.req_cons k r'.req) u'
            ∙ ap (λ j. get w r.req_cons (u + length msg) (put w j msg r.req)) place
            ∙ get-append w r.req_cons u (length msg) (put w (r.req_cons + u) msg r.req)
            ∙ ap (λ l. l ++ get w (r.req_cons + u) (length msg) (put w (r.req_cons + u) msg r.req))
                (get-put_behind w r.req_cons u u msg r.req (omega arith) sum)
            ∙ ap (λ l. get w r.req_cons u r.req ++ l)
                (get-put w (r.req_cons + u) msg r.req (omega (arith, sum)))
            ∙ ap (λ l. l ++ msg)
                (sym (memcpy_from_ring-get w r.req_cons u r.req (omega (arith, sum)))),
      )

  -- If there is room in the ring, but the reader's index is within the ring's size of its wrap-around and
  -- the new index of the writer is not yet wrapped around, xenbus_xb_write stops at its last BUG_ON.
  pub xb_write-wrap_bug :
      (type req_id trans_id : ℕ) (reqs : List (List ℕ)) (r : ReqRing)
      → IsWords r
      → used r + (total reqs + sizeof_msg) ≤ size
      → 2 ^ 32 ≤ r.req_cons + size
      → r.req_cons + used r + (total reqs + sizeof_msg) < 2 ^ 32
      → xb_write w type req_id trans_id reqs r ≡ bug
  xb_write-wrap_bug type req_id trans_id reqs r (a, b) room near below =
      let small = w.small in
      let e = length-message type req_id trans_id reqs in
      let len = length (message type req_id trans_id reqs) in
      let place : r.req_prod ≡ r.req_cons + used r = omega (arith, a, b, below) in
      let t : ltb ((r.req_cons + size) % 2 ^ 32) ((r.req_prod + len) % 2 ^ 32) ≡ true =
        ground (arith, place, e, room, near, below, small, a) in
      xb_write_publish type req_id trans_id reqs r (a, b) room ∙ rw t refl
