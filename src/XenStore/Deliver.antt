-- ===== src/XenStore/Deliver.antt =====
-- xen/xenbus/xenbus.c: each message that waits in the ring of answers goes to the queue it is for.
use rumpuser_xen.Prelude.{
  ℕ, suc, ◌+◌, ◌%◌, ◌^◌, ◌≤◌, ◌<◌, ◌≡◌, ◌≢◌, refl, ap, ◌∙◌, true, false, ◌||◌, some, List, [], ◌∷◌,
  ◌++◌, arith, ◌==◌, ltb, leb, if◌then◌else◌, update, update_self, length, drop, All,
}
use rumpuser_xen.Sched.{ok}
use rumpuser_xen.XenStore.{Wire, nr_reqs, memcpy_from_ring}
use rumpuser_xen.XenStore.Thread.{
  Watch, Bus, queue_event, file_event, c_string, find_watch, delivered, take_watch_event,
  take_reply, take_message,
}
use rumpuser_xen.XenStore.Parts.{avail, IsWords, waiting, Parts, waiting-Parts}

module _ (w : Wire) where
  open w use {size, mask, sizeof_msg, header, watch_event}

  take_message_passes :
      (type req_id tx_id event : ℕ) (body rest : List ℕ) (b : Bus)
      → length body < 2 ^ 32
      → type < 2 ^ 32
      → req_id < 2 ^ 32
      → Parts w b (header type req_id tx_id (length body)) body rest
      → take_message w event b ≡ (
          if type == watch_event
          then ok (some (take_watch_event w event (length body) b))
          else delivered (take_reply w req_id (length body) b))
  unfolding take_message
  take_message_passes type req_id tx_id event body rest b u v x p =
      let n = length body in
      let a : ltb (avail b) sizeof_msg ≡ false = ground (arith, p.many) in
      let a' : ltb (avail b) (sizeof_msg + n) ≡ false = ground (arith, p.many) in
      rw p.head (
        rw
          (
            w.len_header type req_id tx_id n u,
            w.type_header type req_id tx_id n v,
            w.req_id_header type req_id tx_id n x,
            a,
            a',
          )
          refl)

  -- If an answer to a request in use waits first, one pass of the thread stores its bytes, header included, in
  -- the request's event, queues that event last and wakes those who wait for the queue; the requests
  -- stay as they are, and the bytes behind the answer wait from then on.
  pub take_message-reply :
      (type req_id tx_id event : ℕ) (body rest : List ℕ) (b : Bus)
      → IsWords b
      → avail b ≤ size
      → type < 2 ^ 32
      → type ≢ watch_event
      → req_id < nr_reqs
      → b.requests.reply_queue req_id ≢ 0
      → waiting w b ≡ header type req_id tx_id (length body) ++ (body ++ rest)
      → let q = b.requests.reply_queue req_id in
        let answered = b.requests.for_queue req_id in
        (b' : Bus) × (take_message w event b ≡ ok (some b'))
        × (b'.reply answered ≡ header type req_id tx_id (length body) ++ body)
        × (b'.queue ≡ update b.queue q (b.queue q ++ (answered ∷ [])))
        × (b'.wakes ≡ q ∷ b.wakes)
        × (b'.requests ≡ b.requests)
        × (waiting w b' ≡ rest)
  unfolding take_reply queue_event
  take_message-reply type req_id tx_id event body rest b words room u ne l live e =
      let msg = header type req_id tx_id (length body) in
      let p =
        waiting-Parts w b msg body rest words room (w.header_length type req_id tx_id (length body))
          e in
      let small = w.small in
      let other : (type == watch_event) ≡ false = ground (arith, ne) in
      let fine : (leb nr_reqs req_id || (b.requests.reply_queue req_id == 0)) ≡ false =
        ground (arith, l, live) in
      let passes =
        take_message_passes type req_id tx_id event body rest b (omega (arith, p.many, room, small))
          u (omega (arith, l)) p in
      let answered = b.requests.for_queue req_id in
      let stored = memcpy_from_ring w b.rsp (mask b.rsp_cons) (length body + sizeof_msg) in
      let b' = queue_event (b.requests.reply_queue req_id) answered (record b {
        reply = update b.reply answered stored;
        rsp_cons = (b.rsp_cons + length body + sizeof_msg) % 2 ^ 32;
      }) in
      (
        b',
        passes ∙ rw other (rw fine refl),
        update_self b.reply answered stored ∙ p.all,
        refl,
        refl,
        refl,
        p.behind,
      )

  -- A path or a token: no NUL in it.
  abbrev pub IsString : List ℕ → Type 0
  IsString xs = All (λ c. c ≢ 0) xs

  c_string_lem : (xs ys : List ℕ) → IsString xs → c_string (xs ++ (0 ∷ ys)) ≡ xs
  c_string_lem [] ys s = refl
  c_string_lem (x ∷ xs) ys (n, s) =
      let e : (x == 0) ≡ false = ground (arith, n) in rw e (ap (λ l. x ∷ l) (c_string_lem xs ys s))

  drop-string : (xs ys : List ℕ) → drop (length xs + 1) (xs ++ (0 ∷ ys)) ≡ ys
  drop-string [] ys = refl
  drop-string (x ∷ xs) ys =
      let z : suc (length xs) + 1 ≡ suc (length xs + 1) = omega arith in
      ap (λ k. drop k (x ∷ (xs ++ (0 ∷ ys)))) z ∙ drop-string xs ys

  -- If a watch event waits first and a watch has its token, one pass of the thread makes an event of its
  -- path, its token and the first such watch, queues it last for that watch and wakes those who wait
  -- for the queue; the bytes behind the message wait from then on.
  pub take_message-watch :
      (req_id tx_id event : ℕ) (path token rest : List ℕ) (x : Watch) (b : Bus)
      → IsWords b
      → avail b ≤ size
      → watch_event < 2 ^ 32
      → req_id < 2 ^ 32
      → IsString path
      → IsString token
      → find_watch token b.watches ≡ some x
      → x.events ≢ 0
      → let body = path ++ (0 ∷ (token ++ (0 ∷ []))) in
        waiting w b ≡ header watch_event req_id tx_id (length body) ++ (body ++ rest)
        → (b' : Bus) × (take_message w event b ≡ ok (some b'))
          × (b'.path event ≡ path)
          × (b'.token event ≡ token)
          × (b'.watch event ≡ x.address)
          × (b'.queue ≡ update b.queue x.events (b.queue x.events ++ (event ∷ [])))
          × (b'.wakes ≡ x.events ∷ b.wakes)
          × (waiting w b' ≡ rest)
  unfolding take_watch_event file_event queue_event
  take_message-watch req_id tx_id event path token rest x b words room u v sp st found ne e =
      let body = path ++ (0 ∷ (token ++ (0 ∷ []))) in
      let msg = header watch_event req_id tx_id (length body) in
      let p =
        waiting-Parts w b msg body rest words room
          (w.header_length watch_event req_id tx_id (length body)) e in
      let small = w.small in
      let same : (watch_event == watch_event) ≡ true = ground arith in
      let queued : (x.events == 0) ≡ false = ground (arith, ne) in
      let passes =
        take_message_passes watch_event req_id tx_id event body rest b
          (omega (arith, p.many, room, small)) u v p in
      let path' = c_string_lem path (token ++ (0 ∷ [])) sp in
      let behind_path = drop-string path (token ++ (0 ∷ [])) in
      let token' = c_string_lem token [] st in
      let b' = queue_event x.events event (record b {
        path = update b.path event path;
        token = update b.token event token;
        rsp_cons = (b.rsp_cons + length body + sizeof_msg) % 2 ^ 32;
        watch = update b.watch event x.address;
      }) in
      (
        b',
        passes
            ∙ rw same (
                rw (p.inner, take_watch_event)
                  (rw (path', behind_path, token', found) (rw queued refl))),
        update_self b.path event path,
        update_self b.token event token,
        update_self b.watch event x.address,
        refl,
        refl,
        p.behind,
      )
