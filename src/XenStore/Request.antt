-- ===== src/XenStore/Request.antt =====
-- xen/xenbus/xenbus.c: xenbus_msg_reply, up to its wait for the answer and from there on.
use rumpuser_xen.Prelude.{
  ℕ, zero, suc, ◌+◌, ◌^◌, ◌≤◌, ◌<◌, ◌≡◌, ◌≢◌, refl, sym, ap, ◌∙◌, inl, inr, false, ◌||◌, Option,
  none, some, List, [], ◌∷◌, ◌++◌, arith, ◌==◌, ◌/=◌, if◌then◌else◌, update, update_self, update_ne,
  length, take, Bool-cases, ==_iff, ne_of_==,
}
use mathlib.Core.Path.{subst}
use rumpuser_xen.Sched.{Outcome, ok, bug, hang}
use rumpuser_xen.XenStore.{
  Wire, ReqRing, Requests, nr_reqs, total, xb_write, id_allocate, id_release,
}
use rumpuser_xen.XenStore.Ids.{IsCounted, id_allocate-Fresh, id_release-Freed}
use rumpuser_xen.XenStore.Message.{used, message, pending, xb_write-pending}
use rumpuser_xen.XenStore.Thread.{Bus, remove_event, take_message}
use rumpuser_xen.XenStore.Parts.{avail, waiting}
use rumpuser_xen.XenStore.Deliver.{take_message-reply}

-- What the caller has once its message is in the ring.
abbrev begun : ℕ → Bus → Outcome (Option ReqRing) → Outcome (Option (ℕ × Bus × ReqRing))
begun id b (ok (some ring)) = ok (some (id, b, ring))
begun id b (ok none) = ok none
begun id b bug = bug
begun id b hang = hang

abbrev concluded : List ℕ → Bus → Outcome Requests → Outcome (Option (List ℕ × Bus))
concluded rep b (ok rs) = ok (some (rep, record b { requests = rs }))
concluded rep b bug = bug
concluded rep b hang = hang

module _ (w : Wire) where
  open w use {size, sizeof_msg, header, req_id_of, watch_event}

  abbrev pub numbered :
      ℕ
      → ℕ
      → ℕ
      → List (List ℕ)
      → Bus
      → ReqRing
      → Outcome (Option (ℕ × Requests))
      → Outcome (Option (ℕ × Bus × ReqRing))
  numbered queue type trans reqs b ring (ok (some (id, rs))) =
      begun id (record b { queue = update b.queue queue []; requests = rs })
        (xb_write w type id trans reqs ring)
  numbered queue type trans reqs b ring (ok none) = ok none
  numbered queue type trans reqs b ring bug = bug
  numbered queue type trans reqs b ring hang = hang

  -- The request is on its way, with an identifier; none if the caller has to wait for one or for room.
  unfoldable pub msg_begin :
      ℕ → ℕ → ℕ → ℕ → List (List ℕ) → Bus → ReqRing → Outcome (Option (ℕ × Bus × ReqRing))
  msg_begin queue event type trans reqs b ring =
      numbered queue type trans reqs b ring (id_allocate queue event b.requests)

  -- With the event that came, if one did.
  abbrev pub with_event : ℕ → ℕ → Option ℕ × Bus → Outcome (Option (List ℕ × Bus))
  with_event event id (none, b) = ok none
  with_event event id (some got, b) =
      let rep = b.reply (b.requests.for_queue id) in
      if (got /= event) || (req_id_of (take sizeof_msg rep) /= id)
      then bug
      else concluded rep b (id_release id b.requests)

  -- The answer's bytes; none while there is no event.
  unfoldable pub msg_end : ℕ → ℕ → ℕ → Bus → Outcome (Option (List ℕ × Bus))
  msg_end queue event id b = with_event event id (remove_event queue b)

  take_prefix : (n : ℕ) (xs ys : List ℕ) → length xs ≡ n → take n (xs ++ ys) ≡ xs
  take_prefix zero [] ys e = refl
  take_prefix zero (x ∷ xs) ys e = absurd (omega arith)
  take_prefix (suc n) [] ys e = absurd (omega arith)
  take_prefix (suc n) (x ∷ xs) ys e = ap (λ l. x ∷ l) (take_prefix n xs ys (omega arith))

  -- XenStore answers a request: it changes its ring of answers alone, and the answer to the identifier
  -- is all that waits there.
  pub record Answers (type tx_id : ℕ) (body : List ℕ) (id : ℕ) (b b' : Bus) : Type 0 where
    pub requests_same : b'.requests ≡ b.requests
    pub queue_same : b'.queue ≡ b.queue
    pub words : (b'.rsp_cons < 2 ^ 32) × (b'.rsp_prod < 2 ^ 32)
    pub room : avail b' ≤ size
    pub there : waiting w b' ≡ header type id tx_id (length body) ++ (body ++ [])

  remove_event_lem :
      (queue event : ℕ) (rest : List ℕ) (b : Bus)
      → b.queue queue ≡ event ∷ rest
      → remove_event queue b ≡ (some event, record b { queue = update b.queue queue rest })
  unfolding remove_event
  remove_event_lem queue event rest b e = rw (e, remove_event) refl

  msg_end_lem :
      (queue event type tx_id id : ℕ) (body : List ℕ) (b : Bus)
      → id < nr_reqs
      → queue ≢ 0
      → IsCounted b.requests
      → b.requests.reply_queue id ≡ queue
      → b.requests.for_queue id ≡ event
      → b.queue queue ≡ event ∷ []
      → b.reply event ≡ header type id tx_id (length body) ++ body
      → (b' : Bus) × (msg_end queue event id b
          ≡ ok (some (header type id tx_id (length body) ++ body, b')))
        × (b'.requests.reply_queue ≡ update b.requests.reply_queue id 0)
        × IsCounted b'.requests
  unfolding msg_end
  msg_end_lem queue event type tx_id id body b l ne c rq fq q rep =
      let msg = header type id tx_id (length body) in
      let (rs, e, gone, c', w') = id_release-Freed id b.requests l (λ z. ne (sym rq ∙ z)) c in
      let b1 = record b { queue = update b.queue queue [] } in
      let mine : (event /= event) ≡ false = ground arith in
      let id_of : req_id_of (take sizeof_msg (msg ++ body)) ≡ id =
        ap req_id_of (take_prefix sizeof_msg msg body (w.header_length type id tx_id (length body)))
        ∙ w.req_id_header type id tx_id (length body) (omega (arith, l)) in
      let same : (id /= id) ≡ false = ground arith in
      (
        record b1 { requests = rs },
        rw (remove_event_lem queue event [] b q)
            (rw fq (rw rep (rw id_of (rw (mine, same) (rw e refl))))),
        gone,
        c',
      )

  -- With an identifier free, room in the ring, the reader's index more than the ring's size below 2 ^ 32, and a
  -- XenStore whose answer, not of the type of a watch event, is all that waits on its ring: xenbus_msg_reply puts its message
  -- behind those that wait, one pass of the thread takes the answer, and the caller goes on with
  -- exactly the answer's bytes; afterwards the same identifiers are in use as before.
  pub msg_reply-answered :
      (queue event type answer_type trans tx_id fresh : ℕ) (reqs : List (List ℕ)) (body : List ℕ)
      (b : Bus) (ring : ReqRing) (store : ℕ → Bus → Bus)
      → queue ≢ 0
      → IsCounted b.requests
      → b.requests.nr_live_reqs < nr_reqs
      → (ring.req_cons < 2 ^ 32) × (ring.req_prod < 2 ^ 32)
      → used ring + (total reqs + sizeof_msg) ≤ size
      → ring.req_cons + size < 2 ^ 32
      → answer_type < 2 ^ 32
      → answer_type ≢ watch_event
      → ((id : ℕ) (c : Bus) → Answers answer_type tx_id body id c (store id c))
      → (id : ℕ) × (b1 : Bus) × (ring' : ReqRing) × (b2 : Bus) × (b3 : Bus) × (msg_begin queue event
            type trans reqs b ring
          ≡ ok (some (id, b1, ring')))
        × (pending w ring' ≡ pending w ring ++ message w type id trans reqs)
        × (take_message w fresh (store id b1) ≡ ok (some b2))
        × (msg_end queue event id b2
            ≡ ok (some (header answer_type id tx_id (length body) ++ body, b3)))
        × ((i : ℕ) → b3.requests.reply_queue i ≡ b.requests.reply_queue i)
        × IsCounted b3.requests
  unfolding msg_begin
  msg_reply-answered queue event type answer_type trans tx_id fresh reqs body b ring store ne c live
        words room far u nw answers =
      let (id, rs, e1, l, free, rq, fq, counted) =
        id_allocate-Fresh queue event b.requests ne c live in
      let (ring', e2, words', cons, pend) =
        xb_write-pending w type id trans reqs ring words room far in
      let b1 = record b { queue = update b.queue queue []; requests = rs } in
      let s = store id b1 in
      let a = answers id b1 in
      let same = a.requests_same in
      let mine : s.requests.reply_queue id ≡ queue =
        ap (λ r. r.reply_queue id) same
        ∙ ap (λ f. f id) rq
        ∙ update_self b.requests.reply_queue id queue in
      let event_of : s.requests.for_queue id ≡ event =
        ap (λ r. r.for_queue id) same
        ∙ ap (λ f. f id) fq
        ∙ update_self b.requests.for_queue id event in
      let (b2, e3, rep, qs, wakes, kept, rest) =
        take_message-reply w answer_type id tx_id fresh body [] s a.words a.room u nw l
          (λ z. ne (sym mine ∙ z)) a.there in
      let empty : s.queue queue ≡ [] =
        ap (λ f. f queue) a.queue_same ∙ update_self b.queue queue [] in
      let one_event : b2.queue queue ≡ event ∷ [] =
        ap (λ f. f queue) qs
        ∙ ap (λ q. update s.queue q (s.queue q ++ (s.requests.for_queue id ∷ [])) queue) mine
        ∙ update_self s.queue queue (s.queue queue ++ (s.requests.for_queue id ∷ []))
        ∙ ap (λ q. q ++ (s.requests.for_queue id ∷ [])) empty
        ∙ ap (λ v. v ∷ []) event_of in
      let reqs_same = kept ∙ same in
      let (b3, e4, gone, counted') =
        msg_end_lem queue event answer_type tx_id id body b2 l ne
          (subst IsCounted (sym reqs_same) counted) (ap (λ r. r.reply_queue id) kept ∙ mine)
          (ap (λ r. r.for_queue id) kept ∙ event_of) one_event (ap b2.reply (sym event_of) ∙ rep) in
      (
        id,
        b1,
        ring',
        b2,
        b3,
        rw e1 (rw e2 refl),
        pend,
        e3,
        e4,
        λ i.
            ap (λ f. f i) gone
            ∙ ap (λ r. update r.reply_queue id 0 i) reqs_same
            ∙ ap (λ f. update f id 0 i) rq
            ∙ elim (Bool-cases (id == i)) [
              | inl z ↦
                  let q = (==_iff id i).0 z in
                  ap (update (update b.requests.reply_queue id queue) id 0) (sym q)
                  ∙ update_self (update b.requests.reply_queue id queue) id 0
                  ∙ sym free
                  ∙ ap b.requests.reply_queue q
              | inr z ↦
                  let n = ne_of_== id i z in
                  update_ne (update b.requests.reply_queue id queue) id i 0 n
                  ∙ update_ne b.requests.reply_queue id i queue n
            ],
        counted',
      )
