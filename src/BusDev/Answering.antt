-- ===== src/BusDev/Answering.antt =====
-- rumpxendev/busdev.c: an answer to a request keeps the device's books and meets the assertions.
use rumpuser_xen.Prelude.{
  ℕ, ◌+◌, ◌-◌, ◌≤◌, ◌≡◌, refl, ap, ◌∙◌, inl, inr, Bool, true, false, not, ◌&&◌, ◌||◌, some, List,
  ◌∷◌, arith, ◌==◌, ltb, leb, if◌then◌else◌, length, Bool-cases, ==_iff,
}
use rumpuser_xen.XenStore.Calls.{ok, bug}
use rumpuser_xen.BusDev.{
  Kind, plain, transaction_start, transaction_end, watch, unwatch, other, Proto, Request, Dev,
  set_visible,
}
use rumpuser_xen.BusDev.Ways.{names_watch}
use rumpuser_xen.BusDev.Answers.{
  find_request, remove_watch, remove_request, last_byte, Reply, and_next, unwatch_found, do_unwatch,
  response_switch, settle, process_response,
}
use rumpuser_xen.BusDev.Counts.{
  named, shown, asked, about, IsDev, named-set_visible, shown-set_visible, find_watch-hidden,
  named-remove_watch, shown-remove_watch, asked-remove_request, length-remove_request,
}

-- Whether XenStore may answer so: it accepts every unwatch, and the answer to a new transaction is a string.
abbrev pub may_answer : Kind → Bool → List ℕ → Bool
may_answer plain error payload = true
may_answer transaction_start error payload =
    error || (leb 2 (length payload) && (last_byte payload == 0))
may_answer transaction_end error payload = true
may_answer watch error payload = true
may_answer unwatch error payload = not error
may_answer other error payload = true

module _ (p : Proto) where
  open p use {kind, xs_error}

  -- The books once the request will be off the list.
  record Settled (r : Request) (d0 d : Dev) : Type 0 where
    same_requests : d.requests ≡ d0.requests
    same_outstanding : d.outstanding_requests ≡ d0.outstanding_requests
    once : (i : ℕ) → named i d.watches ≤ 1
    tie : (i : ℕ) → shown i d.watches + asked p i d0.requests ≡ named i d.watches + about p i r
    fresh : (i : ℕ) → d.calls ≤ i → named i d.watches ≡ 0

  about_one :
      (r : Request) (d : Dev)
      → IsDev p d
      → find_request r.rid d.requests ≡ some r
      → (i : ℕ) → about p i r ≤ asked p i d.requests
  about_one r d w f i = omega (arith, asked-remove_request p r.rid r d.requests f i)

  -- The watch of a request under way is there and hidden.
  hidden :
      (r : Request) (d : Dev)
      → IsDev p d
      → find_request r.rid d.requests ≡ some r
      → names_watch (kind r.req_type) ≡ true
      → (named r.u d.watches ≡ 1) × (shown r.u d.watches ≡ 0)
  hidden r d w f k =
      let mine : about p r.u r ≡ 1 = ground (arith, k) in
      (
        omega (arith, mine, about_one r d w f r.u, w.tie r.u, w.once r.u),
        omega (arith, mine, about_one r d w f r.u, w.tie r.u, w.once r.u),
      )

  untouched :
      (r : Request) (d : Dev) (trs : List ℕ)
      → IsDev p d
      → names_watch (kind r.req_type) ≡ false
      → Settled r d (record d { transactions = trs })
  untouched r d trs w k = record {
    same_requests = refl;
    same_outstanding = refl;
    once = w.once;
    tie = λ i. ground (arith, w.tie i, k);
    fresh = w.fresh;
  }

  do_unwatch-Settled :
      (r : Request) (d : Dev)
      → IsDev p d
      → find_request r.rid d.requests ≡ some r
      → names_watch (kind r.req_type) ≡ true
      → (d' : Dev) × (do_unwatch r.u d ≡ ok d') × Settled r d d'
  unfolding do_unwatch
  do_unwatch-Settled r d w f k =
      let (one, none_shown) = hidden r d w f k in
      let (x, found, v) = find_watch-hidden r.u d.watches one none_shown in
      let d' : Dev = record d { watches = remove_watch r.u d.watches } in
      let step : unwatch_found r.u (some x) d ≡ ok d' = rw v refl in
      (
        d',
        ap (λ o. unwatch_found r.u o d) found ∙ step,
        record {
          same_requests = refl;
          same_outstanding = refl;
          once = λ i. omega (arith, w.once i, named-remove_watch r.u i d.watches one);
          tie = λ i. ground (
            arith,
            w.tie i,
            k,
            named-remove_watch r.u i d.watches one,
            shown-remove_watch r.u i d.watches one none_shown,
          );
          fresh = λ i l. omega (arith, w.fresh i l, named-remove_watch r.u i d.watches one);
        },
      )

  made_visible :
      (r : Request) (d : Dev)
      → IsDev p d
      → find_request r.rid d.requests ≡ some r
      → names_watch (kind r.req_type) ≡ true
      → Settled r d (record d { watches = set_visible true r.u d.watches })
  made_visible r d w f k =
      let (one, none_shown) = hidden r d w f k in
      record {
        same_requests = refl;
        same_outstanding = refl;
        once = λ i. omega (arith, named-set_visible true r.u i d.watches, w.once i);
        tie = λ i. elim (Bool-cases (r.u == i)) [
          | inl e ↦
              let here = (==_iff r.u i).0 e in
              ground (
                arith,
                w.tie i,
                k,
                e,
                named-set_visible true r.u i d.watches,
                shown-set_visible true r.u i d.watches one,
                ap (λ t. shown t d.watches) here,
                none_shown,
              )
          | inr e ↦ ground (
            arith,
            w.tie i,
            k,
            e,
            named-set_visible true r.u i d.watches,
            shown-set_visible true r.u i d.watches one,
          )
        ];
        fresh = λ i l. omega (arith, named-set_visible true r.u i d.watches, w.fresh i l);
      }

  switch-Settled :
      (k : Kind) (error : Bool) (r : Request) (tx : ℕ) (payload : List ℕ) (d : Dev)
      → kind r.req_type ≡ k
      → IsDev p d
      → find_request r.rid d.requests ≡ some r
      → may_answer k error payload ≡ true
      → (d' : Dev) × (response_switch k error r.u tx payload d ≡ ok d') × Settled r d d'
  unfolding response_switch
  switch-Settled plain error r tx payload d k w f m =
      (d, refl, untouched r d d.transactions w (ap names_watch k))
  switch-Settled transaction_start true r tx payload d k w f m =
      (d, refl, untouched r d d.transactions w (ap names_watch k))
  switch-Settled transaction_start false r tx payload d k w f m = (
    record d { transactions = tx ∷ d.transactions },
    rw m refl,
    untouched r d (tx ∷ d.transactions) w (ap names_watch k),
  )
  switch-Settled transaction_end error r tx payload d k w f m =
      (d, refl, untouched r d d.transactions w (ap names_watch k))
  switch-Settled watch true r tx payload d k w f m = do_unwatch-Settled r d w f (ap names_watch k)
  switch-Settled watch false r tx payload d k w f m = (
    record d { watches = set_visible true r.u d.watches },
    refl,
    made_visible r d w f (ap names_watch k),
  )
  switch-Settled unwatch true r tx payload d k w f m = absurd (ground (arith, m))
  switch-Settled unwatch false r tx payload d k w f m =
      do_unwatch-Settled r d w f (ap names_watch k)
  switch-Settled other error r tx payload d k w f m =
      (d, refl, untouched r d d.transactions w (ap names_watch k))

  -- An answer to a request under way, of the request's type or an error, and such that XenStore may give it: no
  -- assertion fails, whatever happened to the device meanwhile, the reader gets the answer under the identifier
  -- that the user chose, and the books are right without the request.
  pub process_response-IsDev :
      (r : Request) (type tx : ℕ) (payload : List ℕ) (d : Dev)
      → IsDev p d
      → find_request r.rid d.requests ≡ some r
      → ((type == xs_error) || (type == r.req_type)) ≡ true
      → may_answer (kind r.req_type) (type == xs_error) payload ≡ true
      → (d' : Dev) × (process_response p r type tx payload d
          ≡ ok (record { reply_type = type; reply_id = r.user_id; payload = payload }, d'))
        × IsDev p d'
        × (d'.requests ≡ remove_request r.rid d.requests)
  unfolding process_response
  process_response-IsDev r type tx payload d w f t m =
      let error = type == xs_error in
      let reply : Reply = record { reply_type = type; reply_id = r.user_id; payload = payload } in
      let (d1, e, s) = switch-Settled (kind r.req_type) error r tx payload d refl w f m in
      let d' : Dev = record d1 {
        outstanding_requests = d1.outstanding_requests - 1;
        requests = remove_request r.rid d1.requests;
      } in
      let some_left : ltb 0 d1.outstanding_requests ≡ true =
        ground (arith, s.same_outstanding, w.count, length-remove_request p r.rid r d.requests f) in
      let done : settle reply r.rid d1 ≡ ok (reply, d') = rw some_left refl in
      let off = ap (remove_request r.rid) s.same_requests in
      (
        d',
        ap
              (λ b.
                if b
                then and_next (response_switch (kind r.req_type) error r.u tx payload d)
                    (settle reply r.rid)
                else bug)
              t
            ∙ ap (λ o. and_next o (settle reply r.rid)) e
            ∙ done,
        record {
          count = omega (
            arith,
            s.same_outstanding,
            w.count,
            length-remove_request p r.rid r d.requests f,
            ap length off,
          );
          once = s.once;
          tie = λ i.
              omega
                (arith, s.tie i, asked-remove_request p r.rid r d.requests f i, ap (asked p i) off);
          fresh = s.fresh;
        },
        off,
      )
