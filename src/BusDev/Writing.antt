-- ===== src/BusDev/Writing.antt =====
-- rumpxendev/busdev.c: what the handling of a request leaves of the buffer.
use rumpuser_xen.Prelude.{ℕ, ◌≤◌, ◌≡◌, refl, false, List, [], ◌∷◌, ◌++◌, arith, length, drop}
use rumpuser_xen.XenStore.Calls.{Call, ok, bug, hang, asleep}
use rumpuser_xen.BusDev.{
  Proto, Errno, no_error, enomem, einval, eagain, erestart, Dev, set_visible, new_watch, return,
  make_request, process_request,
}
use rumpuser_xen.BusDev.Room.{make_request-all}
use rumpuser_xen.BusDev.Ways.{process_request-Ends}

-- Handling a request leaves the buffer, or on an error empties it.
abbrev pub Kept : List ℕ → Call (Errno × Dev) → Type 0
Kept buf (ok (no_error, d)) = d.wbuf ≡ buf
Kept buf (ok (enomem, d)) = length d.wbuf ≤ length buf
Kept buf (ok (einval, d)) = length d.wbuf ≤ length buf
Kept buf (ok (eagain, d)) = length d.wbuf ≤ length buf
Kept buf (ok (erestart, d)) = length d.wbuf ≤ length buf
Kept buf bug = Unit
Kept buf hang = Unit
Kept buf asleep = Unit

module _ (p : Proto) where
  open p use {sizeof_msg, payload_max, len_of, type_of, req_id_of, tx_id_of}

  make_request-Kept :
      (user_id req_type u tx_id : ℕ) (wreqs : List (List ℕ)) (d : Dev)
      → Kept d.wbuf (return no_error (make_request p user_id req_type u tx_id wreqs d))
  make_request-Kept user_id req_type u tx_id wreqs d =
      make_request-all p user_id req_type u tx_id wreqs d (λ c. Kept d.wbuf (return no_error c))
        (λ id. refl) tt tt tt

  pub process_request-Kept : (d : Dev) → Kept d.wbuf (process_request p d)
  process_request-Kept d = process_request-Ends p d (Kept d.wbuf) (record {
    trouble = λ c l. omega arith;
    no_memory = λ c l. omega arith;
    passed_on = λ c trs l k.
        make_request-Kept (req_id_of d.wbuf) (type_of d.wbuf) 0 (tx_id_of d.wbuf)
          (drop sizeof_msg d.wbuf ∷ []) (record d { calls = c; transactions = trs });
    asked_for = λ c i path token l l' k short.
        make_request-Kept (req_id_of d.wbuf) (type_of d.wbuf) i (tx_id_of d.wbuf)
          ((path ++ (0 ∷ [])) ∷ (p.token i ++ (0 ∷ [])) ∷ [])
          (record d { calls = c; watches = new_watch p i path token ∷ d.watches });
    to_go = λ c i path token l k f short.
        make_request-Kept (req_id_of d.wbuf) (type_of d.wbuf) i (tx_id_of d.wbuf)
          ((path ++ (0 ∷ [])) ∷ (p.token i ++ (0 ∷ [])) ∷ [])
          (record d { calls = c; watches = set_visible false i d.watches });
  })
