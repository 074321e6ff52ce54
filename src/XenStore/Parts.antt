-- ===== src/XenStore/Parts.antt =====
-- xen/xenbus/xenbus.c: where the parts of a message lie that waits in the ring of answers.
use rumpuser_xen.Prelude.{
  ℕ, zero, suc, ◌+◌, ◌-◌, ◌%◌, ◌^◌, ◌≤◌, ◌<◌, ◌≡◌, refl, sym, ap, ◌∙◌, List, [], ◌∷◌, ◌++◌, arith,
  length, length-append,
}
use rumpuser_xen.XenStore.{Wire, memcpy_from_ring}
use rumpuser_xen.XenStore.Ring.{get, get-append, memcpy_from_ring-get}
use rumpuser_xen.XenStore.Thread.{Bus}

append_cancel :
    (xs xs' ys ys' : List ℕ)
    → length xs ≡ length xs'
    → xs ++ ys ≡ xs' ++ ys'
    → (xs ≡ xs') × (ys ≡ ys')
append_cancel [] [] ys ys' l e = (refl, e)
append_cancel [] (x ∷ xs') ys ys' l e = absurd (omega arith)
append_cancel (x ∷ xs) [] ys ys' l e = absurd (omega arith)
append_cancel (x ∷ xs) (y ∷ xs') ys ys' l e =
    let (a, b) = append_cancel xs xs' ys ys' (omega arith) (ap tail e) in
    ((ap (λ h. h ∷ xs) (head_eq e)) ∙ ap (λ t. y ∷ t) a, b)
  where
    tail : List ℕ → List ℕ
    tail [] = []
    tail (z ∷ zs) = zs

    head_eq : {x y : ℕ} {xs ys : List ℕ} → x ∷ xs ≡ y ∷ ys → x ≡ y
    head_eq e = cc

-- How many bytes wait.
abbrev pub avail : Bus → ℕ
avail b = (b.rsp_prod + 2 ^ 32 - b.rsp_cons) % 2 ^ 32

abbrev pub IsWords : Bus → Type 0
IsWords b = (b.rsp_cons < 2 ^ 32) × (b.rsp_prod < 2 ^ 32)

module _ (w : Wire) where
  open w use {size, mask, sizeof_msg, header, watch_event}

  -- The bytes that wait.
  abbrev pub waiting : Bus → List ℕ
  waiting b = memcpy_from_ring w b.rsp (mask b.rsp_cons) (avail b)

  length-get : (i n : ℕ) (ring : ℕ → ℕ) → length (get w i n ring) ≡ n
  length-get i zero ring = refl
  length-get i (suc n) ring = omega (arith, length-get (i + 1) n ring)

  -- Where the parts of the message that waits first lie.
  pub record Parts (b : Bus) (msg body rest : List ℕ) : Type 0 where
    pub many : avail b ≡ sizeof_msg + length body + length rest
    pub head : memcpy_from_ring w b.rsp (mask b.rsp_cons) sizeof_msg ≡ msg
    pub inner :
        memcpy_from_ring w b.rsp (mask ((b.rsp_cons + sizeof_msg) % 2 ^ 32)) (length body) ≡ body
    pub all : memcpy_from_ring w b.rsp (mask b.rsp_cons) (length body + sizeof_msg) ≡ msg ++ body
    pub behind :
        memcpy_from_ring w b.rsp
          (mask ((b.rsp_cons + length body + sizeof_msg) % 2 ^ 32))
          ((b.rsp_prod + 2 ^ 32 - (b.rsp_cons + length body + sizeof_msg) % 2 ^ 32) % 2 ^ 32)
        ≡ rest

  pub waiting-Parts :
      (b : Bus) (msg body rest : List ℕ)
      → IsWords b
      → avail b ≤ size
      → length msg ≡ sizeof_msg
      → waiting b ≡ msg ++ (body ++ rest)
      → Parts b msg body rest
  waiting-Parts b msg body rest (x, y) room l e =
      let i = b.rsp_cons in
      let ring = b.rsp in
      let n = length body in
      let k = length rest in
      let s = sizeof_msg in
      let small = w.small in
      let e' : get w i (avail b) ring ≡ msg ++ (body ++ rest) =
        sym (memcpy_from_ring-get w i (avail b) ring room) ∙ e in
      let many : avail b ≡ s + n + k =
        sym (length-get i (avail b) ring)
        ∙ ap length e'
        ∙ length-append msg (body ++ rest)
        ∙ omega (arith, l, length-append body rest) in
      let z : s + (n + k) ≡ avail b = omega (arith, many) in
      let (h, t) =
        append_cancel (get w i s ring) msg (get w (i + s) (n + k) ring) (body ++ rest)
          (length-get i s ring ∙ sym l)
          (sym (get-append w i s (n + k) ring) ∙ ap (λ j. get w i j ring) z ∙ e') in
      let (m, r) =
        append_cancel (get w (i + s) n ring) body (get w (i + s + n) k ring) rest
          (length-get (i + s) n ring) (sym (get-append w (i + s) n k ring) ∙ t) in
      let q : n + s ≡ s + n = omega arith in
      let c : i + s + n ≡ i + n + s = omega arith in
      let left : (b.rsp_prod + 2 ^ 32 - (i + n + s) % 2 ^ 32) % 2 ^ 32 ≡ k =
        omega (arith, many, room, small, x, y) in
      record {
        many = many;
        head = memcpy_from_ring-get w i s ring (omega (arith, many, room)) ∙ h;
        inner =
            ap (λ p. memcpy_from_ring w ring p n) (w.mask_wrap (i + s))
            ∙ memcpy_from_ring-get w (i + s) n ring (omega (arith, many, room))
            ∙ m;
        all =
            ap (memcpy_from_ring w ring (mask i)) q
            ∙ memcpy_from_ring-get w i (s + n) ring (omega (arith, many, room))
            ∙ get-append w i s n ring
            ∙ ap (λ v. v ++ get w (i + s) n ring) h
            ∙ ap (λ v. msg ++ v) m;
        behind =
            ap (memcpy_from_ring w ring (mask ((i + n + s) % 2 ^ 32))) left
            ∙ ap (λ p. memcpy_from_ring w ring p k) (w.mask_wrap (i + n + s))
            ∙ memcpy_from_ring-get w (i + n + s) k ring (omega (arith, many, room))
            ∙ ap (λ j. get w j k ring) (sym c)
            ∙ r;
      }
