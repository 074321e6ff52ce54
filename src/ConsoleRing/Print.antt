-- ===== src/ConsoleRing/Print.antt =====
-- xen/console/console.c: console_print sends a text in parts, with the ends of its lines as the console
-- wants them.
use rumpuser_xen.Prelude.{
  ℕ, zero, suc, ◌+◌, ◌-◌, ◌≤◌, ◌<◌, ◌≡◌, refl, sym, ap, ◌∙◌, inl, inr, true, false, List, [], ◌∷◌,
  ◌++◌, arith, ◌==◌, ltb, if◌then◌else◌, update, Bool-cases,
}
use mathlib.Core.List.{append-nil}
use rumpuser_xen.Sched.{Outcome, ok, bug}

-- So many bytes from an address on.
abbrev pub bytes : (ℕ → ℕ) → ℕ → ℕ → List ℕ
bytes chars p zero = []
bytes chars p (suc n) = chars p ∷ bytes chars (p + 1) n

-- The loop, with the `n` characters that it may still look at: what is left of `copied_ptr`, `length` and the
-- characters, and the parts that were given to ring_send_fn.
abbrev pub Printed : Type 0
Printed = ℕ × ℕ × (ℕ → ℕ) × List (List ℕ)

unfoldable pub print_loop : ℕ → ℕ → Printed → Printed
print_loop zero curr_char p = p
print_loop (suc n) curr_char (copied_ptr, length, chars, parts) =
    let saved_char = chars (curr_char + 1) in
    let part_len = curr_char - copied_ptr + 2 in
    let chars1 = update (update chars curr_char 13) (curr_char + 1) 10 in
    let sent = print_loop n (curr_char + 1) (
      curr_char + 1,
      length - (part_len - 1),
      update chars1 (curr_char + 1) saved_char,
      parts ++ (bytes chars1 copied_ptr part_len ∷ []),
    ) in
    let kept = print_loop n (curr_char + 1) (copied_ptr, length, chars, parts) in
    if ltb curr_char (copied_ptr + length - 1)
    then (if chars curr_char == 10 then sent else kept)
    else (copied_ptr, length, chars, parts)

-- What comes behind the loop.
unfoldable pub print_rest : Printed → List (List ℕ)
print_rest (copied_ptr, length, chars, parts) =
    let last = copied_ptr + length - 1 in
    if chars last == 10
    then parts ++ (bytes (update (update chars last 13) (last + 1) 10) copied_ptr (length + 1) ∷ [])
    else parts ++ (bytes chars copied_ptr length ∷ [])

-- The parts for a text at address 0 of the copy. Of an empty text the character before it would be read.
unfoldable pub console_print : (ℕ → ℕ) → ℕ → Outcome (List (List ℕ))
console_print chars length =
    if length == 0 then bug else ok (print_rest (print_loop length 0 (0, length, chars, [])))

abbrev pub joined : List (List ℕ) → List ℕ
joined [] = []
joined (p ∷ ps) = p ++ joined ps

-- Each line feed becomes a carriage return and a line feed.
abbrev pub crlf : List ℕ → List ℕ
crlf [] = []
crlf (c ∷ cs) = if c == 10 then 13 ∷ 10 ∷ crlf cs else c ∷ crlf cs

append_assoc : (xs ys zs : List ℕ) → (xs ++ ys) ++ zs ≡ xs ++ (ys ++ zs)
append_assoc [] ys zs = refl
append_assoc (x ∷ xs) ys zs = ap (λ l. x ∷ l) (append_assoc xs ys zs)

joined-append : (ps : List (List ℕ)) (p : List ℕ) → joined (ps ++ (p ∷ [])) ≡ joined ps ++ p
joined-append [] p = append-nil p
joined-append (q ∷ ps) p =
    ap (λ l. q ++ l) (joined-append ps p) ∙ sym (append_assoc q (joined ps) p)

bytes_same :
    (f g : ℕ → ℕ) (p n : ℕ) → ((j : ℕ) → p ≤ j → j < p + n → f j ≡ g j) → bytes f p n ≡ bytes g p n
bytes_same f g p zero h = refl
bytes_same f g p (suc n) h =
    ap (λ c. c ∷ bytes f (p + 1) n) (h p (omega arith) (omega arith))
    ∙ ap (λ l. g p ∷ l)
        (bytes_same f g (p + 1) n (λ j a b. h j (omega (arith, a)) (omega (arith, b))))

bytes-snoc : (f : ℕ → ℕ) (p n q : ℕ) → q ≡ p + n → bytes f p (suc n) ≡ bytes f p n ++ (f q ∷ [])
bytes-snoc f p zero q e = let z : p ≡ q = omega (arith, e) in ap (λ k. f k ∷ []) z
bytes-snoc f p (suc n) q e = ap (λ l. f p ∷ l) (bytes-snoc f (p + 1) n q (omega (arith, e)))

-- The characters before a place, and two that are written there.
bytes_ended :
    (f : ℕ → ℕ) (p n q m : ℕ)
    → q ≡ p + n
    → m ≡ suc (suc n)
    → bytes (update (update f q 13) (q + 1) 10) p m ≡ bytes f p n ++ (13 ∷ 10 ∷ [])
bytes_ended f p n q m e z =
    let g = update (update f q 13) (q + 1) 10 in
    let a : g q ≡ 13 = ground arith in
    let b : g (q + 1) ≡ 10 = ground arith in
    ap (bytes g p) z
    ∙ bytes-snoc g p (suc n) (q + 1) (omega (arith, e))
    ∙ ap (λ l. l ++ (g (q + 1) ∷ [])) (bytes-snoc g p n q e)
    ∙ append_assoc (bytes g p n) (g q ∷ []) (g (q + 1) ∷ [])
    ∙ ap (λ l. l ++ (g q ∷ g (q + 1) ∷ [])) (bytes_same g f p n (λ j l u. ground (arith, e, l, u)))
    ∙ ap (λ c. bytes f p n ++ (c ∷ g (q + 1) ∷ [])) a
    ∙ ap (λ c. bytes f p n ++ (13 ∷ c ∷ [])) b

-- What is sent in the end from inside the loop: the characters from `copied_ptr` on as they are, and the others
-- with their line ends.
print_rest-crlf :
    (n m k curr copied length : ℕ) (chars : ℕ → ℕ) (parts : List (List ℕ))
    → curr ≡ copied + k
    → length ≡ k + suc m
    → suc m ≤ n
    → joined (print_rest (print_loop n curr (copied, length, chars, parts)))
      ≡ joined parts ++ (bytes chars copied k ++ crlf (bytes chars curr (suc m)))
unfolding print_loop print_rest
print_rest-crlf zero m k curr copied length chars parts e l u = absurd (omega arith)
print_rest-crlf (suc n) zero k curr copied length chars parts e l u =
    let over : ltb curr (copied + length - 1) ≡ false = ground (arith, e, l) in
    let last : copied + length - 1 ≡ curr = omega (arith, e, l) in
    let whole : length ≡ suc k = omega (arith, l) in
    rw over (
      rw last (elim (Bool-cases (chars curr == 10)) [
        | inl f ↦ rw f (
            joined-append parts
              (bytes (update (update chars curr 13) (curr + 1) 10) copied (length + 1))
            ∙ ap (λ t. joined parts ++ t)
                (bytes_ended chars copied k curr (length + 1) e (omega (arith, l))))
        | inr f ↦ rw f (
            joined-append parts (bytes chars copied length)
            ∙ ap (λ t. joined parts ++ t)
                (ap (bytes chars copied) whole ∙ bytes-snoc chars copied k curr e))
      ]))
print_rest-crlf (suc n) (suc m) k curr copied length chars parts e l u =
    let more : ltb curr (copied + length - 1) ≡ true = ground (arith, e, l) in
    let rest = crlf (bytes chars (curr + 1) (suc m)) in
    rw more (elim (Bool-cases (chars curr == 10)) [
      | inl f ↦
          let part_len = curr - copied + 2 in
          let chars1 = update (update chars curr 13) (curr + 1) 10 in
          let chars2 = update chars1 (curr + 1) (chars (curr + 1)) in
          let part = bytes chars1 copied part_len in
          let ih =
            print_rest-crlf n m 0 (curr + 1) (curr + 1) (length - (part_len - 1)) chars2
              (parts ++ (part ∷ [])) (omega arith) (omega (arith, e, l)) (omega (arith, u)) in
          let ended = bytes_ended chars copied k curr part_len e (omega (arith, e)) in
          let same = bytes_same chars2 chars (curr + 1) (suc m) (λ j a b. ground (arith, a)) in
          rw f (
            ih
            ∙ ap (λ t. joined (parts ++ (part ∷ [])) ++ crlf t) same
            ∙ ap (λ t. t ++ rest) (joined-append parts part ∙ ap (λ t. joined parts ++ t) ended)
            ∙ append_assoc (joined parts) (bytes chars copied k ++ (13 ∷ 10 ∷ [])) rest
            ∙ ap (λ t. joined parts ++ t) (append_assoc (bytes chars copied k) (13 ∷ 10 ∷ []) rest))
      | inr f ↦
          let ih =
            print_rest-crlf n m (suc k) (curr + 1) copied length chars parts (omega (arith, e))
              (omega (arith, l)) (omega (arith, u)) in
          rw f (
            ih
            ∙ ap (λ t. joined parts ++ (t ++ rest)) (bytes-snoc chars copied k curr e)
            ∙ ap (λ t. joined parts ++ t)
                (append_assoc (bytes chars copied k) (chars curr ∷ []) rest))
    ])

-- The parts that console_print sends of a text that is not empty are, one behind the other, the text with each
-- line feed as a carriage return and a line feed.
pub console_print-crlf :
    (chars : ℕ → ℕ) (length : ℕ)
    → 0 < length
    → (parts : List (List ℕ)) × (console_print chars length ≡ ok parts)
      × (joined parts ≡ crlf (bytes chars 0 length))
unfolding console_print
console_print-crlf chars length l =
    let some_text : (length == 0) ≡ false = ground (arith, l) in
    let z : length ≡ suc (length - 1) = omega (arith, l) in
    (
      print_rest (print_loop length 0 (0, length, chars, [])),
      rw some_text refl,
      print_rest-crlf length (length - 1) 0 0 0 length chars [] (omega arith) (omega (arith, l))
            (omega (arith, l))
          ∙ ap (λ n. crlf (bytes chars 0 n)) (sym z),
    )
