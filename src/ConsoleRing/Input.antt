-- ===== src/ConsoleRing/Input.antt =====
-- xen/console/xencons_ring.c: the input that the console's handler takes off its ring.
use rumpuser_xen.Prelude.{
  ℕ, zero, suc, ◌+◌, ◌-◌, ◌%◌, ◌^◌, ◌≤◌, ◌<◌, ◌≡◌, ◌≢◌, refl, ap, ◌∙◌, true, false, some, List, [],
  ◌∷◌, ◌++◌, arith, ◌==◌, ltb, update, update_self, update_ne,
}
use rumpuser_xen.Sched.{ok}
use rumpuser_xen.ConsoleRing.{InRing, xencons_rx, rx_loop, console_handle_input}

-- With a unit of fuel for each byte the loop ends, and has taken all bytes.
rx_loop-ends :
    (mask : ℕ → ℕ) (n cons : ℕ) (r : InRing)
    → cons < 2 ^ 32
    → n < 2 ^ 32
    → r.in_prod ≡ (cons + n) % 2 ^ 32
    → (r' : InRing) × (rx_loop mask n cons r ≡ some r')
      × (r'.in_cons ≡ r.in_prod)
      × (r'.in_prod ≡ r.in_prod)
unfolding rx_loop xencons_rx
rx_loop-ends mask zero cons r b l e =
    let q : (cons == r.in_prod) ≡ true = ground (arith, e) in
    (record r { in_cons = cons }, rw q refl, omega (arith, e), refl)
rx_loop-ends mask (suc n) cons r b l e =
    let q : (cons == r.in_prod) ≡ false = ground (arith, e) in
    let (r', f, c, p) =
      rx_loop-ends mask n ((cons + 1) % 2 ^ 32) (xencons_rx (mask cons) r) (omega arith)
        (omega arith) (e ∙ omega arith) in
    (r', rw q f, c, p)

-- On a ring that holds no more than its size, console_handle_input ends and takes all bytes.
pub console_handle_input-ends :
    (size : ℕ) (mask : ℕ → ℕ) (r : InRing)
    → r.in_cons < 2 ^ 32
    → r.in_prod < 2 ^ 32
    → (r.in_prod + 2 ^ 32 - r.in_cons) % 2 ^ 32 ≤ size
    → (r' : InRing) × (console_handle_input size mask r ≡ ok r')
      × (r'.in_cons ≡ r.in_prod)
      × (r'.in_prod ≡ r.in_prod)
unfolding console_handle_input
console_handle_input-ends size mask r b p s =
    let waiting = (r.in_prod + 2 ^ 32 - r.in_cons) % 2 ^ 32 in
    let fine : ltb size waiting ≡ false = ground (arith, s) in
    let (r', f, c, e) = rx_loop-ends mask waiting r.in_cons r b (omega arith) (omega arith) in
    (r', rw fine (rw (f, console_handle_input) refl), c, e)

append_nil : (xs : List ℕ) → xs ++ [] ≡ xs
append_nil [] = refl
append_nil (x ∷ xs) = ap (λ l. x ∷ l) (append_nil xs)

-- One character is printed for a byte that is neither NUL nor a carriage return, and none for a NUL.
rx_plain :
    (place : ℕ) (r : InRing)
    → r.bytes place ≢ 0
    → r.bytes place ≢ 13
    → (xencons_rx place r).printed ≡ r.printed ++ (r.bytes place ∷ [])
unfolding xencons_rx
rx_plain place r z k =
    let u : update r.bytes (place + 1) 0 place ≡ r.bytes place =
      update_ne r.bytes (place + 1) place 0 (λ e. omega (arith, e)) in
    let a : (r.bytes place == 0) ≡ false = ground arith in
    let b : (r.bytes place == 13) ≡ false = ground arith in
    rw u (rw a (rw b (append_nil (r.printed ++ (r.bytes place ∷ [])))))

rx_nul : (place : ℕ) (r : InRing) → r.bytes place ≡ 0 → (xencons_rx place r).printed ≡ r.printed
unfolding xencons_rx
rx_nul place r z =
    let u : update r.bytes (place + 1) 0 place ≡ 0 =
      update_ne r.bytes (place + 1) place 0 (λ e. omega (arith, e)) ∙ z in
    rw u (append_nil (r.printed ++ []) ∙ append_nil r.printed)

rx_behind : (place : ℕ) (r : InRing) → (xencons_rx place r).bytes (place + 1) ≡ 0
unfolding xencons_rx
rx_behind place r = update_self r.bytes (place + 1) 0

rx_loop_two :
    (mask : ℕ → ℕ) (r : InRing)
    → r.in_cons < 2 ^ 32 - 2
    → r.in_prod ≡ r.in_cons + 2
    → rx_loop mask 2 r.in_cons r
      ≡ some (record (xencons_rx (mask (r.in_cons + 1)) (xencons_rx (mask r.in_cons) r)) {
        in_cons = r.in_cons + 2;
      })
unfolding rx_loop xencons_rx
rx_loop_two mask r b e =
    let one : (r.in_cons + 1) % 2 ^ 32 ≡ r.in_cons + 1 = omega arith in
    let two : ((r.in_cons + 1) % 2 ^ 32 + 1) % 2 ^ 32 ≡ r.in_cons + 2 = omega arith in
    let p : (r.in_cons == r.in_prod) ≡ false = ground (arith, e) in
    let q : ((r.in_cons + 1) % 2 ^ 32 == r.in_prod) ≡ false = ground (arith, e) in
    let t : (((r.in_cons + 1) % 2 ^ 32 + 1) % 2 ^ 32 == r.in_prod) ≡ true = ground (arith, e) in
    rw p (rw q (rw t (rw two (rw one refl))))

-- If two bytes wait at neighbouring places, the first neither NUL nor a carriage return, then only
-- the first is printed, whatever the second is.
pub console_handle_input-second :
    (size : ℕ) (mask : ℕ → ℕ) (r : InRing)
    → r.in_cons < 2 ^ 32 - 2
    → r.in_prod ≡ r.in_cons + 2
    → 2 ≤ size
    → mask (r.in_cons + 1) ≡ mask r.in_cons + 1
    → r.bytes (mask r.in_cons) ≢ 0
    → r.bytes (mask r.in_cons) ≢ 13
    → (r' : InRing) × (console_handle_input size mask r ≡ ok r')
      × (r'.printed ≡ r.printed ++ (r.bytes (mask r.in_cons) ∷ []))
unfolding console_handle_input
console_handle_input-second size mask r b e s m z k =
    let r1 = xencons_rx (mask r.in_cons) r in
    let r2 = xencons_rx (mask (r.in_cons + 1)) r1 in
    let n : (r.in_prod + 2 ^ 32 - r.in_cons) % 2 ^ 32 ≡ 2 = omega (arith, e) in
    let fine : ltb size 2 ≡ false = ground (arith, s) in
    let nul : r1.bytes (mask (r.in_cons + 1)) ≡ 0 = ap r1.bytes m ∙ rx_behind (mask r.in_cons) r in
    (
      record r2 { in_cons = r.in_cons + 2 },
      rw (n, console_handle_input)
          (rw fine (rw (rx_loop_two mask r b e, console_handle_input) refl)),
      rx_nul (mask (r.in_cons + 1)) r1 nul ∙ rx_plain (mask r.in_cons) r z k,
    )
