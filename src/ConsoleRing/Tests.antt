-- ===== src/ConsoleRing/Tests.antt =====
-- Tests and witnesses of xen/console/xencons_ring.c and xen/console/console.c: a ring of four places whose indices wrap around.
use rumpuser_xen.Prelude.{
  ℕ, ◌+◌, ◌-◌, ◌%◌, ◌^◌, ◌<◌, ◌≡◌, ◌≢◌, refl, ◌||◌, ◌==◌, if◌then◌else◌, List, [], ◌∷◌, ◌++◌, arith,
}
use rumpuser_xen.Sched.{ok}
use rumpuser_xen.ConsoleRing.{OutRing, used, Geometry, send_bytes, InRing, console_handle_input}
use rumpuser_xen.ConsoleRing.Input.{console_handle_input-second}
use rumpuser_xen.ConsoleRing.Queue.{contents, queue, IsWithin}
use mathlib.Core.List.{append-nil}
use mathlib.Core.Path.{ap, ◌∙◌}
use rumpuser_xen.ConsoleRing.Send.{IsReader, Sent, ring_send, ring_send-Sent}
use rumpuser_xen.ConsoleRing.Print.{
  bytes, joined, crlf, console_print, print_loop, print_rest, console_print-crlf,
}

abbrev three_bytes : List ℕ
three_bytes = 97 ∷ 98 ∷ 99 ∷ []

four_apart : (i d : ℕ) → 0 < d → d < 4 → i < 2 ^ 32 → i % 4 ≢ (i + d) % 2 ^ 32 % 4
four_apart i d p l b e = omega arith

abbrev four_places : Geometry
four_places = record { size = 4; mask = λ i. i % 4; small = omega arith; apart = four_apart }

abbrev wrapped : OutRing
wrapped = record { out = λ k. 48 + k; out_cons = 2 ^ 32 - 2; out_prod = 0 }

wrapped-IsWithin : IsWithin four_places wrapped
wrapped-IsWithin = record {
  cons_word = omega arith;
  prod_word = omega arith;
  bounded = omega arith;
}

two_sent : (send_bytes four_places three_bytes wrapped).0 ≡ 2
unfolding send_bytes
two_sent = refl

queue_after_two :
    queue four_places (send_bytes four_places three_bytes wrapped).1 ≡ 50 ∷ 51 ∷ 97 ∷ 98 ∷ []
unfolding send_bytes
queue_after_two = refl

abbrev two_bytes : InRing
two_bytes = record { bytes = λ k. 97 + k; in_cons = 5; in_prod = 7; printed = 62 ∷ [] }

console_handle_input-second_example :
    (r' : InRing) × (console_handle_input 4 (λ i. i % 4) two_bytes ≡ ok r')
    × (r'.printed ≡ (62 ∷ []) ++ (98 ∷ []))
console_handle_input-second_example =
    console_handle_input-second 4 (λ i. i % 4) two_bytes (omega arith) refl (omega arith) refl
      (omega arith) (omega arith)

-- A daemon that reads all there is.
abbrev eager : ℕ → OutRing → List ℕ → OutRing × List ℕ
eager sent r got = (record r { out_cons = r.out_prod }, got ++ queue four_places r)

eager-IsReader : IsReader four_places eager
eager-IsReader sent r got w =
    let r' = record r { out_cons = r.out_prod } in
    let none_left : used r' ≡ 0 = omega (arith, w.prod_word) in
    (
      record {
        cons_word = w.prod_word;
        prod_word = w.prod_word;
        bounded = omega (arith, none_left);
      },
      ap (λ n. (got ++ queue four_places r) ++ contents four_places.mask r.out r.out_prod n)
            none_left
          ∙ append-nil (got ++ queue four_places r),
      omega (arith, none_left),
    )

abbrev six_bytes : List ℕ
six_bytes = 97 ∷ 98 ∷ 99 ∷ 100 ∷ 101 ∷ 102 ∷ []

ring_send-Sent_example :
    Sent four_places eager 0 six_bytes wrapped [] (ring_send four_places eager six_bytes wrapped [])
ring_send-Sent_example =
    ring_send-Sent four_places eager six_bytes wrapped [] eager-IsReader wrapped-IsWithin

-- Two lines of one character, each with its line feed.
abbrev two_lines : ℕ → ℕ
two_lines j = if (j == 1) || (j == 3) then 10 else 97

console_print-crlf_example :
    (parts : List (List ℕ)) × (console_print two_lines 4 ≡ ok parts)
    × (joined parts ≡ crlf (bytes two_lines 0 4))
console_print-crlf_example = console_print-crlf two_lines 4 (omega arith)

console_print_run : console_print two_lines 4 ≡ ok ((97 ∷ 13 ∷ 10 ∷ []) ∷ (97 ∷ 13 ∷ 10 ∷ []) ∷ [])
unfolding console_print print_loop print_rest
console_print_run = refl
