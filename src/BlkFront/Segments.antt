-- ===== src/BlkFront/Segments.antt =====
-- xen/blkfront.c: the segments of a request are the buffer, byte for byte.
use rumpuser_xen.Prelude.{
  ℕ, zero, suc, ◌+◌, ◌-◌, ◌*◌, ◌/◌, ◌%◌, ◌≤◌, ◌<◌, ◌≡◌, refl, sym, ap, ◌∙◌, inl, inr, Bool, true,
  false, ◌&&◌, ◌||◌, arith, ◌==◌, ◌/=◌, ltb, leb, if◌then◌else◌, update, Bool-cases,
}
use rumpuser_xen.Sched.{ok}
use rumpuser_xen.Malloc.Rump.{page_size}
use rumpuser_xen.BlkFront.{Aiocb, BlkRequest, start_of, pages_of, set_segments, blkfront_aio}

-- The bytes of a segment, whose page is the one of its number from `start` on.
abbrev pub in_segment : ℕ → BlkRequest → ℕ → ℕ → Bool
in_segment start r j v =
    leb (start + j * page_size + r.first_sect j * 512) v
    && ltb v (start + j * page_size + (r.last_sect j + 1) * 512)

-- How many of the first segments hold a byte.
pub held : ℕ → ℕ → BlkRequest → ℕ → ℕ
held zero start r v = 0
held (suc n) start r v = held n start r v + (if in_segment start r n v then 1 else 0)

-- The page of a byte decides which segment can hold it.
held_page :
    (n : ℕ) (a : Aiocb) (v : ℕ)
    → let r = set_segments a in
      let q = a.aio_buf / 4096 in
      held n (start_of a) r v ≡ (
        if leb q (v / 4096) && ltb (v / 4096) (q + n) && in_segment (start_of a) r (v / 4096 - q) v
        then 1
        else 0)
unfolding held
held_page zero a v = ground arith
held_page (suc n) a v = let ih = held_page n a v in ground (arith, ih)

-- The lower edge of the segment in the page w, and the upper one.
first_edge :
    (buf v q w : ℕ)
    → q ≡ buf / 4096
    → w ≡ v / 4096
    → q ≤ w
    → buf % 512 ≡ 0
    → leb (w * 4096 + update (λ j. 0) 0 (buf % 4096 / 512) (w - q) * 512) v ≡ leb buf v
first_edge buf v q w eq ew l b = elim (Bool-cases (q == w)) [
  | inl e ↦
      let z : w - q ≡ 0 = ground (arith, e) in
      let sum : w * 4096 + buf % 4096 / 512 * 512 ≡ buf = ground (arith, eq, e, b) in
      ap (λ j. leb (w * 4096 + update (λ j. 0) 0 (buf % 4096 / 512) j * 512) v) z
      ∙ ap (λ k. leb k v) sum
  | inr e ↦
      let off : (0 == (w - q)) ≡ false = ground (arith, e, l) in
      let low : leb (w * 4096 + 0 * 512) v ≡ true = ground (arith, ew) in
      let high : leb buf v ≡ true = ground (arith, eq, ew, e, l) in
      ap (λ t. leb (w * 4096 + (if t then buf % 4096 / 512 else 0) * 512) v) off ∙ low ∙ sym high
]

last_edge :
    (stop v u w : ℕ)
    → u ≡ (stop - 1) / 4096
    → w ≡ v / 4096
    → w ≤ u
    → 0 < stop
    → stop % 512 ≡ 0
    → (n q : ℕ) → q ≤ w
    → n - 1 ≡ u - q
    → ltb v (w * 4096 + (update (λ j. 7) (n - 1) ((stop - 1) % 4096 / 512) (w - q) + 1) * 512)
      ≡ ltb v stop
last_edge stop v u w eu ew l some_bytes b n q k en = elim (Bool-cases (u == w)) [
  | inl e ↦
      let on : (n - 1 == (w - q)) ≡ true = ground (arith, en, e) in
      let sum : w * 4096 + ((stop - 1) % 4096 / 512 + 1) * 512 ≡ stop =
        ground (arith, eu, e, b, some_bytes) in
      ap (λ t. ltb v (w * 4096 + ((if t then (stop - 1) % 4096 / 512 else 7) + 1) * 512)) on
      ∙ ap (ltb v) sum
  | inr e ↦
      let off : (n - 1 == (w - q)) ≡ false = ground (arith, en, e, l, k) in
      let low : ltb v (w * 4096 + (7 + 1) * 512) ≡ true = ground (arith, ew) in
      let high : ltb v stop ≡ true = ground (arith, eu, ew, e, l) in
      ap (λ t. ltb v (w * 4096 + ((if t then (stop - 1) % 4096 / 512 else 7) + 1) * 512)) off
      ∙ low
      ∙ sym high
]

pages_lem :
    (a : Aiocb)
    → 0 < a.aio_nbytes
    → a.aio_buf / 4096 + (pages_of a - 1) ≡ (a.aio_buf + a.aio_nbytes - 1) / 4096
pages_lem a some_bytes = omega (arith, some_bytes)

exact :
    (a : Aiocb) (v : ℕ)
    → a.aio_buf % 512 ≡ 0
    → a.aio_nbytes % 512 ≡ 0
    → 0 < a.aio_nbytes
    → 0 < pages_of a
    → let q = a.aio_buf / 4096 in
      (leb q (v / 4096)
        && ltb (v / 4096) (q + pages_of a)
        && in_segment (start_of a) (set_segments a) (v / 4096 - q) v)
      ≡ (leb a.aio_buf v && ltb v (a.aio_buf + a.aio_nbytes))
exact a v b n some_bytes some_pages =
    let q = a.aio_buf / 4096 in
    let w = v / 4096 in
    let stop = a.aio_buf + a.aio_nbytes in
    let u = (stop - 1) / 4096 in
    let last = pages_lem a some_bytes in
    elim (Bool-cases (leb q w)) [
      | inr e ↦ let out : leb a.aio_buf v ≡ false = ground (arith, e) in rw (e, out) refl
      | inl e ↦ elim (Bool-cases (leb w u)) [
        | inr f ↦
            let out : ltb v stop ≡ false = ground (arith, f) in
            let out' : ltb w (q + pages_of a) ≡ false = ground (arith, f, last, some_pages) in
            rw (e, out', out) (ground arith)
        | inl f ↦
            let inside : ltb w (q + pages_of a) ≡ true = ground (arith, f, last, some_pages) in
            let base : start_of a + (w - q) * 4096 ≡ w * 4096 = ground (arith, e) in
            let le : q ≤ w = ground (arith, e) in
            let r = set_segments a in
            let one =
              ap (λ t. leb (t + r.first_sect (w - q) * 512) v) base
              ∙ first_edge a.aio_buf v q w refl refl le b in
            let two =
              ap (λ t. ltb v (t + (r.last_sect (w - q) + 1) * 512)) base
              ∙ last_edge stop v u w refl refl (ground (arith, f)) (omega (arith, some_bytes))
                  (omega (arith, b, n)) (pages_of a) q le (omega (arith, last)) in
            rw (e, inside)
              (ap (λ t. t && ltb v (start_of a + (w - q) * 4096 + (r.last_sect (w - q) + 1) * 512))
                  one
                ∙ ap (λ t. leb a.aio_buf v && t) two)
      ]
    ]

-- A buffer of some bytes that starts and ends at a sector, whose pages are few enough: the request is made, and
-- each byte of the buffer is in exactly one of its segments, and no other byte in any.
pub blkfront_aio-exact :
    (sector_size max : ℕ) (a : Aiocb) (v : ℕ)
    → (a.aio_offset % sector_size /= 0
        || a.aio_nbytes % sector_size /= 0
        || a.aio_buf % sector_size /= 0)
      ≡ false
    → a.aio_buf % 512 ≡ 0
    → a.aio_nbytes % 512 ≡ 0
    → 0 < a.aio_nbytes
    → pages_of a ≤ max
    → (r : BlkRequest) × (blkfront_aio sector_size max a ≡ ok r)
      × (held r.nr_segments (start_of a) r v
          ≡ (if leb a.aio_buf v && ltb v (a.aio_buf + a.aio_nbytes) then 1 else 0))
unfolding blkfront_aio
blkfront_aio-exact sector_size max a v aligned b n some_bytes few =
    let fits : leb (pages_of a) max ≡ true = ground (arith, few) in
    let some_pages : (pages_of a == 0) ≡ false = ground (arith, some_bytes) in
    let made : blkfront_aio sector_size max a ≡ ok (set_segments a) =
      rw (aligned, fits, some_pages) refl in
    (
      set_segments a,
      made,
      held_page (pages_of a) a v
          ∙ ap (λ t. if t then 1 else 0) (exact a v b n some_bytes (ground (arith, some_pages))),
    )
