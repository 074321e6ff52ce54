-- ===== src/Malloc/More.antt =====
-- lib/memalloc.c: morecore gets fresh pages and makes blocks of them.
use native.Mathlib.Nat.{one-le-pow}
use rumpuser_xen.Prelude.{
  ℕ, suc, ◌+◌, ◌-◌, ◌*◌, ◌/◌, ◌^◌, ◌≤◌, ◌<◌, ◌≡◌, ◌⊎◌, refl, sym, ap, ◌∙◌, inl, inr, Bool, true,
  false, not, ◌&&◌, Option, none, some, List, [], ◌∷◌, arith, ◌==◌, ltb, leb, if◌then◌else◌, update,
  update_self, All, Bool-cases,
}
use mathlib.Core.Path.{subst}
use rumpuser_xen.Pages.{Pages, freelist_size, allocated_in_map, alloc_pages}
use rumpuser_xen.Pages.Chunks.{hits}
use rumpuser_xen.Pages.Cover.{IsSound}
use rumpuser_xen.Pages.Neighbours.{pow_add}
use rumpuser_xen.Pages.Alloc.{Allocated, alloc_pages-IsSound}
use rumpuser_xen.Malloc.{
  Heap, nbuckets, pagebucket, carve, write_links, page_address, corealloc, morecore,
}
use rumpuser_xen.Malloc.Sizes.{IsBlock}
use rumpuser_xen.Malloc.Blocks.{
  IsHeap, free_at-update, aligned-update, carve-hits, carve-aligned, page_blocks,
}

-- The bytes of so many from an address on.
abbrev pub within : ℕ → ℕ → ℕ → Bool
within op size v = leb op v && ltb v (op + size)

-- What corealloc gives: no page is lost, and either no address, or that of memory that was free and is aligned.
abbrev pub Fresh : ℕ → Pages → ℕ × Pages → Type 0
Fresh order s (op, s') =
    IsSound s'
    × ((v : ℕ)
        → (allocated_in_map s.alloc_bitmap v && not (allocated_in_map s'.alloc_bitmap v)) ≡ false)
    × ((op ≡ 0)
        ⊎ ((q : ℕ) × (op ≡ q * 2 ^ (order + 12))
            × ((v : ℕ)
                → (within op (2 ^ (order + 12)) v && allocated_in_map s.alloc_bitmap (v / 4096))
                  ≡ false)
            × ((v : ℕ)
                → (within op (2 ^ (order + 12)) v
                    && not (allocated_in_map s'.alloc_bitmap (v / 4096)))
                  ≡ false)))

pub page_address-Fresh :
    (order : ℕ) (s : Pages) (r : Option ℕ × Pages)
    → IsSound s
    → Allocated order s r
    → Fresh order s (page_address r)
page_address-Fresh order s (none, s') w (e, n) = (
  subst IsSound (sym e) w,
  λ v. ground (arith, ap (λ t. allocated_in_map t.alloc_bitmap v) e),
  inl refl,
)
page_address-Fresh order s (some ch, s') w (w', (q, e), free, now) =
    let size : 2 ^ (order + 12) ≡ 2 ^ order * 4096 = pow_add order 12 in
    let assoc : q * 2 ^ order * 4096 ≡ q * (2 ^ order * 4096) = grind arith in
    (
      w',
      λ v. ground (arith, now v),
      inr (
        q,
        ap (λ t. t * 4096) e ∙ assoc ∙ ap (λ t. q * t) (sym size),
        (λ v. ground (arith, free (v / 4096), size)),
        (λ v. ground (arith, now (v / 4096), size)),
      ),
    )

-- A list that was empty gets blocks that hold fresh memory once.
stock :
    (b order op : ℕ) (blocks : List ℕ) (m : ℕ → ℕ) (h : Heap) (s' : Pages) (live : List (ℕ × ℕ))
    → b < nbuckets
    → IsHeap h live
    → h.nextf b ≡ []
    → All (IsBlock b) blocks
    → ((v : ℕ) → hits (b + 5) blocks v ≡ (if within op (2 ^ (order + 12)) v then 1 else 0))
    → IsSound s'
    → ((v : ℕ)
        → (allocated_in_map h.pages.alloc_bitmap v && not (allocated_in_map s'.alloc_bitmap v))
          ≡ false)
    → ((v : ℕ)
        → (within op (2 ^ (order + 12)) v && allocated_in_map h.pages.alloc_bitmap (v / 4096))
          ≡ false)
    → ((v : ℕ)
        → (within op (2 ^ (order + 12)) v && not (allocated_in_map s'.alloc_bitmap (v / 4096)))
          ≡ false)
    → IsHeap (record h { pages = s'; nextf = update h.nextf b blocks; mem = m }) live
stock b order op blocks m h s' live l w e al hs sound kept free now = record {
  sound = sound;
  apart = λ v.
      let old : hits (b + 5) (h.nextf b) v ≡ 0 = ap (λ xs. hits (b + 5) xs v) e in
      ground (
        arith,
        free_at-update h.nextf b blocks v l,
        old,
        hs v,
        w.apart v,
        kept (v / 4096),
        free v,
        now v,
      );
  aligned = aligned-update h.nextf b blocks al w.aligned;
}

-- The order of the pages that a bucket's blocks are made of.
pub order_of : ℕ → ℕ
order_of b = if ltb b pagebucket then 0 else b - pagebucket

pub order_below : (b : ℕ) → b ≤ 26 → order_of b < freelist_size
unfolding order_of
order_below b l = ground (arith, l)

-- The blocks of morecore.
pub blocks_of : ℕ → ℕ → List ℕ
blocks_of b op =
    let nblks = if ltb b pagebucket then 4096 / 2 ^ (b + 5) else 1 in
    carve nblks op (if ltb b pagebucket then 4096 / nblks else 0)

blocks_small :
    (b op : ℕ)
    → ltb b pagebucket ≡ true
    → (order_of b ≡ 0) × (blocks_of b op ≡ carve (2 ^ (7 - b)) op (2 ^ (b + 5)))
unfolding blocks_of order_of
blocks_small b op t =
    let (n, z, whole) = page_blocks b (ground (arith, t)) in (rw t refl, rw t (rw n (rw z refl)))

blocks_large :
    (b op : ℕ) → ltb b pagebucket ≡ false → (order_of b ≡ b - 7) × (blocks_of b op ≡ op ∷ [])
unfolding blocks_of order_of
blocks_large b op t = (rw t refl, rw t refl)

pub blocks_of_lem :
    (b op q : ℕ)
    → op ≡ q * 2 ^ (order_of b + 12)
    → All (IsBlock b) (blocks_of b op)
      × ((v : ℕ)
          → hits (b + 5) (blocks_of b op) v
            ≡ (if within op (2 ^ (order_of b + 12)) v then 1 else 0))
blocks_of_lem b op q e = elim (Bool-cases (ltb b pagebucket)) [
  | inl t ↦
      let (n, z, whole) = page_blocks b (ground (arith, t)) in
      let (o, eq) = blocks_small b op t in
      let c : 2 ^ (order_of b + 12) ≡ 4096 = ap (λ k. 2 ^ (k + 12)) o in
      let assoc : q * 2 ^ (7 - b) * 2 ^ (b + 5) ≡ q * (2 ^ (7 - b) * 2 ^ (b + 5)) = grind arith in
      let a : q * 2 ^ (7 - b) * 2 ^ (b + 5) ≡ op =
        assoc ∙ ap (λ k. q * k) (whole ∙ sym c) ∙ sym e in
      (
        subst (All (IsBlock b)) (ap (λ p. carve (2 ^ (7 - b)) p (2 ^ (b + 5))) a ∙ sym eq)
            (carve-aligned (2 ^ (7 - b)) b (q * 2 ^ (7 - b))),
        λ v.
            ap (λ xs. hits (b + 5) xs v) eq
            ∙ carve-hits (2 ^ (7 - b)) op (b + 5) v
            ∙ ap (λ k. if leb op v && ltb v (op + k) then 1 else 0) (whole ∙ sym c),
      )
  | inr t ↦
      let (o, eq) = blocks_large b op t in
      let z : b - 7 + 12 ≡ b + 5 = ground (arith, t) in
      let c : 2 ^ (order_of b + 12) ≡ 2 ^ (b + 5) = ap (λ k. 2 ^ (k + 12)) o ∙ ap (λ k. 2 ^ k) z in
      let one : All (IsBlock b) (op ∷ []) = ((q, e ∙ ap (λ k. q * k) c), tt) in
      (
        subst (All (IsBlock b)) (sym eq) one,
        λ v. ap (λ xs. hits (b + 5) xs v) eq ∙ ground (arith, c),
      )
]

pub morecore_lem :
    (b : ℕ) (h : Heap)
    → let r = corealloc (order_of b) h.pages in
      morecore b h ≡ (
        if r.0 == 0 then record h { pages = r.1 } else record h {
          pages = r.1;
          nextf = update h.nextf b (blocks_of b r.0);
          mem = write_links (blocks_of b r.0) h.mem;
        })
unfolding morecore blocks_of order_of
morecore_lem b h = refl

blocks_of_some : (b op : ℕ) → (x : ℕ) × (r : List ℕ) × (blocks_of b op ≡ x ∷ r)
blocks_of_some b op = elim (Bool-cases (ltb b pagebucket)) [
  | inl t ↦
      let one = one-le-pow (7 - b) 2 (omega arith) in
      let z : 2 ^ (7 - b) ≡ suc (2 ^ (7 - b) - 1) = omega (arith, one) in
      (
        op,
        carve (2 ^ (7 - b) - 1) (op + 2 ^ (b + 5)) (2 ^ (b + 5)),
        (blocks_small b op t).1 ∙ ap (λ n. carve n op (2 ^ (b + 5))) z,
      )
  | inr t ↦ (op, [], (blocks_large b op t).1)
]

abbrev pub IsStocked : ℕ → Heap → Type 0
IsStocked b h = (x : ℕ) × (r : List ℕ) × (h.nextf b ≡ x ∷ r)

-- morecore for an empty list keeps the blocks apart, and stocks the list unless the page allocator gives
-- nothing.
pub morecore-IsHeap :
    (b : ℕ) (h : Heap) (live : List (ℕ × ℕ))
    → b ≤ 26
    → IsHeap h live
    → h.nextf b ≡ []
    → IsHeap (morecore b h) live
      × ((((corealloc (order_of b) h.pages).0 ≡ 0) × ((morecore b h).nextf b ≡ []))
          ⊎ IsStocked b (morecore b h))
unfolding corealloc
morecore-IsHeap b h live l w e =
    let o = order_of b in
    let r = corealloc o h.pages in
    let small : o < freelist_size = order_below b l in
    let fresh =
      page_address-Fresh o h.pages (alloc_pages o h.pages) w.sound
        (alloc_pages-IsSound o h.pages small w.sound) in
    let lem = morecore_lem b h in
    elim (Bool-cases (r.0 == 0)) [
      | inl z ↦
          let got : IsHeap (record h { pages = r.1 }) live = record {
            sound = fresh.0;
            apart = λ v. ground (arith, w.apart v, fresh.1 (v / 4096));
            aligned = w.aligned;
          } in
          let same : morecore b h ≡ record h { pages = r.1 } = lem ∙ rw z refl in
          (
            subst (λ k. IsHeap k live) (sym same) got,
            inl (ground (arith, z), ap (λ k. k.nextf b) same ∙ e),
          )
      | inr z ↦ elim fresh.2 [
        | inl n ↦ absurd (ground (arith, z, n))
        | inr (q, a, free, now) ↦
            let (al, hs) = blocks_of_lem b r.0 q a in
            let blocks = blocks_of b r.0 in
            let h' = record h {
              pages = r.1;
              nextf = update h.nextf b blocks;
              mem = write_links blocks h.mem;
            } in
            let got =
              stock b o r.0 blocks (write_links blocks h.mem) h r.1 live (omega (arith, l)) w e al
                hs fresh.0 fresh.1 free now in
            let same : morecore b h ≡ h' = lem ∙ rw z refl in
            let (x, rest, some_block) = blocks_of_some b r.0 in
            (
              subst (λ k. IsHeap k live) (sym same) got,
              inr (x, rest, ap (λ k. k.nextf b) same ∙ update_self h.nextf b blocks ∙ some_block),
            )
      ]
    ]
