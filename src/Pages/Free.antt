-- ===== src/Pages/Free.antt =====
-- xen/mm.c: `free_pages` gives a chunk back, merged with its free neighbours.
use native.Mathlib.Nat.{pow-le-pow_right}
use mathlib.Core.Path.{subst}
use rumpuser_xen.Prelude.{
  ℕ, zero, suc, ◌+◌, ◌-◌, ◌/◌, ◌%◌, ◌^◌, ◌≤◌, ◌<◌, ◌≡◌, refl, sym, ap, ◌∙◌, inl, inr, true, not,
  ◌&&◌, ◌||◌, arith, ◌/=◌, ltb, leb, if◌then◌else◌, update, remove, Bool-cases,
}
use rumpuser_xen.Sched.{ok}
use rumpuser_xen.Pages.{
  Pages, freelist_size, allocated_in_map, map_free, link_chunk, to_merge, merge, free_pages,
}
use rumpuser_xen.Pages.Clear.{map_free_lem}
use rumpuser_xen.Pages.Chunks.{holds}
use rumpuser_xen.Pages.Cover.{IsAligned, Ties, IsSound, link_chunk-Ties, unlink_chunk-Ties}
use rumpuser_xen.Pages.Neighbours.{neighbour_listed, to_merge-Neighbour}
use rumpuser_xen.Pages.Alloc.{Ties-same}

-- All memory lies below this page.
abbrev pub limit : ℕ
limit = 2 ^ 51

abbrev pub IsLimited : (ℕ → ℕ) → Type 0
IsLimited words = (v : ℕ) → limit ≤ v → allocated_in_map words v ≡ true

-- A chunk that is free is no larger than the memory.
small_order :
    (s : Pages) (c o : ℕ) → Ties s (holds c o) → IsLimited s.alloc_bitmap → o < freelist_size
small_order s c o w b = elim (Bool-cases (ltb o freelist_size)) [
  | inl e ↦ ground (arith, e)
  | inr e ↦
      let big : 2 ^ 52 ≤ 2 ^ o =
        pow-le-pow_right (omega arith) {i = 52} {j = o} (ground (arith, e)) in
      let v = c + 2 ^ 51 in
      let at : holds c o v ≡ 1 = ground (arith, big) in absurd (ground (arith, w.exact v, at, b v))
]

-- What the loop of free_pages leaves: a chunk, out of the lists, that holds what the freed one held
-- and what was merged with it.
abbrev Merged : Pages → ℕ × ℕ × Pages → Type 0
Merged s (c, o, s') =
    (o < freelist_size) × IsAligned c o × Ties s' (holds c o) × (s'.alloc_bitmap ≡ s.alloc_bitmap)

merge-Merged :
    (n c o : ℕ) (s : Pages)
    → o + n ≡ freelist_size
    → IsAligned c o
    → Ties s (holds c o)
    → IsLimited s.alloc_bitmap
    → Merged s (merge n c o s)
unfolding merge
merge-Merged zero c o s z al w b = absurd (omega (arith, small_order s c o w b))
merge-Merged (suc n) c o s z al w b =
    elim (Bool-cases
      (allocated_in_map s.alloc_bitmap (to_merge c o) || (s.level (to_merge c o) /= o))) [
        | inl e ↦ rw e (small_order s c o w b, al, w, refl)
        | inr e ↦
            let other = to_merge c o in
            let c' = if c / 2 ^ o % 2 /= 0 then other else c in
            let s' = record s { free_head = update s.free_head o (remove other (s.free_head o)) } in
            let (x, y, ec, eo, pr, al', sum) = to_merge-Neighbour c o al in
            let (l, m) =
              neighbour_listed s c other o x y ec eo w pr (ground (arith, e)) (ground (arith, e)) in
            let w1 = unlink_chunk-Ties other o s (holds c o) l m w in
            let w2 = Ties-same s' (λ v. holds c o v + holds other o v) (holds c' (suc o)) sum w1 in
            let next : o + 1 ≡ suc o = omega arith in
            let ih =
              merge-Merged n c' (o + 1) s' (omega arith) (subst (IsAligned c') (sym next) al')
                (subst (λ k. Ties s' (holds c' k)) (sym next) w2) b in
            rw e ih
      ]

-- On sound lists whose memory lies below 2 ^ 51 pages, free_pages of an aligned chunk of allocated
-- pages never runs past the last list; it frees exactly the pages of the chunk, and the lists are sound.
pub free_pages-IsSound :
    (ch order : ℕ) (s : Pages)
    → order < freelist_size
    → IsSound s
    → IsLimited s.alloc_bitmap
    → IsAligned ch order
    → ch + 2 ^ order ≤ limit
    → ((v : ℕ) → ch ≤ v → v < ch + 2 ^ order → allocated_in_map s.alloc_bitmap v ≡ true)
    → (s' : Pages) × (free_pages ch order s ≡ ok s')
      × IsSound s'
      × ((v : ℕ)
          → allocated_in_map s'.alloc_bitmap v
            ≡ (allocated_in_map s.alloc_bitmap v && not (leb ch v && ltb v (ch + 2 ^ order))))
unfolding free_pages link_chunk
free_pages-IsSound ch order s l w lim al top used =
    let s1 = record s { alloc_bitmap = map_free ch (2 ^ order) s.alloc_bitmap } in
    let now = λ (v : ℕ). map_free_lem ch (2 ^ order) s.alloc_bitmap v in
    let w1 : Ties s1 (holds ch order) = record {
      exact = λ v. ground (arith, w.exact v, now v, used v);
      heads = w.heads;
    } in
    let (c', o', s2) = merge (freelist_size - order) ch order s1 in
    let (k, al', w2, same) =
      merge-Merged (freelist_size - order) ch order s1 (omega arith) al w1
        (λ v h. now v ∙ ground (arith, lim v h, top, h)) in
    let t : ltb o' freelist_size ≡ true = ground (arith, k) in
    (
      link_chunk c' o' s2,
      rw t refl,
      link_chunk-Ties c' o' s2 (λ v. 0) k al'
          (Ties-same s2 (holds c' o') (λ v. 0 + holds c' o' v) (λ v. omega arith) w2),
      λ v. ap (λ x. allocated_in_map x v) same ∙ now v,
    )
