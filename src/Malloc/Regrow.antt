-- ===== src/Malloc/Regrow.antt =====
-- lib/memalloc.c: memrealloc moves a block's bytes to a larger one.
use rumpuser_xen.Prelude.{ℕ, ◌+◌, ◌≡◌, ◌⊎◌, List, ◌∷◌}
use rumpuser_xen.Sched.{Outcome, ok}
use rumpuser_xen.Malloc.{Heap, store, copy_bytes}
use rumpuser_xen.Malloc.Blocks.{IsHeap}
use rumpuser_xen.Malloc.Take.{Placed, Exhausted}

-- Memory after the bytes of the old block were copied to the new one and the old one was given back.
moved_mem : ℕ → ℕ → ℕ → ℕ → ℕ → (ℕ → ℕ) → ℕ → ℕ
moved_mem room np rv op link mem = store 8 op link (copy_bytes room np rv mem)

-- The new address, the new block in place of the old one, and a byte copied; or NULL, and nothing changed.
abbrev pub Grown : ℕ → ℕ → ℕ → ℕ → ℕ → Heap → List (ℕ × ℕ) → Outcome (ℕ × Heap) → Type 0
Grown nbytes rv op b i h live res =
    ((h' : Heap) × (res ≡ ok (0, h'))
      × IsHeap h' ((op, b) ∷ live)
      × (h'.mem (rv + i) ≡ h.mem (rv + i))
      × Exhausted nbytes 8 h)
    ⊎ ((np op' b' : ℕ) × (h' : Heap) × (res ≡ ok (np, h'))
        × IsHeap h' ((op', b') ∷ live)
        × Placed nbytes 8 h'.mem np op' b'
        × (h'.mem (np + i) ≡ h.mem (rv + i)))
