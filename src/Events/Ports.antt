-- ===== src/Events/Ports.antt =====
-- xen/events.c: `unbind_all_ports` and the table of handlers.
use rumpuser_xen.Prelude.{
  ℕ, zero, suc, ◌+◌, ◌≤◌, ◌<◌, ◌≡◌, refl, ap, ◌∙◌, inl, inr, Bool, not, ◌&&◌, ◌||◌, List, [], ◌∷◌,
  arith, ◌==◌, ltb, leb, if◌then◌else◌, Bool-cases, ==_iff,
}
use mathlib.Core.Path.{subst}
use rumpuser_xen.Events.{
  Events, nr_evs, mask_evtchn, clear_evtchn, unbind_port, unbind_ports, unbind_all_ports,
}
use rumpuser_xen.Events.Due.{logged}

-- Is the port one that unbind_all_ports closes?
abbrev pub closable : ℕ → ℕ → Events → ℕ → Bool
closable console store e i = e.bound i && not ((i == console) || (i == store))

-- The closable ports among `n` from one on.
abbrev pub closables : ℕ → ℕ → Events → ℕ → ℕ → List ℕ
closables console store e zero i = []
closables console store e (suc n) i =
    if closable console store e i
    then i ∷ closables console store e n (i + 1)
    else closables console store e n (i + 1)

closables_same :
    (console store : ℕ) (e e' : Events) (n i : ℕ)
    → ((j : ℕ) → i ≤ j → e'.bound j ≡ e.bound j)
    → closables console store e' n i ≡ closables console store e n i
closables_same console store e e' zero i h = refl
closables_same console store e e' (suc n) i h =
    let a = h i (omega arith) in
    let ih = closables_same console store e e' n (i + 1) (λ j l. h j (omega arith)) in
    rw (a, ih) refl

abbrev Bits : ℕ → ℕ → ℕ → ℕ → Events → Type 0
Bits console store i p e =
    let e' = unbind_port console store i e in
    let hit = (i == p) && closable console store e p in
    (e'.bound p ≡ (e.bound p && not hit))
    × (e'.masked p ≡ (e.masked p || hit))
    × (e'.pending p ≡ (e.pending p && not hit))

unbind_port-Bits : (console store i p : ℕ) (e : Events) → Bits console store i p e
unfolding unbind_port mask_evtchn clear_evtchn
unbind_port-Bits console store i p e = elim (Bool-cases (i == p)) [
  | inl b ↦ subst (λ k. Bits console store i k e) ((==_iff i p).0 b) (ground arith)
  | inr b ↦ ground arith
]

unbind_port-closed :
    (console store i : ℕ) (e : Events)
    → (unbind_port console store i e).closed
      ≡ (if closable console store e i then i ∷ e.closed else e.closed)
unfolding unbind_port mask_evtchn clear_evtchn
unbind_port-closed console store i e = ground arith

-- What unbind_all_ports leaves of a port.
abbrev pub PortClosed : ℕ → ℕ → Events → Events → ℕ → Type 0
PortClosed console store e e' p =
    (e'.bound p ≡ (e.bound p && not (closable console store e p)))
    × (e'.masked p ≡ (e.masked p || closable console store e p))
    × (e'.pending p ≡ (e.pending p && not (closable console store e p)))

unbind_ports-bits :
    (console store n i p : ℕ) (e : Events)
    → let e' = unbind_ports console store n i e in
      let hit = leb i p && ltb p (i + n) && closable console store e p in
      (e'.bound p ≡ (e.bound p && not hit))
      × (e'.masked p ≡ (e.masked p || hit))
      × (e'.pending p ≡ (e.pending p && not hit))
unfolding unbind_ports
unbind_ports-bits console store zero i p e = ground arith
unbind_ports-bits console store (suc n) i p e =
    let e1 = unbind_port console store i e in
    let (a, b, c) = unbind_port-Bits console store i p e in
    let (x, y, z) = unbind_ports-bits console store n (i + 1) p e1 in
    (x ∙ ground (arith, a), y ∙ ground (arith, a, b), z ∙ ground (arith, a, c))

unbind_ports-closed :
    (console store n i : ℕ) (e : Events)
    → (unbind_ports console store n i e).closed ≡ logged (closables console store e n i) e.closed
unfolding unbind_ports
unbind_ports-closed console store zero i e = refl
unbind_ports-closed console store (suc n) i e =
    let e1 = unbind_port console store i e in
    let same =
      closables_same console store e e1 n (i + 1)
        (λ j l. (unbind_port-Bits console store i j e).0 ∙ ground (arith, l)) in
    unbind_ports-closed console store n (i + 1) e1
    ∙ ap (λ ps. logged ps e1.closed) same
    ∙ ap (logged (closables console store e n (i + 1))) (unbind_port-closed console store i e)
    ∙ ground arith

unbind_ports-handler :
    (console store n i : ℕ) (e : Events) → (unbind_ports console store n i e).handler ≡ e.handler
unfolding unbind_ports unbind_port mask_evtchn clear_evtchn
unbind_ports-handler console store zero i e = refl
unbind_ports-handler console store (suc n) i e =
    unbind_ports-handler console store n (i + 1) (unbind_port console store i e) ∙ ground arith

-- unbind_all_ports closes exactly the bound ports other than the console's and the store's, once each
-- and in order, and unbinds, masks and clears them; the bits of the other ports stay as they were,
-- and so do all handlers.
pub unbind_all_ports-PortClosed :
    (console store p : ℕ) (e : Events)
    → p < nr_evs
    → let e' = unbind_all_ports console store e in
      (e'.closed ≡ logged (closables console store e nr_evs 0) e.closed)
      × PortClosed console store e e' p
      × (e'.handler ≡ e.handler)
unfolding unbind_all_ports
unbind_all_ports-PortClosed console store p e l =
    let (x, y, z) = unbind_ports-bits console store 1024 0 p e in
    (
      unbind_ports-closed console store 1024 0 e,
      (x ∙ ground (arith, l), y ∙ ground (arith, l), z ∙ ground (arith, l)),
      unbind_ports-handler console store 1024 0 e,
    )
