-- ===== src/BusDev/Counts.antt =====
-- rumpxendev/busdev.c: watches, and the requests about them, by number.
use rumpuser_xen.Prelude.{
  ℕ, ◌+◌, ◌≤◌, ◌≡◌, refl, sym, ap, ◌∙◌, inl, inr, Bool, false, ◌&&◌, some, List, [], ◌∷◌, arith,
  ◌==◌, if◌then◌else◌, length, Bool-cases,
}
use rumpuser_xen.BusDev.{Proto, Request, Watch, Dev, find_visible_watch, set_visible, same_string}
use rumpuser_xen.BusDev.Ways.{names_watch}
use rumpuser_xen.BusDev.Answers.{find_watch, remove_watch, find_request, remove_request}

-- How many watches have the number, and how many of them are visible.
abbrev pub named : ℕ → List Watch → ℕ
named i [] = 0
named i (w ∷ ws) = (if w.wid == i then 1 else 0) + named i ws

abbrev pub shown : ℕ → List Watch → ℕ
shown i [] = 0
shown i (w ∷ ws) = (if w.visible_to_user && (w.wid == i) then 1 else 0) + shown i ws

pub shown-le-named : (i : ℕ) (ws : List Watch) → shown i ws ≤ named i ws
shown-le-named i [] = omega arith
shown-le-named i (w ∷ ws) = ground (arith, shown-le-named i ws)

pub named-set_visible :
    (v : Bool) (i j : ℕ) (ws : List Watch) → named j (set_visible v i ws) ≡ named j ws
named-set_visible v i j [] = refl
named-set_visible v i j (w ∷ ws) = elim (Bool-cases (w.wid == i)) [
  | inl e ↦ rw e refl
  | inr e ↦ rw e (omega (arith, named-set_visible v i j ws))
]

pub shown-set_visible :
    (v : Bool) (i j : ℕ) (ws : List Watch)
    → named i ws ≡ 1
    → shown j (set_visible v i ws) ≡ (if i == j then (if v then 1 else 0) else shown j ws)
shown-set_visible v i j [] n = absurd (omega (arith, n))
shown-set_visible v i j (w ∷ ws) n = elim (Bool-cases (w.wid == i)) [
  | inl e ↦ rw e (ground (arith, n, shown-le-named j ws, shown-le-named i ws, e))
  | inr e ↦ rw e (ground (arith, shown-set_visible v i j ws (ground (arith, n, e)), e))
]

pub find_visible_watch-shown :
    (path token : List ℕ) (ws : List Watch) (i : ℕ)
    → find_visible_watch path token ws ≡ some i
    → 1 ≤ shown i ws
find_visible_watch-shown path token [] i e = cc
find_visible_watch-shown path token (w ∷ ws) i e =
    elim (Bool-cases
      (w.visible_to_user && same_string path w.path && same_string token w.user_token)) [
        | inl t ↦
            let found : find_visible_watch path token (w ∷ ws) ≡ some w.wid = rw t refl in
            let here : w.wid ≡ i = cc (found, e) in ground (arith, t, here)
        | inr t ↦
            let found : find_visible_watch path token (w ∷ ws) ≡ find_visible_watch path token ws =
              rw t refl in
            omega (arith, find_visible_watch-shown path token ws i (sym found ∙ e))
      ]

pub find_watch-hidden :
    (i : ℕ) (ws : List Watch)
    → named i ws ≡ 1
    → shown i ws ≡ 0
    → (w : Watch) × (find_watch i ws ≡ some w) × (w.visible_to_user ≡ false)
find_watch-hidden i [] n h = absurd (omega (arith, n))
find_watch-hidden i (w ∷ ws) n h = elim (Bool-cases (w.wid == i)) [
  | inl e ↦ (w, rw e refl, ground (arith, h, e))
  | inr e ↦
      let (w', f, v) = find_watch-hidden i ws (ground (arith, n, e)) (omega (arith, h)) in
      let found : find_watch i (w ∷ ws) ≡ find_watch i ws = rw e refl in (w', found ∙ f, v)
]

pub named-remove_watch :
    (i j : ℕ) (ws : List Watch)
    → named i ws ≡ 1
    → named j (remove_watch i ws) + (if i == j then 1 else 0) ≡ named j ws
named-remove_watch i j [] n = absurd (omega (arith, n))
named-remove_watch i j (w ∷ ws) n = elim (Bool-cases (w.wid == i)) [
  | inl e ↦ rw e (ground (arith, e))
  | inr e ↦ rw e (ground (arith, named-remove_watch i j ws (ground (arith, n, e)), e))
]

pub shown-remove_watch :
    (i j : ℕ) (ws : List Watch)
    → named i ws ≡ 1
    → shown i ws ≡ 0
    → shown j (remove_watch i ws) ≡ shown j ws
shown-remove_watch i j [] n h = absurd (omega (arith, n))
shown-remove_watch i j (w ∷ ws) n h = elim (Bool-cases (w.wid == i)) [
  | inl e ↦ rw e (ground (arith, e, h))
  | inr e ↦
      rw e (ground (arith, shown-remove_watch i j ws (ground (arith, n, e)) (omega (arith, h))))
]

module _ (p : Proto) where
  -- Whether a request names a watch.
  abbrev pub about : ℕ → Request → ℕ
  about i r = if names_watch (p.kind r.req_type) && (r.u == i) then 1 else 0

  -- How many requests do.
  abbrev pub asked : ℕ → List Request → ℕ
  asked i [] = 0
  asked i (r ∷ rs) = about i r + asked i rs

  pub asked-remove_request :
      (rid : ℕ) (r : Request) (rs : List Request)
      → find_request rid rs ≡ some r
      → (i : ℕ) → asked i (remove_request rid rs) + about i r ≡ asked i rs
  asked-remove_request rid r [] f i = cc
  asked-remove_request rid r (q ∷ rs) f i = elim (Bool-cases (q.rid == rid)) [
    | inl e ↦
        let found : find_request rid (q ∷ rs) ≡ some q = rw e refl in
        let same : q ≡ r = cc (found, f) in rw e (omega (arith, ap (about i) same))
    | inr e ↦
        let found : find_request rid (q ∷ rs) ≡ find_request rid rs = rw e refl in
        rw e (omega (arith, asked-remove_request rid r rs (sym found ∙ f) i))
  ]

  pub length-remove_request :
      (rid : ℕ) (r : Request) (rs : List Request)
      → find_request rid rs ≡ some r
      → length (remove_request rid rs) + 1 ≡ length rs
  length-remove_request rid r [] f = cc
  length-remove_request rid r (q ∷ rs) f = elim (Bool-cases (q.rid == rid)) [
    | inl e ↦ rw e (omega arith)
    | inr e ↦
        let found : find_request rid (q ∷ rs) ≡ find_request rid rs = rw e refl in
        rw e (omega (arith, length-remove_request rid r rs (sym found ∙ f)))
  ]

  -- The device's books: `outstanding_requests` is how many requests are under way; no two watches have the same
  -- number, and none one that is yet to come; and each watch is visible or has one request about it under way, never
  -- both, while no request is about a watch that is gone.
  pub record IsDev (d : Dev) : Type 0 where
    pub count : d.outstanding_requests ≡ length d.requests
    pub once : (i : ℕ) → named i d.watches ≤ 1
    pub tie : (i : ℕ) → shown i d.watches + asked i d.requests ≡ named i d.watches
    pub fresh : (i : ℕ) → d.calls ≤ i → named i d.watches ≡ 0
