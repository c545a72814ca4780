-- ===== src/Daemon/Startup/Main/Port.antt =====
-- The search for a port of main.
use wslg.Common.{subst, ℕ, zero, suc, ◌+◌, ◌≤◌, ◌<◌, ◌≡◌, ◌↔◌, ◌⊎◌, inl, inr, refl, ap, ◌∙◌, arith}
use wslg.Daemon.Startup.Host.{Host, Bound, bound, in_use, other_error}
use wslg.Daemon.Startup.Steps.{next, thrown}
use wslg.Daemon.Startup.Helpers.{find_port_from, find_port}

module _ (h : Host) (fd : ℕ) where
  open h.sys use {World}

  -- The ports from the first number on, up to but without the second, are tried one after the other,
  -- and each is in use.
  pub data AllInUse : ℕ → World → ℕ → World → Type 0 where
    no_port : {p : ℕ} {w : World} → AllInUse p w p w
    port_in_use :
        {p q : ℕ} {w v w' : World}
        → h.bind fd p w ≡ (v, in_use)
        → AllInUse (p + 1) v q w'
        → AllInUse p w q w'

  -- The search stops at a port that is free, or after the last one.
  abbrev Found : ℕ → ℕ → ℕ → World → World → Type 0
  Found rounds port p w w' =
      ((v : World) × AllInUse port w p v × (p < port + rounds) × (h.bind fd p v ≡ (w', bound)))
      ⊎ (AllInUse port w (port + rounds) w' × (p + 1 ≡ port + rounds))

  round :
      (rounds port p : ℕ) (w v w' : World)
      → h.bind fd port w ≡ (v, in_use)
      → Found rounds (port + 1) p v w'
      → Found (suc rounds) port p w w'
  round rounds port p w v w' e (inl (u, used, within, free)) =
      inl (u, port_in_use e used, omega arith, free)
  round rounds port p w v w' e (inr (used, last)) =
      let same : port + 1 + rounds ≡ port + suc rounds = omega arith in
      inr (port_in_use e (subst (λ (q : ℕ). AllInUse (port + 1) v q w') same used), omega arith)

  search :
      (rounds port last p : ℕ) (w w' : World)
      → last + 1 ≡ port
      → find_port_from h fd rounds port last w ≡ next p w'
      → Found rounds port p w w'
  unfolding find_port_from
  search zero port last p w w' e found =
      let same : last ≡ p = cc in
      let w_same : w ≡ w' = cc in
      let at_end : port ≡ port + 0 = omega arith in
      inr (
        subst (λ (q : ℕ). AllInUse port w q w') at_end
            (subst (λ u. AllInUse port w port u) w_same no_port),
        omega (arith, e, same),
      )
  search (suc rounds) port last p w w' e found =
      go (λ v f. search rounds (port + 1) port p v w' refl f) (h.bind fd port w) refl found
    where
      go :
          ((v : World)
            → find_port_from h fd rounds (port + 1) port v ≡ next p w'
            → Found rounds (port + 1) p v w')
          → (r : World × Bound) → h.bind fd port w ≡ r
          → (elim r.1 [
            | bound ↦ next port r.0
            | in_use ↦ find_port_from h fd rounds (port + 1) port r.0
            | other_error error ↦ thrown error r.0
          ])
            ≡ next p w'
          → Found (suc rounds) port p w w'
      go rest (v, bound) q found =
          let same : port ≡ p = cc in
          let w_same : v ≡ w' = cc in
          inl (
            w,
            subst (λ (x : ℕ). AllInUse port w x w) same no_port,
            omega (arith, same),
            subst (λ (x : ℕ). h.bind fd x w ≡ (w', bound)) same
                (subst (λ u. h.bind fd port w ≡ (u, bound)) w_same q),
          )
      go rest (v, in_use) q found = round rounds port p w v w' q (rest v found)
      go rest (v, other_error error) q found = cc

  in_order : {p q : ℕ} {w w' : World} → AllInUse p w q w' → p ≤ q
  in_order {p} no_port = omega arith
  in_order {p} {q} (port_in_use e rest) = omega (arith, in_order rest)

  free_step :
      (rounds port last : ℕ) (w w' : World)
      → h.bind fd port w ≡ (w', bound)
      → find_port_from h fd (suc rounds) port last w ≡ next port w'
  unfolding find_port_from
  free_step rounds port last w w' free = ground arith

  busy_step :
      (rounds port last : ℕ) (w v : World)
      → h.bind fd port w ≡ (v, in_use)
      → find_port_from h fd (suc rounds) port last w ≡ find_port_from h fd rounds (port + 1) port v
  unfolding find_port_from
  busy_step rounds port last w v busy = ground arith

  stops_at :
      (rounds port last p : ℕ) (w v w' : World)
      → AllInUse port w p v
      → p < port + rounds
      → h.bind fd p v ≡ (w', bound)
      → find_port_from h fd rounds port last w ≡ next p w'
  unfolding find_port_from
  stops_at zero port last p w v w' used within free = absurd (omega (arith, in_order used))
  stops_at (suc rounds) port last p w v w' no_port within free =
      free_step rounds port last w w' free
  stops_at (suc rounds) port last p w v w' (port_in_use e rest) within free =
      busy_step rounds port last w _ e
      ∙ stops_at rounds (port + 1) port p _ v w' rest (omega arith) free

  goes_through :
      (rounds port last p q : ℕ) (w w' : World)
      → last + 1 ≡ port
      → AllInUse port w q w'
      → q ≡ port + rounds
      → p + 1 ≡ q
      → find_port_from h fd rounds port last w ≡ next p w'
  unfolding find_port_from
  goes_through zero port last p q w w' e no_port all at_last =
      let same : last ≡ p = omega arith in ap (λ (x : ℕ). next x w) same
  goes_through zero port last p q w w' e (port_in_use busy rest) all at_last =
      absurd (omega (arith, in_order rest))
  goes_through (suc rounds) port last p q w w' e no_port all at_last = absurd (omega arith)
  goes_through (suc rounds) port last p q w w' e (port_in_use busy rest) all at_last =
      busy_step rounds port last w _ busy
      ∙ goes_through rounds (port + 1) port p q _ w' refl rest (omega arith) at_last

  -- The search for a port goes on with a port exactly when it is the first from 1 on that is not in
  -- use, below 1024, and is bound now; or it is 1023 and every port from 1 to 1023 is in use, so
  -- that nothing is bound.
  pub find_port-next :
      (p : ℕ) (w w' : World)
      → (find_port h fd w ≡ next p w') ↔ (
          ((v : World) × AllInUse 1 w p v × (p < 1024) × (h.bind fd p v ≡ (w', bound)))
          ⊎ (AllInUse 1 w 1024 w' × (p ≡ 1023)))
  unfolding find_port
  find_port-next p w w' = (
    λ found. elim (search 1023 1 0 p w w' refl found) [
      | inl (v, used, within, free) ↦ inl (v, used, within, free)
      | inr (used, last) ↦ inr (used, omega arith)
    ],
    λ found. elim found [
      | inl (v, used, within, free) ↦ stops_at 1023 1 0 p w v w' used within free
      | inr (used, last) ↦ goes_through 1023 1 0 p 1024 w w' refl used refl (omega arith)
    ],
  )

  -- So the port is from 1 to 1023, free or not.
  pub find_port_bounds :
      (p : ℕ) (w w' : World) → find_port h fd w ≡ next p w' → (1 ≤ p) × (p < 1024)
  find_port_bounds p w w' found = elim ((find_port-next p w w').0 found) [
    | inl (v, used, within, free) ↦ (in_order used, within)
    | inr (used, last) ↦ (omega arith, omega arith)
  ]
