-- ===== src/Daemon/Startup/Steps.antt =====
-- The steps of main: each goes on with a value, or ends main, by a `return` or by an exception that
-- CATCH_RETURN_ERRNO turns into errno and -1.
use wslg.Common.{ℕ, ◌≡◌, refl, Bool, Option, none, some}
use wslg.Common.{if◌then◌else◌}
use wslg.Daemon.Startup.Host.{Host, Call}

pub data Result (W : Type 0) (A : Type 0) : Type 0 where
  next : A → W → Result W A
  returned : ℕ → W → Result W A
  thrown : ℕ → W → Result W A

abbrev pub Step : Type 0 → Type 0 → Type 0
Step W A = W → Result W A

module _ {W : Type 0} where
  infixl 5 ◌>>=◌
  unfoldable pub ◌>>=◌ : {A B : Type 0} → Step W A → (A → Step W B) → Step W B
  ◌>>=◌ m k w = elim (m w) [
    | next a w' ↦ k a w'
    | returned code w' ↦ returned code w'
    | thrown error w' ↦ thrown error w'
  ]

  infixl 5 ◌>>◌
  abbrev pub ◌>>◌ : {A B : Type 0} → Step W A → Step W B → Step W B
  m >> k = m >>= (λ a. k)

  unfoldable pub pure : {A : Type 0} → A → Step W A
  pure a w = next a w

  unfoldable pub fails_with : {A : Type 0} → ℕ → Step W A
  fails_with error w = thrown error w

  unfoldable pub return_code : {A : Type 0} → ℕ → Step W A
  return_code code w = returned code w

  unfoldable pub change : (W → W) → Step W (Unit {0})
  change f w = next tt (f w)

  unfoldable pub gets : {A : Type 0} → (W → A) → Step W A
  gets f w = next (f w) w

  -- `if (test) { … }`
  unfoldable pub when : Bool → Step W (Unit {0}) → Step W (Unit {0})
  when test m w = if test then m w else next tt w

  -- A step that went on: what it gave, and how the rest went on from there.
  pub >>=-next :
      {A B : Type 0} (m : Step W A) (k : A → Step W B) (w w' : W) (b : B)
      → (m >>= k) w ≡ next b w'
      → (a : A) × (v : W) × (m w ≡ next a v) × (k a v ≡ next b w')
  unfolding ◌>>=◌
  >>=-next {A} {B} m k w w' b e = go (m w) refl e
    where
      go :
          (r : Result W A)
          → m w ≡ r
          → (elim r [
            | next a v ↦ k a v
            | returned code v ↦ returned code v
            | thrown error v ↦ thrown error v
          ])
            ≡ next b w'
          → (a : A) × (v : W) × (m w ≡ next a v) × (k a v ≡ next b w')
      go (next a v) q e = (a, v, q, e)
      go (returned code v) q e = cc
      go (thrown error v) q e = cc

module _ (h : Host) where
  open h.sys use {World}

  -- A call that may fail, and THROW_LAST_ERROR_IF of its failure.
  unfoldable pub or_throw : {A : Type 0} → (World → World × Option A) → Step World A
  or_throw f w = let (w', r) = f w in elim r [ none ↦ thrown (h.errno w') w' | some a ↦ next a w' ]

  unfoldable pub call_or_throw : Call → Step World (Unit {0})
  call_or_throw c w =
      let (w', done) = h.call c w in if done then next tt w' else thrown (h.errno w') w'

  -- A call whose failure the code looks at itself.
  unfoldable pub try_call : Call → Step World Bool
  try_call c w = let (w', done) = h.call c w in next done w'
