-- ===== src/Client/Callback/Steps.antt =====
-- The steps of a handler: each works on the object and the world, and either goes on with a value or
-- returns an error from the handler, with the object and the world as they are then.
use wslg.Common.{ℕ, ◌≡◌, refl, List, Bool, Option, none, some, if◌then◌else◌, ◌==◌}
use wslg.Client.Hresult.{Hresult, e_fail, is_failed}
use wslg.Client.Windows.{Windows}
use wslg.Client.Callback.{State}

pub data Result (W : Type 0) (A : Type 0) : Type 0 where
  next : A → State → W → Result W A
  return_error : Hresult → State → W → Result W A

abbrev pub Step : Type 0 → Type 0 → Type 0
Step W A = State → W → Result W A

module _ {W : Type 0} where
  infixl 5 ◌>>=◌
  unfoldable pub ◌>>=◌ : {A B : Type 0} → Step W A → (A → Step W B) → Step W B
  ◌>>=◌ m k st w = elim (m st w) [
    | next a st' w' ↦ k a st' w'
    | return_error hr st' w' ↦ return_error hr st' w'
  ]

  infixl 5 ◌>>◌
  abbrev pub ◌>>◌ : {A B : Type 0} → Step W A → Step W B → Step W B
  m >> k = m >>= (λ a. k)

  unfoldable pub pure : {A : Type 0} → A → Step W A
  pure a st w = next a st w

  unfoldable pub get : Step W State
  get st w = next st st w

  unfoldable pub modify : (State → State) → Step W (Unit {0})
  modify f st w = next tt (f st) w

  unfoldable pub change_world : (W → W) → Step W (Unit {0})
  change_world f st w = next tt st (f w)

  unfoldable pub fail : {A : Type 0} → Hresult → Step W A
  fail hr st w = return_error hr st w

  -- `if (bad) { return E_FAIL; }`
  unfoldable pub fail_if : Bool → Step W (Unit {0})
  fail_if bad st w = if bad then return_error e_fail st w else next tt st w

  -- `if (FAILED(hr)) { return hr; }`
  unfoldable pub check : Hresult → Step W (Unit {0})
  check hr st w = if is_failed hr then return_error hr st w else next tt st w

  -- `if (f(dst, …) != 0) { return E_FAIL; }`
  unfoldable pub or_fail : {A : Type 0} → Option A → Step W A
  or_fail none st w = return_error e_fail st w
  or_fail (some a) st w = next a st w

  -- `if (test) { … }`
  unfoldable pub when : Bool → Step W (Unit {0}) → Step W (Unit {0})
  when test m st w = if test then m st w else next tt st w

-- `if (!CreateDirectoryW(path, NULL)) { if (ERROR_ALREADY_EXISTS != GetLastError()) return E_FAIL; }`
module _ (win : Windows) where
  unfoldable pub create_directory : List ℕ → Step win.World (Unit {0})
  create_directory path st w =
      let (w', error) = win.create_directory path w in
      elim error [
        | none ↦ next tt st w'
        | some e ↦ if e == 183 then next tt st w' else return_error e_fail st w'
      ]

-- A step that goes on.
pub next_then :
    {W A B : Type 0} (st st' : State) (w w' : W) (a : A) (m : Step W A) (k : A → Step W B)
    → m st w ≡ next a st' w'
    → (m >>= k) st w ≡ k a st' w'
unfolding ◌>>=◌
next_then st st' w w' a m k e = rw (◌>>=◌, e) refl
