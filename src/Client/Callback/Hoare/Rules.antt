-- ===== src/Client/Callback/Hoare/Rules.antt =====
-- What each step does to a property `P` of the object and the world, where `P` is enough for `E`.
use wslg.Common.{
  ℕ, ◌≡◌, refl, List, Bool, true, false, Option, none, some, if◌then◌else◌, ◌==◌, Bool-cases, inl,
  inr,
}
use wslg.Client.Hresult.{Hresult, is_failed}
use wslg.Client.Windows.{Windows}
use wslg.Client.Callback.{State}
use wslg.Client.Callback.Steps.{
  Step, Result, next, return_error, get, modify, fail_if, check, or_fail, when, create_directory,
}
use wslg.Client.Callback.Hoare.{Hoare, Post}

module _ {W : Type 0} {E P : State → W → Type 0}
    (weak : (st : State) (w : W) → P st w → E st w) where
  pub Hoare-fail_if :
      (bad : Bool) → Hoare {W = W} E P (fail_if bad) (λ t st w. (bad ≡ false) × P st w)
  unfolding fail_if
  Hoare-fail_if true = record { apply = λ st w h. weak st w h }
  Hoare-fail_if false = record { apply = λ st w h. (refl, h) }

  pub Hoare-or_fail :
      {A : Type 0} (o : Option A) → Hoare {W = W} E P (or_fail o) (λ a st w. (o ≡ some a) × P st w)
  unfolding or_fail
  Hoare-or_fail none = record { apply = λ st w h. weak st w h }
  Hoare-or_fail (some a) = record { apply = λ st w h. (refl, h) }

  -- The same of a text that the world gives.
  pub Hoare-from_world :
      {A : Type 0} (f : W → Option A)
      → Hoare E P (λ st w. or_fail (f w) st w) (λ a st w. ((v : W) × (f v ≡ some a)) × P st w)
  unfolding or_fail
  Hoare-from_world {A} f = record { apply = λ st w h. go st w (f w) refl h }
    where
      go :
          (st : State) (w : W) (o : Option A)
          → f w ≡ o
          → P st w
          → Post E (λ a st w. ((v : W) × (f v ≡ some a)) × P st w) (or_fail o st w)
      go st w none e h = weak st w h
      go st w (some a) e h = ((w, e), h)

  pub Hoare-check : (f : W → Hresult) → Hoare E P (λ st w. check (f w) st w) (λ t st w. P st w)
  unfolding check
  Hoare-check f = record {
    apply = λ st w h. elim (Bool-cases (is_failed (f w))) [
      | inl e ↦ rw e (weak st w h)
      | inr e ↦ rw e h
    ];
  }

module _ {W : Type 0} {E P : State → W → Type 0} where
  pub Hoare-modify :
      {Q : State → W → Type 0} (f : State → State)
      → ((st : State) (w : W) → P st w → Q (f st) w)
      → Hoare {W = W} E P (modify f) (λ t st w. Q st w)
  unfolding modify
  Hoare-modify f h = record { apply = λ st w p. h st w p }

  pub Hoare-get :
      (F : State → Type 0)
      → ((st : State) (w : W) → P st w → F st)
      → Hoare {W = W} E P get (λ a st w. F a × P st w)
  unfolding get
  Hoare-get F known = record { apply = λ st w p. (known st w p, p) }

  pub Hoare-when :
      (test : Bool) (m : Step W (Unit {0}))
      → Hoare E P m (λ t st w. P st w)
      → Hoare E P (when test m) (λ t st w. P st w)
  unfolding when
  Hoare-when true m h = record { apply = λ st w p. h.apply st w p }
  Hoare-when false m h = record { apply = λ st w p. p }

-- A directory, where making it keeps `P`.
pub Hoare-create_directory :
    (win : Windows) {E P : State → win.World → Type 0} (path : List ℕ)
    → ((st : State) (w : win.World) → P st w → P st (win.create_directory path w).0)
    → ((st : State) (w : win.World) → P st w → E st w)
    → Hoare E P (create_directory win path) (λ t st w. P st w)
unfolding create_directory
Hoare-create_directory win {E} {P} path creates weak = record {
  apply = λ st w h.
      go st (win.create_directory path w).0 (win.create_directory path w).1 (creates st w h);
}
  where
    go :
        (st : State) (w : win.World) (error : Option ℕ)
        → P st w
        → Post E
            (λ t st w. P st w)
            (elim error [
              | none ↦ next tt st w
              | some e ↦ if e == 183 then next tt st w else return_error Hresult.e_fail st w
            ])
    go st w none h = h
    go st w (some e) h = elim (Bool-cases (e == 183)) [
      | inl there ↦ rw there h
      | inr other ↦ rw other (weak st w h)
    ]

-- A fact about values, and a property of the object.
pub Hoare-given :
    {W A : Type 0} {E P : State → W → Type 0} {F : Type 0} {m : Step W A}
    {Q : A → State → W → Type 0}
    → (F → Hoare E P m Q)
    → Hoare E (λ st w. F × P st w) m Q
Hoare-given h = record { apply = λ st w f. (h f.0).apply st w f.1 }

pub Hoare-weaken :
    {W A : Type 0} {E P P' : State → W → Type 0} {m : Step W A} {Q Q' : A → State → W → Type 0}
    → ((st : State) (w : W) → P' st w → P st w)
    → ((a : A) (st : State) (w : W) → Q a st w → Q' a st w)
    → Hoare E P m Q
    → Hoare E P' m Q'
Hoare-weaken {W} {A} {E} {m} {Q} {Q'} pre post h = record {
  apply = λ st w p. go (m st w) (h.apply st w (pre st w p));
}
  where
    go : (r : Result W A) → Post E Q r → Post E Q' r
    go (next a st w) q = post a st w q
    go (return_error hr st w) e = e
