-- ===== src/Client/Callback/Hoare.antt =====
-- What holds after a step: `Q` of its value, the object and the world if it goes on, and `E` of the
-- object and the world if it returns an error.
pub mod Rules
use wslg.Client.Callback.{State}
use wslg.Client.Callback.Steps.{Result, Step, next, return_error, ◌>>=◌, pure}

abbrev pub Post :
    {W A : Type 0} → (State → W → Type 0) → (A → State → W → Type 0) → Result W A → Type 0
Post E Q (next a st w) = Q a st w
Post E Q (return_error hr st w) = E st w

pub record Hoare {W A : Type 0} (E P : State → W → Type 0) (m : Step W A)
    (Q : A → State → W → Type 0) : Type 0 where
  pub apply : (st : State) (w : W) → P st w → Post E Q (m st w)

module _ {W : Type 0} (E : State → W → Type 0) where
  pub Hoare-then :
      {A B : Type 0} {P : State → W → Type 0} {m : Step W A} {k : A → Step W B}
      {R : A → State → W → Type 0} {Q : B → State → W → Type 0}
      → Hoare E P m R
      → ((a : A) → Hoare E (R a) (k a) Q)
      → Hoare E P (m >>= k) Q
  unfolding ◌>>=◌
  Hoare-then {A} {B} {m} {k} {R} {Q} hm hk = record {
    apply = λ st w h. go (m st w) (hm.apply st w h);
  }
    where
      go :
          (r : Result W A)
          → Post E R r
          → Post E Q
              (elim r [ next a st w ↦ k a st w | return_error hr st w ↦ return_error hr st w ])
      go (next a st w) h = (hk a).apply st w h
      go (return_error hr st w) h = h

  pub Hoare-pure :
      {A : Type 0} {P : State → W → Type 0} (a : A) {Q : A → State → W → Type 0}
      → ((st : State) (w : W) → P st w → Q a st w)
      → Hoare E P (pure {W = W} a) Q
  unfolding pure
  Hoare-pure a h = record { apply = λ st w p. h st w p }

module _ {W A : Type 0} where
  nothing_holds : (r : Result W A) → Post (λ st w. Unit {0}) (λ a st w. Unit {0}) r
  nothing_holds (next a st w) = tt
  nothing_holds (return_error hr st w) = tt

  -- Of any step at all.
  pub Hoare-any :
      {m : Step W A} → Hoare (λ st w. Unit {0}) (λ st w. Unit {0}) m (λ a st w. Unit {0})
  Hoare-any {m} = record { apply = λ st w h. nothing_holds (m st w) }

-- A precondition that depends on neither the object nor the world is a hypothesis.
pub Hoare-fact :
    {W A : Type 0} {E : State → W → Type 0} {F : Type 0} {m : Step W A} {Q : A → State → W → Type 0}
    → (F → Hoare E (λ st w. Unit {0}) m Q)
    → Hoare E (λ st w. F) m Q
Hoare-fact h = record { apply = λ st w f. (h f).apply st w tt }
