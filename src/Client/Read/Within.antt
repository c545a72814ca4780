-- ===== src/Client/Read/Within.antt =====
-- Readers that stay within the buffer that they read and keep a property of the struct, step by step.
use wslg.Common.{ℕ, ◌≤◌, ◌≡◌, List, [], ◌∷◌, Bool, arith}
use wslg.Common.{length, length-drop}
use wslg.Common.{has_flag, Bool-cases, inl, inr}
use wslg.Protocol.{max_string_size}
use wslg.Client.Memory.{memcpy}
use wslg.Client.Memory.Text.{length-memcpy, length-terminate}
use wslg.Client.Hresult.{Hresult, s_ok, e_fail}
use wslg.Client.Pdu.{WString}
use wslg.Client.Reader.{
  Reader, Outcome, done, error_read, ◌>>◌, read_uint16, read_uint32, read_chars, read_string,
  read_string_at, on_flag, check_required_flags,
}
use wslg.Client.Read.{run}

-- Whether it fails or not, the struct satisfies `Q`, and no more than the buffer is read.
abbrev pub Within : {P : Type 0} → (P → Type 0) → List ℕ → Outcome P → Type 0
Within Q b (done p rest) = Q p × (length rest ≤ length b)
Within Q b (error_read p) = Q p

pub record Keeps {P : Type 0} (Q : P → Type 0) (m : Reader P) : Type 0 where
  pub apply : (p : P) (b : List ℕ) → Q p → Within Q b (m p b)

-- A field's array has its 512 bytes.
abbrev pub IsArray : WString → Type 0
IsArray s = length s.chars ≡ max_string_size

module _ {P : Type 0} (Q : P → Type 0) where
  then-Within :
      (k : Reader P) (b : List ℕ) (r : Outcome P)
      → Keeps Q k
      → Within Q b r
      → Within Q b (elim r [ done p rest ↦ k p rest | error_read p ↦ error_read p ])
  then-Within k b (done p rest) hk h = widen (k p rest) (hk.apply p rest h.0) h.1
    where
      widen : (r : Outcome P) → Within Q rest r → length rest ≤ length b → Within Q b r
      widen (done p' rest') h' le = (h'.0, omega arith)
      widen (error_read p') h' le = h'
  then-Within k b (error_read p) hk h = h

  pub Keeps-then : {m k : Reader P} → Keeps Q m → Keeps Q k → Keeps Q (m >> k)
  Keeps-then {m} {k} hm hk = record { apply = λ p b h. then-Within k b (m p b) hk (hm.apply p b h) }

  pub Keeps-uint16 :
      (set : ℕ → P → P) → ((v : ℕ) (p : P) → Q p → Q (set v p)) → Keeps Q (read_uint16 set)
  unfolding read_uint16
  Keeps-uint16 set keep = record { apply = go }
    where
      go : (p : P) (b : List ℕ) → Q p → Within Q b (read_uint16 set p b)
      go p [] h = h
      go p (a ∷ []) h = h
      go p (a ∷ b ∷ rest) h = (keep _ p h, omega arith)

  pub Keeps-uint32 :
      (set : ℕ → P → P) → ((v : ℕ) (p : P) → Q p → Q (set v p)) → Keeps Q (read_uint32 set)
  unfolding read_uint32
  Keeps-uint32 set keep = record { apply = go }
    where
      go : (p : P) (b : List ℕ) → Q p → Within Q b (read_uint32 set p b)
      go p [] h = h
      go p (a ∷ []) h = h
      go p (a ∷ b ∷ []) h = h
      go p (a ∷ b ∷ c ∷ []) h = h
      go p (a ∷ b ∷ c ∷ d ∷ rest) h = (keep _ p h, omega arith)

  pub Keeps-check : (flags : P → ℕ) (required : ℕ) → Keeps Q (check_required_flags flags required)
  unfolding check_required_flags
  Keeps-check flags required = record { apply = λ p b h. ground arith }

  pub Keeps-on_flag :
      (flags : P → ℕ) (field : ℕ) {m : Reader P} → Keeps Q m → Keeps Q (on_flag flags field m)
  unfolding on_flag
  Keeps-on_flag flags field hm = record {
    apply = λ p b h. elim (Bool-cases (has_flag (flags p) field)) [
      | inl on ↦ rw on (hm.apply p b h)
      | inr off ↦ rw off (h, omega arith)
    ];
  }

Keeps-chars : (required : Bool) → Keeps IsArray (read_chars required)
unfolding read_chars
Keeps-chars required = record {
  apply = λ s b h. ground (
    arith,
    length-memcpy s.chars b s.len,
    length-terminate s.len (memcpy s.chars b s.len),
    length-drop s.len b,
  );
}

pub Keeps-string : (required : Bool) → Keeps IsArray (read_string required)
unfolding read_string
Keeps-string required =
    Keeps-then IsArray (Keeps-uint16 IsArray (λ v s. record s { len = v }) (λ v s h. h))
      (Keeps-chars required)

module _ {P : Type 0} (Q : P → Type 0) where
  at-Within :
      (set : WString → P → P) (p : P) (b : List ℕ) (r : Outcome WString)
      → ((s : WString) → IsArray s → Q (set s p))
      → Within IsArray b r
      → Within Q b
          (elim r [ done s rest ↦ done (set s p) rest | error_read s ↦ error_read (set s p) ])
  at-Within set p b (done s rest) keep h = (keep s h.0, h.1)
  at-Within set p b (error_read s) keep h = keep s h

  pub Keeps-at :
      (get : P → WString) (set : WString → P → P) (required : Bool)
      → ((p : P) → Q p → IsArray (get p))
      → ((s : WString) (p : P) → IsArray s → Q p → Q (set s p))
      → Keeps Q (read_string_at get set required)
  unfolding read_string_at
  Keeps-at get set required has keep = record {
    apply = λ p b h.
        at-Within set p b (read_string required (get p) b) (λ s a. keep s p a h)
          ((Keeps-string required).apply (get p) b (has p h));
  }

  pub run_within :
      {m : Reader P} (p : P) (b : List ℕ)
      → Keeps Q m
      → Q p
      → Q (run m p b).1 × (length (run m p b).2 ≤ length b)
  run_within {m} p b hm h = go (m p b) (hm.apply p b h)
    where
      go :
          (r : Outcome P)
          → Within Q b r
          → let t : Hresult × P × List ℕ = elim r [
            | done p' rest ↦ (s_ok, p', rest)
            | error_read p' ↦ (e_fail, p', b)
          ] in
            Q t.1 × (length t.2 ≤ length b)
      go (done p' rest) w = w
      go (error_read p') w = (w, omega arith)
