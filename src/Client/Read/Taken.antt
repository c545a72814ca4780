-- ===== src/Client/Read/Taken.antt =====
-- The caps reader takes no more than the buffer holds, whatever the struct held before.
use wslg.Common.{ℕ, ◌≤◌, List, Bool, true, arith, length, length-drop, leb, Bool-cases, inl, inr}
use wslg.Client.Pdu.{WString, ServerCaps}
use wslg.Client.Reader.{Outcome, done, error_read, read_chars, read_string, read_string_at}
use wslg.Client.Read.{read_app_list_server_caps}
use wslg.Client.Read.Within.{Within, Keeps, Keeps-then, Keeps-uint16, run_within}

abbrev Anything : {P : Type 0} → P → Type 0
Anything p = Unit {0}

Keeps-chars_any : (required : Bool) → Keeps Anything (read_chars required)
unfolding read_chars
Keeps-chars_any required = record { apply = λ s b h. ground (arith, length-drop s.len b) }

Keeps-string_any : (required : Bool) → Keeps Anything (read_string required)
unfolding read_string
Keeps-string_any required =
    Keeps-then Anything (Keeps-uint16 Anything (λ v s. record s { len = v }) (λ v s h. h))
      (Keeps-chars_any required)

module _ {P : Type 0} where
  set-Within :
      (set : WString → P → P) (p : P) (b : List ℕ) (r : Outcome WString)
      → Within Anything b r
      → Within Anything b
          (elim r [ done s rest ↦ done (set s p) rest | error_read s ↦ error_read (set s p) ])
  set-Within set p b (done s rest) h = h
  set-Within set p b (error_read s) h = tt

  Keeps-at_any :
      (get : P → WString) (set : WString → P → P) (required : Bool)
      → Keeps Anything (read_string_at get set required)
  unfolding read_string_at
  Keeps-at_any get set required = record {
    apply = λ p b h.
        set-Within set p b (read_string required (get p) b)
          ((Keeps-string_any required).apply (get p) b tt);
  }

pub read_app_list_server_caps_taken :
    (c : ServerCaps) (b : List ℕ) → length (read_app_list_server_caps c b).2 ≤ length b
unfolding read_app_list_server_caps
read_app_list_server_caps_taken c b =
    (run_within Anything c b
      (Keeps-then _ (Keeps-uint16 _ (λ v c. record c { version = v }) (λ v c h. h)) (
        Keeps-then _
          (Keeps-at_any (λ c. c.app_list_provider_name)
            (λ s c. record c { app_list_provider_name = s }) true)
          (record {
            apply = λ c b h. elim (Bool-cases (leb 4 c.version)) [
              | inl newer ↦ rw newer (
                  (Keeps-at_any (λ c. c.app_list_provider_unique_id)
                      (λ s c. record c { app_list_provider_unique_id = s }) true).apply
                    c b h)
              | inr older ↦ rw older (tt, omega arith)
            ];
          })))
      tt).1
