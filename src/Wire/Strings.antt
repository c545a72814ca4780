-- ===== src/Wire/Strings.antt =====
-- The strings of a message as texts: what RAIL_UNICODE_STRING holds on one side and what a C string
-- function sees in the WCHAR array on the other.
use wslg.Common.{ℕ, ◌*◌, ◌≤◌, ◌<◌, ◌≡◌, refl, sym, ap, ◌∙◌, List, append-nil}
use wslg.Common.{Bool, true, arith, length, take, take-append, All}
use wslg.Server.Pdu.{RailString}
use wslg.Client.Memory.{text, wide}
use wslg.Client.Memory.Text.{IsUnit, length-wide, text-terminate-memcpy}
use wslg.Client.Pdu.{WString}
use wslg.Wire.Reads.{stored, IsReadable}

-- The string that stands for a text: its UTF-16 code units, little endian, with no terminator.
unfoldable pub rail_string : List ℕ → RailString
rail_string t = record { len = 2 * length t; string = wide t }

-- A text that the client accepts: no zero in it, 255 units at most, not empty where required.
pub record IsText (required : Bool) (t : List ℕ) : Type 0 where
  pub units : All IsUnit t
  pub short : length t ≤ 255
  pub present : required ≡ true → 0 < length t

pub rail_string-IsReadable :
    {required : Bool} {t : List ℕ} → IsText required t → IsReadable required (rail_string t)
unfolding rail_string
rail_string-IsReadable {required} {t} h = record {
  short = omega (arith, h.short);
  in_buffer = omega (arith, length-wide t);
  present = λ e. omega (arith, h.present e);
}

take-whole : (n : ℕ) (xs : List ℕ) → length xs ≡ n → take n xs ≡ xs
take-whole n xs h = ap (take n) (sym (append-nil xs)) ∙ take-append n xs _ h

-- A text of nonzero UTF-16 units, not empty, that the server holds as a string is what the C string
-- functions of the client see in the array after it was stored there, whatever the array held
-- before, and the stored length is twice the number of units.
pub text-stored :
    (s : WString) (t : List ℕ)
    → All IsUnit t
    → 0 < length t
    → (text (stored s (rail_string t)).chars ≡ t) × ((stored s (rail_string t)).len ≡ 2 * length t)
unfolding stored rail_string
text-stored s t units some_there =
    let whole = take-whole (2 * length t) (wide t) (length-wide t) in
    let copied =
      take-whole (2 * length t) (take (2 * length t) (wide t)) (rw whole (length-wide t)) in
    let read =
      text-terminate-memcpy s.chars (take (2 * length t) (wide t)) t (2 * length t) refl
        (copied ∙ whole) units in
    ground arith
