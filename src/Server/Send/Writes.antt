-- ===== src/Server/Send/Writes.antt =====
-- What a function that writes to an output stream appends, if the capacity suffices.
use wslg.Common.{ℕ, ◌+◌, ◌≤◌, ◌≡◌, refl, ap, ◌∙◌, List, [], ◌++◌, append_assoc, append-nil}
use wslg.Common.{Option, none, some, Bool, true, false, arith}
use wslg.Common.{if◌then◌else◌, has_flag, length, length-append, length-take, take}
use wslg.Common.{bytes_of_u16, bytes_of_u32, sym}
use wslg.Protocol.Field
use wslg.Server.WinPr.{WinPr, Laws}
use wslg.Server.Pdu.{RailString, IconDataPdu}
use wslg.Server.Send.{write_string, write_string_field, write_icon, write_icon_field}
use wslg.Server.Send.Payload.{string_bytes, field_bytes, icon_bytes, icon_field_bytes}

-- `f` appends `bytes` to a stream that has room for them, and keeps its capacity.
abbrev pub Writes : (w : WinPr) → (w.WStream → w.WStream) → List ℕ → Type 0
Writes w f bytes =
    (s : w.WStream)
    → length (w.stream_written s) + length bytes ≤ w.stream_capacity s
    → (w.stream_written (f s) ≡ w.stream_written s ++ bytes)
      × (w.stream_capacity (f s) ≡ w.stream_capacity s)

-- The field is not on, or its string is within its buffer.
abbrev pub IsStored : RailString → Type 0
IsStored x = x.len ≤ length x.string

module _ (w : WinPr) (laws : Laws w) where
  pub Writes-nil : Writes w (λ s. s) []
  Writes-nil s h = (sym (append-nil _), refl)

  pub Writes-then :
      (f g : w.WStream → w.WStream) (a b : List ℕ)
      → Writes w f a
      → Writes w g b
      → Writes w (λ s. g (f s)) (a ++ b)
  Writes-then f g a b hf hg s room =
      let total = length-append a b in
      let (ef, cf) = hf s (omega arith) in
      let longer = ap length ef ∙ length-append (w.stream_written s) a in
      let (eg, cg) = hg (f s) (omega arith) in
      (eg ∙ rw ef (append_assoc (w.stream_written s) a b), cg ∙ cf)

  pub Writes-uint16 : (v : ℕ) → Writes w (λ s. w.stream_write_uint16 s v) (bytes_of_u16 v)
  Writes-uint16 v s h = laws.stream_write_uint16_lem v s h

  pub Writes-uint32 : (v : ℕ) → Writes w (λ s. w.stream_write_uint32 s v) (bytes_of_u32 v)
  Writes-uint32 v s h = laws.stream_write_uint32_lem v s h

  pub Writes-bytes :
      (bytes : List ℕ) (n : ℕ)
      → n ≤ length bytes
      → Writes w (λ s. w.stream_write s bytes n) (take n bytes)
  Writes-bytes bytes n stored s h =
      laws.stream_write_lem bytes n s stored (omega (arith, length-take n bytes))

  pub Writes-string : (x : RailString) → IsStored x → Writes w (write_string w x) (string_bytes x)
  unfolding write_string
  Writes-string x stored =
      Writes-then _ _ _ _ (Writes-uint16 x.len) (Writes-bytes x.string x.len stored)

  Writes-if :
      (b : Bool) (f : w.WStream → w.WStream) (bytes : List ℕ)
      → (b ≡ true → Writes w f bytes)
      → Writes w (λ s. if b then f s else s) (if b then bytes else [])
  Writes-if true f bytes h = h refl
  Writes-if false f bytes h = Writes-nil

  pub Writes-string_field :
      (flags field : ℕ) (x : RailString)
      → (has_flag flags field ≡ true → IsStored x)
      → Writes w (write_string_field w flags field x) (field_bytes flags field x)
  unfolding write_string_field field_bytes
  Writes-string_field flags field x stored =
      Writes-if (has_flag flags field) (write_string w x) (string_bytes x)
        (λ on. Writes-string x (stored on))

  Writes-icon :
      (d : IconDataPdu)
      → d.icon_bits_length ≤ length d.icon_bits
      → Writes w (write_icon w d) (icon_bytes d)
  unfolding write_icon
  Writes-icon d stored = Writes-then _ _ _ _ (Writes-uint32 d.flags) (
      Writes-then _ _ _ _ (Writes-uint32 d.icon_width) (
        Writes-then _ _ _ _ (Writes-uint32 d.icon_height) (
          Writes-then _ _ _ _ (Writes-uint32 d.icon_stride) (
            Writes-then _ _ _ _ (Writes-uint32 d.icon_bpp) (
              Writes-then _ _ _ _ (Writes-uint32 d.icon_format) (
                Writes-then _ _ _ _ (Writes-uint32 d.icon_bits_length)
                  (Writes-bytes d.icon_bits d.icon_bits_length stored)))))))

  pub Writes-icon_field :
      (flags : ℕ) (icon : Option IconDataPdu)
      → (has_flag flags Field.icon ≡ true
          → (d : IconDataPdu) → icon ≡ some d
          → d.icon_bits_length ≤ length d.icon_bits)
      → Writes w (write_icon_field w flags icon) (icon_field_bytes flags icon)
  unfolding write_icon_field icon_field_bytes
  Writes-icon_field flags none stored = Writes-if (has_flag flags Field.icon) _ _ (λ on. Writes-nil)
  Writes-icon_field flags (some d) stored =
      Writes-if (has_flag flags Field.icon) (write_icon w d) (icon_bytes d)
        (λ on. Writes-icon d (stored on d refl))
