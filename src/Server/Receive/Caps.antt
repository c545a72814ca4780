-- ===== src/Server/Receive/Caps.antt =====
-- A caps message of the client, as the server takes it off a stream.
use wslg.Common.{ℕ, ◌+◌, ◌≤◌, ◌≡◌, refl, sym, ap, ◌∙◌, List, ◌++◌, Bool-cases, inl, inr, arith}
use wslg.Common.{
  le→ltb, ◌==◌, length, length-append, take, drop, take-append, drop-append, drop-drop, IsU16,
  IsU32,
}
use wslg.Common.{bytes_of_u16, bytes_of_u32, u16_of_bytes-of_u16, u32_of_bytes-of_u32}
use wslg.Protocol.{lang_size}
use wslg.Protocol.Cmdid
use wslg.Server.Input.{Input, InputLaws}
use wslg.Server.Receive.{read_header, call_client_caps, recv_caps_pdu, end_pdu, receive_pdu}

-- The bytes of a caps message whose header says `len`.
abbrev pub caps_bytes : ℕ → ℕ → List ℕ → List ℕ → List ℕ
caps_bytes len version language rest =
    bytes_of_u32 Cmdid.caps ++ (bytes_of_u32 len ++ (bytes_of_u16 version ++ (language ++ rest)))

module _ (i : Input) (laws : InputLaws i) where
  open i use {RStream}

  -- What is left to read.
  record At (s : RStream) (bytes : List ℕ) : Type 0 where
    left : drop (i.position s) (i.contents s) ≡ bytes

  -- `s'` is `s` after `n` bytes more.
  record Moved (s : RStream) (n : ℕ) (s' : RStream) : Type 0 where
    position : i.position s' ≡ i.position s + n
    contents : i.contents s' ≡ i.contents s

  At-after :
      (s s' : RStream) (n : ℕ) (b rest : List ℕ)
      → At s (b ++ rest)
      → length b ≡ n
      → Moved s n s'
      → At s' rest
  At-after s s' n b rest at size moved = record {
    left =
        rw (moved.position, moved.contents)
          (sym (drop-drop (i.position s) n (i.contents s))
            ∙ ap (drop n) at.left
            ∙ drop-append n b rest size);
  }

  module _ (s : RStream) (rest : List ℕ) where
    read_uint16-At :
        (v : ℕ)
        → IsU16 v
        → At s (bytes_of_u16 v ++ rest)
        → ((i.read_uint16 s).0 ≡ v)
          × Moved s 2 (i.read_uint16 s).1
          × At (i.read_uint16 s).1 rest
          × (2 ≤ i.remaining_length s)
    read_uint16-At v small at =
        let (value, position, contents) = laws.read_uint16_lem s _ _ rest at.left in
        let moved : Moved s 2 (i.read_uint16 s).1 = record {
          position = position;
          contents = contents;
        } in
        (
          value ∙ u16_of_bytes-of_u16 v small,
          moved,
          At-after s (i.read_uint16 s).1 2 (bytes_of_u16 v) rest at refl moved,
          omega (arith, laws.remaining_length_lem s, ap length at.left),
        )

    read_uint32-At :
        (v : ℕ)
        → IsU32 v
        → At s (bytes_of_u32 v ++ rest)
        → ((i.read_uint32 s).0 ≡ v) × Moved s 4 (i.read_uint32 s).1 × At (i.read_uint32 s).1 rest
    read_uint32-At v small at =
        let (value, position, contents) = laws.read_uint32_lem s _ _ _ _ rest at.left in
        let moved : Moved s 4 (i.read_uint32 s).1 = record {
          position = position;
          contents = contents;
        } in
        (
          value ∙ u32_of_bytes-of_u32 v small,
          moved,
          At-after s (i.read_uint32 s).1 4 (bytes_of_u32 v) rest at refl moved,
        )

    read-At :
        (b : List ℕ) (n : ℕ)
        → length b ≡ n
        → At s (b ++ rest)
        → ((i.read n s).0 ≡ b) × Moved s n (i.read n s).1 × (n ≤ i.remaining_length s)
    read-At b n size at =
        let there : length (drop (i.position s) (i.contents s)) ≡ n + length rest =
          ap length at.left ∙ omega (arith, length-append b rest, size) in
        let (value, position, contents) = laws.read_lem n s (omega (arith, there)) in
        (
          value ∙ ap (take n) at.left ∙ take-append n b rest size,
          record { position = position; contents = contents },
          omega (arith, there, laws.remaining_length_lem s),
        )

  end_pdu-Moved :
      (s s' : RStream) (n : ℕ)
      → i.contents s' ≡ i.contents s
      → Moved s n (end_pdu i (i.position s + n) s')
  unfolding end_pdu
  end_pdu-Moved s s' n same = elim (Bool-cases (i.position s' == i.position s + n)) [
    | inl there ↦ rw (end_pdu, there) (record { position = ground arith; contents = same })
    | inr other ↦
        let (position, contents) = laws.set_position_lem (i.position s + n) s' in
        rw (end_pdu, other) (record { position = position; contents = contents ∙ same })
  ]

  module _ (len version : ℕ) (language rest : List ℕ) (hl : IsU32 len) (hv : IsU16 version)
      (size : length language ≡ lang_size) where
    recv_caps_pdu-At :
        (s : RStream) (w : i.World)
        → At s (bytes_of_u16 version ++ (language ++ rest))
        → let (w', rc) =
            call_client_caps i (record { version = version; client_language_id = language }) w in
          (s' : RStream) × (recv_caps_pdu i s w ≡ (rc, s', w')) × (i.contents s' ≡ i.contents s)
    unfolding recv_caps_pdu
    recv_caps_pdu-At s w at =
        let (version_read, moved₁, at₁, there₁) = read_uint16-At s _ version hv at in
        let (language_read, moved₂, there₂) =
          read-At (i.read_uint16 s).1 rest language lang_size size at₁ in
        (
          (i.read lang_size (i.read_uint16 s).1).1,
          rw (recv_caps_pdu, le→ltb _ _ there₁, le→ltb _ _ there₂, version_read, language_read)
              refl,
          moved₂.contents ∙ moved₁.contents,
        )

    -- A whole message: the callback is called once, and the position is where the header says.
    pub receive_pdu_at :
        (s : RStream) (w : i.World)
        → drop (i.position s) (i.contents s) ≡ caps_bytes len version language rest
        → let (w', rc) =
            call_client_caps i (record { version = version; client_language_id = language }) w in
          (s' : RStream) × (receive_pdu i s w ≡ (rc, s', w'))
          × (i.position s' ≡ i.position s + len)
          × (i.contents s' ≡ i.contents s)
    unfolding receive_pdu read_header
    receive_pdu_at s w bytes =
        let (cmd_read, moved₁, at₁) =
          read_uint32-At s _ Cmdid.caps (omega arith) (record { left = bytes }) in
        let (len_read, moved₂, at₂) = read_uint32-At (i.read_uint32 s).1 _ len hl at₁ in
        let s₂ = (i.read_uint32 (i.read_uint32 s).1).1 in
        let (s₃, received, same) = recv_caps_pdu-At s₂ w at₂ in
        let kept : i.contents s₃ ≡ i.contents s = same ∙ moved₂.contents ∙ moved₁.contents in
        let end = end_pdu-Moved s s₃ len kept in
        let room : 8 ≤ i.remaining_length s =
          omega (arith, laws.remaining_length_lem s, ap length bytes) in
        (
          end_pdu i (i.position s + len) s₃,
          rw (receive_pdu, read_header, le→ltb _ _ room, cmd_read, len_read, received) refl,
          end.position,
          end.contents,
        )
