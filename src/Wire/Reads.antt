-- ===== src/Wire/Reads.antt =====
-- What a reader of WSLDVCPlugin/rdpapplist.h takes from the front of a buffer.
use wslg.Common.{ℕ, zero, suc, ◌≤◌, ◌<◌, ◌≡◌, refl, sym, ap, ◌∙◌, List, [], ◌++◌, append_assoc}
use wslg.Common.{Bool, true, arith, append-nil, if◌then◌else◌, length, length-append, take}
use wslg.Common.{drop, take-append, drop-append, length-take, ◌==◌}
use wslg.Common.{has_flag, has_all_flags, Bool-cases, inl, inr, IsU16, IsU32}
use wslg.Common.{bytes_of_u16, bytes_of_u32, u16_of_bytes-of_u16, u32_of_bytes-of_u32}
use wslg.Server.Pdu.{RailString}
use wslg.Server.Send.Payload.{string_bytes, field_bytes}
use wslg.Client.Memory.{memcpy, terminate}
use wslg.Client.Pdu.{WString}
use wslg.Client.Hresult.{s_ok}
use wslg.Client.Read.{run}
use wslg.Client.Reader.{
  Reader, done, ◌>>◌, read_uint16, read_uint32, read_chars, read_string, read_string_at, on_flag,
  check_required_flags,
}

-- The reader takes just `bytes`, whatever follows them, and turns the struct `p` into `p'`.
pub record Reads {P : Type 0} (m : Reader P) (p : P) (bytes : List ℕ) (p' : P) : Type 0 where
  pub apply : (rest : List ℕ) → m p (bytes ++ rest) ≡ done p' rest

pub Reads-then :
    {P : Type 0} {m k : Reader P} {p p' p'' : P} {a b : List ℕ}
    → Reads m p a p'
    → Reads k p' b p''
    → Reads (m >> k) p (a ++ b) p''
Reads-then {m} {a} {b} hm hk = record {
  apply = λ rest. rw (append_assoc a b rest, ◌>>◌, hm.apply (b ++ rest)) (hk.apply rest);
}

pub Reads-uint16 :
    {P : Type 0} (set : ℕ → P → P) (p : P) (v : ℕ)
    → IsU16 v
    → Reads (read_uint16 set) p (bytes_of_u16 v) (set v p)
unfolding read_uint16
Reads-uint16 set p v h = record { apply = λ rest. rw (u16_of_bytes-of_u16 v h) }

pub Reads-uint32 :
    {P : Type 0} (set : ℕ → P → P) (p : P) (v : ℕ)
    → IsU32 v
    → Reads (read_uint32 set) p (bytes_of_u32 v) (set v p)
unfolding read_uint32
Reads-uint32 set p v h = record { apply = λ rest. rw (u32_of_bytes-of_u32 v h) }

pub Reads-check :
    {P : Type 0} (flags : P → ℕ) (required : ℕ) (p : P)
    → has_all_flags (flags p) required ≡ true
    → Reads (check_required_flags flags required) p [] p
unfolding check_required_flags
Reads-check flags required p h = record { apply = λ rest. rw h }

-- The same with the result code.
pub Reads-run :
    {P : Type 0} {m : Reader P} {p p' : P} {bytes : List ℕ}
    → Reads m p bytes p'
    → (rest : List ℕ) → run m p (bytes ++ rest) ≡ (s_ok, p', rest)
Reads-run h rest = rw (run, h.apply rest)

-- The client's field after it read the string `x` into it.
unfoldable pub stored : WString → RailString → WString
stored s x = if x.len == 0 then record s { len = 0 } else record {
  len = x.len;
  chars = terminate x.len (memcpy s.chars (take x.len x.string) x.len);
}

-- At most 510 bytes, which leaves room for the terminator; not empty where it is required.
pub record IsReadable (required : Bool) (x : RailString) : Type 0 where
  pub short : x.len ≤ 510
  pub in_buffer : x.len ≤ length x.string
  pub present : required ≡ true → 0 < x.len

memcpy-append :
    (dst src rest : List ℕ) (n : ℕ) → length src ≡ n → memcpy dst (src ++ rest) n ≡ memcpy dst src n
unfolding memcpy
memcpy-append dst src rest n h = rw (take-append n src rest h) (
    ap (λ (t : List ℕ). t ++ drop n dst)
      (sym (take-append n src [] h) ∙ ap (take n) (append-nil src)))

take-nothing : (n : ℕ) (xs : List ℕ) → n ≡ 0 → take n xs ≡ []
take-nothing zero xs h = refl
take-nothing (suc n) xs h = absurd (omega arith)

Reads-chars :
    (required : Bool) (s : WString) (x : RailString)
    → IsReadable required x
    → (rest : List ℕ)
    → read_chars required (record s { len = x.len }) (take x.len x.string ++ rest)
      ≡ done (stored s x) rest
unfolding read_chars stored
Reads-chars required s x h rest =
    let size : length (take x.len x.string) ≡ x.len =
      omega (arith, length-take x.len x.string, h.in_buffer) in
    let whole = length-append (take x.len x.string) rest in
    elim (Bool-cases (x.len == 0)) [
      | inl e ↦
          let empty : x.len ≡ 0 = ground arith in
          let nothing : take x.len x.string ++ rest ≡ rest =
            ap (λ (t : List ℕ). t ++ rest) (take-nothing x.len x.string empty) in
          ground arith
      | inr e ↦
          rw
            (
              memcpy-append s.chars (take x.len x.string) rest x.len size,
              drop-append x.len (take x.len x.string) rest size,
            )
            (ground arith)
    ]

pub Reads-string :
    (required : Bool) (s : WString) (x : RailString)
    → IsReadable required x
    → Reads (read_string required) s (string_bytes x) (stored s x)
unfolding read_string
Reads-string required s x h =
    Reads-then (Reads-uint16 (λ v s. record s { len = v }) s x.len (omega (arith, h.short)))
      (record { apply = Reads-chars required s x h })

pub Reads-at :
    {P : Type 0} (get : P → WString) (set : WString → P → P) (required : Bool) (p : P)
    (x : RailString)
    → IsReadable required x
    → Reads (read_string_at get set required) p (string_bytes x) (set (stored (get p) x) p)
unfolding read_string_at
Reads-at get set required p x h = record {
  apply = λ rest. rw (read_string_at, (Reads-string required (get p) x h).apply rest);
}

-- The client's field after the optional field `x` of a message.
unfoldable pub received : ℕ → ℕ → WString → RailString → WString
received flags field s x = if has_flag flags field then stored s x else s

pub Reads-field :
    {P : Type 0} (flags field : ℕ) (flags_of : P → ℕ) (get : P → WString) (set : WString → P → P)
    (required : Bool) (p : P) (x : RailString)
    → flags_of p ≡ flags
    → set (get p) p ≡ p
    → (has_flag flags field ≡ true → IsReadable required x)
    → Reads
        (on_flag flags_of field (read_string_at get set required))
        p
        (field_bytes flags field x)
        (set (received flags field (get p) x) p)
unfolding on_flag field_bytes received
Reads-field flags field flags_of get set required p x e lens h = record {
  apply = λ rest. rw e (elim (Bool-cases (has_flag flags field)) [
    | inl on ↦ rw (on, (Reads-at get set required p x (h on)).apply rest)
    | inr off ↦ rw (off, lens)
  ]);
}
