-- ===== src/Client/Read/Icon.antt =====
-- The icon of an update message, as a .ico file in memory.
use wslg.Common.{ℕ, ◌+◌, ◌<◌, ◌≡◌, refl, List, [], ◌∷◌, ◌++◌, Bool, true, arith}
use wslg.Common.{length, length-append, length-take, length-drop, take, u32_mod}
use wslg.Client.Hresult.{Hresult, s_ok, e_fail}
use wslg.Client.Pdu.{IconData, empty_icon}
use wslg.Client.Reader.{Reader, Outcome, done, error_read, ◌>>◌, read_uint32}
use wslg.Client.Read.{
  icon_fields, icon_header, bitmap_info_header, icon_file, read_app_list_icon_data,
}

length-icon_header : (d : IconData) → length (icon_header d) ≡ 22
unfolding icon_header
length-icon_header d = refl

length-bitmap_info_header : (d : IconData) → length (bitmap_info_header d) ≡ 40
unfolding bitmap_info_header
length-bitmap_info_header d = refl

icon_file_ok :
    (alloc : ℕ → Bool) (start rest left : List ℕ) (d d' : IconData)
    → icon_file alloc start d rest ≡ (s_ok, d', left)
    → (d'.icon_file_size ≡ 62 + d'.icon_bits_length)
      × (d'.icon_file_size < u32_mod)
      × (alloc d'.icon_file_size ≡ true)
      × (length d'.icon_file_data ≡ d'.icon_file_size)
      × (length rest ≡ d'.icon_bits_length + length left)
unfolding icon_file
icon_file_ok alloc start rest left d d' e =
    let bits = take d.icon_bits_length rest in
    ground (
      arith,
      length-append (icon_header d) (bitmap_info_header d ++ bits),
      length-append (bitmap_info_header d) bits,
      length-icon_header d,
      length-bitmap_info_header d,
      length-take d.icon_bits_length rest,
      length-drop d.icon_bits_length rest,
    )

-- A reader that takes `n` bytes whenever it succeeds.
record Takes {P : Type 0} (m : Reader P) (n : ℕ) : Type 0 where
  apply :
      (p : P) (b : List ℕ) (p' : P) (rest : List ℕ)
      → m p b ≡ done p' rest
      → length b ≡ n + length rest

Takes-uint32 : {P : Type 0} (set : ℕ → P → P) → Takes (read_uint32 set) 4
unfolding read_uint32
Takes-uint32 {P} set = record { apply = go }
  where
    go :
        (p : P) (b : List ℕ) (p' : P) (rest : List ℕ)
        → read_uint32 set p b ≡ done p' rest
        → length b ≡ 4 + length rest
    go p [] p' rest e = cc
    go p (a ∷ []) p' rest e = cc
    go p (a ∷ b ∷ []) p' rest e = cc
    go p (a ∷ b ∷ c ∷ []) p' rest e = cc
    go p (a ∷ b ∷ c ∷ d ∷ left) p' rest e = ground arith

Takes-then :
    {P : Type 0} {m k : Reader P} {n l : ℕ} → Takes m n → Takes k l → Takes (m >> k) (n + l)
Takes-then {P} {m} {k} {n} {l} hm hk = record {
  apply = λ p b p' rest e. go b (m p b) p' rest (hm.apply p b) e;
}
  where
    go :
        (b : List ℕ) (r : Outcome P) (p' : P) (rest : List ℕ)
        → ((p : P) (left : List ℕ) → r ≡ done p left → length b ≡ n + length left)
        → Path
            (Outcome P)
            (elim r [ done p left ↦ k p left | error_read p ↦ error_read p ])
            (done p' rest)
        → length b ≡ n + l + length rest
    go b (done p left) p' rest h e = omega (arith, h p left refl, hk.apply p left p' rest e)
    go b (error_read p) p' rest h e = cc

Takes-icon_fields : Takes icon_fields 28
unfolding icon_fields
Takes-icon_fields = Takes-then (Takes-uint32 (λ v d. record d { flags = v })) (
    Takes-then (Takes-uint32 (λ v d. record d { icon_width = v })) (
      Takes-then (Takes-uint32 (λ v d. record d { icon_height = v })) (
        Takes-then (Takes-uint32 (λ v d. record d { icon_stride = v })) (
          Takes-then (Takes-uint32 (λ v d. record d { icon_bpp = v })) (
            Takes-then (Takes-uint32 (λ v d. record d { icon_format = v }))
              (Takes-uint32 (λ v d. record d { icon_bits_length = v })))))))

icon_data_ok :
    (alloc : ℕ → Bool) (b left : List ℕ) (d' : IconData) (r : Outcome IconData)
    → ((d : IconData) (rest : List ℕ) → r ≡ done d rest → length b ≡ 28 + length rest)
    → Path
        (Hresult × IconData × List ℕ)
        (elim r [ done d rest ↦ icon_file alloc b d rest | error_read d ↦ (e_fail, empty_icon, b) ])
        (s_ok, d', left)
    → (length d'.icon_file_data ≡ d'.icon_file_size)
      × (d'.icon_file_size ≡ 62 + d'.icon_bits_length)
      × (d'.icon_file_size < u32_mod)
      × (alloc d'.icon_file_size ≡ true)
      × (length b ≡ 28 + d'.icon_bits_length + length left)
icon_data_ok alloc b left d' (done d rest) h e =
    let (size, small, allocated, full, taken) = icon_file_ok alloc b rest left d d' e in
    (full, size, small, allocated, omega (arith, h d rest refl))
icon_data_ok alloc b left d' (error_read d) h e = cc

-- If ReadAppListIconData succeeds, on any bytes, then the icon file is as long as its recorded
-- size, which is 62 + iconBitsLength without wrap-around and was allocated, and the reader took 28
-- + iconBitsLength bytes.
pub read_app_list_icon_data_ok :
    (alloc : ℕ → Bool) (d d' : IconData) (b left : List ℕ)
    → read_app_list_icon_data alloc d b ≡ (s_ok, d', left)
    → (length d'.icon_file_data ≡ d'.icon_file_size)
      × (d'.icon_file_size ≡ 62 + d'.icon_bits_length)
      × (d'.icon_file_size < u32_mod)
      × (alloc d'.icon_file_size ≡ true)
      × (length b ≡ 28 + d'.icon_bits_length + length left)
unfolding read_app_list_icon_data
read_app_list_icon_data_ok alloc d d' b left e =
    icon_data_ok alloc b left d' (icon_fields empty_icon b) (Takes-icon_fields.apply empty_icon b) e
