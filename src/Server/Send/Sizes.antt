-- ===== src/Server/Send/Sizes.antt =====
-- The lengths that rdpapplist/server/rdpapplist_main.c computes before it allocates a stream.
pub mod Short
use wslg.Common.{ℕ, ◌+◌, ◌≤◌, ◌<◌, ◌≡◌, ap, ◌∙◌}
use wslg.Common.{Option, none, some, true, arith, length, length-append, length-take}
use wslg.Common.{has_flag, u32_mod, IsU16, IsU32}
use wslg.Protocol.{max_string_size}
use wslg.Protocol.Field
use wslg.Server.Pdu.{
  RailString, ServerCapsPdu, IconDataPdu, UpdateApplistPdu, DeleteApplistPdu,
  DeleteApplistProviderPdu, AssociateWindowIdPdu,
}
use wslg.Server.Send.{
  add_string, add_icon, caps_len, update_applist_len, delete_applist_len,
  delete_applist_provider_len, associate_window_id_len, ◌>>=◌,
}
use wslg.Server.Send.Payload.{
  string_bytes, field_bytes, icon_field_bytes, caps_payload, update_strings, update_applist_payload,
  delete_applist_payload, delete_applist_provider_payload, associate_window_id_payload,
}

-- Where the field is on, its string is at most 512 bytes and lies within its buffer.
abbrev pub Fits : ℕ → ℕ → RailString → Type 0
Fits flags field x =
    has_flag flags field ≡ true → (x.len ≤ max_string_size) × (x.len ≤ length x.string)

-- Where the icon is on, there is one, and its bits lie within their buffer.
abbrev pub IconFits : ℕ → Option IconDataPdu → Type 0
IconFits flags icon =
    has_flag flags Field.icon ≡ true
    → (d : IconDataPdu) × (icon ≡ some d) × (d.icon_bits_length ≤ length d.icon_bits)

pub record StringsFit (u : UpdateApplistPdu) : Type 0 where
  pub id_fits : Fits u.flags Field.id u.app_id
  pub group_fits : Fits u.flags Field.group u.app_group
  pub execpath_fits : Fits u.flags Field.execpath u.app_exec_path
  pub workingdir_fits : Fits u.flags Field.workingdir u.app_working_dir
  pub desc_fits : Fits u.flags Field.desc u.app_desc

pub length-field_bytes :
    (flags field : ℕ) (x : RailString)
    → Fits flags field x
    → length (field_bytes flags field x) ≤ 514
unfolding field_bytes
length-field_bytes flags field x fits = ground (arith, length-take x.len x.string)

-- While the sum stays below 2 ^ 32, `len` grows by what the field takes on the wire.
pub add_string_lem :
    (flags field : ℕ) (x : RailString) (len : ℕ)
    → Fits flags field x
    → len ≤ 4000
    → add_string flags field x len ≡ some (len + length (field_bytes flags field x))
unfolding add_string field_bytes
add_string_lem flags field x len fits small = ground (arith, length-take x.len x.string)

pub add_string_then :
    (flags field : ℕ) (x : RailString) (len : ℕ)
    → Fits flags field x
    → len ≤ 4000
    → (rest : ℕ → Option ℕ)
    → (add_string flags field x len >>= rest) ≡ rest (len + length (field_bytes flags field x))
add_string_then flags field x len fits small rest = rw (add_string_lem flags field x len fits small)

pub add_string-none :
    (flags field : ℕ) (x : RailString) (len : ℕ)
    → has_flag flags field ≡ true
    → max_string_size < x.len
    → add_string flags field x len ≡ none
unfolding add_string
add_string-none flags field x len on long = ground arith

-- The strings of an update message take 5 * 514 bytes at most.
module _ (u : UpdateApplistPdu) (fit : StringsFit u) where
  open u use {flags, app_id, app_group, app_exec_path, app_working_dir, app_desc}

  pub length-update_strings :
      length (update_strings u)
      ≡ length (field_bytes flags Field.id app_id)
        + (length (field_bytes flags Field.group app_group)
            + (length (field_bytes flags Field.execpath app_exec_path)
                + (length (field_bytes flags Field.workingdir app_working_dir)
                    + length (field_bytes flags Field.desc app_desc))))
  unfolding update_strings
  length-update_strings = simp length-append

  pub update_strings_bound : length (update_strings u) ≤ 2570
  update_strings_bound = omega (
    arith,
    length-update_strings,
    length-field_bytes flags Field.id app_id fit.id_fits,
    length-field_bytes flags Field.group app_group fit.group_fits,
    length-field_bytes flags Field.execpath app_exec_path fit.execpath_fits,
    length-field_bytes flags Field.workingdir app_working_dir fit.workingdir_fits,
    length-field_bytes flags Field.desc app_desc fit.desc_fits,
  )

  -- While no string is refused, only the icon is left to be counted.
  pub update_applist_len-strings :
      update_applist_len u ≡ add_icon flags u.app_icon (4 + length (update_strings u))
  unfolding update_applist_len
  update_applist_len-strings =
      let bound₁ = length-field_bytes flags Field.id app_id fit.id_fits in
      let bound₂ = length-field_bytes flags Field.group app_group fit.group_fits in
      let bound₃ = length-field_bytes flags Field.execpath app_exec_path fit.execpath_fits in
      let bound₄ = length-field_bytes flags Field.workingdir app_working_dir fit.workingdir_fits in
      add_string_then flags Field.id app_id 4 fit.id_fits (omega arith) _
      ∙ add_string_then flags Field.group app_group _ fit.group_fits (omega arith) _
      ∙ add_string_then flags Field.execpath app_exec_path _ fit.execpath_fits (omega arith) _
      ∙ add_string_then flags Field.workingdir app_working_dir _ fit.workingdir_fits (omega arith) _
      ∙ add_string_then flags Field.desc app_desc _ fit.desc_fits (omega arith) _
      ∙ ap (add_icon flags u.app_icon) (omega (arith, length-update_strings))

pub record IsSendable (u : UpdateApplistPdu) : Type 0 where
  pub strings : StringsFit u
  pub icon : IconFits u.flags u.app_icon

pub add_icon_lem :
    (flags : ℕ) (icon : Option IconDataPdu) (len : ℕ)
    → IconFits flags icon
    → len + length (icon_field_bytes flags icon) < u32_mod
    → add_icon flags icon len ≡ some (len + length (icon_field_bytes flags icon))
unfolding add_icon icon_field_bytes
add_icon_lem flags none len fits small = ground arith
add_icon_lem flags (some d) len fits small =
    ground (arith, length-take d.icon_bits_length d.icon_bits)

module _ (u : UpdateApplistPdu) (h : IsSendable u) where
  pub length-update_applist_payload :
      length (update_applist_payload u)
      ≡ 4 + length (update_strings u) + length (icon_field_bytes u.flags u.app_icon)
  unfolding update_applist_payload
  length-update_applist_payload =
      omega (arith, length-append (update_strings u) (icon_field_bytes u.flags u.app_icon))

  -- The computed length is the payload's, while that is a UINT32.
  pub update_applist_len_lem :
      IsU32 (length (update_applist_payload u))
      → update_applist_len u ≡ some (length (update_applist_payload u))
  update_applist_len_lem small =
      update_applist_len-strings u h.strings
      ∙ add_icon_lem u.flags u.app_icon _ h.icon (omega (arith, length-update_applist_payload))
      ∙ ap some (omega (arith, length-update_applist_payload))
