-- ===== src/Server/Send/Sizes/Short.antt =====
-- The lengths of the messages without an icon.
use wslg.Common.{◌+◌, ◌≤◌, ◌<◌, ◌≡◌, ap, ◌∙◌}
use wslg.Common.{some, arith, length, length-append, length-take}
use wslg.Common.{IsU16}
use wslg.Protocol.{max_string_size}
use wslg.Protocol.Field
use wslg.Server.Pdu.{
  ServerCapsPdu, DeleteApplistPdu, DeleteApplistProviderPdu, AssociateWindowIdPdu,
}
use wslg.Server.Send.{
  caps_len, delete_applist_len, delete_applist_provider_len, associate_window_id_len,
}
use wslg.Server.Send.Payload.{
  string_bytes, field_bytes, caps_payload, delete_applist_payload, delete_applist_provider_payload,
  associate_window_id_payload,
}
use wslg.Server.Send.Sizes.{Fits, length-field_bytes, add_string_lem, add_string_then}

-- The other messages carry a few short strings and never come near 2 ^ 32.
pub record CapsFit (caps : ServerCapsPdu) : Type 0 where
  pub name_fits : caps.app_list_provider_name.len ≤ max_string_size
  pub name_stored : caps.app_list_provider_name.len ≤ length caps.app_list_provider_name.string
  pub unique_id_u16 : IsU16 caps.app_list_provider_unique_id.len
  pub unique_id_stored :
      caps.app_list_provider_unique_id.len ≤ length caps.app_list_provider_unique_id.string

pub caps_len_lem :
    (caps : ServerCapsPdu)
    → CapsFit caps
    → (caps_len caps ≡ some (length (caps_payload caps))) × (length (caps_payload caps) < 66100)
unfolding caps_len caps_payload
caps_len_lem caps h =
    let name = caps.app_list_provider_name in
    let unique_id = caps.app_list_provider_unique_id in
    ground (
      arith,
      length-append (string_bytes name) (string_bytes unique_id),
      length-take name.len name.string,
      length-take unique_id.len unique_id.string,
    )

pub record DeleteFits (d : DeleteApplistPdu) : Type 0 where
  pub id_fits : Fits d.flags Field.id d.app_id
  pub group_fits : Fits d.flags Field.group d.app_group

pub delete_applist_len_lem :
    (d : DeleteApplistPdu)
    → DeleteFits d
    → (delete_applist_len d ≡ some (length (delete_applist_payload d)))
      × (length (delete_applist_payload d) < 2000)
unfolding delete_applist_len delete_applist_payload
delete_applist_len_lem d h =
    let bound₁ = length-field_bytes d.flags Field.id d.app_id h.id_fits in
    let bound₂ = length-field_bytes d.flags Field.group d.app_group h.group_fits in
    let split =
      length-append (field_bytes d.flags Field.id d.app_id)
        (field_bytes d.flags Field.group d.app_group) in
    (
      add_string_then d.flags Field.id d.app_id 4 h.id_fits (omega arith) _
          ∙ add_string_lem d.flags Field.group d.app_group _ h.group_fits (omega arith)
          ∙ ap some (omega arith),
      omega arith,
    )

pub delete_applist_provider_len_lem :
    (d : DeleteApplistProviderPdu)
    → Fits d.flags Field.provider d.app_list_provider_name
    → (delete_applist_provider_len d ≡ some (length (delete_applist_provider_payload d)))
      × (length (delete_applist_provider_payload d) < 1000)
unfolding delete_applist_provider_len delete_applist_provider_payload
delete_applist_provider_len_lem d h =
    let bound = length-field_bytes d.flags Field.provider d.app_list_provider_name h in
    (
      add_string_lem d.flags Field.provider d.app_list_provider_name 4 h (omega arith)
          ∙ ap some (omega arith),
      omega arith,
    )

pub record AssociateFits (a : AssociateWindowIdPdu) : Type 0 where
  pub id_fits : Fits a.flags Field.id a.app_id
  pub group_fits : Fits a.flags Field.group a.app_group
  pub execpath_fits : Fits a.flags Field.execpath a.app_exec_path
  pub desc_fits : Fits a.flags Field.desc a.app_desc

module _ (a : AssociateWindowIdPdu) (fit : AssociateFits a) where
  open a use {flags, app_id, app_group, app_exec_path, app_desc}

  length-associate_window_id_payload :
      length (associate_window_id_payload a)
      ≡ 8
        + (length (field_bytes flags Field.id app_id)
            + (length (field_bytes flags Field.group app_group)
                + (length (field_bytes flags Field.execpath app_exec_path)
                    + length (field_bytes flags Field.desc app_desc))))
  unfolding associate_window_id_payload
  length-associate_window_id_payload = simp length-append (omega arith)

  pub associate_window_id_len_lem :
      (associate_window_id_len a ≡ some (length (associate_window_id_payload a)))
      × (length (associate_window_id_payload a) < 3000)
  unfolding associate_window_id_len
  associate_window_id_len_lem =
      let bound₁ = length-field_bytes flags Field.id app_id fit.id_fits in
      let bound₂ = length-field_bytes flags Field.group app_group fit.group_fits in
      let bound₃ = length-field_bytes flags Field.execpath app_exec_path fit.execpath_fits in
      let bound₄ = length-field_bytes flags Field.desc app_desc fit.desc_fits in
      (
        add_string_then flags Field.id app_id 8 fit.id_fits (omega arith) _
            ∙ add_string_then flags Field.group app_group _ fit.group_fits (omega arith) _
            ∙ add_string_then flags Field.execpath app_exec_path _ fit.execpath_fits (omega arith) _
            ∙ add_string_lem flags Field.desc app_desc _ fit.desc_fits (omega arith)
            ∙ ap some (omega (arith, length-associate_window_id_payload)),
        omega (arith, length-associate_window_id_payload),
      )
