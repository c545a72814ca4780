-- ===== src/Examples/Reading.antt =====
-- The plugin's readers on the messages of the examples.
use wslg.Common.{
  ◌+◌, ◌<◌, ◌≤◌, ◌≡◌, refl, [], ◌∷◌, ◌++◌, true, arith, length, u32_mod, bytes_of_u32,
}
use wslg.Protocol.Cmdid
use wslg.Server.Send.{send_caps}
use wslg.Server.Send.Payload.{caps_payload, update_strings, icon_bytes, message}
use wslg.Server.Send.Filled.{sent}
use wslg.Client.Hresult.{s_ok, e_fail}
use wslg.Client.Pdu.{empty_caps, empty_update, empty_icon}
use wslg.Client.Read.{read_app_list_server_caps, read_app_list_update, read_app_list_icon_data}
use wslg.Client.Read.Safety.{UpdateArrays, read_app_list_update_within}
use wslg.Client.Read.Icon.{read_app_list_icon_data_ok}
use wslg.Wire.RoundTrip.{
  update_received, read_app_list_update-round_trip, caps_received,
  read_app_list_server_caps-round_trip,
}
use wslg.Wire.Icon.{icon_received, read_app_list_icon_data-round_trip}
use wslg.Wire.Mismatch.{caps_name_too_long_for_client}
use wslg.Examples.Streams.{streams, streams-Laws}
use wslg.Examples.Messages.{
  icon, update, update-UpdateReadable, caps, caps-CapsReadable, long_caps, long_caps-CapsFit,
  icon-IconReadable,
}

read_app_list_update-round_trip_example :
    read_app_list_update empty_update
      (bytes_of_u32 update.flags ++ (update_strings update ++ icon_bytes icon))
    ≡ (s_ok, update_received update, icon_bytes icon)
read_app_list_update-round_trip_example =
    read_app_list_update-round_trip update (icon_bytes icon) update-UpdateReadable

read_app_list_icon_data-round_trip_example :
    read_app_list_icon_data (λ n. true) empty_icon (icon_bytes icon ++ [])
    ≡ (s_ok, icon_received icon, [])
read_app_list_icon_data-round_trip_example =
    read_app_list_icon_data-round_trip (λ n. true) icon icon-IconReadable empty_icon []

read_app_list_server_caps-round_trip_example :
    read_app_list_server_caps empty_caps (caps_payload caps ++ [])
    ≡ (s_ok, caps_received empty_caps caps, [])
read_app_list_server_caps-round_trip_example =
    read_app_list_server_caps-round_trip empty_caps caps [] caps-CapsReadable

caps_name_too_long_for_client_example :
    (send_caps streams [] long_caps ≡ sent streams [] (message Cmdid.caps (caps_payload long_caps)))
    × ((read_app_list_server_caps empty_caps (caps_payload long_caps ++ [])).0 ≡ e_fail)
caps_name_too_long_for_client_example =
    caps_name_too_long_for_client streams streams-Laws [] empty_caps long_caps [] long_caps-CapsFit
      (omega arith) (omega arith)

-- A message that ends in the middle of its first string.
read_app_list_update_within_example :
    UpdateArrays (read_app_list_update empty_update (13 ∷ 0 ∷ 0 ∷ 0 ∷ 4 ∷ 0 ∷ 97 ∷ [])).1
    × (length (read_app_list_update empty_update (13 ∷ 0 ∷ 0 ∷ 0 ∷ 4 ∷ 0 ∷ 97 ∷ [])).2 ≤ 7)
read_app_list_update_within_example =
    read_app_list_update_within empty_update (13 ∷ 0 ∷ 0 ∷ 0 ∷ 4 ∷ 0 ∷ 97 ∷ [])
      (refl, refl, refl, refl, refl)

read_app_list_icon_data_ok_example :
    (length (icon_received icon).icon_file_data ≡ (icon_received icon).icon_file_size)
    × ((icon_received icon).icon_file_size ≡ 62 + (icon_received icon).icon_bits_length)
    × ((icon_received icon).icon_file_size < u32_mod)
    × (true ≡ true)
    × (length (icon_bytes icon ++ []) ≡ 28 + (icon_received icon).icon_bits_length + 0)
read_app_list_icon_data_ok_example =
    read_app_list_icon_data_ok (λ n. true) empty_icon (icon_received icon) (icon_bytes icon ++ [])
      [] (read_app_list_icon_data-round_trip (λ n. true) icon icon-IconReadable empty_icon [])
