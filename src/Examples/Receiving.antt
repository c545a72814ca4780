-- ===== src/Examples/Receiving.antt =====
-- Messages that arrive at the plugin.
use wslg.Common.{
  ℕ, ◌+◌, ◌≡◌, refl, List, [], ◌∷◌, ◌++◌, true, none, some, arith, length, IsU32, has_flag,
}
use wslg.Protocol.{header_size}
use wslg.Protocol.Cmdid
use wslg.Server.Send.Payload.{
  message, delete_applist_payload, delete_applist_provider_payload, field_bytes,
}
use wslg.Client.Hresult.{Hresult, s_ok, e_fail}
use wslg.Client.FileDb.{FileEntry, entry_of, find, erase, order}
use wslg.Client.Callback.{State, initial}
use wslg.Client.Callback.Delete.{delete_path}
use wslg.Client.Callback.Receive.{on_data_received, on_close}
use wslg.Client.Callback.Receive.Loop.{on_data_received_ends}
use wslg.Client.Callback.Receive.Rounds.{on_close-ignores}
use wslg.Wire.Delivery.{delete_provider-rejected}
use wslg.Wire.Deletion.{IsKey, key_of, delete_message, delete_message-delivered}
use wslg.Examples.Messages.{delete_provider}
use wslg.Examples.Desk.{desk}

-- The link of the application `b` in the group `a`.
abbrev link_entry : FileEntry
link_entry = record (entry_of (97 ∷ 92 ∷ 98 ∷ [])) { link_file_path = 7 ∷ [] }

abbrev ready : State
ready = record initial { hand_shake_complated = true; file_db = link_entry ∷ [] }

ab-IsKey : IsKey (97 ∷ []) (98 ∷ [])
ab-IsKey = record {
  group_text = record {
    units = ((omega arith, omega arith), tt);
    short = omega arith;
    present = λ e. omega arith;
  };
  id_text = record {
    units = ((omega arith, omega arith), tt);
    short = omega arith;
    present = λ e. omega arith;
  };
  short = omega arith;
}

link-found : find (key_of (97 ∷ []) (98 ∷ [])) ready.file_db ≡ some link_entry
unfolding find order
link-found = refl

delete_message-delivered_example :
    on_data_received desk
      (message Cmdid.delete_applist (delete_applist_payload (delete_message (97 ∷ []) (98 ∷ [])))
        ++ [])
      ready
      ((7 ∷ []) ∷ [])
    ≡ some (
      s_ok,
      record ready { file_db = erase (key_of (97 ∷ []) (98 ∷ [])) ready.file_db },
      delete_path desk [] (delete_path desk (7 ∷ []) ((7 ∷ []) ∷ [])),
    )
delete_message-delivered_example =
    delete_message-delivered (97 ∷ []) (98 ∷ []) ab-IsKey desk ready ((7 ∷ []) ∷ []) link_entry
      link-found (omega arith, omega arith) refl refl

provider-length : length (delete_applist_provider_payload delete_provider) ≡ 10
unfolding delete_applist_provider_payload field_bytes has_flag
provider-length = refl

provider-IsU32 : IsU32 (header_size + length (delete_applist_provider_payload delete_provider))
provider-IsU32 = omega (arith, provider-length)

delete_provider-rejected_example :
    on_data_received desk
      (message Cmdid.delete_applist_provider (delete_applist_provider_payload delete_provider)
        ++ [])
      ready
      []
    ≡ some (e_fail, ready, [])
delete_provider-rejected_example =
    delete_provider-rejected desk delete_provider ready [] refl provider-IsU32 refl refl

on_data_received_ends_example :
    (r : Hresult × State × List (List ℕ)) × (on_data_received desk (1 ∷ 0 ∷ 0 ∷ []) initial []
      ≡ some r)
on_data_received_ends_example = on_data_received_ends desk (1 ∷ 0 ∷ 0 ∷ []) initial []

on_close-ignores_example :
    let (closed, after) = on_close desk ready [] in
    (on_data_received desk (1 ∷ []) closed [] ≡ some (s_ok, closed, []))
    × (after ≡ [])
    × (closed.file_db ≡ [])
    × (closed.file_db_sync ≡ none)
on_close-ignores_example = on_close-ignores desk ready [] [] (1 ∷ [])
