-- ===== src/Wire/Deletion.antt =====
-- A delete message of the server, from its texts to the files that the plugin deletes.
use wslg.Common.{ℕ, ◌+◌, ◌≤◌, ◌<◌, ◌≡◌, refl, List, [], ◌++◌, true, false}
use wslg.Common.{some, arith, length, has_flag, has_all_flags}
use wslg.Protocol.Cmdid
use wslg.Server.Pdu.{RailString, DeleteApplistPdu}
use wslg.Server.Send.Payload.{message, delete_applist_payload}
use wslg.Server.Send.Sizes.Short.{DeleteFits, delete_applist_len_lem}
use wslg.Client.Hresult.{s_ok}
use wslg.Client.Pdu.{empty_string}
use wslg.Client.Path.{max_path, backslash}
use wslg.Client.Windows.{Windows}
use wslg.Client.FileDb.{FileEntry, find, erase}
use wslg.Client.FileDb.Added.{find_files-link_icon, on_file_removed-found}
use wslg.Client.Callback.{State}
use wslg.Client.Callback.Steps.{next, ◌>>=◌, pure, modify}
use wslg.Client.Callback.Update.{make_key}
use wslg.Client.Callback.Key.{make_key_lem}
use wslg.Client.Callback.Delete.{
  read_delete, find_link_and_icon, delete_path, delete_paths, remove_key, on_delete_app_list,
}
use wslg.Client.Callback.Receive.{dispatch, on_data_received}
use wslg.Wire.Reads.{stored, received, IsReadable}
use wslg.Wire.Strings.{rail_string, IsText, rail_string-IsReadable, text-stored}
use wslg.Wire.RoundTrip.{DeleteReadable, delete_received, read_app_list_delete-round_trip}
use wslg.Wire.Delivery.{on_data_received-dispatched}

-- The message that deletes the application `id` of `group`.
abbrev pub delete_message : List ℕ → List ℕ → DeleteApplistPdu
delete_message group id = record {
  flags = 3;
  app_id = rail_string id;
  app_group = rail_string group;
}

-- A group and an id that the message can carry and that make a key of less than MAX_PATH units.
pub record IsKey (group id : List ℕ) : Type 0 where
  pub group_text : IsText true group
  pub id_text : IsText true id
  pub short : length group + 1 + length id < 260

abbrev pub key_of : List ℕ → List ℕ → List ℕ
key_of group id = (group ++ backslash) ++ id

-- The entry's link and icon fit the buffers that they are copied to.
abbrev pub PathsFit : FileEntry → Type 0
PathsFit e = (length e.link_file_path < 260) × (length e.icon_file_path < 260)

module _ (group id : List ℕ) (h : IsKey group id) where
  delete_message-DeleteReadable : DeleteReadable (delete_message group id)
  unfolding has_all_flags
  delete_message-DeleteReadable = record {
    flags_u32 = omega arith;
    required_flags = refl;
    id_readable = λ on. rail_string-IsReadable h.id_text;
    group_readable = λ on. weaker (rail_string-IsReadable h.group_text);
  }
    where
      weaker : {x : RailString} → IsReadable true x → IsReadable false x
      weaker r = record { short = r.short; in_buffer = r.in_buffer; present = λ e. r.present refl }

  delete_message-DeleteFits : DeleteFits (delete_message group id)
  delete_message-DeleteFits = record {
    id_fits = λ on. fits (rail_string-IsReadable h.id_text);
    group_fits = λ on. fits (rail_string-IsReadable h.group_text);
  }
    where
      fits : {x : RailString} → IsReadable true x → (x.len ≤ 512) × (x.len ≤ length x.string)
      fits r = (omega (arith, r.short), r.in_buffer)

  key_made :
      (win : Windows) (st : State) (w : win.World)
      → make_key win
          (stored empty_string (rail_string group))
          (stored empty_string (rail_string id))
          st
          w
        ≡ next (key_of group id) st w
  key_made win st w =
      let (group_read, group_len) =
        text-stored empty_string group h.group_text.units (h.group_text.present refl) in
      let (id_read, id_len) =
        text-stored empty_string id h.id_text.units (h.id_text.present refl) in
      make_key_lem win (stored empty_string (rail_string group))
        (stored empty_string (rail_string id)) group id st w
        (omega (arith, h.group_text.present refl)) group_read id_read h.short

  module _ (win : Windows) (st : State) (w : win.World) (e : FileEntry) where
    on_delete_app_list-delivered :
        find (key_of group id) st.file_db ≡ some e
        → PathsFit e
        → on_delete_app_list win (delete_applist_payload (delete_message group id) ++ []) st w
          ≡ next []
              (record st { file_db = erase (key_of group id) st.file_db })
              (delete_path win e.icon_file_path (delete_path win e.link_file_path w))
    unfolding on_delete_app_list read_delete delete_received received has_flag find_link_and_icon
        ◌>>=◌ pure modify delete_paths remove_key
    on_delete_app_list-delivered found fit =
        rw
          (
            on_delete_app_list,
            read_delete,
            read_app_list_delete-round_trip (delete_message group id) []
                delete_message-DeleteReadable,
            delete_received,
          )
          (rw (◌>>=◌, key_made win st w)
            (rw
              (
                ◌>>=◌,
                find_link_and_icon,
                find_files-link_icon st.file_db (key_of group id) max_path e found fit.0 fit.1,
              )
              (rw
                (
                  delete_paths,
                  remove_key,
                  on_file_removed-found st.file_db (key_of group id) e found,
                )
                refl)))

    -- A delete message of the server for a group and an id, both texts that its strings can carry,
    -- that arrives at an open plugin after the hand shake, where the key of both is in the file
    -- database: the plugin succeeds, deletes the link and the icon of the entry, drops the entry,
    -- and changes nothing else. The key, group, backslash and id, is below MAX_PATH, and so are the
    -- link and the icon path of the entry.
    pub delete_message-delivered :
        find (key_of group id) st.file_db ≡ some e
        → PathsFit e
        → st.channel_closed ≡ false
        → st.hand_shake_complated ≡ true
        → on_data_received win
            (message Cmdid.delete_applist (delete_applist_payload (delete_message group id)) ++ [])
            st
            w
          ≡ some (
            s_ok,
            record st { file_db = erase (key_of group id) st.file_db },
            delete_path win e.icon_file_path (delete_path win e.link_file_path w),
          )
    unfolding dispatch
    delete_message-delivered found fit opened ready =
        let payload = delete_applist_payload (delete_message group id) in
        on_data_received-dispatched win Cmdid.delete_applist payload st w _ _ (omega arith)
          (omega
            (arith, (delete_applist_len_lem (delete_message group id) delete_message-DeleteFits).1))
          opened ready (on_delete_app_list-delivered found fit)
