-- ===== src/Wire/Launch.antt =====
-- An update message of the server, from its texts to the shortcut in the Start menu.
use wslg.Common.{
  ℕ, ◌+◌, ◌≤◌, ◌≡◌, refl, ap, ◌∙◌, List, [], ◌++◌, Bool, true, false, ◌||◌, append-nil, none, some,
}
use wslg.Common.{arith, length, length-append, has_flag, has_all_flags, IsU32}
use wslg.Protocol.{header_size}
use wslg.Protocol.Cmdid
use wslg.Server.Pdu.{UpdateApplistPdu}
use wslg.Server.Send.Payload.{message, update_strings, update_applist_payload, icon_field_bytes}
use wslg.Server.Send.Sizes.{StringsFit, update_strings_bound}
use wslg.Client.Hresult.{s_ok}
use wslg.Client.Memory.{text}
use wslg.Client.Pdu.{empty_string, empty_update}
use wslg.Client.Path.{contains, starts_with}
use wslg.Client.Read.{read_app_list_update}
use wslg.Client.Windows.{Windows}
use wslg.Client.FileDb.{find}
use wslg.Client.Callback.{State}
use wslg.Client.Callback.Steps.{next, create_directory}
use wslg.Client.Callback.Update.{name_is_bad, names_are_bad}
use wslg.Client.Callback.Publish.{IsLaunch, LaunchFits, launched, on_update_app_list-launch}
use wslg.Client.Callback.Receive.{dispatch, on_data_received}
use wslg.Wire.Reads.{received}
use wslg.Wire.Strings.{rail_string, IsText, rail_string-IsReadable, text-stored}
use wslg.Wire.RoundTrip.{UpdateReadable, update_received, read_app_list_update-round_trip}
use wslg.Wire.Delivery.{on_data_received-dispatched}

-- The message that announces the application `id` with its command and its description.
abbrev pub update_message : List ℕ → List ℕ → List ℕ → UpdateApplistPdu
update_message id command desc = record {
  flags = 13;
  app_id = rail_string id;
  app_group = rail_string [];
  app_exec_path = rail_string command;
  app_working_dir = rail_string [];
  app_desc = rail_string desc;
  app_icon = none;
}

pub record AreTexts (id command desc : List ℕ) : Type 0 where
  pub id_text : IsText true id
  pub command_text : IsText true command
  pub desc_text : IsText true desc

pub rail_string-fits :
    {t : List ℕ}
    → IsText true t
    → ((rail_string t).len ≤ 512) × ((rail_string t).len ≤ length (rail_string t).string)
rail_string-fits h = let r = rail_string-IsReadable h in (omega (arith, r.short), r.in_buffer)

or_false : (b : Bool) → (b || false) ≡ b
or_false true = refl
or_false false = refl

module _ (id command desc : List ℕ) (h : AreTexts id command desc) where
  update_message-UpdateReadable : UpdateReadable (update_message id command desc)
  unfolding has_all_flags has_flag
  update_message-UpdateReadable = record {
    flags_u32 = omega arith;
    required_flags = refl;
    id_readable = λ on. rail_string-IsReadable h.id_text;
    group_readable = λ on. cc;
    execpath_readable = λ on. rail_string-IsReadable h.command_text;
    workingdir_readable = λ on. cc;
    desc_readable = λ on. rail_string-IsReadable h.desc_text;
  }

  update_message-StringsFit : StringsFit (update_message id command desc)
  unfolding has_flag
  update_message-StringsFit = record {
    id_fits = λ on. rail_string-fits h.id_text;
    group_fits = λ on. cc;
    execpath_fits = λ on. rail_string-fits h.command_text;
    workingdir_fits = λ on. cc;
    desc_fits = λ on. rail_string-fits h.desc_text;
  }

  payload_small :
      IsU32 (header_size + length (update_applist_payload (update_message id command desc)))
  unfolding update_applist_payload icon_field_bytes has_flag
  payload_small =
      let u = update_message id command desc in
      omega (
        arith,
        length-append (update_strings u) [],
        update_strings_bound u update_message-StringsFit,
      )

  payload_read :
      read_app_list_update empty_update
        (update_applist_payload (update_message id command desc) ++ [])
      ≡ (s_ok, update_received (update_message id command desc), [])
  unfolding update_applist_payload icon_field_bytes has_flag
  payload_read =
      let u = update_message id command desc in
      ap (read_app_list_update empty_update) (append-nil (update_applist_payload u))
      ∙ read_app_list_update-round_trip u [] update_message-UpdateReadable

  update_received-IsLaunch :
      IsLaunch (update_received (update_message id command desc)) id command desc
  unfolding update_received received has_flag names_are_bad text contains starts_with
  update_received-IsLaunch =
      let id_read = (text-stored empty_string id h.id_text.units (h.id_text.present refl)).0 in
      let desc_read =
        (text-stored empty_string desc h.desc_text.units (h.desc_text.present refl)).0 in
      record {
        flags_are = refl;
        id_is = id_read;
        command_is =
            (text-stored empty_string command h.command_text.units (h.command_text.present refl)).0;
        desc_is = desc_read;
        no_group = refl;
        no_dir = refl;
        no_quote =
            rw (id_read, desc_read) (ap (λ b. name_is_bad id || b) (or_false (name_is_bad desc)));
      }

  module _ (win : Windows) (st : State) (w : win.World) where
    pub update_message-delivered :
        (w' : win.World)
        → LaunchFits st id command desc
        → find id st.file_db ≡ none
        → create_directory win st.app_menu_path st w ≡ next tt st w'
        → st.channel_closed ≡ false
        → st.hand_shake_complated ≡ true
        → on_data_received win
            (message Cmdid.update_applist (update_applist_payload (update_message id command desc))
              ++ [])
            st
            w
          ≡ some
              (s_ok, (launched win st id command desc w').0, (launched win st id command desc w').1)
    unfolding dispatch
    update_message-delivered w' fit missing made opened ready =
        let payload = update_applist_payload (update_message id command desc) in
        on_data_received-dispatched win Cmdid.update_applist payload st w _ _ (omega arith)
          payload_small opened ready
          (on_update_app_list-launch win st w (update_received (update_message id command desc)) id
            command desc (payload ++ []) [] w' update_received-IsLaunch fit missing payload_read
            made)
