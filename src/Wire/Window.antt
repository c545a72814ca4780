-- ===== src/Wire/Window.antt =====
-- An associate-window-id message of the server, from its texts to the task bar, for an application
-- that an update message announced.
use wslg.Common.{
  ℕ, ◌+◌, ◌*◌, ◌^◌, ◌≤◌, ◌<◌, ◌≡◌, ◌≢◌, refl, ap, ◌∙◌, List, [], ◌∷◌, ◌++◌, true, false, none, some,
  All,
}
use wslg.Common.{arith, length, has_flag, has_all_flags, IsU32}
use wslg.Protocol.Cmdid
use wslg.Server.Pdu.{AssociateWindowIdPdu}
use wslg.Server.Send.Payload.{message, update_applist_payload, associate_window_id_payload}
use wslg.Server.Send.Sizes.Short.{AssociateFits, associate_window_id_len_lem}
use wslg.Client.Hresult.{s_ok, is_failed}
use wslg.Client.Pdu.{empty_string}
use wslg.Client.Memory.{text}
use wslg.Client.Path.{space}
use wslg.Client.Windows.{Windows, TaskBarInfo}
use wslg.Client.Shell.{
  StoreAnswers, update_task_bar_info, acquired, released, property_store, set_value,
  prevent_pinning,
}
use wslg.Client.Shell.Pinning.{no_icon_not_pinned}
use wslg.Client.FileDb.{FileEntry, find, insert}
use wslg.Client.FileDb.Added.{entry_for}
use wslg.Client.FileDb.Lookup.{kept_or, find-insert_self}
use wslg.Client.Callback.{State}
use wslg.Client.Callback.Associate.{option_text, full_window_id}
use wslg.Client.Callback.Windowed.{IsAssociation, EntryFits, relaunch, on_associate_window_id-entry}
use wslg.Client.Callback.Publish.{LaunchFits, launched, launch_args, menu_link, length-launch_args}
use wslg.Client.Callback.Steps.{next, create_directory}
use wslg.Client.Callback.Receive.{dispatch, on_data_received}
use wslg.Wire.Reads.{received}
use wslg.Wire.Strings.{rail_string, rail_string-IsReadable, text-stored}
use wslg.Wire.Launch.{AreTexts, rail_string-fits, update_message, update_message-delivered}
use wslg.Wire.RoundTrip.{AssociateReadable, associate_received, read_associate_window_id-round_trip}
use wslg.Wire.Delivery.{on_data_received-dispatched}

-- The message that a window belongs to the application `id`, with its command and its description.
abbrev pub window_message : ℕ → List ℕ → List ℕ → List ℕ → AssociateWindowIdPdu
window_message window id command desc = record {
  flags = 141;
  app_window_id = window;
  app_id = rail_string id;
  app_group = rail_string [];
  app_exec_path = rail_string command;
  app_desc = rail_string desc;
}

-- The property of the window: the provider's GUID and the server's window.
abbrev pub window_key : State → ℕ → ℕ
window_key st window = st.app_provider_guid * 2 ^ 32 + window

-- What such a window gets: the command line of the link, the description and no icon.
abbrev pub task_bar_of : State → List ℕ → List ℕ → TaskBarInfo
task_bar_of st command desc = record {
  relaunch_cmdline =
      some (st.expanded_path_obj ++ space ++ launch_args (text st.app_provider) command);
  display_name = option_text desc;
  icon_path = none;
}

module _ (window : ℕ) (id command desc : List ℕ) (small : IsU32 window)
    (h : AreTexts id command desc) where
  window_message-AssociateReadable : AssociateReadable (window_message window id command desc)
  unfolding has_all_flags has_flag
  window_message-AssociateReadable = record {
    flags_u32 = omega arith;
    window_id_u32 = small;
    required_flags = refl;
    id_readable = λ on. rail_string-IsReadable h.id_text;
    group_readable = λ on. cc;
    execpath_readable = λ on. rail_string-IsReadable h.command_text;
    desc_readable = λ on. rail_string-IsReadable h.desc_text;
  }

  window_message-AssociateFits : AssociateFits (window_message window id command desc)
  unfolding has_flag
  window_message-AssociateFits = record {
    id_fits = λ on. rail_string-fits h.id_text;
    group_fits = λ on. cc;
    execpath_fits = λ on. rail_string-fits h.command_text;
    desc_fits = λ on. rail_string-fits h.desc_text;
  }

  window_received-IsAssociation :
      IsAssociation (associate_received (window_message window id command desc)) id desc
  unfolding associate_received received has_flag
  window_received-IsAssociation = record {
    id_is = (text-stored empty_string id h.id_text.units (h.id_text.present refl)).0;
    desc_is = (text-stored empty_string desc h.desc_text.units (h.desc_text.present refl)).0;
    no_group = refl;
  }

  -- The task bar gets the command of the entry.
  window_message-delivered :
      (win : Windows) (st : State) (w : win.World) (e : FileEntry) (hwnd : ℕ)
      (before after : List (ℕ × ℕ))
      → EntryFits e
      → length id < 260
      → find id st.file_db ≡ some e
      → 4 ≤ st.server_caps.version
      → 0 < window_key st window
      → win.windows w ≡ before ++ ((hwnd, window_key st window) ∷ after)
      → All (λ p. p.1 ≢ window_key st window) before
      → st.channel_closed ≡ false
      → st.hand_shake_complated ≡ true
      → on_data_received win
          (message Cmdid.associate_window_id
              (associate_window_id_payload (window_message window id command desc))
            ++ [])
          st
          w
        ≡ some (s_ok, st, win.update_task_bar_info hwnd (relaunch e desc) w)
  unfolding dispatch full_window_id associate_received
  window_message-delivered win st w e hwnd before after fit short found version some_key listed
        others opened ready =
      let a = window_message window id command desc in
      let payload = associate_window_id_payload a in
      on_data_received-dispatched win Cmdid.associate_window_id payload st w _ _ (omega arith)
        (omega (arith, (associate_window_id_len_lem a window_message-AssociateFits).1)) opened ready
        (on_associate_window_id-entry win st w (associate_received a) id desc (payload ++ []) [] e
          hwnd before after window_received-IsAssociation fit short found (ground arith)
          (ground arith) (read_associate_window_id-round_trip a [] window_message-AssociateReadable)
          listed others)

  -- After such an update message has been delivered, an associate-window-id message for the same
  -- application makes the plugin call UpdateTaskBarInfo for the first window that has the provider
  -- and window id as its property, with the command line of the link, path and arguments, the
  -- description for the name, and no icon; nothing else changes. As there is no icon, that call,
  -- where it gets the property store and no step of it fails, sets PreventPinning, no command line
  -- and no name, and releases the store. The caps are of version 4 at least, the full window id is
  -- not 0, and the command line is below MAX_PATH.
  pub launched_window-delivered :
      (win : Windows) (st : State) (w w' : win.World) (hwnd : ℕ) (before after : List (ℕ × ℕ))
      → LaunchFits st id command desc
      → 17 + length st.expanded_path_obj + length (text st.app_provider) + length command < 260
      → find id st.file_db ≡ none
      → create_directory win st.app_menu_path st w ≡ next tt st w'
      → 4 ≤ st.server_caps.version
      → 0 < window_key st window
      → win.windows (launched win st id command desc w').1
        ≡ before ++ ((hwnd, window_key st window) ∷ after)
      → All (λ p. p.1 ≢ window_key st window) before
      → st.channel_closed ≡ false
      → st.hand_shake_complated ≡ true
      → (a : StoreAnswers) → is_failed a.store ≡ false
      → is_failed (a.init prevent_pinning) ≡ false
      → is_failed (a.set prevent_pinning) ≡ false
      → (on_data_received win
            (message Cmdid.update_applist (update_applist_payload (update_message id command desc))
              ++ [])
            st
            w
          ≡ some (
            s_ok,
            (launched win st id command desc w').0,
            (launched win st id command desc w').1,
          ))
        × (on_data_received win
              (message Cmdid.associate_window_id
                  (associate_window_id_payload (window_message window id command desc))
                ++ [])
              (launched win st id command desc w').0
              (launched win st id command desc w').1
            ≡ some (
              s_ok,
              (launched win st id command desc w').0,
              win.update_task_bar_info hwnd
                  (task_bar_of st command desc)
                  (launched win st id command desc w').1,
            ))
        × (update_task_bar_info a (task_bar_of st command desc) ≡ (
          s_ok,
          acquired property_store ∷ set_value prevent_pinning none ∷ released property_store ∷ [],
        ))
  launched_window-delivered win st w w' hwnd before after fit room missing made version some_key
        listed others opened ready a store init set =
      let (st', w'') = launched win st id command desc w' in
      let args = launch_args (text st.app_provider) command in
      let e =
        entry_for id (some (menu_link st.app_menu_path desc)) (some []) (some st.expanded_path_obj)
          (some args) in
      let found : find id (insert e st.file_db) ≡ some e =
        find-insert_self e st.file_db ∙ ap (λ o. some (kept_or o e)) missing in
      let entry_fits : EntryFits e = record {
        icon_short = omega arith;
        command_short = omega (arith, length-launch_args (text st.app_provider) command);
      } in
      (
        update_message-delivered id command desc h win st w w' fit missing made opened ready,
        window_message-delivered win st' w'' e hwnd before after entry_fits fit.id_short found
            version some_key listed others opened ready,
        no_icon_not_pinned a _ (option_text desc) store init set,
      )
