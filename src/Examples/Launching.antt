-- ===== src/Examples/Launching.antt =====
-- An update message that makes one shortcut.
use wslg.Common.{ℕ, ◌<◌, ◌≡◌, refl, List, [], ◌∷◌, ◌++◌, true, none, some, arith}
use wslg.Protocol.Cmdid
use wslg.Server.Send.Payload.{message, update_applist_payload, associate_window_id_payload}
use wslg.Client.Hresult.{s_ok}
use wslg.Client.Memory.{text}
use wslg.Client.Path.{contains, starts_with}
use wslg.Client.FileDb.{find}
use wslg.Client.Callback.{State, initial}
use wslg.Client.Callback.Steps.{next, create_directory}
use wslg.Client.Callback.Update.{name_is_bad}
use wslg.Client.Callback.Publish.{LaunchFits, launched}
use wslg.Client.Callback.Receive.{on_data_received}
use wslg.Wire.Strings.{IsText}
use wslg.Wire.Launch.{AreTexts, update_message}
use wslg.Client.Shell.{
  StoreAnswers, update_task_bar_info, acquired, released, property_store, set_value,
  prevent_pinning,
}
use wslg.Wire.Window.{task_bar_of, window_message, launched_window-delivered}
use wslg.Client.Windows.{Windows}
use wslg.Client.Pdu.{empty_caps}
use wslg.Common.{◌+◌, length}
use wslg.Examples.Desk.{desk}

abbrev ready : State
ready = record initial { hand_shake_complated = true; app_menu_path = 77 ∷ [] }

one_unit : (c : ℕ) → 0 < c → c < 65536 → IsText true (c ∷ [])
one_unit c lower upper = record {
  units = ((omega arith, omega arith), tt);
  short = omega arith;
  present = λ e. omega arith;
}

abc-AreTexts : AreTexts (97 ∷ []) (98 ∷ []) (99 ∷ [])
abc-AreTexts = record {
  id_text = one_unit 97 (omega arith) (omega arith);
  command_text = one_unit 98 (omega arith) (omega arith);
  desc_text = one_unit 99 (omega arith) (omega arith);
}

-- Two windows; the second is that of the application.
abbrev two_windows : Windows
two_windows = record desk {
  windows = λ w. (3, 1) ∷ (5, 9) ∷ [];
  update_task_bar_info = λ hwnd info w. (hwnd ∷ []) ∷ w;
}

abbrev caps_ready : State
caps_ready = record ready { server_caps = record empty_caps { version = 4 } }

caps_ready-LaunchFits : LaunchFits caps_ready (97 ∷ []) (98 ∷ []) (99 ∷ [])
unfolding name_is_bad contains starts_with text
caps_ready-LaunchFits = record {
  id_plain = refl;
  desc_plain = refl;
  link_short = omega arith;
  args_short = omega arith;
  id_short = omega arith;
}

caps_ready_room :
    17 + length caps_ready.expanded_path_obj + length (text caps_ready.app_provider) + 1 < 260
unfolding text
caps_ready_room = omega arith

caps_ready_no_entry : find (97 ∷ []) caps_ready.file_db ≡ none
unfolding find
caps_ready_no_entry = refl

caps_ready_menu_made : create_directory two_windows (77 ∷ []) caps_ready [] ≡ next tt caps_ready []
unfolding create_directory
caps_ready_menu_made = refl

abbrev made : State × List (List ℕ)
made = launched two_windows caps_ready (97 ∷ []) (98 ∷ []) (99 ∷ []) []

-- COM does all that is asked.
abbrev answers : StoreAnswers
answers = record { store = s_ok; init = λ p. s_ok; set = λ p. s_ok }

launched_window-delivered_example :
    (on_data_received two_windows
        (message Cmdid.update_applist
            (update_applist_payload (update_message (97 ∷ []) (98 ∷ []) (99 ∷ [])))
          ++ [])
        caps_ready
        []
      ≡ some (s_ok, made.0, made.1))
    × (on_data_received two_windows
          (message Cmdid.associate_window_id
              (associate_window_id_payload (window_message 9 (97 ∷ []) (98 ∷ []) (99 ∷ [])))
            ++ [])
          made.0
          made.1
        ≡ some (s_ok, made.0, (5 ∷ []) ∷ made.1))
    × (update_task_bar_info answers (task_bar_of caps_ready (98 ∷ []) (99 ∷ [])) ≡ (
      s_ok,
      acquired property_store ∷ set_value prevent_pinning none ∷ released property_store ∷ [],
    ))
launched_window-delivered_example =
    launched_window-delivered 9 (97 ∷ []) (98 ∷ []) (99 ∷ []) (omega arith) abc-AreTexts two_windows
      caps_ready [] [] 5 ((3, 1) ∷ []) [] caps_ready-LaunchFits caps_ready_room caps_ready_no_entry
      caps_ready_menu_made (omega arith) (omega arith) refl ((λ e. absurd (omega (arith, e))), tt)
      refl refl answers refl refl refl
