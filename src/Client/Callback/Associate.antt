-- ===== src/Client/Callback/Associate.antt =====
-- OnAssociateWindowId and FindWslgWindow.
use wslg.Common.{ℕ, ◌+◌, ◌*◌, ◌^◌, List, [], ◌∷◌, ◌++◌, Option, none, some}
use wslg.Common.{if◌then◌else◌, ltb, ◌==◌}
use wslg.Client.Hresult.{Hresult, is_failed}
use wslg.Client.Memory.{text}
use wslg.Client.Pdu.{AssociateWindowId, empty_associate}
use wslg.Client.Path.{max_path, printed, space}
use wslg.Client.Read.{read_associate_window_id}
use wslg.Client.Windows.{Windows, TaskBarInfo}
use wslg.Client.FileDb.{FoundPaths, find_files}
use wslg.Client.Callback.{State}
use wslg.Client.Callback.Steps.{Step, next, return_error, ◌>>=◌, ◌>>◌, pure, get, fail_if, or_fail}
use wslg.Client.Callback.Update.{make_key, string_of}

-- L"%s -d %s --cd \"%s\" -- %s"
unfoldable pub remote_command : State → List ℕ → List ℕ
remote_command st exec_path =
    st.expanded_path_obj
    ++ ((32 ∷ 45 ∷ 100 ∷ 32 ∷ [])
        ++ (text st.app_provider
            ++ ((32 ∷ 45 ∷ 45 ∷ 99 ∷ 100 ∷ 32 ∷ 34 ∷ 126 ∷ 34 ∷ 32 ∷ 45 ∷ 45 ∷ 32 ∷ [])
                ++ exec_path)))

-- A null pointer where the text is empty.
abbrev pub option_text : List ℕ → Option (List ℕ)
option_text [] = none
option_text (c ∷ cs) = some (c ∷ cs)

module _ (win : Windows) where
  open win use {World}

  unfoldable pub read_associate : List ℕ → Step World (AssociateWindowId × List ℕ)
  read_associate b st w =
      let (hr, a, rest) = read_associate_window_id empty_associate b in
      if is_failed hr then return_error hr st w else next (a, rest) st w

  -- The command line at this end: that of the entry, one made of the server's path, or none.
  unfoldable pub command_line : List ℕ → Hresult × FoundPaths → State → Step World (List ℕ)
  command_line exec_path (hr, found) st =
      if is_failed hr
      then (elim exec_path [
        | [] ↦ pure []
        | (c ∷ cs) ↦ or_fail (printed max_path (remote_command st (c ∷ cs)))
      ])
      else or_fail (printed max_path (found.exe ++ space ++ found.args))

  -- EnumWindows with FindWslgWindow, which stops at the first window with the id.
  unfoldable pub find_wslg_window : ℕ → TaskBarInfo → List (ℕ × ℕ) → World → World
  find_wslg_window id info [] w = w
  find_wslg_window id info ((hwnd, prop) ∷ rest) w =
      let later = find_wslg_window id info rest w in
      if prop == id then win.update_task_bar_info hwnd info w else later

  unfoldable pub full_window_id : State → AssociateWindowId → ℕ
  full_window_id st a = st.app_provider_guid * 2 ^ 32 + a.app_window_id

  unfoldable pub update_window : ℕ → TaskBarInfo → Step World (Unit {0})
  unfolding find_wslg_window
  update_window id info st w = next tt st (find_wslg_window id info (win.windows w) w)

  unfoldable pub on_associate_window_id : List ℕ → Step World (List ℕ)
  on_associate_window_id b = do
    st ← get
    fail_if (ltb st.server_caps.version 4)
    (a, rest) ← read_associate b
    fail_if (full_window_id st a == 0)
    key ← make_key win a.app_group a.app_id
    let found = find_files st.file_db key none (some max_path) (some max_path) (some max_path)
    command ← command_line (string_of a.app_exec_path) found st
    update_window (full_window_id st a) (record {
      relaunch_cmdline = option_text command;
      display_name = option_text (string_of a.app_desc);
      icon_path = option_text found.1.icon;
    })
    pure rest
