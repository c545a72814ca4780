-- ===== src/Client/Callback/Windowed.antt =====
-- OnAssociateWindowId for an application that is in the file database.
use wslg.Common.{
  ℕ, ◌+◌, ◌<◌, ◌≡◌, ◌≢◌, refl, ◌∙◌, List, [], ◌∷◌, ◌++◌, false, some, arith, length, length-append,
  All, ltb, ◌==◌,
}
use wslg.Client.Hresult.{s_ok}
use wslg.Client.Pdu.{AssociateWindowId, empty_associate}
use wslg.Client.Path.{max_path, space}
use wslg.Client.Path.Fits.{printed_fits}
use wslg.Client.Read.{read_associate_window_id}
use wslg.Client.Windows.{Windows, TaskBarInfo}
use wslg.Client.FileDb.{FileEntry, find}
use wslg.Client.FileDb.Added.{find_files-icon_exe_args}
use wslg.Client.Callback.{State}
use wslg.Client.Callback.Key.{make_key-id}
use wslg.Client.Callback.Steps.{next, pure, get, fail_if, or_fail, next_then}
use wslg.Client.Callback.Update.{make_key, string_of, is_given}
use wslg.Client.Callback.Associate.{
  option_text, read_associate, command_line, find_wslg_window, full_window_id, update_window,
  on_associate_window_id,
}

-- What the client has read of a message on the application `id`, with no group.
pub record IsAssociation (v : AssociateWindowId) (id desc : List ℕ) : Type 0 where
  pub id_is : string_of v.app_id ≡ id
  pub desc_is : string_of v.app_desc ≡ desc
  pub no_group : is_given v.app_group ≡ false

-- The paths of the entry and the command line of both fit their buffers.
pub record EntryFits (e : FileEntry) : Type 0 where
  pub icon_short : length e.icon_file_path < 260
  pub command_short : length e.exe_file_path + 1 + length e.exe_file_args < 260

-- What the task bar gets: the command of the entry, the description, and the icon, if there is one.
abbrev pub relaunch : FileEntry → List ℕ → TaskBarInfo
relaunch e desc = record {
  relaunch_cmdline = some (e.exe_file_path ++ space ++ e.exe_file_args);
  display_name = option_text desc;
  icon_path = option_text e.icon_file_path;
}

-- The first window with the id is the one that is updated.
find_wslg_window-first :
    (win : Windows) (id hwnd : ℕ) (info : TaskBarInfo) (before after : List (ℕ × ℕ)) (w : win.World)
    → All (λ p. p.1 ≢ id) before
    → find_wslg_window win id info (before ++ ((hwnd, id) ∷ after)) w
      ≡ win.update_task_bar_info hwnd info w
unfolding find_wslg_window
find_wslg_window-first win id hwnd info [] after w others = ground arith
find_wslg_window-first win id hwnd info ((h, prop) ∷ before) after w (other, others) =
    let later = find_wslg_window-first win id hwnd info before after w others in ground arith

option_text-some : (xs : List ℕ) → 0 < length xs → option_text xs ≡ some xs
option_text-some [] h = absurd (omega (arith, h))
option_text-some (c ∷ cs) h = refl

module _ (win : Windows) (st : State) (w : win.World) where
  command_line-entry :
      (e : FileEntry) (exec icon link : List ℕ)
      → EntryFits e
      → command_line win exec
          (s_ok, record { link = link; icon = icon; exe = e.exe_file_path; args = e.exe_file_args })
          st
          st
          w
        ≡ next (e.exe_file_path ++ space ++ e.exe_file_args) st w
  unfolding command_line or_fail
  command_line-entry e exec icon link fit =
      let command = e.exe_file_path ++ space ++ e.exe_file_args in
      let len : length command ≡ length e.exe_file_path + 1 + length e.exe_file_args = omega (
        arith,
        length-append (e.exe_file_path ++ space) e.exe_file_args,
        length-append e.exe_file_path space,
      ) in
      rw
        (
          command_line,
          or_fail,
          printed_fits max_path command (omega arith) (omega (arith, fit.command_short)),
        )
        refl

  read_associate-read :
      (v : AssociateWindowId) (b rest : List ℕ)
      → read_associate_window_id empty_associate b ≡ (s_ok, v, rest)
      → read_associate win b st w ≡ next (v, rest) st w
  unfolding read_associate
  read_associate-read v b rest read = rw (read_associate, read) refl

  update_window-first :
      (full hwnd : ℕ) (e : FileEntry) (desc : List ℕ) (before after : List (ℕ × ℕ))
      → win.windows w ≡ before ++ ((hwnd, full) ∷ after)
      → All (λ p. p.1 ≢ full) before
      → update_window win full
          (record {
            relaunch_cmdline = option_text (e.exe_file_path ++ space ++ e.exe_file_args);
            display_name = option_text desc;
            icon_path = option_text e.icon_file_path;
          })
          st
          w
        ≡ next tt st (win.update_task_bar_info hwnd (relaunch e desc) w)
  unfolding update_window
  update_window-first full hwnd e desc before after listed others =
      rw
        (
          update_window,
          listed,
          find_wslg_window-first win full hwnd _ before after w others,
          option_text-some (e.exe_file_path ++ space ++ e.exe_file_args) (
              omega (
                arith,
                length-append (e.exe_file_path ++ space) e.exe_file_args,
                length-append e.exe_file_path space,
              )),
        )
        refl

  pub on_associate_window_id-entry :
      (v : AssociateWindowId) (id desc b rest : List ℕ) (e : FileEntry) (hwnd : ℕ)
      (before after : List (ℕ × ℕ))
      → IsAssociation v id desc
      → EntryFits e
      → length id < 260
      → find id st.file_db ≡ some e
      → ltb st.server_caps.version 4 ≡ false
      → (full_window_id win st v == 0) ≡ false
      → read_associate_window_id empty_associate b ≡ (s_ok, v, rest)
      → win.windows w ≡ before ++ ((hwnd, full_window_id win st v) ∷ after)
      → All (λ p. p.1 ≢ full_window_id win st v) before
      → on_associate_window_id win b st w
        ≡ next rest st (win.update_task_bar_info hwnd (relaunch e desc) w)
  unfolding on_associate_window_id get fail_if update_window pure
  on_associate_window_id-entry v id desc b rest e hwnd before after h fit short found version
        some_id read listed others =
      let full = full_window_id win st v in
      let command = e.exe_file_path ++ space ++ e.exe_file_args in
      let paths =
        find_files-icon_exe_args st.file_db id max_path e found fit.icon_short
          (omega (arith, fit.command_short)) (omega (arith, fit.command_short)) in
      next_then st st w w st get _ refl
      ∙ next_then st st w w tt (fail_if (ltb st.server_caps.version 4)) _
          (rw (fail_if, version) refl)
      ∙ next_then st st w w (v, rest) (read_associate win b) _ (read_associate-read v b rest read)
      ∙ next_then st st w w tt (fail_if (full == 0)) _ (rw (fail_if, some_id) refl)
      ∙ next_then st st w w id (make_key win v.app_group v.app_id) _
          (make_key-id win v.app_group v.app_id id st w h.no_group h.id_is short)
      ∙ rw (paths, h.desc_is)
          (next_then st st w w command
              (command_line win (string_of v.app_exec_path)
                (
                  s_ok,
                  record {
                    link = [];
                    icon = e.icon_file_path;
                    exe = e.exe_file_path;
                    args = e.exe_file_args;
                  },
                )
                st)
              _ (command_line-entry e (string_of v.app_exec_path) e.icon_file_path [] fit)
            ∙ next_then st st w (win.update_task_bar_info hwnd (relaunch e desc) w) tt
                (update_window win full (record {
                  relaunch_cmdline = option_text command;
                  display_name = option_text desc;
                  icon_path = option_text e.icon_file_path;
                }))
                _ (update_window-first full hwnd e desc before after listed others))
