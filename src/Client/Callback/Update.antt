-- ===== src/Client/Callback/Update.antt =====
-- OnUpdateAppList, with CreateIconFile of WSLDVCPlugin/utils.cpp. A bounded string function that fails
-- leaves its array as it was.
use wslg.Common.{
  ℕ, ◌+◌, List, [], ◌∷◌, ◌++◌, Bool, true, false, not, ◌&&◌, ◌||◌, Option, none, some,
}
use wslg.Common.{if◌then◌else◌, ◌==◌, has_flag, take}
use wslg.Protocol.Field
use wslg.Protocol.Hint
use wslg.Client.Hresult.{Hresult, s_ok, e_fail, is_failed}
use wslg.Client.Memory.{text}
use wslg.Client.Pdu.{WString, UpdateAppList, empty_update, IconData, empty_icon}
use wslg.Client.Path.{
  max_path, contains, dot_dot, quote, backslash, dot_ico, dot_lnk, printed, wcscat_s, wcscpy_s,
}
use wslg.Client.Read.{read_app_list_update, read_app_list_icon_data}
use wslg.Client.Windows.{Windows}
use wslg.Client.FileDb.{on_file_added, on_file_removed}
use wslg.Client.Callback.{State}
use wslg.Client.Callback.Steps.{
  Step, next, return_error, ◌>>=◌, ◌>>◌, pure, get, modify, fail_if, or_fail, when,
  create_directory,
}
use wslg.Client.Callback.Sync.{on_sync_start, on_sync_end}

-- What the buffer read scope reads, and the bytes after it.
pub record Message : Type 0 where
  pub update : UpdateAppList
  pub icon : IconData
  pub rest : List ℕ

-- The C string in a field of the message.
abbrev pub string_of : WString → List ℕ
string_of s = text s.chars

-- `oLength != 0`
abbrev pub is_given : WString → Bool
is_given s = not (s.len == 0)

abbrev is_some : {A : Type 0} → Option A → Bool
is_some none = false
is_some (some a) = true

-- The name has ".." or a double quote in it.
unfoldable pub name_is_bad : List ℕ → Bool
name_is_bad name = contains dot_dot name || contains quote name

unfoldable pub names_are_bad : UpdateAppList → Bool
names_are_bad u =
    (is_given u.app_group && name_is_bad (string_of u.app_group))
    || (name_is_bad (string_of u.app_id)
        || (name_is_bad (string_of u.app_desc) || contains quote (string_of u.app_working_dir)))

-- L"-d %s --cd \"%s\" -- %s"
unfoldable pub exe_args_text : List ℕ → UpdateAppList → List ℕ
exe_args_text provider u =
    (45 ∷ 100 ∷ 32 ∷ [])
    ++ (provider
        ++ ((32 ∷ 45 ∷ 45 ∷ 99 ∷ 100 ∷ 32 ∷ 34 ∷ [])
            ++ ((if is_given u.app_working_dir then string_of u.app_working_dir else 126 ∷ [])
                ++ ((34 ∷ 32 ∷ 45 ∷ 45 ∷ 32 ∷ []) ++ string_of u.app_exec_path))))

module _ (win : Windows) where
  open win use {World}

  unfoldable pub read_message : List ℕ → Step World Message
  read_message b st w =
      let (hr, u, rest) = read_app_list_update empty_update b in
      let (icon_hr, icon, icon_rest) =
        read_app_list_icon_data (win.local_alloc w) empty_icon rest in
      if is_failed hr
      then return_error hr st w
      else if has_flag u.flags Field.icon
      then (if is_failed icon_hr
          then return_error icon_hr st w
          else next (record { update = u; icon = icon; rest = icon_rest }) st w)
      else next (record { update = u; icon = empty_icon; rest = rest }) st w

  -- Sync or sync end without a sync start fails.
  unfoldable pub need_sync_db : ℕ → State → Step World (Unit {0})
  need_sync_db flags st =
      fail_if (has_flag flags (Hint.sync + Hint.sync_end) && not (is_some st.file_db_sync))

  -- The directory of the group below `path`, which is made, or `path` itself.
  unfoldable pub add_group : WString → List ℕ → Step World (List ℕ)
  add_group group path =
      if is_given group
      then (do
        path ← or_fail (wcscat_s max_path path backslash)
        path ← or_fail (wcscat_s max_path path (string_of group))
        create_directory win path
        pure path)
      else pure path

  -- `path`, a backslash, a name and an extension.
  unfoldable pub add_file : List ℕ → List ℕ → List ℕ → Step World (List ℕ)
  add_file name extension path = do
    path ← or_fail (wcscat_s max_path path backslash)
    path ← or_fail (wcscat_s max_path path name)
    or_fail (wcscat_s max_path path extension)

  unfoldable pub make_path : List ℕ → WString → List ℕ → List ℕ → Step World (List ℕ)
  unfolding add_group add_file
  make_path dir group name extension = do
    path ← or_fail (wcscpy_s max_path dir)
    create_directory win path
    path ← add_group group path
    add_file name extension path

  unfoldable pub make_icon_path : State → UpdateAppList → Step World (List ℕ)
  unfolding make_path
  make_icon_path st u =
      if has_flag u.flags Field.icon
      then make_path st.icon_path u.app_group (string_of u.app_id) dot_ico
      else pure []

  -- A group and a backslash, or nothing, and then the id.
  unfoldable pub make_key : WString → WString → Step World (List ℕ)
  make_key group id =
      if is_given group
      then (do
        key ← or_fail (wcscat_s max_path [] (string_of group))
        key ← or_fail (wcscat_s max_path key backslash)
        or_fail (wcscat_s max_path key (string_of id)))
      else or_fail (wcscat_s max_path [] (string_of id))

  unfoldable pub add_to_db : List ℕ → List ℕ → List ℕ → List ℕ → Step World (Unit {0})
  add_to_db key link icon args st w =
      let (hr, db) =
        on_file_added st.file_db key (some link) (some icon) (some st.expanded_path_obj)
          (some args) in
      let st' = record st { file_db = db } in
      if is_failed hr then return_error hr st' w else next tt st' w

  unfoldable pub create_icon_file : IconData → List ℕ → World → World × Hresult
  create_icon_file icon path w =
      let (w', opened) = win.create_file path w in
      let (w'', written) = win.write_file path (take icon.icon_file_size icon.icon_file_data) w' in
      if opened then (w'', if written then s_ok else e_fail) else (w', e_fail)

  -- The icon file, whose failure is ignored: whether there is one now.
  unfoldable pub write_icon_file : UpdateAppList → IconData → List ℕ → Step World Bool
  unfolding create_icon_file
  write_icon_file u icon path st w =
      let (w', hr) = create_icon_file icon path w in
      if has_flag u.flags Field.icon then next (not (is_failed hr)) st w' else next false st w

  abbrev option_path : List ℕ → Option (List ℕ)
  option_path [] = none
  option_path (c ∷ cs) = some (c ∷ cs)

  unfoldable pub create_shell_link :
      UpdateAppList → List ℕ → List ℕ → List ℕ → Bool → State → World → World
  create_shell_link u link args icon has_icon st w =
      (win.save_shell_link
        (record {
          path_link = link;
          path_obj = st.expanded_path_obj;
          args = args;
          working_dir = st.expanded_working_dir;
          desc = string_of u.app_desc;
          path_icon = if has_icon then option_path icon else none;
        })
        w).0

  -- A file that is reported is not removed at the end.
  unfoldable pub keep_in_sync : List ℕ → State → State
  keep_in_sync path st = record st {
    file_db_sync = elim st.file_db_sync [
      | none ↦ none
      | some db ↦ some ((on_file_removed db path).1)
    ];
  }

  unfoldable pub end_sync : Step World (Unit {0})
  end_sync st w = let (st', w') = on_sync_end win true st w in next tt st' w'

  -- What follows when the paths and the key are known.
  unfoldable pub publish : Message → List ℕ → List ℕ → List ℕ → List ℕ → Step World (Unit {0})
  unfolding add_to_db write_icon_file create_shell_link keep_in_sync end_sync
  publish m icon_path link_path args key = do
    add_to_db key link_path icon_path args
    has_icon ← write_icon_file m.update m.icon icon_path
    (λ st w. next tt st (create_shell_link m.update link_path args icon_path has_icon st w))
    when (has_flag m.update.flags Hint.sync) (modify (keep_in_sync link_path))
    when (has_flag m.update.flags Hint.sync && has_icon) (modify (keep_in_sync icon_path))
    when (has_flag m.update.flags Hint.sync_end) end_sync

  unfoldable pub on_update_app_list : List ℕ → Step World (List ℕ)
  on_update_app_list b = do
    m ← read_message b
    when (has_flag m.update.flags Hint.sync_start) (on_sync_start win)
    st ← get
    need_sync_db m.update.flags st
    fail_if (names_are_bad m.update)
    icon_path ← make_icon_path st m.update
    link_path ← make_path st.app_menu_path m.update.app_group (string_of m.update.app_desc) dot_lnk
    args ← or_fail (printed max_path (exe_args_text (text st.app_provider) m.update))
    key ← make_key m.update.app_group m.update.app_id
    publish m icon_path link_path args key
    pure m.rest
