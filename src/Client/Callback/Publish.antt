-- ===== src/Client/Callback/Publish.antt =====
-- OnUpdateAppList on a message of an id, a command and a description, with no group, no icon and no
-- synchronisation.
use wslg.Common.{
  ℕ, ◌+◌, ◌<◌, ◌≡◌, refl, ap, ◌∙◌, List, [], ◌∷◌, ◌++◌, false, ◌||◌, some, none, arith, length,
  length-append,
}
use wslg.Common.{has_flag}
use wslg.Protocol.Field
use wslg.Protocol.Hint
use wslg.Client.Hresult.{s_ok}
use wslg.Client.Memory.{text}
use wslg.Client.Pdu.{UpdateAppList, empty_update, empty_icon}
use wslg.Client.Path.{max_path, backslash, dot_lnk, printed}
use wslg.Client.Path.Fits.{wcscat_s_fits, wcscpy_s_fits, printed_fits}
use wslg.Client.Read.{read_app_list_update}
use wslg.Client.Windows.{Windows}
use wslg.Client.FileDb.{insert, find}
use wslg.Client.FileDb.Added.{entry_for, on_file_added-new}
use wslg.Client.Callback.{State}
use wslg.Client.Callback.Steps.{
  next_then, next, ◌>>=◌, pure, get, fail_if, or_fail, when, create_directory,
}
use wslg.Client.Callback.Key.{make_key-id}
use wslg.Client.Callback.Sync.{on_sync_start}
use wslg.Client.Callback.Update.{
  Message, string_of, is_given, name_is_bad, names_are_bad, exe_args_text, read_message,
  need_sync_db, add_group, add_file, make_path, make_icon_path, make_key, add_to_db,
  write_icon_file, create_shell_link, publish, on_update_app_list,
}

-- `menu\name.lnk`
abbrev pub menu_link : List ℕ → List ℕ → List ℕ
menu_link menu name = ((menu ++ backslash) ++ name) ++ dot_lnk

-- `-d provider --cd "~" -- command`
abbrev pub launch_args : List ℕ → List ℕ → List ℕ
launch_args provider command =
    (45 ∷ 100 ∷ 32 ∷ [])
    ++ (provider
        ++ ((32 ∷ 45 ∷ 45 ∷ 99 ∷ 100 ∷ 32 ∷ 34 ∷ [])
            ++ ((126 ∷ []) ++ ((34 ∷ 32 ∷ 45 ∷ 45 ∷ 32 ∷ []) ++ command))))

-- What the client has read of such a message.
pub record IsLaunch (v : UpdateAppList) (id command desc : List ℕ) : Type 0 where
  pub flags_are : v.flags ≡ 13
  pub id_is : string_of v.app_id ≡ id
  pub command_is : string_of v.app_exec_path ≡ command
  pub desc_is : string_of v.app_desc ≡ desc
  pub no_group : is_given v.app_group ≡ false
  pub no_dir : is_given v.app_working_dir ≡ false
  pub no_quote : names_are_bad v ≡ name_is_bad id || name_is_bad desc

has_flag-launch :
    (v : UpdateAppList) (id command desc : List ℕ)
    → IsLaunch v id command desc
    → (flag : ℕ) → has_flag 13 flag ≡ false
    → has_flag v.flags flag ≡ false
has_flag-launch v id command desc h flag off = ap (λ f. has_flag f flag) h.flags_are ∙ off

-- The texts are plain and the path, the arguments and the key fit their buffers.
pub record LaunchFits (st : State) (id command desc : List ℕ) : Type 0 where
  pub id_plain : name_is_bad id ≡ false
  pub desc_plain : name_is_bad desc ≡ false
  pub link_short : length st.app_menu_path + 5 + length desc < 260
  pub args_short : 16 + length (text st.app_provider) + length command < 260
  pub id_short : length id < 260

-- The object and the world after such a message.
abbrev pub launched :
    (win : Windows) → State → List ℕ → List ℕ → List ℕ → win.World → State × win.World
launched win st id command desc w' =
    let link = menu_link st.app_menu_path desc in
    let args = launch_args (text st.app_provider) command in
    (
      record st {
        file_db =
            insert (entry_for id (some link) (some []) (some st.expanded_path_obj) (some args))
              st.file_db;
      },
      (win.save_shell_link
          (record {
            path_link = link;
            path_obj = st.expanded_path_obj;
            args = args;
            working_dir = st.expanded_working_dir;
            desc = desc;
            path_icon = none;
          })
          w').0,
    )

pub length-launch_args :
    (provider command : List ℕ)
    → length (launch_args provider command) ≡ 16 + length provider + length command
length-launch_args provider command = omega (
  arith,
  length-append provider
      (32 ∷ 45 ∷ 45 ∷ 99 ∷ 100 ∷ 32 ∷ 34 ∷ 126 ∷ 34 ∷ 32 ∷ 45 ∷ 45 ∷ 32 ∷ command),
)

module _ (win : Windows) (st : State) (w : win.World) where
  make_path-link :
      (g : UpdateAppList) (name : List ℕ) (w' : win.World)
      → is_given g.app_group ≡ false
      → create_directory win st.app_menu_path st w ≡ next tt st w'
      → length st.app_menu_path + 5 + length name < 260
      → make_path win st.app_menu_path g.app_group name dot_lnk st w
        ≡ next (menu_link st.app_menu_path name) st w'
  unfolding make_path add_group add_file ◌>>=◌ or_fail pure
  make_path-link g name w' no_group made short =
      let menu = st.app_menu_path in
      let len₁ : length (menu ++ backslash) ≡ length menu + 1 =
        omega (arith, length-append menu backslash) in
      let len₂ : length ((menu ++ backslash) ++ name) ≡ length menu + 1 + length name =
        omega (arith, length-append (menu ++ backslash) name) in
      let whole = wcscpy_s_fits max_path menu (omega arith) in
      let put_backslash = wcscat_s_fits max_path menu backslash (omega arith) in
      let put_name = wcscat_s_fits max_path (menu ++ backslash) name (omega arith) in
      let put_lnk = wcscat_s_fits max_path ((menu ++ backslash) ++ name) dot_lnk (omega arith) in
      rw (make_path, whole)
        (rw (◌>>=◌, or_fail, made)
          (rw (add_group, no_group)
            (rw (pure, add_file, put_backslash) (rw (or_fail, put_name) (rw put_lnk refl)))))

  exe_args-launch :
      (v : UpdateAppList) (id command desc : List ℕ)
      → IsLaunch v id command desc
      → exe_args_text (text st.app_provider) v ≡ launch_args (text st.app_provider) command
  unfolding exe_args_text
  exe_args-launch v id command desc h = rw (exe_args_text, h.no_dir, h.command_is) refl

  -- The entry under the id, and the link, where there was no entry.
  publish-launch :
      (m : Message) (id command desc link args : List ℕ) (w' : win.World)
      → IsLaunch m.update id command desc
      → find id st.file_db ≡ none
      → publish win m [] link args id st w'
        ≡ next tt
            (record st {
              file_db =
                  insert
                    (entry_for id (some link) (some []) (some st.expanded_path_obj) (some args))
                    st.file_db;
            })
            (win.save_shell_link
              (record {
                path_link = link;
                path_obj = st.expanded_path_obj;
                args = args;
                working_dir = st.expanded_working_dir;
                desc = desc;
                path_icon = none;
              })
              w').0
  unfolding publish ◌>>=◌ add_to_db write_icon_file create_shell_link when has_flag
  publish-launch m id command desc link args w' h missing =
      rw
        (
          publish,
          ◌>>=◌,
          add_to_db,
          on_file_added-new st.file_db id (some link) (some []) (some st.expanded_path_obj)
              (some args) missing,
        )
        (rw (write_icon_file, has_flag-launch m.update id command desc h Field.icon refl)
          (rw (has_flag-launch m.update id command desc h Hint.sync refl) (
            rw
              (
                when,
                has_flag-launch m.update id command desc h Hint.sync_end refl,
                create_shell_link,
                h.desc_is,
              )
              refl)))

  read_launch :
      (v : UpdateAppList) (b rest : List ℕ)
      → read_app_list_update empty_update b ≡ (s_ok, v, rest)
      → has_flag v.flags Field.icon ≡ false
      → read_message win b st w ≡ next (record { update = v; icon = empty_icon; rest = rest }) st w
  unfolding read_message
  read_launch v b rest read no_icon = rw (read_message, read, no_icon) refl

  pub on_update_app_list-launch :
      (v : UpdateAppList) (id command desc b rest : List ℕ) (w' : win.World)
      → IsLaunch v id command desc
      → LaunchFits st id command desc
      → find id st.file_db ≡ none
      → read_app_list_update empty_update b ≡ (s_ok, v, rest)
      → create_directory win st.app_menu_path st w ≡ next tt st w'
      → on_update_app_list win b st w
        ≡ next rest (launched win st id command desc w').0 (launched win st id command desc w').1
  unfolding on_update_app_list when get need_sync_db fail_if make_icon_path or_fail pure has_flag
  on_update_app_list-launch v id command desc b rest w' h fit missing read made =
      let off =
        λ (flag : ℕ) (o : has_flag 13 flag ≡ false). has_flag-launch v id command desc h flag o in
      let args_len = length-launch_args (text st.app_provider) command in
      let plain : names_are_bad v ≡ false =
        ground (arith, h.no_quote, fit.id_plain, fit.desc_plain) in
      let m : Message = record { update = v; icon = empty_icon; rest = rest } in
      let menu = st.app_menu_path in
      let args = launch_args (text st.app_provider) command in
      let (after, w'') = launched win st id command desc w' in
      next_then st st w w m (read_message win b) _ (read_launch v b rest read (off Field.icon refl))
      ∙ next_then st st w w tt (when (has_flag v.flags Hint.sync_start) (on_sync_start win)) _
          (rw (when, off Hint.sync_start refl) refl)
      ∙ next_then st st w w st get _ refl
      ∙ next_then st st w w tt (need_sync_db win v.flags st) _
          (rw (need_sync_db, off (Hint.sync + Hint.sync_end) refl) refl)
      ∙ next_then st st w w tt (fail_if (names_are_bad v)) _ (rw (fail_if, plain) refl)
      ∙ next_then st st w w [] (make_icon_path win st v) _
          (rw (make_icon_path, off Field.icon refl) refl)
      ∙ next_then st st w w' (menu_link menu desc)
          (make_path win menu v.app_group (string_of v.app_desc) dot_lnk) _
          (rw h.desc_is (make_path-link v desc w' h.no_group made fit.link_short))
      ∙ next_then st st w' w' args
          (or_fail (printed max_path (exe_args_text (text st.app_provider) v))) _
          (rw
            (
              exe_args-launch v id command desc h,
              or_fail,
              printed_fits max_path args (omega arith) (omega arith),
            )
            refl)
      ∙ next_then st st w' w' id (make_key win v.app_group v.app_id) _
          (make_key-id win v.app_group v.app_id id st w' h.no_group h.id_is fit.id_short)
      ∙ next_then st after w' w'' tt (publish win m [] (menu_link menu desc) args id) _
          (publish-launch m id command desc (menu_link menu desc) args w' h missing)
