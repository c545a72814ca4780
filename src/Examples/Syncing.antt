-- ===== src/Examples/Syncing.antt =====
-- A synchronisation with one link under the menu directory.
use wslg.Common.{
  ℕ, ◌≡◌, ◌≢◌, refl, sym, ◌∙◌, List, [], ◌∷◌, Bool, true, some, ◌||◌, Bool-cases, inl, inr, false,
  Has, All, subst,
}
use wslg.Client.Path.{dot_lnk}
use wslg.Common.{◌++◌, has_flag}
use wslg.Client.Hresult.{s_ok}
use wslg.Client.Path.{backslash, printed}
use wslg.Client.Callback.Caps.{programs}
use wslg.Client.Provider.{
  is_directory_present, menu_path, remove_app_provider, remove_app_provider-removes,
}
use wslg.Client.Windows.{Windows, file, no_more, more}
use wslg.Client.FileDb.{FileEntry, str_eq, order}
use wslg.Client.FileDb.Comparison.{str_eq→eq, str_eq_refl}
use wslg.Client.SyncDb.{add_all_files_as_file_id_at}
use wslg.Client.SyncDb.Removed.{RemoveLaws, links}
use wslg.Client.SyncDb.Unreported.{
  report_all, linked_icon_removed_sync, unreported_file_removed_sync,
}
use wslg.Client.SyncDb.Cleanup.{FileLaws, reported_file_survives_sync}
use wslg.Client.Callback.{State, initial}
use wslg.Client.Callback.Steps.{next}
use wslg.Client.Callback.Sync.{on_sync_start, on_sync_end}
use wslg.Client.Callback.Update.{keep_in_sync}
use wslg.Examples.Desk.{desk, remove}

-- The menu directory lists one link.
abbrev menu : Windows
menu = record desk {
  list_directory = λ path w. more (file (97 ∷ [])) no_more;
  find_extension = λ name. dot_lnk;
  is_directory_empty = λ dir w. false;
}

exists : List ℕ → List (List ℕ) → Bool
exists path [] = false
exists path (p ∷ ps) = str_eq path p || exists path ps

exists-remove :
    (path other : List ℕ) (w : List (List ℕ))
    → path ≢ other
    → exists other (remove path w) ≡ exists other w
unfolding exists remove
exists-remove path other [] ne = refl
exists-remove path other (p ∷ ps) ne = elim (Bool-cases (str_eq path p)) [
  | inr apart ↦ rw (remove, apart) (rw (exists-remove path other ps ne) refl)
  | inl same ↦ elim (Bool-cases (str_eq other p)) [
    | inl also ↦ absurd (ne (str_eq→eq path p same ∙ sym (str_eq→eq other p also)))
    | inr apart ↦ rw (remove, same, apart) (exists-remove path other ps ne)
  ]
]

menu-FileLaws : FileLaws menu (λ a b. a ≡ b) exists
menu-FileLaws = record { delete_other = exists-remove; remove_directory_keeps = λ dir path w. refl }

exists-remove_self : (path : List ℕ) (w : List (List ℕ)) → exists path (remove path w) ≡ false
unfolding exists remove
exists-remove_self path [] = refl
exists-remove_self path (p ∷ ps) = elim (Bool-cases (str_eq path p)) [
  | inl same ↦ rw (remove, same) (exists-remove_self path ps)
  | inr apart ↦ rw (remove, apart) (rw (apart, exists-remove_self path ps) refl)
]

exists-remove_none :
    (path other : List ℕ) (w : List (List ℕ))
    → exists other w ≡ false
    → exists other (remove path w) ≡ false
exists-remove_none path other w gone = elim (Bool-cases (str_eq path other)) [
  | inl same ↦
      subst (λ q. exists q (remove path w) ≡ false) (str_eq→eq path other same)
        (exists-remove_self path w)
  | inr apart ↦ exists-remove path other w (λ e. absurd (cc (apart, e, str_eq_refl path))) ∙ gone
]

menu-RemoveLaws : RemoveLaws menu exists (λ path w. false)
menu-RemoveLaws = record {
  delete_self = λ path w here free. exists-remove_self path w;
  delete_makes_none = exists-remove_none;
  delete_locks_none = λ path other w free. refl;
  directory_exists = λ dir path w. refl;
  directory_locked = λ dir path w. refl;
  directory_link = λ dir link w. refl;
  not_empty = λ dir rest w h. refl;
}

-- The link's path.
abbrev link : List ℕ
link = 92 ∷ 97 ∷ []

started :
    on_sync_start menu initial (link ∷ [])
    ≡ next tt
        (record initial { file_db_sync = some (add_all_files_as_file_id_at menu [] (link ∷ [])).0 })
        (add_all_files_as_file_id_at menu [] (link ∷ [])).1
unfolding on_sync_start
started = refl

one_spelling :
    (path : List ℕ) (db : List FileEntry) → All (λ e. e.file_id ≡ path → e.file_id ≡ path) db
one_spelling path [] = tt
one_spelling path (e ∷ es) = ((λ same. same), one_spelling path es)

reported_file_survives_sync_example :
    exists link
      (on_sync_end menu true
        (keep_in_sync menu link (record initial {
          file_db_sync = some (add_all_files_as_file_id_at menu [] (link ∷ [])).0;
        }))
        (link ∷ [])).1
    ≡ exists link (link ∷ [])
reported_file_survives_sync_example =
    reported_file_survives_sync menu (λ a b. a ≡ b) exists menu-FileLaws initial _ (link ∷ []) _
      (link ∷ []) link tt started (one_spelling link _)

listed : Has link (links menu [] (more (file (97 ∷ [])) no_more))
unfolding links str_eq order
listed = inl refl

there : exists link (link ∷ []) ≡ true
unfolding exists str_eq order
there = refl

-- A report of another file.
unreported_file_removed_sync_example :
    exists link
      (on_sync_end menu true
        (report_all menu ((92 ∷ []) ∷ []) (record initial {
          file_db_sync = some (add_all_files_as_file_id_at menu [] (link ∷ [])).0;
        }))
        (link ∷ [])).1
    ≡ false
unreported_file_removed_sync_example =
    unreported_file_removed_sync menu exists (λ path w. false) menu-RemoveLaws initial _ (link ∷ [])
      _ (link ∷ []) link ((92 ∷ []) ∷ []) tt started listed there (λ e. cc, tt) refl

-- The provider "d" has a menu with one link.
abbrev provider_menu : List ℕ
provider_menu = 67 ∷ (programs ++ 100 ∷ [])

abbrev provider_link : List ℕ
provider_link = provider_menu ++ backslash ++ 97 ∷ []

provider_listed : Has provider_link (links menu provider_menu (more (file (97 ∷ [])) no_more))
unfolding links str_eq order
provider_listed = inl refl

provider_there : exists provider_link (provider_link ∷ []) ≡ true
unfolding exists str_eq order
provider_there = refl

provider_menu_present :
    is_directory_present menu (λ path w. 16) provider_menu (provider_link ∷ []) ≡ true
unfolding is_directory_present has_flag
provider_menu_present = refl

provider_menu_path :
    menu_path menu (λ path w. 16) (100 ∷ []) (provider_link ∷ []) ≡ some provider_menu
unfolding menu_path printed
provider_menu_path = refl

remove_app_provider-removes_example :
    (exists provider_link
        (remove_app_provider menu (λ path w. 16) (some (100 ∷ [])) (provider_link ∷ [])).0
      ≡ false)
    × ((remove_app_provider menu (λ path w. 16) (some (100 ∷ [])) (provider_link ∷ [])).1 ≡ s_ok)
remove_app_provider-removes_example =
    remove_app_provider-removes menu (λ path w. 16) exists (λ path w. false) menu-RemoveLaws
      (100 ∷ []) provider_menu provider_link (provider_link ∷ []) provider_menu_path
      provider_menu_present refl provider_listed provider_there refl

-- A file that is not below the menu directory, and that the link has for its icon.
abbrev elsewhere : List ℕ
elsewhere = 67 ∷ 92 ∷ 120 ∷ []

abbrev iconic : Windows
iconic = record menu { shell_link_icon = λ path w. (s_ok, elsewhere) }

iconic-RemoveLaws : RemoveLaws iconic exists (λ path w. false)
iconic-RemoveLaws = record {
  delete_self = λ path w here free. exists-remove_self path w;
  delete_makes_none = exists-remove_none;
  delete_locks_none = λ path other w free. refl;
  directory_exists = λ dir path w. refl;
  directory_locked = λ dir path w. refl;
  directory_link = λ dir link w. refl;
  not_empty = λ dir rest w h. refl;
}

abbrev iconic_state : State
iconic_state = record initial {
  file_db_sync = some (add_all_files_as_file_id_at iconic [] (link ∷ elsewhere ∷ [])).0;
}

iconic_started :
    on_sync_start iconic initial (link ∷ elsewhere ∷ [])
    ≡ next tt iconic_state (add_all_files_as_file_id_at iconic [] (link ∷ elsewhere ∷ [])).1
unfolding on_sync_start
iconic_started = refl

iconic_there : exists link (link ∷ elsewhere ∷ []) ≡ true
unfolding exists str_eq order
iconic_there = refl

iconic_listed : Has link (links iconic [] (more (file (97 ∷ [])) no_more))
unfolding links str_eq order
iconic_listed = inl refl

-- The link itself is reported.
linked_icon_removed_sync_example :
    exists elsewhere
      (on_sync_end iconic true
        (report_all iconic (link ∷ []) iconic_state)
        (link ∷ elsewhere ∷ [])).1
    ≡ false
linked_icon_removed_sync_example =
    linked_icon_removed_sync iconic exists (λ path w. false) iconic-RemoveLaws initial _
      (link ∷ elsewhere ∷ []) _ (link ∷ elsewhere ∷ []) link elsewhere (link ∷ []) tt iconic_started
      iconic_listed iconic_there refl (λ e. cc, tt) refl
