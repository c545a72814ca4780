-- ===== src/Client/Provider.antt =====
-- RemoveAppProvider of WSLDVCPlugin/dllmain.cpp, which removes the menu of a provider whose
-- distribution is gone.
use wslg.Common.{ℕ, ◌≡◌, refl, List, ◌++◌, Bool, true, false, not, ◌&&◌, Option, none, some, Has}
use wslg.Common.{◌==◌, if◌then◌else◌, has_flag}
use wslg.Client.Hresult.{Hresult, s_ok, e_fail, e_invalidarg, is_failed}
use wslg.Client.Path.{max_path, printed}
use wslg.Client.Windows.{Windows}
use wslg.Client.Callback.Caps.{programs}
use wslg.Client.SyncDb.{add_all_files_as_file_id_at, delete_all_file_id_files}
use wslg.Client.SyncDb.Removed.{RemoveLaws, links, scanned_link_removed}

-- `file_attributes` is GetFileAttributesW, with INVALID_FILE_ATTRIBUTES where it fails.
module _ (win : Windows) (file_attributes : List ℕ → win.World → ℕ) where
  open win use {World}

  unfoldable pub is_directory_present : List ℕ → World → Bool
  is_directory_present path w =
      let attributes = file_attributes path w in
      not (attributes == 0xffff_ffff) && has_flag attributes 0x10

  -- BuildMenuPath where the directory is not to be made; none for E_FAIL.
  unfoldable pub menu_path : List ℕ → World → Option (List ℕ)
  menu_path provider w = elim (win.start_menu_path w) [
    | none ↦ none
    | some folder ↦ printed max_path (folder ++ programs ++ provider)
  ]

  -- The argument is none for a null pointer.
  unfoldable pub remove_app_provider : Option (List ℕ) → World → World × Hresult
  unfolding menu_path is_directory_present
  remove_app_provider none w = (w, e_invalidarg)
  remove_app_provider (some provider) w = elim (menu_path provider w) [
    | none ↦ (w, e_fail)
    | some path ↦
        if not (is_directory_present path w)
        then (w, s_ok)
        else if is_failed (win.make_file_db w)
        then (w, win.make_file_db w)
        else (let (db, w') = add_all_files_as_file_id_at win path w in
            (delete_all_file_id_files win db w', win.make_file_db w))
  ]

  -- RemoveAppProvider of a provider whose menu directory is there returns S_OK and leaves no link
  -- that the directory lists, directly or below, but locked ones, as read-only and open files are,
  -- if a file database can be made; under the same laws of DeleteFileW and RemoveDirectoryW as for
  -- a synchronisation.
  pub remove_app_provider-removes :
      (exists locked : List ℕ → World → Bool)
      → RemoveLaws win exists locked
      → (provider path link : List ℕ) (w : World) → menu_path provider w ≡ some path
      → is_directory_present path w ≡ true
      → win.make_file_db w ≡ s_ok
      → Has link (links win path (win.list_directory path w))
      → exists link w ≡ true
      → locked link w ≡ false
      → (exists link (remove_app_provider (some provider) w).0 ≡ false)
        × ((remove_app_provider (some provider) w).1 ≡ s_ok)
  unfolding remove_app_provider add_all_files_as_file_id_at
  remove_app_provider-removes exists locked removal provider path link w printed_path present made
        listed here free =
      rw (remove_app_provider, printed_path, present, made)
        (
          scanned_link_removed win exists locked removal link path (win.list_directory path w) w
              listed here free,
          refl,
        )
