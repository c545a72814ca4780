-- ===== src/Client/SyncDb.antt =====
-- The synchronisation half of WSLDVCPlugin/WSLDVCFileDB.cpp: the set of the files that were under
-- the menu directory at the start, and their removal at the end.
pub mod Cleanup
pub mod Scanned
pub mod Removed
pub mod Unreported
use wslg.Common.{ℕ, List, [], ◌∷◌, ◌++◌, Bool, ◌||◌, none, some}
use wslg.Common.{if◌then◌else◌}
use wslg.Client.Hresult.{is_failed}
use wslg.Client.Path.{backslash, dot_lnk, before_last_backslash}
use wslg.Client.Windows.{Windows, Entries, file, folder, no_more, more}
use wslg.Client.FileDb.{FileEntry, entry_of, insert, str_eq}

module _ (win : Windows) where
  open win use {
    World, delete_file, remove_directory, is_directory_empty, list_directory, shell_link_icon,
    find_extension,
  }

  -- OnLnkFileAdded: the link, and the icon that it points at.
  unfoldable pub on_lnk_file_added : List ℕ → List FileEntry → World → List FileEntry
  on_lnk_file_added lnk_file db w =
      let db = insert (entry_of lnk_file) db in
      let (hr, icon_file) = shell_link_icon lnk_file w in
      if is_failed hr then db else insert (entry_of icon_file) db

  -- One entry that is not a directory, whose path is `sub`.
  unfoldable pub scan_file : List ℕ → List ℕ → List FileEntry → World → List FileEntry
  scan_file name sub db w =
      if str_eq (find_extension name) dot_lnk then on_lnk_file_added sub db w else db

  -- A directory that is empty is removed.
  unfoldable pub remove_if_empty : List ℕ → World → World
  remove_if_empty dir w = if is_directory_empty dir w then (remove_directory dir w).0 else w

  abbrev pub is_dots : List ℕ → Bool
  is_dots name = str_eq name (46 ∷ []) || str_eq name (46 ∷ 46 ∷ [])

  -- addAllSubFolderFiles over the listing of the directory `path`.
  unfoldable pub add_all_sub_folder_files :
      List ℕ → Entries → List FileEntry → World → List FileEntry × World
  add_all_sub_folder_files path no_more db w = (db, w)
  add_all_sub_folder_files path (more (file name) rest) db w =
      add_all_sub_folder_files path rest (scan_file name (path ++ backslash ++ name) db w) w
  add_all_sub_folder_files path (more (folder name inside) rest) db w =
      let sub = path ++ backslash ++ name in
      let (below, w') = add_all_sub_folder_files sub inside db w in
      let (db'', w'') : List FileEntry × World =
        if is_dots name
        then (db, w)
        else if is_directory_empty sub w
        then (db, remove_if_empty sub w)
        else (below, w') in
      add_all_sub_folder_files path rest db'' w''

  unfoldable pub add_all_files_as_file_id_at : List ℕ → World → List FileEntry × World
  add_all_files_as_file_id_at path w = add_all_sub_folder_files path (list_directory path w) [] w

  -- One round of the loop of deleteAllFileIdFiles.
  unfoldable pub delete_file_id : FileEntry → World → World
  unfolding remove_if_empty
  delete_file_id e w =
      let (w', deleted) = delete_file e.file_id w in
      if deleted
      then (elim (before_last_backslash e.file_id) [
        | none ↦ w'
        | some dir ↦ remove_if_empty dir w'
      ])
      else w'

  unfoldable pub delete_all_file_id_files : List FileEntry → World → World
  delete_all_file_id_files [] w = w
  delete_all_file_id_files (e ∷ es) w = delete_all_file_id_files es (delete_file_id e w)
