-- ===== src/Client/SyncDb/Scanned.antt =====
-- A scan keeps what is in the set of files.
use wslg.Common.{ℕ, ◌≡◌, inl, inr, List, ◌++◌, Bool-cases}
use wslg.Client.Path.{backslash, dot_lnk}
use wslg.Client.Windows.{Windows, Entries, file, folder, no_more, more}
use wslg.Client.FileDb.{FileEntry, entry_of, insert, str_eq}
use wslg.Client.FileDb.Keyed.{Keyed, Keyed-insert, Keyed-insert_self}
use wslg.Client.Hresult.{s_ok, is_failed}
use wslg.Client.SyncDb.{
  on_lnk_file_added, scan_file, remove_if_empty, add_all_sub_folder_files, is_dots,
}

module _ (win : Windows) (p : List ℕ) (w : win.World) where
  Keyed-lnk_kept :
      (lnk : List ℕ) (db : List FileEntry) → Keyed p db → Keyed p (on_lnk_file_added win lnk db w)
  unfolding on_lnk_file_added
  Keyed-lnk_kept lnk db there =
      let link_in = Keyed-insert p (entry_of lnk) db there in
      elim (Bool-cases (is_failed (win.shell_link_icon lnk w).0)) [
        | inl no_icon ↦ rw (on_lnk_file_added, no_icon) link_in
        | inr icon ↦ rw (on_lnk_file_added, icon) (Keyed-insert p _ _ link_in)
      ]

  pub Keyed-lnk_added : (db : List FileEntry) → Keyed p (on_lnk_file_added win p db w)
  unfolding on_lnk_file_added
  Keyed-lnk_added db =
      let link_in = Keyed-insert_self (entry_of p) db in
      elim (Bool-cases (is_failed (win.shell_link_icon p w).0)) [
        | inl no_icon ↦ rw (on_lnk_file_added, no_icon) link_in
        | inr icon ↦ rw (on_lnk_file_added, icon) (Keyed-insert p _ _ link_in)
      ]

  pub Keyed-icon_added :
      (lnk : List ℕ)
      → win.shell_link_icon lnk w ≡ (s_ok, p)
      → (db : List FileEntry) → Keyed p (on_lnk_file_added win lnk db w)
  unfolding on_lnk_file_added
  Keyed-icon_added lnk points db =
      rw (on_lnk_file_added, points) (Keyed-insert_self (entry_of p) (insert (entry_of lnk) db))

  Keyed-scan_file :
      (name sub : List ℕ) (db : List FileEntry) → Keyed p db → Keyed p (scan_file win name sub db w)
  unfolding scan_file
  Keyed-scan_file name sub db there = elim (Bool-cases (str_eq (win.find_extension name) dot_lnk)) [
    | inl link ↦ rw (scan_file, link) (Keyed-lnk_kept sub db there)
    | inr other ↦ rw (scan_file, other) there
  ]

-- The scan keeps what is in the set.
module _ (win : Windows) (p : List ℕ) where
  pub Keyed-kept :
      (path : List ℕ) (es : Entries) (db : List FileEntry) (w : win.World)
      → Keyed p db
      → Keyed p (add_all_sub_folder_files win path es db w).0
  unfolding add_all_sub_folder_files
  Keyed-kept path no_more db w there = there
  Keyed-kept path (more (file name) rest) db w there =
      Keyed-kept path rest (scan_file win name (path ++ backslash ++ name) db w) w
        (Keyed-scan_file win p w name (path ++ backslash ++ name) db there)
  Keyed-kept path (more (folder name inside) rest) db w there =
      let sub = path ++ backslash ++ name in
      let (below, w') = add_all_sub_folder_files win sub inside db w in
      let below_there = Keyed-kept sub inside db w there in
      elim (Bool-cases (is_dots win name)) [
        | inl dots ↦ rw (add_all_sub_folder_files, dots) (Keyed-kept path rest db w there)
        | inr named ↦ elim (Bool-cases (win.is_directory_empty sub w)) [
          | inl empty ↦
              rw (add_all_sub_folder_files, named, empty)
                (Keyed-kept path rest db (remove_if_empty win sub w) there)
          | inr full ↦
              rw (add_all_sub_folder_files, named, full) (Keyed-kept path rest below w' below_there)
        ]
      ]
