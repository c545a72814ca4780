-- ===== src/Client/Callback/Confined/OnSync.antt =====
-- A synchronisation keeps the invariant, and the set it makes has deletable files only.
use wslg.Common.{
  ℕ, ◌≡◌, ◌++◌, subst, refl, List, [], ◌∷◌, Bool, true, false, Option, none, some, Option-cases,
  All, Bool-cases, inl, inr,
}
use wslg.Client.Hresult.{is_failed}
use wslg.Client.Path.{backslash, dot_lnk, before_last_backslash}
use wslg.Client.Windows.{Windows, Entries, file, folder, no_more, more}
use wslg.Client.FileDb.{FileEntry, entry_of, str_eq}
use wslg.Client.FileDb.Lookup.{All-insert}
use wslg.Client.SyncDb.{
  on_lnk_file_added, scan_file, remove_if_empty, is_dots, add_all_sub_folder_files,
  add_all_files_as_file_id_at, delete_file_id, delete_all_file_id_files,
}
use wslg.Client.Callback.{State}
use wslg.Client.Callback.Hoare.{Post}
use wslg.Client.Callback.Sync.{on_sync_start, on_sync_end}
use wslg.Client.Callback.Confined.{
  IsMenuPath, AllNames, IsInMenu, menu_itself, in_directory, IsDeletable, listed, icon_of,
  IsRemovable, directory_listed, parent_of,
}
use wslg.Client.Callback.Confined.Frame.{Frame, AllDeletable, Inv, Ready, Ready→Inv}

module _ (win : Windows) (f : Frame win) where
  Deletable : List FileEntry → Type 0
  Deletable = All (λ e. IsDeletable win f.IsName e.file_id)

  on_lnk_file_added-Deletable :
      (lnk : List ℕ) (db : List FileEntry) (w : win.World)
      → IsInMenu win f.IsName lnk
      → Deletable db
      → Deletable (on_lnk_file_added win lnk db w)
  unfolding on_lnk_file_added Deletable
  on_lnk_file_added-Deletable lnk db w in_menu all =
      let Own : FileEntry → Type 0 = λ e. IsDeletable win f.IsName e.file_id in
      let with_link = All-insert Own (entry_of lnk) db (listed in_menu) all in
      elim (Bool-cases (is_failed (win.shell_link_icon lnk w).0)) [
        | inl no_icon ↦ rw (on_lnk_file_added, no_icon) with_link
        | inr icon ↦
            rw (on_lnk_file_added, icon)
              (All-insert Own _ _ (icon_of lnk w in_menu icon refl) with_link)
      ]

  scan_file-Deletable :
      (name sub : List ℕ) (db : List FileEntry) (w : win.World)
      → IsInMenu win f.IsName sub
      → Deletable db
      → Deletable (scan_file win name sub db w)
  unfolding scan_file
  scan_file-Deletable name sub db w in_menu all =
      elim (Bool-cases (str_eq (win.find_extension name) dot_lnk)) [
        | inl link ↦ rw (scan_file, link) (on_lnk_file_added-Deletable sub db w in_menu all)
        | inr other ↦ rw (scan_file, other) all
      ]

  remove_if_empty_kept :
      (dir : List ℕ) (w : win.World)
      → IsRemovable win f.IsName dir
      → f.Holds w
      → f.Holds (remove_if_empty win dir w)
  unfolding remove_if_empty
  remove_if_empty_kept dir w removable h = elim (Bool-cases (win.is_directory_empty dir w)) [
    | inl empty ↦ rw (remove_if_empty, empty) (f.removes dir w removable empty h)
    | inr full ↦ rw (remove_if_empty, full) h
  ]

  add_all_sub_folder_files_kept :
      (path : List ℕ) (es : Entries) (db : List FileEntry) (w : win.World)
      → IsInMenu win f.IsName path
      → AllNames win f.IsName es
      → Deletable db
      → f.Holds w
      → f.Holds (add_all_sub_folder_files win path es db w).1
        × Deletable (add_all_sub_folder_files win path es db w).0
  unfolding add_all_sub_folder_files
  add_all_sub_folder_files_kept path no_more db w in_menu names all h = (h, all)
  add_all_sub_folder_files_kept path (more (file name) rest) db w in_menu names all h =
      let sub = path ++ backslash ++ name in
      add_all_sub_folder_files_kept path rest (scan_file win name sub db w) w in_menu names.1
        (scan_file-Deletable name sub db w (in_directory path name in_menu names.0) all) h
  add_all_sub_folder_files_kept path (more (folder name inside) rest) db w in_menu names all h =
      let sub = path ++ backslash ++ name in
      let sub_in_menu : IsInMenu win f.IsName sub = in_directory path name in_menu names.0 in
      let (below, w') = add_all_sub_folder_files win sub inside db w in
      let below_kept = add_all_sub_folder_files_kept sub inside db w sub_in_menu names.1 all h in
      elim (Bool-cases (is_dots win name)) [
        | inl dots ↦
            rw (add_all_sub_folder_files, dots)
              (add_all_sub_folder_files_kept path rest db w in_menu names.2 all h)
        | inr named ↦ elim (Bool-cases (win.is_directory_empty sub w)) [
          | inl empty ↦
              rw (add_all_sub_folder_files, named, empty)
                (add_all_sub_folder_files_kept path rest db (remove_if_empty win sub w) in_menu
                  names.2 all (remove_if_empty_kept sub w (directory_listed sub_in_menu) h))
          | inr full ↦
              rw (add_all_sub_folder_files, named, full)
                (add_all_sub_folder_files_kept path rest below w' in_menu names.2 below_kept.1
                  below_kept.0)
        ]
      ]

  add_all_files_kept :
      (path : List ℕ) (w : win.World)
      → IsMenuPath win path
      → f.Holds w
      → f.Holds (add_all_files_as_file_id_at win path w).1
        × Deletable (add_all_files_as_file_id_at win path w).0
  unfolding add_all_files_as_file_id_at Deletable
  add_all_files_kept path w is_menu h =
      add_all_sub_folder_files_kept path (win.list_directory path w) [] w (menu_itself path is_menu)
        (f.names path w) tt h

  delete_file_id_kept :
      (e : FileEntry) (w : win.World)
      → IsDeletable win f.IsName e.file_id
      → f.Holds w
      → f.Holds (delete_file_id win e w)
  unfolding delete_file_id
  delete_file_id_kept e w deletable h =
      let gone = f.deletes e.file_id w deletable h in
      let w' = (win.delete_file e.file_id w).0 in
      elim (Bool-cases (win.delete_file e.file_id w).1) [
        | inr failed ↦ rw (delete_file_id, failed) gone
        | inl deleted ↦ elim (Option-cases (before_last_backslash e.file_id)) [
          | inl no_parent ↦ rw (delete_file_id, deleted, no_parent) gone
          | inr (dir, parent) ↦
              rw (delete_file_id, deleted, parent)
                (remove_if_empty_kept dir w' (parent_of e.file_id deletable parent) gone)
        ]
      ]

  delete_all_file_id_files_kept :
      (db : List FileEntry) (w : win.World)
      → Deletable db
      → f.Holds w
      → f.Holds (delete_all_file_id_files win db w)
  unfolding delete_all_file_id_files Deletable
  delete_all_file_id_files_kept [] w all h = h
  delete_all_file_id_files_kept (e ∷ es) w all h =
      delete_all_file_id_files_kept es (delete_file_id win e w) all.1
        (delete_file_id_kept e w all.0 h)

  pub on_sync_end-Ready :
      (cleanup : Bool) (sync : Option (List FileEntry)) (st : State) (w : win.World)
      → st.file_db_sync ≡ sync
      → Ready win f st w
      → Ready win f (on_sync_end win cleanup st w).0 (on_sync_end win cleanup st w).1
  unfolding on_sync_end Deletable
  on_sync_end-Ready cleanup none st w e h = rw (on_sync_end, e) h
  on_sync_end-Ready true (some db) st w e h =
      let mine : AllDeletable win f (some db) = subst (AllDeletable win f) e h.sync in
      rw (on_sync_end, e)
        (record {
          menu = h.menu;
          icon = h.icon;
          links = h.links;
          sync = tt;
          world = delete_all_file_id_files_kept db w mine h.world;
        })
  on_sync_end-Ready false (some db) st w e h =
      rw (on_sync_end, e)
        (record { menu = h.menu; icon = h.icon; links = h.links; sync = tt; world = h.world })

  pub on_sync_start-Ready :
      (st : State) (w : win.World)
      → (sync : Option (List FileEntry)) → st.file_db_sync ≡ sync
      → Ready win f st w
      → Post (Inv win f) (λ (t : Unit {0}) st w. Ready win f st w) (on_sync_start win st w)
  unfolding on_sync_start Deletable
  on_sync_start-Ready st w (some db) e h = rw (on_sync_start, e) (Ready→Inv win f st w h)
  on_sync_start-Ready st w none e h = elim (Bool-cases (is_failed (win.make_file_db w))) [
    | inl failed ↦ rw (on_sync_start, e, failed) (Ready→Inv win f st w h)
    | inr made ↦
        let scanned = add_all_files_kept st.app_menu_path w h.menu h.world in
        rw (on_sync_start, e, made)
          (record {
            menu = h.menu;
            icon = h.icon;
            links = h.links;
            sync = scanned.1;
            world = scanned.0;
          })
  ]
