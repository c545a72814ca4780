-- ===== src/Client/SyncDb/Cleanup.antt =====
-- What the clean-up at the end of a synchronisation leaves.
use wslg.Common.{
  ℕ, ◌≡◌, ◌≢◌, refl, ◌∙◌, List, [], ◌∷◌, ◌++◌, Bool, true, Bool-cases, inl, inr, Option, none, some,
  Option-cases, arith, All,
}
use wslg.Client.Path.{before_last_backslash, backslash, dot_lnk}
use wslg.Client.Windows.{Windows, Entries, file, folder, no_more, more}
use wslg.Client.FileDb.{FileEntry, less, greater, order, find, entry_of, str_eq, on_file_removed}
use wslg.Client.FileDb.Comparison.{order_refl, order_trans}
use wslg.Client.FileDb.Lookup.{IsSorted, IsAfter, Order-cases, insert-IsSorted}
use wslg.Client.Hresult.{is_failed}
use wslg.Client.FileDb.Added.{on_file_removed-gone, All-on_file_removed}
use wslg.Client.Callback.{State}
use wslg.Client.Callback.Sync.{on_sync_start, on_sync_end}
use wslg.Client.Callback.Steps.{next}
use wslg.Client.Callback.Update.{keep_in_sync}
use wslg.Client.SyncDb.{
  on_lnk_file_added, scan_file, remove_if_empty, add_all_sub_folder_files, delete_file_id,
  delete_all_file_id_files, is_dots, add_all_files_as_file_id_at,
}

-- DeleteFileW touches no other file, where `Same` says which paths name one file, as texts that differ
-- in case do; and RemoveDirectoryW, which takes empty directories only, touches none.
pub record FileLaws (win : Windows) (Same : List ℕ → List ℕ → Type 0)
    (exists : List ℕ → win.World → Bool) : Type 0 where
  pub delete_other :
      (path other : List ℕ) (w : win.World)
      → ¬ Same path other
      → exists other (win.delete_file path w).0 ≡ exists other w
  pub remove_directory_keeps :
      (dir path : List ℕ) (w : win.World)
      → exists path (win.remove_directory dir w).0 ≡ exists path w

-- No entry has the key.
abbrev pub Lacks : List ℕ → List FileEntry → Type 0
Lacks key = All (λ e. e.file_id ≢ key)

less-ne : (key k : List ℕ) → order key k ≡ less → k ≢ key
less-ne key k h e = absurd (cc (h, order_refl key, e))

greater-ne : (key k : List ℕ) → order key k ≡ greater → k ≢ key
greater-ne key k h e = absurd (cc (h, order_refl key, e))

IsAfter-Lacks : (key : List ℕ) (xs : List FileEntry) → IsAfter key xs → Lacks key xs
IsAfter-Lacks key [] h = tt
IsAfter-Lacks key (x ∷ xs) h = (less-ne key x.file_id h.0, IsAfter-Lacks key xs h.1)

IsAfter-trans :
    (a b : List ℕ) (xs : List FileEntry) → order a b ≡ less → IsAfter b xs → IsAfter a xs
IsAfter-trans a b [] h k = tt
IsAfter-trans a b (x ∷ xs) h k = (order_trans a b x.file_id h k.0, IsAfter-trans a b xs h k.1)

pub not_found-Lacks :
    (key : List ℕ) (db : List FileEntry) → IsSorted db → find key db ≡ none → Lacks key db
unfolding find
not_found-Lacks key [] sorted h = tt
not_found-Lacks key (x ∷ xs) sorted h = elim (Order-cases (order key x.file_id)) [
  | inl o ↦
      (less-ne key x.file_id o, IsAfter-Lacks key xs (IsAfter-trans key x.file_id xs o sorted.0))
  | inr (inl o) ↦ absurd (ground arith)
  | inr (inr o) ↦ (greater-ne key x.file_id o, not_found-Lacks key xs sorted.1 (ground arith))
]

module _ (win : Windows) (Same : List ℕ → List ℕ → Type 0) (exists : List ℕ → win.World → Bool)
    (laws : FileLaws win Same exists) where
  pub remove_if_empty_keeps :
      (dir path : List ℕ) (w : win.World) → exists path (remove_if_empty win dir w) ≡ exists path w
  unfolding remove_if_empty
  remove_if_empty_keeps dir path w = elim (Bool-cases (win.is_directory_empty dir w)) [
    | inl empty ↦ rw (remove_if_empty, empty) (laws.remove_directory_keeps dir path w)
    | inr full ↦ rw (remove_if_empty, full) refl
  ]

  pub delete_file_id_keeps :
      (e : FileEntry) (path : List ℕ) (w : win.World)
      → ¬ Same e.file_id path
      → exists path (delete_file_id win e w) ≡ exists path w
  unfolding delete_file_id
  delete_file_id_keeps e path w other =
      let kept = laws.delete_other e.file_id path w other in
      elim (Bool-cases (win.delete_file e.file_id w).1) [
        | inr failed ↦ rw (delete_file_id, failed) kept
        | inl deleted ↦ elim (Option-cases (before_last_backslash e.file_id)) [
          | inl top ↦ rw (delete_file_id, deleted, top) kept
          | inr (dir, below) ↦
              rw (delete_file_id, deleted, below)
                (remove_if_empty_keeps dir path (win.delete_file e.file_id w).0 ∙ kept)
        ]
      ]

  clean_up_keeps :
      (db : List FileEntry) (path : List ℕ) (w : win.World)
      → All (λ e. ¬ Same e.file_id path) db
      → exists path (delete_all_file_id_files win db w) ≡ exists path w
  unfolding delete_all_file_id_files
  clean_up_keeps [] path w h = refl
  clean_up_keeps (e ∷ es) path w h =
      clean_up_keeps es path (delete_file_id win e w) h.1 ∙ delete_file_id_keeps e path w h.0

  -- If the file has one spelling in the set, and no entry has it, then none names the file.
  Lacks-others :
      (path : List ℕ) (db : List FileEntry)
      → All (λ e. Same e.file_id path → e.file_id ≡ path) db
      → Lacks path db
      → All (λ e. ¬ Same e.file_id path) db
  Lacks-others path [] one none_has = tt
  Lacks-others path (e ∷ es) one none_has =
      ((λ same. none_has.0 (one.0 same)), Lacks-others path es one.1 none_has.1)

  reported_file_survives :
      (st : State) (w : win.World) (path : List ℕ) (db : List FileEntry)
      → st.file_db_sync ≡ some db
      → IsSorted db
      → All (λ e. Same e.file_id path → e.file_id ≡ path) db
      → let (st', w') = on_sync_end win true (keep_in_sync win path st) w in
        (exists path w' ≡ exists path w) × (st'.file_db_sync ≡ none)
  unfolding on_sync_end keep_in_sync
  reported_file_survives st w path db syncing sorted one =
      let (sorted', gone) = on_file_removed-gone db path sorted in
      let left = (on_file_removed db path).1 in
      let one' = All-on_file_removed (λ e. Same e.file_id path → e.file_id ≡ path) db path one in
      rw (on_sync_end, keep_in_sync, syncing)
        (
          clean_up_keeps left path w
              (Lacks-others path left one' (not_found-Lacks path left sorted' gone)),
          refl,
        )

-- The scan makes a set in order.
module _ (win : Windows) where
  on_lnk_file_added-IsSorted :
      (lnk : List ℕ) (db : List FileEntry) (w : win.World)
      → IsSorted db
      → IsSorted (on_lnk_file_added win lnk db w)
  unfolding on_lnk_file_added
  on_lnk_file_added-IsSorted lnk db w h =
      let link_in = insert-IsSorted (entry_of lnk) db h in
      elim (Bool-cases (is_failed (win.shell_link_icon lnk w).0)) [
        | inl no_icon ↦ rw (on_lnk_file_added, no_icon) link_in
        | inr icon ↦ rw (on_lnk_file_added, icon) (insert-IsSorted _ _ link_in)
      ]

  scan_file-IsSorted :
      (name sub : List ℕ) (db : List FileEntry) (w : win.World)
      → IsSorted db
      → IsSorted (scan_file win name sub db w)
  unfolding scan_file
  scan_file-IsSorted name sub db w h =
      elim (Bool-cases (str_eq (win.find_extension name) dot_lnk)) [
        | inl link ↦ rw (scan_file, link) (on_lnk_file_added-IsSorted sub db w h)
        | inr other ↦ rw (scan_file, other) h
      ]

  scan-IsSorted :
      (path : List ℕ) (es : Entries) (db : List FileEntry) (w : win.World)
      → IsSorted db
      → IsSorted (add_all_sub_folder_files win path es db w).0
  unfolding add_all_sub_folder_files
  scan-IsSorted path no_more db w h = h
  scan-IsSorted path (more (file name) rest) db w h =
      scan-IsSorted path rest (scan_file win name (path ++ backslash ++ name) db w) w
        (scan_file-IsSorted name (path ++ backslash ++ name) db w h)
  scan-IsSorted path (more (folder name inside) rest) db w h =
      let sub = path ++ backslash ++ name in
      let (below, w') = add_all_sub_folder_files win sub inside db w in
      let below_sorted = scan-IsSorted sub inside db w h in
      elim (Bool-cases (is_dots win name)) [
        | inl dots ↦ rw (add_all_sub_folder_files, dots) (scan-IsSorted path rest db w h)
        | inr named ↦ elim (Bool-cases (win.is_directory_empty sub w)) [
          | inl empty ↦
              rw (add_all_sub_folder_files, named, empty)
                (scan-IsSorted path rest db (remove_if_empty win sub w) h)
          | inr full ↦
              rw (add_all_sub_folder_files, named, full)
                (scan-IsSorted path rest below w' below_sorted)
        ]
      ]

  -- What a start that succeeds leaves.
  sync_started :
      (st st' : State) (w w' : win.World) (t : Unit {0})
      → on_sync_start win st w ≡ next t st' w'
      → let db = (add_all_files_as_file_id_at win st.app_menu_path w).0 in
        (st'.file_db_sync ≡ some db) × IsSorted db
  unfolding on_sync_start add_all_files_as_file_id_at
  sync_started st st' w w' t e = go st.file_db_sync refl
    where
      go :
          (sync : Option (List FileEntry))
          → st.file_db_sync ≡ sync
          → let db = (add_all_files_as_file_id_at win st.app_menu_path w).0 in
            (st'.file_db_sync ≡ some db) × IsSorted db
      go (some db) syncing = absurd (ground arith)
      go none idle =
          let db = (add_all_files_as_file_id_at win st.app_menu_path w).0 in
          let sorted =
            scan-IsSorted st.app_menu_path (win.list_directory st.app_menu_path w) [] w tt in
          elim (Bool-cases (is_failed (win.make_file_db w))) [
            | inl failed ↦ absurd (ground arith)
            | inr made ↦ (ground arith, sorted)
          ]

-- A file that was reported after a start of synchronisation that succeeded is still there after the
-- clean-up at the end, if it was there before it, and not if not, if the scan at the start found no
-- other spelling of the file's path: where DeleteFileW touches no file but those that its path
-- names, in any spelling, and RemoveDirectoryW none.
pub reported_file_survives_sync :
    (win : Windows) (Same : List ℕ → List ℕ → Type 0) (exists : List ℕ → win.World → Bool)
    → FileLaws win Same exists
    → (st st' : State) (w w' w'' : win.World) (path : List ℕ) (t : Unit {0})
    → on_sync_start win st w ≡ next t st' w'
    → All
        (λ e. Same e.file_id path → e.file_id ≡ path)
        (add_all_files_as_file_id_at win st.app_menu_path w).0
    → exists path (on_sync_end win true (keep_in_sync win path st') w'').1 ≡ exists path w''
reported_file_survives_sync win Same exists laws st st' w w' w'' path t started one =
    let (syncing, sorted) = sync_started win st st' w w' t started in
    (reported_file_survives win Same exists laws st' w'' path
      (add_all_files_as_file_id_at win st.app_menu_path w).0 syncing sorted one).0
