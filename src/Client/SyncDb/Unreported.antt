-- ===== src/Client/SyncDb/Unreported.antt =====
-- A synchronisation removes the links that were not reported.
use wslg.Common.{ℕ, ◌≡◌, ◌≢◌, refl, inr, List, [], ◌∷◌, Bool, true, false, some, arith, All, Has}
use wslg.Client.Windows.{Windows}
use wslg.Client.FileDb.{FileEntry, on_file_removed}
use wslg.Client.FileDb.Keyed.{Keyed, Keyed-on_file_removed}
use wslg.Client.Callback.{State}
use wslg.Client.Callback.Steps.{next}
use wslg.Client.Callback.Sync.{on_sync_start, on_sync_end}
use wslg.Client.Callback.Update.{keep_in_sync}
use wslg.Client.SyncDb.{add_all_files_as_file_id_at}
use wslg.Client.SyncDb.Removed.{RemoveLaws, links, scan_finds, scan_finds_icon, delete_all_gone}
use wslg.Client.Hresult.{s_ok}

-- The reports of files, one after the other.
unfoldable pub report_all : Windows → List (List ℕ) → State → State
report_all win [] st = st
report_all win (q ∷ qs) st = report_all win qs (keep_in_sync win q st)

module _ (win : Windows) where
  sync_scanned :
      (st st' : State) (w w' : win.World) (t : Unit {0})
      → on_sync_start win st w ≡ next t st' w'
      → st'.file_db_sync ≡ some (add_all_files_as_file_id_at win st.app_menu_path w).0
  unfolding on_sync_start
  sync_scanned st st' w w' t e = ground arith

  report_all-Keyed :
      (p : List ℕ) (reported : List (List ℕ)) (st : State) (db : List FileEntry)
      → st.file_db_sync ≡ some db
      → Keyed p db
      → All (λ q. q ≢ p) reported
      → (db' : List FileEntry) × ((report_all win reported st).file_db_sync ≡ some db')
        × Keyed p db'
  unfolding report_all keep_in_sync
  report_all-Keyed p [] st db syncing there others = (db, syncing, there)
  report_all-Keyed p (q ∷ qs) st db syncing there (other, others) =
      report_all-Keyed p qs (keep_in_sync win q st) (on_file_removed db q).1
        (rw (keep_in_sync, syncing) refl) (Keyed-on_file_removed p q db other there) others

-- What is in the set after the scan and is not reported is removed.
pub scanned_removed_sync :
    (win : Windows) (exists locked : List ℕ → win.World → Bool)
    → RemoveLaws win exists locked
    → (st st' : State) (w w' w'' : win.World) (path : List ℕ) (reported : List (List ℕ))
      (t : Unit {0})
    → on_sync_start win st w ≡ next t st' w'
    → Keyed path (add_all_files_as_file_id_at win st.app_menu_path w).0
    → All (λ q. q ≢ path) reported
    → locked path w'' ≡ false
    → exists path (on_sync_end win true (report_all win reported st') w'').1 ≡ false
unfolding on_sync_end
scanned_removed_sync win exists locked removal st st' w w' w'' path reported t started found others
      free =
    let scanned = sync_scanned win st st' w w' t started in
    let (db, syncing, kept) = report_all-Keyed win path reported st' _ scanned found others in
    rw (on_sync_end, syncing)
      (delete_all_gone win exists locked removal path db w'' free (inr kept))

-- A link that is there and is listed under the menu directory at a start of synchronisation that
-- succeeds, that no report names before the end, and that is not locked then, as read-only and open
-- files are, is gone after the clean-up; where DeleteFileW removes a file that is there and not
-- locked, and makes and locks none, RemoveDirectoryW changes no file, and a directory with a file
-- below it is not empty.
pub unreported_file_removed_sync :
    (win : Windows) (exists locked : List ℕ → win.World → Bool)
    → RemoveLaws win exists locked
    → (st st' : State) (w w' w'' : win.World) (path : List ℕ) (reported : List (List ℕ))
      (t : Unit {0})
    → on_sync_start win st w ≡ next t st' w'
    → Has path (links win st.app_menu_path (win.list_directory st.app_menu_path w))
    → exists path w ≡ true
    → All (λ q. q ≢ path) reported
    → locked path w'' ≡ false
    → exists path (on_sync_end win true (report_all win reported st') w'').1 ≡ false
unfolding add_all_files_as_file_id_at
unreported_file_removed_sync win exists locked removal st st' w w' w'' path reported t started there
      here others free =
    scanned_removed_sync win exists locked removal st st' w w' w'' path reported t started
      (scan_finds win exists locked removal path st.app_menu_path
        (win.list_directory st.app_menu_path w) [] w there here)
      others free

-- A file that a link under the menu directory has for its icon is gone after a synchronisation that
-- does not report it, wherever it lies: the start succeeded, the link was there, listed and had the
-- icon then, the icon file is not locked at the end, as read-only and open files are, and the file
-- system obeys the same laws. The report of the link itself does not save the icon.
pub linked_icon_removed_sync :
    (win : Windows) (exists locked : List ℕ → win.World → Bool)
    → RemoveLaws win exists locked
    → (st st' : State) (w w' w'' : win.World) (link icon : List ℕ) (reported : List (List ℕ))
      (t : Unit {0})
    → on_sync_start win st w ≡ next t st' w'
    → Has link (links win st.app_menu_path (win.list_directory st.app_menu_path w))
    → exists link w ≡ true
    → win.shell_link_icon link w ≡ (s_ok, icon)
    → All (λ q. q ≢ icon) reported
    → locked icon w'' ≡ false
    → exists icon (on_sync_end win true (report_all win reported st') w'').1 ≡ false
unfolding add_all_files_as_file_id_at
linked_icon_removed_sync win exists locked removal st st' w w' w'' link icon reported t started
      there here points others free =
    scanned_removed_sync win exists locked removal st st' w w' w'' icon reported t started
      (scan_finds_icon win exists locked removal link icon st.app_menu_path
        (win.list_directory st.app_menu_path w) [] w there here points)
      others free
