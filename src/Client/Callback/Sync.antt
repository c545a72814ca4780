-- ===== src/Client/Callback/Sync.antt =====
-- OnSyncStart and OnSyncEnd.
use wslg.Common.{Bool, none, some, if◌then◌else◌}
use wslg.Client.Hresult.{e_fail, is_failed}
use wslg.Client.Windows.{Windows}
use wslg.Client.SyncDb.{add_all_files_as_file_id_at, delete_all_file_id_files}
use wslg.Client.Callback.{State}
use wslg.Client.Callback.Steps.{Step, next, return_error}

module _ (win : Windows) where
  unfoldable pub on_sync_start : Step win.World (Unit {0})
  on_sync_start st w = elim st.file_db_sync [
    | some db ↦ return_error e_fail st w
    | none ↦
        let hr = win.make_file_db w in
        let (db, w') = add_all_files_as_file_id_at win st.app_menu_path w in
        if is_failed hr
        then return_error hr st w
        else next tt (record st { file_db_sync = some db }) w'
  ]

  unfoldable pub on_sync_end : Bool → State → win.World → State × win.World
  on_sync_end cleanup_files st w = elim st.file_db_sync [
    | none ↦ (st, w)
    | some db ↦ (
      record st { file_db_sync = none },
      if cleanup_files then delete_all_file_id_files win db w else w,
    )
  ]
