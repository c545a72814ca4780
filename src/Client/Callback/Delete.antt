-- ===== src/Client/Callback/Delete.antt =====
-- OnDeleteAppList.
use wslg.Common.{ℕ, List, [], ◌∷◌, none, some, if◌then◌else◌}
use wslg.Client.Hresult.{e_fail, is_failed}
use wslg.Client.Pdu.{DeleteAppList, empty_delete}
use wslg.Client.Path.{max_path}
use wslg.Client.Read.{read_app_list_delete}
use wslg.Client.Windows.{Windows}
use wslg.Client.FileDb.{FoundPaths, find_files, on_file_removed}
use wslg.Client.Callback.{State}
use wslg.Client.Callback.Steps.{Step, next, return_error, ◌>>=◌, ◌>>◌, pure, modify}
use wslg.Client.Callback.Update.{make_key}

module _ (win : Windows) where
  open win use {World}

  unfoldable pub read_delete : List ℕ → Step World (DeleteAppList × List ℕ)
  read_delete b st w =
      let (hr, d, rest) = read_app_list_delete empty_delete b in
      if is_failed hr then return_error hr st w else next (d, rest) st w

  -- FindFiles for the link and the icon; any failure is E_FAIL.
  unfoldable pub find_link_and_icon : List ℕ → Step World FoundPaths
  find_link_and_icon key st w =
      let (hr, found) = find_files st.file_db key (some max_path) (some max_path) none none in
      if is_failed hr then return_error e_fail st w else next found st w

  -- DeleteFileW of a path that is not empty; a failure is only logged.
  unfoldable pub delete_path : List ℕ → World → World
  delete_path [] w = w
  delete_path (c ∷ cs) w = (win.delete_file (c ∷ cs) w).0

  unfoldable pub delete_paths : FoundPaths → Step World (Unit {0})
  unfolding delete_path
  delete_paths found st w = next tt st (delete_path found.icon (delete_path found.link w))

  unfoldable pub remove_key : List ℕ → State → State
  remove_key key st = record st { file_db = (on_file_removed st.file_db key).1 }

  unfoldable pub on_delete_app_list : List ℕ → Step World (List ℕ)
  on_delete_app_list b = do
    (d, rest) ← read_delete b
    key ← make_key win d.app_group d.app_id
    found ← find_link_and_icon key
    delete_paths found
    modify (remove_key key)
    pure rest
