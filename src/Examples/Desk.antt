-- ===== src/Examples/Desk.antt =====
-- Windows with a list for the world: the paths of the files that are there. Every call succeeds; no
-- window is open.
use wslg.Common.{ℕ, List, [], ◌∷◌, true, false, none, some, if◌then◌else◌}
use wslg.Client.Hresult.{s_ok}
use wslg.Client.Windows.{Windows, no_more}
use wslg.Client.FileDb.{str_eq}

unfoldable pub remove : List ℕ → List (List ℕ) → List (List ℕ)
remove path [] = []
remove path (p ∷ ps) = let rest = remove path ps in if str_eq path p then rest else p ∷ rest

abbrev pub desk : Windows
desk = record {
  World = List (List ℕ);
  create_directory = λ path w. (w, none);
  delete_file = λ path w. (remove path w, true);
  remove_directory = λ path w. (w, true);
  is_directory_empty = λ path w. false;
  list_directory = λ path w. no_more;
  find_extension = λ path. [];
  create_file = λ path w. (path ∷ w, true);
  write_file = λ path bytes w. (w, true);
  save_shell_link = λ link w. (link.path_link ∷ w, s_ok);
  shell_link_icon = λ path w. (s_ok, []);
  start_menu_path = λ w. some (67 ∷ []);
  temp_path = λ w. some (84 ∷ []);
  open_registry_key = λ w. s_ok;
  install_location = λ w. (s_ok, 80 ∷ []);
  expand_environment_strings = λ path w. some path;
  language_name = λ w. none;
  country_name = λ w. none;
  clsid_from_string = λ id. (s_ok, 1);
  channel_write = λ bytes w. (w, s_ok);
  make_file_db = λ w. s_ok;
  local_alloc = λ w n. true;
  windows = λ w. [];
  update_task_bar_info = λ hwnd info w. w;
}
