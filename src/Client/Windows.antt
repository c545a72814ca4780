-- ===== src/Client/Windows.antt =====
-- What the plugin uses of Windows, which is not part of the repository: the file system, the shell,
-- the registry, the windows of the desktop, and the channel back to the server. `World` is all that
-- these calls read and change. Texts are lists of code units.
use wslg.Common.{ℕ, List, Bool, Option}
use wslg.Client.Hresult.{Hresult}

-- What FindFirstFile and FindNextFile give of a directory, with the directories below it. A listing
-- also has the directories "." and "..".
mutual
  pub data Entry : Type 0 where
    file : List ℕ → Entry
    folder : List ℕ → Entries → Entry

  pub data Entries : Type 0 where
    no_more : Entries
    more : Entry → Entries → Entries

-- The arguments of CreateShellLink.
pub record ShellLink : Type 0 where
  pub path_link : List ℕ
  pub path_obj : List ℕ
  pub args : List ℕ
  pub working_dir : List ℕ
  pub desc : List ℕ
  pub path_icon : Option (List ℕ)

-- The arguments of UpdateTaskBarInfo, but for the window.
pub record TaskBarInfo : Type 0 where
  pub relaunch_cmdline : Option (List ℕ)
  pub display_name : Option (List ℕ)
  pub icon_path : Option (List ℕ)

pub record Windows : Type 1 where
  pub World : Type 0
  -- CreateDirectoryW, with GetLastError where it fails.
  pub create_directory : List ℕ → World → World × Option ℕ
  -- DeleteFileW, RemoveDirectoryW
  pub delete_file : List ℕ → World → World × Bool
  pub remove_directory : List ℕ → World → World × Bool
  -- PathIsDirectoryEmptyW
  pub is_directory_empty : List ℕ → World → Bool
  pub list_directory : List ℕ → World → Entries
  -- PathFindExtensionW
  pub find_extension : List ℕ → List ℕ
  -- CreateFileW with CREATE_ALWAYS; WriteFile to the file opened so.
  pub create_file : List ℕ → World → World × Bool
  pub write_file : List ℕ → List ℕ → World → World × Bool
  -- IShellLink: saving a link, and the icon location of a saved one.
  pub save_shell_link : ShellLink → World → World × Hresult
  pub shell_link_icon : List ℕ → World → Hresult × List ℕ
  -- SHGetKnownFolderPath(FOLDERID_StartMenu), GetTempPathW
  pub start_menu_path : World → Option (List ℕ)
  pub temp_path : World → Option (List ℕ)
  -- RegOpenKeyExW and RegGetValueW of the install location
  pub open_registry_key : World → Hresult
  pub install_location : World → Hresult × List ℕ
  -- ExpandEnvironmentStringsW
  pub expand_environment_strings : List ℕ → World → Option (List ℕ)
  -- GetLocaleInfoA for the language and for the country
  pub language_name : World → Option (List ℕ)
  pub country_name : World → Option (List ℕ)
  -- CLSIDFromString: the result, and Data1 of the GUID.
  pub clsid_from_string : List ℕ → Hresult × ℕ
  -- IWTSVirtualChannel::Write
  pub channel_write : List ℕ → World → World × Hresult
  -- Whether there is memory: for a file database, and for a block of LocalAlloc.
  pub make_file_db : World → Hresult
  pub local_alloc : World → ℕ → Bool
  -- EnumWindows: each window with its property WslgServerWindowId, 0 where it has none.
  pub windows : World → List (ℕ × ℕ)
  pub update_task_bar_info : ℕ → TaskBarInfo → World → World
