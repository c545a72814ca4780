-- ===== src/Client/Callback/Confined.antt =====
-- Where the files lie that the plugin makes, records and deletes: links below the menu directory of
-- the provider, icons below its icon directory, with no ".." in the names of the provider, the group
-- and the file that the server chose.
pub mod Directories
pub mod OnCaps
pub mod Frame
pub mod Paths
pub mod OnSync
pub mod OnPublish
pub mod OnUpdate
pub mod OnDelete
pub mod OnReceive
use wslg.Common.{has_flag, ℕ, ◌≡◌, ◌⊎◌, List, [], ◌++◌, Bool, true, false, Option, none, some, All}
use wslg.Client.Hresult.{is_failed}
use wslg.Client.Path.{backslash, dot_lnk, dot_ico, before_last_backslash}
use wslg.Protocol.Field
use wslg.Client.Pdu.{UpdateAppList}
use wslg.Client.Windows.{Windows, Entries, file, folder, no_more, more}
use wslg.Client.FileDb.{FileEntry}
use wslg.Client.Callback.Caps.{provider_is_bad, programs, prefix}
use wslg.Client.Callback.Update.{name_is_bad}

module _ (win : Windows) where
  open win use {World}

  -- The Start menu's folder, `\Programs\`, and a provider that was let through.
  pub record IsMenuPath (path : List ℕ) : Type 0 where
    pub folder : List ℕ
    pub provider : List ℕ
    pub at : World
    pub folder_is : win.start_menu_path at ≡ some folder
    pub provider_good : provider_is_bad provider ≡ false
    pub path_is : path ≡ folder ++ programs ++ provider

  -- The folder for temporary files, with `WSLDVCPlugin\` or not, and with the provider or not.
  pub data IsIconPath (path : List ℕ) : Type 0 where
    in_temp : (at : World) → win.temp_path at ≡ some path → IsIconPath path
    in_plugin :
        (folder : List ℕ) (at : World)
        → win.temp_path at ≡ some folder
        → path ≡ folder ++ prefix
        → IsIconPath path
    in_provider :
        (folder provider : List ℕ) (at : World)
        → win.temp_path at ≡ some folder
        → provider_is_bad provider ≡ false
        → path ≡ (folder ++ prefix) ++ provider
        → IsIconPath path

  -- A file in a directory such that `IsRoot`, or in the directory of a group in it.
  pub data IsBelow (IsRoot : List ℕ → Type 0) (ext path : List ℕ) : Type 0 where
    in_root :
        (dir name : List ℕ)
        → IsRoot dir
        → name_is_bad name ≡ false
        → path ≡ ((dir ++ backslash) ++ name) ++ ext
        → IsBelow IsRoot ext path
    in_group :
        (dir group name : List ℕ)
        → IsRoot dir
        → name_is_bad group ≡ false
        → name_is_bad name ≡ false
        → path ≡ ((((dir ++ backslash) ++ group) ++ backslash) ++ name) ++ ext
        → IsBelow IsRoot ext path

  -- A link in a menu directory, or in the directory of a group in it.
  abbrev pub IsConfined : List ℕ → Type 0
  IsConfined link = IsBelow IsMenuPath dot_lnk link

  -- An icon likewise, or none.
  abbrev pub IsIcon : List ℕ → Type 0
  IsIcon icon = (icon ≡ []) ⊎ IsBelow IsIconPath dot_ico icon

  -- The path of an icon that comes with the message, or none.
  abbrev pub IsIconOf : UpdateAppList → List ℕ → Type 0
  IsIconOf u path =
      ((has_flag u.flags Field.icon ≡ true) × IsBelow IsIconPath dot_ico path)
      ⊎ ((has_flag u.flags Field.icon ≡ false) × (path ≡ []))

  -- A directory that may be made.
  pub data IsDirectory (path : List ℕ) : Type 0 where
    menu_root : IsMenuPath path → IsDirectory path
    icon_root : IsIconPath path → IsDirectory path
    group_in :
        (dir group : List ℕ)
        → IsMenuPath dir ⊎ IsIconPath dir
        → name_is_bad group ≡ false
        → path ≡ (dir ++ backslash) ++ group
        → IsDirectory path

  abbrev pub AllConfined : List FileEntry → Type 0
  AllConfined = All (λ e. IsConfined e.link_file_path × IsIcon e.icon_file_path)

  -- What a listing names, where its names are such that `IsName`.
  abbrev pub AllNames : (List ℕ → Type 0) → Entries → Type 0
  AllNames IsName no_more = Unit {0}
  AllNames IsName (more (file name) rest) = IsName name × AllNames IsName rest
  AllNames IsName (more (folder name inside) rest) =
      IsName name × AllNames IsName inside × AllNames IsName rest

  -- The menu directory, or what a listing shows below it.
  pub data IsInMenu (IsName : List ℕ → Type 0) : List ℕ → Type 0 where
    menu_itself : (path : List ℕ) → IsMenuPath path → IsInMenu IsName path
    in_directory :
        (dir name : List ℕ)
        → IsInMenu IsName dir
        → IsName name
        → IsInMenu IsName (dir ++ backslash ++ name)

  -- A file that may be deleted: a link or an icon that the plugin made, what is below the menu
  -- directory, or the icon of a link that is below the menu directory.
  pub data IsDeletable (IsName : List ℕ → Type 0) (path : List ℕ) : Type 0 where
    made_link : IsConfined path → IsDeletable IsName path
    made_icon : IsBelow IsIconPath dot_ico path → IsDeletable IsName path
    listed : IsInMenu IsName path → IsDeletable IsName path
    icon_of :
        (link : List ℕ) (at : World)
        → IsInMenu IsName link
        → is_failed (win.shell_link_icon link at).0 ≡ false
        → path ≡ (win.shell_link_icon link at).1
        → IsDeletable IsName path

  -- A directory that may be removed once it is empty.
  pub data IsRemovable (IsName : List ℕ → Type 0) (dir : List ℕ) : Type 0 where
    directory_listed : IsInMenu IsName dir → IsRemovable IsName dir
    parent_of :
        (path : List ℕ)
        → IsDeletable IsName path
        → before_last_backslash path ≡ some dir
        → IsRemovable IsName dir
