-- ===== src/Client/Callback/Confined/Frame.antt =====
-- A property of the world that the plugin keeps, and what holds between messages.
use wslg.Common.{ℕ, ◌≡◌, List, Bool, true, Option, none, some, All}
use wslg.Client.Path.{dot_ico}
use wslg.Client.Windows.{Windows, ShellLink, TaskBarInfo}
use wslg.Client.FileDb.{FileEntry}
use wslg.Client.Callback.{State}
use wslg.Client.Callback.Confined.{
  IsMenuPath, IsIconPath, IsBelow, IsConfined, IsDirectory, AllConfined, AllNames, IsDeletable,
  IsRemovable,
}

module _ (win : Windows) where
  open win use {World}

  -- `Holds` is kept by what the plugin does at its own paths, one call at a time. `IsName` says which
  -- names a listing shows.
  pub record Frame : Type 1 where
    pub IsName : List ℕ → Type 0
    pub names : (path : List ℕ) (w : World) → AllNames win IsName (win.list_directory path w)
    pub Holds : World → Type 0
    pub creates :
        (path : List ℕ) (w : World)
        → IsDirectory win path
        → Holds w
        → Holds (win.create_directory path w).0
    pub saves :
        (link : ShellLink) (w : World)
        → IsConfined win link.path_link
        → Holds w
        → Holds (win.save_shell_link link w).0
    pub makes_icon :
        (path : List ℕ) (w : World)
        → IsBelow win (IsIconPath win) dot_ico path
        → Holds w
        → Holds (win.create_file path w).0
    pub writes_icon :
        (path bytes : List ℕ) (w : World)
        → IsBelow win (IsIconPath win) dot_ico path
        → Holds w
        → Holds (win.write_file path bytes w).0
    pub deletes :
        (path : List ℕ) (w : World)
        → IsDeletable win IsName path
        → Holds w
        → Holds (win.delete_file path w).0
    pub removes :
        (dir : List ℕ) (w : World)
        → IsRemovable win IsName dir
        → win.is_directory_empty dir w ≡ true
        → Holds w
        → Holds (win.remove_directory dir w).0
    pub sends : (bytes : List ℕ) (w : World) → Holds w → Holds (win.channel_write bytes w).0
    pub shows :
        (hwnd : ℕ) (info : TaskBarInfo) (w : World)
        → Holds w
        → Holds (win.update_task_bar_info hwnd info w)

module _ (win : Windows) (f : Frame win) where
  abbrev pub AllDeletable : Option (List FileEntry) → Type 0
  AllDeletable none = Unit {0}
  AllDeletable (some db) = All (λ e. IsDeletable win f.IsName e.file_id) db

  -- Between messages: after a hand shake, the two paths are such.
  pub record InvOf (shaken : Bool) (menu_path icon_path : List ℕ) (db : List FileEntry)
      (db_sync : Option (List FileEntry)) (w : win.World) : Type 0 where
    pub menu : shaken ≡ true → IsMenuPath win menu_path
    pub icon : shaken ≡ true → IsIconPath win icon_path
    pub links : AllConfined win db
    pub sync : AllDeletable db_sync
    pub world : f.Holds w

  abbrev pub Inv : State → win.World → Type 0
  Inv st w =
      InvOf st.hand_shake_complated st.app_menu_path st.icon_path st.file_db st.file_db_sync w

  -- In a handler that knows the two paths.
  pub record ReadyOf (menu_path icon_path : List ℕ) (db : List FileEntry)
      (db_sync : Option (List FileEntry)) (w : win.World) : Type 0 where
    pub menu : IsMenuPath win menu_path
    pub icon : IsIconPath win icon_path
    pub links : AllConfined win db
    pub sync : AllDeletable db_sync
    pub world : f.Holds w

  abbrev pub Ready : State → win.World → Type 0
  Ready st w = ReadyOf st.app_menu_path st.icon_path st.file_db st.file_db_sync w

  pub Ready→Inv : (st : State) (w : win.World) → Ready st w → Inv st w
  Ready→Inv st w h = record {
    menu = λ t. h.menu;
    icon = λ t. h.icon;
    links = h.links;
    sync = h.sync;
    world = h.world;
  }

  -- A step of the world alone.
  pub Ready-world : (st : State) (w w' : win.World) → Ready st w → f.Holds w' → Ready st w'
  Ready-world st w w' h holds = record {
    menu = h.menu;
    icon = h.icon;
    links = h.links;
    sync = h.sync;
    world = holds;
  }

  pub Ready-creates :
      (path : List ℕ)
      → IsDirectory win path
      → (st : State) (w : win.World) → Ready st w
      → Ready st (win.create_directory path w).0
  Ready-creates path directory st w h = Ready-world st w _ h (f.creates path w directory h.world)
