-- ===== src/Daemon/FontMonitor/Monitor.antt =====
-- FontMonitor: the table of watched directories, the handlers of inotify's events, start and stop.
-- m_fontMonitorFolders is the list of its folders in the order of the map; the key of a folder is its
-- path. A `try` whose exception is logged ends where it is thrown.
pub mod Kept
pub mod OnEvent
pub mod Table
pub mod Runs
pub mod Places
pub mod Restored
pub mod Buffer
use wslg.Common.{
  ℕ, List, [], ◌∷◌, ◌++◌, Bool, true, false, not, ◌&&◌, ◌||◌, Option, none, some, codes,
}
use wslg.Common.{if◌then◌else◌, ◌==◌, has_flag}
use wslg.Client.FileDb.{order, less, same, greater, str_eq}
use wslg.Daemon.FontMonitor.System.{System, Folders, end, broken, file, folder, join}
use wslg.Daemon.FontMonitor.Folder.{
  FontFolder, xset, fonts_dir, modify_x11_font_path, new_font_folder, delete_font_folder,
  close_if_open,
}

unfoldable pub user_distro_mount_path : List ℕ
user_distro_mount_path = codes "/mnt/wslg/distro"

unfoldable pub user_distro_font_path : List ℕ
user_distro_font_path = codes "/mnt/wslg/distro/usr/share/fonts"

unfoldable pub x11_name : List ℕ
x11_name = codes "X11"

unfoldable pub x11_font_path : List ℕ
x11_font_path = codes "/mnt/wslg/distro/usr/share/fonts/X11"

unfoldable pub alt_distro_font_path : List ℕ
alt_distro_font_path = codes "/mnt/wslg/distro/usr/share/X11/fonts"

pub record Monitor : Type 0 where
  pub fd : Option ℕ
  pub folders : List FontFolder
  pub thread : Option ℕ

-- struct inotify_event, with its name as a C string and the length of the name's field.
pub record Event : Type 0 where
  pub wd : ℕ
  pub mask : ℕ
  pub len : ℕ
  pub name : List ℕ

-- The map's find, insert of a new key, and erase.
unfoldable pub find : List ℕ → List FontFolder → Option FontFolder
find path [] = none
find path (f ∷ fs) = if str_eq path f.path then some f else find path fs

unfoldable pub insert : FontFolder → List FontFolder → List FontFolder
insert f [] = f ∷ []
insert f (g ∷ gs) = elim (order f.path g.path) [
  | less ↦ f ∷ g ∷ gs
  | same ↦ g ∷ gs
  | greater ↦ g ∷ insert f gs
]

unfoldable pub erase : List ℕ → List FontFolder → List FontFolder
erase path [] = []
erase path (f ∷ fs) = if str_eq path f.path then fs else f ∷ erase path fs

abbrev has_wd : ℕ → Option ℕ → Bool
has_wd wd none = false
has_wd wd (some n) = n == wd

-- The first folder of the table with the event's watch.
unfoldable pub find_wd : ℕ → List FontFolder → Option FontFolder
find_wd wd [] = none
find_wd wd (f ∷ fs) = if has_wd wd f.wd then some f else find_wd wd fs

-- The change of that folder in its place.
unfoldable pub replace_wd : ℕ → FontFolder → List FontFolder → List FontFolder
replace_wd wd g [] = []
replace_wd wd g (f ∷ fs) = if has_wd wd f.wd then g ∷ fs else f ∷ replace_wd wd g fs

abbrev pub fresh : Monitor
fresh = record { fd = none; folders = []; thread = none }

module _ (s : System) where
  open s use {World}

  -- AddMonitorFolder, with what it does below the folder once that is tracked. `fd` is the
  -- descriptor of inotify.
  unfoldable pub track :
      ℕ
      → List ℕ
      → (List FontFolder → World → List FontFolder × World)
      → List FontFolder
      → World
      → List FontFolder × World
  track fd path below fs w = elim (find path fs) [
    | some f ↦ (fs, w)
    | none ↦
        let (f, w₁) = new_font_folder s fd path w in
        elim f.wd [ none ↦ (fs, delete_font_folder s f w₁) | some wd ↦ below (insert f fs) w₁ ]
  ]

  -- The loop of AddMonitorFolder over the directories below `path`, as the iterators find them. No
  -- path below another one is the mounted font folder, so that case is left out here.
  unfoldable pub track_below :
      ℕ → List ℕ → Folders → List FontFolder → World → List FontFolder × World
  track_below fd path end fs w = (fs, w)
  track_below fd path broken fs w = (fs, w)
  track_below fd path (file rest) fs w = track_below fd path rest fs w
  track_below fd path (folder name inside rest) fs w =
      let sub = join path name in
      let (fs₁, w₁) = track fd sub (track_below fd sub inside) fs w in
      track_below fd path rest fs₁ w₁

  unfoldable pub track_all : ℕ → List ℕ → List FontFolder → World → List FontFolder × World
  track_all fd path = track fd path (λ fs w. track_below fd path (s.folders path w) fs w)

  -- Under the mounted font folder, only X11 is tracked, if it is there.
  unfoldable pub track_x11 : ℕ → List FontFolder → World → List FontFolder × World
  track_x11 fd fs w = elim (s.exists x11_font_path w) [
    | none ↦ (fs, w)
    | some false ↦ (fs, w)
    | some true ↦ track_all fd x11_font_path fs w
  ]

  unfoldable pub add_monitor_folder : ℕ → List ℕ → List FontFolder → World → List FontFolder × World
  unfolding track_all track_x11
  add_monitor_folder fd path fs w =
      if str_eq path user_distro_font_path
      then track fd path (track_x11 fd) fs w
      else track_all fd path fs w

  unfoldable pub remove_monitor_folder : List ℕ → List FontFolder → World → List FontFolder × World
  remove_monitor_folder path fs w = elim (find path fs) [
    | none ↦ (fs, w)
    | some f ↦ (erase path fs, delete_font_folder s f w)
  ]

  -- IN_CREATE | IN_MOVED_TO, and IN_DELETE | IN_MOVED_FROM
  unfoldable pub handle_folder_event : ℕ → Event → List FontFolder → World → List FontFolder × World
  handle_folder_event fd ev fs w = elim (find_wd ev.wd fs) [
    | none ↦ (fs, w)
    | some f ↦
        if has_flag ev.mask 0x180
        then (if str_eq f.path user_distro_font_path && not (str_eq ev.name x11_name)
            then (fs, w)
            else add_monitor_folder fd (join f.path ev.name) fs w)
        else if has_flag ev.mask 0x240
        then remove_monitor_folder (join f.path ev.name) fs w
        else (fs, w)
  ]

  -- IN_CREATE | IN_CLOSE_WRITE | IN_MOVED_TO, and IN_DELETE | IN_MOVED_FROM
  unfoldable pub handle_fonts_dir_event : Event → List FontFolder → World → List FontFolder × World
  handle_fonts_dir_event ev fs w = elim (find_wd ev.wd fs) [
    | none ↦ (fs, w)
    | some f ↦
        if has_flag ev.mask 0x188
        then (if s.readable (join f.path ev.name) w
            then (let (f', w') = modify_x11_font_path s true f w in (replace_wd ev.wd f' fs, w'))
            else (fs, w))
        else if has_flag ev.mask 0x240
        then (let (f', w') = modify_x11_font_path s false f w in (replace_wd ev.wd f' fs, w'))
        else (fs, w)
  ]

  -- What the thread does with one event; 0x40000000 is IN_ISDIR.
  unfoldable pub handle_event : ℕ → Event → List FontFolder → World → List FontFolder × World
  handle_event fd ev fs w =
      if ev.len == 0
      then (fs, w)
      else if has_flag ev.mask 0x4000_0000
      then handle_folder_event fd ev fs w
      else if str_eq ev.name fonts_dir
      then handle_fonts_dir_event ev fs w
      else (fs, w)

  -- The map's clear, which destroys each folder.
  unfoldable pub clear : List FontFolder → World → World
  clear [] w = w
  clear (f ∷ fs) w = clear fs (delete_font_folder s f w)

  abbrev pub stop_if_running : Option ℕ → World → World
  stop_if_running none w = w
  stop_if_running (some t) w = s.stop_thread t w

  unfoldable pub stop : Monitor → World → Monitor × World
  stop m w =
      let w₁ = stop_if_running m.thread w in
      let (fs₁, w₂) = remove_monitor_folder user_distro_font_path m.folders w₁ in
      let (fs₂, w₃) = remove_monitor_folder alt_distro_font_path fs₁ w₂ in
      let w₄ = clear fs₂ w₃ in (fresh, close_if_open s m.fd w₄)

  -- The part of Start after the checks, with the two paths that exist. No error number of
  -- pthread_create is negative, so that its failure is not seen.
  unfoldable pub start_on : Bool → Bool → ℕ → Monitor → World → Monitor × World
  start_on user alt fd m w =
      let (fs₁, w₁) : List FontFolder × World =
        if user then add_monitor_folder fd user_distro_font_path m.folders w else (m.folders, w) in
      let (fs₂, w₂) : List FontFolder × World =
        if alt then add_monitor_folder fd alt_distro_font_path fs₁ w₁ else (fs₁, w₁) in
      let (w₃, error, thread) = s.pthread_create w₂ in
      (record { fd = some fd; folders = fs₂; thread = some thread }, w₃)

  -- The two paths, if the checks of Start pass.
  unfoldable pub check_paths : World → Option (Bool × Bool)
  check_paths w =
      if not (s.executable xset w) then none else elim (s.exists user_distro_mount_path w) [
        | none ↦ none
        | some false ↦ none
        | some true ↦ elim (s.exists user_distro_font_path w) [
          | none ↦ none
          | some user ↦ elim (s.exists alt_distro_font_path w) [
            | none ↦ none
            | some alt ↦ if user || alt then some (user, alt) else none
          ]
        ]
      ]

  -- Start, with whether it returns 0.
  unfoldable pub start : Monitor → World → Monitor × World × Bool
  unfolding check_paths
  start m w = elim (check_paths w) [
    | none ↦ let (m', w') = stop m w in (m', w', false)
    | some (user, alt) ↦
        let (w₁, made) = s.inotify_init w in
        elim made [
          | none ↦ let (m', w') = stop m w₁ in (m', w', false)
          | some fd ↦ let (m', w') = start_on user alt fd m w₁ in (m', w', true)
        ]
  ]
