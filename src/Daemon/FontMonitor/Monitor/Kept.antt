-- ===== src/Daemon/FontMonitor/Monitor/Kept.antt =====
-- A rule for what holds of the tracked folders and the world at every moment: it is enough that the
-- four changes of the table keep it, and that the other calls to the system do.
use wslg.Common.{
  ℕ, ◌≡◌, ◌≢◌, refl, ◌⊎◌, inl, inr, List, [], ◌∷◌, Bool, true, false, Option, none, some,
  Option-cases, Bool-cases, arith,
}
use wslg.Client.FileDb.{str_eq}
use wslg.Client.FileDb.Comparison.{str_eq→eq, str_eq_refl}
use wslg.Daemon.FontMonitor.System.{System, Folders, end, broken, file, folder, join}
use wslg.Daemon.FontMonitor.Folder.{
  FontFolder, modify_x11_font_path, new_font_folder, delete_font_folder, close_if_open,
}
use wslg.Daemon.FontMonitor.Monitor.{
  Monitor, find, insert, erase, find_wd, replace_wd, user_distro_font_path, x11_font_path,
  alt_distro_font_path, track, track_below, track_all, track_x11, add_monitor_folder,
  remove_monitor_folder, clear, stop, stop_if_running, start_on, check_paths, start,
}

-- Every name of a directory below a path is one that `IsName` allows.
abbrev pub AllNames : (List ℕ → Type 0) → Folders → Type 0
AllNames IsName end = Unit
AllNames IsName broken = Unit
AllNames IsName (file rest) = AllNames IsName rest
AllNames IsName (folder name inside rest) =
    IsName name × AllNames IsName inside × AllNames IsName rest

-- `Inside` is what a folder's path may be, other than the mounted font folder.
pub record Kept (s : System) (IsName Inside : List ℕ → Type 0)
    (Holds : List FontFolder → s.World → Type 0) : Type 0 where
  pub names : (path : List ℕ) (w : s.World) → AllNames IsName (s.folders path w)
  pub x11 : Inside x11_font_path
  pub alt : Inside alt_distro_font_path
  pub below : (path name : List ℕ) → Inside path → IsName name → Inside (join path name)
  pub tracked :
      (wd : ℕ) (fs : List FontFolder) (w : s.World) (f : FontFolder)
      → Holds fs w
      → find_wd wd fs ≡ some f
      → (f.path ≡ user_distro_font_path) ⊎ Inside f.path
  pub inserted :
      (fd : ℕ) (path : List ℕ) (fs : List FontFolder) (w : s.World)
      → (path ≡ user_distro_font_path) ⊎ Inside path
      → find path fs ≡ none
      → (wd : ℕ) → (new_font_folder s fd path w).0.wd ≡ some wd
      → Holds fs w
      → Holds (insert (new_font_folder s fd path w).0 fs) (new_font_folder s fd path w).1
  pub dropped :
      (fd : ℕ) (path : List ℕ) (fs : List FontFolder) (w : s.World)
      → Holds fs w
      → Holds fs
          (delete_font_folder s (new_font_folder s fd path w).0 (new_font_folder s fd path w).1)
  pub erased :
      (path : List ℕ) (fs : List FontFolder) (w : s.World) (f : FontFolder)
      → find path fs ≡ some f
      → Holds fs w
      → Holds (erase path fs) (delete_font_folder s f w)
  pub modified :
      (add : Bool) (wd : ℕ) (fs : List FontFolder) (w : s.World) (f : FontFolder)
      → find_wd wd fs ≡ some f
      → Holds fs w
      → Holds
          (replace_wd wd (modify_x11_font_path s add f w).0 fs)
          (modify_x11_font_path s add f w).1
  pub cleared :
      (f : FontFolder) (fs : List FontFolder) (w : s.World)
      → Holds (f ∷ fs) w
      → Holds fs (delete_font_folder s f w)
  pub after_close :
      (fd : ℕ) (fs : List FontFolder) (w : s.World) → Holds fs w → Holds fs (s.close fd w)
  pub after_init : (fs : List FontFolder) (w : s.World) → Holds fs w → Holds fs (s.inotify_init w).0
  pub after_create :
      (fs : List FontFolder) (w : s.World) → Holds fs w → Holds fs (s.pthread_create w).0
  pub after_stop :
      (t : ℕ) (fs : List FontFolder) (w : s.World) → Holds fs w → Holds fs (s.stop_thread t w)

module _ {s : System} {IsName Inside : List ℕ → Type 0} {Holds : List FontFolder → s.World → Type 0}
    (kept : Kept s IsName Inside Holds) where
  open s use {World}

  abbrev pub After : List FontFolder × World → Type 0
  After r = Holds r.0 r.1

  abbrev Keeps : (List FontFolder → World → List FontFolder × World) → Type 0
  Keeps action = (fs : List FontFolder) (w : World) → Holds fs w → After (action fs w)

  track-Keeps :
      (fd : ℕ) (path : List ℕ) {below : List FontFolder → World → List FontFolder × World}
      → (path ≡ user_distro_font_path) ⊎ Inside path
      → Keeps below
      → Keeps (track s fd path below)
  unfolding track
  track-Keeps fd path {below} allowed keeps fs w h = elim (Option-cases (find path fs)) [
    | inr (f, found) ↦ rw (track, found) h
    | inl missing ↦
        let f = (new_font_folder s fd path w).0 in
        let w₁ = (new_font_folder s fd path w).1 in
        elim (Option-cases f.wd) [
          | inl failed ↦ rw (track, missing, failed) (kept.dropped fd path fs w h)
          | inr (wd, watched) ↦
              rw (track, missing, watched)
                (keeps (insert f fs) w₁ (kept.inserted fd path fs w allowed missing wd watched h))
        ]
  ]

  track_below-Keeps :
      (fd : ℕ) (path : List ℕ) (tree : Folders)
      → Inside path
      → AllNames IsName tree
      → Keeps (track_below s fd path tree)
  unfolding track_below
  track_below-Keeps fd path end inside names fs w h = h
  track_below-Keeps fd path broken inside names fs w h = h
  track_below-Keeps fd path (file rest) inside names fs w h =
      track_below-Keeps fd path rest inside names fs w h
  track_below-Keeps fd path (folder name deeper rest) inside (ok, names, more) fs w h =
      let sub = join path name in
      let inside' = kept.below path name inside ok in
      track_below-Keeps fd path rest inside more _ _
        (track-Keeps fd sub (inr inside') (track_below-Keeps fd sub deeper inside' names) fs w h)

  track_all-Keeps : (fd : ℕ) (path : List ℕ) → Inside path → Keeps (track_all s fd path)
  unfolding track_all
  track_all-Keeps fd path inside =
      track-Keeps fd path (inr inside)
        (λ fs w h. track_below-Keeps fd path (s.folders path w) inside (kept.names path w) fs w h)

  track_x11-Keeps : (fd : ℕ) → Keeps (track_x11 s fd)
  unfolding track_x11
  track_x11-Keeps fd fs w h = elim (Option-cases (s.exists x11_font_path w)) [
    | inl thrown ↦ rw (track_x11, thrown) h
    | inr (false, absent) ↦ rw (track_x11, absent) h
    | inr (true, there) ↦ rw (track_x11, there) (track_all-Keeps fd x11_font_path kept.x11 fs w h)
  ]

  pub add-Keeps :
      (fd : ℕ) (path : List ℕ)
      → (path ≡ user_distro_font_path) ⊎ Inside path
      → Keeps (add_monitor_folder s fd path)
  unfolding add_monitor_folder
  add-Keeps fd path allowed fs w h = elim (Bool-cases (str_eq path user_distro_font_path)) [
    | inl mount ↦
        rw (add_monitor_folder, mount)
          (track-Keeps fd path (inl (str_eq→eq path _ mount)) (track_x11-Keeps fd) fs w h)
    | inr other ↦
        let is_other : path ≢ user_distro_font_path =
          λ e. ground (arith, str_eq_refl user_distro_font_path) in
        rw (add_monitor_folder, other)
          (track_all-Keeps fd path (elim allowed [ inl e ↦ absurd (is_other e) | inr i ↦ i ]) fs w
            h)
  ]

  pub remove-Keeps : (path : List ℕ) → Keeps (remove_monitor_folder s path)
  unfolding remove_monitor_folder
  remove-Keeps path fs w h = elim (Option-cases (find path fs)) [
    | inl missing ↦ rw (remove_monitor_folder, missing) h
    | inr (f, found) ↦ rw (remove_monitor_folder, found) (kept.erased path fs w f found h)
  ]

  clear-Keeps : (fs : List FontFolder) (w : World) → Holds fs w → Holds [] (clear s fs w)
  unfolding clear
  clear-Keeps [] w h = h
  clear-Keeps (f ∷ fs) w h = clear-Keeps fs (delete_font_folder s f w) (kept.cleared f fs w h)

  close-Keeps :
      (fd : Option ℕ) (fs : List FontFolder) (w : World)
      → Holds fs w
      → Holds fs (close_if_open s fd w)
  close-Keeps none fs w h = h
  close-Keeps (some fd) fs w h = kept.after_close fd fs w h

  stop_thread-Keeps :
      (t : Option ℕ) (fs : List FontFolder) (w : World)
      → Holds fs w
      → Holds fs (stop_if_running s t w)
  stop_thread-Keeps none fs w h = h
  stop_thread-Keeps (some t) fs w h = kept.after_stop t fs w h

  pub stop-Keeps : (m : Monitor) (w : World) → Holds m.folders w → Holds [] (stop s m w).1
  unfolding stop
  stop-Keeps m w h =
      let h₁ = stop_thread-Keeps m.thread m.folders w h in
      let h₂ = remove-Keeps user_distro_font_path _ _ h₁ in
      let h₃ = remove-Keeps alt_distro_font_path _ _ h₂ in
      close-Keeps m.fd [] _ (clear-Keeps _ _ h₃)

  start_on-Keeps :
      (user alt : Bool) (fd : ℕ) (m : Monitor) (w : World)
      → Holds m.folders w
      → Holds (start_on s user alt fd m w).0.folders (start_on s user alt fd m w).1
  unfolding start_on
  start_on-Keeps false false fd m w h = kept.after_create _ _ h
  start_on-Keeps true false fd m w h =
      kept.after_create _ _ (add-Keeps fd user_distro_font_path (inl refl) _ _ h)
  start_on-Keeps false true fd m w h =
      kept.after_create _ _ (add-Keeps fd alt_distro_font_path (inr kept.alt) _ _ h)
  start_on-Keeps true true fd m w h = kept.after_create _ _ (
      add-Keeps fd alt_distro_font_path (inr kept.alt) _ _
        (add-Keeps fd user_distro_font_path (inl refl) _ _ h))

  pub stop-fresh : (m : Monitor) (w : World) → (stop s m w).0.folders ≡ []
  unfolding stop
  stop-fresh m w = refl

  pub start-Keeps :
      (m : Monitor) (w : World) → Holds m.folders w → Holds (start s m w).0.folders (start s m w).1
  unfolding start
  start-Keeps m w h = elim (Option-cases (check_paths s w)) [
    | inl refused ↦ rw (start, refused) (rw (stop-fresh m w) (stop-Keeps m w h))
    | inr ((user, alt), checked) ↦ elim (Option-cases (s.inotify_init w).1) [
      | inl failed ↦
          rw (start, checked, failed)
            (rw (stop-fresh m _) (stop-Keeps m (s.inotify_init w).0 (kept.after_init _ w h)))
      | inr (fd, made) ↦
          rw (start, checked, made) (start_on-Keeps user alt fd m _ (kept.after_init _ w h))
    ]
  ]
