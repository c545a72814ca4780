-- ===== src/Daemon/FontMonitor/Monitor/OnEvent.antt =====
-- An event keeps what the rule of Kept is for.
use wslg.Common.{
  subst, ℕ, ◌≡◌, refl, sym, ◌⊎◌, inl, inr, List, Bool, true, false, not, ◌&&◌, some, Option-cases,
  arith,
}
use wslg.Common.{if◌then◌else◌}
use wslg.Client.FileDb.{str_eq}
use wslg.Client.FileDb.Comparison.{str_eq→eq, str_eq_refl}
use wslg.Daemon.FontMonitor.System.{System, join}
use wslg.Daemon.FontMonitor.Folder.{FontFolder, modify_x11_font_path}
use wslg.Daemon.FontMonitor.Monitor.{
  Event, find_wd, replace_wd, user_distro_font_path, x11_name, x11_font_path, add_monitor_folder,
  remove_monitor_folder, handle_folder_event, handle_fonts_dir_event, handle_event,
}
use wslg.Daemon.FontMonitor.Monitor.Kept.{Kept, After, add-Keeps, remove-Keeps}

module _ {s : System} {IsName Inside : List ℕ → Type 0} {Holds : List FontFolder → s.World → Type 0}
    (kept : Kept s IsName Inside Holds) where
  open s use {World}

  join-x11 : join user_distro_font_path x11_name ≡ x11_font_path
  unfolding join user_distro_font_path x11_name x11_font_path
  join-x11 = refl

  module _ (fd : ℕ) (ev : Event) (fs : List FontFolder) (w : World) (h : Holds fs w) where
    -- The branches of the handlers, once the folder with the event's watch is found.
    module _ (f : FontFolder) (found : find_wd ev.wd fs ≡ some f) where
      allowed :
          IsName ev.name
          → (str_eq f.path user_distro_font_path && not (str_eq ev.name x11_name)) ≡ false
          → (join f.path ev.name ≡ user_distro_font_path) ⊎ Inside (join f.path ev.name)
      allowed name e = elim (kept.tracked ev.wd fs w f h found) [
        | inr inside ↦ inr (kept.below f.path ev.name inside name)
        | inl mount ↦
            let same : str_eq ev.name x11_name ≡ true =
              ground (arith, str_eq_refl user_distro_font_path) in
            let path : join f.path ev.name ≡ x11_font_path =
              rw (mount, str_eq→eq ev.name x11_name same) join-x11 in
            inr (subst Inside (sym path) kept.x11)
      ]

      added :
          IsName ev.name
          → (test : Bool)
          → (str_eq f.path user_distro_font_path && not (str_eq ev.name x11_name)) ≡ test
          → After kept
              (if test then (fs, w) else add_monitor_folder s fd (join f.path ev.name) fs w)
      added name true e = h
      added name false e = add-Keeps kept fd (join f.path ev.name) (allowed name e) fs w h

      folder_event :
          IsName ev.name
          → (create delete : Bool)
          → After kept (
              if create
              then (if str_eq f.path user_distro_font_path && not (str_eq ev.name x11_name)
                  then (fs, w)
                  else add_monitor_folder s fd (join f.path ev.name) fs w)
              else if delete
              then remove_monitor_folder s (join f.path ev.name) fs w
              else (fs, w))
      folder_event name true delete = added name _ refl
      folder_event name false true = remove-Keeps kept (join f.path ev.name) fs w h
      folder_event name false false = h

      fonts_dir_event :
          (create readable delete : Bool)
          → After kept (
              if create
              then (if readable
                  then (let (f', w') = modify_x11_font_path s true f w in
                      (replace_wd ev.wd f' fs, w'))
                  else (fs, w))
              else if delete
              then (let (f', w') = modify_x11_font_path s false f w in (replace_wd ev.wd f' fs, w'))
              else (fs, w))
      fonts_dir_event true true delete = kept.modified true ev.wd fs w f found h
      fonts_dir_event true false delete = h
      fonts_dir_event false true true = kept.modified false ev.wd fs w f found h
      fonts_dir_event false false true = kept.modified false ev.wd fs w f found h
      fonts_dir_event false readable false = h

    folder_event-Keeps : IsName ev.name → After kept (handle_folder_event s fd ev fs w)
    unfolding handle_folder_event
    folder_event-Keeps name = elim (Option-cases (find_wd ev.wd fs)) [
      | inl missing ↦ rw (handle_folder_event, missing) h
      | inr (f, found) ↦ rw (handle_folder_event, found) (folder_event f found name _ _)
    ]

    fonts_dir_event-Keeps : After kept (handle_fonts_dir_event s ev fs w)
    unfolding handle_fonts_dir_event
    fonts_dir_event-Keeps = elim (Option-cases (find_wd ev.wd fs)) [
      | inl missing ↦ rw (handle_fonts_dir_event, missing) h
      | inr (f, found) ↦ rw (handle_fonts_dir_event, found) (fonts_dir_event f found _ _ _)
    ]

    handled :
        (empty dir same : Bool)
        → IsName ev.name
        → After kept (
            if empty
            then (fs, w)
            else if dir
            then handle_folder_event s fd ev fs w
            else if same
            then handle_fonts_dir_event s ev fs w
            else (fs, w))
    handled true dir same name = h
    handled false true same name = folder_event-Keeps name
    handled false false true name = fonts_dir_event-Keeps
    handled false false false name = h

    pub handle_event-Keeps : IsName ev.name → After kept (handle_event s fd ev fs w)
    unfolding handle_event
    handle_event-Keeps name = handled _ _ _ name
