-- ===== src/Daemon/FontMonitor/Monitor/Places.antt =====
-- Where the folders lie that a font monitor tracks.
use wslg.Common.{
  ℕ, ◌≡◌, ◌≢◌, refl, sym, ◌∙◌, ◌⊎◌, inl, inr, List, [], ◌∷◌, ◌++◌, Bool, false, none, some, All,
  append-nil, append_assoc, Bool-cases,
}
use wslg.Daemon.FontMonitor.System.{System, slash, is_absolute, ends_in_slash, join}
use wslg.Daemon.FontMonitor.Folder.{FontFolder, modify_x11_font_path}
use wslg.Daemon.FontMonitor.Folder.XFontPath.{modify-path, modify-wd, new-path}
use wslg.Daemon.FontMonitor.Monitor.{
  Monitor, user_distro_font_path, x11_font_path, alt_distro_font_path,
}
use wslg.Daemon.FontMonitor.Monitor.Kept.{Kept, AllNames}
use wslg.Daemon.FontMonitor.Monitor.Runs.{Runs, Runs-Holds}
use wslg.Daemon.FontMonitor.Monitor.Table.{All-insert, All-erase, All-replace, All-find_wd}

-- A name of a directory entry: no absolute path.
abbrev pub IsName : List ℕ → Type 0
IsName name = is_absolute name ≡ false

-- Nothing, or a slash and more.
abbrev IsTail : List ℕ → Type 0
IsTail [] = Unit {0}
IsTail (c ∷ cs) = c ≡ slash

-- The directory itself, or a path below it.
abbrev pub IsBelow : List ℕ → List ℕ → Type 0
IsBelow root path = (rest : List ℕ) × (path ≡ root ++ rest) × IsTail rest

abbrev pub IsInside : List ℕ → Type 0
IsInside path = IsBelow x11_font_path path ⊎ IsBelow alt_distro_font_path path

join_tail :
    (root rest name : List ℕ)
    → ends_in_slash root ≡ false
    → IsTail rest
    → IsName name
    → IsBelow root (join (root ++ rest) name)
unfolding join
join_tail root [] name closed tail ok = (slash ∷ name, rw (append-nil, join, ok, closed) refl, refl)
join_tail root (c ∷ cs) name closed tail ok = elim (Bool-cases (ends_in_slash (root ++ c ∷ cs))) [
  | inl open_end ↦ (c ∷ (cs ++ name), rw (join, ok, open_end, append_assoc) refl, tail)
  | inr closed_end ↦
      (c ∷ (cs ++ (slash ∷ name)), rw (join, ok, closed_end, append_assoc) refl, tail)
]

join-IsBelow :
    (root path name : List ℕ)
    → ends_in_slash root ≡ false
    → IsBelow root path
    → IsName name
    → IsBelow root (join path name)
join-IsBelow root path name closed (rest, e, tail) ok =
    rw e (join_tail root rest name closed tail ok)

x11_closed : ends_in_slash x11_font_path ≡ false
unfolding ends_in_slash x11_font_path
x11_closed = refl

alt_closed : ends_in_slash alt_distro_font_path ≡ false
unfolding ends_in_slash alt_distro_font_path
alt_closed = refl

join-IsInside : (path name : List ℕ) → IsInside path → IsName name → IsInside (join path name)
join-IsInside path name (inl b) ok = inl (join-IsBelow x11_font_path path name x11_closed b ok)
join-IsInside path name (inr b) ok =
    inr (join-IsBelow alt_distro_font_path path name alt_closed b ok)

-- A tracked folder is one that Start adds or lies below X11 there or the other one, and is watched.
pub record IsPlaced (f : FontFolder) : Type 0 where
  pub place : (f.path ≡ user_distro_font_path) ⊎ IsInside f.path
  pub is_watched : f.wd ≢ none

abbrev Placed : List FontFolder → Type 0
Placed fs = All IsPlaced fs

module _ (s : System)
    (names : (path : List ℕ) (w : s.World) → AllNames IsName (s.folders path w)) where
  modify-IsPlaced :
      (add : Bool) (f : FontFolder) (w : s.World)
      → IsPlaced f
      → IsPlaced (modify_x11_font_path s add f w).0
  modify-IsPlaced add f w p = record {
    place = rw (modify-path s add f w) p.place;
    is_watched = rw (modify-wd s add f w) p.is_watched;
  }

  Kept-Placed : Kept s IsName IsInside (λ fs w. Placed fs)
  Kept-Placed = record {
    names = names;
    x11 = inl ([], sym (append-nil _), tt);
    alt = inr ([], sym (append-nil _), tt);
    below = join-IsInside;
    tracked = λ wd fs w f h found. (All-find_wd IsPlaced wd fs f found h).place;
    inserted = λ fd path fs w ok missing wd watched h.
        All-insert IsPlaced _ fs
          (record {
            place = rw (new-path s fd path w) ok;
            is_watched = λ e. let no : none ≡ some wd = sym e ∙ watched in cc;
          })
          h;
    dropped = λ fd path fs w h. h;
    erased = λ path fs w f found h. All-erase IsPlaced path fs h;
    modified = λ add wd fs w f found h.
        All-replace IsPlaced wd _ fs
          (modify-IsPlaced add f w (All-find_wd IsPlaced wd fs f found h)) h;
    cleared = λ f fs w h. h.1;
    after_close = λ fd fs w h. h;
    after_init = λ fs w h. h;
    after_create = λ fs w h. h;
    after_stop = λ t fs w h. h;
  }

  -- At every moment in the life of the font monitor, each tracked folder is the mounted font
  -- folder, or X11 in it, or the other font folder, or lies below one of these two, and is watched:
  -- if the names of directory entries and of events are no absolute paths, whatever the system and
  -- other processes do.
  pub Runs-AllPlaced :
      {w₀ w : s.World} {m : Monitor}
      → Runs s IsName (λ w w'. Unit {0}) w₀ m w
      → All IsPlaced m.folders
  Runs-AllPlaced r = Runs-Holds s IsName (λ w w'. Unit {0}) Kept-Placed (λ fs w w' o h. h) tt r
