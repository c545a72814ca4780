-- ===== src/Daemon/FontMonitor/Folder.antt =====
-- FontFolder: one watched directory.
pub mod XFontPath
use wslg.Common.{ℕ, List, [], ◌∷◌, Bool, true, false, Option, none, some, codes}
use wslg.Common.{if◌then◌else◌, ◌==◌}
use wslg.Daemon.FontMonitor.System.{System, join}

pub record FontFolder : Type 0 where
  -- none for -1
  pub fd : Option ℕ
  pub wd : Option ℕ
  pub path : List ℕ
  pub is_path_added : Bool

unfoldable pub xset : List ℕ
xset = codes "/usr/bin/xset"

unfoldable pub fonts_dir : List ℕ
fonts_dir = codes "fonts.dir"

unfoldable pub add_font_path : List ℕ → List (List ℕ)
unfolding xset
add_font_path path = xset ∷ codes "+fp" ∷ path ∷ []

unfoldable pub remove_font_path : List ℕ → List (List ℕ)
unfolding xset
remove_font_path path = xset ∷ codes "-fp" ∷ path ∷ []

unfoldable pub rehash : List (List ℕ)
unfolding xset
rehash = xset ∷ codes "fp" ∷ codes "rehash" ∷ []

abbrev has_succeeded : Option (Option ℕ) → Bool
has_succeeded none = false
has_succeeded (some none) = false
has_succeeded (some (some status)) = status == 0

abbrev pub xor : Bool → Bool → Bool
xor true true = false
xor true false = true
xor false true = true
xor false false = false

module _ (s : System) where
  open s use {World}

  -- ExecuteShellCommand, in the parent. An error of setpgid is logged, and the child waited for.
  unfoldable pub execute_shell_command : List (List ℕ) → World → World × Bool
  execute_shell_command argv w =
      let (w₁, child) = s.fork argv w in
      elim child [
        | none ↦ (w₁, false)
        | some pid ↦
            let (w₂, grouped) = s.setpgid pid w₁ in
            let (w₃, status) = s.waitpid pid w₂ in (w₃, has_succeeded status)
      ]

  -- ModifyX11FontPath
  unfoldable pub modify_x11_font_path : Bool → FontFolder → World → FontFolder × World
  modify_x11_font_path is_add f w =
      let w₁ = s.sleep 2 w in
      if xor f.is_path_added is_add
      then (let (w₂, done) =
            execute_shell_command (if is_add then add_font_path f.path else remove_font_path f.path)
              w₁ in
          if done
          then (record f { is_path_added = is_add }, (execute_shell_command rehash w₂).0)
          else (f, w₂))
      else (f, w₁)

  -- The first half of the constructor of FontFolder: a folder that is ready is added at once.
  unfoldable pub add_if_ready : FontFolder → World → FontFolder × World
  unfolding fonts_dir
  add_if_ready f w =
      if s.readable (join f.path fonts_dir) w then modify_x11_font_path true f w else (f, w)

  -- The second half: the watch, on a copy of the descriptor, if there is one.
  abbrev pub watch_on : Option ℕ → FontFolder → World → FontFolder × World
  watch_on none f w = (f, w)
  watch_on (some d) f w =
      let (w', watch) = s.add_watch d f.path w in (record f { fd = some d; wd = watch }, w')

  -- The constructor: what it throws it catches, so that the folder is there in any case.
  unfoldable pub new_font_folder : ℕ → List ℕ → World → FontFolder × World
  unfolding add_if_ready
  new_font_folder fd path w =
      let f : FontFolder = record { fd = none; wd = none; path = path; is_path_added = false } in
      let (f₁, w₁) = add_if_ready f w in let (w₂, copy) = s.dup fd w₁ in watch_on copy f₁ w₂

  abbrev pub close_if_open : Option ℕ → World → World
  close_if_open none w = w
  close_if_open (some d) w = s.close d w

  -- `if (m_wd >= 0) { inotify_rm_watch(m_fd.get(), m_wd); }`
  abbrev pub unwatch : Option ℕ → Option ℕ → World → World
  unwatch fd none w = w
  unwatch fd (some wd) w = s.rm_watch fd wd w

  -- The destructor of FontFolder, with that of its descriptor.
  unfoldable pub delete_font_folder : FontFolder → World → World
  delete_font_folder f w =
      let (f₁, w₁) = modify_x11_font_path false f w in close_if_open f₁.fd (unwatch f₁.fd f₁.wd w₁)
