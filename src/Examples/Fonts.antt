-- ===== src/Examples/Fonts.antt =====
-- The font monitor on a small system, whose world is the font path of the X server.
use wslg.Common.{
  ℕ, ◌≡◌, ◌≢◌, refl, ◌⊎◌, inl, inr, List, [], ◌∷◌, true, false, some, codes, length, All, arith,
}
use wslg.Common.{if◌then◌else◌}
use wslg.Client.FileDb.{str_eq, order}
use wslg.Client.FileDb.Comparison.{str_eq_refl}
use wslg.Daemon.FontMonitor.System.{System, Folders, end, file, folder, join, ends_in_slash}
use wslg.Daemon.FontMonitor.Folder.{
  add_font_path, remove_font_path, rehash, execute_shell_command, modify_x11_font_path,
  add_if_ready, new_font_folder, delete_font_folder,
}
use wslg.Daemon.FontMonitor.Folder.XFontPath.{XLaws, Quiet}
use wslg.Daemon.FontMonitor.Monitor.{
  Monitor, fresh, start, stop, find, insert, erase, track, track_below, track_all, track_x11,
  add_monitor_folder, remove_monitor_folder, clear, start_on, check_paths, alt_distro_font_path,
  user_distro_font_path, x11_font_path,
}
use wslg.Daemon.FontMonitor.Monitor.Kept.{AllNames}
use wslg.Daemon.FontMonitor.Monitor.Runs.{created, started}
use wslg.Daemon.FontMonitor.Monitor.Places.{IsName, IsPlaced, Runs-AllPlaced}
use wslg.Daemon.FontMonitor.Monitor.Restored.{stop_restores}
use wslg.Daemon.FontMonitor.Monitor.Buffer.{
  Written, IsWritten, written_all, event_of, drain, drained, handle_all, drain-written_all,
}

abbrev FontPath : Type 0
FontPath = List (List ℕ)

abbrev Listed : List ℕ → FontPath → Type 0
Listed p [] = ⊥
Listed p (q ∷ qs) = (q ≡ p) ⊎ Listed p qs

unfoldable without : List ℕ → FontPath → FontPath
without p [] = []
without p (q ∷ qs) = let rest = without p qs in if str_eq q p then rest else q ∷ rest

-- What xset does with its arguments.
unfoldable xset_does : List (List ℕ) → FontPath → FontPath
unfolding str_eq order
xset_does (program ∷ op ∷ p ∷ []) w =
    if str_eq op (codes "+fp") then p ∷ w else if str_eq op (codes "-fp") then without p w else w
xset_does argv w = w

-- A directory of fonts with two directories in it.
abbrev tree : Folders
tree = folder (codes "misc") end (file (folder (codes "75dpi") end end))

abbrev box : System
box = record {
  World = FontPath;
  readable = λ p w. true;
  executable = λ p w. true;
  exists = λ p w. some true;
  folders = λ p w. tree;
  inotify_init = λ w. (w, some 3);
  dup = λ fd w. (w, some 4);
  add_watch = λ fd p w. (w, some (length p));
  rm_watch = λ fd wd w. w;
  close = λ fd w. w;
  sleep = λ n w. w;
  fork = λ argv w. (xset_does argv w, some 100);
  setpgid = λ pid w. (w, true);
  waitpid = λ pid w. (w, some (some 0));
  pthread_create = λ w. (w, 0, 1);
  stop_thread = λ t w. w;
}

abbrev OnPath : FontPath → List ℕ → Type 0
OnPath w p = Listed p w

without-Listed : (p q : List ℕ) (w : FontPath) → Listed q (without p w) → Listed q w × (p ≢ q)
unfolding without
without-Listed p q [] on = absurd on
without-Listed p q (r ∷ w) on =
    elim (str_eq r p)
        as (λ b.
          str_eq r p ≡ b
          → Listed q (if b then without p w else r ∷ without p w)
          → Listed q (r ∷ w) × (p ≢ q)) [
            | true ↦ λ e on. let (on', other) = without-Listed p q w on in (inr on', other)
            | false ↦ λ e on. elim on [
              | inl same ↦ (inl same, λ pq. ground (arith, str_eq_refl p))
              | inr more ↦ let (on', other) = without-Listed p q w more in (inr on', other)
            ]
          ]
      refl on

-- In the box, nothing fails.
abbrev NoneFailed : FontPath → List ℕ → Type 0
NoneFailed w p = ⊥

nothing_else : (w : FontPath) → Quiet box OnPath NoneFailed w w
nothing_else w q = ((λ on. on), (λ failed. failed))

box-XLaws : XLaws box OnPath NoneFailed
unfolding execute_shell_command add_font_path remove_font_path rehash xset_does
box-XLaws = record {
  added = λ p q w on. elim on [ inl same ↦ inr (same, refl) | inr before ↦ inl before ];
  added_failed = λ p q w failed. failed;
  removed = λ p w q. ((λ on. (without-Listed p q w on).0), (λ failed. failed));
  removed_self = λ p w done on. (without-Listed p p w on).1 refl;
  removal_failed = λ p w failed. cc;
  rehashed = nothing_else;
  slept = λ n w. nothing_else w;
  duplicated = λ fd w. nothing_else w;
  watched = λ fd p w. nothing_else w;
  unwatched = λ fd wd w. nothing_else w;
  closed = λ fd w. nothing_else w;
  initialised = nothing_else;
  created = nothing_else;
  stopped = λ t w. nothing_else w;
}

names : (path : List ℕ) (w : FontPath) → AllNames IsName tree
names path w = (refl, tt, (refl, tt, tt))

abbrev built_ins : FontPath
built_ins = codes "built-ins" ∷ []

abbrev running : Monitor
running = (start box fresh built_ins).0

Runs-AllPlaced_example : All IsPlaced running.folders
Runs-AllPlaced_example = Runs-AllPlaced box names (started created)

-- While it runs, five directories and more are on the font path; in the end, what was there before.
after_stop : (stop box running (start box fresh built_ins).1).1 ≡ built_ins
unfolding start check_paths start_on add_monitor_folder track_all track_x11 track track_below find
    insert erase remove_monitor_folder clear stop new_font_folder delete_font_folder add_if_ready
    modify_x11_font_path execute_shell_command add_font_path remove_font_path rehash xset_does
    without str_eq order join x11_font_path alt_distro_font_path user_distro_font_path ends_in_slash
after_stop = refl

stop_restores_example : Listed (codes "built-ins") built_ins
stop_restores_example =
    stop_restores box OnPath NoneFailed box-XLaws built_ins running (start box fresh built_ins).1
      (codes "built-ins") (started created) (rw after_stop (inl refl)) (λ failed. failed)

abbrev new_folder : Written
new_folder = record { wd = 40; mask = 0x4000_0100; cookie = 0; name = codes "Type1"; zeros = 11 }

new_folder-IsWritten : IsWritten new_folder
new_folder-IsWritten = record {
  wd_fits = omega arith;
  mask_fits = omega arith;
  len_fits = omega arith;
  no_zero = omega arith;
  ends = inr (omega arith);
}

drain-written_all_example :
    drain box 3
      (length (written_all (new_folder ∷ [])))
      (written_all (new_folder ∷ []))
      running.folders
      []
    ≡ drained
        (handle_all box 3 (event_of new_folder ∷ []) running.folders []).0
        (handle_all box 3 (event_of new_folder ∷ []) running.folders []).1
drain-written_all_example =
    drain-written_all box 3 (new_folder ∷ []) running.folders [] (new_folder-IsWritten, tt)
