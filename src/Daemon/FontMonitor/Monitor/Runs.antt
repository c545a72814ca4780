-- ===== src/Daemon/FontMonitor/Monitor/Runs.antt =====
-- What happens to a font monitor over its life, in any order: it is started, its thread handles an
-- event, it is stopped, and other processes change the world.
use wslg.Common.{ℕ, ◌≡◌, List, some}
use wslg.Daemon.FontMonitor.System.{System}
use wslg.Daemon.FontMonitor.Folder.{FontFolder}
use wslg.Daemon.FontMonitor.Monitor.{Monitor, Event, handle_event, start, stop, fresh}
use wslg.Daemon.FontMonitor.Monitor.OnEvent.{handle_event-Keeps}
use wslg.Daemon.FontMonitor.Monitor.Kept.{Kept, start-Keeps, stop-Keeps, stop-fresh}

-- `IsName` says which names events have, and `Others` what other processes do.
module _ (s : System) (IsName : List ℕ → Type 0) (Others : s.World → s.World → Type 0) where
  abbrev pub after_event : ℕ → Event → Monitor → s.World → Monitor
  after_event fd ev m w = record m { folders = (handle_event s fd ev m.folders w).0 }

  pub data Runs (w₀ : s.World) : Monitor → s.World → Type 0 where
    created : Runs w₀ fresh w₀
    others : {m : Monitor} {w w' : s.World} → Runs w₀ m w → Others w w' → Runs w₀ m w'
    started : {m : Monitor} {w : s.World} → Runs w₀ m w → Runs w₀ (start s m w).0 (start s m w).1
    event :
        {m : Monitor} {w : s.World} (fd : ℕ) (ev : Event)
        → Runs w₀ m w
        → m.fd ≡ some fd
        → IsName ev.name
        → Runs w₀ (after_event fd ev m w) (handle_event s fd ev m.folders w).1
    stopped : {m : Monitor} {w : s.World} → Runs w₀ m w → Runs w₀ (stop s m w).0 (stop s m w).1

  -- What holds at first, is kept by the operations, and by other processes, holds at every moment.
  module _ {Inside : List ℕ → Type 0} {Holds : List FontFolder → s.World → Type 0}
      (kept : Kept s IsName Inside Holds)
      (apart : (fs : List FontFolder) (w w' : s.World)
        → Others w w'
        → Holds fs w
        → Holds fs w') where
    pub Runs-Holds :
        {w₀ w : s.World} {m : Monitor} → Holds fresh.folders w₀ → Runs w₀ m w → Holds m.folders w
    Runs-Holds h created = h
    Runs-Holds h (others r o) = apart _ _ _ o (Runs-Holds h r)
    Runs-Holds h (started {m} {w} r) = start-Keeps kept m w (Runs-Holds h r)
    Runs-Holds h (event {m} {w} fd ev r open_fd name) =
        handle_event-Keeps kept fd ev m.folders w (Runs-Holds h r) name
    Runs-Holds h (stopped {m} {w} r) =
        rw (stop-fresh kept m w) (stop-Keeps kept m w (Runs-Holds h r))
