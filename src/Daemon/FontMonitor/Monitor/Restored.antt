-- ===== src/Daemon/FontMonitor/Monitor/Restored.antt =====
-- The font path of the X server: whatever a font monitor puts on it comes off it in the end.
use wslg.Common.{ℕ, ◌≡◌, ap, ◌∙◌, ◌⊎◌, inl, inr, List, ◌∷◌, Bool, true, false, none, some}
use wslg.Daemon.FontMonitor.System.{System, Folders, end, broken, file, folder}
use wslg.Daemon.FontMonitor.Folder.{
  FontFolder, modify_x11_font_path, new_font_folder, delete_font_folder,
}
use wslg.Daemon.FontMonitor.Folder.XFontPath.{
  XLaws, PathLaws, Quiet, Left, Quiet-Left, XLaws→PathLaws, Accounts, modify-add, modify-remove,
  Accounts-modify, delete-remove, new-add, new-path,
}
use wslg.Daemon.FontMonitor.Monitor.{Monitor, find, insert, erase, find_wd, replace_wd, stop}
use wslg.Daemon.FontMonitor.Monitor.Kept.{Kept, AllNames, stop-Keeps}
use wslg.Daemon.FontMonitor.Monitor.Runs.{Runs, Runs-Holds}
use wslg.Daemon.FontMonitor.Monitor.Table.{
  Some, Some-insert, Some-insert_self, Some-erase, Some-replace, Some-replace_self,
}

abbrev pub Anything : List ℕ → Type 0
Anything path = Unit {0}

AllNames-Anything : (tree : Folders) → AllNames Anything tree
AllNames-Anything end = tt
AllNames-Anything broken = tt
AllNames-Anything (file rest) = AllNames-Anything rest
AllNames-Anything (folder name inside rest) = (tt, AllNames-Anything inside, AllNames-Anything rest)

module _ (s : System) (OnPath : s.World → List ℕ → Type 0) (laws : PathLaws s OnPath)
    (w₀ : s.World) where
  open s use {World}

  -- What is on the X server's font path was there at first, or a tracked folder accounts for it.
  abbrev Accounted : List FontFolder → World → Type 0
  Accounted fs w =
      (q : List ℕ) → OnPath w q → OnPath w₀ q ⊎ Some (λ f. Accounts s OnPath laws f q) fs

  abbrev Entry : List ℕ → FontFolder → Type 0
  Entry q f = Accounts s OnPath laws f q

  -- A call that adds nothing.
  quiet :
      (fs : List FontFolder) (w w' : World)
      → ((q : List ℕ) → OnPath w' q → OnPath w q)
      → Accounted fs w
      → Accounted fs w'
  quiet fs w w' less h q on = h q (less q on)

  inserted :
      (fd : ℕ) (path : List ℕ) (fs : List FontFolder) (w : World)
      → find path fs ≡ none
      → Accounted fs w
      → Accounted (insert (new_font_folder s fd path w).0 fs) (new_font_folder s fd path w).1
  inserted fd path fs w missing h q on = elim (new-add s OnPath laws q fd path w on) [
    | inr entry ↦ inr (
        Some-insert_self (Entry q) (new_font_folder s fd path w).0 fs
          (ap (λ p. find p fs) (new-path s fd path w) ∙ missing) entry)
    | inl before ↦ elim (h q before) [
      | inl first ↦ inl first
      | inr entry ↦ inr (Some-insert (Entry q) _ fs entry)
    ]
  ]

  dropped :
      (fd : ℕ) (path : List ℕ) (fs : List FontFolder) (w : World)
      → Accounted fs w
      → Accounted fs
          (delete_font_folder s (new_font_folder s fd path w).0 (new_font_folder s fd path w).1)
  dropped fd path fs w h q on =
      let f = (new_font_folder s fd path w).0 in
      let (on', off) = delete-remove s OnPath laws q f _ on in
      elim (new-add s OnPath laws q fd path w on') [
        | inl before ↦ h q before
        | inr (same, added) ↦ absurd (off added same)
      ]

  erased :
      (path : List ℕ) (fs : List FontFolder) (w : World) (f : FontFolder)
      → find path fs ≡ some f
      → Accounted fs w
      → Accounted (erase path fs) (delete_font_folder s f w)
  erased path fs w f found h q on =
      let (on', off) = delete-remove s OnPath laws q f w on in
      elim (h q on') [
        | inl first ↦ inl first
        | inr entry ↦ elim (Some-erase (Entry q) path fs f found entry) [
          | inl left ↦ inr left
          | inr (same, added) ↦ absurd (off added same)
        ]
      ]

  modified :
      (add : Bool) (wd : ℕ) (fs : List FontFolder) (w : World) (f : FontFolder)
      → find_wd wd fs ≡ some f
      → Accounted fs w
      → Accounted
          (replace_wd wd (modify_x11_font_path s add f w).0 fs)
          (modify_x11_font_path s add f w).1
  modified true wd fs w f found h q on = elim (modify-add s OnPath laws f w q on) [
    | inr entry ↦ inr (Some-replace_self (Entry q) wd _ fs f found entry)
    | inl before ↦ elim (h q before) [
      | inl first ↦ inl first
      | inr entry ↦ elim (Some-replace (Entry q) wd _ fs f found entry) [
        | inl left ↦ inr left
        | inr own ↦
            inr (
              Some-replace_self (Entry q) wd _ fs f found (Accounts-modify s OnPath laws f w q own))
      ]
    ]
  ]
  modified false wd fs w f found h q on =
      let (on', off) = modify-remove s OnPath laws f w q on in
      elim (h q on') [
        | inl first ↦ inl first
        | inr entry ↦ elim (Some-replace (Entry q) wd _ fs f found entry) [
          | inl left ↦ inr left
          | inr (same, added) ↦ absurd (off added same)
        ]
      ]

  cleared :
      (f : FontFolder) (fs : List FontFolder) (w : World)
      → Accounted (f ∷ fs) w
      → Accounted fs (delete_font_folder s f w)
  cleared f fs w h q on =
      let (on', off) = delete-remove s OnPath laws q f w on in
      elim (h q on') [
        | inl first ↦ inl first
        | inr (inl (same, added)) ↦ absurd (off added same)
        | inr (inr entry) ↦ inr entry
      ]

  Kept-Accounted : Kept s Anything Anything Accounted
  Kept-Accounted = record {
    names = λ path w. AllNames-Anything (s.folders path w);
    x11 = tt;
    alt = tt;
    below = λ path name i n. tt;
    tracked = λ wd fs w f h found. inr tt;
    inserted = λ fd path fs w ok missing wd watched h. inserted fd path fs w missing h;
    dropped = dropped;
    erased = erased;
    modified = modified;
    cleared = cleared;
    after_close = λ fd fs w. quiet fs w _ (λ q. laws.closed fd q w);
    after_init = λ fs w. quiet fs w _ (λ q. laws.initialised q w);
    after_create = λ fs w. quiet fs w _ (λ q. laws.created q w);
    after_stop = λ t fs w. quiet fs w _ (λ q. laws.stopped t q w);
  }

-- Once the font monitor stops, between two events of its thread, a path on the font path of the X
-- server was there at first, unless an xset -fp of it has failed: where only xset +fp adds to it,
-- an xset -fp that succeeds takes its path off it, and other processes add nothing.
pub stop_restores :
    (s : System) (OnPath Failed : s.World → List ℕ → Type 0)
    → XLaws s OnPath Failed
    → (w₀ : s.World) (m : Monitor) (w : s.World) (q : List ℕ)
    → Runs s Anything (Quiet s OnPath Failed) w₀ m w
    → OnPath (stop s m w).1 q
    → ¬ Failed (stop s m w).1 q
    → OnPath w₀ q
stop_restores s OnPath Failed laws w₀ m w q r on not_failed =
    let PathLeft = Left s OnPath Failed laws in
    let kept = Kept-Accounted s PathLeft (XLaws→PathLaws s OnPath Failed laws) w₀ in
    let h =
      Runs-Holds s Anything (Quiet s OnPath Failed) kept
        (λ fs w w' apart h.
          quiet s PathLeft (XLaws→PathLaws s OnPath Failed laws) w₀ fs w w'
            (Quiet-Left s OnPath Failed laws w w' apart) h)
        (λ q left. inl left) r in
    elim (stop-Keeps kept m w h q (on, not_failed)) [
      | inl first ↦ first.0
      | inr entry ↦ absurd entry
    ]
