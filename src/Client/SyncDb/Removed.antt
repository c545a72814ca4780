-- ===== src/Client/SyncDb/Removed.antt =====
-- The links that a scan finds, and their removal.
use wslg.Common.{
  ℕ, ◌≡◌, sym, ap, ◌∙◌, ◌⊎◌, inl, inr, List, [], ◌∷◌, ◌++◌, Bool, true, false, Bool-cases,
  Option-cases, Has, append_assoc,
}
use wslg.Common.{if◌then◌else◌}
use wslg.Client.Path.{before_last_backslash, backslash, dot_lnk}
use wslg.Client.Windows.{Windows, Entries, file, folder, no_more, more}
use wslg.Client.FileDb.{FileEntry, str_eq}
use wslg.Client.FileDb.Keyed.{Keyed}
use wslg.Client.SyncDb.{
  on_lnk_file_added, scan_file, remove_if_empty, add_all_sub_folder_files, delete_file_id,
  delete_all_file_id_files, is_dots,
}
use wslg.Client.Hresult.{s_ok}
use wslg.Client.SyncDb.Scanned.{Keyed-lnk_added, Keyed-icon_added, Keyed-kept}

-- The paths of the links under a listing of the directory `path`.
unfoldable pub links : Windows → List ℕ → Entries → List (List ℕ)
links win path no_more = []
links win path (more (file name) rest) =
    let later = links win path rest in
    if str_eq (win.find_extension name) dot_lnk then (path ++ backslash ++ name) ∷ later else later
links win path (more (folder name inside) rest) =
    let later = links win path rest in
    let below = links win (path ++ backslash ++ name) inside in
    if is_dots win name then later else below ++ later

-- What is documented of the file system: DeleteFileW of a file that is there and is not locked, as a
-- read-only or open one is, removes it; no deletion makes a file or locks one; RemoveDirectoryW, which
-- takes empty directories only, changes no file and no link; and a directory that has a file below it
-- is not empty.
pub record RemoveLaws (win : Windows) (exists locked : List ℕ → win.World → Bool) : Type 0 where
  pub delete_self :
      (path : List ℕ) (w : win.World)
      → exists path w ≡ true
      → locked path w ≡ false
      → exists path (win.delete_file path w).0 ≡ false
  pub delete_makes_none :
      (path other : List ℕ) (w : win.World)
      → exists other w ≡ false
      → exists other (win.delete_file path w).0 ≡ false
  pub delete_locks_none :
      (path other : List ℕ) (w : win.World)
      → locked other w ≡ false
      → locked other (win.delete_file path w).0 ≡ false
  pub directory_exists :
      (dir path : List ℕ) (w : win.World)
      → exists path (win.remove_directory dir w).0 ≡ exists path w
  pub directory_locked :
      (dir path : List ℕ) (w : win.World)
      → locked path (win.remove_directory dir w).0 ≡ locked path w
  pub directory_link :
      (dir link : List ℕ) (w : win.World)
      → win.shell_link_icon link (win.remove_directory dir w).0 ≡ win.shell_link_icon link w
  pub not_empty :
      (dir rest : List ℕ) (w : win.World)
      → exists (dir ++ backslash ++ rest) w ≡ true
      → win.is_directory_empty dir w ≡ false

-- What removing a directory keeps, a scan keeps.
module _ (win : Windows) (At : win.World → Type 0)
    (directory : (dir : List ℕ) (w : win.World) → At w → At (win.remove_directory dir w).0) where
  remove_if_empty-At : (dir : List ℕ) (w : win.World) → At w → At (remove_if_empty win dir w)
  unfolding remove_if_empty
  remove_if_empty-At dir w at = elim (Bool-cases (win.is_directory_empty dir w)) [
    | inl empty ↦ rw (remove_if_empty, empty) (directory dir w at)
    | inr full ↦ rw (remove_if_empty, full) at
  ]

  pub scan-At :
      (path : List ℕ) (es : Entries) (db : List FileEntry) (w : win.World)
      → At w
      → At (add_all_sub_folder_files win path es db w).1
  unfolding add_all_sub_folder_files
  scan-At path no_more db w at = at
  scan-At path (more (file name) rest) db w at =
      scan-At path rest (scan_file win name (path ++ backslash ++ name) db w) w at
  scan-At path (more (folder name inside) rest) db w at =
      let sub = path ++ backslash ++ name in
      let (below, w') = add_all_sub_folder_files win sub inside db w in
      let below_at = scan-At sub inside db w at in
      elim (Bool-cases (is_dots win name)) [
        | inl dots ↦ rw (add_all_sub_folder_files, dots) (scan-At path rest db w at)
        | inr named ↦ elim (Bool-cases (win.is_directory_empty sub w)) [
          | inl empty ↦
              rw (add_all_sub_folder_files, named, empty)
                (scan-At path rest db (remove_if_empty win sub w) (remove_if_empty-At sub w at))
          | inr full ↦
              rw (add_all_sub_folder_files, named, full) (scan-At path rest below w' below_at)
        ]
      ]

  -- From the deletion of a file to the end of the round.
  round-At :
      (e : FileEntry) (w : win.World)
      → At (win.delete_file e.file_id w).0
      → At (delete_file_id win e w)
  unfolding delete_file_id
  round-At e w at = elim (Bool-cases (win.delete_file e.file_id w).1) [
    | inr failed ↦ rw (delete_file_id, failed) at
    | inl deleted ↦ elim (Option-cases (before_last_backslash e.file_id)) [
      | inl top ↦ rw (delete_file_id, deleted, top) at
      | inr (dir, below) ↦
          rw (delete_file_id, deleted, below)
            (remove_if_empty-At dir (win.delete_file e.file_id w).0 at)
    ]
  ]

Has-split : {A : Type 0} (x : A) (xs ys : List A) → Has x (xs ++ ys) → Has x xs ⊎ Has x ys
Has-split x [] ys there = inr there
Has-split x (z ∷ zs) ys (inl same) = inl (inl same)
Has-split x (z ∷ zs) ys (inr later) = elim (Has-split x zs ys later) [
  | inl front ↦ inl (inr front)
  | inr back ↦ inr back
]

module _ (win : Windows) (exists locked : List ℕ → win.World → Bool)
    (removal : RemoveLaws win exists locked) (p : List ℕ) where
  abbrev Under : List ℕ → Type 0
  Under path = (rest : List ℕ) × (p ≡ path ++ backslash ++ rest)

  Under-sub : (path name : List ℕ) → Under (path ++ backslash ++ name) → Under path
  Under-sub path name (rest, e) = (name ++ (backslash ++ rest), rw e (simp append_assoc))

  in_file :
      (path name : List ℕ) (rest : Entries)
      → Has p (links win path (more (file name) rest))
      → ((str_eq (win.find_extension name) dot_lnk ≡ true) × (path ++ backslash ++ name ≡ p))
        ⊎ Has p (links win path rest)
  unfolding links
  in_file path name rest there = elim (Bool-cases (str_eq (win.find_extension name) dot_lnk)) [
    | inl link ↦ elim (rw (links, link) at there) [
      | inl same ↦ inl (link, same)
      | inr later ↦ inr later
    ]
    | inr other ↦ inr (rw (links, other) at there)
  ]

  in_folder :
      (path name : List ℕ) (inside rest : Entries)
      → Has p (links win path (more (folder name inside) rest))
      → ((is_dots win name ≡ false) × Has p (links win (path ++ backslash ++ name) inside))
        ⊎ Has p (links win path rest)
  unfolding links
  in_folder path name inside rest there = elim (Bool-cases (is_dots win name)) [
    | inl dots ↦ inr (rw (links, dots) at there)
    | inr named ↦ elim (Has-split p _ _ (rw (links, named) at there)) [
      | inl below ↦ inl (named, below)
      | inr later ↦ inr later
    ]
  ]

  link-Under : (path : List ℕ) (es : Entries) → Has p (links win path es) → Under path
  unfolding links
  link-Under path no_more there = absurd there
  link-Under path (more (file name) rest) there = elim (in_file path name rest there) [
    | inl (link, same) ↦ (name, sym same)
    | inr later ↦ link-Under path rest later
  ]
  link-Under path (more (folder name inside) rest) there =
      elim (in_folder path name inside rest there) [
        | inl (named, below) ↦
            Under-sub path name (link-Under (path ++ backslash ++ name) inside below)
        | inr later ↦ link-Under path rest later
      ]

  -- The scan finds what is added with the link, if the link is there.
  module _ (key : List ℕ) (At : win.World → Type 0)
      (there : (w : win.World) → At w → exists p w ≡ true)
      (directory : (dir : List ℕ) (w : win.World) → At w → At (win.remove_directory dir w).0)
      (added : (db : List FileEntry) (w : win.World)
        → At w
        → Keyed key (on_lnk_file_added win p db w)) where
    pub scan_adds :
        (path : List ℕ) (es : Entries) (db : List FileEntry) (w : win.World)
        → Has p (links win path es)
        → At w
        → Keyed key (add_all_sub_folder_files win path es db w).0
    unfolding add_all_sub_folder_files links scan_file
    scan_adds path no_more db w listed at = absurd listed
    scan_adds path (more (file name) rest) db w listed at = elim (in_file path name rest listed) [
      | inr later ↦ scan_adds path rest _ w later at
      | inl (link, same) ↦
          Keyed-kept win key path rest _ w (rw (same, scan_file, link) (added db w at))
    ]
    scan_adds path (more (folder name inside) rest) db w listed at =
        let sub = path ++ backslash ++ name in
        let (found, w') = add_all_sub_folder_files win sub inside db w in
        elim (in_folder path name inside rest listed) [
          | inl (named, below) ↦
              let (tail, e) = link-Under sub inside below in
              let full = removal.not_empty sub tail w (ap (λ q. exists q w) (sym e) ∙ there w at) in
              rw (add_all_sub_folder_files, named, full)
                (Keyed-kept win key path rest found w' (scan_adds sub inside db w below at))
          | inr later ↦
              let in_rest = λ (db' : List FileEntry) (v : win.World) (h : At v).
                scan_adds path rest db' v later h in
              elim (Bool-cases (is_dots win name)) [
                | inl dots ↦ rw (add_all_sub_folder_files, dots) (in_rest db w at)
                | inr named ↦ elim (Bool-cases (win.is_directory_empty sub w)) [
                  | inl empty ↦
                      rw (add_all_sub_folder_files, named, empty)
                        (in_rest db (remove_if_empty win sub w)
                          (remove_if_empty-At win At directory sub w at))
                  | inr full ↦
                      rw (add_all_sub_folder_files, named, full)
                        (in_rest found w' (scan-At win At directory sub inside db w at))
                ]
              ]
        ]

  -- The scan finds the link, if it is there.
  pub scan_finds :
      (path : List ℕ) (es : Entries) (db : List FileEntry) (w : win.World)
      → Has p (links win path es)
      → exists p w ≡ true
      → Keyed p (add_all_sub_folder_files win path es db w).0
  scan_finds =
      scan_adds p (λ w. exists p w ≡ true) (λ w here. here)
        (λ dir w here. removal.directory_exists dir p w ∙ here)
        (λ db w here. Keyed-lnk_added win p w db)

  -- The icon of the link too.
  pub scan_finds_icon :
      (icon path : List ℕ) (es : Entries) (db : List FileEntry) (w : win.World)
      → Has p (links win path es)
      → exists p w ≡ true
      → win.shell_link_icon p w ≡ (s_ok, icon)
      → Keyed icon (add_all_sub_folder_files win path es db w).0
  scan_finds_icon icon path es db w listed here points =
      scan_adds icon (λ v. (exists p v ≡ true) × (win.shell_link_icon p v ≡ (s_ok, icon)))
        (λ v at. at.0)
        (λ dir v at.
          (removal.directory_exists dir p v ∙ at.0, removal.directory_link dir p v ∙ at.1))
        (λ db v at. Keyed-icon_added win icon v p at.1 db) path es db w listed (here, points)

  pub scan_unlocked :
      (path : List ℕ) (es : Entries) (db : List FileEntry) (w : win.World)
      → locked p w ≡ false
      → locked p (add_all_sub_folder_files win path es db w).1 ≡ false
  scan_unlocked =
      scan-At win (λ w. locked p w ≡ false) (λ dir w free. removal.directory_locked dir p w ∙ free)

  stays_gone :
      (e : FileEntry) (w : win.World)
      → exists p (win.delete_file e.file_id w).0 ≡ false
      → exists p (delete_file_id win e w) ≡ false
  stays_gone =
      round-At win (λ w. exists p w ≡ false) (λ dir w gone. removal.directory_exists dir p w ∙ gone)

  stays_unlocked :
      (e : FileEntry) (w : win.World)
      → locked p w ≡ false
      → locked p (delete_file_id win e w) ≡ false
  stays_unlocked e w free =
      round-At win (λ w. locked p w ≡ false) (λ dir w free. removal.directory_locked dir p w ∙ free)
        e w (removal.delete_locks_none e.file_id p w free)

  delete_file_id_gone :
      (e : FileEntry) (w : win.World)
      → locked p w ≡ false
      → e.file_id ≡ p
      → exists p (delete_file_id win e w) ≡ false
  delete_file_id_gone e w free same = stays_gone e w (elim (Bool-cases (exists p w)) [
    | inl here ↦ rw same (removal.delete_self p w here free)
    | inr gone ↦ removal.delete_makes_none e.file_id p w gone
  ])

  pub delete_all_gone :
      (db : List FileEntry) (w : win.World)
      → locked p w ≡ false
      → (exists p w ≡ false) ⊎ Keyed p db
      → exists p (delete_all_file_id_files win db w) ≡ false
  unfolding delete_all_file_id_files
  delete_all_gone [] w free (inl gone) = gone
  delete_all_gone [] w free (inr there) = absurd there
  delete_all_gone (e ∷ es) w free (inl gone) =
      delete_all_gone es _ (stays_unlocked e w free)
        (inl (stays_gone e w (removal.delete_makes_none e.file_id p w gone)))
  delete_all_gone (e ∷ es) w free (inr (inl same)) =
      delete_all_gone es _ (stays_unlocked e w free) (inl (delete_file_id_gone e w free same))
  delete_all_gone (e ∷ es) w free (inr (inr later)) =
      delete_all_gone es _ (stays_unlocked e w free) (inr later)

  -- All links under a directory that are not locked are removed by a scan of it and a clean-up.
  pub scanned_link_removed :
      (path : List ℕ) (es : Entries) (w : win.World)
      → Has p (links win path es)
      → exists p w ≡ true
      → locked p w ≡ false
      → let (db, w') = add_all_sub_folder_files win path es [] w in
        exists p (delete_all_file_id_files win db w') ≡ false
  scanned_link_removed path es w there here free =
      delete_all_gone (add_all_sub_folder_files win path es [] w).0 _
        (scan_unlocked path es [] w free) (inr (scan_finds path es [] w there here))
