-- ===== src/Client/FileDb/Added.antt =====
-- The methods of the set that the channel callback calls, on every branch.
use wslg.Common.{[], All, ℕ, ◌<◌, ◌≡◌, ◌≢◌, ◌↔◌, refl, inl, inr, List, true, false}
use wslg.Common.{Option, none, some, Option-cases, arith, length, Bool-cases, ltb}
use wslg.Client.Hresult.{s_ok, e_fail, is_failed}
use wslg.Client.FileDb.{
  erase, FileEntry, find, insert, same_paths, path_or_empty, on_file_added, on_file_removed,
  find_files, copy_out,
}
use wslg.Client.FileDb.Comparison.{str_eq_refl, str_eq→eq}
use wslg.Client.FileDb.Lookup.{
  IsSorted, insert-IsSorted, erase-IsSorted, kept_or, find-insert_self, find-insert_ne,
  find-erase_self, find-erase_ne, All-erase, All-find,
}

abbrev pub SamePaths : FileEntry → FileEntry → Type 0
SamePaths a b =
    (a.link_file_path ≡ b.link_file_path)
    × (a.icon_file_path ≡ b.icon_file_path)
    × (a.exe_file_path ≡ b.exe_file_path)
    × (a.exe_file_args ≡ b.exe_file_args)

same_paths→SamePaths : (a b : FileEntry) → same_paths a b ≡ true → SamePaths a b
unfolding same_paths
same_paths→SamePaths a b h = ground (
  arith,
  str_eq→eq a.link_file_path b.link_file_path,
  str_eq→eq a.icon_file_path b.icon_file_path,
  str_eq→eq a.exe_file_path b.exe_file_path,
  str_eq→eq a.exe_file_args b.exe_file_args,
)

SamePaths→same_paths : (a b : FileEntry) → SamePaths a b → same_paths a b ≡ true
unfolding same_paths
SamePaths→same_paths a b h =
    rw (h.0, h.1, h.2, h.3)
      (rw (
        str_eq_refl b.link_file_path,
        str_eq_refl b.icon_file_path,
        str_eq_refl b.exe_file_path,
        str_eq_refl b.exe_file_args,
      ))

-- The entry that OnFileAdded makes of its arguments.
abbrev pub entry_for :
    List ℕ → Option (List ℕ) → Option (List ℕ) → Option (List ℕ) → Option (List ℕ) → FileEntry
entry_for key link icon exe args = record {
  file_id = key;
  link_file_path = path_or_empty link;
  icon_file_path = path_or_empty icon;
  exe_file_path = path_or_empty exe;
  exe_file_args = path_or_empty args;
}

module _ (db : List FileEntry) (key : List ℕ) (link icon exe args : Option (List ℕ)) where
  pub added_set :
      (on_file_added db key link icon exe args).1 ≡ insert (entry_for key link icon exe args) db
  unfolding on_file_added
  added_set = elim (Option-cases (find key db)) [
    | inl e ↦ rw (on_file_added, e)
    | inr (old, e) ↦ rw (on_file_added, e)
  ]

  added_result :
      (e : FileEntry)
      → e ≡ entry_for key link icon exe args
      → ((on_file_added db key link icon exe args).0 ≡ s_ok) ↔ SamePaths (kept_or (find key db) e) e
  unfolding on_file_added
  added_result e new = elim (Option-cases (find key db)) [
    | inl missing ↦ rw (on_file_added, missing, new) ((λ h. (refl, refl, refl, refl)), (λ h. refl))
    | inr (old, found) ↦
        rw (on_file_added, found, new)
          (
            (λ h. ground (arith, same_paths→SamePaths old (entry_for key link icon exe args))),
            (λ h. rw (SamePaths→same_paths old (entry_for key link icon exe args) h)),
          )
  ]

  -- OnFileAdded on a set in order leaves it in order, with an entry under the key: the one that was
  -- there, unchanged, or else the one made of the arguments. Every other key finds what it found.
  -- The result is S_OK just if the paths of the entry under the key are those of the arguments.
  pub on_file_added_lem :
      (k : List ℕ)
      → IsSorted db
      → k ≢ key
      → let (hr, db') = on_file_added db key link icon exe args in
        let e : FileEntry = entry_for key link icon exe args in
        IsSorted db'
        × (find key db' ≡ some (kept_or (find key db) e))
        × (find k db' ≡ find k db)
        × ((hr ≡ s_ok) ↔ SamePaths (kept_or (find key db) e) e)
  on_file_added_lem k sorted ne =
      let e : FileEntry = entry_for key link icon exe args in
      (
        rw added_set (insert-IsSorted e db sorted),
        rw added_set (find-insert_self e db),
        rw added_set (find-insert_ne k e db sorted ne),
        added_result e refl,
      )

-- OnFileRemoved on a set in order leaves it in order and without the key, and every other key finds
-- what it found. It fails just if the key was not there.
pub on_file_removed_lem :
    (db : List FileEntry) (key k : List ℕ)
    → IsSorted db
    → k ≢ key
    → let (hr, db') = on_file_removed db key in
      IsSorted db'
      × (find key db' ≡ none)
      × (find k db' ≡ find k db)
      × ((hr ≡ e_fail) ↔ (find key db ≡ none))
unfolding on_file_removed
on_file_removed_lem db key k sorted ne = elim (Option-cases (find key db)) [
  | inl e ↦ rw (on_file_removed, e) (sorted, e, refl, ((λ h. refl), (λ h. refl)))
  | inr (x, e) ↦
      rw (on_file_removed, e)
        (
          erase-IsSorted key db sorted,
          find-erase_self key db sorted,
          find-erase_ne k key db sorted ne,
          ((λ h. cc), (λ h. cc)),
        )
]

-- FindFiles of a key that is there, with four buffers that have room for the paths and their
-- terminators, succeeds and copies the four paths of the entry.
pub find_files_copies :
    (db : List FileEntry) (key : List ℕ) (link_size icon_size exe_size args_size : ℕ)
    (e : FileEntry)
    → find key db ≡ some e
    → length e.link_file_path < link_size
    → length e.icon_file_path < icon_size
    → length e.exe_file_path < exe_size
    → length e.exe_file_args < args_size
    → find_files db key (some link_size) (some icon_size) (some exe_size) (some args_size) ≡ (
      s_ok,
      record {
        link = e.link_file_path;
        icon = e.icon_file_path;
        exe = e.exe_file_path;
        args = e.exe_file_args;
      },
    )
unfolding find_files
find_files_copies db key link_size icon_size exe_size args_size e found hl hi he ha =
    rw (find_files, found) (ground arith)

-- FindFiles for the link and the icon only.
pub find_files-link_icon :
    (db : List FileEntry) (key : List ℕ) (size : ℕ) (e : FileEntry)
    → find key db ≡ some e
    → length e.link_file_path < size
    → length e.icon_file_path < size
    → find_files db key (some size) (some size) none none
      ≡ (s_ok, record { link = e.link_file_path; icon = e.icon_file_path; exe = []; args = [] })
unfolding find_files
find_files-link_icon db key size e found hl hi = rw (find_files, found) (ground arith)

-- Where it succeeds, the two texts are those of an entry that is there.
pub find_files-All :
    (P : FileEntry → Type 0) (db : List FileEntry) (key : List ℕ) (size : ℕ)
    → All P db
    → is_failed (find_files db key (some size) (some size) none none).0 ≡ false
    → (e : FileEntry) × P e
      × ((find_files db key (some size) (some size) none none).1.link ≡ e.link_file_path)
      × ((find_files db key (some size) (some size) none none).1.icon ≡ e.icon_file_path)
unfolding find_files copy_out
find_files-All P db key size hs = elim (Option-cases (find key db)) [
  | inl missing ↦ rw (find_files, missing) (λ h. absurd (cc))
  | inr (e, found) ↦
      rw (find_files, found)
        (elim (Bool-cases (ltb (length e.link_file_path) size)) [
          | inr long ↦ rw long (λ h. absurd (cc))
          | inl short ↦ elim (Bool-cases (ltb (length e.icon_file_path) size)) [
            | inr long ↦ rw (short, long) (λ h. absurd (cc))
            | inl fits ↦ rw (short, fits) (λ h. (e, All-find P key db e found hs, refl, refl))
          ]
        ])
]

pub find_files-icon_exe_args :
    (db : List FileEntry) (key : List ℕ) (size : ℕ) (e : FileEntry)
    → find key db ≡ some e
    → length e.icon_file_path < size
    → length e.exe_file_path < size
    → length e.exe_file_args < size
    → find_files db key none (some size) (some size) (some size) ≡ (
      s_ok,
      record { link = []; icon = e.icon_file_path; exe = e.exe_file_path; args = e.exe_file_args },
    )
unfolding find_files
find_files-icon_exe_args db key size e found hi he ha = rw (find_files, found) (ground arith)

pub on_file_removed-found :
    (db : List FileEntry) (key : List ℕ) (e : FileEntry)
    → find key db ≡ some e
    → on_file_removed db key ≡ (s_ok, erase key db)
unfolding on_file_removed
on_file_removed-found db key e found = rw (on_file_removed, found)

pub All-on_file_removed :
    (P : FileEntry → Type 0) (db : List FileEntry) (key : List ℕ)
    → All P db
    → All P (on_file_removed db key).1
unfolding on_file_removed
All-on_file_removed P db key h = elim (Option-cases (find key db)) [
  | inl e ↦ rw (on_file_removed, e) h
  | inr (x, e) ↦ rw (on_file_removed, e) (All-erase P key db h)
]

pub on_file_removed-gone :
    (db : List FileEntry) (key : List ℕ)
    → IsSorted db
    → IsSorted (on_file_removed db key).1 × (find key (on_file_removed db key).1 ≡ none)
unfolding on_file_removed
on_file_removed-gone db key sorted = elim (Option-cases (find key db)) [
  | inl e ↦ rw (on_file_removed, e) (sorted, e)
  | inr (x, e) ↦
      rw (on_file_removed, e) (erase-IsSorted key db sorted, find-erase_self key db sorted)
]

pub on_file_added-new :
    (db : List FileEntry) (key : List ℕ) (link icon exe args : Option (List ℕ))
    → find key db ≡ none
    → on_file_added db key link icon exe args ≡ (s_ok, insert (entry_for key link icon exe args) db)
unfolding on_file_added
on_file_added-new db key link icon exe args missing = rw (on_file_added, missing) refl
