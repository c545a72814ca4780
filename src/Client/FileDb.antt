-- ===== src/Client/FileDb.antt =====
-- WSLDVCPlugin/WSLDVCFileDB.cpp: the set of files that the plugin made. A wstring is the list of its
-- code units, and `set<fileEntry>` is a list in the set's order.
pub mod Comparison
pub mod Lookup
pub mod Added
pub mod Keyed
use wslg.Common.{ℕ, ◌≡◌, List, [], ◌∷◌, ◌++◌, Bool, true, false, not, ◌||◌, Option, none, some}
use wslg.Common.{ltb, ◌==◌, if◌then◌else◌, length}
use wslg.Client.Hresult.{Hresult, s_ok, e_fail}

pub record FileEntry : Type 0 where
  pub file_id : List ℕ
  pub link_file_path : List ℕ
  pub icon_file_path : List ℕ
  pub exe_file_path : List ℕ
  pub exe_file_args : List ℕ

-- fileEntry(fileId), the other paths by default
abbrev pub entry_of : List ℕ → FileEntry
entry_of file_id = record {
  file_id = file_id;
  link_file_path = [];
  icon_file_path = [];
  exe_file_path = [];
  exe_file_args = [];
}

pub data Order : Type 0 where
  less same greater : Order

-- How two wstrings compare, code unit by code unit.
unfoldable pub order : List ℕ → List ℕ → Order
order [] [] = same
order [] (b ∷ bs) = less
order (a ∷ as') [] = greater
order (a ∷ as') (b ∷ bs) =
    let rest = order as' bs in if ltb a b then less else if ltb b a then greater else rest

abbrev is_same : Order → Bool
is_same same = true
is_same less = false
is_same greater = false

unfoldable pub str_eq : List ℕ → List ℕ → Bool
unfolding order
str_eq a b = is_same (order a b)

-- The operations of std::set. An insertion of a present key changes nothing.
unfoldable pub find : List ℕ → List FileEntry → Option FileEntry
find key [] = none
find key (x ∷ xs) = elim (order key x.file_id) [
  | less ↦ none
  | same ↦ some x
  | greater ↦ find key xs
]

pub insert : FileEntry → List FileEntry → List FileEntry
insert e [] = e ∷ []
insert e (x ∷ xs) = elim (order e.file_id x.file_id) [
  | less ↦ e ∷ x ∷ xs
  | same ↦ x ∷ xs
  | greater ↦ x ∷ insert e xs
]

pub erase : List ℕ → List FileEntry → List FileEntry
erase key [] = []
erase key (x ∷ xs) = elim (order key x.file_id) [
  | less ↦ x ∷ xs
  | same ↦ xs
  | greater ↦ x ∷ erase key xs
]

-- A path that is null or empty is taken for empty.
abbrev pub path_or_empty : Option (List ℕ) → List ℕ
path_or_empty none = []
path_or_empty (some p) = p

pub same_paths : FileEntry → FileEntry → Bool
unfolding str_eq
same_paths a b = not (
    not (str_eq a.link_file_path b.link_file_path)
    || (not (str_eq a.icon_file_path b.icon_file_path)
        || (not (str_eq a.exe_file_path b.exe_file_path)
            || not (str_eq a.exe_file_args b.exe_file_args))))

pub on_file_added :
    List FileEntry
    → List ℕ
    → Option (List ℕ)
    → Option (List ℕ)
    → Option (List ℕ)
    → Option (List ℕ)
    → Hresult × List FileEntry
on_file_added db key link icon exe args =
    let e : FileEntry = record {
      file_id = key;
      link_file_path = path_or_empty link;
      icon_file_path = path_or_empty icon;
      exe_file_path = path_or_empty exe;
      exe_file_args = path_or_empty args;
    } in
    elim (find key db) [
      | none ↦ (s_ok, insert e db)
      | some old ↦ (if same_paths old e then s_ok else e_fail, insert e db)
    ]

pub on_file_removed : List FileEntry → List ℕ → Hresult × List FileEntry
on_file_removed db key = elim (find key db) [ none ↦ (e_fail, db) | some e ↦ (s_ok, erase key db) ]

-- The out parameters of FindFiles, as the texts in the buffers after the call.
pub record FoundPaths : Type 0 where
  pub link : List ℕ
  pub icon : List ℕ
  pub exe : List ℕ
  pub args : List ℕ

abbrev pub nothing_found : FoundPaths
nothing_found = record { link = []; icon = []; exe = []; args = [] }

-- One `if (buffer) { wcscpy_s … }`: no buffer, a copy with its terminator, or E_FAIL.
pub copy_out :
    Option ℕ
    → List ℕ
    → (List ℕ → FoundPaths → FoundPaths)
    → (FoundPaths → Hresult × FoundPaths)
    → FoundPaths
    → Hresult × FoundPaths
copy_out none src set rest out = rest out
copy_out (some size) src set rest out =
    if ltb (length src) size then rest (set src out) else (e_fail, out)

-- The sizes are `none` where the caller passes a null buffer.
pub find_files :
    List FileEntry → List ℕ → Option ℕ → Option ℕ → Option ℕ → Option ℕ → Hresult × FoundPaths
unfolding copy_out
find_files db key link_size icon_size exe_size args_size = elim (find key db) [
  | none ↦ (e_fail, nothing_found)
  | some e ↦
      copy_out link_size e.link_file_path (λ p out. record out { link = p })
        (copy_out icon_size e.icon_file_path (λ p out. record out { icon = p })
          (copy_out exe_size e.exe_file_path (λ p out. record out { exe = p })
            (copy_out args_size e.exe_file_args (λ p out. record out { args = p })
              (λ out. (s_ok, out)))))
        nothing_found
]

pub on_close : List FileEntry → List FileEntry
on_close db = []
