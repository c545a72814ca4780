-- ===== src/Examples/Files.antt =====
-- The file set with one link and its icon.
use wslg.Common.{ℕ, ◌≡◌, ◌↔◌, refl, List, [], ◌∷◌, none, some}
use wslg.Client.Hresult.{s_ok, e_fail}
use wslg.Client.FileDb.{FileEntry, entry_of, order, find, on_file_added, on_file_removed}
use wslg.Client.FileDb.Lookup.{IsSorted, kept_or}
use wslg.Client.FileDb.Added.{SamePaths, entry_for, on_file_added_lem, on_file_removed_lem}

abbrev link_entry : FileEntry
link_entry = record (entry_of (1 ∷ 2 ∷ [])) { link_file_path = 7 ∷ [] }

abbrev db : List FileEntry
db = entry_of (1 ∷ []) ∷ link_entry ∷ []

db-IsSorted : IsSorted db
unfolding order
db-IsSorted = ((refl, tt), (tt, tt))

other_key : Path (List ℕ) (1 ∷ []) (1 ∷ 2 ∷ []) → ⊥
other_key h = cc

-- The link is there already, with other paths.
on_file_added_lem_example :
    let (hr, db') = on_file_added db (1 ∷ 2 ∷ []) none none none none in
    let e : FileEntry = entry_for (1 ∷ 2 ∷ []) none none none none in
    IsSorted db'
    × (find (1 ∷ 2 ∷ []) db' ≡ some (kept_or (find (1 ∷ 2 ∷ []) db) e))
    × (find (1 ∷ []) db' ≡ find (1 ∷ []) db)
    × ((hr ≡ s_ok) ↔ SamePaths (kept_or (find (1 ∷ 2 ∷ []) db) e) e)
on_file_added_lem_example =
    on_file_added_lem db (1 ∷ 2 ∷ []) none none none none (1 ∷ []) db-IsSorted other_key

on_file_removed_lem_example :
    let (hr, db') = on_file_removed db (1 ∷ 2 ∷ []) in
    IsSorted db'
    × (find (1 ∷ 2 ∷ []) db' ≡ none)
    × (find (1 ∷ []) db' ≡ find (1 ∷ []) db)
    × ((hr ≡ e_fail) ↔ (find (1 ∷ 2 ∷ []) db ≡ none))
on_file_removed_lem_example = on_file_removed_lem db (1 ∷ 2 ∷ []) (1 ∷ []) db-IsSorted other_key
