-- ===== src/Client/FileDb/Keyed.antt =====
-- Which keys the operations of the set keep.
use wslg.Common.{ℕ, ◌≡◌, ◌≢◌, refl, sym, ◌∙◌, ◌⊎◌, inl, inr, List, [], ◌∷◌, Option-cases}
use wslg.Client.FileDb.{FileEntry, less, same, greater, order, find, insert, erase, on_file_removed}
use wslg.Client.FileDb.Comparison.{order-same}

-- The set has an entry with the key.
abbrev pub Keyed : List ℕ → List FileEntry → Type 0
Keyed key [] = ⊥
Keyed key (e ∷ es) = (e.file_id ≡ key) ⊎ Keyed key es

pub Keyed-insert :
    (key : List ℕ) (e : FileEntry) (xs : List FileEntry) → Keyed key xs → Keyed key (insert e xs)
unfolding insert
Keyed-insert key e [] there = absurd there
Keyed-insert key e (x ∷ xs) there =
    elim (order e.file_id x.file_id)
      as (λ o.
        Keyed key (elim o [ less ↦ e ∷ x ∷ xs | same ↦ x ∷ xs | greater ↦ x ∷ insert e xs ])) [
          | less ↦ inr there
          | same ↦ there
          | greater ↦ elim there [ inl p ↦ inl p | inr later ↦ inr (Keyed-insert key e xs later) ]
        ]

pub Keyed-insert_self : (e : FileEntry) (xs : List FileEntry) → Keyed e.file_id (insert e xs)
unfolding insert
Keyed-insert_self e [] = inl refl
Keyed-insert_self e (x ∷ xs) =
    elim (order e.file_id x.file_id)
        as (λ o.
          order e.file_id x.file_id ≡ o
          → Keyed e.file_id
              (elim o [ less ↦ e ∷ x ∷ xs | same ↦ x ∷ xs | greater ↦ x ∷ insert e xs ])) [
                | less ↦ λ q. inl refl
                | same ↦ λ q. inl (sym (order-same e.file_id x.file_id q))
                | greater ↦ λ q. inr (Keyed-insert_self e xs)
              ]
      refl

Keyed-erase :
    (key k : List ℕ) (xs : List FileEntry) → k ≢ key → Keyed key xs → Keyed key (erase k xs)
unfolding erase
Keyed-erase key k [] other there = absurd there
Keyed-erase key k (x ∷ xs) other there =
    elim (order k x.file_id)
        as (λ o.
          order k x.file_id ≡ o
          → Keyed key (elim o [ less ↦ x ∷ xs | same ↦ xs | greater ↦ x ∷ erase k xs ])) [
            | less ↦ λ q. there
            | same ↦ λ q. elim there [
              | inl p ↦ absurd (other (order-same k x.file_id q ∙ p))
              | inr later ↦ later
            ]
            | greater ↦ λ q. elim there [
              | inl p ↦ inl p
              | inr later ↦ inr (Keyed-erase key k xs other later)
            ]
          ]
      refl

pub Keyed-on_file_removed :
    (key k : List ℕ) (db : List FileEntry)
    → k ≢ key
    → Keyed key db
    → Keyed key (on_file_removed db k).1
unfolding on_file_removed
Keyed-on_file_removed key k db other there = elim (Option-cases (find k db)) [
  | inl missing ↦ rw (on_file_removed, missing) there
  | inr (e, found) ↦ rw (on_file_removed, found) (Keyed-erase key k db other there)
]
