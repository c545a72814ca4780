-- ===== src/Client/FileDb/Lookup.antt =====
-- The set as a finite map from keys to entries: what the set operations do to a lookup, and that they
-- keep the list in order.
use wslg.Common.{
  ℕ, ◌≡◌, ◌≢◌, refl, ◌⊎◌, inl, inr, List, [], ◌∷◌, Option, none, some, All, arith, subst,
}
use wslg.Client.FileDb.{FileEntry, Order, less, same, greater, order, find, insert, erase}
use wslg.Client.FileDb.Comparison.{order_refl, order-same, order-greater→less, order_trans}

-- Every entry comes after the key.
abbrev pub IsAfter : List ℕ → List FileEntry → Type 0
IsAfter key = All (λ e. order key e.file_id ≡ less)

abbrev pub IsSorted : List FileEntry → Type 0
IsSorted [] = Unit {0}
IsSorted (x ∷ xs) = IsAfter x.file_id xs × IsSorted xs

pub Order-cases : (o : Order) → (o ≡ less) ⊎ ((o ≡ same) ⊎ (o ≡ greater))
Order-cases less = inl refl
Order-cases same = inr (inl refl)
Order-cases greater = inr (inr refl)

IsAfter-trans :
    (a b : List ℕ) (xs : List FileEntry) → order a b ≡ less → IsAfter b xs → IsAfter a xs
IsAfter-trans a b [] h k = tt
IsAfter-trans a b (x ∷ xs) h k = (order_trans a b x.file_id h k.0, IsAfter-trans a b xs h k.1)

pub find_after : (key : List ℕ) (xs : List FileEntry) → IsAfter key xs → find key xs ≡ none
unfolding find
find_after key [] h = refl
find_after key (x ∷ xs) h = ground arith

find_below :
    (key k : List ℕ) (xs : List FileEntry) → order key k ≡ less → IsAfter k xs → find key xs ≡ none
find_below key k xs h after = find_after key xs (IsAfter-trans key k xs h after)

find_same : (key k : List ℕ) (xs : List FileEntry) → key ≡ k → IsAfter k xs → find key xs ≡ none
find_same key k xs e after = rw e (find_after k xs after)

insert-IsAfter :
    (key : List ℕ) (e : FileEntry) (xs : List FileEntry)
    → order key e.file_id ≡ less
    → IsAfter key xs
    → IsAfter key (insert e xs)
unfolding insert
insert-IsAfter key e [] h k = (h, tt)
insert-IsAfter key e (x ∷ xs) h k = ground (arith, insert-IsAfter key e xs h k.1)

pub insert-IsSorted : (e : FileEntry) (xs : List FileEntry) → IsSorted xs → IsSorted (insert e xs)
unfolding insert
insert-IsSorted e [] s = (tt, tt)
insert-IsSorted e (x ∷ xs) s = ground (
  arith,
  IsAfter-trans e.file_id x.file_id xs,
  order-greater→less e.file_id x.file_id,
  insert-IsAfter x.file_id e xs,
  insert-IsSorted e xs s.1,
)

erase-IsAfter : (key k : List ℕ) (xs : List FileEntry) → IsAfter key xs → IsAfter key (erase k xs)
unfolding erase
erase-IsAfter key k [] h = tt
erase-IsAfter key k (x ∷ xs) h = ground (arith, erase-IsAfter key k xs h.1)

pub erase-IsSorted : (k : List ℕ) (xs : List FileEntry) → IsSorted xs → IsSorted (erase k xs)
unfolding erase
erase-IsSorted k [] s = tt
erase-IsSorted k (x ∷ xs) s =
    ground (arith, erase-IsAfter x.file_id k xs s.0, erase-IsSorted k xs s.1)

-- An insertion keeps an entry that is there, and adds one where there is none.
abbrev pub kept_or : Option FileEntry → FileEntry → FileEntry
kept_or none e = e
kept_or (some old) e = old

pub find-insert_self :
    (e : FileEntry) (xs : List FileEntry)
    → find e.file_id (insert e xs) ≡ some (kept_or (find e.file_id xs) e)
unfolding find insert
find-insert_self e [] = ground (arith, order_refl e.file_id)
find-insert_self e (x ∷ xs) = ground (arith, order_refl e.file_id, find-insert_self e xs)

pub find-insert_ne :
    (key : List ℕ) (e : FileEntry) (xs : List FileEntry)
    → IsSorted xs
    → key ≢ e.file_id
    → find key (insert e xs) ≡ find key xs
unfolding find insert
find-insert_ne key e [] s ne = ground (arith, order-same key e.file_id)
find-insert_ne key e (x ∷ xs) s ne = ground (
  arith,
  order-same key e.file_id,
  order_trans key e.file_id x.file_id,
  find-insert_ne key e xs s.1 ne,
  order-same key x.file_id,
  order-same e.file_id x.file_id,
)

pub find-erase_self :
    (key : List ℕ) (xs : List FileEntry) → IsSorted xs → find key (erase key xs) ≡ none
unfolding find erase
find-erase_self key [] s = refl
find-erase_self key (x ∷ xs) s =
    ground (arith, find-erase_self key xs s.1, order-same key x.file_id, find_same key x.file_id xs)

pub find-erase_ne :
    (key k : List ℕ) (xs : List FileEntry)
    → IsSorted xs
    → key ≢ k
    → find key (erase k xs) ≡ find key xs
unfolding find erase
find-erase_ne key k [] s ne = refl
find-erase_ne key k (x ∷ xs) s ne = ground (
  arith,
  find-erase_ne key k xs s.1 ne,
  order-same key x.file_id,
  order-same k x.file_id,
  find_below key x.file_id xs,
)

-- What holds of all entries still does after an insertion of one that it holds of, or a removal.
module _ (P : FileEntry → Type 0) where
  pub All-insert : (e : FileEntry) (xs : List FileEntry) → P e → All P xs → All P (insert e xs)
  unfolding insert
  All-insert e [] h hs = (h, tt)
  All-insert e (x ∷ xs) h hs = elim (Order-cases (order e.file_id x.file_id)) [
    | inl o ↦ rw (insert, o) (h, hs)
    | inr (inl o) ↦ rw (insert, o) hs
    | inr (inr o) ↦ rw (insert, o) (hs.0, All-insert e xs h hs.1)
  ]

  pub All-erase : (key : List ℕ) (xs : List FileEntry) → All P xs → All P (erase key xs)
  unfolding erase
  All-erase key [] hs = tt
  All-erase key (x ∷ xs) hs = elim (Order-cases (order key x.file_id)) [
    | inl o ↦ rw (erase, o) hs
    | inr (inl o) ↦ rw (erase, o) hs.1
    | inr (inr o) ↦ rw (erase, o) (hs.0, All-erase key xs hs.1)
  ]

  pub All-find :
      (key : List ℕ) (xs : List FileEntry) (e : FileEntry) → find key xs ≡ some e → All P xs → P e
  unfolding find
  All-find key [] e h hs = absurd (cc)
  All-find key (x ∷ xs) e h hs = elim (Order-cases (order key x.file_id)) [
    | inl o ↦ absurd (
        let h' : none ≡ some e =
          subst (λ (r : Option FileEntry). r ≡ some e) (rw (find, o) refl) h in
        cc)
    | inr (inl o) ↦
        (let h' : some x ≡ some e =
            subst (λ (r : Option FileEntry). r ≡ some e) (rw (find, o) refl) h in
          subst P (cc) hs.0)
    | inr (inr o) ↦
        (let h' : find key xs ≡ some e =
            subst (λ (r : Option FileEntry). r ≡ some e) (rw (find, o) refl) h in
          All-find key xs e h' hs.1)
  ]
