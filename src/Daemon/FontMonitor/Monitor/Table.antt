-- ===== src/Daemon/FontMonitor/Monitor/Table.antt =====
-- The operations of the table of folders, and a predicate on the folders in it.
use wslg.Common.{
  subst, ℕ, ◌≡◌, refl, ◌⊎◌, inl, inr, List, [], ◌∷◌, Bool, true, false, none, some, All, arith,
}
use wslg.Common.{if◌then◌else◌}
use wslg.Client.FileDb.{Order, order, less, same, greater, str_eq}
use wslg.Client.FileDb.Comparison.{order-same→str_eq}
use wslg.Daemon.FontMonitor.Folder.{FontFolder}
use wslg.Daemon.FontMonitor.Monitor.{find, insert, erase, find_wd, replace_wd, has_wd}

-- Some folder in the table has the property.
abbrev pub Some : (FontFolder → Type 0) → List FontFolder → Type 0
Some P [] = ⊥
Some P (f ∷ fs) = P f ⊎ Some P fs

module _ (P : FontFolder → Type 0) where
  pub Some-insert_self :
      (f : FontFolder) (fs : List FontFolder) → find f.path fs ≡ none → P f → Some P (insert f fs)
  unfolding find insert
  Some-insert_self f [] missing p = inl p
  Some-insert_self f (g ∷ gs) missing p =
      go (λ e. Some-insert_self f gs e p) (order f.path g.path) refl (str_eq f.path g.path) refl
    where
      rest : str_eq f.path g.path ≡ false → find f.path gs ≡ none
      rest other = ground arith

      go :
          (find f.path gs ≡ none → Some P (insert f gs))
          → (o : Order) → order f.path g.path ≡ o
          → (eq : Bool) → str_eq f.path g.path ≡ eq
          → Some P (elim o [ less ↦ f ∷ g ∷ gs | same ↦ g ∷ gs | greater ↦ g ∷ insert f gs ])
      go more less e eq q = inl p
      go more same e eq q = absurd (ground (arith, order-same→str_eq f.path g.path))
      go more greater e true q = absurd (ground arith)
      go more greater e false q = inr (more (rest q))

  pub Some-insert : (f : FontFolder) (fs : List FontFolder) → Some P fs → Some P (insert f fs)
  unfolding insert
  Some-insert f [] none_there = absurd none_there
  Some-insert f (g ∷ gs) there =
      elim (order f.path g.path)
        as (λ o.
          Some P (elim o [ less ↦ f ∷ g ∷ gs | same ↦ g ∷ gs | greater ↦ g ∷ insert f gs ])) [
            | less ↦ inr there
            | same ↦ there
            | greater ↦ elim there [ inl p ↦ inl p | inr more ↦ inr (Some-insert f gs more) ]
          ]

  pub Some-erase :
      (path : List ℕ) (fs : List FontFolder) (f : FontFolder)
      → find path fs ≡ some f
      → Some P fs
      → Some P (erase path fs) ⊎ P f
  unfolding find erase
  Some-erase path [] f found there = absurd there
  Some-erase path (g ∷ gs) f found there =
      elim (str_eq path g.path)
          as (λ b.
            (if b then some g else find path gs) ≡ some f
            → Some P (if b then gs else g ∷ erase path gs) ⊎ P f) [
              | true ↦ λ e. elim there [ inl p ↦ inr (subst P (cc) p) | inr more ↦ inl more ]
              | false ↦ λ e. elim there [
                | inl p ↦ inl (inl p)
                | inr more ↦ elim (Some-erase path gs f e more) [
                  | inl m ↦ inl (inr m)
                  | inr p ↦ inr p
                ]
              ]
            ]
        found

  pub Some-replace :
      (wd : ℕ) (g : FontFolder) (fs : List FontFolder) (f : FontFolder)
      → find_wd wd fs ≡ some f
      → Some P fs
      → Some P (replace_wd wd g fs) ⊎ P f
  unfolding find_wd replace_wd
  Some-replace wd g [] f found there = absurd there
  Some-replace wd g (h ∷ hs) f found there =
      elim (has_wd wd h.wd)
          as (λ b.
            (if b then some h else find_wd wd hs) ≡ some f
            → Some P (if b then g ∷ hs else h ∷ replace_wd wd g hs) ⊎ P f) [
              | true ↦ λ e. elim there [ inl p ↦ inr (subst P (cc) p) | inr more ↦ inl (inr more) ]
              | false ↦ λ e. elim there [
                | inl p ↦ inl (inl p)
                | inr more ↦ elim (Some-replace wd g hs f e more) [
                  | inl m ↦ inl (inr m)
                  | inr p ↦ inr p
                ]
              ]
            ]
        found

  pub Some-replace_self :
      (wd : ℕ) (g : FontFolder) (fs : List FontFolder) (f : FontFolder)
      → find_wd wd fs ≡ some f
      → P g
      → Some P (replace_wd wd g fs)
  unfolding find_wd replace_wd
  Some-replace_self wd g [] f found p = cc
  Some-replace_self wd g (h ∷ hs) f found p =
      elim (has_wd wd h.wd)
          as (λ b.
            (if b then some h else find_wd wd hs) ≡ some f
            → Some P (if b then g ∷ hs else h ∷ replace_wd wd g hs)) [
              | true ↦ λ e. inl p
              | false ↦ λ e. inr (Some-replace_self wd g hs f e p)
            ]
        found

  pub All-insert : (f : FontFolder) (fs : List FontFolder) → P f → All P fs → All P (insert f fs)
  unfolding insert
  All-insert f [] p all = (p, tt)
  All-insert f (g ∷ gs) p all =
      elim (order f.path g.path)
        as (λ o. All P (elim o [ less ↦ f ∷ g ∷ gs | same ↦ g ∷ gs | greater ↦ g ∷ insert f gs ])) [
          | less ↦ (p, all)
          | same ↦ all
          | greater ↦ (all.0, All-insert f gs p all.1)
        ]

  pub All-erase : (path : List ℕ) (fs : List FontFolder) → All P fs → All P (erase path fs)
  unfolding erase
  All-erase path [] all = all
  All-erase path (f ∷ fs) all =
      elim (str_eq path f.path) as (λ b. All P (if b then fs else f ∷ erase path fs)) [
        | true ↦ all.1
        | false ↦ (all.0, All-erase path fs all.1)
      ]

  pub All-replace :
      (wd : ℕ) (g : FontFolder) (fs : List FontFolder) → P g → All P fs → All P (replace_wd wd g fs)
  unfolding replace_wd
  All-replace wd g [] p all = all
  All-replace wd g (f ∷ fs) p all =
      elim (has_wd wd f.wd) as (λ b. All P (if b then g ∷ fs else f ∷ replace_wd wd g fs)) [
        | true ↦ (p, all.1)
        | false ↦ (all.0, All-replace wd g fs p all.1)
      ]

  pub All-find_wd :
      (wd : ℕ) (fs : List FontFolder) (f : FontFolder) → find_wd wd fs ≡ some f → All P fs → P f
  unfolding find_wd
  All-find_wd wd [] f found all = cc
  All-find_wd wd (g ∷ gs) f found all =
      elim (has_wd wd g.wd) as (λ b. (if b then some g else find_wd wd gs) ≡ some f → P f) [
        | true ↦ λ e. subst P (cc) all.0
        | false ↦ λ e. All-find_wd wd gs f e all.1
      ]
        found
