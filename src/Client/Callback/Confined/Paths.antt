-- ===== src/Client/Callback/Confined/Paths.antt =====
-- The paths that OnUpdateAppList makes.
use wslg.Common.{
  subst, sym, some, ℕ, ◌≡◌, refl, ap, ◌∙◌, ◌⊎◌, List, ◌++◌, true, false, Bool-cases, inl, inr,
  arith,
}
use wslg.Client.Pdu.{WString, UpdateAppList}
use wslg.Client.Path.{wcscat_s, max_path, backslash}
use wslg.Client.Path.Fits.{wcscat_s_text, wcscpy_s_text}
use wslg.Client.Windows.{Windows}
use wslg.Client.Callback.Steps.{Step}
use wslg.Client.Callback.Hoare.{Hoare, Hoare-then, Hoare-pure}
use wslg.Client.Callback.Hoare.Rules.{
  Hoare-or_fail, Hoare-create_directory, Hoare-given, Hoare-weaken,
}
use wslg.Client.Callback.Update.{
  string_of, is_given, name_is_bad, names_are_bad, add_group, add_file, make_path,
}
use wslg.Client.Callback.Confined.{
  IsMenuPath, IsIconPath, IsBelow, in_root, in_group, IsDirectory, menu_root, icon_root, group_in,
}
use wslg.Client.Callback.Confined.Frame.{Frame, Inv, Ready, Ready→Inv, Ready-creates}

-- A path with a group, if one is given, a name and an extension.
pub data IsPath (dir : List ℕ) (group : WString) (name ext : List ℕ) (path : List ℕ) : Type 0 where
  plain : path ≡ ((dir ++ backslash) ++ name) ++ ext → IsPath dir group name ext path
  grouped :
      is_given group ≡ true
      → path ≡ ((((dir ++ backslash) ++ string_of group) ++ backslash) ++ name) ++ ext
      → IsPath dir group name ext path

module _ (win : Windows) (f : Frame win) where
  -- Of a step that keeps `Ready`.
  unfoldable pub Keeps : {A : Type 0} → Step win.World A → Type 0
  Keeps m = Hoare (Inv win f) (Ready win f) m (λ a st w. Ready win f st w)

  -- Of a step that goes on with a value such that `F`.
  unfoldable pub Gives : {A : Type 0} → (A → Type 0) → Step win.World A → Type 0
  Gives F m = Hoare (Inv win f) (Ready win f) m (λ a st w. F a × Ready win f st w)

  abbrev pub IsRoot : List ℕ → Type 0
  IsRoot dir = IsMenuPath win dir ⊎ IsIconPath win dir

  directory : (dir : List ℕ) → IsRoot dir → IsDirectory win dir
  directory dir (inl menu) = menu_root menu
  directory dir (inr icon) = icon_root icon

  add_file-Gives :
      (name ext path : List ℕ)
      → Gives (λ s. s ≡ ((path ++ backslash) ++ name) ++ ext) (add_file win name ext path)
  unfolding Gives add_file
  add_file-Gives name ext path = Hoare-then (Inv win f) (Hoare-or_fail (Ready→Inv win f) _) λ p₁.
      Hoare-given λ e₁. Hoare-then (Inv win f) (Hoare-or_fail (Ready→Inv win f) _) λ p₂.
        Hoare-given λ e₂.
          Hoare-weaken (λ st w h. h)
            (λ p₃ st w h. (
              rw
                  (
                    wcscat_s_text max_path p₂ ext p₃ h.0,
                    wcscat_s_text max_path p₁ name p₂ e₂,
                    wcscat_s_text max_path path backslash p₁ e₁,
                  )
                  refl,
              h.1,
            ))
            (Hoare-or_fail (Ready→Inv win f) _)

  add_group-Gives :
      (group : WString) (dir : List ℕ)
      → IsRoot dir
      → (is_given group ≡ true → name_is_bad (string_of group) ≡ false)
      → Gives
          (λ s. (s ≡ dir) ⊎ ((is_given group ≡ true) × (s ≡ (dir ++ backslash) ++ string_of group)))
          (add_group win group dir)
  unfolding Gives add_group
  add_group-Gives group dir root good = elim (Bool-cases (is_given group)) [
    | inr off ↦ rw (add_group, off) (Hoare-pure (Inv win f) dir λ st w h. (inl refl, h))
    | inl on ↦
        rw (add_group, on)
          (Hoare-then (Inv win f) (Hoare-or_fail (Ready→Inv win f) _) λ p₁. Hoare-given λ e₁.
            Hoare-then (Inv win f) (Hoare-or_fail (Ready→Inv win f) _) λ p₂. Hoare-given λ e₂.
              Hoare-then (Inv win f)
                (Hoare-create_directory win p₂
                  (Ready-creates win f p₂
                    (group_in dir (string_of group) root (good on) (put_group p₁ p₂ e₁ e₂)))
                  (Ready→Inv win f))
                λ t. Hoare-pure (Inv win f) p₂ λ st w h. (inr (refl, put_group p₁ p₂ e₁ e₂), h))
  ]
    where
      put_group :
          (p₁ p₂ : List ℕ)
          → wcscat_s max_path dir backslash ≡ some p₁
          → wcscat_s max_path p₁ (string_of group) ≡ some p₂
          → p₂ ≡ (dir ++ backslash) ++ string_of group
      put_group p₁ p₂ e₁ e₂ =
          wcscat_s_text max_path p₁ (string_of group) p₂ e₂
          ∙ ap (λ (p : List ℕ). p ++ string_of group) (wcscat_s_text max_path dir backslash p₁ e₁)

  IsPath-make :
      (dir p₁ p₂ : List ℕ) (group : WString) (name ext s : List ℕ)
      → p₁ ≡ dir
      → (p₂ ≡ p₁) ⊎ ((is_given group ≡ true) × (p₂ ≡ (p₁ ++ backslash) ++ string_of group))
      → s ≡ ((p₂ ++ backslash) ++ name) ++ ext
      → IsPath dir group name ext s
  IsPath-make dir p₁ p₂ group name ext s d (inl e) h =
      plain (h ∙ ap (λ (p : List ℕ). ((p ++ backslash) ++ name) ++ ext) (e ∙ d))
  IsPath-make dir p₁ p₂ group name ext s d (inr (on, e)) h = grouped on (
      h
      ∙ ap (λ (p : List ℕ). ((p ++ backslash) ++ name) ++ ext)
          (e ∙ ap (λ (p : List ℕ). (p ++ backslash) ++ string_of group) d))

  pub make_path-Gives :
      (dir : List ℕ) (group : WString) (name ext : List ℕ)
      → IsRoot dir
      → (is_given group ≡ true → name_is_bad (string_of group) ≡ false)
      → Gives (IsPath dir group name ext) (make_path win dir group name ext)
  unfolding Gives make_path
  make_path-Gives dir group name ext root good =
      Hoare-then (Inv win f) (Hoare-or_fail (Ready→Inv win f) _) λ p₁. Hoare-given λ e₁.
        Hoare-then (Inv win f)
          (Hoare-create_directory win p₁
            (Ready-creates win f p₁ (
              subst (IsDirectory win) (sym (wcscpy_s_text max_path dir p₁ e₁))
                (directory dir root)))
            (Ready→Inv win f))
          λ t.
            Hoare-then (Inv win f)
              (add_group-Gives group p₁ (subst IsRoot (sym (wcscpy_s_text max_path dir p₁ e₁)) root)
                good)
              λ p₂. Hoare-given λ e₂.
                Hoare-weaken (λ st w h. h)
                  (λ s st w h. (
                    IsPath-make dir p₁ p₂ group name ext s (wcscpy_s_text max_path dir p₁ e₁) e₂
                        h.0,
                    h.1,
                  ))
                  (add_file-Gives name ext p₂)

pub good_names :
    (u : UpdateAppList)
    → names_are_bad u ≡ false
    → (name_is_bad (string_of u.app_desc) ≡ false)
      × (name_is_bad (string_of u.app_id) ≡ false)
      × (is_given u.app_group ≡ true → name_is_bad (string_of u.app_group) ≡ false)
unfolding names_are_bad
good_names u h = ground arith

-- A path of names that are let through.
pub IsPath→IsBelow :
    (win : Windows) (Root : List ℕ → Type 0) (dir : List ℕ) (group : WString)
    (name ext path : List ℕ)
    → Root dir
    → name_is_bad name ≡ false
    → (is_given group ≡ true → name_is_bad (string_of group) ≡ false)
    → IsPath dir group name ext path
    → IsBelow win Root ext path
IsPath→IsBelow win Root dir group name ext path root good group_good (plain e) =
    in_root dir name root good e
IsPath→IsBelow win Root dir group name ext path root good group_good (grouped on e) =
    in_group dir (string_of group) name root (group_good on) good e
