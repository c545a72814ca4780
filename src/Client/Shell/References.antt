-- ===== src/Client/Shell/References.antt =====
-- Which references to COM objects the functions on shell links and task bar entries give back.
use wslg.Common.{
  ℕ, ◌≡◌, ◌+◌, refl, ◌∙◌, List, [], ◌∷◌, ◌++◌, Bool, true, false, Option, none, some, Bool-cases,
  Option-cases, inl, inr, ◌⊎◌, arith,
}
use wslg.Client.Hresult.{Hresult, is_failed}
use wslg.Client.Windows.{ShellLink, TaskBarInfo}
use wslg.Client.Shell.{
  Interface, Property, ComCall, acquired, released, set_path, set_arguments, set_icon_location,
  set_description, set_working_directory, set_show_cmd, save, load, get_icon_location, set_value,
  LinkAnswers, create_shell_link, get_icon_file_from_shell_link, StoreAnswers, set_property,
  set_properties, task_bar_properties, update_task_bar_info, property_store,
}

-- The references taken and given back, each kind with a weight of its own.
abbrev pub taken : (Interface → ℕ) → ComCall → ℕ
taken weight (acquired i) = weight i
taken weight (released i) = 0
taken weight (set_path p) = 0
taken weight (set_arguments p) = 0
taken weight (set_icon_location p) = 0
taken weight (set_description p) = 0
taken weight (set_working_directory p) = 0
taken weight (set_show_cmd n) = 0
taken weight (save p) = 0
taken weight (load p) = 0
taken weight get_icon_location = 0
taken weight (set_value p v) = 0

abbrev pub given_back : (Interface → ℕ) → ComCall → ℕ
given_back weight (acquired i) = 0
given_back weight (released i) = weight i
given_back weight (set_path p) = 0
given_back weight (set_arguments p) = 0
given_back weight (set_icon_location p) = 0
given_back weight (set_description p) = 0
given_back weight (set_working_directory p) = 0
given_back weight (set_show_cmd n) = 0
given_back weight (save p) = 0
given_back weight (load p) = 0
given_back weight get_icon_location = 0
given_back weight (set_value p v) = 0

abbrev pub total : (ComCall → ℕ) → List ComCall → ℕ
total f [] = 0
total f (c ∷ cs) = f c + total f cs

abbrev IsReleased : List ComCall → Type 0
IsReleased calls =
    (weight : Interface → ℕ) → total (taken weight) calls ≡ total (given_back weight) calls

link_calls :
    (no_object no_query : Bool) (a : LinkAnswers) (l : ShellLink)
    → is_failed a.create ≡ no_object
    → is_failed a.query ≡ no_query
    → (icon : Option (List ℕ)) → l.path_icon ≡ icon
    → IsReleased (create_shell_link a l).1
unfolding create_shell_link
link_calls true q a l e f icon g weight = rw e refl
link_calls false true a l e f none g weight = rw (e, f, g) (omega arith)
link_calls false true a l e f (some []) g weight = rw (e, f, g) (omega arith)
link_calls false true a l e f (some (c ∷ cs)) g weight = rw (e, f, g) (omega arith)
link_calls false false a l e f none g weight = rw (e, f, g) (omega arith)
link_calls false false a l e f (some []) g weight = rw (e, f, g) (omega arith)
link_calls false false a l e f (some (c ∷ cs)) g weight = rw (e, f, g) (omega arith)

-- CreateShellLink gives back every reference that it takes.
create_shell_link-IsReleased :
    (a : LinkAnswers) (l : ShellLink) → IsReleased (create_shell_link a l).1
create_shell_link-IsReleased a l = link_calls _ _ a l refl refl _ refl

-- GetIconFileFromShellLink does so too.
icon_file_calls-IsReleased :
    (a : LinkAnswers) (lnk : List ℕ) → IsReleased (get_icon_file_from_shell_link a lnk).2
unfolding get_icon_file_from_shell_link
icon_file_calls-IsReleased a lnk weight = elim (Bool-cases (is_failed a.create)) [
  | inl e ↦ rw e refl
  | inr e ↦ elim (Bool-cases (is_failed a.query)) [
    | inl f ↦ rw (e, f) (omega arith)
    | inr f ↦ elim (Bool-cases (is_failed a.stored)) [
      | inl g ↦ rw (e, f, g) (omega arith)
      | inr g ↦ rw (e, f, g) (omega arith)
    ]
  ]
]

total-append :
    (f : ComCall → ℕ) (cs ds : List ComCall) → total f (cs ++ ds) ≡ total f cs + total f ds
total-append f [] ds = omega arith
total-append f (c ∷ cs) ds = let ih = total-append f cs ds in omega arith

abbrev SetsNothing : (ComCall → ℕ) → Type 0
SetsNothing f = (p : Property) (v : Option (List ℕ)) → f (set_value p v) ≡ 0

module _ (a : StoreAnswers) where
  total-set_property :
      (f : ComCall → ℕ)
      → SetsNothing f
      → (p : Property) (v : Option (List ℕ)) → total f (set_property a p v).1 ≡ 0
  unfolding set_property
  total-set_property f h p v =
      let now = h p v in
      elim (Bool-cases (is_failed (a.init p))) [ inl e ↦ rw e refl | inr e ↦ rw e (omega arith) ]

  total-set_properties :
      (f : ComCall → ℕ)
      → SetsNothing f
      → (ps : List (Property × Option (List ℕ))) → total f (set_properties a ps).1 ≡ 0
  unfolding set_properties
  total-set_properties f h [] = refl
  total-set_properties f h ((p, v) ∷ ps) =
      let later = total-set_properties f h ps in
      let now = total-set_property f h p v in
      elim (Option-cases (set_property a p v).0) [
        | inl none_failed ↦ rw (set_properties, none_failed) (rw (total-append f _ _) (omega arith))
        | inr (hr, failed) ↦ rw (set_properties, failed) now
      ]

  set_property_fails :
      (p : Property) (v : Option (List ℕ)) (hr : Hresult)
      → (set_property a p v).0 ≡ some hr
      → is_failed hr ≡ true
  unfolding set_property
  set_property_fails p v hr e = elim (Bool-cases (is_failed (a.init p))) [
    | inl f ↦ (let stop = rw (set_property, f) at e in cc)
    | inr f ↦ elim (Bool-cases (is_failed (a.set p))) [
      | inl g ↦ (let stop = rw (set_property, f, g) at e in cc)
      | inr g ↦ (let ok = rw (set_property, f, g) at e in cc)
    ]
  ]

  set_properties_fails :
      (ps : List (Property × Option (List ℕ))) (hr : Hresult)
      → (set_properties a ps).0 ≡ some hr
      → is_failed hr ≡ true
  unfolding set_properties
  set_properties_fails [] hr e = cc
  set_properties_fails ((p, v) ∷ ps) hr e = elim (Option-cases (set_property a p v).0) [
    | inl none_failed ↦ set_properties_fails ps hr (rw (set_properties, none_failed) at e)
    | inr (hr', failed) ↦ set_property_fails p v hr (failed ∙ (rw (set_properties, failed) at e))
  ]

-- Once UpdateTaskBarInfo has the property store of a window, either it succeeds and gives back as
-- many references as it takes, or it returns a failure, has taken the store, and gives back
-- nothing.
pub update_task_bar_info-leaks :
    (weight : Interface → ℕ) (a : StoreAnswers) (i : TaskBarInfo)
    → is_failed a.store ≡ false
    → ((is_failed (update_task_bar_info a i).0 ≡ false)
        × (total (taken weight) (update_task_bar_info a i).1
            ≡ total (given_back weight) (update_task_bar_info a i).1))
      ⊎ ((is_failed (update_task_bar_info a i).0 ≡ true)
          × (total (taken weight) (update_task_bar_info a i).1 ≡ weight property_store)
          × (total (given_back weight) (update_task_bar_info a i).1 ≡ 0))
unfolding update_task_bar_info
update_task_bar_info-leaks weight a i opened =
    let ps = task_bar_properties i in
    let no_taken = total-set_properties a (taken weight) (λ p v. refl) ps in
    let no_given = total-set_properties a (given_back weight) (λ p v. refl) ps in
    elim (Option-cases (set_properties a ps).0) [
      | inl all_set ↦ inl (
          rw (update_task_bar_info, opened, all_set)
            (
              refl,
              rw (total-append (taken weight) _ _, total-append (given_back weight) _ _)
                  (omega arith),
            ))
      | inr (hr, stopped) ↦ inr (
          rw (update_task_bar_info, opened, stopped)
            (set_properties_fails a ps hr stopped, omega arith, omega arith))
    ]
