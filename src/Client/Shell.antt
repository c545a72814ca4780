-- ===== src/Client/Shell.antt =====
-- The functions of WSLDVCPlugin/utils.cpp on shell links and task bar entries. What COM gives back is
-- an argument, and the references that a function takes and gives back are listed.
pub mod References
pub mod Pinning
use wslg.Common.{
  ℕ, ◌≡◌, ◌+◌, refl, List, [], ◌∷◌, ◌++◌, Bool, true, false, ◌&&◌, Option, none, some, arith,
}
use wslg.Common.{if◌then◌else◌}
use wslg.Client.Hresult.{Hresult, s_ok, is_failed}
use wslg.Client.Windows.{ShellLink, TaskBarInfo}

pub data Interface : Type 0 where
  shell_link persist_file property_store : Interface

-- The properties of a window.
pub data Property : Type 0 where
  display_name_resource icon_resource relaunch_command prevent_pinning : Property

pub data ComCall : Type 0 where
  acquired released : Interface → ComCall
  -- SetPath, SetArguments, SetIconLocation, SetDescription, SetWorkingDirectory
  set_path set_arguments set_icon_location set_description set_working_directory : List ℕ → ComCall
  -- SetShowCmd, IPersistFile::Save and Load, GetIconLocation
  set_show_cmd : ℕ → ComCall
  save load : List ℕ → ComCall
  get_icon_location : ComCall
  -- IPropertyStore::SetValue with a text, or with TRUE
  set_value : Property → Option (List ℕ) → ComCall

-- What the calls of a function on a link return: CoCreateInstance, QueryInterface, Save or Load, and
-- GetIconLocation with its text.
pub record LinkAnswers : Type 0 where
  pub create : Hresult
  pub query : Hresult
  pub stored : Hresult
  pub icon_location : Hresult × List ℕ

abbrev pub sw_showminnoactive : ℕ
sw_showminnoactive = 7

abbrev icon_calls : Option (List ℕ) → List ComCall
icon_calls none = []
icon_calls (some []) = []
icon_calls (some (c ∷ cs)) = set_icon_location (c ∷ cs) ∷ []

-- CreateShellLink
unfoldable pub create_shell_link : LinkAnswers → ShellLink → Hresult × List ComCall
create_shell_link a l =
    if is_failed a.create
    then (a.create, [])
    else (let settings =
          set_path l.path_obj
          ∷ set_arguments l.args
          ∷ (icon_calls l.path_icon
              ++ (set_description l.desc
                  ∷ set_working_directory l.working_dir
                  ∷ set_show_cmd sw_showminnoactive
                  ∷ [])) in
        if is_failed a.query
        then (a.query, acquired shell_link ∷ (settings ++ (released shell_link ∷ [])))
        else (
          a.stored,
          acquired shell_link
              ∷ (settings
                  ++ (acquired persist_file
                      ∷ save l.path_link
                      ∷ released persist_file
                      ∷ released shell_link
                      ∷ [])),
        ))

-- GetIconFileFromShellLink, with the text in iconPath after it
unfoldable pub get_icon_file_from_shell_link :
    LinkAnswers → List ℕ → Hresult × List ℕ × List ComCall
get_icon_file_from_shell_link a lnk =
    if is_failed a.create
    then (a.create, [], [])
    else if is_failed a.query
    then (a.query, [], acquired shell_link ∷ released shell_link ∷ [])
    else if is_failed a.stored
    then (
      a.stored,
      [],
      acquired shell_link
          ∷ acquired persist_file
          ∷ load lnk
          ∷ released persist_file
          ∷ released shell_link
          ∷ [],
    )
    else (
      a.icon_location.0,
      a.icon_location.1,
      acquired shell_link
          ∷ acquired persist_file
          ∷ load lnk
          ∷ get_icon_location
          ∷ released persist_file
          ∷ released shell_link
          ∷ [],
    )

-- What the calls of UpdateTaskBarInfo return: SHGetPropertyStoreForWindow, and for each property the
-- making of its value and SetValue.
pub record StoreAnswers : Type 0 where
  pub store : Hresult
  pub init : Property → Hresult
  pub set : Property → Hresult

-- One property: `none` if all goes well, or the error that is returned.
unfoldable pub set_property :
    StoreAnswers → Property → Option (List ℕ) → Option Hresult × List ComCall
set_property a p value =
    if is_failed (a.init p)
    then (some (a.init p), [])
    else (if is_failed (a.set p) then some (a.set p) else none, set_value p value ∷ [])

-- Properties one after the other, up to the first that fails.
unfoldable pub set_properties :
    StoreAnswers → List (Property × Option (List ℕ)) → Option Hresult × List ComCall
unfolding set_property
set_properties a [] = (none, [])
set_properties a ((p, value) ∷ rest) =
    let (later, calls') = set_properties a rest in
    let (error, calls) = set_property a p value in
    elim error [ some hr ↦ (some hr, calls) | none ↦ (later, calls ++ calls') ]

-- The properties of a window that can be pinned to the task bar, or of one that cannot.
unfoldable pub task_bar_properties : TaskBarInfo → List (Property × Option (List ℕ))
task_bar_properties i = elim i.relaunch_cmdline [
  | none ↦ (prevent_pinning, none) ∷ []
  | some cmdline ↦ elim i.display_name [
    | none ↦ (prevent_pinning, none) ∷ []
    | some name ↦ elim i.icon_path [
      | none ↦ (prevent_pinning, none) ∷ []
      | some icon ↦
          (display_name_resource, some name)
          ∷ (icon_resource, some icon)
          ∷ (relaunch_command, some cmdline)
          ∷ []
    ]
  ]
]

-- UpdateTaskBarInfo: the store is released only where nothing fails.
unfoldable pub update_task_bar_info : StoreAnswers → TaskBarInfo → Hresult × List ComCall
unfolding set_properties task_bar_properties
update_task_bar_info a i =
    if is_failed a.store
    then (a.store, [])
    else (let (error, calls) = set_properties a (task_bar_properties i) in
        elim error [
          | some hr ↦ (hr, acquired property_store ∷ calls)
          | none ↦ (s_ok, acquired property_store ∷ (calls ++ (released property_store ∷ [])))
        ])
