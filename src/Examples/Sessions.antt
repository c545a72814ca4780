-- ===== src/Examples/Sessions.antt =====
-- A session of the plugin on the desk, and a file that stays.
use wslg.Common.{
  Option, none, if◌then◌else◌, false, ℕ, ◌≡◌, ◌≢◌, refl, sym, ap, ◌∙◌, List, [], ◌∷◌, ◌++◌, true,
  false, some, All, Bool-cases, inl, inr, arith,
}
use wslg.Protocol.Cmdid
use wslg.Server.Send.Payload.{caps_payload, update_applist_payload, message}
use wslg.Client.Hresult.{Hresult, s_ok}
use wslg.Client.Path.{backslash}
use wslg.Client.Callback.Caps.{programs, prefix}
use wslg.Client.FileDb.{str_eq}
use wslg.Client.FileDb.Comparison.{str_eq→eq}
use wslg.Client.Callback.{State, initial}
use wslg.Client.Callback.Receive.{on_data_received, on_close}
use wslg.Client.Callback.Receive.Loop.{on_data_received_ends}
use wslg.Client.Callback.Confined.{
  IsMenuPath, IsIconPath, IsBelow, IsInMenu, IsDeletable, AllConfined, in_temp, in_plugin,
  in_provider, in_root, in_group, menu_itself, in_directory, made_link, made_icon, listed, icon_of,
}
use wslg.Client.Plugin.OtherFiles.{FileLaws, Session-content}
use wslg.Client.Plugin.{make_and_initialize, callback_create_instance, on_new_channel_connection}
use wslg.Client.Plugin.Connections.{
  Session, no_connections, others_act, connection, data_received, connection_closed,
  Session-AllConfined,
}
use wslg.Examples.Messages.{caps, update}
use wslg.Examples.Desk.{desk, remove}

-- A caps message and an update.
abbrev messages : List ℕ
messages =
    message Cmdid.caps (caps_payload caps)
    ++ message Cmdid.update_applist (update_applist_payload update)

-- A file that is not the plugin's.
abbrev other_file : List ℕ
other_file = 57 ∷ []

-- Another process makes another file.
abbrev FileMade : List (List ℕ) → List (List ℕ) → Type 0
FileMade w w' = (path : List ℕ) × (other_file ≢ path) × (w' ≡ path ∷ w)

-- Every file is empty.
content : List ℕ → List (List ℕ) → Option (List ℕ)
content path [] = none
content path (p ∷ ps) = let rest = content path ps in if str_eq path p then some [] else rest

abbrev world : List (List ℕ)
world = other_file ∷ []

abbrev later : List (List ℕ)
later = (8 ∷ []) ∷ world

-- What the plugin did with both messages.
abbrev received :
    (r : Hresult × State × List (List ℕ)) × (on_data_received desk messages initial later ≡ some r)
received = on_data_received_ends desk messages initial later

-- Two connections, one of which has received both messages, and the other is closed.
two_connections :
    Session desk FileMade world
      (received.0.1 ∷ (on_close desk initial received.0.2).0 ∷ [])
      (on_close desk initial received.0.2).1
unfolding on_new_channel_connection callback_create_instance make_and_initialize
two_connections = connection_closed (received.0.1 ∷ []) [] initial received.0.2 (
    data_received [] (initial ∷ []) messages initial later received.0.0 received.0.1 received.0.2
      (connection true later s_ok initial (initial ∷ [])
        (connection true later s_ok initial []
          (others_act [] world later no_connections (8 ∷ [], (λ e. absurd (cc)), refl)) refl)
        refl)
      received.1)

Session-AllConfined_example :
    All
      (λ st. AllConfined desk st.file_db)
      (received.0.1 ∷ (on_close desk initial received.0.2).0 ∷ [])
Session-AllConfined_example =
    Session-AllConfined desk FileMade world
      (received.0.1 ∷ (on_close desk initial received.0.2).0 ∷ [])
      (on_close desk initial received.0.2).1 two_connections

-- The first code unit, 0 of an empty text.
abbrev first : List ℕ → ℕ
first [] = 0
first (c ∷ cs) = c

different : (a b : List ℕ) → a ≢ b → str_eq a b ≡ false
different a b h = elim (Bool-cases (str_eq a b)) [
  | inl same ↦ absurd (h (str_eq→eq a b same))
  | inr other ↦ other
]

first_append : (n : ℕ) (a b : List ℕ) → 0 ≢ n → first a ≡ n → first (a ++ b) ≡ n
first_append n [] b some_unit e = absurd (some_unit e)
first_append n (c ∷ cs) b some_unit e = e

menu_first : (path : List ℕ) → IsMenuPath desk path → first path ≡ 67
menu_first path h =
    let folder : h.folder ≡ 67 ∷ [] = cc in
    ap first (h.path_is ∙ ap (λ (d : List ℕ). d ++ programs ++ h.provider) folder)

icon_first : (path : List ℕ) → IsIconPath desk path → first path ≡ 84
icon_first path (in_temp at folder) = let is : path ≡ 84 ∷ [] = cc in ap first is
icon_first path (in_plugin folder at e p) =
    let is : folder ≡ 84 ∷ [] = cc in ap first (p ∙ ap (λ (d : List ℕ). d ++ prefix) is)
icon_first path (in_provider folder provider at e good p) =
    let is : folder ≡ 84 ∷ [] = cc in
    ap first (p ∙ ap (λ (d : List ℕ). (d ++ prefix) ++ provider) is)

below_first :
    (n : ℕ) (Root : List ℕ → Type 0) (ext path : List ℕ)
    → 0 ≢ n
    → ((dir : List ℕ) → Root dir → first dir ≡ n)
    → IsBelow desk Root ext path
    → first path ≡ n
below_first n Root ext path some_unit root_first (in_root dir name root good e) =
    ap first e
    ∙ first_append n ((dir ++ backslash) ++ name) ext some_unit (
        first_append n (dir ++ backslash) name some_unit
          (first_append n dir backslash some_unit (root_first dir root)))
below_first n Root ext path some_unit root_first (in_group dir group name root good good' e) =
    ap first e
    ∙ first_append n ((((dir ++ backslash) ++ group) ++ backslash) ++ name) ext some_unit (
        first_append n (((dir ++ backslash) ++ group) ++ backslash) name some_unit (
          first_append n ((dir ++ backslash) ++ group) backslash some_unit (
            first_append n (dir ++ backslash) group some_unit
              (first_append n dir backslash some_unit (root_first dir root)))))

listed_first : (Name : List ℕ → Type 0) (path : List ℕ) → IsInMenu desk Name path → first path ≡ 67
listed_first Name _ (menu_itself path menu) = menu_first path menu
listed_first Name _ (in_directory dir name inside named) =
    first_append 67 (dir ++ backslash) name (λ e. omega arith)
      (first_append 67 dir backslash (λ e. omega arith) (listed_first Name dir inside))

deletable_first :
    (Name : List ℕ → Type 0) (path : List ℕ) → IsDeletable desk Name path → first path ≢ 57
deletable_first Name path (made_link link) is =
    let own = below_first 67 _ _ path (λ e. omega arith) menu_first link in omega (arith, own, is)
deletable_first Name path (made_icon icon) is =
    let own = below_first 84 _ _ path (λ e. omega arith) icon_first icon in omega (arith, own, is)
deletable_first Name path (listed inside) is =
    let own = listed_first Name path inside in omega (arith, own, is)
deletable_first Name path (icon_of link at inside ok e) is =
    let own : first path ≡ 0 = ap first e in omega (arith, own, is)

deletable_other :
    (Name : List ℕ → Type 0) (path : List ℕ) → IsDeletable desk Name path → other_file ≢ path
deletable_other Name path own is = deletable_first Name path own (ap first (sym is))

content_made : (q path : List ℕ) (w : List (List ℕ)) → q ≢ path → content q (path ∷ w) ≡ content q w
unfolding content
content_made q path w other = rw (content, different q path other)

content_removed :
    (q path : List ℕ) (w : List (List ℕ)) → q ≢ path → content q (remove path w) ≡ content q w
unfolding content remove
content_removed q path [] other = refl
content_removed q path (p ∷ ps) other = elim (Bool-cases (str_eq path p)) [
  | inl same ↦
      let passed = different q p (λ e. other (e ∙ sym (str_eq→eq path p same))) in
      rw (same, passed) (content_removed q path ps other)
  | inr not_same ↦ elim (Bool-cases (str_eq q p)) [
    | inl found ↦ rw (not_same, found) refl
    | inr passed ↦ rw (not_same, passed) (content_removed q path ps other)
  ]
]

desk_laws : FileLaws desk (λ q path. q ≡ path) content
desk_laws = record {
  directory_made = λ q path w. refl;
  directory_removed = λ q path w. refl;
  link_saved = λ q link w other. content_made q link.path_link w other;
  file_made = λ q path w other. content_made q path w other;
  file_written = λ q path bytes w other. refl;
  file_deleted = λ q path w other. content_removed q path w other;
  sent = λ q bytes w. refl;
  shown = λ q hwnd info w. refl;
}

Session-content_example :
    content other_file (on_close desk initial received.0.2).1 ≡ content other_file world
Session-content_example =
    Session-content desk (λ q path. q ≡ path) content desk_laws (λ name. Unit {0}) (λ path w. tt)
      other_file (deletable_other _) FileMade world
      (λ v v' made. ap (content other_file) made.2 ∙ content_made other_file made.0 v made.1)
      (received.0.1 ∷ (on_close desk initial received.0.2).0 ∷ [])
      (on_close desk initial received.0.2).1 two_connections
