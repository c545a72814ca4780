-- ===== src/Client/Callback/Caps.antt =====
-- OnCaps, with BuildMenuPath, BuildIconPath and GetLocaleName of WSLDVCPlugin/utils.cpp. Where a bounded
-- string function fails, the handler goes on with the error and the array as it was; the C runtime
-- first calls its invalid-parameter handler, which by default ends the process, and empties the array.
use wslg.Common.{ℕ, ◌+◌, ◌-◌, List, [], ◌∷◌, ◌++◌, Bool, true, false, ◌||◌, Option, none, some}
use wslg.Common.{if◌then◌else◌, ltb, leb, length, replicate, bytes_of_u16, bytes_of_u32}
use wslg.Protocol.{channel_version, header_size, lang_size}
use wslg.Protocol.Cmdid
use wslg.Client.Hresult.{e_fail, is_failed}
use wslg.Client.Memory.{memcpy, text}
use wslg.Client.Path.{max_path, contains, dot_dot, quote, space, printed, wcscat_s, wcscpy_s}
use wslg.Client.Read.{read_app_list_server_caps}
use wslg.Client.Windows.{Windows}
use wslg.Client.Callback.{State}
use wslg.Client.Callback.Steps.{
  Step, next, return_error, ◌>>=◌, ◌>>◌, pure, get, modify, fail_if, check, or_fail, when,
  create_directory,
}

-- L"\\Programs\\"
abbrev pub programs : List ℕ
programs = 92 ∷ 80 ∷ 114 ∷ 111 ∷ 103 ∷ 114 ∷ 97 ∷ 109 ∷ 115 ∷ 92 ∷ []

-- L"WSLDVCPlugin\\"
abbrev pub prefix : List ℕ
prefix = 87 ∷ 83 ∷ 76 ∷ 68 ∷ 86 ∷ 67 ∷ 80 ∷ 108 ∷ 117 ∷ 103 ∷ 105 ∷ 110 ∷ 92 ∷ []

-- L"\\wslg.exe"
abbrev wslg_exe : List ℕ
wslg_exe = 92 ∷ 119 ∷ 115 ∷ 108 ∷ 103 ∷ 46 ∷ 101 ∷ 120 ∷ 101 ∷ []

-- L"%windir%\\system32"
abbrev working_dir : List ℕ
working_dir =
    37 ∷ 119 ∷ 105 ∷ 110 ∷ 100 ∷ 105 ∷ 114 ∷ 37 ∷ 92 ∷ 115 ∷ 121 ∷ 115 ∷ 116 ∷ 101 ∷ 109 ∷ 51 ∷ 50
    ∷ []

abbrev en_us : List ℕ
en_us = 101 ∷ 110 ∷ 95 ∷ 85 ∷ 83 ∷ []

-- GetLocaleName, `none` for FALSE.
unfoldable pub get_locale_name : Option (List ℕ) → Option (List ℕ) → ℕ → Option (List ℕ)
get_locale_name none country size = none
get_locale_name (some language) country size = elim (wcscpy_s size language) [
  | none ↦ none
  | some name ↦ elim (wcscat_s size name (95 ∷ [])) [
    | none ↦ none
    | some name ↦ elim country [ none ↦ none | some code ↦ wcscat_s size name code ]
  ]
]

-- The reply: a header, the version, and the language in 32 bytes.
unfoldable pub reply_bytes : List ℕ → List ℕ
reply_bytes language =
    bytes_of_u32 Cmdid.caps
    ++ (bytes_of_u32 (header_size + 2 + lang_size)
        ++ (bytes_of_u16 channel_version ++ language ++ replicate (lang_size - length language) 0))

unfoldable pub provider_is_bad : List ℕ → Bool
provider_is_bad provider =
    contains dot_dot provider || (contains quote provider || contains space provider)

unfoldable pub copy_provider : State → State
copy_provider st =
    let name = st.server_caps.app_list_provider_name in
    record st { app_provider = memcpy st.app_provider name.chars name.len }

module _ (win : Windows) where
  open win use {World}

  -- The struct keeps what was read even if a later part of the message is refused.
  unfoldable pub read_caps : List ℕ → Step World (List ℕ)
  read_caps b st w =
      let (hr, caps, rest) = read_app_list_server_caps st.server_caps b in
      let st' = record st { server_caps = caps } in
      if is_failed hr then return_error hr st' w else next rest st' w

  unfoldable pub set_guid : List ℕ → Step World (Unit {0})
  set_guid id st w =
      let (hr, data1) = win.clsid_from_string id in
      if is_failed hr
      then return_error hr st w
      else next tt (record st { app_provider_guid = data1 }) w

  unfoldable pub read_guid : State → Step World (Unit {0})
  unfolding set_guid
  read_guid st = when (leb 4 st.server_caps.version) (do
    id ← or_fail (
        printed 40
          ((123 ∷ []) ++ text st.server_caps.app_list_provider_unique_id.chars ++ (125 ∷ [])))
    set_guid id)

  unfoldable pub build_menu_path : List ℕ → Step World (Unit {0})
  build_menu_path provider = do
    folder ← (λ st w. or_fail (win.start_menu_path w) st w)
    path ← or_fail (printed max_path (folder ++ programs ++ provider))
    modify (λ st. record st { app_menu_path = path })
    create_directory win path

  unfoldable pub build_icon_path : List ℕ → Step World (Unit {0})
  build_icon_path provider = do
    folder ← (λ st w. or_fail (win.temp_path w) st w)
    modify (λ st. record st { icon_path = folder })
    fail_if (ltb max_path (length folder + 14 + length provider))
    path ← or_fail (wcscat_s max_path folder prefix)
    modify (λ st. record st { icon_path = path })
    create_directory win path
    path ← or_fail (wcscat_s max_path path provider)
    modify (λ st. record st { icon_path = path })
    create_directory win path

  unfoldable pub set_install_location : Step World (List ℕ)
  set_install_location st w =
      let (hr, path) = win.install_location w in
      let st' = record st { expanded_path_obj = path } in
      if is_failed hr then return_error hr st' w else next path st' w

  unfoldable pub find_wslg : Step World (Unit {0})
  unfolding set_install_location
  find_wslg = do
    (λ st w. check (win.open_registry_key w) st w)
    path ← set_install_location
    path ← or_fail (wcscat_s max_path path wslg_exe)
    modify (λ st. record st { expanded_path_obj = path })
    dir ← (λ st w. or_fail (win.expand_environment_strings working_dir w) st w)
    modify (λ st. record st { expanded_working_dir = dir })

  unfoldable pub set_language : Step World (Unit {0})
  set_language st w =
      let language : List ℕ =
        elim (get_locale_name (win.language_name w) (win.country_name w) lang_size) [
          | some name ↦ name
          | none ↦ en_us
        ] in
      next tt (record st { client_language_id = language }) w

  -- The reply, and the end of the hand shake.
  unfoldable pub reply : Step World (Unit {0})
  reply st w =
      if leb channel_version st.server_caps.version
      then (let (w', hr) = win.channel_write (reply_bytes st.client_language_id) w in
          if is_failed hr
          then return_error hr (record st { hand_shake_complated = false }) w'
          else next tt (record st { hand_shake_complated = true }) w')
      else return_error e_fail (record st { hand_shake_complated = false }) w

  -- The paths and the language, which all depend on this client.
  unfoldable pub set_paths : State → Step World (Unit {0})
  unfolding build_menu_path build_icon_path find_wslg set_language
  set_paths st = do
    build_menu_path (text st.app_provider)
    build_icon_path (text st.app_provider)
    find_wslg
    set_language

  unfoldable pub on_caps : List ℕ → Step World (List ℕ)
  on_caps b = do
    rest ← read_caps b
    modify copy_provider
    st ← get
    fail_if (provider_is_bad (text st.app_provider))
    read_guid st
    set_paths st
    reply
    pure rest
