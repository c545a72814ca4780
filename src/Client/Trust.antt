-- ===== src/Client/Trust.antt =====
-- IsFileTrusted of WSLDVCPlugin/utils.cpp, which the plugin has where ENABLE_WSL_SIGNATURE_CHECK is 1.
use wslg.Common.{ℕ, ◌+◌, ◌≡◌, ◌↔◌, refl, List, Bool, true, false, none, some, Option}
use wslg.Common.{arith}

-- dwUIChoice, fdwRevocationChecks, dwUnionChoice and dwStateAction
pub data UiChoice : Type 0 where
  ui_none ui_all : UiChoice

pub data RevocationChecks : Type 0 where
  revoke_none revoke_whole_chain : RevocationChecks

pub data UnionChoice : Type 0 where
  choice_file choice_catalog : UnionChoice

pub data StateAction : Type 0 where
  verify close : StateAction

-- WINTRUST_DATA, with the path of its WINTRUST_FILE_INFO; `state_data` is null at first.
pub record WinTrustData : Type 0 where
  pub ui_choice : UiChoice
  pub revocation_checks : RevocationChecks
  pub union_choice : UnionChoice
  pub state_action : StateAction
  pub state_data : Option ℕ
  pub file_path : List ℕ

-- What WinVerifyTrust returns.
pub data TrustStatus : Type 0 where
  error_success trust_e_nosignature trust_e_explicit_distrust trust_e_subject_not_trusted :
      TrustStatus
  other_status : ℕ → TrustStatus

-- WinVerifyTrust with WINTRUST_ACTION_GENERIC_VERIFY_V2; it may set hWVTStateData.
pub record WinTrust : Type 1 where
  pub World : Type 0
  pub win_verify_trust : WinTrustData → World → World × TrustStatus × Option ℕ

abbrev pub verify_data : List ℕ → WinTrustData
verify_data path = record {
  ui_choice = ui_none;
  revocation_checks = revoke_none;
  union_choice = choice_file;
  state_action = verify;
  state_data = none;
  file_path = path;
}

-- The switch, but for what it logs.
unfoldable pub is_trusted : TrustStatus → Bool
is_trusted error_success = true
is_trusted trust_e_nosignature = false
is_trusted trust_e_explicit_distrust = false
is_trusted trust_e_subject_not_trusted = false
is_trusted (other_status n) = false

-- The states of WinTrust that are open through a handle.
abbrev opened : Option ℕ → ℕ
opened none = 0
opened (some h) = 1

module _ (trust : WinTrust) where
  open trust use {World, win_verify_trust}

  unfoldable pub is_file_trusted : List ℕ → World → World × Bool
  unfolding is_trusted
  is_file_trusted path w =
      let (w', status, state) = win_verify_trust (verify_data path) w in
      let (w'', closed, after) =
        win_verify_trust (record (verify_data path) { state_action = close; state_data = state })
          w' in
      (w'', is_trusted status)

  is_trusted-success : (s : TrustStatus) → (is_trusted s ≡ true) ↔ (s ≡ error_success)
  unfolding is_trusted
  is_trusted-success error_success = ((λ h. refl), (λ h. refl))
  is_trusted-success trust_e_nosignature = ((λ h. cc), (λ h. cc))
  is_trusted-success trust_e_explicit_distrust = ((λ h. cc), (λ h. cc))
  is_trusted-success trust_e_subject_not_trusted = ((λ h. cc), (λ h. cc))
  is_trusted-success (other_status n) = ((λ h. cc), (λ h. cc))

  -- A file is trusted just if the verification of its signature succeeds, and what the verification
  -- holds open is as much as before: `held` counts it, a verification adds one if it sets the state,
  -- and closing that state takes one away.
  is_file_trusted_lem :
      (held : World → ℕ)
      → ((d : WinTrustData) (w : World)
          → d.state_action ≡ verify
          → held (win_verify_trust d w).0 ≡ held w + opened (win_verify_trust d w).2)
      → ((d : WinTrustData) (w : World)
          → d.state_action ≡ close
          → held (win_verify_trust d w).0 + opened d.state_data ≡ held w)
      → (path : List ℕ) (w : World)
      → (held (is_file_trusted path w).0 ≡ held w)
        × (((is_file_trusted path w).1 ≡ true)
            ↔ ((win_verify_trust (verify_data path) w).1 ≡ error_success))
  unfolding is_file_trusted
  is_file_trusted_lem held opens closes path w =
      let (w', status, state) = win_verify_trust (verify_data path) w in
      let h = opens (verify_data path) w refl in
      let k =
        closes (record (verify_data path) { state_action = close; state_data = state }) w' refl in
      (omega arith, is_trusted-success status)
