-- ===== src/Client/Read/Safety.antt =====
-- The readers stay within the buffer that they read and within the arrays that they fill, on any
-- bytes whatever.
use wslg.Common.{ℕ, ◌+◌, ◌≤◌, ◌<◌, ◌≡◌, ◌⊎◌, refl, List, [], ◌∷◌, true, false, arith}
use wslg.Common.{length, leb}
use wslg.Common.{Bool-cases, inl, inr}
use wslg.Client.Hresult.{s_ok, e_fail}
use wslg.Protocol.Field
use wslg.Client.Pdu.{AppListHeader, ServerCaps, UpdateAppList, DeleteAppList, AssociateWindowId}
use wslg.Client.Reader.{read_uint32}
use wslg.Client.Read.{
  read_app_list_header, read_app_list_server_caps, read_app_list_update, read_app_list_delete,
  read_associate_window_id,
}
use wslg.Client.Read.Within.{
  IsArray, Keeps-then, Keeps-uint16, Keeps-uint32, Keeps-check, Keeps-on_flag, Keeps-at, run_within,
}

abbrev pub UpdateArrays : UpdateAppList → Type 0
UpdateArrays u =
    IsArray u.app_id
    × IsArray u.app_group
    × IsArray u.app_exec_path
    × IsArray u.app_working_dir
    × IsArray u.app_desc

-- On any bytes, ReadAppListUpdate keeps the five arrays of the struct at their 512 bytes, whether
-- it succeeds or fails, and never takes more than the buffer holds.
pub read_app_list_update_within :
    (u : UpdateAppList) (b : List ℕ)
    → UpdateArrays u
    → UpdateArrays (read_app_list_update u b).1 × (length (read_app_list_update u b).2 ≤ length b)
unfolding read_app_list_update
read_app_list_update_within u b h =
    run_within UpdateArrays u b
      (Keeps-then _ (Keeps-uint32 _ (λ v u. record u { flags = v }) (λ v u h. h)) (
        Keeps-then _ (Keeps-check _ (λ u. u.flags) _) (
          Keeps-then _
            (Keeps-on_flag _ (λ u. u.flags) Field.id
              (Keeps-at _ (λ u. u.app_id) (λ s u. record u { app_id = s }) true (λ u h. h.0)
                (λ s u a h. (a, h.1, h.2, h.3, h.4))))
            (Keeps-then _
              (Keeps-on_flag _ (λ u. u.flags) Field.group
                (Keeps-at _ (λ u. u.app_group) (λ s u. record u { app_group = s }) false
                  (λ u h. h.1) (λ s u a h. (h.0, a, h.2, h.3, h.4))))
              (Keeps-then _
                (Keeps-on_flag _ (λ u. u.flags) Field.execpath
                  (Keeps-at _ (λ u. u.app_exec_path) (λ s u. record u { app_exec_path = s }) true
                    (λ u h. h.2) (λ s u a h. (h.0, h.1, a, h.3, h.4))))
                (Keeps-then _
                  (Keeps-on_flag _ (λ u. u.flags) Field.workingdir
                    (Keeps-at _ (λ u. u.app_working_dir) (λ s u. record u { app_working_dir = s })
                      false (λ u h. h.3) (λ s u a h. (h.0, h.1, h.2, a, h.4))))
                  (Keeps-on_flag _ (λ u. u.flags) Field.desc
                    (Keeps-at _ (λ u. u.app_desc) (λ s u. record u { app_desc = s }) true
                      (λ u h. h.4) (λ s u a h. (h.0, h.1, h.2, h.3, a))))))))))
      h

abbrev pub DeleteArrays : DeleteAppList → Type 0
DeleteArrays d = IsArray d.app_id × IsArray d.app_group

-- Delete.
pub read_app_list_delete_within :
    (d : DeleteAppList) (b : List ℕ)
    → DeleteArrays d
    → DeleteArrays (read_app_list_delete d b).1 × (length (read_app_list_delete d b).2 ≤ length b)
unfolding read_app_list_delete
read_app_list_delete_within d b h =
    run_within DeleteArrays d b
      (Keeps-then _ (Keeps-uint32 _ (λ v d. record d { flags = v }) (λ v d h. h)) (
        Keeps-then _ (Keeps-check _ (λ d. d.flags) _) (
          Keeps-then _
            (Keeps-on_flag _ (λ d. d.flags) Field.id
              (Keeps-at _ (λ d. d.app_id) (λ s d. record d { app_id = s }) true (λ d h. h.0)
                (λ s d a h. (a, h.1))))
            (Keeps-on_flag _ (λ d. d.flags) Field.group
              (Keeps-at _ (λ d. d.app_group) (λ s d. record d { app_group = s }) false (λ d h. h.1)
                (λ s d a h. (h.0, a)))))))
      h

abbrev pub AssociateArrays : AssociateWindowId → Type 0
AssociateArrays a =
    IsArray a.app_id × IsArray a.app_group × IsArray a.app_exec_path × IsArray a.app_desc

-- Associate.
pub read_associate_window_id_within :
    (a : AssociateWindowId) (b : List ℕ)
    → AssociateArrays a
    → AssociateArrays (read_associate_window_id a b).1
      × (length (read_associate_window_id a b).2 ≤ length b)
unfolding read_associate_window_id
read_associate_window_id_within a b h =
    run_within AssociateArrays a b
      (Keeps-then _ (Keeps-uint32 _ (λ v a. record a { flags = v }) (λ v a h. h)) (
        Keeps-then _ (Keeps-check _ (λ a. a.flags) _) (
          Keeps-then _ (Keeps-uint32 _ (λ v a. record a { app_window_id = v }) (λ v a h. h)) (
            Keeps-then _
              (Keeps-on_flag _ (λ a. a.flags) Field.id
                (Keeps-at _ (λ a. a.app_id) (λ s a. record a { app_id = s }) true (λ a h. h.0)
                  (λ s a k h. (k, h.1, h.2, h.3))))
              (Keeps-then _
                (Keeps-on_flag _ (λ a. a.flags) Field.group
                  (Keeps-at _ (λ a. a.app_group) (λ s a. record a { app_group = s }) false
                    (λ a h. h.1) (λ s a k h. (h.0, k, h.2, h.3))))
                (Keeps-then _
                  (Keeps-on_flag _ (λ a. a.flags) Field.execpath
                    (Keeps-at _ (λ a. a.app_exec_path) (λ s a. record a { app_exec_path = s }) true
                      (λ a h. h.2) (λ s a k h. (h.0, h.1, k, h.3))))
                  (Keeps-on_flag _ (λ a. a.flags) Field.desc
                    (Keeps-at _ (λ a. a.app_desc) (λ s a. record a { app_desc = s }) true
                      (λ a h. h.3) (λ s a k h. (h.0, h.1, h.2, k))))))))))
      h

abbrev pub CapsArrays : ServerCaps → Type 0
CapsArrays c = IsArray c.app_list_provider_name × IsArray c.app_list_provider_unique_id

-- Caps.
pub read_app_list_server_caps_within :
    (c : ServerCaps) (b : List ℕ)
    → CapsArrays c
    → CapsArrays (read_app_list_server_caps c b).1
      × (length (read_app_list_server_caps c b).2 ≤ length b)
unfolding read_app_list_server_caps
read_app_list_server_caps_within c b h =
    run_within CapsArrays c b
      (Keeps-then _ (Keeps-uint16 _ (λ v c. record c { version = v }) (λ v c h. h)) (
        Keeps-then _
          (Keeps-at _ (λ c. c.app_list_provider_name)
            (λ s c. record c { app_list_provider_name = s }) true (λ c h. h.0)
            (λ s c a h. (a, h.1)))
          (record {
            apply = λ c b h. elim (Bool-cases (leb 4 c.version)) [
              | inl newer ↦ rw newer (
                  (Keeps-at _ (λ c. c.app_list_provider_unique_id)
                      (λ s c. record c { app_list_provider_unique_id = s }) true (λ c h. h.1)
                      (λ s c a h. (h.0, a))).apply
                    c b h)
              | inr older ↦ rw older (h, omega arith)
            ];
          })))
      h

-- A header takes its 8 bytes, or nothing at all.
pub read_app_list_header_takes :
    (h : AppListHeader) (b : List ℕ)
    → (((read_app_list_header h b).0 ≡ s_ok) × (length b ≡ 8 + length (read_app_list_header h b).2))
      ⊎ (((read_app_list_header h b).0 ≡ e_fail)
          × ((read_app_list_header h b).2 ≡ b)
          × (length b < 8))
unfolding read_app_list_header read_uint32
read_app_list_header_takes h (a ∷ b ∷ c ∷ d ∷ e ∷ f ∷ g ∷ i ∷ rest) = inl (refl, omega arith)
read_app_list_header_takes h [] = inr (refl, refl, omega arith)
read_app_list_header_takes h (a ∷ []) = inr (refl, refl, omega arith)
read_app_list_header_takes h (a ∷ b ∷ []) = inr (refl, refl, omega arith)
read_app_list_header_takes h (a ∷ b ∷ c ∷ []) = inr (refl, refl, omega arith)
read_app_list_header_takes h (a ∷ b ∷ c ∷ d ∷ []) = inr (refl, refl, omega arith)
read_app_list_header_takes h (a ∷ b ∷ c ∷ d ∷ e ∷ []) = inr (refl, refl, omega arith)
read_app_list_header_takes h (a ∷ b ∷ c ∷ d ∷ e ∷ f ∷ []) = inr (refl, refl, omega arith)
read_app_list_header_takes h (a ∷ b ∷ c ∷ d ∷ e ∷ f ∷ g ∷ []) = inr (refl, refl, omega arith)
