-- ===== src/Client/Callback/Receive/Leaves.antt =====
-- What a handler leaves of the bytes that it is given.
use wslg.Common.{ℕ, ◌+◌, ◌≤◌, ◌≡◌, refl, ap, inl, inr, List, Bool, true, false, not}
use wslg.Common.{arith, length, if◌then◌else◌, ◌==◌, has_flag, Bool-cases}
use wslg.Protocol.Cmdid
use wslg.Protocol.Field
use wslg.Client.Hresult.{succeeded, Hresult, is_failed}
use wslg.Client.Pdu.{
  AppListHeader, DeleteAppList, AssociateWindowId, empty_header, empty_update, empty_icon,
  empty_delete, empty_associate,
}
use wslg.Client.Read.{
  read_app_list_update, read_app_list_icon_data, read_app_list_delete, read_associate_window_id,
  read_app_list_server_caps,
}
use wslg.Client.Read.Safety.{
  read_app_list_header_takes, read_app_list_update_within, read_app_list_delete_within,
  read_associate_window_id_within,
}
use wslg.Client.Read.Taken.{read_app_list_server_caps_taken}
use wslg.Client.Read.Icon.{read_app_list_icon_data_ok}
use wslg.Client.Windows.{Windows}
use wslg.Client.Callback.{State}
use wslg.Client.Callback.Steps.{Step, ◌>>=◌, pure, fail}
use wslg.Client.Callback.Hoare.{Hoare, Hoare-then, Hoare-pure, Hoare-any, Hoare-fact}
use wslg.Client.Callback.Caps.{read_caps, on_caps}
use wslg.Client.Callback.Update.{Message, read_message, on_update_app_list}
use wslg.Client.Callback.Delete.{read_delete, on_delete_app_list}
use wslg.Client.Callback.Associate.{read_associate, on_associate_window_id}
use wslg.Client.Callback.Receive.{read_header, dispatch}

abbrev pub Any : {W : Type 0} → State → W → Type 0
Any st w = Unit {0}

-- Of a step that goes on with the bytes left, at most `n` of them are.
unfoldable pub Leaves : {W : Type 0} → ℕ → Step W (List ℕ) → Type 0
Leaves n m = Hoare Any Any m (λ rest st w. length rest ≤ n)

module _ {W A : Type 0} (n : ℕ) where
  -- Any step before one that leaves `n`.
  after_any :
      (m : Step W A) (k : A → Step W (List ℕ)) → ((a : A) → Leaves n (k a)) → Leaves n (m >>= k)
  unfolding Leaves
  after_any m k h = Hoare-then Any Hoare-any h

module _ (win : Windows) where
  pub read_header_leaves :
      (b : List ℕ)
      → Hoare Any Any
          (read_header win b)
          (λ (a : AppListHeader × List ℕ) st w. length a.1 + 8 ≤ length b)
  unfolding read_header
  read_header_leaves b = record {
    apply = λ st w h. elim (read_app_list_header_takes empty_header b) [
      | inl (ok, taken) ↦ rw (read_header, ok) (omega arith)
      | inr (failed, rest, short) ↦ rw (read_header, failed) tt
    ];
  }

  read_caps-Leaves : (b : List ℕ) → Leaves (length b) (read_caps win b)
  unfolding Leaves read_caps
  read_caps-Leaves b = record {
    apply = λ st w h. elim (Bool-cases (is_failed (read_app_list_server_caps st.server_caps b).0)) [
      | inl e ↦ rw (read_caps, e) tt
      | inr e ↦ rw (read_caps, e) (read_app_list_server_caps_taken st.server_caps b)
    ];
  }

  read_delete_leaves :
      (b : List ℕ)
      → Hoare Any Any
          (read_delete win b)
          (λ (a : DeleteAppList × List ℕ) st w. length a.1 ≤ length b)
  unfolding read_delete
  read_delete_leaves b = record {
    apply = λ st w h. elim (Bool-cases (is_failed (read_app_list_delete empty_delete b).0)) [
      | inl e ↦ rw (read_delete, e) tt
      | inr e ↦ rw (read_delete, e) (read_app_list_delete_within empty_delete b (refl, refl)).1
    ];
  }

  read_associate_leaves :
      (b : List ℕ)
      → Hoare Any Any
          (read_associate win b)
          (λ (a : AssociateWindowId × List ℕ) st w. length a.1 ≤ length b)
  unfolding read_associate
  read_associate_leaves b = record {
    apply = λ st w h. elim (Bool-cases (is_failed (read_associate_window_id empty_associate b).0)) [
      | inl e ↦ rw (read_associate, e) tt
      | inr e ↦
          rw (read_associate, e)
            (read_associate_window_id_within empty_associate b (refl, refl, refl, refl)).1
    ];
  }

  -- An icon that was read took some bytes.
  icon_leaves :
      (alloc : ℕ → Bool) (b : List ℕ)
      → is_failed (read_app_list_icon_data alloc empty_icon b).0 ≡ false
      → length (read_app_list_icon_data alloc empty_icon b).2 ≤ length b
  icon_leaves alloc b ok =
      let (hr, icon, left) = read_app_list_icon_data alloc empty_icon b in
      let taken =
        read_app_list_icon_data_ok alloc empty_icon icon b left
          (ap (λ (h : Hresult). (h, icon, left)) (succeeded hr ok)) in
      omega (arith, taken.4)

  read_message_leaves :
      (b : List ℕ)
      → Hoare Any Any (read_message win b) (λ (m : Message) st w. length m.rest ≤ length b)
  unfolding read_message
  read_message_leaves b = record {
    apply = λ st w h.
        let within =
          (read_app_list_update_within empty_update b (refl, refl, refl, refl, refl)).1 in
        let (hr, u, rest) = read_app_list_update empty_update b in
        let icon_read = read_app_list_icon_data (win.local_alloc w) empty_icon rest in
        elim (Bool-cases (is_failed hr)) [
          | inl e ↦ rw (read_message, e) tt
          | inr e ↦ elim (Bool-cases (has_flag u.flags Field.icon)) [
            | inl on ↦ elim (Bool-cases (is_failed icon_read.0)) [
              | inl e' ↦ rw (read_message, e, on, e') tt
              | inr ok ↦
                  rw (read_message, e, on, ok)
                    (omega (arith, icon_leaves (win.local_alloc w) rest ok))
            ]
            | inr off ↦ rw (read_message, e, off) within
          ]
        ];
  }

  on_caps-Leaves : (b : List ℕ) → Leaves (length b) (on_caps win b)
  unfolding on_caps Leaves
  on_caps-Leaves b = Hoare-then Any (read_caps-Leaves b) λ rest. Hoare-fact λ h.
      after_any _ _ _ λ t₁. after_any _ _ _ λ t₂. after_any _ _ _ λ t₃.
        after_any _ _ _
          λ t₄. after_any _ _ _ λ t₅. after_any _ _ _ λ t₆. Hoare-pure Any rest λ st w t. h

  on_delete-Leaves : (b : List ℕ) → Leaves (length b) (on_delete_app_list win b)
  unfolding on_delete_app_list Leaves
  on_delete-Leaves b = Hoare-then Any (read_delete_leaves b) λ m. Hoare-fact λ h.
      after_any _ _ _ λ t₁.
        after_any _ _ _
          λ t₂. after_any _ _ _ λ t₃. after_any _ _ _ λ t₄. Hoare-pure Any m.1 λ st w t. h

  on_update-Leaves : (b : List ℕ) → Leaves (length b) (on_update_app_list win b)
  unfolding on_update_app_list Leaves
  on_update-Leaves b = Hoare-then Any (read_message_leaves b) λ m. Hoare-fact λ h.
      after_any _ _ _ λ t₁. after_any _ _ _ λ t₂. after_any _ _ _ λ t₃. after_any _ _ _ λ t₄.
        after_any _ _ _ λ t₅. after_any _ _ _ λ t₆.
          after_any _ _ _
            λ t₇. after_any _ _ _ λ t₈. after_any _ _ _ λ t₉. Hoare-pure Any m.rest λ st w t. h

  on_associate-Leaves : (b : List ℕ) → Leaves (length b) (on_associate_window_id win b)
  unfolding on_associate_window_id Leaves
  on_associate-Leaves b = after_any _ _ _ λ st. after_any _ _ _ λ t₁.
      Hoare-then Any (read_associate_leaves b) λ m. Hoare-fact λ h. after_any _ _ _ λ t₂.
        after_any _ _ _
          λ t₃. after_any _ _ _ λ t₄. after_any _ _ _ λ t₅. Hoare-pure Any m.1 λ st w t. h

  Leaves-fail : (n : ℕ) (hr : Hresult) → Leaves n (fail {W = win.World} hr)
  unfolding Leaves fail
  Leaves-fail n hr = record { apply = λ st w h. tt }

  Leaves-pure : (b : List ℕ) → Leaves (length b) (pure {W = win.World} b)
  unfolding Leaves
  Leaves-pure b = Hoare-pure Any b λ st w t. omega arith

  Leaves-if :
      (n : ℕ) (test : Bool) (m k : Step win.World (List ℕ))
      → Leaves n m
      → Leaves n k
      → Leaves n (if test then m else k)
  Leaves-if n true m k hm hk = hm
  Leaves-if n false m k hm hk = hk

  pub dispatch-Leaves :
      (cmd_id : ℕ) (ready : Bool) (b : List ℕ) → Leaves (length b) (dispatch win cmd_id ready b)
  unfolding dispatch
  dispatch-Leaves cmd_id ready b = Leaves-if _ (cmd_id == Cmdid.caps) _ _ (on_caps-Leaves b) (
      Leaves-if _ (not ready) _ _ (Leaves-fail _ _) (
        Leaves-if _ (cmd_id == Cmdid.update_applist) _ _ (on_update-Leaves b) (
          Leaves-if _ (cmd_id == Cmdid.delete_applist) _ _ (on_delete-Leaves b) (
            Leaves-if _ (cmd_id == Cmdid.delete_applist_provider) _ _ (Leaves-pure b) (
              Leaves-if _ (cmd_id == Cmdid.associate_window_id) _ _ (on_associate-Leaves b)
                (Leaves-fail _ _))))))
