-- ===== src/Client/Callback/Confined/OnCaps.antt =====
-- OnCaps keeps the invariant.
use wslg.Common.{ℕ, ◌≡◌, List, Bool, true, false, Bool-cases, inl, inr, leb}
use wslg.Protocol.{channel_version}
use wslg.Client.Hresult.{is_failed}
use wslg.Client.Memory.{text}
use wslg.Client.Read.{read_app_list_server_caps}
use wslg.Client.Windows.{Windows}
use wslg.Client.Callback.{State}
use wslg.Client.Callback.Hoare.{Hoare, Hoare-then, Hoare-pure}
use wslg.Client.Callback.Hoare.Rules.{
  Hoare-fail_if, Hoare-or_fail, Hoare-from_world, Hoare-check, Hoare-modify, Hoare-get, Hoare-when,
  Hoare-given,
}
use wslg.Client.Callback.Caps.{
  read_caps, copy_provider, provider_is_bad, set_guid, read_guid, set_install_location, find_wslg,
  set_language, reply, set_paths, on_caps, reply_bytes,
}
use wslg.Client.Callback.Confined.Directories.{build_menu_path-HasMenu, build_icon_path-Ready}
use wslg.Client.Callback.Confined.Frame.{Frame, Inv, Ready, Ready→Inv}

module _ (win : Windows) (f : Frame win) where
  read_caps_kept :
      (b : List ℕ) → Hoare (Inv win f) (Inv win f) (read_caps win b) (λ a st w. Inv win f st w)
  unfolding read_caps
  read_caps_kept b = record {
    apply = λ st w h. elim (Bool-cases (is_failed (read_app_list_server_caps st.server_caps b).0)) [
      | inl e ↦ rw (read_caps, e) h
      | inr e ↦ rw (read_caps, e) h
    ];
  }

  read_guid_kept :
      (st : State) → Hoare (Inv win f) (Inv win f) (read_guid win st) (λ t st w. Inv win f st w)
  unfolding read_guid set_guid
  read_guid_kept st = Hoare-when _ _ (
      Hoare-then (Inv win f) (Hoare-or_fail (λ st w h. h) _) λ id. Hoare-given λ e. record {
        apply = λ st w h. elim (Bool-cases (is_failed (win.clsid_from_string id).0)) [
          | inl e ↦ rw (set_guid, e) h
          | inr e ↦ rw (set_guid, e) h
        ];
      })

  find_wslg-Ready : Hoare (Inv win f) (Ready win f) (find_wslg win) (λ t st w. Ready win f st w)
  unfolding find_wslg set_install_location
  find_wslg-Ready =
      Hoare-then (Inv win f) (Hoare-check (Ready→Inv win f) win.open_registry_key) λ t₁.
        Hoare-then (Inv win f) located λ path.
          Hoare-then (Inv win f) (Hoare-or_fail (Ready→Inv win f) _) λ path'. Hoare-given λ e₁.
            Hoare-then (Inv win f)
              (Hoare-modify (λ st. record st { expanded_path_obj = path' }) (λ st w h. h))
              λ t₂. Hoare-then (Inv win f) (Hoare-from_world (Ready→Inv win f) _) λ dir.
                Hoare-given λ from.
                  Hoare-modify (λ st. record st { expanded_working_dir = dir }) (λ st w h. h)
    where
      located :
          Hoare (Inv win f) (Ready win f) (set_install_location win) (λ path st w. Ready win f st w)
      located = record {
        apply = λ st w h. elim (Bool-cases (is_failed (win.install_location w).0)) [
          | inl e ↦ rw (set_install_location, e) (Ready→Inv win f st w h)
          | inr e ↦ rw (set_install_location, e) h
        ];
      }

  set_language-Ready :
      Hoare (Inv win f) (Ready win f) (set_language win) (λ t st w. Ready win f st w)
  unfolding set_language
  set_language-Ready = record { apply = λ st w h. h }

  set_paths-Ready :
      (st : State)
      → provider_is_bad (text st.app_provider) ≡ false
      → Hoare (Inv win f) (Inv win f) (set_paths win st) (λ t st w. Ready win f st w)
  unfolding set_paths
  set_paths-Ready st good =
      Hoare-then (Inv win f) (build_menu_path-HasMenu win f (text st.app_provider) good) λ t₁.
        Hoare-then (Inv win f) (build_icon_path-Ready win f (text st.app_provider) good)
          λ t₂. Hoare-then (Inv win f) find_wslg-Ready λ t₃. set_language-Ready

  reply_kept : Hoare (Inv win f) (Ready win f) (reply win) (λ t st w. Inv win f st w)
  unfolding reply
  reply_kept = record {
    apply = λ st w h.
        let kept : (b : Bool) (w' : win.World)
            → f.Holds w'
            → Inv win f (record st { hand_shake_complated = b }) w' =
          λ b w' holds. record {
            menu = λ t. h.menu;
            icon = λ t. h.icon;
            links = h.links;
            sync = h.sync;
            world = holds;
          } in
        let sent = f.sends (reply_bytes st.client_language_id) w h.world in
        elim (Bool-cases (leb channel_version st.server_caps.version)) [
          | inl newer ↦
              elim (Bool-cases
                (is_failed (win.channel_write (reply_bytes st.client_language_id) w).1)) [
                  | inl e ↦ rw (reply, newer, e) (kept false _ sent)
                  | inr e ↦ rw (reply, newer, e) (kept true _ sent)
                ]
          | inr older ↦ rw (reply, older) (kept false w h.world)
        ];
  }

  pub on_caps_kept :
      (b : List ℕ) → Hoare (Inv win f) (Inv win f) (on_caps win b) (λ rest st w. Inv win f st w)
  unfolding on_caps copy_provider
  on_caps_kept b = Hoare-then (Inv win f) (read_caps_kept b) λ rest.
      Hoare-then (Inv win f) (Hoare-modify copy_provider (λ st w h. h)) λ t₁.
        Hoare-then (Inv win f) (Hoare-get (λ st. Unit {0}) (λ st w h. tt)) λ st. Hoare-given λ e.
          Hoare-then (Inv win f) (Hoare-fail_if (λ st w h. h) _) λ t₂. Hoare-given λ good.
            Hoare-then (Inv win f) (read_guid_kept st) λ t₃.
              Hoare-then (Inv win f) (set_paths-Ready st good) λ t₄.
                Hoare-then (Inv win f) reply_kept λ t₅. Hoare-pure (Inv win f) rest λ st w h. h
