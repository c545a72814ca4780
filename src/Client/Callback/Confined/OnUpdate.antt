-- ===== src/Client/Callback/Confined/OnUpdate.antt =====
-- OnUpdateAppList keeps the invariant.
use wslg.Common.{false, ℕ, ◌≡◌, refl, List, [], Option, Bool-cases, inl, inr, has_flag}
use wslg.Protocol.Field
use wslg.Client.Hresult.{is_failed}
use wslg.Client.Pdu.{WString, UpdateAppList, empty_update, empty_icon}
use wslg.Client.Path.{dot_lnk, dot_ico}
use wslg.Client.Read.{read_app_list_update, read_app_list_icon_data}
use wslg.Client.Windows.{Windows}
use wslg.Client.Callback.{State}
use wslg.Client.Callback.Steps.{or_fail}
use wslg.Client.Callback.Hoare.{Hoare-then, Hoare-pure}
use wslg.Client.Callback.Hoare.Rules.{
  Hoare-fail_if, Hoare-or_fail, Hoare-get, Hoare-when, Hoare-given, Hoare-weaken,
}
use wslg.Client.Callback.Sync.{on_sync_start}
use wslg.Client.Callback.Update.{
  names_are_bad, string_of, is_given, read_message, need_sync_db, make_icon_path, make_key,
  on_update_app_list,
}
use wslg.Client.Callback.Confined.OnPublish.{publish-Keeps}
use wslg.Client.Callback.Confined.{IsIconOf, IsMenuPath, IsIconPath}
use wslg.Client.Callback.Confined.Frame.{Frame, Inv, Ready→Inv}
use wslg.Client.Callback.Confined.OnSync.{on_sync_start-Ready}
use wslg.Client.Callback.Confined.Paths.{Keeps, IsPath→IsBelow, good_names, Gives, make_path-Gives}

module _ (win : Windows) (f : Frame win) where
  make_icon_path-Gives :
      (st : State) (u : UpdateAppList)
      → IsIconPath win st.icon_path
      → names_are_bad u ≡ false
      → Gives win f (IsIconOf win u) (make_icon_path win st u)
  unfolding Gives make_icon_path
  make_icon_path-Gives st u root good = elim (Bool-cases (has_flag u.flags Field.icon)) [
    | inr off ↦ rw (make_icon_path, off) (Hoare-pure (Inv win f) [] λ st w h. (inr (refl, refl), h))
    | inl on ↦
        rw (make_icon_path, on)
          (Hoare-weaken (λ st w h. h)
            (λ p v w h. (
              inl (
                refl,
                IsPath→IsBelow win (IsIconPath win) st.icon_path u.app_group (string_of u.app_id)
                    dot_ico p root (good_names u good).1 (good_names u good).2 h.0,
              ),
              h.1,
            ))
            (make_path-Gives win f st.icon_path u.app_group (string_of u.app_id) dot_ico (inr root)
              (good_names u good).2))
  ]

  pub or_fail-Keeps : (o : Option (List ℕ)) → Keeps win f (or_fail o)
  unfolding Keeps
  or_fail-Keeps o = Hoare-weaken (λ st w h. h) (λ a st w h. h.1) (Hoare-or_fail (Ready→Inv win f) o)

  pub make_key-Keeps : (group id : WString) → Keeps win f (make_key win group id)
  unfolding Keeps make_key
  make_key-Keeps group id = elim (Bool-cases (is_given group)) [
    | inr off ↦ rw (make_key, off) (or_fail-Keeps _)
    | inl on ↦
        rw (make_key, on)
          (Hoare-then (Inv win f) (or_fail-Keeps _)
            λ p₁. Hoare-then (Inv win f) (or_fail-Keeps _) λ p₂. or_fail-Keeps _)
  ]

  read_message-Keeps : (b : List ℕ) → Keeps win f (read_message win b)
  unfolding Keeps read_message
  read_message-Keeps b = record {
    apply = λ st w h.
        let (hr, u, rest) = read_app_list_update empty_update b in
        let icon_read = read_app_list_icon_data (win.local_alloc w) empty_icon rest in
        elim (Bool-cases (is_failed hr)) [
          | inl e ↦ rw (read_message, e) (Ready→Inv win f st w h)
          | inr e ↦ elim (Bool-cases (has_flag u.flags Field.icon)) [
            | inl on ↦ elim (Bool-cases (is_failed icon_read.0)) [
              | inl e' ↦ rw (read_message, e, on, e') (Ready→Inv win f st w h)
              | inr ok ↦ rw (read_message, e, on, ok) h
            ]
            | inr off ↦ rw (read_message, e, off) h
          ]
        ];
  }

  on_sync_start-Keeps : Keeps win f (on_sync_start win)
  unfolding Keeps
  on_sync_start-Keeps = record {
    apply = λ st w h. on_sync_start-Ready win f st w st.file_db_sync refl h;
  }

  pub on_update_app_list-Keeps : (b : List ℕ) → Keeps win f (on_update_app_list win b)
  unfolding Keeps Gives on_update_app_list need_sync_db
  on_update_app_list-Keeps b = Hoare-then (Inv win f) (read_message-Keeps b) λ m.
      Hoare-then (Inv win f) (Hoare-when _ _ on_sync_start-Keeps) λ t₁.
        Hoare-then (Inv win f)
          (Hoare-get (λ st. IsMenuPath win st.app_menu_path × IsIconPath win st.icon_path)
            (λ st w h. (h.menu, h.icon)))
          λ st. Hoare-given λ roots.
            Hoare-then (Inv win f) (Hoare-fail_if (Ready→Inv win f) _) λ t₂. Hoare-given λ in_sync.
              Hoare-then (Inv win f) (Hoare-fail_if (Ready→Inv win f) _) λ t₃. Hoare-given λ good.
                let names = good_names m.update good in
                Hoare-then (Inv win f) (make_icon_path-Gives st m.update roots.1 good) λ icon_path.
                  Hoare-given λ icon_of.
                    Hoare-then (Inv win f)
                      (make_path-Gives win f st.app_menu_path _ _ dot_lnk (inl roots.0) names.2)
                      λ link_path. Hoare-given λ path.
                        Hoare-then (Inv win f) (or_fail-Keeps _) λ args.
                          Hoare-then (Inv win f) (make_key-Keeps _ _) λ key.
                            Hoare-then (Inv win f)
                              (publish-Keeps win f m icon_path link_path args key
                                (IsPath→IsBelow win (IsMenuPath win) st.app_menu_path
                                  m.update.app_group (string_of m.update.app_desc) dot_lnk link_path
                                  roots.0 names.0 names.2 path)
                                icon_of)
                              λ t₄. Hoare-pure (Inv win f) m.rest λ st w h. h
