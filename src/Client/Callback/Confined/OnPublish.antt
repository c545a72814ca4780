-- ===== src/Client/Callback/Confined/OnPublish.antt =====
-- What OnUpdateAppList does with the paths and the key that it made keeps the invariant.
use wslg.Common.{take, ℕ, refl, List, Bool, true, Option, none, some, Bool-cases, inl, inr}
use wslg.Client.Hresult.{is_failed}
use wslg.Client.Pdu.{UpdateAppList, IconData}
use wslg.Client.Path.{dot_ico}
use wslg.Client.Windows.{Windows}
use wslg.Client.FileDb.{FileEntry}
use wslg.Client.FileDb.{on_file_added, on_file_removed}
use wslg.Client.FileDb.Lookup.{All-insert}
use wslg.Client.FileDb.Added.{added_set, All-on_file_removed}
use wslg.Client.Callback.Steps.{next, modify}
use wslg.Client.Callback.Hoare.{Hoare-then}
use wslg.Client.Callback.Hoare.Rules.{Hoare-modify, Hoare-when}
use wslg.Client.Callback.Update.{
  create_icon_file, create_shell_link, Message, add_to_db, write_icon_file, keep_in_sync, end_sync,
  publish,
}
use wslg.Client.Callback.Confined.{IsIconOf, IsIconPath, IsBelow, IsConfined, IsIcon, IsDeletable}
use wslg.Client.Callback.Confined.Frame.{AllDeletable, Frame, Inv, Ready, Ready→Inv, Ready-world}
use wslg.Client.Callback.Confined.OnSync.{on_sync_end-Ready}
use wslg.Client.Callback.Confined.Paths.{Keeps}

module _ (win : Windows) (f : Frame win) where
  add_to_db-Keeps :
      (key link icon args : List ℕ)
      → IsConfined win link
      → IsIcon win icon
      → Keeps win f (add_to_db win key link icon args)
  unfolding Keeps add_to_db
  add_to_db-Keeps key link icon args confined is_icon = record {
    apply = λ st w h.
        let added =
          on_file_added st.file_db key (some link) (some icon) (some st.expanded_path_obj)
            (some args) in
        let ready : Ready win f (record st { file_db = added.1 }) w = record {
          menu = h.menu;
          icon = h.icon;
          links =
              rw
                (added_set st.file_db key (some link) (some icon) (some st.expanded_path_obj)
                  (some args))
                (All-insert (λ e. IsConfined win e.link_file_path × IsIcon win e.icon_file_path) _
                  st.file_db (confined, is_icon) h.links);
          sync = h.sync;
          world = h.world;
        } in
        elim (Bool-cases (is_failed added.0)) [
          | inl e ↦ rw (add_to_db, e) (Ready→Inv win f (record st { file_db = added.1 }) w ready)
          | inr e ↦ rw (add_to_db, e) ready
        ];
  }

  create_icon_file_kept :
      (icon : IconData) (path : List ℕ) (w : win.World)
      → IsBelow win (IsIconPath win) dot_ico path
      → f.Holds w
      → f.Holds (create_icon_file win icon path w).0
  unfolding create_icon_file
  create_icon_file_kept icon path w below h =
      let made = f.makes_icon path w below h in
      elim (Bool-cases (win.create_file path w).1) [
        | inr failed ↦ rw (create_icon_file, failed) made
        | inl opened ↦
            rw (create_icon_file, opened)
              (f.writes_icon path (take icon.icon_file_size icon.icon_file_data) _ below made)
      ]

  write_icon_file-Keeps :
      (u : UpdateAppList) (icon : IconData) (path : List ℕ)
      → IsIconOf win u path
      → Keeps win f (write_icon_file win u icon path)
  unfolding Keeps write_icon_file
  write_icon_file-Keeps u icon path (inl (on, below)) = record {
    apply = λ st w h.
        rw (write_icon_file, on)
          (Ready-world win f st w _ h (create_icon_file_kept icon path w below h.world));
  }
  write_icon_file-Keeps u icon path (inr (off, none_given)) = record {
    apply = λ st w h. rw (write_icon_file, off) h;
  }

  save_link-Keeps :
      (u : UpdateAppList) (link args icon : List ℕ) (has_icon : Bool)
      → IsConfined win link
      → Keeps win f {A = Unit {0}}
          (λ st w. next tt st (create_shell_link win u link args icon has_icon st w))
  unfolding Keeps create_shell_link
  save_link-Keeps u link args icon has_icon confined = record {
    apply = λ st w h. Ready-world win f st w _ h (f.saves _ w confined h.world);
  }

  AllDeletable-kept :
      (path : List ℕ) (sync : Option (List FileEntry))
      → AllDeletable win f sync
      → AllDeletable win f
          (elim sync [ none ↦ none | some db ↦ some ((on_file_removed db path).1) ])
  AllDeletable-kept path none h = tt
  AllDeletable-kept path (some db) h =
      All-on_file_removed (λ e. IsDeletable win f.IsName e.file_id) db path h

  keep_in_sync-Keeps : (path : List ℕ) → Keeps win f {A = Unit {0}} (modify (keep_in_sync win path))
  unfolding Keeps keep_in_sync
  keep_in_sync-Keeps path = Hoare-modify (keep_in_sync win path) (λ st w h. record {
    menu = h.menu;
    icon = h.icon;
    links = h.links;
    sync = AllDeletable-kept path st.file_db_sync h.sync;
    world = h.world;
  })

  end_sync-Keeps : Keeps win f (end_sync win)
  unfolding Keeps end_sync
  end_sync-Keeps = record {
    apply = λ st w h. on_sync_end-Ready win f true st.file_db_sync st w refl h;
  }

  pub publish-Keeps :
      (m : Message) (icon_path link_path args key : List ℕ)
      → IsConfined win link_path
      → IsIconOf win m.update icon_path
      → Keeps win f (publish win m icon_path link_path args key)
  unfolding Keeps publish
  publish-Keeps m icon_path link_path args key confined icon_of =
      Hoare-then (Inv win f)
        (add_to_db-Keeps key link_path icon_path args confined (is_icon icon_of))
        λ t₁.
          Hoare-then (Inv win f) (write_icon_file-Keeps m.update m.icon icon_path icon_of)
            λ has_icon.
              Hoare-then (Inv win f)
                (save_link-Keeps m.update link_path args icon_path has_icon confined)
                λ t₂. Hoare-then (Inv win f) (Hoare-when _ _ (keep_in_sync-Keeps link_path)) λ t₃.
                  Hoare-then (Inv win f) (Hoare-when _ _ (keep_in_sync-Keeps icon_path))
                    λ t₄. Hoare-when _ _ end_sync-Keeps
    where
      is_icon : IsIconOf win m.update icon_path → IsIcon win icon_path
      is_icon (inl (on, below)) = inr below
      is_icon (inr (off, empty)) = inl empty
