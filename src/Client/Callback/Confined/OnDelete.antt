-- ===== src/Client/Callback/Confined/OnDelete.antt =====
-- OnDeleteAppList and OnAssociateWindowId keep the invariant.
use wslg.Common.{ℕ, List, [], ◌∷◌, none, some, Bool-cases, inl, inr, subst, sym, ◌⊎◌, ◌==◌}
use wslg.Client.Hresult.{Hresult, is_failed}
use wslg.Client.Pdu.{empty_delete, empty_associate}
use wslg.Client.Path.{max_path}
use wslg.Client.Read.{read_app_list_delete, read_associate_window_id}
use wslg.Client.Windows.{Windows, TaskBarInfo}
use wslg.Client.FileDb.{FoundPaths, find_files}
use wslg.Client.FileDb.Added.{All-on_file_removed, find_files-All}
use wslg.Client.Callback.{State}
use wslg.Client.Callback.Steps.{modify}
use wslg.Client.Callback.Hoare.{Hoare-then, Hoare-pure}
use wslg.Client.Callback.Hoare.Rules.{Hoare-fail_if, Hoare-modify, Hoare-get, Hoare-given}
use wslg.Client.Callback.Delete.{
  read_delete, find_link_and_icon, delete_path, delete_paths, remove_key, on_delete_app_list,
}
use wslg.Client.Callback.Associate.{
  read_associate, command_line, find_wslg_window, update_window, on_associate_window_id,
}
use wslg.Client.Callback.Confined.{IsConfined, IsIcon, made_link, made_icon}
use wslg.Client.Callback.Confined.Frame.{Frame, Inv, Ready→Inv, Ready-world}
use wslg.Client.Callback.Confined.Paths.{Keeps, Gives}
use wslg.Client.Callback.Confined.OnUpdate.{make_key-Keeps, or_fail-Keeps}

module _ (win : Windows) (f : Frame win) where
  find_link_and_icon-Gives :
      (key : List ℕ)
      → Gives win f
          (λ found. IsConfined win found.link × IsIcon win found.icon)
          (find_link_and_icon win key)
  unfolding Gives find_link_and_icon
  find_link_and_icon-Gives key = record {
    apply = λ st w h.
        let found = find_files st.file_db key (some max_path) (some max_path) none none in
        elim (Bool-cases (is_failed found.0)) [
          | inl e ↦ rw (find_link_and_icon, e) (Ready→Inv win f st w h)
          | inr ok ↦
              let (entry, good, link, icon) =
                find_files-All (λ e. IsConfined win e.link_file_path × IsIcon win e.icon_file_path)
                  st.file_db key max_path h.links ok in
              rw (find_link_and_icon, ok)
                (
                  (subst (IsConfined win) (sym link) good.0, subst (IsIcon win) (sym icon) good.1),
                  h,
                )
        ];
  }

  read_delete-Keeps : (b : List ℕ) → Keeps win f (read_delete win b)
  unfolding Keeps read_delete
  read_delete-Keeps b = record {
    apply = λ st w h. elim (Bool-cases (is_failed (read_app_list_delete empty_delete b).0)) [
      | inl e ↦ rw (read_delete, e) (Ready→Inv win f st w h)
      | inr e ↦ rw (read_delete, e) h
    ];
  }

  delete_path_kept :
      (path : List ℕ) (w : win.World)
      → IsConfined win path ⊎ IsIcon win path
      → f.Holds w
      → f.Holds (delete_path win path w)
  unfolding delete_path
  delete_path_kept [] w good h = h
  delete_path_kept (c ∷ cs) w (inl link) h = f.deletes (c ∷ cs) w (made_link link) h
  delete_path_kept (c ∷ cs) w (inr (inl empty)) h = absurd (cc)
  delete_path_kept (c ∷ cs) w (inr (inr icon)) h = f.deletes (c ∷ cs) w (made_icon icon) h

  delete_paths-Keeps :
      (found : FoundPaths)
      → IsConfined win found.link × IsIcon win found.icon
      → Keeps win f (delete_paths win found)
  unfolding Keeps delete_paths
  delete_paths-Keeps found good = record {
    apply = λ st w h. Ready-world win f st w _ h (
        delete_path_kept found.icon _ (inr good.1)
          (delete_path_kept found.link w (inl good.0) h.world));
  }

  remove_key-Keeps : (key : List ℕ) → Keeps win f {A = Unit {0}} (modify (remove_key win key))
  unfolding Keeps remove_key
  remove_key-Keeps key = Hoare-modify (remove_key win key) (λ st w h. record {
    menu = h.menu;
    icon = h.icon;
    links =
        All-on_file_removed (λ e. IsConfined win e.link_file_path × IsIcon win e.icon_file_path)
          st.file_db key h.links;
    sync = h.sync;
    world = h.world;
  })

  pub on_delete_app_list-Keeps : (b : List ℕ) → Keeps win f (on_delete_app_list win b)
  unfolding Keeps Gives on_delete_app_list
  on_delete_app_list-Keeps b = Hoare-then (Inv win f) (read_delete-Keeps b) λ m.
      Hoare-then (Inv win f) (make_key-Keeps win f _ _) λ key.
        Hoare-then (Inv win f) (find_link_and_icon-Gives key) λ found. Hoare-given λ good.
          Hoare-then (Inv win f) (delete_paths-Keeps found good) λ t₁.
            Hoare-then (Inv win f) (remove_key-Keeps key)
              λ t₂. Hoare-pure (Inv win f) m.1 λ st w h. h

  read_associate-Keeps : (b : List ℕ) → Keeps win f (read_associate win b)
  unfolding Keeps read_associate
  read_associate-Keeps b = record {
    apply = λ st w h. elim (Bool-cases (is_failed (read_associate_window_id empty_associate b).0)) [
      | inl e ↦ rw (read_associate, e) (Ready→Inv win f st w h)
      | inr e ↦ rw (read_associate, e) h
    ];
  }

  command_line-Keeps :
      (exec_path : List ℕ) (found : Hresult × FoundPaths) (st : State)
      → Keeps win f (command_line win exec_path found st)
  unfolding Keeps command_line
  command_line-Keeps [] (hr, found) st = elim (Bool-cases (is_failed hr)) [
    | inl e ↦ rw (command_line, e) (Hoare-pure (Inv win f) [] λ st w h. h)
    | inr e ↦ rw (command_line, e) (or_fail-Keeps win f _)
  ]
  command_line-Keeps (c ∷ cs) (hr, found) st = elim (Bool-cases (is_failed hr)) [
    | inl e ↦ rw (command_line, e) (or_fail-Keeps win f _)
    | inr e ↦ rw (command_line, e) (or_fail-Keeps win f _)
  ]

  find_wslg_window_kept :
      (id : ℕ) (info : TaskBarInfo) (windows : List (ℕ × ℕ)) (w : win.World)
      → f.Holds w
      → f.Holds (find_wslg_window win id info windows w)
  unfolding find_wslg_window
  find_wslg_window_kept id info [] w h = h
  find_wslg_window_kept id info ((hwnd, prop) ∷ rest) w h = elim (Bool-cases (prop == id)) [
    | inl same ↦ rw (find_wslg_window, same) (f.shows hwnd info w h)
    | inr other ↦ rw (find_wslg_window, other) (find_wslg_window_kept id info rest w h)
  ]

  update_window-Keeps : (id : ℕ) (info : TaskBarInfo) → Keeps win f (update_window win id info)
  unfolding Keeps update_window
  update_window-Keeps id info = record {
    apply = λ st w h.
        Ready-world win f st w _ h (find_wslg_window_kept id info (win.windows w) w h.world);
  }

  pub on_associate_window_id-Keeps : (b : List ℕ) → Keeps win f (on_associate_window_id win b)
  unfolding Keeps on_associate_window_id
  on_associate_window_id-Keeps b =
      Hoare-then (Inv win f) (Hoare-get (λ st. Unit {0}) (λ st w h. tt)) λ st. Hoare-given λ t₁.
        Hoare-then (Inv win f) (Hoare-fail_if (Ready→Inv win f) _) λ t₂. Hoare-given λ newer.
          Hoare-then (Inv win f) (read_associate-Keeps b) λ m.
            Hoare-then (Inv win f) (Hoare-fail_if (Ready→Inv win f) _) λ t₃. Hoare-given λ id.
              Hoare-then (Inv win f) (make_key-Keeps win f _ _) λ key.
                Hoare-then (Inv win f) (command_line-Keeps _ _ st) λ command.
                  Hoare-then (Inv win f) (update_window-Keeps _ _)
                    λ t₄. Hoare-pure (Inv win f) m.1 λ st w h. h
