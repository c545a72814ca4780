-- ===== src/Examples/Shortcuts.antt =====
-- A task bar entry whose command cannot be set.
use wslg.Common.{ℕ, ◌≡◌, refl, ◌⊎◌, [], ◌∷◌, true, false, some}
use wslg.Client.Hresult.{s_ok, e_fail, is_failed}
use wslg.Client.Windows.{TaskBarInfo}
use wslg.Client.Shell.{
  Interface, relaunch_command, display_name_resource, icon_resource, prevent_pinning, StoreAnswers,
  update_task_bar_info, property_store, shell_link, persist_file,
}
use wslg.Client.Shell.References.{taken, given_back, total, update_task_bar_info-leaks}

abbrev refused : StoreAnswers
refused = record {
  store = s_ok;
  init = λ p. s_ok;
  set = λ p. elim p [
    | display_name_resource ↦ s_ok
    | icon_resource ↦ s_ok
    | relaunch_command ↦ e_fail
    | prevent_pinning ↦ s_ok
  ];
}

abbrev entry : TaskBarInfo
entry = record {
  relaunch_cmdline = some (99 ∷ []);
  display_name = some (100 ∷ []);
  icon_path = some (105 ∷ []);
}

abbrev weight : Interface → ℕ
weight i = elim i [ shell_link ↦ 1 | persist_file ↦ 1 | property_store ↦ 7 ]

update_task_bar_info-leaks_example :
    ((is_failed (update_task_bar_info refused entry).0 ≡ false)
      × (total (taken weight) (update_task_bar_info refused entry).1
          ≡ total (given_back weight) (update_task_bar_info refused entry).1))
    ⊎ ((is_failed (update_task_bar_info refused entry).0 ≡ true)
        × (total (taken weight) (update_task_bar_info refused entry).1 ≡ weight property_store)
        × (total (given_back weight) (update_task_bar_info refused entry).1 ≡ 0))
update_task_bar_info-leaks_example = update_task_bar_info-leaks weight refused entry refl
