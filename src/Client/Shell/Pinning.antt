-- ===== src/Client/Shell/Pinning.antt =====
-- Which properties UpdateTaskBarInfo sets.
use wslg.Common.{ℕ, ◌≡◌, refl, List, [], ◌∷◌, Option, none, some, false}
use wslg.Client.Hresult.{s_ok, is_failed}
use wslg.Client.Shell.{
  acquired, released, set_value, StoreAnswers, set_property, set_properties, task_bar_properties,
  update_task_bar_info, property_store, prevent_pinning,
}

-- Without an icon, the window is kept from being pinned, and gets no command line and no name.
pub no_icon_not_pinned :
    (a : StoreAnswers) (line name : Option (List ℕ))
    → is_failed a.store ≡ false
    → is_failed (a.init prevent_pinning) ≡ false
    → is_failed (a.set prevent_pinning) ≡ false
    → update_task_bar_info a
        (record { relaunch_cmdline = line; display_name = name; icon_path = none })
      ≡ (
        s_ok,
        acquired property_store ∷ set_value prevent_pinning none ∷ released property_store ∷ [],
      )
unfolding update_task_bar_info set_properties set_property task_bar_properties
no_icon_not_pinned a none name store init set =
    rw (store, init, set) (rw (set_properties, init, set) (rw (set_property, init) refl))
no_icon_not_pinned a (some line) none store init set =
    rw (store, init, set) (rw (set_properties, init, set) (rw (set_property, init) refl))
no_icon_not_pinned a (some line) (some name) store init set =
    rw (store, init, set) (rw (set_properties, init, set) (rw (set_property, init) refl))
