-- ===== src/Client/Callback/Confined/Directories.antt =====
-- BuildMenuPath and BuildIconPath make the two directories.
use wslg.Common.{ℕ, ◌≡◌, List, false, ◌∙◌, ap, ◌++◌}
use wslg.Client.Path.{max_path}
use wslg.Client.Path.Fits.{printed_text, wcscat_s_text}
use wslg.Client.Windows.{Windows}
use wslg.Client.Callback.{State}
use wslg.Client.Callback.Steps.{modify, create_directory}
use wslg.Client.Callback.Hoare.{Hoare, Hoare-then}
use wslg.Client.Callback.Hoare.Rules.{
  Hoare-fail_if, Hoare-or_fail, Hoare-from_world, Hoare-modify, Hoare-create_directory, Hoare-given,
  Hoare-weaken,
}
use wslg.Client.Callback.Caps.{provider_is_bad, build_menu_path, build_icon_path, prefix}
use wslg.Client.Callback.Confined.{
  IsMenuPath, IsIconPath, menu_root, icon_root, in_temp, in_plugin, in_provider,
}
use wslg.Client.Callback.Confined.Frame.{Frame, Inv, Ready, Ready→Inv, Ready-creates}

module _ (win : Windows) (f : Frame win) where
  -- The menu directory is known already, the icon directory may not be.
  pub HasMenu : State → win.World → Type 0
  HasMenu st w = IsMenuPath win st.app_menu_path × Inv win f st w

  set_menu_path-HasMenu :
      (path : List ℕ)
      → IsMenuPath win path
      → Hoare
          (Inv win f)
          (Inv win f)
          (modify (λ st. record st { app_menu_path = path }))
          (λ t st w. HasMenu st w)
  unfolding HasMenu
  set_menu_path-HasMenu path is_menu =
      Hoare-modify (λ st. record st { app_menu_path = path })
        (λ st w h. (
          is_menu,
          record {
            menu = λ t. is_menu;
            icon = h.icon;
            links = h.links;
            sync = h.sync;
            world = h.world;
          },
        ))

  pub build_menu_path-HasMenu :
      (provider : List ℕ)
      → provider_is_bad provider ≡ false
      → Hoare (Inv win f) (Inv win f) (build_menu_path win provider) (λ t st w. HasMenu st w)
  unfolding build_menu_path HasMenu
  build_menu_path-HasMenu provider good =
      Hoare-then (Inv win f) (Hoare-from_world (λ st w h. h) win.start_menu_path) λ folder.
        Hoare-given λ from. Hoare-then (Inv win f) (Hoare-or_fail (λ st w h. h) _) λ path.
          Hoare-given λ e.
            let is_menu : IsMenuPath win path = record {
              folder = folder;
              provider = provider;
              at = from.0;
              folder_is = from.1;
              provider_good = good;
              path_is = printed_text max_path _ path e;
            } in
            Hoare-then (Inv win f) (set_menu_path-HasMenu path is_menu) λ t.
              Hoare-create_directory win path
                (λ st w h. (
                  h.0,
                  record {
                    menu = h.1.menu;
                    icon = h.1.icon;
                    links = h.1.links;
                    sync = h.1.sync;
                    world = f.creates path w (menu_root is_menu) h.1.world;
                  },
                ))
                (λ st w h. h.1)

  set_icon_path-Ready :
      (path : List ℕ)
      → IsIconPath win path
      → Hoare
          (Inv win f)
          HasMenu
          (modify (λ st. record st { icon_path = path }))
          (λ t st w. Ready win f st w)
  unfolding HasMenu
  set_icon_path-Ready path is_icon =
      Hoare-modify (λ st. record st { icon_path = path })
        (λ st w h. record {
          menu = h.0;
          icon = is_icon;
          links = h.1.links;
          sync = h.1.sync;
          world = h.1.world;
        })

  Ready→HasMenu : (st : State) (w : win.World) → Ready win f st w → HasMenu st w
  unfolding HasMenu
  Ready→HasMenu st w h = (h.menu, Ready→Inv win f st w h)

  replace_icon_path-Ready :
      (path : List ℕ)
      → IsIconPath win path
      → Hoare
          (Inv win f)
          (Ready win f)
          (modify (λ st. record st { icon_path = path }))
          (λ t st w. Ready win f st w)
  replace_icon_path-Ready path is_icon =
      Hoare-weaken Ready→HasMenu (λ t st w h. h) (set_icon_path-Ready path is_icon)

  icon_directory-Ready :
      (path : List ℕ)
      → IsIconPath win path
      → Hoare (Inv win f) (Ready win f) (create_directory win path) (λ t st w. Ready win f st w)
  icon_directory-Ready path is_icon =
      Hoare-create_directory win path (Ready-creates win f path (icon_root is_icon))
        (Ready→Inv win f)

  pub build_icon_path-Ready :
      (provider : List ℕ)
      → provider_is_bad provider ≡ false
      → Hoare (Inv win f) HasMenu (build_icon_path win provider) (λ t st w. Ready win f st w)
  unfolding build_icon_path HasMenu
  build_icon_path-Ready provider good =
      Hoare-then (Inv win f) (Hoare-from_world (λ st w h. h.1) win.temp_path) λ folder.
        Hoare-given λ from.
          Hoare-then (Inv win f) (set_icon_path-Ready folder (in_temp from.0 from.1)) λ t₁.
            Hoare-then (Inv win f) (Hoare-fail_if (Ready→Inv win f) _) λ t₂. Hoare-given λ e₂.
              Hoare-then (Inv win f) (Hoare-or_fail (Ready→Inv win f) _) λ p. Hoare-given λ e₃.
                let is_icon : IsIconPath win p =
                  in_plugin folder from.0 from.1 (wcscat_s_text max_path folder prefix p e₃) in
                Hoare-then (Inv win f) (replace_icon_path-Ready p is_icon) λ t₃.
                  Hoare-then (Inv win f) (icon_directory-Ready p is_icon) λ t₄.
                    Hoare-then (Inv win f) (Hoare-or_fail (Ready→Inv win f) _) λ q.
                      Hoare-given λ e₄.
                        let is_icon' : IsIconPath win q =
                          in_provider folder provider from.0 from.1 good (
                            wcscat_s_text max_path p provider q e₄
                            ∙ ap (λ (d : List ℕ). d ++ provider)
                                (wcscat_s_text max_path folder prefix p e₃)) in
                        Hoare-then (Inv win f) (replace_icon_path-Ready q is_icon')
                          λ t₅. icon_directory-Ready q is_icon'
