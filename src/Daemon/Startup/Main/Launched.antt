-- ===== src/Daemon/Startup/Main/Launched.antt =====
-- What main has launched when it comes to the loop of the process monitor.
use wslg.Common.{Has, ap, ◌∙◌, Option-cases}
use wslg.Common.{subst, ℕ, ◌≡◌, ◌≤◌, ◌<◌, inl, inr, refl, List, ◌++◌, Option, some, codes, arith}
use wslg.Daemon.ProcessMonitor.{Monitor, ProcessInfo, launch_process, put}
use wslg.Daemon.Startup.Text.{to_service_id}
use wslg.Daemon.Startup.Text.ServiceId.{service_port, service_port-to_service_id}
use wslg.Daemon.Startup.Host.{Host}
use wslg.Daemon.Startup.Steps.{Step, next, gets, or_throw, ◌>>=◌, pure, >>=-next}
use wslg.Daemon.Startup.CommandLines.{weston, ClientSettings, rdp_client, dbus_daemon, pulseaudio}
use wslg.Daemon.Startup.Preparation.{listen_on_port}
use wslg.Daemon.Startup.Main.{
  Setup, no_children, launch, set_up, await_weston, client_settings, start_up,
}
use wslg.Daemon.Startup.Main.Port.{find_port_bounds}

-- What a step that goes on gives.
abbrev Gives : {W A : Type 0} → Step W A → (A → Type 0) → Type 0
Gives {W} {A} m Q = (w w' : W) (a : A) → m w ≡ next a w' → Q a

Gives-then :
    {W A B : Type 0} (m : Step W A) (k : A → Step W B) (R : A → Type 0) (Q : B → Type 0)
    → Gives m R
    → ((a : A) → R a → Gives (k a) Q)
    → Gives (m >>= k) Q
Gives-then m k R Q hm hk w w' b e =
    let (a, v, first, rest) = >>=-next m k w w' b e in hk a (hm w v a first) v w' b rest

-- Past a step of which nothing is asked.
Gives-past :
    {W A B : Type 0} (m : Step W A) (k : A → Step W B) (Q : B → Type 0)
    → ((a : A) → Gives (k a) Q)
    → Gives (m >>= k) Q
Gives-past m k Q hk = Gives-then m k (λ a. Unit {0}) Q (λ w w' a e. tt) (λ a u. hk a)

Gives-pure : {W A : Type 0} (a : A) (Q : A → Type 0) → Q a → Gives (pure {W = W} a) Q
unfolding pure
Gives-pure a Q q w w' b e = subst Q (cc) q

-- A port that needs a privilege.
abbrev pub IsReserved : ℕ → Type 0
IsReserved port = (1 ≤ port) × (port < 1024)

module _ (h : Host) where
  open h.sys use {World}

  listen_on_port-Gives : Gives (listen_on_port h) (λ r. IsReserved r.1)
  unfolding listen_on_port
  listen_on_port-Gives =
      Gives-past _ _ (λ r. IsReserved r.1)
        λ fd.
          Gives-then _ _ IsReserved (λ r. IsReserved r.1)
            (λ w w' p e. find_port_bounds h fd p w w' e)
            λ port ok.
              Gives-past _ _ _
                λ u. Gives-past _ _ _ λ u'. Gives-pure (fd, port) (λ r. IsReserved r.1) ok

  set_up-Gives : Gives (set_up h) (λ s. IsReserved s.port)
  unfolding set_up
  set_up-Gives =
      let Q : Setup → Type 0 = λ s. IsReserved s.port in
      Gives-past _ _ Q λ user. Gives-past _ _ Q λ vm_id. Gives-past _ _ Q λ install_path.
        Gives-past _ _ Q λ u. Gives-past _ _ Q λ directory. Gives-past _ _ Q λ mounted.
          Gives-then _ _ (λ r. IsReserved r.1) Q listen_on_port-Gives
            λ r ok. Gives-past _ _ Q λ limited. Gives-past _ _ Q λ published.
              Gives-past _ _ Q λ display. Gives-past _ _ Q λ is_desktop.
                Gives-past _ _ Q λ log_path.
                  Gives-past _ _ Q λ notify_fd. Gives-past _ _ Q λ settings. Gives-pure _ Q ok

  client_settings-Gives : (s : Setup) → Gives (client_settings h s) (λ c. c.port ≡ s.port)
  unfolding client_settings
  client_settings-Gives s =
      let Q : ClientSettings → Type 0 = λ c. c.port ≡ s.port in
      Gives-past _ _ Q
        λ use_mstsc. Gives-past _ _ Q λ exe_path. Gives-past _ _ Q λ is_private. Gives-pure _ Q refl

  forked :
      (w w' : World) (child : ℕ) → or_throw h h.fork w ≡ next child w' → h.fork w ≡ (w', some child)
  unfolding or_throw
  forked w w' child e = elim (Option-cases (h.fork w).1) [
    | inl failed ↦ absurd (let stop = rw (or_throw, failed) at e in cc)
    | inr (p, given) ↦
        let went = rw (or_throw, given) at e in
        let is : p ≡ child = cc in
        let at : (h.fork w).0 ≡ w' = cc in
        ap (λ r. ((h.fork w).0, r)) (given ∙ ap some is) ∙ ap (λ v. (v, some child)) at
  ]

  -- A monitor that tracks one child more.
  abbrev with_child : ℕ → ProcessInfo → Monitor → Monitor
  with_child child info m = record m { children = put child (some info) m.children }

  -- One launch: the fork, and the monitor that tracks the child and what it tracked before.
  launched :
      (info : ProcessInfo) (m m' : Monitor) (w w' : World)
      → launch h info m w ≡ next m' w'
      → (child : ℕ) × (h.fork w ≡ (w', some child)) × (m' ≡ with_child child info m)
  unfolding launch launch_process pure
  launched info m m' w w' e =
      let (child, v, first, rest) = >>=-next (or_throw h h.fork) _ w w' m' e in
      let at : v ≡ w' = cc in
      let is : m' ≡ record m { children = put child (some info) m.children } = cc in
      (child, forked w v child first ∙ ap (λ v. (v, some child)) at, is)

  -- The four processes, each under a pid of its own or over one that was given before.
  abbrev pub Tracks : ℕ → ℕ → ℕ → ℕ → Setup → ClientSettings → Option (List ℕ) → Monitor
  Tracks p₁ p₂ p₃ p₄ s c log_path = record no_children {
    children = put p₄ (some (pulseaudio log_path)) (
        put p₃ (some dbus_daemon) (
          put p₂ (some (rdp_client c))
            (put p₁ (some (weston s.settings s.socket_fd s.port)) no_children.children)));
  }

  tracked :
      (s : Setup) (c : ClientSettings) (log_path : Option (List ℕ)) (p₁ p₂ p₃ p₄ : ℕ)
      (m₁ m₂ m₃ m : Monitor)
      → m₁ ≡ with_child p₁ (weston s.settings s.socket_fd s.port) no_children
      → m₂ ≡ with_child p₂ (rdp_client c) m₁
      → m₃ ≡ with_child p₃ dbus_daemon m₂
      → m ≡ with_child p₄ (pulseaudio log_path) m₃
      → m ≡ Tracks p₁ p₂ p₃ p₄ s c log_path
  tracked s c log_path p₁ p₂ p₃ p₄ m₁ m₂ m₃ m e₁ e₂ e₃ e₄ = rw (e₄, e₃, e₂, e₁) refl

  -- The id is in both command lines or environments, and the port can be read off it.
  abbrev pub SameService : List ℕ → Setup → ClientSettings → Type 0
  SameService id s c =
      (service_port id ≡ s.port)
      × Has (codes "WSLG_SERVICE_ID=" ++ id) (weston s.settings s.socket_fd s.port).env
      × Has (codes "/hvsocketserviceid:" ++ id) (rdp_client c).argv

  same_service :
      (s : Setup) (c : ClientSettings)
      → IsReserved s.port
      → c.port ≡ s.port
      → SameService (to_service_id s.port) s c
  unfolding weston rdp_client
  same_service s c (_, below) same = (
    service_port-to_service_id s.port (omega arith),
    inr (inl refl),
    inr (inr (inr (inr (inr (inr (inl (rw same refl))))))),
  )

  -- The run from `w` to `w'`, launch by launch.
  abbrev pub AllLaunched : World → World → Monitor → Type 0
  AllLaunched w w' m =
      (s : Setup) × (c : ClientSettings) × (p₁ : ℕ) × (p₂ : ℕ) × (p₃ : ℕ) × (p₄ : ℕ) × (v₁ : World)
      × (v₂ : World) × (v₃ : World) × (v₄ : World) × (v₅ : World) × (v₆ : World) × (set_up h w
          ≡ next s v₁)
      × (h.fork v₁ ≡ (v₂, some p₁))
      × (await_weston h s.notify_fd v₂ ≡ next tt v₃)
      × (client_settings h s v₃ ≡ next c v₄)
      × (h.fork v₄ ≡ (v₅, some p₂))
      × (h.fork v₅ ≡ (v₆, some p₃))
      × (h.fork v₆ ≡ (w', some p₄))
      × IsReserved s.port
      × SameService (to_service_id s.port) s c
      × (m ≡ Tracks p₁ p₂ p₃ p₄ s c (h.getenv (codes "WSLG_PULSEAUDIO_LOG_PATH") v₆))

  -- If main comes to the loop of the process monitor, then it has set up, forked for weston, waited
  -- for it, made the settings of the RDP client, and forked for the client, for the dbus daemon and
  -- for pulseaudio, in this order, and the monitor tracks these four and no more, each under the
  -- pid that its fork returned (a pid given again replaces the one before), with no exits noted.
  -- The environment of weston and the arguments of the client have the same service id, and its
  -- first eight digits are the port, from 1 to 1023.
  pub start_up-launches :
      (w w' : World) (m : Monitor) → start_up h w ≡ next m w' → AllLaunched w w' m
  unfolding start_up gets ◌>>=◌
  start_up-launches w w' m e =
      let (s, v₁, e₁, r₁) = >>=-next (set_up h) _ w w' m e in
      let (m₁, v₂, e₂, r₂) =
        >>=-next (launch h (weston s.settings s.socket_fd s.port) no_children) _ v₁ w' m r₁ in
      let (u, v₃, e₃, r₃) = >>=-next (await_weston h s.notify_fd) _ v₂ w' m r₂ in
      let (c, v₄, e₄, r₄) = >>=-next (client_settings h s) _ v₃ w' m r₃ in
      let (m₂, v₅, e₅, r₅) = >>=-next (launch h (rdp_client c) m₁) _ v₄ w' m r₄ in
      let (m₃, v₆, e₆, r₆) = >>=-next (launch h dbus_daemon m₂) _ v₅ w' m r₅ in
      let log_path = h.getenv (codes "WSLG_PULSEAUDIO_LOG_PATH") v₆ in
      let (p₁, f₁, t₁) = launched _ no_children m₁ v₁ v₂ e₂ in
      let (p₂, f₂, t₂) = launched _ m₁ m₂ v₄ v₅ e₅ in
      let (p₃, f₃, t₃) = launched _ m₂ m₃ v₅ v₆ e₆ in
      let (p₄, f₄, t₄) = launched (pulseaudio log_path) m₃ m v₆ w' r₆ in
      let reserved = set_up-Gives w v₁ s e₁ in
      (
        s,
        c,
        p₁,
        p₂,
        p₃,
        p₄,
        v₁,
        v₂,
        v₃,
        v₄,
        v₅,
        v₆,
        e₁,
        f₁,
        e₃,
        e₄,
        f₂,
        f₃,
        f₄,
        reserved,
        same_service s c reserved (client_settings-Gives s v₃ v₄ c e₄),
        tracked s c log_path p₁ p₂ p₃ p₄ m₁ m₂ m₃ m t₁ t₂ t₃ t₄,
      )
