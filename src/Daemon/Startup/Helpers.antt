-- ===== src/Daemon/Startup/Helpers.antt =====
-- The functions of WSLGd/main.cpp that main calls, and its search for a port.
use wslg.Common.{
  ℕ, zero, suc, ◌+◌, List, [], ◌∷◌, ◌++◌, Bool, true, false, Option, none, some, codes,
}
use wslg.Common.{◌==◌, if◌then◌else◌}
use wslg.Client.FileDb.{str_eq}
use wslg.Daemon.Startup.Text.{trim_newlines}
use wslg.Daemon.Startup.Host.{Host, setenv, unlink, bind_path, listen, bound, in_use, other_error}
use wslg.Daemon.Startup.Steps.{
  Step, next, thrown, ◌>>=◌, ◌>>◌, pure, fails_with, gets, change, or_throw, call_or_throw,
  try_call,
}

abbrev pub einval : ℕ
einval = 22

-- SHARE_PATH
abbrev pub in_share : List ℕ → List ℕ
in_share rest = codes "/mnt/wslg" ++ rest

-- GetEnvBool, on what getenv gives
unfoldable pub env_bool : Option (List ℕ) → Bool → Bool
env_bool none default = default
env_bool (some s) default =
    if str_eq s (codes "true")
    then true
    else if str_eq s (codes "false")
    then false
    else if str_eq s (codes "1")
    then true
    else if str_eq s (codes "0")
    then false
    else default

module _ (h : Host) where
  open h.sys use {World}

  unfoldable pub get_env_bool : List ℕ → Bool → Step World Bool
  unfolding env_bool
  get_env_bool name default = gets (λ w. env_bool (h.getenv name w) default)

  -- The output of a command, where it can be run and pclose returns 0. The text is changed before
  -- pclose is called.
  unfoldable pub output_of : List ℕ → (List ℕ → List ℕ) → Step World (List ℕ)
  output_of command edit = do
    (text, status) ← or_throw h (h.popen command)
    if status == 0 then pure (edit text) else fails_with einval

  unfoldable pub translate_windows_path : List ℕ → Step World (List ℕ)
  unfolding output_of
  translate_windows_path path =
      output_of (codes "/usr/bin/wslpath -a \"" ++ (path ++ codes "\"")) trim_newlines

  unfoldable pub get_vm_id : Step World (List ℕ)
  unfolding output_of
  get_vm_id = output_of (codes "/usr/bin/wslinfo --vm-id -n") (λ text. text)

  -- The keys of the INI file, each with a value set in the environment.
  unfoldable pub set_all : List (List ℕ × Option (List ℕ)) → Step World (Unit {0})
  set_all [] = pure tt
  set_all ((name, none) ∷ rest) = set_all rest
  set_all ((name, some value) ∷ rest) = do try_call h (setenv name value true); set_all rest

  unfoldable pub config_file_path : Step World (List ℕ)
  unfolding translate_windows_path
  config_file_path = do
    profile ← gets (h.getenv (codes "WSL2_USER_PROFILE"))
    elim profile [
      | none ↦ pure (codes "/mnt/c/ProgramData/Microsoft/WSL/.wslgconfig")
      | some p ↦ do path ← translate_windows_path p; pure (path ++ codes "/.wslgconfig")
    ]

  unfoldable pub setup_optional_env : Step World (Unit {0})
  unfolding set_all config_file_path
  setup_optional_env = do
    path ← config_file_path
    keys ← gets (h.ini_section path (codes "system-distro-env"))
    set_all keys

  unfoldable pub setup_ready_notify : List ℕ → Step World ℕ
  setup_ready_notify socket_path = do
    try_call h (unlink socket_path)
    fd ← or_throw h h.local_socket
    call_or_throw h (bind_path fd socket_path)
    call_or_throw h (listen fd)
    pure fd

  unfoldable pub wait_for_ready_notify : ℕ → Step World (Unit {0})
  wait_for_ready_notify fd = do client ← or_throw h (h.accept fd); change (h.sys.close client)

  -- The loop over the ports: `rounds` of them are left from `port` on, and `last` is the one in the
  -- address.
  unfoldable pub find_port_from : ℕ → ℕ → ℕ → ℕ → Step World ℕ
  find_port_from fd zero port last w = next last w
  find_port_from fd (suc rounds) port last w =
      let (w', result) = h.bind fd port w in
      elim result [
        | bound ↦ next port w'
        | in_use ↦ find_port_from fd rounds (port + 1) port w'
        | other_error error ↦ thrown error w'
      ]

  -- From 1 to MAX_RESERVED_PORT - 1
  unfoldable pub find_port : ℕ → Step World ℕ
  unfolding find_port_from
  find_port fd = find_port_from fd 1023 1 0
