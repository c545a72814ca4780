-- ===== src/Daemon/Startup/Preparation.antt =====
-- The first part of main of WSLGd/main.cpp: the environment, the run-time directories, the shared
-- memory and the socket.
use wslg.Common.{ℕ, List, [], ◌∷◌, Bool, true, false, not, Option, none, some, codes}
use wslg.Common.{◌==◌, if◌then◌else◌}
use wslg.Daemon.ProcessMonitor.{is_empty}
use wslg.Daemon.Startup.Host.{
  Host, Passwd, setenv, unsetenv, create_directories, chmod, chown, mount, listen,
}
use wslg.Daemon.Startup.Steps.{
  Step, ◌>>=◌, ◌>>◌, pure, fails_with, return_code, gets, change, when, or_throw, call_or_throw,
  try_call,
}
use wslg.Daemon.Startup.Helpers.{
  einval, in_share, get_env_bool, get_vm_id, setup_optional_env, find_port,
}
use wslg.Daemon.Startup.CommandLines.{or_text}

-- The variables that are set first: name, value, and whether a value that is there is replaced.
unfoldable pub variables : Passwd → List (List ℕ × List ℕ × Bool)
variables p =
    (codes "HOME", p.dir, true)
    ∷ (codes "USER", p.name, true)
    ∷ (codes "LOGNAME", p.name, true)
    ∷ (codes "SHELL", p.shell, true)
    ∷ (codes "PATH", codes "/usr/sbin:/usr/bin:/sbin:/bin:/usr/games", true)
    ∷ (codes "XDG_RUNTIME_DIR", in_share (codes "/runtime-dir"), false)
    ∷ (codes "WAYLAND_DISPLAY", codes "wayland-0", false)
    ∷ (codes "DISPLAY", codes ":0", false)
    ∷ (codes "XCURSOR_PATH", in_share (codes "/distro/usr/share/icons:/usr/share/icons"), false)
    ∷ (codes "XCURSOR_THEME", codes "whiteglass", false)
    ∷ (codes "XCURSOR_SIZE", codes "16", false)
    ∷ (codes "PULSE_SERVER", in_share (codes "/PulseServer"), false)
    ∷ (codes "PULSE_AUDIO_RDP_SINK", in_share (codes "/PulseAudioRDPSink"), false)
    ∷ (codes "PULSE_AUDIO_RDP_SOURCE", in_share (codes "/PulseAudioRDPSource"), false)
    ∷ (codes "WSL2_DEFAULT_APP_ICON", codes "/usr/share/icons/wsl/linux.png", false)
    ∷ (codes "WSL2_DEFAULT_APP_OVERLAY_ICON", codes "/usr/share/icons/wsl/linux.png", false)
    ∷ []

module _ (h : Host) where
  open h.sys use {World}

  unfoldable pub set_variables : List (List ℕ × List ℕ × Bool) → Step World (Unit {0})
  set_variables [] = pure tt
  set_variables ((name, value, override) ∷ rest) = do
    call_or_throw h (setenv name value override)
    set_variables rest

  -- The error log, which becomes stderr if it can be opened.
  unfoldable pub open_error_log : Step World (Unit {0})
  open_error_log = do
    path ← gets (h.getenv (codes "WSLG_ERR_LOG_PATH"))
    change (λ w.
        let (w', opened) = h.open_file (or_text path (in_share (codes "/stderr.log"))) w in
        elim opened [
          | none ↦ w'
          | some fd ↦ h.sys.close fd (if fd == 2 then w' else h.dup2 fd 2 w')
        ])

  -- The environment, up to the check for root and the query of the VM: the VM's id.
  unfoldable pub prepare : Passwd → Step World (List ℕ)
  unfolding variables set_variables open_error_log
  prepare user = do
    set_variables (variables user)
    setup_optional_env h
    log_kmsg ← get_env_bool h (codes "WSLG_LOG_KMSG") false
    when log_kmsg (call_or_throw h (chmod (codes "/dev/kmsg") 438))
    open_error_log
    uid ← gets h.geteuid
    when (not (uid == 0)) (return_code 1)
    vm_id ← get_vm_id h
    when (is_empty vm_id) (return_code 1)
    pure vm_id

  -- std::filesystem::create_directories, whose exception is an unknown one to CATCH_RETURN_ERRNO.
  unfoldable pub make_directory : List ℕ → Step World (Unit {0})
  make_directory path = do
    made ← try_call h (create_directories path)
    when (not made) (fails_with einval)

  -- The mounts of the versions and of the documentation, and the run-time directories.
  unfoldable pub make_directories : Passwd → Step World (Unit {0})
  unfolding make_directory
  make_directories user = do
    let versions = in_share (codes "/versions.txt")
    let documentation = in_share (codes "/doc")
    fd ← or_throw h (h.open_file versions)
    change (h.sys.close fd)
    call_or_throw h (mount (codes "/etc/versions.txt") versions [])
    make_directory documentation
    call_or_throw h (mount (codes "/usr/share/doc") documentation [])
    make_directory (codes "/var/run/dbus")
    call_or_throw h (chown (codes "/var/run/dbus") user.uid user.gid)
    call_or_throw h (chmod (codes "/var/run/dbus") 511)
    make_directory (in_share (codes "/.X11-unix"))
    call_or_throw h (chmod (in_share (codes "/.X11-unix")) 511)
    make_directory (in_share (codes "/runtime-dir"))
    call_or_throw h (chown (in_share (codes "/runtime-dir")) user.uid user.gid)
    call_or_throw h (chmod (in_share (codes "/runtime-dir")) 511)

  abbrev pub shared_memory_point : List ℕ
  shared_memory_point = codes "/mnt/shared_memory"

  -- Whether the shared memory is mounted.
  unfoldable pub mount_shared_memory : Option (List ℕ) → Step World Bool
  unfolding make_directory
  mount_shared_memory none = pure false
  mount_shared_memory (some directory) = do
    make_directory shared_memory_point
    mounted ← try_call h (mount (codes "wslg") shared_memory_point (codes "virtiofs"))
    when mounted (call_or_throw h (chmod shared_memory_point 511))
    pure mounted

  -- The socket for the RDP connection and its port.
  unfoldable pub listen_on_port : Step World (ℕ × ℕ)
  listen_on_port = do
    fd ← or_throw h h.vsock
    port ← find_port h fd
    when (port == 1024) (fails_with einval)
    call_or_throw h (listen fd)
    pure (fd, port)

  -- Whether the shared memory is still to be used: its mount point is in the environment.
  unfoldable pub publish_shared_memory : Bool → Step World Bool
  publish_shared_memory mounted = do
    let name = codes "WSL2_SHARED_MEMORY_MOUNT_POINT"
    published ← (if mounted then try_call h (setenv name shared_memory_point true) else pure false)
    when (not published) (call_or_throw h (unsetenv name))
    pure published
