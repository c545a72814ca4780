-- ===== src/Daemon/Startup/Main.antt =====
-- main of WSLGd/main.cpp, up to the loop of the process monitor. The end of the scopes that close
-- descriptors is left out, but where a descriptor is closed at once.
pub mod Port
pub mod Launched
use wslg.Common.{
  ℕ, ◌+◌, List, [], ◌∷◌, ◌++◌, Bool, true, false, not, ◌||◌, Option, none, some, codes,
}
use wslg.Common.{◌==◌, if◌then◌else◌}
use wslg.Daemon.FontMonitor.System.{System, join}
use wslg.Daemon.FontMonitor.Monitor.{fresh, start}
use wslg.Daemon.ProcessMonitor.{Monitor, ProcessInfo, Round, launch_process, run, is_empty}
use wslg.Daemon.Startup.Host.{
  Host, Call, Passwd, setenv, unsetenv, unlink, create_directories, chmod, chown, mount, listen,
  raise_file_limit,
}
use wslg.Daemon.Startup.Steps.{
  Step, Result, next, ◌>>=◌, ◌>>◌, pure, fails_with, return_code, gets, change, when, or_throw,
  call_or_throw, try_call,
}
use wslg.Daemon.Startup.Helpers.{
  einval, in_share, get_env_bool, translate_windows_path, get_vm_id, setup_optional_env,
  setup_ready_notify, wait_for_ready_notify, find_port,
}
use wslg.Daemon.Startup.CommandLines.{
  WestonSettings, weston, ClientSettings, rdp_client, dbus_daemon, pulseaudio, or_text,
  default_install_path,
}
use wslg.Daemon.Startup.Preparation.{
  variables, set_variables, open_error_log, prepare, make_directory, make_directories,
  shared_memory_point, mount_shared_memory, listen_on_port, publish_shared_memory,
}

abbrev pub enoent : ℕ
enoent = 2

-- What main knows before it launches weston.
pub record Setup : Type 0 where
  pub vm_id : List ℕ
  pub install_path : Option (List ℕ)
  pub shared_memory : Option (List ℕ)
  pub socket_fd : ℕ
  pub port : ℕ
  pub settings : WestonSettings
  pub notify_fd : ℕ

-- A process monitor that has launched nothing.
abbrev pub no_children : Monitor
no_children = record { children = λ p. none; crashes = λ c. [] }

module _ (h : Host) where
  open h.sys use {World}

  -- The settings of weston, with those that are known before the notify socket is made.
  unfoldable pub weston_settings : List ℕ → Bool → Option (List ℕ) → Step World WestonSettings
  weston_settings display is_desktop log_path = gets (λ w. record {
    wayland_display = display;
    is_desktop_shell = is_desktop;
    log_path = log_path;
    has_gdbserver = h.sys.executable (codes "/usr/bin/gdbserver") w;
    gdbserver_port = h.getenv (codes "WSLG_WESTON_GDBSERVER_PORT") w;
    wlog_appender = h.getenv (codes "WLOG_APPENDER") w;
    wlog_file_name = h.getenv (codes "WLOG_FILEAPPENDER_OUTPUT_FILE_NAME") w;
    wlog_file_path = h.getenv (codes "WLOG_FILEAPPENDER_OUTPUT_FILE_PATH") w;
  })

  -- msrdc.exe in the install path, if it is there and not ruled out, or else mstsc.exe.
  unfoldable pub client_exe_path : Bool → List ℕ → Step World (List ℕ)
  client_exe_path use_mstsc install_path = do
    let mstsc = join (codes "/mnt/c/Windows/System32") (codes "mstsc.exe")
    (if use_mstsc || is_empty install_path then pure mstsc else (do
      directory ← translate_windows_path h install_path
      let msrdc = join directory (codes "msrdc.exe")
      found ← gets (h.sys.executable msrdc)
      pure (if found then msrdc else mstsc)))

  -- LaunchProcess, in the parent.
  unfoldable pub launch : ProcessInfo → Monitor → Step World Monitor
  launch info m = do
    child ← or_throw h h.fork
    elim (launch_process (some child) info m) [ none ↦ fails_with einval | some m' ↦ pure m' ]

  unfoldable pub find_user : Step World Passwd
  find_user = do
    user ← gets (h.getpwnam (codes "wslg"))
    elim user [ none ↦ fails_with enoent | some u ↦ pure u ]

  -- main up to the launch of weston.
  unfoldable pub set_up : Step World Setup
  set_up = do
    user ← find_user
    vm_id ← prepare h user
    install_path ← gets (h.getenv (codes "WSL2_INSTALL_PATH"))
    make_directories h user
    directory ← gets (h.getenv (codes "WSL2_SHARED_MEMORY_OB_DIRECTORY"))
    mounted ← mount_shared_memory h directory
    (fd, port) ← listen_on_port h
    call_or_throw h raise_file_limit
    published ← publish_shared_memory h mounted
    display ← gets (h.getenv (codes "WAYLAND_DISPLAY"))
    is_desktop ← get_env_bool h (codes "WSL2_WESTON_SHELL_DESKTOP") false
    log_path ← gets (h.getenv (codes "WSLG_WESTON_LOG_PATH"))
    notify_fd ← setup_ready_notify h (in_share (codes "/weston-notify.sock"))
    settings ← weston_settings (or_text display []) is_desktop log_path
    pure (record {
      vm_id = vm_id;
      install_path = install_path;
      shared_memory = if published then directory else none;
      socket_fd = fd;
      port = port;
      settings = settings;
      notify_fd = notify_fd;
    })

  -- Between the launches of weston and of the RDP client: weston is waited for, and the fonts of the
  -- user's distribution are watched.
  unfoldable pub await_weston : ℕ → Step World (Unit {0})
  await_weston notify_fd = do
    wait_for_ready_notify h notify_fd
    try_call h (unlink (in_share (codes "/weston-notify.sock")))
    use_fonts ← get_env_bool h (codes "WSLG_USE_USER_DISTRO_XFONTS") true
    when use_fonts (change (λ w. (start h.sys fresh w).1))

  unfoldable pub client_settings : Setup → Step World ClientSettings
  client_settings s = do
    use_mstsc ← get_env_bool h (codes "WSLG_USE_MSTSC") false
    exe_path ← client_exe_path use_mstsc (or_text s.install_path default_install_path)
    is_private ← get_env_bool h (codes "WSLG_USE_WSLDVC_PRIVATE") false
    pure (record {
      vm_id = s.vm_id;
      port = s.port;
      shared_memory = s.shared_memory;
      exe_path = exe_path;
      is_private_plugin = is_private;
      install_path = s.install_path;
      is_desktop_shell = s.settings.is_desktop_shell;
    })

  -- main up to the loop of the process monitor.
  unfoldable pub start_up : Step World Monitor
  start_up = do
    s ← set_up
    m₁ ← launch (weston s.settings s.socket_fd s.port) no_children
    await_weston s.notify_fd
    c ← client_settings s
    m₂ ← launch (rdp_client c) m₁
    m₃ ← launch dbus_daemon m₂
    log_path ← gets (h.getenv (codes "WSLG_PULSEAUDIO_LOG_PATH"))
    launch (pulseaudio log_path) m₃

  -- main, with the rounds of ProcessMonitor::Run; none where Run throws.
  unfoldable pub main : List Round → Step World (Option Monitor)
  unfolding start_up
  main rounds = do m ← start_up; pure (run rounds m)
