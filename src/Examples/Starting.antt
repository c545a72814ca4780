-- ===== src/Examples/Starting.antt =====
-- The start of the daemon on a small system, whose world counts the processes.
use wslg.Common.{ℕ, ◌+◌, ◌<◌, ◌≡◌, ◌↔◌, ◌⊎◌, refl, [], true, false, none, some, codes}
use wslg.Common.{◌==◌, if◌then◌else◌}
use wslg.Client.FileDb.{str_eq, order}
use wslg.Daemon.FontMonitor.System.{System, end, join, ends_in_slash}
use wslg.Daemon.ProcessMonitor.{Monitor, launch_process}
use wslg.Daemon.Startup.Text.{trim_newlines}
use wslg.Daemon.Startup.Host.{Host, Passwd, Bound, bound, in_use}
use wslg.Daemon.Startup.Steps.{
  next, ◌>>=◌, pure, fails_with, return_code, gets, change, when, or_throw, call_or_throw, try_call,
}
use wslg.Daemon.Startup.Helpers.{
  get_env_bool, translate_windows_path, get_vm_id, setup_optional_env, setup_ready_notify,
  wait_for_ready_notify, find_port,
}
use wslg.Daemon.Startup.CommandLines.{WestonSettings, ClientSettings}
use wslg.Daemon.Startup.Preparation.{
  set_variables, prepare, make_directories, mount_shared_memory, listen_on_port,
  publish_shared_memory, open_error_log, variables, make_directory,
}
use wslg.Daemon.Startup.Main.{
  Setup, find_user, weston_settings, client_exe_path, launch, set_up, await_weston, client_settings,
  start_up,
}
use wslg.Daemon.Startup.Main.Port.{AllInUse, find_port-next}
use wslg.Daemon.Startup.Main.Launched.{AllLaunched, Tracks, start_up-launches}

abbrev no_fonts : System
no_fonts = record {
  World = ℕ;
  readable = λ p w. false;
  executable = λ p w. false;
  exists = λ p w. none;
  folders = λ p w. end;
  inotify_init = λ w. (w, none);
  dup = λ fd w. (w, none);
  add_watch = λ fd p w. (w, none);
  rm_watch = λ fd wd w. w;
  close = λ fd w. w;
  sleep = λ n w. w;
  fork = λ argv w. (w, none);
  setpgid = λ pid w. (w, true);
  waitpid = λ pid w. (w, none);
  pthread_create = λ w. (w, 0, 1);
  stop_thread = λ t w. w;
}

abbrev wslg_user : Passwd
wslg_user = record {
  dir = codes "/home/wslg";
  name = codes "wslg";
  shell = codes "/bin/sh";
  uid = 1000;
  gid = 1000;
}

-- The first port is in use, and only one variable is set, which turns the fonts off.
abbrev linux : Host
linux = record {
  sys = no_fonts;
  call = λ c w. (w, true);
  errno = λ w. 5;
  getpwnam = λ name w. some wslg_user;
  getenv = λ name w.
      if str_eq name (codes "WSLG_USE_USER_DISTRO_XFONTS") then some (codes "0") else none;
  geteuid = λ w. 0;
  popen = λ command w. (w, some (codes "/some/output", 0));
  ini_section = λ path section w. [];
  open_file = λ path w. (w, some 4);
  dup2 = λ from to w. w;
  vsock = λ w. (w, some 3);
  local_socket = λ w. (w, some 5);
  bind = λ fd port w. (w, if port == 1 then in_use else bound);
  accept = λ fd w. (w, some 6);
  fork = λ w. (w + 1, some (w + 100));
}

find_port-next_example : (find_port linux 3 0 ≡ next 2 0) ↔ (
    ((v : ℕ) × AllInUse linux 3 1 0 2 v × (2 < 1024) × (◌≡◌ {A = ℕ × Bound} (v, bound) (0, bound)))
    ⊎ (AllInUse linux 3 1 0 1024 0 × (◌≡◌ {A = ℕ} 2 1023)))
find_port-next_example = find_port-next linux 3 2 0 0

abbrev settings : WestonSettings
settings = record {
  wayland_display = [];
  is_desktop_shell = false;
  log_path = none;
  has_gdbserver = false;
  gdbserver_port = none;
  wlog_appender = none;
  wlog_file_name = none;
  wlog_file_path = none;
}

abbrev ready : Setup
ready = record {
  vm_id = codes "/some/output";
  install_path = none;
  shared_memory = none;
  socket_fd = 3;
  port = 2;
  settings = settings;
  notify_fd = 5;
}

abbrev client : ClientSettings
client = record {
  vm_id = codes "/some/output";
  port = 2;
  shared_memory = none;
  exe_path = codes "/mnt/c/Windows/System32/mstsc.exe";
  is_private_plugin = false;
  install_path = none;
  is_desktop_shell = false;
}

abbrev all_four : Monitor
all_four = Tracks linux 100 101 102 103 ready client none

start_up_runs : start_up linux 0 ≡ next all_four 4
unfolding start_up ◌>>=◌ pure fails_with return_code gets change when or_throw call_or_throw
    try_call get_env_bool translate_windows_path get_vm_id setup_optional_env setup_ready_notify
    wait_for_ready_notify find_port set_variables find_user prepare make_directories
    mount_shared_memory listen_on_port publish_shared_memory weston_settings client_exe_path launch
    set_up await_weston client_settings open_error_log variables make_directory str_eq order
    trim_newlines join ends_in_slash launch_process
start_up_runs = refl

start_up-launches_example : AllLaunched linux 0 4 all_four
start_up-launches_example = start_up-launches linux 0 4 all_four start_up_runs
