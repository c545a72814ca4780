-- ===== src/Daemon/Startup/CommandLines.antt =====
-- The processes that main of WSLGd/main.cpp launches: their arguments, capabilities and environment.
use wslg.Common.{ℕ, List, [], ◌∷◌, ◌++◌, Bool, true, false, ◌&&◌, Option, none, some, codes}
use wslg.Common.{if◌then◌else◌}
use wslg.Daemon.ProcessMonitor.{ProcessInfo}
use wslg.Daemon.Startup.Text.{is_numeric, to_service_id, to_string, basename}
use wslg.Daemon.Startup.Helpers.{in_share}

abbrev pub cap_setgid : ℕ
cap_setgid = 6

abbrev pub cap_setuid : ℕ
cap_setuid = 7

abbrev pub cap_sys_chroot : ℕ
cap_sys_chroot = 18

abbrev pub cap_sys_ptrace : ℕ
cap_sys_ptrace = 19

abbrev pub cap_sys_admin : ℕ
cap_sys_admin = 21

-- What the command line of weston depends on.
pub record WestonSettings : Type 0 where
  pub wayland_display : List ℕ
  pub is_desktop_shell : Bool
  pub log_path : Option (List ℕ)
  pub has_gdbserver : Bool
  pub gdbserver_port : Option (List ℕ)
  -- the variables WLOG_APPENDER, WLOG_FILEAPPENDER_OUTPUT_FILE_NAME and …_PATH
  pub wlog_appender : Option (List ℕ)
  pub wlog_file_name : Option (List ℕ)
  pub wlog_file_path : Option (List ℕ)

abbrev pub or_text : Option (List ℕ) → List ℕ → List ℕ
or_text none default = default
or_text (some text) default = text

abbrev pub empty_if_set : Option (List ℕ) → List ℕ → List ℕ
empty_if_set none default = default
empty_if_set (some text) default = []

unfoldable pub shell_name : Bool → List ℕ
shell_name is_desktop = if is_desktop then codes "desktop-shell" else codes "rdprail-shell"

unfoldable pub gdb_prefix : WestonSettings → List ℕ
gdb_prefix c =
    if c.has_gdbserver && is_numeric c.gdbserver_port
    then codes "/usr/bin/gdbserver" ++ (codes " :" ++ (or_text c.gdbserver_port [] ++ codes " "))
    else []

unfoldable pub logger_option : Bool → List ℕ
logger_option is_desktop =
    codes "--logger-scopes=log,rdp-backend"
    ++ (if is_desktop then [] else codes "," ++ codes "rdprail-shell")

unfoldable pub weston_args : WestonSettings → List ℕ
unfolding gdb_prefix shell_name logger_option
weston_args c =
    gdb_prefix c
    ++ (codes "/usr/bin/weston "
        ++ (codes "--backend=rdp-backend.so --modules=wslgd-notify.so --xwayland "
            ++ (codes "--socket="
                ++ (c.wayland_display
                    ++ (codes " --shell="
                        ++ (shell_name c.is_desktop_shell
                            ++ (codes ".so --log="
                                ++ (or_text c.log_path (in_share (codes "/weston.log"))
                                    ++ (codes " " ++ logger_option c.is_desktop_shell)))))))))

unfoldable pub weston_env : WestonSettings → ℕ → ℕ → List (List ℕ)
weston_env c socket_fd port =
    (codes "USE_VSOCK=" ++ to_string socket_fd)
    ∷ (codes "WSLG_SERVICE_ID=" ++ to_service_id port)
    ∷ (codes "WSLGD_NOTIFY_SOCKET=" ++ in_share (codes "/weston-notify.sock"))
    ∷ codes "WESTON_DISABLE_ABSTRACT_FD=1"
    ∷ or_text c.wlog_appender []
    ∷ codes "WLOG_APPENDER=file"
    ∷ empty_if_set c.wlog_file_name (codes "WLOG_FILEAPPENDER_OUTPUT_FILE_NAME=wlog.log")
    ∷ empty_if_set c.wlog_file_path (codes "WLOG_FILEAPPENDER_OUTPUT_FILE_PATH=" ++ in_share [])
    ∷ []

unfoldable pub weston : WestonSettings → ℕ → ℕ → ProcessInfo
unfolding weston_args weston_env
weston c socket_fd port = record {
  argv = codes "/usr/bin/sh" ∷ codes "-c" ∷ weston_args c ∷ [];
  capabilities = cap_sys_admin ∷ cap_sys_chroot ∷ cap_sys_ptrace ∷ [];
  env = weston_env c socket_fd port;
}

-- What the command line of the RDP client depends on.
pub record ClientSettings : Type 0 where
  pub vm_id : List ℕ
  pub port : ℕ
  -- WSL2_SHARED_MEMORY_OB_DIRECTORY, if the shared memory is mounted
  pub shared_memory : Option (List ℕ)
  pub exe_path : List ℕ
  pub is_private_plugin : Bool
  -- WSL2_INSTALL_PATH
  pub install_path : Option (List ℕ)
  pub is_desktop_shell : Bool

unfoldable pub shared_memory_option : Option (List ℕ) → List ℕ
shared_memory_option none = []
shared_memory_option (some path) = codes "/wslgsharedmemorypath:" ++ path

abbrev pub is_set : {A : Type 0} → Option A → Bool
is_set none = false
is_set (some a) = true

unfoldable pub plugin_option : ClientSettings → List ℕ
plugin_option c =
    if c.is_private_plugin
    then codes "/plugin:WSLDVC_PRIVATE"
    else if is_set c.install_path
    then codes "/plugin:WSLDVC_PACKAGE"
    else codes "/plugin:WSLDVC"

abbrev pub default_install_path : List ℕ
default_install_path = codes "C:\\ProgramData\\Microsoft\\WSL"

unfoldable pub rdp_file : ClientSettings → List ℕ
rdp_file c =
    or_text c.install_path default_install_path
    ++ (codes "\\" ++ (if c.is_desktop_shell then codes "wslg_desktop.rdp" else codes "wslg.rdp"))

unfoldable pub rdp_client : ClientSettings → ProcessInfo
unfolding shared_memory_option plugin_option rdp_file
rdp_client c = record {
  argv =
      codes "/init"
      ∷ c.exe_path
      ∷ basename c.exe_path
      ∷ codes "/wslg"
      ∷ codes "/silent"
      ∷ (codes "/v:" ++ c.vm_id)
      ∷ (codes "/hvsocketserviceid:" ++ to_service_id c.port)
      ∷ plugin_option c
      ∷ shared_memory_option c.shared_memory
      ∷ rdp_file c
      ∷ [];
  capabilities = [];
  env = [];
}

unfoldable pub dbus_daemon : ProcessInfo
dbus_daemon = record {
  argv =
      codes "/usr/bin/dbus-daemon"
      ∷ codes "--syslog"
      ∷ codes "--nofork"
      ∷ codes "--nopidfile"
      ∷ codes "--system"
      ∷ [];
  capabilities = cap_setgid ∷ cap_setuid ∷ [];
  env = [];
}

unfoldable pub pulseaudio_args : Option (List ℕ) → List ℕ
pulseaudio_args log_path =
    codes "/usr/bin/dbus-launch /usr/bin/pulseaudio "
    ++ (codes "--log-time=true --disallow-exit=true --exit-idle-time=-1 "
        ++ (codes "--load=\"module-rdp-sink sink_name=RDPSink\" "
            ++ (codes "--load=\"module-rdp-source source_name=RDPSource\" "
                ++ (codes "--load=\"module-native-protocol-unix socket="
                    ++ (in_share (codes "/PulseServer auth-anonymous=true\" ")
                        ++ (codes "--log-target="
                            ++ or_text log_path
                                (codes "newfile:" ++ in_share (codes "/pulseaudio.log"))))))))

unfoldable pub pulseaudio : Option (List ℕ) → ProcessInfo
unfolding pulseaudio_args
pulseaudio log_path = record {
  argv = codes "/usr/bin/sh" ∷ codes "-c" ∷ pulseaudio_args log_path ∷ [];
  capabilities = [];
  env = [];
}
