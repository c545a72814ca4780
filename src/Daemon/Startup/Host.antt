-- ===== src/Daemon/Startup/Host.antt =====
-- What the daemon uses of Linux and of other libraries at its start, besides what the font monitor
-- uses.
use wslg.Common.{ℕ, List, Bool, Option}
use wslg.Daemon.FontMonitor.System.{System}

-- The calls of which the daemon only looks whether they fail.
pub data Call : Type 0 where
  setenv : List ℕ → List ℕ → Bool → Call
  unsetenv unlink create_directories : List ℕ → Call
  chmod : List ℕ → ℕ → Call
  chown : List ℕ → ℕ → ℕ → Call
  mount : List ℕ → List ℕ → List ℕ → Call
  bind_path : ℕ → List ℕ → Call
  listen : ℕ → Call
  raise_file_limit : Call

pub record Passwd : Type 0 where
  pub dir : List ℕ
  pub name : List ℕ
  pub shell : List ℕ
  pub uid : ℕ
  pub gid : ℕ

-- bind to a port of a vsock: done, EADDRINUSE, or another error.
pub data Bound : Type 0 where
  bound in_use : Bound
  other_error : ℕ → Bound

pub record Host : Type 1 where
  pub sys : System
  -- A call, and whether it succeeds; errno after a call that does not.
  pub call : Call → sys.World → sys.World × Bool
  pub errno : sys.World → ℕ
  pub getpwnam : List ℕ → sys.World → Option Passwd
  pub getenv : List ℕ → sys.World → Option (List ℕ)
  pub geteuid : sys.World → ℕ
  -- popen and the reading of its output, with what pclose returns; none where popen fails.
  pub popen : List ℕ → sys.World → sys.World × Option (List ℕ × ℕ)
  -- The keys of a section of an INI file, with their values; none of them if WinPR is not there or the
  -- file cannot be read.
  pub ini_section : List ℕ → List ℕ → sys.World → List (List ℕ × Option (List ℕ))
  -- open with O_RDWR | O_CREAT, dup2, close
  pub open_file : List ℕ → sys.World → sys.World × Option ℕ
  pub dup2 : ℕ → ℕ → sys.World → sys.World
  -- socket of AF_VSOCK and of PF_LOCAL, bind to a vsock's port, accept
  pub vsock : sys.World → sys.World × Option ℕ
  pub local_socket : sys.World → sys.World × Option ℕ
  pub bind : ℕ → ℕ → sys.World → sys.World × Bound
  pub accept : ℕ → sys.World → sys.World × Option ℕ
  -- fork of LaunchProcess, in the parent
  pub fork : sys.World → sys.World × Option ℕ
