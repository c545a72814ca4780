-- ===== src/Daemon/ProcessMonitor.antt =====
-- WSLGd/ProcessMonitor.cpp: the table of children and the loop that starts them again. A map is a
-- function from its keys; what a child does between fork and exec is not modelled.
pub mod Policy
pub mod Children
use wslg.Common.{ℕ, ◌+◌, List, [], ◌∷◌, ◌++◌, Bool, true, false, not, Option, none, some}
use wslg.Common.{ltb, ◌==◌, if◌then◌else◌, length}
use wslg.Client.FileDb.{str_eq}

pub record ProcessInfo : Type 0 where
  pub argv : List (List ℕ)
  pub capabilities : List ℕ
  pub env : List (List ℕ)

-- `crashes` is the map of Run; a missing key has no time stamps.
pub record Monitor : Type 0 where
  pub children : ℕ → Option ProcessInfo
  pub crashes : List ℕ → List ℕ

-- What the system gives in a round: the child that waitpid reaped, the time, and what fork returns
-- if it is called, none for an error.
pub record Round : Type 0 where
  pub pid : ℕ
  pub now : ℕ
  pub fork : Option ℕ

-- `m_children[pid] = info`, `m_children.erase(pid)`
unfoldable pub put : ℕ → Option ProcessInfo → (ℕ → Option ProcessInfo) → ℕ → Option ProcessInfo
put pid info children p = if p == pid then info else children p

pub put_crashes : List ℕ → List ℕ → (List ℕ → List ℕ) → List ℕ → List ℕ
put_crashes cmd stamps crashes c = if str_eq c cmd then stamps else crashes c

-- LaunchProcess in the parent; `none` where fork fails and it throws.
unfoldable pub launch_process : Option ℕ → ProcessInfo → Monitor → Option Monitor
launch_process none info m = none
launch_process (some child) info m = some (record m { children = put child (some info) m.children })

-- The command line: each argument and a space.
pub command : List (List ℕ) → List ℕ
command [] = []
command (arg ∷ rest) = arg ++ (32 ∷ command rest)

-- `remove_if(ts < now - 60)` and `emplace_back(now)`
unfoldable pub recent : ℕ → List ℕ → List ℕ
recent now [] = []
recent now (t ∷ ts) = let rest = recent now ts in if ltb (t + 60) now then rest else t ∷ rest

unfoldable pub add_crash : ℕ → List ℕ → List ℕ
add_crash now stamps = recent now stamps ++ (now ∷ [])

abbrev pub is_empty : {A : Type 0} → List A → Bool
is_empty [] = true
is_empty (x ∷ xs) = false

-- The body of the loop of Run; `none` where it throws, which ends Run.
pub run_round : Round → Monitor → Option Monitor
run_round r m = elim (m.children r.pid) [
  | none ↦ some m
  | some info ↦
      let cmd = command info.argv in
      let stamps = add_crash r.now (m.crashes cmd) in
      let noted = record m { crashes = put_crashes cmd stamps m.crashes } in
      let started : Option Monitor =
        if is_empty info.argv
        then some m
        else if ltb 10 (length stamps)
        then some noted
        else launch_process r.fork info noted in
      elim started [
        | none ↦ none
        | some m' ↦ some (record m' { children = put r.pid none m'.children })
      ]
]

-- Run for as many rounds as there are; `none` where it has ended with an error.
pub run : List Round → Monitor → Option Monitor
run [] m = some m
run (r ∷ rs) m = elim (run_round r m) [ none ↦ none | some m' ↦ run rs m' ]
