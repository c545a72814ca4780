-- ===== src/Examples/Daemons.antt =====
-- A process monitor with one child.
use wslg.Common.{ℕ, ◌≤◌, ◌<◌, ◌≡◌, refl, [], ◌∷◌, none, some, arith, length}
use wslg.Daemon.ProcessMonitor.{
  ProcessInfo, Monitor, Round, put, command, recent, add_crash, run_round,
}
use wslg.Daemon.ProcessMonitor.Policy.{
  stamps_after, over, tick, last_of, last_minute, stamps_after-last_minute,
}
use wslg.Daemon.ProcessMonitor.Children.{run_round-restarts, run_round-gives_up, run_round-loses}

abbrev weston : ProcessInfo
weston = record { argv = (119 ∷ []) ∷ []; capabilities = []; env = [] }

-- Child 5, whose command never exited before.
abbrev calm : Monitor
calm = record { children = put 5 (some weston) (λ p. none); crashes = λ cmd. [] }

-- Child 5, whose command exited ten times at once.
abbrev busy : Monitor
busy = record calm { crashes = λ cmd. 9 ∷ 9 ∷ 9 ∷ 9 ∷ 9 ∷ 9 ∷ 9 ∷ 9 ∷ 9 ∷ 9 ∷ [] }

abbrev exit : Round
exit = record { pid = 5; now = 10; fork = some 6 }

abbrev reuse : Round
reuse = record exit { fork = some 5 }

weston-tracked : calm.children 5 ≡ some weston
unfolding put
weston-tracked = refl

calm-few : length (add_crash 10 []) ≤ 10
unfolding add_crash recent
calm-few = omega arith

busy-many : 10 < length (add_crash 10 (9 ∷ 9 ∷ 9 ∷ 9 ∷ 9 ∷ 9 ∷ 9 ∷ 9 ∷ 9 ∷ 9 ∷ []))
unfolding add_crash recent
busy-many = omega arith

six_is_new : Path ℕ 6 5 → ⊥
six_is_new = omega arith

run_round-restarts_example :
    (m' : Monitor) × (run_round exit calm ≡ some m')
    × (m'.children 6 ≡ some weston)
    × (m'.children 5 ≡ none)
    × (m'.crashes (command weston.argv) ≡ add_crash 10 [])
run_round-restarts_example =
    run_round-restarts exit calm weston (119 ∷ []) [] weston-tracked refl 6 calm-few refl six_is_new

run_round-gives_up_example :
    (m' : Monitor) × (run_round exit busy ≡ some m')
    × (m'.children 6 ≡ busy.children 6)
    × (m'.children 5 ≡ none)
    × (m'.crashes (command weston.argv) ≡ add_crash 10 (9 ∷ 9 ∷ 9 ∷ 9 ∷ 9 ∷ 9 ∷ 9 ∷ 9 ∷ 9 ∷ 9 ∷ []))
run_round-gives_up_example =
    run_round-gives_up exit busy weston (119 ∷ []) [] weston-tracked refl 6 busy-many six_is_new

run_round-loses_example :
    (m' : Monitor) × (run_round reuse calm ≡ some m')
    × (m'.children 5 ≡ none)
    × (m'.children 6 ≡ calm.children 6)
run_round-loses_example =
    run_round-loses reuse calm weston (119 ∷ []) [] weston-tracked refl 6 calm-few refl six_is_new

stamps_after-last_minute_example :
    stamps_after [] (1 ∷ 50 ∷ 70 ∷ []) ≡ last_minute (last_of 1 (50 ∷ 70 ∷ [])) (1 ∷ 50 ∷ 70 ∷ [])
stamps_after-last_minute_example =
    stamps_after-last_minute 1 (50 ∷ 70 ∷ []) (tick (omega arith) (tick (omega arith) over))
