-- ===== src/Daemon/ProcessMonitor/Children.antt =====
-- What a round does to the table of children.
use wslg.Common.{ℕ, ◌≤◌, ◌<◌, ◌≡◌, ◌≢◌, refl, ap, ◌∙◌, List, ◌∷◌, false, Option, none, some}
use wslg.Common.{==_refl, ne→==, lt→ltb, le→ltb, length}
use wslg.Client.FileDb.Comparison.{str_eq_refl}
use wslg.Daemon.ProcessMonitor.{
  ProcessInfo, Monitor, Round, put, put_crashes, launch_process, command, add_crash, run_round,
  is_empty,
}

-- A child that has a command line exits.
module _ (r : Round) (m : Monitor) (info : ProcessInfo) (arg : List ℕ) (args : List (List ℕ)) where
  stamps : List ℕ
  stamps = add_crash r.now (m.crashes (command info.argv))

  -- The table and the time stamps after the round.
  reaped : (ℕ → Option ProcessInfo) → Monitor
  reaped children = record {
    children = put r.pid none children;
    crashes = put_crashes (command info.argv) stamps m.crashes;
  }

  reaped_gone : (children : ℕ → Option ProcessInfo) → (reaped children).children r.pid ≡ none
  unfolding reaped put
  reaped_gone children = rw (==_refl r.pid)

  reaped_other :
      (children : ℕ → Option ProcessInfo) (p : ℕ)
      → p ≢ r.pid
      → (reaped children).children p ≡ children p
  unfolding reaped put
  reaped_other children p other = rw (ne→== p r.pid other)

  reaped_crashes :
      (children : ℕ → Option ProcessInfo) → (reaped children).crashes (command info.argv) ≡ stamps
  unfolding reaped put_crashes
  reaped_crashes children = rw (str_eq_refl (command info.argv))

  module _ (tracked : m.children r.pid ≡ some info) (line : info.argv ≡ arg ∷ args) where
    has_line : is_empty info.argv ≡ false
    has_line = ap is_empty line

    restarted :
        (child : ℕ)
        → length stamps ≤ 10
        → r.fork ≡ some child
        → run_round r m ≡ some (reaped (put child (some info) m.children))
    unfolding run_round launch_process stamps reaped
    restarted child few forked = rw (run_round, tracked, has_line, le→ltb _ _ few, forked)

    given_up : 10 < length stamps → run_round r m ≡ some (reaped m.children)
    unfolding run_round stamps reaped
    given_up many = rw (run_round, tracked, has_line, lt→ltb _ _ many)

    -- If a tracked child with a command line exits and its command has at most ten time stamps with
    -- this exit, then the round launches it again: the new child, if its pid is another, is tracked
    -- with the same command, the old one is not, and the exit is noted.
    pub run_round-restarts :
        (child : ℕ)
        → length (add_crash r.now (m.crashes (command info.argv))) ≤ 10
        → r.fork ≡ some child
        → child ≢ r.pid
        → (m' : Monitor) × (run_round r m ≡ some m')
          × (m'.children child ≡ some info)
          × (m'.children r.pid ≡ none)
          × (m'.crashes (command info.argv) ≡ add_crash r.now (m.crashes (command info.argv)))
    unfolding stamps put
    run_round-restarts child few forked new =
        let children = put child (some info) m.children in
        (
          reaped children,
          restarted child few forked,
          reaped_other children child new ∙ rw (==_refl child) refl,
          reaped_gone children,
          reaped_crashes children,
        )

    -- If a tracked child with a command line exits and its command has more than ten time stamps
    -- with this exit, then the round launches nothing: the child is no longer tracked, every other
    -- pid is as it was, and the exit is noted.
    pub run_round-gives_up :
        (p : ℕ)
        → 10 < length (add_crash r.now (m.crashes (command info.argv)))
        → p ≢ r.pid
        → (m' : Monitor) × (run_round r m ≡ some m')
          × (m'.children p ≡ m.children p)
          × (m'.children r.pid ≡ none)
          × (m'.crashes (command info.argv) ≡ add_crash r.now (m.crashes (command info.argv)))
    unfolding stamps
    run_round-gives_up p many other = (
      reaped m.children,
      given_up many,
      reaped_other m.children p other,
      reaped_gone m.children,
      reaped_crashes m.children,
    )

    -- If the child that is launched again gets the pid of the one that exited, then it is not
    -- tracked after the round, and every other pid is as it was.
    pub run_round-loses :
        (p : ℕ)
        → length (add_crash r.now (m.crashes (command info.argv))) ≤ 10
        → r.fork ≡ some r.pid
        → p ≢ r.pid
        → (m' : Monitor) × (run_round r m ≡ some m')
          × (m'.children r.pid ≡ none)
          × (m'.children p ≡ m.children p)
    unfolding stamps put
    run_round-loses p few forked other =
        let children = put r.pid (some info) m.children in
        (
          reaped children,
          restarted r.pid few forked,
          reaped_gone children,
          reaped_other children p other ∙ rw (ne→== p r.pid other) refl,
        )
