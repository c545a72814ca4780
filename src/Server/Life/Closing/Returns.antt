-- ===== src/Server/Life/Closing/Returns.antt =====
-- How long close takes, however it and the thread take turns.
use wslg.Common.{
  ℕ, ◌+◌, ◌≤◌, ◌<◌, ◌≡◌, refl, sym, ap, ◌∙◌, ◌⊎◌, inl, inr, true, some, Bool-cases, arith, subst,
}
use wslg.Server.Send.{
  Rc, channel_rc_ok, channel_rc_no_memory, channel_rc_bad_proc, error_invalid_data,
  error_internal_error, error_no_data, last_error,
}
use wslg.Server.Input.{Input}
use wslg.Server.Receive.{is_ok}
use wslg.Server.Life.Thread.{Held, handle}
use wslg.Server.Life.Closing.{
  ThreadAt, at_wait, at_messages, at_exit, CallerAt, before_close, at_join, after_close, Server,
  Step, wake_to_stop, wake_to_messages, wait_fails, messages_handled, messages_fail, stop_thread,
  no_thread, join_thread, join_fails, Run, here, further,
}

is_ok-zero : (rc : Rc) → is_ok rc ≡ true → rc ≡ channel_rc_ok
is_ok-zero channel_rc_ok e = refl
is_ok-zero channel_rc_no_memory e = cc
is_ok-zero channel_rc_bad_proc e = cc
is_ok-zero error_invalid_data e = cc
is_ok-zero error_internal_error e = cc
is_ok-zero error_no_data e = cc
is_ok-zero (last_error n) e = cc

module _ (i : Input) where
  -- The steps that are left to the thread, and to the caller.
  abbrev thread_left : ThreadAt i → ℕ
  thread_left at_wait = 1
  thread_left at_messages = 2
  thread_left (at_exit rc) = 0

  abbrev caller_left : CallerAt i → ℕ
  caller_left before_close = 2
  caller_left at_join = 1
  caller_left (after_close rc) = 0

  abbrev left : Server i → ℕ
  left s = thread_left s.thread_at + caller_left s.caller_at

  thread_left-le : (t : ThreadAt i) → thread_left t ≤ 2
  thread_left-le at_wait = omega arith
  thread_left-le at_messages = omega arith
  thread_left-le (at_exit rc) = omega arith

  -- Once the stop event is set, each step leaves one step less.
  stopping-Step :
      (s s' : Server i)
      → Step i s s'
      → s.is_stopping ≡ true
      → (s'.is_stopping ≡ true) × (left s' < left s)
  stopping-Step s s' (wake_to_stop at flag) stopping =
      let e = ap thread_left at in (stopping, omega arith)
  stopping-Step s s' (wake_to_messages at flag) stopping = absurd (cc)
  stopping-Step s s' (wait_fails error at) stopping =
      let e = ap thread_left at in (stopping, omega arith)
  stopping-Step s s' (messages_handled fuel others h at done) stopping =
      let e = ap thread_left at in (stopping, omega arith)
  stopping-Step s s' (messages_fail fuel others rc h at done failed) stopping =
      let e = ap thread_left at in (stopping, omega arith)
  stopping-Step s s' (stop_thread t at there) stopping =
      let e = ap caller_left at in (refl, omega arith)
  stopping-Step s s' (no_thread at missing) stopping =
      let e = ap caller_left at in (stopping, omega arith)
  stopping-Step s s' (join_thread rc at gone) stopping =
      let e = ap caller_left at in (stopping, omega arith)
  stopping-Step s s' (join_fails error at) stopping =
      let e = ap caller_left at in (stopping, omega arith)

  -- The call of close does not go back.
  abbrev IsInClose : CallerAt i → Type 0
  IsInClose before_close = ⊥
  IsInClose at_join = Unit {0}
  IsInClose (after_close rc) = Unit {0}

  IsInClose-Step : (s s' : Server i) → Step i s s' → IsInClose s.caller_at → IsInClose s'.caller_at
  IsInClose-Step s s' (wake_to_stop at flag) h = h
  IsInClose-Step s s' (wake_to_messages at flag) h = h
  IsInClose-Step s s' (wait_fails error at) h = h
  IsInClose-Step s s' (messages_handled fuel others held at done) h = h
  IsInClose-Step s s' (messages_fail fuel others rc held at done failed) h = h
  IsInClose-Step s s' (stop_thread t at there) h = tt
  IsInClose-Step s s' (no_thread at missing) h = tt
  IsInClose-Step s s' (join_thread rc at gone) h = tt
  IsInClose-Step s s' (join_fails error at) h = tt

  stopping-Run :
      (s : Server i) (n : ℕ) (s' : Server i)
      → Run i s n s'
      → s.is_stopping ≡ true
      → IsInClose s.caller_at
      → (s'.is_stopping ≡ true) × (n + left s' ≤ left s) × IsInClose s'.caller_at
  stopping-Run s n s' here stopping closing = (stopping, omega arith, closing)
  stopping-Run s n s' (further {n = m} {s' = mid} run step) stopping closing =
      let (flag, less, inside) = stopping-Run s m mid run stopping closing in
      let (flag', less') = stopping-Step mid s' step flag in
      (flag', omega arith, IsInClose-Step mid s' step inside)

  -- What the thread does with its messages returns.
  abbrev pub Responds : Server i → Type 0
  Responds s =
      (fuel : ℕ) × (others : i.World → i.World) × (rc : Rc) × (h : Held i) × (handle i fuel others
          s.held
        ≡ some (rc, h))

  at_join-Step :
      (s : Server i) (t : ThreadAt i)
      → s.thread_at ≡ t
      → s.caller_at ≡ at_join
      → s.is_stopping ≡ true
      → Responds s
      → (s' : Server i) × Step i s s'
  at_join-Step s at_wait e at stopping responds = (_, wake_to_stop e stopping)
  at_join-Step s (at_exit rc) e at stopping responds = (_, join_thread rc at e)
  at_join-Step s at_messages e at stopping (fuel, others, rc, h, done) =
      elim (Bool-cases (is_ok rc)) [
        | inl ok ↦
            (_, messages_handled fuel others h e (done ∙ ap (λ q. some (q, h)) (is_ok-zero rc ok)))
        | inr failed ↦ (_, messages_fail fuel others rc h e done failed)
      ]

  -- From the wait for the thread on, with the stop event set, a run of close against the thread has
  -- at most three more steps in any order; and as long as close has not returned, one of the two
  -- has a step, if the handling of messages returns.
  pub close-returns :
      (n : ℕ) (s s' : Server i)
      → Run i s n s'
      → s.is_stopping ≡ true
      → s.caller_at ≡ at_join
      → Responds s'
      → (n ≤ 3)
        × (((rc : Rc) × (s'.caller_at ≡ after_close rc)) ⊎ ((s'' : Server i) × Step i s' s''))
  close-returns n s s' run stopping at responds =
      let (flag, less, inside) = stopping-Run s n s' run stopping (subst IsInClose (sym at) tt) in
      let waits = ap caller_left at in
      let thread_steps = thread_left-le s.thread_at in
      (omega arith, go s'.caller_at refl inside flag)
    where
      go :
          (c : CallerAt i)
          → s'.caller_at ≡ c
          → IsInClose c
          → s'.is_stopping ≡ true
          → ((rc : Rc) × (s'.caller_at ≡ after_close rc)) ⊎ ((s'' : Server i) × Step i s' s'')
      go before_close e inside flag = absurd inside
      go at_join e inside flag = inr (at_join-Step s' s'.thread_at refl e flag responds)
      go (after_close rc) e inside flag = inl (rc, e)
