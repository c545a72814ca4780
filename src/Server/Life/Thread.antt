-- ===== src/Server/Life/Thread.antt =====
-- rdpapplist_server_thread_func: the wait for the stop event and the channel, and what is done then.
use wslg.Common.{subst, ℕ, ◌≡◌, ◌↔◌, refl, ap, List, [], ◌∷◌, ◌++◌, Bool, Option, none, some}
use wslg.Common.{if◌then◌else◌}
use wslg.Server.Send.{Rc, channel_rc_ok, last_error}
use wslg.Server.Input.{Input}
use wslg.Server.Receive.{is_ok, handle_messages}

module _ (i : Input) where
  open i use {RStream, World}

  -- What ends a wait of WaitForMultipleObjects. While the thread waits, the rest of the process
  -- changes the world.
  pub data Wait : Type 0 where
    wait_failed : ℕ → Wait
    stop_event : Wait
    channel_event : (World → World) → Wait

  -- What the thread has: the ready flag, the input stream, the world.
  pub record Held : Type 0 where
    pub is_ready : Bool
    pub input_stream : RStream
    pub world : World

  -- `waiting` when the list of waits is at its end; `looping` where the fuel of a receive loop is.
  pub data Outcome : Type 0 where
    waiting : Held → Outcome
    looping : Outcome
    exited : Rc → Held → Outcome

  -- One call of handle_messages, after a wait.
  unfoldable pub handle : ℕ → (World → World) → Held → Option (Rc × Held)
  handle fuel others h = elim (handle_messages i fuel h.is_ready h.input_stream (others h.world)) [
    | none ↦ none
    | some (rc, is_ready, s, w) ↦
        some (rc, record { is_ready = is_ready; input_stream = s; world = w })
  ]

  pub thread_func : ℕ → List Wait → Held → Outcome
  thread_func fuel [] h = waiting h
  thread_func fuel (wait_failed error ∷ waits) h = exited (last_error error) h
  thread_func fuel (stop_event ∷ waits) h = exited channel_rc_ok h
  thread_func fuel (channel_event others ∷ waits) h = elim (handle fuel others h) [
    | none ↦ looping
    | some (rc, h') ↦ if is_ok rc then thread_func fuel waits h' else exited rc h'
  ]

  module _ (fuel : ℕ) where
    -- The waits before the stop event, each for the channel and each handled with no error.
    pub data Serves : Held → List Wait → Held → Type 0 where
      idle : {h : Held} → Serves h [] h
      served :
          {h h' h'' : Held} {waits : List Wait} (others : World → World)
          → handle fuel others h ≡ some (channel_rc_ok, h')
          → Serves h' waits h''
          → Serves h (channel_event others ∷ waits) h''

    stops_after :
        {h h' : Held} {before : List Wait} (after : List Wait)
        → Serves h before h'
        → thread_func fuel (before ++ stop_event ∷ after) h ≡ exited channel_rc_ok h'
    unfolding thread_func
    stops_after after idle = refl
    stops_after after (served others e rest) = rw (thread_func, e) (stops_after after rest)

    abbrev StopsIn : Held → List Wait → Held → Type 0
    StopsIn h waits h' =
        (before : List Wait) × (after : List Wait) × (waits ≡ before ++ stop_event ∷ after)
        × Serves h before h'

    served_before :
        (waits : List Wait) (h h' : Held)
        → thread_func fuel waits h ≡ exited channel_rc_ok h'
        → StopsIn h waits h'
    unfolding thread_func
    served_before [] h h' e = cc
    served_before (wait_failed error ∷ waits) h h' e = cc
    served_before (stop_event ∷ waits) h h' e =
        let same : h ≡ h' = cc in ([], waits, refl, subst (λ x. Serves h [] x) same idle)
    served_before (channel_event others ∷ waits) h h' e =
        go (served_before waits) (handle fuel others h) refl e
      where
        go :
            ((next : Held) (last : Held)
              → thread_func fuel waits next ≡ exited channel_rc_ok last
              → StopsIn next waits last)
            → (handled : Option (Rc × Held)) → handle fuel others h ≡ handled
            → (elim handled [
              | none ↦ looping
              | some (rc, next) ↦ if is_ok rc then thread_func fuel waits next else exited rc next
            ])
              ≡ exited channel_rc_ok h'
            → StopsIn h (channel_event others ∷ waits) h'
        go rest none q e = cc
        go rest (some (channel_rc_ok, next)) q e =
            let (before, after, split, serves) = rest next h' e in
            (
              channel_event others ∷ before,
              after,
              ap (λ l. channel_event others ∷ l) split,
              served others q serves,
            )
        go rest (some (rc, next)) q e = cc

    -- The thread of the server exits with CHANNEL_RC_OK, and what it then has, exactly when its
    -- waits are some for the channel, each handled with no error one after the other up to what it
    -- has, and then the stop event; whatever other waits come after that.
    pub thread_func_stops :
        (waits : List Wait) (h h' : Held)
        → (thread_func fuel waits h ≡ exited channel_rc_ok h') ↔ (
            (before : List Wait) × (after : List Wait) × (waits ≡ before ++ stop_event ∷ after)
            × Serves h before h')
    thread_func_stops waits h h' = (
      served_before waits h h',
      λ (before, after, split, serves). rw split (stops_after after serves),
    )
