-- ===== src/Server/Life/Closing.antt =====
-- rdpapplist_server_close against the thread of the server, step by step: the two run at the same time,
-- and what is in the channel's queue and how the waits end is up to the system.
pub mod Safe
pub mod Returns
use wslg.Common.{
  suc, ℕ, ◌≡◌, ◌≢◌, refl, List, [], ◌∷◌, ◌++◌, Bool, true, false, Option, none, some, ◌⊎◌, inl, inr,
  arith,
}
use wslg.Server.Send.{Rc, channel_rc_ok, last_error}
use wslg.Server.Input.{Input}
use wslg.Server.Receive.{is_ok}
use wslg.Server.Life.{
  Private, Call, close_channel, close_server, release, set_event, release_handle, Resource,
}
use wslg.Server.Life.Thread.{Held, handle}

module _ (i : Input) where
  open i use {World}

  -- Where the thread is: in WaitForMultipleObjects, in handle_messages, or gone.
  pub data ThreadAt : Type 0 where
    at_wait at_messages : ThreadAt
    at_exit : Rc → ThreadAt

  -- Where the caller of close is: before it, in WaitForSingleObject after SetEvent, or after it.
  pub data CallerAt : Type 0 where
    before_close at_join : CallerAt
    after_close : Rc → CallerAt

  -- The handles, what the thread has, whether the stop event is set, and the two places.
  pub record Server : Type 0 where
    pub priv : Private
    pub held : Held i
    pub is_stopping : Bool
    pub thread_at : ThreadAt
    pub caller_at : CallerAt

  -- A step of one of the two. The stop event is the first of the events that the thread waits for, so
  -- it is taken if it is set, also where there is data in the channel.
  pub data Step (s : Server) : Server → Type 0 where
    wake_to_stop :
        s.thread_at ≡ at_wait
        → s.is_stopping ≡ true
        → Step s (record s { thread_at = at_exit channel_rc_ok })
    wake_to_messages :
        s.thread_at ≡ at_wait
        → s.is_stopping ≡ false
        → Step s (record s { thread_at = at_messages })
    wait_fails :
        (error : ℕ)
        → s.thread_at ≡ at_wait
        → Step s (record s { thread_at = at_exit (last_error error) })
    messages_handled :
        (fuel : ℕ) (others : World → World) (h : Held i)
        → s.thread_at ≡ at_messages
        → handle i fuel others s.held ≡ some (channel_rc_ok, h)
        → Step s (record s { held = h; thread_at = at_wait })
    messages_fail :
        (fuel : ℕ) (others : World → World) (rc : Rc) (h : Held i)
        → s.thread_at ≡ at_messages
        → handle i fuel others s.held ≡ some (rc, h)
        → is_ok rc ≡ false
        → Step s (record s { held = h; thread_at = at_exit rc })
    stop_thread :
        (t : ℕ)
        → s.caller_at ≡ before_close
        → s.priv.thread ≡ some t
        → Step s (record s { is_stopping = true; caller_at = at_join })
    no_thread :
        s.caller_at ≡ before_close
        → s.priv.thread ≡ none
        → Step s
            (record s { priv = (close_channel s.priv).0; caller_at = after_close channel_rc_ok })
    join_thread :
        (rc : Rc)
        → s.caller_at ≡ at_join
        → s.thread_at ≡ at_exit rc
        → Step s (record s {
          priv = (close_channel (record s.priv { thread = none; stop_event = none })).0;
          caller_at = after_close channel_rc_ok;
        })
    join_fails :
        (error : ℕ)
        → s.caller_at ≡ at_join
        → Step s (record s { caller_at = after_close (last_error error) })

  -- After open: the thread waits, if there is one.
  abbrev pub opened : Private → Held i → Server
  opened p h = record {
    priv = p;
    held = h;
    is_stopping = false;
    thread_at = elim p.thread [ none ↦ at_exit channel_rc_ok | some t ↦ at_wait ];
    caller_at = before_close;
  }

  -- `n` steps.
  pub data Run (s : Server) : ℕ → Server → Type 0 where
    here : Run s 0 s
    further : {n : ℕ} {s' s'' : Server} → Run s n s' → Step s' s'' → Run s (suc n) s''

  abbrev pub IsExited : ThreadAt → Type 0
  IsExited at_wait = ⊥
  IsExited at_messages = ⊥
  IsExited (at_exit rc) = Unit {0}

  -- What the caller of close has: the handles of open, or after close those of close_server for some
  -- end of the wait; and the thread is gone if the wait did not fail, or if there never was one.
  abbrev pub Closes : Private → Server → CallerAt → Type 0
  Closes p s before_close = (s.priv ≡ p) × (p.thread ≡ none → IsExited s.thread_at)
  Closes p s at_join = (s.priv ≡ p) × (s.is_stopping ≡ true) × (p.thread ≢ none)
  Closes p s (after_close rc) =
      (wait : Option ℕ) × ((close_server wait p).0 ≡ rc)
      × ((close_server wait p).1 ≡ s.priv)
      × ((wait ≡ none) ⊎ (p.thread ≡ none) → IsExited s.thread_at)
