-- ===== src/Examples/Closings.antt =====
-- A close while the thread has messages to handle, and one whose wait fails.
use wslg.Common.{ℕ, ◌≤◌, ◌≡◌, ◌⊎◌, refl, [], true, Option, none, some}
use wslg.Server.Send.{Rc, channel_rc_ok, last_error}
use wslg.Server.Input.{Input, got}
use wslg.Server.Receive.{read_messages, handle_messages}
use wslg.Server.Life.{Private, close_server}
use wslg.Server.Life.Thread.{Held, handle}
use wslg.Server.Life.Closing.{
  Server, Step, Run, here, further, IsExited, opened, at_wait, at_messages, at_join, after_close,
  wake_to_messages, stop_thread, messages_handled, join_fails,
}
use wslg.Server.Life.Closing.Safe.{running_thread-handles, close_returned}
use wslg.Server.Life.Closing.Returns.{Responds, close-returns}
use wslg.Examples.Replies.{input, reply_stream}

-- There is never data in the channel.
abbrev quiet : Input
quiet = record input { available = λ w. got 0 }

abbrev handles : Private
handles = record {
  channel_event = some 11;
  thread = some 13;
  stop_event = some 12;
  session_id = 1;
  rdpapplist_channel = some 10;
}

abbrev held : Held quiet
held = record { is_ready = true; input_stream = reply_stream; world = [] }

abbrev start : Server quiet
start = opened quiet handles held

-- The thread has messages when close sets the stop event.
abbrev stopping : Server quiet
stopping = record start { thread_at = at_messages; is_stopping = true; caller_at = at_join }

to_stopping : Run quiet start 2 stopping
to_stopping = further (further here (wake_to_messages refl refl)) (stop_thread 13 refl refl)

abbrev abandoned : Server quiet
abandoned = record stopping { caller_at = after_close (last_error 6) }

to_abandoned : Run quiet start 3 abandoned
to_abandoned = further to_stopping (join_fails 6 refl)

running_thread-handles_example : abandoned.priv ≡ handles
running_thread-handles_example =
    running_thread-handles quiet handles held 3 abandoned to_abandoned (λ gone. gone)

close_returned_example :
    (wait : Option ℕ) × ((close_server wait handles).0 ≡ last_error 6)
    × ((close_server wait handles).1 ≡ abandoned.priv)
    × (wait ≡ none → IsExited quiet abandoned.thread_at)
close_returned_example =
    close_returned quiet handles held 3 abandoned (last_error 6) to_abandoned refl

-- The thread goes back to its wait.
abbrev waiting : Server quiet
waiting = record stopping {
  held = record held { input_stream = reply_stream };
  thread_at = at_wait;
}

quiet-handled : handle quiet 0 (λ w. w) held ≡ some (channel_rc_ok, held)
unfolding handle handle_messages read_messages
quiet-handled = refl

waiting-Responds : Responds quiet waiting
waiting-Responds = (0, (λ w. w), channel_rc_ok, held, quiet-handled)

close-returns_example :
    (1 ≤ 3)
    × (((rc : Rc) × (waiting.caller_at ≡ after_close rc))
        ⊎ ((s : Server quiet) × Step quiet waiting s))
close-returns_example =
    close-returns quiet 1 stopping waiting
      (further here (messages_handled 0 (λ w. w) held refl quiet-handled)) refl refl
      waiting-Responds
