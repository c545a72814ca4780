-- ===== src/Examples/Lives.antt =====
-- Lives of a server context.
use wslg.Common.{◌≡◌, ◌↔◌, List, [], ◌∷◌, ◌++◌, true, false, none, some}
use wslg.Server.Send.{channel_rc_ok}
use wslg.Server.Life.{OpenAnswers}
use wslg.Server.Life.Balance.{life, Balanced, life-Balanced}
use wslg.Server.Life.Thread.{
  Wait, channel_event, stop_event, Held, exited, Serves, thread_func, thread_func_stops,
}
use wslg.Examples.Replies.{input, reply_stream}

-- The thread fails once, the channel once; then all goes well.
abbrev no_thread : OpenAnswers
no_thread = record {
  session = some 1;
  channel = some 10;
  channel_error = 0;
  event_handle = some 11;
  stop_event = some 12;
  thread = none;
}

abbrev no_channel : OpenAnswers
no_channel = record no_thread { channel = none; channel_error = 5 }

abbrev all_well : OpenAnswers
all_well = record no_thread { thread = some 13 }

life-Balanced_example : Balanced (life true true true (no_thread ∷ no_channel ∷ []) (some all_well))
life-Balanced_example = life-Balanced true true true (no_thread ∷ no_channel ∷ []) (some all_well)

abbrev waits : List (Wait input)
waits = channel_event (λ w. w) ∷ stop_event ∷ channel_event (λ w. w) ∷ []

abbrev at_first : Held input
at_first = record { is_ready = false; input_stream = reply_stream; world = [] }

abbrev at_last : Held input
at_last = record { is_ready = true; input_stream = reply_stream; world = [] }

thread_func_stops_example : (thread_func input 8 waits at_first ≡ exited channel_rc_ok at_last) ↔ (
    (before : List (Wait input)) × (after : List (Wait input)) × (waits
      ≡ before ++ stop_event ∷ after)
    × Serves input 8 at_first before at_last)
thread_func_stops_example = thread_func_stops input 8 waits at_first at_last
