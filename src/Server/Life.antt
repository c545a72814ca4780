-- ===== src/Server/Life.antt =====
-- The life of a server context of rdpapplist/server/rdpapplist_main.c: context_new, open, the thread,
-- close, context_free. What the system gives back is an argument of each function, and the calls that
-- acquire or release a resource are listed in their order, without the buffers of
-- WTSQuerySessionInformationA and WTSVirtualChannelQuery.
pub mod Balance
pub mod Thread
pub mod Closing
use wslg.Common.{ℕ, List, [], ◌∷◌, ◌++◌, Bool, true, false, not, Option, none, some}
use wslg.Common.{if◌then◌else◌}
use wslg.Server.Send.{Rc, channel_rc_ok, error_internal_error, last_error}

pub data Resource : Type 0 where
  context_block private_block input_stream : Resource
  channel event thread : ℕ → Resource

-- `null_release` is a release of a null handle, which releases nothing.
pub data Call : Type 0 where
  acquire release : Resource → Call
  null_release : Call
  set_event : Option ℕ → Call

-- RdpAppListServerPrivate, but for the stream and the ready flag, which the thread owns.
pub record Private : Type 0 where
  pub channel_event : Option ℕ
  pub thread : Option ℕ
  pub stop_event : Option ℕ
  pub session_id : ℕ
  pub rdpapplist_channel : Option ℕ

-- What the system gives to open: the session, the channel or the error, the channel's event if the
-- query succeeds with the right size, the stop event, the thread.
pub record OpenAnswers : Type 0 where
  pub session : Option ℕ
  pub channel : Option ℕ
  pub channel_error : ℕ
  pub event_handle : Option ℕ
  pub stop_event : Option ℕ
  pub thread : Option ℕ

abbrev pub wts_current_session : ℕ
wts_current_session = 0xffff_ffff

abbrev pub release_handle : (ℕ → Resource) → Option ℕ → Call
release_handle kind none = null_release
release_handle kind (some h) = release (kind h)

abbrev pub is_some : {A : Type 0} → Option A → Bool
is_some none = false
is_some (some a) = true

-- The label out_close.
unfoldable pub out_close : Rc → Private → Rc × Private × List Call
out_close rc p = (
  rc,
  record p { rdpapplist_channel = none; channel_event = none },
  release_handle Resource.channel p.rdpapplist_channel ∷ [],
)

-- The stop event and the thread of open, once the channel is there.
unfoldable pub start_thread : OpenAnswers → Private → Private × List Call
start_thread a p = elim p.thread [
  | some t ↦ (p, [])
  | none ↦ elim a.thread [
    | some t ↦ (
      record p { stop_event = a.stop_event; thread = some t },
      (elim a.stop_event [ none ↦ [] | some e ↦ acquire (event e) ∷ [] ])
          ++ (acquire (Resource.thread t) ∷ []),
    )
    | none ↦ (
      record p { stop_event = none; thread = none },
      (elim a.stop_event [ none ↦ [] | some e ↦ acquire (event e) ∷ [] ])
          ++ (release_handle event a.stop_event ∷ []),
    )
  ]
]

-- rdpapplist_server_open
unfoldable pub open_server : OpenAnswers → Private → Rc × Private × List Call
unfolding out_close start_thread
open_server a p₀ =
    let p = record p₀ { session_id = wts_current_session } in
    elim a.session [
      | none ↦ out_close error_internal_error p
      | some session ↦
          let p₁ = record p { session_id = session; rdpapplist_channel = a.channel } in
          elim a.channel [
            | none ↦ out_close (last_error a.channel_error) p₁
            | some c ↦ elim a.event_handle [
              | none ↦
                  let (rc, p', calls) = out_close error_internal_error p₁ in
                  (rc, p', acquire (channel c) ∷ calls)
              | some e ↦
                  let (p', calls) = start_thread a (record p₁ { channel_event = some e }) in
                  (channel_rc_ok, p', acquire (channel c) ∷ calls)
            ]
          ]
    ]

-- The last part of close, once there is no thread.
unfoldable pub close_channel : Private → Private × List Call
close_channel p = elim p.rdpapplist_channel [
  | none ↦ (p, [])
  | some c ↦ (record p { rdpapplist_channel = none }, release (channel c) ∷ [])
]

-- rdpapplist_server_close; the argument is the error of WaitForSingleObject, if it fails.
unfoldable pub close_server : Option ℕ → Private → Rc × Private × List Call
unfolding close_channel
close_server wait p = elim p.thread [
  | none ↦ let (p', calls) = close_channel p in (channel_rc_ok, p', calls)
  | some t ↦ elim wait [
    | some error ↦ (last_error error, p, set_event p.stop_event ∷ [])
    | none ↦
        let (p', calls) = close_channel (record p { thread = none; stop_event = none }) in
        (
          channel_rc_ok,
          p',
          set_event p.stop_event
              ∷ release (Resource.thread t)
              ∷ release_handle event p.stop_event
              ∷ calls,
        )
  ]
]

-- calloc
abbrev pub zeroed : Private
zeroed = record {
  channel_event = none;
  thread = none;
  stop_event = none;
  session_id = 0;
  rdpapplist_channel = none;
}

-- rdpapplist_server_context_new; the arguments say whether the two blocks and the stream are given.
unfoldable pub context_new : Bool → Bool → Bool → Option Private × List Call
context_new context private stream =
    if not context
    then (none, [])
    else if not private
    then (none, acquire context_block ∷ release context_block ∷ [])
    else if not stream
    then (
      none,
      acquire context_block
          ∷ acquire private_block
          ∷ release private_block
          ∷ release context_block
          ∷ [],
    )
    else (some zeroed, acquire context_block ∷ acquire private_block ∷ acquire input_stream ∷ [])

-- rdpapplist_server_context_free; what close returns is not looked at.
unfoldable pub context_free : Option ℕ → Option Private → List Call
unfolding close_server
context_free wait none = []
context_free wait (some p) =
    let (rc, p', calls) = close_server wait p in
    calls ++ (release input_stream ∷ release private_block ∷ release context_block ∷ [])
