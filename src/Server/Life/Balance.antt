-- ===== src/Server/Life/Balance.antt =====
-- Whatever fails while a server is opened, what was acquired is released.
use wslg.Common.{
  subst, ℕ, ◌+◌, ◌≡◌, refl, append-nil, append_assoc, List, [], ◌∷◌, ◌++◌, Bool, true, false,
  Option, none, some, arith,
}
use wslg.Server.Life.{
  Resource, context_block, private_block, input_stream, Call, acquire, release, null_release,
  set_event, Private, OpenAnswers, open_server, close_server, context_new, context_free, zeroed,
}

-- The acquired and the released resources, each with a weight of its own.
abbrev acquired : (Resource → ℕ) → List Call → ℕ
acquired weight [] = 0
acquired weight (acquire r ∷ calls) = weight r + acquired weight calls
acquired weight (release r ∷ calls) = acquired weight calls
acquired weight (null_release ∷ calls) = acquired weight calls
acquired weight (set_event e ∷ calls) = acquired weight calls

abbrev released : (Resource → ℕ) → List Call → ℕ
released weight [] = 0
released weight (acquire r ∷ calls) = released weight calls
released weight (release r ∷ calls) = weight r + released weight calls
released weight (null_release ∷ calls) = released weight calls
released weight (set_event e ∷ calls) = released weight calls

-- Each resource is released as often as it is acquired.
abbrev pub Balanced : List Call → Type 0
Balanced calls = (weight : Resource → ℕ) → acquired weight calls ≡ released weight calls

-- No channel, no thread and no stop event.
pub record IsClosed (p : Private) : Type 0 where
  pub no_channel : p.rdpapplist_channel ≡ none
  pub no_thread : p.thread ≡ none
  pub no_stop_event : p.stop_event ≡ none

acquired-append :
    (weight : Resource → ℕ) (xs ys : List Call)
    → acquired weight (xs ++ ys) ≡ acquired weight xs + acquired weight ys
acquired-append weight [] ys = omega arith
acquired-append weight (acquire r ∷ xs) ys = omega (arith, acquired-append weight xs ys)
acquired-append weight (release r ∷ xs) ys = acquired-append weight xs ys
acquired-append weight (null_release ∷ xs) ys = acquired-append weight xs ys
acquired-append weight (set_event e ∷ xs) ys = acquired-append weight xs ys

released-append :
    (weight : Resource → ℕ) (xs ys : List Call)
    → released weight (xs ++ ys) ≡ released weight xs + released weight ys
released-append weight [] ys = omega arith
released-append weight (release r ∷ xs) ys = omega (arith, released-append weight xs ys)
released-append weight (acquire r ∷ xs) ys = released-append weight xs ys
released-append weight (null_release ∷ xs) ys = released-append weight xs ys
released-append weight (set_event e ∷ xs) ys = released-append weight xs ys

-- open and, later, close.
unfoldable pub run_session : OpenAnswers → Private → Private × List Call
run_session a p =
    let (rc, p', opening) = open_server a p in
    let (rc', p'', closing) = close_server none p' in (p'', opening ++ closing)

unfoldable pub sessions : List OpenAnswers → Private → Private × List Call
sessions [] p = (p, [])
sessions (a ∷ more) p =
    let (p', calls) = run_session a p in
    let (p'', calls') = sessions more p' in (p'', calls ++ calls')

abbrev closed_state : Option ℕ → ℕ → Private
closed_state e id = record zeroed { channel_event = e; session_id = id }

IsClosed-eq : (p : Private) → IsClosed p → closed_state p.channel_event p.session_id ≡ p
IsClosed-eq p closed = ground arith

abbrev Ends : Private × List Call → Type 0
Ends (p, calls) = IsClosed p × Balanced calls

session_cases :
    (session channel event stop thread : Option ℕ) (error : ℕ) (e : Option ℕ) (id : ℕ)
    → Ends (
        run_session
          (record {
            session = session;
            channel = channel;
            channel_error = error;
            event_handle = event;
            stop_event = stop;
            thread = thread;
          })
          (closed_state e id))
unfolding run_session open_server close_server
session_cases none c v st t er e id = (ground arith, λ weight. omega arith)
session_cases (some s) none v st t er e id = (ground arith, λ weight. omega arith)
session_cases (some s) (some c) none st t er e id = (ground arith, λ weight. omega arith)
session_cases (some s) (some c) (some v) none none er e id = (ground arith, λ weight. omega arith)
session_cases (some s) (some c) (some v) none (some t) er e id =
    (ground arith, λ weight. omega arith)
session_cases (some s) (some c) (some v) (some st) none er e id =
    (ground arith, λ weight. omega arith)
session_cases (some s) (some c) (some v) (some st) (some t) er e id =
    (ground arith, λ weight. omega arith)

session-Ends : (a : OpenAnswers) (p : Private) → IsClosed p → Ends (run_session a p)
session-Ends a p closed =
    subst (λ q. Ends (run_session a q)) (IsClosed-eq p closed)
      (session_cases a.session a.channel a.event_handle a.stop_event a.thread a.channel_error
        p.channel_event p.session_id)

sessions-Ends : (more : List OpenAnswers) (p : Private) → IsClosed p → Ends (sessions more p)
unfolding sessions
sessions-Ends [] p closed = (closed, λ weight. refl)
sessions-Ends (a ∷ more) p closed =
    let (closed', balanced) = session-Ends a p closed in
    let (closed'', balanced') = sessions-Ends more (run_session a p).0 closed' in
    (
      closed'',
      λ weight. omega (
        arith,
        balanced weight,
        balanced' weight,
        acquired-append weight (run_session a p).1 (sessions more (run_session a p).0).1,
        released-append weight (run_session a p).1 (sessions more (run_session a p).0).1,
      ),
    )

-- A context, with what is done with it: some times open and close, and perhaps an open at the end,
-- which is left for context_free to close.
unfoldable pub use_context : List OpenAnswers → Option OpenAnswers → Private → Private × List Call
use_context more none p = sessions more p
use_context more (some a) p =
    let (p', calls) = sessions more p in
    let (rc, p'', opening) = open_server a p' in (p'', calls ++ opening)

unfoldable pub life : Bool → Bool → Bool → List OpenAnswers → Option OpenAnswers → List Call
life context private stream more last =
    let (made, calls) = context_new context private stream in
    elim made [
      | none ↦ calls ++ context_free none none
      | some p ↦
          let (p', calls') = use_context more last p in
          calls ++ (calls' ++ context_free none (some p'))
    ]

-- A server that is closed has nothing to close.
close_server-closed : (wait : Option ℕ) (p : Private) → IsClosed p → (close_server wait p).2 ≡ []
unfolding close_server
close_server-closed wait p closed = rw (closed.no_thread, closed.no_channel)

zeroed-IsClosed : IsClosed zeroed
zeroed-IsClosed = record { no_channel = refl; no_thread = refl; no_stop_event = refl }

-- From an empty context: everything that is done with it, and the part of context_free that closes.
used :
    (more : List OpenAnswers) (last : Option OpenAnswers)
    → Balanced
        ((use_context more last zeroed).1 ++ (close_server none (use_context more last zeroed).0).2)
unfolding use_context run_session
used more none weight =
    let (closed, balanced) = sessions-Ends more zeroed zeroed-IsClosed in
    rw (close_server-closed none (sessions more zeroed).0 closed, append-nil) (balanced weight)
used more (some a) weight =
    let (closed, balanced) = sessions-Ends more zeroed zeroed-IsClosed in
    let p = (sessions more zeroed).0 in
    let (closed', balanced') = session-Ends a p closed in
    rw append_assoc (
      omega (
        arith,
        balanced weight,
        balanced' weight,
        acquired-append weight (sessions more zeroed).1
            ((open_server a p).2 ++ (close_server none (open_server a p).1).2),
        released-append weight (sessions more zeroed).1
            ((open_server a p).2 ++ (close_server none (open_server a p).1).2),
      ))

-- Over the life of a server context, whatever fails while it is made and while it is opened,
-- however often, each resource (block, stream, channel, event, thread) is released as often as it
-- is acquired: with a close after each open but perhaps the last, and if the wait for the thread
-- succeeds.
pub life-Balanced :
    (context private stream : Bool) (more : List OpenAnswers) (last : Option OpenAnswers)
    → Balanced (life context private stream more last)
unfolding life context_new context_free
life-Balanced false private stream more last weight = refl
life-Balanced true false stream more last weight = omega arith
life-Balanced true true false more last weight = omega arith
life-Balanced true true true more last weight =
    let calls = (use_context more last zeroed).1 in
    let closing = (close_server none (use_context more last zeroed).0).2 in
    let frees = release input_stream ∷ release private_block ∷ release context_block ∷ [] in
    omega (
      arith,
      used more last weight,
      acquired-append weight calls closing,
      released-append weight calls closing,
      acquired-append weight closing frees,
      released-append weight closing frees,
      acquired-append weight calls (closing ++ frees),
      released-append weight calls (closing ++ frees),
    )
