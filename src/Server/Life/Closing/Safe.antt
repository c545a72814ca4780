-- ===== src/Server/Life/Closing/Safe.antt =====
-- What holds of a close at every moment, however it and the thread take turns.
use wslg.Common.{ℕ, ◌≡◌, ◌≢◌, refl, sym, ap, ◌∙◌, inl, inr, Option, none, some, Option-cases, subst}
use wslg.Server.Send.{Rc, channel_rc_ok, last_error}
use wslg.Server.Input.{Input}
use wslg.Server.Life.{Private, close_channel, close_server}
use wslg.Server.Life.Thread.{Held}
use wslg.Server.Life.Closing.{
  CallerAt, before_close, at_join, after_close, Server, Step, wake_to_stop, wake_to_messages,
  wait_fails, messages_handled, messages_fail, stop_thread, no_thread, join_thread, join_fails,
  opened, Run, here, further, IsExited, Closes,
}

module _ (i : Input) (p : Private) where
  abbrev Inv : Server i → Type 0
  Inv s = Closes i p s s.caller_at

  -- A step of the thread: the caller has what it had, and a thread that is gone does not come back.
  thread_step :
      (s s' : Server i) (c : CallerAt i)
      → Closes i p s c
      → s'.priv ≡ s.priv
      → s'.is_stopping ≡ s.is_stopping
      → (IsExited i s.thread_at → IsExited i s'.thread_at)
      → Closes i p s' c
  thread_step s s' before_close h same flag gone = (same ∙ h.0, λ e. gone (h.1 e))
  thread_step s s' at_join h same flag gone = (same ∙ h.0, flag ∙ h.1, h.2)
  thread_step s s' (after_close rc) (wait, rc_is, priv_is, exits) same flag gone =
      (wait, rc_is, priv_is ∙ sym same, λ e. gone (exits e))

  -- close_server without a thread, with one that is gone, and where the wait fails.
  close_server-no_thread :
      p.thread ≡ none
      → ((close_server none p).0 ≡ channel_rc_ok) × ((close_server none p).1 ≡ (close_channel p).0)
  unfolding close_server
  close_server-no_thread missing = simp (close_server, missing) (refl, refl)

  close_server-joined :
      p.thread ≢ none
      → ((close_server none p).0 ≡ channel_rc_ok)
        × ((close_server none p).1
            ≡ (close_channel (record p { thread = none; stop_event = none })).0)
  unfolding close_server
  close_server-joined there = elim (Option-cases p.thread) [
    | inl missing ↦ absurd (there missing)
    | inr (t, e) ↦ rw (close_server, e) (refl, refl)
  ]

  close_server-failed :
      (error : ℕ)
      → p.thread ≢ none
      → ((close_server (some error) p).0 ≡ last_error error) × ((close_server (some error) p).1 ≡ p)
  unfolding close_server
  close_server-failed error there = elim (Option-cases p.thread) [
    | inl missing ↦ absurd (there missing)
    | inr (t, e) ↦ simp (close_server, e) (refl, refl)
  ]

  Inv-step : (s s' : Server i) → Step i s s' → Inv s → Inv s'
  Inv-step s s' (wake_to_stop at flag) h = thread_step s s' s.caller_at h refl refl (λ x. tt)
  Inv-step s s' (wake_to_messages at flag) h =
      thread_step s s' s.caller_at h refl refl (λ x. absurd (subst (IsExited i) at x))
  Inv-step s s' (wait_fails error at) h = thread_step s s' s.caller_at h refl refl (λ x. tt)
  Inv-step s s' (messages_handled fuel others held at done) h =
      thread_step s s' s.caller_at h refl refl (λ x. absurd (subst (IsExited i) at x))
  Inv-step s s' (messages_fail fuel others rc held at done failed) h =
      thread_step s s' s.caller_at h refl refl (λ x. tt)
  Inv-step s s' (stop_thread t at there) h =
      let (same, gone) = subst (Closes i p s) at h in (same, refl, λ e. cc)
  Inv-step s s' (no_thread at missing) h =
      let (same, gone) = subst (Closes i p s) at h in
      let no_thread_here : p.thread ≡ none = ap (λ q. q.thread) (sym same) ∙ missing in
      let e = close_server-no_thread no_thread_here in
      (none, e.0, e.1 ∙ ap (λ q. (close_channel q).0) (sym same), λ x. gone no_thread_here)
  Inv-step s s' (join_thread rc at gone) h =
      let (same, flag, there) = subst (Closes i p s) at h in
      let (rc_is, priv_is) = close_server-joined there in
      (
        none,
        rc_is,
        priv_is
            ∙ ap (λ q. (close_channel (record q { thread = none; stop_event = none })).0)
                (sym same),
        λ x. subst (IsExited i) (sym gone) tt,
      )
  Inv-step s s' (join_fails error at) h =
      let (same, flag, there) = subst (Closes i p s) at h in
      let (rc_is, priv_is) = close_server-failed error there in
      (
        some error,
        rc_is,
        priv_is ∙ sym same,
        λ x. elim x [ inl e ↦ cc | inr missing ↦ absurd (there missing) ],
      )

  Inv-opened : (h : Held i) → Inv (opened i p h)
  Inv-opened h = (refl, λ missing. rw missing tt)

  Inv-Run : (h : Held i) (n : ℕ) (s : Server i) → Run i (opened i p h) n s → Inv s
  Inv-Run h n s here = Inv-opened h
  Inv-Run h n s (further {n = n'} {s' = s'} run step) = Inv-step s' s step (Inv-Run h n' s' run)

  -- In every run of close against the thread of the server, whatever the order of their steps and
  -- however the waits end, the handles are those of open as long as the thread has not exited.
  pub running_thread-handles :
      (h : Held i) (n : ℕ) (s : Server i)
      → Run i (opened i p h) n s
      → (IsExited i s.thread_at → ⊥)
      → s.priv ≡ p
  running_thread-handles h n s run runs = go s.caller_at (Inv-Run h n s run)
    where
      go : (c : CallerAt i) → Closes i p s c → s.priv ≡ p
      go before_close c = c.0
      go at_join c = c.0
      go (after_close rc) (none, rc_is, priv_is, exits) = absurd (runs (exits (inl refl)))
      go (after_close rc) (some error, rc_is, priv_is, exits) = elim (Option-cases p.thread) [
        | inl missing ↦ absurd (runs (exits (inr missing)))
        | inr (t, there) ↦ sym priv_is ∙ (close_server-failed error (λ missing. cc)).1
      ]

  -- In every run of close against the thread, when close has returned, its result and the handles
  -- are those of rdpapplist_server_close for some end of the wait for the thread, and if that wait
  -- did not fail, the thread has exited.
  pub close_returned :
      (h : Held i) (n : ℕ) (s : Server i) (rc : Rc)
      → Run i (opened i p h) n s
      → s.caller_at ≡ after_close rc
      → (wait : Option ℕ) × ((close_server wait p).0 ≡ rc)
        × ((close_server wait p).1 ≡ s.priv)
        × (wait ≡ none → IsExited i s.thread_at)
  close_returned h n s rc run at =
      let (wait, rc_is, priv_is, exits) = subst (Closes i p s) at (Inv-Run h n s run) in
      (wait, rc_is, priv_is, λ e. exits (inl e))
