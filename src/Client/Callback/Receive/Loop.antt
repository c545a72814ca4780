-- ===== src/Client/Callback/Receive/Loop.antt =====
-- The loop of OnDataReceived ends: every round takes a header at least.
use wslg.Common.{ℕ, zero, suc, ◌+◌, ◌≤◌, ◌≡◌, refl, List, [], ◌∷◌, Bool, true, false}
use wslg.Common.{Option, some, arith, length, if◌then◌else◌}
use wslg.Client.Hresult.{Hresult, s_ok}
use wslg.Client.Windows.{Windows}
use wslg.Client.Callback.{State}
use wslg.Client.Callback.Steps.{Result, next, return_error}
use wslg.Client.Callback.Hoare.{Post, Hoare-then, Hoare-any, Hoare-fact}
use wslg.Client.Callback.Receive.{receive_one, receive_loop, on_data_received}
use wslg.Client.Callback.Receive.Leaves.{Any, Leaves, read_header_leaves, dispatch-Leaves}

module _ (win : Windows) where
  -- A round that goes on has taken a header.
  receive_one-Leaves : (b : List ℕ) (n : ℕ) → length b ≤ n + 8 → Leaves n (receive_one win b)
  unfolding receive_one Leaves
  receive_one-Leaves b n small = Hoare-then Any (read_header_leaves win b) λ a. Hoare-fact λ h.
      Hoare-then Any Hoare-any λ st. record {
        apply = λ st' w t.
            weaken _ _ h
              ((dispatch-Leaves win a.0.cmd_id st.hand_shake_complated a.1).apply st' w t);
      }
    where
      weaken :
          (m : ℕ) (r : Result win.World (List ℕ))
          → m + 8 ≤ length b
          → Post Any (λ rest st w. length rest ≤ m) r
          → Post Any (λ rest st w. length rest ≤ n) r
      weaken m (next rest st w) le h = omega arith
      weaken m (return_error hr st w) le h = tt

  Returns : Option (Hresult × State × win.World) → Type 0
  Returns o = (r : Hresult × State × win.World) × (o ≡ some r)

  Returns-if :
      (test : Bool) (r : Hresult × State × win.World) (o : Option (Hresult × State × win.World))
      → Returns o
      → Returns (if test then some r else o)
  unfolding Returns
  Returns-if true r o h = (r, refl)
  Returns-if false r o h = h

  receive_loop-Returns :
      (fuel : ℕ) (b : List ℕ) (st : State) (w : win.World)
      → length b ≤ fuel
      → Returns (receive_loop win fuel b st w)
  unfolding receive_loop Leaves Returns
  receive_loop-Returns fuel [] st w small = ((s_ok, st, w), refl)
  receive_loop-Returns zero (c ∷ cs) st w small = absurd (omega arith)
  receive_loop-Returns (suc fuel) (c ∷ cs) st w small = Returns-if st.channel_closed _ _ (
      round (receive_one win (c ∷ cs) st w)
        ((receive_one-Leaves (c ∷ cs) fuel (omega arith)).apply st w tt)
        (λ rest st' w' h. receive_loop-Returns fuel rest st' w' h))
    where
      round :
          (r : Result win.World (List ℕ))
          → Post Any (λ rest st w. length rest ≤ fuel) r
          → ((rest : List ℕ) (st' : State) (w' : win.World)
              → length rest ≤ fuel
              → Returns (receive_loop win fuel rest st' w'))
          → Returns (elim r [
            | next rest st w ↦ receive_loop win fuel rest st w
            | return_error hr st w ↦ some (hr, st, w)
          ])
      round (next rest st' w') h loop = loop rest st' w' h
      round (return_error hr st' w') h loop = ((hr, st', w'), refl)

  -- OnDataReceived returns on every buffer, in every state: the loop needs no more rounds than the
  -- buffer has bytes.
  pub on_data_received_ends :
      (buffer : List ℕ) (st : State) (w : win.World)
      → (r : Hresult × State × win.World) × (on_data_received win buffer st w ≡ some r)
  unfolding on_data_received Returns
  on_data_received_ends buffer st w =
      Returns-if st.channel_closed _ _
        (receive_loop-Returns (length buffer) buffer st w (omega arith))
