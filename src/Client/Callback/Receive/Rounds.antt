-- ===== src/Client/Callback/Receive/Rounds.antt =====
-- OnDataReceived by its rounds, and a channel that is closed.
use wslg.Common.{ℕ, ◌≡◌, refl, ◌∙◌, List, [], ◌∷◌, Bool, true, false, Option, none, some, length}
use wslg.Common.{if◌then◌else◌}
use wslg.Client.FileDb.{FileEntry}
use wslg.Client.Hresult.{s_ok}
use wslg.Client.Windows.{Windows}
use wslg.Client.Callback.{State}
use wslg.Client.Callback.Steps.{next, return_error}
use wslg.Client.Callback.Sync.{on_sync_end}
use wslg.Client.Callback.Receive.{receive_one, receive_loop, on_data_received, on_close}

if_false : {A : Type 0} (test : Bool) (a b : A) → test ≡ false → (if test then a else b) ≡ b
if_false true a b h = absurd (cc)
if_false false a b h = refl

module _ (win : Windows) (c : ℕ) (cs : List ℕ) (st : State) (w : win.World) where
  -- What the first round makes of the buffer, the channel being open.
  pub on_data_received-round :
      st.channel_closed ≡ false
      → on_data_received win (c ∷ cs) st w ≡ elim (receive_one win (c ∷ cs) st w) [
        | next rest st' w' ↦ receive_loop win (length cs) rest st' w'
        | return_error hr st' w' ↦ some (hr, st', w')
      ]
  unfolding on_data_received receive_loop
  on_data_received-round opened =
      if_false st.channel_closed _ _ opened ∙ if_false st.channel_closed _ _ opened

-- OnClose leaves the world as it was, with no clean-up, empties the file database and ends
-- synchronisation; whatever data comes after that is ignored with S_OK.
pub on_close-ignores :
    (win : Windows) (st : State) (w w' : win.World) (buffer : List ℕ)
    → let (closed, after) = on_close win st w in
      (on_data_received win buffer closed w' ≡ some (s_ok, closed, w'))
      × (after ≡ w)
      × (closed.file_db ≡ [])
      × (closed.file_db_sync ≡ none)
unfolding on_close on_data_received on_sync_end
on_close-ignores win st w w' buffer = go st.file_db_sync refl
  where
    go :
        (sync : Option (List FileEntry))
        → st.file_db_sync ≡ sync
        → let (closed, after) = on_close win st w in
          (on_data_received win buffer closed w' ≡ some (s_ok, closed, w'))
          × (after ≡ w)
          × (closed.file_db ≡ [])
          × (closed.file_db_sync ≡ none)
    go none e = rw (on_close, on_sync_end, e) (refl, refl, refl, e)
    go (some db) e = rw (on_close, on_sync_end, e) (refl, refl, refl, refl)
