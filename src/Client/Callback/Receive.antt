-- ===== src/Client/Callback/Receive.antt =====
-- OnDataReceived and OnClose.
pub mod Leaves
pub mod Loop
pub mod Rounds
use wslg.Common.{ℕ, zero, suc, List, [], ◌∷◌, Bool, true, false, not, Option, none, some}
use wslg.Common.{if◌then◌else◌, ◌==◌, length}
use wslg.Protocol.Cmdid
use wslg.Client.Hresult.{Hresult, s_ok, e_fail, is_failed}
use wslg.Client.Pdu.{AppListHeader, empty_header}
use wslg.Client.Read.{read_app_list_header}
use wslg.Client.Windows.{Windows}
use wslg.Client.Callback.{State}
use wslg.Client.Callback.Steps.{Step, Result, next, return_error, ◌>>=◌, pure, get, fail}
use wslg.Client.Callback.Caps.{on_caps}
use wslg.Client.Callback.Update.{on_update_app_list}
use wslg.Client.Callback.Delete.{on_delete_app_list}
use wslg.Client.Callback.Associate.{on_associate_window_id}
use wslg.Client.Callback.Sync.{on_sync_end}

module _ (win : Windows) where
  open win use {World}

  unfoldable pub read_header : List ℕ → Step World (AppListHeader × List ℕ)
  read_header b st w =
      let (hr, header, rest) = read_app_list_header empty_header b in
      if is_failed hr then return_error hr st w else next (header, rest) st w

  unfoldable pub dispatch : ℕ → Bool → List ℕ → Step World (List ℕ)
  dispatch cmd_id hand_shake_complated b =
      if cmd_id == Cmdid.caps
      then on_caps win b
      else if not hand_shake_complated
      then fail e_fail
      else if cmd_id == Cmdid.update_applist
      then on_update_app_list win b
      else if cmd_id == Cmdid.delete_applist
      then on_delete_app_list win b
      else if cmd_id == Cmdid.delete_applist_provider
      then pure b
      else if cmd_id == Cmdid.associate_window_id
      then on_associate_window_id win b
      else fail e_fail

  -- One round of the loop: a header and its message.
  unfoldable pub receive_one : List ℕ → Step World (List ℕ)
  receive_one b = do
    (header, rest) ← read_header b
    st ← get
    dispatch header.cmd_id st.hand_shake_complated rest

  -- `while (len && !m_bChannelClosed)`, `fuel` rounds at most; `none` if they are not enough.
  unfoldable pub receive_loop : ℕ → List ℕ → State → World → Option (Hresult × State × World)
  receive_loop fuel [] st w = some (s_ok, st, w)
  receive_loop zero (c ∷ cs) st w = if st.channel_closed then some (s_ok, st, w) else none
  receive_loop (suc fuel) (c ∷ cs) st w =
      if st.channel_closed then some (s_ok, st, w) else (elim (receive_one (c ∷ cs) st w) [
        | next rest st' w' ↦ receive_loop fuel rest st' w'
        | return_error hr st' w' ↦ some (hr, st', w')
      ])

  -- Each round takes the 8 bytes of a header at least, so as many rounds as bytes are enough.
  unfoldable pub on_data_received : List ℕ → State → World → Option (Hresult × State × World)
  on_data_received buffer st w =
      if st.channel_closed then some (s_ok, st, w) else receive_loop (length buffer) buffer st w

  unfoldable pub on_close : State → World → State × World
  on_close st w =
      let (st', w') = on_sync_end win false (record st { channel_closed = true }) w in
      (record st' { file_db = [] }, w')
