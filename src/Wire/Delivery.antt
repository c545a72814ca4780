-- ===== src/Wire/Delivery.antt =====
-- What the plugin does when a message of the server arrives.
use wslg.Common.{ℕ, suc, ◌+◌, ◌≡◌, ◌≢◌, refl, ap, ◌∙◌, List, [], ◌∷◌, ◌++◌, Bool, true, false}
use wslg.Common.{Option, some, arith, length, IsU32, ne→==, bytes_of_u32}
use wslg.Protocol.{header_size}
use wslg.Protocol.Cmdid
use wslg.Protocol.Field
use wslg.Server.Pdu.{DeleteApplistProviderPdu}
use wslg.Server.Send.Payload.{message, field_bytes, delete_applist_provider_payload}
use wslg.Client.Hresult.{Hresult, s_ok, e_fail}
use wslg.Client.Pdu.{empty_header}
use wslg.Client.Read.{read_app_list_header}
use wslg.Client.Reader.{read_uint32}
use wslg.Client.Windows.{Windows}
use wslg.Client.Callback.{State}
use wslg.Client.Callback.Steps.{Result, next, return_error, ◌>>=◌, pure, get, fail}
use wslg.Client.Callback.Receive.{
  read_header, dispatch, receive_one, receive_loop, on_data_received,
}
use wslg.Client.Callback.Receive.Rounds.{on_data_received-round}
use wslg.Wire.RoundTrip.{read_app_list_header-message}

-- What the loop makes of a round that is over.
abbrev pub after_round :
    (win : Windows) → ℕ → Result win.World (List ℕ) → Option (Hresult × State × win.World)
after_round win fuel (next rest st w) = receive_loop win fuel rest st w
after_round win fuel (return_error hr st w) = some (hr, st, w)

-- The rounds that are left after the one that took the header before `b`.
abbrev pub left_over : List ℕ → ℕ
left_over b = suc (suc (suc (suc (suc (suc (suc (length b)))))))

module _ (win : Windows) (cmd_id : ℕ) (payload : List ℕ) (st : State) (w : win.World) where
  -- The plugin takes the header off the message and goes by its command.
  receive_one-message :
      (rest : List ℕ)
      → IsU32 cmd_id
      → IsU32 (header_size + length payload)
      → receive_one win (message cmd_id payload ++ rest) st w
        ≡ dispatch win cmd_id st.hand_shake_complated (payload ++ rest) st w
  unfolding receive_one read_header ◌>>=◌ get
  receive_one-message rest hc hl =
      rw
        (
          receive_one,
          ◌>>=◌,
          read_header,
          read_app_list_header-message empty_header cmd_id payload rest hc hl,
        )
        refl

  pub on_data_received-message :
      (rest : List ℕ)
      → IsU32 cmd_id
      → IsU32 (header_size + length payload)
      → st.channel_closed ≡ false
      → on_data_received win (message cmd_id payload ++ rest) st w
        ≡ after_round win
            (left_over (payload ++ rest))
            (dispatch win cmd_id st.hand_shake_complated (payload ++ rest) st w)
  unfolding message
  on_data_received-message rest hc hl opened =
      on_data_received-round win _ _ st w opened
      ∙ ap (after_round win (left_over (payload ++ rest))) (receive_one-message rest hc hl)

  -- After the hand shake, a message whose handler takes all of its payload is all that happens.
  pub on_data_received-dispatched :
      (st' : State) (w' : win.World)
      → IsU32 cmd_id
      → IsU32 (header_size + length payload)
      → st.channel_closed ≡ false
      → st.hand_shake_complated ≡ true
      → dispatch win cmd_id true (payload ++ []) st w ≡ next [] st' w'
      → on_data_received win (message cmd_id payload ++ []) st w ≡ some (s_ok, st', w')
  unfolding receive_loop
  on_data_received-dispatched st' w' hc hl opened ready handled =
      on_data_received-message [] hc hl opened
      ∙ ap
          (λ (r : Bool).
            after_round win (left_over (payload ++ []))
              (dispatch win cmd_id r (payload ++ []) st w))
          ready
      ∙ ap (after_round win (left_over (payload ++ []))) handled

  -- Before the hand shake, a well-formed message of any command but caps makes an open plugin fail
  -- with E_FAIL, with no change to its state or to the world.
  pub no_hand_shake-rejects :
      (rest : List ℕ)
      → IsU32 cmd_id
      → IsU32 (header_size + length payload)
      → st.channel_closed ≡ false
      → st.hand_shake_complated ≡ false
      → cmd_id ≢ Cmdid.caps
      → on_data_received win (message cmd_id payload ++ rest) st w ≡ some (e_fail, st, w)
  unfolding dispatch fail
  no_hand_shake-rejects rest hc hl opened no_hand_shake other =
      on_data_received-message rest hc hl opened
      ∙ rw (dispatch, no_hand_shake, ne→== cmd_id Cmdid.caps other) refl

-- The flags and the name that are left in the buffer are no message.
provider_payload-rejected :
    (win : Windows) (name : List ℕ) (st : State) (w : win.World) (fuel : ℕ)
    → st.channel_closed ≡ false
    → st.hand_shake_complated ≡ true
    → receive_loop win (suc fuel) (bytes_of_u32 0x20 ++ name) st w ≡ some (e_fail, st, w)
unfolding receive_loop receive_one read_header read_app_list_header read_uint32 dispatch fail ◌>>=◌
    get
provider_payload-rejected win [] st w fuel opened ready = ground arith
provider_payload-rejected win (a ∷ []) st w fuel opened ready = ground arith
provider_payload-rejected win (a ∷ b ∷ []) st w fuel opened ready = ground arith
provider_payload-rejected win (a ∷ b ∷ c ∷ []) st w fuel opened ready = ground arith
provider_payload-rejected win (a ∷ b ∷ c ∷ d ∷ rest) st w fuel opened ready = ground arith

-- A delete-provider message of the server that carries its name makes an open plugin fail with
-- E_FAIL after the hand shake, with no change to its state or to the world: it leaves the payload
-- in the buffer and takes it for the next message.
pub delete_provider-rejected :
    (win : Windows) (d : DeleteApplistProviderPdu) (st : State) (w : win.World)
    → d.flags ≡ 0x20
    → IsU32 (header_size + length (delete_applist_provider_payload d))
    → st.channel_closed ≡ false
    → st.hand_shake_complated ≡ true
    → on_data_received win
        (message Cmdid.delete_applist_provider (delete_applist_provider_payload d) ++ [])
        st
        w
      ≡ some (e_fail, st, w)
unfolding dispatch pure delete_applist_provider_payload
delete_provider-rejected win d st w on small opened ready =
    let name = field_bytes d.flags Field.provider d.app_list_provider_name ++ [] in
    let payload = delete_applist_provider_payload d ++ [] in
    let left : receive_loop win (left_over payload) (bytes_of_u32 d.flags ++ name) st w
        ≡ some (e_fail, st, w) =
      rw on (provider_payload-rejected win _ st w _ opened ready) in
    on_data_received-message win Cmdid.delete_applist_provider (delete_applist_provider_payload d)
      st w [] (omega arith) small opened
    ∙ ap
        (λ (r : Bool).
          after_round win (left_over payload)
            (dispatch win Cmdid.delete_applist_provider r payload st w))
        ready
    ∙ left
