-- ===== src/Client/Callback/Confined/OnReceive.antt =====
-- The invariant holds after any data, and after a close.
use wslg.Common.{
  ℕ, zero, suc, ◌≡◌, refl, subst, sym, List, [], ◌∷◌, Bool, true, false, Option, none, some,
  Bool-cases, inl, inr, if◌then◌else◌, length, ◌==◌,
}
use wslg.Protocol.Cmdid
use wslg.Client.Hresult.{Hresult, is_failed}
use wslg.Client.Pdu.{empty_header}
use wslg.Client.Read.{read_app_list_header}
use wslg.Client.Windows.{Windows}
use wslg.Client.FileDb.{FileEntry}
use wslg.Client.Callback.{State, initial}
use wslg.Client.Callback.Steps.{Step, Result, next, return_error, ◌>>=◌, pure, get, fail}
use wslg.Client.Callback.Hoare.{Hoare, Post, Hoare-then, Hoare-pure}
use wslg.Client.Callback.Hoare.Rules.{Hoare-weaken}
use wslg.Client.Callback.Receive.{
  read_header, dispatch, receive_one, receive_loop, on_data_received, on_close,
}
use wslg.Client.Callback.Sync.{on_sync_end}
use wslg.Client.Callback.Caps.{on_caps}
use wslg.Client.Callback.Confined.Frame.{Frame, Inv, Ready→Inv}
use wslg.Client.Callback.Confined.OnCaps.{on_caps_kept}
use wslg.Client.Callback.Confined.Paths.{Keeps}
use wslg.Client.Callback.Confined.OnUpdate.{on_update_app_list-Keeps}
use wslg.Client.Callback.Confined.OnDelete.{on_delete_app_list-Keeps, on_associate_window_id-Keeps}

module _ (win : Windows) (f : Frame win) where
  -- The invariant, and the flag of the hand shake.
  Knows : Bool → State → win.World → Type 0
  Knows ready st w = Inv win f st w × (ready ≡ st.hand_shake_complated)

  Stays : (State → win.World → Type 0) → Step win.World (List ℕ) → Type 0
  Stays P m = Hoare (Inv win f) P m (λ rest st w. Inv win f st w)

  Stays-if :
      (P : State → win.World → Type 0) (test : Bool) (m k : Step win.World (List ℕ))
      → Stays P m
      → Stays P k
      → Stays P (if test then m else k)
  Stays-if P true m k hm hk = hm
  Stays-if P false m k hm hk = hk

  Stays-fail : (ready : Bool) (hr : Hresult) → Stays (Knows ready) (fail {W = win.World} hr)
  unfolding Stays Knows fail
  Stays-fail ready hr = record { apply = λ st w h. h.0 }

  Stays-pure : (ready : Bool) (b : List ℕ) → Stays (Knows ready) (pure {W = win.World} b)
  unfolding Stays Knows
  Stays-pure ready b = Hoare-pure (Inv win f) b λ st w h. h.0

  Stays-caps : (ready : Bool) (b : List ℕ) → Stays (Knows ready) (on_caps win b)
  unfolding Stays Knows
  Stays-caps ready b = Hoare-weaken (λ st w h. h.0) (λ rest st w h. h) (on_caps_kept win f b)

  Keeps→Stays : (m : Step win.World (List ℕ)) → Keeps win f m → Stays (Knows true) m
  unfolding Keeps Stays Knows
  Keeps→Stays m h =
      Hoare-weaken
        (λ st w h. record {
          menu = h.0.menu (sym h.1);
          icon = h.0.icon (sym h.1);
          links = h.0.links;
          sync = h.0.sync;
          world = h.0.world;
        })
        (λ rest st w r. Ready→Inv win f st w r) h

  dispatch-Stays :
      (cmd_id : ℕ) (ready : Bool) (b : List ℕ) → Stays (Knows ready) (dispatch win cmd_id ready b)
  unfolding dispatch
  dispatch-Stays cmd_id false b =
      Stays-if _ (cmd_id == Cmdid.caps) _ _ (Stays-caps false b) (Stays-fail false _)
  dispatch-Stays cmd_id true b = Stays-if _ (cmd_id == Cmdid.caps) _ _ (Stays-caps true b) (
      Stays-if _ (cmd_id == Cmdid.update_applist) _ _
        (Keeps→Stays _ (on_update_app_list-Keeps win f b))
        (Stays-if _ (cmd_id == Cmdid.delete_applist) _ _
          (Keeps→Stays _ (on_delete_app_list-Keeps win f b))
          (Stays-if _ (cmd_id == Cmdid.delete_applist_provider) _ _ (Stays-pure true b) (
            Stays-if _ (cmd_id == Cmdid.associate_window_id) _ _
              (Keeps→Stays _ (on_associate_window_id-Keeps win f b)) (Stays-fail true _)))))

  read_header_kept :
      (b : List ℕ) → Hoare (Inv win f) (Inv win f) (read_header win b) (λ a st w. Inv win f st w)
  unfolding read_header
  read_header_kept b = record {
    apply = λ st w h. elim (Bool-cases (is_failed (read_app_list_header empty_header b).0)) [
      | inl e ↦ rw (read_header, e) h
      | inr e ↦ rw (read_header, e) h
    ];
  }

  receive_one_kept :
      (b : List ℕ) → Hoare (Inv win f) (Inv win f) (receive_one win b) (λ rest st w. Inv win f st w)
  unfolding receive_one Stays Knows ◌>>=◌ get
  receive_one_kept b = Hoare-then (Inv win f) (read_header_kept b) λ a. record {
    apply = λ st w h. (dispatch-Stays a.0.cmd_id st.hand_shake_complated a.1).apply st w (h, refl);
  }

  -- Where the loop returns, the invariant holds.
  EndsWell : Option (Hresult × State × win.World) → Type 0
  EndsWell none = Unit {0}
  EndsWell (some (hr, st, w)) = Inv win f st w

  EndsWell-if :
      (test : Bool) (r o : Option (Hresult × State × win.World))
      → EndsWell r
      → EndsWell o
      → EndsWell (if test then r else o)
  EndsWell-if true r o h k = h
  EndsWell-if false r o h k = k

  receive_loop-EndsWell :
      (fuel : ℕ) (b : List ℕ) (st : State) (w : win.World)
      → Inv win f st w
      → EndsWell (receive_loop win fuel b st w)
  unfolding receive_loop EndsWell
  receive_loop-EndsWell fuel [] st w h = h
  receive_loop-EndsWell zero (c ∷ cs) st w h = EndsWell-if st.channel_closed _ _ h tt
  receive_loop-EndsWell (suc fuel) (c ∷ cs) st w h = EndsWell-if st.channel_closed _ _ h (
      round (receive_one win (c ∷ cs) st w) ((receive_one_kept (c ∷ cs)).apply st w h)
        (λ rest st' w' h'. receive_loop-EndsWell fuel rest st' w' h'))
    where
      round :
          (r : Result win.World (List ℕ))
          → Post (Inv win f) (λ rest st w. Inv win f st w) r
          → ((rest : List ℕ) (st' : State) (w' : win.World)
              → Inv win f st' w'
              → EndsWell (receive_loop win fuel rest st' w'))
          → EndsWell (elim r [
            | next rest st w ↦ receive_loop win fuel rest st w
            | return_error hr st w ↦ some (hr, st, w)
          ])
      round (next rest st' w') h loop = loop rest st' w' h
      round (return_error hr st' w') h loop = h

  on_data_received-EndsWell :
      (buffer : List ℕ) (st : State) (w : win.World)
      → Inv win f st w
      → EndsWell (on_data_received win buffer st w)
  unfolding on_data_received EndsWell
  on_data_received-EndsWell buffer st w h =
      EndsWell-if st.channel_closed _ _ h (receive_loop-EndsWell (length buffer) buffer st w h)

  pub on_data_received-Inv :
      (buffer : List ℕ) (st : State) (w : win.World) (hr : Hresult) (st' : State) (w' : win.World)
      → Inv win f st w
      → on_data_received win buffer st w ≡ some (hr, st', w')
      → Inv win f st' w'
  unfolding EndsWell
  on_data_received-Inv buffer st w hr st' w' h e =
      subst EndsWell e (on_data_received-EndsWell buffer st w h)

  on_close_from-Inv :
      (st : State) (w : win.World)
      → (sync : Option (List FileEntry)) → st.file_db_sync ≡ sync
      → Inv win f st w
      → Inv win f (on_close win st w).0 (on_close win st w).1
  unfolding on_close on_sync_end
  on_close_from-Inv st w none e h =
      rw (on_close, on_sync_end, e)
        (record { menu = h.menu; icon = h.icon; links = tt; sync = h.sync; world = h.world })
  on_close_from-Inv st w (some db) e h =
      rw (on_close, on_sync_end, e)
        (record { menu = h.menu; icon = h.icon; links = tt; sync = tt; world = h.world })

  pub on_close-Inv :
      (st : State) (w : win.World)
      → Inv win f st w
      → Inv win f (on_close win st w).0 (on_close win st w).1
  on_close-Inv st w h = on_close_from-Inv st w st.file_db_sync refl h

  pub initial-Inv : (w : win.World) → f.Holds w → Inv win f initial w
  initial-Inv w h = record {
    menu = λ e. absurd (cc);
    icon = λ e. absurd (cc);
    links = tt;
    sync = tt;
    world = h;
  }

  -- What another connection, or another process, does to the world alone.
  pub Inv-world : (st : State) (w w' : win.World) → Inv win f st w → f.Holds w' → Inv win f st w'
  Inv-world st w w' h holds = record {
    menu = h.menu;
    icon = h.icon;
    links = h.links;
    sync = h.sync;
    world = holds;
  }
