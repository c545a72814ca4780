-- ===== src/Client/Plugin/Connections.antt =====
-- The connections of the plugin over its life, each with a callback of its own, and the world that
-- they share with other processes.
use wslg.Common.{
  subst, ℕ, ◌≡◌, ◌⊎◌, refl, List, [], ◌∷◌, ◌++◌, Bool, true, false, none, some, All, Bool-cases,
  inl, inr,
}
use wslg.Client.Hresult.{succeeded, Hresult, s_ok, is_failed}
use wslg.Client.Windows.{Windows, Entries, file, folder, no_more, more}
use wslg.Client.Callback.{State, initial}
use wslg.Client.Callback.Receive.{on_data_received, on_close}
use wslg.Client.Callback.Confined.{AllConfined, AllNames}
use wslg.Client.Callback.Confined.Frame.{Frame, Inv}
use wslg.Client.Callback.Confined.OnReceive.{
  on_data_received-Inv, on_close-Inv, initial-Inv, Inv-world,
}
use wslg.Client.Plugin.{make_and_initialize, callback_create_instance, on_new_channel_connection}

-- The callbacks and the world at some moment: connections come, data arrives at one of them, one of
-- them is closed, and between these `Others` says what else may happen to the world.
pub data Session (win : Windows) (Others : win.World → win.World → Type 0) (w₀ : win.World)
    : List State → win.World → Type 0 where
  no_connections : Session win Others w₀ [] w₀
  others_act :
      (cs : List State) (w w' : win.World)
      → Session win Others w₀ cs w
      → Others w w'
      → Session win Others w₀ cs w'
  connection :
      (has_memory : Bool) (w : win.World) (hr : Hresult) (st : State) (cs : List State)
      → Session win Others w₀ cs w
      → on_new_channel_connection win has_memory w ≡ (hr, true, some st)
      → Session win Others w₀ (st ∷ cs) w
  data_received :
      (before after : List State) (buffer : List ℕ) (st : State) (w : win.World) (hr : Hresult)
      (st' : State) (w' : win.World)
      → Session win Others w₀ (before ++ (st ∷ after)) w
      → on_data_received win buffer st w ≡ some (hr, st', w')
      → Session win Others w₀ (before ++ (st' ∷ after)) w'
  connection_closed :
      (before after : List State) (st : State) (w : win.World)
      → Session win Others w₀ (before ++ (st ∷ after)) w
      → Session win Others w₀ (before ++ ((on_close win st w).0 ∷ after)) (on_close win st w).1

module _ (win : Windows) where
  -- A connection has a fresh callback and is accepted, or fails and is not accepted.
  on_new_channel_connection-cases :
      (has_memory : Bool) (w : win.World)
      → (on_new_channel_connection win has_memory w ≡ (s_ok, true, some initial))
        ⊎ ((hr : Hresult) × (is_failed hr ≡ true)
            × (on_new_channel_connection win has_memory w ≡ (hr, false, none)))
  unfolding on_new_channel_connection callback_create_instance
  on_new_channel_connection-cases has_memory w =
      let hr = make_and_initialize has_memory (win.make_file_db w) in
      elim (Bool-cases (is_failed hr)) [
        | inl failed ↦ inr (hr, failed, rw (on_new_channel_connection, failed) refl)
        | inr made ↦ inl (rw (on_new_channel_connection, made, succeeded hr made) refl)
      ]

  accepted_state :
      (has_memory : Bool) (w : win.World) (hr : Hresult) (st : State)
      → on_new_channel_connection win has_memory w ≡ (hr, true, some st)
      → initial ≡ st
  accepted_state has_memory w hr st e = elim (on_new_channel_connection-cases has_memory w) [
    | inl fresh ↦ cc
    | inr (hr', failed, refused) ↦ cc
  ]

module _ (win : Windows) (f : Frame win) where
  -- Of every connection.
  AllInv : List State → win.World → Type 0
  AllInv cs w = All (λ st. Inv win f st w) cs

  AllInv-world : (cs : List State) (w w' : win.World) → AllInv cs w → f.Holds w' → AllInv cs w'
  unfolding AllInv
  AllInv-world [] w w' h holds = tt
  AllInv-world (st ∷ cs) w w' h holds =
      (Inv-world win f st w w' h.0 holds, AllInv-world cs w w' h.1 holds)

  AllInv-at :
      (before after : List State) (st : State) (w : win.World)
      → AllInv (before ++ (st ∷ after)) w
      → Inv win f st w
  unfolding AllInv
  AllInv-at [] after st w h = h.0
  AllInv-at (x ∷ before) after st w h = AllInv-at before after st w h.1

  -- A step of one connection.
  AllInv-put :
      (before after : List State) (st st' : State) (w w' : win.World)
      → AllInv (before ++ (st ∷ after)) w
      → Inv win f st' w'
      → AllInv (before ++ (st' ∷ after)) w'
  unfolding AllInv
  AllInv-put [] after st st' w w' h new = (new, AllInv-world after w w' h.1 new.world)
  AllInv-put (x ∷ before) after st st' w w' h new =
      (Inv-world win f x w w' h.0 new.world, AllInv-put before after st st' w w' h.1 new)

  module _ (Others : win.World → win.World → Type 0) (w₀ : win.World)
      (others_keep : (v v' : win.World) → Others v v' → f.Holds v → f.Holds v')
      (holds : f.Holds w₀) where
    Session-Inv :
        (cs : List State) (w : win.World) → Session win Others w₀ cs w → f.Holds w × AllInv cs w
    unfolding AllInv
    Session-Inv _ _ no_connections = (holds, tt)
    Session-Inv _ _ (others_act cs v w s acts) =
        let (h, all) = Session-Inv cs v s in
        let h' = others_keep v w acts h in (h', AllInv-world cs v w all h')
    Session-Inv _ _ (connection has_memory w hr st cs s e) =
        let (h, all) = Session-Inv cs w s in
        (
          h,
          (
            subst (λ st. Inv win f st w) (accepted_state win has_memory w hr st e)
                (initial-Inv win f w h),
            all,
          ),
        )
    Session-Inv _ _ (data_received before after buffer st v hr st' w s e) =
        let (h, all) = Session-Inv (before ++ (st ∷ after)) v s in
        let new =
          on_data_received-Inv win f buffer st v hr st' w (AllInv-at before after st v all) e in
        (new.world, AllInv-put before after st st' v w all new)
    Session-Inv _ _ (connection_closed before after st v s) =
        let (h, all) = Session-Inv (before ++ (st ∷ after)) v s in
        let new = on_close-Inv win f st v (AllInv-at before after st v all) in
        (new.world, AllInv-put before after st _ v _ all new)

-- Nothing is asked of the world.
AllNames-any : (win : Windows) (es : Entries) → AllNames win (λ name. Unit {0}) es
AllNames-any win no_more = tt
AllNames-any win (more (file name) rest) = (tt, AllNames-any win rest)
AllNames-any win (more (folder name inside) rest) =
    (tt, AllNames-any win inside, AllNames-any win rest)

abbrev any_frame : (win : Windows) → Frame win
any_frame win = record {
  IsName = λ name. Unit {0};
  names = λ path w. AllNames-any win (win.list_directory path w);
  Holds = λ w. Unit {0};
  creates = λ path w own h. tt;
  saves = λ link w own h. tt;
  makes_icon = λ path w own h. tt;
  writes_icon = λ path bytes w own h. tt;
  deletes = λ path w own h. tt;
  removes = λ dir w own empty h. tt;
  sends = λ bytes w h. tt;
  shows = λ hwnd info w h. tt;
}

All-links :
    (win : Windows) (cs : List State) (w : win.World)
    → AllInv win (any_frame win) cs w
    → All (λ st. AllConfined win st.file_db) cs
unfolding AllInv
All-links win [] w h = tt
All-links win (st ∷ cs) w h = (h.0.links, All-links win cs w h.1)

-- Over the life of the plugin, whichever connections come, whatever data arrives at any of them in
-- any order and whatever Windows does, in the file database of every connection every link path is
-- the Start menu folder, \Programs\, a provider name without "..", quote or space, then a group
-- without ".." or quote if there is one, a description without ".." or quote, and .lnk; and every
-- icon path is empty, or an icon directory, then a group likewise, an application id without ".."
-- or quote, and .ico, where an icon directory is the folder for temporary files, or WSLDVCPlugin\
-- in it, or that with such a provider name.
pub Session-AllConfined :
    (win : Windows) (Others : win.World → win.World → Type 0) (w₀ : win.World) (cs : List State)
    (w : win.World)
    → Session win Others w₀ cs w
    → All (λ st. AllConfined win st.file_db) cs
Session-AllConfined win Others w₀ cs w s =
    All-links win cs w (Session-Inv win (any_frame win) Others w₀ (λ v v' acts h. tt) tt cs w s).1

-- A property Holds of the world is true at every moment of the life of the plugin if it was at the
-- start, whichever connections come and go and whatever data arrives at them, if other processes
-- keep it and so does each call that the plugin makes at its own paths: making a menu, icon or
-- group directory, saving a link or writing an icon below those, deleting such a link or icon, a
-- file listed below the menu directory or the icon of a link that is listed there, removing a
-- directory that is empty and is listed there or is the parent of such a file, the reply to the
-- server and the setting of task bar information, where listings show only names such that IsName.
pub Session-Holds :
    (win : Windows) (f : Frame win) (Others : win.World → win.World → Type 0) (w₀ : win.World)
    → ((v v' : win.World) → Others v v' → f.Holds v → f.Holds v')
    → f.Holds w₀
    → (cs : List State) (w : win.World) → Session win Others w₀ cs w
    → f.Holds w
Session-Holds win f Others w₀ others_keep holds cs w s =
    (Session-Inv win f Others w₀ others_keep holds cs w s).0
