-- ===== src/Client/Plugin.antt =====
-- The COM objects of WSLDVCPlugin/dllmain.cpp, WSLDVCPlugin.cpp and WSLDVCListenerCallback.cpp: how the
-- RDP client gets the plugin, how the plugin listens for the channel, and the object that it gives to
-- a connection.
pub mod Connections
pub mod OtherFiles
use wslg.Common.{ℕ, List, [], ◌∷◌, Bool, true, not, Option, none, some}
use wslg.Common.{if◌then◌else◌}
use wslg.Client.Hresult.{Hresult, s_ok, e_outofmemory, failure, is_failed}
use wslg.Client.Windows.{Windows}
use wslg.Client.Callback.{State, initial}

abbrev pub e_nointerface : Hresult
e_nointerface = failure 0x8000_4002

-- MakeAndInitialize of a class whose RuntimeClassInitialize returns `hr`; the argument says whether
-- there is memory for the object.
unfoldable pub make_and_initialize : Bool → Hresult → Hresult
make_and_initialize has_memory hr = if has_memory then hr else e_outofmemory

-- WSLDVCPlugin_CreateInstance, WSLDVCListenerCallback_CreateInstance
unfoldable pub plugin_create_instance : Bool → Hresult
unfolding make_and_initialize
plugin_create_instance has_memory = make_and_initialize has_memory s_ok

unfoldable pub listener_callback_create_instance : Bool → Hresult
unfolding make_and_initialize
listener_callback_create_instance has_memory = make_and_initialize has_memory s_ok

-- What VirtualChannelGetInstance leaves: the number of objects, and whether there is a plugin in the
-- array.
pub record Instances : Type 0 where
  pub num_objs : ℕ
  pub has_plugin : Bool

-- VirtualChannelGetInstance; the arguments say whether the interface is IWTSPlugin, whether there is
-- an array for the objects, and whether there is memory.
unfoldable pub virtual_channel_get_instance : Bool → Bool → Bool → Instances → Hresult × Instances
unfolding plugin_create_instance
virtual_channel_get_instance is_plugin has_array has_memory before =
    if not is_plugin
    then (e_nointerface, before)
    else if not has_array
    then (s_ok, record before { num_objs = 1 })
    else (let hr = plugin_create_instance has_memory in
        if is_failed hr then (hr, before) else (hr, record { num_objs = 1; has_plugin = true }))

-- DVC_NAME, "Microsoft::Windows::RDS::RemoteApplicationList"
abbrev pub dvc_name : List ℕ
dvc_name =
    77 ∷ 105 ∷ 99 ∷ 114 ∷ 111 ∷ 115 ∷ 111 ∷ 102 ∷ 116 ∷ 58 ∷ 58 ∷ 87 ∷ 105 ∷ 110 ∷ 100 ∷ 111 ∷ 119
    ∷ 115 ∷ 58 ∷ 58 ∷ 82 ∷ 68 ∷ 83 ∷ 58 ∷ 58 ∷ 82 ∷ 101 ∷ 109 ∷ 111 ∷ 116 ∷ 101 ∷ 65 ∷ 112 ∷ 112
    ∷ 108 ∷ 105 ∷ 99 ∷ 97 ∷ 116 ∷ 105 ∷ 111 ∷ 110 ∷ 76 ∷ 105 ∷ 115 ∷ 116 ∷ []

-- IWTSVirtualChannelManager::CreateListener, with the name and the flags
pub record ChannelManager : Type 1 where
  pub World : Type 0
  pub create_listener : List ℕ → ℕ → World → World × Hresult

-- WSLDVCPlugin::Initialize
unfoldable pub initialize : (m : ChannelManager) → Bool → m.World → m.World × Hresult
unfolding listener_callback_create_instance
initialize m has_memory w =
    let hr = listener_callback_create_instance has_memory in
    if is_failed hr then (w, hr) else m.create_listener dvc_name 0 w

-- Connected, Disconnected, Terminated
abbrev pub connected : Hresult
connected = s_ok

abbrev pub disconnected : ℕ → Hresult
disconnected code = s_ok

abbrev pub terminated : Hresult
terminated = s_ok

module _ (win : Windows) where
  open win use {World}

  -- WSLDVCCallback_CreateInstance with its RuntimeClassInitialize: the object, if there is one.
  unfoldable pub callback_create_instance : Bool → World → Hresult × Option State
  unfolding make_and_initialize
  callback_create_instance has_memory w =
      let hr = make_and_initialize has_memory (win.make_file_db w) in
      (hr, if is_failed hr then none else some initial)

  -- OnNewChannelConnection: the result, whether *pbAccept is set, and the callback.
  unfoldable pub on_new_channel_connection : Bool → World → Hresult × Bool × Option State
  unfolding callback_create_instance
  on_new_channel_connection has_memory w =
      let (hr, callback) = callback_create_instance has_memory w in
      (hr, not (is_failed hr), callback)
