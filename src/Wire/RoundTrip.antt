-- ===== src/Wire/RoundTrip.antt =====
-- Each message reads back as it was sent, and the bytes that follow it are left.
use wslg.Common.{ℕ, ◌+◌, ◌≤◌, ◌≡◌, refl, List, ◌++◌}
use wslg.Common.{Bool, true, false, length, has_flag, has_all_flags, le→leb, IsU16, IsU32}
use wslg.Common.{bytes_of_u32}
use wslg.Protocol.{header_size}
use wslg.Protocol.Field
use wslg.Server.Pdu.{
  RailString, ServerCapsPdu, UpdateApplistPdu, DeleteApplistPdu, AssociateWindowIdPdu,
}
use wslg.Server.Send.Payload.{
  caps_payload, update_strings, delete_applist_payload, associate_window_id_payload, message,
}
use wslg.Client.Hresult.{s_ok}
use wslg.Client.Pdu.{
  empty_string, AppListHeader, ServerCaps, UpdateAppList, empty_update, DeleteAppList, empty_delete,
  AssociateWindowId, empty_associate,
}
use wslg.Client.Read.{
  read_app_list_header, read_app_list_server_caps, read_app_list_update, read_app_list_delete,
  read_associate_window_id,
}
use wslg.Wire.Reads.{
  Reads-then, Reads-uint16, Reads-uint32, Reads-check, Reads-field, Reads-at, Reads-run, received,
  stored, IsReadable,
}

-- An optional field that is on is readable.
abbrev pub FieldReadable : ℕ → ℕ → Bool → RailString → Type 0
FieldReadable flags field required x = has_flag flags field ≡ true → IsReadable required x

-- Of a message on the wire the client reads the header, with the command and the length of header
-- and payload, and is left with the payload and what follows.
pub read_app_list_header-message :
    (h : AppListHeader) (cmd_id : ℕ) (payload rest : List ℕ)
    → IsU32 cmd_id
    → IsU32 (header_size + length payload)
    → read_app_list_header h (message cmd_id payload ++ rest)
      ≡ (s_ok, record { cmd_id = cmd_id; len = header_size + length payload }, payload ++ rest)
unfolding read_app_list_header message
read_app_list_header-message h cmd_id payload rest hc hl =
    Reads-run
      (Reads-then (Reads-uint32 (λ v h. record h { cmd_id = v }) h cmd_id hc)
        (Reads-uint32 (λ v h. record h { len = v }) _ _ hl))
      (payload ++ rest)

unfoldable pub update_received : UpdateApplistPdu → UpdateAppList
update_received u = record {
  flags = u.flags;
  app_id = received u.flags Field.id empty_string u.app_id;
  app_group = received u.flags Field.group empty_string u.app_group;
  app_exec_path = received u.flags Field.execpath empty_string u.app_exec_path;
  app_working_dir = received u.flags Field.workingdir empty_string u.app_working_dir;
  app_desc = received u.flags Field.desc empty_string u.app_desc;
}

pub record UpdateReadable (u : UpdateApplistPdu) : Type 0 where
  pub flags_u32 : IsU32 u.flags
  pub required_flags : has_all_flags u.flags (Field.id + Field.execpath + Field.desc) ≡ true
  pub id_readable : FieldReadable u.flags Field.id true u.app_id
  pub group_readable : FieldReadable u.flags Field.group false u.app_group
  pub execpath_readable : FieldReadable u.flags Field.execpath true u.app_exec_path
  pub workingdir_readable : FieldReadable u.flags Field.workingdir false u.app_working_dir
  pub desc_readable : FieldReadable u.flags Field.desc true u.app_desc

-- The client reads the flags and strings of an update message back as the server sent them, into a
-- zeroed struct, and leaves the bytes that follow, if the flags hold the three that are required
-- and each string that is on has at most 510 bytes and is not empty where it may not be.
pub read_app_list_update-round_trip :
    (u : UpdateApplistPdu) (rest : List ℕ)
    → UpdateReadable u
    → read_app_list_update empty_update (bytes_of_u32 u.flags ++ (update_strings u ++ rest))
      ≡ (s_ok, update_received u, rest)
unfolding read_app_list_update update_strings update_received
read_app_list_update-round_trip u rest h =
    Reads-run
      (Reads-then (Reads-uint32 (λ v u. record u { flags = v }) empty_update u.flags h.flags_u32) (
        Reads-then (Reads-check (λ u. u.flags) _ _ h.required_flags) (
          Reads-then
            (Reads-field u.flags Field.id (λ u. u.flags) (λ u. u.app_id)
              (λ s u. record u { app_id = s }) true _ u.app_id refl refl h.id_readable)
            (Reads-then
              (Reads-field u.flags Field.group (λ u. u.flags) (λ u. u.app_group)
                (λ s u. record u { app_group = s }) false _ u.app_group refl refl h.group_readable)
              (Reads-then
                (Reads-field u.flags Field.execpath (λ u. u.flags) (λ u. u.app_exec_path)
                  (λ s u. record u { app_exec_path = s }) true _ u.app_exec_path refl refl
                  h.execpath_readable)
                (Reads-then
                  (Reads-field u.flags Field.workingdir (λ u. u.flags) (λ u. u.app_working_dir)
                    (λ s u. record u { app_working_dir = s }) false _ u.app_working_dir refl refl
                    h.workingdir_readable)
                  (Reads-field u.flags Field.desc (λ u. u.flags) (λ u. u.app_desc)
                    (λ s u. record u { app_desc = s }) true _ u.app_desc refl refl
                    h.desc_readable)))))))
      rest

unfoldable pub delete_received : DeleteApplistPdu → DeleteAppList
delete_received d = record {
  flags = d.flags;
  app_id = received d.flags Field.id empty_string d.app_id;
  app_group = received d.flags Field.group empty_string d.app_group;
}

pub record DeleteReadable (d : DeleteApplistPdu) : Type 0 where
  pub flags_u32 : IsU32 d.flags
  pub required_flags : has_all_flags d.flags Field.id ≡ true
  pub id_readable : FieldReadable d.flags Field.id true d.app_id
  pub group_readable : FieldReadable d.flags Field.group false d.app_group

-- The client reads the payload of a delete message back as the server sent it and leaves the bytes
-- that follow, if the id is on and each string that is on has at most 510 bytes, the id at least
-- one.
pub read_app_list_delete-round_trip :
    (d : DeleteApplistPdu) (rest : List ℕ)
    → DeleteReadable d
    → read_app_list_delete empty_delete (delete_applist_payload d ++ rest)
      ≡ (s_ok, delete_received d, rest)
unfolding read_app_list_delete delete_applist_payload delete_received
read_app_list_delete-round_trip d rest h =
    Reads-run
      (Reads-then (Reads-uint32 (λ v d. record d { flags = v }) empty_delete d.flags h.flags_u32) (
        Reads-then (Reads-check (λ d. d.flags) _ _ h.required_flags) (
          Reads-then
            (Reads-field d.flags Field.id (λ d. d.flags) (λ d. d.app_id)
              (λ s d. record d { app_id = s }) true _ d.app_id refl refl h.id_readable)
            (Reads-field d.flags Field.group (λ d. d.flags) (λ d. d.app_group)
              (λ s d. record d { app_group = s }) false _ d.app_group refl refl h.group_readable))))
      rest

unfoldable pub associate_received : AssociateWindowIdPdu → AssociateWindowId
associate_received a = record {
  flags = a.flags;
  app_window_id = a.app_window_id;
  app_id = received a.flags Field.id empty_string a.app_id;
  app_group = received a.flags Field.group empty_string a.app_group;
  app_exec_path = received a.flags Field.execpath empty_string a.app_exec_path;
  app_desc = received a.flags Field.desc empty_string a.app_desc;
}

pub record AssociateReadable (a : AssociateWindowIdPdu) : Type 0 where
  pub flags_u32 : IsU32 a.flags
  pub window_id_u32 : IsU32 a.app_window_id
  pub required_flags : has_all_flags a.flags (Field.id + Field.window_id) ≡ true
  pub id_readable : FieldReadable a.flags Field.id true a.app_id
  pub group_readable : FieldReadable a.flags Field.group false a.app_group
  pub execpath_readable : FieldReadable a.flags Field.execpath true a.app_exec_path
  pub desc_readable : FieldReadable a.flags Field.desc true a.app_desc

-- The client reads the payload of an associate-window-id message back as the server sent it and
-- leaves the bytes that follow, if the id and the window id are on, and each string that is on has
-- at most 510 bytes and is not empty where it may not be.
pub read_associate_window_id-round_trip :
    (a : AssociateWindowIdPdu) (rest : List ℕ)
    → AssociateReadable a
    → read_associate_window_id empty_associate (associate_window_id_payload a ++ rest)
      ≡ (s_ok, associate_received a, rest)
unfolding read_associate_window_id associate_window_id_payload associate_received
read_associate_window_id-round_trip a rest h =
    Reads-run
      (Reads-then (Reads-uint32 (λ v a. record a { flags = v }) empty_associate a.flags h.flags_u32)
        (Reads-then (Reads-check (λ a. a.flags) _ _ h.required_flags) (
          Reads-then
            (Reads-uint32 (λ v a. record a { app_window_id = v }) _ a.app_window_id h.window_id_u32)
            (Reads-then
              (Reads-field a.flags Field.id (λ a. a.flags) (λ a. a.app_id)
                (λ s a. record a { app_id = s }) true _ a.app_id refl refl h.id_readable)
              (Reads-then
                (Reads-field a.flags Field.group (λ a. a.flags) (λ a. a.app_group)
                  (λ s a. record a { app_group = s }) false _ a.app_group refl refl
                  h.group_readable)
                (Reads-then
                  (Reads-field a.flags Field.execpath (λ a. a.flags) (λ a. a.app_exec_path)
                    (λ s a. record a { app_exec_path = s }) true _ a.app_exec_path refl refl
                    h.execpath_readable)
                  (Reads-field a.flags Field.desc (λ a. a.flags) (λ a. a.app_desc)
                    (λ s a. record a { app_desc = s }) true _ a.app_desc refl refl
                    h.desc_readable)))))))
      rest

-- The caps are read over what an earlier caps message left in the struct.
unfoldable pub caps_received : ServerCaps → ServerCapsPdu → ServerCaps
caps_received c caps = record {
  version = caps.version;
  app_list_provider_name = stored c.app_list_provider_name caps.app_list_provider_name;
  app_list_provider_unique_id =
      stored c.app_list_provider_unique_id caps.app_list_provider_unique_id;
}

pub record CapsReadable (caps : ServerCapsPdu) : Type 0 where
  pub version_u16 : IsU16 caps.version
  pub version_4 : 4 ≤ caps.version
  pub name_readable : IsReadable true caps.app_list_provider_name
  pub unique_id_readable : IsReadable true caps.app_list_provider_unique_id

-- The client reads a caps message of version 4 or newer back as the server sent it, over what the
-- struct held before, and leaves the bytes that follow, if both strings have 1 to 510 bytes.
pub read_app_list_server_caps-round_trip :
    (c : ServerCaps) (caps : ServerCapsPdu) (rest : List ℕ)
    → CapsReadable caps
    → read_app_list_server_caps c (caps_payload caps ++ rest) ≡ (s_ok, caps_received c caps, rest)
unfolding read_app_list_server_caps caps_payload caps_received
read_app_list_server_caps-round_trip c caps rest h =
    Reads-run
      (Reads-then (Reads-uint16 (λ v c. record c { version = v }) c caps.version h.version_u16) (
        Reads-then
          (Reads-at (λ c. c.app_list_provider_name) (λ s c. record c { app_list_provider_name = s })
            true _ caps.app_list_provider_name h.name_readable)
          (record {
            apply = λ rest. rw (le→leb 4 caps.version h.version_4) (
                (Reads-at (λ c. c.app_list_provider_unique_id)
                    (λ s c. record c { app_list_provider_unique_id = s }) true _
                    caps.app_list_provider_unique_id h.unique_id_readable).apply
                  rest);
          })))
      rest
