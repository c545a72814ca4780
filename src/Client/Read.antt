-- ===== src/Client/Read.antt =====
-- The message readers of WSLDVCPlugin/WSLDVCCallback.cpp.
pub mod Within
pub mod Safety
pub mod Icon
pub mod Taken
use wslg.Common.{ℕ, ◌+◌, ◌*◌, ◌%◌, List, [], ◌∷◌, ◌++◌, Bool, true, false, Option, none, some}
use wslg.Common.{ltb, leb, if◌then◌else◌, length, take, drop, u32_mod, bytes_of_u16, bytes_of_u32}
use wslg.Protocol.Field
use wslg.Client.Hresult.{Hresult, s_ok, e_fail, e_outofmemory, arithmetic_overflow}
use wslg.Client.Pdu.{
  AppListHeader, ServerCaps, UpdateAppList, IconData, empty_icon, DeleteAppList, AssociateWindowId,
}
use wslg.Client.Reader.{
  Reader, Outcome, done, error_read, ◌>>◌, read_uint16, read_uint32, read_string_at, on_flag,
  check_required_flags,
}

-- The result, the struct, and the bytes left. On an error `*buffer` and `*size` are not moved.
abbrev pub run : {P : Type 0} → Reader P → P → List ℕ → Hresult × P × List ℕ
run m p b = elim (m p b) [ done p' rest ↦ (s_ok, p', rest) | error_read p' ↦ (e_fail, p', b) ]

pub header_fields : Reader AppListHeader
header_fields = do
  read_uint32 (λ v h. record h { cmd_id = v })
  read_uint32 (λ v h. record h { len = v })

unfoldable pub read_app_list_header : AppListHeader → List ℕ → Hresult × AppListHeader × List ℕ
unfolding header_fields
read_app_list_header = run header_fields

unique_id_field : Reader ServerCaps
unique_id_field c b =
    if leb 4 c.version
    then read_string_at (λ c. c.app_list_provider_unique_id)
        (λ s c. record c { app_list_provider_unique_id = s }) true c b
    else done c b

pub server_caps_fields : Reader ServerCaps
unfolding unique_id_field
server_caps_fields = do
  read_uint16 (λ v c. record c { version = v })
  read_string_at (λ c. c.app_list_provider_name) (λ s c. record c { app_list_provider_name = s })
      true
  unique_id_field

unfoldable pub read_app_list_server_caps : ServerCaps → List ℕ → Hresult × ServerCaps × List ℕ
unfolding server_caps_fields
read_app_list_server_caps = run server_caps_fields

pub update_fields : Reader UpdateAppList
update_fields = do
  read_uint32 (λ v u. record u { flags = v })
  check_required_flags (λ u. u.flags) (Field.id + Field.execpath + Field.desc)
  on_flag (λ u. u.flags) Field.id
      (read_string_at (λ u. u.app_id) (λ s u. record u { app_id = s }) true)
  on_flag (λ u. u.flags) Field.group
      (read_string_at (λ u. u.app_group) (λ s u. record u { app_group = s }) false)
  on_flag (λ u. u.flags) Field.execpath
      (read_string_at (λ u. u.app_exec_path) (λ s u. record u { app_exec_path = s }) true)
  on_flag (λ u. u.flags) Field.workingdir
      (read_string_at (λ u. u.app_working_dir) (λ s u. record u { app_working_dir = s }) false)
  on_flag (λ u. u.flags) Field.desc
      (read_string_at (λ u. u.app_desc) (λ s u. record u { app_desc = s }) true)

unfoldable pub read_app_list_update : UpdateAppList → List ℕ → Hresult × UpdateAppList × List ℕ
unfolding update_fields
read_app_list_update = run update_fields

unfoldable pub icon_fields : Reader IconData
icon_fields = do
  read_uint32 (λ v d. record d { flags = v })
  read_uint32 (λ v d. record d { icon_width = v })
  read_uint32 (λ v d. record d { icon_height = v })
  read_uint32 (λ v d. record d { icon_stride = v })
  read_uint32 (λ v d. record d { icon_bpp = v })
  read_uint32 (λ v d. record d { icon_format = v })
  read_uint32 (λ v d. record d { icon_bits_length = v })

-- ICON_HEADER with its one entry, packed: 22 bytes.
pub icon_header : IconData → List ℕ
icon_header d =
    bytes_of_u16 0
    ++ (bytes_of_u16 1
        ++ (bytes_of_u16 1
            ++ ((d.icon_width % 256) ∷ (d.icon_height % 256) ∷ 0 ∷ 0 ∷ [])
            ++ (bytes_of_u16 0
                ++ (bytes_of_u16 (d.icon_bpp % 65536)
                    ++ (bytes_of_u32 ((40 + d.icon_bits_length) % u32_mod) ++ bytes_of_u32 22)))))

-- BITMAPINFOHEADER: 40 bytes.
pub bitmap_info_header : IconData → List ℕ
bitmap_info_header d =
    bytes_of_u32 40
    ++ (bytes_of_u32 d.icon_width
        ++ (bytes_of_u32 (d.icon_height * 2 % u32_mod)
            ++ (bytes_of_u16 1
                ++ (bytes_of_u16 (d.icon_bpp % 65536)
                    ++ (bytes_of_u32 0
                        ++ (bytes_of_u32 d.icon_bits_length
                            ++ (bytes_of_u32 0
                                ++ (bytes_of_u32 0 ++ (bytes_of_u32 0 ++ bytes_of_u32 0)))))))))

-- The part after the fixed fields. `alloc` says whether LocalAlloc gives a block of the size.
unfoldable pub icon_file : (ℕ → Bool) → List ℕ → IconData → List ℕ → Hresult × IconData × List ℕ
icon_file alloc start d rest =
    let size = 22 + 40 + d.icon_bits_length in
    let file = icon_header d ++ (bitmap_info_header d ++ take d.icon_bits_length rest) in
    if leb u32_mod size
    then (arithmetic_overflow, record d { icon_file_size = 0xffff_ffff }, start)
    else if alloc size
    then (if leb d.icon_bits_length (length rest)
        then (
          s_ok,
          record d { icon_file_size = size; icon_file_data = file },
          drop d.icon_bits_length rest,
        )
        else (e_fail, empty_icon, start))
    else (e_outofmemory, record d { icon_file_size = size }, start)

unfoldable pub read_app_list_icon_data :
    (ℕ → Bool) → IconData → List ℕ → Hresult × IconData × List ℕ
read_app_list_icon_data alloc d b = elim (icon_fields empty_icon b) [
  | done d' rest ↦ icon_file alloc b d' rest
  | error_read d' ↦ (e_fail, empty_icon, b)
]

pub delete_fields : Reader DeleteAppList
delete_fields = do
  read_uint32 (λ v d. record d { flags = v })
  check_required_flags (λ d. d.flags) Field.id
  on_flag (λ d. d.flags) Field.id
      (read_string_at (λ d. d.app_id) (λ s d. record d { app_id = s }) true)
  on_flag (λ d. d.flags) Field.group
      (read_string_at (λ d. d.app_group) (λ s d. record d { app_group = s }) false)

unfoldable pub read_app_list_delete : DeleteAppList → List ℕ → Hresult × DeleteAppList × List ℕ
unfolding delete_fields
read_app_list_delete = run delete_fields

pub associate_fields : Reader AssociateWindowId
associate_fields = do
  read_uint32 (λ v a. record a { flags = v })
  check_required_flags (λ a. a.flags) (Field.id + Field.window_id)
  read_uint32 (λ v a. record a { app_window_id = v })
  on_flag (λ a. a.flags) Field.id
      (read_string_at (λ a. a.app_id) (λ s a. record a { app_id = s }) true)
  on_flag (λ a. a.flags) Field.group
      (read_string_at (λ a. a.app_group) (λ s a. record a { app_group = s }) false)
  on_flag (λ a. a.flags) Field.execpath
      (read_string_at (λ a. a.app_exec_path) (λ s a. record a { app_exec_path = s }) true)
  on_flag (λ a. a.flags) Field.desc
      (read_string_at (λ a. a.app_desc) (λ s a. record a { app_desc = s }) true)

unfoldable pub read_associate_window_id :
    AssociateWindowId → List ℕ → Hresult × AssociateWindowId × List ℕ
unfolding associate_fields
read_associate_window_id = run associate_fields
