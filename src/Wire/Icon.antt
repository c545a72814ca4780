-- ===== src/Wire/Icon.antt =====
-- The icon of an update message on both ends.
use wslg.Common.{ℕ, ◌+◌, ◌≤◌, ◌≡◌, List, ◌++◌, Bool, true, arith}
use wslg.Common.{length, length-append, length-take, take, take-append, drop-append}
use wslg.Common.{IsU32, bytes_of_u32}
use wslg.Server.Pdu.{IconDataPdu}
use wslg.Server.Send.Payload.{icon_bytes}
use wslg.Client.Hresult.{s_ok}
use wslg.Client.Pdu.{IconData, empty_icon}
use wslg.Client.Read.{
  icon_fields, icon_file, icon_header, bitmap_info_header, read_app_list_icon_data,
}
use wslg.Wire.Reads.{Reads, Reads-then, Reads-uint32}

-- The seven words of the message, as the client has them before it builds the file.
abbrev pub icon_words : IconDataPdu → IconData
icon_words d = record empty_icon {
  flags = d.flags;
  icon_width = d.icon_width;
  icon_height = d.icon_height;
  icon_stride = d.icon_stride;
  icon_bpp = d.icon_bpp;
  icon_format = d.icon_format;
  icon_bits_length = d.icon_bits_length;
}

-- The same with the file: two headers, and the bits as they were sent.
pub icon_received : IconDataPdu → IconData
icon_received d = record (icon_words d) {
  icon_file_size = 62 + d.icon_bits_length;
  icon_file_data =
      icon_header (icon_words d)
      ++ (bitmap_info_header (icon_words d) ++ take d.icon_bits_length d.icon_bits);
}

pub record IconReadable (alloc : ℕ → Bool) (d : IconDataPdu) : Type 0 where
  pub flags_u32 : IsU32 d.flags
  pub width_u32 : IsU32 d.icon_width
  pub height_u32 : IsU32 d.icon_height
  pub stride_u32 : IsU32 d.icon_stride
  pub bpp_u32 : IsU32 d.icon_bpp
  pub format_u32 : IsU32 d.icon_format
  pub small : IsU32 (62 + d.icon_bits_length)
  pub stored : d.icon_bits_length ≤ length d.icon_bits
  pub allocated : alloc (62 + d.icon_bits_length) ≡ true

module _ (alloc : ℕ → Bool) (d : IconDataPdu) (h : IconReadable alloc d) where
  icon_file-received :
      (start rest : List ℕ)
      → icon_file alloc start (icon_words d) (take d.icon_bits_length d.icon_bits ++ rest)
        ≡ (s_ok, icon_received d, rest)
  unfolding icon_file icon_received
  icon_file-received start rest =
      let bits = take d.icon_bits_length d.icon_bits in
      let size : length bits ≡ d.icon_bits_length =
        omega (arith, length-take d.icon_bits_length d.icon_bits, h.stored) in
      ground (
        arith,
        size,
        h.small,
        h.allocated,
        length-append bits rest,
        take-append d.icon_bits_length bits rest size,
        drop-append d.icon_bits_length bits rest size,
      )

  Reads-icon_fields :
      Reads icon_fields empty_icon
        (bytes_of_u32 d.flags
          ++ (bytes_of_u32 d.icon_width
              ++ (bytes_of_u32 d.icon_height
                  ++ (bytes_of_u32 d.icon_stride
                      ++ (bytes_of_u32 d.icon_bpp
                          ++ (bytes_of_u32 d.icon_format ++ bytes_of_u32 d.icon_bits_length))))))
        (icon_words d)
  unfolding icon_fields
  Reads-icon_fields =
      Reads-then (Reads-uint32 (λ v d. record d { flags = v }) empty_icon d.flags h.flags_u32) (
        Reads-then (Reads-uint32 (λ v d. record d { icon_width = v }) _ d.icon_width h.width_u32) (
          Reads-then
            (Reads-uint32 (λ v d. record d { icon_height = v }) _ d.icon_height h.height_u32)
            (Reads-then
              (Reads-uint32 (λ v d. record d { icon_stride = v }) _ d.icon_stride h.stride_u32)
              (Reads-then (Reads-uint32 (λ v d. record d { icon_bpp = v }) _ d.icon_bpp h.bpp_u32) (
                Reads-then
                  (Reads-uint32 (λ v d. record d { icon_format = v }) _ d.icon_format h.format_u32)
                  (Reads-uint32 (λ v d. record d { icon_bits_length = v }) _ d.icon_bits_length
                    (omega (arith, h.small))))))))

  -- The client reads the icon of an update message back: the seven words, and a file in memory of
  -- 62 + iconBitsLength bytes that is the two headers and the bits as sent, with the bytes that
  -- follow left; whatever the struct held, if the size stays below 2 ^ 32 and the allocation
  -- succeeds.
  pub read_app_list_icon_data-round_trip :
      (start : IconData) (rest : List ℕ)
      → read_app_list_icon_data alloc start (icon_bytes d ++ rest) ≡ (s_ok, icon_received d, rest)
  unfolding read_app_list_icon_data
  read_app_list_icon_data-round_trip start rest =
      rw
        (
          read_app_list_icon_data,
          Reads-icon_fields.apply (take d.icon_bits_length d.icon_bits ++ rest),
        )
        (icon_file-received _ rest)
