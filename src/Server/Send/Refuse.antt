-- ===== src/Server/Send/Refuse.antt =====
-- When the send functions refuse a message, and where the length of an update message wraps.
use wslg.Common.{ℕ, ◌+◌, ◌*◌, ◌%◌, ◌≤◌, ◌<◌, ◌≡◌, inl, inr, ◌∙◌, Option, none, some}
use wslg.Common.{true, arith, length, has_flag, u32_mod, IsU32, Option-cases}
use wslg.Protocol.{header_size, max_string_size}
use wslg.Protocol.Field
use wslg.Server.WinPr.{WinPr}
use wslg.Server.Pdu.{RailString, IconDataPdu, UpdateApplistPdu}
use wslg.Server.Send.{
  ◌>>=◌, error_invalid_data, add_string, add_icon, update_applist_len, send_update_applist,
}
use wslg.Server.Send.Payload.{update_strings}
use wslg.Server.Send.Sizes.{
  StringsFit, update_applist_len-strings, update_strings_bound, add_string-none,
}

-- The field is on and its string is longer than 512 bytes.
abbrev pub IsTooLong : ℕ → ℕ → RailString → Type 0
IsTooLong flags field x = (has_flag flags field ≡ true) × (max_string_size < x.len)

pub data IsRefused (u : UpdateApplistPdu) : Type 0 where
  long_id : IsTooLong u.flags Field.id u.app_id → IsRefused u
  long_group : IsTooLong u.flags Field.group u.app_group → IsRefused u
  long_execpath : IsTooLong u.flags Field.execpath u.app_exec_path → IsRefused u
  long_workingdir : IsTooLong u.flags Field.workingdir u.app_working_dir → IsRefused u
  long_desc : IsTooLong u.flags Field.desc u.app_desc → IsRefused u
  no_icon : has_flag u.flags Field.icon ≡ true → u.app_icon ≡ none → IsRefused u

-- A refusal later on refuses the whole.
after_string :
    (flags field : ℕ) (x : RailString) (len : ℕ) (rest : ℕ → Option ℕ)
    → ((sum : ℕ) → rest sum ≡ none)
    → (add_string flags field x len >>= rest) ≡ none
after_string flags field x len rest h = elim (Option-cases (add_string flags field x len)) [
  | inl e ↦ rw e
  | inr (sum, e) ↦ rw e (h sum)
]

too_long :
    (flags field : ℕ) (x : RailString) (len : ℕ) (rest : ℕ → Option ℕ)
    → IsTooLong flags field x
    → (add_string flags field x len >>= rest) ≡ none
too_long flags field x len rest (on, long) = rw (add_string-none flags field x len on long)

add_icon-none :
    (flags len : ℕ) (icon : Option IconDataPdu)
    → has_flag flags Field.icon ≡ true
    → icon ≡ none
    → add_icon flags icon len ≡ none
unfolding add_icon
add_icon-none flags len icon on e = rw (e, on)

add_icon-some :
    (flags len : ℕ) (icon : Option IconDataPdu) (d : IconDataPdu)
    → has_flag flags Field.icon ≡ true
    → icon ≡ some d
    → add_icon flags icon len ≡ some ((len + (7 * 4 + d.icon_bits_length) % u32_mod) % u32_mod)
unfolding add_icon
add_icon-some flags len icon d on e = rw (e, on)

update_applist_len-none : (u : UpdateApplistPdu) → IsRefused u → update_applist_len u ≡ none
unfolding update_applist_len
update_applist_len-none u (long_id h) = too_long u.flags Field.id u.app_id 4 _ h
update_applist_len-none u (long_group h) =
    after_string u.flags Field.id u.app_id 4 _ λ a. too_long u.flags Field.group u.app_group a _ h
update_applist_len-none u (long_execpath h) = after_string u.flags Field.id u.app_id 4 _ λ a.
    after_string u.flags Field.group u.app_group a _
      λ b. too_long u.flags Field.execpath u.app_exec_path b _ h
update_applist_len-none u (long_workingdir h) = after_string u.flags Field.id u.app_id 4 _ λ a.
    after_string u.flags Field.group u.app_group a _ λ b.
      after_string u.flags Field.execpath u.app_exec_path b _
        λ c. too_long u.flags Field.workingdir u.app_working_dir c _ h
update_applist_len-none u (long_desc h) = after_string u.flags Field.id u.app_id 4 _ λ a.
    after_string u.flags Field.group u.app_group a _ λ b.
      after_string u.flags Field.execpath u.app_exec_path b _ λ c.
        after_string u.flags Field.workingdir u.app_working_dir c _
          λ d. too_long u.flags Field.desc u.app_desc d _ h
update_applist_len-none u (no_icon on e) = after_string u.flags Field.id u.app_id 4 _ λ a.
    after_string u.flags Field.group u.app_group a _ λ b.
      after_string u.flags Field.execpath u.app_exec_path b _ λ c.
        after_string u.flags Field.workingdir u.app_working_dir c _ λ d.
          after_string u.flags Field.desc u.app_desc d _
            λ len. add_icon-none u.flags len u.app_icon on e

-- If a string that is on has more than 512 bytes, or the icon is on and its pointer is null, then
-- rdpapplist_send_update_applist returns ERROR_INVALID_DATA and leaves the channel as it was.
pub send_update_applist-refused :
    (w : WinPr) (ch : w.Channel) (u : UpdateApplistPdu)
    → IsRefused u
    → send_update_applist w ch u ≡ (error_invalid_data, ch)
unfolding send_update_applist
send_update_applist-refused w ch u h = rw (update_applist_len-none u h)

-- If the strings fit and the true size of an update message with an icon reaches 2 ^ 32, for a
-- UINT32 number of icon bits, then the length that rdpapplist_send_update_applist computes wraps
-- around: it accepts the message and asks for a stream of at most 2610 bytes.
pub update_applist_len_wraps :
    (u : UpdateApplistPdu) (d : IconDataPdu)
    → StringsFit u
    → has_flag u.flags Field.icon ≡ true
    → u.app_icon ≡ some d
    → IsU32 d.icon_bits_length
    → u32_mod ≤ header_size + (4 + length (update_strings u) + (28 + d.icon_bits_length))
    → (len : ℕ) × (update_applist_len u ≡ some len) × ((header_size + len) % u32_mod ≤ 2610)
update_applist_len_wraps u d fit on e small wraps =
    let bound = update_strings_bound u fit in
    (
      (4 + length (update_strings u) + (28 + d.icon_bits_length) % u32_mod) % u32_mod,
      update_applist_len-strings u fit ∙ add_icon-some u.flags _ u.app_icon d on e,
      omega arith,
    )
