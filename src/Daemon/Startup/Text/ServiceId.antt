-- ===== src/Daemon/Startup/Text/ServiceId.antt =====
-- The port of a service id can be read off it.
use wslg.Common.{ℕ, ◌+◌, ◌-◌, ◌*◌, ◌/◌, ◌%◌, ◌<◌, ◌≡◌, List, ◌∷◌, arith}
use wslg.Common.{ltb, if◌then◌else◌, IsU32}
use wslg.Daemon.Startup.Text.{hex_digit, to_service_id}

abbrev hex_value : ℕ → ℕ
hex_value c = if ltb c 58 then c - 48 else c - 55

hex_value-hex_digit : (d : ℕ) → d < 16 → hex_value (hex_digit d) ≡ d
hex_value-hex_digit d h = ground arith

-- The number that the first eight digits of a service id are.
unfoldable pub service_port : List ℕ → ℕ
service_port (a ∷ b ∷ c ∷ d ∷ e ∷ f ∷ g ∷ h ∷ rest) =
    0x1000_0000 * hex_value a
    + 0x100_0000 * hex_value b
    + 0x10_0000 * hex_value c
    + 0x1_0000 * hex_value d
    + 0x1000 * hex_value e
    + 0x100 * hex_value f
    + 0x10 * hex_value g
    + hex_value h
service_port short = 0

pub service_port-to_service_id : (port : ℕ) → IsU32 port → service_port (to_service_id port) ≡ port
unfolding service_port to_service_id
service_port-to_service_id port h =
    rw
      (
        hex_value-hex_digit (port / 0x1000_0000 % 16) (omega arith),
        hex_value-hex_digit (port / 0x100_0000 % 16) (omega arith),
        hex_value-hex_digit (port / 0x10_0000 % 16) (omega arith),
        hex_value-hex_digit (port / 0x1_0000 % 16) (omega arith),
        hex_value-hex_digit (port / 0x1000 % 16) (omega arith),
        hex_value-hex_digit (port / 0x100 % 16) (omega arith),
        hex_value-hex_digit (port / 0x10 % 16) (omega arith),
        hex_value-hex_digit (port % 16) (omega arith),
      )
      (omega arith)
