-- ===== src/Daemon/FontMonitor/Monitor/Buffer.antt =====
-- The loop of FontMonitorThread over one buffer that read filled: events of 16 bytes and a name's
-- field each, little-endian.
use wslg.Common.{
  ℕ, zero, suc, ◌+◌, ◌≤◌, ◌<◌, ◌≡◌, ◌≢◌, refl, ap, ◌∙◌, ◌⊎◌, List, [], ◌∷◌, ◌++◌, Option, none,
  some, map, All, arith,
}
use wslg.Common.{
  if◌then◌else◌, ◌==◌, leb, le→leb, ne→==, length, take, drop, replicate, length-append,
  length-replicate, take-append, drop-append, IsU32, bytes_of_u32, u32_of_bytes,
  u32_of_bytes-of_u32,
}
use wslg.Daemon.FontMonitor.System.{System}
use wslg.Daemon.FontMonitor.Folder.{FontFolder}
use wslg.Daemon.FontMonitor.Monitor.{Event, handle_event}

-- The name as the C string functions see it.
unfoldable pub c_string : List ℕ → List ℕ
c_string [] = []
c_string (c ∷ cs) = let rest = c_string cs in if c == 0 then [] else c ∷ rest

-- An event by its fields and the bytes after them; none where its name is cut off.
unfoldable pub event_with : ℕ → ℕ → ℕ → List ℕ → Option (Event × List ℕ)
unfolding c_string
event_with wd mask len rest =
    if leb len (length rest)
    then some
        (record { wd = wd; mask = mask; len = len; name = c_string (take len rest) }, drop len rest)
    else none

-- The event at the start of the bytes, and those after it; none where it is cut off.
unfoldable pub event_at : List ℕ → Option (Event × List ℕ)
unfolding event_with
event_at (a ∷ b ∷ c ∷ d ∷ e ∷ f ∷ g ∷ h ∷ i ∷ j ∷ k ∷ l ∷ m ∷ n ∷ o ∷ p ∷ rest) =
    event_with (u32_of_bytes a b c d) (u32_of_bytes e f g h) (u32_of_bytes m n o p) rest
event_at bytes = none

-- `while (cur < len)`; the list is what is left from `cur` on.
pub data Drained (W : Type 0) : Type 0 where
  no_fuel cut_off : Drained W
  drained : List FontFolder → W → Drained W

module _ (s : System) (fd : ℕ) where
  open s use {World}

  pub drain : ℕ → List ℕ → List FontFolder → World → Drained World
  drain fuel [] fs w = drained fs w
  drain zero (x ∷ bytes) fs w = no_fuel
  drain (suc fuel) (x ∷ bytes) fs w = elim (event_at (x ∷ bytes)) [
    | none ↦ cut_off
    | some (ev, rest) ↦ let (fs', w') = handle_event s fd ev fs w in drain fuel rest fs' w'
  ]

  -- The events one after the other.
  pub handle_all : List Event → List FontFolder → World → List FontFolder × World
  handle_all [] fs w = (fs, w)
  handle_all (ev ∷ evs) fs w = let (fs', w') = handle_event s fd ev fs w in handle_all evs fs' w'

-- An event as the kernel writes it: its name, if there is one, is followed by zeros.
pub record Written : Type 0 where
  pub wd : ℕ
  pub mask : ℕ
  pub cookie : ℕ
  pub name : List ℕ
  pub zeros : ℕ

abbrev field : Written → List ℕ
field v = v.name ++ replicate v.zeros 0

abbrev NonZero : List ℕ → Type 0
NonZero [] = Unit {0}
NonZero (c ∷ cs) = (c ≢ 0) × NonZero cs

pub record IsWritten (v : Written) : Type 0 where
  pub wd_fits : IsU32 v.wd
  pub mask_fits : IsU32 v.mask
  pub len_fits : IsU32 (length v.name + v.zeros)
  pub no_zero : NonZero v.name
  pub ends : (v.name ≡ []) ⊎ (0 < v.zeros)

unfoldable pub written : Written → List ℕ
written v =
    bytes_of_u32 v.wd
    ++ (bytes_of_u32 v.mask
        ++ (bytes_of_u32 v.cookie ++ (bytes_of_u32 (length v.name + v.zeros) ++ field v)))

unfoldable pub event_of : Written → Event
event_of v = record { wd = v.wd; mask = v.mask; len = length v.name + v.zeros; name = v.name }

c_string-zeros : (n : ℕ) → c_string (replicate n 0) ≡ []
unfolding c_string
c_string-zeros zero = refl
c_string-zeros (suc n) = refl

c_string-field :
    (name : List ℕ) (zeros : ℕ) → NonZero name → c_string (name ++ replicate zeros 0) ≡ name
unfolding c_string
c_string-field [] zeros ok = c_string-zeros zeros
c_string-field (c ∷ cs) zeros (ok, more) =
    rw (ne→== c 0 ok) (ap (λ t. c ∷ t) (c_string-field cs zeros more))

length-field : (v : Written) → length (field v) ≡ length v.name + v.zeros
length-field v =
    length-append v.name (replicate v.zeros 0)
    ∙ ap (λ (n : ℕ). length v.name + n) (length-replicate {A = ℕ} v.zeros 0)

event_with-field :
    (v : Written) (rest : List ℕ)
    → IsWritten v
    → event_with v.wd v.mask (length v.name + v.zeros) (field v ++ rest) ≡ some (event_of v, rest)
unfolding event_with event_of
event_with-field v rest ok =
    let size = length-field v in
    let fits : length v.name + v.zeros ≤ length (field v ++ rest) =
      omega (arith, length-append (field v) rest, size) in
    rw
      (
        event_with,
        le→leb _ _ fits,
        take-append _ (field v) rest size,
        drop-append _ (field v) rest size,
        c_string-field v.name v.zeros ok.no_zero,
      )
      refl

event_at-written :
    (v : Written) (rest : List ℕ)
    → IsWritten v
    → event_at (written v ++ rest) ≡ some (event_of v, rest)
unfolding event_at written
event_at-written v rest ok =
    rw
      (
        u32_of_bytes-of_u32 v.wd ok.wd_fits,
        u32_of_bytes-of_u32 v.mask ok.mask_fits,
        u32_of_bytes-of_u32 (length v.name + v.zeros) ok.len_fits,
      )
      (event_with-field v rest ok)

unfoldable pub written_all : List Written → List ℕ
written_all [] = []
written_all (v ∷ vs) = written v ++ written_all vs

length-written : (v : Written) → 16 ≤ length (written v)
unfolding written
length-written v = omega arith

module _ (s : System) (fd : ℕ) where
  -- One round of the loop, for any fuel that is left.
  drain-round :
      (fuel : ℕ) (bytes rest : List ℕ) (ev : Event) (fs : List FontFolder) (w : s.World)
      → event_at bytes ≡ some (ev, rest)
      → drain s fd (suc fuel) bytes fs w
        ≡ drain s fd fuel rest (handle_event s fd ev fs w).0 (handle_event s fd ev fs w).1
  unfolding drain event_at
  drain-round fuel [] rest ev fs w e = cc
  drain-round fuel (x ∷ bytes) rest ev fs w e = rw (drain, e) refl

  drain-enough :
      (fuel : ℕ) (vs : List Written) (fs : List FontFolder) (w : s.World)
      → All IsWritten vs
      → length (written_all vs) ≤ fuel
      → drain s fd fuel (written_all vs) fs w
        ≡ drained
            (handle_all s fd (map event_of vs) fs w).0
            (handle_all s fd (map event_of vs) fs w).1
  unfolding written_all handle_all drain
  drain-enough fuel [] fs w ok enough = refl
  drain-enough zero (v ∷ vs) fs w ok enough =
      absurd (omega (arith, length-written v, length-append (written v) (written_all vs)))
  drain-enough (suc fuel) (v ∷ vs) fs w (ok, more) enough =
      drain-round fuel _ (written_all vs) (event_of v) fs w (event_at-written v (written_all vs) ok)
      ∙ drain-enough fuel vs _ _ more
          (omega (arith, length-written v, length-append (written v) (written_all vs)))

  -- On a buffer that the kernel filled with whole events, the loop of the thread handles just these
  -- events in their order and ends, in no more rounds than there are bytes.
  pub drain-written_all :
      (vs : List Written) (fs : List FontFolder) (w : s.World)
      → All IsWritten vs
      → drain s fd (length (written_all vs)) (written_all vs) fs w
        ≡ drained
            (handle_all s fd (map event_of vs) fs w).0
            (handle_all s fd (map event_of vs) fs w).1
  drain-written_all vs fs w ok = drain-enough (length (written_all vs)) vs fs w ok (omega arith)
