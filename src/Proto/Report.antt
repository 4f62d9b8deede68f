-- ===== src/Proto/Report.antt =====
-- `format_position` and `format_telemetry` of src/meshtastic/mesh_proto.h. What `printf` writes
-- for a floating-point number is a parameter.
use bitchat_meshtastic.Prelude.{ℕ, ◌==◌, if◌then◌else◌, Option, none, some, Bool, true, false, ◌||◌}
use bitchat_meshtastic.Prelude.{List, [], ◌∷◌, ◌++◌, take, codes, decimal, signed_decimal}
use bitchat_meshtastic.Proto.Field.{Slice, Value, varint, bytes, fixed32, fixed64, ProtoField}
use bitchat_meshtastic.Proto.Loop.{Outcome, done, ◌>>=◌, each_field_of}

-- `%.4f` of an E7 coordinate divided by 1e7, and `%.1f` and `%.0f` of a float, each given by the 32
-- bits of the number.
pub record FloatPrinter : Type 0 where
  pub degrees : ℕ → List ℕ
  pub one_place : ℕ → List ℕ
  pub no_place : ℕ → List ℕ

-- A member that the loop may have met.
pub record Position : Type 0 where
  pub lat : Option ℕ
  pub lon : Option ℕ
  pub alt : Option ℕ

position_field : ℕ → Value → Position → Position
position_field num (varint v) p = if num == 3 then record p { alt = some v } else p
position_field num (fixed32 v) p =
    if num == 1
    then record p { lat = some v }
    else if num == 2
    then record p { lon = some v }
    else p
position_field num (bytes s) p = p
position_field num fixed64 p = p

position_step : Position → ProtoField → Outcome Position
unfolding position_field
position_step p f = done (position_field f.field_num f.val p)

abbrev empty_position : Position
empty_position = record { lat = none; lon = none; alt = none }

abbrev pin : List ℕ
pin = 0xF0 ∷ 0x9F ∷ 0x93 ∷ 0x8D ∷ codes " "

print_position : FloatPrinter → ℕ → ℕ → Option ℕ → List ℕ
print_position fmt lat lon none = pin ++ (fmt.degrees lat ++ (codes ", " ++ fmt.degrees lon))
print_position fmt lat lon (some alt) =
    pin
    ++ (fmt.degrees lat
        ++ (codes ", "
            ++ (fmt.degrees lon ++ (codes " (alt " ++ (signed_decimal alt ++ codes "m)")))))

print_if_placed : FloatPrinter → Option ℕ → Option ℕ → Option ℕ → Option (List ℕ)
unfolding print_position
print_if_placed fmt (some lat) (some lon) alt = some (print_position fmt lat lon alt)
print_if_placed fmt _ _ alt = none

-- The text that goes into the 256 bytes of `out`; `none` is the return value 0.
unfoldable pub format_position : FloatPrinter → Slice → Outcome (Option (List ℕ))
unfolding position_step print_if_placed
format_position fmt payload = do
  p ← each_field_of position_step payload empty_position
  done (print_if_placed fmt p.lat p.lon p.alt)

-- The device and environment blocks of a Telemetry message.
pub record Blocks : Type 0 where
  pub dev : Option Slice
  pub env : Option Slice

blocks_field : ℕ → Value → Blocks → Blocks
blocks_field num (bytes s) b =
    if num == 2
    then record b { dev = some s }
    else if num == 3
    then record b { env = some s }
    else b
blocks_field num (varint v) b = b
blocks_field num (fixed32 v) b = b
blocks_field num fixed64 b = b

blocks_step : Blocks → ProtoField → Outcome Blocks
unfolding blocks_field
blocks_step b f = done (blocks_field f.field_num f.val b)

pub record Device : Type 0 where
  pub battery : Option ℕ
  pub ch_util : Option ℕ

device_field : ℕ → Value → Device → Device
device_field num (varint v) d = if num == 1 then record d { battery = some v } else d
device_field num (fixed32 v) d = if num == 3 then record d { ch_util = some v } else d
device_field num (bytes s) d = d
device_field num fixed64 d = d

device_step : Device → ProtoField → Outcome Device
unfolding device_field
device_step d f = done (device_field f.field_num f.val d)

pub record Environment : Type 0 where
  pub temp : Option ℕ
  pub rh : Option ℕ
  pub pres : Option ℕ

environment_field : ℕ → Value → Environment → Environment
environment_field num (fixed32 v) e =
    if num == 1
    then record e { temp = some v }
    else if num == 2
    then record e { rh = some v }
    else if num == 3
    then record e { pres = some v }
    else e
environment_field num (varint v) e = e
environment_field num (bytes s) e = e
environment_field num fixed64 e = e

environment_step : Environment → ProtoField → Outcome Environment
unfolding environment_field
environment_step e f = done (environment_field f.field_num f.val e)

abbrev battery_sign : List ℕ
battery_sign = 0xF0 ∷ 0x9F ∷ 0x94 ∷ 0x8B ∷ codes " "

-- Without a battery level the block prints nothing, and the environment block is tried.
print_device : FloatPrinter → Option ℕ → Option ℕ → Option (List ℕ)
print_device fmt none ch_util = none
print_device fmt (some battery) none = some (battery_sign ++ (decimal battery ++ codes "%"))
print_device fmt (some battery) (some ch_util) =
    some (
      battery_sign ++ (decimal battery ++ (codes "%, ch " ++ (fmt.one_place ch_util ++ codes "%"))))

abbrev print_some : Option ℕ → (ℕ → List ℕ) → List ℕ
print_some none print = []
print_some (some v) print = print v

abbrev is_some : Option ℕ → Bool
is_some none = false
is_some (some v) = true

-- `buf` has 128 bytes; each number has at most 41 characters, so no earlier piece fills it.
print_environment : FloatPrinter → Environment → Option (List ℕ)
print_environment fmt e =
    if is_some e.temp || is_some e.rh || is_some e.pres
    then some (
        take 127 (
          (0xF0 ∷ 0x9F ∷ 0x8C ∷ 0xA1 ∷ [])
          ++ (print_some e.temp (λ v. codes " " ++ (fmt.one_place v ++ (0xC2 ∷ 0xB0 ∷ codes "C")))
              ++ (print_some e.rh (λ v. codes " " ++ (fmt.no_place v ++ codes "%RH"))
                  ++ print_some e.pres (λ v. codes " " ++ (fmt.no_place v ++ codes "hPa"))))))
    else none

format_environment : FloatPrinter → Option Slice → Outcome (Option (List ℕ))
unfolding environment_step print_environment
format_environment fmt none = done none
format_environment fmt (some env) = do
  e ← each_field_of environment_step env (record { temp = none; rh = none; pres = none })
  done (print_environment fmt e)

or_environment : FloatPrinter → Option Slice → Option (List ℕ) → Outcome (Option (List ℕ))
unfolding format_environment
or_environment fmt env (some text) = done (some text)
or_environment fmt env none = format_environment fmt env

format_device : FloatPrinter → Option Slice → Outcome (Option (List ℕ))
unfolding device_step print_device
format_device fmt none = done none
format_device fmt (some dev) = do
  d ← each_field_of device_step dev (record { battery = none; ch_util = none })
  done (print_device fmt d.battery d.ch_util)

unfoldable pub format_telemetry : FloatPrinter → Slice → Outcome (Option (List ℕ))
unfolding blocks_step format_device or_environment
format_telemetry fmt payload = do
  b ← each_field_of blocks_step payload (record { dev = none; env = none })
  text ← format_device fmt b.dev
  or_environment fmt b.env text
