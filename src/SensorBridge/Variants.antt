-- ===== src/SensorBridge/Variants.antt =====
-- The values of software/src/ac_sensor_bridge.cpp on their way to the D-Bus and back.
use dbus_cgwacs.Prelude.{Bool, true, false, ◌||◌, List, [], ◌∷◌, if◌then◌else◌, ltb}
use dbus_cgwacs.Prelude.Int.{ℤ, pos, negsuc}
use dbus_cgwacs.Prelude.Text.{Text, text, text_eq}
use dbus_cgwacs.Defines.{Position, input1, output, input2}
use dbus_cgwacs.Doubles.{Doubles}
use dbus_cgwacs.Sensor.{ConnectionState, connected, disconnected}
use dbus_cgwacs.Dbus.Items.{Overrides}

-- `QVariant`, with the types that the program puts into it.
pub data Variant (D : Type 0) : Type 0 where
  invalid : Variant D
  int_value : ℤ → Variant D
  double_value : D → Variant D
  text_value : Text → Variant D
  list_value : List Text → Variant D
  connection_value : ConnectionState → Variant D
  position_value : Position → Variant D

-- `toString`, `toInt`, `QString::number(n, 16)`, and the text of the base class, all of Qt.
pub record Conversions (D : Type 0) : Type 0 where
  pub to_text : Variant D → Text
  pub to_int : Variant D → ℤ
  pub hexadecimal : ℤ → Text
  pub base_text : Variant D → Text → ℤ → Text

abbrev pub contains : Text → List Text → Bool
contains t [] = false
contains t (s ∷ ss) = text_eq t s || contains t ss

abbrev pub position_number : Position → ℤ
position_number input1 = pos 0
position_number output = pos 1
position_number input2 = pos 2

abbrev pub is_position : ℤ → Bool
is_position (pos n) = ltb n 3
is_position (negsuc n) = false

-- The value of another type reads as the first of the enumeration.
abbrev pub connection_of : {D : Type 0} → Variant D → ConnectionState
connection_of (connection_value c) = c
connection_of _ = disconnected

abbrev pub position_of : {D : Type 0} → Variant D → Position
position_of (position_value p) = p
position_of _ = input1

abbrev pub is_connected : ConnectionState → Bool
is_connected connected = true
is_connected _ = false

abbrev pub all_roles : List Text
all_roles =
    text "grid"
    ∷ text "pvinverter"
    ∷ text "genset"
    ∷ text "acload"
    ∷ text "evcharger"
    ∷ text "heatpump"
    ∷ []

abbrev pub l2_roles : List Text
l2_roles = text "pvinverter" ∷ text "acload" ∷ text "evcharger" ∷ text "heatpump" ∷ []

module _ {D : Type 0} ⦃f : Doubles D⦄ where
  -- The last test of `toDBus`: a double that is not finite becomes invalid.
  unfoldable pub only_finite : Variant D → Variant D
  only_finite (double_value d) = if f.is_finite d then double_value d else invalid
  only_finite v = v

  unfoldable pub to_dbus : Text → Variant D → Bool × Variant D
  unfolding only_finite
  to_dbus path v =
      let w =
        if text_eq path (text "/Connected")
        then int_value (if is_connected (connection_of v) then pos 1 else pos 0)
        else if text_eq path (text "/Position")
        then int_value (position_number (position_of v))
        else v in
      (true, only_finite w)

module _ {D : Type 0} (c : Conversions D) where
  unfoldable pub role_from_dbus : Variant D → Bool × Variant D
  role_from_dbus v = (contains (c.to_text v) all_roles, v)

  unfoldable pub position_from_dbus : Variant D → Bool × Variant D
  position_from_dbus v = (is_position (c.to_int v), v)

  unfoldable pub custom_name_from_dbus : Variant D → Bool × Variant D
  custom_name_from_dbus v = (true, v)

  unfoldable pub from_dbus : Text → Variant D → Bool × Variant D
  from_dbus path v = (false, v)

  unfoldable pub to_text : Text → Variant D → Text → ℤ → Text
  to_text path v unit precision =
      if text_eq path (text "/ProductId")
      then c.hexadecimal (c.to_int v)
      else c.base_text v unit precision

  abbrev pub overrides : ⦃f : Doubles D⦄ → Overrides (Variant D)
  overrides ⦃f⦄ = record { to_dbus = to_dbus; from_dbus = from_dbus; to_text = to_text }
