-- ===== src/SettingsBridge.antt =====
-- software/src/ac_sensor_settings_bridge.h and software/src/ac_sensor_settings_bridge.cpp: which
-- settings a sensor has, where they are stored, and their defaults.
pub mod Stored
use dbus_cgwacs.Prelude.{
  ℕ, Bool, true, false, not, ◌||◌, ◌&&◌, List, [], ◌∷◌, ◌++◌, Option, none, some, if◌then◌else◌,
  ◌==◌, ◌≡◌, refl, map, All,
}
use dbus_cgwacs.Prelude.Int.{ℤ, pos, negsuc}
use dbus_cgwacs.Prelude.Text.{Text, text, has_char}
use dbus_cgwacs.Numerals.{Numerals, NumeralLaws}
use dbus_cgwacs.Settings.{AcSensorSettings, is_multiphase, service_type, l2_service_type}
use dbus_cgwacs.Dbus.AddSetting.{setting_names, settings_path, setting_names-path}
use dbus_cgwacs.Dbus.Consume.{init_device_instance}

-- The defaults: a text, a whole number, or a double from 0 to 10^6 that is 0.
pub data Default : Type 0 where
  text_default : Text → Default
  int_default : ℤ → Default
  energy_default : Default

-- A call of `consume`: the property, the last part of the path, and the setting that is added, if one
-- is, with its default and whether it is silent; and whether the two transformations of a position
-- are given.
pub record SettingEntry : Type 0 where
  pub property : Text
  pub name : Text
  pub added : Option (Default × Bool)
  pub is_position : Bool

abbrev pub entry : Text → Text → Default → Bool → SettingEntry
entry property name default silent = record {
  property = property;
  name = name;
  added = some (default, silent);
  is_position = false;
}

abbrev pub position_entry : Text → SettingEntry
position_entry property = record {
  property = property;
  name = text "Position";
  added = some (int_default (pos 0), false);
  is_position = true;
}

abbrev pub class_entry : Text → SettingEntry
class_entry property = record {
  property = property;
  name = text "ClassAndVrmInstance";
  added = none;
  is_position = false;
}

abbrev pub flag : Bool → Default
flag b = int_default (if b then pos 1 else pos 0)

abbrev pub primary_entries : {D : Type 0} → AcSensorSettings D → List SettingEntry
primary_entries s =
    entry (text "customName") (text "CustomName") (text_default []) false
    ∷ class_entry (text "classAndVrmInstance")
    ∷ entry (text "isMultiphase") (text "IsMultiphase") (flag s.is_multiphase_setting) false
    ∷ entry (text "phaseCount") (text "PhaseCount") (int_default (pos 0)) false
    ∷ position_entry (text "position")
    ∷ entry (text "l1ReverseEnergy") (text "L1ReverseEnergy") energy_default true
    ∷ entry (text "l2ReverseEnergy") (text "L2ReverseEnergy") energy_default true
    ∷ entry (text "l3ReverseEnergy") (text "L3ReverseEnergy") energy_default true
    ∷ entry (text "supportMultiphase") (text "SupportMultiphase") (flag s.support_multiphase) false
    ∷ []

abbrev pub secondary_entries : List SettingEntry
secondary_entries =
    class_entry (text "l2ClassAndVrmInstance")
    ∷ entry (text "l2CustomName") (text "CustomName") (text_default []) false
    ∷ position_entry (text "l2Position")
    ∷ entry (text "piggyEnabled") (text "Enabled") (int_default (pos 0)) false
    ∷ []

-- The identifiers of the two services of a sensor, and the path of a setting.
abbrev pub primary_id : Text → Text
primary_id serial = text "cgwacs_" ++ serial

abbrev pub secondary_id : Text → Text
secondary_id serial = text "cgwacs_" ++ (serial ++ text "_S")

abbrev pub path_of : Text → SettingEntry → Text
path_of id e = text "/Settings/Devices/" ++ (id ++ b'/' ∷ e.name)

-- The constructor: the settings of both services, with their paths, and the two calls that allocate
-- a device instance.
unfoldable pub consumed : {D : Type 0} → AcSensorSettings D → List (Text × SettingEntry)
consumed s =
    map (λ e. (path_of (primary_id s.serial) e, e)) (primary_entries s)
    ++ map (λ e. (path_of (secondary_id s.serial) e, e)) secondary_entries

-- `MinDeviceInstance` of defines.h.
abbrev pub min_device_instance : ℤ
min_device_instance = pos 30

unfoldable pub allocated :
    {D : Type 0} → Numerals → AcSensorSettings D → (Text × Text) × (Text × Text)
unfolding init_device_instance
allocated q s = (
  init_device_instance q (primary_id s.serial) (text "grid") min_device_instance,
  init_device_instance q (secondary_id s.serial) (text "pvinverter") min_device_instance,
)
