-- ===== src/SensorBridge/Entries.antt =====
-- The items of the service of software/src/ac_sensor_bridge.cpp, in the order of its constructor.
use dbus_cgwacs.Prelude.{
  ℕ, Bool, true, false, ◌||◌, List, [], ◌∷◌, ◌++◌, Option, none, some, if◌then◌else◌,
}
use dbus_cgwacs.Prelude.Int.{ℤ, pos, negsuc}
use dbus_cgwacs.Prelude.Text.{Text, text, text_eq}
use dbus_cgwacs.Numerals.{Numerals}
use dbus_cgwacs.Settings.{AcSensorSettings, service_type, l2_service_type, phase_count}
use dbus_cgwacs.Settings.Classes.{device_instance, l2_device_instance}
use dbus_cgwacs.Sensor.{
  AcSensor, refresh_time, ProtocolType, em24_protocol, et112_protocol, et340_protocol,
  em540_protocol, em300_s27_protocol, em300_protocol, unknown,
}
use dbus_cgwacs.SensorBridge.Variants.{
  Variant, invalid, int_value, text_value, list_value, Conversions, contains, all_roles, l2_roles,
  role_from_dbus, position_from_dbus, custom_name_from_dbus,
}

-- The objects that the service reads: the sensor, its settings, and its phases.
abbrev pub sensor_object : ℕ
sensor_object = 0

abbrev pub settings_object : ℕ
settings_object = 1

abbrev pub total_object : ℕ
total_object = 2

abbrev pub l1_object : ℕ
l1_object = 3

abbrev pub l2_object : ℕ
l2_object = 4

abbrev pub l3_object : ℕ
l3_object = 5

-- The calls of `produce`: with a property, and with a value.
pub data Entry (D : Type 0) : Type 0 where
  bound : Text → ℕ → Text → Text → ℤ → Option (Variant D → Bool × Variant D) → Entry D
  constant : Text → Variant D → Entry D

-- What the layout of a service depends on.
pub record Layout : Type 0 where
  pub secondary : Bool
  pub grid : Bool
  pub charger : Bool
  pub positioned : Bool

-- The names of the product ids of velib, and the switch over them.
pub data Product : Type 0 where
  em24 em24_piggy_back et112 et340 et340_piggy_back em540 em540_piggy_back : Product
  em300_spec27 em300_spec27_piggy_back em300 em300_piggy_back : Product

unfoldable pub product_of : ProtocolType → Bool → Option Product
product_of em24_protocol s = some (if s then em24_piggy_back else em24)
product_of et112_protocol s = some et112
product_of et340_protocol s = some (if s then et340_piggy_back else et340)
product_of em540_protocol s = some (if s then em540_piggy_back else em540)
product_of em300_s27_protocol s = some (if s then em300_spec27_piggy_back else em300_spec27)
product_of em300_protocol s = some (if s then em300_piggy_back else em300)
product_of unknown s = none

module _ {D : Type 0} (c : Conversions D) where
  abbrev pub plain : Text → ℕ → Text → Text → ℤ → Entry D
  plain path src property unit precision = bound path src property unit precision none

  abbrev pub power_info : ℕ → Text → Bool → Bool → List (Entry D)
  power_info src path grid total =
      (if total
        then []
        else plain (path ++ text "/Current") src (text "current") (text "A") (pos 1)
          ∷ plain (path ++ text "/Voltage") src (text "voltage") (text "V") (pos 0)
          ∷ [])
      ++ (plain (path ++ text "/Power") src (text "power") (text "W") (pos 0)
          ∷ plain (path ++ text "/PowerFactor") src (text "powerFactor") [] (pos 3)
          ∷ plain (path ++ text "/Energy/Forward") src (text "energyForward") (text "kWh") (pos 1)
          ∷ (if grid
              then plain (path ++ text "/Energy/Reverse") src (text "energyReverse") (text "kWh")
                  (pos 1)
                ∷ []
              else []))

  abbrev pub sensor_entries : List (Entry D)
  sensor_entries =
      plain (text "/Connected") sensor_object (text "connectionState") [] (negsuc 0)
      ∷ plain (text "/ErrorCode") sensor_object (text "errorCode") [] (negsuc 0)
      ∷ plain (text "/Ac/Frequency") sensor_object (text "frequency") (text "Hz") (pos 1)
      ∷ []

  abbrev pub charger_entries : Bool → List (Entry D)
  charger_entries charger =
      if charger
      then plain (text "/Current") l1_object (text "current") (text "A") (pos 1) ∷ []
      else []

  abbrev pub settings_entries : Bool → Bool → List (Entry D)
  settings_entries secondary positioned =
      (if positioned
        then bound (text "/Position") settings_object
            (if secondary then text "l2Position" else text "position") [] (negsuc 0)
            (some (position_from_dbus c))
          ∷ []
        else [])
      ++ (plain (text "/ProductName") settings_object
            (if secondary then text "l2ProductName" else text "productName") [] (negsuc 0)
          ∷ bound (text "/CustomName") settings_object
              (if secondary then text "l2CustomName" else text "customName") [] (negsuc 0)
              (some (custom_name_from_dbus c))
          ∷ bound (text "/Role") settings_object
              (if secondary then text "l2ServiceType" else text "serviceType") [] (negsuc 0)
              (some (role_from_dbus c))
          ∷ [])

  -- The items that follow properties, in the order of the constructor.
  abbrev pub bindings : Layout → List (Entry D)
  bindings l =
      sensor_entries
      ++ (power_info total_object (text "/Ac") l.grid true
          ++ (power_info l1_object (text "/Ac/L1") l.grid false
              ++ (power_info l2_object (text "/Ac/L2") l.grid false
                  ++ (power_info l3_object (text "/Ac/L3") l.grid false
                      ++ (charger_entries l.charger
                          ++ settings_entries l.secondary l.positioned)))))

-- What a service shows that does not change: the values of the application, of the port, and of velib.
pub record Environment : Type 0 where
  pub process_name : Text
  pub process_version : Text
  pub port_name : Text
  pub product_id : Product → ℤ

abbrev pub product_value : Environment → Option Product → ℤ
product_value e none = pos 0
product_value e (some p) = e.product_id p

abbrev pub is_negative : ℤ → Bool
is_negative (pos n) = false
is_negative (negsuc n) = true

module _ {D : Type 0} (q : Numerals) (e : Environment) where
  abbrev pub phase_sequence_value : AcSensorSettings D → AcSensor D → Variant D
  phase_sequence_value s m =
      if s.piggy_enabled || is_negative m.phase_sequence
      then invalid
      else int_value m.phase_sequence

  abbrev pub constants : Layout → AcSensorSettings D → AcSensor D → List (Entry D)
  constants l s m =
      constant (text "/Mgmt/ProcessName") (text_value e.process_name)
      ∷ constant (text "/Mgmt/ProcessVersion") (text_value e.process_version)
      ∷ constant (text "/FirmwareVersion") (text_value m.firmware_version)
      ∷ constant (text "/NrOfPhases") (int_value (pos (if l.secondary then 1 else phase_count s)))
      ∷ constant (text "/PhaseSequence") (phase_sequence_value s m)
      ∷ constant (text "/ProductId")
          (int_value (product_value e (product_of m.protocol_type l.secondary)))
      ∷ constant (text "/DeviceType") (int_value (pos m.device_type))
      ∷ constant (text "/Mgmt/Connection") (text_value e.port_name)
      ∷ constant (text "/DeviceInstance")
          (int_value (if l.secondary then l2_device_instance q s else device_instance q s))
      ∷ constant (text "/Serial")
          (text_value (if l.secondary then m.serial ++ text "_S" else m.serial))
      ∷ constant (text "/AllowedRoles") (list_value (if l.secondary then l2_roles else all_roles))
      ∷ constant (text "/RefreshTime") (int_value (pos (refresh_time m)))
      ∷ (if l.grid then [] else constant (text "/IsGenericEnergyMeter") (int_value (pos 1)) ∷ [])

-- Whether the service is a grid meter by its own role, an EV charger by the role of the sensor, and
-- has a position.
unfoldable pub layout_of : {D : Type 0} → Bool → AcSensorSettings D → Layout
layout_of secondary s = record {
  secondary = secondary;
  grid = text_eq (if secondary then l2_service_type s else service_type s) (text "grid");
  charger = text_eq (service_type s) (text "evcharger");
  positioned =
      secondary
      || contains (service_type s)
          (text "pvinverter" ∷ text "evcharger" ∷ text "heatpump" ∷ text "acload" ∷ []);
}
