-- ===== src/Tests/Meters.antt =====
-- The settings, the sensor and the data processor at sample values.
use dbus_cgwacs.Prelude.{
  ◌≡◌, ◌↔◌, refl, true, false, List, [], ◌∷◌, arith, ltb, ◌==◌, if◌then◌else◌,
}
use dbus_cgwacs.Prelude.Int.{pos}
use dbus_cgwacs.Prelude.PlaceMarkers.{arg, lowest, replace_marker}
use dbus_cgwacs.Prelude.Text.{text, has_char}
use dbus_cgwacs.Defines.{multiphase, phase_l1, phase_l2}
use dbus_cgwacs.Settings.{
  AcSensorSettings, new_settings, phase_count, set_piggy_enabled, set_phase_count, service_type,
  l2_service_type,
}
use dbus_cgwacs.Settings.Phases.{Consistent, set_piggy_enabled-true, set_phase_count-many}
use dbus_cgwacs.Settings.Announce.{Announces}
use dbus_cgwacs.Settings.Changes.{
  Change, multiphase_change, piggy_change, phase_count_change, apply_change, apply_changes,
  apply_changes-Consistent, apply_change-Announces, new_settings-Consistent,
}
use dbus_cgwacs.Settings.Classes.{
  device_instance, l2_device_instance, set_service_type, set_l2_service_type,
  set_service_type-keeps_instance,
}
use dbus_cgwacs.Sensor.{
  AcSensor, em24_protocol, et340_protocol, unknown, protocol_of, new_sensor, set_device_type,
  reset_values, set_power, set_energy_reverse, on_phase, set_power_factor, set_energy_forward,
  set_voltage, set_current,
}
use dbus_cgwacs.Sensor.Kinds.{HasProtocol, protocol_of_iff, set_device_type-new}
use dbus_cgwacs.Sensor.Reset.{IsBlank, reset_values-IsBlank}
use dbus_cgwacs.Processor.{DataProcessor, set_negative_sum, reverse_energy, negative_power}
use dbus_cgwacs.Processor.Energy.{set_negative_sum-no_l3}
use dbus_cgwacs.Processor.Growth.{Tally, set_negative_sum-grows}
use dbus_cgwacs.Tests.Samples.{
  Sample, no_number, number, samples, samples_nan, samples_order, stroke_numerals, stroke_laws,
}

abbrev pub plain_settings : AcSensorSettings Sample
plain_settings = new_settings true (text "A1")

-- What a sensor is that was told nothing but an identifier.
abbrev pub plain_sensor : AcSensor Sample
plain_sensor = new_sensor unknown no_number no_number 1

-- A meter with 100 and 40 as the energy of L1 and L2, and powers that were -3 and -1.
abbrev energy_sensor : AcSensor Sample
energy_sensor = on_phase phase_l1 (set_energy_reverse (number (pos 100))) (
    on_phase phase_l2 (set_energy_reverse (number (pos 40)))
      (on_phase multiphase (set_energy_reverse (number (pos 140))) plain_sensor))

abbrev energy_processor : DataProcessor Sample
energy_processor = record {
  negative_total = number (pos 4);
  negative_l1 = number (pos 3);
  negative_l2 = number (pos 1);
  negative_l3 = number (pos 0);
  store_reverse_energy = false;
}

energy_Tally : Tally energy_processor
unfolding samples
energy_Tally = record { total_nonneg = refl; l1_nonneg = refl; l2_nonneg = refl; l3_nonneg = refl }

set_negative_sum-grows_example :
    samples.less_eq (reverse_energy phase_l1 energy_sensor) (
      reverse_energy phase_l1
        (set_negative_sum plain_settings (number (pos 150)) (energy_sensor, energy_processor)).0)
    ≡ true
unfolding samples reverse_energy on_phase set_energy_reverse new_sensor set_power_factor
    set_energy_forward set_voltage set_power set_current negative_power
set_negative_sum-grows_example =
    set_negative_sum-grows samples_order plain_settings (number (pos 150)) energy_sensor
      energy_processor phase_l1 (λ e. ground arith) refl refl refl energy_Tally

set_negative_sum-no_l3_example :
    (set_negative_sum plain_settings (number (pos 150)) (energy_sensor, energy_processor)).0.l3
    ≡ energy_sensor.l3
unfolding phase_count new_settings
set_negative_sum-no_l3_example =
    set_negative_sum-no_l3 plain_settings (number (pos 150)) energy_sensor energy_processor refl

abbrev changes : List (Change Sample)
changes = multiphase_change true ∷ piggy_change true ∷ phase_count_change (pos 2) ∷ []

apply_changes-Consistent_example : Consistent (apply_changes changes plain_settings)
apply_changes-Consistent_example =
    apply_changes-Consistent changes plain_settings (new_settings-Consistent true (text "A1"))

apply_change-Announces_example :
    Announces plain_settings (apply_change (multiphase_change true) plain_settings)
apply_change-Announces_example = apply_change-Announces (multiphase_change true) plain_settings

set_piggy_enabled-true_example :
    let s' = set_piggy_enabled true plain_settings in
    (s'.piggy_enabled ≡ true) × (phase_count s' ≡ 1)
set_piggy_enabled-true_example =
    set_piggy_enabled-true plain_settings (new_settings-Consistent true (text "A1"))

set_phase_count-many_example :
    let s' = set_phase_count (pos 5) plain_settings in
    (phase_count s' ≡ (if ltb 3 5 then 3 else 5)) × (s'.piggy_enabled ≡ false)
unfolding new_settings
set_phase_count-many_example =
    set_phase_count-many 5 plain_settings (new_settings-Consistent true (text "A1")) refl
      (omega arith)

-- The marker of a text that was put in is replaced by the next one.
arg_twice : arg (arg (text "%1:%2") (text "%1")) (text "30") ≡ text "30:%2"
unfolding arg lowest replace_marker
arg_twice = refl

set_service_type-keeps_example :
    (service_type (set_service_type stroke_numerals (text "grid") plain_settings) ≡ text "grid")
    × (device_instance stroke_numerals
          (set_service_type stroke_numerals (text "grid") plain_settings)
        ≡ device_instance stroke_numerals plain_settings)
    × (l2_service_type (set_l2_service_type stroke_numerals (text "grid") plain_settings)
        ≡ text "grid")
    × (l2_device_instance stroke_numerals
          (set_l2_service_type stroke_numerals (text "grid") plain_settings)
        ≡ l2_device_instance stroke_numerals plain_settings)
unfolding has_char
set_service_type-keeps_example =
    set_service_type-keeps_instance stroke_numerals stroke_laws (text "grid") plain_settings refl
      refl

protocol_of_example : (protocol_of 71 ≡ em24_protocol) ↔ HasProtocol em24_protocol 71
protocol_of_example = protocol_of_iff em24_protocol 71

set_device_type-new_example :
    (set_device_type 0 (new_sensor et340_protocol no_number no_number 1)).protocol_type
    ≡ (if 0 == 0 then et340_protocol else protocol_of 0)
set_device_type-new_example = set_device_type-new et340_protocol no_number no_number 1 0

reset_values-IsBlank_example :
    let s' = reset_values energy_sensor in
    IsBlank s'.total
    × IsBlank s'.l1
    × IsBlank s'.l2
    × IsBlank s'.l3
    × (s'.frequency ≡ energy_sensor.frequency)
    × (s'.connection_state ≡ energy_sensor.connection_state)
    × (s'.device_type ≡ energy_sensor.device_type)
    × (s'.protocol_type ≡ energy_sensor.protocol_type)
    × (s'.error_code ≡ energy_sensor.error_code)
    × (s'.firmware_version ≡ energy_sensor.firmware_version)
    × (s'.slave_address ≡ energy_sensor.slave_address)
    × (s'.serial ≡ energy_sensor.serial)
    × (s'.role ≡ energy_sensor.role)
    × (s'.phase_sequence ≡ energy_sensor.phase_sequence)
    × (s'.emitted ≡ energy_sensor.emitted)
reset_values-IsBlank_example = reset_values-IsBlank samples_nan energy_sensor
