-- ===== src/Tests/Engines.antt =====
-- The updater at sample values: events, timeouts, a table and the setup of an EM24.
use dbus_cgwacs.Prelude.{
  ◌+◌, ◌≤◌, ◌≡◌, ◌≢◌, inl, inr, ◌++◌, refl, true, false, List, [], ◌∷◌, none, arith, ◌==◌,
  if◌then◌else◌,
}
use dbus_cgwacs.Prelude.Text.{text}
use dbus_cgwacs.Defines.{multiphase}
use dbus_cgwacs.Modbus.Types.{timeout, crc_error}
use dbus_cgwacs.Settings.{AcSensorSettings, new_settings, is_multiphase, phase_count}
use dbus_cgwacs.Sensor.{
  em540_protocol, em24_protocol, unknown, et112_protocol, new_sensor, AcSensor,
}
use dbus_cgwacs.Updater.Tables.{
  RegisterCommand, em540_p1_commands, em112_commands, positive_energy, negative_energy, frequency,
}
use dbus_cgwacs.Updater.State.{
  AcSensorUpdater, done, out_of_fuel, device_id, acquisition, set_measuring_system, go_to, act,
  read_action, write_action, disconnect_sensor, fault, read_registers,
}
use dbus_cgwacs.Updater.Handlers.{new_updater, on_error_received, write_step}
use dbus_cgwacs.Updater.Reading.{on_read_completed, em24_system, read_setup, read_selector}
use dbus_cgwacs.Updater.Engine.{start_next_action, on_wait_finished, table_of}
use dbus_cgwacs.Updater.Values.{is_none}
use dbus_cgwacs.Updater.Events.{Event, error_received_event, read_completed_event, run_events}
use dbus_cgwacs.Updater.Ending.{run_events_ends}
use dbus_cgwacs.Updater.Losing.{IsLost, count_errors, count_errors-sixth_timeout}
use dbus_cgwacs.Updater.GivingUp.{GivesUp, on_error_received-GivesUp}
use dbus_cgwacs.Updater.Layout.{width, first_register, table_entry_fits, last_interval_is_largest}
use dbus_cgwacs.Updater.Requests.{lost_state, lost_with_request_faults}
use dbus_cgwacs.Updater.Setup.{setup_writes}
use dbus_cgwacs.Tests.Samples.{Sample, no_number, samples, stroke_numerals}

abbrev plain_sensor : AcSensor Sample
plain_sensor = new_sensor unknown no_number no_number 1

abbrev plain_settings : AcSensorSettings Sample
plain_settings = new_settings true (text "A1")

abbrev plain_updater : AcSensorUpdater Sample
plain_updater = record {
  data_processor = none;
  pv_data_processor = none;
  ac_sensor = plain_sensor;
  ac_pv_sensor = plain_sensor;
  settings = none;
  timeout_count = 5;
  error_count = 0;
  measuring_system = 0;
  desired_measuring_system = 0;
  is_zigbee = false;
  setup_requested = false;
  application = 0;
  state = device_id;
  commands = [];
  command_index = 0;
  acquisition_index = 0;
  set_current_sign = true;
  actions = [];
}

-- An EM24 answers, and gives a serial number; then a timeout.
abbrev events : List (Event Sample)
events =
    read_completed_event 3 1 (71 ∷ []) 0
    ∷ read_completed_event 3 1 (0x4142 ∷ 0x4344 ∷ []) 0
    ∷ error_received_event timeout 1 0 0
    ∷ []

run_events_ends_example :
    run_events events (new_updater plain_sensor plain_sensor false 0) ≢ out_of_fuel
run_events_ends_example = run_events_ends events plain_sensor plain_sensor false 0

sixth_timeout_example :
    (count_errors 5 timeout (record plain_updater { timeout_count = 0 })
      ≡ record plain_updater { timeout_count = 5 })
    × IsLost (count_errors 6 timeout (record plain_updater { timeout_count = 0 }))
sixth_timeout_example = count_errors-sixth_timeout plain_updater (omega arith)

-- A meter in acquisition with five timeouts, behind Zigbee.
abbrev silent_updater : AcSensorUpdater Sample
silent_updater = record plain_updater { state = acquisition; timeout_count = 5; is_zigbee = true }

on_error_received-GivesUp_example :
    (v : AcSensorUpdater Sample) × (on_error_received timeout 1 0 7 silent_updater ≡ done v)
    × GivesUp silent_updater v
    × (w : AcSensorUpdater Sample) × (on_wait_finished 9 v ≡ done w)
    × (w.actions ≡ v.actions ++ read_action 1 0x000B 1 ∷ [])
    × (x : AcSensorUpdater Sample) × (on_error_received crc_error 1 0 8 w ≡ done x)
    × GivesUp w x
unfolding new_sensor
on_error_received-GivesUp_example =
    on_error_received-GivesUp timeout crc_error 1 0 0 7 9 8 silent_updater refl (inl (omega arith))
      refl

abbrev frequency_entry : RegisterCommand
frequency_entry = record { reg_offset = 0; action = frequency; phase = multiphase }

table_entry_fits_example :
    (0 + width em540_protocol frequency ≤ 2)
    × (first_register em540_protocol frequency_entry ≡ 0)
    × (2 ≤ 20)
    × (1 ≤ 8)
    × (is_none frequency ≡ false)
unfolding table_of em540_p1_commands is_multiphase phase_count new_settings
table_entry_fits_example =
    table_entry_fits em540_protocol plain_settings em540_p1_commands 3 0
      (record { reg = 0x053C; count = 2; interval = 3; actions = frequency_entry ∷ [] })
      frequency_entry refl refl refl

-- An EM24 whose measuring system is not the wanted one, and that reports application H.
abbrev em24_updater : AcSensorUpdater Sample
em24_updater = record plain_updater { ac_sensor = new_sensor em24_protocol no_number no_number 1 }

setup_writes_example :
    let s = plain_settings in
    let v = read_setup 7 1 s em24_updater in
    let w = read_selector 0 v in
    let x = go_to set_measuring_system w in
    (start_next_action 5 v ≡ done (act (read_action 1 0x0304 1) v))
    × (start_next_action 5 w ≡ done (act (write_action 1 0x1101 7) w))
    × (write_step w ≡ (if 1 == em24_system s then acquisition else set_measuring_system))
    × (start_next_action 5 x ≡ done (act (write_action 1 0x1102 (em24_system s)) x))
    × (write_step x ≡ acquisition)
unfolding em24_system is_multiphase phase_count new_settings new_sensor
setup_writes_example =
    setup_writes 7 1 0 5 plain_settings em24_updater (omega arith) (λ e. omega arith)
      (inr (λ e. ground arith)) refl refl

abbrev requested_updater : AcSensorUpdater Sample
requested_updater = record plain_updater {
  setup_requested = true;
  ac_sensor = new_sensor em24_protocol no_number no_number 1;
}

lost_with_request_example :
    let v = read_registers 0x1101 2 (lost_state requested_updater) in
    (start_next_action 0 (disconnect_sensor requested_updater) ≡ done v)
    × (on_read_completed 3 v.ac_sensor.slave_address (7 ∷ 0 ∷ []) 0 v ≡ fault)
unfolding new_sensor
lost_with_request_example = lost_with_request_faults 0 3 0 (7 ∷ 0 ∷ []) requested_updater refl refl

abbrev energy_entry : RegisterCommand
energy_entry = record { reg_offset = 1; action = positive_energy; phase = multiphase }

last_interval_example : 2 ≤ 3
unfolding table_of em112_commands
last_interval_example =
    last_interval_is_largest et112_protocol plain_settings em112_commands 2
      (record {
        reg = 0x000F;
        count = 3;
        interval = 2;
        actions =
            record { reg_offset = 0; action = frequency; phase = multiphase } ∷ energy_entry ∷ [];
      })
      (record {
        reg = 0x0020;
        count = 2;
        interval = 3;
        actions = record { reg_offset = 0; action = negative_energy; phase = multiphase } ∷ [];
      })
      refl refl refl
