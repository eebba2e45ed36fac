-- ===== src/Updater/Engine.antt =====
-- `startNextAction`, `startNextAcquisition` and `onWaitFinished` of
-- software/src/ac_sensor_updater.cpp, which call each other. Fuel counts the calls of
-- `startNextAction` within one; four are enough (Updater/Fuel).
use dbus_cgwacs.Prelude.{
  ℕ, zero, suc, ◌-◌, Bool, true, false, not, ◌&&◌, ◌||◌, List, [], ◌∷◌, Option, none, some, ltb,
  ◌==◌, if◌then◌else◌, drop,
}
use dbus_cgwacs.Doubles.{Doubles}
use dbus_cgwacs.Settings.{AcSensorSettings, is_multiphase, new_settings}
use dbus_cgwacs.Sensor.{
  ProtocolType, em24_protocol, et112_protocol, et340_protocol, em540_protocol, em300_s27_protocol,
  em300_protocol, unknown, searched, detected, connected, set_connection_state, reset_values,
  support_multiphase, support_fastloop,
}
use dbus_cgwacs.Processor.{new_processor}
use dbus_cgwacs.Updater.Tables.{
  CompositeCommand, em24_commands, em24_commands_p1, em24_commands_p1_pv, em112_commands,
  et340_commands, et340_p1_commands, et340_commands_p1_pv, em300_commands, em300_p1_commands,
  em300_commands_p1_pv, em540_commands, em540_p1_commands, em540_commands_p1_pv,
  em300_s27_p1_commands,
}
use dbus_cgwacs.Updater.State.{
  State, device_id, serial, firmware_version, wait_for_start, check_setup, check_front_selector,
  wait_front_selector, set_application, check_measurement_system, set_measuring_system,
  check_measurement_mode, set_measurement_mode, acquisition, wait, wait_on_connection_lost,
  set_address, phase_sequence, phase_reverse_energy, AcSensorUpdater, Outcome, done, fault,
  out_of_fuel, timer_action, flush_action, act, go_to, read_registers, write_register,
  with_settings, get_max_interval,
}

abbrev pub is_em24 : ProtocolType → Bool
is_em24 em24_protocol = true
is_em24 _ = false

-- The choice by phases: multiphase, one phase with a PV inverter on another, one phase.
abbrev pub by_phases :
    {D : Type 0}
    → List CompositeCommand
    → List CompositeCommand
    → List CompositeCommand
    → AcSensorSettings D
    → List CompositeCommand
by_phases multi pv single s =
    if is_multiphase s then multi else (if s.piggy_enabled then pv else single)

-- The table of a meter with settings; `none` is the protocol for which the code asserts.
unfoldable pub table_of :
    {D : Type 0} → ProtocolType → AcSensorSettings D → Option (List CompositeCommand)
table_of em24_protocol s = some (by_phases em24_commands em24_commands_p1_pv em24_commands_p1 s)
table_of et112_protocol s = some em112_commands
table_of et340_protocol s = some (by_phases et340_commands et340_commands_p1_pv et340_p1_commands s)
table_of em300_protocol s = some (by_phases em300_commands em300_commands_p1_pv em300_p1_commands s)
table_of em540_protocol s = some (by_phases em540_commands em540_commands_p1_pv em540_p1_commands s)
table_of em300_s27_protocol s =
    some (by_phases em24_commands em24_commands_p1_pv em300_s27_p1_commands s)
table_of unknown s = none

-- Whether choosing the table reads the settings.
abbrev pub reads_settings : ProtocolType → Bool
reads_settings et112_protocol = false
reads_settings unknown = false
reads_settings _ = true

-- The loop of `startNextAcquisition`: the next command due in this cycle, with its index.
unfoldable pub find_due : ℕ → ℕ → List CompositeCommand → Option (ℕ × CompositeCommand)
find_due acq i [] = none
find_due acq i (c ∷ cs) =
    let later = find_due acq (suc i) cs in
    if c.interval == 0 || acq == c.interval then some (i, c) else later

unfoldable pub firmware_register : ProtocolType → ℕ
firmware_register em24_protocol = 0x0303
firmware_register et112_protocol = 0x0303
firmware_register _ = 0x0302

unfoldable pub sequence_register : ProtocolType → ℕ
sequence_register em24_protocol = 0x0036
sequence_register em540_protocol = 0x010E
sequence_register _ = 0x0032

unfoldable pub system_register : ProtocolType → ℕ
system_register p = if is_em24 p then 0x1102 else 0x1002

module _ {D : Type 0} ⦃f : Doubles D⦄ where
  -- What `startNextAction` does first.
  unfoldable pub apply_setup_request : AcSensorUpdater D → AcSensorUpdater D
  apply_setup_request u =
      if u.setup_requested
      then record u {
        setup_requested = false;
        ac_sensor = reset_values u.ac_sensor;
        ac_pv_sensor = reset_values u.ac_pv_sensor;
        state = setup_state u.ac_sensor.protocol_type u.state;
      }
      else u
    where
      setup_state : ProtocolType → State → State
      setup_state em24_protocol st = check_setup
      setup_state et112_protocol st = st
      setup_state unknown st = st
      setup_state _ st = check_measurement_mode

  unfoldable pub choose_table : AcSensorUpdater D → Outcome (AcSensorUpdater D)
  choose_table u = elim u.settings [
    | none ↦
        if reads_settings u.ac_sensor.protocol_type
        then fault
        else done (choose_plain u.ac_sensor.protocol_type u)
    | some s ↦ done (choose_with (table_of u.ac_sensor.protocol_type s) u)
  ]
    where
      choose_plain : ProtocolType → AcSensorUpdater D → AcSensorUpdater D
      choose_plain et112_protocol v = record v { commands = em112_commands }
      choose_plain _ v = v

      choose_with : Option (List CompositeCommand) → AcSensorUpdater D → AcSensorUpdater D
      choose_with none v = v
      choose_with (some t) v = record v { commands = t }

  -- The end of a cycle, before the next action starts.
  unfoldable pub end_cycle : ℕ → AcSensorUpdater D → AcSensorUpdater D
  end_cycle last u =
      let v = record u {
        state = wait;
        command_index = 0;
        acquisition_index = suc u.acquisition_index;
      } in
      let w =
        if ltb last v.acquisition_index
        then record v {
          acquisition_index = 0;
          ac_sensor = set_connection_state connected v.ac_sensor;
          ac_pv_sensor = set_connection_state connected v.ac_pv_sensor;
        }
        else v in
      if support_fastloop w.ac_sensor then act flush_action w else w

  -- The end of the loop of `startNextAcquisition`: the last interval of the table is read.
  unfoldable pub next_cycle :
      (AcSensorUpdater D → Outcome (AcSensorUpdater D))
      → Option ℕ
      → AcSensorUpdater D
      → Outcome (AcSensorUpdater D)
  next_cycle again none u = fault
  next_cycle again (some last) u = again (end_cycle last u)

  unfoldable pub read_due :
      (AcSensorUpdater D → Outcome (AcSensorUpdater D))
      → Option (ℕ × CompositeCommand)
      → AcSensorUpdater D
      → Outcome (AcSensorUpdater D)
  read_due again (some due) u =
      done (read_registers due.1.reg due.1.count (record u { command_index = due.0 }))
  read_due again none u = next_cycle again (get_max_interval u) u

  unfoldable pub start_next_acquisition :
      (AcSensorUpdater D → Outcome (AcSensorUpdater D))
      → AcSensorUpdater D
      → Outcome (AcSensorUpdater D)
  start_next_acquisition again u =
      read_due again
        (find_due u.acquisition_index u.command_index (drop u.command_index u.commands)) u

  -- The case `Acquisition` of `startNextAction`, after the choice of the table.
  unfoldable pub acquire :
      (AcSensorUpdater D → Outcome (AcSensorUpdater D))
      → Outcome (AcSensorUpdater D)
      → Outcome (AcSensorUpdater D)
  acquire again (done v) = start_next_acquisition again v
  acquire again fault = fault
  acquire again out_of_fuel = out_of_fuel

  -- `onWaitFinished` before it starts the next action.
  unfoldable pub finish_wait : AcSensorUpdater D → AcSensorUpdater D
  finish_wait u = elim u.state [
    | wait ↦ go_to acquisition u
    | wait_front_selector ↦ go_to check_setup u
    | wait_on_connection_lost ↦ go_to device_id u
    | _ ↦ go_to (if is_em24 u.ac_sensor.protocol_type then check_setup else acquisition) u
  ]

  -- `MeasurementModeB` and `MeasurementModeC`.
  unfoldable pub desired_mode : ProtocolType → AcSensorSettings D → ℕ
  desired_mode em540_protocol s = if s.piggy_enabled then 1 else 2
  desired_mode _ s = 1

  unfoldable pub set_mode : ProtocolType → AcSensorUpdater D → Outcome (AcSensorUpdater D)
  set_mode em540_protocol u =
      with_settings u (λ s. done (write_register 0x1103 (desired_mode em540_protocol s) u))
  set_mode _ u = done (write_register 0x1103 1 u)

  -- The case `WaitForStart`: a new settings object, and two new processors.
  unfoldable pub create_settings : AcSensorUpdater D → AcSensorUpdater D
  create_settings u = record u {
    settings = some (new_settings (support_multiphase u.ac_sensor) u.ac_sensor.serial);
    data_processor = some new_processor;
    pv_data_processor = some new_processor;
    ac_sensor = set_connection_state detected u.ac_sensor;
  }

  -- The switch of `startNextAction`; `elapsed` is what the stopwatch reads, in milliseconds.
  unfoldable pub start_action :
      (AcSensorUpdater D → Outcome (AcSensorUpdater D))
      → ℕ
      → AcSensorUpdater D
      → Outcome (AcSensorUpdater D)
  start_action again elapsed u = elim u.state [
    | device_id ↦ done (
        read_registers 0x000B 1
          (record u { ac_sensor = set_connection_state searched u.ac_sensor }))
    | serial ↦
        done (read_registers (if is_em24 u.ac_sensor.protocol_type then 0x1300 else 0x5000) 7 u)
    | firmware_version ↦ done (read_registers (firmware_register u.ac_sensor.protocol_type) 1 u)
    | phase_sequence ↦ done (read_registers (sequence_register u.ac_sensor.protocol_type) 1 u)
    | phase_reverse_energy ↦ done (read_registers 0x0060 2 u)
    | check_setup ↦ done (read_registers 0x1101 2 u)
    | check_front_selector ↦ done (read_registers 0x0304 1 u)
    | wait_front_selector ↦ done (act (timer_action 5000) u)
    | set_application ↦ done (write_register 0x1101 7 u)
    | set_measuring_system ↦
        done
          (write_register (system_register u.ac_sensor.protocol_type) u.desired_measuring_system u)
    | check_measurement_mode ↦ done (read_registers 0x1103 1 u)
    | check_measurement_system ↦
        done (read_registers (system_register u.ac_sensor.protocol_type) 1 u)
    | set_measurement_mode ↦ set_mode u.ac_sensor.protocol_type u
    | wait_for_start ↦ done (create_settings u)
    | acquisition ↦ acquire again (choose_table u)
    | wait ↦
        if not (support_fastloop u.ac_sensor) && ltb elapsed 200
        then done (act (timer_action (250 - elapsed)) u)
        else again (finish_wait u)
    | wait_on_connection_lost ↦ done (act (timer_action (if u.is_zigbee then 30000 else 15000)) u)
    | set_address ↦ done (write_register 0x2000 2 u)
  ]

  unfoldable pub run_action : ℕ → ℕ → AcSensorUpdater D → Outcome (AcSensorUpdater D)
  run_action zero elapsed u = out_of_fuel
  run_action (suc n) elapsed u = start_action (run_action n elapsed) elapsed (apply_setup_request u)

  unfoldable pub start_next_action : ℕ → AcSensorUpdater D → Outcome (AcSensorUpdater D)
  start_next_action elapsed u = run_action 4 elapsed u

  unfoldable pub on_wait_finished : ℕ → AcSensorUpdater D → Outcome (AcSensorUpdater D)
  on_wait_finished elapsed u = start_next_action elapsed (finish_wait u)
