-- ===== src/Updater/Handlers.antt =====
-- The constructor and the slots of software/src/ac_sensor_updater.cpp. A call that ends with the
-- next action takes the stopwatch's reading.
use dbus_cgwacs.Prelude.{
  ℕ, suc, Bool, true, false, ◌||◌, [], Option, none, some, leb, ◌==◌, if◌then◌else◌,
}
use dbus_cgwacs.Doubles.{Doubles}
use dbus_cgwacs.Modbus.Types.{ErrorType, timeout}
use dbus_cgwacs.Sensor.{
  AcSensor, ProtocolType, em24_protocol, et112_protocol, em300_protocol, unknown, set_protocol_type,
}
use dbus_cgwacs.Processor.{DataProcessor, update_energy_settings}
use dbus_cgwacs.Updater.State.{
  State, device_id, serial, wait_for_start, check_setup, set_application, check_measurement_system,
  set_measuring_system, check_measurement_mode, set_measurement_mode, acquisition, set_address,
  phase_reverse_energy, AcSensorUpdater, Outcome, done, fault, out_of_fuel, go_to, with_settings,
  disconnect_sensor, max_timeout_count, max_error_count,
}
use dbus_cgwacs.Updater.Engine.{is_em24, start_next_action}

abbrev pub is_wait_for_start : State → Bool
is_wait_for_start wait_for_start = true
is_wait_for_start _ = false

abbrev pub is_phase_reverse : State → Bool
is_phase_reverse phase_reverse_energy = true
is_phase_reverse _ = false

abbrev pub is_timeout : ErrorType → Bool
is_timeout timeout = true
is_timeout _ = false

-- The meters whose measuring system is checked, or set, after their measurement mode.
unfoldable pub after_mode : ProtocolType → State
after_mode em24_protocol = acquisition
after_mode et112_protocol = acquisition
after_mode unknown = acquisition
after_mode _ = check_measurement_system

unfoldable pub start_state : ProtocolType → State → State
start_state em24_protocol st = check_setup
start_state unknown st = st
start_state _ st = check_measurement_mode

module _ {D : Type 0} ⦃f : Doubles D⦄ where
  unfoldable pub on_both : (AcSensor D → AcSensor D) → AcSensorUpdater D → AcSensorUpdater D
  on_both g u = record u { ac_sensor = g u.ac_sensor; ac_pv_sensor = g u.ac_pv_sensor }

  -- The constructor.
  unfoldable pub new_updater : AcSensor D → AcSensor D → Bool → ℕ → Outcome (AcSensorUpdater D)
  new_updater sensor pv_sensor zigbee elapsed = start_next_action elapsed (record {
    data_processor = none;
    pv_data_processor = none;
    ac_sensor = sensor;
    ac_pv_sensor = pv_sensor;
    settings = none;
    timeout_count = 0;
    error_count = 0;
    measuring_system = 0;
    desired_measuring_system = 0;
    is_zigbee = zigbee;
    setup_requested = false;
    application = 0;
    state = device_id;
    commands = [];
    command_index = 0;
    acquisition_index = 0;
    set_current_sign = true;
    actions = [];
  })

  unfoldable pub start_measurements : ℕ → AcSensorUpdater D → Outcome (AcSensorUpdater D)
  start_measurements elapsed u = elim u.settings [
    | none ↦ done u
    | some s ↦
        if is_wait_for_start u.state
        then start_next_action elapsed (record u {
          acquisition_index = 0;
          command_index = 0;
          state = start_state u.ac_sensor.protocol_type u.state;
        })
        else done u
  ]

  -- `onErrorReceived` before it starts the next action.
  unfoldable pub older_meter : AcSensorUpdater D → AcSensorUpdater D
  older_meter u =
      if is_phase_reverse u.state
      then record u { ac_sensor = set_protocol_type em300_protocol u.ac_sensor; state = serial }
      else u

  unfoldable pub count_error : ErrorType → AcSensorUpdater D → AcSensorUpdater D
  count_error e u =
      if leb max_timeout_count u.timeout_count || leb max_error_count u.error_count
      then disconnect_sensor u
      else if is_timeout e
      then record u { timeout_count = suc u.timeout_count }
      else record u { error_count = suc u.error_count }

  unfoldable pub on_error_received :
      ErrorType
      → (addr exception_code elapsed : ℕ) → AcSensorUpdater D
      → Outcome (AcSensorUpdater D)
  on_error_received e addr code elapsed u =
      if addr == u.ac_sensor.slave_address
      then start_next_action elapsed (count_error e (older_meter u))
      else done u

  -- The end of `onReadCompleted` and of `onWriteCompleted`.
  unfoldable pub succeed : ℕ → AcSensorUpdater D → Outcome (AcSensorUpdater D)
  succeed elapsed u = start_next_action elapsed (record u { timeout_count = 0; error_count = 0 })

  -- The switch of `onWriteCompleted`.
  unfoldable pub write_step : AcSensorUpdater D → State
  write_step u = elim u.state [
    | set_application ↦
        if u.measuring_system == u.desired_measuring_system
        then acquisition
        else set_measuring_system
    | set_measuring_system ↦ acquisition
    | set_measurement_mode ↦ after_mode u.ac_sensor.protocol_type
    | set_address ↦ serial
    | _ ↦ if is_em24 u.ac_sensor.protocol_type then check_setup else acquisition
  ]

  unfoldable pub on_write_completed :
      (function addr address value elapsed : ℕ) → AcSensorUpdater D → Outcome (AcSensorUpdater D)
  on_write_completed function addr address value elapsed u =
      if addr == u.ac_sensor.slave_address then succeed elapsed (go_to (write_step u) u) else done u

  -- `updateEnergySettings` of a processor that may be null, with the meter it is for.
  unfoldable pub update_from :
      Option (DataProcessor D) → AcSensor D → AcSensorUpdater D → Outcome (AcSensorUpdater D)
  update_from none s u = done u
  update_from (some p) s u =
      with_settings u
        (λ settings. done (record u { settings = some (update_energy_settings p s settings) }))

  unfoldable pub on_update_settings : AcSensorUpdater D → Outcome (AcSensorUpdater D)
  on_update_settings u = elim (update_from u.data_processor u.ac_sensor u) [
    | done v ↦ update_from v.pv_data_processor v.ac_pv_sensor v
    | fault ↦ fault
    | out_of_fuel ↦ out_of_fuel
  ]

  -- `onPhaseCountChanged`, `onL2ServiceTypeChanged` and `onPiggyEnabledChanged`.
  unfoldable pub request_setup : AcSensorUpdater D → AcSensorUpdater D
  request_setup u = record u { setup_requested = true }
