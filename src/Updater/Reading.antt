-- ===== src/Updater/Reading.antt =====
-- `onReadCompleted` of software/src/ac_sensor_updater.cpp: what a reply does in each state.
use dbus_cgwacs.Prelude.{
  ℕ, suc, ◌/◌, ◌%◌, Bool, true, false, not, ◌&&◌, ◌||◌, List, [], ◌∷◌, none, some, length, ltb,
  ◌==◌, if◌then◌else◌,
}
use dbus_cgwacs.Prelude.Int.{pos}
use dbus_cgwacs.Prelude.Text.{Text}
use dbus_cgwacs.Doubles.{Doubles}
use dbus_cgwacs.Numerals.{Numerals}
use dbus_cgwacs.Modbus.Types.{timeout}
use dbus_cgwacs.Settings.{AcSensorSettings, is_multiphase}
use dbus_cgwacs.Sensor.{
  ProtocolType, em24_protocol, et112_protocol, et340_protocol, em540_protocol, em300_s27_protocol,
  em300_protocol, unknown, set_device_type, set_serial, set_firmware_version, set_phase_sequence,
  set_error_code, is_em540,
}
use dbus_cgwacs.Updater.State.{
  device_id, serial, firmware_version, wait_for_start, check_setup, check_front_selector,
  wait_front_selector, set_application, check_measurement_system, set_measuring_system,
  check_measurement_mode, set_measurement_mode, acquisition, wait, phase_sequence,
  phase_reverse_energy, AcSensorUpdater, Outcome, done, fault, out_of_fuel, go_to, with_register,
  with_settings, disconnect_sensor,
}
use dbus_cgwacs.Updater.Engine.{desired_mode}
use dbus_cgwacs.Updater.Values.{process_acquisition_data}
use dbus_cgwacs.Updater.Handlers.{after_mode, on_both, on_error_received, succeed}

-- A case of a slot's switch: it breaks, and the slot goes on, or it returns from the slot.
pub data Progress (A : Type 0) : Type 0 where
  goes_on : A → Progress A
  returns : A → Progress A

unfoldable pub has_phase_sequence : ProtocolType → Bool
has_phase_sequence et112_protocol = false
has_phase_sequence unknown = false
has_phase_sequence _ = true

-- The characters of a serial number, the zeroes removed.
unfoldable pub without_zeroes : Text → Text
without_zeroes [] = []
without_zeroes (c ∷ t) = let rest = without_zeroes t in if c == 0 then rest else c ∷ rest

unfoldable pub characters : List ℕ → Text
characters [] = []
characters (r ∷ rs) = r / 256 ∷ r % 256 ∷ characters rs

unfoldable pub serial_of : List ℕ → Text
serial_of rs = without_zeroes (characters rs)

module _ {D : Type 0} where
  -- 3 and 0 stand for `MeasurementSystemP1` and `MeasurementSystemP3`, here and below, 2 for
  -- `MeasurementSystemP2`.
  unfoldable pub em24_system : AcSensorSettings D → ℕ
  em24_system s = if is_multiphase s || s.piggy_enabled then 0 else 3

  unfoldable pub em300_system : AcSensorSettings D → ℕ
  em300_system s = if is_multiphase s || not s.piggy_enabled then 0 else 2

module _ {D : Type 0} ⦃f : Doubles D⦄ where
  -- The case `DeviceId`, after the two calls of `setDeviceType`.
  unfoldable pub identified : ProtocolType → AcSensorUpdater D → Progress (AcSensorUpdater D)
  identified em24_protocol u = goes_on (record u { set_current_sign = true; state = serial })
  identified em300_protocol u =
      goes_on (record u { set_current_sign = false; state = phase_reverse_energy })
  identified et340_protocol u =
      goes_on (record u { set_current_sign = false; state = phase_reverse_energy })
  identified et112_protocol u = goes_on (record u { set_current_sign = false; state = serial })
  identified em300_s27_protocol u = goes_on (record u { set_current_sign = false; state = serial })
  identified em540_protocol u = goes_on (record u { set_current_sign = true; state = serial })
  identified unknown u = returns (disconnect_sensor u)

  unfoldable pub read_device_id : ℕ → AcSensorUpdater D → Progress (AcSensorUpdater D)
  read_device_id r u =
      let v = on_both (set_device_type r) u in identified v.ac_sensor.protocol_type v

  unfoldable pub read_serial :
      List ℕ → ℕ → AcSensorUpdater D → Outcome (Progress (AcSensorUpdater D))
  read_serial registers elapsed u =
      if ltb (length (serial_of registers)) 2
      then elim (on_error_received timeout u.ac_pv_sensor.slave_address 0 elapsed u) [
        | done v ↦ done (returns v)
        | fault ↦ fault
        | out_of_fuel ↦ out_of_fuel
      ]
      else done (goes_on (go_to firmware_version (on_both (set_serial (serial_of registers)) u)))

  unfoldable pub read_firmware : ⦃q : Numerals⦄ → ℕ → AcSensorUpdater D → AcSensorUpdater D
  read_firmware r u =
      go_to
        (if has_phase_sequence u.ac_sensor.protocol_type then phase_sequence else wait_for_start)
        (on_both (set_firmware_version r) u)

  -- `PhaseSequenceNotOk` is 1, and `PhaseSequenceOk` is 0.
  unfoldable pub read_sequence : ℕ → AcSensorUpdater D → AcSensorUpdater D
  read_sequence r u = record u {
    ac_sensor = set_phase_sequence (pos (if r == 0xFFFF then 1 else 0)) u.ac_sensor;
    state = wait_for_start;
  }

  unfoldable pub read_setup : ℕ → ℕ → AcSensorSettings D → AcSensorUpdater D → AcSensorUpdater D
  read_setup app system s u = record u {
    application = app;
    desired_measuring_system = em24_system s;
    measuring_system = system;
    state = if app == 7 && system == em24_system s then acquisition else check_front_selector;
  }

  -- 0x1101 is `RegApplication`.
  unfoldable pub read_selector : ℕ → AcSensorUpdater D → AcSensorUpdater D
  read_selector r u =
      if r == 3
      then on_both (set_error_code 1) (go_to wait_front_selector u)
      else on_both (set_error_code 0) (
          go_to
            (if not (u.application == 0x1101)
              then set_application
              else (if u.measuring_system == u.desired_measuring_system
                  then acquisition
                  else set_measuring_system))
            u)

  -- The settings are read for an EM540 only.
  unfoldable pub read_mode : ℕ → AcSensorUpdater D → Outcome (AcSensorUpdater D)
  read_mode r u =
      if is_em540 u.ac_sensor.protocol_type
      then with_settings u (λ s. done (judge_mode (desired_mode em540_protocol s) u))
      else done (judge_mode 1 u)
    where
      judge_mode : ℕ → AcSensorUpdater D → AcSensorUpdater D
      judge_mode desired v =
          go_to
            (if r == desired then after_mode v.ac_sensor.protocol_type else set_measurement_mode) v

  unfoldable pub read_system : ℕ → AcSensorUpdater D → Outcome (AcSensorUpdater D)
  read_system r u =
      if is_em540 u.ac_sensor.protocol_type
      then done (judge_system 0 u)
      else with_settings u (λ s. done (judge_system (em300_system s) u))
    where
      judge_system : ℕ → AcSensorUpdater D → AcSensorUpdater D
      judge_system desired v = record v {
        desired_measuring_system = desired;
        state = if desired == r then acquisition else set_measuring_system;
      }

  unfoldable pub read_values : List ℕ → AcSensorUpdater D → Outcome (AcSensorUpdater D)
  read_values registers u = elim (process_acquisition_data registers u) [
    | done v ↦ done (record v { command_index = suc v.command_index })
    | fault ↦ fault
    | out_of_fuel ↦ out_of_fuel
  ]

  -- The switch of `onReadCompleted` sends the other states here.
  unfoldable pub read_unexpected : AcSensorUpdater D → AcSensorUpdater D
  read_unexpected u = elim u.settings [ none ↦ go_to device_id u | some s ↦ go_to acquisition u ]

  unfoldable pub going : Outcome (AcSensorUpdater D) → Outcome (Progress (AcSensorUpdater D))
  going (done u) = done (goes_on u)
  going fault = fault
  going out_of_fuel = out_of_fuel

  -- The switch of `onReadCompleted`.
  unfoldable pub read_step :
      ⦃q : Numerals⦄ → List ℕ → ℕ → AcSensorUpdater D → Outcome (Progress (AcSensorUpdater D))
  read_step registers elapsed u = elim u.state [
    | device_id ↦ with_register registers 0 (λ r. done (read_device_id r u))
    | serial ↦ read_serial registers elapsed u
    | firmware_version ↦ with_register registers 0 (λ r. going (done (read_firmware r u)))
    | phase_sequence ↦ with_register registers 0 (λ r. going (done (read_sequence r u)))
    | phase_reverse_energy ↦ going (done (go_to serial u))
    | check_setup ↦ with_register registers 0 (λ app.
        with_settings u
          (λ s. with_register registers 1 (λ system. going (done (read_setup app system s u)))))
    | check_front_selector ↦ with_register registers 0 (λ r. going (done (read_selector r u)))
    | check_measurement_mode ↦ with_register registers 0 (λ r. going (read_mode r u))
    | check_measurement_system ↦ with_register registers 0 (λ r. going (read_system r u))
    | acquisition ↦ going (read_values registers u)
    | wait ↦ going (done (go_to acquisition u))
    | _ ↦ going (done (read_unexpected u))
  ]

  unfoldable pub conclude : ℕ → Outcome (Progress (AcSensorUpdater D)) → Outcome (AcSensorUpdater D)
  conclude elapsed (done (goes_on u)) = succeed elapsed u
  conclude elapsed (done (returns u)) = done u
  conclude elapsed fault = fault
  conclude elapsed out_of_fuel = out_of_fuel

  unfoldable pub on_read_completed :
      ⦃q : Numerals⦄
      → (function addr : ℕ) (registers : List ℕ) (elapsed : ℕ) → AcSensorUpdater D
      → Outcome (AcSensorUpdater D)
  on_read_completed function addr registers elapsed u =
      if addr == u.ac_sensor.slave_address
      then conclude elapsed (read_step registers elapsed u)
      else done u
