-- ===== src/Updater/State.antt =====
-- software/src/ac_sensor_updater.h, the object's state, and the small operations of
-- software/src/ac_sensor_updater.cpp on it. A null or dangling pointer and an index outside a list
-- end a run in `fault`; assertions are those of a release build, which checks none.
use dbus_cgwacs.Prelude.{ℕ, Bool, List, [], ◌∷◌, ◌++◌, Option, none, some, get_elem?, last?}
use dbus_cgwacs.Doubles.{Doubles}
use dbus_cgwacs.Settings.{AcSensorSettings}
use dbus_cgwacs.Sensor.{AcSensor, disconnected, set_serial, reset_values, set_connection_state}
use dbus_cgwacs.Processor.{DataProcessor}
use dbus_cgwacs.Updater.Tables.{CompositeCommand}

pub data State : Type 0 where
  device_id serial firmware_version wait_for_start check_setup check_front_selector : State
  wait_front_selector set_application check_measurement_system : State
  set_measuring_system check_measurement_mode set_measurement_mode : State
  acquisition wait wait_on_connection_lost set_address phase_sequence : State
  phase_reverse_energy : State

-- What the object asks of its surroundings: a read of `count` registers and a write of one, by the
-- Modbus object; a start of the acquisition timer, in milliseconds; `flushValues` of the meter.
pub data Action : Type 0 where
  read_action : (slave reg count : ℕ) → Action
  write_action : (slave reg value : ℕ) → Action
  timer_action : (interval : ℕ) → Action
  flush_action : Action

-- `actions` lists what was asked so far, the last at the end. `mCommands` and `mCommandCount` are
-- one list.
pub record AcSensorUpdater (D : Type 0) : Type 0 where
  pub data_processor : Option (DataProcessor D)
  pub pv_data_processor : Option (DataProcessor D)
  pub ac_sensor : AcSensor D
  pub ac_pv_sensor : AcSensor D
  pub settings : Option (AcSensorSettings D)
  pub timeout_count : ℕ
  pub error_count : ℕ
  pub measuring_system : ℕ
  pub desired_measuring_system : ℕ
  pub is_zigbee : Bool
  pub setup_requested : Bool
  pub application : ℕ
  pub state : State
  pub commands : List CompositeCommand
  pub command_index : ℕ
  pub acquisition_index : ℕ
  pub set_current_sign : Bool
  pub actions : List Action

pub data Outcome (A : Type 0) : Type 0 where
  done : A → Outcome A
  fault : Outcome A
  out_of_fuel : Outcome A

abbrev pub max_timeout_count : ℕ
max_timeout_count = 5

abbrev pub max_error_count : ℕ
max_error_count = 20

-- `registers[i]`
unfoldable pub with_register : {A : Type 0} → List ℕ → ℕ → (ℕ → Outcome A) → Outcome A
with_register registers i k = elim (get_elem? registers i) [ none ↦ fault | some r ↦ k r ]

module _ {D : Type 0} where
  abbrev pub act : Action → AcSensorUpdater D → AcSensorUpdater D
  act a u = record u { actions = u.actions ++ a ∷ [] }

  abbrev pub go_to : State → AcSensorUpdater D → AcSensorUpdater D
  go_to st u = record u { state = st }

  unfoldable pub read_registers : ℕ → ℕ → AcSensorUpdater D → AcSensorUpdater D
  read_registers reg count u = act (read_action u.ac_sensor.slave_address reg count) u

  unfoldable pub write_register : ℕ → ℕ → AcSensorUpdater D → AcSensorUpdater D
  write_register reg value u = act (write_action u.ac_sensor.slave_address reg value) u

  -- A call through `mSettings`.
  unfoldable pub with_settings :
      {A : Type 0} → AcSensorUpdater D → (AcSensorSettings D → Outcome A) → Outcome A
  with_settings u k = elim u.settings [ none ↦ fault | some s ↦ k s ]

  -- `mCommands[mCommandCount-1].interval`
  unfoldable pub get_max_interval : AcSensorUpdater D → Option ℕ
  get_max_interval u = elim (last? u.commands) [ none ↦ none | some c ↦ some c.interval ]

module _ {D : Type 0} ⦃f : Doubles D⦄ where
  -- What `disconnectSensor` does to each of the two meters.
  unfoldable pub forget_sensor : AcSensor D → AcSensor D
  unfolding set_serial reset_values set_connection_state
  forget_sensor s = set_connection_state disconnected (reset_values (set_serial [] s))

  unfoldable pub disconnect_sensor : AcSensorUpdater D → AcSensorUpdater D
  unfolding forget_sensor
  disconnect_sensor u = record u {
    state = wait_on_connection_lost;
    settings = none;
    data_processor = none;
    pv_data_processor = none;
    timeout_count = max_timeout_count;
    error_count = max_error_count;
    ac_sensor = forget_sensor u.ac_sensor;
    ac_pv_sensor = forget_sensor u.ac_pv_sensor;
  }
