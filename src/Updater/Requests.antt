-- ===== src/Updater/Requests.antt =====
-- A request for a new setup that is pending when a meter is given up, in
-- software/src/ac_sensor_updater.cpp.
use dbus_cgwacs.Prelude.{ℕ, ◌≡◌, refl, true, List, Option, none, some, arith, ==_iff, get_elem?}
use dbus_cgwacs.Doubles.{Doubles}
use dbus_cgwacs.Numerals.{Numerals}
use dbus_cgwacs.Sensor.{AcSensor, em24_protocol, reset_values, set_serial, set_connection_state}
use dbus_cgwacs.Updater.State.{
  check_setup, AcSensorUpdater, Outcome, done, fault, disconnect_sensor, forget_sensor,
  read_registers, with_register, with_settings,
}
use dbus_cgwacs.Updater.Engine.{start_next_action, run_action, start_action, apply_setup_request}
use dbus_cgwacs.Updater.Reading.{on_read_completed, read_step, conclude}

module _ {D : Type 0} ⦃f : Doubles D⦄ where
  forget_sensor-kind :
      (s : AcSensor D)
      → ((forget_sensor s).protocol_type ≡ s.protocol_type)
        × ((forget_sensor s).slave_address ≡ s.slave_address)
  unfolding forget_sensor set_serial reset_values set_connection_state
  forget_sensor-kind s = ground arith

  abbrev pub lost_state : AcSensorUpdater D → AcSensorUpdater D
  lost_state u = apply_setup_request (disconnect_sensor u)

  lost_state-setup :
      (u : AcSensorUpdater D)
      → u.setup_requested ≡ true
      → u.ac_sensor.protocol_type ≡ em24_protocol
      → ((lost_state u).state ≡ check_setup) × ((lost_state u).settings ≡ none)
  unfolding disconnect_sensor apply_setup_request
  lost_state-setup u q p = rw (q, (forget_sensor-kind u.ac_sensor).0, p) (refl, refl)

  setup_is_read :
      (again : AcSensorUpdater D → Outcome (AcSensorUpdater D)) (elapsed : ℕ)
      (u : AcSensorUpdater D)
      → u.state ≡ check_setup
      → start_action again elapsed u ≡ done (read_registers 0x1101 2 u)
  unfolding start_action
  setup_is_read again elapsed u h = rw (h) refl

  null_settings_fault :
      ⦃q : Numerals⦄
      → (rs : List ℕ) (elapsed : ℕ) (u : AcSensorUpdater D) → u.state ≡ check_setup
      → u.settings ≡ none
      → read_step rs elapsed u ≡ fault
  unfolding read_step with_register with_settings
  null_settings_fault rs elapsed u h n = rw (h, n) (at_first (get_elem? rs 0) fault)
    where
      at_first : {A : Type 0} (o : Option ℕ) (x : A) → (elim o [ none ↦ x | some r ↦ x ]) ≡ x
      at_first none x = refl
      at_first (some r) x = refl

  -- When an EM24 is given up while a new setup is requested, the search does not begin anew: its
  -- setup is read at once, without a settings object, and every reply to this, whatever it holds,
  -- ends in a fault.
  pub lost_with_request_faults :
      ⦃q : Numerals⦄
      → (elapsed fn later : ℕ) (rs : List ℕ) (u : AcSensorUpdater D) → u.setup_requested ≡ true
      → u.ac_sensor.protocol_type ≡ em24_protocol
      → let v = read_registers 0x1101 2 (lost_state u) in
        (start_next_action elapsed (disconnect_sensor u) ≡ done v)
        × (on_read_completed fn v.ac_sensor.slave_address rs later v ≡ fault)
  unfolding start_next_action run_action on_read_completed conclude read_registers
  lost_with_request_faults elapsed fn later rs u q p =
      let l = lost_state-setup u q p in
      let v = read_registers 0x1101 2 (lost_state u) in
      let same = (==_iff v.ac_sensor.slave_address v.ac_sensor.slave_address).1 refl in
      (
        setup_is_read (run_action 3 elapsed) elapsed (lost_state u) l.0,
        rw (same, null_settings_fault rs later v l.0 l.1) refl,
      )
