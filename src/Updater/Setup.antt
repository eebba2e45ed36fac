-- ===== src/Updater/Setup.antt =====
-- Setting up an EM24: `CheckSetup`, `CheckFrontSelector` and the writes that follow, in
-- software/src/ac_sensor_updater.cpp.
use dbus_cgwacs.Prelude.{ℕ, ◌<◌, ◌≡◌, ◌≢◌, ◌⊎◌, refl, false, ◌∙◌, arith, ◌==◌, if◌then◌else◌}
use dbus_cgwacs.Doubles.{Doubles}
use dbus_cgwacs.Settings.{AcSensorSettings}
use dbus_cgwacs.Updater.State.{
  acquisition, set_application, set_measuring_system, check_front_selector, AcSensorUpdater, go_to,
  done, act, read_action, write_action, read_registers, write_register,
}
use dbus_cgwacs.Sensor.{em24_protocol, set_error_code}
use dbus_cgwacs.Updater.Engine.{
  start_next_action, run_action, start_action, apply_setup_request, system_register,
}
use dbus_cgwacs.Updater.Handlers.{on_both, write_step}
use dbus_cgwacs.Updater.Reading.{em24_system, read_setup, read_selector}

module _ {D : Type 0} ⦃f : Doubles D⦄ where
  -- The states that an EM24 passes through when the front selector is not locked: the application
  -- and the measuring system that it reports, and the replies to the two writes.
  read_selector-state :
      (r : ℕ) (u : AcSensorUpdater D)
      → r ≢ 3
      → u.application ≢ 0x1101
      → (read_selector r u).state ≡ set_application
  unfolding read_selector on_both
  read_selector-state r u h k = ground arith

  read_selector-systems :
      (r : ℕ) (u : AcSensorUpdater D)
      → ((read_selector r u).measuring_system ≡ u.measuring_system)
        × ((read_selector r u).desired_measuring_system ≡ u.desired_measuring_system)
  unfolding read_selector on_both
  read_selector-systems r u = ground arith

  after_application :
      (u : AcSensorUpdater D) (m d : ℕ)
      → u.state ≡ set_application
      → u.measuring_system ≡ m
      → u.desired_measuring_system ≡ d
      → write_step u ≡ (if m == d then acquisition else set_measuring_system)
  unfolding write_step
  after_application u m d h hm hd = rw (h, hm, hd) refl

  setup_application :
      (app system : ℕ) (s : AcSensorSettings D) (u : AcSensorUpdater D)
      → app < 256
      → (read_setup app system s u).application ≢ 0x1101
  unfolding read_setup
  setup_application app system s u h e = omega arith

  read_setup-state :
      (app system : ℕ) (s : AcSensorSettings D) (u : AcSensorUpdater D)
      → (app ≢ 7) ⊎ (system ≢ em24_system s)
      → (read_setup app system s u).state ≡ check_front_selector
  unfolding read_setup
  read_setup-state app system s u h = ground arith

  -- What of a meter and of its updater the registers that are written depend on.
  record KeepsAddress (u v : AcSensorUpdater D) : Type 0 where
    same_address : v.ac_sensor.slave_address ≡ u.ac_sensor.slave_address
    same_protocol : v.ac_sensor.protocol_type ≡ u.ac_sensor.protocol_type
    same_request : v.setup_requested ≡ u.setup_requested

  read_selector-KeepsAddress : (r : ℕ) (u : AcSensorUpdater D) → KeepsAddress u (read_selector r u)
  unfolding read_selector on_both set_error_code
  read_selector-KeepsAddress r u = record {
    same_address = ground arith;
    same_protocol = ground arith;
    same_request = ground arith;
  }

  selector_read :
      (elapsed : ℕ) (u : AcSensorUpdater D)
      → u.setup_requested ≡ false
      → u.state ≡ check_front_selector
      → start_next_action elapsed u ≡ done (act (read_action u.ac_sensor.slave_address 0x0304 1) u)
  unfolding start_next_action run_action start_action apply_setup_request read_registers
  selector_read elapsed u q h = rw (q, h) refl

  application_written :
      (elapsed addr : ℕ) (u : AcSensorUpdater D)
      → u.setup_requested ≡ false
      → u.state ≡ set_application
      → u.ac_sensor.slave_address ≡ addr
      → start_next_action elapsed u ≡ done (act (write_action addr 0x1101 7) u)
  unfolding start_next_action run_action start_action apply_setup_request write_register
  application_written elapsed addr u q h a = rw (q, h, a) refl

  system_written :
      (elapsed addr d : ℕ) (u : AcSensorUpdater D)
      → u.setup_requested ≡ false
      → u.ac_sensor.protocol_type ≡ em24_protocol
      → u.ac_sensor.slave_address ≡ addr
      → u.desired_measuring_system ≡ d
      → start_next_action elapsed (go_to set_measuring_system u)
        ≡ done (act (write_action addr 0x1102 d) (go_to set_measuring_system u))
  unfolding start_next_action run_action start_action apply_setup_request write_register
      system_register
  system_written elapsed addr d u q p a e = rw (q, p, a, e) refl

  -- When an EM24 replies with its application, a register below 256, and with its measuring system,
  -- and is not set up as its settings ask: its front selector is read. Unless that reply says that
  -- the selector is locked, application H (7) is written to register 0x1101, even where the meter
  -- reports it already. Once that is done the meter is measured at once if its measuring system is
  -- the wanted one; if not, the wanted one is written to register 0x1102, and then it is measured.
  -- No other setup is requested meanwhile.
  pub setup_writes :
      (app system r elapsed : ℕ) (s : AcSensorSettings D) (u : AcSensorUpdater D)
      → app < 256
      → r ≢ 3
      → (app ≢ 7) ⊎ (system ≢ em24_system s)
      → u.setup_requested ≡ false
      → u.ac_sensor.protocol_type ≡ em24_protocol
      → let addr = u.ac_sensor.slave_address in
        let v = read_setup app system s u in
        let w = read_selector r v in
        let x = go_to set_measuring_system w in
        (start_next_action elapsed v ≡ done (act (read_action addr 0x0304 1) v))
        × (start_next_action elapsed w ≡ done (act (write_action addr 0x1101 7) w))
        × (write_step w ≡ (if system == em24_system s then acquisition else set_measuring_system))
        × (start_next_action elapsed x ≡ done (act (write_action addr 0x1102 (em24_system s)) x))
        × (write_step x ≡ acquisition)
  unfolding write_step read_setup
  setup_writes app system r elapsed s u ha hr hw quiet em24 =
      let v = read_setup app system s u in
      let w = read_selector r v in
      let st = read_selector-state r v hr (setup_application app system s u ha) in
      let m = read_selector-systems r v in
      let k = read_selector-KeepsAddress r v in
      let addr = u.ac_sensor.slave_address in
      (
        selector_read elapsed v quiet (read_setup-state app system s u hw),
        application_written elapsed addr w (k.same_request ∙ quiet) st k.same_address,
        after_application w system (em24_system s) st m.0 m.1,
        system_written elapsed addr (em24_system s) w (k.same_request ∙ quiet)
            (k.same_protocol ∙ em24) k.same_address m.1,
        refl,
      )
