-- ===== src/Updater/Events.antt =====
-- The events that an `AcSensorUpdater` of software/src/ac_sensor_updater.cpp receives: signals of the
-- Modbus object, of its two timers and of the settings, and the call of `startMeasurements`.
use dbus_cgwacs.Prelude.{ℕ, List, [], ◌∷◌, none, some}
use dbus_cgwacs.Doubles.{Doubles}
use dbus_cgwacs.Numerals.{Numerals}
use dbus_cgwacs.Modbus.Types.{ErrorType}
use dbus_cgwacs.Settings.{AcSensorSettings}
use dbus_cgwacs.Updater.State.{AcSensorUpdater, Outcome, done, fault, out_of_fuel}
use dbus_cgwacs.Updater.Engine.{on_wait_finished}
use dbus_cgwacs.Updater.Handlers.{
  start_measurements, on_error_received, on_write_completed, on_update_settings, request_setup,
}
use dbus_cgwacs.Updater.Reading.{on_read_completed}

-- The settings object has other owners, which call its setters: `settings_changed` is any such call.
pub data Event (D : Type 0) : Type 0 where
  read_completed_event : (function addr : ℕ) (registers : List ℕ) (elapsed : ℕ) → Event D
  write_completed_event : (function addr address value elapsed : ℕ) → Event D
  error_received_event : ErrorType → (addr code elapsed : ℕ) → Event D
  wait_finished_event : (elapsed : ℕ) → Event D
  update_settings_event : Event D
  start_event : (elapsed : ℕ) → Event D
  setup_event : Event D
  settings_event : (AcSensorSettings D → AcSensorSettings D) → Event D

module _ {D : Type 0} ⦃f : Doubles D⦄ ⦃q : Numerals⦄ where
  unfoldable pub change_settings :
      (AcSensorSettings D → AcSensorSettings D) → AcSensorUpdater D → AcSensorUpdater D
  change_settings g u = elim u.settings [ none ↦ u | some s ↦ record u { settings = some (g s) } ]

  unfoldable pub apply_event : Event D → AcSensorUpdater D → Outcome (AcSensorUpdater D)
  apply_event (read_completed_event fn addr rs e) u = on_read_completed fn addr rs e u
  apply_event (write_completed_event fn addr reg v e) u = on_write_completed fn addr reg v e u
  apply_event (error_received_event t addr code e) u = on_error_received t addr code e u
  apply_event (wait_finished_event e) u = on_wait_finished e u
  apply_event update_settings_event u = on_update_settings u
  apply_event (start_event e) u = start_measurements e u
  apply_event setup_event u = done (request_setup u)
  apply_event (settings_event g) u = done (change_settings g u)

  unfoldable pub run_events :
      List (Event D) → Outcome (AcSensorUpdater D) → Outcome (AcSensorUpdater D)
  run_events [] x = x
  run_events (e ∷ es) (done u) = run_events es (apply_event e u)
  run_events (e ∷ es) fault = fault
  run_events (e ∷ es) out_of_fuel = out_of_fuel
