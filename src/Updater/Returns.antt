-- ===== src/Updater/Returns.antt =====
-- The slots of software/src/ac_sensor_updater.cpp but `onReadCompleted`: each ends, and keeps a
-- table whose first command is due in every cycle.
use dbus_cgwacs.Prelude.{
  ℕ, ◌≡◌, Bool, true, false, Option, none, some, arith, refl, if◌then◌else◌, ◌∙◌, ap,
}
use dbus_cgwacs.Doubles.{Doubles}
use dbus_cgwacs.Modbus.Types.{ErrorType}
use dbus_cgwacs.Settings.{AcSensorSettings}
use dbus_cgwacs.Sensor.{em300_protocol, set_protocol_type}
use dbus_cgwacs.Processor.{DataProcessor}
use dbus_cgwacs.Updater.State.{
  serial, AcSensorUpdater, done, disconnect_sensor, with_settings, go_to,
}
use dbus_cgwacs.Updater.Engine.{on_wait_finished, finish_wait}
use dbus_cgwacs.Updater.Handlers.{
  start_measurements, on_error_received, on_write_completed, update_from, succeed, count_error,
  older_meter, is_phase_reverse, write_step,
}
use dbus_cgwacs.Updater.Prompt.{Prompt, Ends, is_prompt}
use dbus_cgwacs.Updater.Fuel.{start_next_action-Ends, finish_wait_lem}
use dbus_cgwacs.Updater.Frame.{fault-Ends, if-Ends}

module _ {D : Type 0} ⦃f : Doubles D⦄ where
  pub done-Ends : (u : AcSensorUpdater D) → Prompt u → Ends Prompt (done u)
  unfolding Ends
  done-Ends u p = p

  older_meter-commands : (u : AcSensorUpdater D) → (older_meter u).commands ≡ u.commands
  unfolding older_meter
  older_meter-commands u = ap-if (is_phase_reverse u.state)
    where
      ap-if :
          (b : Bool)
          → (if b
              then record u {
                ac_sensor = set_protocol_type em300_protocol u.ac_sensor;
                state = serial;
              }
              else u).commands
            ≡ u.commands
      ap-if true = refl
      ap-if false = refl

  count_error-commands :
      (e : ErrorType) (u : AcSensorUpdater D) → (count_error e u).commands ≡ u.commands
  unfolding count_error disconnect_sensor
  count_error-commands e u = ground arith

  pub done_Prompt : (u : AcSensorUpdater D) → Ends Prompt (done u) → Prompt u
  unfolding Ends
  done_Prompt u h = h

  pub on_error_received-Ends :
      (e : ErrorType) (addr code elapsed : ℕ) (u : AcSensorUpdater D)
      → Prompt u
      → Ends Prompt (on_error_received e addr code elapsed u)
  unfolding on_error_received
  on_error_received-Ends e addr code elapsed u p =
      if-Ends Prompt _ _ _
        (start_next_action-Ends elapsed (count_error e (older_meter u))
          (ap is_prompt (count_error-commands e (older_meter u) ∙ older_meter-commands u) ∙ p))
        (done-Ends u p)

  pub start_measurements-Ends :
      (elapsed : ℕ) (u : AcSensorUpdater D) → Prompt u → Ends Prompt (start_measurements elapsed u)
  unfolding start_measurements
  start_measurements-Ends elapsed u p = at_settings u.settings
    where
      at_settings :
          (o : Option (AcSensorSettings D))
          → Ends Prompt (start_measurements elapsed (record u { settings = o }))
      at_settings none = done-Ends _ p
      at_settings (some s) =
          if-Ends Prompt _ _ _ (start_next_action-Ends elapsed _ p) (done-Ends _ p)

  pub update_from-Ends :
      (o : Option (DataProcessor D)) (s : _) (u : AcSensorUpdater D)
      → Prompt u
      → Ends Prompt (update_from o s u)
  unfolding update_from with_settings
  update_from-Ends none s u p = done-Ends u p
  update_from-Ends (some q) s u p = at_settings u.settings
    where
      at_settings :
          (o : Option (AcSensorSettings D))
          → Ends Prompt (update_from (some q) s (record u { settings = o }))
      at_settings none = fault-Ends Prompt
      at_settings (some t) = done-Ends _ p

  pub succeed-Ends :
      (elapsed : ℕ) (u : AcSensorUpdater D) → Prompt u → Ends Prompt (succeed elapsed u)
  unfolding succeed
  succeed-Ends elapsed u p = start_next_action-Ends elapsed _ p

  pub on_write_completed-Ends :
      (fn addr reg v elapsed : ℕ) (u : AcSensorUpdater D)
      → Prompt u
      → Ends Prompt (on_write_completed fn addr reg v elapsed u)
  unfolding on_write_completed
  on_write_completed-Ends fn addr reg v elapsed u p =
      if-Ends Prompt _ _ _ (succeed-Ends elapsed (go_to (write_step u) u) p) (done-Ends u p)

  pub on_wait_finished-Ends :
      (elapsed : ℕ) (u : AcSensorUpdater D) → Prompt u → Ends Prompt (on_wait_finished elapsed u)
  unfolding on_wait_finished
  on_wait_finished-Ends elapsed u p =
      start_next_action-Ends elapsed (finish_wait u)
        (ap is_prompt (finish_wait_lem u u.state).0 ∙ p)
