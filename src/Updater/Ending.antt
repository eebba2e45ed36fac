-- ===== src/Updater/Ending.antt =====
-- No slot of software/src/ac_sensor_updater.cpp calls `startNextAction` without end.
use dbus_cgwacs.Prelude.{
  ℕ, ◌≡◌, Bool, List, [], ◌∷◌, Option, none, some, arith, refl, ◌∙◌, ap, suc, ◌≢◌,
}
use dbus_cgwacs.Doubles.{Doubles}
use dbus_cgwacs.Numerals.{Numerals}
use dbus_cgwacs.Modbus.Types.{timeout}
use dbus_cgwacs.Settings.{AcSensorSettings}
use dbus_cgwacs.Sensor.{
  ProtocolType, em24_protocol, et112_protocol, et340_protocol, em540_protocol, em300_s27_protocol,
  em300_protocol, unknown, AcSensor, set_device_type,
}
use dbus_cgwacs.Updater.State.{
  State, device_id, serial, firmware_version, phase_sequence, phase_reverse_energy, check_setup,
  check_front_selector, wait_front_selector, set_application, set_measuring_system,
  check_measurement_mode, check_measurement_system, set_measurement_mode, wait_for_start,
  acquisition, wait, wait_on_connection_lost, set_address, AcSensorUpdater, Outcome, done, fault,
  out_of_fuel, disconnect_sensor, with_settings, go_to,
}
use dbus_cgwacs.Updater.Handlers.{
  on_error_received, on_update_settings, update_from, request_setup, on_both, new_updater,
}
use dbus_cgwacs.Updater.Reading.{
  Progress, goes_on, returns, on_read_completed, conclude, read_step, going, identified,
  read_device_id, read_serial, read_values, read_mode, read_system, read_selector, read_unexpected,
  read_firmware, read_sequence, read_setup,
}
use dbus_cgwacs.Updater.Prompt.{Prompt, Ends, is_prompt}
use dbus_cgwacs.Updater.Fuel.{start_next_action-Ends}
use dbus_cgwacs.Updater.Frame.{
  with_register-Ends, fault-Ends, if-Ends, process_acquisition_data-Kept, Kept,
}
use dbus_cgwacs.Updater.Values.{process_acquisition_data}
use dbus_cgwacs.Updater.Events.{
  Event, read_completed_event, write_completed_event, error_received_event, wait_finished_event,
  update_settings_event, start_event, setup_event, settings_event, apply_event, run_events,
  change_settings,
}
use dbus_cgwacs.Updater.Returns.{
  done-Ends, done_Prompt, on_error_received-Ends, start_measurements-Ends, update_from-Ends,
  succeed-Ends, on_write_completed-Ends, on_wait_finished-Ends,
}

module _ {D : Type 0} ⦃f : Doubles D⦄ where
  abbrev PromptProgress : Progress (AcSensorUpdater D) → Type 0
  PromptProgress (goes_on u) = Prompt u
  PromptProgress (returns u) = Prompt u

  progress-Ends :
      (g : Progress (AcSensorUpdater D)) → PromptProgress g → Ends PromptProgress (done g)
  unfolding Ends
  progress-Ends g p = p

  going-Ends : (x : Outcome (AcSensorUpdater D)) → Ends Prompt x → Ends PromptProgress (going x)
  unfolding Ends going
  going-Ends (done u) h = h
  going-Ends fault h = tt
  going-Ends out_of_fuel h = h

  with_settings-Ends :
      {A : Type 0} (P : A → Type 0) (u : AcSensorUpdater D) (k : AcSensorSettings D → Outcome A)
      → ((s : AcSensorSettings D) → Ends P (k s))
      → Ends P (with_settings u k)
  unfolding with_settings
  with_settings-Ends P u k h = at_settings u.settings
    where
      at_settings :
          (o : Option (AcSensorSettings D)) → Ends P (with_settings (record u { settings = o }) k)
      at_settings none = fault-Ends P
      at_settings (some s) = h s

  identified-Prompt :
      (p : ProtocolType) (u : AcSensorUpdater D) → Prompt u → PromptProgress (identified p u)
  unfolding identified disconnect_sensor
  identified-Prompt em24_protocol u h = h
  identified-Prompt et112_protocol u h = h
  identified-Prompt et340_protocol u h = h
  identified-Prompt em300_protocol u h = h
  identified-Prompt em540_protocol u h = h
  identified-Prompt em300_s27_protocol u h = h
  identified-Prompt unknown u h = h

  returned-Ends :
      (x : Outcome (AcSensorUpdater D))
      → Ends Prompt x
      → Ends PromptProgress
          (elim x [ done v ↦ done (returns v) | fault ↦ fault | out_of_fuel ↦ out_of_fuel ])
  unfolding Ends
  returned-Ends (done v) h = h
  returned-Ends fault h = tt
  returned-Ends out_of_fuel h = h

  read_serial-Ends :
      (rs : List ℕ) (elapsed : ℕ) (u : AcSensorUpdater D)
      → Prompt u
      → Ends PromptProgress (read_serial rs elapsed u)
  unfolding read_serial on_both
  read_serial-Ends rs elapsed u p =
      if-Ends PromptProgress _ _ _
        (returned-Ends (on_error_received timeout u.ac_pv_sensor.slave_address 0 elapsed u)
          (on_error_received-Ends timeout _ 0 elapsed u p))
        (progress-Ends _ p)

  read_values-Ends :
      (rs : List ℕ) (u : AcSensorUpdater D) → Prompt u → Ends Prompt (read_values rs u)
  unfolding read_values Ends
  read_values-Ends rs u p =
      at_outcome (process_acquisition_data rs u) (process_acquisition_data-Kept rs u)
    where
      at_outcome :
          (x : Outcome (AcSensorUpdater D))
          → Ends (λ v. Kept u v) x
          → Ends Prompt (elim x [
            | done v ↦ done (record v { command_index = suc v.command_index })
            | fault ↦ fault
            | out_of_fuel ↦ out_of_fuel
          ])
      at_outcome (done v) h = ap is_prompt h.0 ∙ p
      at_outcome fault h = tt
      at_outcome out_of_fuel h = h

  read_mode-Ends : (r : ℕ) (u : AcSensorUpdater D) → Prompt u → Ends Prompt (read_mode r u)
  unfolding read_mode
  read_mode-Ends r u p =
      if-Ends Prompt _ _ _ (with_settings-Ends Prompt u _ (λ s. done-Ends _ p)) (done-Ends _ p)

  read_system-Ends : (r : ℕ) (u : AcSensorUpdater D) → Prompt u → Ends Prompt (read_system r u)
  unfolding read_system
  read_system-Ends r u p =
      if-Ends Prompt _ _ _ (done-Ends _ p) (with_settings-Ends Prompt u _ (λ s. done-Ends _ p))

  read_selector-commands :
      (r : ℕ) (u : AcSensorUpdater D) → (read_selector r u).commands ≡ u.commands
  unfolding read_selector on_both
  read_selector-commands r u = ground arith

  read_unexpected-commands : (u : AcSensorUpdater D) → (read_unexpected u).commands ≡ u.commands
  unfolding read_unexpected
  read_unexpected-commands u = ground arith

  module _ ⦃q : Numerals⦄ where
    read_step-Ends :
        (rs : List ℕ) (elapsed : ℕ) (u : AcSensorUpdater D) (st : State)
        → Prompt u
        → Ends PromptProgress (read_step rs elapsed (go_to st u))
    unfolding read_step read_device_id on_both read_firmware read_sequence read_setup
    read_step-Ends rs elapsed u device_id p = with_register-Ends PromptProgress rs 0 _ (λ r.
        progress-Ends _ (
          identified-Prompt (set_device_type r u.ac_sensor).protocol_type
            (on_both (set_device_type r) (go_to device_id u)) p))
    read_step-Ends rs elapsed u serial p = read_serial-Ends rs elapsed (go_to serial u) p
    read_step-Ends rs elapsed u firmware_version p =
        with_register-Ends PromptProgress rs 0 _
          (λ r. going-Ends (done (read_firmware r (go_to firmware_version u))) (done-Ends _ p))
    read_step-Ends rs elapsed u phase_sequence p =
        with_register-Ends PromptProgress rs 0 _
          (λ r. going-Ends (done (read_sequence r (go_to phase_sequence u))) (done-Ends _ p))
    read_step-Ends rs elapsed u phase_reverse_energy p =
        going-Ends (done (go_to serial u)) (done-Ends _ p)
    read_step-Ends rs elapsed u check_setup p = with_register-Ends PromptProgress rs 0 _ (λ app.
        with_settings-Ends PromptProgress (go_to check_setup u) _ (λ s.
          with_register-Ends PromptProgress rs 1 _ (λ system.
            going-Ends (done (read_setup app system s (go_to check_setup u))) (done-Ends _ p))))
    read_step-Ends rs elapsed u check_front_selector p =
        with_register-Ends PromptProgress rs 0 _ (λ r.
          going-Ends (done (read_selector r (go_to check_front_selector u))) (
            done-Ends _
              (ap is_prompt (read_selector-commands r (go_to check_front_selector u)) ∙ p)))
    read_step-Ends rs elapsed u wait_front_selector p =
        going-Ends (done (read_unexpected (go_to wait_front_selector u)))
          (done-Ends _ (ap is_prompt (read_unexpected-commands (go_to wait_front_selector u)) ∙ p))
    read_step-Ends rs elapsed u set_application p =
        going-Ends (done (read_unexpected (go_to set_application u)))
          (done-Ends _ (ap is_prompt (read_unexpected-commands (go_to set_application u)) ∙ p))
    read_step-Ends rs elapsed u set_measuring_system p =
        going-Ends (done (read_unexpected (go_to set_measuring_system u)))
          (done-Ends _ (ap is_prompt (read_unexpected-commands (go_to set_measuring_system u)) ∙ p))
    read_step-Ends rs elapsed u check_measurement_mode p =
        with_register-Ends PromptProgress rs 0 _ (λ r.
          going-Ends (read_mode r (go_to check_measurement_mode u))
            (read_mode-Ends r (go_to check_measurement_mode u) p))
    read_step-Ends rs elapsed u check_measurement_system p =
        with_register-Ends PromptProgress rs 0 _ (λ r.
          going-Ends (read_system r (go_to check_measurement_system u))
            (read_system-Ends r (go_to check_measurement_system u) p))
    read_step-Ends rs elapsed u set_measurement_mode p =
        going-Ends (done (read_unexpected (go_to set_measurement_mode u)))
          (done-Ends _ (ap is_prompt (read_unexpected-commands (go_to set_measurement_mode u)) ∙ p))
    read_step-Ends rs elapsed u wait_for_start p =
        going-Ends (done (read_unexpected (go_to wait_for_start u)))
          (done-Ends _ (ap is_prompt (read_unexpected-commands (go_to wait_for_start u)) ∙ p))
    read_step-Ends rs elapsed u acquisition p =
        going-Ends (read_values rs (go_to acquisition u))
          (read_values-Ends rs (go_to acquisition u) p)
    read_step-Ends rs elapsed u wait p = going-Ends (done (go_to acquisition u)) (done-Ends _ p)
    read_step-Ends rs elapsed u wait_on_connection_lost p =
        going-Ends (done (read_unexpected (go_to wait_on_connection_lost u))) (
          done-Ends _
            (ap is_prompt (read_unexpected-commands (go_to wait_on_connection_lost u)) ∙ p))
    read_step-Ends rs elapsed u set_address p =
        going-Ends (done (read_unexpected (go_to set_address u)))
          (done-Ends _ (ap is_prompt (read_unexpected-commands (go_to set_address u)) ∙ p))

    conclude-Ends :
        (elapsed : ℕ) (x : Outcome (Progress (AcSensorUpdater D)))
        → Ends PromptProgress x
        → Ends Prompt (conclude elapsed x)
    unfolding conclude Ends
    conclude-Ends elapsed (done (goes_on u)) h = succeed-Ends elapsed u h
    conclude-Ends elapsed (done (returns u)) h = h
    conclude-Ends elapsed fault h = tt
    conclude-Ends elapsed out_of_fuel h = h

    on_read_completed-Ends :
        (fn addr : ℕ) (rs : List ℕ) (elapsed : ℕ) (u : AcSensorUpdater D)
        → Prompt u
        → Ends Prompt (on_read_completed fn addr rs elapsed u)
    unfolding on_read_completed
    on_read_completed-Ends fn addr rs elapsed u p =
        if-Ends Prompt _ _ _
          (conclude-Ends elapsed (read_step rs elapsed u) (read_step-Ends rs elapsed u u.state p))
          (done-Ends u p)

    on_update_settings-Ends :
        (u : AcSensorUpdater D) → Prompt u → Ends Prompt (on_update_settings u)
    unfolding on_update_settings Ends
    on_update_settings-Ends u p =
        both (update_from u.data_processor u.ac_sensor u)
          (update_from-Ends u.data_processor u.ac_sensor u p)
      where
        both :
            (x : Outcome (AcSensorUpdater D))
            → Ends Prompt x
            → Ends Prompt (elim x [
              | done v ↦ update_from v.pv_data_processor v.ac_pv_sensor v
              | fault ↦ fault
              | out_of_fuel ↦ out_of_fuel
            ])
        both (done v) h = update_from-Ends v.pv_data_processor v.ac_pv_sensor v h
        both fault h = tt
        both out_of_fuel h = h

    change_settings-commands :
        (g : AcSensorSettings D → AcSensorSettings D) (u : AcSensorUpdater D)
        → (change_settings g u).commands ≡ u.commands
    unfolding change_settings
    change_settings-commands g u = ground arith

    apply_event-Ends :
        (e : Event D) (u : AcSensorUpdater D) → Prompt u → Ends Prompt (apply_event e u)
    unfolding apply_event request_setup
    apply_event-Ends (read_completed_event fn addr rs t) u p =
        on_read_completed-Ends fn addr rs t u p
    apply_event-Ends (write_completed_event fn addr reg v t) u p =
        on_write_completed-Ends fn addr reg v t u p
    apply_event-Ends (error_received_event e addr code t) u p =
        on_error_received-Ends e addr code t u p
    apply_event-Ends (wait_finished_event t) u p = on_wait_finished-Ends t u p
    apply_event-Ends update_settings_event u p = on_update_settings-Ends u p
    apply_event-Ends (start_event t) u p = start_measurements-Ends t u p
    apply_event-Ends setup_event u p = done-Ends _ p
    apply_event-Ends (settings_event g) u p =
        done-Ends _ (ap is_prompt (change_settings-commands g u) ∙ p)

    run_events-Ends :
        (es : List (Event D)) (x : Outcome (AcSensorUpdater D))
        → Ends Prompt x
        → Ends Prompt (run_events es x)
    unfolding run_events
    run_events-Ends [] x h = h
    run_events-Ends (e ∷ es) (done u) h =
        run_events-Ends es (apply_event e u) (apply_event-Ends e u (done_Prompt u h))
    run_events-Ends (e ∷ es) fault h = h
    run_events-Ends (e ∷ es) out_of_fuel h = h

    Ends-not_out_of_fuel : (x : Outcome (AcSensorUpdater D)) → Ends Prompt x → x ≢ out_of_fuel
    unfolding Ends
    Ends-not_out_of_fuel (done u) h e = ground arith
    Ends-not_out_of_fuel fault h e = ground arith
    Ends-not_out_of_fuel out_of_fuel h e = ground arith

    new_updater-Ends :
        (s pv : AcSensor D) (zigbee : Bool) (elapsed : ℕ)
        → Ends Prompt (new_updater s pv zigbee elapsed)
    unfolding new_updater is_prompt
    new_updater-Ends s pv zigbee elapsed = start_next_action-Ends elapsed _ refl

    -- From the constructor on, whatever the events are and whatever the stopwatch reads in them,
    -- four calls of `startNextAction` within one are enough: no run is out of fuel.
    pub run_events_ends :
        (es : List (Event D)) (s pv : AcSensor D) (zigbee : Bool) (elapsed : ℕ)
        → run_events es (new_updater s pv zigbee elapsed) ≢ out_of_fuel
    run_events_ends es s pv zigbee elapsed =
        Ends-not_out_of_fuel (run_events es (new_updater s pv zigbee elapsed)) (
          run_events-Ends es (new_updater s pv zigbee elapsed)
            (new_updater-Ends s pv zigbee elapsed))
