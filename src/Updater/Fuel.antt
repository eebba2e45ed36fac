-- ===== src/Updater/Fuel.antt =====
-- Why four calls of `startNextAction` are enough, in software/src/ac_sensor_updater.cpp: every table
-- starts with a command that is due in each cycle.
use dbus_cgwacs.Prelude.{ℕ, suc, ◌≡◌, refl, false, Option, none, some, arith, ap, drop, ◌∙◌}
use dbus_cgwacs.Doubles.{Doubles}
use dbus_cgwacs.Settings.{AcSensorSettings}
use dbus_cgwacs.Sensor.{
  ProtocolType, em24_protocol, et112_protocol, et340_protocol, em540_protocol, em300_s27_protocol,
  em300_protocol, unknown,
}
use dbus_cgwacs.Updater.State.{
  State, device_id, serial, firmware_version, wait_for_start, check_setup, check_front_selector,
  wait_front_selector, set_application, check_measurement_system, set_measuring_system,
  check_measurement_mode, set_measurement_mode, acquisition, wait, wait_on_connection_lost,
  set_address, phase_sequence, phase_reverse_energy, AcSensorUpdater, Outcome, done, fault,
  out_of_fuel, read_registers, write_register, with_settings, go_to,
}
use dbus_cgwacs.Updater.Engine.{
  find_due, choose_table, end_cycle, start_next_acquisition, start_action, run_action,
  start_next_action, finish_wait, apply_setup_request, set_mode, create_settings, acquire,
  next_cycle,
}
use dbus_cgwacs.Updater.Prompt.{
  is_prompt, Ends, Prompt, Chosen, choose_table-Chosen, acquire_first, read_due-Ends,
}

module _ {D : Type 0} ⦃f : Doubles D⦄ where
  end_cycle_lem :
      (last : ℕ) (u : AcSensorUpdater D)
      → ((end_cycle last u).command_index ≡ 0)
        × ((end_cycle last u).commands ≡ u.commands)
        × ((end_cycle last u).setup_requested ≡ u.setup_requested)
        × ((end_cycle last u).state ≡ wait)
  unfolding end_cycle
  end_cycle_lem last u = ground arith

  set_mode-Ends :
      (u : AcSensorUpdater D) (p : ProtocolType) (o : Option (AcSensorSettings D))
      → Prompt u
      → Ends Prompt (set_mode p (record u { settings = o }))
  unfolding set_mode Ends with_settings write_register
  set_mode-Ends u em540_protocol none h = tt
  set_mode-Ends u em540_protocol (some s) h = h
  set_mode-Ends u em24_protocol o h = h
  set_mode-Ends u et112_protocol o h = h
  set_mode-Ends u et340_protocol o h = h
  set_mode-Ends u em300_protocol o h = h
  set_mode-Ends u em300_s27_protocol o h = h
  set_mode-Ends u unknown o h = h

  start_action-Ends :
      (again : AcSensorUpdater D → Outcome (AcSensorUpdater D)) (elapsed : ℕ)
      (u : AcSensorUpdater D) (st : State)
      → Prompt u
      → (st ≡ acquisition → Ends Prompt (acquire again (choose_table (go_to st u))))
      → (st ≡ wait → Ends Prompt (again (finish_wait (go_to st u))))
      → Ends Prompt (start_action again elapsed (go_to st u))
  unfolding start_action Ends read_registers write_register create_settings
  start_action-Ends again elapsed u device_id p a w = p
  start_action-Ends again elapsed u serial p a w = p
  start_action-Ends again elapsed u firmware_version p a w = p
  start_action-Ends again elapsed u phase_sequence p a w = p
  start_action-Ends again elapsed u phase_reverse_energy p a w = p
  start_action-Ends again elapsed u check_setup p a w = p
  start_action-Ends again elapsed u check_front_selector p a w = p
  start_action-Ends again elapsed u wait_front_selector p a w = p
  start_action-Ends again elapsed u set_application p a w = p
  start_action-Ends again elapsed u set_measuring_system p a w = p
  start_action-Ends again elapsed u check_measurement_mode p a w = p
  start_action-Ends again elapsed u check_measurement_system p a w = p
  start_action-Ends again elapsed u set_measurement_mode p a w =
      set_mode-Ends (go_to set_measurement_mode u) u.ac_sensor.protocol_type u.settings p
  start_action-Ends again elapsed u wait_for_start p a w = p
  start_action-Ends again elapsed u acquisition p a w = a refl
  start_action-Ends again elapsed u wait p a w = ground (arith, w refl)
  start_action-Ends again elapsed u wait_on_connection_lost p a w = p
  start_action-Ends again elapsed u set_address p a w = p

  run_action_quiet :
      (n elapsed : ℕ) (u : AcSensorUpdater D)
      → u.setup_requested ≡ false
      → run_action (suc n) elapsed u ≡ start_action (run_action n elapsed) elapsed u
  unfolding run_action apply_setup_request
  run_action_quiet n elapsed u h = rw (h) refl

  pub finish_wait_lem :
      (u : AcSensorUpdater D) (st : State)
      → let v = finish_wait (go_to st u) in
        (v.commands ≡ u.commands)
        × (v.command_index ≡ u.command_index)
        × (v.setup_requested ≡ u.setup_requested)
  unfolding finish_wait
  finish_wait_lem u device_id = (refl, refl, refl)
  finish_wait_lem u serial = (refl, refl, refl)
  finish_wait_lem u firmware_version = (refl, refl, refl)
  finish_wait_lem u phase_sequence = (refl, refl, refl)
  finish_wait_lem u phase_reverse_energy = (refl, refl, refl)
  finish_wait_lem u check_setup = (refl, refl, refl)
  finish_wait_lem u check_front_selector = (refl, refl, refl)
  finish_wait_lem u wait_front_selector = (refl, refl, refl)
  finish_wait_lem u set_application = (refl, refl, refl)
  finish_wait_lem u set_measuring_system = (refl, refl, refl)
  finish_wait_lem u check_measurement_mode = (refl, refl, refl)
  finish_wait_lem u check_measurement_system = (refl, refl, refl)
  finish_wait_lem u set_measurement_mode = (refl, refl, refl)
  finish_wait_lem u wait_for_start = (refl, refl, refl)
  finish_wait_lem u acquisition = (refl, refl, refl)
  finish_wait_lem u wait = (refl, refl, refl)
  finish_wait_lem u wait_on_connection_lost = (refl, refl, refl)
  finish_wait_lem u set_address = (refl, refl, refl)

  finish_wait-wait : (u : AcSensorUpdater D) → u.state ≡ wait → (finish_wait u).state ≡ acquisition
  unfolding finish_wait
  finish_wait-wait u h = rw (h) refl

  at_acquisition :
      (n elapsed : ℕ) (u : AcSensorUpdater D)
      → u.setup_requested ≡ false
      → u.command_index ≡ 0
      → u.state ≡ acquisition
      → Prompt u
      → Ends Prompt (run_action (suc n) elapsed u)
  at_acquisition n elapsed u q i st p =
      let again = run_action n elapsed in
      rw (run_action_quiet n elapsed u q) (
        start_action-Ends again elapsed u u.state p
          (λ _. acquire_first again u (choose_table u) (choose_table-Chosen u p) i)
          (λ w. ground arith))

  at_wait :
      (n elapsed : ℕ) (u : AcSensorUpdater D)
      → u.setup_requested ≡ false
      → u.command_index ≡ 0
      → u.state ≡ wait
      → Prompt u
      → Ends Prompt (run_action (suc (suc n)) elapsed u)
  at_wait n elapsed u q i st p =
      let again = run_action (suc n) elapsed in
      let v = finish_wait_lem u u.state in
      rw (run_action_quiet (suc n) elapsed u q) (
        start_action-Ends again elapsed u u.state p
          (λ _. acquire_first again u (choose_table u) (choose_table-Chosen u p) i)
          (λ w.
            at_acquisition n elapsed (finish_wait u) (v.2 ∙ q) (v.1 ∙ i) (finish_wait-wait u w)
              (ap is_prompt v.0 ∙ p)))

  next_Ends :
      (n elapsed : ℕ) (v : AcSensorUpdater D) (m : Option ℕ)
      → v.setup_requested ≡ false
      → Prompt v
      → Ends Prompt (next_cycle (run_action (suc (suc n)) elapsed) m v)
  unfolding next_cycle Ends
  next_Ends n elapsed v none r p = tt
  next_Ends n elapsed v (some last) r p =
      let l = end_cycle_lem last v in
      at_wait n elapsed (end_cycle last v) (l.2 ∙ r) l.0 l.3 (ap is_prompt l.1 ∙ p)

  acquire-Ends :
      (n elapsed : ℕ) (u : AcSensorUpdater D) (x : Outcome (AcSensorUpdater D))
      → u.setup_requested ≡ false
      → Ends (Chosen u) x
      → Ends Prompt (acquire (run_action (suc (suc n)) elapsed) x)
  unfolding Ends acquire start_next_acquisition
  acquire-Ends n elapsed u (done v) q h =
      read_due-Ends (run_action (suc (suc n)) elapsed) v
        (find_due v.acquisition_index v.command_index (drop v.command_index v.commands))
        (λ m. next_Ends n elapsed v m (h.2 ∙ q) h.0) h.0
  acquire-Ends n elapsed u fault q h = tt
  acquire-Ends n elapsed u out_of_fuel q h = h

  any_acquisition :
      (n elapsed : ℕ) (u : AcSensorUpdater D)
      → u.setup_requested ≡ false
      → u.state ≡ acquisition
      → Prompt u
      → Ends Prompt (run_action (suc (suc (suc n))) elapsed u)
  any_acquisition n elapsed u q st p =
      let again = run_action (suc (suc n)) elapsed in
      rw (run_action_quiet (suc (suc n)) elapsed u q) (
        start_action-Ends again elapsed u u.state p
          (λ _. acquire-Ends n elapsed u (choose_table u) q (choose_table-Chosen u p))
          (λ w. ground arith))

  apply_setup_lem :
      (u : AcSensorUpdater D)
      → ((apply_setup_request u).setup_requested ≡ false)
        × ((apply_setup_request u).commands ≡ u.commands)
  unfolding apply_setup_request
  apply_setup_lem u = ground arith

  run_action-Ends :
      (n elapsed : ℕ) (u : AcSensorUpdater D)
      → Prompt u
      → Ends Prompt (run_action (suc (suc (suc (suc n)))) elapsed u)
  unfolding run_action
  run_action-Ends n elapsed u p =
      let again = run_action (suc (suc (suc n))) elapsed in
      let l = apply_setup_lem u in
      let v = apply_setup_request u in
      let p' = ap is_prompt l.1 ∙ p in
      let w = finish_wait_lem v v.state in
      start_action-Ends again elapsed v v.state p'
        (λ _. acquire-Ends (suc n) elapsed v (choose_table v) l.0 (choose_table-Chosen v p'))
        (λ e.
          any_acquisition n elapsed (finish_wait v) (w.2 ∙ l.0) (finish_wait-wait v e)
            (ap is_prompt w.0 ∙ p'))

  pub start_next_action-Ends :
      (elapsed : ℕ) (u : AcSensorUpdater D) → Prompt u → Ends Prompt (start_next_action elapsed u)
  unfolding start_next_action
  start_next_action-Ends elapsed u p = run_action-Ends 0 elapsed u p
