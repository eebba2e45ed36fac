-- ===== src/Updater/GivingUp.antt =====
-- A meter that is given up, in software/src/ac_sensor_updater.cpp: `onErrorReceived` at a limit of
-- the counters, `onWaitFinished` after it, and the next error.
use dbus_cgwacs.Prelude.{
  ℕ, ◌≤◌, ◌≡◌, refl, Bool, true, false, ◌||◌, arith, leb, if◌then◌else◌, ap, sym, ◌∙◌, ==_iff, [],
  ◌∷◌, ◌++◌, ◌⊎◌,
}
use dbus_cgwacs.Doubles.{Doubles}
use dbus_cgwacs.Modbus.Types.{ErrorType}
use dbus_cgwacs.Updater.State.{
  wait_on_connection_lost, device_id, AcSensorUpdater, done, disconnect_sensor, forget_sensor,
  timer_action, read_action, read_registers, act, max_error_count, max_timeout_count,
}
use dbus_cgwacs.Sensor.{
  AcSensor, ConnectionState, disconnected, searched, detected, connected, set_serial,
  set_connection_state, set_protocol_type, reset_values,
}
use dbus_cgwacs.Prelude.Text.{Text}
use dbus_cgwacs.Updater.Engine.{
  start_next_action, run_action, start_action, apply_setup_request, finish_wait, on_wait_finished,
}
use dbus_cgwacs.Updater.Handlers.{on_error_received, older_meter}
use dbus_cgwacs.Updater.Losing.{IsLost, count_error-at_limit}

module _ {D : Type 0} ⦃f : Doubles D⦄ where
  older_meter-counts :
      (u : AcSensorUpdater D)
      → ((older_meter u).timeout_count ≡ u.timeout_count)
        × ((older_meter u).error_count ≡ u.error_count)
        × ((older_meter u).setup_requested ≡ u.setup_requested)
        × ((older_meter u).is_zigbee ≡ u.is_zigbee)
  unfolding older_meter
  older_meter-counts u = ground arith

  lost_waits :
      (elapsed : ℕ) (u : AcSensorUpdater D)
      → u.setup_requested ≡ false
      → u.state ≡ wait_on_connection_lost
      → start_next_action elapsed u
        ≡ done (act (timer_action (if u.is_zigbee then 30000 else 15000)) u)
  unfolding start_next_action run_action start_action apply_setup_request
  lost_waits elapsed u q h = rw (q, h) refl

  disconnected_waits :
      (elapsed : ℕ) (u : AcSensorUpdater D)
      → u.setup_requested ≡ false
      → start_next_action elapsed (disconnect_sensor u)
        ≡ done (act (timer_action (if u.is_zigbee then 30000 else 15000)) (disconnect_sensor u))
  unfolding disconnect_sensor
  disconnected_waits elapsed u q = lost_waits elapsed (disconnect_sensor u) q refl

  error_disconnects :
      (e : ErrorType) (addr code elapsed : ℕ) (u : AcSensorUpdater D)
      → addr ≡ u.ac_sensor.slave_address
      → leb max_timeout_count u.timeout_count || leb max_error_count u.error_count ≡ true
      → u.setup_requested ≡ false
      → on_error_received e addr code elapsed u
        ≡ done (
            act
              (timer_action (if u.is_zigbee then 30000 else 15000))
              (disconnect_sensor (older_meter u)))
  unfolding on_error_received
  error_disconnects e addr code elapsed u ha hl hs =
      let m = older_meter-counts u in
      let at_limit = count_error-at_limit e (older_meter u) (rw (m.0, m.1) hl) in
      rw ((==_iff addr u.ac_sensor.slave_address).1 ha, at_limit)
        (disconnected_waits elapsed (older_meter u) (m.2 ∙ hs)
          ∙ ap
              (λ (b : Bool). done (
                act (timer_action (if b then 30000 else 15000))
                  (disconnect_sensor (older_meter u))))
              m.3)

  -- What it means that `v` has given up the meter of `u`: nothing of the meter is left, and the only
  -- thing asked for is the timer.
  pub record GivesUp (u v : AcSensorUpdater D) : Type 0 where
    pub lost : IsLost v
    pub meter_gone : v.ac_sensor.connection_state ≡ disconnected
    pub pv_meter_gone : v.ac_pv_sensor.connection_state ≡ disconnected
    pub serial_gone : v.ac_sensor.serial ≡ []
    pub same_address : v.ac_sensor.slave_address ≡ u.ac_sensor.slave_address
    pub waits : v.actions ≡ u.actions ++ timer_action (if u.is_zigbee then 30000 else 15000) ∷ []

  forget_sensor-gone :
      (s : AcSensor D)
      → ((forget_sensor s).connection_state ≡ disconnected)
        × ((forget_sensor s).serial ≡ [])
        × ((forget_sensor s).slave_address ≡ s.slave_address)
  unfolding forget_sensor set_serial reset_values set_connection_state
  forget_sensor-gone s = gone s.connection_state s.serial s
    where
      gone :
          (c : ConnectionState) (t : Text) (s : AcSensor D)
          → let s' = forget_sensor (record s { connection_state = c; serial = t }) in
            (s'.connection_state ≡ disconnected)
            × (s'.serial ≡ [])
            × (s'.slave_address ≡ s.slave_address)
      gone disconnected [] s = (refl, refl, refl)
      gone disconnected (x ∷ t) s = (refl, refl, refl)
      gone searched [] s = (refl, refl, refl)
      gone searched (x ∷ t) s = (refl, refl, refl)
      gone detected [] s = (refl, refl, refl)
      gone detected (x ∷ t) s = (refl, refl, refl)
      gone connected [] s = (refl, refl, refl)
      gone connected (x ∷ t) s = (refl, refl, refl)

  older_meter-same :
      (u : AcSensorUpdater D)
      → ((older_meter u).ac_sensor.slave_address ≡ u.ac_sensor.slave_address)
        × ((older_meter u).actions ≡ u.actions)
  unfolding older_meter set_protocol_type
  older_meter-same u = ground arith

  -- An error at a limit of the counters, and what is known of the state after it.
  error-GivesUp :
      (e : ErrorType) (addr code elapsed : ℕ) (u : AcSensorUpdater D)
      → addr ≡ u.ac_sensor.slave_address
      → leb max_timeout_count u.timeout_count || leb max_error_count u.error_count ≡ true
      → u.setup_requested ≡ false
      → (v : AcSensorUpdater D) × (on_error_received e addr code elapsed u ≡ done v)
        × GivesUp u v
        × (v.timeout_count ≡ 5)
        × (v.setup_requested ≡ false)
        × (v.is_zigbee ≡ u.is_zigbee)
  unfolding disconnect_sensor
  error-GivesUp e addr code elapsed u ha hl hs =
      let o = older_meter u in
      let same = older_meter-same u in
      let counts = older_meter-counts u in
      let meter = forget_sensor-gone o.ac_sensor in
      (
        act (timer_action (if u.is_zigbee then 30000 else 15000)) (disconnect_sensor o),
        error_disconnects e addr code elapsed u ha hl hs,
        record {
          lost = (refl, refl, refl, refl);
          meter_gone = meter.0;
          pv_meter_gone = (forget_sensor-gone o.ac_pv_sensor).0;
          serial_gone = meter.1;
          same_address = meter.2 ∙ same.0;
          waits = ap (λ l. l ++ timer_action (if u.is_zigbee then 30000 else 15000) ∷ []) same.1;
        },
        refl,
        counts.2 ∙ hs,
        counts.3,
      )

  -- The timer of a meter that is given up has rung.
  abbrev searching : AcSensorUpdater D → AcSensorUpdater D
  searching v =
      read_registers 0x000B 1
        (record v { state = device_id; ac_sensor = set_connection_state searched v.ac_sensor })

  wait_finished-searches :
      (elapsed : ℕ) (v : AcSensorUpdater D)
      → v.state ≡ wait_on_connection_lost
      → v.setup_requested ≡ false
      → on_wait_finished elapsed v ≡ done (searching v)
  unfolding on_wait_finished finish_wait start_next_action run_action start_action
      apply_setup_request
  wait_finished-searches elapsed v h q = rw (h, q) refl

  address-searched :
      (s : AcSensor D) → (set_connection_state searched s).slave_address ≡ s.slave_address
  unfolding set_connection_state
  address-searched s = ground arith

  -- An error of the meter that arrives with at least five timeouts or twenty other errors counted,
  -- while no new setup is requested, gives the meter up: it and its PV sensor are disconnected, its
  -- serial, settings and processors are gone, and a timer of 15 seconds, or of 30 behind Zigbee, is
  -- all that is asked for. When it rings the search begins anew with a read of register 0x000B; and
  -- as the counters stay at their limits, the next error, of whatever kind, gives the meter up again.
  pub on_error_received-GivesUp :
      (e e' : ErrorType) (addr code code' elapsed rung elapsed' : ℕ) (u : AcSensorUpdater D)
      → addr ≡ u.ac_sensor.slave_address
      → (5 ≤ u.timeout_count) ⊎ (20 ≤ u.error_count)
      → u.setup_requested ≡ false
      → (v : AcSensorUpdater D) × (on_error_received e addr code elapsed u ≡ done v)
        × GivesUp u v
        × (w : AcSensorUpdater D) × (on_wait_finished rung v ≡ done w)
        × (w.actions ≡ v.actions ++ read_action addr 0x000B 1 ∷ [])
        × (x : AcSensorUpdater D) × (on_error_received e' addr code' elapsed' w ≡ done x)
        × GivesUp w x
  unfolding read_registers
  on_error_received-GivesUp e e' addr code code' elapsed rung elapsed' u ha hl hs =
      let first = error-GivesUp e addr code elapsed u ha (at_limit hl) hs in
      let v = first.0 in
      let w = searching v in
      let gone = first.2 in
      let hv : addr ≡ w.ac_sensor.slave_address =
        ha ∙ sym (address-searched v.ac_sensor ∙ gone.same_address) in
      let again = error-GivesUp e' addr code' elapsed' w hv (ground (arith, first.3)) first.4 in
      (
        v,
        first.1,
        gone,
        w,
        wait_finished-searches rung v gone.lost.0 first.4,
        ap (λ a. v.actions ++ read_action a 0x000B 1 ∷ []) (sym hv),
        again.0,
        again.1,
        again.2,
      )
    where
      at_limit :
          (5 ≤ u.timeout_count) ⊎ (20 ≤ u.error_count)
          → leb max_timeout_count u.timeout_count || leb max_error_count u.error_count ≡ true
      at_limit h = ground arith
