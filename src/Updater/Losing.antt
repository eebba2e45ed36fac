-- ===== src/Updater/Losing.antt =====
-- The counters of `onErrorReceived` and `disconnectSensor` of software/src/ac_sensor_updater.cpp: when
-- a meter is given up.
use dbus_cgwacs.Prelude.{
  ℕ, suc, ◌+◌, ◌<◌, ◌≤◌, ◌≡◌, refl, true, false, ◌||◌, none, arith, leb, zero, ap, ◌∙◌,
}
use dbus_cgwacs.Doubles.{Doubles}
use dbus_cgwacs.Modbus.Types.{ErrorType, timeout}
use dbus_cgwacs.Updater.State.{
  wait_on_connection_lost, AcSensorUpdater, disconnect_sensor, max_error_count, max_timeout_count,
}
use dbus_cgwacs.Updater.Handlers.{count_error}

module _ {D : Type 0} ⦃f : Doubles D⦄ where
  abbrev pub IsLost : AcSensorUpdater D → Type 0
  IsLost u =
      (u.state ≡ wait_on_connection_lost)
      × (u.settings ≡ none)
      × (u.data_processor ≡ none)
      × (u.pv_data_processor ≡ none)

  -- `onErrorReceived` on `n` errors, each counted as the slot counts it.
  unfoldable pub count_errors : ℕ → ErrorType → AcSensorUpdater D → AcSensorUpdater D
  count_errors zero e u = u
  count_errors (suc n) e u = count_errors n e (count_error e u)

  count_errors-last :
      (n : ℕ) (e : ErrorType) (u : AcSensorUpdater D)
      → count_errors (suc n) e u ≡ count_error e (count_errors n e u)
  unfolding count_errors
  count_errors-last zero e u = refl
  count_errors-last (suc n) e u = count_errors-last n e (count_error e u)

  count_error-timeout :
      (k : ℕ) (u : AcSensorUpdater D)
      → k < 5
      → u.error_count < 20
      → count_error timeout (record u { timeout_count = k }) ≡ record u { timeout_count = suc k }
  unfolding count_error
  count_error-timeout k u h b = rw (below 5 k h, below 20 u.error_count b) refl
    where
      below : (m n : ℕ) → n < m → leb m n ≡ false
      below m n l = ground arith

  count_timeouts-below :
      (n k : ℕ) (u : AcSensorUpdater D)
      → k + n ≤ 5
      → u.error_count < 20
      → count_errors n timeout (record u { timeout_count = k }) ≡ record u { timeout_count = k + n }
  unfolding count_errors count_error
  count_timeouts-below zero k u h b = ap (λ (n : ℕ). record u { timeout_count = n }) (omega arith)
  count_timeouts-below (suc n) k u h b =
      ap (count_errors n timeout) (count_error-timeout k u (omega arith) b)
      ∙ count_timeouts-below n (suc k) u (omega arith) b
      ∙ ap (λ (m : ℕ). record u { timeout_count = m }) (omega arith)

  disconnect-IsLost : (u : AcSensorUpdater D) → IsLost (disconnect_sensor u)
  unfolding disconnect_sensor
  disconnect-IsLost u = (refl, refl, refl, refl)

  pub count_error-at_limit :
      (e : ErrorType) (u : AcSensorUpdater D)
      → leb max_timeout_count u.timeout_count || leb max_error_count u.error_count ≡ true
      → count_error e u ≡ disconnect_sensor u
  unfolding count_error
  count_error-at_limit e u h = rw (h) refl

  -- Five timeouts in a row are only counted, from no timeout and fewer than twenty other errors on;
  -- the sixth makes the updater give its meter up, its settings and its processors with it.
  pub count_errors-sixth_timeout :
      (u : AcSensorUpdater D)
      → u.error_count < 20
      → (count_errors 5 timeout (record u { timeout_count = 0 }) ≡ record u { timeout_count = 5 })
        × IsLost (count_errors 6 timeout (record u { timeout_count = 0 }))
  count_errors-sixth_timeout u h =
      let below = count_timeouts-below 5 0 u (omega arith) h in
      (
        below,
        rw
            (
              count_errors-last 5 timeout (record u { timeout_count = 0 }),
              below,
              count_error-at_limit timeout (record u { timeout_count = 5 }) refl,
            )
            (disconnect-IsLost (record u { timeout_count = 5 })),
      )
