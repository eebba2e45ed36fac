-- ===== src/Wireless/Endings.antt =====
-- How a search of tools/hub4_wireless/src/drf1600_detector.cpp ends: on a port where nothing
-- answers.
use dbus_cgwacs.Prelude.{
  ℕ, zero, suc, ◌≡◌, refl, ◌∙◌, Bool, false, List, [], ◌∷◌, none, some, ltb, arith, if◌then◌else◌,
}
use dbus_cgwacs.Wireless.Drf1600.{
  ZigbeeDeviceType, zigbee_router, read_pan_id_command, write_pan_id_command, Drf1600,
  on_ready_read, word_of,
}
use dbus_cgwacs.Wireless.Drf1600
use dbus_cgwacs.Wireless.Detector.{
  get_pan_id, set_pan_id, Drf1600Detector, Event, bytes_event, timeout_event, timer_event, handle,
  handle_all, new_detector, choose_device_type, choose_pan_id, set_adjust_settings, start,
}
use dbus_cgwacs.Wireless.Detector

-- Timeouts of the module, each followed by the timer of the detector.
abbrev pub silence : ℕ → List Event
silence zero = []
silence (suc n) = timeout_event ∷ timer_event ∷ silence n

abbrev pub configured : ZigbeeDeviceType → Bool → ℕ → Drf1600Detector
configured t adjusts id =
    set_adjust_settings adjusts (choose_pan_id id (choose_device_type t new_detector))

-- A detector that waits for nothing.
record IsQuiet (d : Drf1600Detector) : Type 0 where
  pub stopped : d.drf1600.timer_running ≡ false
  pub alone : d.timer ≡ none

pub step_lem :
    (e : Event) (es : List Event) (d d' : Drf1600Detector)
    → handle e d ≡ some d'
    → handle_all (e ∷ es) d ≡ handle_all es d'
unfolding handle_all
step_lem e es d d' h = rw (h, handle_all) refl

quiet_timeout : (d : Drf1600Detector) → IsQuiet d → handle timeout_event d ≡ some d
unfolding handle
quiet_timeout d q = ground arith

quiet_timer : (d : Drf1600Detector) → IsQuiet d → handle timer_event d ≡ some d
unfolding handle Detector.ring
quiet_timer d q = ground arith

quiet_lem : (n : ℕ) (d : Drf1600Detector) → IsQuiet d → handle_all (silence n) d ≡ some d
unfolding handle_all
quiet_lem zero d q = refl
quiet_lem (suc n) d q =
    step_lem timeout_event (timer_event ∷ silence n) d d (quiet_timeout d q)
    ∙ (step_lem timer_event (silence n) d d (quiet_timer d q) ∙ quiet_lem n d q)

abbrev pub told : ℕ → List Bool
told n = if ltb n 10 then [] else false ∷ []

-- On a port where nothing answers, the result is told after the tenth timeout and not before, it is
-- a failure, and it is told once, whatever the detector was configured to look for.
pub silent-told :
    (t : ZigbeeDeviceType) (adjusts : Bool) (id n : ℕ)
    → (d : Drf1600Detector) × (handle_all (silence n) (start (configured t adjusts id)) ≡ some d)
      × (d.finished ≡ told n)
unfolding start handle_all handle Drf1600.on_timeout Drf1600.reset_state_engine Detector.on_error
    Detector.ring Detector.on_timer Drf1600.test_baudrate Drf1600.set_baud_rate set_adjust_settings
    choose_pan_id choose_device_type new_detector Drf1600.new_drf1600
silent-told t adjusts id zero = (_, refl, refl)
silent-told t adjusts id (suc zero) = (_, refl, refl)
silent-told t adjusts id (suc (suc zero)) = (_, refl, refl)
silent-told t adjusts id (suc (suc (suc zero))) = (_, refl, refl)
silent-told t adjusts id (suc (suc (suc (suc zero)))) = (_, refl, refl)
silent-told t adjusts id (suc (suc (suc (suc (suc zero))))) = (_, refl, refl)
silent-told t adjusts id (suc (suc (suc (suc (suc (suc zero)))))) = (_, refl, refl)
silent-told t adjusts id (suc (suc (suc (suc (suc (suc (suc zero))))))) = (_, refl, refl)
silent-told t adjusts id (suc (suc (suc (suc (suc (suc (suc (suc zero)))))))) = (_, refl, refl)
silent-told t adjusts id (suc (suc (suc (suc (suc (suc (suc (suc (suc zero))))))))) =
    (_, refl, refl)
silent-told t adjusts id (suc (suc (suc (suc (suc (suc (suc (suc (suc (suc n)))))))))) =
    (_, quiet_lem n _ (record { stopped = refl; alone = refl }), ground arith)
