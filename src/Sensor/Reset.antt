-- ===== src/Sensor/Reset.antt =====
-- `resetValues`: which values it resets, and what it leaves.
use dbus_cgwacs.Prelude.{
  ◌≡◌, refl, true, List, [], ◌∷◌, ◌++◌, arith, if◌then◌else◌, Bool-cases, inl, inr,
}
use dbus_cgwacs.Doubles.{Doubles, NanLaws}
use dbus_cgwacs.Sensor.{
  PhaseSignal, current_changed, voltage_changed, power_changed, energy_forward_changed,
  energy_reverse_changed, power_factor_changed, AcSensorPhase, AcSensor, values_equal, set_current,
  set_voltage, set_power, set_energy_forward, set_energy_reverse, set_power_factor, reset_phase,
  reset_values,
}

-- No measured value of the phase is a number.
pub record IsBlank {D : Type 0} ⦃f : Doubles D⦄ (p : AcSensorPhase D) : Type 0 where
  pub current_blank : f.is_nan p.current ≡ true
  pub voltage_blank : f.is_nan p.voltage ≡ true
  pub power_blank : f.is_nan p.power ≡ true
  pub energy_forward_blank : f.is_nan p.energy_forward ≡ true
  pub energy_reverse_blank : f.is_nan p.energy_reverse ≡ true
  pub power_factor_blank : f.is_nan p.power_factor ≡ true

module _ {D : Type 0} ⦃f : Doubles D⦄ where
  -- What a setter leaves in its field.
  abbrev pub stored : D → D → D
  stored old new = if values_equal old new then old else new

  set_current-fields :
      (v : D) (p : AcSensorPhase D)
      → (log : List PhaseSignal) × (set_current v p
          ≡ record p { current = stored p.current v; emitted = log })
  unfolding set_current
  set_current-fields v p = elim (Bool-cases (values_equal p.current v)) [
    | inl h ↦ (p.emitted, rw h)
    | inr h ↦ (p.emitted ++ current_changed ∷ [], rw h)
  ]

  set_voltage-fields :
      (v : D) (p : AcSensorPhase D)
      → (log : List PhaseSignal) × (set_voltage v p
          ≡ record p { voltage = stored p.voltage v; emitted = log })
  unfolding set_voltage
  set_voltage-fields v p = elim (Bool-cases (values_equal p.voltage v)) [
    | inl h ↦ (p.emitted, rw h)
    | inr h ↦ (p.emitted ++ voltage_changed ∷ [], rw h)
  ]

  set_power-fields :
      (v : D) (p : AcSensorPhase D)
      → (log : List PhaseSignal) × (set_power v p
          ≡ record p { power = stored p.power v; emitted = log })
  unfolding set_power
  set_power-fields v p = elim (Bool-cases (values_equal p.power v)) [
    | inl h ↦ (p.emitted, rw h)
    | inr h ↦ (p.emitted ++ power_changed ∷ [], rw h)
  ]

  set_energy_forward-fields :
      (v : D) (p : AcSensorPhase D)
      → (log : List PhaseSignal) × (set_energy_forward v p
          ≡ record p { energy_forward = stored p.energy_forward v; emitted = log })
  unfolding set_energy_forward
  set_energy_forward-fields v p = elim (Bool-cases (values_equal p.energy_forward v)) [
    | inl h ↦ (p.emitted, rw h)
    | inr h ↦ (p.emitted ++ energy_forward_changed ∷ [], rw h)
  ]

  set_energy_reverse-fields :
      (v : D) (p : AcSensorPhase D)
      → (log : List PhaseSignal) × (set_energy_reverse v p
          ≡ record p { energy_reverse = stored p.energy_reverse v; emitted = log })
  unfolding set_energy_reverse
  set_energy_reverse-fields v p = elim (Bool-cases (values_equal p.energy_reverse v)) [
    | inl h ↦ (p.emitted, rw h)
    | inr h ↦ (p.emitted ++ energy_reverse_changed ∷ [], rw h)
  ]

  set_power_factor-fields :
      (v : D) (p : AcSensorPhase D)
      → (log : List PhaseSignal) × (set_power_factor v p
          ≡ record p { power_factor = stored p.power_factor v; emitted = log })
  unfolding set_power_factor
  set_power_factor-fields v p = elim (Bool-cases (values_equal p.power_factor v)) [
    | inl h ↦ (p.emitted, rw h)
    | inr h ↦ (p.emitted ++ power_factor_changed ∷ [], rw h)
  ]

  stored-nan : NanLaws f → (x : D) → f.is_nan (stored x f.nan) ≡ true
  unfolding values_equal
  stored-nan laws x = ground (arith, laws.nan_is_nan, laws.equal_nan_right x f.nan)

  abbrev blanked : AcSensorPhase D → List PhaseSignal → AcSensorPhase D
  blanked p log = record {
    current = stored p.current f.nan;
    voltage = stored p.voltage f.nan;
    power = stored p.power f.nan;
    energy_forward = stored p.energy_forward f.nan;
    energy_reverse = stored p.energy_reverse f.nan;
    power_factor = stored p.power_factor f.nan;
    emitted = log;
  }

  reset_phase-fields :
      (p : AcSensorPhase D) → (log : List PhaseSignal) × (reset_phase p ≡ blanked p log)
  unfolding reset_phase
  reset_phase-fields p =
      let (l1, e1) = set_current-fields f.nan p in
      let p1 = record p { current = stored p.current f.nan; emitted = l1 } in
      let (l2, e2) = set_power-fields f.nan p1 in
      let p2 = record p1 { power = stored p.power f.nan; emitted = l2 } in
      let (l3, e3) = set_voltage-fields f.nan p2 in
      let p3 = record p2 { voltage = stored p.voltage f.nan; emitted = l3 } in
      let (l4, e4) = set_energy_forward-fields f.nan p3 in
      let p4 = record p3 { energy_forward = stored p.energy_forward f.nan; emitted = l4 } in
      let (l5, e5) = set_energy_reverse-fields f.nan p4 in
      let p5 = record p4 { energy_reverse = stored p.energy_reverse f.nan; emitted = l5 } in
      let (l6, e6) = set_power_factor-fields f.nan p5 in (l6, rw (e1, e2, e3, e4, e5, e6))

  pub reset_phase-IsBlank : NanLaws f → (p : AcSensorPhase D) → IsBlank (reset_phase p)
  reset_phase-IsBlank laws p =
      let (log, e) = reset_phase-fields p in
      rw e (record {
        current_blank = stored-nan laws p.current;
        voltage_blank = stored-nan laws p.voltage;
        power_blank = stored-nan laws p.power;
        energy_forward_blank = stored-nan laws p.energy_forward;
        energy_reverse_blank = stored-nan laws p.energy_reverse;
        power_factor_blank = stored-nan laws p.power_factor;
      })

  -- `resetValues` leaves no number among the measured values of the total and of the three
  -- phases, whatever they were. It leaves every other field as it was, the frequency among them, and
  -- the meter itself emits nothing.
  pub reset_values-IsBlank :
      NanLaws f
      → (s : AcSensor D)
      → let s' = reset_values s in
        IsBlank s'.total
        × IsBlank s'.l1
        × IsBlank s'.l2
        × IsBlank s'.l3
        × (s'.frequency ≡ s.frequency)
        × (s'.connection_state ≡ s.connection_state)
        × (s'.device_type ≡ s.device_type)
        × (s'.protocol_type ≡ s.protocol_type)
        × (s'.error_code ≡ s.error_code)
        × (s'.firmware_version ≡ s.firmware_version)
        × (s'.slave_address ≡ s.slave_address)
        × (s'.serial ≡ s.serial)
        × (s'.role ≡ s.role)
        × (s'.phase_sequence ≡ s.phase_sequence)
        × (s'.emitted ≡ s.emitted)
  unfolding reset_values
  reset_values-IsBlank laws s = (
    reset_phase-IsBlank laws s.total,
    reset_phase-IsBlank laws s.l1,
    reset_phase-IsBlank laws s.l2,
    reset_phase-IsBlank laws s.l3,
    refl,
    refl,
    refl,
    refl,
    refl,
    refl,
    refl,
    refl,
    refl,
    refl,
    refl,
  )
