-- ===== src/Updater/Values.antt =====
-- `processAcquisitionData` and `getDouble` of software/src/ac_sensor_updater.cpp: from the registers
-- of a reply to the values of the two meters.
use dbus_cgwacs.Prelude.{
  ℕ, suc, ◌*◌, Bool, true, false, not, ◌&&◌, ◌||◌, List, [], ◌∷◌, none, some, length, get_elem?,
  ltb, ◌==◌, if◌then◌else◌, bit_or,
}
use dbus_cgwacs.Prelude.Int.{pos, signed16, signed32}
use dbus_cgwacs.Defines.{Phase, multiphase, phase_l1, phase_l2, phase_number}
use dbus_cgwacs.Doubles.{Doubles}
use dbus_cgwacs.Settings.{AcSensorSettings, is_multiphase, phase_count}
use dbus_cgwacs.Sensor.{
  AcSensor, ProtocolType, et112_protocol, et340_protocol, unknown, get_phase, is_em540,
}
use dbus_cgwacs.Processor.{
  DataProcessor, set_power, set_voltage, set_current, set_positive_energy, set_frequency,
  set_power_factor, set_negative_sum, set_negative_energy,
}
use dbus_cgwacs.Updater.Tables.{
  RegisterCommand, ParameterType, none_parameter, power, voltage, current, positive_energy,
  negative_energy, frequency, power_factor,
}
use dbus_cgwacs.Updater.State.{
  AcSensorUpdater, Outcome, done, fault, out_of_fuel, with_register, with_settings,
}

-- `dest`: the processor of the meter, or that of the PV inverter.
pub data Target : Type 0 where
  meter pv_inverter : Target

abbrev pub is_meter : Target → Bool
is_meter meter = true
is_meter pv_inverter = false

abbrev pub is_l2 : Phase → Bool
is_l2 phase_l2 = true
is_l2 _ = false

abbrev pub is_total : Phase → Bool
is_total multiphase = true
is_total _ = false

abbrev pub is_none : ParameterType → Bool
is_none none_parameter = true
is_none _ = false

abbrev pub is_frequency : ParameterType → Bool
is_frequency frequency = true
is_frequency _ = false

-- The meters whose reverse energy is shared among the phases.
abbrev pub shares_energy : ProtocolType → Bool
shares_energy et112_protocol = false
shares_energy et340_protocol = false
shares_energy unknown = false
shares_energy _ = true

-- The 32-bit pattern of two registers, the low word first.
unfoldable pub register_pair : ℕ → ℕ → ℕ
register_pair low high = bit_or low (high * 65536)

-- What a call on a processor changes: its meter, and the processor.
abbrev pub Call : Type 0 → Type 0
Call D = AcSensor D × DataProcessor D → AcSensor D × DataProcessor D

abbrev pub at_sensor : {D : Type 0} → (AcSensor D → AcSensor D) → Call D
at_sensor g x = (g x.0, x.1)

module _ {D : Type 0} ⦃f : Doubles D⦄ where
  unfoldable pub double_of_pair : D → ℕ → ℕ → D
  double_of_pair factor low high =
      if register_pair low high == 0x7FFFFFFF
      then f.nan
      else f.mul (f.of_int (signed32 (register_pair low high))) factor

  -- `getDouble`
  unfoldable pub get_double :
      List ℕ → ℕ → D → (D → Outcome (AcSensorUpdater D)) → Outcome (AcSensorUpdater D)
  get_double registers offset factor k =
      with_register registers offset
        (λ low. with_register registers (suc offset) (λ high. k (double_of_pair factor low high)))

  -- A register of the frequency of a meter that is no EM540.
  unfoldable pub frequency_of : ℕ → D
  frequency_of r = if r == 0xFFFF then f.nan else f.mul (f.of_int (pos r)) f.tenth

  unfoldable pub power_factor_of : ℕ → D
  power_factor_of r = if r == 0x7FFF then f.nan else f.mul (f.of_int (signed16 r)) f.thousandth

  -- A call on `dest`.
  unfoldable pub dest_call : Target → Call D → AcSensorUpdater D → Outcome (AcSensorUpdater D)
  dest_call meter call u = elim u.data_processor [
    | none ↦ fault
    | some p ↦
        let x = call (u.ac_sensor, p) in
        done (record u { ac_sensor = x.0; data_processor = some x.1 })
  ]
  dest_call pv_inverter call u = elim u.pv_data_processor [
    | none ↦ fault
    | some p ↦
        let x = call (u.ac_pv_sensor, p) in
        done (record u { ac_pv_sensor = x.0; pv_data_processor = some x.1 })
  ]

  -- A value for a phase, and for L1 too where `setPhaseL1` says so.
  unfoldable pub store :
      (Phase → D → Call D)
      → Target
      → Phase
      → Bool
      → D
      → AcSensorUpdater D
      → Outcome (AcSensorUpdater D)
  store set dest phase set_l1 v u =
      dest_call dest (λ x. if set_l1 then set phase_l1 v (set phase v x) else set phase v x) u

  -- A current takes the sign of the meter's power.
  unfoldable pub signed_current : Target → Phase → D → AcSensorUpdater D → D
  signed_current dest phase v u =
      if u.set_current_sign && is_meter dest && f.less (get_phase phase u.ac_sensor).power f.zero
      then f.neg v
      else v

  -- The switch over `ra.action`.
  unfoldable pub store_parameter :
      List ℕ
      → AcSensorSettings D
      → Target
      → Phase
      → ℕ
      → ParameterType
      → AcSensorUpdater D
      → Outcome (AcSensorUpdater D)
  store_parameter registers settings dest phase offset action u =
      let protocol = u.ac_sensor.protocol_type in
      let set_l1 = is_total phase && not (is_multiphase settings) in
      elim action [
        | none_parameter ↦ done u
        | power ↦ get_double registers offset f.tenth (λ v. store set_power dest phase set_l1 v u)
        | voltage ↦
            get_double registers offset f.tenth
              (λ v. store (λ p w. at_sensor (set_voltage p w)) dest phase set_l1 v u)
        | current ↦ get_double registers offset f.thousandth (λ v.
            store (λ p w. at_sensor (set_current p w)) dest phase set_l1
              (signed_current dest phase v u) u)
        | positive_energy ↦
            get_double registers offset f.tenth
              (λ v. store (λ p w. at_sensor (set_positive_energy p w)) dest phase set_l1 v u)
        | negative_energy ↦ get_double registers offset f.tenth (λ v.
            if shares_energy protocol && is_multiphase settings
            then dest_call dest (set_negative_sum settings (f.abs v)) u
            else store (λ p w. at_sensor (set_negative_energy p w)) dest phase set_l1 (f.abs v) u)
        | frequency ↦
            if is_em540 protocol
            then get_double registers offset f.thousandth
                (λ v. dest_call dest (at_sensor (set_frequency v)) u)
            else with_register registers 0
                (λ r. dest_call dest (at_sensor (set_frequency (frequency_of r))) u)
        | power_factor ↦ with_register registers offset (λ r.
            store (λ p w. at_sensor (set_power_factor p w)) dest phase set_l1 (power_factor_of r) u)
      ]

  -- One pass of the loop over `cmd.actions`.
  unfoldable pub process_entry :
      List ℕ
      → AcSensorSettings D
      → RegisterCommand
      → AcSensorUpdater D
      → Outcome (AcSensorUpdater D)
  process_entry registers settings ra u =
      let dest = if settings.piggy_enabled && is_l2 ra.phase then pv_inverter else meter in
      let phase = if settings.piggy_enabled then multiphase else ra.phase in
      if is_multiphase settings && ltb (phase_count settings) (phase_number phase)
      then done u
      else if is_multiphase settings || is_total phase
      then store_parameter registers settings dest phase ra.reg_offset ra.action u
      else done u

  unfoldable pub process_entries :
      List ℕ
      → AcSensorSettings D
      → List RegisterCommand
      → AcSensorUpdater D
      → Outcome (AcSensorUpdater D)
  process_entries registers settings [] u = done u
  process_entries registers settings (ra ∷ rest) u =
      if is_none ra.action then done u else elim (process_entry registers settings ra u) [
        | done v ↦ process_entries registers settings rest v
        | fault ↦ fault
        | out_of_fuel ↦ out_of_fuel
      ]

  unfoldable pub process_acquisition_data : List ℕ → AcSensorUpdater D → Outcome (AcSensorUpdater D)
  process_acquisition_data registers u = elim (get_elem? u.commands u.command_index) [
    | none ↦ fault
    | some cmd ↦
        if cmd.count == length registers
        then with_settings u (λ s. process_entries registers s cmd.actions u)
        else done u
  ]
