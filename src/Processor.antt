-- ===== src/Processor.antt =====
-- software/src/data_processor.h and software/src/data_processor.cpp: the object that stores the
-- values of a meter, and shares the meter's reverse energy among the phases.
pub mod Energy
pub mod Growth
use dbus_cgwacs.Prelude.{ℕ, Bool, true, false, not, leb, if◌then◌else◌}
use dbus_cgwacs.Prelude.Int.{pos}
use dbus_cgwacs.Defines.{Phase, multiphase, phase_l1, phase_l2, phase_l3}
use dbus_cgwacs.Doubles.{Doubles}
use dbus_cgwacs.Settings.{
  AcSensorSettings, phase_count, get_reverse_energy as stored_energy,
  set_reverse_energy as store_energy,
}
use dbus_cgwacs.Sensor.{
  AcSensor, get_phase, on_phase, set_current as phase_current, set_voltage as phase_voltage,
  set_power as phase_power, set_energy_forward, set_energy_reverse,
  set_power_factor as phase_factor, set_frequency as sensor_frequency,
}

-- `mNegativePower`, one sum for each phase, and whether the meter's total is shared.
pub record DataProcessor (D : Type 0) : Type 0 where
  pub negative_total : D
  pub negative_l1 : D
  pub negative_l2 : D
  pub negative_l3 : D
  pub store_reverse_energy : Bool

module _ {D : Type 0} where
  unfoldable pub negative_power : Phase → DataProcessor D → D
  negative_power multiphase p = p.negative_total
  negative_power phase_l1 p = p.negative_l1
  negative_power phase_l2 p = p.negative_l2
  negative_power phase_l3 p = p.negative_l3

  unfoldable pub set_negative_power : Phase → D → DataProcessor D → DataProcessor D
  set_negative_power multiphase v p = record p { negative_total = v }
  set_negative_power phase_l1 v p = record p { negative_l1 = v }
  set_negative_power phase_l2 v p = record p { negative_l2 = v }
  set_negative_power phase_l3 v p = record p { negative_l3 = v }

module _ {D : Type 0} ⦃f : Doubles D⦄ where
  -- `memset(mNegativePower, 0, ...)`
  unfoldable pub clear_negative_power : DataProcessor D → DataProcessor D
  clear_negative_power p = record p {
    negative_total = f.zero;
    negative_l1 = f.zero;
    negative_l2 = f.zero;
    negative_l3 = f.zero;
  }

  unfoldable pub new_processor : DataProcessor D
  new_processor = record {
    negative_total = f.zero;
    negative_l1 = f.zero;
    negative_l2 = f.zero;
    negative_l3 = f.zero;
    store_reverse_energy = false;
  }

  unfoldable pub set_power : Phase → D → AcSensor D × DataProcessor D → AcSensor D × DataProcessor D
  set_power phase v (s, p) = (
    on_phase phase (phase_power v) s,
    if f.less v f.zero then set_negative_power phase (f.sub (negative_power phase p) v) p else p,
  )

  unfoldable pub set_voltage : Phase → D → AcSensor D → AcSensor D
  set_voltage phase v s = on_phase phase (phase_voltage v) s

  unfoldable pub set_current : Phase → D → AcSensor D → AcSensor D
  set_current phase v s = on_phase phase (phase_current v) s

  unfoldable pub set_positive_energy : Phase → D → AcSensor D → AcSensor D
  set_positive_energy phase v s = on_phase phase (set_energy_forward v) s

  unfoldable pub set_frequency : D → AcSensor D → AcSensor D
  set_frequency v s = sensor_frequency v s

  unfoldable pub set_power_factor : Phase → D → AcSensor D → AcSensor D
  set_power_factor phase v s = on_phase phase (phase_factor v) s

  unfoldable pub reverse_energy : Phase → AcSensor D → D
  unfolding get_phase
  reverse_energy phase s = (get_phase phase s).energy_reverse

  unfoldable pub set_reverse_energy : Phase → D → AcSensor D → AcSensor D
  set_reverse_energy phase v s = on_phase phase (set_energy_reverse v) s

  -- A stored energy of 0 stands for none.
  unfoldable pub initial_energy : Phase → D → AcSensorSettings D → D
  initial_energy phase default settings =
      let v = stored_energy phase settings in if f.equal v f.zero then default else v

  unfoldable pub set_initial_energy : Phase → D → AcSensorSettings D → AcSensor D → AcSensor D
  set_initial_energy phase default settings s =
      set_reverse_energy phase (initial_energy phase default settings) s

  abbrev pub has_l3 : AcSensorSettings D → Bool
  has_l3 settings = leb 3 (phase_count settings)

  -- `setNegativeEnergy(sum)` while L1 has no energy yet.
  unfoldable pub start_energy : AcSensorSettings D → D → AcSensor D → AcSensor D
  start_energy settings sum s =
      let share = f.div sum (f.of_int (pos (if has_l3 settings then 3 else 2))) in
      let s1 = set_initial_energy phase_l1 share settings s in
      let s2 = set_initial_energy phase_l2 share settings s1 in
      let s3 = if has_l3 settings then set_initial_energy phase_l3 share settings s2 else s2 in
      set_reverse_energy multiphase sum s3

  -- A phase takes its part of the factor.
  unfoldable pub grow_energy : D → DataProcessor D → Phase → AcSensor D → AcSensor D
  grow_energy factor p phase s =
      set_reverse_energy phase
        (f.add (reverse_energy phase s) (f.mul factor (negative_power phase p))) s

  unfoldable pub grow_phases : AcSensorSettings D → D → DataProcessor D → AcSensor D → AcSensor D
  grow_phases settings factor p s =
      let s2 = grow_energy factor p phase_l2 (grow_energy factor p phase_l1 s) in
      if has_l3 settings then grow_energy factor p phase_l3 s2 else s2

  -- `setNegativeEnergy(sum)` once the meter's total has grown.
  unfoldable pub share_energy :
      AcSensorSettings D → D → D → DataProcessor D → AcSensor D → AcSensor D
  share_energy settings sum delta p s =
      let s0 = set_reverse_energy multiphase sum s in
      let factor = f.div delta p.negative_total in
      if f.is_finite factor then grow_phases settings factor p s0 else s0

  -- `setNegativeEnergy(double sum)`
  unfoldable pub set_negative_sum :
      AcSensorSettings D → D → AcSensor D × DataProcessor D → AcSensor D × DataProcessor D
  set_negative_sum settings sum (s, p) =
      let p' = record p { store_reverse_energy = true } in
      let delta = f.sub sum (reverse_energy multiphase s) in
      if not (f.is_finite (reverse_energy phase_l1 s))
      then (start_energy settings sum s, clear_negative_power p')
      else if f.less_eq delta f.zero
      then (s, p')
      else (share_energy settings sum delta p' s, clear_negative_power p')

  -- `setNegativeEnergy(Phase phase, double value)`
  unfoldable pub set_negative_energy : Phase → D → AcSensor D → AcSensor D
  set_negative_energy phase v s = set_reverse_energy phase v s

  unfoldable pub update_phase_setting : Phase → AcSensor D → AcSensorSettings D → AcSensorSettings D
  update_phase_setting phase s settings =
      let e = reverse_energy phase s in
      if f.is_finite e then store_energy phase e settings else settings

  unfoldable pub update_energy_settings :
      DataProcessor D → AcSensor D → AcSensorSettings D → AcSensorSettings D
  update_energy_settings p s settings =
      if p.store_reverse_energy
      then update_phase_setting phase_l3 s
          (update_phase_setting phase_l2 s (update_phase_setting phase_l1 s settings))
      else settings
