-- ===== src/Settings.antt =====
-- software/src/ac_sensor_settings.h and software/src/ac_sensor_settings.cpp: the settings of one
-- sensor. `emitted` is the list of the signals emitted so far, the last one at the end.
pub mod Phases
pub mod Announce
pub mod Changes
pub mod Classes
use dbus_cgwacs.Prelude.{
  ℕ, ◌+◌, ◌≤◌, Bool, true, false, not, ◌&&◌, List, [], ◌∷◌, ◌++◌, Option, none, some, ltb, ◌==◌,
  if◌then◌else◌,
}
use dbus_cgwacs.Prelude.Int.{ℤ, pos, negsuc}
use dbus_cgwacs.Prelude.Text.{Text, text, text_eq, first_part, last_part}
use dbus_cgwacs.Defines.{
  Phase, multiphase, phase_l1, phase_l2, phase_l3, Position, input1, output, input2,
}
use dbus_cgwacs.Doubles.{Doubles}

pub data SettingsSignal : Type 0 where
  custom_name_changed product_name_changed class_and_vrm_instance_changed : SettingsSignal
  l2_class_and_vrm_instance_changed phase_count_changed is_multiphase_changed : SettingsSignal
  phase_count_setting_changed piggy_enabled_changed position_changed : SettingsSignal
  l1_reverse_energy_changed l2_reverse_energy_changed l3_reverse_energy_changed : SettingsSignal
  l2_custom_name_changed l2_product_name_changed l2_position_changed : SettingsSignal

pub record AcSensorSettings (D : Type 0) : Type 0 where
  pub support_multiphase : Bool
  pub serial : Text
  pub custom_name : Text
  pub class_and_vrm_instance : Text
  pub l2_class_and_vrm_instance : Text
  pub is_multiphase_setting : Bool
  pub phase_count_setting : ℕ
  pub piggy_enabled : Bool
  pub position : Position
  pub l1_energy : D
  pub l2_energy : D
  pub l3_energy : D
  pub l2_custom_name : Text
  pub l2_position : Position
  pub emitted : List SettingsSignal

abbrev pub same_bool : Bool → Bool → Bool
same_bool true b = b
same_bool false b = not b

abbrev pub same_position : Position → Position → Bool
same_position input1 input1 = true
same_position output output = true
same_position input2 input2 = true
same_position _ _ = false

-- `qBound(0, n, 3)`
unfoldable pub bound_phase_count : ℤ → ℕ
bound_phase_count (pos n) = if ltb 3 n then 3 else n
bound_phase_count (negsuc n) = 0

unfoldable pub get_product_name : Text → Position → Text
get_product_name service p =
    if text_eq service (text "grid")
    then text "Grid meter"
    else if text_eq service (text "genset")
    then text "Generator"
    else if text_eq service (text "pvinverter")
    then text "PV inverter" ++ text " on " ++ place p
    else if text_eq service (text "acload")
    then text "AC load"
    else if text_eq service (text "evcharger")
    then text "EVSE"
    else if text_eq service (text "heatpump")
    then text "Heat pump"
    else text "AC sensor"
  where
    place : Position → Text
    place input1 = text "input 1"
    place input2 = text "input 2"
    place output = text "output"

module _ {D : Type 0} where
  abbrev pub notify : SettingsSignal → AcSensorSettings D → AcSensorSettings D
  notify g s = record s { emitted = s.emitted ++ g ∷ [] }

  unfoldable pub phase_count : AcSensorSettings D → ℕ
  phase_count s =
      if not s.support_multiphase
      then 1
      else if ltb 0 s.phase_count_setting
      then s.phase_count_setting
      else if s.is_multiphase_setting
      then 3
      else 1

  unfoldable pub is_multiphase : AcSensorSettings D → Bool
  unfolding phase_count
  is_multiphase s = ltb 1 (phase_count s)

  -- `setPiggyEnabled(false)`: the branch of `setPiggyEnabled` that calls no other setter.
  unfoldable pub disable_piggy : AcSensorSettings D → AcSensorSettings D
  disable_piggy s =
      if s.piggy_enabled
      then notify piggy_enabled_changed (record s { piggy_enabled = false })
      else s

  unfoldable pub update_phase_count : ℕ → AcSensorSettings D → AcSensorSettings D
  unfolding phase_count disable_piggy
  update_phase_count old s =
      let n = phase_count s in
      if n == old then s else notify phase_count_changed (if ltb 1 n then disable_piggy s else s)

  unfoldable pub set_is_multiphase : Bool → AcSensorSettings D → AcSensorSettings D
  unfolding update_phase_count
  set_is_multiphase b s =
      if same_bool s.is_multiphase_setting b
      then s
      else update_phase_count (phase_count s)
          (notify is_multiphase_changed (record s { is_multiphase_setting = b }))

  unfoldable pub set_phase_count : ℤ → AcSensorSettings D → AcSensorSettings D
  unfolding update_phase_count bound_phase_count
  set_phase_count v s =
      let n = bound_phase_count v in
      if s.phase_count_setting == n
      then s
      else update_phase_count (phase_count s)
          (notify phase_count_setting_changed (record s { phase_count_setting = n }))

  -- What `setPiggyEnabled(true)` does between storing the value and its signal.
  unfoldable pub make_room : AcSensorSettings D → AcSensorSettings D
  unfolding set_is_multiphase set_phase_count
  make_room s =
      let s' = set_is_multiphase false s in
      if ltb 1 s'.phase_count_setting then set_phase_count (pos 1) s' else s'

  unfoldable pub set_piggy_enabled : Bool → AcSensorSettings D → AcSensorSettings D
  unfolding make_room
  set_piggy_enabled b s =
      if same_bool s.piggy_enabled b
      then s
      else let stored = record s { piggy_enabled = b } in
        notify piggy_enabled_changed (if b then make_room stored else stored)

  unfoldable pub set_custom_name : Text → AcSensorSettings D → AcSensorSettings D
  set_custom_name n s =
      if text_eq s.custom_name n
      then s
      else notify custom_name_changed (record s { custom_name = n })

  unfoldable pub set_l2_custom_name : Text → AcSensorSettings D → AcSensorSettings D
  set_l2_custom_name n s =
      if text_eq s.l2_custom_name n
      then s
      else notify l2_custom_name_changed (record s { l2_custom_name = n })

  unfoldable pub set_class_and_vrm_instance : Text → AcSensorSettings D → AcSensorSettings D
  set_class_and_vrm_instance t s =
      if text_eq s.class_and_vrm_instance t
      then s
      else notify class_and_vrm_instance_changed
          (notify product_name_changed (record s { class_and_vrm_instance = t }))

  unfoldable pub set_l2_class_and_vrm_instance : Text → AcSensorSettings D → AcSensorSettings D
  set_l2_class_and_vrm_instance t s =
      if text_eq s.l2_class_and_vrm_instance t
      then s
      else notify l2_product_name_changed
          (notify l2_class_and_vrm_instance_changed (record s { l2_class_and_vrm_instance = t }))

  unfoldable pub set_position : Position → AcSensorSettings D → AcSensorSettings D
  set_position p s =
      if same_position s.position p
      then s
      else notify product_name_changed (notify position_changed (record s { position = p }))

  unfoldable pub set_l2_position : Position → AcSensorSettings D → AcSensorSettings D
  set_l2_position p s =
      if same_position s.l2_position p
      then s
      else notify l2_product_name_changed
          (notify l2_position_changed (record s { l2_position = p }))

  unfoldable pub service_type : AcSensorSettings D → Text
  service_type s = first_part b':' s.class_and_vrm_instance

  unfoldable pub l2_service_type : AcSensorSettings D → Text
  l2_service_type s = first_part b':' s.l2_class_and_vrm_instance

  unfoldable pub product_name : AcSensorSettings D → Text
  unfolding service_type get_product_name
  product_name s = get_product_name (service_type s) s.position

  unfoldable pub l2_product_name : AcSensorSettings D → Text
  unfolding l2_service_type get_product_name
  l2_product_name s = get_product_name (l2_service_type s) s.l2_position

  unfoldable pub get_reverse_energy : ⦃f : Doubles D⦄ → Phase → AcSensorSettings D → D
  get_reverse_energy ⦃f⦄ multiphase s = f.zero
  get_reverse_energy phase_l1 s = s.l1_energy
  get_reverse_energy phase_l2 s = s.l2_energy
  get_reverse_energy phase_l3 s = s.l3_energy

  -- `setL1ReverseEnergy` to `setL3ReverseEnergy`, and the choice between them.
  unfoldable pub set_reverse_energy :
      ⦃f : Doubles D⦄ → Phase → D → AcSensorSettings D → AcSensorSettings D
  set_reverse_energy multiphase e s = s
  set_reverse_energy ⦃f⦄ phase_l1 e s =
      if f.equal s.l1_energy e
      then s
      else notify l1_reverse_energy_changed (record s { l1_energy = e })
  set_reverse_energy ⦃f⦄ phase_l2 e s =
      if f.equal s.l2_energy e
      then s
      else notify l2_reverse_energy_changed (record s { l2_energy = e })
  set_reverse_energy ⦃f⦄ phase_l3 e s =
      if f.equal s.l3_energy e
      then s
      else notify l3_reverse_energy_changed (record s { l3_energy = e })

  -- The constructor.
  unfoldable pub new_settings : ⦃f : Doubles D⦄ → Bool → Text → AcSensorSettings D
  new_settings ⦃f⦄ support serial = record {
    support_multiphase = support;
    serial = serial;
    custom_name = [];
    class_and_vrm_instance = [];
    l2_class_and_vrm_instance = [];
    is_multiphase_setting = false;
    phase_count_setting = 0;
    piggy_enabled = false;
    position = input1;
    l1_energy = f.zero;
    l2_energy = f.zero;
    l3_energy = f.zero;
    l2_custom_name = [];
    l2_position = input1;
    emitted = [];
  }
