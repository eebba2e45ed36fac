-- ===== src/Settings/Changes.antt =====
-- Every sequence of calls of the setters, from a new object.
use dbus_cgwacs.Prelude.{refl, Bool, List, [], ◌∷◌, arith}
use dbus_cgwacs.Prelude.Int.{ℤ}
use dbus_cgwacs.Prelude.Text.{Text, text_eq}
use dbus_cgwacs.Defines.{Phase, multiphase, phase_l1, phase_l2, phase_l3, Position}
use dbus_cgwacs.Doubles.{Doubles}
use dbus_cgwacs.Settings.{
  custom_name_changed, l2_custom_name_changed, product_name_changed, l2_product_name_changed,
  class_and_vrm_instance_changed, l2_class_and_vrm_instance_changed, position_changed,
  l2_position_changed, l1_reverse_energy_changed, l2_reverse_energy_changed,
  l3_reverse_energy_changed, AcSensorSettings, notify, phase_count, set_is_multiphase,
  set_phase_count, set_piggy_enabled, set_custom_name, set_l2_custom_name,
  set_class_and_vrm_instance, set_l2_class_and_vrm_instance, set_position, set_l2_position,
  set_reverse_energy, new_settings, same_position,
}
use dbus_cgwacs.Settings.Phases.{
  Consistent, set_is_multiphase-Consistent, set_phase_count-Consistent,
  set_piggy_enabled-Consistent,
}
use dbus_cgwacs.Settings.Announce.{
  Announces, notify-Announces, quiet_if, announced_quiet, same-Announces, announced_quiet,
  same-Announces, set_is_multiphase-Announces, set_phase_count-Announces,
  set_piggy_enabled-Announces,
}

-- A call of a setter, from the settings service or from the program.
pub data Change (D : Type 0) : Type 0 where
  multiphase_change piggy_change : Bool → Change D
  phase_count_change : ℤ → Change D
  custom_name_change l2_custom_name_change : Text → Change D
  class_change l2_class_change : Text → Change D
  position_change l2_position_change : Position → Change D
  energy_change : Phase → D → Change D

module _ {D : Type 0} ⦃f : Doubles D⦄ where
  pub apply_change : Change D → AcSensorSettings D → AcSensorSettings D
  apply_change (multiphase_change b) s = set_is_multiphase b s
  apply_change (piggy_change b) s = set_piggy_enabled b s
  apply_change (phase_count_change v) s = set_phase_count v s
  apply_change (custom_name_change n) s = set_custom_name n s
  apply_change (l2_custom_name_change n) s = set_l2_custom_name n s
  apply_change (class_change t) s = set_class_and_vrm_instance t s
  apply_change (l2_class_change t) s = set_l2_class_and_vrm_instance t s
  apply_change (position_change p) s = set_position p s
  apply_change (l2_position_change p) s = set_l2_position p s
  apply_change (energy_change p e) s = set_reverse_energy p e s

  pub apply_changes : List (Change D) → AcSensorSettings D → AcSensorSettings D
  apply_changes [] s = s
  apply_changes (c ∷ cs) s = apply_changes cs (apply_change c s)

  apply_change-Consistent :
      (c : Change D) (s : AcSensorSettings D) → Consistent s → Consistent (apply_change c s)
  unfolding apply_change set_custom_name set_l2_custom_name set_class_and_vrm_instance
      set_l2_class_and_vrm_instance set_position set_l2_position set_reverse_energy phase_count
  apply_change-Consistent (multiphase_change b) s h = set_is_multiphase-Consistent b s h
  apply_change-Consistent (piggy_change b) s h = set_piggy_enabled-Consistent b s h
  apply_change-Consistent (phase_count_change v) s h = set_phase_count-Consistent v s h
  apply_change-Consistent (custom_name_change n) s h = ground arith
  apply_change-Consistent (l2_custom_name_change n) s h = ground arith
  apply_change-Consistent (class_change t) s h = ground arith
  apply_change-Consistent (l2_class_change t) s h = ground arith
  apply_change-Consistent (position_change p) s h = ground arith
  apply_change-Consistent (l2_position_change p) s h = ground arith
  apply_change-Consistent (energy_change multiphase e) s h = h
  apply_change-Consistent (energy_change phase_l1 e) s h = ground arith
  apply_change-Consistent (energy_change phase_l2 e) s h = ground arith
  apply_change-Consistent (energy_change phase_l3 e) s h = ground arith

  -- After every sequence of calls of the setters on settings of which it holds (new ones do):
  -- the shared mode is enabled only while the phase count is 1, and the stored setting is at most 3.
  pub apply_changes-Consistent :
      (cs : List (Change D)) (s : AcSensorSettings D)
      → Consistent s
      → Consistent (apply_changes cs s)
  unfolding apply_changes
  apply_changes-Consistent [] s h = h
  apply_changes-Consistent (c ∷ cs) s h =
      apply_changes-Consistent cs (apply_change c s) (apply_change-Consistent c s h)

  -- Every call of a setter, on any settings, emits `phaseCountChanged` exactly once if it changed
  -- the phase count in use, and not at all if it did not.
  pub apply_change-Announces :
      (c : Change D) (s : AcSensorSettings D) → Announces s (apply_change c s)
  unfolding apply_change set_custom_name set_l2_custom_name set_class_and_vrm_instance
      set_l2_class_and_vrm_instance set_position set_l2_position set_reverse_energy phase_count
  apply_change-Announces (multiphase_change b) s = set_is_multiphase-Announces b s
  apply_change-Announces (piggy_change b) s = set_piggy_enabled-Announces b s
  apply_change-Announces (phase_count_change v) s = set_phase_count-Announces v s
  apply_change-Announces (custom_name_change n) s =
      quiet_if (text_eq s.custom_name n) s _
        (notify-Announces custom_name_changed s (record s { custom_name = n }) refl refl refl)
  apply_change-Announces (l2_custom_name_change n) s =
      quiet_if (text_eq s.l2_custom_name n) s _
        (notify-Announces l2_custom_name_changed s (record s { l2_custom_name = n }) refl refl refl)
  apply_change-Announces (class_change t) s =
      let stored = record s { class_and_vrm_instance = t } in
      quiet_if (text_eq s.class_and_vrm_instance t) s _ (
        notify-Announces class_and_vrm_instance_changed s (notify product_name_changed stored) refl
          refl (announced_quiet product_name_changed stored refl))
  apply_change-Announces (l2_class_change t) s =
      let stored = record s { l2_class_and_vrm_instance = t } in
      quiet_if (text_eq s.l2_class_and_vrm_instance t) s _ (
        notify-Announces l2_product_name_changed s (notify l2_class_and_vrm_instance_changed stored)
          refl refl (announced_quiet l2_class_and_vrm_instance_changed stored refl))
  apply_change-Announces (position_change p) s =
      let stored = record s { position = p } in
      quiet_if (same_position s.position p) s _ (
        notify-Announces product_name_changed s (notify position_changed stored) refl refl
          (announced_quiet position_changed stored refl))
  apply_change-Announces (l2_position_change p) s =
      let stored = record s { l2_position = p } in
      quiet_if (same_position s.l2_position p) s _ (
        notify-Announces l2_product_name_changed s (notify l2_position_changed stored) refl refl
          (announced_quiet l2_position_changed stored refl))
  apply_change-Announces (energy_change multiphase e) s = same-Announces s
  apply_change-Announces (energy_change phase_l1 e) s =
      quiet_if (f.equal s.l1_energy e) s _
        (notify-Announces l1_reverse_energy_changed s (record s { l1_energy = e }) refl refl refl)
  apply_change-Announces (energy_change phase_l2 e) s =
      quiet_if (f.equal s.l2_energy e) s _
        (notify-Announces l2_reverse_energy_changed s (record s { l2_energy = e }) refl refl refl)
  apply_change-Announces (energy_change phase_l3 e) s =
      quiet_if (f.equal s.l3_energy e) s _
        (notify-Announces l3_reverse_energy_changed s (record s { l3_energy = e }) refl refl refl)

  pub new_settings-Consistent :
      (support : Bool) (serial : Text) → Consistent {D = D} (new_settings support serial)
  unfolding new_settings phase_count
  new_settings-Consistent support serial = ground arith
