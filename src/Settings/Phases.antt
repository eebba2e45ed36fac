-- ===== src/Settings/Phases.antt =====
-- The phase count and the shared ("piggy back") mode: two settings that exclude each other.
use dbus_cgwacs.Prelude.{ℕ, ◌≤◌, ◌<◌, ◌≡◌, Bool, true, false, arith, ltb, if◌then◌else◌}
use dbus_cgwacs.Prelude.Int.{ℤ, pos, negsuc}
use dbus_cgwacs.Settings.{
  AcSensorSettings, bound_phase_count, phase_count, disable_piggy, set_is_multiphase,
  set_phase_count, set_piggy_enabled,
}

-- The shared mode has one phase, and the setting is one that the code can store.
pub record Consistent {D : Type 0} (s : AcSensorSettings D) : Type 0 where
  pub piggy_single : s.piggy_enabled ≡ true → phase_count s ≡ 1
  pub setting_bounded : s.phase_count_setting ≤ 3

bound_phase_count-le : (v : ℤ) → bound_phase_count v ≤ 3
unfolding bound_phase_count
bound_phase_count-le (pos n) = ground arith
bound_phase_count-le (negsuc n) = omega arith

module _ {D : Type 0} where
  -- Storing `false` by the setter is the branch that the other setters take.
  pub set_piggy_enabled-false :
      (s : AcSensorSettings D) → set_piggy_enabled false s ≡ disable_piggy s
  unfolding set_piggy_enabled disable_piggy
  set_piggy_enabled-false s = ground arith

  pub set_is_multiphase-Consistent :
      (b : Bool) (s : AcSensorSettings D) → Consistent s → Consistent (set_is_multiphase b s)
  unfolding set_is_multiphase
  set_is_multiphase-Consistent b s c = ground arith

  pub set_phase_count-Consistent :
      (v : ℤ) (s : AcSensorSettings D) → Consistent s → Consistent (set_phase_count v s)
  unfolding set_phase_count
  set_phase_count-Consistent v s c = ground (arith, bound_phase_count-le v)

  pub set_piggy_enabled-Consistent :
      (b : Bool) (s : AcSensorSettings D) → Consistent s → Consistent (set_piggy_enabled b s)
  unfolding set_piggy_enabled
  set_piggy_enabled-Consistent true s c = ground arith
  set_piggy_enabled-Consistent false s c = ground arith

  -- Enabling the shared mode, whatever the consistent settings were, leaves it enabled with one
  -- phase: the setters that it calls do not disable it again.
  pub set_piggy_enabled-true :
      (s : AcSensorSettings D)
      → Consistent s
      → let s' = set_piggy_enabled true s in (s'.piggy_enabled ≡ true) × (phase_count s' ≡ 1)
  unfolding set_piggy_enabled
  set_piggy_enabled-true s c = ground arith

  -- Choosing 2 or 3 phases for a sensor that supports them sets this count and ends the shared
  -- mode; a larger number counts as 3.
  pub set_phase_count-many :
      (n : ℕ) (s : AcSensorSettings D)
      → Consistent s
      → s.support_multiphase ≡ true
      → 1 < n
      → let s' = set_phase_count (pos n) s in
        (phase_count s' ≡ (if ltb 3 n then 3 else n)) × (s'.piggy_enabled ≡ false)
  unfolding set_phase_count
  set_phase_count-many n s c support h = ground arith
