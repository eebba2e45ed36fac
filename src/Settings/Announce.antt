-- ===== src/Settings/Announce.antt =====
-- Which setters announce a change of the phase count, and when.
use dbus_cgwacs.Prelude.{
  ℕ, suc, ◌+◌, ◌≡◌, refl, ◌∙◌, Bool, true, false, List, [], ◌∷◌, ◌++◌, arith, ltb, ◌==◌,
  if◌then◌else◌, Bool-cases, inl, inr,
}
use dbus_cgwacs.Prelude.Int.{ℤ, pos}
use dbus_cgwacs.Settings.{
  SettingsSignal, phase_count_changed, is_multiphase_changed, phase_count_setting_changed,
  piggy_enabled_changed, AcSensorSettings, same_bool, notify, bound_phase_count, phase_count,
  update_phase_count, set_is_multiphase, set_phase_count, make_room, set_piggy_enabled,
}

abbrev pub is_phase_count_changed : SettingsSignal → Bool
is_phase_count_changed phase_count_changed = true
is_phase_count_changed _ = false

-- How often `phaseCountChanged` stands in a list of signals.
abbrev pub announced : List SettingsSignal → ℕ
announced [] = 0
announced (g ∷ gs) = if is_phase_count_changed g then suc (announced gs) else announced gs

announced-append :
    (gs : List SettingsSignal) (g : SettingsSignal)
    → announced (gs ++ g ∷ []) ≡ announced gs + announced (g ∷ [])
announced-append [] g = omega arith
announced-append (h ∷ gs) g = ground (arith, announced-append gs g)

-- From `s` to `t` the phase count was announced once if it differs, and else not at all.
abbrev pub Announces : {D : Type 0} → AcSensorSettings D → AcSensorSettings D → Type 0
Announces s t =
    announced t.emitted ≡ announced s.emitted + (if phase_count t == phase_count s then 0 else 1)

module _ {D : Type 0} where
  update_announces :
      (old : ℕ) (s : AcSensorSettings D)
      → (announced (update_phase_count old s).emitted
          ≡ announced s.emitted + (if phase_count s == old then 0 else 1))
        × (phase_count (update_phase_count old s) ≡ phase_count s)
  unfolding update_phase_count
  update_announces old s = ground (
    arith,
    announced-append s.emitted piggy_enabled_changed,
    announced-append (s.emitted ++ piggy_enabled_changed ∷ []) phase_count_changed,
    announced-append s.emitted phase_count_changed,
  )

  pub announced_quiet :
      (g : SettingsSignal) (s : AcSensorSettings D)
      → is_phase_count_changed g ≡ false
      → announced (notify g s).emitted ≡ announced s.emitted
  announced_quiet g s h = ground (arith, announced-append s.emitted g)

  pub same-Announces : (s : AcSensorSettings D) → Announces s s
  same-Announces s = ground arith

  -- A signal of another kind, after changes that leave the phase count, is no announcement.
  pub notify-Announces :
      (g : SettingsSignal) (s t : AcSensorSettings D)
      → is_phase_count_changed g ≡ false
      → phase_count t ≡ phase_count s
      → announced t.emitted ≡ announced s.emitted
      → Announces s (notify g t)
  unfolding phase_count
  notify-Announces g s t h e a = ground (arith, announced_quiet g t h)

  pub quiet_if :
      (b : Bool) (s t : AcSensorSettings D) → Announces s t → Announces s (if b then s else t)
  quiet_if true s t h = same-Announces s
  quiet_if false s t h = h

  stored-Announces :
      (s stored : AcSensorSettings D)
      → announced stored.emitted ≡ announced s.emitted
      → Announces s (update_phase_count (phase_count s) stored)
  stored-Announces s stored e = let u = update_announces (phase_count s) stored in rw (u.1, u.0, e)

  -- Choosing a phase count announces it exactly when it changes.
  pub set_phase_count-Announces :
      (v : ℤ) (s : AcSensorSettings D) → Announces s (set_phase_count v s)
  unfolding set_phase_count
  set_phase_count-Announces v s =
      let stored = record s { phase_count_setting = bound_phase_count v } in
      elim (Bool-cases (s.phase_count_setting == bound_phase_count v)) [
        | inl h ↦ rw h (same-Announces s)
        | inr h ↦ rw h (
            stored-Announces s (notify phase_count_setting_changed stored)
              (announced_quiet phase_count_setting_changed stored refl))
      ]

  pub set_is_multiphase-Announces :
      (b : Bool) (s : AcSensorSettings D) → Announces s (set_is_multiphase b s)
  unfolding set_is_multiphase
  set_is_multiphase-Announces b s =
      let stored = record s { is_multiphase_setting = b } in
      elim (Bool-cases (same_bool s.is_multiphase_setting b)) [
        | inl h ↦ rw h (same-Announces s)
        | inr h ↦ rw h (
            stored-Announces s (notify is_multiphase_changed stored)
              (announced_quiet is_multiphase_changed stored refl))
      ]

  unchanged_then :
      (s t u : AcSensorSettings D)
      → phase_count t ≡ phase_count s
      → Announces s t
      → Announces t u
      → Announces s u
  unchanged_then s t u e a b = ground arith

  -- A setting above 1 makes the older setting irrelevant.
  set_is_multiphase-irrelevant :
      (s : AcSensorSettings D)
      → ltb 1 (set_is_multiphase false s).phase_count_setting ≡ true
      → phase_count (set_is_multiphase false s) ≡ phase_count s
  unfolding set_is_multiphase
  set_is_multiphase-irrelevant s h = ground arith

  make_room-Announces : (s : AcSensorSettings D) → Announces s (make_room s)
  unfolding make_room
  make_room-Announces s =
      let t = set_is_multiphase false s in
      elim (Bool-cases (ltb 1 t.phase_count_setting)) [
        | inl h ↦ rw h (
            unchanged_then s t (set_phase_count (pos 1) t) (set_is_multiphase-irrelevant s h)
              (set_is_multiphase-Announces false s) (set_phase_count-Announces (pos 1) t))
        | inr h ↦ rw h (set_is_multiphase-Announces false s)
      ]

  pub set_piggy_enabled-Announces :
      (b : Bool) (s : AcSensorSettings D) → Announces s (set_piggy_enabled b s)
  unfolding set_piggy_enabled phase_count
  set_piggy_enabled-Announces b s =
      let stored = record s { piggy_enabled = b } in
      elim (Bool-cases (same_bool s.piggy_enabled b)) [
        | inl h ↦ rw h (same-Announces s)
        | inr h ↦
            rw h (announce_stored b stored (make_room-Announces stored) (same-Announces stored))
      ]
    where
      announce_stored :
          (c : Bool) (t : AcSensorSettings D)
          → Announces t (make_room t)
          → Announces t t
          → Announces t (notify piggy_enabled_changed (if c then make_room t else t))
      announce_stored true t a e = announced_quiet piggy_enabled_changed (make_room t) refl ∙ a
      announce_stored false t a e = announced_quiet piggy_enabled_changed t refl ∙ e
