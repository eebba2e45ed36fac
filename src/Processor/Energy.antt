-- ===== src/Processor/Energy.antt =====
-- The reverse energy of the phases: it never falls, and a phase that is not connected has none.
use dbus_cgwacs.Prelude.{
  ◌≡◌, ◌≢◌, refl, sym, ap, ◌∙◌, true, false, arith, if◌then◌else◌, Bool-cases, inl, inr,
}
use dbus_cgwacs.Defines.{Phase, multiphase, phase_l1, phase_l2, phase_l3}
use dbus_cgwacs.Doubles.{Doubles, OrderLaws}
use dbus_cgwacs.Settings.{AcSensorSettings}
use dbus_cgwacs.Sensor.{
  AcSensor, AcSensorPhase, values_equal, get_phase, on_phase, set_energy_reverse,
}
use dbus_cgwacs.Processor.{
  DataProcessor, has_l3, negative_power, reverse_energy, set_reverse_energy, set_initial_energy,
  start_energy, grow_energy, grow_phases, share_energy, set_negative_sum,
}

module _ {D : Type 0} ⦃f : Doubles D⦄ where
  -- What a write of the reverse energy leaves.
  abbrev pub written : D → D → D
  written old new = if values_equal old new then old else new

  set_energy_reverse_lem :
      (v : D) (p : AcSensorPhase D)
      → (set_energy_reverse v p).energy_reverse ≡ written p.energy_reverse v
  unfolding set_energy_reverse
  set_energy_reverse_lem v p = ground arith

  -- A write to a phase is read back there, up to values that compare equal, and nowhere else.
  pub written_here :
      (phase : Phase) (v : D) (s : AcSensor D)
      → reverse_energy phase (set_reverse_energy phase v s) ≡ written (reverse_energy phase s) v
  unfolding reverse_energy set_reverse_energy get_phase on_phase
  written_here multiphase v s = set_energy_reverse_lem v s.total
  written_here phase_l1 v s = set_energy_reverse_lem v s.l1
  written_here phase_l2 v s = set_energy_reverse_lem v s.l2
  written_here phase_l3 v s = set_energy_reverse_lem v s.l3

  pub written_elsewhere :
      (phase other : Phase) (v : D) (s : AcSensor D)
      → phase ≢ other
      → reverse_energy other (set_reverse_energy phase v s) ≡ reverse_energy other s
  unfolding reverse_energy set_reverse_energy get_phase on_phase
  written_elsewhere multiphase multiphase v s h = absurd (h refl)
  written_elsewhere phase_l1 phase_l1 v s h = absurd (h refl)
  written_elsewhere phase_l2 phase_l2 v s h = absurd (h refl)
  written_elsewhere phase_l3 phase_l3 v s h = absurd (h refl)
  written_elsewhere multiphase _ v s h = refl
  written_elsewhere phase_l1 _ v s h = refl
  written_elsewhere phase_l2 _ v s h = refl
  written_elsewhere phase_l3 _ v s h = refl

  start_no_l3 :
      (settings : AcSensorSettings D) (sum : D) (s : AcSensor D)
      → has_l3 settings ≡ false
      → (start_energy settings sum s).l3 ≡ s.l3
  unfolding start_energy set_initial_energy set_reverse_energy on_phase
  start_no_l3 settings sum s h = rw h

  share_no_l3 :
      (settings : AcSensorSettings D) (sum delta : D) (p : DataProcessor D) (s : AcSensor D)
      → has_l3 settings ≡ false
      → (share_energy settings sum delta p s).l3 ≡ s.l3
  unfolding share_energy grow_phases grow_energy set_reverse_energy on_phase
  share_no_l3 settings sum delta p s h =
      elim (Bool-cases (f.is_finite (f.div delta p.negative_total))) [
        | inl e ↦ rw (e, h)
        | inr e ↦ rw e
      ]

  -- While fewer than three phases are in use, a new total leaves L3 as it is, on every branch: at
  -- the first total, when the total has not grown, and when it is shared.
  pub set_negative_sum-no_l3 :
      (settings : AcSensorSettings D) (sum : D) (s : AcSensor D) (p : DataProcessor D)
      → has_l3 settings ≡ false
      → (set_negative_sum settings sum (s, p)).0.l3 ≡ s.l3
  unfolding set_negative_sum
  set_negative_sum-no_l3 settings sum s p h = ground (
    arith,
    start_no_l3 settings sum s h,
    share_no_l3 settings sum (f.sub sum (reverse_energy multiphase s))
        (record p { store_reverse_energy = true }) s h,
  )

  grow_here :
      (k : D) (p : DataProcessor D) (phase : Phase) (s : AcSensor D)
      → reverse_energy phase (grow_energy k p phase s)
        ≡ written
            (reverse_energy phase s)
            (f.add (reverse_energy phase s) (f.mul k (negative_power phase p)))
  unfolding grow_energy
  grow_here k p phase s = written_here phase _ s

  grow_elsewhere :
      (k : D) (p : DataProcessor D) (phase other : Phase) (s : AcSensor D)
      → phase ≢ other
      → reverse_energy other (grow_energy k p phase s) ≡ reverse_energy other s
  unfolding grow_energy
  grow_elsewhere k p phase other s h = written_elsewhere phase other _ s h

  -- Writing a value that is not smaller leaves one that is not smaller.
  written_grows :
      OrderLaws f
      → (old new : D) → f.is_finite old ≡ true
      → f.less_eq old new ≡ true
      → f.less_eq old (written old new) ≡ true
  written_grows laws old new fin h = elim (Bool-cases (values_equal old new)) [
    | inl e ↦ rw e (laws.less_eq_refl old (laws.finite_not_nan old fin))
    | inr e ↦ rw e h
  ]

  grow_grows :
      OrderLaws f
      → (k : D) (p : DataProcessor D) (phase : Phase) (s : AcSensor D) → f.is_finite k ≡ true
      → f.less_eq f.zero k ≡ true
      → f.is_finite (negative_power phase p) ≡ true
      → f.less_eq f.zero (negative_power phase p) ≡ true
      → f.is_finite (reverse_energy phase s) ≡ true
      → f.less_eq (reverse_energy phase s) (reverse_energy phase (grow_energy k p phase s)) ≡ true
  grow_grows laws k p phase s kfin kpos nfin npos rfin =
      let r = reverse_energy phase s in
      let grown = f.add r (f.mul k (negative_power phase p)) in
      rw (grow_here k p phase s) (
        written_grows laws r grown rfin
          (laws.add_grows r _ rfin (laws.mul_nonneg k _ kfin nfin kpos npos)))

  -- The three steps, seen from one phase: the last phase is skipped when it is not in use.
  last_step :
      (settings : AcSensorSettings D) (k : D) (p : DataProcessor D) (phase : Phase) (s : AcSensor D)
      → phase_l3 ≢ phase
      → reverse_energy phase (grow_phases settings k p s)
        ≡ reverse_energy phase (grow_energy k p phase_l2 (grow_energy k p phase_l1 s))
  unfolding grow_phases
  last_step settings k p phase s h = elim (Bool-cases (has_l3 settings)) [
    | inl e ↦ rw e (grow_elsewhere k p phase_l3 phase _ h)
    | inr e ↦ rw e
  ]

  -- The numbers that a share is computed from.
  pub record Shares (k : D) (p : DataProcessor D) (phase : Phase) (s : AcSensor D) : Type 0 where
    pub factor_finite : f.is_finite k ≡ true
    pub factor_nonneg : f.less_eq f.zero k ≡ true
    pub power_finite : f.is_finite (negative_power phase p) ≡ true
    pub power_nonneg : f.less_eq f.zero (negative_power phase p) ≡ true
    pub energy_finite : f.is_finite (reverse_energy phase s) ≡ true

  -- A share taken in a state where the phase still has its energy.
  share_grows :
      OrderLaws f
      → (k : D) (p : DataProcessor D) (phase : Phase) (s t : AcSensor D)
      → reverse_energy phase t ≡ reverse_energy phase s
      → Shares k p phase s
      → f.less_eq (reverse_energy phase s) (reverse_energy phase (grow_energy k p phase t)) ≡ true
  share_grows laws k p phase s t e h =
      ap (λ r. f.less_eq r (reverse_energy phase (grow_energy k p phase t))) (sym e)
      ∙ grow_grows laws k p phase t h.factor_finite h.factor_nonneg h.power_finite h.power_nonneg
          (ap f.is_finite e ∙ h.energy_finite)

  pub grow_phases_grows :
      OrderLaws f
      → (settings : AcSensorSettings D) (k : D) (p : DataProcessor D) (phase : Phase)
        (s : AcSensor D)
      → phase ≢ multiphase
      → Shares k p phase s
      → f.less_eq (reverse_energy phase s) (reverse_energy phase (grow_phases settings k p s))
        ≡ true
  unfolding grow_phases
  grow_phases_grows laws settings k p multiphase s ne h = absurd (ne refl)
  grow_phases_grows laws settings k p phase_l1 s ne h =
      rw
        (
          last_step settings k p phase_l1 s (λ e. cc),
          grow_elsewhere k p phase_l2 phase_l1 (grow_energy k p phase_l1 s) (λ e. cc),
        )
        (share_grows laws k p phase_l1 s s refl h)
  grow_phases_grows laws settings k p phase_l2 s ne h =
      rw (last_step settings k p phase_l2 s (λ e. cc)) (
        share_grows laws k p phase_l2 s (grow_energy k p phase_l1 s)
          (grow_elsewhere k p phase_l1 phase_l2 s (λ e. cc)) h)
  grow_phases_grows laws settings k p phase_l3 s ne h =
      let t = grow_energy k p phase_l2 (grow_energy k p phase_l1 s) in
      let kept : reverse_energy phase_l3 t ≡ reverse_energy phase_l3 s =
        grow_elsewhere k p phase_l2 phase_l3 (grow_energy k p phase_l1 s) (λ e. cc)
        ∙ grow_elsewhere k p phase_l1 phase_l3 s (λ e. cc) in
      elim (Bool-cases (has_l3 settings)) [
        | inl e ↦ rw e (share_grows laws k p phase_l3 s t kept h)
        | inr e ↦
            rw (e, kept)
              (laws.less_eq_refl (reverse_energy phase_l3 s)
                (laws.finite_not_nan (reverse_energy phase_l3 s) h.energy_finite))
      ]
