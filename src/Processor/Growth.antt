-- ===== src/Processor/Growth.antt =====
-- The sums of negative power, and that the shared reverse energy never falls.
use dbus_cgwacs.Prelude.{◌≡◌, ◌≢◌, sym, ap, ◌∙◌, true, false, arith, Bool-cases, inl, inr}
use dbus_cgwacs.Defines.{Phase, multiphase, phase_l1, phase_l2, phase_l3}
use dbus_cgwacs.Doubles.{Doubles, OrderLaws}
use dbus_cgwacs.Settings.{AcSensorSettings}
use dbus_cgwacs.Sensor.{AcSensor}
use dbus_cgwacs.Processor.{
  DataProcessor, negative_power, set_negative_power, clear_negative_power, set_power,
  reverse_energy, set_reverse_energy, share_energy, set_negative_sum,
}
use dbus_cgwacs.Processor.Energy.{written_elsewhere, grow_phases_grows}

module _ {D : Type 0} ⦃f : Doubles D⦄ where
  -- No sum of negative power is below zero.
  pub record Tally (p : DataProcessor D) : Type 0 where
    pub total_nonneg : f.less_eq f.zero p.negative_total ≡ true
    pub l1_nonneg : f.less_eq f.zero p.negative_l1 ≡ true
    pub l2_nonneg : f.less_eq f.zero p.negative_l2 ≡ true
    pub l3_nonneg : f.less_eq f.zero p.negative_l3 ≡ true

  Tally-negative_power :
      (phase : Phase) (p : DataProcessor D)
      → Tally p
      → f.less_eq f.zero (negative_power phase p) ≡ true
  unfolding negative_power
  Tally-negative_power multiphase p t = t.total_nonneg
  Tally-negative_power phase_l1 p t = t.l1_nonneg
  Tally-negative_power phase_l2 p t = t.l2_nonneg
  Tally-negative_power phase_l3 p t = t.l3_nonneg

  clear-Tally : OrderLaws f → (p : DataProcessor D) → Tally (clear_negative_power p)
  unfolding clear_negative_power
  clear-Tally laws p = record {
    total_nonneg = laws.zero_nonneg;
    l1_nonneg = laws.zero_nonneg;
    l2_nonneg = laws.zero_nonneg;
    l3_nonneg = laws.zero_nonneg;
  }

  -- A measured power, negative or not, keeps every sum of negative power at zero or above.
  pub set_power-Tally :
      OrderLaws f
      → (phase : Phase) (v : D) (s : AcSensor D) (p : DataProcessor D)
      → f.is_finite (negative_power phase p) ≡ true
      → Tally p
      → Tally (set_power phase v (s, p)).1
  unfolding set_power negative_power set_negative_power
  set_power-Tally laws multiphase v s p fin t = ground (arith, laws.sub_negative p.negative_total v)
  set_power-Tally laws phase_l1 v s p fin t = ground (arith, laws.sub_negative p.negative_l1 v)
  set_power-Tally laws phase_l2 v s p fin t = ground (arith, laws.sub_negative p.negative_l2 v)
  set_power-Tally laws phase_l3 v s p fin t = ground (arith, laws.sub_negative p.negative_l3 v)

  -- A total, whatever it is, keeps every sum of negative power at zero or above.
  pub set_negative_sum-Tally :
      OrderLaws f
      → (settings : AcSensorSettings D) (sum : D) (s : AcSensor D) (p : DataProcessor D) → Tally p
      → Tally (set_negative_sum settings sum (s, p)).1
  unfolding set_negative_sum
  set_negative_sum-Tally laws settings sum s p t =
      ground (arith, clear-Tally laws (record p { store_reverse_energy = true }))

  share_energy-grows :
      OrderLaws f
      → (settings : AcSensorSettings D) (sum delta : D) (p : DataProcessor D) (phase : Phase)
        (s : AcSensor D)
      → phase ≢ multiphase
      → f.less_eq delta f.zero ≡ false
      → Tally p
      → f.is_finite (negative_power phase p) ≡ true
      → f.is_finite (reverse_energy phase s) ≡ true
      → f.less_eq
          (reverse_energy phase s)
          (reverse_energy phase (share_energy settings sum delta p s))
        ≡ true
  unfolding share_energy
  share_energy-grows laws settings sum delta p phase s ne grown t nfin rfin =
      let s0 = set_reverse_energy multiphase sum s in
      let k = f.div delta p.negative_total in
      let kept : reverse_energy phase s0 ≡ reverse_energy phase s =
        written_elsewhere multiphase phase sum s (λ e. ne (sym e)) in
      elim (Bool-cases (f.is_finite k)) [
        | inl kfin ↦
            rw (kfin, ← kept)
              (grow_phases_grows laws settings k p phase s0 ne (record {
                factor_finite = kfin;
                factor_nonneg = laws.div_nonneg delta p.negative_total grown t.total_nonneg kfin;
                power_finite = nfin;
                power_nonneg = Tally-negative_power phase p t;
                energy_finite = ap f.is_finite kept ∙ rfin;
              }))
        | inr e ↦ rw (e, kept) (laws.less_eq_refl _ (laws.finite_not_nan _ rfin))
      ]

  -- Once L1 has an energy, a new total of the meter, larger, equal, smaller or no number, never
  -- makes the reverse energy of a phase smaller, where the phase has a finite energy and sum of
  -- negative power and no sum is below zero.
  pub set_negative_sum-grows :
      OrderLaws f
      → (settings : AcSensorSettings D) (sum : D) (s : AcSensor D) (p : DataProcessor D)
        (phase : Phase)
      → phase ≢ multiphase
      → f.is_finite (reverse_energy phase_l1 s) ≡ true
      → f.is_finite (reverse_energy phase s) ≡ true
      → f.is_finite (negative_power phase p) ≡ true
      → Tally p
      → f.less_eq
          (reverse_energy phase s)
          (reverse_energy phase (set_negative_sum settings sum (s, p)).0)
        ≡ true
  unfolding set_negative_sum negative_power
  set_negative_sum-grows laws settings sum s p phase ne started rfin nfin t =
      let delta = f.sub sum (reverse_energy multiphase s) in
      elim (Bool-cases (f.less_eq delta f.zero)) [
        | inl e ↦ rw (started, e) (laws.less_eq_refl _ (laws.finite_not_nan _ rfin))
        | inr e ↦
            rw (started, e)
              (share_energy-grows laws settings sum delta (record p { store_reverse_energy = true })
                phase s ne e (same_tally t) (same_power phase nfin) rfin)
      ]
    where
      same_tally : Tally p → Tally (record p { store_reverse_energy = true })
      same_tally h = record {
        total_nonneg = h.total_nonneg;
        l1_nonneg = h.l1_nonneg;
        l2_nonneg = h.l2_nonneg;
        l3_nonneg = h.l3_nonneg;
      }

      same_power :
          (q : Phase)
          → f.is_finite (negative_power q p) ≡ true
          → f.is_finite (negative_power q (record p { store_reverse_energy = true })) ≡ true
      same_power multiphase h = h
      same_power phase_l1 h = h
      same_power phase_l2 h = h
      same_power phase_l3 h = h
