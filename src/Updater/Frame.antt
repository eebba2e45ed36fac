-- ===== src/Updater/Frame.antt =====
-- What `processAcquisitionData` of software/src/ac_sensor_updater.cpp leaves as it was.
use dbus_cgwacs.Prelude.{
  ℕ, suc, ◌≡◌, refl, ◌∙◌, Bool, true, false, List, [], ◌∷◌, Option, none, some, length, get_elem?,
  if◌then◌else◌, ◌==◌,
}
use dbus_cgwacs.Defines.{Phase, phase_l1}
use dbus_cgwacs.Doubles.{Doubles}
use dbus_cgwacs.Settings.{AcSensorSettings}
use dbus_cgwacs.Sensor.{is_em540}
use dbus_cgwacs.Processor.{DataProcessor}
use dbus_cgwacs.Updater.Tables.{
  CompositeCommand, RegisterCommand, ParameterType, none_parameter, power, voltage, current,
  positive_energy, negative_energy, frequency, power_factor,
}
use dbus_cgwacs.Updater.State.{
  AcSensorUpdater, Outcome, done, fault, out_of_fuel, with_register, with_settings,
}
use dbus_cgwacs.Updater.Values.{
  Target, meter, pv_inverter, Call, dest_call, get_double, store, store_parameter, process_entry,
  process_entries, process_acquisition_data, is_none, double_of_pair,
}
use dbus_cgwacs.Updater.Prompt.{Ends}

pub fault-Ends : {A : Type 0} (P : A → Type 0) → Ends P fault
unfolding Ends
fault-Ends P = tt

pub with_register-Ends :
    {A : Type 0} (P : A → Type 0) (rs : List ℕ) (i : ℕ) (k : ℕ → Outcome A)
    → ((r : ℕ) → Ends P (k r))
    → Ends P (with_register rs i k)
unfolding with_register
with_register-Ends P rs i k h = at_value (get_elem? rs i)
  where
    at_value : (o : Option ℕ) → Ends P (elim o [ none ↦ fault | some r ↦ k r ])
    at_value none = fault-Ends P
    at_value (some r) = h r

pub if-Ends :
    {A : Type 0} (P : A → Type 0) (b : Bool) (x y : Outcome A)
    → Ends P x
    → Ends P y
    → Ends P (if b then x else y)
if-Ends P true x y hx hy = hx
if-Ends P false x y hx hy = hy

module _ {D : Type 0} ⦃f : Doubles D⦄ where
  -- A reply changes the values and what was computed from them, and nothing else.
  abbrev pub Kept : AcSensorUpdater D → AcSensorUpdater D → Type 0
  Kept u v =
      (v.commands ≡ u.commands)
      × (v.settings ≡ u.settings)
      × (v.state ≡ u.state)
      × (v.setup_requested ≡ u.setup_requested)
      × (v.actions ≡ u.actions)

  Kept-refl : (u : AcSensorUpdater D) → Ends (Kept u) (done u)
  unfolding Ends
  Kept-refl u = (refl, refl, refl, refl, refl)

  dest_call-Kept :
      (t : Target) (call : Call D) (u : AcSensorUpdater D) → Ends (Kept u) (dest_call t call u)
  unfolding dest_call Ends
  dest_call-Kept meter call u = at_processor u.data_processor
    where
      at_processor :
          (o : Option (DataProcessor D))
          → Ends (Kept u) (dest_call meter call (record u { data_processor = o }))
      at_processor none = tt
      at_processor (some p) = (refl, refl, refl, refl, refl)
  dest_call-Kept pv_inverter call u = at_processor u.pv_data_processor
    where
      at_processor :
          (o : Option (DataProcessor D))
          → Ends (Kept u) (dest_call pv_inverter call (record u { pv_data_processor = o }))
      at_processor none = tt
      at_processor (some p) = (refl, refl, refl, refl, refl)

  store-Kept :
      (set : Phase → D → Call D) (t : Target) (phase : Phase) (b : Bool) (v : D)
      (u : AcSensorUpdater D)
      → Ends (Kept u) (store set t phase b v u)
  unfolding store
  store-Kept set t phase b v u =
      dest_call-Kept t (λ x. if b then set phase_l1 v (set phase v x) else set phase v x) u

  get_double-Ends :
      (P : AcSensorUpdater D → Type 0) (rs : List ℕ) (i : ℕ) (factor : D)
      (k : D → Outcome (AcSensorUpdater D))
      → ((v : D) → Ends P (k v))
      → Ends P (get_double rs i factor k)
  unfolding get_double
  get_double-Ends P rs i factor k h =
      with_register-Ends P rs i _
        (λ low. with_register-Ends P rs (suc i) _ (λ high. h (double_of_pair factor low high)))

  store_parameter-Kept :
      (rs : List ℕ) (s : AcSensorSettings D) (t : Target) (phase : Phase) (i : ℕ)
      (a : ParameterType) (u : AcSensorUpdater D)
      → Ends (Kept u) (store_parameter rs s t phase i a u)
  unfolding store_parameter
  store_parameter-Kept rs s t phase i none_parameter u = Kept-refl u
  store_parameter-Kept rs s t phase i power u =
      get_double-Ends (Kept u) rs i _ _ (λ v. store-Kept _ t phase _ v u)
  store_parameter-Kept rs s t phase i voltage u =
      get_double-Ends (Kept u) rs i _ _ (λ v. store-Kept _ t phase _ v u)
  store_parameter-Kept rs s t phase i current u =
      get_double-Ends (Kept u) rs i _ _ (λ v. store-Kept _ t phase _ _ u)
  store_parameter-Kept rs s t phase i positive_energy u =
      get_double-Ends (Kept u) rs i _ _ (λ v. store-Kept _ t phase _ v u)
  store_parameter-Kept rs s t phase i negative_energy u =
      get_double-Ends (Kept u) rs i _ _
        (λ v. if-Ends (Kept u) _ _ _ (dest_call-Kept t _ u) (store-Kept _ t phase _ _ u))
  store_parameter-Kept rs s t phase i frequency u =
      if-Ends (Kept u) (is_em540 u.ac_sensor.protocol_type) _ _
        (get_double-Ends (Kept u) rs i _ _ (λ v. dest_call-Kept t _ u))
        (with_register-Ends (Kept u) rs 0 _ (λ r. dest_call-Kept t _ u))
  store_parameter-Kept rs s t phase i power_factor u =
      with_register-Ends (Kept u) rs i _ (λ r. store-Kept _ t phase _ _ u)

  process_entry-Kept :
      (rs : List ℕ) (s : AcSensorSettings D) (ra : RegisterCommand) (u : AcSensorUpdater D)
      → Ends (Kept u) (process_entry rs s ra u)
  unfolding process_entry
  process_entry-Kept rs s ra u = if-Ends (Kept u) _ _ _ (Kept-refl u) (
      if-Ends (Kept u) _ _ _ (store_parameter-Kept rs s _ _ ra.reg_offset ra.action u)
        (Kept-refl u))

  join_Kept :
      (u : AcSensorUpdater D) (x : Outcome (AcSensorUpdater D))
      (k : AcSensorUpdater D → Outcome (AcSensorUpdater D))
      → Ends (Kept u) x
      → ((v : AcSensorUpdater D) → Ends (Kept v) (k v))
      → Ends (Kept u) (elim x [ done v ↦ k v | fault ↦ fault | out_of_fuel ↦ out_of_fuel ])
  unfolding Ends
  join_Kept u (done v) k h hk = widen v (k v) h (hk v)
    where
      widen :
          (v : AcSensorUpdater D) (y : Outcome (AcSensorUpdater D))
          → Kept u v
          → Ends (Kept v) y
          → Ends (Kept u) y
      widen v (done w) a b = (b.0 ∙ a.0, b.1 ∙ a.1, b.2 ∙ a.2, b.3 ∙ a.3, b.4 ∙ a.4)
      widen v fault a b = tt
      widen v out_of_fuel a b = b
  join_Kept u fault k h hk = tt
  join_Kept u out_of_fuel k h hk = h

  process_entries-Kept :
      (rs : List ℕ) (s : AcSensorSettings D) (ras : List RegisterCommand) (u : AcSensorUpdater D)
      → Ends (Kept u) (process_entries rs s ras u)
  unfolding process_entries
  process_entries-Kept rs s [] u = Kept-refl u
  process_entries-Kept rs s (ra ∷ ras) u = if-Ends (Kept u) (is_none ra.action) _ _ (Kept-refl u) (
      join_Kept u (process_entry rs s ra u) (process_entries rs s ras)
        (process_entry-Kept rs s ra u) (process_entries-Kept rs s ras))

  pub process_acquisition_data-Kept :
      (rs : List ℕ) (u : AcSensorUpdater D) → Ends (Kept u) (process_acquisition_data rs u)
  unfolding process_acquisition_data with_settings
  process_acquisition_data-Kept rs u = at_command (get_elem? u.commands u.command_index) u.settings
    where
      at_command :
          (o : Option CompositeCommand) (s : Option (AcSensorSettings D))
          → Ends (Kept u) (elim o [
            | none ↦ fault
            | some cmd ↦
                if cmd.count == length rs
                then elim s [ none ↦ fault | some s' ↦ process_entries rs s' cmd.actions u ]
                else done u
          ])
      at_command none s = fault-Ends (Kept u)
      at_command (some cmd) none =
          if-Ends (Kept u) (cmd.count == length rs) _ _ (fault-Ends (Kept u)) (Kept-refl u)
      at_command (some cmd) (some s) =
          if-Ends (Kept u) (cmd.count == length rs) _ _ (process_entries-Kept rs s cmd.actions u)
            (Kept-refl u)
