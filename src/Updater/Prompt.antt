-- ===== src/Updater/Prompt.antt =====
-- Tables whose first command is due in every cycle, in software/src/ac_sensor_updater.cpp, and what
-- the choice of a table and the search for the next command make of them.
use dbus_cgwacs.Prelude.{
  ℕ, ◌≡◌, refl, Bool, true, false, List, [], ◌∷◌, Option, none, some, ◌==◌, ◌∙◌, ==_iff,
}
use dbus_cgwacs.Doubles.{Doubles}
use dbus_cgwacs.Settings.{AcSensorSettings}
use dbus_cgwacs.Sensor.{
  ProtocolType, em24_protocol, et112_protocol, et340_protocol, em540_protocol, em300_s27_protocol,
  em300_protocol, unknown,
}
use dbus_cgwacs.Updater.Tables.{
  CompositeCommand, em24_commands, em24_commands_p1, em24_commands_p1_pv, em112_commands,
  et340_commands, et340_p1_commands, et340_commands_p1_pv, em300_commands, em300_p1_commands,
  em300_commands_p1_pv, em540_commands, em540_p1_commands, em540_commands_p1_pv,
  em300_s27_p1_commands,
}
use dbus_cgwacs.Updater.State.{
  AcSensorUpdater, Outcome, done, fault, out_of_fuel, get_max_interval, read_registers,
}
use dbus_cgwacs.Updater.Engine.{
  find_due, table_of, choose_table, start_next_acquisition, acquire, read_due, next_cycle,
}
use dbus_cgwacs.Updater.Choice.{by_phases_all}

-- The first command is due in every cycle; an updater without a table has none.
unfoldable pub is_prompt : List CompositeCommand → Bool
is_prompt [] = true
is_prompt (c ∷ cs) = c.interval == 0

-- A call that ends, with a property of what it leaves where it ends without a fault.
unfoldable pub Ends : {A : Type 0} → (A → Type 0) → Outcome A → Type 0
Ends P (done v) = P v
Ends P fault = Unit
Ends P out_of_fuel = false ≡ true

-- The first command of a table is read whatever the cycle.
find_due-first :
    (acq : ℕ) (c : CompositeCommand) (cs : List CompositeCommand)
    → c.interval ≡ 0
    → find_due acq 0 (c ∷ cs) ≡ some (0, c)
unfolding find_due
find_due-first acq c cs h = rw (h) refl

module _ {D : Type 0} ⦃f : Doubles D⦄ where
  abbrev pub Prompt : AcSensorUpdater D → Type 0
  Prompt u = is_prompt u.commands ≡ true

  -- What choosing a table leaves as it was.
  abbrev pub Chosen : AcSensorUpdater D → AcSensorUpdater D → Type 0
  Chosen u v =
      Prompt v × (v.command_index ≡ u.command_index) × (v.setup_requested ≡ u.setup_requested)

  choose_table-cases :
      (u : AcSensorUpdater D) (o : Option (AcSensorSettings D)) (p : ProtocolType)
      → Prompt u
      → Ends (Chosen u) (
          choose_table
            (record u { settings = o; ac_sensor = record u.ac_sensor { protocol_type = p } }))
  unfolding choose_table is_prompt Ends table_of em112_commands em24_commands em24_commands_p1_pv
      em24_commands_p1 et340_commands et340_commands_p1_pv et340_p1_commands em540_commands
      em540_commands_p1_pv em540_p1_commands em300_s27_p1_commands em300_commands
      em300_commands_p1_pv em300_p1_commands
  choose_table-cases u none em24_protocol h = tt
  choose_table-cases u none et112_protocol h = (refl, refl, refl)
  choose_table-cases u none et340_protocol h = tt
  choose_table-cases u none em300_protocol h = tt
  choose_table-cases u none em540_protocol h = tt
  choose_table-cases u none em300_s27_protocol h = tt
  choose_table-cases u none unknown h = (h, refl, refl)
  choose_table-cases u (some s) em24_protocol h = (
    by_phases_all is_prompt em24_commands em24_commands_p1_pv em24_commands_p1 s refl refl refl,
    refl,
    refl,
  )
  choose_table-cases u (some s) et112_protocol h = (refl, refl, refl)
  choose_table-cases u (some s) et340_protocol h = (
    by_phases_all is_prompt et340_commands et340_commands_p1_pv et340_p1_commands s refl refl refl,
    refl,
    refl,
  )
  choose_table-cases u (some s) em300_protocol h = (
    by_phases_all is_prompt em300_commands em300_commands_p1_pv em300_p1_commands s refl refl refl,
    refl,
    refl,
  )
  choose_table-cases u (some s) em540_protocol h = (
    by_phases_all is_prompt em540_commands em540_commands_p1_pv em540_p1_commands s refl refl refl,
    refl,
    refl,
  )
  choose_table-cases u (some s) em300_s27_protocol h = (
    by_phases_all is_prompt em24_commands em24_commands_p1_pv em300_s27_p1_commands s refl refl
        refl,
    refl,
    refl,
  )
  choose_table-cases u (some s) unknown h = (h, refl, refl)

  pub choose_table-Chosen : (u : AcSensorUpdater D) → Prompt u → Ends (Chosen u) (choose_table u)
  choose_table-Chosen u h = choose_table-cases u u.settings u.ac_sensor.protocol_type h

  start_next_acquisition-first :
      (again : AcSensorUpdater D → Outcome (AcSensorUpdater D)) (u : AcSensorUpdater D)
      (cs : List CompositeCommand)
      → u.commands ≡ cs
      → u.command_index ≡ 0
      → is_prompt cs ≡ true
      → Ends Prompt (start_next_acquisition again u)
  unfolding start_next_acquisition is_prompt Ends get_max_interval read_due next_cycle find_due
      read_registers
  start_next_acquisition-first again u [] e i h = rw (e, i) tt
  start_next_acquisition-first again u (c ∷ cs) e i h =
      rw (e, i, find_due-first u.acquisition_index c cs ((==_iff c.interval 0).0 h)) h

  pub acquire_first :
      (again : AcSensorUpdater D → Outcome (AcSensorUpdater D)) (u : AcSensorUpdater D)
      (x : Outcome (AcSensorUpdater D))
      → Ends (Chosen u) x
      → u.command_index ≡ 0
      → Ends Prompt (acquire again x)
  unfolding Ends acquire
  acquire_first again u (done v) h i =
      start_next_acquisition-first again v v.commands refl (h.1 ∙ i) h.0
  acquire_first again u fault h i = tt
  acquire_first again u out_of_fuel h i = h

  -- Elsewhere in a table, `again` is called at the end of a cycle.
  pub read_due-Ends :
      (again : AcSensorUpdater D → Outcome (AcSensorUpdater D)) (u : AcSensorUpdater D)
      (o : Option (ℕ × CompositeCommand))
      → ((m : Option ℕ) → Ends Prompt (next_cycle again m u))
      → Prompt u
      → Ends Prompt (read_due again o u)
  unfolding Ends read_due read_registers
  read_due-Ends again u (some due) h p = p
  read_due-Ends again u none h p = h (get_max_interval u)
