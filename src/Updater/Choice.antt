-- ===== src/Updater/Choice.antt =====
-- The choice of a table in `startNextAction` of software/src/ac_sensor_updater.cpp: what holds of
-- the tables of a protocol holds of the one that is chosen.
use dbus_cgwacs.Prelude.{◌≡◌, refl, Bool, true, List, [], ◌∷◌, none, some, arith, all}
use dbus_cgwacs.Settings.{AcSensorSettings}
use dbus_cgwacs.Sensor.{
  ProtocolType, em24_protocol, et112_protocol, et340_protocol, em540_protocol, em300_s27_protocol,
  em300_protocol, unknown,
}
use dbus_cgwacs.Updater.Tables.{
  CompositeCommand, em24_commands, em24_commands_p1, em24_commands_p1_pv, em112_commands,
  et340_commands, et340_p1_commands, et340_commands_p1_pv, em300_commands, em300_p1_commands,
  em300_commands_p1_pv, em540_commands, em540_p1_commands, em540_commands_p1_pv,
  em300_s27_p1_commands,
}
use dbus_cgwacs.Updater.Engine.{table_of, by_phases}

-- The tables that a meter of each protocol may be read with.
abbrev pub tables_of : ProtocolType → List (List CompositeCommand)
tables_of em24_protocol = em24_commands ∷ em24_commands_p1_pv ∷ em24_commands_p1 ∷ []
tables_of et112_protocol = em112_commands ∷ []
tables_of et340_protocol = et340_commands ∷ et340_commands_p1_pv ∷ et340_p1_commands ∷ []
tables_of em300_protocol = em300_commands ∷ em300_commands_p1_pv ∷ em300_p1_commands ∷ []
tables_of em540_protocol = em540_commands ∷ em540_commands_p1_pv ∷ em540_p1_commands ∷ []
tables_of em300_s27_protocol = em24_commands ∷ em24_commands_p1_pv ∷ em300_s27_p1_commands ∷ []
tables_of unknown = []

module _ (check : List CompositeCommand → Bool) where
  pub by_phases_all :
      {D : Type 0} (m p l : List CompositeCommand) (s : AcSensorSettings D)
      → check m ≡ true
      → check p ≡ true
      → check l ≡ true
      → check (by_phases m p l s) ≡ true
  by_phases_all m p l s hm hp hl = ground arith

  table_value :
      {D : Type 0} (p : ProtocolType) (s : AcSensorSettings D)
      → all check (tables_of p) ≡ true
      → (elim (table_of p s) [ none ↦ true | some t ↦ check t ]) ≡ true
  unfolding table_of
  table_value em24_protocol s h = ground arith
  table_value et112_protocol s h = ground arith
  table_value et340_protocol s h = ground arith
  table_value em300_protocol s h = ground arith
  table_value em540_protocol s h = ground arith
  table_value em300_s27_protocol s h = ground arith
  table_value unknown s h = refl

  pub table_of-all :
      {D : Type 0} (p : ProtocolType) (s : AcSensorSettings D) (t : List CompositeCommand)
      → all check (tables_of p) ≡ true
      → table_of p s ≡ some t
      → check t ≡ true
  table_of-all p s t h e = ground (arith, table_value p s h)
