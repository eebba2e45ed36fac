-- ===== src/Updater/Layout.antt =====
-- The tables of software/src/ac_sensor_updater.cpp are well laid out.
use dbus_cgwacs.Prelude.{
  ap, some, none, Option, last?, get_elem?, ℕ, ◌+◌, ◌≤◌, ◌≡◌, refl, Bool, true, false, not, ◌&&◌,
  List, [], ◌∷◌, arith, all, length, leb, ◌==◌, all_sound, and_split, ==_iff, if◌then◌else◌,
}
use dbus_cgwacs.Settings.{AcSensorSettings}
use dbus_cgwacs.Sensor.{
  ProtocolType, em24_protocol, et112_protocol, et340_protocol, em540_protocol, em300_s27_protocol,
  em300_protocol, unknown, is_em540,
}
use dbus_cgwacs.Updater.Tables.{
  CompositeCommand, RegisterCommand, ParameterType, frequency, power_factor, em24_commands,
  em24_commands_p1, em24_commands_p1_pv, em112_commands, et340_commands, et340_p1_commands,
  et340_commands_p1_pv, em300_commands, em300_p1_commands, em300_commands_p1_pv, em540_commands,
  em540_p1_commands, em540_commands_p1_pv, em300_s27_p1_commands,
}
use dbus_cgwacs.Updater.Engine.{table_of}
use dbus_cgwacs.Updater.Values.{is_none, is_frequency}
use dbus_cgwacs.Updater.Choice.{table_of-all, tables_of}

-- How many registers a parameter takes: the frequency of an EM540 is read as a pair.
abbrev pub width : ProtocolType → ParameterType → ℕ
width em540_protocol frequency = 2
width p frequency = 1
width p power_factor = 1
width p _ = 2

-- The register of the reply at which a parameter is read: the frequency of the other meters is read
-- at the first one, whatever the offset of its entry says.
abbrev pub first_register : ProtocolType → RegisterCommand → ℕ
first_register p ra = if is_frequency ra.action && not (is_em540 p) then 0 else ra.reg_offset

-- Every entry names a parameter, is read at its offset, and lies among the registers that its
-- command reads, at most twenty; there are at most eight entries.
abbrev pub entry_fits : ProtocolType → ℕ → RegisterCommand → Bool
entry_fits p count ra =
    not (is_none ra.action)
    && ((first_register p ra == ra.reg_offset) && leb (ra.reg_offset + width p ra.action) count)

abbrev pub fits : ProtocolType → CompositeCommand → Bool
fits p c = all (entry_fits p c.count) c.actions && (leb c.count 20 && leb (length c.actions) 8)

abbrev no_later : ℕ → CompositeCommand → Bool
no_later last c = leb c.interval last

abbrev bounded : List CompositeCommand → Option CompositeCommand → Bool
bounded t none = false
bounded t (some l) = all (no_later l.interval) t

-- The first command is read in every cycle, and no command after the last cycle.
abbrev is_laid_out : List CompositeCommand → Bool
is_laid_out [] = false
is_laid_out (c ∷ cs) = (c.interval == 0) && bounded (c ∷ cs) (last? (c ∷ cs))

abbrev check : ProtocolType → List CompositeCommand → Bool
check p t = all (fits p) t && is_laid_out t

check_tables : (p : ProtocolType) → all (check p) (tables_of p) ≡ true
unfolding em24_commands em24_commands_p1 em24_commands_p1_pv em112_commands et340_commands
    et340_p1_commands et340_commands_p1_pv em300_commands em300_p1_commands em300_commands_p1_pv
    em540_commands em540_p1_commands em540_commands_p1_pv em300_s27_p1_commands
check_tables em24_protocol = refl
check_tables et112_protocol = refl
check_tables et340_protocol = refl
check_tables em300_protocol = refl
check_tables em540_protocol = refl
check_tables em300_s27_protocol = refl
check_tables unknown = refl

leb→le : (a b : ℕ) → leb a b ≡ true → a ≤ b
leb→le a b h = ground arith

not-true : (b : Bool) → not b ≡ true → b ≡ false
not-true true h = ground arith
not-true false h = refl

table_of-check :
    {D : Type 0} (p : ProtocolType) (s : AcSensorSettings D) (t : List CompositeCommand)
    → table_of p s ≡ some t
    → (all (fits p) t ≡ true) × (is_laid_out t ≡ true)
table_of-check p s t h = ground (arith, table_of-all (check p) p s t (check_tables p) h)

equal→same : (a b : ℕ) → (a == b) ≡ true → a ≡ b
equal→same a b h = (==_iff a b).0 h

-- Every entry of a table that a meter is read with names a parameter, whose registers lie within
-- the reply to its command: from the offset of the entry on, where the code reads it, one register
-- for a power factor or a frequency, and two for all else and for the frequency of an EM540. A
-- command reads at most twenty registers, and has at most eight entries.
pub table_entry_fits :
    {D : Type 0} (p : ProtocolType) (s : AcSensorSettings D) (t : List CompositeCommand) (i j : ℕ)
    (c : CompositeCommand) (ra : RegisterCommand)
    → table_of p s ≡ some t
    → get_elem? t i ≡ some c
    → get_elem? c.actions j ≡ some ra
    → (ra.reg_offset + width p ra.action ≤ c.count)
      × (first_register p ra ≡ ra.reg_offset)
      × (c.count ≤ 20)
      × (length c.actions ≤ 8)
      × (is_none ra.action ≡ false)
table_entry_fits p s t i j c ra h hc hra =
    let fit = all_sound (fits p) t i (table_of-check p s t h).0 hc in
    let parts = and_split _ _ fit in
    let rest = and_split _ _ parts.1 in
    let e = all_sound (entry_fits p c.count) c.actions j parts.0 hra in
    let named = and_split (not (is_none ra.action)) _ e in
    let both = and_split (first_register p ra == ra.reg_offset) _ named.1 in
    (
      leb→le _ _ both.1,
      equal→same _ _ both.0,
      leb→le _ _ rest.0,
      leb→le _ _ rest.1,
      not-true (is_none ra.action) named.0,
    )

bounded_by :
    (t : List CompositeCommand) (l : CompositeCommand) (i : ℕ) (c : CompositeCommand)
    → is_laid_out t ≡ true
    → last? t ≡ some l
    → get_elem? t i ≡ some c
    → c.interval ≤ l.interval
bounded_by [] l i c h e g = ground arith
bounded_by (d ∷ ds) l i c h e g =
    let parts = and_split (d.interval == 0) (bounded (d ∷ ds) (last? (d ∷ ds))) h in
    let every : all (no_later l.interval) (d ∷ ds) ≡ true =
      rw⁻¹ (ap (bounded (d ∷ ds)) e) parts.1 in
    leb→le c.interval l.interval (all_sound (no_later l.interval) (d ∷ ds) i every g)

-- The interval of the last command of every table, which `getMaxInterval` takes for the number of
-- the last cycle, is the largest of the table.
pub last_interval_is_largest :
    {D : Type 0} (p : ProtocolType) (s : AcSensorSettings D) (t : List CompositeCommand) (i : ℕ)
    (c l : CompositeCommand)
    → table_of p s ≡ some t
    → get_elem? t i ≡ some c
    → last? t ≡ some l
    → c.interval ≤ l.interval
last_interval_is_largest p s t i c l h g e = bounded_by t l i c (table_of-check p s t h).1 e g
