-- ===== src/Updater/Tables.antt =====
-- software/src/ac_sensor_updater.cpp, its tables: which registers of each kind of meter are read, in
-- which cycles, and what each register holds. An array of the source has eight places; those that
-- its initializer leaves out hold zero, which is `None`, and end the list here.
use dbus_cgwacs.Prelude.{ℕ, List, [], ◌∷◌}
use dbus_cgwacs.Defines.{Phase, multiphase, phase_l1, phase_l2, phase_l3}

pub data ParameterType : Type 0 where
  none_parameter power voltage current positive_energy negative_energy : ParameterType
  frequency power_factor : ParameterType

pub record RegisterCommand : Type 0 where
  pub reg_offset : ℕ
  pub action : ParameterType
  pub phase : Phase

pub record CompositeCommand : Type 0 where
  pub reg : ℕ
  pub count : ℕ
  pub interval : ℕ
  pub actions : List RegisterCommand

abbrev entry : ℕ → ParameterType → Phase → RegisterCommand
entry offset action phase = record { reg_offset = offset; action = action; phase = phase }

abbrev command : ℕ → ℕ → ℕ → List RegisterCommand → CompositeCommand
command reg count interval actions = record {
  reg = reg;
  count = count;
  interval = interval;
  actions = actions;
}

unfoldable pub em24_commands : List CompositeCommand
em24_commands =
    command 0x0028 2 0 (entry 0 power multiphase ∷ [])
    ∷ command 0x0012 6 0
        (entry 0 power phase_l1 ∷ entry 2 power phase_l2 ∷ entry 4 power phase_l3 ∷ [])
    ∷ command 0x0000 6 2
        (entry 0 voltage phase_l1 ∷ entry 2 voltage phase_l2 ∷ entry 4 voltage phase_l3 ∷ [])
    ∷ command 0x000C 6 3
        (entry 0 current phase_l1 ∷ entry 2 current phase_l2 ∷ entry 4 current phase_l3 ∷ [])
    ∷ command 0x003E 10 4 (entry 0 positive_energy multiphase ∷ [])
    ∷ command 0x0046 8 5 (
        entry 0 positive_energy phase_l1
        ∷ entry 2 positive_energy phase_l2
        ∷ entry 4 positive_energy phase_l3
        ∷ [])
    ∷ command 0x005C 4 6 (entry 0 negative_energy multiphase ∷ [])
    ∷ command 0x0037 3 7 (entry 0 frequency multiphase ∷ [])
    ∷ []

unfoldable pub em24_commands_p1 : List CompositeCommand
em24_commands_p1 =
    command 0x0028 2 0 (entry 0 power multiphase ∷ [])
    ∷ command 0x0024 5 1 (entry 0 voltage multiphase ∷ [])
    ∷ command 0x000C 4 2 (entry 0 current multiphase ∷ [])
    ∷ command 0x003E 7 3 (entry 0 positive_energy multiphase ∷ [])
    ∷ command 0x005C 6 4 (entry 0 negative_energy multiphase ∷ [])
    ∷ command 0x0037 3 5 (entry 0 frequency multiphase ∷ [])
    ∷ []

unfoldable pub em24_commands_p1_pv : List CompositeCommand
em24_commands_p1_pv =
    command 0x0012 6 0 (entry 0 power phase_l1 ∷ entry 2 power phase_l2 ∷ [])
    ∷ command 0x0000 5 1 (entry 0 voltage phase_l1 ∷ entry 2 voltage phase_l2 ∷ [])
    ∷ command 0x000C 10 2 (entry 0 current phase_l1 ∷ entry 2 current phase_l2 ∷ [])
    ∷ command 0x0046 8 3 (entry 0 positive_energy phase_l1 ∷ entry 2 positive_energy phase_l2 ∷ [])
    ∷ command 0x005C 4 4 (entry 0 negative_energy phase_l1 ∷ [])
    ∷ []

unfoldable pub em112_commands : List CompositeCommand
em112_commands =
    command 0x0004 4 0 (entry 0 power multiphase ∷ [])
    ∷ command 0x0000 6 1 (entry 0 voltage multiphase ∷ entry 2 current multiphase ∷ [])
    ∷ command 0x000F 3 2 (entry 0 frequency multiphase ∷ entry 1 positive_energy multiphase ∷ [])
    ∷ command 0x0020 2 3 (entry 0 negative_energy multiphase ∷ [])
    ∷ []

unfoldable pub et340_commands : List CompositeCommand
et340_commands =
    command 0x0028 2 0 (entry 0 power multiphase ∷ [])
    ∷ command 0x0012 12 0
        (entry 0 power phase_l1 ∷ entry 2 power phase_l2 ∷ entry 4 power phase_l3 ∷ [])
    ∷ command 0x0000 18 1 (
        entry 0 voltage phase_l1
        ∷ entry 2 voltage phase_l2
        ∷ entry 4 voltage phase_l3
        ∷ entry 12 current phase_l1
        ∷ entry 14 current phase_l2
        ∷ entry 16 current phase_l3
        ∷ [])
    ∷ command 0x0033 3 2 (entry 0 frequency multiphase ∷ entry 1 positive_energy multiphase ∷ [])
    ∷ command 0x0040 16 3 (
        entry 0 positive_energy phase_l1
        ∷ entry 2 positive_energy phase_l2
        ∷ entry 4 positive_energy phase_l3
        ∷ entry 14 negative_energy multiphase
        ∷ [])
    ∷ command 0x0060 8 4 (
        entry 0 negative_energy phase_l1
        ∷ entry 2 negative_energy phase_l2
        ∷ entry 4 negative_energy phase_l3
        ∷ [])
    ∷ []

unfoldable pub et340_p1_commands : List CompositeCommand
et340_p1_commands =
    command 0x0012 2 0 (entry 0 power multiphase ∷ [])
    ∷ command 0x0000 14 1 (entry 0 voltage multiphase ∷ entry 12 current multiphase ∷ [])
    ∷ command 0x0033 15 2 (entry 0 frequency multiphase ∷ entry 13 positive_energy multiphase ∷ [])
    ∷ command 0x0060 4 3 (entry 0 negative_energy multiphase ∷ [])
    ∷ []

unfoldable pub et340_commands_p1_pv : List CompositeCommand
et340_commands_p1_pv =
    command 0x0012 4 0 (entry 0 power phase_l1 ∷ entry 2 power phase_l2 ∷ [])
    ∷ command 0x0000 16 1 (
        entry 0 voltage phase_l1
        ∷ entry 2 voltage phase_l2
        ∷ entry 12 current phase_l1
        ∷ entry 14 current phase_l2
        ∷ [])
    ∷ command 0x0040 8 2 (entry 0 positive_energy phase_l1 ∷ entry 2 positive_energy phase_l2 ∷ [])
    ∷ command 0x0060 6 3 (entry 0 negative_energy phase_l1 ∷ entry 2 negative_energy phase_l2 ∷ [])
    ∷ []

unfoldable pub em300_commands : List CompositeCommand
em300_commands =
    command 0x0028 2 0 (entry 0 power multiphase ∷ [])
    ∷ command 0x0012 6 0
        (entry 0 power phase_l1 ∷ entry 2 power phase_l2 ∷ entry 4 power phase_l3 ∷ [])
    ∷ command 0x0000 18 1 (
        entry 0 voltage phase_l1
        ∷ entry 2 voltage phase_l2
        ∷ entry 4 voltage phase_l3
        ∷ entry 12 current phase_l1
        ∷ entry 14 current phase_l2
        ∷ entry 16 current phase_l3
        ∷ [])
    ∷ command 0x0033 3 2 (entry 0 frequency multiphase ∷ entry 1 positive_energy multiphase ∷ [])
    ∷ command 0x0040 16 3 (
        entry 0 positive_energy phase_l1
        ∷ entry 2 positive_energy phase_l2
        ∷ entry 4 positive_energy phase_l3
        ∷ entry 14 negative_energy multiphase
        ∷ [])
    ∷ []

unfoldable pub em300_p1_commands : List CompositeCommand
em300_p1_commands =
    command 0x0012 2 0 (entry 0 power multiphase ∷ [])
    ∷ command 0x0000 14 1 (entry 0 voltage multiphase ∷ entry 12 current multiphase ∷ [])
    ∷ command 0x0033 15 2 (entry 0 frequency multiphase ∷ entry 13 positive_energy multiphase ∷ [])
    ∷ command 0x004E 4 3 (entry 0 negative_energy multiphase ∷ [])
    ∷ []

unfoldable pub em300_commands_p1_pv : List CompositeCommand
em300_commands_p1_pv =
    command 0x0012 6 0 (entry 0 power phase_l1 ∷ entry 2 power phase_l2 ∷ [])
    ∷ command 0x0000 18 1 (
        entry 0 voltage phase_l1
        ∷ entry 2 voltage phase_l2
        ∷ entry 12 current phase_l1
        ∷ entry 14 current phase_l2
        ∷ [])
    ∷ command 0x0040 16 2 (
        entry 0 positive_energy phase_l1
        ∷ entry 2 positive_energy phase_l2
        ∷ entry 14 negative_energy phase_l1
        ∷ [])
    ∷ []

unfoldable pub em540_commands : List CompositeCommand
em540_commands =
    command 0x0028 11 0 (
      entry 0 power multiphase
      ∷ entry 6 power_factor phase_l1
      ∷ entry 7 power_factor phase_l2
      ∷ entry 8 power_factor phase_l3
      ∷ entry 9 power_factor multiphase
      ∷ [])
    ∷ command 0x0012 6 0
        (entry 0 power phase_l1 ∷ entry 2 power phase_l2 ∷ entry 4 power phase_l3 ∷ [])
    ∷ command 0x0000 18 1 (
        entry 0 voltage phase_l1
        ∷ entry 2 voltage phase_l2
        ∷ entry 4 voltage phase_l3
        ∷ entry 12 current phase_l1
        ∷ entry 14 current phase_l2
        ∷ entry 16 current phase_l3
        ∷ [])
    ∷ command 0x0034 4 2 (entry 0 positive_energy multiphase ∷ [])
    ∷ command 0x0040 16 3 (
        entry 0 positive_energy phase_l1
        ∷ entry 2 positive_energy phase_l2
        ∷ entry 4 positive_energy phase_l3
        ∷ entry 14 negative_energy multiphase
        ∷ [])
    ∷ command 0x053C 2 4 (entry 0 frequency multiphase ∷ [])
    ∷ []

unfoldable pub em540_p1_commands : List CompositeCommand
em540_p1_commands =
    command 0x0012 4 0 (entry 0 power multiphase ∷ [])
    ∷ command 0x0000 14 1 (entry 0 voltage multiphase ∷ entry 12 current multiphase ∷ [])
    ∷ command 0x0040 16 2
        (entry 0 positive_energy multiphase ∷ entry 14 negative_energy multiphase ∷ [])
    ∷ command 0x053C 2 3 (entry 0 frequency multiphase ∷ [])
    ∷ command 0x002E 6 4 (entry 0 power_factor multiphase ∷ [])
    ∷ []

unfoldable pub em540_commands_p1_pv : List CompositeCommand
em540_commands_p1_pv =
    command 0x0012 4 0 (entry 0 power phase_l1 ∷ entry 2 power phase_l2 ∷ [])
    ∷ command 0x0000 16 1 (
        entry 0 voltage phase_l1
        ∷ entry 2 voltage phase_l2
        ∷ entry 12 current phase_l1
        ∷ entry 14 current phase_l2
        ∷ [])
    ∷ command 0x0040 18 2 (
        entry 0 positive_energy phase_l1
        ∷ entry 2 positive_energy phase_l2
        ∷ entry 14 negative_energy phase_l1
        ∷ [])
    ∷ command 0x002E 3 4 (entry 0 power_factor phase_l1 ∷ entry 1 power_factor phase_l2 ∷ [])
    ∷ []

unfoldable pub em300_s27_p1_commands : List CompositeCommand
em300_s27_p1_commands =
    command 0x0028 2 0 (entry 0 power multiphase ∷ [])
    ∷ command 0x0000 14 1 (entry 0 voltage multiphase ∷ entry 12 current multiphase ∷ [])
    ∷ command 0x0037 9 2 (entry 0 frequency multiphase ∷ entry 7 positive_energy multiphase ∷ [])
    ∷ command 0x005C 4 3 (entry 0 negative_energy multiphase ∷ [])
    ∷ []
