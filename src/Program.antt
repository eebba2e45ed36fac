-- ===== src/Program.antt =====
-- software/src/main.cpp: the arguments of the program, and the wait for the settings. The log levels
-- of QsLog are parameters; the help and the D-Bus objects are not modelled.
pub mod Limits
use dbus_cgwacs.Prelude.{
  ℕ, zero, suc, ◌+◌, ◌≤◌, ◌≡◌, refl, Bool, true, false, not, ◌&&◌, ◌||◌, List, [], ◌∷◌, Option,
  none, some, ltb, if◌then◌else◌, arith, is_empty,
}
use dbus_cgwacs.Prelude.Int.{ℤ, pos, negsuc}
use dbus_cgwacs.Prelude.Text.{Text, text, text_eq}
use dbus_cgwacs.Numerals.{Numerals}

pub record Options : Type 0 where
  pub is_zigbee : Bool
  pub port_name : Text
  pub dbus_address : Text
  pub timeout : ℕ
  pub baud : ℕ
  pub log_level : ℕ
  pub timestamp : Bool

-- The end of the program with an exit code, or its run.
pub data Outcome : Type 0 where
  exit_with : ℕ → Outcome
  run : Options → Outcome

-- The tests of the loop, in their order.
pub data Switch : Type 0 where
  help version debug timestamp_switch timeout_switch dbus zigbee baud_switch port other : Switch

-- What a turn of the loop leads to: an exit, or the next turn, perhaps with a switch that waits.
pub data Step : Type 0 where
  stop : ℕ → Step
  go : Option Switch → Options → Step

-- The lowest and the highest level, and the one at the start.
pub record LogLevels : Type 0 where
  pub lowest : ℕ
  pub highest : ℕ
  pub info : ℕ

-- `qBound`, between two numbers that are not negative.
unfoldable pub bound : ℕ → ℤ → ℕ → ℕ
bound low (pos n) high = if ltb n low then low else if ltb high n then high else n
bound low (negsuc n) high = low

-- `toInt`, which is 0 for a text that is no number.
unfoldable pub int_of : Option ℤ → ℤ
int_of none = pos 0
int_of (some i) = i

abbrev pub starts_with_dash : Text → Bool
starts_with_dash [] = false
starts_with_dash (c ∷ s) = text_eq (c ∷ []) (text "-")

unfoldable pub switch_of : Text → Switch
switch_of a =
    if text_eq a (text "-h") || text_eq a (text "--help")
    then help
    else if text_eq a (text "-V") || text_eq a (text "--version")
    then version
    else if text_eq a (text "-d") || text_eq a (text "--debug")
    then debug
    else if text_eq a (text "-t") || text_eq a (text "--timestamp")
    then timestamp_switch
    else if text_eq a (text "--timeout")
    then timeout_switch
    else if text_eq a (text "-b") || text_eq a (text "--dbus")
    then dbus
    else if text_eq a (text "-z") || text_eq a (text "--zigbee")
    then zigbee
    else if text_eq a (text "--baud")
    then baud_switch
    else if starts_with_dash a
    then other
    else port

module _ (q : Numerals) (levels : LogLevels) where
  unfoldable pub new_options : Options
  new_options = record {
    is_zigbee = false;
    port_name = [];
    dbus_address = text "system";
    timeout = 250;
    baud = 9600;
    log_level = levels.info;
    timestamp = false;
  }

  -- A switch with the argument that follows it.
  unfoldable pub with_value : Switch → Text → Options → Options
  unfolding bound int_of
  with_value debug a o = record o {
    log_level = bound levels.lowest (int_of (q.to_int a)) levels.highest;
  }
  with_value timeout_switch a o = record o { timeout = bound 150 (int_of (q.to_int a)) 10000 }
  with_value dbus a o = record o { dbus_address = a }
  with_value baud_switch a o = record o { baud = bound 9600 (int_of (q.to_int a)) 115200 }
  with_value _ a o = o

  -- One turn of the loop.
  unfoldable pub step : Switch → Text → Options → Step
  step help a o = stop 1
  step version a o = stop 0
  step timestamp_switch a o = go none (record o { timestamp = true })
  step zigbee a o =
      go none
        (record o { timeout = if ltb o.timeout 2000 then 2000 else o.timeout; is_zigbee = true })
  step port a o = go none (record o { port_name = a })
  step other a o = go none o
  step debug a o = go (some debug) o
  step timeout_switch a o = go (some timeout_switch) o
  step dbus a o = go (some dbus) o
  step baud_switch a o = go (some baud_switch) o

  -- The loop: a switch that takes the next argument waits for it, and is dropped without one.
  unfoldable pub parse : Option Switch → List Text → Options → Outcome
  unfolding with_value switch_of step
  parse waiting [] o = run o
  parse (some s) (a ∷ args) o = parse none args (with_value s a o)
  parse none (a ∷ args) o = elim (step (switch_of a) a o) [
    | stop n ↦ exit_with n
    | go waiting o' ↦ parse waiting args o'
  ]

  -- `initDBus`: the replies to the calls, of which there are ten at most.
  unfoldable pub init_dbus : ℕ → List Bool → Bool
  init_dbus zero replies = false
  init_dbus (suc n) [] = false
  init_dbus (suc n) (r ∷ replies) = let rest = init_dbus n replies in if r then true else rest

  unfoldable pub started : List Bool → Outcome → Outcome
  unfolding init_dbus
  started replies (exit_with n) = exit_with n
  started replies (run o) =
      if is_empty o.port_name
      then exit_with 2
      else if init_dbus 10 replies
      then run o
      else exit_with 1

  unfoldable pub main : List Text → List Bool → Outcome
  unfolding parse new_options started
  main args replies = started replies (parse none args new_options)
