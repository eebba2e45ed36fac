-- ===== src/Program/Limits.antt =====
-- The limits of the options that software/src/main.cpp runs with.
use dbus_cgwacs.Prelude.{
  ℕ, ◌≤◌, ◌≡◌, Bool, false, List, [], ◌∷◌, Option, none, some, arith, is_empty,
}
use dbus_cgwacs.Prelude.Int.{ℤ, pos, negsuc}
use dbus_cgwacs.Prelude.Text.{Text}
use dbus_cgwacs.Numerals.{Numerals}
use dbus_cgwacs.Program.{
  bound, int_of, switch_of, new_options, with_value, step, parse, started, main, Options, Outcome,
  exit_with, run, Switch, Step, stop, go, LogLevels, help, version, debug, timestamp_switch,
  timeout_switch, dbus, zigbee, baud_switch, port, other,
}

-- The limits of the options.
pub record IsInRange (o : Options) : Type 0 where
  pub timeout_low : 150 ≤ o.timeout
  pub timeout_high : o.timeout ≤ 10000
  pub baud_low : 9600 ≤ o.baud
  pub baud_high : o.baud ≤ 115200

abbrev pub IsFine : Outcome → Type 0
IsFine (exit_with n) = n ≤ 2
IsFine (run o) = IsInRange o × (is_empty o.port_name ≡ false)

abbrev IsParsed : Outcome → Type 0
IsParsed (exit_with n) = n ≤ 2
IsParsed (run o) = IsInRange o

abbrev IsStep : Step → Type 0
IsStep (stop n) = n ≤ 2
IsStep (go waiting o) = IsInRange o

bound_lem :
    (low high : ℕ) (i : ℤ) → low ≤ high → (low ≤ bound low i high) × (bound low i high ≤ high)
unfolding bound
bound_lem low high (pos n) h = ground arith
bound_lem low high (negsuc n) h = (omega arith, h)

module _ (q : Numerals) (levels : LogLevels) where
  with_value-IsInRange :
      (s : Switch) (a : Text) (o : Options) → IsInRange o → IsInRange (with_value q levels s a o)
  unfolding with_value
  with_value-IsInRange timeout_switch a o r =
      let b = bound_lem 150 10000 (int_of (q.to_int a)) (omega arith) in
      record {
        timeout_low = b.0;
        timeout_high = b.1;
        baud_low = r.baud_low;
        baud_high = r.baud_high;
      }
  with_value-IsInRange baud_switch a o r =
      let b = bound_lem 9600 115200 (int_of (q.to_int a)) (omega arith) in
      record {
        timeout_low = r.timeout_low;
        timeout_high = r.timeout_high;
        baud_low = b.0;
        baud_high = b.1;
      }
  with_value-IsInRange debug a o r = ground arith
  with_value-IsInRange dbus a o r = ground arith
  with_value-IsInRange help a o r = r
  with_value-IsInRange version a o r = r
  with_value-IsInRange timestamp_switch a o r = r
  with_value-IsInRange zigbee a o r = r
  with_value-IsInRange port a o r = r
  with_value-IsInRange other a o r = r

  step-IsStep : (s : Switch) (a : Text) (o : Options) → IsInRange o → IsStep (step q levels s a o)
  unfolding step
  step-IsStep s a o r = ground arith

  resumed :
      (args : List Text)
      → ((w : Option Switch) (o : Options) → IsInRange o → IsParsed (parse q levels w args o))
      → (x : Step) → IsStep x
      → IsParsed (elim x [ stop n ↦ exit_with n | go waiting o ↦ parse q levels waiting args o ])
  resumed args rest (stop n) h = h
  resumed args rest (go waiting o) h = rest waiting o h

  parse-IsParsed :
      (s : Option Switch) (args : List Text) (o : Options)
      → IsInRange o
      → IsParsed (parse q levels s args o)
  unfolding parse
  parse-IsParsed none [] o r = r
  parse-IsParsed (some s) [] o r = r
  parse-IsParsed (some s) (a ∷ args) o r =
      parse-IsParsed none args (with_value q levels s a o) (with_value-IsInRange s a o r)
  parse-IsParsed none (a ∷ args) o r =
      resumed args (λ w. parse-IsParsed w args) (step q levels (switch_of a) a o)
        (step-IsStep (switch_of a) a o r)

  started-IsFine :
      (replies : List Bool) (x : Outcome) → IsParsed x → IsFine (started q levels replies x)
  unfolding started
  started-IsFine replies (exit_with n) h = h
  started-IsFine replies (run o) h = ground arith

  -- Whatever the arguments and the replies of the settings are, the program either ends with an exit
  -- code of 0, 1 or 2, or it runs on a port that has a name, with a timeout from 150 to 10000
  -- milliseconds and a baud rate from 9600 to 115200.
  pub main-IsFine : (args : List Text) (replies : List Bool) → IsFine (main q levels args replies)
  unfolding main new_options
  main-IsFine args replies = started-IsFine replies _ (
      parse-IsParsed none args (new_options q levels) (record {
        timeout_low = omega arith;
        timeout_high = omega arith;
        baud_low = omega arith;
        baud_high = omega arith;
      }))
