-- ===== src/SensorBridge/Contents.antt =====
-- What the services of software/src/ac_sensor_bridge.cpp hold and send.
use mathlib.Core.List.{map}
use dbus_cgwacs.Prelude.{
  ℕ, ◌≡◌, refl, Bool, true, false, not, ◌&&◌, List, [], ◌∷◌, ◌++◌, Option, none, some,
  if◌then◌else◌, arith, drop, All, All-append,
}
use dbus_cgwacs.Prelude.Int.{pos}
use dbus_cgwacs.Prelude.Text.{Text, text}
use dbus_cgwacs.Doubles.{Doubles}
use dbus_cgwacs.Numerals.{Numerals}
use dbus_cgwacs.Settings.{AcSensorSettings}
use dbus_cgwacs.Sensor.{AcSensor}
use dbus_cgwacs.Dbus.Items.{
  BusItemBridge, Call, produce_value, publish_source, publish_value, publish_calls, sent,
  transformed,
}
use dbus_cgwacs.Dbus.Bridge.{World, connected, bound_property}
use dbus_cgwacs.Dbus.Pending.{due, announce, announce_all}
use dbus_cgwacs.Dbus.Shadow.{due-shadowed}
use dbus_cgwacs.SensorBridge.Variants.{
  Variant, double_value, Conversions, contains, overrides, to_dbus, only_finite,
}
use dbus_cgwacs.SensorBridge.Entries.{
  Entry, bound, constant, Layout, Environment, bindings, constants, plain, sensor_entries,
  power_info, settings_entries, l1_object, l2_object, l3_object, total_object,
}
use dbus_cgwacs.SensorBridge.Service.{item_of}

-- No text stands twice in a list.
abbrev pub is_distinct : List Text → Bool
is_distinct [] = true
is_distinct (t ∷ ts) = not (contains t ts) && is_distinct ts

module _ {D : Type 0} where
  abbrev pub path_of : Entry D → Text
  path_of (bound path src property unit precision from) = path
  path_of (constant path v) = path

  -- The entries of a service.
  abbrev pub entries :
      Numerals
      → Environment
      → Conversions D
      → Layout
      → AcSensorSettings D
      → AcSensor D
      → List (Entry D)
  entries q e c l s m = bindings c l ++ constants q e l s m

  -- Whatever a sensor is and however it is set up, no path is produced twice in a service.
  pub entries-distinct :
      (q : Numerals) (e : Environment) (c : Conversions D) (l : Layout) (s : AcSensorSettings D)
      (m : AcSensor D)
      → is_distinct (map path_of (entries q e c l s m)) ≡ true
  entries-distinct q e c l s m = by_cases l.secondary l.grid l.charger l.positioned
    where
      by_cases :
          (secondary grid charger positioned : Bool)
          → is_distinct (
              map path_of (
                entries q e c
                  (record {
                    secondary = secondary;
                    grid = grid;
                    charger = charger;
                    positioned = positioned;
                  })
                  s
                  m))
            ≡ true
      by_cases secondary true true true = refl
      by_cases secondary true true false = refl
      by_cases secondary true false true = refl
      by_cases secondary true false false = refl
      by_cases secondary false true true = refl
      by_cases secondary false true false = refl
      by_cases secondary false false true = refl
      by_cases secondary false false false = refl

module _ {D : Type 0} ⦃f : Doubles D⦄ (c : Conversions D) (world : World (Variant D)) where
  -- A value that may be sent: no double but a finite one.
  abbrev pub is_sendable : Variant D → Bool
  is_sendable (double_value d) = f.is_finite d
  is_sendable v = true

  abbrev pub is_sendable_call : Call (Variant D) → Bool
  is_sendable_call (produce_value i v) = is_sendable v
  is_sendable_call _ = true

  only_finite-sendable : (v : Variant D) → is_sendable (only_finite v) ≡ true
  unfolding only_finite
  only_finite-sendable v = ground arith

  calls-sendable :
      (it : BusItemBridge (Variant D)) (ok : Bool) (v : Variant D)
      → is_sendable v ≡ true
      → All
          (λ x. is_sendable_call x ≡ true)
          (publish_calls (overrides c) true it (if ok then some v else none))
  unfolding publish_calls
  calls-sendable it true v h = (h, (refl, tt))
  calls-sendable it false v h = tt

  unless_busy :
      (busy : Bool) (calls : List (Call (Variant D)))
      → All (λ x. is_sendable_call x ≡ true) calls
      → All (λ x. is_sendable_call x ≡ true) (if busy then [] else calls)
  unless_busy true calls h = tt
  unless_busy false calls h = h

  -- Every value that a bridge with these transformations publishes is sendable.
  pub publish_value-sendable :
      (it : BusItemBridge (Variant D)) (v : Variant D)
      → All (λ x. is_sendable_call x ≡ true) (publish_value (overrides c) true it v)
  unfolding publish_value publish_calls sent to_dbus
  publish_value-sendable it v =
      unless_busy it.busy _
        (calls-sendable it (transformed true it.to_dbus v).0 _ (only_finite-sendable _))

  announce-sendable :
      (src : Option ℕ) (it : BusItemBridge (Variant D))
      → All
          (λ x. is_sendable_call x ≡ true)
          (announce (overrides c) world true (record it { src = src }))
  unfolding publish_source
  announce-sendable none it = tt
  announce-sendable (some s) it =
      publish_value-sendable (record it { src = some s }) (world.read s it.property)

  pub announce_all-sendable :
      (its : List (BusItemBridge (Variant D)))
      → All (λ x. is_sendable_call x ≡ true) (announce_all (overrides c) world true its)
  unfolding publish_source
  announce_all-sendable [] = tt
  announce_all-sendable (it ∷ its) =
      All-append _ _ _ (announce-sendable it.src it) (announce_all-sendable its)

  -- The items of a service, as they are connected.
  abbrev pub items : List (Entry D) → List (BusItemBridge (Variant D))
  items xs = map (item_of c world) xs

  abbrev current : Entry D
  current = plain c (text "/Ac/L1/Current") l1_object (text "current") (text "A") (pos 1)

  abbrev charger : Entry D
  charger = plain c (text "/Current") l1_object (text "current") (text "A") (pos 1)

  -- What stands before the two items, and between them.
  abbrev front : Bool → List (Entry D)
  front grid = sensor_entries c ++ power_info c total_object (text "/Ac") grid true

  abbrev middle : Bool → List (Entry D)
  middle grid =
      drop 1 (power_info c l1_object (text "/Ac/L1") grid false)
      ++ (power_info c l2_object (text "/Ac/L2") grid false
          ++ power_info c l3_object (text "/Ac/L3") grid false)

  -- The second item on the current of L1 is never due: after any changes the same items are as without
  -- it.
  pub charger_current-due :
      (ns : List (ℕ × ℕ)) (secondary grid positioned : Bool)
      → due ns (
          items (
            bindings c (record {
              secondary = secondary;
              grid = grid;
              charger = true;
              positioned = positioned;
            })))
        ≡ due ns (
            items (
              bindings c (record {
                secondary = secondary;
                grid = grid;
                charger = false;
                positioned = positioned;
              })))
  unfolding connected bound_property
  charger_current-due ns secondary true positioned =
      due-shadowed ns (item_of c world current) (item_of c world (charger)) (items (front true))
        (items (middle true)) (items (settings_entries c secondary positioned)) refl refl
  charger_current-due ns secondary false positioned =
      due-shadowed ns (item_of c world current) (item_of c world (charger)) (items (front false))
        (items (middle false)) (items (settings_entries c secondary positioned)) refl refl
