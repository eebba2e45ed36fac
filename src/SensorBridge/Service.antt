-- ===== src/SensorBridge/Service.antt =====
-- The service of software/src/ac_sensor_bridge.cpp: its construction, and its name.
use dbus_cgwacs.Prelude.PlaceMarkers.{arg}
use dbus_cgwacs.Numerals.{Numerals}
use dbus_cgwacs.Sensor.{AcSensor}
use dbus_cgwacs.Settings.{AcSensorSettings, service_type, l2_service_type}
use dbus_cgwacs.Prelude.Text.{Text, text}
use dbus_cgwacs.Prelude.{
  ℕ, zero, suc, ◌==◌, ◌&&◌, Bool, true, false, List, [], ◌∷◌, ◌++◌, Option, none, some,
  if◌then◌else◌,
}
use dbus_cgwacs.Prelude.Int.{pos, negsuc}
use dbus_cgwacs.Doubles.{Doubles}
use dbus_cgwacs.Dbus.Items.{BusItemBridge, Call}
use dbus_cgwacs.Dbus.Bridge.{
  DbusBridge, World, new_dbus_bridge, set_update_interval, connected, produce, produce_constant,
  register_service,
}
use dbus_cgwacs.SensorBridge.Variants.{Variant, Conversions, overrides}
use dbus_cgwacs.SensorBridge.Entries.{Entry, bound, constant, Layout}

module _ {D : Type 0} ⦃f : Doubles D⦄ (c : Conversions D) (world : World (Variant D)) where
  abbrev pub item_of : Entry D → BusItemBridge (Variant D)
  item_of (bound path src property unit precision from) =
      connected (overrides c) world (some src) (some property) path unit precision false from none
  item_of (constant path v) =
      connected (overrides c) world none none path [] (negsuc 0) false none none

  unfoldable pub produce_entry :
      Entry D → DbusBridge (Variant D) → Option (DbusBridge (Variant D) × List (Call (Variant D)))
  unfolding produce produce_constant
  produce_entry (bound path src property unit precision from) b =
      produce (overrides c) world (item_of (bound path src property unit precision from)) b
  produce_entry (constant path v) b =
      some (produce_constant (overrides c) world (item_of (constant path v)) v b)

  unfoldable pub produce_all :
      List (Entry D)
      → DbusBridge (Variant D)
      → Option (DbusBridge (Variant D) × List (Call (Variant D)))
  unfolding produce_entry
  produce_all [] b = some (b, [])
  produce_all (x ∷ xs) b = elim (produce_entry x b) [
    | none ↦ none
    | some y ↦ elim (produce_all xs y.0) [ none ↦ none | some z ↦ some (z.0, y.1 ++ z.1) ]
  ]

  -- The constructor: without a unit of time between two publications, the items, the registration.
  unfoldable pub new_sensor_bridge :
      List (Entry D) → Layout → Bool → Option (DbusBridge (Variant D) × List (Call (Variant D)))
  unfolding new_dbus_bridge set_update_interval produce_all register_service
  new_sensor_bridge entries l requested =
      let b = set_update_interval (pos (if l.grid then 1000 else 2500)) (new_dbus_bridge true) in
      elim (produce_all entries b) [
        | none ↦ none
        | some x ↦ some (x.0, x.1 ++ register_service requested)
      ]

-- `replace("/dev/", "")`, with the characters of a match that are still to be skipped.
unfoldable pub starts_with : Text → Text → Bool
starts_with s [] = true
starts_with [] (x ∷ xs) = false
starts_with (c ∷ s) (x ∷ xs) = (c == x) && starts_with s xs

unfoldable pub remove_dev : ℕ → Text → Text
unfolding starts_with
remove_dev n [] = []
remove_dev (suc n) (c ∷ s) = remove_dev n s
remove_dev zero (c ∷ s) =
    let rest = remove_dev zero s in
    let skipped = remove_dev 4 s in if starts_with (c ∷ s) (text "/dev/") then skipped else c ∷ rest

-- `replace("/", "_")`
unfoldable pub underscores : Text → Text
underscores [] = []
underscores (c ∷ s) = (if c == b'/' then b'_' else c) ∷ underscores s

-- `getServiceName`, for the role, the port and the address: a chain of `arg`.
unfoldable pub service_name : Numerals → Text → Text → ℕ → Bool → Text
unfolding remove_dev underscores arg
service_name q service port_name address secondary =
    let port_id = underscores (remove_dev zero port_name) in
    let pattern = text "pub/com.victronenergy.%1.cgwacs_%2_mb%3" in
    arg (arg (arg pattern service) port_id) (q.number (pos address))
    ++ (if secondary then text "_l2" else [])

unfoldable pub get_service_name :
    {D : Type 0} → Numerals → Text → AcSensor D → AcSensorSettings D → Bool → Text
unfolding service_name
get_service_name q port_name m s secondary =
    service_name q (if secondary then l2_service_type s else service_type s) port_name
      m.slave_address secondary
