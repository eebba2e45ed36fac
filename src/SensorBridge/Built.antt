-- ===== src/SensorBridge/Built.antt =====
-- The service that the constructor of software/src/ac_sensor_bridge.cpp leaves, and its updates.
use dbus_cgwacs.Prelude.{
  ℕ, ◌≡◌, refl, sym, ap, Bool, true, false, List, [], ◌∷◌, ◌++◌, some, if◌then◌else◌, append-nil,
  append_assoc, All, All-append,
}
use dbus_cgwacs.Prelude.Int.{pos}
use dbus_cgwacs.Doubles.{Doubles}
use dbus_cgwacs.Dbus.Items.{Call, publish_value, publish_source}
use dbus_cgwacs.Dbus.Bridge.{
  DbusBridge, World, produce, produce_constant, connect_item, connected, set_update_interval,
  new_dbus_bridge, register_service, on_update_timer,
}
use dbus_cgwacs.Dbus.Pending.{
  IsSettled, changes, due, notify_all, announce_all, on_update_timer-due,
}
use dbus_cgwacs.SensorBridge.Variants.{Variant, Conversions, overrides}
use dbus_cgwacs.SensorBridge.Entries.{Entry, bound, constant, Layout}
use dbus_cgwacs.SensorBridge.Service.{item_of, produce_entry, produce_all, new_sensor_bridge}
use dbus_cgwacs.SensorBridge.Contents.{
  is_sendable_call, items, publish_value-sendable, announce_all-sendable,
}

module _ {D : Type 0} ⦃f : Doubles D⦄ (c : Conversions D) (world : World (Variant D)) where
  abbrev pub IsSent : List (Call (Variant D)) → Type 0
  IsSent calls = All (λ x. is_sendable_call c world x ≡ true) calls

  produce_entry-made :
      (x : Entry D) (b : DbusBridge (Variant D))
      → b.is_producer ≡ true
      → (calls : List (Call (Variant D))) × (produce_entry c world x b
          ≡ some (record b { bus_items = b.bus_items ++ item_of c world x ∷ [] }, calls))
        × IsSent calls
  unfolding produce_entry produce produce_constant connect_item publish_source connected
  produce_entry-made (bound path src property unit precision from) b p =
      let it = item_of c world (bound path src property unit precision from) in
      (
        publish_value (overrides c) b.is_producer it (world.read src it.property),
        refl,
        rw p (publish_value-sendable c world it (world.read src it.property)),
      )
  produce_entry-made (constant path v) b p =
      let it = item_of c world (constant path v) in
      (
        publish_value (overrides c) b.is_producer it v,
        refl,
        rw p (publish_value-sendable c world it v),
      )

  produce_all-made :
      (xs : List (Entry D)) (b : DbusBridge (Variant D))
      → b.is_producer ≡ true
      → (calls : List (Call (Variant D))) × (produce_all c world xs b
          ≡ some (record b { bus_items = b.bus_items ++ items c world xs }, calls))
        × IsSent calls
  unfolding produce_all
  produce_all-made [] b p =
      ([], ap (λ its. some (record b { bus_items = its }, [])) (sym (append-nil b.bus_items)), tt)
  produce_all-made (x ∷ xs) b p =
      let y = produce_entry-made x b p in
      let b' = record b { bus_items = b.bus_items ++ item_of c world x ∷ [] } in
      let z = produce_all-made xs b' p in
      let e = y.1 in
      let g = z.1 in
      (
        y.0 ++ z.0,
        rw (e, g, produce_all)
            (ap (λ its. some (record b { bus_items = its }, y.0 ++ z.0))
              (append_assoc b.bus_items (item_of c world x ∷ []) (items c world xs))),
        All-append _ _ _ y.2 z.2,
      )

  pub items-IsSettled : (xs : List (Entry D)) → IsSettled (items c world xs)
  unfolding connected
  items-IsSettled [] = tt
  items-IsSettled (bound path src property unit precision from ∷ xs) = (refl, items-IsSettled xs)
  items-IsSettled (constant path v ∷ xs) = (refl, items-IsSettled xs)

  register_service-IsSent : (requested : Bool) → IsSent (register_service requested)
  unfolding register_service
  register_service-IsSent true = tt
  register_service-IsSent false = (refl, tt)

  -- The bridge of a layout, with its items.
  abbrev pub built : List (Entry D) → Layout → DbusBridge (Variant D)
  built xs l = record {
    bus_items = items c world xs;
    update_timer = some (if l.grid then 1000 else 2500);
    is_producer = true;
    is_initialized = false;
    initialized_count = 0;
  }

  set_update_interval-begun :
      (l : Layout) (xs : List (Entry D))
      → set_update_interval
          (pos (if l.grid then 1000 else 2500))
          (new_dbus_bridge {V = Variant D} true)
        ≡ record (built xs l) { bus_items = [] }
  unfolding set_update_interval new_dbus_bridge
  set_update_interval-begun l xs = interval l.grid
    where
      interval :
          (grid : Bool)
          → set_update_interval
              (pos (if grid then 1000 else 2500))
              (new_dbus_bridge {V = Variant D} true)
            ≡ record {
              bus_items = [];
              update_timer = some (if grid then 1000 else 2500);
              is_producer = true;
              is_initialized = false;
              initialized_count = 0;
            }
      interval true = refl
      interval false = refl

  -- For any entries, the constructor of a service reads no null object and leaves one item for each
  -- entry, in order. After any changes of properties, with any values at each of them, nothing is
  -- published until the timer rings; then exactly the items that are due are, once, with the value
  -- that their property has when it rings, whatever it was at the changes or at the beginning. No
  -- double that is not finite is published, neither at the beginning nor then.
  pub new_sensor_bridge-updates :
      (xs : List (Entry D)) (l : Layout) (requested : Bool)
      (ns : List (World (Variant D) × (ℕ × ℕ))) (later : World (Variant D))
      → (calls : List (Call (Variant D))) × (new_sensor_bridge c world xs l requested
          ≡ some (built xs l, calls))
        × IsSent calls
        × (b : DbusBridge (Variant D)) × (notify_all (overrides c) ns (built xs l) ≡ some (b, []))
        × (on_update_timer (overrides c) later b
            ≡ some (
              built xs l,
              announce_all (overrides c) later true (due (changes ns) (items c world xs)),
            ))
        × IsSent (announce_all (overrides c) later true (due (changes ns) (items c world xs)))
  unfolding new_sensor_bridge
  new_sensor_bridge-updates xs l requested ns later =
      let start = record (built xs l) { bus_items = [] } in
      let made = produce_all-made xs start refl in
      let u =
        on_update_timer-due (overrides c) later ns (built xs l) (if l.grid then 1000 else 2500) refl
          (items-IsSettled xs) in
      let e = made.1 in
      let begun = set_update_interval-begun l xs in
      (
        made.0 ++ register_service requested,
        rw (begun, e, new_sensor_bridge) refl,
        All-append _ _ _ made.2 (register_service-IsSent requested),
        u.0,
        u.1,
        u.2,
        announce_all-sendable c later (due (changes ns) (items c world xs)),
      )
