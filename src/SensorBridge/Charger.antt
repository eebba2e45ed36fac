-- ===== src/SensorBridge/Charger.antt =====
-- The current of an EV charger in the service of software/src/ac_sensor_bridge.cpp.
use dbus_cgwacs.Prelude.{ℕ, ◌≡◌, refl, ap, ◌∙◌, Bool, true, false, List, [], some, if◌then◌else◌}
use dbus_cgwacs.Doubles.{Doubles}
use dbus_cgwacs.Dbus.Items.{Call}
use dbus_cgwacs.Dbus.Bridge.{DbusBridge, World, on_update_timer}
use dbus_cgwacs.Dbus.Pending.{changes, due, notify_all, announce_all, on_update_timer-due}
use dbus_cgwacs.SensorBridge.Variants.{Variant, Conversions, overrides}
use dbus_cgwacs.SensorBridge.Entries.{Layout, bindings}
use dbus_cgwacs.SensorBridge.Contents.{items, charger_current-due}
use dbus_cgwacs.SensorBridge.Built.{built, items-IsSettled}

-- The service of an EV charger, or of another sensor that is the same otherwise, with the items that
-- follow properties.
abbrev pub layout : Bool → Bool → Bool → Bool → Layout
layout secondary grid positioned charger = record {
  secondary = secondary;
  grid = grid;
  charger = charger;
  positioned = positioned;
}

module _ {D : Type 0} ⦃f : Doubles D⦄ (c : Conversions D) (world : World (Variant D)) where
  abbrev pub service : Layout → DbusBridge (Variant D)
  service l = built c world (bindings c l) l

  -- What a service publishes when its timer rings, in the world of that moment, after some changes,
  -- each in a world of its own.
  pub record Publishes (later : World (Variant D)) (ns : List (World (Variant D) × (ℕ × ℕ)))
      (b : DbusBridge (Variant D)) (calls : List (Call (Variant D))) : Type 0 where
    pub marked : DbusBridge (Variant D)
    pub quiet : notify_all (overrides c) ns b ≡ some (marked, [])
    pub sends : on_update_timer (overrides c) later marked ≡ some (b, calls)

  -- The item at /Current of an EV charger is never published for a change: after any changes of
  -- properties, its service publishes exactly what it would publish without this item.
  pub charger_current-stale :
      (later : World (Variant D)) (ns : List (World (Variant D) × (ℕ × ℕ)))
      (secondary grid positioned : Bool)
      → (calls : List (Call (Variant D))) × Publishes later ns
          (service (layout secondary grid positioned true))
          calls
        × Publishes later ns (service (layout secondary grid positioned false)) calls
  charger_current-stale later ns secondary grid positioned =
      let with_it = layout secondary grid positioned true in
      let without = layout secondary grid positioned false in
      let u =
        on_update_timer-due (overrides c) later ns (service with_it) (if grid then 1000 else 2500)
          refl (items-IsSettled c world (bindings c with_it)) in
      let v =
        on_update_timer-due (overrides c) later ns (service without) (if grid then 1000 else 2500)
          refl (items-IsSettled c world (bindings c without)) in
      let e = charger_current-due c world (changes ns) secondary grid positioned in
      (
        announce_all (overrides c) later true
            (due (changes ns) (items c world (bindings c without))),
        record {
          marked = u.0;
          quiet = u.1;
          sends =
              u.2 ∙ ap (λ its. some (service with_it, announce_all (overrides c) later true its)) e;
        },
        record { marked = v.0; quiet = v.1; sends = v.2 },
      )
