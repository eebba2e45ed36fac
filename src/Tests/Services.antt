-- ===== src/Tests/Services.antt =====
-- The services, the settings and the arguments of the program at concrete values.
use dbus_cgwacs.Prelude.{
  ◌≡◌, ◌≢◌, ◌++◌, arith, refl, All, true, false, List, [], ◌∷◌, Option, none, some, ℕ, map,
}
use dbus_cgwacs.Prelude.Int.{pos}
use dbus_cgwacs.Prelude.Text.{Text, text, has_char}
use dbus_cgwacs.Dbus.Items.{Call, Property}
use dbus_cgwacs.Dbus.Bridge.{DbusBridge, World, on_update_timer}
use dbus_cgwacs.Dbus.Pending.{changes, due, notify_all, announce_all}
use dbus_cgwacs.SensorBridge.Variants.{
  Variant, invalid, int_value, double_value, text_value, Conversions, overrides,
}
use dbus_cgwacs.SensorBridge.Entries.{Layout, Environment, bindings}
use dbus_cgwacs.SensorBridge.Service.{new_sensor_bridge}
use dbus_cgwacs.SensorBridge.Names.{service_name_unique}
use dbus_cgwacs.SensorBridge.Contents.{items, entries, path_of, is_distinct, entries-distinct}
use dbus_cgwacs.SensorBridge.Built.{IsSent, built, new_sensor_bridge-updates}
use dbus_cgwacs.SensorBridge.Charger.{layout, service, Publishes, charger_current-stale}
use dbus_cgwacs.Program.{LogLevels, main}
use dbus_cgwacs.Program.Limits.{IsFine, main-IsFine}
use dbus_cgwacs.Mediator.{split_ids}
use dbus_cgwacs.Mediator.Services.{
  Event, state_event, settings_event, handle, handle_all, at, change_state, after_state,
  on_service_type_changed, publish_sensor, delete_service, delete_pv_service, delete_later,
  new_mediator,
}
use dbus_cgwacs.Mediator.Published.{IsPublished, new_mediator-IsPublished}
use dbus_cgwacs.Mediator.{KnownIds}
use dbus_cgwacs.Sensor.{disconnected, searched, detected, connected}
use dbus_cgwacs.Settings.{
  new_settings, service_type, l2_service_type, set_class_and_vrm_instance,
  set_l2_class_and_vrm_instance,
}
use dbus_cgwacs.Settings.Classes.{device_instance, l2_device_instance}
use dbus_cgwacs.SettingsBridge.{consumed, allocated, min_device_instance}
use dbus_cgwacs.Dbus.AddSetting.{setting_names}
use dbus_cgwacs.SettingsBridge.Stored.{places, expected, consumed-IsStored}
use dbus_cgwacs.Mediator.DeviceIds.{register_all, insert_all, register_all-insert_all}
use dbus_cgwacs.Tests.Samples.{
  Sample, number, no_number, samples, stroke_numerals, stroke_laws, written,
}
use dbus_cgwacs.Tests.Meters.{plain_settings, plain_sensor}

-- Conversions of a value: a text is itself, a number its strokes.
abbrev text_of : Variant Sample → Text
text_of (text_value t) = t
text_of (int_value i) = written i
text_of _ = []

abbrev conversions : Conversions Sample
conversions = record {
  to_text = text_of;
  to_int = λ v. pos 0;
  hexadecimal = written;
  base_text = λ v unit precision. text_of v;
}

-- The current, property and signal 7 of every object, is no number; all else is invalid.
abbrev read_sample : ℕ → Option Property → Variant Sample
read_sample o none = invalid
read_sample o (some p) = double_value no_number

abbrev world : World (Variant Sample)
world = record {
  item_of = λ path. 0;
  find_property = λ o name. some (record { name = name; notify_signal = some 7 });
  read = read_sample;
  item_value = λ i. invalid;
  is_valid = λ v. false;
  is_requested = λ i. false;
}

abbrev charger_layout : Layout
charger_layout = record { secondary = false; grid = false; charger = true; positioned = true }

abbrev environment : Environment
environment = record {
  process_name = text "dbus-cgwacs";
  process_version = text "v2";
  port_name = text "/dev/ttyUSB0";
  product_id = λ p. pos 45070;
}

-- The same objects with other values: at some of the changes, and when the timer rings.
abbrev read_later : ℕ → Option Property → Variant Sample
read_later o property = double_value (number (pos 3))

abbrev later_world : World (Variant Sample)
later_world = record world { read = read_later }

-- Two changes on L1 and one on the settings.
abbrev some_changes : List (World (Variant Sample) × (ℕ × ℕ))
some_changes = (world, (3, 7)) ∷ (later_world, (3, 7)) ∷ (world, (1, 7)) ∷ []

new_sensor_bridge-updates_example :
    let b0 = built conversions world (bindings conversions charger_layout) charger_layout in
    let its =
      due (changes some_changes) (items conversions world (bindings conversions charger_layout)) in
    let published = announce_all (overrides conversions) later_world true its in
    (calls : List (Call (Variant Sample))) × (new_sensor_bridge conversions world
        (bindings conversions charger_layout)
        charger_layout
        false
      ≡ some (b0, calls))
    × IsSent conversions world calls
    × (b : DbusBridge (Variant Sample)) × (notify_all (overrides conversions) some_changes b0
        ≡ some (b, []))
    × (on_update_timer (overrides conversions) later_world b ≡ some (b0, published))
    × IsSent conversions world published
new_sensor_bridge-updates_example =
    new_sensor_bridge-updates conversions world (bindings conversions charger_layout) charger_layout
      false some_changes later_world

charger_current-stale_example :
    (calls : List (Call (Variant Sample))) × Publishes conversions world later_world some_changes
      (service conversions world (layout false false true true))
      calls
    × Publishes conversions world later_world some_changes
        (service conversions world (layout false false true false))
        calls
charger_current-stale_example =
    charger_current-stale conversions world later_world some_changes false false true

entries-distinct_example :
    is_distinct (
      map path_of (
        entries stroke_numerals environment conversions charger_layout plain_settings plain_sensor))
    ≡ true
entries-distinct_example =
    entries-distinct stroke_numerals environment conversions charger_layout plain_settings
      plain_sensor

abbrev second_address : ℕ
second_address = 2

service_name_unique_example : (text "grid" ≡ text "grid") × (second_address ≡ 2) × (true ≡ true)
unfolding has_char
service_name_unique_example =
    service_name_unique stroke_numerals stroke_laws (text "/dev/ttyUSB0") (text "grid")
      (text "grid") 2 2 true true refl refl refl refl refl (omega arith) (omega arith) refl

abbrev levels : LogLevels
levels = record { lowest = 0; highest = 6; info = 2 }

-- A timeout that is too short, behind the switch of the Zigbee modules.
abbrev arguments : List Text
arguments = text "-z" ∷ text "--timeout" ∷ text "||" ∷ text "/dev/ttyUSB0" ∷ text "--baud" ∷ []

main-IsFine_example : IsFine (main stroke_numerals levels arguments (false ∷ true ∷ []))
main-IsFine_example = main-IsFine stroke_numerals levels arguments (false ∷ true ∷ [])

-- Two serials of which one is stored.
abbrev serials : List Text
serials = text "A1" ∷ text "B2" ∷ text "A1" ∷ []

register_all-insert_all_example :
    split_ids
      (register_all serials
        (record { device_ids = []; device_ids_item = text "B2,,C3" })).device_ids_item
    ≡ insert_all (split_ids (text "B2,,C3")) serials
unfolding has_char
register_all-insert_all_example =
    register_all-insert_all serials (text "B2,,C3")
      ((refl, refl), ((refl, refl), ((refl, refl), tt)))

consumed-IsStored_example :
    let s = plain_settings in
    let first = text "Devices/cgwacs_A1" in
    let second = text "Devices/cgwacs_A1_S" in
    let root = text "/Settings/Devices/" in
    let a = allocated stroke_numerals s in
    (places (consumed s) ≡ expected first second)
    × (first ≢ second)
    × (setting_names (root ++ a.0.0) ≡ some (first, text "ClassAndVrmInstance"))
    × (setting_names (root ++ a.1.0) ≡ some (second, text "ClassAndVrmInstance"))
    × (service_type (set_class_and_vrm_instance a.0.1 s) ≡ text "grid")
    × (device_instance stroke_numerals (set_class_and_vrm_instance a.0.1 s) ≡ min_device_instance)
    × (l2_service_type (set_l2_class_and_vrm_instance a.1.1 s) ≡ text "pvinverter")
    × (l2_device_instance stroke_numerals (set_l2_class_and_vrm_instance a.1.1 s)
        ≡ min_device_instance)
unfolding new_settings
consumed-IsStored_example = consumed-IsStored stroke_numerals stroke_laws plain_settings

-- The first sensor is found with the shared mode off, which is then set; the second is searched; the
-- first is lost.
abbrev some_events : List Event
some_events =
    state_event 0 searched []
    ∷ state_event 0 detected (text "A1")
    ∷ state_event 0 connected (text "A1")
    ∷ settings_event 0 true
    ∷ state_event 1 searched []
    ∷ state_event 0 disconnected []
    ∷ []

abbrev no_ids : KnownIds
no_ids = record { device_ids = []; device_ids_item = [] }

new_mediator-IsPublished_example :
    All IsPublished (handle_all some_events (new_mediator no_ids)).meters
unfolding handle_all new_mediator handle at change_state after_state on_service_type_changed
    publish_sensor delete_service delete_pv_service delete_later
new_mediator-IsPublished_example = new_mediator-IsPublished some_events no_ids refl
