-- ===== src/SettingsBridge/Stored.antt =====
-- Where the settings of software/src/ac_sensor_settings_bridge.cpp are stored, and what the sensor
-- reads of the device instances that are allocated.
use dbus_cgwacs.Prelude.{
  true, false, List, [], ◌∷◌, ◌++◌, Option, some, ◌≡◌, ◌≢◌, refl, ap, ◌∙◌, map, All, length,
  length-append, arith,
}
use dbus_cgwacs.Prelude.Text.{
  Text, text, has_char, first_part, last_part, first_part-append, last_part-append,
}
use dbus_cgwacs.Prelude.PlaceMarkers.{arg, arg-pair}
use dbus_cgwacs.Numerals.{Numerals, NumeralLaws, IsInt}
use dbus_cgwacs.Settings.{
  AcSensorSettings, service_type, l2_service_type, set_class_and_vrm_instance,
  set_l2_class_and_vrm_instance,
}
use dbus_cgwacs.Settings.Classes.{
  or_minus_one, device_instance, l2_device_instance, stored_class, stored_l2_class,
}
use dbus_cgwacs.Dbus.AddSetting.{setting_names, setting_names-path}
use dbus_cgwacs.Dbus.Consume.{init_device_instance}
use dbus_cgwacs.SettingsBridge.{
  SettingEntry, consumed, allocated, primary_id, secondary_id, primary_entries, secondary_entries,
  path_of, min_device_instance,
}

-- A property, and where it is stored: the group and the name of its setting.
abbrev pub Place : Type 0
Place = Text × Option (Text × Text)

abbrev pub place : Text → Text → Text → Place
place property group name = (property, some (group, name))

-- The property of each entry, and how its path is taken apart when the setting is added or read.
abbrev pub places : List (Text × SettingEntry) → List Place
places xs = map (λ x. (x.1.property, setting_names x.0)) xs

-- The settings of a sensor, in the groups of its two services.
abbrev pub expected : Text → Text → List Place
expected first second =
    place (text "customName") first (text "CustomName")
    ∷ place (text "classAndVrmInstance") first (text "ClassAndVrmInstance")
    ∷ place (text "isMultiphase") first (text "IsMultiphase")
    ∷ place (text "phaseCount") first (text "PhaseCount")
    ∷ place (text "position") first (text "Position")
    ∷ place (text "l1ReverseEnergy") first (text "L1ReverseEnergy")
    ∷ place (text "l2ReverseEnergy") first (text "L2ReverseEnergy")
    ∷ place (text "l3ReverseEnergy") first (text "L3ReverseEnergy")
    ∷ place (text "supportMultiphase") first (text "SupportMultiphase")
    ∷ place (text "l2ClassAndVrmInstance") second (text "ClassAndVrmInstance")
    ∷ place (text "l2CustomName") second (text "CustomName")
    ∷ place (text "l2Position") second (text "Position")
    ∷ place (text "piggyEnabled") second (text "Enabled")
    ∷ []

stored_lem :
    (id name : Text)
    → has_char b'/' name ≡ false
    → setting_names (text "/Settings/Devices/" ++ (id ++ b'/' ∷ name))
      ≡ some (text "Devices/" ++ id, name)
unfolding has_char
stored_lem id name h = setting_names-path true [] (text "Devices/" ++ id) name refl h

places-map :
    (id : Text) (es : List SettingEntry) (rest : List (Text × SettingEntry))
    → All (λ e. has_char b'/' e.name ≡ false) es
    → places (map (λ e. (path_of id e, e)) es ++ rest)
      ≡ map (λ e. place e.property (text "Devices/" ++ id) e.name) es ++ places rest
places-map id [] rest h = refl
places-map id (e ∷ es) rest h =
    ap (λ o. (e.property, o) ∷ places (map (λ e. (path_of id e, e)) es ++ rest))
      (stored_lem id e.name h.0)
    ∙ ap (λ x. place e.property (text "Devices/" ++ id) e.name ∷ x) (places-map id es rest h.1)

-- The group of the second service is another one.
groups_differ :
    (serial : Text)
    → text "Devices/cgwacs_" ++ serial ≢ text "Devices/cgwacs_" ++ (serial ++ text "_S")
groups_differ serial e =
    let l = ap length e in
    let a = length-append (text "Devices/cgwacs_") serial in
    let b = length-append (text "Devices/cgwacs_") (serial ++ text "_S") in
    let c = length-append serial (text "_S") in omega arith

secondary-plain : All (λ e. has_char b'/' e.name ≡ false) secondary_entries
unfolding has_char
secondary-plain = (refl, (refl, (refl, (refl, tt))))

class_lem :
    (q : Numerals)
    → NumeralLaws q
    → (role : Text) → has_char b':' role ≡ false
    → has_char b'%' role ≡ false
    → let stored = arg (arg (text "%1:%2") role) (q.number min_device_instance) in
      (first_part b':' stored ≡ role)
      × (or_minus_one (q.to_int (last_part b':' stored)) ≡ min_device_instance)
class_lem q laws role h no_markers =
    let fits : IsInt min_device_instance = omega arith in
    let number = q.number min_device_instance in
    let whole = arg-pair role number no_markers in
    (
      ap (first_part b':') whole ∙ first_part-append b':' role number h,
      ap (λ t. or_minus_one (q.to_int (last_part b':' t))) whole
          ∙ ap (λ t. or_minus_one (q.to_int t))
              (last_part-append b':' role number (laws.number_no_colon min_device_instance fits))
          ∙ ap or_minus_one (laws.to_int-number min_device_instance fits),
    )

module _ {D : Type 0} where
  primary-plain :
      (s : AcSensorSettings D) → All (λ e. has_char b'/' e.name ≡ false) (primary_entries s)
  unfolding has_char
  primary-plain s = (refl, (refl, (refl, (refl, (refl, (refl, (refl, (refl, (refl, tt)))))))))

  -- The thirteen settings of a sensor, whatever its serial is: each property is stored in the group
  -- of the service it belongs to, under its own name, and the two groups differ. The two device
  -- instances are allocated for exactly the settings that hold a class; once what is allocated is
  -- stored, the sensor is a grid meter and its PV sensor a PV inverter, both with the lowest device
  -- instance.
  pub consumed-IsStored :
      (q : Numerals)
      → NumeralLaws q
      → (s : AcSensorSettings D)
      → let first = text "Devices/cgwacs_" ++ s.serial in
        let second = text "Devices/cgwacs_" ++ (s.serial ++ text "_S") in
        let root = text "/Settings/Devices/" in
        let a = allocated q s in
        (places (consumed s) ≡ expected first second)
        × (first ≢ second)
        × (setting_names (root ++ a.0.0) ≡ some (first, text "ClassAndVrmInstance"))
        × (setting_names (root ++ a.1.0) ≡ some (second, text "ClassAndVrmInstance"))
        × (service_type (set_class_and_vrm_instance a.0.1 s) ≡ text "grid")
        × (device_instance q (set_class_and_vrm_instance a.0.1 s) ≡ min_device_instance)
        × (l2_service_type (set_l2_class_and_vrm_instance a.1.1 s) ≡ text "pvinverter")
        × (l2_device_instance q (set_l2_class_and_vrm_instance a.1.1 s) ≡ min_device_instance)
  unfolding consumed allocated init_device_instance service_type l2_service_type device_instance
      l2_device_instance has_char
  consumed-IsStored q laws s =
      let a = class_lem q laws (text "grid") refl refl in
      let b = class_lem q laws (text "pvinverter") refl refl in
      let c = stored_class q (allocated q s).0.1 s in
      let d = stored_l2_class q (allocated q s).1.1 s in
      let read = λ (t : Text). or_minus_one (q.to_int (last_part b':' t)) in
      let second = map (λ e. (path_of (secondary_id s.serial) e, e)) secondary_entries in
      (
        places-map (primary_id s.serial) (primary_entries s) second (primary-plain s)
            ∙ ap
                (λ x.
                  map (λ e. place e.property (text "Devices/" ++ primary_id s.serial) e.name)
                    (primary_entries s)
                  ++ x)
                (places-map (secondary_id s.serial) secondary_entries [] secondary-plain),
        groups_differ s.serial,
        stored_lem (primary_id s.serial) (text "ClassAndVrmInstance") refl,
        stored_lem (secondary_id s.serial) (text "ClassAndVrmInstance") refl,
        ap (first_part b':') c ∙ a.0,
        ap read c ∙ a.1,
        ap (first_part b':') d ∙ b.0,
        ap read d ∙ b.1,
      )
