-- ===== src/Mediator/Services.antt =====
-- The slots of software/src/ac_sensor_mediator.cpp that follow the connection of each sensor, and make
-- and delete its services. The settings and their bridge are counted by the services they stand for.
use dbus_cgwacs.Prelude.{
  ℕ, zero, suc, ◌-◌, Bool, true, false, List, [], ◌∷◌, if◌then◌else◌, ◌==◌, all,
}
use dbus_cgwacs.Prelude.Text.{Text}
use dbus_cgwacs.Sensor.{ConnectionState, disconnected, searched, detected, connected}
use dbus_cgwacs.Mediator.{KnownIds, register_device}

-- A sensor with its settings: `services` and `pv_services` count the bridges that are children of the
-- sensor and of its PV sensor.
pub record Meter : Type 0 where
  pub connection_state : ConnectionState
  pub serial : Text
  pub piggy_enabled : Bool
  pub services : ℕ
  pub pv_services : ℕ

-- `connection_lost` counts the signal.
pub record AcSensorMediator : Type 0 where
  pub known : KnownIds
  pub meters : List Meter
  pub connection_lost : ℕ

abbrev pub is_disconnected : ConnectionState → Bool
is_disconnected disconnected = true
is_disconnected _ = false

abbrev pub new_meter : Meter
new_meter = record {
  connection_state = disconnected;
  serial = [];
  piggy_enabled = false;
  services = 0;
  pv_services = 0;
}

-- Two sensors, at the addresses 1 and 2.
unfoldable pub new_mediator : KnownIds → AcSensorMediator
new_mediator ids = record { known = ids; meters = new_meter ∷ new_meter ∷ []; connection_lost = 0 }

unfoldable pub publish_sensor : Meter → Meter
publish_sensor m = record m {
  services = suc m.services;
  pv_services = if m.piggy_enabled then suc m.pv_services else m.pv_services;
}

-- `delete findChild<AcSensorBridge *>()`: one bridge, if there is one.
unfoldable pub delete_service : Meter → Meter
delete_service m = record m { services = m.services - 1 }

unfoldable pub delete_pv_service : Meter → Meter
delete_pv_service m = record m { pv_services = m.pv_services - 1 }

unfoldable pub on_service_type_changed : Meter → Meter
unfolding publish_sensor delete_service delete_pv_service
on_service_type_changed m =
    if m.services == 0 then m else publish_sensor (delete_pv_service (delete_service m))

-- The bridges that go with the settings they were made for.
unfoldable pub delete_later : Meter → Meter
delete_later m = record m { services = 0; pv_services = 0 }

-- The part of `onConnectionStateChanged` that is about the sensor itself. A sensor that is lost has
-- had its settings deleted, and the bridges that are left go when the slot is over.
unfoldable pub change_state : ConnectionState → Meter → Meter
unfolding publish_sensor delete_service delete_later
change_state disconnected m =
    delete_later (delete_service (record m { connection_state = disconnected }))
change_state searched m = record m { connection_state = searched }
change_state detected m = record m { connection_state = detected }
change_state connected m = publish_sensor (record m { connection_state = connected })

unfoldable pub at : ℕ → (Meter → Meter) → List Meter → List Meter
at i f [] = []
at zero f (m ∷ ms) = f m ∷ ms
at (suc i) f (m ∷ ms) = m ∷ at i f ms

abbrev pub all_disconnected : List Meter → Bool
all_disconnected ms = all (λ m. is_disconnected m.connection_state) ms

-- The part that is about the mediator: the serial of a device that was found, and the signal when
-- the last sensor is lost.
unfoldable pub after_state : ConnectionState → Text → AcSensorMediator → AcSensorMediator
unfolding register_device
after_state disconnected serial a =
    if all_disconnected a.meters then record a { connection_lost = suc a.connection_lost } else a
after_state searched serial a = a
after_state detected serial a = record a { known = register_device serial a.known }
after_state connected serial a = a

-- What reaches a sensor: a new state, with the serial that it has then; and one of the four signals of
-- its settings, with the shared mode that is set then.
pub data Event : Type 0 where
  state_event : ℕ → ConnectionState → Text → Event
  settings_event : ℕ → Bool → Event

unfoldable pub handle : Event → AcSensorMediator → AcSensorMediator
unfolding at change_state after_state on_service_type_changed
handle (state_event i s serial) a =
    after_state s serial
      (record a { meters = at i (λ m. change_state s (record m { serial = serial })) a.meters })
handle (settings_event i piggy) a = record a {
  meters = at i (λ m. on_service_type_changed (record m { piggy_enabled = piggy })) a.meters;
}

unfoldable pub handle_all : List Event → AcSensorMediator → AcSensorMediator
unfolding handle
handle_all [] a = a
handle_all (e ∷ es) a = handle_all es (handle e a)
