-- ===== src/Mediator/Published.antt =====
-- Which services there are, after any events of software/src/ac_sensor_mediator.cpp.
use dbus_cgwacs.Prelude.{
  ℕ, zero, suc, ◌≡◌, refl, sym, ap, ◌∙◌, Bool, true, false, ◌&&◌, List, [], ◌∷◌, if◌then◌else◌, All,
  arith, Option, none, some, get_elem?, and_split,
}
use dbus_cgwacs.Prelude.Text.{Text}
use dbus_cgwacs.Sensor.{ConnectionState, disconnected, searched, detected, connected}
use dbus_cgwacs.Mediator.{KnownIds}
use dbus_cgwacs.Mediator.Services.{
  Meter, AcSensorMediator, Event, state_event, settings_event, handle, handle_all, at, change_state,
  after_state, on_service_type_changed, publish_sensor, delete_service, delete_pv_service,
  delete_later, new_mediator,
}

-- The states that a sensor goes through: it is searched, found and connected in this order, and can
-- be lost at any time.
abbrev pub follows : ConnectionState → ConnectionState → Bool
follows disconnected searched = true
follows searched detected = true
follows detected connected = true
follows _ disconnected = true
follows _ _ = false

abbrev pub fits_meter : Option Meter → ConnectionState → Bool
fits_meter none s = true
fits_meter (some m) s = follows m.connection_state s

-- Events in the order in which a sensor sends them.
abbrev pub is_possible : Event → AcSensorMediator → Bool
is_possible (state_event i s serial) a = fits_meter (get_elem? a.meters i) s
is_possible (settings_event i piggy) a = true

abbrev pub are_possible : List Event → AcSensorMediator → Bool
are_possible [] a = true
are_possible (e ∷ es) a = is_possible e a && are_possible es (handle e a)

abbrev pub is_connected : ConnectionState → Bool
is_connected connected = true
is_connected _ = false

-- One service while the sensor is connected, and one for its PV inverter in the shared mode.
pub record IsPublished (m : Meter) : Type 0 where
  pub main : m.services ≡ (if is_connected m.connection_state then 1 else 0)
  pub shared : m.pv_services ≡ (if is_connected m.connection_state && m.piggy_enabled then 1 else 0)

change_state-IsPublished :
    (s : ConnectionState) (serial : Text) (m : Meter)
    → follows m.connection_state s ≡ true
    → IsPublished m
    → IsPublished (change_state s (record m { serial = serial }))
unfolding change_state publish_sensor delete_service delete_later
change_state-IsPublished disconnected serial m f p = ground arith
change_state-IsPublished searched serial m f p = ground arith
change_state-IsPublished detected serial m f p = ground arith
change_state-IsPublished connected serial m f p = ground arith

on_service_type_changed-IsPublished :
    (piggy : Bool) (m : Meter)
    → IsPublished m
    → IsPublished (on_service_type_changed (record m { piggy_enabled = piggy }))
unfolding on_service_type_changed publish_sensor delete_service delete_pv_service
on_service_type_changed-IsPublished piggy m p = ground arith

at-All :
    (i : ℕ) (f : Meter → Meter) (ms : List Meter)
    → All IsPublished ms
    → ((m : Meter) → get_elem? ms i ≡ some m → IsPublished m → IsPublished (f m))
    → All IsPublished (at i f ms)
unfolding at
at-All i f [] h g = tt
at-All zero f (m ∷ ms) h g = (g m refl h.0, h.1)
at-All (suc i) f (m ∷ ms) h g = (h.0, at-All i f ms h.1 g)

meters-after_state :
    (s : ConnectionState) (serial : Text) (a : AcSensorMediator)
    → (after_state s serial a).meters ≡ a.meters
unfolding after_state
meters-after_state disconnected serial a = ground arith
meters-after_state searched serial a = refl
meters-after_state detected serial a = refl
meters-after_state connected serial a = refl

handle-IsPublished :
    (e : Event) (a : AcSensorMediator)
    → is_possible e a ≡ true
    → All IsPublished a.meters
    → All IsPublished (handle e a).meters
unfolding handle
handle-IsPublished (state_event i s serial) a p h =
    let changed = at i (λ m. change_state s (record m { serial = serial })) a.meters in
    let e = meters-after_state s serial (record a { meters = changed }) in
    rw e (
      at-All i _ a.meters h (λ m found q.
        change_state-IsPublished s serial m (fits (get_elem? a.meters i) m s found p) q))
  where
    fits :
        (o : Option Meter) (m : Meter) (s : ConnectionState)
        → o ≡ some m
        → fits_meter o s ≡ true
        → follows m.connection_state s ≡ true
    fits o m s e p = ap (λ x. fits_meter x s) (sym e) ∙ p
handle-IsPublished (settings_event i piggy) a p h =
    at-All i _ a.meters h (λ m found q. on_service_type_changed-IsPublished piggy m q)

handle_all-IsPublished :
    (es : List Event) (a : AcSensorMediator)
    → are_possible es a ≡ true
    → All IsPublished a.meters
    → All IsPublished (handle_all es a).meters
unfolding handle_all
handle_all-IsPublished [] a p h = h
handle_all-IsPublished (e ∷ es) a p h =
    let q = and_split (is_possible e a) (are_possible es (handle e a)) p in
    handle_all-IsPublished es (handle e a) q.1 (handle-IsPublished e a q.0 h)

-- From the constructor on, whatever the sensors go through and however often their settings change:
-- a sensor has one service exactly while it is connected, and a second one exactly while the shared
-- mode is on as well.
pub new_mediator-IsPublished :
    (es : List Event) (ids : KnownIds)
    → are_possible es (new_mediator ids) ≡ true
    → All IsPublished (handle_all es (new_mediator ids)).meters
unfolding new_mediator
new_mediator-IsPublished es ids p =
    handle_all-IsPublished es (new_mediator ids) p
      (record { main = refl; shared = refl }, (record { main = refl; shared = refl }, tt))
