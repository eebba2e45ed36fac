-- ===== src/Dbus/Consume.antt =====
-- The settings of software/src/dbus_bridge.cpp: the overloads of `consume` that add a setting first,
-- and `initDeviceInstance`; and `BridgeItem`, an item of a service. The values of a bridge of settings
-- are `QVariant`s, made and read by other libraries.
use dbus_cgwacs.Prelude.{
  ℕ, Bool, true, not, ◌||◌, ◌&&◌, List, [], ◌∷◌, ◌++◌, Option, none, some, if◌then◌else◌, ◌==◌,
}
use dbus_cgwacs.Prelude.Int.{ℤ}
use dbus_cgwacs.Prelude.Text.{Text, text}
use dbus_cgwacs.Prelude.PlaceMarkers.{arg}
use dbus_cgwacs.Numerals.{Numerals}
use dbus_cgwacs.Dbus.Items.{BusItemBridge, Overrides, Call}
use dbus_cgwacs.Dbus.Bridge.{DbusBridge, World, consume}
use dbus_cgwacs.Dbus.AddSetting.{TypeId, AddSettingCall, add_setting}

-- A call of `consume` with the default value of its setting, if it adds one: the default, the limits,
-- and whether it is silent.
pub record Consumed (V : Type 0) : Type 0 where
  pub item : BusItemBridge V
  pub setting : Option ((V × V) × (V × Bool))

module _ {V : Type 0} (type_of : V → TypeId) (overrides : Overrides V) (world : World V) where
  -- The call of the settings, if there is one.
  unfoldable pub setting_of : Bool → Consumed V → Option (AddSettingCall V)
  unfolding add_setting
  setting_of has_producer c = elim c.setting [
    | none ↦ none
    | some s ↦ add_setting type_of has_producer c.item.path s.0.0 s.0.1 s.1.0 s.1.1
  ]

  unfoldable pub consume_setting :
      Bool → Consumed V → DbusBridge V → Option (AddSettingCall V) × (DbusBridge V × List (Call V))
  unfolding setting_of consume
  consume_setting has_producer c b = (setting_of has_producer c, consume overrides world c.item b)

-- `initDeviceInstance`: the path and the default value of the call of `AddSettings`.
unfoldable pub init_device_instance : Numerals → Text → Text → ℤ → Text × Text
unfolding arg
init_device_instance q unique_id device_class default = (
  unique_id ++ text "/ClassAndVrmInstance",
  arg (arg (text "%1:%2") device_class) (q.number default),
)

-- An item of a service: its value and its state, which is numbered, and the bridge it belongs to.
pub record BridgeItem (V : Type 0) : Type 0 where
  pub value : V
  pub state : ℕ
  pub has_bridge : Bool

pub data ItemSignal (V : Type 0) : Type 0 where
  state_changed : ℕ → ItemSignal V
  value_changed : V → ItemSignal V

unfoldable pub set_bridge : {V : Type 0} → BridgeItem V → BridgeItem V
set_bridge i = record i { has_bridge = true }

-- `produceValue`, for the equality of values and for the answer of `alwaysNotify` of the bridge.
unfoldable pub produce_item :
    {V : Type 0} → (V → V → Bool) → Bool → V → ℕ → BridgeItem V → BridgeItem V × List (ItemSignal V)
produce_item same always v state i = (
  record i { value = v; state = state },
  (if i.state == state then [] else state_changed state ∷ [])
      ++ (if not (same i.value v) || (i.has_bridge && always) then value_changed v ∷ [] else []),
)
