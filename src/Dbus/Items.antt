-- ===== src/Dbus/Items.antt =====
-- The items of a bridge of software/src/dbus_bridge.h, and the values they send one way and the
-- other. The values (`QVariant`), the items of the service (`VeQItem`) and the meta objects of Qt are
-- parameters. `busy` is true only while an item is published: the calls that are listed here.
use dbus_cgwacs.Prelude.{
  ℕ, Bool, true, false, ◌&&◌, List, [], ◌∷◌, Option, none, some, ◌==◌, if◌then◌else◌,
}
use dbus_cgwacs.Prelude.Int.{ℤ}
use dbus_cgwacs.Prelude.Text.{Text}

-- `QMetaProperty`: the signal is missing when the property announces no change.
pub record Property : Type 0 where
  pub name : Text
  pub notify_signal : Option ℕ

-- `dbus_transform_t`: the value may be changed, whatever the result.
abbrev pub DbusTransform : Type 0 → Type 0
DbusTransform V = V → Bool × V

-- Objects, items and signals are numbered.
pub record BusItemBridge (V : Type 0) : Type 0 where
  pub item : ℕ
  pub src : Option ℕ
  pub property : Option Property
  pub path : Text
  pub unit : Text
  pub precision : ℤ
  pub busy : Bool
  pub changed : Bool
  pub always_notify : Bool
  pub from_dbus : Option (DbusTransform V)
  pub to_dbus : Option (DbusTransform V)

-- The virtual functions of a bridge.
pub record Overrides (V : Type 0) : Type 0 where
  pub to_dbus : Text → DbusTransform V
  pub from_dbus : Text → DbusTransform V
  pub to_text : Text → V → Text → ℤ → Text

-- The calls of items and of objects.
pub data Call (V : Type 0) : Type 0 where
  produce_value : ℕ → V → Call V
  produce_text : ℕ → Text → Call V
  set_item_value : ℕ → V → Call V
  set_property : ℕ → Text → V → Call V
  synchronize_service take_service_offline : Call V

-- An optional transformation, and what a missing one results in.
unfoldable pub transformed : {V : Type 0} → Bool → Option (DbusTransform V) → V → Bool × V
transformed missing none v = (missing, v)
transformed missing (some f) v = f v

module _ {V : Type 0} (overrides : Overrides V) where
  -- The two transformations on the way to the D-Bus, or an early return.
  unfoldable pub sent : BusItemBridge V → V → Option V
  unfolding transformed
  sent it v =
      let t = transformed true it.to_dbus v in
      let u = overrides.to_dbus it.path t.1 in
      if t.0 then (if u.0 then some u.1 else none) else none

  unfoldable pub publish_calls : Bool → BusItemBridge V → Option V → List (Call V)
  publish_calls is_producer it none = []
  publish_calls true it (some v) =
      produce_value it.item v
      ∷ produce_text it.item (overrides.to_text it.path v it.unit it.precision)
      ∷ []
  publish_calls false it (some v) = set_item_value it.item v ∷ []

  -- `publishValue` with a value, and with that of the property: there is none without an object.
  unfoldable pub publish_value : Bool → BusItemBridge V → V → List (Call V)
  unfolding publish_calls sent
  publish_value is_producer it v = if it.busy then [] else publish_calls is_producer it (sent it v)

  unfoldable pub publish_source :
      (ℕ → Option Property → V) → Bool → BusItemBridge V → Option (List (Call V))
  unfolding publish_value
  publish_source read is_producer it = elim it.src [
    | none ↦ none
    | some s ↦ some (publish_value is_producer it (read s it.property))
  ]

  -- `setValue`: the transformation of the item first, then that of the bridge, on what the first left.
  unfoldable pub store : ℕ → Text → Bool × V → List (Call V)
  store s name t = if t.0 then set_property s name t.1 ∷ [] else []

  unfoldable pub store_bound : Option ℕ → Option Property → BusItemBridge V → V → List (Call V)
  unfolding store transformed
  store_bound none p it v = []
  store_bound (some s) none it v = []
  store_bound (some s) (some p) it v =
      let t = transformed false it.from_dbus v in
      if t.0 then store s p.name t else store s p.name (overrides.from_dbus it.path t.1)

  unfoldable pub set_value : BusItemBridge V → V → List (Call V)
  unfolding store_bound
  set_value it v = store_bound it.src it.property it v

-- Whether an item is bound to the property that announces a change with this signal.
unfoldable pub is_signal : ℕ → Option Property → Bool
is_signal signal none = false
is_signal signal (some p) = elim p.notify_signal [ none ↦ false | some n ↦ n == signal ]

unfoldable pub is_source : ℕ → Option ℕ → Bool
is_source src none = false
is_source src (some s) = s == src

unfoldable pub listens : ℕ × ℕ → Option ℕ → Option Property → Bool
unfolding is_signal is_source
listens n src property = is_source n.0 src && is_signal n.1 property
