-- ===== src/Dbus/Bridge.antt =====
-- `DBusBridge` of software/src/dbus_bridge.cpp: its items, its timer, and the signals it receives.
-- The timer itself, and the service as an item, are parts of other libraries.
use dbus_cgwacs.Prelude.{
  ℕ, Bool, true, false, ◌&&◌, ◌||◌, List, [], ◌∷◌, ◌++◌, Option, none, some, ◌==◌, if◌then◌else◌,
  suc,
}
use dbus_cgwacs.Prelude.Int.{ℤ, pos, negsuc}
use dbus_cgwacs.Prelude.Text.{Text}
use dbus_cgwacs.Dbus.Items.{
  Property, BusItemBridge, Overrides, Call, synchronize_service, take_service_offline,
  DbusTransform, publish_value, publish_source, set_value, listens,
}

-- `initialized_count` counts the signal `initialized()`; `update_timer` is the interval of the timer,
-- if there is one.
pub record DbusBridge (V : Type 0) : Type 0 where
  pub bus_items : List (BusItemBridge V)
  pub update_timer : Option ℕ
  pub is_producer : Bool
  pub is_initialized : Bool
  pub initialized_count : ℕ

-- What the bridge reads of the rest of the program: the item of a path, the properties of an object,
-- their values, the values of the items, and which items have been requested only.
pub record World (V : Type 0) : Type 0 where
  pub item_of : Text → ℕ
  pub find_property : ℕ → Text → Option Property
  pub read : ℕ → Option Property → V
  pub item_value : ℕ → V
  pub is_valid : V → Bool
  pub is_requested : ℕ → Bool

unfoldable pub new_dbus_bridge : {V : Type 0} → Bool → DbusBridge V
new_dbus_bridge producer = record {
  bus_items = [];
  update_timer = none;
  is_producer = producer;
  is_initialized = false;
  initialized_count = 0;
}

unfoldable pub set_update_interval : {V : Type 0} → ℤ → DbusBridge V → DbusBridge V
set_update_interval (pos n) b = record b { update_timer = if n == 0 then none else some n }
set_update_interval (negsuc n) b = record b { update_timer = none }

-- `registerService`, for a service that is already registered or not, and the destructor.
unfoldable pub register_service : {V : Type 0} → Bool → List (Call V)
register_service requested = if requested then [] else synchronize_service ∷ []

unfoldable pub destroy : {V : Type 0} → Bool → DbusBridge V → List (Call V)
destroy has_service b = if has_service && b.is_producer then take_service_offline ∷ [] else []

module _ {V : Type 0} (overrides : Overrides V) (world : World V) where
  -- The property of an item that is connected: both an object and a name that it has.
  unfoldable pub bound_property : Option ℕ → Option Text → Option Property
  bound_property none name = none
  bound_property (some s) none = none
  bound_property (some s) (some name) = world.find_property s name

  unfoldable pub connected :
      Option ℕ
      → Option Text
      → Text
      → Text
      → ℤ
      → Bool
      → Option (DbusTransform V)
      → Option (DbusTransform V)
      → BusItemBridge V
  unfolding bound_property
  connected src property path unit precision always_notify from to = record {
    item = world.item_of path;
    src = src;
    property = bound_property src property;
    path = path;
    unit = unit;
    precision = precision;
    busy = false;
    changed = false;
    always_notify = always_notify;
    from_dbus = from;
    to_dbus = to;
  }

  -- `connectItem`, for an item that was made. A signal that two items are bound to calls the slot twice,
  -- which is one event here: the second call marks the same item again.
  unfoldable pub connect_item : BusItemBridge V → DbusBridge V → DbusBridge V
  connect_item it b = record b { bus_items = b.bus_items ++ it ∷ [] }

  -- The two ways to produce: from a property, and a value that stays.
  unfoldable pub produce : BusItemBridge V → DbusBridge V → Option (DbusBridge V × List (Call V))
  unfolding connect_item publish_source
  produce it b = elim (publish_source overrides world.read b.is_producer it) [
    | none ↦ none
    | some calls ↦ some (connect_item it b, calls)
  ]

  unfoldable pub produce_constant :
      BusItemBridge V → V → DbusBridge V → DbusBridge V × List (Call V)
  unfolding connect_item publish_value
  produce_constant it v b = (connect_item it b, publish_value overrides b.is_producer it v)

  unfoldable pub consume : BusItemBridge V → DbusBridge V → DbusBridge V × List (Call V)
  unfolding connect_item set_value
  consume it b =
      let v = world.item_value it.item in
      (connect_item it b, if world.is_valid v then set_value overrides it v else [])

  -- `findBridge`, and the two functions for an item that is written or that is asked.
  unfoldable pub find_bridge : ℕ → List (BusItemBridge V) → Option (BusItemBridge V)
  find_bridge item [] = none
  find_bridge item (it ∷ its) =
      let rest = find_bridge item its in if it.item == item then some it else rest

  unfoldable pub update_value : ℕ → V → DbusBridge V → List (Call V) × ℤ
  unfolding find_bridge set_value
  update_value item v b = elim (find_bridge item b.bus_items) [
    | none ↦ ([], negsuc 0)
    | some it ↦ (set_value overrides it v, pos 0)
  ]

  unfoldable pub always_notify : ℕ → DbusBridge V → Bool
  unfolding find_bridge
  always_notify item b = elim (find_bridge item b.bus_items) [
    | none ↦ false
    | some it ↦ it.always_notify
  ]

  -- The loop of `onPropertyChanged` under a timer: it stops at the first item that listens.
  unfoldable pub mark_changed : ℕ × ℕ → List (BusItemBridge V) → List (BusItemBridge V)
  unfolding listens
  mark_changed n [] = []
  mark_changed n (it ∷ its) =
      let rest = mark_changed n its in
      if listens n it.src it.property then record it { changed = true } ∷ its else it ∷ rest

  -- The same loop without a timer.
  unfoldable pub publish_changed : Bool → ℕ × ℕ → List (BusItemBridge V) → Option (List (Call V))
  unfolding listens publish_source
  publish_changed is_producer n [] = some []
  publish_changed is_producer n (it ∷ its) =
      let rest = publish_changed is_producer n its in
      if listens n it.src it.property
      then publish_source overrides world.read is_producer it
      else rest

  -- `onPropertyChanged`, for the object and the signal that it is called for.
  unfoldable pub on_property_changed : ℕ × ℕ → DbusBridge V → Option (DbusBridge V × List (Call V))
  unfolding mark_changed publish_changed
  on_property_changed n b = elim b.update_timer [
    | some interval ↦ some (record b { bus_items = mark_changed n b.bus_items }, [])
    | none ↦ elim (publish_changed b.is_producer n b.bus_items) [
      | none ↦ none
      | some calls ↦ some (b, calls)
    ]
  ]

  -- The loop of `onUpdateTimer`: a null object would be read for an item that changed.
  unfoldable pub flush_item : Bool → BusItemBridge V → Option (BusItemBridge V × List (Call V))
  unfolding publish_source
  flush_item is_producer it =
      if it.changed
      then elim (publish_source overrides world.read is_producer it) [
        | none ↦ none
        | some calls ↦ some (record it { changed = false }, calls)
      ]
      else some (it, [])

  abbrev pub joined :
      Option (BusItemBridge V × List (Call V))
      → Option (List (BusItemBridge V) × List (Call V))
      → Option (List (BusItemBridge V) × List (Call V))
  joined none y = none
  joined (some x) none = none
  joined (some x) (some y) = some (x.0 ∷ y.0, x.1 ++ y.1)

  unfoldable pub flush :
      Bool → List (BusItemBridge V) → Option (List (BusItemBridge V) × List (Call V))
  unfolding flush_item
  flush is_producer [] = some ([], [])
  flush is_producer (it ∷ its) = joined (flush_item is_producer it) (flush is_producer its)

  unfoldable pub on_update_timer : DbusBridge V → Option (DbusBridge V × List (Call V))
  unfolding flush
  on_update_timer b = elim (flush b.is_producer b.bus_items) [
    | none ↦ none
    | some x ↦ some (record b { bus_items = x.0 }, x.1)
  ]

  unfoldable pub publish_pending_changes : DbusBridge V → Option (DbusBridge V × List (Call V))
  unfolding on_update_timer
  publish_pending_changes b = elim b.update_timer [
    | none ↦ some (b, [])
    | some interval ↦ on_update_timer b
  ]

  -- Whether an item has been requested only.
  unfoldable pub is_pending : List (BusItemBridge V) → Bool
  is_pending [] = false
  is_pending (it ∷ its) = world.is_requested it.item || is_pending its

  unfoldable pub update_is_initialized : DbusBridge V → DbusBridge V
  unfolding is_pending
  update_is_initialized b =
      if b.is_initialized || is_pending b.bus_items
      then b
      else record b { is_initialized = true; initialized_count = suc b.initialized_count }

  unfoldable pub on_item_changed : ℕ → DbusBridge V → DbusBridge V × List (Call V)
  unfolding find_bridge set_value update_is_initialized
  on_item_changed item b = elim (find_bridge item b.bus_items) [
    | none ↦ (b, [])
    | some it ↦ (update_is_initialized b, set_value overrides it (world.item_value item))
  ]
