-- ===== src/Dbus/Pending.antt =====
-- What software/src/dbus_bridge.cpp publishes when its timer rings, after any changes of properties.
use dbus_cgwacs.Prelude.{
  ℕ, Bool, true, false, ◌||◌, List, [], ◌∷◌, ◌++◌, Option, none, some, if◌then◌else◌, ◌≡◌, refl, ap,
  ◌∙◌, All, arith, Bool-cases, inl, inr,
}
use dbus_cgwacs.Dbus.Items.{
  Property, BusItemBridge, Overrides, Call, publish_calls, sent, publish_value, publish_source,
  listens, is_source,
}
use dbus_cgwacs.Dbus.Bridge.{
  DbusBridge, World, mark_changed, on_property_changed, flush_item, flush, on_update_timer,
}

-- Whether a change reaches an item, and the changes that go on to the items behind it.
abbrev pub is_reached : Option ℕ → Option Property → List (ℕ × ℕ) → Bool
is_reached src property [] = false
is_reached src property (n ∷ ns) = listens n src property || is_reached src property ns

abbrev pub missed : Option ℕ → Option Property → List (ℕ × ℕ) → List (ℕ × ℕ)
missed src property [] = []
missed src property (n ∷ ns) =
    let rest = missed src property ns in if listens n src property then rest else n ∷ rest

or_true : (b : Bool) → (b || true) ≡ true
or_true b = ground arith

-- What is reached has an object.
is_reached-source :
    (src : Option ℕ) (property : Option Property) (ns : List (ℕ × ℕ))
    → is_reached src property ns ≡ true
    → (s : ℕ) × (src ≡ some s)
unfolding listens is_source
is_reached-source none property [] h = ground arith
is_reached-source none property (n ∷ ns) h = is_reached-source none property ns h
is_reached-source (some s) property ns h = (s, refl)

module _ {V : Type 0} where
  -- The items that changes are due to be published for: the first that listens, for each of them.
  unfoldable pub due : List (ℕ × ℕ) → List (BusItemBridge V) → List (BusItemBridge V)
  due ns [] = []
  due ns (it ∷ its) =
      let rest = due (missed it.src it.property ns) its in
      if is_reached it.src it.property ns then it ∷ rest else rest

  -- No change waits.
  abbrev pub IsSettled : List (BusItemBridge V) → Type 0
  IsSettled its = All (λ it. it.changed ≡ false) its

  touched : List (ℕ × ℕ) → BusItemBridge V → BusItemBridge V
  touched ns it = record it { changed = is_reached it.src it.property ns || it.changed }

-- The changes of properties, each with the world in which it happens.
abbrev pub changes : {V : Type 0} → List (World V × (ℕ × ℕ)) → List (ℕ × ℕ)
changes [] = []
changes (n ∷ ns) = n.1 ∷ changes ns

-- The properties that change, one after another.
abbrev pub notify_all :
    {V : Type 0}
    → Overrides V
    → List (World V × (ℕ × ℕ))
    → DbusBridge V
    → Option (DbusBridge V × List (Call V))
notify_all overrides [] b = some (b, [])
notify_all overrides (n ∷ ns) b = elim (on_property_changed overrides n.0 n.1 b) [
  | none ↦ none
  | some x ↦ elim (notify_all overrides ns x.0) [ none ↦ none | some y ↦ some (y.0, x.1 ++ y.1) ]
]

-- Marking a change reads no value.
mark_changed_same :
    {V : Type 0} (overrides : Overrides V) (w world : World V) (n : ℕ × ℕ)
    (its : List (BusItemBridge V))
    → mark_changed overrides w n its ≡ mark_changed overrides world n its
unfolding mark_changed
mark_changed_same overrides w world n [] = refl
mark_changed_same overrides w world n (it ∷ its) =
    rw (mark_changed_same overrides w world n its) refl

module _ {V : Type 0} (overrides : Overrides V) (world : World V) where
  -- The calls that publish an item with the value its property has.
  abbrev pub announce : Bool → BusItemBridge V → List (Call V)
  announce is_producer it = elim (publish_source overrides world.read is_producer it) [
    | none ↦ []
    | some calls ↦ calls
  ]

  abbrev pub announce_all : Bool → List (BusItemBridge V) → List (Call V)
  announce_all is_producer [] = []
  announce_all is_producer (it ∷ its) = announce is_producer it ++ announce_all is_producer its

  if_announce :
      (is_producer c : Bool) (it : BusItemBridge V) (its : List (BusItemBridge V))
      → (if c then announce is_producer it else []) ++ announce_all is_producer its
        ≡ announce_all is_producer (if c then it ∷ its else its)
  if_announce is_producer true it its = refl
  if_announce is_producer false it its = refl

  mark_all : List (ℕ × ℕ) → List (BusItemBridge V) → List (BusItemBridge V)
  mark_all [] its = its
  mark_all (n ∷ ns) its = mark_all ns (mark_changed overrides world n its)

  mark_all-nil : (ns : List (ℕ × ℕ)) → mark_all ns [] ≡ []
  unfolding mark_all mark_changed
  mark_all-nil [] = refl
  mark_all-nil (n ∷ ns) = mark_all-nil ns

  mark_all-first :
      (ns : List (ℕ × ℕ)) (it : BusItemBridge V) (its : List (BusItemBridge V))
      → mark_all ns (it ∷ its) ≡ touched ns it ∷ mark_all (missed it.src it.property ns) its
  unfolding mark_all mark_changed touched
  mark_all-first [] it its = refl
  mark_all-first (n ∷ ns) it its = elim (Bool-cases (listens n it.src it.property)) [
    | inl h ↦ rw h (
        mark_all-first ns (record it { changed = true }) its
        ∙ ap (λ c. record it { changed = c } ∷ mark_all (missed it.src it.property ns) its)
            (or_true (is_reached it.src it.property ns)))
    | inr h ↦ rw h (mark_all-first ns it (mark_changed overrides world n its))
  ]

  -- Publishing does not depend on whether a change waits.
  publish_calls-changed :
      (is_producer c : Bool) (it : BusItemBridge V) (v : Option V)
      → publish_calls overrides is_producer (record it { changed = c }) v
        ≡ publish_calls overrides is_producer it v
  unfolding publish_calls
  publish_calls-changed is_producer c it none = refl
  publish_calls-changed true c it (some v) = refl
  publish_calls-changed false c it (some v) = refl

  flush_item-true :
      (is_producer : Bool) (it : BusItemBridge V) (src : Option ℕ) (s : ℕ)
      → src ≡ some s
      → flush_item overrides world is_producer (record it { src = src; changed = true })
        ≡ some (
          record it { src = src; changed = false },
          announce is_producer (record it { src = src; changed = false }),
        )
  unfolding flush_item publish_source publish_value sent
  flush_item-true is_producer it none s h = ground arith
  flush_item-true is_producer it (some s') s h =
      let quiet = record it { src = some s'; changed = false } in
      ap (λ c. some (quiet, if it.busy then [] else c))
        (publish_calls-changed is_producer true quiet
          (sent overrides quiet (world.read s' it.property)))

  flush_item-touched :
      (is_producer reached changed : Bool) (it : BusItemBridge V)
      → changed ≡ false
      → (reached ≡ true → (s : ℕ) × (it.src ≡ some s))
      → flush_item overrides world is_producer (record it { changed = reached || changed })
        ≡ some (
          record it { changed = changed },
          if reached then announce is_producer (record it { changed = changed }) else [],
        )
  unfolding flush_item
  flush_item-touched is_producer reached true it e h = ground arith
  flush_item-touched is_producer true false it e h =
      let s = h refl in flush_item-true is_producer it it.src s.0 s.1
  flush_item-touched is_producer false false it e h = refl

  flush-marked :
      (is_producer : Bool) (ns : List (ℕ × ℕ)) (its : List (BusItemBridge V))
      → IsSettled its
      → flush overrides world is_producer (mark_all ns its)
        ≡ some (its, announce_all is_producer (due ns its))
  unfolding flush touched due
  flush-marked is_producer ns [] s = ap (flush overrides world is_producer) (mark_all-nil ns)
  flush-marked is_producer ns (it ∷ its) s =
      let m = mark_all-first ns it its in
      let reached = is_reached it.src it.property ns in
      let f =
        flush_item-touched is_producer reached it.changed it s.0
          (is_reached-source it.src it.property ns) in
      let r = flush-marked is_producer (missed it.src it.property ns) its s.1 in
      rw (m, f, r)
        (ap (λ c. some (it ∷ its, c))
          (if_announce is_producer (is_reached it.src it.property ns) it _))

  -- Under a timer a change is only marked.
  on_property_changed-marks :
      (n : World V × (ℕ × ℕ)) (b : DbusBridge V) (timer : Option ℕ) (interval : ℕ)
      → timer ≡ some interval
      → on_property_changed overrides n.0 n.1 (record b { update_timer = timer })
        ≡ some (
          record b {
            update_timer = timer;
            bus_items = mark_changed overrides world n.1 b.bus_items;
          },
          [],
        )
  unfolding on_property_changed
  on_property_changed-marks n b none interval t = ground arith
  on_property_changed-marks n b (some i) interval t =
      ap (λ its. some (record b { update_timer = some i; bus_items = its }, []))
        (mark_changed_same overrides n.0 world n.1 b.bus_items)

  notify_all-marked :
      (ns : List (World V × (ℕ × ℕ))) (b : DbusBridge V) (interval : ℕ)
      → b.update_timer ≡ some interval
      → notify_all overrides ns b
        ≡ some (record b { bus_items = mark_all (changes ns) b.bus_items }, [])
  unfolding mark_all
  notify_all-marked [] b interval t = refl
  notify_all-marked (n ∷ ns) b interval t =
      let m = on_property_changed-marks n b b.update_timer interval t in
      let b' = record b { bus_items = mark_changed overrides world n.1 b.bus_items } in
      let r = notify_all-marked ns b' interval t in rw (m, notify_all) (rw (r, notify_all) refl)

  -- From a bridge with a timer and no change that waits, and for any changes of properties in any
  -- order, with any values at each of them: until the timer rings nothing is published and no null
  -- object is read; then each item that listens first for one of the changes is published once, with
  -- the value its property has when the timer rings, in the order of the items; and no change waits
  -- any more.
  pub on_update_timer-due :
      (ns : List (World V × (ℕ × ℕ))) (b : DbusBridge V) (interval : ℕ)
      → b.update_timer ≡ some interval
      → IsSettled b.bus_items
      → (b' : DbusBridge V) × (notify_all overrides ns b ≡ some (b', []))
        × (on_update_timer overrides world b'
            ≡ some (b, announce_all b.is_producer (due (changes ns) b.bus_items)))
  unfolding on_update_timer
  on_update_timer-due ns b interval t s =
      let f = flush-marked b.is_producer (changes ns) b.bus_items s in
      (
        record b { bus_items = mark_all (changes ns) b.bus_items },
        notify_all-marked ns b interval t,
        rw (f, on_update_timer) refl,
      )
