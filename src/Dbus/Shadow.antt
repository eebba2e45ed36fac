-- ===== src/Dbus/Shadow.antt =====
-- Items of software/src/dbus_bridge.cpp that are bound to one property, and the signal that a bridge
-- sends when its items are known.
use dbus_cgwacs.Prelude.{
  ℕ, suc, Bool, true, false, not, ◌||◌, List, [], ◌∷◌, ◌++◌, Option, if◌then◌else◌, ◌≡◌, refl, ap,
  ◌∙◌, arith, Bool-cases, inl, inr,
}
use dbus_cgwacs.Dbus.Items.{Property, BusItemBridge, Overrides, listens}
use dbus_cgwacs.Dbus.Bridge.{DbusBridge, World, update_is_initialized, is_pending}
use dbus_cgwacs.Dbus.Pending.{is_reached, missed, due}

missed_away :
    (s : Option ℕ) (p : Option Property) (ns : List (ℕ × ℕ))
    → is_reached s p (missed s p ns) ≡ false
missed_away s p [] = refl
missed_away s p (n ∷ ns) = elim (Bool-cases (listens n s p)) [
  | inl h ↦ rw h (missed_away s p ns)
  | inr h ↦ rw h (rw h (missed_away s p ns))
]

still_away :
    (s s' : Option ℕ) (p p' : Option Property) (ns : List (ℕ × ℕ))
    → is_reached s p ns ≡ false
    → is_reached s p (missed s' p' ns) ≡ false
still_away s s' p p' [] h = refl
still_away s s' p p' (n ∷ ns) h = let rest = still_away s s' p p' ns (ground arith) in ground arith

none_missed :
    (s : Option ℕ) (p : Option Property) (ns : List (ℕ × ℕ))
    → is_reached s p ns ≡ false
    → missed s p ns ≡ ns
none_missed s p [] h = refl
none_missed s p (n ∷ ns) h =
    let rest = none_missed s p ns (ground arith) in
    let m = not_first n ns h in rw m (ap (λ ms. n ∷ ms) rest)
  where
    not_first :
        (n : ℕ × ℕ) (ns : List (ℕ × ℕ))
        → (listens n s p || is_reached s p ns) ≡ false
        → listens n s p ≡ false
    not_first n ns h = ground arith

module _ {V : Type 0} where
  due-unreached :
      (ns : List (ℕ × ℕ)) (b : BusItemBridge V) (front back : List (BusItemBridge V))
      → is_reached b.src b.property ns ≡ false
      → due ns (front ++ b ∷ back) ≡ due ns (front ++ back)
  unfolding due
  due-unreached ns b [] back h = let m = none_missed b.src b.property ns h in rw (h, m) refl
  due-unreached ns b (a ∷ front) back h =
      let rest =
        due-unreached (missed a.src a.property ns) b front back
          (still_away b.src a.src b.property a.property ns h) in
      rw rest refl

  -- An item that stands behind another one bound to the same property of the same object is never
  -- published for a change: with it or without it, the same items are.
  pub due-shadowed :
      (ns : List (ℕ × ℕ)) (a b : BusItemBridge V) (front middle back : List (BusItemBridge V))
      → b.src ≡ a.src
      → b.property ≡ a.property
      → due ns (front ++ a ∷ (middle ++ b ∷ back)) ≡ due ns (front ++ a ∷ (middle ++ back))
  unfolding due
  due-shadowed ns a b [] middle back s p =
      let rest =
        due-unreached (missed a.src a.property ns) b middle back
          (rw (s, p) (missed_away a.src a.property ns)) in
      rw rest refl
  due-shadowed ns a b (c ∷ front) middle back s p =
      let rest = due-shadowed (missed c.src c.property ns) a b front middle back s p in rw rest refl

module _ {V : Type 0} (overrides : Overrides V) where
  abbrev pub check_all : List (World V) → DbusBridge V → DbusBridge V
  check_all [] b = b
  check_all (w ∷ ws) b = check_all ws (update_is_initialized overrides w b)

  -- Whether all items are known at one of the checks.
  abbrev pub is_known : List (World V) → List (BusItemBridge V) → Bool
  is_known [] its = false
  is_known (w ∷ ws) its = not (is_pending overrides w its) || is_known ws its

  told : DbusBridge V → DbusBridge V
  told b = record b { is_initialized = true; initialized_count = suc b.initialized_count }

  not_again :
      (w : World V) (b : DbusBridge V)
      → (b.is_initialized || is_pending overrides w b.bus_items) ≡ true
      → update_is_initialized overrides w b ≡ b
  unfolding update_is_initialized
  not_again w b h = rw (h, update_is_initialized) refl

  first_time :
      (w : World V) (b : DbusBridge V)
      → b.is_initialized ≡ false
      → is_pending overrides w b.bus_items ≡ false
      → update_is_initialized overrides w b ≡ told b
  unfolding update_is_initialized told
  first_time w b i h =
      let e = neither b.is_initialized (is_pending overrides w b.bus_items) i h in
      rw (e, update_is_initialized) refl
    where
      neither : (a c : Bool) → a ≡ false → c ≡ false → (a || c) ≡ false
      neither a c p q = ground arith

  check_all-done :
      (ws : List (World V)) (b : DbusBridge V) → b.is_initialized ≡ true → check_all ws b ≡ b
  check_all-done [] b i = refl
  check_all-done (w ∷ ws) b i =
      ap (check_all ws) (not_again w b (let rest = i in ground arith)) ∙ check_all-done ws b i

  -- However often a new bridge checks whether its items are known, it sends `initialized()` once if
  -- at one of the checks none of them has been requested only, and never otherwise.
  pub check_all-once :
      (ws : List (World V)) (b : DbusBridge V)
      → b.is_initialized ≡ false
      → (check_all ws b).initialized_count
        ≡ (if is_known ws b.bus_items then suc b.initialized_count else b.initialized_count)
  unfolding told
  check_all-once [] b i = refl
  check_all-once (w ∷ ws) b i = elim (Bool-cases (is_pending overrides w b.bus_items)) [
    | inl h ↦ rw h (
        ap (λ c. (check_all ws c).initialized_count) (not_again w b (ground arith))
        ∙ check_all-once ws b i)
    | inr h ↦ rw h (
        ap (λ c. (check_all ws c).initialized_count) (first_time w b i h)
        ∙ ap (λ c. c.initialized_count) (check_all-done ws (told b) refl))
  ]
