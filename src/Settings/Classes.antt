-- ===== src/Settings/Classes.antt =====
-- The service type and the device instance, the two parts of one setting such as `grid:30`.
use dbus_cgwacs.Prelude.{
  ◌≡◌, refl, ap, ◌∙◌, false, ◌∷◌, ◌++◌, Option, none, some, Bool-cases, inl, inr, arith,
}
use dbus_cgwacs.Prelude.Int.{ℤ, negsuc}
use dbus_cgwacs.Prelude.Text.{
  Text, text, text_eq, text_eq_iff, has_char, first_part, last_part, first_part-append,
  last_part-append,
}
use dbus_cgwacs.Prelude.PlaceMarkers.{arg, arg-pair}
use dbus_cgwacs.Numerals.{Numerals, NumeralLaws, IsInt}
use dbus_cgwacs.Settings.{
  AcSensorSettings, set_class_and_vrm_instance, set_l2_class_and_vrm_instance, service_type,
  l2_service_type,
}

abbrev pub or_minus_one : Option ℤ → ℤ
or_minus_one none = negsuc 0
or_minus_one (some i) = i

or_minus_one-IsInt : (o : Option ℤ) → ((i : ℤ) → o ≡ some i → IsInt i) → IsInt (or_minus_one o)
or_minus_one-IsInt none h = omega arith
or_minus_one-IsInt (some i) h = h i refl

-- Whatever a setting holds, the device instance that is read of it is an `int`.
read-IsInt :
    (q : Numerals) → NumeralLaws q → (t : Text) → IsInt (or_minus_one (q.to_int (last_part b':' t)))
read-IsInt q laws t = or_minus_one-IsInt _ (laws.to_int-IsInt (last_part b':' t))

module _ {D : Type 0} (q : Numerals) where
  unfoldable pub device_instance : AcSensorSettings D → ℤ
  device_instance s = or_minus_one (q.to_int (last_part b':' s.class_and_vrm_instance))

  unfoldable pub l2_device_instance : AcSensorSettings D → ℤ
  l2_device_instance s = or_minus_one (q.to_int (last_part b':' s.l2_class_and_vrm_instance))

  -- `QString("%1:%2").arg(t).arg(deviceInstance())`
  unfoldable pub set_service_type : Text → AcSensorSettings D → AcSensorSettings D
  unfolding device_instance arg
  set_service_type t s =
      set_class_and_vrm_instance (arg (arg (text "%1:%2") t) (q.number (device_instance s))) s

  unfoldable pub set_l2_service_type : Text → AcSensorSettings D → AcSensorSettings D
  unfolding l2_device_instance arg
  set_l2_service_type t s =
      set_l2_class_and_vrm_instance (arg (arg (text "%1:%2") t) (q.number (l2_device_instance s))) s

  pub stored_class :
      (t : Text) (s : AcSensorSettings D)
      → (set_class_and_vrm_instance t s).class_and_vrm_instance ≡ t
  unfolding set_class_and_vrm_instance
  stored_class t s = elim (Bool-cases (text_eq s.class_and_vrm_instance t)) [
    | inl h ↦ rw h ((text_eq_iff s.class_and_vrm_instance t).0 h)
    | inr h ↦ rw h
  ]

  pub stored_l2_class :
      (t : Text) (s : AcSensorSettings D)
      → (set_l2_class_and_vrm_instance t s).l2_class_and_vrm_instance ≡ t
  unfolding set_l2_class_and_vrm_instance
  stored_l2_class t s = elim (Bool-cases (text_eq s.l2_class_and_vrm_instance t)) [
    | inl h ↦ rw h ((text_eq_iff s.l2_class_and_vrm_instance t).0 h)
    | inr h ↦ rw h
  ]

  -- For every role without a colon and without a per cent sign, in both services of a sensor: after
  -- the role is set it reads back, and the device instance is the one from before, also when there
  -- was none (-1).
  pub set_service_type-keeps_instance :
      NumeralLaws q
      → (t : Text) (s : AcSensorSettings D) → has_char b':' t ≡ false
      → has_char b'%' t ≡ false
      → (service_type (set_service_type t s) ≡ t)
        × (device_instance (set_service_type t s) ≡ device_instance s)
        × (l2_service_type (set_l2_service_type t s) ≡ t)
        × (l2_device_instance (set_l2_service_type t s) ≡ l2_device_instance s)
  unfolding service_type l2_service_type set_service_type set_l2_service_type device_instance
      l2_device_instance
  set_service_type-keeps_instance laws t s plain no_markers = (
    ap (first_part b':') (stored_class (joined (device_instance s)) s ∙ whole (device_instance s))
        ∙ first_part-append b':' t _ plain,
    ap instance_of (stored_class (joined (device_instance s)) s)
        ∙ reads_back (device_instance s) (read-IsInt q laws s.class_and_vrm_instance),
    ap (first_part b':')
          (stored_l2_class (joined (l2_device_instance s)) s ∙ whole (l2_device_instance s))
        ∙ first_part-append b':' t _ plain,
    ap instance_of (stored_l2_class (joined (l2_device_instance s)) s)
        ∙ reads_back (l2_device_instance s) (read-IsInt q laws s.l2_class_and_vrm_instance),
  )
    where
      joined : ℤ → Text
      joined i = arg (arg (text "%1:%2") t) (q.number i)

      whole : (i : ℤ) → joined i ≡ t ++ b':' ∷ q.number i
      whole i = arg-pair t (q.number i) no_markers

      instance_of : Text → ℤ
      instance_of x = or_minus_one (q.to_int (last_part b':' x))

      reads_back : (i : ℤ) → IsInt i → instance_of (joined i) ≡ i
      reads_back i h =
          ap instance_of (whole i)
          ∙ ap (λ x. or_minus_one (q.to_int x))
              (last_part-append b':' t (q.number i) (laws.number_no_colon i h))
          ∙ ap or_minus_one (laws.to_int-number i h)
