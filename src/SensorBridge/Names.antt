-- ===== src/SensorBridge/Names.antt =====
-- The names of the services of software/src/ac_sensor_bridge.cpp.
use mathlib.Core.List.{head-eq_of_cons-eq, tail-eq_of_cons-eq}
use dbus_cgwacs.Prelude.{
  ℕ, ◌≡◌, refl, sym, ap, ◌∙◌, Bool, true, false, [], ◌∷◌, ◌++◌, if◌then◌else◌, arith, append-nil,
  append_assoc, ◌<◌, zero, suc,
}
use dbus_cgwacs.Prelude.Int.{pos}
use dbus_cgwacs.Prelude.Text.{Text, text, has_char, has_char-append}
use dbus_cgwacs.Prelude.PlaceMarkers.{arg, arg-append, lowest, replace_marker}
use dbus_cgwacs.Numerals.{Numerals, NumeralLaws}
use dbus_cgwacs.SensorBridge.Service.{service_name, remove_dev, underscores}

-- What stands behind a common beginning.
cancel : (p s t : Text) → p ++ s ≡ p ++ t → s ≡ t
cancel [] s t e = e
cancel (c ∷ p) s t e = cancel p s t (tail-eq_of_cons-eq e)

-- Two texts that are parted by a character which their first parts do not have.
split :
    (sep : ℕ) (s s' t t' : Text)
    → has_char sep s ≡ false
    → has_char sep s' ≡ false
    → s ++ sep ∷ t ≡ s' ++ sep ∷ t'
    → (s ≡ s') × (t ≡ t')
unfolding has_char
split sep [] [] t t' h h' e = (refl, tail-eq_of_cons-eq e)
split sep [] (c' ∷ s') t t' h h' e = let q = head-eq_of_cons-eq e in ground arith
split sep (c ∷ s) [] t t' h h' e = let q = head-eq_of_cons-eq e in ground arith
split sep (c ∷ s) (c' ∷ s') t t' h h' e =
    let q = head-eq_of_cons-eq e in
    let r = split sep s s' t t' (ground arith) (ground arith) (tail-eq_of_cons-eq e) in
    (ap (λ x. x ∷ s) q ∙ ap (λ x. c' ∷ x) r.0, r.1)

no_char-append :
    (c : ℕ) (s t : Text) → has_char c s ≡ false → has_char c t ≡ false → has_char c (s ++ t) ≡ false
unfolding has_char
no_char-append c [] t h k = k
no_char-append c (x ∷ s) t h k = ground (arith, no_char-append c s t)

-- The identifier of a port holds no per cent sign if its name does not.
no_char-remove_dev :
    (n : ℕ) (s : Text) → has_char b'%' s ≡ false → has_char b'%' (remove_dev n s) ≡ false
unfolding has_char remove_dev
no_char-remove_dev n [] h = refl
no_char-remove_dev (suc n) (c ∷ s) h = ground (arith, no_char-remove_dev n s)
no_char-remove_dev zero (c ∷ s) h = ground (arith, no_char-remove_dev 0 s, no_char-remove_dev 4 s)

no_char-underscores : (s : Text) → has_char b'%' s ≡ false → has_char b'%' (underscores s) ≡ false
unfolding has_char underscores
no_char-underscores [] h = refl
no_char-underscores (c ∷ s) h = ground (arith, no_char-underscores s)

-- The three texts that are put in one after another.
first_put :
    (service : Text)
    → arg (text "pub/com.victronenergy.%1.cgwacs_%2_mb%3") service
      ≡ (text "pub/com.victronenergy." ++ service) ++ text ".cgwacs_%2_mb%3"
unfolding arg lowest replace_marker
first_put service = refl

second_put :
    (p id : Text)
    → p ++ arg (text ".cgwacs_%2_mb%3") id ≡ (p ++ (text ".cgwacs_" ++ id)) ++ text "_mb%3"
unfolding arg lowest replace_marker
second_put p id = sym (append_assoc p (text ".cgwacs_" ++ id) (text "_mb%3"))

third_put :
    (p id number : Text)
    → (p ++ (text ".cgwacs_" ++ id)) ++ arg (text "_mb%3") number
      ≡ p ++ b'.' ∷ ((text "cgwacs_" ++ id) ++ (text "_mb" ++ number))
unfolding arg lowest replace_marker
third_put p id number =
    append_assoc p (text ".cgwacs_" ++ id) (text "_mb" ++ (number ++ []))
    ∙ ap (λ n. p ++ b'.' ∷ ((text "cgwacs_" ++ id) ++ (text "_mb" ++ n))) (append-nil number)

chain_lem :
    (service id number : Text)
    → has_char b'%' service ≡ false
    → has_char b'%' id ≡ false
    → arg (arg (arg (text "pub/com.victronenergy.%1.cgwacs_%2_mb%3") service) id) number
      ≡ (text "pub/com.victronenergy." ++ service)
        ++ b'.' ∷ ((text "cgwacs_" ++ id) ++ (text "_mb" ++ number))
chain_lem service id number hs hi =
    let p = text "pub/com.victronenergy." ++ service in
    let q = p ++ (text ".cgwacs_" ++ id) in
    let no_p = no_char-append b'%' (text "pub/com.victronenergy.") service start hs in
    let no_q =
      no_char-append b'%' p (text ".cgwacs_" ++ id) no_p
        (no_char-append b'%' (text ".cgwacs_") id middle hi) in
    ap (λ x. arg (arg x id) number) (first_put service)
    ∙ ap (λ x. arg x number) (arg-append p (text ".cgwacs_%2_mb%3") id no_p ∙ second_put p id)
    ∙ arg-append q (text "_mb%3") number no_q
    ∙ third_put p id number
  where
    start : has_char b'%' (text "pub/com.victronenergy.") ≡ false
    start = unfold has_char in refl

    middle : has_char b'%' (text ".cgwacs_") ≡ false
    middle = unfold has_char in refl

module _ (q : Numerals) where
  numbers_equal :
      NumeralLaws q
      → (a b : ℕ) → a < 0x80000000
      → b < 0x80000000
      → q.number (pos a) ≡ q.number (pos b)
      → a ≡ b
  numbers_equal laws a b ha hb e =
      let x = laws.to_int-number (pos a) ha in
      let y = laws.to_int-number (pos b) hb in let z = sym x ∙ (ap q.to_int e ∙ y) in ground arith

  -- A number with the suffix of a second service, or without.
  endings :
      NumeralLaws q
      → (a b : ℕ) (s t : Bool) → a < 0x80000000
      → b < 0x80000000
      → q.number (pos a) ++ (if s then text "_l2" else [])
        ≡ q.number (pos b) ++ (if t then text "_l2" else [])
      → (a ≡ b) × (s ≡ t)
  endings laws a b true true ha hb e =
      let r =
        split b'_' (q.number (pos a)) (q.number (pos b)) _ _ (laws.number_no_underscore (pos a) ha)
          (laws.number_no_underscore (pos b) hb) e in
      (numbers_equal laws a b ha hb r.0, refl)
  endings laws a b false false ha hb e = (
    numbers_equal laws a b ha hb
        (sym (append-nil (q.number (pos a))) ∙ (e ∙ append-nil (q.number (pos b)))),
    refl,
  )
  endings laws a b true false ha hb e =
      let x = has_char-append b'_' (q.number (pos a)) (text "l2") in
      let y = laws.number_no_underscore (pos b) hb in
      let z = sym x ∙ (ap (has_char b'_') (e ∙ append-nil (q.number (pos b))) ∙ y) in ground arith
  endings laws a b false true ha hb e =
      let x = has_char-append b'_' (q.number (pos b)) (text "l2") in
      let y = laws.number_no_underscore (pos a) ha in
      let z = sym x ∙ (ap (has_char b'_') (sym e ∙ append-nil (q.number (pos a))) ∙ y) in
      ground arith

  name_parts :
      (service id : Text) (a : ℕ) (suffix : Text)
      → has_char b'%' service ≡ false
      → has_char b'%' id ≡ false
      → arg
            (arg (arg (text "pub/com.victronenergy.%1.cgwacs_%2_mb%3") service) id)
            (q.number (pos a))
          ++ suffix
        ≡ text "pub/com.victronenergy."
          ++ (service
              ++ b'.' ∷ (text "cgwacs_" ++ (id ++ (text "_mb" ++ (q.number (pos a) ++ suffix)))))
  name_parts service id a suffix hs hi =
      ap (λ x. x ++ suffix) (chain_lem service id (q.number (pos a)) hs hi)
      ∙ append_assoc (text "pub/com.victronenergy." ++ service) _ suffix
      ∙ append_assoc (text "pub/com.victronenergy.") service _
      ∙ ap (λ x. text "pub/com.victronenergy." ++ (service ++ b'.' ∷ (text "cgwacs_" ++ x)))
          (ap (λ x. x ++ suffix) refl ∙ append_assoc id (text "_mb" ++ q.number (pos a)) suffix)

  -- Two services on one port with the same name have the same role, the same address, and are both
  -- the first or both the second of their sensor: no two services of a process claim one name. The
  -- roles hold no dot, neither they nor the name of the port a per cent sign, and the addresses are
  -- `int`s.
  pub service_name_unique :
      NumeralLaws q
      → (port service service' : Text) (a b : ℕ) (s t : Bool) → has_char b'%' port ≡ false
      → has_char b'%' service ≡ false
      → has_char b'%' service' ≡ false
      → has_char b'.' service ≡ false
      → has_char b'.' service' ≡ false
      → a < 0x80000000
      → b < 0x80000000
      → service_name q service port a s ≡ service_name q service' port b t
      → (service ≡ service') × (a ≡ b) × (s ≡ t)
  unfolding service_name
  service_name_unique laws port service service' a b s t hp hs hs' d d' ha hb e =
      let id = underscores (remove_dev 0 port) in
      let hid = no_char-underscores (remove_dev 0 port) (no_char-remove_dev 0 port hp) in
      let left = name_parts service id a (if s then text "_l2" else []) hs hid in
      let right = name_parts service' id b (if t then text "_l2" else []) hs' hid in
      let parts =
        split b'.' service service' _ _ d d'
          (cancel (text "pub/com.victronenergy.") _ _ (sym left ∙ e ∙ right)) in
      let rest = cancel (text "_mb") _ _ (cancel id _ _ (cancel (text "cgwacs_") _ _ parts.1)) in
      let r = endings laws a b s t ha hb rest in (parts.0, r.0, r.1)
