-- ===== src/Crc16/Detection.antt =====
-- What the CRC detects, and the frame check by residue.
use dbus_cgwacs.Prelude.{
  ℕ, suc, ◌<◌, ◌≡◌, refl, sym, ap, ◌∙◌, Bool, true, ◌++◌, arith, bit_xor, get_or, ◌==◌, ==_iff,
  if◌then◌else◌, List, [], ◌∷◌,
}
use dbus_cgwacs.Prelude.Bits.{
  bit_xor-zero, bit_xor_self, bit_xor_cancel_left, bit_xor_cancel_right, bit_xor_lt, all_below,
  all_below_sound,
}
use dbus_cgwacs.Defines.{to_uint16_lem, msb, lsb}
use dbus_cgwacs.Crc16.{Crc16, crc_hi_table, crc_lo_table, add, add_bytes, reset, get_value, crc16}
use dbus_cgwacs.Crc16.Reference.{IsBytes, IsByteList, add-IsBytes, add_bytes-IsBytes, reset-IsBytes}

-- Where an entry stands in a table.
index_of : ℕ → List ℕ → ℕ
index_of v [] = 0
index_of v (x ∷ xs) = if x == v then 0 else suc (index_of v xs)

index_recovered : ℕ → Bool
unfolding index_of
index_recovered i = index_of (get_or crc_lo_table i 0) crc_lo_table == i

indices_recovered : all_below 256 index_recovered ≡ true
unfolding all_below index_recovered
indices_recovered = refl

-- No two entries of the low table are equal.
lo_table_injective :
    (i j : ℕ) → i < 256 → j < 256 → get_or crc_lo_table i 0 ≡ get_or crc_lo_table j 0 → i ≡ j
lo_table_injective i j hi hj e =
    sym (recovered i hi) ∙ ap (λ v. index_of v crc_lo_table) e ∙ recovered j hj
  where
    recovered : (k : ℕ) → k < 256 → index_of (get_or crc_lo_table k 0) crc_lo_table ≡ k
    recovered k h =
        (==_iff _ _).0
          (unfold index_recovered in all_below_sound 256 index_recovered k indices_recovered h)

-- A step determines the index that it used and the byte that it shifted up.
add_determines :
    (c d : Crc16) (a b : ℕ)
    → IsBytes c
    → IsBytes d
    → a < 256
    → b < 256
    → add c a ≡ add d b
    → (bit_xor c.crc_hi a ≡ bit_xor d.crc_hi b) × (c.crc_lo ≡ d.crc_lo)
unfolding add
add_determines c d a b vc vd ha hb e =
    let same_index : bit_xor c.crc_hi a ≡ bit_xor d.crc_hi b =
      lo_table_injective _ _ (bit_xor_lt 8 _ _ vc.hi_fits ha) (bit_xor_lt 8 _ _ vd.hi_fits hb)
        (ap (λ (r : Crc16). r.crc_lo) e) in
    let same_entry = ap (λ i. bit_xor d.crc_lo (get_or crc_hi_table i 0)) same_index in
    (
      same_index,
      bit_xor_cancel_right c.crc_lo d.crc_lo _ (ap (λ (r : Crc16). r.crc_hi) e ∙ sym same_entry),
    )

Crc16-path : (c d : Crc16) → c.crc_lo ≡ d.crc_lo → c.crc_hi ≡ d.crc_hi → c ≡ d
Crc16-path c d l h = λ i. record { crc_lo = l i; crc_hi = h i }

add_state_injective :
    (c d : Crc16) (b : ℕ) → IsBytes c → IsBytes d → b < 256 → add c b ≡ add d b → c ≡ d
add_state_injective c d b vc vd hb e =
    let parts = add_determines c d b b vc vd hb hb e in
    Crc16-path c d parts.1 (bit_xor_cancel_right c.crc_hi d.crc_hi b parts.0)

-- Two registers that differ still differ after the same bytes.
pub add_bytes_injective :
    (c d : Crc16) (bs : List ℕ)
    → IsBytes c
    → IsBytes d
    → IsByteList bs
    → add_bytes c bs ≡ add_bytes d bs
    → c ≡ d
unfolding add_bytes
add_bytes_injective c d [] vc vd h e = e
add_bytes_injective c d (b ∷ bs) vc vd h e = add_state_injective c d b vc vd h.0 (
    add_bytes_injective (add c b) (add d b) bs (add-IsBytes c b vc h.0) (add-IsBytes d b vd h.0) h.1
      e)

pub get_value_injective : (c d : Crc16) → IsBytes c → IsBytes d → get_value c ≡ get_value d → c ≡ d
unfolding get_value
get_value_injective c d vc vd e = Crc16-path c d (omega (arith, parts)) (omega (arith, parts))
  where
    parts : (c.crc_lo ≡ d.crc_lo) × (c.crc_hi ≡ d.crc_hi)
    parts = omega (
      arith,
      e,
      to_uint16_lem c.crc_hi c.crc_lo vc.hi_fits vc.lo_fits,
      to_uint16_lem d.crc_hi d.crc_lo vd.hi_fits vd.lo_fits,
      vc.lo_fits,
      vd.lo_fits,
    )

pub add_bytes-append :
    (c : Crc16) (xs ys : List ℕ) → add_bytes c (xs ++ ys) ≡ add_bytes (add_bytes c xs) ys
unfolding add_bytes
add_bytes-append c [] ys = refl
add_bytes-append c (x ∷ xs) ys = add_bytes-append (add c x) xs ys

-- Two bytes from one register determine each other.
two_bytes_injective :
    (c : Crc16) (a b a' b' : ℕ)
    → IsBytes c
    → IsByteList (a ∷ b ∷ a' ∷ b' ∷ [])
    → add (add c a) b ≡ add (add c a') b'
    → (a ≡ a') × (b ≡ b')
unfolding add
two_bytes_injective c a b a' b' v (ha, (hb, (ha', (hb', u)))) e =
    let later =
      add_determines (add c a) (add c a') b b' (add-IsBytes c a v ha) (add-IsBytes c a' v ha') hb
        hb' e in
    let same_index =
      lo_table_injective _ _ (bit_xor_lt 8 c.crc_hi a v.hi_fits ha)
        (bit_xor_lt 8 c.crc_hi a' v.hi_fits ha') later.1 in
    let same_first = bit_xor_cancel_left a a' c.crc_hi same_index in
    (
      same_first,
      bit_xor_cancel_left b b' (bit_xor c.crc_lo (get_or crc_hi_table (bit_xor c.crc_hi a') 0)) (
          ap (λ x. bit_xor (bit_xor c.crc_lo (get_or crc_hi_table (bit_xor c.crc_hi x) 0)) b)
            (sym same_first)
          ∙ later.0),
    )

-- Two messages that differ at most in two neighbouring bytes, and have the same CRC, are equal:
-- the CRC detects every change within two neighbouring bytes.
pub crc16_detects_two_bytes :
    (front back : List ℕ) (a b a' b' : ℕ)
    → IsByteList front
    → IsByteList back
    → IsByteList (a ∷ b ∷ a' ∷ b' ∷ [])
    → crc16 (front ++ a ∷ b ∷ back) ≡ crc16 (front ++ a' ∷ b' ∷ back)
    → (a ≡ a') × (b ≡ b')
unfolding crc16 add_bytes
crc16_detects_two_bytes front back a b a' b' hf hk hs e = two_bytes_injective c a b a' b' vc hs (
    add_bytes_injective (add (add c a) b) (add (add c a') b') back (two hs.0 hs.1.0)
      (two hs.1.1.0 hs.1.1.1.0) hk same)
  where
    c : Crc16
    c = add_bytes reset front

    vc : IsBytes c
    vc = add_bytes-IsBytes reset front reset-IsBytes hf

    two : {x y : ℕ} → x < 256 → y < 256 → IsBytes (add (add c x) y)
    two {x} {y} hx hy = add-IsBytes (add c x) y (add-IsBytes c x vc hx) hy

    valid : {x y : ℕ} → x < 256 → y < 256 → IsBytes (add_bytes reset (front ++ x ∷ y ∷ back))
    valid {x} {y} hx hy =
        rw (add_bytes-append reset front (x ∷ y ∷ back))
          (add_bytes-IsBytes (add (add c x) y) back (two hx hy) hk)

    same : add_bytes (add (add c a) b) back ≡ add_bytes (add (add c a') b') back
    same =
        sym (add_bytes-append reset front (a ∷ b ∷ back))
        ∙ get_value_injective _ _ (valid hs.0 hs.1.0) (valid hs.1.1.0 hs.1.1.1.0) e
        ∙ add_bytes-append reset front (a' ∷ b' ∷ back)

zero_entry : (get_or crc_lo_table 0 0 ≡ 0) × (get_or crc_hi_table 0 0 ≡ 0)
zero_entry = (refl, refl)

-- A register fed with its own value, first the byte that the frame carries first, becomes zero.
add_own_value :
    (c : Crc16)
    → IsBytes c
    → add (add c (msb (get_value c))) (lsb (get_value c)) ≡ record { crc_lo = 0; crc_hi = 0 }
add_own_value c v = rw (first, second) cleared
  where
    first : msb (get_value c) ≡ c.crc_hi
    first =
        unfold get_value in
        omega (arith, to_uint16_lem c.crc_hi c.crc_lo v.hi_fits v.lo_fits, v.lo_fits, v.hi_fits)

    second : lsb (get_value c) ≡ c.crc_lo
    second =
        unfold get_value in
        omega (arith, to_uint16_lem c.crc_hi c.crc_lo v.hi_fits v.lo_fits, v.lo_fits)

    cleared : add (add c c.crc_hi) c.crc_lo ≡ record { crc_lo = 0; crc_hi = 0 }
    cleared = unfold add in rw (bit_xor_self c.crc_hi, bit_xor-zero c.crc_lo, bit_xor_self c.crc_lo)

-- A message followed by its CRC, the high byte first, leaves the register at zero, the residue by
-- which a whole frame can be checked.
pub crc16_residue :
    (bs : List ℕ)
    → IsByteList bs
    → add_bytes reset (bs ++ msb (crc16 bs) ∷ lsb (crc16 bs) ∷ [])
      ≡ record { crc_lo = 0; crc_hi = 0 }
unfolding crc16 add_bytes
crc16_residue bs h =
    add_bytes-append reset bs (msb (crc16 bs) ∷ lsb (crc16 bs) ∷ [])
    ∙ add_own_value (add_bytes reset bs) (add_bytes-IsBytes reset bs reset-IsBytes h)
