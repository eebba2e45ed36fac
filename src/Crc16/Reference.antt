-- ===== src/Crc16/Reference.antt =====
-- The bitwise CRC of the Modbus standard, and that the tables compute it.
use dbus_cgwacs.Prelude.{
  ℕ, zero, suc, ◌+◌, ◌*◌, ◌/◌, ◌%◌, ◌<◌, ◌≡◌, refl, sym, ap, ◌∙◌, Bool, true, ◌&&◌, arith, bit_xor,
  get_or, ◌==◌, ==_iff, ltb, ltb→lt, and_split, List, [], ◌∷◌, All,
}
use dbus_cgwacs.Prelude.Bits.{
  bit_xor_assoc, bit_xor_comm, bit_xor-zero, bit_xor_lt, bit_xor_fields, div-bit_xor, mod-bit_xor,
  all_below, all_below_sound,
}
use dbus_cgwacs.Defines.{to_uint16, to_uint16_lem, msb, lsb}
use dbus_cgwacs.Crc16.{Crc16, crc_hi_table, crc_lo_table, add, add_bytes, reset, get_value, crc16}

-- What is fed back when the digit shifted out is `d`.
abbrev feedback : ℕ → ℕ
feedback zero = 0
feedback (suc d) = 0xA001

-- One digit: shift the register right, and feed the digit shifted out back.
unfoldable pub shift : ℕ → ℕ
shift r = bit_xor (r / 2) (feedback (r % 2))

unfoldable pub shifts : ℕ → ℕ → ℕ
unfolding shift
shifts zero r = r
shifts (suc n) r = shifts n (shift r)

-- One byte into the register, lowest digit first.
unfoldable pub reference_add : ℕ → ℕ → ℕ
unfolding shifts
reference_add r byte = shifts 8 (bit_xor r byte)

xor_shuffle :
    (a b p q : ℕ) → bit_xor (bit_xor a b) (bit_xor p q) ≡ bit_xor (bit_xor a p) (bit_xor b q)
xor_shuffle a b p q =
    bit_xor_assoc a b (bit_xor p q)
    ∙ ap (bit_xor a) (sym (bit_xor_assoc b p q) ∙ ap (λ x. bit_xor x q) (bit_xor_comm b p))
    ∙ ap (bit_xor a) (bit_xor_assoc p b q)
    ∙ sym (bit_xor_assoc a p (bit_xor b q))

feedback-xor :
    (d e : ℕ) → d < 2 → e < 2 → feedback ((d + e) % 2) ≡ bit_xor (feedback d) (feedback e)
feedback-xor zero zero hd he = refl
feedback-xor zero (suc zero) hd he = refl
feedback-xor (suc zero) zero hd he = refl
feedback-xor (suc zero) (suc zero) hd he = refl
feedback-xor (suc (suc d)) e hd he = absurd (omega arith)
feedback-xor zero (suc (suc e)) hd he = absurd (omega arith)
feedback-xor (suc zero) (suc (suc e)) hd he = absurd (omega arith)

parity : (a b : ℕ) → bit_xor a b % 2 ≡ (a % 2 + b % 2) % 2
parity a b = omega (arith, mod-bit_xor a b)

shift-xor : (a b : ℕ) → shift (bit_xor a b) ≡ bit_xor (shift a) (shift b)
unfolding shift
shift-xor a b =
    rw (div-bit_xor a b, parity a b, feedback-xor (a % 2) (b % 2) (omega arith) (omega arith))
      (xor_shuffle (a / 2) (b / 2) (feedback (a % 2)) (feedback (b % 2)))

shifts-xor : (n a b : ℕ) → shifts n (bit_xor a b) ≡ bit_xor (shifts n a) (shifts n b)
unfolding shifts
shifts-xor zero a b = refl
shifts-xor (suc n) a b = rw (shift-xor a b) (shifts-xor n (shift a) (shift b))

-- Zeros shifted out feed nothing back.
shift-double : (m : ℕ) → shift (2 * m) ≡ m
unfolding shift
shift-double m = rw (half, even) (bit_xor-zero m)
  where
    half : 2 * m / 2 ≡ m
    half = omega arith

    even : 2 * m % 2 ≡ 0
    even = omega arith

shifts_eight-high : (h : ℕ) → shifts 8 (h * 256) ≡ h
unfolding shifts
shifts_eight-high h = rw (
  as_doubles, shift-double, shift-double, shift-double, shift-double, shift-double, shift-double,
  shift-double, shift-double,
)
  where
    as_doubles : h * 256 ≡ 2 * (2 * (2 * (2 * (2 * (2 * (2 * (2 * h)))))))
    as_doubles = omega arith

-- The register as one word: its low byte is the field that the code calls high.
abbrev pub register : Crc16 → ℕ
register c = c.crc_lo * 256 + c.crc_hi

pub record IsBytes (c : Crc16) : Type 0 where
  pub lo_fits : c.crc_lo < 256
  pub hi_fits : c.crc_hi < 256

entry_matches : ℕ → Bool
entry_matches i =
    (shifts 8 i == get_or crc_lo_table i 0 * 256 + get_or crc_hi_table i 0)
    && (ltb (get_or crc_lo_table i 0) 256 && ltb (get_or crc_hi_table i 0) 256)

tables_match : all_below 256 entry_matches ≡ true
unfolding all_below entry_matches shifts shift
tables_match = refl

entry_matches_all : (i : ℕ) → i < 256 → entry_matches i ≡ true
entry_matches_all i h = all_below_sound 256 entry_matches i tables_match h

-- An entry of the two tables is eight shifts of its index.
entry_shifts :
    (i : ℕ) → i < 256 → shifts 8 i ≡ get_or crc_lo_table i 0 * 256 + get_or crc_hi_table i 0
unfolding entry_matches
entry_shifts i h = (==_iff _ _).0 (and_split _ _ (entry_matches_all i h)).0

pub table_entry_bytes :
    (i : ℕ) → i < 256 → (get_or crc_lo_table i 0 < 256) × (get_or crc_hi_table i 0 < 256)
unfolding entry_matches
table_entry_bytes i h =
    let fits = and_split _ _ (and_split _ _ (entry_matches_all i h)).1 in
    (ltb→lt _ _ fits.0, ltb→lt _ _ fits.1)

pub add-IsBytes : (c : Crc16) (byte : ℕ) → IsBytes c → byte < 256 → IsBytes (add c byte)
unfolding add
add-IsBytes c byte v hb =
    let index_fits : bit_xor c.crc_hi byte < 256 = bit_xor_lt 8 c.crc_hi byte v.hi_fits hb in
    let entry = table_entry_bytes (bit_xor c.crc_hi byte) index_fits in
    record { lo_fits = entry.0; hi_fits = bit_xor_lt 8 c.crc_lo _ v.lo_fits entry.1 }

-- The shifts of a register split into those of its two bytes.
shifts_eight-register : (l h : ℕ) → h < 256 → shifts 8 (l * 256 + h) ≡ bit_xor l (shifts 8 h)
shifts_eight-register l h fits =
    ap (shifts 8) (sym (bit_xor_fields 8 l h fits))
    ∙ shifts-xor 8 (l * 256) h
    ∙ ap (λ x. bit_xor x (shifts 8 h)) (shifts_eight-high l)

xor_into_high : (l e f : ℕ) → l < 256 → f < 256 → bit_xor l (e * 256 + f) ≡ e * 256 + bit_xor l f
xor_into_high l e f hl hf =
    ap (bit_xor l) (sym (bit_xor_fields 8 e f hf))
    ∙ sym (bit_xor_assoc l (e * 256) f)
    ∙ ap (λ x. bit_xor x f) (bit_xor_comm l (e * 256))
    ∙ bit_xor_assoc (e * 256) l f
    ∙ bit_xor_fields 8 e (bit_xor l f) (bit_xor_lt 8 l f hl hf)

split_byte : (l h b : ℕ) → h < 256 → b < 256 → bit_xor (l * 256 + h) b ≡ l * 256 + bit_xor h b
split_byte l h b hh hb =
    ap (λ x. bit_xor x b) (sym (bit_xor_fields 8 l h hh))
    ∙ bit_xor_assoc (l * 256) h b
    ∙ bit_xor_fields 8 l (bit_xor h b) (bit_xor_lt 8 h b hh hb)

-- One byte through the tables is eight digits through the register.
pub register-add :
    (c : Crc16) (byte : ℕ)
    → IsBytes c
    → byte < 256
    → register (add c byte) ≡ reference_add (register c) byte
unfolding add reference_add
register-add c byte v hb =
    let index_fits : bit_xor c.crc_hi byte < 256 = bit_xor_lt 8 c.crc_hi byte v.hi_fits hb in
    let index : ℕ = bit_xor c.crc_hi byte in
    sym (
      ap (shifts 8) (split_byte c.crc_lo c.crc_hi byte v.hi_fits hb)
      ∙ shifts_eight-register c.crc_lo index index_fits
      ∙ ap (bit_xor c.crc_lo) (entry_shifts index index_fits)
      ∙ xor_into_high c.crc_lo (get_or crc_lo_table index 0) (get_or crc_hi_table index 0) v.lo_fits
          (table_entry_bytes index index_fits).1)

-- The standard's CRC of a message: the register starts at all ones.
unfoldable pub reference_from : ℕ → List ℕ → ℕ
reference_from r [] = r
reference_from r (b ∷ bs) = reference_from (reference_add r b) bs

abbrev pub IsByteList : List ℕ → Type 0
IsByteList bs = All (λ b. b < 256) bs

pub add_bytes-IsBytes :
    (c : Crc16) (bs : List ℕ) → IsBytes c → IsByteList bs → IsBytes (add_bytes c bs)
unfolding add_bytes
add_bytes-IsBytes c [] v h = v
add_bytes-IsBytes c (b ∷ bs) v h = add_bytes-IsBytes (add c b) bs (add-IsBytes c b v h.0) h.1

pub reset-IsBytes : IsBytes reset
unfolding reset
reset-IsBytes = record { lo_fits = omega arith; hi_fits = omega arith }

register-add_bytes :
    (c : Crc16) (bs : List ℕ)
    → IsBytes c
    → IsByteList bs
    → register (add_bytes c bs) ≡ reference_from (register c) bs
unfolding add_bytes reference_from
register-add_bytes c [] v h = refl
register-add_bytes c (b ∷ bs) v h =
    register-add_bytes (add c b) bs (add-IsBytes c b v h.0) h.1
    ∙ ap (λ r. reference_from r bs) (register-add c b v h.0)

get_value-register :
    (c : Crc16) → IsBytes c → get_value c ≡ to_uint16 (lsb (register c)) (msb (register c))
unfolding get_value
get_value-register c v = omega (
  arith,
  to_uint16_lem c.crc_hi c.crc_lo v.hi_fits v.lo_fits,
  to_uint16_lem (lsb (register c)) (msb (register c)) (omega arith) (omega arith),
  v.lo_fits,
  v.hi_fits,
)

-- For every message of bytes, the table-driven CRC is the bitwise CRC of the Modbus standard
-- (polynomial 0xA001 reflected, start value 0xFFFF) with its two bytes exchanged, the order in
-- which the frame carries them.
pub crc16-eq-reference :
    (bs : List ℕ)
    → IsByteList bs
    → let r = reference_from 0xFFFF bs in crc16 bs ≡ to_uint16 (lsb r) (msb r)
unfolding crc16
crc16-eq-reference bs h =
    get_value-register (add_bytes reset bs) (add_bytes-IsBytes reset bs reset-IsBytes h)
    ∙ ap (λ r. to_uint16 (lsb r) (msb r)) (register-add_bytes reset bs reset-IsBytes h)
