-- ===== src/Defines.antt =====
-- software/src/defines.h: the halves of a 16-bit word, and the phases.
use dbus_cgwacs.Prelude.{ℕ, suc, ◌+◌, ◌*◌, ◌/◌, ◌%◌, ◌<◌, ◌≡◌, bit_or, arith, List, get_or}
use dbus_cgwacs.Prelude.Bits.{bit_or_fields}

-- `d >> 8` and `d & 0xFF` of a `quint16`, as a `quint8`.
abbrev pub msb : ℕ → ℕ
msb d = (d / 256) % 256

abbrev pub lsb : ℕ → ℕ
lsb d = d % 256

unfoldable pub to_uint16 : ℕ → ℕ → ℕ
to_uint16 msb lsb = bit_or (msb * 256) lsb % 65536

-- The overload on a byte array. A `QByteArray` ends in a zero byte behind its last one.
unfoldable pub to_uint16_at : List ℕ → ℕ → ℕ
to_uint16_at a offset = to_uint16 (get_or a offset 0) (get_or a (suc offset) 0)

pub data Phase : Type 0 where
  multiphase phase_l1 phase_l2 phase_l3 : Phase

-- The number of an enumerator, which the code compares with the phase count.
abbrev pub phase_number : Phase → ℕ
phase_number multiphase = 0
phase_number phase_l1 = 1
phase_number phase_l2 = 2
phase_number phase_l3 = 3

pub data Position : Type 0 where
  input1 output input2 : Position

pub to_uint16_lem : (m l : ℕ) → m < 256 → l < 256 → to_uint16 m l ≡ m * 256 + l
unfolding to_uint16
to_uint16_lem m l hm hl = ground (arith, bit_or_fields 8 m l)

-- A word is put together again from its two bytes.
pub to_uint16-msb-lsb : (d : ℕ) → d < 65536 → to_uint16 (msb d) (lsb d) ≡ d
to_uint16-msb-lsb d h = omega (arith, to_uint16_lem (msb d) (lsb d) (omega arith) (omega arith))
