-- ===== src/Numerals.antt =====
-- `QString::number` and `QString::toInt` of Qt as an interface, with what Qt documents of them.
use dbus_cgwacs.Prelude.{◌<◌, ◌≡◌, false, Option, some}
use dbus_cgwacs.Prelude.Int.{ℤ, pos, negsuc}
use dbus_cgwacs.Prelude.Text.{Text, has_char}

pub record Numerals : Type 0 where
  pub number : ℤ → Text
  pub to_int : Text → Option ℤ

-- The values of a 32-bit `int`.
abbrev pub IsInt : ℤ → Type 0
IsInt (pos n) = n < 0x80000000
IsInt (negsuc n) = n < 0x80000000

-- A printed `int` reads back, and holds neither a colon nor an underscore; what is read is an `int`.
pub record NumeralLaws (q : Numerals) : Type 0 where
  pub to_int-number : (i : ℤ) → IsInt i → q.to_int (q.number i) ≡ some i
  pub to_int-IsInt : (t : Text) (i : ℤ) → q.to_int t ≡ some i → IsInt i
  pub number_no_colon : (i : ℤ) → IsInt i → has_char b':' (q.number i) ≡ false
  pub number_no_underscore : (i : ℤ) → IsInt i → has_char b'_' (q.number i) ≡ false
