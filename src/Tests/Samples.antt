-- ===== src/Tests/Samples.antt =====
-- Whole numbers and one value that is no number, in place of `double`, and printed numbers.
use dbus_cgwacs.Prelude.{
  ℕ, zero, suc, ◌+◌, ◌-◌, ◌*◌, ◌/◌, ◌≡◌, refl, Bool, true, false, not, [], ◌∷◌, Option, none, some,
  leb, ltb, ap, ◌∙◌, ◌==◌, if◌then◌else◌, arith,
}
use dbus_cgwacs.Prelude.Int.{ℤ, pos, negsuc, pos_part, neg_part, ltb_ℤ}
use dbus_cgwacs.Prelude.Text.{Text, has_char}
use dbus_cgwacs.Doubles.{Doubles, NanLaws, OrderLaws}
use dbus_cgwacs.Numerals.{Numerals, NumeralLaws, IsInt}

pub data Sample : Type 0 where
  no_number : Sample
  number : ℤ → Sample

abbrev pub difference : ℕ → ℕ → ℤ
difference a b = if leb b a then pos (a - b) else negsuc (b - a - 1)

abbrev pub sum : ℤ → ℤ → ℤ
sum a b = difference (pos_part a + pos_part b) (neg_part a + neg_part b)

abbrev pub opposite : ℤ → ℤ
opposite a = difference (neg_part a) (pos_part a)

abbrev pub product : ℤ → ℤ → ℤ
product (pos a) (pos b) = pos (a * b)
product a b =
    difference (pos_part a * pos_part b + neg_part a * neg_part b)
      (pos_part a * neg_part b + neg_part a * pos_part b)

abbrev pub quotient : ℤ → ℤ → Sample
quotient (pos a) (pos zero) = no_number
quotient (pos a) (pos (suc b)) = number (pos (a / suc b))
quotient _ _ = no_number

abbrev pub lift : (ℤ → ℤ → ℤ) → Sample → Sample → Sample
lift g (number a) (number b) = number (g a b)
lift g _ _ = no_number

abbrev pub compare_with : (ℤ → ℤ → Bool) → Sample → Sample → Bool
compare_with g (number a) (number b) = g a b
compare_with g _ _ = false

abbrev pub is_number : Sample → Bool
is_number no_number = false
is_number (number a) = true

abbrev pub divide : Sample → Sample → Sample
divide (number a) (number b) = quotient a b
divide _ _ = no_number

abbrev pub map_sample : (ℤ → ℤ) → Sample → Sample
map_sample g (number a) = number (g a)
map_sample g no_number = no_number

instance unfoldable pub samples : Doubles Sample
samples = record {
  nan = no_number;
  zero = number (pos 0);
  tenth = number (pos 1);
  thousandth = number (pos 1);
  of_int = number;
  neg = map_sample opposite;
  abs = map_sample (λ a. pos (pos_part a + neg_part a));
  add = lift sum;
  sub = lift (λ a b. sum a (opposite b));
  mul = lift product;
  div = divide;
  less = compare_with ltb_ℤ;
  less_eq = compare_with (λ a b. not (ltb_ℤ b a));
  equal = compare_with (λ a b. pos_part a + neg_part b == pos_part b + neg_part a);
  is_nan = λ x. not (is_number x);
  is_finite = is_number;
}

equal_refl_sample : (x : Sample) → samples.is_nan x ≡ false → samples.equal x x ≡ true
unfolding samples
equal_refl_sample no_number h = ground arith
equal_refl_sample (number a) h = ground arith

equal_nan_sample : (x y : Sample) → samples.is_nan y ≡ true → samples.equal x y ≡ false
unfolding samples
equal_nan_sample no_number y h = refl
equal_nan_sample (number a) no_number h = refl
equal_nan_sample (number a) (number b) h = ground arith

pub samples_nan : NanLaws samples
unfolding samples
samples_nan = record {
  nan_is_nan = refl;
  nan_not_finite = refl;
  zero_not_nan = refl;
  equal_refl = equal_refl_sample;
  equal_nan_right = equal_nan_sample;
}

le_refl_sample : (x : Sample) → samples.is_nan x ≡ false → samples.less_eq x x ≡ true
unfolding samples
le_refl_sample no_number h = ground arith
le_refl_sample (number a) h = ground arith

add_grows_sample :
    (x y : Sample)
    → samples.is_finite x ≡ true
    → samples.less_eq samples.zero y ≡ true
    → samples.less_eq x (samples.add x y) ≡ true
unfolding samples
add_grows_sample no_number y h k = ground arith
add_grows_sample (number a) no_number h k = ground arith
add_grows_sample (number (pos a)) (number (pos b)) h k = ground arith
add_grows_sample (number (negsuc a)) (number (pos b)) h k = ground arith
add_grows_sample (number a) (number (negsuc b)) h k = ground arith

div_nonneg_sample :
    (x y : Sample)
    → samples.less_eq x samples.zero ≡ false
    → samples.less_eq samples.zero y ≡ true
    → samples.is_finite (samples.div x y) ≡ true
    → samples.less_eq samples.zero (samples.div x y) ≡ true
unfolding samples
div_nonneg_sample no_number y h k l = ground arith
div_nonneg_sample (number a) no_number h k l = ground arith
div_nonneg_sample (number (pos a)) (number (pos zero)) h k l = ground arith
div_nonneg_sample (number (pos a)) (number (pos (suc b))) h k l = ground arith
div_nonneg_sample (number (negsuc a)) (number (pos zero)) h k l = ground arith
div_nonneg_sample (number (negsuc a)) (number (pos (suc b))) h k l = ground arith
div_nonneg_sample (number (pos a)) (number (negsuc b)) h k l = ground arith
div_nonneg_sample (number (negsuc a)) (number (negsuc b)) h k l = ground arith

mul_nonneg_sample :
    (x y : Sample)
    → samples.is_finite x ≡ true
    → samples.is_finite y ≡ true
    → samples.less_eq samples.zero x ≡ true
    → samples.less_eq samples.zero y ≡ true
    → samples.less_eq samples.zero (samples.mul x y) ≡ true
unfolding samples
mul_nonneg_sample no_number y h k l m = ground arith
mul_nonneg_sample (number a) no_number h k l m = ground arith
mul_nonneg_sample (number (pos a)) (number (pos b)) h k l m = ground arith
mul_nonneg_sample (number (negsuc a)) (number (pos b)) h k l m = ground arith
mul_nonneg_sample (number (pos a)) (number (negsuc b)) h k l m = ground arith
mul_nonneg_sample (number (negsuc a)) (number (negsuc b)) h k l m = ground arith

sub_negative_sample :
    (x y : Sample)
    → samples.is_finite x ≡ true
    → samples.less_eq samples.zero x ≡ true
    → samples.less y samples.zero ≡ true
    → samples.less_eq samples.zero (samples.sub x y) ≡ true
unfolding samples
sub_negative_sample no_number y h k l = ground arith
sub_negative_sample (number a) no_number h k l = ground arith
sub_negative_sample (number (pos a)) (number (pos b)) h k l = ground arith
sub_negative_sample (number (negsuc a)) (number (pos b)) h k l = ground arith
sub_negative_sample (number (pos a)) (number (negsuc b)) h k l = ground arith
sub_negative_sample (number (negsuc a)) (number (negsuc b)) h k l = ground arith

finite_not_nan_sample : (x : Sample) → samples.is_finite x ≡ true → samples.is_nan x ≡ false
unfolding samples
finite_not_nan_sample no_number h = ground arith
finite_not_nan_sample (number a) h = refl

pub samples_order : OrderLaws samples
unfolding samples
samples_order = record {
  less_eq_refl = le_refl_sample;
  finite_not_nan = finite_not_nan_sample;
  add_grows = add_grows_sample;
  div_nonneg = div_nonneg_sample;
  mul_nonneg = mul_nonneg_sample;
  sub_negative = sub_negative_sample;
  zero_nonneg = refl;
}

-- A number written as as many strokes, after a minus sign where it is negative.
abbrev pub strokes : ℕ → Text
strokes zero = []
strokes (suc n) = b'|' ∷ strokes n

abbrev pub written : ℤ → Text
written (pos n) = strokes n
written (negsuc n) = b'-' ∷ strokes n

abbrev pub count_strokes : Text → ℕ
count_strokes [] = 0
count_strokes (c ∷ t) = suc (count_strokes t)

abbrev pub read_strokes : Text → ℤ
read_strokes [] = pos 0
read_strokes (c ∷ t) = if c == b'-' then negsuc (count_strokes t) else pos (suc (count_strokes t))

-- Nothing is read of a number that is no `int`.
abbrev pub if_int : ℤ → Option ℤ
if_int (pos n) = if ltb n 0x80000000 then some (pos n) else none
if_int (negsuc n) = if ltb n 0x80000000 then some (negsuc n) else none

abbrev pub read_back : Text → Option ℤ
read_back t = if_int (read_strokes t)

instance unfoldable pub stroke_numerals : Numerals
stroke_numerals = record { number = written; to_int = read_back }

count-strokes : (n : ℕ) → count_strokes (strokes n) ≡ n
count-strokes zero = refl
count-strokes (suc n) = rw (count-strokes n) refl

read_strokes-written : (i : ℤ) → read_strokes (written i) ≡ i
read_strokes-written (pos zero) = refl
read_strokes-written (pos (suc n)) = rw (count-strokes n) refl
read_strokes-written (negsuc n) = rw (count-strokes n) refl

if_int-same : (i : ℤ) → IsInt i → if_int i ≡ some i
if_int-same (pos n) h = ground arith
if_int-same (negsuc n) h = ground arith

if_int-IsInt : (i j : ℤ) → if_int i ≡ some j → IsInt j
if_int-IsInt (pos n) (pos m) h = ground arith
if_int-IsInt (pos n) (negsuc m) h = ground arith
if_int-IsInt (negsuc n) (pos m) h = ground arith
if_int-IsInt (negsuc n) (negsuc m) h = ground arith

read_back-written : (i : ℤ) → IsInt i → read_back (written i) ≡ some i
read_back-written i h = ap if_int (read_strokes-written i) ∙ if_int-same i h

strokes_without : (sep n : ℕ) → (b'|' == sep) ≡ false → has_char sep (strokes n) ≡ false
unfolding has_char
strokes_without sep zero h = refl
strokes_without sep (suc n) h = rw h (strokes_without sep n h)

written_without :
    (sep : ℕ) (i : ℤ)
    → (b'|' == sep) ≡ false
    → (b'-' == sep) ≡ false
    → has_char sep (written i) ≡ false
unfolding has_char
written_without sep (pos n) h k = strokes_without sep n h
written_without sep (negsuc n) h k = rw k (strokes_without sep n h)

pub stroke_laws : NumeralLaws stroke_numerals
unfolding stroke_numerals
stroke_laws = record {
  to_int-number = read_back-written;
  to_int-IsInt = λ t i h. if_int-IsInt (read_strokes t) i h;
  number_no_colon = λ i h. written_without b':' i refl refl;
  number_no_underscore = λ i h. written_without b'_' i refl refl;
}
