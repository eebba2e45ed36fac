-- ===== src/Prelude/PlaceMarkers.antt =====
-- `QString::arg`: the lowest numbered of the place markers %1 to %99 of a text is replaced, wherever
-- it stands. In a chain of calls the markers of a text that was put in count for the next call.
use Prim.Native.Nat.{ℕ, zero, suc, ◌+◌, ◌-◌, ◌*◌}
use mathlib.Core.Path.{◌≡◌, refl, ap, ◌∙◌}
use mathlib.Core.Bool.{Bool, false, ◌&&◌, ◌||◌}
use mathlib.Core.List.{[], ◌∷◌, ◌++◌, append-nil}
use mathlib.Core.Option.{Option, none, some}
use native.Mathlib.Omega.{arith}
use dbus_cgwacs.Prelude.Tests.{◌==◌, ltb, leb, if◌then◌else◌}
use dbus_cgwacs.Prelude.Text.{Text, text, has_char}

abbrev is_digit : ℕ → Bool
is_digit c = leb b'0' c && leb c b'9'

abbrev digit_value : ℕ → ℕ
digit_value c = c - b'0'

-- The number of a marker behind its per cent sign, and how many characters it takes.
abbrev numbered : Text → Option (ℕ × ℕ)
numbered [] = none
numbered (d ∷ []) = if is_digit d then some (digit_value d, 1) else none
numbered (d ∷ e ∷ s) =
    if is_digit d
    then (if is_digit e
        then some (10 * digit_value d + digit_value e, 2)
        else some (digit_value d, 1))
    else none

abbrev behind_letter : Option (ℕ × ℕ) → Option (ℕ × ℕ)
behind_letter none = none
behind_letter (some m) = some (m.0, suc m.1)

-- An L before the number, which only matters for how a number that is put in is written, is part of
-- the marker.
abbrev marker : Text → Option (ℕ × ℕ)
marker [] = none
marker (c ∷ s) = if c == b'L' then behind_letter (numbered s) else numbered (c ∷ s)

abbrev lower : Option (ℕ × ℕ) → Option ℕ → Option ℕ
lower none n = n
lower (some m) none = if m.0 == 0 then none else some m.0
lower (some m) (some n) = if m.0 == 0 || leb n m.0 then some n else some m.0

-- The number of the lowest marker.
unfoldable pub lowest : Text → Option ℕ
lowest [] = none
lowest (c ∷ s) = let rest = lowest s in if c == b'%' then lower (marker s) rest else rest

abbrev length_if : ℕ → Option (ℕ × ℕ) → ℕ
length_if n none = 0
length_if n (some m) = if m.0 == n then m.1 else 0

-- The text with every marker of a number replaced, behind characters of a marker to be skipped.
unfoldable pub replace_marker : ℕ → Text → ℕ → Text → Text
replace_marker n a k [] = []
replace_marker n a (suc k) (c ∷ s) = replace_marker n a k s
replace_marker n a zero (c ∷ s) =
    let rest = replace_marker n a zero s in
    let behind = replace_marker n a (length_if n (marker s)) s in
    if c == b'%' && ltb 0 (length_if n (marker s)) then a ++ behind else c ∷ rest

abbrev replace_lowest : Option ℕ → Text → Text → Text
replace_lowest none s a = s
replace_lowest (some n) s a = replace_marker n a 0 s

unfoldable pub arg : Text → Text → Text
unfolding lowest replace_marker
arg s a = replace_lowest (lowest s) s a

lowest-append : (p s : Text) → has_char b'%' p ≡ false → lowest (p ++ s) ≡ lowest s
unfolding lowest has_char
lowest-append [] s h = refl
lowest-append (c ∷ p) s h = ground (arith, lowest-append p s)

replace_marker-append :
    (n : ℕ) (a p s : Text)
    → has_char b'%' p ≡ false
    → replace_marker n a 0 (p ++ s) ≡ p ++ replace_marker n a 0 s
unfolding replace_marker has_char
replace_marker-append n a [] s h = refl
replace_marker-append n a (c ∷ p) s h = ground (arith, replace_marker-append n a p s)

replace_lowest-append :
    (o : Option ℕ) (p s a : Text)
    → has_char b'%' p ≡ false
    → replace_lowest o (p ++ s) a ≡ p ++ replace_lowest o s a
replace_lowest-append none p s a h = refl
replace_lowest-append (some n) p s a h = replace_marker-append n a p s h

-- What stands before the markers stays, if it holds no per cent sign.
pub arg-append : (p s a : Text) → has_char b'%' p ≡ false → arg (p ++ s) a ≡ p ++ arg s a
unfolding arg
arg-append p s a h =
    ap (λ o. replace_lowest o (p ++ s) a) (lowest-append p s h)
    ∙ replace_lowest-append (lowest s) p s a h

-- `QString("%1:%2")` with two texts put in one after the other.
pub arg-pair : (s t : Text) → has_char b'%' s ≡ false → arg (arg (text "%1:%2") s) t ≡ s ++ b':' ∷ t
unfolding arg lowest replace_marker
arg-pair s t h = arg-append s (text ":%2") t h ∙ ap (λ x. s ++ b':' ∷ x) (append-nil t)
