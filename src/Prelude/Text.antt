-- ===== src/Prelude/Text.antt =====
-- Text as a list of code points, with the operations of `QString` that the program uses.
use Prim.Native.Nat.{ℕ}
use Prim.Native.Char.{code}
use Prim.Native.String.{String}
use mathlib.Core.Path.{◌≡◌, refl}
use mathlib.Core.Bool.{Bool, true, false, ◌&&◌}
use mathlib.Core.List.{List, [], ◌∷◌, ◌++◌}
use native.Mathlib.Omega.{arith}
use dbus_cgwacs.Prelude.Tests.{◌==◌, if◌then◌else◌}
use mathlib.Core.Logic.{◌↔◌}

abbrev pub Text : Type 0
Text = List ℕ

abbrev pub text : String → Text
text String.[] = []
text (String.◌∷◌ c s) = code c ∷ text s

abbrev pub text_eq : Text → Text → Bool
text_eq [] [] = true
text_eq [] (y ∷ ys) = false
text_eq (x ∷ xs) [] = false
text_eq (x ∷ xs) (y ∷ ys) = (x == y) && text_eq xs ys

pub text_eq_iff : (s t : Text) → (text_eq s t ≡ true) ↔ (s ≡ t)
text_eq_iff [] [] = (λ h. refl, λ h. refl)
text_eq_iff [] (y ∷ ys) = ground arith
text_eq_iff (x ∷ xs) [] = ground arith
text_eq_iff (x ∷ xs) (y ∷ ys) = ground (arith, text_eq_iff xs ys)

pub text_eq_refl : (s : Text) → text_eq s s ≡ true
text_eq_refl s = (text_eq_iff s s).1 refl

-- `split(":").first()` and `split(":").last()`: a text without the separator is its only part.
unfoldable pub first_part : ℕ → Text → Text
first_part sep [] = []
first_part sep (c ∷ s) = let rest = first_part sep s in if c == sep then [] else c ∷ rest

-- `last` is the part begun when a separator was seen, or the whole text.
unfoldable pub has_char : ℕ → Text → Bool
has_char sep [] = false
has_char sep (c ∷ s) = let rest = has_char sep s in if c == sep then true else rest

unfoldable pub last_part : ℕ → Text → Text
unfolding has_char
last_part sep [] = []
last_part sep (c ∷ s) =
    let rest = last_part sep s in
    if c == sep then rest else (if has_char sep s then rest else c ∷ s)

pub first_part-append :
    (sep : ℕ) (s t : Text) → has_char sep s ≡ false → first_part sep (s ++ sep ∷ t) ≡ s
unfolding first_part has_char
first_part-append sep [] t h = ground arith
first_part-append sep (c ∷ s) t h = ground (arith, first_part-append sep s t)

last_part-whole : (sep : ℕ) (s : Text) → has_char sep s ≡ false → last_part sep s ≡ s
unfolding last_part
last_part-whole sep [] h = refl
last_part-whole sep (c ∷ s) h = ground (arith, last_part-whole sep s)

pub has_char-append : (sep : ℕ) (s t : Text) → has_char sep (s ++ sep ∷ t) ≡ true
unfolding has_char
has_char-append sep [] t = ground arith
has_char-append sep (c ∷ s) t = ground (arith, has_char-append sep s t)

pub last_part-append :
    (sep : ℕ) (s t : Text) → has_char sep t ≡ false → last_part sep (s ++ sep ∷ t) ≡ t
unfolding last_part
last_part-append sep [] t h = ground (arith, last_part-whole sep t)
last_part-append sep (c ∷ s) t h = ground (arith, last_part-append sep s t, has_char-append sep s t)
