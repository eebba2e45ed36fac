-- ===== src/Mediator.antt =====
-- software/src/ac_sensor_mediator.h and software/src/ac_sensor_mediator.cpp: the setting with the
-- serials of all devices. The setting starts with the text that is stored.
pub mod DeviceIds
pub mod Services
pub mod Published
use dbus_cgwacs.Prelude.{
  Bool, true, false, ◌||◌, List, [], ◌∷◌, ◌++◌, if◌then◌else◌, ◌==◌, is_empty, ℕ,
}
use dbus_cgwacs.Prelude.Text.{Text, text_eq}

-- `split(',', SkipEmptyParts)`: all parts, less the empty ones.
abbrev pub comma : ℕ
comma = b','

abbrev pub cons_first : ℕ → List Text → List Text
cons_first c [] = (c ∷ []) ∷ []
cons_first c (p ∷ ps) = (c ∷ p) ∷ ps

unfoldable pub split_all : Text → List Text
split_all [] = [] ∷ []
split_all (c ∷ s) = let rest = split_all s in if c == comma then [] ∷ rest else cons_first c rest

unfoldable pub skip_empty : List Text → List Text
skip_empty [] = []
skip_empty (p ∷ ps) = let rest = skip_empty ps in if is_empty p then rest else p ∷ rest

unfoldable pub split_ids : Text → List Text
unfolding split_all skip_empty
split_ids s = skip_empty (split_all s)

-- `join(",")`
unfoldable pub join : List Text → Text
join [] = []
join (s ∷ []) = s
join (s ∷ t ∷ ss) = s ++ comma ∷ join (t ∷ ss)

unfoldable pub contains : Text → List Text → Bool
contains t [] = false
contains t (s ∷ ss) = text_eq s t || contains t ss

-- `device_ids_item` is the text of the setting.
pub record KnownIds : Type 0 where
  pub device_ids : List Text
  pub device_ids_item : Text

-- The list that `registerDevice` works on.
unfoldable pub known_ids : KnownIds → List Text
unfolding split_ids
known_ids m = if is_empty m.device_ids then split_ids m.device_ids_item else m.device_ids

unfoldable pub register : List Text → Text → KnownIds → KnownIds
unfolding contains join
register ids serial m =
    if contains serial ids
    then record m { device_ids = ids }
    else record { device_ids = ids ++ serial ∷ []; device_ids_item = join (ids ++ serial ∷ []) }

unfoldable pub register_device : Text → KnownIds → KnownIds
unfolding known_ids register
register_device serial m = register (known_ids m) serial m
