-- ===== src/Dbus/AddSetting.antt =====
-- `addSetting` of software/src/dbus_bridge.cpp: the group and the name of a setting in its path.
use dbus_cgwacs.Prelude.{
  ℕ, zero, suc, ◌+◌, ◌-◌, Bool, true, false, not, [], ◌∷◌, ◌++◌, Option, none, some, ◌==◌,
  if◌then◌else◌, ◌≡◌, refl, sym, ap, ◌∙◌, length-append, arith, length, drop, leb, append_assoc,
}
use dbus_cgwacs.Prelude.Text.{Text, text, text_eq, has_char}

-- `left`, `mid` and the two searches of `QString`.
abbrev pub left : ℕ → Text → Text
left zero s = []
left (suc n) [] = []
left (suc n) (c ∷ s) = c ∷ left n s

abbrev pub mid : Text → ℕ → ℕ → Text
mid s position n = left n (drop position s)

-- A place further on.
abbrev pub shift : ℕ → Option ℕ → Option ℕ
shift n none = none
shift n (some i) = some (n + i)

unfoldable pub index_of : ℕ → Text → Option ℕ
index_of sep [] = none
index_of sep (c ∷ s) = let rest = index_of sep s in if c == sep then some 0 else shift 1 rest

unfoldable pub last_index_of : ℕ → Text → Option ℕ
last_index_of sep [] = none
last_index_of sep (c ∷ s) = elim (shift 1 (last_index_of sep s)) [
  | some i ↦ some i
  | none ↦ if c == sep then some 0 else none
]

abbrev pub slash : ℕ
slash = 47

-- `path.startsWith('/') ? 1 : 0`
abbrev pub root_start : Text → ℕ
root_start [] = 0
root_start (c ∷ s) = if c == slash then 1 else 0

-- The group and the name between the two slashes, or an error.
abbrev pub names_between : Text → Option ℕ → Option ℕ → Option (Text × Text)
names_between path none last = none
names_between path (some group_start) none = none
names_between path (some group_start) (some name_start) =
    if leb name_start group_start
    then none
    else some
        (mid path (suc group_start) (name_start - group_start - 1), drop (suc name_start) path)

unfoldable pub setting_names : Text → Option (Text × Text)
unfolding index_of last_index_of
setting_names path =
    let start = root_start path in
    if not (text_eq (mid path start 8) (text "Settings"))
    then none
    else names_between path (shift start (index_of slash (drop start path)))
        (last_index_of slash path)

-- The types of a default value that a setting can have, and their letters.
pub data TypeId : Type 0 where
  int_type double_type string_type other_type : TypeId

abbrev pub type_letter : TypeId → Option ℕ
type_letter int_type = some 105
type_letter double_type = some 102
type_letter string_type = some 115
type_letter other_type = none

-- The call of `AddSetting`, or of `AddSilentSetting`.
pub record AddSettingCall (V : Type 0) : Type 0 where
  pub silent : Bool
  pub group : Text
  pub name : Text
  pub default_value : V
  pub type_code : ℕ
  pub min_value : V
  pub max_value : V

module _ {V : Type 0} (type_of : V → TypeId) where
  abbrev pub setting_call :
      V → V → V → Bool → Option (Text × Text) → Option ℕ → Option (AddSettingCall V)
  setting_call default min max silent none code = none
  setting_call default min max silent (some names) none = none
  setting_call default min max silent (some names) (some code) = some (record {
    silent = silent;
    group = names.0;
    name = names.1;
    default_value = default;
    type_code = code;
    min_value = min;
    max_value = max;
  })

  -- Without a producer there is no call either. The reply decides the result.
  unfoldable pub add_setting : Bool → Text → V → V → V → Bool → Option (AddSettingCall V)
  unfolding setting_names
  add_setting has_producer path default min max silent =
      if has_producer
      then setting_call default min max silent (setting_names path) (type_letter (type_of default))
      else none

drop-append : (s t : Text) → drop (length s) (s ++ t) ≡ t
drop-append [] t = refl
drop-append (c ∷ s) t = drop-append s t

-- What is behind a place in a text.
behind : (s t : Text) → drop (suc (length s)) (s ++ slash ∷ t) ≡ t
behind [] t = refl
behind (c ∷ s) t = behind s t

name_lem :
    (root group name : Text)
    → drop (suc (length root + suc (length group))) (root ++ slash ∷ (group ++ slash ∷ name)) ≡ name
name_lem root group name =
    let path = root ++ slash ∷ (group ++ slash ∷ name) in
    let front = root ++ slash ∷ group in
    ap (λ n. drop (suc n) path) (sym (length-append root (slash ∷ group)))
    ∙ (ap (drop (suc (length front))) (sym (append_assoc root (slash ∷ group) (slash ∷ name)))
        ∙ behind front name)

left-append : (s t : Text) → left (length s) (s ++ t) ≡ s
left-append [] t = refl
left-append (c ∷ s) t = ap (λ r. c ∷ r) (left-append s t)

index_of-append :
    (s t : Text) → has_char slash s ≡ false → index_of slash (s ++ slash ∷ t) ≡ some (length s)
unfolding index_of has_char
index_of-append [] t h = refl
index_of-append (c ∷ s) t h = let r = index_of-append s t (ground arith) in ground arith

last_index_of-none : (s : Text) → has_char slash s ≡ false → last_index_of slash s ≡ none
unfolding last_index_of has_char
last_index_of-none [] h = refl
last_index_of-none (c ∷ s) h = let r = last_index_of-none s (ground arith) in ground arith

last_index_of-append :
    (s t : Text) → has_char slash t ≡ false → last_index_of slash (s ++ slash ∷ t) ≡ some (length s)
unfolding last_index_of
last_index_of-append [] t h = let r = last_index_of-none t h in ground arith
last_index_of-append (c ∷ s) t h = let r = last_index_of-append s t h in ground arith

-- A path of a setting: it may start with a slash, and its first part starts with Settings.
abbrev pub settings_root : Bool → Text → Text
settings_root leading rest =
    if leading then slash ∷ (text "Settings" ++ rest) else text "Settings" ++ rest

abbrev pub settings_path : Bool → Text → Text → Text → Text
settings_path leading rest group name =
    settings_root leading rest ++ slash ∷ (group ++ slash ∷ name)

first_slash :
    (leading : Bool) (rest group name : Text)
    → has_char slash rest ≡ false
    → shift (root_start (settings_path leading rest group name)) (
        index_of slash (
          drop
            (root_start (settings_path leading rest group name))
            (settings_path leading rest group name)))
      ≡ some (length (settings_root leading rest))
unfolding has_char
first_slash true rest group name h =
    ap (shift 1) (index_of-append (text "Settings" ++ rest) (group ++ slash ∷ name) h)
    ∙ ap some (omega arith)
first_slash false rest group name h =
    ap (shift 0) (index_of-append (text "Settings" ++ rest) (group ++ slash ∷ name) h)
    ∙ ap some (omega arith)

last_slash :
    (root group name : Text)
    → has_char slash name ≡ false
    → last_index_of slash (root ++ slash ∷ (group ++ slash ∷ name))
      ≡ some (length root + suc (length group))
last_slash root group name h =
    ap (last_index_of slash) (sym (append_assoc root (slash ∷ group) (slash ∷ name)))
    ∙ (last_index_of-append (root ++ slash ∷ group) name h
        ∙ ap some (length-append root (slash ∷ group)))

names-parts :
    (root group name : Text)
    → names_between
        (root ++ slash ∷ (group ++ slash ∷ name))
        (some (length root))
        (some (length root + suc (length group)))
      ≡ some (group, name)
names-parts root group name =
    let k = length_lem (length root) (length group) in
    let g = behind root (group ++ slash ∷ name) in
    let l = left-append group (slash ∷ name) in
    let n = name_lem root group name in
    let b = leb_lem (length root) (length group) in rw (b, k, g, l, n) refl
  where
    leb_lem : (m n : ℕ) → leb (m + suc n) m ≡ false
    leb_lem m n = ground arith

    length_lem : (m n : ℕ) → m + suc n - m - 1 ≡ n
    length_lem m n = omega arith

starts :
    (leading : Bool) (rest group name : Text)
    → text_eq
        (mid
          (settings_path leading rest group name)
          (root_start (settings_path leading rest group name))
          8)
        (text "Settings")
      ≡ true
starts true rest group name = refl
starts false rest group name = refl

-- The path of a setting is taken apart where it was put together: a first part that starts with
-- Settings and has no slash, after a slash or not; a group, which may have slashes; and a name, which
-- has none.
pub setting_names-path :
    (leading : Bool) (rest group name : Text)
    → has_char slash rest ≡ false
    → has_char slash name ≡ false
    → setting_names (settings_path leading rest group name) ≡ some (group, name)
unfolding setting_names
setting_names-path leading rest group name r n =
    let root = settings_root leading rest in
    let a = starts leading rest group name in
    let f = first_slash leading rest group name r in
    let l = last_slash root group name n in
    rw (a, f, l, setting_names) (names-parts root group name)
