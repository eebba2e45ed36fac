-- ===== src/Mediator/DeviceIds.antt =====
-- The serials that software/src/ac_sensor_mediator.cpp keeps in a setting.
use dbus_cgwacs.Prelude.{
  false, List, [], ◌∷◌, ◌++◌, if◌then◌else◌, ◌==◌, is_empty, ℕ, ◌≡◌, refl, sym, ap, ◌∙◌, arith, All,
  All-append, Bool-cases, inl, inr,
}
use dbus_cgwacs.Prelude.Text.{Text, has_char}
use dbus_cgwacs.Mediator.{
  comma, cons_first, split_all, skip_empty, split_ids, join, contains, KnownIds, known_ids,
  register, register_device,
}

-- A serial: a text with something in it and without a comma.
abbrev pub IsSerial : Text → Type 0
IsSerial s = (has_char comma s ≡ false) × (is_empty s ≡ false)

-- A set of serials, in the order of their arrival.
unfoldable pub insert : List Text → Text → List Text
unfolding contains
insert ids s = if contains s ids then ids else ids ++ s ∷ []

abbrev pub insert_all : List Text → List Text → List Text
insert_all ids [] = ids
insert_all ids (s ∷ ss) = insert_all (insert ids s) ss

abbrev pub register_all : List Text → KnownIds → KnownIds
register_all [] m = m
register_all (s ∷ ss) m = register_all ss (register_device s m)

cons_first-plain :
    (c : ℕ) (ps : List Text)
    → (c == comma) ≡ false
    → All (λ p. has_char comma p ≡ false) ps
    → All (λ p. has_char comma p ≡ false) (cons_first c ps)
unfolding has_char
cons_first-plain c [] h ps = (ground arith, tt)
cons_first-plain c (p ∷ ps) h hs = (ground arith, hs.1)

split_all-plain : (s : Text) → All (λ p. has_char comma p ≡ false) (split_all s)
unfolding split_all has_char
split_all-plain [] = (refl, tt)
split_all-plain (c ∷ s) = elim (Bool-cases (c == comma)) [
  | inl h ↦ rw h (refl, split_all-plain s)
  | inr h ↦ rw h (cons_first-plain c (split_all s) h (split_all-plain s))
]

skip_empty-serials :
    (ps : List Text) → All (λ p. has_char comma p ≡ false) ps → All IsSerial (skip_empty ps)
unfolding skip_empty
skip_empty-serials [] h = tt
skip_empty-serials ([] ∷ ps) h = skip_empty-serials ps h.1
skip_empty-serials ((c ∷ p) ∷ ps) h = ((h.0, refl), skip_empty-serials ps h.1)

split_ids-serials : (s : Text) → All IsSerial (split_ids s)
unfolding split_ids
split_ids-serials s = skip_empty-serials (split_all s) (split_all-plain s)

split_all-one : (s : Text) → has_char comma s ≡ false → split_all s ≡ s ∷ []
unfolding split_all has_char
split_all-one [] h = refl
split_all-one (c ∷ s) h = let r = split_all-one s (ground arith) in ground arith

split_all-first :
    (s t : Text) → has_char comma s ≡ false → split_all (s ++ comma ∷ t) ≡ s ∷ split_all t
unfolding split_all has_char
split_all-first [] t h = refl
split_all-first (c ∷ s) t h = let r = split_all-first s t (ground arith) in ground arith

split_all-join :
    (s : Text) (ss : List Text) → IsSerial s → All IsSerial ss → split_all (join (s ∷ ss)) ≡ s ∷ ss
unfolding join
split_all-join s [] h hs = split_all-one s h.0
split_all-join s (t ∷ ss) h hs =
    split_all-first s (join (t ∷ ss)) h.0 ∙ ap (λ r. s ∷ r) (split_all-join t ss hs.0 hs.1)

skip_empty-kept : (ss : List Text) → All IsSerial ss → skip_empty ss ≡ ss
unfolding skip_empty
skip_empty-kept [] h = refl
skip_empty-kept ([] ∷ ss) h = ground arith
skip_empty-kept ((c ∷ s) ∷ ss) h = ap (λ r. (c ∷ s) ∷ r) (skip_empty-kept ss h.1)

split_ids-join : (ss : List Text) → All IsSerial ss → split_ids (join ss) ≡ ss
unfolding split_ids join split_all skip_empty
split_ids-join [] h = refl
split_ids-join (s ∷ ss) h = ap skip_empty (split_all-join s ss h.0 h.1) ∙ skip_empty-kept (s ∷ ss) h

-- The setting holds what the mediator knows.
record IsStored (m : KnownIds) : Type 0 where
  pub same : split_ids m.device_ids_item ≡ known_ids m
  pub serials : All IsSerial (known_ids m)

stored_lem :
    (ids : List Text) (item : Text)
    → split_ids item ≡ ids
    → All IsSerial ids
    → IsStored (record { device_ids = ids; device_ids_item = item })
unfolding known_ids
stored_lem [] item e h = record { same = refl; serials = rw e tt }
stored_lem (s ∷ ss) item e h = record { same = e; serials = h }

registered :
    (ids : List Text) (s : Text) (m : KnownIds)
    → IsSerial s
    → split_ids m.device_ids_item ≡ ids
    → All IsSerial ids
    → (split_ids (register ids s m).device_ids_item ≡ insert ids s) × IsStored (register ids s m)
unfolding register insert
registered ids s m h e hs = elim (Bool-cases (contains s ids)) [
  | inl c ↦ rw c (e, stored_lem ids m.device_ids_item e hs)
  | inr c ↦
      (let more = All-append IsSerial ids (s ∷ []) hs (h, tt) in
        let j = split_ids-join (ids ++ s ∷ []) more in
        rw c (j, stored_lem (ids ++ s ∷ []) (join (ids ++ s ∷ [])) j more))
]

register_device-IsStored :
    (s : Text) (m : KnownIds)
    → IsSerial s
    → IsStored m
    → (split_ids (register_device s m).device_ids_item ≡ insert (split_ids m.device_ids_item) s)
      × IsStored (register_device s m)
unfolding register_device
register_device-IsStored s m h st =
    let r = registered (known_ids m) s m h st.same st.serials in
    let e = st.same in (r.0 ∙ ap (λ ids. insert ids s) (sym e), r.1)

register_all-IsStored :
    (ss : List Text) (m : KnownIds)
    → All IsSerial ss
    → IsStored m
    → split_ids (register_all ss m).device_ids_item ≡ insert_all (split_ids m.device_ids_item) ss
register_all-IsStored [] m h st = refl
register_all-IsStored (s ∷ ss) m h st =
    let r = register_device-IsStored s m h.0 st in
    register_all-IsStored ss (register_device s m) h.1 r.1 ∙ ap (λ ids. insert_all ids ss) r.0

-- The setting of the device ids is a set that outlives the program: whatever text it starts with, and
-- whichever serials a new mediator registers one after another, none empty and none with a comma, the
-- stored text reads back as the serials it held before, in their order, and behind them each new one,
-- once.
pub register_all-insert_all :
    (ss : List Text) (item : Text)
    → All IsSerial ss
    → split_ids
        (register_all ss (record { device_ids = []; device_ids_item = item })).device_ids_item
      ≡ insert_all (split_ids item) ss
unfolding known_ids
register_all-insert_all ss item h =
    register_all-IsStored ss (record { device_ids = []; device_ids_item = item }) h
      (record { same = refl; serials = split_ids-serials item })
