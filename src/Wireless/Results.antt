-- ===== src/Wireless/Results.antt =====
-- The text that tools/hub4_wireless/src/hub4_wireless.cpp shows when several ports are searched.
use dbus_cgwacs.Prelude.{
  ℕ, zero, suc, ◌≡◌, ◌<◌, ◌≤◌, refl, sym, ap, ◌∙◌, Bool, true, List, [], ◌∷◌, length, arith,
  if◌then◌else◌,
}
use dbus_cgwacs.Prelude.Text.{Text, text, text_eq_iff}
use dbus_cgwacs.Wireless.Drf1600.{zigbee_coordinator}
use dbus_cgwacs.Wireless.Detector.{Drf1600Detector}
use dbus_cgwacs.Wireless.Setup.{
  Hub4Wireless, SerialPortInfo, new_hub4_wireless, set_info, show_result, setup_finished,
  delete_later, delete_marked, return_to_loop, find_serial_ports, program, program_coordinator,
  on_coordinator_setup_finished,
}

-- The detectors that end in one turn of the event loop, each with its place and its result, and the
-- deletions that follow.
abbrev pub end_each : List (ℕ × Bool) → Hub4Wireless → Hub4Wireless
end_each [] h = h
end_each (f ∷ fs) h = end_each fs (on_coordinator_setup_finished f.0 f.1 h)

abbrev pub turn : List (ℕ × Bool) → Hub4Wireless → Hub4Wireless
turn fs h = return_to_loop (end_each fs h)

abbrev pub turns : List (List (ℕ × Bool)) → Hub4Wireless → Hub4Wireless
turns [] h = h
turns (fs ∷ ts) h = turns ts (turn fs h)

-- All detectors end, from a place on.
abbrev pub all_from : ℕ → List Bool → List (ℕ × Bool)
all_from i [] = []
all_from i (s ∷ ss) = (i, s) ∷ all_from (suc i) ss

detectors-show_result : (t : Text) (h : Hub4Wireless) → (show_result t h).detectors ≡ h.detectors
unfolding show_result set_info
detectors-show_result t h = ground arith

info-show_result-last :
    (t : Text) (h : Hub4Wireless) → length h.detectors ≡ 1 → (show_result t h).info ≡ t
unfolding show_result set_info
info-show_result-last t h e = ground (arith, text_eq_iff h.info t)

info-show_result-more :
    (t : Text) (h : Hub4Wireless) → 1 < length h.detectors → (show_result t h).info ≡ h.info
unfolding show_result
info-show_result-more t h e = ground arith

length-delete_later :
    (i : ℕ) (ds : List (Drf1600Detector × Bool)) → length (delete_later i ds) ≡ length ds
unfolding delete_later
length-delete_later i [] = refl
length-delete_later zero (d ∷ ds) = refl
length-delete_later (suc i) (d ∷ ds) = ap suc (length-delete_later i ds)

length-delete_marked : (ds : List (Drf1600Detector × Bool)) → length (delete_marked ds) ≤ length ds
unfolding delete_marked
length-delete_marked [] = omega arith
length-delete_marked (d ∷ ds) = ground (arith, length-delete_marked ds)

-- The slot marks a detector, and deletes none.
detectors-ended :
    (i : ℕ) (s : Bool) (h : Hub4Wireless)
    → (on_coordinator_setup_finished i s h).detectors ≡ delete_later i h.detectors
unfolding on_coordinator_setup_finished setup_finished
detectors-ended i s h =
    detectors-show_result (if s then text "CoordinatorOk" else text "CoordinatorFailed")
      (record h { detectors = delete_later i h.detectors })

length-ended :
    (i : ℕ) (s : Bool) (h : Hub4Wireless)
    → length (on_coordinator_setup_finished i s h).detectors ≡ length h.detectors
length-ended i s h = ap length (detectors-ended i s h) ∙ length-delete_later i h.detectors

info-ended :
    (i : ℕ) (s : Bool) (h : Hub4Wireless)
    → 1 < length h.detectors
    → (on_coordinator_setup_finished i s h).info ≡ h.info
unfolding on_coordinator_setup_finished setup_finished
info-ended i s h more =
    info-show_result-more _ (record h { detectors = delete_later i h.detectors })
      (let e = length-delete_later i h.detectors in omega arith)

length-end_each :
    (fs : List (ℕ × Bool)) (h : Hub4Wireless)
    → length (end_each fs h).detectors ≡ length h.detectors
length-end_each [] h = refl
length-end_each (f ∷ fs) h =
    length-end_each fs (on_coordinator_setup_finished f.0 f.1 h) ∙ length-ended f.0 f.1 h

-- Nothing is shown in a turn that begins with more than one detector.
info-end_each :
    (fs : List (ℕ × Bool)) (h : Hub4Wireless)
    → 1 < length h.detectors
    → (end_each fs h).info ≡ h.info
info-end_each [] h more = refl
info-end_each (f ∷ fs) h more =
    info-end_each fs (on_coordinator_setup_finished f.0 f.1 h)
      (let e = length-ended f.0 f.1 h in omega arith)
    ∙ info-ended f.0 f.1 h more

length-turn :
    (fs : List (ℕ × Bool)) (h : Hub4Wireless) → length (turn fs h).detectors ≤ length h.detectors
unfolding return_to_loop
length-turn fs h =
    let a = length-delete_marked (end_each fs h).detectors in
    let b = length-end_each fs h in omega arith

info-turn :
    (fs : List (ℕ × Bool)) (h : Hub4Wireless) → 1 < length h.detectors → (turn fs h).info ≡ h.info
unfolding return_to_loop
info-turn fs h more = info-end_each fs h more

length-turns :
    (ts : List (List (ℕ × Bool))) (h : Hub4Wireless)
    → length (turns ts h).detectors ≤ length h.detectors
length-turns [] h = omega arith
length-turns (fs ∷ ts) h =
    let a = length-turns ts (turn fs h) in let b = length-turn fs h in omega arith

info-turns :
    (ts : List (List (ℕ × Bool))) (h : Hub4Wireless)
    → 1 < length (turns ts h).detectors
    → (turns ts h).info ≡ h.info
info-turns [] h more = refl
info-turns (fs ∷ ts) h more =
    let a = length-turns ts (turn fs h) in
    let b = length-turn fs h in info-turns ts (turn fs h) more ∙ info-turn fs h (omega arith)

-- Marking all detectors from a place on.
abbrev mark_all : List (ℕ × Bool) → List (Drf1600Detector × Bool) → List (Drf1600Detector × Bool)
mark_all [] ds = ds
mark_all (f ∷ fs) ds = mark_all fs (delete_later f.0 ds)

mark_all-behind :
    (ss : List Bool) (i : ℕ) (d : Drf1600Detector × Bool) (ds : List (Drf1600Detector × Bool))
    → mark_all (all_from (suc i) ss) (d ∷ ds) ≡ d ∷ mark_all (all_from i ss) ds
unfolding delete_later
mark_all-behind [] i d ds = refl
mark_all-behind (s ∷ ss) i d ds = mark_all-behind ss (suc i) d (delete_later i ds)

delete_marked-mark_all :
    (ss : List Bool) (ds : List (Drf1600Detector × Bool))
    → length ss ≡ length ds
    → delete_marked (mark_all (all_from 0 ss) ds) ≡ []
unfolding delete_later delete_marked
delete_marked-mark_all [] [] e = refl
delete_marked-mark_all [] (d ∷ ds) e = ground arith
delete_marked-mark_all (s ∷ ss) [] e = ground arith
delete_marked-mark_all (s ∷ ss) (d ∷ ds) e =
    ap delete_marked (mark_all-behind ss 0 (d.0, true) ds)
    ∙ delete_marked-mark_all ss ds (omega arith)

detectors-end_each :
    (fs : List (ℕ × Bool)) (h : Hub4Wireless) → (end_each fs h).detectors ≡ mark_all fs h.detectors
detectors-end_each [] h = refl
detectors-end_each (f ∷ fs) h =
    detectors-end_each fs (on_coordinator_setup_finished f.0 f.1 h)
    ∙ ap (mark_all fs) (detectors-ended f.0 f.1 h)

abbrev pub coordinator_ports : List SerialPortInfo → List Text
coordinator_ports ports =
    find_serial_ports ports (text "Prolific") (text "Prolific USB-to-Serial Comm Port")

info-program :
    (t : Text) (ps : List Text)
    → 0 < length (program t zigbee_coordinator ps new_hub4_wireless).detectors
    → (program t zigbee_coordinator ps new_hub4_wireless).info ≡ text "Busy"
unfolding program set_info new_hub4_wireless
info-program t [] h = ground arith
info-program t (p ∷ ps) h = refl

-- What is shown when detectors with these results end in one turn, and nothing else is left.
abbrev pub shown : List Bool → Text
shown (s ∷ []) = if s then text "CoordinatorOk" else text "CoordinatorFailed"
shown _ = text "Busy"

module _ (ports : List SerialPortInfo) (ts : List (List (ℕ × Bool))) where
  abbrev before : Hub4Wireless
  before = turns ts (program_coordinator ports new_hub4_wireless)

  info-before : 1 < length before.detectors → before.info ≡ text "Busy"
  unfolding program_coordinator
  info-before more =
      let l = length-turns ts (program_coordinator ports new_hub4_wireless) in
      info-turns ts (program_coordinator ports new_hub4_wireless) more
      ∙ info-program (text "CoordinatorNotFound") (coordinator_ports ports) (omega arith)

  info-last :
      (ss : List Bool)
      → 0 < length before.detectors
      → length ss ≡ length before.detectors
      → (turn (all_from 0 ss) before).info ≡ shown ss
  unfolding return_to_loop on_coordinator_setup_finished setup_finished
  info-last [] left e = ground arith
  info-last (s ∷ []) left e =
      info-show_result-last (if s then text "CoordinatorOk" else text "CoordinatorFailed")
        (record before { detectors = delete_later 0 before.detectors })
        (length-delete_later 0 before.detectors ∙ sym e)
  info-last (s ∷ s' ∷ ss) left e =
      info-turn (all_from 0 (s ∷ s' ∷ ss)) before (omega (arith, e))
      ∙ info-before (omega (arith, e))

-- The coordinator is searched on any ports, and some detectors are left after any turns of the event
-- loop, whatever detectors ended in them and with which results. When all that are left end in one
-- turn, none is left after it. If it was a single one, its result is what is shown at the end; if
-- there were more, Busy is still shown, since a detector is a child until the turn is over.
pub program_coordinator-last :
    (ports : List SerialPortInfo) (ts : List (List (ℕ × Bool))) (ss : List Bool)
    → let h = turns ts (program_coordinator ports new_hub4_wireless) in
      0 < length h.detectors
      → length ss ≡ length h.detectors
      → let last = turn (all_from 0 ss) h in (last.detectors ≡ []) × (last.info ≡ shown ss)
unfolding return_to_loop
program_coordinator-last ports ts ss left e =
    let h = turns ts (program_coordinator ports new_hub4_wireless) in
    (
      ap delete_marked (detectors-end_each (all_from 0 ss) h)
          ∙ delete_marked-mark_all ss h.detectors e,
      info-last ports ts ss left e,
    )
