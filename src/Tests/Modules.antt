-- ===== src/Tests/Modules.antt =====
-- The Zigbee tool at concrete events, ports and messages.
use dbus_cgwacs.Prelude.{
  ◌≡◌, refl, sym, true, false, List, [], ◌∷◌, ◌++◌, some, arith, length, All, ℕ,
}
use dbus_cgwacs.Prelude.Text.{Text, text}
use dbus_cgwacs.Defines.{to_uint16}
use dbus_cgwacs.Wireless.Drf1600.{zigbee_coordinator, zigbee_router, read_pan_id_command}
use dbus_cgwacs.Wireless.Detector.{
  Drf1600Detector, Event, bytes_event, timeout_event, timer_event, handle_all, start, new_detector,
  choose_device_type, choose_pan_id, set_adjust_settings, default_pan_id,
}
use dbus_cgwacs.Wireless.Waiting.{IsWaiting, search-IsWaiting}
use dbus_cgwacs.Wireless.Endings.{silence, configured, told, silent-told}
use dbus_cgwacs.Wireless.Rounds.{greeting, rounds, opening, round_frames, IsJoined, joined-told}
use dbus_cgwacs.Wireless.ComTest
use dbus_cgwacs.Wireless.Setup
use dbus_cgwacs.Wireless.Setup.{
  SerialPortInfo, Hub4Wireless, new_hub4_wireless, program_coordinator,
}
use dbus_cgwacs.Wireless.Results.{turn, turns, all_from, program_coordinator-last}

-- A timeout, a new try, and the version of the module.
abbrev some_events : List Event
some_events =
    timeout_event
    ∷ timer_event
    ∷ bytes_event (1 ∷ 2 ∷ 3 ∷ [])
    ∷ bytes_event (4 ∷ 5 ∷ 6 ∷ 7 ∷ 8 ∷ [])
    ∷ []

search-IsWaiting_example :
    (d : Drf1600Detector) × (handle_all some_events (
        start (
          set_adjust_settings true
            (choose_pan_id 0x199B (choose_device_type zigbee_coordinator new_detector))))
      ≡ some d)
    × IsWaiting d
search-IsWaiting_example = search-IsWaiting zigbee_coordinator true 0x199B some_events refl

silent-told_example :
    (d : Drf1600Detector) × (handle_all (silence 10) (start (configured zigbee_router true 0x199B))
      ≡ some d)
    × (d.finished ≡ told 10)
silent-told_example = silent-told zigbee_router true 0x199B 10

abbrev joined_ids : List (ℕ × ℕ)
joined_ids = (0x19, 0x9B) ∷ (0xFF, 0xFF) ∷ []

joined_ids-IsJoined : IsJoined joined_ids
unfolding to_uint16
joined_ids-IsJoined = (omega arith, (omega arith, tt))

joined-told_example :
    (d : Drf1600Detector) × (handle_all
        (greeting ++ rounds joined_ids)
        (start (configured zigbee_router true default_pan_id))
      ≡ some d)
    × (d.finished ≡ [])
    × (d.drf1600.current_command ≡ read_pan_id_command)
    × (d.drf1600.written ≡ opening ++ round_frames joined_ids)
joined-told_example = joined-told joined_ids joined_ids-IsJoined

-- Five timeouts, and a reply.
abbrev test_events : List ComTest.Event
test_events =
    ComTest.timer_event
    ∷ ComTest.timer_event
    ∷ ComTest.timer_event
    ∷ ComTest.timer_event
    ∷ ComTest.timer_event
    ∷ ComTest.port2_event (text "Ping")
    ∷ ComTest.port1_event (text "Pong")
    ∷ []

start-never_fails_example :
    All
      (λ b. b ≡ true)
      (ComTest.handle_all test_events (ComTest.start ComTest.new_com_test)).finished
start-never_fails_example = ComTest.start-never_fails test_events

-- Two adapters, and a port of another kind. The second detector finds its module first.
abbrev adapter : Text → SerialPortInfo
adapter name = record {
  port_name = name;
  description = text "Prolific USB-to-Serial Comm Port";
  manufacturer = text "Prolific";
}

abbrev some_ports : List SerialPortInfo
some_ports =
    adapter (text "COM1")
    ∷ record { port_name = text "COM2"; description = []; manufacturer = text "FTDI" }
    ∷ adapter (text "COM3")
    ∷ []

-- Nothing ends in the first turn, and both detectors in the second one.
abbrev waited : Hub4Wireless
waited = turns ([] ∷ []) (program_coordinator some_ports new_hub4_wireless)

length-waited : length waited.detectors ≡ 2
unfolding program_coordinator Setup.program Setup.find_serial_ports Setup.set_info
    Setup.return_to_loop Setup.delete_marked new_hub4_wireless
length-waited = refl

program_coordinator-last_example :
    let last = turn (all_from 0 (true ∷ false ∷ [])) waited in
    (last.detectors ≡ []) × (last.info ≡ text "Busy")
program_coordinator-last_example =
    program_coordinator-last some_ports ([] ∷ []) (true ∷ false ∷ [])
      (let e = length-waited in omega arith) (sym length-waited)
