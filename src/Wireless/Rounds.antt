-- ===== src/Wireless/Rounds.antt =====
-- A search of tools/hub4_wireless/src/drf1600_detector.cpp that does not end: a router whose module
-- has already joined a network.
use dbus_cgwacs.Prelude.{
  ℕ, ◌≡◌, ◌≢◌, refl, sym, ap, ◌∙◌, true, false, List, [], ◌∷◌, ◌++◌, none, some, ◌==◌, arith, All,
  append_assoc, append-nil,
}
use dbus_cgwacs.Defines.{to_uint16}
use dbus_cgwacs.Wireless.Drf1600.{
  ZigbeeDeviceType, zigbee_router, read_pan_id_command, write_pan_id_command, Drf1600,
  on_ready_read, word_of,
}
use dbus_cgwacs.Wireless.Drf1600
use dbus_cgwacs.Wireless.Detector.{
  get_pan_id, set_pan_id, Drf1600Detector, Event, bytes_event, timeout_event, timer_event, handle,
  handle_all, new_detector, choose_device_type, choose_pan_id, set_adjust_settings, start,
}
use dbus_cgwacs.Wireless.Detector
use dbus_cgwacs.Wireless.Endings.{configured, step_lem}

-- A router that adjusts its module and waits for its PAN ID.
abbrev reading : List (List ℕ) → Drf1600Detector
reading written = record {
  drf1600 = record {
    current_command = read_pan_id_command;
    bytes_expected = 2;
    baud_rate = 9600;
    available = [];
    timer_running = true;
    written = written;
  };
  timer = none;
  retry_count = Detector.retries;
  state = get_pan_id;
  device_type = zigbee_router;
  adjust = true;
  pan_id = Detector.default_pan_id;
  finished = [];
}

-- The replies of a router module: its version, and its type.
abbrev version_reply : List ℕ
version_reply = 0 ∷ 0 ∷ 0 ∷ 0 ∷ 0 ∷ 0 ∷ 0 ∷ 1 ∷ []

abbrev type_reply : List ℕ
type_reply = 0x52 ∷ 0x6F ∷ 0x75 ∷ 0x74 ∷ 0x65 ∷ 0x3B ∷ []

abbrev pub greeting : List Event
greeting = bytes_event version_reply ∷ bytes_event type_reply ∷ []

-- A module that answers the question for its PAN ID with `id`, accepts the one that is written, and
-- restarts.
abbrev pub round : ℕ × ℕ → List Event → List Event
round id es =
    bytes_event (id.0 ∷ id.1 ∷ []) ∷ bytes_event (0xFF ∷ 0xFF ∷ []) ∷ timer_event ∷ (greeting ++ es)

abbrev pub rounds : List (ℕ × ℕ) → List Event
rounds [] = []
rounds (id ∷ ids) = round id (rounds ids)

abbrev pub IsJoined : List (ℕ × ℕ) → Type 0
IsJoined ids = All (λ id. to_uint16 id.0 id.1 ≢ 0xFFFE) ids

-- The frame that writes the PAN ID, and the frames up to the next question for it.
abbrev pub pan_frame : List ℕ
pan_frame = 0xFC ∷ 0x02 ∷ 0x91 ∷ 0x01 ∷ 0xFF ∷ 0xFF ∷ 0x8E ∷ []

abbrev writing : List (List ℕ) → Drf1600Detector
writing w = record (reading w) {
  drf1600 = record (reading w).drf1600 { current_command = write_pan_id_command };
  state = set_pan_id;
}

-- The frames of a new start: the test of the baud rate, and the questions for the type and for the
-- PAN ID.
abbrev pub opening : List (List ℕ)
opening =
    (0xFC ∷ 0x00 ∷ 0x91 ∷ 0x07 ∷ 0x97 ∷ 0xA7 ∷ 0xD2 ∷ [])
    ∷ (0xFC ∷ 0x00 ∷ 0x91 ∷ 0x0B ∷ 0xCB ∷ 0xEB ∷ 0x4E ∷ [])
    ∷ (0xFC ∷ 0x00 ∷ 0x91 ∷ 0x03 ∷ 0xA3 ∷ 0xB3 ∷ 0xE6 ∷ [])
    ∷ []

abbrev pub restart_frame : List ℕ
restart_frame = 0xFC ∷ 0x00 ∷ 0x91 ∷ 0x87 ∷ 0x6A ∷ 0x35 ∷ 0xB3 ∷ []

-- The frames of the rounds, one after another.
abbrev pub round_frames : List (ℕ × ℕ) → List (List ℕ)
round_frames [] = []
round_frames (id ∷ ids) = pan_frame ∷ restart_frame ∷ (opening ++ round_frames ids)

abbrev opened : List (List ℕ) → List (List ℕ)
opened w =
    ((w ++ (0xFC ∷ 0x00 ∷ 0x91 ∷ 0x07 ∷ 0x97 ∷ 0xA7 ∷ 0xD2 ∷ []) ∷ [])
      ++ (0xFC ∷ 0x00 ∷ 0x91 ∷ 0x0B ∷ 0xCB ∷ 0xEB ∷ 0x4E ∷ []) ∷ [])
    ++ (0xFC ∷ 0x00 ∷ 0x91 ∷ 0x03 ∷ 0xA3 ∷ 0xB3 ∷ 0xE6 ∷ []) ∷ []

opened_lem : (w : List (List ℕ)) → opened w ≡ w ++ opening
opened_lem w =
    ap (λ v. v ++ (0xFC ∷ 0x00 ∷ 0x91 ∷ 0x03 ∷ 0xA3 ∷ 0xB3 ∷ 0xE6 ∷ []) ∷ []) (append_assoc w _ _)
    ∙ append_assoc w _ _

round_lem :
    (w rest : List (List ℕ))
    → opened ((w ++ pan_frame ∷ []) ++ restart_frame ∷ []) ++ rest
      ≡ w ++ pan_frame ∷ restart_frame ∷ (opening ++ rest)
round_lem w rest =
    ap (λ v. v ++ rest) (opened_lem ((w ++ pan_frame ∷ []) ++ restart_frame ∷ []))
    ∙ append_assoc ((w ++ pan_frame ∷ []) ++ restart_frame ∷ []) opening rest
    ∙ append_assoc (w ++ pan_frame ∷ []) (restart_frame ∷ []) (opening ++ rest)
    ∙ append_assoc w (pan_frame ∷ []) (restart_frame ∷ (opening ++ rest))

not_equal : (a b : ℕ) → a ≢ b → (a == b) ≡ false
not_equal a b h = ground arith

found :
    (id : ℕ × ℕ) (w : List (List ℕ))
    → to_uint16 id.0 id.1 ≢ 0xFFFE
    → handle (bytes_event (id.0 ∷ id.1 ∷ [])) (reading w) ≡ some (writing (w ++ pan_frame ∷ []))
unfolding handle Drf1600.on_ready_read Drf1600.process_packet Drf1600.with_state
    Drf1600.reply_signal word_of Drf1600.map_word Drf1600.reset_state_engine
    Detector.on_pan_id_found Detector.after_read Drf1600.write_pan_id
found (a, b) w h = let e = not_equal (to_uint16 a b) 0xFFFE h in rw e refl

back :
    (es : List Event) (w : List (List ℕ))
    → handle_all (bytes_event (0xFF ∷ 0xFF ∷ []) ∷ timer_event ∷ (greeting ++ es)) (writing w)
      ≡ handle_all es (reading (opened (w ++ restart_frame ∷ [])))
unfolding handle_all handle Drf1600.on_ready_read Drf1600.process_packet Drf1600.with_state
    Drf1600.reply_signal word_of Drf1600.map_word Drf1600.reset_state_engine Detector.after_read
    Detector.react_option Detector.restart Detector.ring Detector.on_timer to_uint16
    Detector.on_type_found Detector.on_baudrate_ok Drf1600.test_baudrate Drf1600.read_device_type
    Drf1600.read_pan_id Drf1600.set_baud_rate
back es w = refl

rounds-told :
    (ids : List (ℕ × ℕ)) (w : List (List ℕ))
    → IsJoined ids
    → handle_all (rounds ids) (reading w) ≡ some (reading (w ++ round_frames ids))
unfolding handle_all
rounds-told [] w j = ap (λ v. some (reading v)) (sym (append-nil w))
rounds-told (id ∷ ids) w j =
    let v = opened ((w ++ pan_frame ∷ []) ++ restart_frame ∷ []) in
    step_lem (bytes_event (id.0 ∷ id.1 ∷ []))
      (bytes_event (0xFF ∷ 0xFF ∷ []) ∷ timer_event ∷ (greeting ++ rounds ids)) (reading w)
      (writing (w ++ pan_frame ∷ [])) (found id w j.0)
    ∙ back (rounds ids) (w ++ pan_frame ∷ [])
    ∙ rounds-told ids v j.1
    ∙ ap (λ x. some (reading x)) (round_lem w (round_frames ids))

-- A router that is set up, and whose module answers every question but always names a network it has
-- joined, never tells a result. It writes the three frames of a start and then, in each round, the
-- PAN ID 0xFFFF, the restart and the three frames of a start again, the last of which asks for the
-- PAN ID; and nothing else.
pub joined-told :
    (ids : List (ℕ × ℕ))
    → IsJoined ids
    → (d : Drf1600Detector) × (handle_all
          (greeting ++ rounds ids)
          (start (configured zigbee_router true Detector.default_pan_id))
        ≡ some d)
      × (d.finished ≡ [])
      × (d.drf1600.current_command ≡ read_pan_id_command)
      × (d.drf1600.written ≡ opening ++ round_frames ids)
unfolding start set_adjust_settings choose_pan_id choose_device_type new_detector
    Drf1600.new_drf1600 handle_all handle Drf1600.on_ready_read Drf1600.process_packet
    Drf1600.with_state Drf1600.reply_signal word_of Drf1600.map_word Drf1600.reset_state_engine
    Detector.after_read Detector.react_option Detector.restart Detector.ring Detector.on_timer
    to_uint16 Detector.on_type_found Detector.on_baudrate_ok Drf1600.test_baudrate
    Drf1600.read_device_type Drf1600.read_pan_id Drf1600.set_baud_rate
joined-told ids j =
    (reading (opening ++ round_frames ids), rounds-told ids opening j, refl, refl, refl)
