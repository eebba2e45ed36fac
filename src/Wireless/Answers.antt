-- ===== src/Wireless/Answers.antt =====
-- What a module of tools/hub4_wireless/src/drf1600.cpp makes of the bytes of a reply.
use dbus_cgwacs.Prelude.{
  ℕ, ◌<◌, ◌≤◌, ◌≡◌, refl, ◌⊎◌, inl, inr, Bool, true, false, List, [], ◌++◌, Option, none, some, ltb,
  length, arith, Bool-cases, get_elem?_total,
}
use dbus_cgwacs.Defines.{to_uint16}
use dbus_cgwacs.Wireless.Drf1600.{
  drf1600_incorrect_reply, Signal, Command, get_device_type, idle, read_pan_id_command,
  read_short_address_command, restart_command, set_baud_rate_command, set_device_type_command,
  test_baudrate_command, write_pan_id_command, baudrate_set, device_type_set, baudrate_tested,
  pan_id_read, pan_id_written, short_address_read, error_received, Drf1600, is_idle, on_ready_read,
  word_of, reply_signal, reset_state_engine, process_packet, map_word, with_state,
  device_type_signal, type_accepted, type_accepted,
}

-- The commands that a detector sends with a reply to come, and the length of that reply.
abbrev pub reply_length : Command → ℕ
reply_length get_device_type = 6
reply_length read_pan_id_command = 2
reply_length set_baud_rate_command = 6
reply_length set_device_type_command = 8
reply_length test_baudrate_command = 8
reply_length write_pan_id_command = 2
reply_length _ = 0

abbrev pub is_test : Command → Bool
is_test test_baudrate_command = true
is_test _ = false

-- The signals a command with a reply can lead to.
abbrev pub is_tested : Signal → Bool
is_tested (baudrate_tested v) = true
is_tested _ = false

abbrev pub is_short : Signal → Bool
is_short (short_address_read v) = true
is_short _ = false

pub record Answers (c : Command) (s : Signal) : Type 0 where
  pub not_short : is_short s ≡ false
  pub only_test : is_tested s ≡ true → is_test c ≡ true

word_of-total :
    (bytes : List ℕ) (i j : ℕ)
    → i < length bytes
    → j < length bytes
    → (w : ℕ) × (word_of bytes i j ≡ some w)
unfolding word_of
word_of-total bytes i j p q =
    let a = get_elem?_total bytes i p in
    let b = get_elem?_total bytes j q in
    (let e = a.1 in let f = b.1 in (to_uint16 a.0 b.0, rw (e, f, word_of) refl))

device_type_signal-Answers : (v : ℕ) → Answers get_device_type (device_type_signal v)
device_type_signal-Answers v = ground arith

answer :
    (c : Command) (bytes : List ℕ)
    → 0 < reply_length c
    → reply_length c ≤ length bytes
    → (s : Signal) × (reply_signal c bytes ≡ some (some s)) × Answers c s
unfolding reply_signal map_word
answer get_device_type bytes e l =
    let w = word_of-total bytes 0 2 (omega arith) (omega arith) in
    (device_type_signal w.0, (let e = w.1 in rw e), device_type_signal-Answers w.0)
answer read_pan_id_command bytes e l =
    let w = word_of-total bytes 0 1 (omega arith) (omega arith) in
    (pan_id_read w.0, (let e = w.1 in rw e), ground arith)
answer write_pan_id_command bytes e l =
    let w = word_of-total bytes 0 1 (omega arith) (omega arith) in
    (pan_id_written w.0, (let e = w.1 in rw e), ground arith)
answer test_baudrate_command bytes e l =
    let w = word_of-total bytes 6 7 (omega arith) (omega arith) in
    (baudrate_tested w.0, (let e = w.1 in rw e), ground arith)
answer set_baud_rate_command bytes e l = (baudrate_set, refl, ground arith)
answer set_device_type_command bytes e l = elim (Bool-cases (type_accepted bytes)) [
  | inl y ↦ (device_type_set, rw y, ground arith)
  | inr y ↦ (error_received drf1600_incorrect_reply, rw y, ground arith)
]
answer idle bytes e l = ground arith
answer restart_command bytes e l = ground arith
answer read_short_address_command bytes e l = ground arith

-- What the module does with the bytes of a reply: it waits on, or it is idle again and tells.
pub record IsReceived (p : Drf1600) (bytes : List ℕ) (x : Option (Drf1600 × Option Signal))
    : Type 0 where
  pub outcome :
      (x ≡ some (record p { available = p.available ++ bytes }, none))
      ⊎ ((s : Signal) × (x ≡ some (reset_state_engine (record p { available = [] }), some s))
          × Answers p.current_command s)

expects-busy : (c : Command) → 0 < reply_length c → is_idle c ≡ false
expects-busy c e = ground arith

pub received :
    (p : Drf1600) (bytes : List ℕ)
    → 0 < reply_length p.current_command
    → p.bytes_expected ≡ reply_length p.current_command
    → IsReceived p bytes (on_ready_read (record p { available = p.available ++ bytes }))
unfolding on_ready_read process_packet with_state
received p bytes e b =
    let busy = expects-busy p.current_command e in
    record {
      outcome = elim (Bool-cases (ltb (length (p.available ++ bytes)) p.bytes_expected)) [
        | inl short ↦ inl (rw (busy, short))
        | inr full ↦
            (let a = answer p.current_command (p.available ++ bytes) e (ground arith) in
              let r = a.1 in inr (a.0, rw (busy, full, r, with_state) refl, a.2))
      ];
    }
