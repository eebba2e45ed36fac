-- ===== src/Wireless/Drf1600.antt =====
-- tools/hub4_wireless/src/drf1600.h and tools/hub4_wireless/src/drf1600.cpp: one command at a time
-- to a module, and its reply. A read outside a reply is `none`. The pause before a command and the
-- errors of the port, which are only passed on, are not modelled.
use dbus_cgwacs.Prelude.{
  ℕ, ◌+◌, ◌%◌, Bool, true, false, ◌||◌, List, [], ◌∷◌, ◌++◌, Option, none, some, length, get_elem?,
  ltb, ◌==◌, if◌then◌else◌,
}
use dbus_cgwacs.Prelude.Text.{text_eq}
use dbus_cgwacs.Defines.{msb, lsb, to_uint16}

pub data ZigbeeDeviceType : Type 0 where
  zigbee_coordinator zigbee_router zigbee_end_point : ZigbeeDeviceType

pub data Drf1600Error : Type 0 where
  drf1600_timeout drf1600_incorrect_reply : Drf1600Error

pub data Command : Type 0 where
  get_device_type idle read_pan_id_command read_short_address_command : Command
  restart_command set_baud_rate_command set_device_type_command : Command
  test_baudrate_command write_pan_id_command : Command

pub data Signal : Type 0 where
  baudrate_set device_type_set : Signal
  baudrate_tested pan_id_read pan_id_written short_address_read : ℕ → Signal
  device_type_retrieved : ZigbeeDeviceType → Signal
  error_received : Drf1600Error → Signal

-- `available` are the bytes that wait in the serial port, `written` the frames that went out, one
-- for each command, its two writes joined.
pub record Drf1600 : Type 0 where
  pub current_command : Command
  pub bytes_expected : ℕ
  pub baud_rate : ℕ
  pub available : List ℕ
  pub timer_running : Bool
  pub written : List (List ℕ)

abbrev pub is_idle : Command → Bool
is_idle idle = true
is_idle _ = false

-- A new port works at 9600 baud.
unfoldable pub new_drf1600 : Drf1600
new_drf1600 = record {
  current_command = idle;
  bytes_expected = 0;
  baud_rate = 9600;
  available = [];
  timer_running = false;
  written = [];
}

unfoldable pub set_baud_rate : ℕ → Drf1600 → Drf1600
set_baud_rate r d = record d { baud_rate = r }

-- The loop of `send`, in a `quint8`.
unfoldable pub add_bytes : ℕ → List ℕ → ℕ
add_bytes total [] = total
add_bytes total (b ∷ bs) = add_bytes ((total + b) % 256) bs

unfoldable pub send : Command → ℕ → List ℕ → Drf1600 → Drf1600
unfolding add_bytes
send command expected buffer d = record d {
  current_command = if expected == 0 then idle else command;
  bytes_expected = expected;
  written = d.written ++ (buffer ++ add_bytes 0 buffer ∷ []) ∷ [];
  timer_running = if expected == 0 then d.timer_running else true;
}

unfoldable pub read_short_address : Drf1600 → Drf1600
unfolding send
read_short_address d =
    send read_short_address_command 2 (0xFC ∷ 0x00 ∷ 0x91 ∷ 0x04 ∷ 0xC4 ∷ 0xD4 ∷ []) d

unfoldable pub read_pan_id : Drf1600 → Drf1600
unfolding send
read_pan_id d = send read_pan_id_command 2 (0xFC ∷ 0x00 ∷ 0x91 ∷ 0x03 ∷ 0xA3 ∷ 0xB3 ∷ []) d

unfoldable pub write_pan_id : ℕ → Drf1600 → Drf1600
unfolding send
write_pan_id pan_id d =
    send write_pan_id_command 2 (0xFC ∷ 0x02 ∷ 0x91 ∷ 0x01 ∷ msb pan_id ∷ lsb pan_id ∷ []) d

abbrev pub baudrate_code : ℕ → ℕ
baudrate_code baudrate =
    if baudrate == 9600
    then 1
    else if baudrate == 19200
    then 2
    else if baudrate == 38400
    then 3
    else if baudrate == 57600
    then 4
    else if baudrate == 115200
    then 5
    else 0

unfoldable pub write_baudrate : ℕ → Drf1600 → Drf1600
unfolding send
write_baudrate baudrate d =
    send set_baud_rate_command 6 (0xFC ∷ 0x01 ∷ 0x91 ∷ 0x06 ∷ baudrate_code baudrate ∷ 0xF6 ∷ []) d

unfoldable pub read_device_type : Drf1600 → Drf1600
unfolding send
read_device_type d = send get_device_type 6 (0xFC ∷ 0x00 ∷ 0x91 ∷ 0x0B ∷ 0xCB ∷ 0xEB ∷ []) d

-- Another type than these two is an assertion, which a release build skips.
unfoldable pub write_device_type : ZigbeeDeviceType → Drf1600 → Drf1600
unfolding send
write_device_type zigbee_coordinator d =
    send set_device_type_command 8 (0xFC ∷ 0x00 ∷ 0x91 ∷ 0x09 ∷ 0xA9 ∷ 0xC9 ∷ []) d
write_device_type zigbee_router d =
    send set_device_type_command 8 (0xFC ∷ 0x00 ∷ 0x91 ∷ 0x0A ∷ 0xBA ∷ 0xDA ∷ []) d
write_device_type zigbee_end_point d = d

unfoldable pub restart : Drf1600 → Drf1600
unfolding send
restart d = send restart_command 0 (0xFC ∷ 0x00 ∷ 0x91 ∷ 0x87 ∷ 0x6A ∷ 0x35 ∷ []) d

unfoldable pub test_baudrate : Drf1600 → Drf1600
unfolding send
test_baudrate d = send test_baudrate_command 8 (0xFC ∷ 0x00 ∷ 0x91 ∷ 0x07 ∷ 0x97 ∷ 0xA7 ∷ []) d

unfoldable pub reset_state_engine : Drf1600 → Drf1600
reset_state_engine d = record d { current_command = idle; available = []; timer_running = false }

unfoldable pub on_timeout : Drf1600 → Drf1600 × Signal
unfolding reset_state_engine
on_timeout d = (reset_state_engine d, error_received drf1600_timeout)

-- `toUInt16(dataRead[i], dataRead[j])`
unfoldable pub word_of : List ℕ → ℕ → ℕ → Option ℕ
word_of bytes i j = elim (get_elem? bytes i) [
  | none ↦ none
  | some a ↦ elim (get_elem? bytes j) [ none ↦ none | some b ↦ some (to_uint16 a b) ]
]

unfoldable pub map_word : (ℕ → Signal) → Option ℕ → Option (Option Signal)
map_word g none = none
map_word g (some w) = some (some (g w))

-- A comparison of bytes, of lists of one length.
unfoldable pub check_reply : List ℕ → List ℕ → Bool
check_reply bytes buffer = text_eq bytes buffer

-- The two replies to the setting of a type.
unfoldable pub type_accepted : List ℕ → Bool
unfolding check_reply
type_accepted bytes =
    check_reply bytes (0x43 ∷ 0x6F ∷ 0x6F ∷ 0x72 ∷ 0x64 ∷ 0x3B ∷ 0x00 ∷ 0x19 ∷ [])
    || check_reply bytes (0x52 ∷ 0x6F ∷ 0x75 ∷ 0x74 ∷ 0x65 ∷ 0x3B ∷ 0x00 ∷ 0x19 ∷ [])

abbrev pub device_type_signal : ℕ → Signal
device_type_signal c =
    if c == 0x436F
    then device_type_retrieved zigbee_coordinator
    else if c == 0x5275
    then device_type_retrieved zigbee_router
    else error_received drf1600_incorrect_reply

-- The switch of `processPacket`: the signal that is emitted, if any.
unfoldable pub reply_signal : Command → List ℕ → Option (Option Signal)
unfolding word_of map_word type_accepted
reply_signal get_device_type bytes = map_word device_type_signal (word_of bytes 0 2)
reply_signal read_pan_id_command bytes = map_word pan_id_read (word_of bytes 0 1)
reply_signal read_short_address_command bytes = map_word short_address_read (word_of bytes 0 1)
reply_signal set_baud_rate_command bytes = some (some baudrate_set)
reply_signal set_device_type_command bytes =
    if type_accepted bytes
    then some (some device_type_set)
    else some (some (error_received drf1600_incorrect_reply))
reply_signal test_baudrate_command bytes = map_word baudrate_tested (word_of bytes 6 7)
reply_signal write_pan_id_command bytes = map_word pan_id_written (word_of bytes 0 1)
reply_signal restart_command bytes = some none
reply_signal idle bytes = some none

unfoldable pub with_state : Drf1600 → Option (Option Signal) → Option (Drf1600 × Option Signal)
with_state d none = none
with_state d (some s) = some (d, s)

unfoldable pub process_packet : List ℕ → Drf1600 → Option (Drf1600 × Option Signal)
unfolding reset_state_engine with_state reply_signal
process_packet bytes d = with_state (reset_state_engine d) (reply_signal d.current_command bytes)

unfoldable pub on_ready_read : Drf1600 → Option (Drf1600 × Option Signal)
unfolding process_packet
on_ready_read d =
    if is_idle d.current_command
    then some (record d { available = [] }, none)
    else if ltb (length d.available) d.bytes_expected
    then some (d, none)
    else process_packet d.available (record d { available = [] })
