-- ===== src/Modbus/Engine.antt =====
-- The operations of software/src/modbus_rtu.cpp. A signal runs the connected slots at once, inside
-- the emitting function: `slots` takes their state and a signal, and gives their new state and the
-- calls of `readRegisters` and `writeRegister` that they made.
use dbus_cgwacs.Prelude.{
  ℕ, ◌-◌, ◌*◌, ◌%◌, Bool, true, false, not, ◌&&◌, ◌||◌, List, [], ◌∷◌, ◌++◌, Option, none, some,
  bit_and, bit_or, get_or, length, is_empty, ltb, ◌==◌, if◌then◌else◌,
}
use dbus_cgwacs.Defines.{msb, lsb, to_uint16, to_uint16_at}
use dbus_cgwacs.Crc16.{reset, add, get_value, crc16}
use dbus_cgwacs.Modbus.Types.{
  read_holding_registers, read_input_registers, write_single_register, crc_error, timeout,
  exception, unsupported, read_failure, read_nothing, serial_error, Signal, read_completed,
  write_completed, error_received, serial_event, ReadState, idle, address, function, byte_count,
  start_address_msb, start_address_lsb, data_bytes, crc_msb, crc_lsb, Cmd, Request,
  read_registers_call, write_register_call, ModbusRtu, ReadResult, failed, received,
}

abbrev pub is_idle : ReadState → Bool
is_idle idle = true
is_idle _ = false

abbrev pub is_function : ReadState → Bool
is_function function = true
is_function _ = false

abbrev pub is_read : ℕ → Bool
is_read f = (f == read_holding_registers) || (f == read_input_registers)

-- `(mFunction & 0x80) != 0`
abbrev pub is_exception : ℕ → Bool
is_exception f = not (bit_and f 0x80 == 0)

unfoldable pub reset_state_engine : ModbusRtu → ModbusRtu
reset_state_engine m = record m {
  state = idle;
  crc_builder = reset;
  add_to_crc = true;
  current_slave = 0;
  received_data = [];
  timer_running = false;
}

unfoldable pub init : ModbusRtu
unfolding reset_state_engine
init = reset_state_engine (record {
  pending_commands = [];
  current_slave = 0;
  state = idle;
  function_code = 0;
  count = 0;
  start_address = 0;
  crc = 0;
  crc_builder = reset;
  add_to_crc = false;
  received_data = [];
  timer_running = false;
  sent = [];
})

-- The body that `_readRegisters` and `_writeRegister` build, the same in both.
abbrev pub request_body : Cmd → List ℕ
request_body c =
    c.slave_address ∷ c.function_code ∷ msb c.reg ∷ lsb c.reg ∷ msb c.value ∷ lsb c.value ∷ []

unfoldable pub frame_of : List ℕ → List ℕ
frame_of body = body ++ msb (crc16 body) ∷ lsb (crc16 body) ∷ []

unfoldable pub send : List ℕ → ModbusRtu → ModbusRtu
unfolding frame_of
send body m = record m {
  sent = m.sent ++ frame_of body ∷ [];
  timer_running = true;
  state = address;
  current_slave = get_or body 0 0;
}

unfoldable pub read_registers : Cmd → ModbusRtu → ModbusRtu
unfolding send
read_registers c m =
    if is_idle m.state
    then send (request_body c) m
    else record m { pending_commands = m.pending_commands ++ c ∷ [] }

unfoldable pub write_register : Cmd → ModbusRtu → ModbusRtu
unfolding send
write_register c m =
    if is_idle m.state
    then send (request_body c) m
    else record m { pending_commands = m.pending_commands ++ c ∷ [] }

-- `processPending`: a command of another function is dropped and nothing is sent.
unfoldable pub start_command : Cmd → ModbusRtu → ModbusRtu
unfolding send
start_command c m =
    if is_read c.function_code
    then send (request_body c) m
    else (if c.function_code == write_single_register then send (request_body c) m else m)

unfoldable pub process_pending_from : List Cmd → ModbusRtu → ModbusRtu
unfolding start_command
process_pending_from [] m = m
process_pending_from (c ∷ rest) m = record (start_command c m) { pending_commands = rest }

unfoldable pub process_pending : ModbusRtu → ModbusRtu
unfolding process_pending_from
process_pending m = process_pending_from m.pending_commands m

-- The loop over `mData`, two bytes at a time; behind the last byte stands a zero byte.
unfoldable pub words_of : List ℕ → List ℕ
words_of [] = []
words_of (a ∷ []) = to_uint16 a 0 ∷ []
words_of (a ∷ b ∷ rest) = to_uint16 a b ∷ words_of rest

-- `processPacket` emits at most one signal and changes nothing itself.
unfoldable pub process_packet : ModbusRtu → Option Signal
unfolding words_of
process_packet m =
    if not (m.crc == get_value m.crc_builder)
    then some (error_received crc_error m.current_slave 0)
    else if is_exception m.function_code
    then some (error_received exception m.current_slave (get_or m.received_data 0 0))
    else if is_function m.state
    then some (error_received unsupported m.current_slave m.function_code)
    else if is_read m.function_code
    then some (read_completed m.function_code m.current_slave (words_of m.received_data))
    else if m.function_code == write_single_register
    then some (
        write_completed m.function_code m.current_slave m.start_address
          (to_uint16_at m.received_data 0))
    else none

unfoldable pub perform : Request → ModbusRtu → ModbusRtu
unfolding read_registers write_register
perform (read_registers_call c) m = read_registers c m
perform (write_register_call c) m = write_register c m

unfoldable pub perform_all : List Request → ModbusRtu → ModbusRtu
unfolding perform
perform_all [] m = m
perform_all (r ∷ rs) m = perform_all rs (perform r m)

-- `handleByteRead` in every state but `CrcLsb`.
unfoldable pub take_byte : ReadState → ℕ → ModbusRtu → ModbusRtu
take_byte idle b m = m
take_byte address b m = if b == m.current_slave then record m { state = function } else m
take_byte function b m =
    if is_exception b
    then record m { function_code = b; count = 1; state = data_bytes }
    else if is_read b
    then record m { function_code = b; state = byte_count }
    else if b == write_single_register
    then record m { function_code = b; state = start_address_msb }
    else record m { function_code = b; state = address }
take_byte byte_count b m =
    if b == 0
    then record m { count = b; state = crc_msb; add_to_crc = false }
    else record m { count = b; state = data_bytes }
take_byte start_address_msb b m = record m {
  start_address = b * 256 % 65536;
  state = start_address_lsb;
}
take_byte start_address_lsb b m = record m {
  start_address = bit_or m.start_address b;
  count = 2;
  state = data_bytes;
}
take_byte data_bytes b m =
    let m' =
      if ltb 0 m.count
      then record m { received_data = m.received_data ++ b ∷ []; count = m.count - 1 }
      else m in
    if m'.count == 0 then record m' { state = crc_msb; add_to_crc = false } else m'
take_byte crc_msb b m = record m { crc = b * 256 % 65536; state = crc_lsb }
take_byte crc_lsb b m = record m { crc = bit_or m.crc b }

-- `if (mAddToCrc) mCrcBuilder.add(b)`, before the switch.
unfoldable pub count_in : ℕ → ModbusRtu → ModbusRtu
count_in b m = if m.add_to_crc then record m { crc_builder = add m.crc_builder b } else m

abbrev pub is_crc_lsb : ReadState → Bool
is_crc_lsb crc_lsb = true
is_crc_lsb _ = false

module _ {L : Type 0} (slots : L → Signal → L × List Request) where
  unfoldable pub emit : Signal → L × ModbusRtu → L × ModbusRtu
  unfolding perform_all
  emit signal (l, m) = let (l', calls) = slots l signal in (l', perform_all calls m)

  unfoldable pub emit_option : Option Signal → L × ModbusRtu → L × ModbusRtu
  unfolding emit
  emit_option none s = s
  emit_option (some signal) s = emit signal s

  unfoldable pub finish_packet : Option Signal → L × ModbusRtu → L × ModbusRtu
  unfolding emit_option reset_state_engine process_pending
  finish_packet signal s =
      let (l, m) = emit_option signal s in (l, process_pending (reset_state_engine m))

  unfoldable pub handle_byte_read : ℕ → L × ModbusRtu → L × ModbusRtu
  unfolding count_in take_byte finish_packet process_packet
  handle_byte_read b (l, m) =
      let m1 = count_in b m in
      let m2 = take_byte m1.state b m1 in
      if is_crc_lsb m1.state then finish_packet (process_packet m2) (l, m2) else (l, m2)

  unfoldable pub handle_bytes : List ℕ → L × ModbusRtu → L × ModbusRtu
  unfolding handle_byte_read
  handle_bytes [] s = s
  handle_bytes (b ∷ bs) s = handle_bytes bs (handle_byte_read b s)

  unfoldable pub on_timeout : L × ModbusRtu → L × ModbusRtu
  unfolding finish_packet
  on_timeout (l, m) =
      if is_idle m.state
      then (l, m)
      else finish_packet (some (error_received timeout m.current_slave 0)) (l, m)

  -- The loop of `onReadyRead` over what the calls of `read` give; a full buffer is 64 bytes.
  unfoldable pub ready_loop : Bool → List ReadResult → L × ModbusRtu → L × ModbusRtu
  unfolding emit handle_bytes
  ready_loop first [] s = s
  ready_loop first (failed ∷ rest) s = emit (serial_event read_failure) s
  ready_loop first (received bytes ∷ rest) s =
      let next = ready_loop false rest (handle_bytes bytes s) in
      if first && is_empty bytes
      then emit (serial_event read_nothing) s
      else (if ltb (length bytes) 64 then handle_bytes bytes s else next)

  unfoldable pub on_ready_read : List ReadResult → L × ModbusRtu → L × ModbusRtu
  unfolding ready_loop
  on_ready_read results s = ready_loop true results s

  unfoldable pub on_error : L × ModbusRtu → L × ModbusRtu
  unfolding emit
  on_error s = emit (serial_event serial_error) s
