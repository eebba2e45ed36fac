-- ===== src/Modbus/Types.antt =====
-- The types of software/src/modbus_rtu.h, and what the object exchanges with its surroundings.
use dbus_cgwacs.Prelude.{ℕ, Bool, List}
use dbus_cgwacs.Crc16.{Crc16}

-- The codes of `FunctionCode` that the program uses; a code from the line is any byte.
abbrev pub read_holding_registers : ℕ
read_holding_registers = 3

abbrev pub read_input_registers : ℕ
read_input_registers = 4

abbrev pub write_single_register : ℕ
write_single_register = 6

pub data ErrorType : Type 0 where
  crc_error timeout exception unsupported : ErrorType

-- The texts of `serialEvent`.
pub data SerialEvent : Type 0 where
  read_failure read_nothing serial_error : SerialEvent

pub data Signal : Type 0 where
  read_completed : ℕ → ℕ → List ℕ → Signal
  write_completed : ℕ → ℕ → ℕ → ℕ → Signal
  error_received : ErrorType → ℕ → ℕ → Signal
  serial_event : SerialEvent → Signal

pub data ReadState : Type 0 where
  idle address function byte_count start_address_msb start_address_lsb : ReadState
  data_bytes crc_msb crc_lsb : ReadState

pub record Cmd : Type 0 where
  pub function_code : ℕ
  pub slave_address : ℕ
  pub reg : ℕ
  pub value : ℕ

-- A call of `readRegisters` or `writeRegister`, as a slot of this object's signals makes it.
pub data Request : Type 0 where
  read_registers_call write_register_call : Cmd → Request

-- `sent` is what went to the serial port, a frame for each write, in order. `timer_running` is the
-- response timer; the pause before a frame is not modelled.
pub record ModbusRtu : Type 0 where
  pub pending_commands : List Cmd
  pub current_slave : ℕ
  pub state : ReadState
  pub function_code : ℕ
  pub count : ℕ
  pub start_address : ℕ
  pub crc : ℕ
  pub crc_builder : Crc16
  pub add_to_crc : Bool
  pub received_data : List ℕ
  pub timer_running : Bool
  pub sent : List (List ℕ)

-- What one call of `read` on the serial port gives.
pub data ReadResult : Type 0 where
  failed : ReadResult
  received : List ℕ → ReadResult
