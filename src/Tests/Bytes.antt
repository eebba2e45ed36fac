-- ===== src/Tests/Bytes.antt =====
-- The CRC and the Modbus object on concrete frames. The slots here note each signal, and ask for
-- nothing.
use dbus_cgwacs.Prelude.{ℕ, ◌≡◌, refl, true, List, [], ◌∷◌, ◌++◌, arith, map, All}
use dbus_cgwacs.Defines.{to_uint16, msb, lsb}
use dbus_cgwacs.Crc16.{crc16, add_bytes, reset, add, get_value}
use dbus_cgwacs.Crc16.Reference.{reference_from, crc16-eq-reference}
use dbus_cgwacs.Crc16.Detection.{crc16_detects_two_bytes}
use dbus_cgwacs.Modbus.Types.{
  Signal, Request, Cmd, ModbusRtu, read_completed, write_completed, error_received, crc_error,
  exception, serial_event, write_single_register, read_registers_call,
}
use dbus_cgwacs.Modbus.Engine.{
  init, frame_of, handle_bytes, handle_byte_read, request_body, send, reset_state_engine, perform,
  is_idle, on_timeout,
}
use dbus_cgwacs.Modbus.Queue.{command_of, WellFormed, outbox, frames_of, init-WellFormed}
use dbus_cgwacs.Modbus.Runs.{
  Journal, blank, IsKnown, journalled, Run, here, next, byte, timer, call, Run-keeps, Run-IsKnown,
}
use dbus_cgwacs.Modbus.Traffic.{AsksSupported}
use dbus_cgwacs.Modbus.Drain.{timeouts_drain, timeouts}
use dbus_cgwacs.Modbus.Replies.{Completes, asked}
use dbus_cgwacs.Modbus.Exchange.{
  read_reply, write_reply, read_exchange, write_exchange, exception_exchange, damaged_exchange,
}
use dbus_cgwacs.Modbus.Noise.{stray_byte_spoils_reply}

abbrev note : List Signal → Signal → List Signal × List Request
note l g = (l ++ g ∷ [], [])

-- A read of two registers, and a write.
abbrev read_power : Cmd
read_power = record { function_code = 3; slave_address = 1; reg = 0x28; value = 2 }

abbrev write_application : Cmd
write_application = record { function_code = 6; slave_address = 1; reg = 0x1101; value = 7 }

crc16-eq-reference_example :
    let r = reference_from 0xFFFF (1 ∷ 3 ∷ 0 ∷ []) in
    crc16 (1 ∷ 3 ∷ 0 ∷ []) ≡ to_uint16 (lsb r) (msb r)
crc16-eq-reference_example = crc16-eq-reference (1 ∷ 3 ∷ 0 ∷ []) (ground arith)

abbrev crc_parts : ℕ × ℕ
crc_parts = (3, 4)

crc16_detects_example : (crc_parts.0 ≡ 3) × (crc_parts.1 ≡ 4)
crc16_detects_example =
    crc16_detects_two_bytes (1 ∷ []) (9 ∷ []) 3 4 3 4 (ground arith) (ground arith) (ground arith)
      refl

read_exchange_example :
    Completes note (read_completed 3 1 (2300 ∷ 0 ∷ [])) [] (asked read_power init) (
      handle_bytes note
        (frame_of (read_reply read_power (2300 ∷ 0 ∷ [])))
        ([], asked read_power init))
unfolding init
read_exchange_example =
    read_exchange note (λ l g. tt) read_power [] init tt 2300 (0 ∷ []) refl (omega arith)
      (ground arith)

write_exchange_example :
    Completes note
      (write_completed write_single_register 1 0x1101 7)
      []
      (asked write_application init)
      (handle_bytes note
        (frame_of (write_reply write_application))
        ([], asked write_application init))
unfolding init
write_exchange_example =
    write_exchange note (λ l g. tt) write_application [] init tt refl (omega arith) (omega arith)

exception_exchange_example :
    Completes note
      (error_received exception 1 2)
      []
      (asked read_power init)
      (handle_bytes note (frame_of (1 ∷ 0x83 ∷ 2 ∷ [])) ([], asked read_power init))
unfolding init
exception_exchange_example = exception_exchange note (λ l g. tt) read_power [] init tt 0x83 2 refl

damaged_exchange_example :
    Completes note (error_received crc_error 1 0) [] (asked read_power init) (
      handle_bytes note
        (read_reply read_power (5 ∷ []) ++ msb 0 ∷ lsb 0 ∷ [])
        ([], asked read_power init))
unfolding crc16 add_bytes add get_value to_uint16 reset init
damaged_exchange_example =
    damaged_exchange note (λ l g. tt) read_power [] init tt 5 0 [] refl (omega arith) (omega arith)
      (ground arith)

-- A slot that asks for another value whenever it hears of an error.
abbrev asking : List Signal → Signal → List Signal × List Request
asking l (error_received e slave code) =
    (l ++ error_received e slave code ∷ [], read_registers_call read_power ∷ [])
asking l g = (l ++ g ∷ [], [])

asking-AsksSupported : AsksSupported asking
asking-AsksSupported l (error_received e slave code) = (refl, tt)
asking-AsksSupported l (read_completed function slave values) = tt
asking-AsksSupported l (write_completed function slave reg value) = tt
asking-AsksSupported l (serial_event e) = tt

-- A request, and another one while the first is on its way, then a timeout and a byte.
abbrev asked_once : (List Signal × Journal) × ModbusRtu
asked_once = (
  ([], record blank { requests = read_registers_call read_power ∷ [] }),
  perform (read_registers_call read_power) init,
)

abbrev asked_twice : (List Signal × Journal) × ModbusRtu
asked_twice = (
  (
    [],
    record blank {
      requests = read_registers_call read_power ∷ read_registers_call read_power ∷ [];
    },
  ),
  perform (read_registers_call read_power) asked_once.1,
)

abbrev rung : (List Signal × Journal) × ModbusRtu
rung = on_timeout (journalled asking) asked_twice

asked-Run : Run asking (([], blank), init) (handle_byte_read (journalled asking) 1 rung)
asked-Run =
    next
      (next
        (next (next here (call (read_registers_call read_power) [] blank init refl))
          (call (read_registers_call read_power) [] asked_once.0.1 asked_once.1 refl))
        (timer asked_twice))
      (byte 1 rung)

Run-keeps_example :
    let t = handle_byte_read (journalled asking) 1 rung in
    WellFormed t.1 × (outbox t.1 ≡ outbox init ++ frames_of (map command_of t.0.1.requests))
Run-keeps_example = Run-keeps asking asking-AsksSupported [] init init-WellFormed asked-Run

Run-IsKnown_example : All IsKnown (handle_byte_read (journalled asking) 1 rung).0.1.signals
Run-IsKnown_example = Run-IsKnown asking [] init asked-Run

abbrev waiting : ModbusRtu
waiting = record (asked read_power init) { pending_commands = write_application ∷ [] }

waiting-WellFormed : WellFormed waiting
unfolding send reset_state_engine
waiting-WellFormed = record {
  timer_waits = refl;
  idle_empty = λ h. ground arith;
  supported = ground arith;
}

timeouts_drain_example :
    (is_idle (timeouts note 2 ([], waiting)).1.state ≡ true)
    × ((timeouts note 2 ([], waiting)).1.sent ≡ waiting.sent ++ frames_of (write_application ∷ []))
unfolding send
timeouts_drain_example = timeouts_drain note (λ l g. refl) [] waiting waiting-WellFormed refl

stray_byte_example :
    let s = handle_byte_read note 0xFF ([], reset_state_engine init) in
    let sent = send (request_body read_power) s.1 in
    Completes note
      (error_received crc_error 1 0)
      s.0
      sent
      (handle_bytes note (frame_of (read_reply read_power (5 ∷ []))) (s.0, sent))
unfolding init
stray_byte_example =
    stray_byte_spoils_reply note (λ l g. tt) read_power [] init 0xFF 5 [] tt (omega arith) refl
      (omega arith) (omega arith)
