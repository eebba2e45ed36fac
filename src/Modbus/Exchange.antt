-- ===== src/Modbus/Exchange.antt =====
-- A request and the reply of its slave: a read, a write, an exception, and a damaged reply.
use dbus_cgwacs.Prelude.{
  ℕ, suc, ◌<◌, ◌≡◌, ◌≢◌, refl, ap, ◌∙◌, true, List, [], ◌∷◌, ◌++◌, some, length, All,
}
use dbus_cgwacs.Defines.{msb, lsb}
use dbus_cgwacs.Crc16.{reset, add_bytes, crc16}
use dbus_cgwacs.Modbus.Types.{
  write_single_register, crc_error, exception, Signal, read_completed, write_completed,
  error_received, Cmd, Request, ModbusRtu,
}
use dbus_cgwacs.Modbus.Engine.{
  is_exception, is_read, reset_state_engine, frame_of, send, handle_bytes,
}
use dbus_cgwacs.Modbus.Queue.{IsSupported, WellFormed}
use dbus_cgwacs.Modbus.Traffic.{AsksSupported}
use dbus_cgwacs.Modbus.Frames.{
  bytes_of, words_of-bytes_of, read_header, write_header, exception_header,
}
use dbus_cgwacs.Modbus.Replies.{
  asked, Completes, crc16-lt, packet_read, packet_write, packet_exception, packet_damaged,
  reply-Completes,
}

-- The body of a reply to a read: the count is in bytes.
abbrev pub read_reply : Cmd → List ℕ → List ℕ
read_reply q ws = q.slave_address ∷ q.function_code ∷ length (bytes_of ws) ∷ bytes_of ws

-- A slave confirms a write by repeating the request.
abbrev pub write_reply : Cmd → List ℕ
write_reply q =
    q.slave_address ∷ write_single_register ∷ msb q.reg ∷ lsb q.reg ∷ msb q.value ∷ lsb q.value ∷ []

pub asked-WellFormed :
    (q : Cmd) (m : ModbusRtu) → All IsSupported m.pending_commands → WellFormed (asked q m)
unfolding send reset_state_engine
asked-WellFormed q m ok = record { timer_waits = refl; idle_empty = λ h. cc; supported = ok }

module _ {L : Type 0} (slots : L → Signal → L × List Request) (ask : AsksSupported slots) (q : Cmd)
    (l : L) (m : ModbusRtu) (queued : All IsSupported m.pending_commands) where
  abbrev asked_slave : ModbusRtu
  asked_slave = record (asked q m) { current_slave = q.slave_address }

  -- For every request to read, sent from a cleared receiver, and every list of 1 to 127 register
  -- values: the reply of the slave with these values, taken byte by byte, runs the slots of
  -- `readCompleted` once with exactly these values, and the queue goes on with the next command.
  pub read_exchange :
      (w : ℕ) (ws : List ℕ)
      → is_read q.function_code ≡ true
      → length (w ∷ ws) < 128
      → All (λ x. x < 65536) (w ∷ ws)
      → Completes slots
          (read_completed q.function_code q.slave_address (w ∷ ws))
          l
          (asked q m)
          (handle_bytes slots (frame_of (read_reply q (w ∷ ws))) (l, asked q m))
  unfolding send reset_state_engine frame_of crc16
  read_exchange w ws reads short words =
      reply-Completes slots ask reset q.slave_address q.function_code m.start_address
        (crc16 (read_reply q (w ∷ ws))) (msb w)
        (q.slave_address ∷ q.function_code ∷ length (bytes_of (w ∷ ws)) ∷ []) (lsb w ∷ bytes_of ws)
        (read_completed q.function_code q.slave_address (w ∷ ws)) l (asked q m) asked_slave
        (crc16-lt (read_reply q (w ∷ ws)))
        (read_header slots q.slave_address q.function_code (suc (length (bytes_of ws))) reset l
          (asked q m) reads)
        (packet_read q.function_code m.start_address (add_bytes reset (read_reply q (w ∷ ws)))
            (bytes_of (w ∷ ws)) asked_slave reads
          ∙ ap (λ xs. some (read_completed q.function_code q.slave_address xs))
              (words_of-bytes_of (w ∷ ws) words))
        (asked-WellFormed q m queued) (refl, refl, refl)

  -- For every request to write one register, sent from a cleared receiver: the reply that repeats
  -- the request runs the slots of `writeCompleted` once, with the register and the value written.
  pub write_exchange :
      q.function_code ≡ write_single_register
      → q.reg < 65536
      → q.value < 65536
      → Completes slots
          (write_completed write_single_register q.slave_address q.reg q.value)
          l
          (asked q m)
          (handle_bytes slots (frame_of (write_reply q)) (l, asked q m))
  unfolding send reset_state_engine frame_of crc16
  write_exchange writes reg_fits value_fits =
      reply-Completes slots ask reset q.slave_address write_single_register q.reg
        (crc16 (write_reply q)) (msb q.value)
        (q.slave_address ∷ write_single_register ∷ msb q.reg ∷ lsb q.reg ∷ []) (lsb q.value ∷ [])
        (write_completed write_single_register q.slave_address q.reg q.value) l (asked q m)
        asked_slave (crc16-lt (write_reply q))
        (write_header slots q.slave_address q.reg reset l (asked q m) reg_fits)
        (packet_write q.reg q.value (add_bytes reset (write_reply q)) asked_slave value_fits)
        (asked-WellFormed q m queued) (refl, refl, refl)

  -- For every request: the reply with the function's high bit set and an exception code runs the
  -- slots of `errorReceived` once, with the type `Exception` and this code.
  pub exception_exchange :
      (f code : ℕ)
      → is_exception f ≡ true
      → Completes slots
          (error_received exception q.slave_address code)
          l
          (asked q m)
          (handle_bytes slots (frame_of (q.slave_address ∷ f ∷ code ∷ [])) (l, asked q m))
  unfolding send reset_state_engine frame_of crc16
  exception_exchange f code high =
      reply-Completes slots ask reset q.slave_address f m.start_address
        (crc16 (q.slave_address ∷ f ∷ code ∷ [])) code (q.slave_address ∷ f ∷ []) []
        (error_received exception q.slave_address code) l (asked q m) asked_slave
        (crc16-lt (q.slave_address ∷ f ∷ code ∷ []))
        (exception_header slots q.slave_address f reset l (asked q m) high)
        (packet_exception f m.start_address code (add_bytes reset (q.slave_address ∷ f ∷ code ∷ []))
          asked_slave high)
        (asked-WellFormed q m queued) (refl, refl, refl)

  -- For every request to read: a reply whose two CRC bytes are not the CRC of the bytes before
  -- them runs the slots of `errorReceived` once, with the type `CrcError`, whatever its data are.
  pub damaged_exchange :
      (w v : ℕ) (ws : List ℕ)
      → is_read q.function_code ≡ true
      → length (w ∷ ws) < 128
      → v < 65536
      → v ≢ crc16 (read_reply q (w ∷ ws))
      → Completes slots
          (error_received crc_error q.slave_address 0)
          l
          (asked q m)
          (handle_bytes slots (read_reply q (w ∷ ws) ++ msb v ∷ lsb v ∷ []) (l, asked q m))
  unfolding send reset_state_engine crc16
  damaged_exchange w v ws reads short fits differs =
      reply-Completes slots ask reset q.slave_address q.function_code m.start_address v (msb w)
        (q.slave_address ∷ q.function_code ∷ length (bytes_of (w ∷ ws)) ∷ []) (lsb w ∷ bytes_of ws)
        (error_received crc_error q.slave_address 0) l (asked q m) asked_slave fits
        (read_header slots q.slave_address q.function_code (suc (length (bytes_of ws))) reset l
          (asked q m) reads)
        (packet_damaged q.function_code m.start_address v (add_bytes reset (read_reply q (w ∷ ws)))
          (bytes_of (w ∷ ws)) asked_slave differs)
        (asked-WellFormed q m queued) (refl, refl, refl)
