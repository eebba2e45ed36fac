-- ===== src/Modbus/Noise.antt =====
-- Bytes from the line that belong to no reply.
use dbus_cgwacs.Prelude.{
  ℕ, suc, ◌<◌, ◌≡◌, ◌≢◌, refl, sym, ap, Bool, true, not, ◌&&◌, List, [], ◌∷◌, length, All, arith,
  ◌==◌,
}
use dbus_cgwacs.Prelude.Bits.{all_below, all_below_sound}
use dbus_cgwacs.Defines.{msb, lsb}
use dbus_cgwacs.Crc16.{Crc16, reset, add, add_bytes, get_value, crc16}
use dbus_cgwacs.Crc16.Reference.{IsByteList, add-IsBytes, add_bytes-IsBytes, reset-IsBytes}
use dbus_cgwacs.Crc16.Detection.{add_bytes_injective, get_value_injective}
use dbus_cgwacs.Modbus.Types.{crc_error, Signal, error_received, Cmd, Request, ModbusRtu}
use dbus_cgwacs.Modbus.Engine.{
  is_read, reset_state_engine, request_body, frame_of, send, handle_byte_read, handle_bytes,
}
use dbus_cgwacs.Modbus.Queue.{IsSupported}
use dbus_cgwacs.Modbus.Traffic.{AsksSupported}
use dbus_cgwacs.Modbus.Frames.{bytes_of, length-bytes_of, read_header}
use dbus_cgwacs.Modbus.Replies.{Completes, crc16-lt, packet_damaged, reply-Completes}
use dbus_cgwacs.Modbus.Exchange.{read_reply}

is_start_value : Crc16 → Bool
is_start_value c = (c.crc_hi == 0xFF) && (c.crc_lo == 0xFF)

no_byte_restarts : all_below 256 (λ b. not (is_start_value (add reset b))) ≡ true
unfolding all_below is_start_value add reset
no_byte_restarts = refl

-- No byte leaves the CRC register at its start value.
add_reset_moves : (b : ℕ) → b < 256 → add reset b ≢ reset
unfolding is_start_value
add_reset_moves b h e = ground (
  arith,
  all_below_sound 256 (λ x. not (is_start_value (add reset x))) b no_byte_restarts h,
  ap (λ (c : Crc16). is_start_value c) e,
  start,
)
  where
    start : is_start_value reset ≡ true
    start = unfold reset in refl

-- The state after a byte has come in while nothing was expected.
abbrev pub disturbed : ℕ → ModbusRtu → ModbusRtu
disturbed b m = record (reset_state_engine m) { crc_builder = add reset b }

pub handle_byte_read-idle :
    {L : Type 0} (slots : L → Signal → L × List Request) (b : ℕ) (l : L) (m : ModbusRtu)
    → handle_byte_read slots b (l, reset_state_engine m) ≡ (l, disturbed b m)
unfolding handle_byte_read reset_state_engine
handle_byte_read-idle slots b l m = refl

bytes_of-IsByteList : (ws : List ℕ) → IsByteList (bytes_of ws)
bytes_of-IsByteList [] = tt
bytes_of-IsByteList (w ∷ ws) = (omega arith, (omega arith, bytes_of-IsByteList ws))

-- The CRC of a message that a stray byte precedes is another one.
stray_changes_crc :
    (b : ℕ) (body : List ℕ)
    → b < 256
    → IsByteList body
    → crc16 body ≢ get_value (add_bytes (add reset b) body)
unfolding crc16
stray_changes_crc b body hb h e =
    let stray = add-IsBytes reset b reset-IsBytes hb in
    add_reset_moves b hb (
      sym (
        add_bytes_injective reset (add reset b) body reset-IsBytes stray h (
          get_value_injective _ _ (add_bytes-IsBytes reset body reset-IsBytes h)
            (add_bytes-IsBytes (add reset b) body stray h) e)))

read_reply-IsByteList :
    (q : Cmd) (ws : List ℕ)
    → is_read q.function_code ≡ true
    → q.slave_address < 256
    → length ws < 128
    → IsByteList (read_reply q ws)
read_reply-IsByteList q ws reads slave_fits short =
    (slave_fits, (function_fits, (omega (arith, length-bytes_of ws), bytes_of-IsByteList ws)))
  where
    function_fits : q.function_code < 256
    function_fits = ground arith

spoiled :
    {L : Type 0} (slots : L → Signal → L × List Request) (ask : AsksSupported slots) (q : Cmd)
    (l : L) (m : ModbusRtu) (b w : ℕ) (ws : List ℕ)
    → All IsSupported m.pending_commands
    → is_read q.function_code ≡ true
    → crc16 (read_reply q (w ∷ ws)) ≢ get_value (add_bytes (add reset b) (read_reply q (w ∷ ws)))
    → let sent = send (request_body q) (disturbed b m) in
      Completes slots
        (error_received crc_error q.slave_address 0)
        l
        sent
        (handle_bytes slots (frame_of (read_reply q (w ∷ ws))) (l, sent))
unfolding frame_of send reset_state_engine
spoiled slots ask q l m b w ws queued reads differs =
    let sent = send (request_body q) (disturbed b m) in
    let slave : ModbusRtu = record sent { current_slave = q.slave_address } in
    let v = crc16 (read_reply q (w ∷ ws)) in
    reply-Completes slots ask (add reset b) q.slave_address q.function_code m.start_address v
      (msb w) (q.slave_address ∷ q.function_code ∷ length (bytes_of (w ∷ ws)) ∷ [])
      (lsb w ∷ bytes_of ws) (error_received crc_error q.slave_address 0) l sent slave
      (crc16-lt (read_reply q (w ∷ ws)))
      (read_header slots q.slave_address q.function_code (suc (length (bytes_of ws))) (add reset b)
        l sent reads)
      (packet_damaged q.function_code m.start_address v
        (add_bytes (add reset b) (read_reply q (w ∷ ws))) (bytes_of (w ∷ ws)) slave differs)
      (record { timer_waits = refl; idle_empty = λ h. cc; supported = queued }) (refl, refl, refl)

-- For every stray byte that comes in while no reply is awaited (the code says that it is ignored),
-- and every request to read that is then sent: the correct reply of the slave is reported as a
-- `CrcError`, since the byte was counted into the CRC and sending a request does not reset it.
pub stray_byte_spoils_reply :
    {L : Type 0} (slots : L → Signal → L × List Request) (ask : AsksSupported slots) (q : Cmd)
    (l : L) (m : ModbusRtu) (b w : ℕ) (ws : List ℕ)
    → All IsSupported m.pending_commands
    → b < 256
    → is_read q.function_code ≡ true
    → q.slave_address < 256
    → length (w ∷ ws) < 128
    → let s = handle_byte_read slots b (l, reset_state_engine m) in
      let sent = send (request_body q) s.1 in
      Completes slots
        (error_received crc_error q.slave_address 0)
        s.0
        sent
        (handle_bytes slots (frame_of (read_reply q (w ∷ ws))) (s.0, sent))
unfolding frame_of
stray_byte_spoils_reply slots ask q l m b w ws queued hb reads slave_fits short =
    rw (handle_byte_read-idle slots b l m) (
      spoiled slots ask q l m b w ws queued reads (
        stray_changes_crc b (read_reply q (w ∷ ws)) hb
          (read_reply-IsByteList q (w ∷ ws) reads slave_fits short)))
