-- ===== src/Modbus/Replies.antt =====
-- Whole exchanges: a request that is sent from a cleared receiver, and the reply to it.
use dbus_cgwacs.Prelude.{
  ℕ, ◌<◌, ◌≡◌, ◌≢◌, refl, sym, ap, ◌∙◌, true, List, [], ◌∷◌, ◌++◌, map, some, append_assoc, length,
  arith, ==_iff,
}
use dbus_cgwacs.Defines.{msb, lsb, to_uint16, to_uint16_at, to_uint16-msb-lsb}
use dbus_cgwacs.Crc16.{Crc16, reset, add_bytes, get_value, crc16}
use dbus_cgwacs.Crc16.Detection.{add_bytes-append}
use dbus_cgwacs.Modbus.Types.{
  write_single_register, crc_error, exception, Signal, read_completed, write_completed,
  error_received, Cmd, Request, ModbusRtu,
}
use dbus_cgwacs.Modbus.Engine.{
  is_exception, is_read, reset_state_engine, request_body, send, words_of, process_packet,
  finish_packet, handle_bytes,
}
use dbus_cgwacs.Modbus.Queue.{command_of, WellFormed, frames_of, outbox}
use dbus_cgwacs.Modbus.Traffic.{AsksSupported, finish_packet-keeps}
use dbus_cgwacs.Modbus.Frames.{
  awaiting, in_data, complete, handle_bytes-append, data_and_crc, read-not-exception,
}

-- The object after `q` has been sent while nothing else was going on.
abbrev pub asked : Cmd → ModbusRtu → ModbusRtu
asked q m = send (request_body q) (reset_state_engine m)

-- What follows a reply with the signal `s`: its slots run once, and the queue goes on.
pub record Completes {L : Type 0} (slots : L → Signal → L × List Request) (s : Signal) (l : L)
    (m : ModbusRtu) (r : L × ModbusRtu) : Type 0 where
  pub slots_ran : r.0 ≡ (slots l s).0
  pub well_formed : WellFormed r.1
  pub traffic : outbox r.1 ≡ outbox m ++ frames_of (map command_of (slots l s).1)

pub get_value-lt : (c : Crc16) → get_value c < 65536
unfolding get_value to_uint16
get_value-lt c = omega arith

pub crc16-lt : (bs : List ℕ) → crc16 bs < 65536
unfolding crc16
crc16-lt bs = get_value-lt (add_bytes reset bs)

-- A packet with the right CRC, by its function.
pub packet_read :
    (f start : ℕ) (c : Crc16) (bytes : List ℕ) (m : ModbusRtu)
    → is_read f ≡ true
    → process_packet (complete f start c (get_value c) bytes m)
      ≡ some (read_completed f m.current_slave (words_of bytes))
unfolding process_packet
packet_read f start c bytes m h =
    rw ((==_iff (get_value c) (get_value c)).1 refl, read-not-exception f h, h)

pub packet_write :
    (start value : ℕ) (c : Crc16) (m : ModbusRtu)
    → value < 65536
    → process_packet
        (complete write_single_register start c (get_value c) (msb value ∷ lsb value ∷ []) m)
      ≡ some (write_completed write_single_register m.current_slave start value)
unfolding process_packet to_uint16_at
packet_write start value c m h =
    rw ((==_iff (get_value c) (get_value c)).1 refl, to_uint16-msb-lsb value h)

pub packet_exception :
    (f start code : ℕ) (c : Crc16) (m : ModbusRtu)
    → is_exception f ≡ true
    → process_packet (complete f start c (get_value c) (code ∷ []) m)
      ≡ some (error_received exception m.current_slave code)
unfolding process_packet
packet_exception f start code c m h = rw ((==_iff (get_value c) (get_value c)).1 refl, h)

pub packet_damaged :
    (f start v : ℕ) (c : Crc16) (bytes : List ℕ) (m : ModbusRtu)
    → v ≢ get_value c
    → process_packet (complete f start c v bytes m)
      ≡ some (error_received crc_error m.current_slave 0)
unfolding process_packet
packet_damaged f start v c bytes m h = ground (arith, h)

module _ {L : Type 0} (slots : L → Signal → L × List Request) where
  completed :
      AsksSupported slots
      → (s : Signal) (l : L) (m : ModbusRtu) → WellFormed m
      → Completes slots s l m (finish_packet slots (some s) (l, m))
  unfolding finish_packet
  completed ask s l m w =
      let k = finish_packet-keeps slots ask (some s) l m w in
      record { slots_ran = refl; well_formed = k.0; traffic = k.1 }

  -- A reply of a header and data, followed by the two bytes of any CRC.
  reply_any_crc :
      (c0 : Crc16) (slave f start v b : ℕ) (header bs : List ℕ) (l : L) (m n : ModbusRtu)
      → v < 65536
      → handle_bytes slots header (l, awaiting slave c0 m)
        ≡ (l, in_data f start (length (b ∷ bs)) (add_bytes c0 header) [] n)
      → let c = add_bytes c0 (header ++ b ∷ bs) in
        handle_bytes slots ((header ++ b ∷ bs) ++ msb v ∷ lsb v ∷ []) (l, awaiting slave c0 m)
        ≡ finish_packet slots
            (process_packet (complete f start c v (b ∷ bs) n))
            (l, complete f start c v (b ∷ bs) n)
  reply_any_crc c0 slave f start v b header bs l m n h e =
      ap (λ bytes. handle_bytes slots bytes (l, awaiting slave c0 m))
        (append_assoc header (b ∷ bs) (msb v ∷ lsb v ∷ []))
      ∙ handle_bytes-append slots header ((b ∷ bs) ++ msb v ∷ lsb v ∷ []) (l, awaiting slave c0 m)
      ∙ ap (handle_bytes slots ((b ∷ bs) ++ msb v ∷ lsb v ∷ [])) e
      ∙ data_and_crc slots f start v b bs (add_bytes c0 header) l n h
      ∙ ap
          (λ c.
            finish_packet slots (process_packet (complete f start c v (b ∷ bs) n))
              (l, complete f start c v (b ∷ bs) n))
          (sym (add_bytes-append c0 header (b ∷ bs)))

  -- Such a reply leads to the signal of its packet, whatever that is.
  pub reply-Completes :
      AsksSupported slots
      → (c0 : Crc16) (slave f start v b : ℕ) (header bs : List ℕ) (s : Signal) (l : L)
        (m n : ModbusRtu)
      → v < 65536
      → handle_bytes slots header (l, awaiting slave c0 m)
        ≡ (l, in_data f start (length (b ∷ bs)) (add_bytes c0 header) [] n)
      → process_packet (complete f start (add_bytes c0 (header ++ b ∷ bs)) v (b ∷ bs) n) ≡ some s
      → WellFormed (awaiting slave c0 m)
      → (n.pending_commands ≡ m.pending_commands)
        × (n.sent ≡ m.sent)
        × (n.timer_running ≡ m.timer_running)
      → Completes slots s l m
          (handle_bytes slots ((header ++ b ∷ bs) ++ msb v ∷ lsb v ∷ []) (l, awaiting slave c0 m))
  reply-Completes ask c0 slave f start v b header bs s l m n h e p w (ep, es, et) =
      let done = complete f start (add_bytes c0 (header ++ b ∷ bs)) v (b ∷ bs) n in
      let path =
        reply_any_crc c0 slave f start v b header bs l m n h e
        ∙ ap (λ o. finish_packet slots o (l, done)) p in
      let w' : WellFormed done = record {
        timer_waits = et ∙ w.timer_waits;
        idle_empty = λ i. cc;
        supported = rw ep w.supported;
      } in
      let c = completed ask s l done w' in
      rw path (record {
        slots_ran = c.slots_ran;
        well_formed = c.well_formed;
        traffic = c.traffic ∙ rw (ep, es) refl;
      })
