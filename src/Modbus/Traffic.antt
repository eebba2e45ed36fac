-- ===== src/Modbus/Traffic.antt =====
-- What each event adds to the requests sent and queued.
use dbus_cgwacs.Prelude.{
  ℕ, ◌≡◌, refl, sym, ap, ◌∙◌, true, false, List, [], ◌∷◌, ◌++◌, map, Option, none, some,
  append_assoc, append-nil, All, arith, Bool-cases, inl, inr, if◌then◌else◌,
}
use dbus_cgwacs.Modbus.Types.{
  timeout, Signal, error_received, ReadState, idle, address, function, byte_count,
  start_address_msb, start_address_lsb, data_bytes, crc_msb, crc_lsb, Cmd, Request, ModbusRtu,
}
use dbus_cgwacs.Modbus.Engine.{
  is_idle, reset_state_engine, request_body, send, start_command, process_pending,
  process_pending_from, process_packet, perform_all, take_byte, count_in, is_crc_lsb, emit,
  emit_option, finish_packet, handle_byte_read, on_timeout,
}
use dbus_cgwacs.Modbus.Queue.{
  IsSupported, command_of, WellFormed, frames_of, outbox, perform_all-WellFormed,
  outbox-perform_all,
}

-- The tail of a finished exchange: forget the reply, and send the first command that waits.
abbrev pub restart : ModbusRtu → ModbusRtu
restart m = process_pending (reset_state_engine m)

pub start_command-supported :
    (c : Cmd) (m : ModbusRtu) → IsSupported c → start_command c m ≡ send (request_body c) m
unfolding start_command
start_command-supported c m ok = ground arith

restart_keeps :
    (cs : List Cmd) (m : ModbusRtu)
    → All IsSupported cs
    → m.pending_commands ≡ cs
    → is_idle m.state ≡ true
    → m.timer_running ≡ false
    → WellFormed (process_pending_from cs m)
      × (outbox (process_pending_from cs m) ≡ m.sent ++ frames_of cs)
unfolding process_pending_from send
restart_keeps [] m ok e idling off = (
  record { timer_waits = rw idling off; idle_empty = λ _. e; supported = rw e tt },
  ap (λ cs. m.sent ++ frames_of cs) e,
)
restart_keeps (c ∷ rest) m ok e idling off = rw (start_command-supported c m ok.0) (
  record { timer_waits = refl; idle_empty = λ h. cc; supported = ok.1 },
  append_assoc m.sent (frames_of (c ∷ [])) (frames_of rest),
)

restart-WellFormed : (m : ModbusRtu) → All IsSupported m.pending_commands → WellFormed (restart m)
unfolding process_pending reset_state_engine
restart-WellFormed m ok =
    (restart_keeps m.pending_commands (reset_state_engine m) ok refl refl refl).0

outbox-restart :
    (m : ModbusRtu) → All IsSupported m.pending_commands → outbox (restart m) ≡ outbox m
unfolding process_pending reset_state_engine
outbox-restart m ok = (restart_keeps m.pending_commands (reset_state_engine m) ok refl refl refl).1

-- A byte before the last one of a packet touches neither the queue nor the timer.
record SameTraffic (m n : ModbusRtu) : Type 0 where
  same_pending : m.pending_commands ≡ n.pending_commands
  same_sent : m.sent ≡ n.sent
  same_timer : m.timer_running ≡ n.timer_running
  same_idle : is_idle m.state ≡ is_idle n.state

take_byte-SameTraffic :
    (s : ReadState) (b : ℕ) (m : ModbusRtu) → m.state ≡ s → SameTraffic (take_byte s b m) m
unfolding take_byte
take_byte-SameTraffic idle b m e = ground arith
take_byte-SameTraffic address b m e = ground arith
take_byte-SameTraffic function b m e = ground arith
take_byte-SameTraffic byte_count b m e = ground arith
take_byte-SameTraffic start_address_msb b m e = ground arith
take_byte-SameTraffic start_address_lsb b m e = ground arith
take_byte-SameTraffic data_bytes b m e = ground arith
take_byte-SameTraffic crc_msb b m e = ground arith
take_byte-SameTraffic crc_lsb b m e = ground arith

count_in-SameTraffic : (b : ℕ) (m : ModbusRtu) → SameTraffic (count_in b m) m
unfolding count_in
count_in-SameTraffic b m = ground arith

SameTraffic-WellFormed : {m n : ModbusRtu} → SameTraffic m n → WellFormed n → WellFormed m
SameTraffic-WellFormed t w = record {
  timer_waits = rw (t.same_timer, t.same_idle) w.timer_waits;
  idle_empty = λ h. t.same_pending ∙ w.idle_empty (sym t.same_idle ∙ h);
  supported = rw t.same_pending w.supported;
}

-- What a byte makes of the receiver before any signal, and the signal that it leads to.
unfoldable pub after_byte : ℕ → ModbusRtu → ModbusRtu
after_byte b m = take_byte (count_in b m).state b (count_in b m)

unfoldable pub byte_signal : ℕ → ModbusRtu → Option Signal
unfolding after_byte
byte_signal b m = if is_crc_lsb (count_in b m).state then process_packet (after_byte b m) else none

after_byte-SameTraffic : (b : ℕ) (m : ModbusRtu) → SameTraffic (after_byte b m) m
unfolding after_byte
after_byte-SameTraffic b m =
    let t = take_byte-SameTraffic (count_in b m).state b (count_in b m) refl in
    let c = count_in-SameTraffic b m in
    record {
      same_pending = t.same_pending ∙ c.same_pending;
      same_sent = t.same_sent ∙ c.same_sent;
      same_timer = t.same_timer ∙ c.same_timer;
      same_idle = t.same_idle ∙ c.same_idle;
    }

outbox_same : {m n : ModbusRtu} → SameTraffic m n → outbox m ≡ outbox n
outbox_same t = ground (arith, t.same_pending, t.same_sent)

abbrev pub timeout_signal : ModbusRtu → Option Signal
timeout_signal m = if is_idle m.state then none else some (error_received timeout m.current_slave 0)

module _ {L : Type 0} (slots : L → Signal → L × List Request) where
  -- The calls of this object that the slots of a signal make.
  abbrev pub calls : Option Signal → L → List Request
  calls none l = []
  calls (some signal) l = (slots l signal).1

  -- The slots ask for the functions only that the object supports.
  abbrev pub AsksSupported : Type 0
  AsksSupported =
      (l : L) (signal : Signal) → All (λ r. IsSupported (command_of r)) (slots l signal).1

  -- What the slots of a signal make of their own state.
  abbrev pub told : Option Signal → L → L
  told none l = l
  told (some signal) l = (slots l signal).0

  finish_packet-told :
      (o : Option Signal) (l : L) (m : ModbusRtu) → (finish_packet slots o (l, m)).0 ≡ told o l
  unfolding finish_packet emit_option emit
  finish_packet-told none l m = refl
  finish_packet-told (some signal) l m = refl

  -- The slots hear of a signal only, of a byte or of the response timer.
  pub handle_byte_read-told :
      (b : ℕ) (l : L) (m : ModbusRtu)
      → (handle_byte_read slots b (l, m)).0 ≡ told (byte_signal b m) l
  unfolding handle_byte_read byte_signal after_byte
  handle_byte_read-told b l m = elim (Bool-cases (is_crc_lsb (count_in b m).state)) [
    | inl h ↦ rw h (finish_packet-told (process_packet (after_byte b m)) l (after_byte b m))
    | inr h ↦ rw h refl
  ]

  pub on_timeout-told :
      (l : L) (m : ModbusRtu) → (on_timeout slots (l, m)).0 ≡ told (timeout_signal m) l
  unfolding on_timeout
  on_timeout-told l m = elim (Bool-cases (is_idle m.state)) [
    | inl h ↦ rw h refl
    | inr h ↦ rw h (finish_packet-told (some (error_received timeout m.current_slave 0)) l m)
  ]

  emit_option-calls :
      (o : Option Signal) (l : L) (m : ModbusRtu)
      → (emit_option slots o (l, m)).1 ≡ perform_all (calls o l) m
  unfolding emit_option emit perform_all
  emit_option-calls none l m = refl
  emit_option-calls (some signal) l m = refl

  calls-IsSupported :
      AsksSupported
      → (o : Option Signal) (l : L) → All (λ r. IsSupported (command_of r)) (calls o l)
  calls-IsSupported ask none l = tt
  calls-IsSupported ask (some signal) l = ask l signal

  pub finish_packet-restart :
      (o : Option Signal) (l : L) (m : ModbusRtu)
      → (finish_packet slots o (l, m)).1 ≡ restart (perform_all (calls o l) m)
  unfolding finish_packet
  finish_packet-restart o l m = ap restart (emit_option-calls o l m)

  pub finish_packet-keeps :
      AsksSupported
      → (o : Option Signal) (l : L) (m : ModbusRtu) → WellFormed m
      → WellFormed (finish_packet slots o (l, m)).1
        × (outbox (finish_packet slots o (l, m)).1
            ≡ outbox m ++ frames_of (map command_of (calls o l)))
  finish_packet-keeps ask o l m w =
      let ok = calls-IsSupported ask o l in
      let w' = perform_all-WellFormed (calls o l) m ok w in
      rw (finish_packet-restart o l m) (
        restart-WellFormed (perform_all (calls o l) m) w'.supported,
        outbox-restart (perform_all (calls o l) m) w'.supported
            ∙ outbox-perform_all (calls o l) m ok w,
      )

  -- Every byte keeps the queue well formed, whatever the slots of a signal ask for.
  pub handle_byte_read-keeps :
      AsksSupported
      → (b : ℕ) (l : L) (m : ModbusRtu) → WellFormed m
      → WellFormed (handle_byte_read slots b (l, m)).1
        × (outbox (handle_byte_read slots b (l, m)).1
            ≡ outbox m ++ frames_of (map command_of (calls (byte_signal b m) l)))
  unfolding handle_byte_read byte_signal after_byte
  handle_byte_read-keeps ask b l m w =
      let t = after_byte-SameTraffic b m in
      let w' = SameTraffic-WellFormed t w in
      let same = outbox_same t in
      elim (Bool-cases (is_crc_lsb (count_in b m).state)) [
        | inl h ↦ rw h (
            let k =
              finish_packet-keeps ask (process_packet (after_byte b m)) l (after_byte b m) w' in
            (
              k.0,
              k.1
                  ∙ ap
                      (λ o.
                        o ++ frames_of (map command_of (calls (process_packet (after_byte b m)) l)))
                      same,
            ))
        | inr h ↦ rw h (w', same ∙ sym (append-nil (outbox m)))
      ]

  -- The response timer: nothing while idle; otherwise the error is reported for the slave that was
  -- asked, and what its slots ask for goes to the end of the queue.
  pub on_timeout-keeps :
      AsksSupported
      → (l : L) (m : ModbusRtu) → WellFormed m
      → WellFormed (on_timeout slots (l, m)).1
        × (outbox (on_timeout slots (l, m)).1
            ≡ outbox m ++ frames_of (map command_of (calls (timeout_signal m) l)))
  unfolding on_timeout
  on_timeout-keeps ask l m w = elim (Bool-cases (is_idle m.state)) [
    | inl h ↦ rw h (w, sym (append-nil (outbox m)))
    | inr h ↦ rw h (finish_packet-keeps ask (some (error_received timeout m.current_slave 0)) l m w)
  ]
