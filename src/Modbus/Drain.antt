-- ===== src/Modbus/Drain.antt =====
-- A line that never answers: the timeouts empty the queue.
use dbus_cgwacs.Prelude.{
  ℕ, zero, suc, ◌≡◌, refl, sym, ap, ◌∙◌, true, false, List, [], ◌∷◌, ◌++◌, some, append_assoc,
  append-nil, length, All,
}
use dbus_cgwacs.Modbus.Types.{timeout, Signal, error_received, Request, Cmd, ModbusRtu}
use dbus_cgwacs.Modbus.Engine.{
  is_idle, reset_state_engine, request_body, send, process_pending, process_pending_from,
  perform_all, on_timeout,
}
use dbus_cgwacs.Modbus.Queue.{IsSupported, WellFormed, frames_of}
use dbus_cgwacs.Modbus.Traffic.{restart, start_command-supported, finish_packet-restart}

restart_empty : (m : ModbusRtu) → m.pending_commands ≡ [] → restart m ≡ reset_state_engine m
unfolding process_pending process_pending_from reset_state_engine
restart_empty m e = ap (λ cs. process_pending_from cs (reset_state_engine m)) e

-- The state after the first command that waits has been sent.
abbrev first_sent : Cmd → List Cmd → ModbusRtu → ModbusRtu
first_sent c rest m = record (send (request_body c) (reset_state_engine m)) {
  pending_commands = rest;
}

restart_first :
    (c : Cmd) (rest : List Cmd) (m : ModbusRtu)
    → IsSupported c
    → m.pending_commands ≡ c ∷ rest
    → restart m ≡ first_sent c rest m
unfolding process_pending process_pending_from reset_state_engine
restart_first c rest m ok e =
    ap (λ cs. process_pending_from cs (reset_state_engine m)) e
    ∙ ap (λ (n : ModbusRtu). record n { pending_commands = rest })
        (start_command-supported c (reset_state_engine m) ok)

first_command_busy :
    (c : Cmd) (rest : List Cmd) (m : ModbusRtu) → is_idle (first_sent c rest m).state ≡ false
unfolding send
first_command_busy c rest m = refl

first_command_sent :
    (c : Cmd) (rest : List Cmd) (m : ModbusRtu)
    → (first_sent c rest m).sent ++ frames_of rest ≡ m.sent ++ frames_of (c ∷ rest)
unfolding send reset_state_engine
first_command_sent c rest m = append_assoc m.sent (frames_of (c ∷ [])) (frames_of rest)

module _ {L : Type 0} (slots : L → Signal → L × List Request) where
  unfoldable pub timeouts : ℕ → L × ModbusRtu → L × ModbusRtu
  timeouts zero s = s
  timeouts (suc n) s = timeouts n (on_timeout slots s)

  -- The slots ask for nothing.
  abbrev pub IsSilent : Type 0
  IsSilent = (l : L) (signal : Signal) → (slots l signal).1 ≡ []

  on_timeout-silent :
      IsSilent
      → (l : L) (m : ModbusRtu) → is_idle m.state ≡ false
      → (on_timeout slots (l, m)).1 ≡ restart m
  unfolding on_timeout perform_all
  on_timeout-silent quiet l m h = rw h (
      finish_packet-restart slots (some (error_received timeout m.current_slave 0)) l m
      ∙ ap (λ rs. restart (perform_all rs m)) (quiet l (error_received timeout m.current_slave 0)))

  drain_from :
      IsSilent
      → (cs : List Cmd) (l : L) (m : ModbusRtu) → All IsSupported cs
      → m.pending_commands ≡ cs
      → is_idle m.state ≡ false
      → (is_idle (timeouts (suc (length cs)) (l, m)).1.state ≡ true)
        × ((timeouts (suc (length cs)) (l, m)).1.sent ≡ m.sent ++ frames_of cs)
  unfolding timeouts reset_state_engine
  drain_from quiet [] l m ok e h =
      let t = on_timeout-silent quiet l m h ∙ restart_empty m e in
      (
        ap (λ (n : ModbusRtu). is_idle n.state) t,
        ap (λ (n : ModbusRtu). n.sent) t ∙ sym (append-nil m.sent),
      )
  drain_from quiet (c ∷ cs) l m ok e h =
      let t = on_timeout-silent quiet l m h ∙ restart_first c cs m ok.0 e in
      let rest =
        drain_from quiet cs (on_timeout slots (l, m)).0 (on_timeout slots (l, m)).1 ok.1
          (ap (λ (n : ModbusRtu). n.pending_commands) t)
          (ap (λ (n : ModbusRtu). is_idle n.state) t ∙ first_command_busy c cs m) in
      (
        rest.0,
        rest.1 ∙ ap (λ (n : ModbusRtu). n.sent ++ frames_of cs) t ∙ first_command_sent c cs m,
      )

  -- With a line that never answers and slots that ask for nothing, an object that awaits a reply
  -- while n commands wait is idle after n + 1 timeouts, and has sent each command once, in order.
  pub timeouts_drain :
      IsSilent
      → (l : L) (m : ModbusRtu) → WellFormed m
      → is_idle m.state ≡ false
      → let t = (timeouts (suc (length m.pending_commands)) (l, m)).1 in
        (is_idle t.state ≡ true) × (t.sent ≡ m.sent ++ frames_of m.pending_commands)
  timeouts_drain quiet l m w h = drain_from quiet m.pending_commands l m w.supported refl h
