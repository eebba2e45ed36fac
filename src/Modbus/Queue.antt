-- ===== src/Modbus/Queue.antt =====
-- The queue of requests: what holds between two events, and what a request adds.
use dbus_cgwacs.Prelude.{
  ℕ, ◌≡◌, refl, sym, ap, ◌∙◌, true, false, not, ◌||◌, List, [], ◌∷◌, ◌++◌, map, append_assoc,
  append-nil, All, All-append, ◌==◌, Bool-cases, inl, inr,
}
use dbus_cgwacs.Modbus.Types.{
  Cmd, Request, read_registers_call, write_register_call, ModbusRtu, write_single_register,
}
use dbus_cgwacs.Modbus.Engine.{
  is_idle, is_read, init, request_body, frame_of, send, perform, perform_all,
}

-- The functions that `processPending` sends.
abbrev pub IsSupported : Cmd → Type 0
IsSupported c = (is_read c.function_code || (c.function_code == write_single_register)) ≡ true

abbrev pub command_of : Request → Cmd
command_of (read_registers_call c) = c
command_of (write_register_call c) = c

-- The timer runs exactly while a reply is awaited; a queue is kept only then.
pub record WellFormed (m : ModbusRtu) : Type 0 where
  pub timer_waits : m.timer_running ≡ not (is_idle m.state)
  pub idle_empty : is_idle m.state ≡ true → m.pending_commands ≡ []
  pub supported : All IsSupported m.pending_commands

abbrev pub frames_of : List Cmd → List (List ℕ)
frames_of cs = map (λ c. frame_of (request_body c)) cs

-- What has been sent and what is queued, in order.
abbrev pub outbox : ModbusRtu → List (List ℕ)
outbox m = m.sent ++ frames_of m.pending_commands

pub frames_of-append : (xs ys : List Cmd) → frames_of (xs ++ ys) ≡ frames_of xs ++ frames_of ys
frames_of-append [] ys = refl
frames_of-append (x ∷ xs) ys = ap (◌∷◌ (frame_of (request_body x))) (frames_of-append xs ys)

pub init-WellFormed : WellFormed init
unfolding init
init-WellFormed = record { timer_waits = refl; idle_empty = λ _. refl; supported = tt }

-- A request while idle goes out at once; another waits at the end of the queue.
perform-idle :
    (r : Request) (m : ModbusRtu)
    → is_idle m.state ≡ true
    → perform r m ≡ send (request_body (command_of r)) m
unfolding perform
perform-idle (read_registers_call c) m h = rw h
perform-idle (write_register_call c) m h = rw h

perform-busy :
    (r : Request) (m : ModbusRtu)
    → is_idle m.state ≡ false
    → perform r m ≡ record m { pending_commands = m.pending_commands ++ command_of r ∷ [] }
unfolding perform
perform-busy (read_registers_call c) m h = rw h
perform-busy (write_register_call c) m h = rw h

pub perform-WellFormed :
    (r : Request) (m : ModbusRtu)
    → IsSupported (command_of r)
    → WellFormed m
    → WellFormed (perform r m)
unfolding send
perform-WellFormed r m ok w = elim (Bool-cases (is_idle m.state)) [
  | inl h ↦
      rw (perform-idle r m h)
        (record { timer_waits = refl; idle_empty = λ e. cc; supported = w.supported })
  | inr h ↦ rw (perform-busy r m h) (record {
    timer_waits = w.timer_waits;
    idle_empty = λ e. cc;
    supported = All-append IsSupported m.pending_commands _ w.supported (ok, tt);
  })
]

pub outbox-perform :
    (r : Request) (m : ModbusRtu)
    → WellFormed m
    → outbox (perform r m) ≡ outbox m ++ frames_of (command_of r ∷ [])
unfolding send
outbox-perform r m w = elim (Bool-cases (is_idle m.state)) [
  | inl h ↦ rw (perform-idle r m h) (rw (w.idle_empty h) (simp (append-nil)))
  | inr h ↦
      rw (perform-busy r m h)
        (ap (◌++◌ m.sent) (frames_of-append m.pending_commands _) ∙ sym (append_assoc m.sent _ _))
]

pub perform_all-WellFormed :
    (rs : List Request) (m : ModbusRtu)
    → All (λ r. IsSupported (command_of r)) rs
    → WellFormed m
    → WellFormed (perform_all rs m)
unfolding perform_all
perform_all-WellFormed [] m ok w = w
perform_all-WellFormed (r ∷ rs) m ok w =
    perform_all-WellFormed rs (perform r m) ok.1 (perform-WellFormed r m ok.0 w)

pub outbox-perform_all :
    (rs : List Request) (m : ModbusRtu)
    → All (λ r. IsSupported (command_of r)) rs
    → WellFormed m
    → outbox (perform_all rs m) ≡ outbox m ++ frames_of (map command_of rs)
unfolding perform_all
outbox-perform_all [] m ok w = sym (append-nil (outbox m))
outbox-perform_all (r ∷ rs) m ok w =
    outbox-perform_all rs (perform r m) ok.1 (perform-WellFormed r m ok.0 w)
    ∙ ap (λ o. o ++ frames_of (map command_of rs)) (outbox-perform r m w)
    ∙ append_assoc (outbox m) (frames_of (command_of r ∷ [])) (frames_of (map command_of rs))
