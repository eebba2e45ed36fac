-- ===== src/Modbus/Runs.antt =====
-- Runs of software/src/modbus_rtu.cpp: bytes from the line, response timeouts and calls from outside,
-- with slots that record the signals they hear of and the requests they make.
use dbus_cgwacs.Prelude.{
  ℕ, ◌≡◌, ◌≢◌, refl, sym, ap, ◌∙◌, List, [], ◌∷◌, ◌++◌, map, Option, none, some, append_assoc,
  append-nil, All, All-append, arith,
}
use dbus_cgwacs.Modbus.Types.{unsupported, Signal, error_received, Cmd, Request, ModbusRtu}
use dbus_cgwacs.Modbus.Engine.{take_byte, process_packet, perform, handle_byte_read, on_timeout}
use dbus_cgwacs.Modbus.Queue.{
  IsSupported, command_of, WellFormed, frames_of, outbox, perform-WellFormed, outbox-perform,
  frames_of-append,
}
use dbus_cgwacs.Modbus.Traffic.{
  AsksSupported, byte_signal, timeout_signal, calls, told, handle_byte_read-keeps,
  handle_byte_read-told, on_timeout-keeps, on_timeout-told,
}

-- What has come out of the object, and what has been asked of it.
pub record Journal : Type 0 where
  pub signals : List Signal
  pub requests : List Request

abbrev pub blank : Journal
blank = record { signals = []; requests = [] }

-- The requests of a journal as commands.
abbrev pub commands : Journal → List Cmd
commands j = map command_of j.requests

map-append :
    (rs ts : List Request) → map command_of (rs ++ ts) ≡ map command_of rs ++ map command_of ts
map-append [] ts = refl
map-append (r ∷ rs) ts = ap (λ cs. command_of r ∷ cs) (map-append rs ts)

-- That no signal reports an unsupported function.
abbrev pub IsKnown : Signal → Type 0
IsKnown g = (slave code : ℕ) → g ≢ error_received unsupported slave code

module _ {L : Type 0} (slots : L → Signal → L × List Request) where
  -- The slots, with a journal of the signals they hear of and the requests they make in turn.
  abbrev pub journalled : L × Journal → Signal → (L × Journal) × List Request
  journalled s signal =
      let (l, requests) = slots s.0 signal in
      (
        (l, record { signals = s.1.signals ++ signal ∷ []; requests = s.1.requests ++ requests }),
        requests,
      )

  -- The events of the object: a byte from the line, its timer, and a call from outside its signals,
  -- which the journal holds too.
  pub data Step : (L × Journal) × ModbusRtu → (L × Journal) × ModbusRtu → Type 0 where
    byte : (b : ℕ) (s : (L × Journal) × ModbusRtu) → Step s (handle_byte_read journalled b s)
    timer : (s : (L × Journal) × ModbusRtu) → Step s (on_timeout journalled s)
    call :
        (r : Request) (l : L) (j : Journal) (m : ModbusRtu)
        → IsSupported (command_of r)
        → Step ((l, j), m) ((l, record j { requests = j.requests ++ r ∷ [] }), perform r m)

  pub data Run (s : (L × Journal) × ModbusRtu) : (L × Journal) × ModbusRtu → Type 0 where
    here : Run s s
    next : {t u : (L × Journal) × ModbusRtu} → Run s t → Step t u → Run s u

  -- The journal holds what the object still has to send, and has sent, since it sent `start`.
  abbrev IsKept : List (List ℕ) → (L × Journal) × ModbusRtu → Type 0
  IsKept start s = outbox s.1 ≡ start ++ frames_of (commands s.0.1)

  told-commands :
      (o : Option Signal) (s : L × Journal)
      → commands (told journalled o s).1 ≡ commands s.1 ++ map command_of (calls journalled o s)
  told-commands none s = sym (append-nil (commands s.1))
  told-commands (some g) s = map-append s.1.requests (slots s.0 g).1

  told-IsKept :
      (o : Option Signal) (start : List (List ℕ)) (l l' : L × Journal) (m m' : ModbusRtu)
      → IsKept start (l, m)
      → l' ≡ told journalled o l
      → outbox m' ≡ outbox m ++ frames_of (map command_of (calls journalled o l))
      → IsKept start (l', m')
  told-IsKept o start l l' m m' kept e f =
      let new = map command_of (calls journalled o l) in
      f
      ∙ ap (λ out. out ++ frames_of new) kept
      ∙ append_assoc start (frames_of (commands l.1)) (frames_of new)
      ∙ ap (λ out. start ++ out) (sym (frames_of-append (commands l.1) new))
      ∙ ap (λ cs. start ++ frames_of cs) (sym (told-commands o l))
      ∙ ap (λ (x : L × Journal). start ++ frames_of (commands x.1)) (sym e)

  journalled-AsksSupported : AsksSupported slots → AsksSupported journalled
  journalled-AsksSupported ask s g = ask s.0 g

  Step-keeps :
      AsksSupported slots
      → (start : List (List ℕ)) {s t : (L × Journal) × ModbusRtu} → Step s t
      → WellFormed s.1
      → IsKept start s
      → WellFormed t.1 × IsKept start t
  Step-keeps ask start (byte b s) w kept =
      let asks = journalled-AsksSupported ask in
      let k = handle_byte_read-keeps journalled asks b s.0 s.1 w in
      (
        k.0,
        told-IsKept (byte_signal b s.1) start s.0 _ s.1 (handle_byte_read journalled b s).1 kept
            (handle_byte_read-told journalled b s.0 s.1) k.1,
      )
  Step-keeps ask start (timer s) w kept =
      let asks = journalled-AsksSupported ask in
      let k = on_timeout-keeps journalled asks s.0 s.1 w in
      (
        k.0,
        told-IsKept (timeout_signal s.1) start s.0 _ s.1 (on_timeout journalled s).1 kept
            (on_timeout-told journalled s.0 s.1) k.1,
      )
  Step-keeps ask start (call r l j m ok) w kept = (
    perform-WellFormed r m ok w,
    outbox-perform r m w
        ∙ ap (λ out. out ++ frames_of (command_of r ∷ [])) kept
        ∙ append_assoc start (frames_of (commands j)) (frames_of (command_of r ∷ []))
        ∙ ap (λ out. start ++ out) (sym (frames_of-append (commands j) (command_of r ∷ [])))
        ∙ ap (λ cs. start ++ frames_of cs) (sym (map-append j.requests (r ∷ []))),
  )

  -- In every run of bytes, timeouts and calls, with slots that ask for supported functions only,
  -- from a state in which the queue is well formed: it stays so (the timer runs exactly while a
  -- reply is awaited, and commands wait only then), and the frames sent and queued are those of the
  -- start, followed by one frame for each request made since, by the slots of a signal or from
  -- outside, in the order of the requests: none is lost, doubled or moved.
  pub Run-keeps :
      AsksSupported slots
      → (l : L) (m : ModbusRtu) {t : (L × Journal) × ModbusRtu} → WellFormed m
      → Run ((l, blank), m) t
      → WellFormed t.1 × (outbox t.1 ≡ outbox m ++ frames_of (map command_of t.0.1.requests))
  Run-keeps ask l m w here = (w, sym (append-nil (outbox m)))
  Run-keeps ask l m w (next r st) =
      let k = Run-keeps ask l m w r in Step-keeps ask (outbox m) st k.0 k.1

  byte_signal-unsupported :
      (b : ℕ) (m : ModbusRtu) (slave code : ℕ)
      → byte_signal b m ≢ some (error_received unsupported slave code)
  unfolding byte_signal take_byte process_packet
  byte_signal-unsupported b m slave code = ground arith

  told-IsKnown :
      (o : Option Signal) (s : L × Journal)
      → ((slave code : ℕ) → o ≢ some (error_received unsupported slave code))
      → All IsKnown s.1.signals
      → All IsKnown (told journalled o s).1.signals
  told-IsKnown none s known before = before
  told-IsKnown (some g) s known before =
      All-append IsKnown s.1.signals (g ∷ []) before
        ((λ slave code e. known slave code (ap some e)), tt)

  timeout_signal-unsupported :
      (m : ModbusRtu) (slave code : ℕ)
      → timeout_signal m ≢ some (error_received unsupported slave code)
  timeout_signal-unsupported m slave code = ground arith

  Step-IsKnown :
      {s t : (L × Journal) × ModbusRtu}
      → Step s t
      → All IsKnown s.0.1.signals
      → All IsKnown t.0.1.signals
  Step-IsKnown (byte b s) known =
      rw (handle_byte_read-told journalled b s.0 s.1)
        (told-IsKnown (byte_signal b s.1) s.0 (byte_signal-unsupported b s.1) known)
  Step-IsKnown (timer s) known =
      rw (on_timeout-told journalled s.0 s.1)
        (told-IsKnown (timeout_signal s.1) s.0 (timeout_signal-unsupported s.1) known)
  Step-IsKnown (call r l j m ok) known = known

  -- In every run of bytes, timeouts and calls, from any state of the receiver, the slots never hear
  -- of an error of the type `Unsupported`: the code checks for it only at the end of a packet, when
  -- the state it asks for is long past.
  pub Run-IsKnown :
      (l : L) (m : ModbusRtu) {t : (L × Journal) × ModbusRtu}
      → Run ((l, blank), m) t
      → All IsKnown t.0.1.signals
  Run-IsKnown l m here = tt
  Run-IsKnown l m (next r st) = Step-IsKnown st (Run-IsKnown l m r)
