-- ===== src/Wireless/Waiting.antt =====
-- What a detector of tools/hub4_wireless/src/drf1600_detector.cpp waits for at each moment.
use dbus_cgwacs.Prelude.{
  ℕ, ◌<◌, ◌≡◌, refl, ap, ◌⊎◌, inl, inr, Bool, true, false, ◌||◌, List, [], ◌∷◌, ◌++◌, Option, none,
  some, arith,
}
use dbus_cgwacs.Wireless.Drf1600.{
  ZigbeeDeviceType, zigbee_end_point, drf1600_timeout, Signal, idle, baudrate_set, device_type_set,
  baudrate_tested, pan_id_read, pan_id_written, short_address_read, device_type_retrieved,
  error_received, Drf1600, on_ready_read, on_timeout, reset_state_engine,
}
use dbus_cgwacs.Wireless.Detector.{
  Drf1600Detector, is_9600, is_38400, Event, bytes_event, timeout_event, timer_event, handle,
  handle_all, react, new_detector, choose_device_type, choose_pan_id, set_adjust_settings, start,
  on_timer, ring, after_read, react_option,
}
use dbus_cgwacs.Wireless.Answers.{reply_length, is_test, is_tested, is_short, IsReceived, received}

abbrev pub is_supported : ZigbeeDeviceType → Bool
is_supported zigbee_end_point = false
is_supported _ = true

-- A reply is awaited, under the timer of the module.
pub record IsBusy (d : Drf1600Detector) : Type 0 where
  pub expects : 0 < reply_length d.drf1600.current_command
  pub length_known : d.drf1600.bytes_expected ≡ reply_length d.drf1600.current_command
  pub runs : d.drf1600.timer_running ≡ true
  pub alone : d.timer ≡ none
  pub unfinished : d.finished ≡ []
  pub tests :
      is_test d.drf1600.current_command ≡ true → (is_9600 d.state || is_38400 d.state) ≡ true

-- A pause before the next command, under the timer of the detector.
pub record IsPausing (d : Drf1600Detector) : Type 0 where
  pub quiet : d.drf1600.current_command ≡ idle
  pub stopped : d.drf1600.timer_running ≡ false
  pub pauses : (n : ℕ) × (d.timer ≡ some n)
  pub unfinished : d.finished ≡ []

-- The end: the result was told once, and nothing is awaited.
pub record IsOver (d : Drf1600Detector) : Type 0 where
  pub quiet : d.drf1600.current_command ≡ idle
  pub stopped : d.drf1600.timer_running ≡ false
  pub alone : d.timer ≡ none
  pub told : (b : Bool) × (d.finished ≡ b ∷ [])

abbrev pub IsWaiting : Drf1600Detector → Type 0
IsWaiting d = (is_supported d.device_type ≡ true) × (IsBusy d ⊎ (IsPausing d ⊎ IsOver d))

start-IsWaiting :
    (d : Drf1600Detector)
    → is_supported d.device_type ≡ true
    → d.timer ≡ none
    → d.finished ≡ []
    → IsWaiting (start d)
unfolding start
start-IsWaiting d s t f = (s, inl (ground arith))

on_timer-IsWaiting :
    (d : Drf1600Detector)
    → is_supported d.device_type ≡ true
    → d.timer ≡ none
    → d.finished ≡ []
    → IsWaiting (on_timer d)
unfolding on_timer
on_timer-IsWaiting d s t f = ground arith

-- A signal of a module that has just become idle.
react-IsWaiting :
    (g : Signal) (d : Drf1600Detector)
    → is_supported d.device_type ≡ true
    → d.drf1600.current_command ≡ idle
    → d.drf1600.timer_running ≡ false
    → d.timer ≡ none
    → d.finished ≡ []
    → is_short g ≡ false
    → (is_tested g ≡ true → (is_9600 d.state || is_38400 d.state) ≡ true)
    → IsWaiting (react g d)
unfolding react
react-IsWaiting baudrate_set d s i r t f n st = ground arith
react-IsWaiting device_type_set d s i r t f n st = ground arith
react-IsWaiting (baudrate_tested v) d s i r t f n st = ground arith
react-IsWaiting (pan_id_read v) d s i r t f n st = ground arith
react-IsWaiting (pan_id_written v) d s i r t f n st = ground arith
react-IsWaiting (short_address_read v) d s i r t f n st = ground arith
react-IsWaiting (device_type_retrieved v) d s i r t f n st = ground arith
react-IsWaiting (error_received v) d s i r t f n st = ground arith

after_read-IsWaiting :
    (d : Drf1600Detector) (bytes : List ℕ) (x : Option (Drf1600 × Option Signal))
    → is_supported d.device_type ≡ true
    → IsBusy d
    → IsReceived d.drf1600 bytes x
    → (d' : Drf1600Detector) × (after_read d x ≡ some d') × IsWaiting d'
unfolding after_read react_option reset_state_engine
after_read-IsWaiting d bytes x s b received = elim received.outcome [
  | inl h ↦ (
    record d { drf1600 = record d.drf1600 { available = d.drf1600.available ++ bytes } },
    ap (after_read d) h,
    ground arith,
  )
  | inr y ↦ (
    react y.0 (record d { drf1600 = reset_state_engine (record d.drf1600 { available = [] }) }),
    ap (after_read d) y.1,
    react-IsWaiting y.0
        (record d { drf1600 = reset_state_engine (record d.drf1600 { available = [] }) }) s refl
        refl b.alone b.unfinished (y.2.not_short) (λ t. b.tests (y.2.only_test t)),
  )
]

ring-IsWaiting : (d : Drf1600Detector) → IsWaiting d → IsWaiting (ring d.timer d)
unfolding ring
ring-IsWaiting d (s, inl b) = (let a = b.alone in ground arith)
ring-IsWaiting d (s, inr (inl p)) =
    let e = p.pauses.1 in rw e (on_timer-IsWaiting (record d { timer = none }) s refl p.unfinished)
ring-IsWaiting d (s, inr (inr o)) = ground arith

handle-IsWaiting :
    (e : Event) (d : Drf1600Detector)
    → IsWaiting d
    → (d' : Drf1600Detector) × (handle e d ≡ some d') × IsWaiting d'
unfolding handle on_timeout reset_state_engine on_ready_read after_read react_option
handle-IsWaiting (bytes_event bytes) d (s, inl b) =
    after_read-IsWaiting d bytes _ s b (received d.drf1600 bytes b.expects b.length_known)
handle-IsWaiting (bytes_event bytes) d (s, inr (inl p)) = (
  record d { drf1600 = record d.drf1600 { available = [] } },
  (let q = p.quiet in rw (q, after_read) refl),
  ground arith,
)
handle-IsWaiting (bytes_event bytes) d (s, inr (inr o)) = (
  record d { drf1600 = record d.drf1600 { available = [] } },
  (let q = o.quiet in rw (q, after_read) refl),
  ground arith,
)
handle-IsWaiting timeout_event d (s, inl b) =
    let r = b.runs in
    (
      react (error_received drf1600_timeout) (record d { drf1600 = reset_state_engine d.drf1600 }),
      rw r refl,
      react-IsWaiting (error_received drf1600_timeout)
          (record d { drf1600 = reset_state_engine d.drf1600 }) s refl refl b.alone b.unfinished
          refl (λ t. ground arith),
    )
handle-IsWaiting timeout_event d (s, inr (inl p)) = (d, ground arith, (s, inr (inl p)))
handle-IsWaiting timeout_event d (s, inr (inr o)) = (d, ground arith, (s, inr (inr o)))
handle-IsWaiting timer_event d w = (ring d.timer d, refl, ring-IsWaiting d w)

handle_all-IsWaiting :
    (es : List Event) (d : Drf1600Detector)
    → IsWaiting d
    → (d' : Drf1600Detector) × (handle_all es d ≡ some d') × IsWaiting d'
unfolding handle_all
handle_all-IsWaiting [] d w = (d, refl, w)
handle_all-IsWaiting (e ∷ es) d w =
    let x = handle-IsWaiting e d w in
    let y = handle_all-IsWaiting es x.0 x.2 in let h = x.1 in (y.0, rw (h, handle_all) (y.1), y.2)

-- From its start, whatever bytes and timer events come in whatever order, a detector of a
-- coordinator or of a router reads no byte outside a reply, and always waits for exactly one thing:
-- a reply, with the timer of the module running and its own timer stopped; or its own timer, with
-- the module idle; or nothing, and only then has it told its result, once.
pub search-IsWaiting :
    (t : ZigbeeDeviceType) (adjusts : Bool) (id : ℕ) (events : List Event)
    → is_supported t ≡ true
    → (d : Drf1600Detector) × (handle_all events (
          start
            (set_adjust_settings adjusts (choose_pan_id id (choose_device_type t new_detector))))
        ≡ some d)
      × IsWaiting d
unfolding set_adjust_settings choose_pan_id choose_device_type new_detector
search-IsWaiting t adjusts id events s = handle_all-IsWaiting events _ (
    start-IsWaiting
      (set_adjust_settings adjusts (choose_pan_id id (choose_device_type t new_detector))) s refl
      refl)
