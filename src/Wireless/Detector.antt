-- ===== src/Wireless/Detector.antt =====
-- tools/hub4_wireless/src/drf1600_detector.h and tools/hub4_wireless/src/drf1600_detector.cpp: the
-- search for a module at two baud rates, and its configuration. The pointer to the module is never
-- null, so the tests of it are left out.
use dbus_cgwacs.Prelude.{
  ℕ, suc, ◌-◌, Bool, true, false, not, ◌&&◌, ◌||◌, List, [], ◌∷◌, ◌++◌, Option, none, some, ◌==◌,
  if◌then◌else◌,
}
use dbus_cgwacs.Prelude.Int.{ℤ, pos, negsuc}
use dbus_cgwacs.Wireless.Drf1600.{
  ZigbeeDeviceType, zigbee_coordinator, zigbee_router, zigbee_end_point, Drf1600Error, Signal,
  baudrate_set, device_type_set, baudrate_tested, pan_id_read, pan_id_written, short_address_read,
  device_type_retrieved, error_received, Drf1600, new_drf1600, set_baud_rate, test_baudrate,
  write_baudrate, read_pan_id, write_pan_id, read_device_type, write_device_type, on_timeout,
  on_ready_read,
}
use dbus_cgwacs.Wireless.Drf1600

pub data State : Type 0 where
  idle test_baud_rate9600 test_baud_rate38400 set_baudrate9600 : State
  get_device_type set_device_type get_pan_id set_pan_id : State

-- `timer` is the interval of the detector's own timer while it runs; `finished` lists the signals
-- `finished(bool)` emitted so far.
pub record Drf1600Detector : Type 0 where
  pub drf1600 : Drf1600
  pub timer : Option ℕ
  pub retry_count : ℤ
  pub state : State
  pub device_type : ZigbeeDeviceType
  pub adjust : Bool
  pub pan_id : ℕ
  pub finished : List Bool

abbrev pub is_9600 : State → Bool
is_9600 test_baud_rate9600 = true
is_9600 _ = false

abbrev pub is_38400 : State → Bool
is_38400 test_baud_rate38400 = true
is_38400 _ = false

abbrev pub is_router : ZigbeeDeviceType → Bool
is_router zigbee_router = true
is_router _ = false

abbrev pub same_type : ZigbeeDeviceType → ZigbeeDeviceType → Bool
same_type zigbee_coordinator zigbee_coordinator = true
same_type zigbee_router zigbee_router = true
same_type zigbee_end_point zigbee_end_point = true
same_type _ _ = false

-- `DefaultPanId` and `RetryCount`.
abbrev pub default_pan_id : ℕ
default_pan_id = 0xFFFF

abbrev pub retries : ℤ
retries = pos 5

abbrev pub pred : ℤ → ℤ
pred (pos n) = if n == 0 then negsuc 0 else pos (n - 1)
pred (negsuc n) = negsuc (suc n)

-- `mRetryCount <= 0`
abbrev pub is_spent : ℤ → Bool
is_spent (pos n) = n == 0
is_spent (negsuc n) = true

unfoldable pub new_detector : Drf1600Detector
unfolding new_drf1600
new_detector = record {
  drf1600 = new_drf1600;
  timer = none;
  retry_count = pos 0;
  state = idle;
  device_type = zigbee_router;
  adjust = false;
  pan_id = default_pan_id;
  finished = [];
}

unfoldable pub choose_device_type : ZigbeeDeviceType → Drf1600Detector → Drf1600Detector
choose_device_type t d = record d {
  pan_id = if is_router t then default_pan_id else d.pan_id;
  device_type = t;
}

unfoldable pub set_adjust_settings : Bool → Drf1600Detector → Drf1600Detector
set_adjust_settings a d = record d { adjust = a }

unfoldable pub choose_pan_id : ℕ → Drf1600Detector → Drf1600Detector
choose_pan_id id d = record d { pan_id = id }

abbrev pub finish : Bool → Drf1600Detector → Drf1600Detector
finish found d = record d { finished = d.finished ++ found ∷ [] }

-- A test at a baud rate, in the state that goes with it.
abbrev pub test_at : ℕ → State → Drf1600Detector → Drf1600Detector
test_at baud st d = record d { state = st; drf1600 = test_baudrate (set_baud_rate baud d.drf1600) }

unfoldable pub start : Drf1600Detector → Drf1600Detector
unfolding test_baudrate set_baud_rate
start d = test_at 9600 test_baud_rate9600 (record d { retry_count = retries })

unfoldable pub restart : Drf1600Detector → Drf1600Detector
unfolding Drf1600.restart
restart d = record d { drf1600 = Drf1600.restart d.drf1600; timer = some 5000 }

-- Whether a PAN ID that was read is to be changed, for a detector that adjusts settings.
abbrev pub type_adjusts : ZigbeeDeviceType → (wanted found : ℕ) → Bool
type_adjusts zigbee_coordinator wanted found =
    not (wanted == default_pan_id) && not (found == 0x199B)
type_adjusts zigbee_router wanted found = not (found == 0xFFFE)
type_adjusts zigbee_end_point wanted found = true

abbrev pub adjusts_pan_id : Drf1600Detector → ℕ → Bool
adjusts_pan_id d id = d.adjust && type_adjusts d.device_type d.pan_id id

unfoldable pub on_pan_id_found : ℕ → Drf1600Detector → Drf1600Detector
unfolding write_pan_id
on_pan_id_found id d =
    if adjusts_pan_id d id
    then record d { state = set_pan_id; drf1600 = write_pan_id d.pan_id d.drf1600 }
    else finish true d

unfoldable pub on_type_found : ZigbeeDeviceType → Drf1600Detector → Drf1600Detector
unfolding read_pan_id write_device_type
on_type_found t d =
    if not d.adjust || same_type t d.device_type
    then record d { state = get_pan_id; drf1600 = read_pan_id d.drf1600 }
    else record d { state = set_device_type; drf1600 = write_device_type d.device_type d.drf1600 }

unfoldable pub on_baudrate_ok : Drf1600Detector → Drf1600Detector
unfolding read_device_type write_baudrate
on_baudrate_ok d =
    if not d.adjust || is_9600 d.state
    then record d { state = get_device_type; drf1600 = read_device_type d.drf1600 }
    else if is_38400 d.state
    then record d { state = set_baudrate9600; drf1600 = write_baudrate 9600 d.drf1600 }
    else d

unfoldable pub on_error : Drf1600Detector → Drf1600Detector
unfolding test_baudrate set_baud_rate
on_error d0 =
    let d = record d0 { retry_count = pred d0.retry_count } in
    if is_spent d.retry_count
    then (if is_9600 d.state
        then test_at 38400 test_baud_rate38400 (record d { retry_count = retries })
        else finish false d)
    else record d { timer = some 250 }

unfoldable pub on_timer : Drf1600Detector → Drf1600Detector
unfolding test_baudrate set_baud_rate
on_timer d =
    if is_38400 d.state
    then record d { drf1600 = test_baudrate d.drf1600 }
    else test_at 9600 test_baud_rate9600 d

-- The slots that the constructor connects to the signals of the module.
unfoldable pub react : Signal → Drf1600Detector → Drf1600Detector
unfolding on_type_found restart on_pan_id_found on_baudrate_ok on_error
react (device_type_retrieved t) d = on_type_found t d
react device_type_set d = restart d
react (pan_id_read id) d = on_pan_id_found id d
react (pan_id_written id) d = restart d
react (baudrate_tested version) d = on_baudrate_ok d
react baudrate_set d = restart d
react (error_received e) d = on_error d
react (short_address_read a) d = d

-- What happens to a detector: bytes that come in, the timer of the module, and its own timer. A
-- timer that does not run does nothing; both are single shot.
pub data Event : Type 0 where
  bytes_event : List ℕ → Event
  timeout_event timer_event : Event

unfoldable pub react_option : Option Signal → Drf1600Detector → Drf1600Detector
unfolding react
react_option none d = d
react_option (some s) d = react s d

unfoldable pub after_read :
    Drf1600Detector → Option (Drf1600 × Option Signal) → Option Drf1600Detector
unfolding react_option
after_read d none = none
after_read d (some (p, s)) = some (react_option s (record d { drf1600 = p }))

unfoldable pub ring : Option ℕ → Drf1600Detector → Drf1600Detector
unfolding on_timer
ring none d = d
ring (some interval) d = on_timer (record d { timer = none })

unfoldable pub handle : Event → Drf1600Detector → Option Drf1600Detector
unfolding after_read ring react on_ready_read on_timeout
handle (bytes_event bytes) d =
    let p = record d.drf1600 { available = d.drf1600.available ++ bytes } in
    after_read d (on_ready_read p)
handle timeout_event d =
    if d.drf1600.timer_running
    then (let x = on_timeout d.drf1600 in some (react x.1 (record d { drf1600 = x.0 })))
    else some d
handle timer_event d = some (ring d.timer d)

unfoldable pub handle_all : List Event → Drf1600Detector → Option Drf1600Detector
unfolding handle
handle_all [] d = some d
handle_all (e ∷ es) d = elim (handle e d) [ none ↦ none | some d' ↦ handle_all es d' ]
