-- ===== src/Wireless/ComTest.antt =====
-- tools/hub4_wireless/src/com_test.h and tools/hub4_wireless/src/com_test.cpp: messages that go to
-- and fro between two ports. The bytes that wait in a port when its slot runs come with the event;
-- opening and closing the ports is not modelled.
use dbus_cgwacs.Prelude.{
  ℕ, suc, ◌≡◌, refl, Bool, true, false, List, [], ◌∷◌, ◌++◌, ltb, ◌==◌, length, arith,
  if◌then◌else◌, All, All-append,
}
use dbus_cgwacs.Prelude.Text.{Text, text, text_eq}

-- `written1` and `written2` are the messages that went out of the two ports, `finished` the results
-- told so far.
pub record ComTest : Type 0 where
  pub written1 : List Text
  pub written2 : List Text
  pub timer_running : Bool
  pub retry_count : ℕ
  pub message_count : ℕ
  pub finished : List Bool

abbrev pub request : Text
request = text "Ping"

abbrev pub reply : Text
reply = text "Pong"

unfoldable pub new_com_test : ComTest
new_com_test = record {
  written1 = [];
  written2 = [];
  timer_running = false;
  retry_count = 0;
  message_count = 0;
  finished = [];
}

unfoldable pub start : ComTest → ComTest
start c = record c { retry_count = 0; written1 = c.written1 ++ request ∷ []; timer_running = true }

-- A round trip that succeeds: the tenth tells it and starts no other.
unfoldable pub count_message : ComTest → ComTest
unfolding start
count_message c =
    let d = record c { timer_running = false; message_count = suc c.message_count } in
    if d.message_count == 10 then record d { finished = d.finished ++ true ∷ [] } else start d

-- `onReadyRead`, for the one port and for the other.
unfoldable pub on_ready_read1 : Text → ComTest → ComTest
unfolding start count_message
on_ready_read1 bytes c =
    if ltb (length bytes) (length reply)
    then c
    else if text_eq bytes reply
    then count_message c
    else start c

unfoldable pub on_ready_read2 : Text → ComTest → ComTest
unfolding start
on_ready_read2 bytes c =
    if ltb (length bytes) (length request)
    then c
    else if text_eq bytes request
    then record c { written2 = c.written2 ++ reply ∷ [] }
    else start c

unfoldable pub on_timer : ComTest → ComTest
unfolding start
on_timer c0 =
    let c = record c0 { retry_count = suc c0.retry_count } in
    if c.retry_count == 5
    then record c { timer_running = false; finished = c.finished ++ false ∷ [] }
    else start c

pub data Event : Type 0 where
  port1_event port2_event : Text → Event
  timer_event : Event

-- A timer that was stopped does not ring; it is not single shot.
unfoldable pub handle : Event → ComTest → ComTest
unfolding on_ready_read1 on_ready_read2 on_timer
handle (port1_event bytes) c = on_ready_read1 bytes c
handle (port2_event bytes) c = on_ready_read2 bytes c
handle timer_event c = if c.timer_running then on_timer c else c

unfoldable pub handle_all : List Event → ComTest → ComTest
unfolding handle
handle_all [] c = c
handle_all (e ∷ es) c = handle_all es (handle e c)

record IsHopeful (c : ComTest) : Type 0 where
  pub fresh : c.retry_count ≡ 0
  pub successes : All (λ b. b ≡ true) c.finished

handle-IsHopeful : (e : Event) (c : ComTest) → IsHopeful c → IsHopeful (handle e c)
unfolding handle on_ready_read1 on_ready_read2 on_timer start count_message
handle-IsHopeful (port1_event bytes) c h =
    let told = All-append (λ b. b ≡ true) c.finished (true ∷ []) h.successes (refl, tt) in
    ground arith
handle-IsHopeful (port2_event bytes) c h = ground arith
handle-IsHopeful timer_event c h = ground arith

handle_all-IsHopeful : (es : List Event) (c : ComTest) → IsHopeful c → IsHopeful (handle_all es c)
unfolding handle_all
handle_all-IsHopeful [] c h = h
handle_all-IsHopeful (e ∷ es) c h = handle_all-IsHopeful es (handle e c) (handle-IsHopeful e c h)

-- Whatever comes in on the two ports and however often the timer rings, a test that was started never
-- tells a failure: it counts its retries from 0 again at each of them.
pub start-never_fails :
    (es : List Event) → All (λ b. b ≡ true) (handle_all es (start new_com_test)).finished
unfolding start new_com_test
start-never_fails es =
    let h =
      handle_all-IsHopeful es (start new_com_test) (record { fresh = refl; successes = tt }) in
    h.successes
