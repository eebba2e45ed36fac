-- ===== src/Wireless/Setup.antt =====
-- tools/hub4_wireless/src/hub4_wireless.h and tools/hub4_wireless/src/hub4_wireless.cpp: the
-- detectors of all ports with an adapter, and the result that is shown. The ports of the system are a
-- parameter; the log destinations are not modelled.
use dbus_cgwacs.Prelude.{
  ℕ, zero, suc, Bool, true, false, ◌&&◌, List, [], ◌∷◌, ◌++◌, leb, length, if◌then◌else◌, map,
}
use dbus_cgwacs.Prelude.Text.{Text, text, text_eq}
use dbus_cgwacs.Wireless.Drf1600.{ZigbeeDeviceType, zigbee_coordinator, zigbee_router}
use dbus_cgwacs.Wireless.Detector.{
  Drf1600Detector, new_detector, choose_device_type, set_adjust_settings, start,
}

-- What the serial port library tells of a port.
pub record SerialPortInfo : Type 0 where
  pub port_name : Text
  pub description : Text
  pub manufacturer : Text

-- `detectors` are the children of the application, each with whether `deleteLater` was called for it;
-- `info_changes` and `log_changes` are how often the signals were emitted.
pub record Hub4Wireless : Type 0 where
  pub log : Text
  pub info : Text
  pub info_changes : ℕ
  pub log_changes : ℕ
  pub detectors : List (Drf1600Detector × Bool)

unfoldable pub new_hub4_wireless : Hub4Wireless
new_hub4_wireless = record {
  log = [];
  info = [];
  info_changes = 0;
  log_changes = 0;
  detectors = [];
}

unfoldable pub find_serial_ports : List SerialPortInfo → Text → Text → List Text
find_serial_ports [] manufacturer description = []
find_serial_ports (p ∷ ports) manufacturer description =
    let rest = find_serial_ports ports manufacturer description in
    if text_eq p.manufacturer manufacturer && text_eq p.description description
    then p.port_name ∷ rest
    else rest

unfoldable pub set_info : Text → Hub4Wireless → Hub4Wireless
set_info t h =
    if text_eq h.info t then h else record h { info = t; info_changes = suc h.info_changes }

unfoldable pub set_log : Text → Hub4Wireless → Hub4Wireless
set_log l h = if text_eq h.log l then h else record h { log = l; log_changes = suc h.log_changes }

unfoldable pub write_to_log : Text → Hub4Wireless → Hub4Wireless
unfolding set_log
write_to_log message h = set_log (h.log ++ (message ++ 10 ∷ [])) h

-- The detector of a port, started.
unfoldable pub detect : ZigbeeDeviceType → Drf1600Detector
unfolding start set_adjust_settings choose_device_type new_detector
detect t = start (set_adjust_settings true (choose_device_type t new_detector))

unfoldable pub program : Text → ZigbeeDeviceType → List Text → Hub4Wireless → Hub4Wireless
unfolding set_info detect
program not_found t [] h = set_info not_found h
program not_found t (p ∷ ports) h =
    set_info (text "Busy")
      (record h { detectors = h.detectors ++ map (λ port. (detect t, false)) (p ∷ ports) })

unfoldable pub program_coordinator : List SerialPortInfo → Hub4Wireless → Hub4Wireless
unfolding program find_serial_ports
program_coordinator ports h =
    program (text "CoordinatorNotFound") zigbee_coordinator
      (find_serial_ports ports (text "Prolific") (text "Prolific USB-to-Serial Comm Port")) h

unfoldable pub program_router : List SerialPortInfo → Hub4Wireless → Hub4Wireless
unfolding program find_serial_ports
program_router ports h =
    program (text "RouterNotFound") zigbee_router
      (find_serial_ports ports (text "FTDI") (text "USB Serial Port")) h

-- `deleteLater` of a detector: it stays a child until control is back in the event loop.
unfoldable pub delete_later : ℕ → List (Drf1600Detector × Bool) → List (Drf1600Detector × Bool)
delete_later i [] = []
delete_later zero (d ∷ ds) = (d.0, true) ∷ ds
delete_later (suc i) (d ∷ ds) = d ∷ delete_later i ds

-- What the event loop does then, as Qt documents it.
unfoldable pub delete_marked : List (Drf1600Detector × Bool) → List (Drf1600Detector × Bool)
delete_marked [] = []
delete_marked (d ∷ ds) = let rest = delete_marked ds in if d.1 then rest else d ∷ rest

unfoldable pub return_to_loop : Hub4Wireless → Hub4Wireless
unfolding delete_marked
return_to_loop h = record h { detectors = delete_marked h.detectors }

-- The result is shown if at most one detector is a child, the one that ends among them.
unfoldable pub show_result : Text → Hub4Wireless → Hub4Wireless
unfolding set_info
show_result t h = if leb (length h.detectors) 1 then set_info t h else h

-- The slots of `finished(bool)`, for the detector at a place.
unfoldable pub setup_finished : Text → Text → ℕ → Bool → Hub4Wireless → Hub4Wireless
unfolding show_result delete_later
setup_finished ok failed i s h =
    show_result (if s then ok else failed) (record h { detectors = delete_later i h.detectors })

unfoldable pub on_coordinator_setup_finished : ℕ → Bool → Hub4Wireless → Hub4Wireless
unfolding setup_finished
on_coordinator_setup_finished = setup_finished (text "CoordinatorOk") (text "CoordinatorFailed")

unfoldable pub on_router_setup_finished : ℕ → Bool → Hub4Wireless → Hub4Wireless
unfolding setup_finished
on_router_setup_finished = setup_finished (text "RouterOk") (text "RouterFailed")
