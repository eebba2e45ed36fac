-- ===== src/Sensor.antt =====
-- software/src/ac_sensor_phase.h, software/src/ac_sensor_phase.cpp, software/src/ac_sensor.h and
-- software/src/ac_sensor.cpp: what is known and measured of one meter. `emitted` lists the signals
-- emitted so far, the last one at the end.
pub mod Kinds
pub mod Reset
use dbus_cgwacs.Prelude.{
  ℕ, ◌/◌, ◌%◌, Bool, true, false, ◌&&◌, ◌||◌, List, [], ◌∷◌, ◌++◌, leb, ◌==◌, if◌then◌else◌,
}
use dbus_cgwacs.Prelude.Int.{ℤ, pos, negsuc}
use dbus_cgwacs.Prelude.Text.{Text, text_eq}
use dbus_cgwacs.Defines.{Phase, multiphase, phase_l1, phase_l2, phase_l3}
use dbus_cgwacs.Doubles.{Doubles}
use dbus_cgwacs.Numerals.{Numerals}

pub data PhaseSignal : Type 0 where
  current_changed voltage_changed power_changed energy_forward_changed : PhaseSignal
  energy_reverse_changed power_factor_changed : PhaseSignal

pub record AcSensorPhase (D : Type 0) : Type 0 where
  pub current : D
  pub voltage : D
  pub power : D
  pub energy_forward : D
  pub energy_reverse : D
  pub power_factor : D
  pub emitted : List PhaseSignal

pub data ConnectionState : Type 0 where
  disconnected searched detected connected : ConnectionState

pub data ProtocolType : Type 0 where
  em24_protocol et112_protocol et340_protocol em540_protocol : ProtocolType
  em300_s27_protocol em300_protocol unknown : ProtocolType

pub data SensorSignal : Type 0 where
  connection_state_changed device_type_changed serial_changed role_changed : SensorSignal
  firmware_version_changed error_code_changed frequency_changed : SensorSignal

-- The port name never changes, and nothing here depends on it.
pub record AcSensor (D : Type 0) : Type 0 where
  pub connection_state : ConnectionState
  pub device_type : ℕ
  pub protocol_type : ProtocolType
  pub error_code : ℕ
  pub firmware_version : Text
  pub slave_address : ℕ
  pub serial : Text
  pub role : Text
  pub phase_sequence : ℤ
  pub frequency : D
  pub total : AcSensorPhase D
  pub l1 : AcSensorPhase D
  pub l2 : AcSensorPhase D
  pub l3 : AcSensorPhase D
  pub emitted : List SensorSignal

abbrev pub same_state : ConnectionState → ConnectionState → Bool
same_state disconnected disconnected = true
same_state searched searched = true
same_state detected detected = true
same_state connected connected = true
same_state _ _ = false

abbrev pub is_em540 : ProtocolType → Bool
is_em540 em540_protocol = true
is_em540 _ = false

abbrev pub is_et112 : ProtocolType → Bool
is_et112 et112_protocol = true
is_et112 _ = false

-- The ladder of tests of `setDeviceType`.
unfoldable pub protocol_of : ℕ → ProtocolType
protocol_of t =
    if leb 71 t && leb t 73
    then em24_protocol
    else if leb 102 t && leb t 121
    then et112_protocol
    else if t == 338 || t == 348
    then em300_s27_protocol
    else if leb 330 t && leb t 345
    then et340_protocol
    else if leb 1744 t && leb t 1763
    then em540_protocol
    else if t == 2096 || t == 1956
    then em540_protocol
    else unknown

-- `mFirmwareVersion` of `setFirmwareVersion`: three fields of the EM540's word, or the number.
unfoldable pub version_text : ⦃q : Numerals⦄ → ProtocolType → ℕ → Text
version_text ⦃q⦄ p v =
    if is_em540 p
    then q.number (pos (v / 4096))
      ++ b'.' ∷ q.number (pos (v / 256 % 16))
      ++ b'.' ∷ q.number (pos (v % 256))
    else q.number (pos v)

module _ {D : Type 0} ⦃f : Doubles D⦄ where
  unfoldable pub values_equal : D → D → Bool
  values_equal v w = (f.is_nan v && f.is_nan w) || f.equal v w

  unfoldable pub set_current : D → AcSensorPhase D → AcSensorPhase D
  unfolding values_equal
  set_current v p =
      if values_equal p.current v
      then p
      else record p { current = v; emitted = p.emitted ++ current_changed ∷ [] }

  unfoldable pub set_voltage : D → AcSensorPhase D → AcSensorPhase D
  unfolding values_equal
  set_voltage v p =
      if values_equal p.voltage v
      then p
      else record p { voltage = v; emitted = p.emitted ++ voltage_changed ∷ [] }

  unfoldable pub set_power : D → AcSensorPhase D → AcSensorPhase D
  unfolding values_equal
  set_power v p =
      if values_equal p.power v
      then p
      else record p { power = v; emitted = p.emitted ++ power_changed ∷ [] }

  unfoldable pub set_energy_forward : D → AcSensorPhase D → AcSensorPhase D
  unfolding values_equal
  set_energy_forward v p =
      if values_equal p.energy_forward v
      then p
      else record p { energy_forward = v; emitted = p.emitted ++ energy_forward_changed ∷ [] }

  unfoldable pub set_energy_reverse : D → AcSensorPhase D → AcSensorPhase D
  unfolding values_equal
  set_energy_reverse v p =
      if values_equal p.energy_reverse v
      then p
      else record p { energy_reverse = v; emitted = p.emitted ++ energy_reverse_changed ∷ [] }

  unfoldable pub set_power_factor : D → AcSensorPhase D → AcSensorPhase D
  unfolding values_equal
  set_power_factor v p =
      if values_equal p.power_factor v
      then p
      else record p { power_factor = v; emitted = p.emitted ++ power_factor_changed ∷ [] }

  unfoldable pub reset_phase : AcSensorPhase D → AcSensorPhase D
  reset_phase p = set_power_factor f.nan (
      set_energy_reverse f.nan
        (set_energy_forward f.nan (set_voltage f.nan (set_power f.nan (set_current f.nan p)))))

  -- The constructor sets four values; the other two start as whatever the memory held.
  unfoldable pub new_phase : D → D → AcSensorPhase D
  new_phase reverse factor = record {
    current = f.nan;
    voltage = f.nan;
    power = f.nan;
    energy_forward = f.nan;
    energy_reverse = reverse;
    power_factor = factor;
    emitted = [];
  }

  unfoldable pub reset_values : AcSensor D → AcSensor D
  unfolding reset_phase
  reset_values s = record s {
    total = reset_phase s.total;
    l1 = reset_phase s.l1;
    l2 = reset_phase s.l2;
    l3 = reset_phase s.l3;
  }

  -- The constructor. It leaves the protocol as whatever the memory held.
  unfoldable pub new_sensor : ProtocolType → D → D → ℕ → AcSensor D
  unfolding reset_values new_phase
  new_sensor protocol reverse factor slave = reset_values (record {
    connection_state = disconnected;
    device_type = 0;
    protocol_type = protocol;
    error_code = 0;
    firmware_version = [];
    slave_address = slave;
    serial = [];
    role = [];
    phase_sequence = negsuc 0;
    frequency = f.nan;
    total = new_phase reverse factor;
    l1 = new_phase reverse factor;
    l2 = new_phase reverse factor;
    l3 = new_phase reverse factor;
    emitted = [];
  })

module _ {D : Type 0} where
  abbrev pub announce : SensorSignal → AcSensor D → AcSensor D
  announce g s = record s { emitted = s.emitted ++ g ∷ [] }

  unfoldable pub get_phase : Phase → AcSensor D → AcSensorPhase D
  get_phase multiphase s = s.total
  get_phase phase_l1 s = s.l1
  get_phase phase_l2 s = s.l2
  get_phase phase_l3 s = s.l3

  -- A call of a setter on the object that `getPhase` returns.
  unfoldable pub on_phase : Phase → (AcSensorPhase D → AcSensorPhase D) → AcSensor D → AcSensor D
  on_phase multiphase g s = record s { total = g s.total }
  on_phase phase_l1 g s = record s { l1 = g s.l1 }
  on_phase phase_l2 g s = record s { l2 = g s.l2 }
  on_phase phase_l3 g s = record s { l3 = g s.l3 }

  unfoldable pub set_connection_state : ConnectionState → AcSensor D → AcSensor D
  set_connection_state c s =
      if same_state s.connection_state c
      then s
      else announce connection_state_changed (record s { connection_state = c })

  unfoldable pub set_device_type : ℕ → AcSensor D → AcSensor D
  unfolding protocol_of
  set_device_type t s =
      if s.device_type == t
      then s
      else announce device_type_changed
          (record s { device_type = t; protocol_type = protocol_of t })

  unfoldable pub set_protocol_type : ProtocolType → AcSensor D → AcSensor D
  set_protocol_type p s = record s { protocol_type = p }

  unfoldable pub support_multiphase : AcSensor D → Bool
  support_multiphase s = if is_et112 s.protocol_type then false else true

  unfoldable pub support_fastloop : AcSensor D → Bool
  support_fastloop s = is_em540 s.protocol_type

  unfoldable pub set_error_code : ℕ → AcSensor D → AcSensor D
  set_error_code c s =
      if s.error_code == c then s else announce error_code_changed (record s { error_code = c })

  unfoldable pub set_serial : Text → AcSensor D → AcSensor D
  set_serial t s =
      if text_eq s.serial t then s else announce serial_changed (record s { serial = t })

  unfoldable pub set_role : Text → AcSensor D → AcSensor D
  set_role t s = if text_eq s.role t then s else announce role_changed (record s { role = t })

  unfoldable pub set_phase_sequence : ℤ → AcSensor D → AcSensor D
  set_phase_sequence v s = record s { phase_sequence = v }

  unfoldable pub set_frequency : D → AcSensor D → AcSensor D
  set_frequency v s = announce frequency_changed (record s { frequency = v })

  unfoldable pub set_firmware_version : ⦃q : Numerals⦄ → ℕ → AcSensor D → AcSensor D
  unfolding version_text
  set_firmware_version v s =
      let t = version_text s.protocol_type v in
      if text_eq s.firmware_version t
      then s
      else announce firmware_version_changed (record s { firmware_version = t })

  -- In milliseconds.
  unfoldable pub refresh_time : AcSensor D → ℕ
  refresh_time s = elim s.protocol_type [
    | em24_protocol ↦ 600
    | et112_protocol ↦ 750
    | em540_protocol ↦ 100
    | _ ↦ 2000
  ]
