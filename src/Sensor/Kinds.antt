-- ===== src/Sensor/Kinds.antt =====
-- Which device identifiers have which protocol.
use dbus_cgwacs.Prelude.{ℕ, ◌≤◌, ◌≡◌, ◌≢◌, ◌⊎◌, ◌↔◌, arith, ◌==◌, if◌then◌else◌}
use mathlib.Core.Path.{subst}
use dbus_cgwacs.Doubles.{Doubles}
use dbus_cgwacs.Sensor.{
  ProtocolType, em24_protocol, et112_protocol, et340_protocol, em540_protocol, em300_s27_protocol,
  em300_protocol, unknown, protocol_of, set_device_type, new_sensor, reset_values,
}

abbrev Between : ℕ → ℕ → ℕ → Type 0
Between lo hi t = (lo ≤ t) × (t ≤ hi)

-- The identifiers of the meters of a protocol, as a table without an order of tests.
abbrev pub HasProtocol : ProtocolType → ℕ → Type 0
HasProtocol em24_protocol t = Between 71 73 t
HasProtocol et112_protocol t = Between 102 121 t
HasProtocol et340_protocol t = Between 330 345 t × (t ≢ 338)
HasProtocol em540_protocol t = Between 1744 1763 t ⊎ ((t ≡ 1956) ⊎ (t ≡ 2096))
HasProtocol em300_s27_protocol t = (t ≡ 338) ⊎ (t ≡ 348)
HasProtocol em300_protocol t = ⊥
HasProtocol unknown t =
    ¬ Between 71 73 t
    × ¬ Between 102 121 t
    × ¬ Between 330 345 t
    × (t ≢ 348)
    × ¬ Between 1744 1763 t
    × (t ≢ 1956)
    × (t ≢ 2096)

protocol_of-HasProtocol : (t : ℕ) → HasProtocol (protocol_of t) t
unfolding protocol_of
protocol_of-HasProtocol t = ground arith

-- The rows of the table exclude each other.
HasProtocol-unique : (p q : ProtocolType) (t : ℕ) → HasProtocol p t → HasProtocol q t → p ≡ q
HasProtocol-unique p q t h k = ground arith

-- A protocol is chosen for an identifier exactly when the identifier stands in the protocol's row
-- of the table; the protocol `Unknown` exactly for the identifiers that stand in no row.
pub protocol_of_iff : (p : ProtocolType) (t : ℕ) → (protocol_of t ≡ p) ↔ HasProtocol p t
protocol_of_iff p t = (
  λ e. subst (λ r. HasProtocol r t) e (protocol_of-HasProtocol t),
  λ h. HasProtocol-unique (protocol_of t) p t (protocol_of-HasProtocol t) h,
)

module _ {D : Type 0} ⦃f : Doubles D⦄ where
  -- The first identifier that a new sensor is told sets the protocol of the table, except the
  -- identifier 0: it is taken for no change, and the protocol stays what the memory held when the
  -- object was made, since the constructor does not set it.
  pub set_device_type-new :
      (g : ProtocolType) (reverse factor : D) (slave t : ℕ)
      → (set_device_type t (new_sensor g reverse factor slave)).protocol_type
        ≡ (if t == 0 then g else protocol_of t)
  unfolding set_device_type new_sensor reset_values
  set_device_type-new g reverse factor slave t = ground arith
