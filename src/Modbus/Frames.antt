-- ===== src/Modbus/Frames.antt =====
-- Frames byte by byte: what a whole reply makes of an object that awaits it.
use dbus_cgwacs.Prelude.{
  ℕ, suc, ◌*◌, ◌%◌, ◌<◌, ◌≡◌, refl, ap, ◌∙◌, ◌⊎◌, inl, inr, true, false, List, [], ◌∷◌, ◌++◌,
  append_assoc, bit_or, length, All, arith,
}
use dbus_cgwacs.Prelude.Bits.{bit_or_fields}
use dbus_cgwacs.Defines.{msb, lsb, to_uint16-msb-lsb}
use dbus_cgwacs.Crc16.{Crc16, add, add_bytes}
use dbus_cgwacs.Modbus.Types.{
  write_single_register, Signal, address, function, byte_count, data_bytes, crc_msb, crc_lsb,
  Request, ModbusRtu,
}
use dbus_cgwacs.Modbus.Engine.{
  is_exception, is_read, words_of, process_packet, finish_packet, handle_byte_read, handle_bytes,
}

-- The registers of a reply as bytes, the high byte of each first.
abbrev pub bytes_of : List ℕ → List ℕ
bytes_of [] = []
bytes_of (w ∷ ws) = msb w ∷ lsb w ∷ bytes_of ws

pub words_of-bytes_of : (ws : List ℕ) → All (λ w. w < 65536) ws → words_of (bytes_of ws) ≡ ws
unfolding words_of
words_of-bytes_of [] h = refl
words_of-bytes_of (w ∷ ws) h = rw (to_uint16-msb-lsb w h.0, words_of-bytes_of ws h.1)

pub length-bytes_of : (ws : List ℕ) → length (bytes_of ws) ≡ 2 * length ws
length-bytes_of [] = refl
length-bytes_of (w ∷ ws) = omega (arith, length-bytes_of ws)

-- The states of the receiver on the way through a reply, over the object `m`.
abbrev pub awaiting : ℕ → Crc16 → ModbusRtu → ModbusRtu
awaiting slave c m = record m {
  state = address;
  current_slave = slave;
  crc_builder = c;
  add_to_crc = true;
  received_data = [];
}

abbrev pub in_function : ℕ → Crc16 → ModbusRtu → ModbusRtu
in_function slave c m = record m {
  state = function;
  current_slave = slave;
  crc_builder = c;
  add_to_crc = true;
  received_data = [];
}

abbrev pub in_data : ℕ → ℕ → ℕ → Crc16 → List ℕ → ModbusRtu → ModbusRtu
in_data f start n c bytes m = record m {
  state = data_bytes;
  function_code = f;
  start_address = start;
  count = n;
  crc_builder = c;
  add_to_crc = true;
  received_data = bytes;
}

abbrev pub before_crc : ℕ → ℕ → Crc16 → List ℕ → ModbusRtu → ModbusRtu
before_crc f start c bytes m = record m {
  state = crc_msb;
  function_code = f;
  start_address = start;
  count = 0;
  crc_builder = c;
  add_to_crc = false;
  received_data = bytes;
}

-- The received CRC is in `crc`, and the packet is complete.
abbrev pub complete : ℕ → ℕ → Crc16 → ℕ → List ℕ → ModbusRtu → ModbusRtu
complete f start c received bytes m = record m {
  state = crc_lsb;
  function_code = f;
  start_address = start;
  count = 0;
  crc = received;
  crc_builder = c;
  add_to_crc = false;
  received_data = bytes;
}

crc_word : (v : ℕ) → v < 65536 → bit_or (msb v * 256 % 65536) (lsb v) ≡ v
crc_word v h = ground (arith, bit_or_fields 8 (msb v) (lsb v))

is_read_cases : (f : ℕ) → is_read f ≡ true → (f ≡ 3) ⊎ (f ≡ 4)
is_read_cases f h = ground arith

pub read-not-exception : (f : ℕ) → is_read f ≡ true → is_exception f ≡ false
read-not-exception f h = elim (is_read_cases f h) [ inl e ↦ rw e | inr e ↦ rw e ]

module _ {L : Type 0} (slots : L → Signal → L × List Request) where
  pub handle_bytes-append :
      (xs ys : List ℕ) (s : L × ModbusRtu)
      → handle_bytes slots (xs ++ ys) s ≡ handle_bytes slots ys (handle_bytes slots xs s)
  unfolding handle_bytes
  handle_bytes-append [] ys s = refl
  handle_bytes-append (x ∷ xs) ys s = handle_bytes-append xs ys (handle_byte_read slots x s)

  data_byte :
      (f start k b : ℕ) (c : Crc16) (bytes : List ℕ) (l : L) (m : ModbusRtu)
      → handle_byte_read slots b (l, in_data f start (suc (suc k)) c bytes m)
        ≡ (l, in_data f start (suc k) (add c b) (bytes ++ b ∷ []) m)
  unfolding handle_byte_read
  data_byte f start k b c bytes l m = ground arith

  last_data_byte :
      (f start b : ℕ) (c : Crc16) (bytes : List ℕ) (l : L) (m : ModbusRtu)
      → handle_byte_read slots b (l, in_data f start 1 c bytes m)
        ≡ (l, before_crc f start (add c b) (bytes ++ b ∷ []) m)
  unfolding handle_byte_read
  last_data_byte f start b c bytes l m = refl

  -- The data bytes of a reply are appended, and counted into the CRC.
  data_phase :
      (f start b : ℕ) (bs : List ℕ) (c : Crc16) (bytes : List ℕ) (l : L) (m : ModbusRtu)
      → handle_bytes slots (b ∷ bs) (l, in_data f start (length (b ∷ bs)) c bytes m)
        ≡ (l, before_crc f start (add_bytes c (b ∷ bs)) (bytes ++ b ∷ bs) m)
  unfolding handle_bytes add_bytes
  data_phase f start b [] c bytes l m = last_data_byte f start b c bytes l m
  data_phase f start b (b' ∷ bs) c bytes l m =
      ap (handle_bytes slots (b' ∷ bs)) (data_byte f start (length bs) b c bytes l m)
      ∙ data_phase f start b' bs (add c b) (bytes ++ b ∷ []) l m
      ∙ ap (λ ds. (l, before_crc f start (add_bytes (add c b) (b' ∷ bs)) ds m))
          (append_assoc bytes (b ∷ []) (b' ∷ bs))

  -- The two bytes of a CRC end the packet.
  crc_phase :
      (f start v : ℕ) (c : Crc16) (bytes : List ℕ) (l : L) (m : ModbusRtu)
      → v < 65536
      → handle_bytes slots (msb v ∷ lsb v ∷ []) (l, before_crc f start c bytes m)
        ≡ finish_packet slots
            (process_packet (complete f start c v bytes m))
            (l, complete f start c v bytes m)
  unfolding handle_bytes handle_byte_read
  crc_phase f start v c bytes l m h =
      ap
        (λ r.
          finish_packet slots (process_packet (complete f start c r bytes m))
            (l, complete f start c r bytes m))
        (crc_word v h)

  -- From a reply's header on: data and CRC.
  pub data_and_crc :
      (f start v b : ℕ) (bs : List ℕ) (c : Crc16) (l : L) (m : ModbusRtu)
      → v < 65536
      → handle_bytes slots
          ((b ∷ bs) ++ msb v ∷ lsb v ∷ [])
          (l, in_data f start (length (b ∷ bs)) c [] m)
        ≡ finish_packet slots
            (process_packet (complete f start (add_bytes c (b ∷ bs)) v (b ∷ bs) m))
            (l, complete f start (add_bytes c (b ∷ bs)) v (b ∷ bs) m)
  data_and_crc f start v b bs c l m h =
      handle_bytes-append (b ∷ bs) (msb v ∷ lsb v ∷ [])
        (l, in_data f start (length (b ∷ bs)) c [] m)
      ∙ ap (handle_bytes slots (msb v ∷ lsb v ∷ [])) (data_phase f start b bs c [] l m)
      ∙ crc_phase f start v (add_bytes c (b ∷ bs)) (b ∷ bs) l m h

  address_byte :
      (slave : ℕ) (c : Crc16) (l : L) (m : ModbusRtu)
      → handle_byte_read slots slave (l, awaiting slave c m)
        ≡ (l, in_function slave (add c slave) m)
  unfolding handle_byte_read
  address_byte slave c l m = ground arith

  read_function_byte :
      (slave f : ℕ) (c : Crc16) (l : L) (m : ModbusRtu)
      → is_read f ≡ true
      → handle_byte_read slots f (l, in_function slave c m)
        ≡ (l, record (in_function slave (add c f) m) { state = byte_count; function_code = f })
  unfolding handle_byte_read
  read_function_byte slave f c l m h = rw (read-not-exception f h, h)

  -- The address, the function and the count of bytes of a reply to a read.
  pub read_header :
      (slave f n : ℕ) (c : Crc16) (l : L) (m : ModbusRtu)
      → is_read f ≡ true
      → handle_bytes slots (slave ∷ f ∷ suc n ∷ []) (l, awaiting slave c m) ≡ (
        l,
        in_data f m.start_address
            (suc n)
            (add_bytes c (slave ∷ f ∷ suc n ∷ []))
            []
            (record m { current_slave = slave }),
      )
  unfolding handle_bytes add_bytes
  read_header slave f n c l m h =
      ap (λ s. handle_byte_read slots (suc n) (handle_byte_read slots f s))
        (address_byte slave c l m)
      ∙ ap (handle_byte_read slots (suc n)) (read_function_byte slave f (add c slave) l m h)
      ∙ byte_count_byte
    where
      byte_count_byte :
          handle_byte_read slots (suc n) (
            l,
            record (in_function slave (add (add c slave) f) m) {
              state = byte_count;
              function_code = f;
            },
          )
          ≡ (
            l,
            in_data f m.start_address
                (suc n)
                (add_bytes c (slave ∷ f ∷ suc n ∷ []))
                []
                (record m { current_slave = slave }),
          )
      byte_count_byte = unfold handle_byte_read in ground arith

  -- The address, the function and the register address of a reply to a write.
  pub write_header :
      (slave reg : ℕ) (c : Crc16) (l : L) (m : ModbusRtu)
      → reg < 65536
      → handle_bytes slots
          (slave ∷ write_single_register ∷ msb reg ∷ lsb reg ∷ [])
          (l, awaiting slave c m)
        ≡ (
          l,
          in_data write_single_register reg 2
              (add_bytes c (slave ∷ write_single_register ∷ msb reg ∷ lsb reg ∷ []))
              []
              (record m { current_slave = slave }),
        )
  unfolding handle_bytes add_bytes
  write_header slave reg c l m h =
      ap
        (λ s.
          handle_byte_read slots (lsb reg)
            (handle_byte_read slots (msb reg) (handle_byte_read slots write_single_register s)))
        (address_byte slave c l m)
      ∙ rest
    where
      rest :
          handle_byte_read slots (lsb reg) (
            handle_byte_read slots
              (msb reg)
              (handle_byte_read slots write_single_register (l, in_function slave (add c slave) m)))
          ≡ (
            l,
            in_data write_single_register reg 2
                (add_bytes c (slave ∷ write_single_register ∷ msb reg ∷ lsb reg ∷ []))
                []
                (record m { current_slave = slave }),
          )
      rest =
          unfold handle_byte_read in
          ap
            (λ r. (
              l,
              in_data write_single_register r 2
                  (add_bytes c (slave ∷ write_single_register ∷ msb reg ∷ lsb reg ∷ [])) []
                  (record m { current_slave = slave }),
            ))
            (crc_word reg h)

  -- The address and the function of an exception: the function that was asked, with its high bit.
  pub exception_header :
      (slave f : ℕ) (c : Crc16) (l : L) (m : ModbusRtu)
      → is_exception f ≡ true
      → handle_bytes slots (slave ∷ f ∷ []) (l, awaiting slave c m) ≡ (
        l,
        in_data f m.start_address 1
            (add_bytes c (slave ∷ f ∷ []))
            []
            (record m { current_slave = slave }),
      )
  unfolding handle_bytes add_bytes
  exception_header slave f c l m h =
      ap (handle_byte_read slots f) (address_byte slave c l m) ∙ second
    where
      second : handle_byte_read slots f (l, in_function slave (add c slave) m) ≡ (
        l,
        in_data f m.start_address 1
            (add_bytes c (slave ∷ f ∷ []))
            []
            (record m { current_slave = slave }),
      )
      second = unfold handle_byte_read in rw h
