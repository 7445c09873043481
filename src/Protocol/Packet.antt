-- ===== src/Protocol/Packet.antt =====
-- The packets of protocol/parser_module.hpp: their fields, kinds and text.
pub mod Digits
pub mod RoundTrip
use cortono.Prelude.{
  Text, codes, List, [], ◌∷◌, ◌++◌, ℕ, zero, suc, ◌+◌, ◌-◌, ◌*◌, ◌/◌, ◌%◌, ◌^◌, Option, none, some,
  ltb, ◌==◌, if◌then◌else◌, Bool, true, false, not, ◌&&◌, ◌||◌, text_eq, length, get_elem?, set,
  take, drop,
}
use mathlib.Core.List.{reverse}

-- `MsgPacket`, with the addresses that do not travel in its text.
pub record Packet : Type 0 where
  pub seq : ℕ
  pub ack : ℕ
  pub control : Text
  pub notice_size : ℕ
  pub check_code : ℕ
  pub message : Text
  pub src_ip : Text
  pub src_port : ℕ
  pub des_ip : Text
  pub des_port : ℕ
  pub local_ip : Text
  pub local_port : ℕ

-- `buffer[i] - '0'` of a signed `char`, as a `std::uint64_t`.
abbrev pub digit_value : ℕ → ℕ
digit_value c = (c + 2 ^ 64 - (if ltb c 128 then 48 else 304)) % 2 ^ 64

-- The loop from the last digit to the first: `res` and `base`.
unfoldable pub ten_digits : ℕ → Text → ℕ × ℕ
ten_digits s [] = (0, 1)
ten_digits s (c ∷ cs) =
    let (res, base) = ten_digits s cs in ((res + base * digit_value c) % 2 ^ 64, base * s % 2 ^ 64)

unfoldable pub conv_to_ten_digits : ℕ → Text → ℕ
unfolding ten_digits
conv_to_ten_digits s buffer = (ten_digits s buffer).0

-- The loop appends the digits from the last on; for a base up to 10 each is one character.
unfoldable pub low_digits : ℕ → ℕ → ℕ → Text
low_digits d n zero = []
low_digits d n (suc len) = (b'0' + n % d) ∷ low_digits d (n / d) len

unfoldable pub conv_to_string : ℕ → ℕ → ℕ → Text
unfolding low_digits
conv_to_string d n len = reverse (low_digits d n len)

abbrev pub control_size : ℕ
control_size = 6

-- The constructor, with the address of the connection, of the source and of the destination.
abbrev pub blank : Text → ℕ → Text → ℕ → Text → ℕ → Packet
blank local_ip local_port src_ip src_port des_ip des_port = record {
  seq = 0;
  ack = 0;
  control = codes "000000";
  notice_size = 0;
  check_code = 0;
  message = [];
  src_ip = src_ip;
  src_port = src_port;
  des_ip = des_ip;
  des_port = des_port;
  local_ip = local_ip;
  local_port = local_port;
}

-- `set_control("00100")` copies six bytes, the literal's end included.
abbrev pub make_data_packet : Text → Text → ℕ → Text → ℕ → Packet
make_data_packet bytes src_ip src_port des_ip des_port =
    record (blank src_ip src_port src_ip src_port des_ip des_port) {
      control = codes "00100" ++ 0 ∷ [];
      message = bytes;
    }

-- The bits of the type `T` of the sequence numbers.
module _ (bits : ℕ) where
  abbrev pub min_size : ℕ
  min_size = bits + bits + control_size + 16 + 16

  unfoldable pub feed : Text → Packet → Packet × Bool
  feed buffer p = if ltb (length buffer) min_size then (p, false) else (
    record p {
      seq = conv_to_ten_digits 2 (take bits buffer) % 2 ^ bits;
      ack = conv_to_ten_digits 2 (take bits (drop bits buffer)) % 2 ^ bits;
      control = take control_size (drop (bits + bits) buffer);
      notice_size =
          conv_to_ten_digits 2 (take 16 (drop (bits + bits + control_size) buffer)) % 2 ^ 16;
      check_code =
          conv_to_ten_digits 2 (take 16 (drop (bits + bits + control_size + 16) buffer)) % 2 ^ 16;
      message = drop min_size buffer;
    },
    true,
  )

  unfoldable pub to_string : Packet → Text
  to_string p =
      conv_to_string 2 p.seq bits
      ++ (conv_to_string 2 p.ack bits
          ++ (p.control
              ++ (conv_to_string 2 p.notice_size 16
                  ++ (conv_to_string 2 p.check_code 16 ++ p.message))))

  unfoldable pub set_seq : ℕ → Packet → Packet
  set_seq s p = record p { seq = s % 2 ^ bits }

  unfoldable pub set_ack : ℕ → Packet → Packet
  set_ack a p = record p { ack = a % 2 ^ bits }

unfoldable pub is_error_packet : Packet → Bool
is_error_packet p = text_eq p.src_ip p.des_ip && p.src_port == p.des_port

-- `control_[1] == c`
abbrev pub ack_flag : Packet → ℕ → Bool
ack_flag p c = elim (get_elem? p.control 1) [ some d ↦ d == c | none ↦ false ]

-- The packet is addressed to this end.
abbrev pub is_local : Packet → Bool
is_local p = text_eq p.local_ip p.des_ip && p.local_port == p.des_port

unfoldable pub is_recv_ack_packet : Packet → Bool
unfolding is_error_packet
is_recv_ack_packet p = not (is_error_packet p) && (is_local p && ack_flag p b'1')

unfoldable pub is_recv_data_packet : Packet → Bool
unfolding is_error_packet
is_recv_data_packet p = not (is_error_packet p) && (is_local p && ack_flag p b'0')

-- `local_ip_ != des_ip_ || local_port_ != des_port_`
abbrev pub is_remote : Packet → Bool
is_remote p = not (text_eq p.local_ip p.des_ip) || not (p.local_port == p.des_port)

unfoldable pub is_send_ack_packet : Packet → Bool
unfolding is_error_packet
is_send_ack_packet p = not (is_error_packet p) && (is_remote p && ack_flag p b'1')

unfoldable pub is_send_data_packet : Packet → Bool
unfolding is_error_packet
is_send_data_packet p = not (is_error_packet p) && (is_remote p && ack_flag p b'0')

unfoldable pub set_ack_flag : Packet → Packet
set_ack_flag p = record p { control = set p.control 1 b'1' }

unfoldable pub set_error_packet : Packet → Packet
set_error_packet p = record p {
  src_ip = p.local_ip;
  des_ip = p.local_ip;
  src_port = p.local_port;
  des_port = p.local_port;
  control = codes "000000";
}
