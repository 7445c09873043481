-- ===== src/Protocol/Packet/RoundTrip.antt =====
-- A packet's text in protocol/parser_module.hpp, read back.
use cortono.Prelude.{
  Text, ◌++◌, ℕ, ◌+◌, ◌%◌, ◌^◌, ◌<◌, ◌≤◌, ◌≡◌, ap, sym, ◌∙◌, arith, length, length-append, take,
  drop, take_exact, drop_exact, drop-drop, true, ltb, false,
}
use native.Mathlib.Nat.{mod-eq_of_lt, pow-le-pow_right}
use cortono.Protocol.Packet.{
  Packet, control_size, min_size, feed, to_string, conv_to_string, conv_to_ten_digits,
}
use cortono.Protocol.Packet.Digits.{length-conv_to_string, conv_to_ten_digits-conv_to_string}

-- The fields fit in their places of the text.
pub record IsValid (bits : ℕ) (p : Packet) : Type 0 where
  pub seq_in : p.seq < 2 ^ bits
  pub ack_in : p.ack < 2 ^ bits
  pub control_in : length p.control ≡ control_size
  pub notice_in : p.notice_size < 2 ^ 16
  pub check_in : p.check_code < 2 ^ 16

ltb_of_le : (a b : ℕ) → b ≤ a → ltb a b ≡ false
ltb_of_le a b h = ground arith

-- A number at the beginning of a text, and what follows.
number_first :
    (n len : ℕ) (rest : Text)
    → n < 2 ^ len
    → len ≤ 64
    → conv_to_ten_digits 2 (take len (conv_to_string 2 n len ++ rest)) % 2 ^ len ≡ n
number_first n len rest h k =
    rw (take_exact len (conv_to_string 2 n len) rest (length-conv_to_string n len))
      (ap (λ v. v % 2 ^ len) (conv_to_ten_digits-conv_to_string n len h fits) ∙ mod-eq_of_lt h)
  where
    fits : n < 2 ^ 64
    fits = omega (arith, pow-le-pow_right {n = 2} (omega arith) {i = len} {j = 64} k)

number_after : (n len : ℕ) (rest : Text) → drop len (conv_to_string 2 n len ++ rest) ≡ rest
number_after n len rest = drop_exact len (conv_to_string 2 n len) rest (length-conv_to_string n len)

-- The packet that `feed` makes of another one's text: that one's fields, and its own addresses.
abbrev pub carried : Packet → Packet → Packet
carried p q = record q {
  seq = p.seq;
  ack = p.ack;
  control = p.control;
  notice_size = p.notice_size;
  check_code = p.check_code;
  message = p.message;
}

-- For sequence numbers of at most 64 bits, feed reads from the text of a packet whose fields fit
-- in their places just that packet's fields, and keeps the addresses of the packet that it fills.
pub feed-to_string :
    (bits : ℕ) (p q : Packet)
    → bits ≤ 64
    → IsValid bits p
    → feed bits (to_string bits p) q ≡ (carried p q, true)
unfolding feed to_string
feed-to_string bits p q h v = rw (
  long_enough,
  number_first p.seq bits after_seq v.seq_in h,
  at_ack,
  number_first p.ack bits after_ack v.ack_in h,
  at_control,
  take_exact control_size p.control after_control v.control_in,
  at_notice,
  number_first p.notice_size 16 after_notice v.notice_in (omega arith),
  at_check,
  number_first p.check_code 16 p.message v.check_in (omega arith),
  at_message,
)
  where
    after_notice : Text
    after_notice = conv_to_string 2 p.check_code 16 ++ p.message

    after_control : Text
    after_control = conv_to_string 2 p.notice_size 16 ++ after_notice

    after_ack : Text
    after_ack = p.control ++ after_control

    after_seq : Text
    after_seq = conv_to_string 2 p.ack bits ++ after_ack

    text : Text
    text = conv_to_string 2 p.seq bits ++ after_seq

    at_ack : drop bits text ≡ after_seq
    at_ack = number_after p.seq bits after_seq

    at_control : drop (bits + bits) text ≡ after_ack
    at_control =
        sym (drop-drop bits bits text) ∙ ap (drop bits) at_ack ∙ number_after p.ack bits after_ack

    at_notice : drop (bits + bits + control_size) text ≡ after_control
    at_notice =
        sym (drop-drop (bits + bits) control_size text)
        ∙ ap (drop control_size) at_control
        ∙ drop_exact control_size p.control after_control v.control_in

    at_check : drop (bits + bits + control_size + 16) text ≡ after_notice
    at_check =
        sym (drop-drop (bits + bits + control_size) 16 text)
        ∙ ap (drop 16) at_notice
        ∙ number_after p.notice_size 16 after_notice

    at_message : drop (min_size bits) text ≡ p.message
    at_message =
        sym (drop-drop (bits + bits + control_size + 16) 16 text)
        ∙ ap (drop 16) at_check
        ∙ number_after p.check_code 16 p.message

    long_enough : ltb (length text) (min_size bits) ≡ false
    long_enough = ltb_of_le (length text) (min_size bits) (
        omega (
          arith,
          length-append (conv_to_string 2 p.seq bits) after_seq,
          length-append (conv_to_string 2 p.ack bits) after_ack,
          length-append p.control after_control,
          length-append (conv_to_string 2 p.notice_size 16) after_notice,
          length-append (conv_to_string 2 p.check_code 16) p.message,
          length-conv_to_string p.seq bits,
          length-conv_to_string p.ack bits,
          length-conv_to_string p.notice_size 16,
          length-conv_to_string p.check_code 16,
          v.control_in,
        ))
