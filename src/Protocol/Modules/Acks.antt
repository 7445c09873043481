-- ===== src/Protocol/Modules/Acks.antt =====
-- The answer to a packet of data in `handle_packet` of protocol/module.hpp.
use cortono.Prelude.{
  Text, List, [], ◌∷◌, ℕ, ◌%◌, ◌^◌, ◌≡◌, refl, sym, ◌∙◌, arith, true, false, Bool, some, not, ◌&&◌,
  ◌||◌, set, text_eq, ◌==◌, text_eq→eq, ==_iff, get_elem?, get_elem?-set_self,
  lt-length_of_get_elem?,
}
use cortono.Protocol.Packet.{
  Packet, ack_flag, set_seq, set_ack, to_string, is_error_packet, is_recv_data_packet,
  is_send_ack_packet, set_ack_flag,
}
use cortono.Protocol.SlideWindow.{SlideWindow, set_flag_if_valid}
use cortono.Protocol.Modules.{
  SendModule, RecvModule, Connection, Timer, send_check, send_handle, recv_handle, resend_handle,
  lost_handle, modify_handle, handle_packet,
}
use cortono.Protocol.Modules.Answers.{recv_data_kind}

text_eq_comm : (s t : Text) → text_eq s t ≡ text_eq t s
text_eq_comm [] [] = refl
text_eq_comm [] (b ∷ t) = refl
text_eq_comm (a ∷ s) [] = refl
text_eq_comm (a ∷ s) (b ∷ t) = ground (arith, text_eq_comm s t)

==_comm : (a b : ℕ) → (a == b) ≡ (b == a)
==_comm a b = ground arith

lost_handle-miss : (p : Packet) → lost_handle false p ≡ p
unfolding lost_handle
lost_handle-miss p = ground arith

-- What an incoming packet of data is known to be.
recv_data_parts :
    (p : Packet)
    → is_recv_data_packet p ≡ true
    → (is_error_packet p ≡ false)
      × (text_eq p.local_ip p.des_ip ≡ true)
      × ((p.local_port == p.des_port) ≡ true)
      × (get_elem? p.control 1 ≡ some b'0')
unfolding is_recv_data_packet is_error_packet
recv_data_parts p h = ground arith

not-and : (x y : Bool) → (x && y) ≡ false → (not x || not y) ≡ true
not-and true true h = sym h
not-and true false h = refl
not-and false y h = refl

module _ (size bits : ℕ) where
  -- What is stored, and the packet that answers.
  abbrev pub stored : Packet → Connection → SlideWindow
  stored p c = (set_flag_if_valid size p.message p.seq c.receiver.recv_window).0

  abbrev pub acked : Packet → Connection → Packet
  acked p c = record p { seq = 0 % 2 ^ bits; ack = (stored p c).win_left % 2 ^ bits }

  abbrev pub received : Packet → Connection → RecvModule
  received p c = record { recv_window = stored p c; peer_ip = p.src_ip; peer_port = p.src_port }

  abbrev pub answer : Packet → Connection → Packet
  answer p c = record (acked p c) {
    control = set p.control 1 b'1';
    message = [];
    src_ip = c.local_ip;
    src_port = c.local_port;
    des_ip = p.src_ip;
    des_port = p.src_port;
  }

  recv_handle-stored :
      (p : Packet) (c : Connection)
      → is_recv_data_packet p ≡ true
      → recv_handle size bits p c.receiver ≡ (acked p c, received p c)
  unfolding recv_handle set_seq set_ack
  recv_handle-stored p c h = rw (recv_data_kind p h, h)

  acked_kind :
      (p : Packet) (c : Connection)
      → is_recv_data_packet p ≡ true
      → is_recv_data_packet (acked p c) ≡ true
  unfolding is_recv_data_packet is_error_packet
  acked_kind p c h = h

  send_check-recv :
      (p : Packet) (m : SendModule) → is_recv_data_packet p ≡ true → send_check size bits p m ≡ true
  unfolding send_check
  send_check-recv p m h = rw (recv_data_kind p h, h)

  send_handle-recv :
      (p : Packet) (m : SendModule)
      → is_recv_data_packet p ≡ true
      → send_handle size bits p m ≡ some (p, m)
  unfolding send_handle
  send_handle-recv p m h = rw (recv_data_kind p h, h)

  resend_handle-recv :
      (new_id : ℕ) (p : Packet) (ts : List Timer)
      → is_recv_data_packet p ≡ true
      → resend_handle size bits new_id p ts ≡ (ts, [])
  unfolding resend_handle
  resend_handle-recv new_id p ts h = rw (recv_data_kind p h, h)

  modify_handle-recv :
      (p : Packet) (c : Connection)
      → is_recv_data_packet (acked p c) ≡ true
      → modify_handle c.local_ip c.local_port (acked p c) ≡ answer p c
  unfolding modify_handle set_ack_flag
  modify_handle-recv p c h = rw (recv_data_kind (acked p c) h, h)

  -- The answer goes to the other end.
  answer_kind :
      (p : Packet) (c : Connection)
      → is_recv_data_packet p ≡ true
      → p.local_ip ≡ c.local_ip
      → p.local_port ≡ c.local_port
      → (is_error_packet (answer p c) ≡ false) × (is_send_ack_packet (answer p c) ≡ true)
  unfolding is_send_ack_packet is_error_packet
  answer_kind p c h ip port =
      let (no_error, at_ip, at_port, flag) = recv_data_parts p h in
      let des_ip : p.des_ip ≡ c.local_ip = sym (text_eq→eq p.local_ip p.des_ip at_ip) ∙ ip in
      let des_port : p.des_port ≡ c.local_port =
        sym ((==_iff p.local_port p.des_port).0 at_port) ∙ port in
      let on = get_elem?-set_self p.control 1 b'1' (lt-length_of_get_elem? p.control 1 flag) in
      let apart : (text_eq c.local_ip p.src_ip && c.local_port == p.src_port) ≡ false =
        rw (text_eq_comm c.local_ip p.src_ip, ==_comm c.local_port p.src_port, ← des_ip, ← des_port)
          no_error in
      let flagged : ack_flag (answer p c) b'1' ≡ true = rw (on, ack_flag) in
      (
        apart,
        rw
            (
              ip,
              port,
              apart,
              not-and (text_eq c.local_ip p.src_ip) (c.local_port == p.src_port) apart,
            )
            flagged,
      )

  -- A packet of data for this end that no module loses is passed to the receive window, which stores
  -- it if it is in range, and answered to the address that it came from.
  pub handle_packet-data :
      (new_id : ℕ) (p : Packet) (c : Connection)
      → is_recv_data_packet p ≡ true
      → p.local_ip ≡ c.local_ip
      → p.local_port ≡ c.local_port
      → handle_packet size bits false false new_id p c
        ≡ some (record {
          connection = record c { receiver = received p c };
          sent = some (to_string bits (answer p c), p.src_ip, p.src_port);
          calls = [];
          done = true;
        })
  unfolding handle_packet
  handle_packet-data new_id p c kind ip port =
      let kind' = acked_kind p c kind in
      let (no_error, ack) = answer_kind p c kind ip port in
      rw
        (
          lost_handle-miss p,
          recv_handle-stored p c kind,
          send_check-recv p c.sender kind,
          send_handle-recv (acked p c) c.sender kind',
          resend_handle-recv new_id (acked p c) c.timers kind',
          lost_handle-miss (acked p c),
          modify_handle-recv p c kind',
          no_error,
          ack,
        )
        (rw (lost_handle-miss p, recv_handle-stored p c kind))
