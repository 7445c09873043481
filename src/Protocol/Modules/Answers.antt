-- ===== src/Protocol/Modules/Answers.antt =====
-- The kinds of packets exclude one another, and what the modules of the folder protocol do with each.
use cortono.Prelude.{ℕ, ◌≡◌, ◌%◌, ◌^◌, ap, sym, arith, true, false, Bool, some, length}
use cortono.Protocol.Packet.{
  Packet, set_seq, set_ack, is_error_packet, is_recv_ack_packet, is_recv_data_packet,
  is_send_data_packet,
}
use cortono.Protocol.SlideWindow.{SlideWindow, set_flag_if_valid, move_if_valid}
use cortono.Protocol.Modules.{
  SendModule, RecvModule, fits, send_check, send_handle, recv_handle, next_seq,
}

-- An outgoing packet of data is of no other kind.
pub send_data_kind :
    (p : Packet)
    → is_send_data_packet p ≡ true
    → (is_error_packet p ≡ false) × (is_recv_data_packet p ≡ false) × (is_recv_ack_packet p ≡ false)
unfolding is_send_data_packet is_recv_data_packet is_recv_ack_packet is_error_packet
send_data_kind p h = ground arith

pub recv_data_kind : (p : Packet) → is_recv_data_packet p ≡ true → is_error_packet p ≡ false
unfolding is_recv_data_packet is_error_packet
recv_data_kind p h = ground arith

pub recv_ack_kind :
    (p : Packet)
    → is_recv_ack_packet p ≡ true
    → (is_error_packet p ≡ false) × (is_recv_data_packet p ≡ false)
unfolding is_recv_ack_packet is_recv_data_packet is_error_packet
recv_ack_kind p h = ground arith

module _ (size bits : ℕ) where
  pub send_check-data :
      (p : Packet) (m : SendModule)
      → is_send_data_packet p ≡ true
      → send_check size bits p m ≡ fits size bits (length p.message) m
  unfolding send_check
  send_check-data p m h = let (e, d, a) = send_data_kind p h in rw (e, d, a, h)

  pub send_handle-data :
      (p : Packet) (m : SendModule)
      → is_send_data_packet p ≡ true
      → send_handle size bits p m
        ≡ some
            (set_seq bits m.seq p, record m { seq = next_seq size bits (length p.message) m.seq })
  unfolding send_handle
  send_handle-data p m h = let (e, d, a) = send_data_kind p h in rw (e, d, a, h)

  pub recv_handle-data :
      (p : Packet) (m : RecvModule)
      → is_recv_data_packet p ≡ true
      → (recv_handle size bits p m).1.recv_window
        ≡ (set_flag_if_valid size p.message p.seq m.recv_window).0
  unfolding recv_handle
  recv_handle-data p m h = rw (recv_data_kind p h, h)

  -- The answer carries the window's left bound.
  pub recv_handle-ack :
      (p : Packet) (m : RecvModule)
      → is_recv_data_packet p ≡ true
      → (recv_handle size bits p m).0.ack
        ≡ (recv_handle size bits p m).1.recv_window.win_left % 2 ^ bits
  unfolding recv_handle set_ack
  recv_handle-ack p m h = rw (recv_data_kind p h, h)

  -- The packet that goes out carries the sender's next place.
  pub send_handle-seq :
      (p p' : Packet) (m m' : SendModule)
      → is_send_data_packet p ≡ true
      → send_handle size bits p m ≡ some (p', m')
      → (p'.seq ≡ m.seq % 2 ^ bits) × (p'.message ≡ p.message)
  unfolding set_seq
  send_handle-seq p p' m m' h handled =
      let e = send_handle-data p m h in
      let same : set_seq bits m.seq p ≡ p' = cc in
      (ap Packet.seq (sym same), ap Packet.message (sym same))

  pub send_handle-ack :
      (p : Packet) (m : SendModule) (w : SlideWindow) (took : Bool)
      → is_recv_ack_packet p ≡ true
      → move_if_valid size p.ack m.send_window ≡ some (w, took)
      → send_handle size bits p m ≡ some (p, record m { send_window = w })
  unfolding send_handle
  send_handle-ack p m w took h moved = let (e, d) = recv_ack_kind p h in rw (e, d, h, moved)
