-- ===== src/Protocol/Modules/Handling.antt =====
-- `handle_packet` of protocol/module.hpp: the modules in the order in which client.cc and server.cc
-- chain them.
use cortono.Prelude.{
  Text, List, [], ℕ, ◌≡◌, true, false, Bool, some, none, length, text_eq_refl, ==_refl,
}
use cortono.Protocol.Packet.{
  Packet, is_error_packet, is_recv_data_packet, is_send_data_packet, set_error_packet,
}
use cortono.Protocol.Modules.{
  SendModule, RecvModule, Connection, Timer, fits, send_check, send_handle, recv_handle,
  resend_handle, lost_handle, modify_handle, handle_packet,
}
use cortono.Protocol.Modules.Answers.{send_check-data, recv_data_kind}

lost_is_error : (p : Packet) → is_error_packet (set_error_packet p) ≡ true
unfolding is_error_packet set_error_packet
lost_is_error p = rw (text_eq_refl p.local_ip, ==_refl p.local_port)

lost_is_no_data : (p : Packet) → is_recv_data_packet (set_error_packet p) ≡ false
unfolding is_recv_data_packet is_error_packet set_error_packet
lost_is_no_data p = rw (text_eq_refl p.local_ip, ==_refl p.local_port)

lost_handle-hit :
    (p : Packet) → is_recv_data_packet p ≡ true → lost_handle true p ≡ set_error_packet p
unfolding lost_handle
lost_handle-hit p h = rw h

lost_handle-lost :
    (hit : Bool) (p : Packet) → lost_handle hit (set_error_packet p) ≡ set_error_packet p
unfolding lost_handle
lost_handle-lost hit p = rw (lost_is_no_data p)

modify_handle-lost :
    (ip : Text) (port : ℕ) (p : Packet)
    → modify_handle ip port (set_error_packet p) ≡ set_error_packet p
unfolding modify_handle
modify_handle-lost ip port p = rw (lost_is_error p)

module _ (size bits : ℕ) where
  -- A packet of data that does not fit in the send window is not sent, and nothing changes.
  pub handle_packet-full :
      (hit hit' : Bool) (new_id : ℕ) (p : Packet) (c : Connection)
      → is_send_data_packet p ≡ true
      → fits size bits (length p.message) c.sender ≡ false
      → handle_packet size bits hit hit' new_id p c
        ≡ some (record { connection = c; sent = none; calls = []; done = false })
  unfolding handle_packet
  handle_packet-full hit hit' new_id p c kind full =
      rw (send_check-data size bits p c.sender kind, full)

  -- The modules let a lost packet pass.
  recv_handle-lost :
      (p : Packet) (m : RecvModule)
      → recv_handle size bits (set_error_packet p) m ≡ (set_error_packet p, m)
  unfolding recv_handle
  recv_handle-lost p m = rw (lost_is_error p)

  send_handle-lost :
      (p : Packet) (m : SendModule)
      → send_handle size bits (set_error_packet p) m ≡ some (set_error_packet p, m)
  unfolding send_handle
  send_handle-lost p m = rw (lost_is_error p)

  resend_handle-lost :
      (new_id : ℕ) (p : Packet) (ts : List Timer)
      → resend_handle size bits new_id (set_error_packet p) ts ≡ (ts, [])
  unfolding resend_handle
  resend_handle-lost new_id p ts = rw (lost_is_error p)

  send_check-recv_data :
      (p : Packet) (m : SendModule) → is_recv_data_packet p ≡ true → send_check size bits p m ≡ true
  unfolding send_check
  send_check-recv_data p m h = rw (recv_data_kind p h, h)

  -- A packet of data for this end that the first module loses changes nothing in the connection,
  -- is not answered, and makes handle_packet return false.
  pub handle_packet-lost :
      (hit' : Bool) (new_id : ℕ) (p : Packet) (c : Connection)
      → is_recv_data_packet p ≡ true
      → handle_packet size bits true hit' new_id p c
        ≡ some (record { connection = c; sent = none; calls = []; done = false })
  unfolding handle_packet
  handle_packet-lost hit' new_id p c kind =
      rw
        (
          lost_handle-hit p kind,
          recv_handle-lost p c.receiver,
          send_check-recv_data p c.sender kind,
          send_handle-lost p c.sender,
          resend_handle-lost new_id p c.timers,
          lost_handle-lost hit' p,
          modify_handle-lost c.local_ip c.local_port p,
          lost_is_error p,
        )
        (rw (lost_handle-hit p kind, recv_handle-lost p c.receiver))
