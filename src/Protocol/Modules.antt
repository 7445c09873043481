-- ===== src/Protocol/Modules.antt =====
-- The modules that a packet passes in the folder protocol (send_module.hpp, recv_module.hpp,
-- resend_module.hpp, lost_packet_module.hpp, modify_module.hpp), and the connection of module.hpp that
-- chains them as client.cc and server.cc do.
pub mod Sending
pub mod Answers
pub mod Timers
pub mod Handling
pub mod Acks
use cortono.Prelude.{
  Text, List, [], ◌∷◌, ◌++◌, ℕ, ◌+◌, ◌-◌, ◌%◌, ◌^◌, Option, none, some, ltb, ◌==◌, if◌then◌else◌,
  Bool, true, false, not, length,
}
use cortono.Protocol.Packet.{
  Packet, set_seq, set_ack, to_string, is_error_packet, is_recv_ack_packet, is_recv_data_packet,
  is_send_ack_packet, is_send_data_packet, set_ack_flag, set_error_packet,
}
use cortono.Protocol.SlideWindow.{
  SlideWindow, add64, in_valid_range, set_flag_if_valid, move_if_valid,
}

pub record SendModule : Type 0 where
  pub send_window : SlideWindow
  pub seq : ℕ

pub record RecvModule : Type 0 where
  pub recv_window : SlideWindow
  pub peer_ip : Text
  pub peer_port : ℕ

-- A packet's place and the number of the timer that sends it again.
pub record Timer : Type 0 where
  pub start_seq : ℕ
  pub end_seq : ℕ
  pub id : ℕ

-- What the module asks of the event loop: to send a text every so often, and to stop that.
pub data LoopCall : Type 0 where
  run_every : Text → Text → ℕ → LoopCall
  cancel_timer : ℕ → LoopCall

-- The loop of `cancel_timer`: the timers that stay, and the numbers of those that are cancelled.
unfoldable pub cancel_until : ℕ → List Timer → List Timer × List LoopCall
cancel_until ack [] = ([], [])
cancel_until ack (t ∷ ts) =
    let rest = cancel_until ack ts in
    if t.start_seq == ack then (t ∷ ts, []) else (rest.0, cancel_timer t.id ∷ rest.1)

-- A difference of two `std::uint64_t`.
abbrev pub sub64 : ℕ → ℕ → ℕ
sub64 a b = (a + 2 ^ 64 - b) % 2 ^ 64

-- `BufferSize`, and the bits of a packet's sequence numbers.
module _ (size bits : ℕ) where
  -- Whether `len` bytes more lie in the send window.
  abbrev pub fits : ℕ → SendModule → Bool
  fits len m = in_valid_range size m.send_window m.seq (add64 m.seq len)

  unfoldable pub send_check : Packet → SendModule → Bool
  send_check p m =
      if is_error_packet p
      then true
      else if is_recv_data_packet p
      then true
      else if is_recv_ack_packet p
      then true
      else if is_send_data_packet p
      then fits (length p.message) m
      else true

  unfoldable pub next_seq : ℕ → ℕ → ℕ
  next_seq len seq = if ltb len (sub64 size seq) then add64 seq len else sub64 len (sub64 size seq)

  -- `none` means that the window's loop does not end.
  unfoldable pub send_handle : Packet → SendModule → Option (Packet × SendModule)
  unfolding next_seq
  send_handle p m =
      if is_error_packet p
      then some (p, m)
      else if is_recv_data_packet p
      then some (p, m)
      else if is_recv_ack_packet p
      then (elim (move_if_valid size p.ack m.send_window) [
        | none ↦ none
        | some (w, _) ↦ some (p, record m { send_window = w })
      ])
      else if is_send_data_packet p
      then some (set_seq bits m.seq p, record m { seq = next_seq (length p.message) m.seq })
      else some (p, m)

  unfoldable pub recv_handle : Packet → RecvModule → Packet × RecvModule
  recv_handle p m =
      if is_error_packet p
      then (p, m)
      else if is_recv_data_packet p
      then (let w = (set_flag_if_valid size p.message p.seq m.recv_window).0 in
          (
            set_ack bits w.win_left (set_seq bits 0 p),
            record { recv_window = w; peer_ip = p.src_ip; peer_port = p.src_port },
          ))
      else (p, m)

  -- `new_id` is the number that `run_every` returns.
  unfoldable pub resend_handle : ℕ → Packet → List Timer → List Timer × List LoopCall
  unfolding cancel_until
  resend_handle new_id p timers =
      if is_error_packet p
      then (timers, [])
      else if is_recv_data_packet p
      then (timers, [])
      else if is_recv_ack_packet p
      then cancel_until p.ack timers
      else if is_send_data_packet p
      then (let end_seq = add64 p.seq (length p.message) % size in
          (
            timers ++ record { start_seq = p.seq; end_seq = end_seq; id = new_id } ∷ [],
            run_every (to_string bits p) p.des_ip p.des_port ∷ [],
          ))
      else (timers, [])

-- `hit` is whether the random number falls on a loss.
unfoldable pub lost_handle : Bool → Packet → Packet
lost_handle hit p = if is_recv_data_packet p then (if hit then set_error_packet p else p) else p

-- The module's own address.
unfoldable pub modify_handle : Text → ℕ → Packet → Packet
modify_handle local_ip local_port p =
    let from_here = record p { src_ip = local_ip; src_port = local_port } in
    if is_error_packet p
    then p
    else if is_recv_data_packet p
    then record (set_ack_flag p) {
      des_ip = p.src_ip;
      des_port = p.src_port;
      src_ip = local_ip;
      src_port = local_port;
      message = [];
    }
    else if is_recv_ack_packet p
    then p
    else if is_send_data_packet p
    then from_here
    else if is_send_ack_packet p
    then from_here
    else p

pub record Connection : Type 0 where
  pub local_ip : Text
  pub local_port : ℕ
  pub receiver : RecvModule
  pub sender : SendModule
  pub timers : List Timer

-- What a call of `handle_packet` does: the text that it sends with its address, what it asks of the
-- loop, and what it returns.
pub record Handled : Type 0 where
  pub connection : Connection
  pub sent : Option (Text × Text × ℕ)
  pub calls : List LoopCall
  pub done : Bool

module _ (size bits : ℕ) where
  -- The end of `handle_packet`, where the modules are through with the packet.
  abbrev pub sending : Packet → Connection → List LoopCall → Handled
  sending p c calls =
      if is_error_packet p
      then record { connection = c; sent = none; calls = calls; done = false }
      else record {
        connection = c;
        sent =
            if is_send_ack_packet p
            then some (to_string bits p, p.des_ip, p.des_port)
            else if is_send_data_packet p
            then some (to_string bits p, p.des_ip, p.des_port)
            else none;
        calls = calls;
        done = true;
      }

  -- `hit` and `hit'` are the draws of the two modules that lose packets.
  unfoldable pub handle_packet : Bool → Bool → ℕ → Packet → Connection → Option Handled
  handle_packet hit hit' new_id p c =
      let (p', receiver) = recv_handle size bits (lost_handle hit p) c.receiver in
      if not (send_check size bits p c.sender)
      then some (record { connection = c; sent = none; calls = []; done = false })
      else (elim (send_handle size bits p' c.sender) [
        | none ↦ none
        | some (p'', sender) ↦
            let (timers, calls) = resend_handle size bits new_id p'' c.timers in
            some (
              sending (modify_handle c.local_ip c.local_port (lost_handle hit' p''))
                (record c { receiver = receiver; sender = sender; timers = timers }) calls)
      ])
