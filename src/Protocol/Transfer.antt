-- ===== src/Protocol/Transfer.antt =====
-- A transfer from a sender (protocol/send_module.hpp) to a receiver (protocol/recv_module.hpp) over
-- a network that may lose, double and reorder packets.
pub mod Steps
pub mod OnWay
pub mod Order
use cortono.Prelude.{
  Text, List, [], ◌∷◌, ◌++◌, ℕ, ◌+◌, ◌-◌, ◌%◌, ◌<◌, ◌≤◌, ◌≡◌, true, some, length, get_elem?,
}
use cortono.Protocol.Packet.{Packet, is_recv_ack_packet, is_recv_data_packet, is_send_data_packet}
use cortono.Protocol.SlideWindow.{SlideWindow, created, recv_all}
use cortono.Protocol.SlideWindow.Modular.{slice}
use cortono.Protocol.Modules.{SendModule, RecvModule, send_check, send_handle, recv_handle}

-- All the packets that the two ends ever sent, the last one first: those of data, as `send_handle` makes
-- them, each with the number of its first byte in the stream, and the answers of `recv_handle`, each with
-- the number of bytes that the receiver had then.
pub record Net : Type 0 where
  pub data_sent : List (Packet × ℕ)
  pub acks_sent : List (Packet × ℕ)

abbrev pub nothing_sent : Net
nothing_sent = record { data_sent = []; acks_sent = [] }

module _ (size bits w : ℕ) (f : ℕ → ℕ) where
  abbrev pub new_sender : SendModule
  new_sender = record { send_window = created size w; seq = 0 }

  -- The sender, the receiver, what the reader has got, how many bytes of the stream are sent, and the
  -- network. What arrives has the number and the bytes of a packet that was sent, any one and any
  -- number of times. No data is older than the ring is long, less a window, and no acknowledgement is;
  -- and a window fits beside what is unread when data arrives.
  pub data Transfer : SendModule → RecvModule → Text → ℕ → Net → Type 0 where
    begin :
        (r : RecvModule) → r.recv_window ≡ created size w → Transfer new_sender r [] 0 nothing_sent
    send :
        {m m' : SendModule} {r : RecvModule} {t : Text} {q : ℕ} {net : Net} (p p' : Packet)
        (len : ℕ)
        → Transfer m r t q net
        → is_send_data_packet p ≡ true
        → p.message ≡ slice f q len
        → len ≤ size - w
        → send_check size bits p m ≡ true
        → send_handle size bits p m ≡ some (p', m')
        → Transfer m' r t (q + len) (record net { data_sent = (p', q) ∷ net.data_sent })
    deliver :
        {m : SendModule} {r : RecvModule} {t : Text} {q : ℕ} {net : Net} (p x : Packet) (a i : ℕ)
        → Transfer m r t q net
        → get_elem? net.data_sent i ≡ some (x, a)
        → is_recv_data_packet p ≡ true
        → p.seq ≡ x.seq
        → p.message ≡ x.message
        → q + w ≤ a + size
        → r.recv_window.readable_bytes + w < size
        → Transfer m (recv_handle size bits p r).1 t q (record net {
          acks_sent =
              (
                (recv_handle size bits p r).0,
                length t + (recv_handle size bits p r).1.recv_window.readable_bytes,
              )
              ∷ net.acks_sent;
        })
    acknowledge :
        {m m' : SendModule} {r : RecvModule} {t : Text} {q : ℕ} {net : Net} (p p' x : Packet)
        (k i : ℕ)
        → Transfer m r t q net
        → get_elem? net.acks_sent i ≡ some (x, k)
        → is_recv_ack_packet p ≡ true
        → p.ack ≡ x.ack
        → q + w < k + size
        → send_handle size bits p m ≡ some (p', m')
        → Transfer m' r t q net
    read :
        {m : SendModule} {r : RecvModule} {t bytes : Text} {q : ℕ} {net : Net} {s' : SlideWindow}
        → Transfer m r t q net
        → recv_all size r.recv_window ≡ some (bytes, s')
        → Transfer m (record r { recv_window = s' }) (t ++ bytes) q net
