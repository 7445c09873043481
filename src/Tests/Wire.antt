-- ===== src/Tests/Wire.antt =====
-- The buffer of net/buffer.hpp and the packets of the folder protocol at concrete inputs.
use cortono.Prelude.{
  Text, codes, List, [], ◌∷◌, ◌++◌, ◌≡◌, refl, true, false, none, some, arith, length,
}
use Prim.Native.Nat.{max}
use cortono.Prelude.Int.{negsuc}
use cortono.Net.Buffer.{Buffer, created, append, read_bytes, read_sv_util, read_util}
use cortono.Net.Buffer
use cortono.Net.Buffer.Queue.{
  Op, put, get, get_all, get_until, peek_until, print, run, buffer_run, buffer_step,
}
use cortono.Net.Buffer.Bounds.{IsValid, contents, append_lem}
use cortono.Net.Buffer.Refine.{run_refines}
use cortono.Protocol.Packet.{Packet, blank, make_data_packet, feed, to_string, is_recv_data_packet}
use cortono.Protocol.Packet.RoundTrip.{carried, feed-to_string}
use cortono.Protocol.SlideWindow
use cortono.Protocol.Modules.{Connection, handle_packet}
use cortono.Protocol.Modules.Acks.{received, answer, handle_packet-data}

-- A vector of four bytes, which has to move and to grow.
abbrev small_buffer : Buffer
small_buffer = created 4

abbrev calls : List Op
calls =
    put (codes "abc")
    ∷ get 2
    ∷ put (codes "de;f")
    ∷ peek_until (codes ";")
    ∷ get_until (codes ";")
    ∷ print
    ∷ get_until (codes "x")
    ∷ get_all
    ∷ []

buffer_replies :
    buffer_run calls small_buffer
    ≡ some ([] ∷ codes "ab" ∷ [] ∷ codes "cde;" ∷ codes "cde;" ∷ codes "f" ∷ codes "f" ∷ [] ∷ [])
unfolding buffer_run buffer_step append read_bytes read_sv_util read_util Buffer.to_string
buffer_replies = refl

run_refines_example : buffer_run calls small_buffer ≡ some (run calls (contents small_buffer))
run_refines_example = run_refines calls small_buffer (omega arith) (omega arith)

append_lem_example :
    (b' : Buffer) × (append (codes "hello") small_buffer ≡ some b')
    × IsValid b'
    × (contents b' ≡ contents small_buffer ++ codes "hello")
    × (length b'.buffer ≡ max 4 5)
append_lem_example = append_lem (codes "hello") small_buffer (omega arith) (omega arith)

abbrev here : Text
here = codes "127.0.0.1"

abbrev packet : Packet
packet = record (make_data_packet (codes "AB") here 10000 here 9999) { seq = 5 }

feed-to_string_example :
    feed 16 (to_string 16 packet) (blank here 9999 here 10000 here 9999)
    ≡ (carried packet (blank here 9999 here 10000 here 9999), true)
feed-to_string_example =
    feed-to_string 16 packet (blank here 9999 here 10000 here 9999) (omega arith) (omega arith)

-- What the receiver makes of the packet's text.
abbrev arriving : Packet
arriving = carried packet (blank here 9999 here 10000 here 9999)

arriving_kind : is_recv_data_packet arriving ≡ true
unfolding is_recv_data_packet
arriving_kind = refl

abbrev connection : Connection
connection = record {
  local_ip = here;
  local_port = 9999;
  receiver = record { recv_window = SlideWindow.created 16 7; peer_ip = []; peer_port = 0 };
  sender = record { send_window = SlideWindow.created 16 7; seq = 0 };
  timers = [];
}

-- The packet is stored and answered.
arrival :
    handle_packet 16 16 false false 0 arriving connection
    ≡ some (record {
      connection = record connection { receiver = received 16 16 arriving connection };
      sent = some (to_string 16 (answer 16 16 arriving connection), here, 10000);
      calls = [];
      done = true;
    })
arrival = handle_packet-data 16 16 0 arriving connection arriving_kind refl refl

-- A negative number of bytes is an exception.
negative_read : read_bytes (negsuc 0) small_buffer ≡ none
unfolding read_bytes
negative_read = refl
