-- ===== src/Tests/Datagrams.antt =====
-- The sliding window and the transfer of the folder protocol at concrete inputs.
use cortono.Prelude.{
  Text, codes, [], ◌∷◌, ℕ, ◌+◌, ◌%◌, ◌≡◌, ◌≤◌, ◌<◌, ◌↔◌, refl, true, false, some, none, arith, Bool,
  if◌then◌else◌, ltb,
}
use cortono.Protocol.Packet.{Packet, set_seq, set_ack, blank, make_data_packet, is_recv_data_packet}
use cortono.Protocol.SlideWindow.{
  SlideWindow, created, set_flag_if_valid, recv_all, in_valid_range, move_if_valid, test,
}
use cortono.Protocol.SlideWindow.Modular.{slice}
use cortono.Protocol.SlideWindow.Range.{in_valid_range-filling}
use cortono.Protocol.SlideWindow.Move.{Bounds, move_if_valid-Bounds}
use cortono.Protocol.SlideWindow.Overrun.{recv_all-none_iff}
use cortono.Protocol.SlideWindow.Stream.{Run, start, arrive, Run-prefix, Run-recv_all, Run-progress}
use cortono.Protocol.Modules.{SendModule, RecvModule, recv_handle}
use cortono.Protocol.Transfer.{Net, Transfer, new_sender}

-- The stream "ABC…", a ring of eight places and a window of three.
abbrev letters : ℕ → ℕ
letters i = i + 65

abbrev fresh : SlideWindow
fresh = created 8 3

-- The second byte comes first.
abbrev second_came : SlideWindow
second_came = (set_flag_if_valid 8 (slice letters 1 1) (1 % 8) fresh).0

abbrev both_came : SlideWindow
both_came = (set_flag_if_valid 8 (slice letters 0 1) (0 % 8) second_came).0

history : Run 8 3 letters both_came []
unfolding set_flag_if_valid
history = arrive 0 1 (arrive 1 1 start (omega arith) (omega arith)) (omega arith) (omega arith)

abbrev was_read : SlideWindow
was_read = record both_came { read_idx = 2; readable_bytes = 0 }

both_read : recv_all 8 both_came ≡ some (65 ∷ 66 ∷ [], was_read)
unfolding recv_all set_flag_if_valid
both_read = refl

Run-prefix_example : (65 ∷ 66 ∷ []) ≡ slice letters 0 2
Run-prefix_example =
    Run-prefix 8 3 letters (omega arith) (omega arith) (omega arith) (Run.read history both_read)

Run-recv_all_example :
    (s' : SlideWindow) × (recv_all 8 both_came
      ≡ some (slice letters 0 both_came.readable_bytes, s'))
    × (s'.readable_bytes ≡ 0)
Run-recv_all_example = Run-recv_all 8 3 letters (omega arith) (omega arith) (omega arith) history

Run-progress_example :
    let (s', took) =
      set_flag_if_valid 8
        (slice letters (0 + fresh.readable_bytes) 2)
        ((0 + fresh.readable_bytes) % 8)
        fresh in
    (took ≡ true)
    × (fresh.readable_bytes + 2 ≤ s'.readable_bytes)
    × (test s'.window s'.win_left ≡ false)
Run-progress_example =
    Run-progress 8 3 letters (omega arith) (omega arith) (omega arith) 2 start (omega arith)
      (omega arith) (omega arith)

-- A window round the end of the ring.
abbrev turned : SlideWindow
turned = record fresh { win_left = 6; win_right = 1 }

in_valid_range-filling_example :
    in_valid_range 8 turned (6 % 8) ((6 + 3) % 8) ≡ ltb (6 % 8) ((6 + 3) % 8)
in_valid_range-filling_example =
    in_valid_range-filling 8 3 (omega arith) (omega arith) turned 6 refl refl

move_if_valid-Bounds_example :
    (s' : SlideWindow) × (took : Bool) × (move_if_valid 8 (8 % 8) turned ≡ some (s', took))
    × Bounds 8 3 (if took then 8 else 6) s'
    × (took ≡ true → 6 ≤ 8)
    × (6 < 8 → 8 < 6 + 3 → took ≡ true)
move_if_valid-Bounds_example =
    move_if_valid-Bounds 8 3 (omega arith) (omega arith) (omega arith) turned 6 8
      (record { left = refl; right = refl }) (omega arith) (omega arith)

-- A ring full of unread bytes that begin at its third place.
abbrev full_ring : SlideWindow
full_ring = record fresh { win_left = 2; win_right = 5; read_idx = 2; readable_bytes = 8 }

recv_all-none_iff_example :
    (recv_all 8 full_ring ≡ none) ↔ ((full_ring.readable_bytes ≡ 8) × (0 < full_ring.read_idx))
recv_all-none_iff_example = recv_all-none_iff 8 full_ring (omega arith) refl (omega arith)

abbrev here : Text
here = codes "127.0.0.1"

abbrev new_receiver : RecvModule
new_receiver = record { recv_window = fresh; peer_ip = []; peer_port = 0 }

abbrev outgoing : Packet
outgoing = make_data_packet (codes "AB") here 10000 here 9999

abbrev incoming : Packet
incoming = record (blank here 9999 here 10000 here 9999) { message = codes "AB" }

abbrev sent_once : SendModule
sent_once = record (new_sender 8 3 3 letters) { seq = 2 }

abbrev data_only : Net
data_only = record { data_sent = (outgoing, 0) ∷ []; acks_sent = [] }

abbrev receiver_then : RecvModule
receiver_then = (recv_handle 8 3 incoming new_receiver).1

abbrev answered : Net
answered = record data_only {
  acks_sent =
      ((recv_handle 8 3 incoming new_receiver).0, receiver_then.recv_window.readable_bytes) ∷ [];
}

-- The answer is for two bytes.
answer_place : (recv_handle 8 3 incoming new_receiver).0.ack ≡ 2
unfolding recv_handle is_recv_data_packet set_flag_if_valid set_ack set_seq
answer_place = refl

abbrev ready : SlideWindow
ready = receiver_then.recv_window

abbrev used : SlideWindow
used = record ready { read_idx = 2; readable_bytes = 0 }
