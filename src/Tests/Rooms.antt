-- ===== src/Tests/Rooms.antt =====
-- The chat room of chatRoom.js at concrete inputs.
use cortono.Prelude.{
  Text, codes, List, [], ◌∷◌, ◌++◌, ℕ, ◌≡◌, refl, inl, false, some, if◌then◌else◌, text_eq, all,
  map,
}
use cortono.Chat.Defs.{User, robot, send}
use cortono.Face.Table.{face_json}
use cortono.Face.Defs.{replace_face}
use cortono.Chat.Trim.{is_space}
use cortono.Chat.Store.{history}
use cortono.Chat.Window.{Window}
use cortono.Chat.Window.Laws.{Grows, single-IsValid}
use cortono.Chat.Room.{Room, send_msg, Event, press_send, select, tick}
use cortono.Chat.Room.Alter.{TrainDetail}
use cortono.Chat.Room.Laws.{RoomIsSettled, ending}
use cortono.Chat.Room.Sessions.{run, room_run_total, room_send_msg_lem}

abbrev window : Window
window = record {
  store = record { arrays = [] ∷ [] ∷ []; msg = (robot.id, 0) ∷ [] };
  channel = robot;
  msg_list = 0;
  queued = false;
}

abbrev friend : User
friend = record { id = codes "b11"; nick_name = codes "friend"; pic = codes "10.jpg" }

abbrev room : Room
room = record {
  window = window;
  state_channel = robot;
  watched = robot;
  cur_user = friend;
  online_list = robot ∷ friend ∷ [];
  txt = codes "hello";
  keywords = codes "rie";
  show = false;
  show_menu = false;
  time = 0;
  effects = [];
}

room-IsSettled : RoomIsSettled room
room-IsSettled = record {
  valid = single-IsValid robot false;
  watched_shown = inl refl;
  named = λ e. cc;
}

abbrev events : List (ℕ × Event)
events = (1, press_send) ∷ (2, select friend) ∷ (3, tick) ∷ []

room_run_total_example :
    RoomIsSettled (run events room).0
    × ((j : Text)
        → Grows (history room.window.store j) (history (run events room).0.window.store j))
    × ((run events room).1 ≡ map (λ e. ending e.1) events)
room_run_total_example = room_run_total events room (tt, ((λ e. cc), (tt, tt))) room-IsSettled

room_send_msg_lem_example :
    (history (send_msg 7 room).window.store robot.id ≡ (
      if all is_space room.txt
      then history room.window.store robot.id
      else if text_eq room.window.channel.id robot.id
      then history room.window.store robot.id
        ++ record {
          kind = send;
          sender = some room.cur_user;
          msg = replace_face face_json room.txt;
          time = some 7;
        }
          ∷ []
      else history room.window.store robot.id))
    × ((send_msg 7 room).txt ≡ (if all is_space room.txt then room.txt else []))
room_send_msg_lem_example = room_send_msg_lem 7 room robot.id room-IsSettled.valid refl

abbrev details : List TrainDetail
details =
    record {
      train_station = codes "a";
      arrive_time = codes "1";
      start_time = codes "2";
      km = codes "3";
    }
    ∷ record { train_station = codes "数据没有被发现"; arrive_time = []; start_time = []; km = [] }
    ∷ []
