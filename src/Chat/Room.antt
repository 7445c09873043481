-- ===== src/Chat/Room.antt =====
-- http/example/file_server/www/js/chatRoom.js: the chat room with its tools.
pub mod Api
pub mod Alter
pub mod Laws
pub mod Sessions
pub mod Names
use cortono.Prelude.{
  Text, codes, List, [], ◌∷◌, ◌++◌, ℕ, Bool, true, false, Option, none, some, if◌then◌else◌,
  text_eq, includes,
}
use cortono.Face.Defs.{Face, token, replace_face}
use cortono.Face.Table.{face_json}
use cortono.Time.Defs.{Date, text, format_time}
use cortono.Chat.Defs.{User, Kind, sys, send, user, Message, robot, Ended, returned, thrown}
use cortono.Chat.Trim.{trim, is_empty}
use cortono.Chat.Replies
use cortono.Chat.Replies.{Reply}
use cortono.Chat.Store
use cortono.Chat.Store.{Store, lookup}
use cortono.Chat.Window
use cortono.Chat.Window.{Window, show_channel, post}
use Api.{Call, ask_robot, call_for}

-- What the page does outside its own state.
pub data Effect : Type 0 where
  scroll_footer : Effect
  ajax : Call → Effect
  play_audio : Effect

-- The data of the Vue instance, with `store.state.channel`, and the value of `channel` at which its
-- watcher ran last.
pub record Room : Type 0 where
  pub window : Window
  open window use *
  pub state_channel : User
  pub watched : User
  pub cur_user : User
  pub online_list : List User
  pub txt : Text
  pub keywords : Text
  pub show : Bool
  pub show_menu : Bool
  pub time : ℕ
  pub effects : List Effect

-- `channel: {}`
abbrev pub no_user : User
no_user = record { id = []; nick_name = []; pic = [] }

-- `data`, and the object `store`: the robot's array is the first of the heap, the empty `msgList`
-- the second. The field `time` is "" at first, which is shown as nothing.
unfoldable pub created : Room
created = record {
  window = record {
    store = record { arrays = [] ∷ [] ∷ []; msg = (codes "a110", 0) ∷ [] };
    channel = no_user;
    msg_list = 1;
    queued = false;
  };
  state_channel = robot;
  watched = no_user;
  cur_user = record {
    id = codes "1";
    nick_name = codes "似水流年";
    pic = codes "http://q.qlogo.cn/headimg_dl?dst_uin=705597001&spec=100";
  };
  online_list =
      robot
      ∷ record {
        id = codes "b11";
        nick_name = codes "温柔的荆棘";
        pic = codes "http://cleverqin.oschina.io/site/IM/img/10.jpg";
      }
      ∷ [];
  txt = [];
  keywords = [];
  show = false;
  show_menu = false;
  time = 0;
  effects = [];
}

abbrev pub greeting : ℕ → Message
greeting now = record { kind = sys; sender = none; msg = codes "系统消息：机器人加入了聊天室"; time = some now }

-- `mounted`; `none` is the error of pushing onto an array that is not there.
unfoldable pub mounted : ℕ → Room → Option Room
mounted now room = elim (lookup room.state_channel.id room.window.store.msg) [
  | none ↦ none
  | some r ↦ some (record room {
    window =
        post (greeting now)
          (record room.window { channel = room.state_channel; msg_list = r; queued = true });
  })
]

abbrev pub scroll : Room → Room
scroll room = record room { effects = room.effects ++ scroll_footer ∷ [] }

unfoldable pub sent_message : ℕ → Room → Message
sent_message now room = record {
  kind = send;
  sender = some room.cur_user;
  msg = replace_face face_json room.txt;
  time = some now;
}

-- `postMsg`
abbrev pub post_msg : Text → Room → Room
post_msg msg room = record room { effects = room.effects ++ ajax (ask_robot msg) ∷ [] }

-- `sendMsg`; the other branch assigns to `this.msg`, which nothing reads.
unfoldable pub send_msg : ℕ → Room → Room
send_msg now room =
    if is_empty (trim room.txt)
    then room
    else let pushed : Room = record room {
      window = post (sent_message now room) room.window;
      time = now;
    } in
      record (post_msg room.txt (scroll pushed)) { txt = [] }

-- `filterData`, whose text here is that of im.js
unfoldable pub filter_data : Reply → Option Text
filter_data reply = Replies.filter_data reply

unfoldable pub received_message : ℕ → User → Text → Message
received_message now channel msg = record {
  kind = user;
  sender = some channel;
  msg = msg;
  time = some now;
}

-- The answer to `postMsg`: a reply without a text is dropped; the time is taken before `filterData`
-- throws.
unfoldable pub receive : ℕ → Reply → Room → Room × Ended
receive now reply room =
    if is_empty reply.text then (room, returned) else elim (filter_data reply) [
      | none ↦ (record room { time = now }, thrown)
      | some msg ↦ (
        record room {
          window = post (received_message now room.window.channel msg) room.window;
          time = now;
          effects = room.effects ++ scroll_footer ∷ play_audio ∷ [];
        },
        returned,
      )
    ]

-- `changeChannel` of a user's line in the list
unfoldable pub change_channel : User → Room → Room
change_channel u room = record room { window = Window.change_channel u room.window }

-- `getLastMsg` of a user's line
unfoldable pub get_last_msg : Room → User → Text
get_last_msg room u = Store.get_last_msg room.window.store u.id

-- The watcher of `channel`, which compares the new value with the one at its last run.
unfoldable pub settle : Room → Room
settle room =
    if room.window.queued
    then if text_eq room.window.channel.id room.watched.id
      then record room { window = record room.window { queued = false } }
      else record room {
        window = show_channel room.window;
        state_channel = room.window.channel;
        watched = room.window.channel;
        effects = room.effects ++ scroll_footer ∷ [];
      }
    else room

-- the panel's callback
unfoldable pub pick_face : Face → Room → Room
pick_face face room = record room { txt = room.txt ++ token face.title }

-- the page's click listener
unfoldable pub click_document : Room → Room
click_document room = record room { show_menu = false }

-- `filterName`, with its loop
filter_from : Text → List User → List User → List User
filter_from keywords arr [] = arr
filter_from keywords arr (item ∷ items) =
    filter_from keywords (if includes keywords item.nick_name then arr ++ item ∷ [] else arr) items

unfoldable pub filter_name : Room → List User
unfolding filter_from
filter_name room = filter_from room.keywords [] room.online_list

-- the Vue filter `ago`
unfoldable pub ago : (ℕ → Date) → ℕ → Option Text
ago date_of value = format_time date_of value (text (codes "%h:%m"))

-- What can happen on the page.
pub data Event : Type 0 where
  write : Text → Event
  search_name : Text → Event
  pick : Face → Event
  press_send : Event
  select : User → Event
  reply : Reply → Event
  click_page : Event
  tick : Event

unfoldable pub step : ℕ → Event → Room → Room × Ended
step now (write s) room = (record room { txt = s }, returned)
step now (search_name s) room = (record room { keywords = s }, returned)
step now (pick face) room = (pick_face face room, returned)
step now press_send room = (send_msg now room, returned)
step now (select u) room = (change_channel u room, returned)
step now (reply r) room = receive now r room
step now click_page room = (click_document room, returned)
step now tick room = (settle room, returned)
