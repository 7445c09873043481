-- ===== src/Chat/Im.antt =====
-- http/example/file_server/www/js/im.js: the chat page for phones.
pub mod Laws
pub mod Sending
use cortono.Prelude.{
  Text, codes, List, [], ◌∷◌, ◌++◌, ℕ, Bool, true, false, Option, none, some, if◌then◌else◌, map,
}
use cortono.Face.Defs.{Face, token, replace_face}
use cortono.Face.Table.{face_json}
use cortono.Chat.Defs.{User, Kind, sys, send, user, Message, robot, Ended, returned, thrown}
use cortono.Chat.Trim.{trim, is_empty}
use cortono.Chat.Replies.{Reply, filter_data}
use cortono.Chat.Store.{Store, lookup, get_last_msg}
use cortono.Chat.Window.{Window, change_channel, watch, post}

-- What the page does outside its own state: it scrolls the list to its end, asks the robot, and
-- plays the sound.
pub data Effect : Type 0 where
  scroll_footer : Effect
  request : List (Text × Text) → Effect
  play_audio : Effect

-- The data of the Vue instance.
pub record Im : Type 0 where
  pub window : Window
  open window use *
  pub cur_user : User
  pub online_list : List User
  pub content : Text
  pub show : Bool
  pub time : ℕ
  pub effects : List Effect

abbrev pub scroll : Im → Im
scroll im = record im { effects = im.effects ++ scroll_footer ∷ [] }

-- `data`: the robot's array is the first of the heap, the empty `msgList` the second.
unfoldable pub created : ℕ → Im
created now = record {
  window = record {
    store = record { arrays = [] ∷ [] ∷ []; msg = (codes "a110", 0) ∷ [] };
    channel = robot;
    msg_list = 1;
    queued = false;
  };
  cur_user = record { id = codes "c111"; nick_name = codes "似水流年"; pic = codes "img/img.jpg" };
  online_list =
      robot
      ∷ record { id = codes "b110"; nick_name = codes "温柔的荆棘"; pic = codes "img/10.jpg" }
      ∷ [];
  content = [];
  show = false;
  time = now;
  effects = [];
}

abbrev pub greeting : Message
greeting = record { kind = sys; sender = none; msg = codes "系统消息：机器人上线了"; time = none }

-- `mounted`; `none` is the error of pushing onto an array that is not there.
unfoldable pub mounted : ℕ → Im → Option Im
mounted now im = elim (lookup robot.id im.window.store.msg) [
  | none ↦ none
  | some r ↦ some (record im {
    window = post greeting (record im.window { channel = robot; msg_list = r });
    time = now;
  })
]

-- `getMsg`
abbrev pub get_msg : Text → Im → Im
get_msg msg im = record im {
  effects =
      im.effects
      ++ request (
          (codes "key", codes "a36d98ad2dfa44a487c74fefff41080c")
          ∷ (codes "info", msg)
          ∷ (codes "userid", codes "123456")
          ∷ [])
        ∷ [];
}

unfoldable pub sent_message : Im → Message
sent_message im = record {
  kind = send;
  sender = some im.cur_user;
  msg = replace_face face_json im.content;
  time = none;
}

-- `sendMsg`; the other branch assigns to `this.msg`, which nothing reads.
unfoldable pub send_msg : ℕ → Im → Im
send_msg now im =
    if is_empty (trim im.content)
    then im
    else let pushed : Im = record im { window = post (sent_message im) im.window } in
      let asked : Im = record (get_msg im.content pushed) { content = [] } in
      record (scroll asked) { time = now }

unfoldable pub received_message : User → Text → Message
received_message channel msg = record { kind = user; sender = some channel; msg = msg; time = none }

-- The answer to a request: a reply without a text is dropped; nothing is changed before
-- `filterData` throws.
unfoldable pub receive : ℕ → Reply → Im → Im × Ended
receive now reply im = if is_empty reply.text then (im, returned) else elim (filter_data reply) [
  | none ↦ (im, thrown)
  | some msg ↦ (
    record im {
      window = post (received_message im.window.channel msg) im.window;
      time = now;
      effects = im.effects ++ scroll_footer ∷ play_audio ∷ [];
    },
    returned,
  )
]

-- `changeChannel` of a user's line in the list
unfoldable pub choose : User → Im → Im
choose u im = record im { window = change_channel u im.window; show = false }

-- the watcher of `channel`
unfoldable pub settle : Im → Im
settle im =
    if im.window.queued
    then record im { window = watch im.window; effects = im.effects ++ scroll_footer ∷ [] }
    else im

-- the panel's callback
unfoldable pub pick_face : Face → Im → Im
pick_face face im = record im { content = im.content ++ token face.title }

-- What can happen: the user types, picks a face, sends or chooses a user; a reply comes; Vue runs
-- the watcher.
pub data Event : Type 0 where
  write : Text → Event
  pick : Face → Event
  press_send : Event
  select : User → Event
  reply : Reply → Event
  tick : Event

unfoldable pub step : ℕ → Event → Im → Im × Ended
unfolding send_msg receive choose settle pick_face
step now (write s) im = (record im { content = s }, returned)
step now (pick face) im = (pick_face face im, returned)
step now press_send im = (send_msg now im, returned)
step now (select u) im = (choose u im, returned)
step now (reply r) im = receive now r im
step now tick im = (settle im, returned)
