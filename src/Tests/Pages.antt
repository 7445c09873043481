-- ===== src/Tests/Pages.antt =====
-- The chat page of im.js at concrete inputs.
use cortono.Prelude.{
  Text, codes, List, [], ◌∷◌, ◌++◌, ℕ, ◌≡◌, refl, false, some, none, if◌then◌else◌, text_eq, all,
  map,
}
use cortono.Face.Table.{face_json}
use cortono.Face.Messages.{Part, typed, picked, written, displayed}
use cortono.Chat.Defs.{User, robot, returned, thrown, user}
use cortono.Chat.Trim.{is_space}
use cortono.Chat.Replies.{Reply}
use cortono.Chat.Store.{history, get_last_msg}
use cortono.Chat.Window.{Window}
use cortono.Chat.Window.Laws.{IsValid, Grows, single-IsValid}
use cortono.Chat.Im.{Im, sent_message, send_msg, receive, Event, press_send, select, reply, tick}
use cortono.Chat.Im.Laws.{run, ending, run_total}
use cortono.Chat.Im.Sending.{moved, send_msg_lem, get_last_msg-send_msg, receive_elsewhere}

abbrev window : Window
window = record {
  store = record { arrays = [] ∷ [] ∷ []; msg = (robot.id, 0) ∷ [] };
  channel = robot;
  msg_list = 0;
  queued = false;
}

abbrev friend : User
friend = record { id = codes "b110"; nick_name = codes "friend"; pic = codes "10.jpg" }

abbrev parts : List Part
parts = typed (codes "ok ") ∷ picked (codes "微笑") ∷ []

abbrev page : Im
page = record {
  window = window;
  cur_user = friend;
  online_list = robot ∷ [];
  content = written parts;
  show = false;
  time = 0;
  effects = [];
}

window-IsValid : IsValid window
window-IsValid = single-IsValid robot false

abbrev answer : Reply
answer = record { code = 100000; text = codes "hello"; url = none; list = none }

-- News without a list.
abbrev empty_news : Reply
empty_news = record { code = 302000; text = codes "news"; url = none; list = none }

abbrev events : List (ℕ × Event)
events =
    (1, press_send)
    ∷ (2, select friend)
    ∷ (3, reply answer)
    ∷ (4, tick)
    ∷ (5, reply empty_news)
    ∷ []

run_total_example :
    IsValid (run events page).0.window
    × ((j : Text)
        → Grows (history page.window.store j) (history (run events page).0.window.store j))
    × ((run events page).1 ≡ map (λ e. ending e.1) events)
run_total_example = run_total events page window-IsValid

-- The last event of these fails.
endings :
    map (λ (e : ℕ × Event). ending e.1) events
    ≡ returned ∷ returned ∷ returned ∷ returned ∷ thrown ∷ []
endings = refl

send_msg_lem_example :
    (history (send_msg 7 page).window.store robot.id ≡ (
      if all is_space page.content
      then history page.window.store robot.id
      else if text_eq page.window.channel.id robot.id
      then history page.window.store robot.id ++ sent_message page ∷ []
      else history page.window.store robot.id))
    × ((send_msg 7 page).content ≡ (if all is_space page.content then page.content else []))
send_msg_lem_example = send_msg_lem 7 page robot.id window-IsValid refl

get_last_msg-send_msg_example :
    get_last_msg (send_msg 7 page).window.store page.window.channel.id ≡ displayed face_json parts
unfolding is_space
get_last_msg-send_msg_example =
    get_last_msg-send_msg 7 page parts window-IsValid refl refl refl refl

receive_elsewhere_example :
    let (im', ended) = receive 9 answer (moved friend page) in
    (ended ≡ returned)
    × (history im'.window.store friend.id
        ≡ history page.window.store friend.id
          ++ record { kind = user; sender = some friend; msg = codes "hello"; time = none } ∷ [])
    × (history im'.window.store page.window.channel.id
        ≡ history page.window.store page.window.channel.id)
receive_elsewhere_example =
    receive_elsewhere 9 answer (codes "hello") friend page window-IsValid refl refl refl

abbrev news : Reply
news = record {
  code = 302000;
  text = codes "news";
  url = none;
  list =
      some (record { detailurl = some (codes "u"); article = some (codes "a"); name = none } ∷ []);
}
