-- ===== src/Chat/Room/Sessions.antt =====
-- Sessions in the chat room (chatRoom.js), and what sending does in one.
use cortono.Prelude.{
  Text, List, [], ◌∷◌, ◌++◌, ℕ, ◌≡◌, refl, ap, ap₂, ◌∙◌, map, inr, some, true, false, if◌then◌else◌,
  if_elim, if_false, text_eq, Bool-cases, all, All, inl,
}
use cortono.Chat.Defs.{robot, send, Ended}
use cortono.Face.Defs.{replace_face}
use cortono.Face.Table.{face_json}
use cortono.Chat.Trim.{trim, is_empty, is_space, is_empty-trim}
use cortono.Chat.Store.{push, history}
use cortono.Chat.Store.Laws.{history-ensure}
use cortono.Chat.Window
use cortono.Chat.Window.{Window, post}
use cortono.Chat.Window.Laws.{
  IsValid, history-post_shown, post-Grows, Grows, Grows-refl, Grows-of_eq, Grows-trans,
  single-IsValid,
}
use cortono.Chat.Room.{
  Room, no_user, created, greeting, mounted, sent_message, send_msg, received_message,
  change_channel, settle, pick_face, click_document, Event, write, search_name, pick, press_send,
  select, reply, click_page, tick, step,
}
use cortono.Chat.Room.Laws.{
  ending, step-ending, receive_elim, step-IsSettled, post-IsSettled, RoomIsSettled, IsNamed,
  send_msg_blank, send_msg_window,
}

-- How a conversation of the room may change.
abbrev RoomGrows : Text → Room → Room → Type 0
RoomGrows j room room' = Grows (history room.window.store j) (history room'.window.store j)

step-Grows :
    (now : ℕ) (e : Event) (room : Room)
    → RoomIsSettled room
    → (j : Text) → RoomGrows j room (step now e room).0
unfolding step pick_face click_document change_channel Window.change_channel
step-Grows now (write s) room v j = Grows-refl _
step-Grows now (search_name s) room v j = Grows-refl _
step-Grows now (pick face) room v j = Grows-refl _
step-Grows now press_send room v j = elim (Bool-cases (is_empty (trim room.txt))) [
  | inl blank ↦ rw (send_msg_blank now room blank) (Grows-refl _)
  | inr full ↦ rw (send_msg_window now room full) (post-Grows (sent_message now room) v.valid j)
]
step-Grows now (select u) room v j = Grows-refl _
step-Grows now (reply r) room v j =
    receive_elim (RoomGrows j room) now r room (Grows-refl _) (Grows-refl _)
      (λ msg. post-Grows (received_message now room.window.channel msg) v.valid j)
step-Grows now click_page room v j = Grows-refl _
step-Grows now tick room v j =
    unfold settle in
    if_elim (RoomGrows j room) room.window.queued
      (λ _.
        if_elim (RoomGrows j room) (text_eq room.window.channel.id room.watched.id)
          (λ _. Grows-refl _)
          (λ _. Grows-of_eq _ _ (history-ensure room.window.channel.id room.window.store j)))
      (λ _. Grows-refl _)

-- A session: events with the times at which they come. The room after them, and how their handlers
-- ended.
unfoldable pub run : List (ℕ × Event) → Room → Room × List Ended
run [] room = (room, [])
run ((now, e) ∷ es) room =
    let (room', ended) = step now e room in
    let (last, others) = run es room' in (last, ended ∷ others)

-- Whatever happens in a settled chat room, where the users that are chosen have ids: the handler
-- of an event ends with an error exactly if the event is a reply with a text whose code is that of
-- news or recipes and that brings no list; the room stays settled (the array that is shown belongs
-- to one conversation, to the chosen user's once no watcher is queued), and every conversation
-- still begins with the messages that it had.
pub room_run_total :
    (es : List (ℕ × Event)) (room : Room)
    → All (λ e. IsNamed e.1) es
    → RoomIsSettled room
    → RoomIsSettled (run es room).0
      × ((j : Text) → Grows (history room.window.store j) (history (run es room).0.window.store j))
      × ((run es room).1 ≡ map (λ e. ending e.1) es)
unfolding run
room_run_total [] room h v = (v, λ j. Grows-refl _, refl)
room_run_total ((now, e) ∷ es) room (h, hs) v =
    let (settled, grown, ended) =
      room_run_total es (step now e room).0 hs (step-IsSettled now e room h v) in
    (
      settled,
      λ j. Grows-trans _ _ _ (step-Grows now e room v j) (grown j),
      ap₂ (◌∷◌) (step-ending now e room) ended,
    )

-- The chat room that the program creates and mounts is settled: the robot's conversation is shown,
-- with the greeting in it, though the watcher of the first choice is still to run.
pub room_mounted-created :
    (now : ℕ)
    → (room : Room) × (mounted now created ≡ some room)
      × RoomIsSettled room
      × (history room.window.store robot.id ≡ greeting now ∷ [])
unfolding mounted created history post push
room_mounted-created now = (
  _,
  refl,
  post-IsSettled (greeting now) _ no_user
      (record { valid = single-IsValid robot true; watched_shown = inr refl; named = λ e. cc }),
  refl,
)

-- In a valid room whose watcher is not queued, a text of white space only is not sent; any other
-- text is appended, with its face tokens replaced and the time of sending, to the conversation of
-- the chosen user and to no other, and the field is emptied.
pub room_send_msg_lem :
    (now : ℕ) (room : Room) (j : Text)
    → IsValid room.window
    → room.window.queued ≡ false
    → (history (send_msg now room).window.store j ≡ (
        if all is_space room.txt
        then history room.window.store j
        else if text_eq room.window.channel.id j
        then history room.window.store j
          ++ record {
            kind = send;
            sender = some room.cur_user;
            msg = replace_face face_json room.txt;
            time = some now;
          }
            ∷ []
        else history room.window.store j))
      × ((send_msg now room).txt ≡ (if all is_space room.txt then room.txt else []))
unfolding sent_message
room_send_msg_lem now room j v q = elim (Bool-cases (all is_space room.txt)) [
  | inl blank ↦ rw (blank, send_msg_blank now room (is_empty-trim room.txt ∙ blank)) (refl, refl)
  | inr text ↦
      let full : is_empty (trim room.txt) ≡ false = is_empty-trim room.txt ∙ text in
      rw text (
        rw (send_msg_window now room full) (history-post_shown (sent_message now room) v q j),
        unfold send_msg in ap (λ (s : Room). s.txt) (if_false _ _ _ full),
      )
]
