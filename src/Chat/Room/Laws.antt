-- ===== src/Chat/Room/Laws.antt =====
-- What the events of the chat room (chatRoom.js) do to its conversations.
use cortono.Prelude.{
  Text, [], ◌∷◌, Option, none, not, ◌&&◌, ◌↔◌, arith, Bool-cases, ◌++◌, ℕ, ◌≡◌, refl, sym, ap, ◌∙◌,
  ◌≢◌, ◌⊎◌, text_eq→eq, Bool, some, true, false, if◌then◌else◌, if_elim, if_true, if_false, text_eq,
  inl, inr,
}
use cortono.Chat.Defs.{User, Message, Ended, returned, thrown}
use cortono.Chat.Trim.{trim, is_empty}
use cortono.Chat.Replies.{Reply, lacks_list, filter_data_lem}
use cortono.Chat.Replies
use cortono.Chat.Store.{push, lookup}
use cortono.Chat.Store.Laws.{lookup-ensure}
use cortono.Chat.Window.{Window, show_channel, post}
use cortono.Chat.Window.Laws.{IsValid, change_channel-IsValid, show_channel-IsValid, post-IsValid}
use cortono.Chat.Window
use cortono.Chat.Room.{
  scroll_footer, play_audio, Room, sent_message, send_msg, filter_data, received_message, receive,
  change_channel, settle, pick_face, click_document, Event, write, search_name, pick, press_send,
  select, reply, click_page, tick, step,
}

abbrev pub received : ℕ → Text → Room → Room
received now msg room = record room {
  window = post (received_message now room.window.channel msg) room.window;
  time = now;
  effects = room.effects ++ scroll_footer ∷ play_audio ∷ [];
}

-- The answer, once `filterData` is through.
abbrev pub answered : ℕ → Room → Option Text → Room × Ended
answered now room none = (record room { time = now }, thrown)
answered now room (some msg) = (received now msg room, returned)

-- What holds of the room as it is, with another time, and with a message, holds after a reply.
pub receive_elim {ℓ} :
    (P : Room → Type ℓ) (now : ℕ) (r : Reply) (room : Room)
    → P room
    → P (record room { time = now })
    → ((msg : Text) → P (received now msg room))
    → P (receive now r room).0
unfolding receive
receive_elim P now r room p p' q =
    if_elim (λ (s : Room × Ended). P s.0) (is_empty r.text) (λ _. p) (λ _. go (filter_data r))
  where
    go : (o : Option Text) → P (answered now room o).0
    go none = p'
    go (some msg) = q msg

-- How the handler ends: with an error for a reply with a text that brings no list where `filterData`
-- reads it, and else without.
abbrev pub ending : Event → Ended
ending (reply r) = if not (is_empty r.text) && lacks_list r then thrown else returned
ending (write s) = returned
ending (search_name s) = returned
ending (pick face) = returned
ending press_send = returned
ending (select u) = returned
ending click_page = returned
ending tick = returned

answered-ending :
    (now : ℕ) (room : Room) (o : Option Text) (lacks : Bool)
    → ((o ≡ none) ↔ (lacks ≡ true))
    → (answered now room o).1 ≡ (if lacks then thrown else returned)
answered-ending now room none lacks h = rw (h.0 refl)
answered-ending now room (some msg) false h = refl
answered-ending now room (some msg) true h = absurd (grind (arith, h.1 refl))

receive-ending : (now : ℕ) (r : Reply) (room : Room) → (receive now r room).1 ≡ ending (reply r)
unfolding receive filter_data
receive-ending now r room = elim (Bool-cases (is_empty r.text)) [
  | inl e ↦ rw (receive, e)
  | inr e ↦
      rw (receive, e)
        (answered-ending now room (Replies.filter_data r) (lacks_list r) (filter_data_lem r).1)
]

pub step-ending : (now : ℕ) (e : Event) (room : Room) → (step now e room).1 ≡ ending e
unfolding step
step-ending now (write s) room = refl
step-ending now (search_name s) room = refl
step-ending now (pick face) room = refl
step-ending now press_send room = refl
step-ending now (select u) room = refl
step-ending now (reply r) room = receive-ending now r room
step-ending now click_page room = refl
step-ending now tick room = refl

pub send_msg_blank :
    (now : ℕ) (room : Room) → is_empty (trim room.txt) ≡ true → send_msg now room ≡ room
unfolding send_msg
send_msg_blank now room h = if_true _ _ _ h

pub send_msg_window :
    (now : ℕ) (room : Room)
    → is_empty (trim room.txt) ≡ false
    → (send_msg now room).window ≡ post (sent_message now room) room.window
unfolding send_msg
send_msg_window now room h = ap (λ (s : Room). s.window) (if_false _ _ _ h)

-- The array that is shown is the one of the user at whose choice the watcher ran last, or no choice
-- was watched yet; the chosen user has an id.
pub record IsSettled (w : Window) (watched : User) : Type 0 where
  pub valid : IsValid w
  pub watched_shown : (lookup watched.id w.store.msg ≡ some w.msg_list) ⊎ (watched.id ≡ [])
  pub named : w.channel.id ≢ []

-- The watcher runs and finds the value of its last run.
same_value-IsSettled :
    (w : Window) (watched : User)
    → w.channel.id ≡ watched.id
    → IsSettled w watched
    → IsSettled (record w { queued = false }) watched
same_value-IsSettled w watched e v = record {
  valid = record {
    store_valid = v.valid.store_valid;
    owner = v.valid.owner;
    owned = v.valid.owned;
    shown = λ _. caught v.watched_shown;
  };
  watched_shown = v.watched_shown;
  named = v.named;
}
  where
    caught :
        (lookup watched.id w.store.msg ≡ some w.msg_list) ⊎ (watched.id ≡ [])
        → v.valid.owner ≡ w.channel.id
    caught (inl p) = v.valid.store_valid.distinct _ _ _ v.valid.owned p ∙ sym e
    caught (inr p) = absurd (v.named (e ∙ p))

-- The watcher runs and shows the new user's array.
new_value-IsSettled :
    (w : Window) (watched : User) → IsSettled w watched → IsSettled (show_channel w) w.channel
new_value-IsSettled w watched v = record {
  valid = show_channel-IsValid v.valid;
  watched_shown = inl (lookup-ensure w.channel.id w.store);
  named = v.named;
}

pub post-IsSettled :
    (m : Message) (w : Window) (watched : User) → IsSettled w watched → IsSettled (post m w) watched
unfolding post push
post-IsSettled m w watched v = record {
  valid = post-IsValid m v.valid;
  watched_shown = v.watched_shown;
  named = v.named;
}

abbrev pub RoomIsSettled : Room → Type 0
RoomIsSettled room = IsSettled room.window room.watched

settle-IsSettled : (room : Room) → RoomIsSettled room → RoomIsSettled (settle room)
unfolding settle
settle-IsSettled room v =
    if_elim RoomIsSettled room.window.queued
      {x = if text_eq room.window.channel.id room.watched.id
        then record room { window = record room.window { queued = false } }
        else record room {
          window = show_channel room.window;
          state_channel = room.window.channel;
          watched = room.window.channel;
          effects = room.effects ++ scroll_footer ∷ [];
        }}
      {y = room}
      (λ _.
        if_elim RoomIsSettled (text_eq room.window.channel.id room.watched.id)
          (λ same. same_value-IsSettled room.window room.watched (text_eq→eq _ _ same) v)
          (λ _. new_value-IsSettled room.window room.watched v))
      (λ _. v)

-- Users that can be chosen have an id.
abbrev pub IsNamed : Event → Type 0
IsNamed (select u) = u.id ≢ []
IsNamed _ = Unit

pub step-IsSettled :
    (now : ℕ) (e : Event) (room : Room)
    → IsNamed e
    → RoomIsSettled room
    → RoomIsSettled (step now e room).0
unfolding step pick_face click_document change_channel Window.change_channel
step-IsSettled now (write s) room h v = v
step-IsSettled now (search_name s) room h v = v
step-IsSettled now (pick face) room h v = v
step-IsSettled now press_send room h v =
    unfold send_msg in
    if_elim RoomIsSettled (is_empty (trim room.txt)) (λ _. v)
      (λ _. post-IsSettled (sent_message now room) room.window room.watched v)
step-IsSettled now (select u) room h v = record {
  valid = change_channel-IsValid u v.valid;
  watched_shown = v.watched_shown;
  named = h;
}
step-IsSettled now (reply r) room h v = receive_elim RoomIsSettled now r room v v (λ msg.
    post-IsSettled (received_message now room.window.channel msg) room.window room.watched v)
step-IsSettled now click_page room h v = v
step-IsSettled now tick room h v = settle-IsSettled room v
