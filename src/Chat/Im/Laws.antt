-- ===== src/Chat/Im/Laws.antt =====
-- What the events of the chat page do to its conversations.
use cortono.Prelude.{
  Text, List, [], ◌∷◌, ◌++◌, ℕ, ◌≡◌, refl, ap, ap₂, map, not, ◌&&◌, ◌↔◌, arith, Option, none, some,
  Bool, true, false, if◌then◌else◌, if_elim, if_true, if_false, Bool-cases, inl, inr,
}
use cortono.Chat.Defs.{robot, Ended, returned, thrown}
use cortono.Chat.Trim.{trim, is_empty}
use cortono.Chat.Replies.{Reply, filter_data, reply_markup, lacks_list, filter_data_lem}
use cortono.Chat.Store.{history}
use cortono.Chat.Window.{change_channel, post}
use cortono.Chat.Window.Laws.{
  IsValid, change_channel-IsValid, watch-IsValid, history-watch, post-IsValid, history-post_shown,
  post-Grows, Grows, Grows-refl, Grows-of_eq, Grows-trans, single-IsValid,
}
use cortono.Chat.Im.{
  scroll_footer, play_audio, Im, created, greeting, mounted, sent_message, send_msg,
  received_message, receive, choose, settle, pick_face, Event, write, pick, press_send, select,
  reply, tick, step,
}

-- The page with a message of the chosen user.
abbrev pub received : ℕ → Text → Im → Im
received now msg im = record im {
  window = post (received_message im.window.channel msg) im.window;
  time = now;
  effects = im.effects ++ scroll_footer ∷ play_audio ∷ [];
}

-- The answer, once `filterData` is through.
abbrev pub answered : ℕ → Im → Option Text → Im × Ended
answered now im none = (im, thrown)
answered now im (some msg) = (received now msg im, returned)

pub receive-received :
    (now : ℕ) (r : Reply) (msg : Text) (im : Im)
    → is_empty r.text ≡ false
    → reply_markup r ≡ some msg
    → receive now r im ≡ (received now msg im, returned)
unfolding receive
receive-received now r msg im h e = rw (receive, h, (filter_data_lem r).0, e)

-- What holds of the page as it is, and with a message, holds after a reply.
receive_elim {ℓ} :
    (P : Im → Type ℓ) (now : ℕ) (r : Reply) (im : Im)
    → P im
    → ((msg : Text) → P (received now msg im))
    → P (receive now r im).0
unfolding receive
receive_elim P now r im p q =
    if_elim (λ (s : Im × Ended). P s.0) (is_empty r.text) (λ _. p) (λ _. go (filter_data r))
  where
    go : (o : Option Text) → P (answered now im o).0
    go none = p
    go (some msg) = q msg

pub send_msg_blank : (now : ℕ) (im : Im) → is_empty (trim im.content) ≡ true → send_msg now im ≡ im
unfolding send_msg
send_msg_blank now im h = if_true _ _ _ h

pub send_msg_window :
    (now : ℕ) (im : Im)
    → is_empty (trim im.content) ≡ false
    → (send_msg now im).window ≡ post (sent_message im) im.window
unfolding send_msg
send_msg_window now im h = ap (λ (s : Im). s.window) (if_false _ _ _ h)

step-IsValid :
    (now : ℕ) (e : Event) (im : Im) → IsValid im.window → IsValid (step now e im).0.window
unfolding step pick_face choose settle
step-IsValid now (write s) im v = v
step-IsValid now (pick face) im v = v
step-IsValid now press_send im v = elim (Bool-cases (is_empty (trim im.content))) [
  | inl blank ↦ rw (send_msg_blank now im blank) v
  | inr full ↦ rw (send_msg_window now im full) (post-IsValid (sent_message im) v)
]
step-IsValid now (select u) im v = change_channel-IsValid u v
step-IsValid now (reply r) im v =
    receive_elim (λ (s : Im). IsValid s.window) now r im v
      (λ msg. post-IsValid (received_message im.window.channel msg) v)
step-IsValid now tick im v =
    if_elim (λ (s : Im). IsValid s.window) im.window.queued (λ _. watch-IsValid v) (λ _. v)

step-Grows :
    (now : ℕ) (e : Event) (im : Im)
    → IsValid im.window
    → (j : Text) → Grows (history im.window.store j) (history (step now e im).0.window.store j)
unfolding step pick_face choose settle change_channel
step-Grows now (write s) im v j = Grows-refl _
step-Grows now (pick face) im v j = Grows-refl _
step-Grows now press_send im v j = elim (Bool-cases (is_empty (trim im.content))) [
  | inl blank ↦ rw (send_msg_blank now im blank) (Grows-refl _)
  | inr full ↦ rw (send_msg_window now im full) (post-Grows (sent_message im) v j)
]
step-Grows now (select u) im v j = Grows-refl _
step-Grows now (reply r) im v j =
    receive_elim (λ (s : Im). Grows (history im.window.store j) (history s.window.store j)) now r im
      (Grows-refl _) (λ msg. post-Grows (received_message im.window.channel msg) v j)
step-Grows now tick im v j =
    if_elim (λ (s : Im). Grows (history im.window.store j) (history s.window.store j))
      im.window.queued (λ _. Grows-of_eq _ _ (history-watch im.window j)) (λ _. Grows-refl _)

-- How the handler ends: with an error for a reply with a text that brings no list where `filterData`
-- reads it, and else without.
abbrev pub ending : Event → Ended
ending (reply r) = if not (is_empty r.text) && lacks_list r then thrown else returned
ending (write s) = returned
ending (pick face) = returned
ending press_send = returned
ending (select u) = returned
ending tick = returned

answered-ending :
    (now : ℕ) (im : Im) (o : Option Text) (lacks : Bool)
    → ((o ≡ none) ↔ (lacks ≡ true))
    → (answered now im o).1 ≡ (if lacks then thrown else returned)
answered-ending now im none lacks h = rw (h.0 refl)
answered-ending now im (some msg) false h = refl
answered-ending now im (some msg) true h = absurd (grind (arith, h.1 refl))

receive-ending : (now : ℕ) (r : Reply) (im : Im) → (receive now r im).1 ≡ ending (reply r)
unfolding receive
receive-ending now r im = elim (Bool-cases (is_empty r.text)) [
  | inl e ↦ rw (receive, e)
  | inr e ↦
      rw (receive, e) (answered-ending now im (filter_data r) (lacks_list r) (filter_data_lem r).1)
]

step-ending : (now : ℕ) (e : Event) (im : Im) → (step now e im).1 ≡ ending e
unfolding step
step-ending now (write s) im = refl
step-ending now (pick face) im = refl
step-ending now press_send im = refl
step-ending now (select u) im = refl
step-ending now (reply r) im = receive-ending now r im
step-ending now tick im = refl

-- A session: events with the times at which they come. The page after them, and how their handlers
-- ended.
unfoldable pub run : List (ℕ × Event) → Im → Im × List Ended
run [] im = (im, [])
run ((now, e) ∷ es) im =
    let (im', ended) = step now e im in let (last, others) = run es im' in (last, ended ∷ others)

-- Whatever is typed, sent, chosen and received on a valid chat page, and whenever Vue runs the
-- watcher: the handler of an event ends with an error exactly if the event is a reply with a text
-- whose code is that of news or recipes and that brings no list; the array that is shown belongs
-- to one conversation (to the chosen user's once the watcher ran), and every conversation still
-- begins with the messages that it had.
pub run_total :
    (es : List (ℕ × Event)) (im : Im)
    → IsValid im.window
    → IsValid (run es im).0.window
      × ((j : Text) → Grows (history im.window.store j) (history (run es im).0.window.store j))
      × ((run es im).1 ≡ map (λ e. ending e.1) es)
unfolding run
run_total [] im v = (v, λ j. Grows-refl _, refl)
run_total ((now, e) ∷ es) im v =
    let (valid, grown, ended) = run_total es (step now e im).0 (step-IsValid now e im v) in
    (
      valid,
      λ j. Grows-trans _ _ _ (step-Grows now e im v j) (grown j),
      ap₂ (◌∷◌) (step-ending now e im) ended,
    )

-- The chat page that the program creates and mounts is valid: the robot's conversation is shown,
-- with the greeting in it.
pub mounted-created :
    (now : ℕ)
    → (im : Im) × (mounted now (created now) ≡ some im)
      × IsValid im.window
      × (history im.window.store robot.id ≡ greeting ∷ [])
unfolding mounted created history
mounted-created now = (
  _,
  refl,
  post-IsValid greeting (single-IsValid robot false),
  history-post_shown greeting (single-IsValid robot false) refl robot.id,
)
