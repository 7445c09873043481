-- ===== src/Chat/Im/Sending.antt =====
-- Sending a message and receiving a reply on the chat page for phones (im.js).
use cortono.Prelude.{
  Text, List, [], ◌∷◌, ◌++◌, ℕ, ◌≡◌, refl, sym, ap, ◌∙◌, some, none, true, false, if◌then◌else◌,
  if_true, if_false, text_eq, text_eq_refl, Bool-cases, all, inl, inr, get_last?, get_last?-concat,
}
use cortono.Face.Defs.{replace_face}
use cortono.Face.Table.{face_json}
use cortono.Face.Messages.{Part, written, displayed, is_clean_part, replace_face-written}
use cortono.Chat.Defs.{User, Message, user, returned}
use cortono.Chat.Trim.{trim, is_empty, is_space, is_empty-trim}
use cortono.Chat.Replies.{Reply, reply_markup}
use cortono.Chat.Store.{history, get_last_msg, text_of}
use cortono.Chat.Store.Laws.{get_last_msg-history}
use cortono.Chat.Window.{change_channel, watch}
use cortono.Chat.Window.Laws.{
  IsValid, change_channel-IsValid, watch-IsValid, watch-queued, watch-channel, history-watch,
  history-post_shown,
}
use cortono.Chat.Im.{Im, sent_message, send_msg, received_message, receive, choose, settle}
use cortono.Chat.Im.Laws.{send_msg_blank, send_msg_window, received, receive-received}

sent_message-msg : (im : Im) → (sent_message im).msg ≡ replace_face face_json im.content
unfolding sent_message
sent_message-msg im = refl

-- On a valid page whose watcher is not queued, a text of white space only is not sent; any other
-- text is appended, with its face tokens replaced, to the conversation of the chosen user and to
-- no other, and the field is emptied.
pub send_msg_lem :
    (now : ℕ) (im : Im) (j : Text)
    → IsValid im.window
    → im.window.queued ≡ false
    → (history (send_msg now im).window.store j ≡ (
        if all is_space im.content
        then history im.window.store j
        else if text_eq im.window.channel.id j
        then history im.window.store j ++ sent_message im ∷ []
        else history im.window.store j))
      × ((send_msg now im).content ≡ (if all is_space im.content then im.content else []))
send_msg_lem now im j v q = elim (Bool-cases (all is_space im.content)) [
  | inl blank ↦ rw (blank, send_msg_blank now im (is_empty-trim im.content ∙ blank)) (refl, refl)
  | inr text ↦
      let full : is_empty (trim im.content) ≡ false = is_empty-trim im.content ∙ text in
      rw text (
        rw (send_msg_window now im full) (history-post_shown (sent_message im) v q j),
        unfold send_msg in ap (λ (s : Im). s.content) (if_false _ _ _ full),
      )
]

-- On a valid page whose watcher is not queued, a message written with the keyboard and the face
-- panel that is not blank is shown below the user's name, once it is sent, with the images of its
-- faces.
pub get_last_msg-send_msg :
    (now : ℕ) (im : Im) (ps : List Part)
    → IsValid im.window
    → im.window.queued ≡ false
    → im.content ≡ written ps
    → all is_clean_part ps ≡ true
    → all is_space im.content ≡ false
    → get_last_msg (send_msg now im).window.store im.window.channel.id ≡ displayed face_json ps
get_last_msg-send_msg now im ps v q e c h =
    let sent = (send_msg_lem now im im.window.channel.id v q).0 ∙ if_false _ _ _ h in
    get_last_msg-history _ _
    ∙ ap (λ ms. text_of (get_last? ms)) (sent ∙ if_true _ _ _ (text_eq_refl im.window.channel.id))
    ∙ ap text_of (get_last?-concat (history im.window.store im.window.channel.id) (sent_message im))
    ∙ sent_message-msg im
    ∙ ap (replace_face face_json) e
    ∙ replace_face-written ps c

-- The page after another user was chosen, and the watcher ran.
abbrev pub moved : User → Im → Im
moved u im = settle (choose u im)

settle-window : (im : Im) → (settle im).window ≡ watch im.window
unfolding settle watch
settle-window im = elim (Bool-cases im.window.queued) [
  | inl e ↦ ap (λ (s : Im). s.window) (if_true _ _ _ e)
  | inr e ↦ ap (λ (s : Im). s.window) (if_false _ _ _ e) ∙ sym (if_false _ _ _ e)
]

moved-window : (u : User) (im : Im) → (moved u im).window ≡ watch (change_channel u im.window)
unfolding choose
moved-window u im = settle-window (choose u im)

moved-IsValid : (u : User) (im : Im) → IsValid im.window → IsValid (moved u im).window
moved-IsValid u im v = rw (moved-window u im) (watch-IsValid (change_channel-IsValid u v))

moved-queued : (u : User) (im : Im) → (moved u im).window.queued ≡ false
moved-queued u im = rw (moved-window u im) (watch-queued (change_channel u im.window))

moved-channel : (u : User) (im : Im) → (moved u im).window.channel ≡ u
moved-channel u im =
    rw (moved-window u im)
      (watch-channel (change_channel u im.window) ∙ unfold change_channel in refl)

history-moved :
    (u : User) (im : Im) (j : Text)
    → history (moved u im).window.store j ≡ history im.window.store j
history-moved u im j =
    rw (moved-window u im)
      (history-watch (change_channel u im.window) j ∙ unfold change_channel in refl)

received_shown :
    (now : ℕ) (msg : Text) (u : User) (im : Im)
    → IsValid im.window
    → im.window.queued ≡ false
    → im.window.channel ≡ u
    → (j : Text)
    → history (received now msg im).window.store j ≡ (
        if text_eq u.id j
        then history im.window.store j ++ received_message u msg ∷ []
        else history im.window.store j)
received_shown now msg u im v q e j =
    history-post_shown (received_message im.window.channel msg) v q j
    ∙ ap
        (λ (c : User).
          if text_eq c.id j
          then history im.window.store j ++ received_message c msg ∷ []
          else history im.window.store j)
        e

-- A reply with a text that can be shown, one that does not lack its list, and that comes after
-- another user was chosen on a valid page and the watcher ran: its handler ends without an error,
-- appends what is shown for it to that user's conversation, as a message of that user, and leaves
-- the conversation in which the question was asked as it was.
pub receive_elsewhere :
    (now : ℕ) (r : Reply) (msg : Text) (u : User) (im : Im)
    → IsValid im.window
    → is_empty r.text ≡ false
    → reply_markup r ≡ some msg
    → text_eq u.id im.window.channel.id ≡ false
    → let (im', ended) = receive now r (moved u im) in
      (ended ≡ returned)
      × (history im'.window.store u.id
          ≡ history im.window.store u.id
            ++ record { kind = user; sender = some u; msg = msg; time = none } ∷ [])
      × (history im'.window.store im.window.channel.id
          ≡ history im.window.store im.window.channel.id)
unfolding received_message
receive_elsewhere now r msg u im v h e other =
    let at_end =
      received_shown now msg u (moved u im) (moved-IsValid u im v) (moved-queued u im)
        (moved-channel u im) in
    rw (receive-received now r msg (moved u im) h e) (
      refl,
      at_end u.id
          ∙ if_true _ _ _ (text_eq_refl u.id)
          ∙ ap (λ (ms : List Message). ms ++ received_message u msg ∷ []) (history-moved u im u.id),
      at_end im.window.channel.id ∙ if_false _ _ _ other ∙ history-moved u im im.window.channel.id,
    )
