-- ===== src/Chat/Window/Laws.antt =====
-- The array that is shown belongs to a conversation, and to the chosen user's once the watcher ran.
use mathlib.Core.Path.{subst}
use mathlib.Core.Bool.{Bool, false≢true}
use cortono.Prelude.{
  Text, List, [], ◌∷◌, ◌++◌, ◌≡◌, refl, sym, ◌∙◌, some, true, false, arith, if◌then◌else◌, if_elim,
  if_true, if_false, append-nil, append_assoc, text_eq, text_eq→eq, text_eq_refl, Bool-cases, ◌⊎◌,
  inl, inr,
}
use cortono.Chat.Defs.{User, Message}
use cortono.Chat.Store.{lookup, push, history}
use cortono.Chat.Store.Laws
use cortono.Chat.Store.Laws.{
  push-IsValid, history-push, lookup-ensure, history-ensure, ensure-IsValid,
}
use cortono.Chat.Window.{Window, change_channel, show_channel, watch, post}

pub record IsValid (w : Window) : Type 0 where
  pub store_valid : Laws.IsValid w.store
  pub owner : Text
  pub owned : lookup owner w.store.msg ≡ some w.msg_list
  pub shown : w.queued ≡ false → owner ≡ w.channel.id

pub change_channel-IsValid :
    (user : User) {w : Window} → IsValid w → IsValid (change_channel user w)
unfolding change_channel
change_channel-IsValid user {w} v = record {
  store_valid = v.store_valid;
  owner = v.owner;
  owned = v.owned;
  shown = λ h. kept (Bool-cases (text_eq user.id w.channel.id)) h;
}
  where
    kept :
        (text_eq user.id w.channel.id ≡ true) ⊎ (text_eq user.id w.channel.id ≡ false)
        → (if text_eq user.id w.channel.id then w.queued else true) ≡ false
        → v.owner ≡ user.id
    kept (inl same) h = v.shown (rw same at h) ∙ sym (text_eq→eq _ _ same)
    kept (inr other) h = absurd (false≢true (sym (rw other at h)))

pub show_channel-IsValid : {w : Window} → IsValid w → IsValid (show_channel w)
show_channel-IsValid {w} v = record {
  store_valid = ensure-IsValid w.channel.id w.store v.store_valid;
  owner = w.channel.id;
  owned = lookup-ensure w.channel.id w.store;
  shown = λ _. refl;
}

pub watch-IsValid : {w : Window} → IsValid w → IsValid (watch w)
unfolding watch
watch-IsValid {w} v = if_elim IsValid w.queued (λ _. show_channel-IsValid v) (λ _. v)

pub watch-queued : (w : Window) → (watch w).queued ≡ false
unfolding watch
watch-queued w = ground arith

pub watch-channel : (w : Window) → (watch w).channel ≡ w.channel
unfolding watch
watch-channel w = ground arith

pub history-watch : (w : Window) (j : Text) → history (watch w).store j ≡ history w.store j
unfolding watch
history-watch w j =
    if_elim (λ (u : Window). history u.store j ≡ history w.store j) w.queued
      (λ _. history-ensure w.channel.id w.store j) (λ _. refl)

pub post-IsValid : (m : Message) {w : Window} → IsValid w → IsValid (post m w)
unfolding post
post-IsValid m {w} v = record {
  store_valid = push-IsValid w.msg_list m v.store_valid;
  owner = v.owner;
  owned = unfold push in v.owned;
  shown = v.shown;
}

-- A message is appended to the conversation of the owner of the array, and to no other.
pub history-post :
    (m : Message) {w : Window} (v : IsValid w) (j : Text)
    → history (post m w).store j
      ≡ (if text_eq v.owner j then history w.store j ++ m ∷ [] else history w.store j)
unfolding post
history-post m {w} v j = history-push v.owner w.msg_list m v.store_valid v.owned j

-- Once the watcher ran, that is the chosen user's conversation.
pub history-post_shown :
    (m : Message) {w : Window}
    → IsValid w
    → w.queued ≡ false
    → (j : Text)
    → history (post m w).store j
      ≡ (if text_eq w.channel.id j then history w.store j ++ m ∷ [] else history w.store j)
history-post_shown m {w} v h j =
    subst
      (λ id.
        history (post m w).store j
        ≡ (if text_eq id j then history w.store j ++ m ∷ [] else history w.store j))
      (v.shown h) (history-post m v j)

-- The second list begins with the first.
abbrev pub Grows : List Message → List Message → Type 0
Grows xs ys = (ms : List Message) × (ys ≡ xs ++ ms)

pub Grows-refl : (xs : List Message) → Grows xs xs
Grows-refl xs = ([], sym (append-nil xs))

pub Grows-of_eq : (xs ys : List Message) → ys ≡ xs → Grows xs ys
Grows-of_eq xs ys e = ([], e ∙ sym (append-nil xs))

pub Grows-trans : (xs ys zs : List Message) → Grows xs ys → Grows ys zs → Grows xs zs
Grows-trans xs ys zs (ms, p) (ns, q) = (ms ++ ns, rw (q, p) (append_assoc xs ms ns))

-- A conversation only grows when a message is posted.
pub post-Grows :
    (m : Message) {w : Window}
    → IsValid w
    → (j : Text) → Grows (history w.store j) (history (post m w).store j)
post-Grows m {w} v j = elim (Bool-cases (text_eq v.owner j)) [
  | inl same ↦ (m ∷ [], history-post m v j ∙ if_true _ _ _ same)
  | inr other ↦ ([], history-post m v j ∙ if_false _ _ _ other ∙ sym (append-nil _))
]

-- A page with one conversation, which is the chosen user's.
pub single-IsValid :
    (u : User) (queued : Bool)
    → IsValid (record {
      store = record { arrays = [] ∷ [] ∷ []; msg = (u.id, 0) ∷ [] };
      channel = u;
      msg_list = 0;
      queued = queued;
    })
single-IsValid u queued = record {
  store_valid = record {
    bounded = λ id r h. ground arith;
    distinct = λ i j r h k. ground (arith, text_eq→eq u.id i, text_eq→eq u.id j);
  };
  owner = u.id;
  owned = rw (text_eq_refl u.id);
  shown = λ _. refl;
}
