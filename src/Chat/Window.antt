-- ===== src/Chat/Window.antt =====
-- What the two chat pages share: the chosen user and the array that is shown. Vue runs the watcher
-- of `channel` some time after the assignment, before that `msgList` still names the old array.
pub mod Laws
use cortono.Prelude.{Text, ℕ, Bool, true, false, if◌then◌else◌, text_eq}
use cortono.Chat.Defs.{User, Message}
use cortono.Chat.Store.{Store, push, ensure}

pub record Window : Type 0 where
  pub store : Store
  pub channel : User
  pub msg_list : ℕ
  pub queued : Bool

-- `changeChannel`: assigning the same user again queues no watcher. Users are told apart by id.
unfoldable pub change_channel : User → Window → Window
change_channel user w = record w {
  channel = user;
  queued = if text_eq user.id w.channel.id then w.queued else true;
}

-- The body of the watcher of `channel`.
abbrev pub show_channel : Window → Window
show_channel w =
    let (s, r) = ensure w.channel.id w.store in record w { store = s; msg_list = r; queued = false }

-- Vue runs the watcher if it is queued.
unfoldable pub watch : Window → Window
watch w = if w.queued then show_channel w else w

-- `this.msgList.push(m)`
unfoldable pub post : Message → Window → Window
post m w = record w { store = push w.msg_list m w.store }
