-- ===== src/Chat/Defs.antt =====
-- Users and messages of the chat pages (im.js, chatRoom.js).
use cortono.Prelude.{Text, codes, ℕ, Option}

pub record User : Type 0 where
  pub id : Text
  pub nick_name : Text
  pub pic : Text

-- the `type` of a message
pub data Kind : Type 0 where
  sys send user : Kind

-- System messages have no user, and the messages of im.js no time.
pub record Message : Type 0 where
  pub kind : Kind
  pub sender : Option User
  pub msg : Text
  pub time : Option ℕ

abbrev pub robot : User
robot = record {
  id = codes "a110";
  nick_name = codes "机器人";
  pic = codes "http://www.tuling123.com/resources/web/v4/img/personalCen/icon36.png";
}

-- How the handler of an event ends: it returns, or a TypeError goes to the browser, which goes on with
-- the page as the handler left it.
pub data Ended : Type 0 where
  returned thrown : Ended
