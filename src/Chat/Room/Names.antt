-- ===== src/Chat/Room/Names.antt =====
-- The list of names in the chat room, the times beside the messages, and the background (chatRoom.js).
use cortono.Prelude.{
  Text, codes, List, [], ◌∷◌, ◌++◌, ℕ, ◌≡◌, refl, ap, sym, ◌∙◌, some, Bool, true, arith,
  if◌then◌else◌, includes, append-nil, append_assoc, all, Bool-cases, inl, inr,
}
use cortono.Time.Defs.{Date, get_full_time, PartName, format_time}
use cortono.Time.Format.{literal, part_of, fill-format_text}
use cortono.Chat.Defs.{User}
use cortono.Chat.Room.{Room, filter_from, filter_name, ago}

-- the users whose names hold the keywords
abbrev pub matching : Text → List User → List User
matching keywords [] = []
matching keywords (u ∷ us) =
    if includes keywords u.nick_name then u ∷ matching keywords us else matching keywords us

filter_from-matching :
    (keywords : Text) (arr us : List User)
    → filter_from keywords arr us ≡ arr ++ matching keywords us
unfolding filter_from
filter_from-matching keywords arr [] = sym (append-nil arr)
filter_from-matching keywords arr (u ∷ us) = elim (Bool-cases (includes keywords u.nick_name)) [
  | inl found ↦ rw found (
      filter_from-matching keywords (arr ++ u ∷ []) us
      ∙ append_assoc arr (u ∷ []) (matching keywords us))
  | inr other ↦ rw other (filter_from-matching keywords arr us)
]

abbrev pub holds : Text → User → Bool
holds keywords u = includes keywords u.nick_name

matching-holds :
    (keywords : Text) (us : List User) → all (holds keywords) (matching keywords us) ≡ true
matching-holds keywords [] = refl
matching-holds keywords (u ∷ us) = ground (arith, matching-holds keywords us)

matching-all :
    (keywords : Text) (us : List User) → all (holds keywords) us ≡ true → matching keywords us ≡ us
matching-all keywords [] h = refl
matching-all keywords (u ∷ us) h = ground (arith, matching-all keywords us)

includes_empty : (s : Text) → includes [] s ≡ true
includes_empty [] = refl
includes_empty (c ∷ s) = refl

all-includes_empty : (us : List User) → all (holds []) us ≡ true
all-includes_empty [] = refl
all-includes_empty (u ∷ us) = rw (includes_empty u.nick_name) (all-includes_empty us)

-- The users that are listed are the ones whose names hold the keywords, in their order; with no
-- keywords they are all users.
pub filter_name_lem :
    (room : Room)
    → (filter_name room ≡ matching room.keywords room.online_list)
      × (all (holds room.keywords) (filter_name room) ≡ true)
      × (filter_name (record room { keywords = [] }) ≡ room.online_list)
unfolding filter_name
filter_name_lem room =
    let e = filter_from-matching room.keywords [] room.online_list in
    (
      e,
      rw e (matching-holds room.keywords room.online_list),
      filter_from-matching [] [] room.online_list
          ∙ matching-all [] room.online_list (all-includes_empty room.online_list),
    )

-- Beside a message stand the hours and minutes of its time.
pub ago_lem :
    (date_of : ℕ → Date) (value : ℕ)
    → ago date_of value
      ≡ some (
          (get_full_time date_of value).hour
          ++ (codes ":" ++ ((get_full_time date_of value).minute ++ [])))
unfolding ago format_time
ago_lem date_of value = ap some (
    fill-format_text date_of value
      (part_of PartName.hour ∷ literal (codes ":") ∷ part_of PartName.minute ∷ []) refl)
