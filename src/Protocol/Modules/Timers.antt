-- ===== src/Protocol/Modules/Timers.antt =====
-- The timers of protocol/resend_module.hpp at an acknowledgement.
use cortono.Prelude.{List, [], ◌∷◌, ◌++◌, ℕ, ◌≡◌, refl, false, true, map, All, ◌==◌}
use cortono.Protocol.Modules.{Timer, LoopCall, cancel_timer, cancel_until}

abbrev pub stop : Timer → LoopCall
stop t = cancel_timer t.id

-- The packet of the timer does not begin at the acknowledged place.
abbrev pub Elsewhere : ℕ → Timer → Type 0
Elsewhere ack t = (t.start_seq == ack) ≡ false

-- The timers before the packet that begins at the acknowledged place are cancelled, and no other.
pub cancel_until-append :
    (ack : ℕ) (before : List Timer) (t : Timer) (after : List Timer)
    → All (Elsewhere ack) before
    → (t.start_seq == ack) ≡ true
    → cancel_until ack (before ++ t ∷ after) ≡ (t ∷ after, map stop before)
unfolding cancel_until
cancel_until-append ack [] t after h e = rw e
cancel_until-append ack (b ∷ before) t after h e =
    rw (h.0, cancel_until-append ack before t after h.1 e)

-- Where no packet begins there, all are.
pub cancel_until_stale :
    (ack : ℕ) (timers : List Timer)
    → All (Elsewhere ack) timers
    → cancel_until ack timers ≡ ([], map stop timers)
unfolding cancel_until
cancel_until_stale ack [] h = refl
cancel_until_stale ack (b ∷ timers) h = rw (h.0, cancel_until_stale ack timers h.1)
