-- ===== src/Protocol/Modules/Sending.antt =====
-- The sender of protocol/send_module.hpp: the bytes that are on the way fit in its window.
use cortono.Prelude.{ℕ, ◌+◌, ◌-◌, ◌*◌, ◌%◌, ◌^◌, ◌<◌, ◌≤◌, ◌≡◌, ap, sym, ◌∙◌, arith, true}
use native.Mathlib.Nat.{mod-lt, mod-mod}
use cortono.Protocol.SlideWindow.{SlideWindow, add64, in_valid_range}
use cortono.Protocol.SlideWindow.Modular.{place-mod, add-mod-cases}
use cortono.Protocol.SlideWindow.Range.{Near, in_valid_range_sound}
use cortono.Protocol.SlideWindow.Move.{Bounds}
use cortono.Protocol.Modules.{SendModule, fits, next_seq}

-- The bytes before `n` are acknowledged, those before `q` are sent.
pub record Sends (size w n q : ℕ) (m : SendModule) : Type 0 where
  pub bounds : Bounds size w n m.send_window
  pub next : m.seq ≡ q % size
  pub ordered : n ≤ q
  pub in_flight : q ≤ n + w

module _ (size bits w : ℕ) (some_width : 0 < w) (narrow : 2 * w < size)
    (small : size ≤ 2 ^ 63) where
  in_valid_range-mod :
      (s : SlideWindow) (i e : ℕ) → in_valid_range size s i e ≡ in_valid_range size s i (e % size)
  unfolding in_valid_range
  in_valid_range-mod s i e = rw (mod-mod e size)

  -- What the check lets through lies in the window, what is on the way included.
  fits-le :
      {n q : ℕ} {m : SendModule} (len : ℕ)
      → len ≤ size - w
      → Sends size w n q m
      → fits size bits len m ≡ true
      → q + len ≤ n + w
  fits-le {n} {q} {m} len short v h =
      (in_valid_range_sound size w some_width narrow m.send_window n q len v.bounds.left
        v.bounds.right near inside).1
    where
      near : Near size w n q len
      near = record {
        not_old = omega (arith, v.ordered);
        not_new = omega (arith, v.in_flight);
        short = short;
      }

      inside : in_valid_range size m.send_window (q % size) ((q + len) % size) ≡ true
      inside =
          ap (in_valid_range size m.send_window (q % size))
            (sym (place-mod size q len (omega arith) small (omega arith)))
          ∙ sym (in_valid_range-mod m.send_window (q % size) (add64 (q % size) len))
          ∙ ap (λ i. in_valid_range size m.send_window i (add64 i len)) (sym v.next)
          ∙ h

  -- The next sequence number goes round with the ring.
  next_seq-mod : (q len : ℕ) → len < size → next_seq size bits len (q % size) ≡ (q + len) % size
  unfolding next_seq
  next_seq-mod q len h =
      ground (arith, add-mod-cases size q len, mod-lt q {m = size}, mod-lt (q + len) {m = size})

  -- A packet that passes the check keeps the sender in order.
  pub sent-Sends :
      {n q : ℕ} {m : SendModule} (len : ℕ)
      → len ≤ size - w
      → Sends size w n q m
      → fits size bits len m ≡ true
      → Sends size w n (q + len) (record m { seq = next_seq size bits len m.seq })
  sent-Sends {n} {q} {m} len short v h = record {
    bounds = v.bounds;
    next = ap (next_seq size bits len) v.next ∙ next_seq-mod q len (omega arith);
    ordered = omega (arith, v.ordered);
    in_flight = fits-le len short v h;
  }
