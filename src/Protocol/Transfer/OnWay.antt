-- ===== src/Protocol/Transfer/OnWay.antt =====
-- The packets of a transfer in the folder protocol carry what their numbers say.
use cortono.Prelude.{
  List, ◌∷◌, ℕ, zero, suc, ◌+◌, ◌%◌, ◌^◌, ◌<◌, ◌≤◌, ◌≡◌, ap, sym, ◌∙◌, arith, true, some, length,
  get_elem?,
}
use mathlib.Core.Path.{subst}
use native.Mathlib.Nat.{mod-eq_of_lt, mod-lt}
use cortono.Protocol.Packet.{Packet, is_recv_data_packet, is_send_data_packet}
use cortono.Protocol.SlideWindow.Modular.{slice, length-slice}
use cortono.Protocol.Modules.{SendModule, RecvModule, send_handle, recv_handle}
use cortono.Protocol.Modules.Answers.{send_handle-seq, recv_handle-ack}
use cortono.Protocol.Transfer.{Net, nothing_sent}

-- A packet of data carries the bytes from its place on, all of them sent.
pub record Carries (size : ℕ) (f : ℕ → ℕ) (q : ℕ) (x : Packet) (a : ℕ) : Type 0 where
  pub place : x.seq ≡ a % size
  pub bytes : x.message ≡ slice f a (length x.message)
  pub sent : a + length x.message ≤ q

-- An answer names a place that the receiver had reached, of `reach` bytes by now.
pub record Answers (size reach : ℕ) (x : Packet) (k : ℕ) : Type 0 where
  pub place : x.ack ≡ k % size
  pub reached : k ≤ reach

-- What holds of every pair of a list.
abbrev pub Each : (Packet → ℕ → Type 0) → List (Packet × ℕ) → Type 0
Each P xs = (i : ℕ) (x : Packet) (a : ℕ) → get_elem? xs i ≡ some (x, a) → P x a

Each-cons :
    (P : Packet → ℕ → Type 0) (x : Packet) (a : ℕ) (xs : List (Packet × ℕ))
    → P x a
    → Each P xs
    → Each P ((x, a) ∷ xs)
Each-cons P x a xs p all zero y b e =
    let same : ◌≡◌ {A = Packet × ℕ} (x, a) (y, b) = cc in
    subst (λ (z : Packet × ℕ). P z.0 z.1) same p
Each-cons P x a xs p all (suc i) y b e = all i y b e

pub record OnWay (size : ℕ) (f : ℕ → ℕ) (q reach : ℕ) (net : Net) : Type 0 where
  pub data_carries : Each (Carries size f q) net.data_sent
  pub acks_answer : Each (Answers size reach) net.acks_sent

pub begin-OnWay : (size : ℕ) (f : ℕ → ℕ) → OnWay size f 0 0 nothing_sent
begin-OnWay size f = record {
  data_carries = λ i x a e. absurd (grind arith);
  acks_answer = λ i x a e. absurd (grind arith);
}

-- What was sent and reached stays so.
pub later-OnWay :
    {size : ℕ} {f : ℕ → ℕ} {q q' reach reach' : ℕ} {net : Net}
    → q ≤ q'
    → reach ≤ reach'
    → OnWay size f q reach net
    → OnWay size f q' reach' net
later-OnWay h h' v = record {
  data_carries = λ i x a e.
      let c = v.data_carries i x a e in
      record { place = c.place; bytes = c.bytes; sent = omega (arith, c.sent) };
  acks_answer = λ i x k e.
      let c = v.acks_answer i x k e in
      record { place = c.place; reached = omega (arith, c.reached) };
}

module _ (size bits w : ℕ) (f : ℕ → ℕ) (some_size : 0 < size) (wide : size ≤ 2 ^ bits) where
  pub send-OnWay :
      {q reach : ℕ} {net : Net} (m m' : SendModule) (p p' : Packet) (len : ℕ)
      → m.seq ≡ q % size
      → OnWay size f q reach net
      → is_send_data_packet p ≡ true
      → p.message ≡ slice f q len
      → send_handle size bits p m ≡ some (p', m')
      → OnWay size f (q + len) reach (record net { data_sent = (p', q) ∷ net.data_sent })
  send-OnWay {q} {reach} {net} m m' p p' len at v kind msg handled =
      let (number, text) = send_handle-seq size bits p p' m m' kind handled in
      let amount : length p'.message ≡ len = ap length (text ∙ msg) ∙ length-slice f q len in
      let old = later-OnWay {q' = q + len} {reach' = reach} (omega arith) (omega arith) v in
      record {
        data_carries =
            Each-cons (Carries size f (q + len)) p' q net.data_sent
              (record {
                place =
                    number
                    ∙ ap (λ i. i % 2 ^ bits) at
                    ∙ mod-eq_of_lt (omega (arith, mod-lt q {m = size}));
                bytes = text ∙ msg ∙ ap (slice f q) (sym amount);
                sent = omega (arith, amount);
              })
              old.data_carries;
        acks_answer = old.acks_answer;
      }

  pub deliver-OnWay :
      {q reach k : ℕ} {net : Net} (p : Packet) (r : RecvModule)
      → is_recv_data_packet p ≡ true
      → (recv_handle size bits p r).1.recv_window.win_left ≡ k % size
      → reach ≤ k
      → OnWay size f q reach net
      → OnWay size f q k
          (record net { acks_sent = ((recv_handle size bits p r).0, k) ∷ net.acks_sent })
  deliver-OnWay {q} {reach} {k} {net} p r kind left up v =
      let old = later-OnWay {q' = q} {reach' = k} (omega arith) up v in
      record {
        data_carries = old.data_carries;
        acks_answer =
            Each-cons (Answers size k) (recv_handle size bits p r).0 k net.acks_sent
              (record {
                place =
                    recv_handle-ack size bits p r kind
                    ∙ ap (λ i. i % 2 ^ bits) left
                    ∙ mod-eq_of_lt (omega (arith, mod-lt k {m = size}));
                reached = omega arith;
              })
              old.acks_answer;
      }
