-- ===== src/Protocol/Transfer/Steps.antt =====
-- Each step of a transfer keeps the sender and the receiver of the folder protocol in order.
use cortono.Prelude.{
  Text, [], ◌++◌, ℕ, ◌+◌, ◌-◌, ◌*◌, ◌%◌, ◌^◌, ◌<◌, ◌≤◌, ◌≡◌, refl, ap, ap₂, sym, ◌∙◌, arith, true,
  false, Bool, some, length, if◌then◌else◌,
}
use mathlib.Core.Path.{subst}
use native.Mathlib.Nat.{mod-eq_of_lt, zero-mod, zero-add}
use cortono.Protocol.Packet.{Packet, is_recv_ack_packet, is_recv_data_packet, is_send_data_packet}
use cortono.Protocol.SlideWindow.{SlideWindow, created, recv_all, set_flag_if_valid, move_if_valid}
use cortono.Protocol.SlideWindow.Modular.{slice, length-slice}
use cortono.Protocol.SlideWindow.Range.{Near}
use cortono.Protocol.SlideWindow.Follows.{Follows}
use cortono.Protocol.SlideWindow.Arrive.{arrive-Follows}
use cortono.Protocol.SlideWindow.Read.{recv_all-Follows}
use cortono.Protocol.SlideWindow.Stream.{created-Follows, length-joined, joined}
use cortono.Protocol.SlideWindow.Move.{move_if_valid-Bounds}
use cortono.Protocol.Modules.{
  SendModule, RecvModule, send_check, send_handle, recv_handle, next_seq,
}
use cortono.Protocol.Modules.Sending.{Sends, sent-Sends}
use cortono.Protocol.Modules.Answers.{
  send_check-data, send_handle-data, recv_handle-data, send_handle-ack,
}
use cortono.Protocol.Transfer.{new_sender}

-- The reader's bytes are the beginning of the stream. The sender has the acknowledgement of the bytes
-- before `n`, the receiver's window begins at `k`, and both are in order.
pub record InStep (size w : ℕ) (f : ℕ → ℕ) (m : SendModule) (s : SlideWindow) (t : Text) (q : ℕ)
    : Type 0 where
  pub n : ℕ
  pub k : ℕ
  pub l : ℕ
  pub sends : Sends size w n q m
  pub reached : n ≤ k
  pub sent : l ≤ q
  pub room : k < length t + size
  pub prefix : t ≡ slice f 0 (length t)
  pub follows : Follows size w f (length t) k l s

acknowledged_up : (took : Bool) (n k : ℕ) → (took ≡ true → n ≤ k) → n ≤ (if took then k else n)
acknowledged_up true n k h = h refl
acknowledged_up false n k h = omega arith

acknowledged_top : (took : Bool) (n k top : ℕ) → k ≤ top → n ≤ top → (if took then k else n) ≤ top
acknowledged_top true n k top h h' = h
acknowledged_top false n k top h h' = h'

module _ (size bits w : ℕ) (f : ℕ → ℕ) (some_width : 0 < w) (narrow : 2 * w < size)
    (small : size ≤ 2 ^ 63) where
  pub begin-InStep : InStep size w f (new_sender size bits w f) (created size w) [] 0
  begin-InStep = record {
    n = 0;
    k = 0;
    l = 0;
    sends = record {
      bounds = record {
        left = sym (zero-mod size);
        right = sym (ap (λ i. i % size) (zero-add w) ∙ mod-eq_of_lt (omega arith));
      };
      next = sym (zero-mod size);
      ordered = omega arith;
      in_flight = omega arith;
    };
    reached = omega arith;
    sent = omega arith;
    room = omega arith;
    prefix = refl;
    follows = created-Follows size w f 0 (omega arith) (omega arith);
  }

  pub send-InStep :
      {m m' : SendModule} {s : SlideWindow} {t : Text} {q : ℕ} (p p' : Packet) (len : ℕ)
      → InStep size w f m s t q
      → is_send_data_packet p ≡ true
      → p.message ≡ slice f q len
      → len ≤ size - w
      → send_check size bits p m ≡ true
      → send_handle size bits p m ≡ some (p', m')
      → InStep size w f m' s t (q + len)
  send-InStep {m} {m'} {s} {t} {q} p p' len v kind msg short checked handled = record {
    n = v.n;
    k = v.k;
    l = v.l;
    sends = subst (Sends size w v.n (q + len)) (sym same) step;
    reached = v.reached;
    sent = omega (arith, v.sent);
    room = v.room;
    prefix = v.prefix;
    follows = v.follows;
  }
    where
      amount : length p.message ≡ len
      amount = ap length msg ∙ length-slice f q len

      step : Sends size w v.n (q + len) (record m { seq = next_seq size bits len m.seq })
      step =
          sent-Sends size bits w some_width narrow small len short v.sends
            (rw amount at (sym (send_check-data size bits p m kind) ∙ checked))

      same : m' ≡ record m { seq = next_seq size bits len m.seq }
      same = let e = rw amount at (send_handle-data size bits p m kind) in cc

  pub deliver-InStep :
      {m : SendModule} (r : RecvModule) {t : Text} {q : ℕ} (p : Packet) (a len : ℕ)
      → InStep size w f m r.recv_window t q
      → is_recv_data_packet p ≡ true
      → p.seq ≡ a % size
      → p.message ≡ slice f a len
      → a + len ≤ q
      → q + w ≤ a + size
      → r.recv_window.readable_bytes + w < size
      → InStep size w f m (recv_handle size bits p r).1.recv_window t q
        × (r.recv_window.readable_bytes ≤ (recv_handle size bits p r).1.recv_window.readable_bytes)
  deliver-InStep {m} r {t} {q} p a len v kind at msg sent recent room =
      let f' = v.follows in
      let (k', l', up, le', v', _) =
        arrive-Follows size w f some_width narrow small {m = length t} {n = v.k} a len q
          (omega (arith, f'.count, f'.ordered)) v.sent (omega (arith, v.sends.in_flight, v.reached))
          (λ _. sent) near f' in
      let after = set_flag_if_valid size (slice f a len) (a % size) r.recv_window in
      let stepped : InStep size w f m after.0 t q = record {
        n = v.n;
        k = k';
        l = l';
        sends = v.sends;
        reached = omega (arith, v.reached);
        sent = le';
        room = omega (arith, v'.within, v.sends.in_flight, v.reached, f'.count, f'.ordered);
        prefix = v.prefix;
        follows = v';
      } in
      subst (λ s. InStep size w f m s t q × (r.recv_window.readable_bytes ≤ s.readable_bytes))
        (sym (
          recv_handle-data size bits p r kind
          ∙ ap₂ (λ b i. (set_flag_if_valid size b i r.recv_window).0) msg at))
        (stepped, omega (arith, f'.count, f'.ordered, v'.count, v'.ordered))
    where
      near : Near size w v.k a len
      near = omega (arith, v.follows.within, v.sent, v.sends.in_flight, v.reached)

  pub acknowledge-InStep :
      {m m' : SendModule} {s : SlideWindow} {t : Text} {q : ℕ} (p p' : Packet) (k : ℕ)
      → InStep size w f m s t q
      → is_recv_ack_packet p ≡ true
      → p.ack ≡ k % size
      → k ≤ length t + s.readable_bytes
      → q + w < k + size
      → send_handle size bits p m ≡ some (p', m')
      → InStep size w f m' s t q
  acknowledge-InStep {m} {m'} {s} {t} {q} p p' k v kind at reached recent handled =
      let f' = v.follows in
      let (s', took, moved, b', from, _) =
        move_if_valid-Bounds size w some_width narrow small m.send_window v.n k v.sends.bounds
          (omega (arith, v.sends.ordered))
          (omega (arith, f'.count, f'.ordered, f'.within, v.sent, v.sends.in_flight)) in
      let here : k ≤ v.k = omega (arith, f'.count, f'.ordered) in
      let n' = if took then k else v.n in
      let up : v.n ≤ n' = acknowledged_up took v.n k from in
      let top : n' ≤ v.k = acknowledged_top took v.n k v.k here v.reached in
      let e =
        send_handle-ack size bits p m s' took kind
          (ap (λ i. move_if_valid size i m.send_window) at ∙ moved) in
      let same : m' ≡ record m { send_window = s' } = cc in
      record {
        n = n';
        k = v.k;
        l = v.l;
        sends = subst (Sends size w n' q) (sym same) (record {
          bounds = b';
          next = v.sends.next;
          ordered = omega (arith, f'.within, v.sent);
          in_flight = omega (arith, v.sends.in_flight);
        });
        reached = top;
        sent = v.sent;
        room = v.room;
        prefix = v.prefix;
        follows = f';
      }

  pub read-InStep :
      {m : SendModule} {s s' : SlideWindow} {t bytes : Text} {q : ℕ}
      → InStep size w f m s t q
      → recv_all size s ≡ some (bytes, s')
      → InStep size w f m s' (t ++ bytes) q
        × (length t + s.readable_bytes ≤ length (t ++ bytes) + s'.readable_bytes)
  read-InStep {m} {s} {s'} {t} {bytes} {q} v e =
      let f' = v.follows in
      let (u, eu, vu) =
        recv_all-Follows size w f (omega arith) {m = length t} {n = v.k} v.room f' in
      let eb : bytes ≡ slice f (length t) (v.k - length t) = cc in
      let es : s' ≡ u = cc in
      let len : length (t ++ bytes) ≡ v.k = length-joined f t bytes v.k f'.ordered eb in
      (
        record {
          n = v.n;
          k = v.k;
          l = v.l;
          sends = v.sends;
          reached = v.reached;
          sent = v.sent;
          room = omega arith;
          prefix = joined f t bytes v.k f'.ordered v.prefix eb;
          follows =
              subst (λ i. Follows size w f i v.k v.l s') (sym len)
                (subst (Follows size w f v.k v.k v.l) (sym es) vu);
        },
        omega (arith, f'.count, f'.ordered),
      )
