-- ===== src/Protocol/Transfer/Order.antt =====
-- What the reader gets in a transfer between the modules of the folder protocol.
use cortono.Prelude.{
  Text, ◌∷◌, ℕ, ◌+◌, ◌*◌, ◌%◌, ◌^◌, ◌<◌, ◌≤◌, ◌≡◌, refl, ap, ◌∙◌, arith, true, some, length,
  get_elem?,
}
use cortono.Protocol.Packet.{Packet, is_recv_ack_packet, is_recv_data_packet}
use cortono.Protocol.SlideWindow.{SlideWindow, move_if_valid}
use cortono.Protocol.SlideWindow.Move.{move_if_valid-Bounds}
use cortono.Protocol.Modules.{SendModule, RecvModule, send_handle, recv_handle}
use cortono.Protocol.Modules.Answers.{send_handle-ack}
use cortono.Protocol.Transfer.OnWay.{OnWay, begin-OnWay, later-OnWay, send-OnWay, deliver-OnWay}
use cortono.Protocol.Transfer.{Net, Transfer, begin, send, deliver, acknowledge, read}
use cortono.Protocol.Transfer.Steps.{
  InStep, begin-InStep, send-InStep, deliver-InStep, acknowledge-InStep, read-InStep,
}

module _ (size bits w : ℕ) (f : ℕ → ℕ) (some_width : 0 < w) (narrow : 2 * w < size)
    (small : size ≤ 2 ^ 63) (wide : size ≤ 2 ^ bits) where
  -- The two ends are in order, and so are the packets that were sent.
  abbrev State : SendModule → RecvModule → Text → ℕ → Net → Type 0
  State m r t q net =
      InStep size w f m r.recv_window t q
      × OnWay size f q (length t + r.recv_window.readable_bytes) net

  InStep-reach :
      {m : SendModule} {s : SlideWindow} {t : Text} {q : ℕ}
      → (v : InStep size w f m s t q) → v.k ≡ length t + s.readable_bytes
  InStep-reach v = omega (arith, v.follows.count, v.follows.ordered)

  deliver-State :
      {m : SendModule} (r : RecvModule) {t : Text} {q : ℕ} {net : Net} (p x : Packet) (a i : ℕ)
      → State m r t q net
      → get_elem? net.data_sent i ≡ some (x, a)
      → is_recv_data_packet p ≡ true
      → p.seq ≡ x.seq
      → p.message ≡ x.message
      → q + w ≤ a + size
      → r.recv_window.readable_bytes + w < size
      → State m (recv_handle size bits p r).1 t q (record net {
        acks_sent =
            (
              (recv_handle size bits p r).0,
              length t + (recv_handle size bits p r).1.recv_window.readable_bytes,
            )
            ∷ net.acks_sent;
      })
  deliver-State r p x a i (v, way) here kind at msg recent room =
      let c = way.data_carries i x a here in
      let (v', up) =
        deliver-InStep size bits w f some_width narrow small r p a (length x.message) v kind
          (at ∙ c.place) (msg ∙ c.bytes) c.sent recent room in
      (
        v',
        deliver-OnWay size bits w f (omega arith) wide p r kind
            (v'.follows.left ∙ ap (λ k. k % size) (InStep-reach v')) (omega arith) way,
      )

  -- Every step keeps them so.
  pub Transfer-State :
      {m : SendModule} {r : RecvModule} {t : Text} {q : ℕ} {net : Net}
      → Transfer size bits w f m r t q net
      → State m r t q net
  Transfer-State (begin r e) =
      rw e (begin-InStep size bits w f some_width narrow small, begin-OnWay size f)
  Transfer-State (send {m} {m'} p p' len y kind msg short checked handled) =
      let (v, way) = Transfer-State y in
      (
        send-InStep size bits w f some_width narrow small p p' len v kind msg short checked handled,
        send-OnWay size bits w f (omega arith) wide m m' p p' len v.sends.next way kind msg handled,
      )
  Transfer-State (deliver {r} p x a i y here kind at msg recent room) =
      deliver-State r p x a i (Transfer-State y) here kind at msg recent room
  Transfer-State (acknowledge p p' x k i y here kind at recent handled) =
      let (v, way) = Transfer-State y in
      let c = way.acks_answer i x k here in
      (
        acknowledge-InStep size bits w f some_width narrow small p p' k v kind (at ∙ c.place)
            c.reached recent handled,
        way,
      )
  Transfer-State (read y e) =
      let (v, way) = Transfer-State y in
      let (v', up) = read-InStep size bits w f some_width narrow small v e in
      (v', later-OnWay (omega arith) up way)

  -- The sender's handler gets through any answer that was sent and is not too old.
  pub Transfer-acknowledges :
      {m : SendModule} {r : RecvModule} {t : Text} {q : ℕ} {net : Net} (p x : Packet) (k i : ℕ)
      → Transfer size bits w f m r t q net
      → get_elem? net.acks_sent i ≡ some (x, k)
      → is_recv_ack_packet p ≡ true
      → p.ack ≡ x.ack
      → q + w < k + size
      → (m' : SendModule) × (send_handle size bits p m ≡ some (p, m')) × (m'.seq ≡ m.seq)
  Transfer-acknowledges {m} {r} {t} {q} p x k i y here kind at recent =
      let (v, way) = Transfer-State y in
      let c = way.acks_answer i x k here in
      let f' = v.follows in
      let (s', took, moved, _, _, _) =
        move_if_valid-Bounds size w some_width narrow small m.send_window v.n k v.sends.bounds
          (omega (arith, v.sends.ordered))
          (omega (arith, f'.count, f'.ordered, f'.within, v.sent, v.sends.in_flight, c.reached)) in
      (
        record m { send_window = s' },
        send_handle-ack size bits p m s' took kind
            (ap (λ i. move_if_valid size i m.send_window) (at ∙ c.place) ∙ moved),
        refl,
      )
