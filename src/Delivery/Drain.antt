-- ===== src/Delivery/Drain.antt =====
-- `recvfrom` of src/interpose/interpose.c until no message is under way.
use servant.Prelude.{
  ◌<◌, ◌^◌, ℕ, zero, suc, List, [], ◌∷◌, ◌++◌, some, returns, ◌+◌, ◌%◌, ◌≡◌, ◌≤◌, refl, sym, ap,
  ◌∙◌, length, take, drop, map, length-take, length-drop, take-append, true, arith,
}
use servant.Channel.{SharedChannel, VChannel}
use servant.Channel.Ring.{Rings}
use servant.Channel.Session.{length-messages}
use servant.Channel.Stream.{IsStream, messages}
use servant.Channel.Receive.{filled, received, rx_msg-IsStream}
use servant.Interpose.{Received, injected, recvfrom}
use servant.Interpose.Packet.{sender_of, recvfrom-packet}
use servant.Delivery.{seen, receive_each, datagram, Fits}

take-drop {ℓ} : {A : Type ℓ} (n : ℕ) (xs : List A) → take n xs ++ drop n xs ≡ xs
take-drop zero xs = refl
take-drop (suc n) [] = refl
take-drop (suc n) (x ∷ xs) = ap (λ l. x ∷ l) (take-drop n xs)

module _ (ring : Rings) (vc : VChannel) where
  -- What a `recvfrom` with room for the oldest packet under way gives.
  pub recvfrom-head :
      (p buf : List ℕ) (ps : List (List ℕ)) (ch : SharedChannel ring.R) (r : ring.R) (start n : ℕ)
      → IsStream ring ch vc.proc_id r start (suc n)
      → messages ch start (suc n) ≡ p ∷ ps
      → 28 ≤ length p
      → length p ≤ length buf
      → length buf < 2 ^ 32
      → (out : Received) × (recvfrom ring vc true buf (length buf) ch
          ≡ returns (out, received ring vc ch r start))
        × (seen out ≡ datagram p)
  recvfrom-head p buf ps ch r start n s e h k small =
      let payload = drop 28 p in
      let whole : p ≡ take 28 p ++ payload = sym (take-drop 28 p) in
      (
        injected (length payload)
            (payload
              ++ drop (length payload) (filled (take 28 p ++ payload) buf (length buf % 2 ^ 32)))
            (sender_of (take 28 p)),
        recvfrom-packet ring vc ch r start n (take 28 p) payload buf (length buf) ps s
            (e ∙ ap (λ l. l ∷ ps) whole) (omega (arith, length-take 28 p, h))
            (omega (arith, length-drop 28 p, h, k)) (omega (arith, length-drop 28 p, h, k)),
        ap (λ l. some (l, sender_of (take 28 p))) (take-append payload _ (length payload) refl),
      )

  -- With packets under way, each with its headers and a buffer for it, a `recvfrom` for each gives
  -- their payloads and senders in order, and then nothing is under way.
  pub receive_each-messages :
      (packets bufs : List (List ℕ)) (ch : SharedChannel ring.R) (r : ring.R) (start n : ℕ)
      → IsStream ring ch vc.proc_id r start n
      → messages ch start n ≡ packets
      → Fits bufs packets
      → (ch' : SharedChannel ring.R) × (r' : ring.R) × (start' : ℕ) × (receive_each ring vc bufs ch
          ≡ returns (map datagram packets, ch'))
        × IsStream ring ch' vc.proc_id r' start' 0
  unfolding receive_each
  receive_each-messages [] [] ch r start zero s e f = (ch, r, start, refl, s)
  receive_each-messages [] [] ch r start (suc n) s e f =
      absurd (omega (arith, length-messages ch start (suc n), ap length e))
  receive_each-messages [] (buf ∷ bufs) ch r start n s e f = elim f [ ]
  receive_each-messages (p ∷ ps) [] ch r start n s e f = elim f [ ]
  receive_each-messages (p ∷ ps) (buf ∷ bufs) ch r start zero s e f =
      absurd (omega (arith, length-messages ch start 0, ap length e))
  receive_each-messages (p ∷ ps) (buf ∷ bufs) ch r start (suc n) s e f =
      let (t0, t1, t2) =
        rx_msg-IsStream ring vc buf (length buf) ch r start n p ps s e
          (omega (arith, length-take (length buf) p)) in
      let (ch', r', start', e', s') =
        receive_each-messages ps bufs (received ring vc ch r start) (ring.sc_dequeue_burst r).0
          ((start + 1) % ch.count_elements) n t1 t2 f.3 in
      let (out, got, shown) = recvfrom-head p buf ps ch r start n s e f.0 f.1 f.2 in
      (ch', r', start', rw (got, e') (ap (λ d. returns (d ∷ map datagram ps, ch')) shown), s')
