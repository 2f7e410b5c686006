-- ===== src/Channel/Session.antt =====
-- Whole sessions over one direction of a channel, as the Servant runtime and an application hold
-- them: the runtime sends, the application receives.
use servant.Prelude.{
  get_or, length-take, zero, suc, List, Option, ◌<◌, ℕ, Outcome, length, ◌≤◌, some, ◌≡◌, length-map,
  returns, ◌-◌, ◌++◌, ◌∷◌, All, ◌∙◌, take, ap, [], some-injective, if◌then◌else◌, ltb, Bool-cases,
  inr, none, none≢some, inl, ◌+◌, arith, ltb→lt, subst, refl, ◌>>=◌, sym, ap₂, ◌%◌,
}
use servant.Prelude.Int.{ℤ, pos}
use servant.Channel.{SharedChannel, VChannel, tx_msg, rx_msg}
use servant.Channel.Ring.{Rings}
use servant.Channel.Span.{length-span, span}
use servant.Channel.Stream.{IsStream, messages, blank, payload}
use servant.Channel.Send.{sent, tx_msg-IsStream}
use servant.Channel.Receive.{filled, received, polled, rx_msg-IsStream, rx_msg_empty}

-- The calls, with the buffer and the size that each is given.
pub data Op : Type 0 where
  send : List ℕ → ℕ → Op
  receive : List ℕ → ℕ → Op

-- What each returns; a receiver sees its buffer too.
pub data Answer : Type 0 where
  sending : ℤ → Answer
  receiving : ℕ → List ℕ → Answer

-- What `vc_tx_msg` asserts, and what `memcpy` needs of the buffers.
abbrev pub IsProper : Op → Type 0
IsProper (send buf size) = (size < 1500) × (size ≤ length buf)
IsProper (receive buf size) = size ≤ length buf

unfoldable pub run :
    (ring : Rings) → VChannel → VChannel → List Op → SharedChannel ring.R → Outcome (List Answer)
run ring from to [] ch = returns []
run ring from to (send buf size ∷ ops) ch = do
  out ← tx_msg ring from buf size ch
  rest ← run ring from to ops out.1
  returns (sending out.0 ∷ rest)
run ring from to (receive buf size ∷ ops) ch = do
  out ← rx_msg ring to buf size ch
  rest ← run ring from to ops out.2
  returns (receiving out.0 out.1 ∷ rest)

abbrev after : Answer → Option (List Answer) → Option (List Answer)
after a none = none
after a (some rest) = some (a ∷ rest)

-- A queue of at most `cap` messages. It gives no answers once a session overfills it.
unfoldable pub fifo : ℕ → List (List ℕ) → List Op → Option (List Answer)
fifo cap q [] = some []
fifo cap q (send buf size ∷ ops) =
    let rest = fifo cap (q ++ take size buf ∷ []) ops in
    if ltb (length q) cap then after (sending (pos 0)) rest else none
fifo cap [] (receive buf size ∷ ops) = after (receiving 0 buf) (fifo cap [] ops)
fifo cap (m ∷ q) (receive buf size ∷ ops) =
    after (receiving (length (take size m)) (filled m buf size)) (fifo cap q ops)

after-some :
    (a : Answer) (o : Option (List Answer)) (answers : List Answer)
    → after a o ≡ some answers
    → (rest : List Answer) × (o ≡ some rest) × (answers ≡ a ∷ rest)
after-some a none answers h = cc
after-some a (some rest) answers h = (rest, refl, cc)

pub length-messages :
    {R : Type 0} (ch : SharedChannel R) (start n : ℕ) → length (messages ch start n) ≡ n
length-messages ch start n = length-map _ _ ∙ length-map _ _ ∙ length-span ch.count_elements start n

-- A session of one sender and one receiver, with buffers of the sizes given and messages of fewer than
-- 1500 bytes, that never has more messages under way than the ring has slots but one: it answers as a
-- queue does. Every message arrives once, cut at the size that the receiver gives, in the order sent,
-- and a receiver that comes too early gets none.
pub run-fifo :
    (ring : Rings) (from to : VChannel) (ops : List Op) (ch : SharedChannel ring.R) (r : ring.R)
    (start n : ℕ) (answers : List Answer)
    → from.proc_id ≤ 1
    → to.proc_id ≡ 1 - from.proc_id
    → IsStream ring ch to.proc_id r start n
    → All IsProper ops
    → fifo (ring.slots r - 1) (messages ch start n) ops ≡ some answers
    → run ring from to ops ch ≡ returns answers
unfolding run fifo span
run-fifo ring from to [] ch r start n answers h1 h2 s p e = ap returns (some-injective e)
run-fifo ring from to (send buf size ∷ ops) ch r start n answers h1 h2 s p e =
    elim (Bool-cases (ltb (length (messages ch start n)) (ring.slots r - 1))) [
      | inr over ↦ absurd (none≢some (rw over at e))
      | inl fits ↦
          let (rest, er, ea) = after-some _ _ _ (rw fits at e) in
          let k : n + 1 < ring.slots r =
            omega (arith, ltb→lt _ _ fits, length-messages ch start n) in
          let (t0, t1, t2) =
            tx_msg-IsStream ring from buf size ch r start n p.0.0 p.0.1 h1 k
              (subst (λ j. IsStream ring ch j r start n) h2 s) in
          let ih =
            run-fifo ring from to ops (sent ring from buf size ch r)
              (ring.sp_enqueue_burst r ch.ring_top).0 start (n + 1) rest h1 h2
              (subst
                (λ j.
                  IsStream ring (sent ring from buf size ch r) j
                    (ring.sp_enqueue_burst r ch.ring_top).0 start (n + 1))
                (sym h2) t1)
              p.1 (ap₂ (λ c q. fifo (c - 1) q ops) (ring.slots-enqueue r ch.ring_top) t2 ∙ er) in
          rw (t0, ih) (ap returns (sym ea))
    ]
run-fifo ring from to (receive buf size ∷ ops) ch r start zero answers h1 h2 s p e =
    let (rest, er, ea) = after-some _ _ _ e in
    let (t0, t1) = rx_msg_empty ring to buf size ch r start s in
    let ih =
      run-fifo ring from to ops (polled ring to ch r) (ring.sc_dequeue_burst r).0 start 0 rest h1 h2
        t1 p.1 (ap (λ c. fifo (c - 1) [] ops) (ring.slots-dequeue r) ∙ er) in
    rw (t0, ih) (ap returns (sym ea))
run-fifo ring from to (receive buf size ∷ ops) ch r start (suc n) answers h1 h2 s p e =
    let (rest, er, ea) = after-some _ _ _ e in
    let (t0, t1, t2) =
      rx_msg-IsStream ring to buf size ch r start n _ _ s refl
        (omega (arith, p.0, length-take size (payload (get_or ch.shared_objs start blank)))) in
    let ih =
      run-fifo ring from to ops (received ring to ch r start) (ring.sc_dequeue_burst r).0
        ((start + 1) % ch.count_elements) n rest h1 h2 t1 p.1
        (ap₂ (λ c q. fifo (c - 1) q ops) (ring.slots-dequeue r) t2 ∙ er) in
    rw (t0, ih) (ap returns (sym ea))
