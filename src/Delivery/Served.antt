-- ===== src/Delivery/Served.antt =====
-- The application's loop: an `epoll_wait` that reports a packet, then the `recvfrom` that reads it.
use servant.Prelude.Int.{ℤ, pos}
use servant.Prelude.{
  ◌^◌, length-take, ℕ, zero, suc, List, [], ◌∷◌, Option, some, Outcome, returns, ◌>>=◌, ◌+◌, ◌-◌,
  ◌%◌, ◌<◌, ◌≤◌, ◌≡◌, ◌≢◌, ◌==◌, ◌||◌, refl, sym, ap, ap₂, subst, ◌∙◌, length, map, true, arith,
  Bool-cases, inl, inr, if◌then◌else◌, get_elem?,
}
use servant.Channel.{SharedChannel, VChannel, count_msg}
use servant.Channel.Ring.{Rings}
use servant.Channel.Session.{length-messages}
use servant.Channel.Span.{span}
use servant.Channel.Stream.{IsStream, messages}
use servant.Channel.Receive.{received, rx_msg-IsStream, count_msg_stream}
use servant.Interpose.{
  Sender, EpollData, EpData, WaitResult, one_event, wait_loop, epoll_wait, epoll_ctl, ctl_add,
  get_epoll_index, recvfrom,
}
use servant.Interpose.Epoll.{add-wait, wait_loop-message}
use servant.Heart.{Desc, XskRings, Socket, Config}
use servant.Heart.Actions.{Machine, World, pump_batch}
use servant.Heart.Moved.{IsIdle}
use servant.Delivery.{passed_bytes, AreShort, Fits, datagram, seen}
use servant.Delivery.Batch.{pump_batch-Delivers}
use servant.Delivery.Drain.{recvfrom-head}

-- The answers of libc's `epoll_wait` do not matter when the channel has a message.
module _ (ring : Rings) (vc : VChannel) (table : List EpollData) (epfd : ℕ)
    (timeout libc poll : ℤ) where
  -- One turn: what the wait reports by the count of the channel, none if it still waits, and what is read.
  unfoldable pub serve_turn :
      List ℕ
      → SharedChannel ring.R
      → Outcome ((Option WaitResult × Option (List ℕ × Sender)) × SharedChannel ring.R)
  serve_turn buf ch = do
    count ← count_msg ring vc ch
    out ← recvfrom ring vc true buf (length buf) ch
    returns ((epoll_wait table epfd (pos 1) timeout libc ((count, poll) ∷ []), seen out.0), out.1)

  -- A turn for each buffer.
  unfoldable pub serve_each :
      List (List ℕ)
      → SharedChannel ring.R
      → Outcome (List (Option WaitResult × Option (List ℕ × Sender)) × SharedChannel ring.R)
  serve_each [] ch = returns ([], ch)
  serve_each (buf ∷ bufs) ch = do
    one ← serve_turn buf ch
    rest ← serve_each bufs one.1
    returns (one.0 ∷ rest.0, rest.1)

  -- What a turn gives for a packet under a registration.
  abbrev pub served : ℕ → List ℕ → Option WaitResult × Option (List ℕ × Sender)
  served payload packet = (some (one_event payload), datagram packet)

  module _ (payload : ℕ)
      (reports : (rounds : List (ℕ × ℤ))
        → epoll_wait table epfd (pos 1) timeout libc rounds ≡ wait_loop rounds payload) where
    serve_turn-head :
        (p buf : List ℕ) (ps : List (List ℕ)) (ch : SharedChannel ring.R) (r : ring.R) (start n : ℕ)
        → suc n < ring.slots r
        → IsStream ring ch vc.proc_id r start (suc n)
        → messages ch start (suc n) ≡ p ∷ ps
        → 28 ≤ length p
        → length p ≤ length buf
        → length buf < 2 ^ 32
        → serve_turn buf ch ≡ returns (served payload p, received ring vc ch r start)
    unfolding serve_turn
    serve_turn-head p buf ps ch r start n room s e h k small =
        let (out, got, shown) = recvfrom-head ring vc p buf ps ch r start n s e h k small in
        let event = reports ((suc n, poll) ∷ []) ∙ wait_loop-message n payload poll [] in
        rw (count_msg_stream ring vc ch r start (suc n) room s, got)
          (ap₂ (λ w d. returns ((w, d), received ring vc ch r start)) event shown)

    -- With packets under way, each with its headers and a buffer for it, each turn reports an event and
    -- reads a packet, in order, and then nothing is under way.
    pub serve_each-messages :
        (packets bufs : List (List ℕ)) (ch : SharedChannel ring.R) (r : ring.R) (start n : ℕ)
        → n < ring.slots r
        → IsStream ring ch vc.proc_id r start n
        → messages ch start n ≡ packets
        → Fits bufs packets
        → (ch' : SharedChannel ring.R) × (r' : ring.R) × (start' : ℕ) × (serve_each bufs ch
            ≡ returns (map (served payload) packets, ch'))
          × (count_msg ring vc ch' ≡ returns 0)
          × IsStream ring ch' vc.proc_id r' start' 0
    unfolding serve_each
    serve_each-messages [] [] ch r start zero room s e f =
        (ch, r, start, refl, count_msg_stream ring vc ch r start 0 room s, s)
    serve_each-messages [] [] ch r start (suc n) room s e f =
        absurd (omega (arith, length-messages ch start (suc n), ap length e))
    serve_each-messages [] (buf ∷ bufs) ch r start n room s e f = elim f [ ]
    serve_each-messages (p ∷ ps) [] ch r start n room s e f = elim f [ ]
    serve_each-messages (p ∷ ps) (buf ∷ bufs) ch r start zero room s e f =
        absurd (omega (arith, length-messages ch start 0, ap length e))
    serve_each-messages (p ∷ ps) (buf ∷ bufs) ch r start (suc n) room s e f =
        let (t0, t1, t2) =
          rx_msg-IsStream ring vc buf (length buf) ch r start n p ps s e
            (omega (arith, length-take (length buf) p)) in
        let (ch', r', start', e', c', s') =
          serve_each-messages ps bufs (received ring vc ch r start) (ring.sc_dequeue_burst r).0
            ((start + 1) % ch.count_elements) n (omega (arith, room, ring.slots-dequeue r)) t1 t2
            f.3 in
        let one = serve_turn-head p buf ps ch r start n room s e f.0 f.1 f.2 in
        (ch', r', start', rw (one, e') refl, c', s')

-- A descriptor of port 8080 is registered with EPOLL_CTL_ADD under an epoll descriptor that has an entry or for
-- which one is free, where the first slot is free or the descriptor's own. With packet injection on
-- and nothing under way, on a socket with nothing reserved, the loop gets through a batch of packets
-- peeked from the receive ring, if each that the program passes has fewer than 1500 bytes and lies in
-- the memory, and the ring of the channel has room for them all. If each has its 28 bytes of headers,
-- the application, the other process, with an address and a buffer of fewer than 2 ^ 32 bytes for each,
-- then finds with each `epoll_wait` the event of its registration and with the `recvfrom` behind it the payload and sender
-- of the next packet, in the order of the batch, until the channel counts no message.
pub pump_batch-serve_each :
    (m : Machine) (r : XskRings) (config : Config) (vc : VChannel) (ds : List Desc) (w : World m)
    (xsk : Socket r) (rr : m.ring.R) (start : ℕ) (bufs : List (List ℕ)) (epolls : List EpollData)
    (epfd fd payload i : ℕ) (timeout libc poll : ℤ) (ed : EpollData) (d : EpData)
    (others : List EpData)
    → get_epoll_index epolls epfd ≡ some i
    → get_elem? epolls i ≡ some ed
    → ed.following ≡ d ∷ others
    → fd ≢ 0
    → (d.fd == 0 || d.fd == fd) ≡ true
    → config.use_packet_injection ≡ true
    → m.vc.proc_id ≤ 1
    → vc.proc_id ≡ 1 - m.vc.proc_id
    → IsIdle r xsk
    → length ds ≤ length (r.rx_ring.peeked xsk.rx)
    → AreShort m r ds w.memory
    → length (passed_bytes m r ds w.memory) < m.ring.slots rr
    → IsStream m.ring w.channel vc.proc_id rr start 0
    → Fits bufs (passed_bytes m r ds w.memory)
    → let table = epoll_ctl (some 8080) ctl_add epfd fd payload epolls in
      (w' : World m) × (xsk' : Socket r) × (ch' : SharedChannel m.ring.R) × (pump_batch m r config
          ds w xsk
        ≡ returns (w', xsk'))
      × (serve_each m.ring vc table epfd timeout libc poll bufs w'.channel
          ≡ returns (
            map
                (served m.ring vc table epfd timeout libc poll payload)
                (passed_bytes m r ds w.memory),
            ch',
          ))
      × (count_msg m.ring vc ch' ≡ returns 0)
unfolding span
pump_batch-serve_each m r config vc ds w xsk rr start bufs epolls epfd fd payload i timeout libc
      poll ed d others at_i entry slots nz free inject p q idle h short room s fit =
    let reports = λ (rounds : List (ℕ × ℤ)).
      add-wait epolls epfd fd payload i 0 timeout libc rounds ed d others at_i entry slots nz
      ∙ first-slot rounds free in
    let (w', xsk', rr1, n1, e, s1, k, room1) =
      pump_batch-Delivers m r config start inject p ds w xsk rr 0 idle h short (omega arith)
        (subst (λ j. IsStream m.ring w.channel j rr start 0) q s) in
    let (ch', _, _, e', none_left, _) =
      serve_each-messages m.ring vc _ epfd timeout libc poll payload reports
        (passed_bytes m r ds w.memory) bufs w'.channel rr1 start n1 room1
        (subst (λ j. IsStream m.ring w'.channel j rr1 start n1) (sym q) s1) k fit in
    (w', xsk', ch', e, e', none_left)
  where
    first-slot :
        (rounds : List (ℕ × ℤ))
        → (d.fd == 0 || d.fd == fd) ≡ true
        → wait_loop rounds
            (if ed.epfd == 0 || (d.fd == 0 || d.fd == fd) then payload else d.payload)
          ≡ wait_loop rounds payload
    first-slot rounds b = elim (Bool-cases (ed.epfd == 0)) [
      | inl y ↦ rw y refl
      | inr n ↦ rw (n, b) refl
    ]
