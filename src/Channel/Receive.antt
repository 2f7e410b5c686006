-- ===== src/Channel/Receive.antt =====
-- `vc_rx_msg` and `vc_count_msg` on a channel that is in order.
use servant.Prelude.{
  set, ℕ, List, ◌∙◌, suc, take, get_or, ◌+◌, All, ◌≡◌, ◌++◌, ◌≢◌, returns, ◌%◌, drop, length, min,
  if◌then◌else◌, arith, ltb, length-take, get_elem?-some, take-take, ◌∷◌, ◌<◌, All-get, All-set,
  sym, length-set, ap, get_elem?-set_self, map, subst, map-get_or-set, get_elem?, some, ◌≤◌, le→leb,
}
use servant.Channel.{Msg, SharedChannel, VChannel, clear_msg, take_msg, rx_msg, count_msg}
use servant.Channel.Ring.{Rings}
use servant.Channel.Span.{span, length-span, span-tail_ne, next_mod}
use servant.Channel.Stream.{
  blank, payload, IsFull, IsSlot, IsStream, messages, IsFull-set, clear_msg-IsSlot,
}

-- The buffer of the caller after a message is copied into it.
abbrev pub filled : List ℕ → List ℕ → ℕ → List ℕ
filled msg buf size = take size msg ++ drop (length (take size msg)) buf

module _ (ring : Rings) (vc : VChannel) (ch : SharedChannel ring.R) where
  -- The channel as `vc_rx_msg` leaves it when it takes slot `i` from `r`.
  abbrev pub received : ring.R → ℕ → SharedChannel ring.R
  received r i = record ch {
    rings = set ch.rings vc.proc_id (ring.sc_dequeue_burst r).0;
    shared_objs = set ch.shared_objs i (clear_msg (get_or ch.shared_objs i blank));
  }

  abbrev pub polled : ring.R → SharedChannel ring.R
  polled r = record ch { rings = set ch.rings vc.proc_id (ring.sc_dequeue_burst r).0 }

if_min : (a b : ℕ) → (if ltb a b then a else b) ≡ min a b
if_min a b = ground arith

-- What a full slot gives to a buffer of `size` bytes.
take_msg_full :
    (objs : List Msg) (i : ℕ) (buf : List ℕ) (size : ℕ)
    → IsFull objs i
    → IsSlot (get_or objs i blank)
    → length (take size (payload (get_or objs i blank))) ≤ length buf
    → let m = get_or objs i blank in
      take_msg objs i buf size
      ≡ returns
          (length (take size (payload m)), filled (payload m) buf size, set objs i (clear_msg m))
unfolding take_msg
take_msg_full objs i buf size f v fits =
    rw
      (
        get_elem?-some objs i blank f.0,
        f.1,
        if_min m.size size ∙ sym copied,
        le→leb len (length buf) fits,
      )
      (ap (λ l. returns (len, l ++ drop len buf, set objs i (clear_msg m)))
        (rw copied (sym (take-take m.size size m.contents))))
  where
    m : Msg
    m = get_or objs i blank

    len : ℕ
    len = length (take size (payload m))

    copied : length (take size (payload m)) ≡ min m.size size
    copied =
        omega (arith, length-take size (payload m), length-take m.size m.contents, v.room, v.sized)

-- `vc_rx_msg` when its ring holds a full slot.
pub rx_msg-full :
    (ring : Rings) (vc : VChannel) (ch : SharedChannel ring.R) (r : ring.R) (i : ℕ) (buf : List ℕ)
    (size : ℕ) (m : List ℕ)
    → get_elem? ch.rings vc.proc_id ≡ some r
    → (ring.sc_dequeue_burst r).1 ≡ some i
    → IsFull ch.shared_objs i
    → IsSlot (get_or ch.shared_objs i blank)
    → payload (get_or ch.shared_objs i blank) ≡ m
    → length (take size m) ≤ length buf
    → rx_msg ring vc buf size ch
      ≡ returns (length (take size m), filled m buf size, received ring vc ch r i)
unfolding rx_msg
rx_msg-full ring vc ch r i buf size m h1 h2 h3 h4 h5 fits =
    subst
      (λ m'.
        rx_msg ring vc buf size ch
        ≡ returns (length (take size m'), filled m' buf size, received ring vc ch r i))
      h5
      (rw (
        h1,
        h2,
        take_msg_full ch.shared_objs i buf size h3 h4
            (subst (λ m'. length (take size m') ≤ length buf) (sym h5) fits),
      ))

module _ (ring : Rings) (vc : VChannel) (ch : SharedChannel ring.R) (r : ring.R) (start n : ℕ)
    (s : IsStream ring ch vc.proc_id r start (suc n)) where
  abbrev tail : List ℕ
  tail = span ch.count_elements ((start + 1) % ch.count_elements) n

  tail_ne : All (λ j. start ≢ j) tail
  tail_ne = span-tail_ne ch.count_elements start n s.start_lt s.fits

  -- The span of the messages under way begins with `start`.
  head-IsFull : IsFull ch.shared_objs start × All (IsFull ch.shared_objs) tail
  unfolding span
  head-IsFull = s.full

  queued_cons : ring.contents r ≡ start ∷ tail
  unfolding span
  queued_cons = s.queued

  received-IsStream :
      IsStream ring
        (received ring vc ch r start)
        vc.proc_id
        (ring.sc_dequeue_burst r).0
        ((start + 1) % ch.count_elements)
        n
  received-IsStream = record {
    slots =
        All-set IsSlot ch.shared_objs start _
          (clear_msg-IsSlot _ (All-get IsSlot ch.shared_objs start blank head-IsFull.0.0 s.slots))
          s.slots;
    count = length-set ch.shared_objs start _ ∙ s.count;
    start_lt = omega (arith, s.start_lt);
    fits = omega (arith, s.fits);
    ring_fits = omega (arith, s.ring_fits, ring.slots-dequeue r);
    top = s.top ∙ sym (next_mod ch.count_elements start n);
    ring_of = get_elem?-set_self ch.rings vc.proc_id r _ s.ring_of;
    queued = ring.contents-dequeue r start tail queued_cons;
    full = IsFull-set ch.shared_objs start _ tail tail_ne head-IsFull.1;
  }

  messages_cons :
      messages ch start (suc n)
      ≡ payload (get_or ch.shared_objs start blank)
        ∷ messages (received ring vc ch r start) ((start + 1) % ch.count_elements) n
  unfolding span
  messages_cons =
      ap (λ l. payload (get_or ch.shared_objs start blank) ∷ map payload l)
        (sym (map-get_or-set ch.shared_objs start _ blank tail tail_ne))

cons_head {ℓ} : {A : Type ℓ} {x y : A} {xs ys : List A} → x ∷ xs ≡ y ∷ ys → x ≡ y
cons_head h = cc

cons_tail {ℓ} : {A : Type ℓ} {x y : A} {xs ys : List A} → x ∷ xs ≡ y ∷ ys → xs ≡ ys
cons_tail h = cc

-- `vc_rx_msg` of the process that the stream goes to, while a message is under way, with a
-- buffer for the oldest message cut at the size given: it copies that message to the buffer, cut at
-- the size, returns the number of bytes copied, and leaves a stream with the rest of the messages, in order.
pub rx_msg-IsStream :
    (ring : Rings) (vc : VChannel) (buf : List ℕ) (size : ℕ) (ch : SharedChannel ring.R)
    (r : ring.R) (start n : ℕ) (m : List ℕ) (rest : List (List ℕ))
    → IsStream ring ch vc.proc_id r start (suc n)
    → messages ch start (suc n) ≡ m ∷ rest
    → length (take size m) ≤ length buf
    → (rx_msg ring vc buf size ch
        ≡ returns (length (take size m), filled m buf size, received ring vc ch r start))
      × IsStream ring
          (received ring vc ch r start)
          vc.proc_id
          (ring.sc_dequeue_burst r).0
          ((start + 1) % ch.count_elements)
          n
      × (messages (received ring vc ch r start) ((start + 1) % ch.count_elements) n ≡ rest)
rx_msg-IsStream ring vc buf size ch r start n m rest s e fits = (
  rx_msg-full ring vc ch r start buf size m s.ring_of
      (ring.dequeue-cons r start _ (queued_cons ring vc ch r start n s)) full
      (All-get IsSlot ch.shared_objs start blank full.0 s.slots) (cons_head cons) fits,
  received-IsStream ring vc ch r start n s,
  cons_tail cons,
)
  where
    full : IsFull ch.shared_objs start
    full = (head-IsFull ring vc ch r start n s).0

    cons :
        payload (get_or ch.shared_objs start blank)
          ∷ messages (received ring vc ch r start) ((start + 1) % ch.count_elements) n
        ≡ m ∷ rest
    cons = sym (messages_cons ring vc ch r start n s) ∙ e

-- With no message under way `vc_rx_msg` returns 0, leaves the buffer and the slots, and the channel
-- stays an empty stream.
pub rx_msg_empty :
    (ring : Rings) (vc : VChannel) (buf : List ℕ) (size : ℕ) (ch : SharedChannel ring.R)
    (r : ring.R) (start : ℕ)
    → IsStream ring ch vc.proc_id r start 0
    → (rx_msg ring vc buf size ch ≡ returns (0, buf, polled ring vc ch r))
      × IsStream ring (polled ring vc ch r) vc.proc_id (ring.sc_dequeue_burst r).0 start 0
unfolding rx_msg span
rx_msg_empty ring vc buf size ch r start s = (
  rw (s.ring_of, ring.dequeue-nil r s.queued),
  record {
    slots = s.slots;
    count = s.count;
    start_lt = s.start_lt;
    fits = s.fits;
    ring_fits = omega (arith, s.ring_fits, ring.slots-dequeue r);
    top = s.top;
    ring_of = get_elem?-set_self ch.rings vc.proc_id r _ s.ring_of;
    queued = ring.contents-dequeue_nil r s.queued;
    full = tt;
  },
)

-- `vc_count_msg` is the number of messages under way, as long as the ring is not overfull.
pub count_msg_stream :
    (ring : Rings) (vc : VChannel) (ch : SharedChannel ring.R) (r : ring.R) (start n : ℕ)
    → n < ring.slots r
    → IsStream ring ch vc.proc_id r start n
    → count_msg ring vc ch ≡ returns n
unfolding count_msg
count_msg_stream ring vc ch r start n h s =
    rw s.ring_of (ap returns (ring.count-contents r (omega (arith, len, h)) ∙ len))
  where
    len : length (ring.contents r) ≡ n
    len = ap length s.queued ∙ length-span ch.count_elements start n
