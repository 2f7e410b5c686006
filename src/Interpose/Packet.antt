-- ===== src/Interpose/Packet.antt =====
-- `recvfrom` of an application on a channel that is in order.
use servant.Prelude.{
  ℕ, List, ◌+◌, length, Bool, take, suc, ◌≤◌, drop, ◌≡◌, ◌++◌, ◌∷◌, true, returns, ◌<◌, ◌-◌, false,
  take_all, ◌⊎◌, arith, undefined, le→leb, length-append, drop-append, sym, take-append, ap, refl,
  ◌∙◌, zero, [], ◌%◌, ◌^◌, append_assoc, inl, leb, inr, subst, gt→leb, Bool-cases,
}
use servant.Channel.{SharedChannel, VChannel, rx_msg}
use servant.Channel.Ring.{Rings}
use servant.Channel.Stream.{IsStream, messages}
use servant.Channel.Receive.{filled, received, rx_msg-IsStream}
use servant.Interpose.{Sender, unwrap_packet, injected, recvfrom}

take_append {ℓ} :
    {A : Type ℓ} (b : ℕ) (xs ys : List A) → b ≤ length xs → take b (xs ++ ys) ≡ take b xs
take_append zero xs ys h = refl
take_append (suc b) [] ys h = absurd (omega arith)
take_append (suc b) (x ∷ xs) ys h = ap (λ l. x ∷ l) (take_append b xs ys (omega arith))

pub take-drop_append {ℓ} :
    {A : Type ℓ} (a b : ℕ) (xs ys : List A)
    → a + b ≤ length xs
    → take b (drop a (xs ++ ys)) ≡ take b (drop a xs)
take-drop_append zero zero xs ys h = refl
take-drop_append zero (suc b) [] ys h = absurd (omega arith)
take-drop_append zero (suc b) (x ∷ xs) ys h =
    ap (λ l. x ∷ l) (take-drop_append 0 b xs ys (omega arith))
take-drop_append (suc a) b [] ys h = absurd (omega arith)
take-drop_append (suc a) b (x ∷ xs) ys h = take-drop_append a b xs ys (omega arith)

-- The sender's port and address in an IP header and a UDP header.
unfoldable pub sender_of : List ℕ → Sender
sender_of header = record { port = take 2 (drop 20 header); saddr = take 4 (drop 12 header) }

unwrapped :
    (header payload rest : List ℕ)
    → length header ≡ 28
    → unwrap_packet true (suc (27 + length payload)) (header ++ (payload ++ rest))
      ≡ returns (
        length payload,
        payload ++ drop (length payload) (header ++ (payload ++ rest)),
        sender_of header,
      )
unfolding unwrap_packet sender_of
unwrapped header payload rest h =
    rw
      (
        le→leb 22 (length (header ++ (payload ++ rest)))
            (omega (arith, length-append header (payload ++ rest))),
        le→leb 28 (suc (27 + length payload)) (omega arith),
        ret,
        drop-append header (payload ++ rest) 28 (sym h),
        take-append payload rest (length payload) refl,
        take-drop_append 20 2 header (payload ++ rest) (omega arith),
        take-drop_append 12 4 header (payload ++ rest) (omega arith),
      )
      refl
  where
    ret : suc (27 + length payload) - 28 ≡ length payload
    ret = omega arith

not_unwrapped :
    (has_addr : Bool) (ret : ℕ) (buf : List ℕ)
    → (has_addr ≡ false) ⊎ (ret < 28)
    → unwrap_packet has_addr ret buf ≡ undefined
unfolding unwrap_packet
not_unwrapped false ret buf h = refl
not_unwrapped true ret buf h = elim (Bool-cases (leb 22 (length buf))) [
  | inl t ↦ rw (t, short) refl
  | inr f ↦ rw f refl
]
  where
    short : leb 28 ret ≡ false
    short = elim h [ inl e ↦ ground (arith, e) | inr lt ↦ gt→leb 28 ret lt ]

module _ (ring : Rings) (vc : VChannel) (ch ch' : SharedChannel ring.R) (has_addr : Bool)
    (buf : List ℕ) (len q : ℕ) (b : List ℕ)
    (got : rx_msg ring vc buf (len % 2 ^ 32) ch ≡ returns (suc q, b, ch')) where
  recvfrom-unwrap :
      (out : ℕ × List ℕ × Sender)
      → unwrap_packet has_addr (suc q) b ≡ returns out
      → recvfrom ring vc has_addr buf len ch ≡ returns (injected out.0 out.1 out.2, ch')
  unfolding recvfrom
  recvfrom-unwrap out h = rw (got, h) refl

  recvfrom-no_unwrap :
      unwrap_packet has_addr (suc q) b ≡ undefined
      → recvfrom ring vc has_addr buf len ch ≡ undefined
  unfolding recvfrom
  recvfrom-no_unwrap h = rw (got, h) refl

-- `recvfrom` of a process to which a packet is under way, with its 20 bytes of IP header and 8 bytes of
-- UDP header first, and with an address to fill, and a buffer and 32 bits of its length with room
-- for all of the packet: the payload comes to the front of the buffer, its length is returned, the
-- address gets the source of the headers, and the packet is taken from the channel.
pub recvfrom-packet :
    (ring : Rings) (vc : VChannel) (ch : SharedChannel ring.R) (r : ring.R) (start n : ℕ)
    (header payload buf : List ℕ) (len : ℕ) (rest : List (List ℕ))
    → IsStream ring ch vc.proc_id r start (suc n)
    → messages ch start (suc n) ≡ (header ++ payload) ∷ rest
    → length header ≡ 28
    → 28 + length payload ≤ len % 2 ^ 32
    → 28 + length payload ≤ length buf
    → recvfrom ring vc true buf len ch
      ≡ returns (
        injected
            (length payload)
            (payload ++ drop (length payload) (filled (header ++ payload) buf (len % 2 ^ 32)))
            (sender_of header),
        received ring vc ch r start,
      )
unfolding recvfrom
recvfrom-packet ring vc ch r start n header payload buf len rest s e h k fits =
    recvfrom-unwrap ring vc ch _ true buf len (27 + length payload) _ got _ (
      subst
        (λ b.
          unwrap_packet true (suc (27 + length payload)) b
          ≡ returns (length payload, payload ++ drop (length payload) b, sender_of header))
        (sym laid)
        (unwrapped header payload (drop (length (take (len % 2 ^ 32) (header ++ payload))) buf) h))
  where
    whole : take (len % 2 ^ 32) (header ++ payload) ≡ header ++ payload
    whole =
        take_all (header ++ payload) (len % 2 ^ 32) (omega (arith, length-append header payload))

    laid :
        filled (header ++ payload) buf (len % 2 ^ 32)
        ≡ header ++ (payload ++ drop (length (take (len % 2 ^ 32) (header ++ payload))) buf)
    laid =
        ap (λ l. l ++ drop (length (take (len % 2 ^ 32) (header ++ payload))) buf) whole
        ∙ append_assoc header payload _

    size : length (take (len % 2 ^ 32) (header ++ payload)) ≡ suc (27 + length payload)
    size = ap length whole ∙ omega (arith, length-append header payload)

    got :
        rx_msg ring vc buf (len % 2 ^ 32) ch
        ≡ returns (
          suc (27 + length payload),
          filled (header ++ payload) buf (len % 2 ^ 32),
          received ring vc ch r start,
        )
    got =
        (rx_msg-IsStream ring vc buf (len % 2 ^ 32) ch r start n (header ++ payload) rest s e
          (omega (arith, size))).0
        ∙ ap
            (λ l.
              returns
                (l, filled (header ++ payload) buf (len % 2 ^ 32), received ring vc ch r start))
            size

-- `recvfrom` with a packet under way that, cut at 32 bits of the length given, fits the buffer and is
-- not empty. If it then has fewer than 28 bytes, or the caller asks for no address, as `recv` does, the
-- call is undefined: it writes through a null pointer or moves a negative number of bytes.
pub recvfrom-undefined :
    (ring : Rings) (vc : VChannel) (ch : SharedChannel ring.R) (r : ring.R) (start n : ℕ)
    (has_addr : Bool) (m buf : List ℕ) (len : ℕ) (rest : List (List ℕ))
    → IsStream ring ch vc.proc_id r start (suc n)
    → messages ch start (suc n) ≡ m ∷ rest
    → 0 < length (take (len % 2 ^ 32) m)
    → length (take (len % 2 ^ 32) m) ≤ length buf
    → (has_addr ≡ false) ⊎ (length (take (len % 2 ^ 32) m) < 28)
    → recvfrom ring vc has_addr buf len ch ≡ undefined
unfolding recvfrom unwrap_packet
recvfrom-undefined ring vc ch r start n has_addr m buf len rest s e h fits k =
    recvfrom-no_unwrap ring vc ch _ has_addr buf len (length (take (len % 2 ^ 32) m) - 1)
      (filled m buf (len % 2 ^ 32))
      ((rx_msg-IsStream ring vc buf (len % 2 ^ 32) ch r start n m rest s e fits).0
        ∙ ap (λ l. returns (l, filled m buf (len % 2 ^ 32), received ring vc ch r start)) size)
      (not_unwrapped has_addr (suc (length (take (len % 2 ^ 32) m) - 1))
        (filled m buf (len % 2 ^ 32)) (elim k [ inl a ↦ inl a | inr b ↦ inr (omega arith) ]))
  where
    size : length (take (len % 2 ^ 32) m) ≡ suc (length (take (len % 2 ^ 32) m) - 1)
    size = omega arith
