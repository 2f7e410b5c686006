-- ===== src/Delivery.antt =====
-- The way of a packet from the loop of src/heart.c, which passes it on through src/interpose_link.c,
-- over the channel of src/vchannel.c to the `recvfrom` of src/interpose/interpose.c.
pub mod Batch
pub mod Drain
pub mod InOrder
pub mod Served
pub mod Linked
mod Tests
use servant.Prelude.{
  true, ℕ, List, [], ◌∷◌, Option, some, none, Outcome, returns, ◌>>=◌, ◌+◌, ◌<◌, ◌≤◌, ◌%◌, ◌^◌,
  ◌==◌, ◌≡◌, if◌then◌else◌, length, take, drop,
}
use servant.Channel.{SharedChannel, VChannel}
use servant.Channel.Ring.{Rings}
use servant.Heart.{Desc, XskRings, pass_action}
use servant.Heart.Actions.{Machine, trim}
use servant.Interpose.{Sender, Received, passed_on, injected, recvfrom}
use servant.Interpose.Packet.{sender_of}

module _ (m : Machine) (r : XskRings) where
  -- The bytes of the packets for which the program says PASS, as it leaves them in the memory.
  unfoldable pub passed_bytes : List Desc → List ℕ → List (List ℕ)
  passed_bytes [] memory = []
  passed_bytes (d ∷ ds) memory =
      let out = m.fn (r.add_offset_to_addr d.addr) d.len memory in
      let rest = passed_bytes ds out.3 in
      if out.0 % 2 ^ 32 == pass_action
      then take (out.1 % 2 ^ 32) (drop (r.add_offset_to_addr (trim d.addr out.2)) out.3) ∷ rest
      else rest

  -- Each of them fits a slot of the channel and lies in the memory.
  unfoldable pub AreShort : List Desc → List ℕ → Type 0
  AreShort [] memory = Unit
  AreShort (d ∷ ds) memory =
      let out = m.fn (r.add_offset_to_addr d.addr) d.len memory in
      (out.0 % 2 ^ 32 ≡ pass_action
        → (out.1 % 2 ^ 32 < 1500)
          × (r.add_offset_to_addr (trim d.addr out.2) + out.1 % 2 ^ 32 ≤ length out.3))
      × AreShort ds out.3

-- What a caller of `recvfrom` sees: the bytes that it returns the number of, and the sender; none is a
-- result of libc's.
abbrev pub seen : Received → Option (List ℕ × Sender)
seen passed_on = none
seen (injected ret buf sender) = some (take ret buf, sender)

-- A `recvfrom` with an address for each buffer.
unfoldable pub receive_each :
    (ring : Rings)
    → VChannel
    → List (List ℕ)
    → SharedChannel ring.R
    → Outcome (List (Option (List ℕ × Sender)) × SharedChannel ring.R)
receive_each ring vc [] ch = returns ([], ch)
receive_each ring vc (buf ∷ bufs) ch = do
  out ← recvfrom ring vc true buf (length buf) ch
  rest ← receive_each ring vc bufs out.1
  returns (seen out.0 ∷ rest.0, rest.1)

-- The payload and the sender of a packet with an IP header of 20 bytes and a UDP header.
abbrev pub datagram : List ℕ → Option (List ℕ × Sender)
datagram packet = some (drop 28 packet, sender_of (take 28 packet))

-- There is a buffer for each packet, of fewer than 2 ^ 32 bytes, and it is large enough; each packet
-- has its headers.
abbrev pub Fits : List (List ℕ) → List (List ℕ) → Type 0
Fits [] [] = Unit
Fits [] (p ∷ ps) = ⊥
Fits (b ∷ bs) [] = ⊥
Fits (b ∷ bs) (p ∷ ps) = (28 ≤ length p) × (length p ≤ length b) × (length b < 2 ^ 32) × Fits bs ps
