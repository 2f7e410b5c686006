-- ===== src/Delivery/InOrder.antt =====
-- A packet's whole way: what the eBPF program passes, the application receives.
use servant.Prelude.{ℕ, List, returns, ◌-◌, ◌<◌, ◌≤◌, ◌≡◌, true, length, map, sym, subst, arith}
use servant.Channel.{SharedChannel, VChannel}
use servant.Channel.Span.{span}
use servant.Channel.Stream.{IsStream}
use servant.Heart.{Desc, XskRings, Socket, Config}
use servant.Heart.Actions.{Machine, World, pump_batch}
use servant.Heart.Moved.{IsIdle}
use servant.Delivery.{passed_bytes, AreShort, Fits, datagram, receive_each}
use servant.Delivery.Batch.{pump_batch-Delivers}
use servant.Delivery.Drain.{receive_each-messages}

-- With packet injection on and nothing under way, a batch of packets peeked from the receive ring, on
-- a socket with nothing reserved: if each packet that the program passes has fewer than 1500 bytes and
-- lies in the memory, and the ring of the channel has room for them all, the loop gets through the
-- batch. The application, the other process of the channel, then receives with a `recvfrom` for each
-- of them, with an address and a buffer for the packet, exactly their payloads and senders, in the
-- order of the batch, if they have their 28 bytes of headers; and nothing is under way any more.
pub pump_batch-recvfrom :
    (m : Machine) (r : XskRings) (config : Config) (vc : VChannel) (ds : List Desc) (w : World m)
    (xsk : Socket r) (rr : m.ring.R) (start : ℕ) (bufs : List (List ℕ))
    → config.use_packet_injection ≡ true
    → m.vc.proc_id ≤ 1
    → vc.proc_id ≡ 1 - m.vc.proc_id
    → IsIdle r xsk
    → length ds ≤ length (r.rx_ring.peeked xsk.rx)
    → AreShort m r ds w.memory
    → length (passed_bytes m r ds w.memory) < m.ring.slots rr
    → IsStream m.ring w.channel vc.proc_id rr start 0
    → Fits bufs (passed_bytes m r ds w.memory)
    → (w' : World m) × (xsk' : Socket r) × (ch' : SharedChannel m.ring.R) × (rr' : m.ring.R)
      × (start' : ℕ) × (pump_batch m r config ds w xsk ≡ returns (w', xsk'))
      × (receive_each m.ring vc bufs w'.channel
          ≡ returns (map datagram (passed_bytes m r ds w.memory), ch'))
      × IsStream m.ring ch' vc.proc_id rr' start' 0
unfolding span
pump_batch-recvfrom m r config vc ds w xsk rr start bufs inject p q idle h short room s fit =
    let (w', xsk', rr1, n1, e, s1, k, _) =
      pump_batch-Delivers m r config start inject p ds w xsk rr 0 idle h short (omega arith)
        (subst (λ j. IsStream m.ring w.channel j rr start 0) q s) in
    let (ch', rr', start', e', s') =
      receive_each-messages m.ring vc (passed_bytes m r ds w.memory) bufs w'.channel rr1 start n1
        (subst (λ j. IsStream m.ring w'.channel j rr1 start n1) (sym q) s1) k fit in
    (w', xsk', ch', rr', start', e, e', s')
