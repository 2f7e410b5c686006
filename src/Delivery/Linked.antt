-- ===== src/Delivery/Linked.antt =====
-- The way of a packet over a link that both processes have just set up.
use servant.Prelude.Int.{ℤ, is_positive}
use servant.Prelude.{
  false, ℕ, List, ◌∷◌, some, returns, ◌<◌, ◌≤◌, ◌≡◌, ◌≢◌, ◌==◌, ◌||◌, length, map, true, get_elem?,
  arith,
}
use servant.Channel.{SharedChannel, VChannel, count_msg}
use servant.Channel.Connect.{Answers}
use servant.Channel.Connect.Linked.{connect-IsStream}
use servant.Channel.Link.{link_attr, setup_interpose_link, setup_interpose_vchannel}
use servant.Interpose.{EpollData, EpData, epoll_ctl, ctl_add, get_epoll_index}
use servant.Heart.{Desc, XskRings, Socket, Config}
use servant.Heart.Actions.{Machine, World, pump_batch}
use servant.Heart.Moved.{IsIdle}
use servant.Delivery.{passed_bytes, AreShort, Fits}
use servant.Delivery.Served.{serve_each, served, pump_batch-serve_each}

-- The runtime makes the link by `setup_interpose_link`, where the exclusive `shm_open` gives a positive
-- descriptor, and the application attaches to it by `setup_interpose_vchannel`, where it gives none. The
-- application then registers a descriptor of port 8080 with EPOLL_CTL_ADD under an epoll descriptor that
-- has an entry or for which one is free, where the first slot is free or the descriptor's own. With
-- packet injection on, on a socket with nothing reserved, the loop gets through a batch of packets
-- peeked from the receive ring, if the program passes fewer than 512, each of fewer than 1500 bytes and
-- in the memory. If each has its 28 bytes of headers, the application, with an address and a buffer of
-- fewer than 2 ^ 32 bytes for each, then finds with each `epoll_wait` the event of its registration and with the `recvfrom`
-- behind it the payload and sender of the next packet, in the order of the batch, until the channel
-- counts no message.
pub setup_interpose_link-serve_each :
    (m : Machine) (r : XskRings) (config : Config) (os0 os1 : Answers)
    (old ch0 : SharedChannel m.ring.R) (vc : VChannel) (ds : List Desc) (w : World m)
    (xsk : Socket r) (bufs : List (List ℕ)) (epolls : List EpollData) (epfd fd payload i : ℕ)
    (timeout libc poll : ℤ) (ed : EpollData) (d : EpData) (others : List EpData)
    → is_positive os0.shm_open_excl ≡ true
    → is_positive os1.shm_open_excl ≡ false
    → (setup_interpose_link m.ring os0 old).1.made ≡ some (m.vc, ch0)
    → (setup_interpose_vchannel m.ring os1 ch0).1.made ≡ some (vc, w.channel)
    → get_epoll_index epolls epfd ≡ some i
    → get_elem? epolls i ≡ some ed
    → ed.following ≡ d ∷ others
    → fd ≢ 0
    → (d.fd == 0 || d.fd == fd) ≡ true
    → config.use_packet_injection ≡ true
    → IsIdle r xsk
    → length ds ≤ length (r.rx_ring.peeked xsk.rx)
    → AreShort m r ds w.memory
    → length (passed_bytes m r ds w.memory) < 512
    → Fits bufs (passed_bytes m r ds w.memory)
    → let table = epoll_ctl (some 8080) ctl_add epfd fd payload epolls in
      (w' : World m) × (xsk' : Socket r) × (ch' : SharedChannel m.ring.R) × (pump_batch m r config
          ds w xsk
        ≡ returns (w', xsk'))
      × (serve_each m.ring vc table epfd timeout libc poll bufs w'.channel
          ≡ returns (
            map
                (served m.ring vc table epfd timeout libc poll payload)
                (passed_bytes m r ds w.memory),
            ch',
          ))
      × (count_msg m.ring vc ch' ≡ returns 0)
unfolding setup_interpose_link setup_interpose_vchannel
setup_interpose_link-serve_each m r config os0 os1 old ch0 vc ds w xsk bufs epolls epfd fd payload i
      timeout libc poll ed d others h0 h1 e0 e1 at_i entry slots nz free inject idle h short room
      fit =
    let (p0, p1, rr, size, s) =
      connect-IsStream m.ring os0 os1 link_attr link_attr old ch0 w.channel m.vc vc (omega arith) h0
        h1 e0 e1 in
    pump_batch-serve_each m r config vc ds w xsk rr 0 bufs epolls epfd fd payload i timeout libc
      poll ed d others at_i entry slots nz free inject (omega arith) (omega arith) idle h short
      (omega arith) (s vc.proc_id (omega arith)) fit
