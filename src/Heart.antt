-- ===== src/Heart.antt =====
-- src/heart.c: the packets of an AF_XDP socket, from its receive ring through the eBPF program to the
-- fill ring, the transmit ring or the application.
pub mod Xsk
pub mod Actions
pub mod Publish
pub mod Moved
pub mod Batch
pub mod Peek
pub mod Complete
pub mod Udp
pub mod Pass
pub mod Mix
pub mod ListRings
pub mod Packet
pub mod Route
pub mod Frames
mod Tests
use servant.Prelude.{
  take, ℕ, zero, suc, ◌+◌, ◌-◌, ◌%◌, ◌^◌, Bool, true, false, ◌||◌, not, List, [], ◌∷◌, length,
  if◌then◌else◌, ltb, leb, ◌==◌, Outcome, returns, exited, ◌>>=◌, ◌>>◌,
}
use servant.Prelude.Int.{ℤ, pos, negsuc}
use servant.Heart.Xsk.{Producers, Consumers, next_index}

-- `struct xdp_desc`; `len` is a uint32_t and `addr` a uint64_t.
pub record Desc : Type 0 where
  pub addr : ℕ
  pub len : ℕ

-- PASS, DROP and SEND of include/packet_context.h
abbrev pub pass_action : ℕ
pass_action = 100

abbrev pub drop_action : ℕ
drop_action = 200

abbrev pub send_action : ℕ
send_action = 300

-- The rings of `struct xsk_socket_info` and of its `struct xsk_umem_info`.
pub record XskRings : Type 1 where
  pub fill_ring : Producers ℕ
  pub tx_ring : Producers Desc
  pub comp_ring : Consumers ℕ
  pub rx_ring : Consumers Desc
  -- `xsk_umem__extract_addr` and `xsk_umem__add_offset_to_addr`
  pub extract_addr : ℕ → ℕ
  pub add_offset_to_addr : ℕ → ℕ

pub record Socket (r : XskRings) : Type 0 where
  pub fq : r.fill_ring.P
  pub cq : r.comp_ring.C
  pub rx : r.rx_ring.C
  pub tx : r.tx_ring.P
  pub outstanding_tx : ℕ

-- The fields of `struct config` that are read here.
pub record Config : Type 0 where
  pub copy_mode : Bool
  pub busy_poll : Bool
  pub batch_size : ℕ
  pub use_packet_injection : Bool

-- The `errno` of a `sendto` that fails.
pub data Errno : Type 0 where
  enobufs eagain ebusy enetdown other_error : Errno

-- How the `sendto` of `kick_tx` ends.
pub data Sent : Type 0 where
  sendto_done : Sent
  sendto_failed : Errno → Sent

-- `kick_tx`
pub kick_tx : Sent → Outcome (Unit {0})
kick_tx sendto_done = returns tt
kick_tx (sendto_failed other_error) = exited 1
kick_tx (sendto_failed enobufs) = returns tt
kick_tx (sendto_failed eagain) = returns tt
kick_tx (sendto_failed ebusy) = returns tt
kick_tx (sendto_failed enetdown) = returns tt

-- `if (config.copy_mode == XDP_COPY) kick_tx(xsk);`
unfoldable pub kick_if : Bool → Sent → Outcome (Unit {0})
unfolding kick_tx
kick_if false kick = returns tt
kick_if true kick = kick_tx kick

-- A result of `xsk_ring_prod__reserve` as an `int`.
abbrev pub is_negative_int : ℕ → Bool
is_negative_int ret = leb (2 ^ 31) (ret % 2 ^ 32)

module _ (r : XskRings) where
  -- The `for` loop of `complete_tx`: `n` addresses, from index `idx_cq` to index `idx_fq`.
  pub move_completed : ℕ → ℕ → ℕ → r.comp_ring.C → r.fill_ring.P → r.fill_ring.P
  move_completed zero idx_cq idx_fq cq fq = fq
  move_completed (suc n) idx_cq idx_fq cq fq =
      move_completed n (next_index idx_cq) (next_index idx_fq) cq
        (r.fill_ring.write fq idx_fq (r.comp_ring.read cq idx_cq))

  -- What `complete_tx` does with `ret` reserved entries.
  pub put_back : Socket r → r.comp_ring.C → r.fill_ring.P → ℕ → ℕ → ℕ → ℕ × Socket r
  unfolding move_completed
  put_back xsk cq fq ret idx_cq idx_fq = (
    ret,
    record xsk {
      cq = r.comp_ring.release cq ret;
      fq = r.fill_ring.submit (move_completed ret idx_cq idx_fq cq fq) ret;
      outstanding_tx = (xsk.outstanding_tx + 2 ^ 32 - ret) % 2 ^ 32;
    },
  )

  -- `complete_tx` from the reservation on. `recvfrom` is called for its effect on the kernel alone.
  pub refill : Socket r → r.comp_ring.C → ℕ → ℕ → Outcome (ℕ × Socket r)
  unfolding put_back
  refill xsk cq rcvd idx_cq =
      let got = r.fill_ring.reserve xsk.fq rcvd in
      let again = r.fill_ring.reserve got.2 rcvd in
      if got.0 == 0
      then returns (0, record xsk { cq = cq; fq = got.2 })
      else if got.0 == rcvd
      then returns (put_back xsk cq got.2 got.0 idx_cq got.1)
      else if is_negative_int got.0
      then exited 1
      else returns (put_back xsk cq again.2 again.0 idx_cq again.1)

  -- `complete_tx` from the peek on.
  pub recycle : Socket r → ℕ → Outcome (ℕ × Socket r)
  unfolding refill
  recycle xsk ndescs =
      let got = r.comp_ring.peek xsk.cq ndescs in
      if ltb 0 got.0 then refill xsk got.2 got.0 got.1 else returns (0, record xsk { cq = got.2 })

  -- `complete_tx`; `kick` is how its `sendto` ends.
  pub complete_tx : Config → Sent → Socket r → Outcome (ℕ × Socket r)
  unfolding recycle kick_if
  complete_tx config kick xsk = if xsk.outstanding_tx == 0 then returns (0, xsk) else do
    kick_if config.copy_mode kick
    recycle xsk
        (if ltb config.batch_size xsk.outstanding_tx then config.batch_size else xsk.outstanding_tx)

  -- The `for` loop of `poll_rx_queue`.
  pub read_batch : ℕ → ℕ → r.rx_ring.C → List Desc
  read_batch zero idx_rx rx = []
  read_batch (suc n) idx_rx rx = r.rx_ring.read rx idx_rx ∷ read_batch n (next_index idx_rx) rx

  -- `poll_rx_queue`. The number that it returns is a uint16_t, and the caller takes so many packets of
  -- the batch. The batch holds pointers into the ring; the kernel writes to none of these entries
  -- before it is released.
  pub poll_rx_queue : ℕ → Socket r → List Desc × Socket r
  unfolding read_batch
  poll_rx_queue cnt xsk =
      let got = r.rx_ring.peek xsk.rx cnt in
      (take (got.0 % 2 ^ 16) (read_batch got.0 got.1 got.2), record xsk { rx = got.2 })

  -- The `for` loop of `drop`.
  pub fill_all : List Desc → ℕ → r.fill_ring.P → r.fill_ring.P
  fill_all [] idx fq = fq
  fill_all (d ∷ ds) idx fq =
      fill_all ds (next_index idx) (r.fill_ring.write fq idx (r.extract_addr d.addr))

  -- `drop`
  pub drop_batch : List Desc → Socket r → Outcome (ℕ × Socket r)
  unfolding fill_all
  drop_batch batch xsk =
      let cnt = length batch in
      let got = r.fill_ring.reserve xsk.fq cnt in
      if got.0 == cnt
      then returns (
        cnt,
        record xsk {
          fq = r.fill_ring.submit (fill_all batch got.1 got.2) cnt;
          rx = r.rx_ring.release xsk.rx cnt;
        },
      )
      else if is_negative_int got.0
      then exited 1
      else returns (0, record xsk { fq = got.2 })

  -- The `for` loop of `tx`.
  pub send_all : List Desc → ℕ → r.tx_ring.P → r.tx_ring.P
  send_all [] idx tx = tx
  send_all (d ∷ ds) idx tx =
      send_all ds (next_index idx)
        (r.tx_ring.write tx idx (record { addr = r.extract_addr d.addr; len = d.len }))

  -- `tx`
  pub tx_batch : List Desc → Socket r → Outcome (ℕ × Socket r)
  unfolding send_all
  tx_batch batch xsk =
      let cnt = length batch in
      let got = r.tx_ring.reserve xsk.tx cnt in
      if got.0 == cnt
      then returns (
        cnt,
        record xsk {
          tx = r.tx_ring.submit (send_all batch got.1 got.2) cnt;
          rx = r.rx_ring.release xsk.rx cnt;
          outstanding_tx = (xsk.outstanding_tx + cnt) % 2 ^ 32;
        },
      )
      else if is_negative_int got.0
      then exited 1
      else returns (0, record xsk { tx = got.2 })
