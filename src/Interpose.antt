-- ===== src/Interpose.antt =====
-- src/interpose/interpose.c with RECVFROM, as it is built: `recvfrom`, `epoll_ctl` and `epoll_wait` of
-- an application, put before those of libc. The descriptors that the application polls are kept in a
-- table beside the kernel's. A descriptor is the 32 bits of an `int`; the code only compares it.
pub mod Search
pub mod Epoll
pub mod Removal
pub mod Packet
pub mod Init
mod Tests
use servant.Prelude.{
  ◌%◌, ◌^◌, replicate, ℕ, Option, Bool, List, ◌∷◌, Outcome, none, true, if◌then◌else◌, some, ltb,
  suc, ◌>>◌, ◌==◌, not, ◌>>=◌, ◌+◌, set, ◌&&◌, [], ◌||◌, zero, require, get_elem?, leb, returns,
  length, ◌-◌, memcpy, drop, take,
}
use servant.Channel.{SharedChannel, VChannel, rx_msg}
use servant.Channel.Ring.{Rings}
use servant.Prelude.Int.{ℤ, pos, negsuc, is_zero}

-- `struct _my_ep_data`; `payload` is the field `data` of a registration.
pub record EpData : Type 0 where
  pub fd : ℕ
  pub payload : ℕ

-- `struct my_epoll_data`
pub record EpollData : Type 0 where
  pub epfd : ℕ
  pub following : List EpData

-- MAX_EPOLL_FDS and MAX_EPOLL_DATA, and the zeroed table.
abbrev pub no_data : EpData
no_data = record { fd = 0; payload = 0 }

abbrev pub no_epoll : EpollData
no_epoll = record { epfd = 0; following = replicate 8 no_data }

abbrev pub no_epolls : List EpollData
no_epolls = replicate 16 no_epoll

-- `i < min_empty || min_empty < 0`, where none is -1.
pub improves : ℕ → Option ℕ → Bool
improves i none = true
improves i (some m) = ltb i m

-- The loop of `_get_epoll_index` from entry `i` on.
pub epoll_index_from : ℕ → Option ℕ → List EpollData → ℕ → Option ℕ
unfolding improves
epoll_index_from i min_empty [] epfd = min_empty
epoll_index_from i min_empty (e ∷ es) epfd =
    let rest =
      epoll_index_from (i + 1) (if e.epfd == 0 && improves i min_empty then some i else min_empty)
        es epfd in
    if e.epfd == epfd then some i else rest

-- `_get_epoll_index`; none is -1.
unfoldable pub get_epoll_index : List EpollData → ℕ → Option ℕ
unfolding epoll_index_from
get_epoll_index table epfd = epoll_index_from 0 none table epfd

-- The loop of EPOLL_CTL_ADD and EPOLL_CTL_MOD over `following`.
pub follow : List EpData → ℕ → ℕ → List EpData
follow [] fd payload = []
follow (d ∷ ds) fd payload =
    let rest = follow ds fd payload in
    if d.fd == 0 || d.fd == fd then record { fd = fd; payload = payload } ∷ ds else d ∷ rest

-- The loop of EPOLL_CTL_DEL.
pub unfollow : List EpData → ℕ → List EpData
unfollow [] fd = []
unfollow (d ∷ ds) fd = (if d.fd == fd then record d { fd = 0 } else d) ∷ unfollow ds fd

-- What ADD and MOD do to the entry that was found.
pub add_to : EpollData → ℕ → ℕ → ℕ → EpollData
unfolding follow
add_to ed epfd fd payload =
    if ed.epfd == 0
    then record {
      epfd = epfd;
      following = set ed.following 0 (record { fd = fd; payload = payload });
    }
    else record ed { following = follow ed.following fd payload }

pub data CtlOp : Type 0 where
  ctl_add ctl_mod ctl_del ctl_other : CtlOp

pub ctl_entry : CtlOp → ℕ → EpollData → ℕ → ℕ → ℕ → EpollData
unfolding add_to unfollow
ctl_entry ctl_add i ed epfd fd payload = add_to ed epfd fd payload
ctl_entry ctl_mod i ed epfd fd payload = add_to ed epfd fd payload
ctl_entry ctl_del i ed epfd fd payload =
    if ltb 0 i then record ed { following = unfollow ed.following fd } else ed
ctl_entry ctl_other i ed epfd fd payload = ed

-- `epoll_ctl`: the table that it leaves before it calls libc's with the same arguments. `port` is the
-- port that `getsockname` reads for `fd`; none is its failure.
pub epoll_ctl : Option ℕ → CtlOp → ℕ → ℕ → ℕ → List EpollData → List EpollData
unfolding get_epoll_index ctl_entry
epoll_ctl none op epfd fd payload table = table
epoll_ctl (some port) op epfd fd payload table =
    if not (port == 8080) then table else elim (get_epoll_index table epfd) [
      | none ↦ table
      | some i ↦ elim (get_elem? table i) [
        | none ↦ table
        | some ed ↦ set table i (ctl_entry op i ed epfd fd payload)
      ]
    ]

-- The first slot of `following` in use.
pub first_followed : List EpData → Option EpData
first_followed [] = none
first_followed (d ∷ ds) = let rest = first_followed ds in if d.fd == 0 then rest else some d

-- How an `epoll_wait` ends: by the result of libc's, or with one event EPOLLIN that carries the
-- payload of a registration.
pub data WaitResult : Type 0 where
  from_libc : ℤ → WaitResult
  one_event : ℕ → WaitResult

-- `while (ret == 0)`: in each round `vc_count_msg` answers first, and then, for an empty ring, libc's
-- `epoll_wait` with the timeout 0. None: the rounds listed are over and the loop goes on.
pub wait_loop : List (ℕ × ℤ) → ℕ → Option WaitResult
wait_loop [] payload = none
wait_loop ((count, ret) ∷ rounds) payload =
    let rest = wait_loop rounds payload in
    if not (count == 0)
    then some (one_event payload)
    else if not (is_zero ret)
    then some (from_libc ret)
    else rest

-- `epoll_wait`, whose argument `timeout` is overwritten by 0; `libc` is the result of libc's.
pub epoll_wait : List EpollData → ℕ → ℤ → ℤ → ℤ → List (ℕ × ℤ) → Option WaitResult
unfolding wait_loop first_followed get_epoll_index
epoll_wait table epfd (negsuc n) timeout libc rounds = some (from_libc libc)
epoll_wait table epfd (pos zero) timeout libc rounds = some (from_libc libc)
epoll_wait table epfd (pos (suc n)) timeout libc rounds = elim (get_epoll_index table epfd) [
  | none ↦ some (from_libc libc)
  | some i ↦ elim (get_elem? table i) [
    | none ↦ some (from_libc libc)
    | some ed ↦
        if not (ed.epfd == epfd)
        then some (from_libc libc)
        else elim (first_followed ed.following) [
          | none ↦ some (from_libc libc)
          | some d ↦ wait_loop rounds d.payload
        ]
  ]
]

-- `sizeof(struct iphdr) + sizeof(struct udphdr)`
abbrev pub hdrlen : ℕ
hdrlen = 28

-- The sender that `recvfrom` reports: the bytes of `udp->source` and of `ip->saddr`.
pub record Sender : Type 0 where
  pub port : List ℕ
  pub saddr : List ℕ

-- What `recvfrom` does with the `ret` bytes in `buf` that came over the channel. Undefined where the
-- caller gave no address, where the headers do not fit the buffer, and where `ret - hdrlen` is
-- negative, since `memmove` takes it as a huge size.
pub unwrap_packet : Bool → ℕ → List ℕ → Outcome (ℕ × List ℕ × Sender)
unwrap_packet has_addr ret buf = do
  require has_addr
  require (leb 22 (length buf))
  require (leb hdrlen ret)
  returns (
    ret - hdrlen,
    memcpy buf (drop hdrlen buf) (ret - hdrlen),
    record { port = take 2 (drop 20 buf); saddr = take 4 (drop 12 buf) },
  )

-- A `recvfrom` ends with libc's result, or with a packet from the channel.
pub data Received : Type 0 where
  passed_on : Received
  injected : ℕ → List ℕ → Sender → Received

module _ (ring : Rings) where
  -- `recvfrom`; the size that `vc_rx_msg` takes is a uint32_t.
  pub recvfrom :
      VChannel
      → Bool
      → List ℕ
      → ℕ
      → SharedChannel ring.R
      → Outcome (Received × SharedChannel ring.R)
  unfolding unwrap_packet
  recvfrom vc has_addr buf len ch = do
    got ← rx_msg ring vc buf (len % 2 ^ 32) ch
    elim got.0 [
      | zero ↦ returns (passed_on, got.2)
      | suc n ↦ do
        out ← unwrap_packet has_addr (suc n) got.1
        returns (injected out.0 out.1 out.2, got.2)
    ]
