-- ===== src/Sockets.antt =====
-- src/sockets.c: the XDP program of the interface, the AF_XDP socket with its memory and rings, and its
-- entry in the map of the XDP program. The calls of libbpf and of the kernel are answers of a host;
-- the rings are those of Heart/Xsk.
pub mod Fill
pub mod Frames
mod Tests
use servant.Prelude.{
  ℕ, ◌+◌, ◌*◌, ◌-◌, ◌%◌, ◌^◌, Bool, true, false, List, [], ◌∷◌, ◌++◌, length, ltb, if◌then◌else◌,
  Option, none, some, Outcome, returns, exited, require, ◌>>=◌, ◌>>◌, suc, not, ◌==◌, undefined,
  ◌&&◌, zero,
}
use servant.Prelude.Int.{ℤ, pos, negsuc, minus_one, is_negative}
use servant.Prelude.Int.{is_zero, word_bytes}
use servant.Config.{
  Config, CopyMode, XdpMode, xdp_zerocopy, xdp_copy, xdp_flags_drv_mode, xdp_flags_skb_mode,
}
use servant.Heart.Xsk.{next_index}
use servant.Heart.{XskRings, Socket}
use servant.Maps.{Entry, update_elem_kern}

-- The flags of linux/if_link.h and linux/if_xdp.h that the configuration stands for; `|` adds flags
-- that differ.
abbrev pub xdp_flags : Config → ℕ
xdp_flags config = elim config.xdp_mode [ xdp_flags_drv_mode ↦ 1 + 4 | xdp_flags_skb_mode ↦ 1 + 2 ]

abbrev pub bind_flags : Config → ℕ
bind_flags config = elim config.copy_mode [ xdp_zerocopy ↦ 4 + 8 | xdp_copy ↦ 2 + 8 ]

-- The answers on the XDP program: `bpf_get_link_xdp_id` with the id, `bpf_prog_load_xattr` with the
-- descriptor, and `bpf_set_link_xdp_fd`.
pub record XdpHost : Type 0 where
  pub get_link_xdp_id : ℕ → ℕ → ℤ × ℕ
  pub prog_load : List ℕ → ℤ × ℤ
  pub set_link_xdp_fd : ℕ → ℤ → ℕ → ℤ

-- Whether there is a program on the interface already.
abbrev pub is_taken : ℤ × ℕ → Bool
is_taken answer = not (is_negative answer.0) && ltb 0 answer.1

-- `load_xdp_program`; the second part is whether the program was attached.
unfoldable pub load_xdp_program : XdpHost → Config → List ℕ → ℕ → ℕ × Bool
load_xdp_program host config xdp_filename ifindex =
    let flags = xdp_flags config in
    let loaded = host.prog_load xdp_filename in
    if is_taken (host.get_link_xdp_id ifindex flags)
    then (1, false)
    else if not (is_zero loaded.0)
    then (1, false)
    else if is_negative loaded.1
    then (1, false)
    else if is_negative (host.set_link_xdp_fd ifindex loaded.1 flags)
    then (1, false)
    else (0, true)

-- `struct xsk_umem_config` and `struct xsk_socket_config`.
pub record UmemConfig : Type 0 where
  pub fill_size : ℕ
  pub comp_size : ℕ
  pub frame_size : ℕ
  pub frame_headroom : ℕ
  pub flags : ℕ

pub record SocketConfig : Type 0 where
  pub rx_size : ℕ
  pub tx_size : ℕ
  pub inhibit_prog_load : Bool
  pub xdp_flags : ℕ
  pub bind_flags : ℕ

pub data SocketOption : Type 0 where
  so_prefer_busy_poll so_busy_poll so_busy_poll_budget : SocketOption

-- What a socket holds: its memory, `struct xsk_umem_info`, the umem, `struct xsk_socket_info`, and the
-- socket.
pub data Resource : Type 0 where
  umem_buffer : ℕ → Resource
  umem_info umem_object socket_info socket_object : Resource

abbrev pub same : Resource → Resource → Bool
same (umem_buffer m) s = elim s [ umem_buffer n ↦ m == n | _ ↦ false ]
same umem_info s = elim s [ umem_info ↦ true | _ ↦ false ]
same umem_object s = elim s [ umem_object ↦ true | _ ↦ false ]
same socket_info s = elim s [ socket_info ↦ true | _ ↦ false ]
same socket_object s = elim s [ socket_object ↦ true | _ ↦ false ]

-- `free`, `munmap`, `xsk_umem__delete` and `xsk_socket__delete`, of what was acquired last.
abbrev pub release : Resource → List Resource → List Resource
release s [] = []
release s (h ∷ held) = let rest = h ∷ release s held in if same s h then held else rest

-- `if (!b) exit(EXIT_FAILURE)`
abbrev pub exit_unless : Bool → Outcome (Unit {0})
exit_unless true = returns tt
exit_unless false = exited 1

abbrev pub is_some {ℓ} : {A : Type ℓ} → Option A → Bool
is_some none = false
is_some (some a) = true

-- The `uint64_t umem_size`, computed in 32 bits.
abbrev pub umem_size : Config → ℕ
umem_size config = config.num_frames * config.frame_size % 2 ^ 32

abbrev pub double_size : ℕ → ℕ
double_size n = n * 2 % 2 ^ 32

-- The configuration that `xsk_umem__create` gets.
unfoldable pub umem_config : Config → UmemConfig
umem_config config = record {
  fill_size = double_size config.rx_size;
  comp_size = double_size config.tx_size;
  frame_size = config.frame_size;
  frame_headroom = config.headroom;
  flags = 0;
}

-- The configuration that `xsk_socket__create` gets.
unfoldable pub socket_config : Config → SocketConfig
socket_config config = record {
  rx_size = config.rx_size;
  tx_size = config.tx_size;
  inhibit_prog_load = is_some config.custom_kern_path;
  xdp_flags = xdp_flags config;
  bind_flags = bind_flags config;
}

-- What a socket that is set up holds, the last acquired first.
abbrev pub socket_resources : Config → List Resource
socket_resources config =
    socket_object ∷ socket_info ∷ umem_object ∷ umem_info ∷ umem_buffer (umem_size config) ∷ []

module _ (r : XskRings) where
  -- The answers on the socket. `alloc_umem` and `alloc_socket` are whether `calloc` gives memory; the
  -- rings are those that libbpf sets up.
  pub record Host : Type 0 where
    pub mmap : ℕ → Bool
    pub alloc_umem : Bool
    pub umem_create : ℕ → UmemConfig → ℤ
    pub fq : r.fill_ring.P
    pub cq : r.comp_ring.C
    pub alloc_socket : Bool
    pub socket_create : List ℕ → ℕ → SocketConfig → ℤ
    pub rx : r.rx_ring.C
    pub tx : r.tx_ring.P
    pub setsockopt : SocketOption → ℕ → ℤ

  -- The `for` loop that fills the fill ring, from `i` on, with so many rounds left. The product of an
  -- int and a uint32_t has 32 bits.
  unfoldable pub fill_frames : ℕ → ℕ → ℕ → ℕ → r.fill_ring.P → r.fill_ring.P
  fill_frames zero frame_size i idx fq = fq
  fill_frames (suc left) frame_size i idx fq =
      fill_frames left frame_size (i + 1) (next_index idx)
        (r.fill_ring.write fq idx (i * frame_size % 2 ^ 32))

  -- The reservation of the fill ring, its filling and submission.
  unfoldable pub populate : ℕ → ℕ → r.fill_ring.P → Outcome r.fill_ring.P
  unfolding fill_frames
  populate fill_size frame_size fq =
      let got = r.fill_ring.reserve fq fill_size in
      if got.0 == fill_size
      then returns (r.fill_ring.submit (fill_frames fill_size frame_size 0 got.1 got.2) fill_size)
      else exited 1

  -- The options of the socket, in the order that they are set; false is that one fails.
  unfoldable pub set_options : Host → Config → Bool
  set_options host config =
      if not config.busy_poll
      then true
      else not (is_negative (host.setsockopt so_prefer_busy_poll 1))
        && (not (is_negative (host.setsockopt so_busy_poll config.busy_poll_duration))
            && not (is_negative (host.setsockopt so_busy_poll_budget config.batch_size)))

  -- `setup_socket`: NULL is none; with the result comes what is held.
  unfoldable pub setup_socket :
      Host → Config → List ℕ → ℕ → Outcome (Option (Socket r) × List Resource)
  unfolding populate set_options umem_config socket_config
  setup_socket host config ifname qid =
      if not (host.mmap (umem_size config)) then returns (none, []) else do
        exit_unless host.alloc_umem
        exit_unless (is_zero (host.umem_create (umem_size config) (umem_config config)))
        fq ← populate (double_size config.rx_size) config.frame_size host.fq
        exit_unless host.alloc_socket
        exit_unless (is_zero (host.socket_create ifname qid (socket_config config)))
        let xsk : Socket r = record {
          fq = fq;
          cq = host.cq;
          rx = host.rx;
          tx = host.tx;
          outstanding_tx = 0;
        }
        let xsk_or_null = if set_options host config then some xsk else none
        returns (xsk_or_null, socket_resources config)

  -- `tear_down_socket`: a null pointer is dereferenced at once.
  unfoldable pub tear_down_socket :
      Config → Option (Socket r) → List Resource → Outcome (List Resource)
  tear_down_socket config none held = undefined
  tear_down_socket config (some xsk) held =
      let h1 = release socket_object held in
      let h2 = release umem_object h1 in
      let h3 = release (umem_buffer (umem_size config)) h2 in
      let h4 = release umem_info h3 in returns (release socket_info h4)

abbrev pub max_qid : ℕ
max_qid = 63

abbrev pub xsks_map : List ℕ
xsks_map = b'x' ∷ b's' ∷ b'k' ∷ b's' ∷ b'_' ∷ b'm' ∷ b'a' ∷ b'p' ∷ []

-- `enter_xsks_into_map`, by the descriptor of the socket.
unfoldable pub enter_xsks_into_map : (ℤ → List ℕ → List ℕ → ℕ → ℤ) → List Entry → ℤ → ℕ → ℤ
unfolding update_elem_kern
enter_xsks_into_map update table (negsuc qid) fd = pos 1
enter_xsks_into_map update table (pos qid) fd =
    if ltb max_qid qid
    then pos 1
    else update_elem_kern update table xsks_map (word_bytes qid) (word_bytes fd) 0
