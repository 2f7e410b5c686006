-- ===== src/Sockets/Tests.antt =====
-- Runs of the set-up of a socket over rings kept as lists, and the theorem at such a run.
use servant.Prelude.{ℕ, true, none, ◌∷◌, ◌≡◌, [], undefined, returns, All, refl, arith}
use servant.Prelude.Int.{pos, negsuc, minus_one}
use servant.Config.{Config, xdp_copy, xdp_flags_skb_mode}
use servant.Heart.ListRings.{rings, Made, reserve_made}
use servant.Sockets.{
  Host, setup_socket, tear_down_socket, enter_xsks_into_map, socket_resources, umem_size,
}
use servant.Sockets.Fill.{setup_socket-fills, socket_outcome, IsFilled, IsInside, frames}

abbrev config : Config
config = record {
  num_frames = 32;
  frame_size = 2048;
  frame_shift = 11;
  headroom = 256;
  rx_size = 2;
  tx_size = 2;
  ifindex = 3;
  ifname = b'e' ∷ [];
  qid = 0;
  core = minus_one;
  busy_poll = true;
  busy_poll_duration = 20;
  batch_size = 2;
  copy_mode = xdp_copy;
  xdp_mode = xdp_flags_skb_mode;
  ebpf_program_path = [];
  jitted = true;
  custom_kern_path = none;
  uth_prog_path = none;
  use_packet_injection = true;
  maps = [];
}

abbrev host : Host rings
host = record {
  mmap = λ size. true;
  alloc_umem = true;
  umem_create = λ size c. pos 0;
  fq = record { submitted = []; reserved = []; first = 0; room = 4 };
  cq = record { taken = []; waiting = []; first = 0 };
  alloc_socket = true;
  socket_create = λ ifname qid c. pos 0;
  rx = record { taken = []; waiting = []; first = 0 };
  tx = record { submitted = []; reserved = []; first = 0; room = 2 };
  setsockopt = λ o value. pos 0;
}

-- With 2^20 frames of 2^12 bytes the computation of the size leaves 32 bits, and nothing is mapped.
umem_size-wraps : umem_size (record config { num_frames = 1048576; frame_size = 4096 }) ≡ 0
umem_size-wraps = refl

setup_socket-fills_example :
    (fq : Made ℕ) × (setup_socket rings host config (b'e' ∷ []) 0
      ≡ socket_outcome rings host config (b'e' ∷ []) 0 fq)
    × IsFilled rings 4 2048 host.fq fq
    × All (IsInside 2048 65536) (frames 4 2048 0)
setup_socket-fills_example =
    setup_socket-fills rings host config (b'e' ∷ []) 0 refl (omega arith) (omega arith)
      (omega arith) (omega arith)

-- A socket whose option is refused is NULL, and what it holds is lost.
setup_socket-refused :
    setup_socket rings (record host { setsockopt = λ o value. negsuc 0 }) config (b'e' ∷ []) 0
    ≡ returns (none, socket_resources config)
unfolding setup_socket reserve_made
setup_socket-refused = refl

-- A NULL socket cannot be torn down.
tear_down_socket-null : tear_down_socket rings config none [] ≡ undefined
unfolding tear_down_socket
tear_down_socket-null = refl

-- A queue that the map has no entry for is refused.
enter_xsks_into_map-last : enter_xsks_into_map (λ fd key value flag. pos 0) [] (pos 64) 5 ≡ pos 1
unfolding enter_xsks_into_map
enter_xsks_into_map-last = refl
