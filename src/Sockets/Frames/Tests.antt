-- ===== src/Sockets/Frames/Tests.antt =====
-- A socket with four frames, and an iteration before which the kernel received a packet.
use servant.Prelude.Int.{pos, minus_one}
use servant.Prelude.{[], ◌∷◌, true, false, none, ◌%◌, ◌^◌}
use servant.Channel.ListRing.{list_rings, runtime, made}
use servant.Config.{Config, xdp_copy, xdp_flags_skb_mode}
use servant.Heart as Loop
use servant.Heart.{XskRings, Socket, sendto_done}
use servant.Heart.Actions.{Machine, World, Round}
use servant.Heart.ListRings.{rings}
use servant.Sockets.{Host}

-- An address has 48 bits, and an offset above them.
abbrev masked : XskRings
masked = record {
  fill_ring = rings.fill_ring;
  tx_ring = rings.tx_ring;
  comp_ring = rings.comp_ring;
  rx_ring = rings.rx_ring;
  extract_addr = λ a. a % 2 ^ 48;
  add_offset_to_addr = λ a. a;
}

abbrev config : Config
config = record {
  num_frames = 16;
  frame_size = 2048;
  frame_shift = 11;
  headroom = 256;
  rx_size = 2;
  tx_size = 2;
  ifindex = 3;
  ifname = b'e' ∷ [];
  qid = 0;
  core = minus_one;
  busy_poll = false;
  busy_poll_duration = 20;
  batch_size = 2;
  copy_mode = xdp_copy;
  xdp_mode = xdp_flags_skb_mode;
  ebpf_program_path = [];
  jitted = true;
  custom_kern_path = none;
  uth_prog_path = none;
  use_packet_injection = false;
  maps = [];
}

abbrev host : Host masked
host = record {
  mmap = λ size. true;
  alloc_umem = true;
  umem_create = λ size c. pos 0;
  fq = record { submitted = []; reserved = []; first = 0; room = 4 };
  cq = record { taken = []; waiting = []; first = 0 };
  alloc_socket = true;
  socket_create = λ ifname qid c. pos 0;
  rx = record { taken = []; waiting = []; first = 0 };
  tx = record { submitted = []; reserved = []; first = 0; room = 2 };
  setsockopt = λ o value. pos 0;
}

-- The socket that is set up, and what the kernel makes of it.
abbrev before : Socket masked
before = record {
  fq = record { room = 4; first = 4; submitted = 0 ∷ 2048 ∷ 4096 ∷ 6144 ∷ []; reserved = [] };
  cq = record { first = 0; taken = []; waiting = [] };
  rx = record { first = 0; taken = []; waiting = [] };
  tx = record { room = 2; first = 0; submitted = []; reserved = [] };
  outstanding_tx = 0;
}

abbrev between : Socket masked
between = record before {
  fq = record { room = 4; first = 4; submitted = 2048 ∷ 4096 ∷ 6144 ∷ []; reserved = [] };
  rx = record { first = 0; taken = []; waiting = record { addr = 256; len = 60 } ∷ [] };
}

-- It sends every packet.
abbrev sender : Machine
sender = record {
  ring = list_rings;
  vc = runtime;
  fn = λ addr len memory. (300, len, pos 0, memory);
  sendto = λ buf. pos 0;
}

abbrev loop_config : Loop.Config
loop_config = record {
  copy_mode = false;
  busy_poll = false;
  batch_size = 2;
  use_packet_injection = false;
}

abbrev round : Round sender masked
round = record { kernel = λ xsk. between; kick = sendto_done }

abbrev world : World sender
world = record { memory = []; channel = made }
