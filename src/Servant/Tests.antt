-- ===== src/Servant/Tests.antt =====
-- A run of `main` from the command line to the end, and the theorems at such runs.
use servant.Prelude.{ℕ, [], ◌≡◌, List, ◌∷◌, returns, some, true, refl, none, false, ◌≢◌, arith}
use servant.Prelude.Int.{pos, negsuc}
use servant.Config.{
  Config, opt_rx_size, opt_tx_size, opt_frame_size, xdp_zerocopy, xdp_flags_drv_mode, parse_args,
}
use servant.Channel.ListRing.{list_rings}
use servant.Heart.ListRings.{rings, reserve_made}
use servant.Prelude.Text.{atoi, str_eq}
use servant.Maps.Setup.{setup_map_system, scan_maps}
use servant.UserMaps.{vipdef, configure_katran_maps}
use servant.Brain.Engine.{open_file}
use servant.UserMaps.ListMaps.{list_maps, empty, position}
use servant.Sockets.{setup_socket, socket_resources}
use servant.Heart.{Socket}
use servant.Maps.{no_maps}
use servant.Servant.{Host, Ending, null_channel, closed_socket, requests, by_link}
use servant.Servant.Main.{main, affinity_fails, set_up_passing, pump}
use servant.Brain.{max_code_size, setup_ubpf_engine, virtual_machine}
use servant.Brain.Engine.{engine, setup_ubpf_engine-ends}
use servant.UserMaps.Katran.{Finds, configure-Finds}
use servant.UserMaps.{
  vip_map_name, ch_rings_name, reals_name, vipmeta, realdef, zero_bytes, configure_katran_maps,
}
use servant.Servant.Ends.{Leaves, main-Leaves}

abbrev two : List ℕ
two = b'2' ∷ []

-- A host that grants everything, and whose signal comes at once.
abbrev host : Host rings
host = record {
  log2 = λ n. 1;
  if_nametoindex = λ name. 3;
  opts = opt_rx_size two ∷ opt_tx_size two ∷ opt_frame_size two ∷ [];
  args = (b'e' ∷ []) ∷ (b'0' ∷ []) ∷ (b'p' ∷ []) ∷ [];
  setrlimit = pos 0;
  setaffinity = λ core. pos 0;
  xdp = record {
    get_link_xdp_id = λ ifindex flags. (pos 0, 0);
    prog_load = λ path. (pos 0, pos 5);
    set_link_xdp_fd = λ ifindex fd flags. pos 0;
  };
  socket = record {
    mmap = λ size. true;
    alloc_umem = true;
    umem_create = λ size c. pos 0;
    fq = record { submitted = []; reserved = []; first = 0; room = 4 };
    cq = record { taken = []; waiting = []; first = 0 };
    alloc_socket = true;
    socket_create = λ ifname qid c. pos 0;
    rx = record { taken = []; waiting = []; first = 0 };
    tx = record { submitted = []; reserved = []; first = 0; room = 2 };
    setsockopt = λ o value. pos 0;
  };
  xsk_fd = 6;
  page_size = 4096;
  kernel_maps = [];
  update_elem = λ fd key value flag. pos 0;
  ring = list_rings;
  link = record {
    shm_open_excl = negsuc 0;
    shm_open = negsuc 0;
    ftruncate = negsuc 0;
    fstat = none;
    mmap = none;
    munmap_ret = pos 0;
    mmap_at = λ address. none;
  };
  region = null_channel;
  vc_at = 0;
  udp_fd = pos 7;
  udp_address = some 16885952;
  engine = record {
    file = open_file (some (1 ∷ 2 ∷ [], false));
    calloc = true;
    create = true;
    load = λ elf bytes n. pos 0;
  };
  maps = list_maps;
  program_maps = λ vm. empty;
  compile = λ vm maps. some (λ addr len memory. (200, len, pos 0, memory));
  sendto = λ s buf. pos 0;
  rounds = [];
}

abbrev ending : Ending
ending = record {
  status = pos 0;
  sockets = [];
  engine = [];
  closed = some (closed_socket (pos 7));
  attached = false;
  unlinked = false;
}

main-run : main rings host ≡ returns ending
unfolding main parse_args setup_socket reserve_made atoi setup_map_system scan_maps list_maps
    position str_eq vipdef
main-run = refl

main-Leaves_example : Leaves host.engine ending
main-Leaves_example = main-Leaves rings host (some (1 ∷ 2 ∷ [], false)) refl refl ending main-run

-- The configuration of the command line.
abbrev config : Config
config = record {
  num_frames = 32;
  frame_size = 2;
  frame_shift = 1;
  headroom = 256;
  rx_size = 2;
  tx_size = 2;
  ifindex = 3;
  ifname = b'e' ∷ [];
  qid = 0;
  core = negsuc 0;
  busy_poll = false;
  busy_poll_duration = 20;
  batch_size = 64;
  copy_mode = xdp_zerocopy;
  xdp_mode = xdp_flags_drv_mode;
  ebpf_program_path = b'p' ∷ [];
  jitted = true;
  custom_kern_path = none;
  uth_prog_path = none;
  use_packet_injection = false;
  maps = [];
}

parsed : parse_args host.log2 host.if_nametoindex host.opts host.args ≡ returns config
unfolding parse_args atoi
parsed = refl

-- A host without huge pages.
abbrev poor_host : Host rings
poor_host = record host { socket = record host.socket { mmap = λ size. false } }

affinity_kept : affinity_fails rings poor_host config ≡ false
unfolding affinity_fails
affinity_kept = refl

refused : setup_socket rings poor_host.socket config config.ifname config.qid ≡ returns (none, [])
unfolding setup_socket
refused = refl

-- The phases of the run.
abbrev xsk : Socket rings
xsk = record {
  fq = record { submitted = 0 ∷ 2 ∷ 4 ∷ 6 ∷ []; reserved = []; first = 4; room = 4 };
  cq = host.socket.cq;
  rx = host.socket.rx;
  tx = host.socket.tx;
  outstanding_tx = 0;
}

granted :
    setup_socket rings host.socket config config.ifname config.qid
    ≡ returns (some xsk, socket_resources config)
unfolding setup_socket reserve_made
granted = refl

no_maps_found : setup_map_system 4096 [] (requests config) no_maps ≡ returns (0, no_maps)
unfolding setup_map_system scan_maps
no_maps_found = refl

loaded :
    setup_ubpf_engine 2 host.engine []
    ≡ some (returns (0, some (engine max_code_size (1 ∷ 2 ∷ [])), virtual_machine ∷ []))
loaded = setup_ubpf_engine-ends 2 host.engine (some (1 ∷ 2 ∷ [], false)) [] (omega arith) refl refl

configured :
    (m : list_maps.M) × (configure_katran_maps list_maps empty ≡ returns m)
    × Finds list_maps vip_map_name vipdef vipmeta m
    × Finds list_maps ch_rings_name zero_bytes zero_bytes m
    × Finds list_maps reals_name zero_bytes realdef m
unfolding position str_eq list_maps
configured = configure-Finds list_maps empty (0, refl, refl) (1, refl, refl) (2, refl, refl)

by_udp : set_up_passing rings host config ≢ by_link none
unfolding set_up_passing
by_udp h = cc

pumped :
    pump rings host config
      (engine max_code_size (1 ∷ 2 ∷ []))
      configured.0
      (set_up_passing rings host config)
      xsk
    ≡ returns (null_channel, xsk)
unfolding pump set_up_passing
pumped = refl

affinity_taken : affinity_fails rings host config ≡ false
unfolding affinity_fails
affinity_taken = refl
