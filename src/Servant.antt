-- ===== src/Servant.antt =====
-- src/servant.c: `main`, from the command line to the teardown. Each phase is the definition of its
-- component; the answers of the system, of libbpf and of ubpf are those of one `Host`.
pub mod Main
pub mod Ends
mod Tests
use servant.Prelude.{
  ℕ, [], true, some, Outcome, List, Bool, Option, false, not, none, ◌∷◌, ◌>>=◌, or_undefined,
  if◌then◌else◌, ◌==◌, returns, ◌>>◌, undefined, ◌&&◌, replicate, map,
}
use servant.Prelude.Int.{ℤ, pos, negsuc, minus_one, is_zero, is_negative, to_int}
use servant.Config.{Opt, CopyMode, parse_args, xdp_copy, xdp_zerocopy}
use servant.Config as Options
use servant.Channel.{VChannel, SharedChannel}
use servant.Channel.Ring.{Rings}
use servant.Channel.Connect.{Answers, OsCall}
use servant.Channel.Link.{setup_interpose_link, teardown_interpose_link}
use servant.Maps.{no_maps}
use servant.Maps.Setup.{KernelMap, setup_map_system}
use servant.Heart.{XskRings, Socket, Sent}
use servant.Heart.Actions.{Machine, World, Round, pump_packets}
use servant.Heart.Udp.{UdpSocket, no_socket, setup_udp_socket, teardown_udp_socket}
use servant.Brain.{EngineHost, Vm, virtual_machine, setup_ubpf_engine}
use servant.UserMaps.{UbpfMaps, launch_userspace_maps_server}
use servant.Sockets.{
  XdpHost, load_xdp_program, setup_socket, tear_down_socket, exit_unless, umem_size, xsks_map,
  enter_xsks_into_map, is_some,
}

abbrev name_map_kcache : List ℕ
name_map_kcache = b'm' ∷ b'a' ∷ b'p' ∷ b'_' ∷ b'k' ∷ b'c' ∷ b'a' ∷ b'c' ∷ b'h' ∷ b'e' ∷ []

abbrev name_map_stats : List ℕ
name_map_stats = b'm' ∷ b'a' ∷ b'p' ∷ b'_' ∷ b's' ∷ b't' ∷ b'a' ∷ b't' ∷ b's' ∷ []

abbrev name_test_map : List ℕ
name_test_map = b't' ∷ b'e' ∷ b's' ∷ b't' ∷ b'_' ∷ b'm' ∷ b'a' ∷ b'p' ∷ []

abbrev name_data_map : List ℕ
name_data_map = b'd' ∷ b'a' ∷ b't' ∷ b'a' ∷ b'_' ∷ b'm' ∷ b'a' ∷ b'p' ∷ []

abbrev name_ctl_array : List ℕ
name_ctl_array = b'c' ∷ b't' ∷ b'l' ∷ b'_' ∷ b'a' ∷ b'r' ∷ b'r' ∷ b'a' ∷ b'y' ∷ []

abbrev name_reals : List ℕ
name_reals = b'r' ∷ b'e' ∷ b'a' ∷ b'l' ∷ b's' ∷ []

abbrev name_server_id : List ℕ
name_server_id = b's' ∷ b'e' ∷ b'r' ∷ b'v' ∷ b'e' ∷ b'r' ∷ b'_' ∷ b'i' ∷ b'd' ∷ b'_' ∷ []

abbrev name_stats : List ℕ
name_stats = b's' ∷ b't' ∷ b'a' ∷ b't' ∷ b's' ∷ []

abbrev name_ch_rings : List ℕ
name_ch_rings = b'c' ∷ b'h' ∷ b'_' ∷ b'r' ∷ b'i' ∷ b'n' ∷ b'g' ∷ b's' ∷ []

-- The maps that are looked for if the command line names none.
abbrev pub default_maps : List (List ℕ)
default_maps =
    xsks_map ∷ name_map_kcache ∷ name_map_stats ∷ name_test_map ∷ name_data_map ∷ name_ctl_array
    ∷ name_reals ∷ name_server_id ∷ name_stats ∷ name_ch_rings ∷ []

-- Everything that the runtime does not decide itself. `compile` is the program that `ubpf_compile` makes of a
-- machine and its maps, and `rounds` what lies between the iterations of the packet loop until a signal
-- ends it.
pub record Host (r : XskRings) : Type 1 where
  pub log2 : ℕ → ℕ
  pub if_nametoindex : List ℕ → ℕ
  pub opts : List Opt
  pub args : List (List ℕ)
  pub setrlimit : ℤ
  pub setaffinity : ℕ → ℤ
  pub xdp : XdpHost
  pub socket : servant.Sockets.Host r
  pub xsk_fd : ℕ
  pub page_size : ℕ
  pub kernel_maps : List KernelMap
  pub update_elem : ℤ → List ℕ → List ℕ → ℕ → ℤ
  pub ring : Rings
  pub link : Answers
  pub region : SharedChannel ring.R
  pub vc_at : ℕ
  pub udp_fd : ℤ
  pub udp_address : Option ℕ
  pub engine : EngineHost
  pub maps : UbpfMaps
  pub program_maps : Vm → maps.M
  pub compile : Vm → maps.M → Option (ℕ → ℕ → List ℕ → ℕ × ℕ × ℤ × List ℕ)
  pub sendto : UdpSocket → List ℕ → ℤ
  pub rounds : List ((Socket r → Socket r) × Sent)

-- How packets are passed to the application. The channel of a link that failed is a null pointer.
pub data Passing (R : Type 0) : Type 0 where
  by_link : Option (VChannel × SharedChannel R) → Passing R
  by_socket : UdpSocket → Passing R

-- What the teardown of either closes: the calls for the shared region, or the descriptor.
pub data Closed : Type 0 where
  closed_link : List OsCall → Closed
  closed_socket : ℤ → Closed

-- How `main` ends: its result, what is still held, what was closed, and whether an XDP program was
-- attached and was taken off.
pub record Ending : Type 0 where
  pub status : ℤ
  pub sockets : List servant.Sockets.Resource
  pub engine : List servant.Brain.Resource
  pub closed : Option Closed
  pub attached : Bool
  pub unlinked : Bool

-- A descriptor and a channel that are nothing but zeros: every use of them is undefined.
abbrev pub null_vc : VChannel
null_vc = record { name = []; proc_id = 0; ch = 0 }

abbrev pub null_channel : {R : Type 0} → SharedChannel R
null_channel = record {
  master_virt_addr = 0;
  region_size = 0;
  connected = 0;
  ring_size = 0;
  rings_at = [];
  rings = [];
  count_elements = 0;
  ring_top = 0;
  shared_objs_at = 0;
  shared_objs = [];
}

abbrev pub vc_of : {R : Type 0} → Passing R → VChannel
vc_of (by_link none) = null_vc
vc_of (by_link (some made)) = made.0
vc_of (by_socket s) = null_vc

abbrev pub channel_of : {R : Type 0} → Passing R → SharedChannel R
channel_of (by_link none) = null_channel
channel_of (by_link (some made)) = made.1
channel_of (by_socket s) = null_channel

abbrev pub socket_of : {R : Type 0} → Passing R → UdpSocket
socket_of (by_link made) = no_socket
socket_of (by_socket s) = s

-- `config.custom_kern_prog && config.custom_kern_path[0] != '-'`
abbrev pub has_xdp : Options.Config → Bool
has_xdp config = elim config.custom_kern_path [
  | none ↦ false
  | some path ↦ elim path [ [] ↦ true | c ∷ cs ↦ not (c == b'-') ]
]

-- The maps that `setup_map_system` is asked for.
abbrev pub requests : Options.Config → List (List ℕ)
requests config = elim config.maps [ [] ↦ default_maps | m ∷ ms ↦ m ∷ ms ]

-- What the packet loop reads of the configuration.
abbrev pub loop_config : Options.Config → servant.Heart.Config
loop_config config = record {
  copy_mode = elim config.copy_mode [ xdp_copy ↦ true | xdp_zerocopy ↦ false ];
  busy_poll = config.busy_poll;
  batch_size = config.batch_size;
  use_packet_injection = config.use_packet_injection;
}
