-- ===== src/Servant/Main.antt =====
-- The phases of `main` in src/servant.c, its labels `teardown2` and `teardown` included.
use servant.Prelude.{
  ℕ, [], some, Outcome, List, Bool, Option, false, not, none, ◌>>=◌, or_undefined, if◌then◌else◌,
  ◌==◌, returns, ◌>>◌, undefined, ◌&&◌, replicate, map,
}
use servant.Prelude.Int.{pos, negsuc, minus_one, is_zero, to_int, ℤ}
use servant.Config.{Opt, CopyMode, parse_args, xdp_copy, xdp_zerocopy}
use servant.Config as Options
use servant.Channel.{SharedChannel}
use servant.Channel.Link.{setup_interpose_link, teardown_interpose_link}
use servant.Maps.{no_maps}
use servant.Maps.Setup.{setup_map_system}
use servant.Heart.{XskRings, Socket}
use servant.Heart.Actions.{Machine, World, Round, pump_packets}
use servant.Heart.Udp.{no_socket, setup_udp_socket, teardown_udp_socket}
use servant.Brain.{EngineHost, Vm, virtual_machine, setup_ubpf_engine}
use servant.UserMaps.{launch_userspace_maps_server}
use servant.Sockets.{
  XdpHost, load_xdp_program, setup_socket, tear_down_socket, exit_unless, umem_size, xsks_map,
  enter_xsks_into_map, is_some,
}
use servant.Servant.{
  Host, Passing, Closed, Ending, by_link, by_socket, closed_link, closed_socket, vc_of, channel_of,
  socket_of, has_xdp, requests, loop_config,
}

-- A loop on fuel that has ended.
abbrev pub ended {ℓ} : {A : Type ℓ} → Option (Outcome A) → Outcome A
ended none = undefined
ended (some out) = out

module _ (r : XskRings) (host : Host r) where
  -- Setting the core affinity is tried for a core of 0 or more; true is that it fails.
  unfoldable pub affinity_fails : Options.Config → Bool
  affinity_fails config = elim config.core [
    | pos core ↦ not (is_zero (host.setaffinity core))
    | negsuc core ↦ false
  ]

  -- The XDP program of the command line; its result is ignored. Whether it was attached.
  unfoldable pub attach : Options.Config → Bool
  unfolding load_xdp_program
  attach config = elim config.custom_kern_path [
    | none ↦ false
    | some path ↦
        if has_xdp config then (load_xdp_program host.xdp config path config.ifindex).1 else false
  ]

  -- The results of both set-ups are ignored.
  unfoldable pub set_up_passing : Options.Config → Passing host.ring.R
  unfolding setup_interpose_link setup_udp_socket
  set_up_passing config =
      if config.use_packet_injection
      then by_link (setup_interpose_link host.ring host.link host.region).1.made
      else by_socket (setup_udp_socket host.udp_fd host.udp_address no_socket).1

  -- `teardown2`, of the channel as the packet loop left it: `vc.ch` is dereferenced.
  unfoldable pub tear_down_passing :
      Passing host.ring.R → SharedChannel host.ring.R → Outcome Closed
  unfolding teardown_interpose_link teardown_udp_socket
  tear_down_passing (by_link none) ch = undefined
  tear_down_passing (by_link (some made)) ch =
      returns (closed_link (teardown_interpose_link host.ring host.vc_at ch).1)
  tear_down_passing (by_socket s) ch = returns (closed_socket (teardown_udp_socket s).1)

  -- From the label `teardown` on.
  unfoldable pub teardown :
      Options.Config
      → Bool
      → Option (Socket r)
      → List servant.Sockets.Resource
      → List servant.Brain.Resource
      → Option Closed
      → Outcome Ending
  unfolding tear_down_socket
  teardown config attached xsk held engine closed = do
    left ← tear_down_socket r config xsk held
    returns (record {
      status = pos 0;
      sockets = left;
      engine = engine;
      closed = closed;
      attached = attached;
      unlinked = has_xdp config;
    })

  -- What the packet loop runs on.
  abbrev pub machine : (ℕ → ℕ → List ℕ → ℕ × ℕ × ℤ × List ℕ) → Passing host.ring.R → Machine
  machine fn passing = record {
    ring = host.ring;
    vc = vc_of passing;
    fn = fn;
    sendto = host.sendto (socket_of passing);
  }

  -- The loop of `pump_packets`, on the memory that `mmap` gave.
  unfoldable pub pump_loop :
      Options.Config
      → (ℕ → ℕ → List ℕ → ℕ × ℕ × ℤ × List ℕ)
      → Passing host.ring.R
      → Socket r
      → Outcome (SharedChannel host.ring.R × Socket r)
  unfolding pump_packets
  pump_loop config fn passing xsk = do
    let m : Machine = machine fn passing
    let w : World m = record {
      memory = replicate (umem_size config) 0;
      channel = channel_of passing;
    }
    let rounds : List (Round m r) = map (λ p. record { kernel = p.0; kick = p.1 }) host.rounds
    out ← pump_packets m r (loop_config config) rounds w xsk
    returns (out.0.channel, out.1)

  -- `pump_packets`: a program that cannot be compiled is only reported.
  unfoldable pub pump :
      Options.Config
      → Vm
      → host.maps.M
      → Passing host.ring.R
      → Socket r
      → Outcome (SharedChannel host.ring.R × Socket r)
  unfolding pump_loop
  pump config vm maps passing xsk = elim (host.compile vm maps) [
    | none ↦ returns (channel_of passing, xsk)
    | some fn ↦ pump_loop config fn passing xsk
  ]

  -- From `launch_userspace_maps_server` to the end, with a machine.
  unfoldable pub serve :
      Options.Config
      → Bool
      → Vm
      → List servant.Brain.Resource
      → Passing host.ring.R
      → Socket r
      → List servant.Sockets.Resource
      → Outcome Ending
  unfolding launch_userspace_maps_server pump tear_down_passing teardown
  serve config attached vm engine passing xsk held = do
    configured ← launch_userspace_maps_server host.maps (host.program_maps vm)
    out ← pump config vm configured.1 passing xsk
    closed ← tear_down_passing passing out.0
    teardown config attached (some out.1) held (servant.Brain.release virtual_machine engine)
        (some closed)

  -- `setup_ubpf_engine`; two turns of its loop are enough.
  unfoldable pub start_engine : Outcome (ℕ × Option Vm × List servant.Brain.Resource)
  unfolding setup_ubpf_engine
  start_engine = ended (setup_ubpf_engine 2 host.engine [])

  -- From the set-up of the passing of packets on.
  unfoldable pub run_engine :
      Options.Config → Bool → Socket r → List servant.Sockets.Resource → Outcome Ending
  unfolding set_up_passing start_engine serve
  run_engine config attached xsk held = do
    let passing = set_up_passing config
    engine ← start_engine
    let failed = tear_down_passing passing (channel_of passing) >>= λ closed.
        teardown config attached (some xsk) held engine.2 (some closed)
    let served = or_undefined engine.1 >>= λ vm. serve config attached vm engine.2 passing xsk held
    (if engine.0 == 0 then served else failed)

  -- From the test of the socket on.
  unfoldable pub start :
      Options.Config → Bool → Option (Socket r) → List servant.Sockets.Resource → Outcome Ending
  unfolding teardown run_engine enter_xsks_into_map
  start config attached none held = teardown config attached none held [] none
  start config attached (some xsk) held = do
    maps ← setup_map_system host.page_size host.kernel_maps (requests config) no_maps
    let entered = enter_xsks_into_map host.update_elem maps.1 (to_int config.qid) host.xsk_fd
    let failed = teardown config attached (some xsk) held [] none
    (if not (maps.0 == 0)
        then failed
        else if is_some config.custom_kern_path && not (is_zero entered)
        then failed
        else run_engine config attached xsk held)

  -- `main`
  unfoldable pub main : Outcome Ending
  unfolding affinity_fails attach start
  main = do
    config ← parse_args host.log2 host.if_nametoindex host.opts host.args
    exit_unless (is_zero host.setrlimit)
    if affinity_fails config
        then returns (record {
          status = minus_one;
          sockets = [];
          engine = [];
          closed = none;
          attached = false;
          unlinked = false;
        })
        else setup_socket r host.socket config config.ifname config.qid >>= λ got.
            start config (attach config) got.0 got.1
