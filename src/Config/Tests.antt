-- ===== src/Config/Tests.antt =====
-- Runs of the command line, and the theorems at such runs.
use servant.Prelude.Text.{atoi}
use servant.Prelude.{
  ℕ, ◌∷◌, [], List, replicate, ◌≡◌, undefined, returns, arith, All, suc, zero, false, refl, true,
  none,
}
use servant.Prelude.Int.{minus_one}
use servant.Config.{
  xdp_zerocopy, xdp_flags_drv_mode, opt_core, Config, Opt, opt_map_name, opt_rx_size, opt_busypoll,
  to_uint32, parse_args,
}
use servant.Config.Options.{
  IsSetting, maps_of, last_rx, last_tx, rx_after, tx_after, parse_args-sizes, parse_args-overflow,
}

-- The logarithm of the default frame size alone.
abbrev log_2048 : ℕ → ℕ
log_2048 n = 11

-- `--rx-size 64 --map a --busypoll --map b eth0 3 p`
abbrev command : List Opt
command =
    opt_rx_size (b'6' ∷ b'4' ∷ [])
    ∷ opt_map_name (b'a' ∷ [])
    ∷ opt_busypoll
    ∷ opt_map_name (b'b' ∷ [])
    ∷ []

abbrev eleven : List Opt
eleven = replicate 11 (opt_map_name (b'a' ∷ []))

repeated-IsSetting : (n : ℕ) → All IsSetting (replicate n (opt_map_name (b'a' ∷ [])))
repeated-IsSetting zero = tt
repeated-IsSetting (suc n) = (tt, repeated-IsSetting n)

parse_args-sizes_example :
    (c : Config) × (parse_args log_2048
        (λ name. 0)
        command
        ((b'e' ∷ []) ∷ (b'3' ∷ []) ∷ (b'p' ∷ []) ∷ [])
      ≡ returns c)
    × (c.maps ≡ (b'a' ∷ []) ∷ (b'b' ∷ []) ∷ [])
    × (c.rx_size ≡ 64)
    × (c.tx_size ≡ 512)
    × (c.num_frames ≡ 4608)
    × (c.ifname ≡ b'e' ∷ [])
    × (c.ifindex ≡ 0)
    × (c.qid ≡ 3)
    × (c.ebpf_program_path ≡ b'p' ∷ [])
unfolding maps_of last_rx last_tx rx_after tx_after to_uint32 atoi
parse_args-sizes_example =
    parse_args-sizes log_2048 (λ name. 0) command (b'e' ∷ []) (b'3' ∷ []) (b'p' ∷ []) []
      (tt, (tt, (tt, (tt, tt)))) (omega arith)

parse_args-overflow_example : parse_args log_2048 (λ name. 0) eleven [] ≡ undefined
unfolding maps_of
parse_args-overflow_example =
    parse_args-overflow log_2048 (λ name. 0) eleven [] (repeated-IsSetting 11) (omega arith)

-- `--rx-size 64 --core -7 eth0 -1 p`: the core is none, and the queue wraps.
abbrev sized : Config
sized = record {
  num_frames = 4608;
  frame_size = 2048;
  frame_shift = 11;
  headroom = 256;
  rx_size = 64;
  tx_size = 512;
  ifindex = 0;
  ifname = b'e' ∷ [];
  qid = 4294967295;
  core = minus_one;
  busy_poll = false;
  busy_poll_duration = 20;
  batch_size = 64;
  copy_mode = xdp_zerocopy;
  xdp_mode = xdp_flags_drv_mode;
  ebpf_program_path = b'p' ∷ [];
  jitted = true;
  custom_kern_path = none;
  uth_prog_path = none;
  use_packet_injection = false;
  maps = [];
}

abbrev sized_opts : List Opt
sized_opts = opt_rx_size (b'6' ∷ b'4' ∷ []) ∷ opt_core (b'-' ∷ b'7' ∷ []) ∷ []

abbrev sized_args : List (List ℕ)
sized_args = (b'e' ∷ []) ∷ (b'-' ∷ b'1' ∷ []) ∷ (b'p' ∷ []) ∷ []

sized-parsed : parse_args log_2048 (λ name. 0) sized_opts sized_args ≡ returns sized
unfolding parse_args atoi
sized-parsed = refl
