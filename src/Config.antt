-- ===== src/Config.antt =====
-- src/config.c and src/config.h: the configuration by the options and arguments of the command line.
-- `getopt_long` of the C library gives the options in turn, with their arguments, and then the rest.
pub mod Options
mod Tests
use servant.Prelude.{
  ℕ, ◌+◌, ◌*◌, ◌-◌, ◌%◌, ◌^◌, Bool, true, false, List, [], ◌∷◌, ◌++◌, length, ltb, if◌then◌else◌,
  Option, none, some, Outcome, returns, exited, require, ◌>>=◌, ◌>>◌,
}
use servant.Prelude.Int.{ℤ, pos, negsuc, minus_one, is_negative}
use servant.Prelude.Text.{atoi}

pub data CopyMode : Type 0 where
  xdp_zerocopy xdp_copy : CopyMode

pub data XdpMode : Type 0 where
  xdp_flags_drv_mode xdp_flags_skb_mode : XdpMode

-- `struct config`. `maps` is its first `count_maps` pointers.
pub record Config : Type 0 where
  pub num_frames : ℕ
  pub frame_size : ℕ
  pub frame_shift : ℕ
  pub headroom : ℕ
  pub rx_size : ℕ
  pub tx_size : ℕ
  pub ifindex : ℕ
  pub ifname : List ℕ
  pub qid : ℕ
  pub core : ℤ
  pub busy_poll : Bool
  pub busy_poll_duration : ℕ
  pub batch_size : ℕ
  pub copy_mode : CopyMode
  pub xdp_mode : XdpMode
  pub ebpf_program_path : List ℕ
  pub jitted : Bool
  pub custom_kern_path : Option (List ℕ)
  pub uth_prog_path : Option (List ℕ)
  pub use_packet_injection : Bool
  pub maps : List (List ℕ)

-- A result of `getopt_long` with `optarg`.
pub data Opt : Type 0 where
  opt_help opt_no_jit opt_copy_mode opt_skb_mode opt_busypoll opt_packet_injection opt_unknown : Opt
  opt_num_frames opt_frame_size opt_batch_size opt_rx_size opt_tx_size opt_xdp_prog opt_uth
        opt_map_name opt_core :
      List ℕ → Opt

-- An `int` stored in a uint32_t.
unfoldable pub to_uint32 : ℤ → ℕ
to_uint32 (pos n) = n % 2 ^ 32
to_uint32 (negsuc n) = (2 ^ 32 - (n % 2 ^ 32) - 1) % 2 ^ 32

-- The number of pointers that `malloc(10 * sizeof(char *))` has room for.
abbrev pub maps_room : ℕ
maps_room = 10

-- `log2` of the C library, its result stored in a uint32_t.
module _ (log2 : ℕ → ℕ) where
  -- The default values.
  pub defaults : Config
  defaults = record {
    num_frames = 0;
    frame_size = 2048;
    frame_shift = log2 2048;
    headroom = 256;
    rx_size = 512;
    tx_size = 512;
    ifindex = 0;
    ifname = [];
    qid = 0;
    core = minus_one;
    busy_poll = false;
    busy_poll_duration = 20;
    batch_size = 64;
    copy_mode = xdp_zerocopy;
    xdp_mode = xdp_flags_drv_mode;
    ebpf_program_path = [];
    jitted = true;
    custom_kern_path = none;
    uth_prog_path = none;
    use_packet_injection = false;
    maps = [];
  }

  -- The `switch (ret)`.
  pub apply_opt : Opt → Config → Outcome Config
  unfolding to_uint32
  apply_opt opt_help c = exited 0
  apply_opt opt_unknown c = exited 1
  apply_opt opt_no_jit c = returns (record c { jitted = false })
  apply_opt opt_copy_mode c = returns (record c { copy_mode = xdp_copy })
  apply_opt opt_skb_mode c = returns (record c { xdp_mode = xdp_flags_skb_mode })
  apply_opt opt_busypoll c = returns (record c { busy_poll = true })
  apply_opt opt_packet_injection c = returns (record c { use_packet_injection = true })
  apply_opt (opt_num_frames arg) c = returns c
  apply_opt (opt_frame_size arg) c =
      let size = to_uint32 (atoi arg) in
      returns (record c { frame_size = size; frame_shift = log2 size })
  apply_opt (opt_batch_size arg) c = returns (record c { batch_size = to_uint32 (atoi arg) })
  apply_opt (opt_rx_size arg) c = returns (record c { rx_size = to_uint32 (atoi arg) })
  apply_opt (opt_tx_size arg) c = returns (record c { tx_size = to_uint32 (atoi arg) })
  apply_opt (opt_xdp_prog arg) c = returns (record c { custom_kern_path = some arg })
  apply_opt (opt_uth arg) c = returns (record c { uth_prog_path = some arg })
  apply_opt (opt_map_name arg) c = do
    require (ltb (length c.maps) maps_room)
    returns (record c { maps = c.maps ++ arg ∷ [] })
  apply_opt (opt_core arg) c =
      let tmp = atoi arg in returns (record c { core = if is_negative tmp then minus_one else tmp })

  -- The `while (1)` over the options.
  pub apply_opts : List Opt → Config → Outcome Config
  unfolding apply_opt
  apply_opts [] c = returns c
  apply_opts (o ∷ os) c = do c' ← apply_opt o c; apply_opts os c'

  -- The three arguments, and how many descriptors are needed.
  pub with_args : (List ℕ → ℕ) → List ℕ → List ℕ → List ℕ → Config → Config
  unfolding to_uint32
  with_args if_nametoindex ifname qid path c = record c {
    ifname = ifname;
    ifindex = if_nametoindex ifname % 2 ^ 32;
    qid = to_uint32 (atoi qid);
    ebpf_program_path = path;
    num_frames = (c.rx_size + c.tx_size) % 2 ^ 32 * 8 % 2 ^ 32;
  }

  -- `parse_args`; `if_nametoindex` is the C library's, which gives 0 for a name it does not know. The
  -- test `config.ifindex < 0` is never true of a uint32_t, nor is either mode other than the two
  -- that are tested.
  unfoldable pub parse_args : (List ℕ → ℕ) → List Opt → List (List ℕ) → Outcome Config
  unfolding apply_opts defaults with_args
  parse_args if_nametoindex opts args = do
    c ← apply_opts opts defaults
    elim args [
      | [] ↦ exited 1
      | ifname ∷ args ↦ elim args [
        | [] ↦ exited 1
        | qid ∷ args ↦ elim args [
          | [] ↦ exited 1
          | path ∷ rest ↦ returns (with_args if_nametoindex ifname qid path c)
        ]
      ]
    ]
