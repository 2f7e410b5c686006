-- ===== src/Programs/Loader.antt =====
-- The loaders of XDP programs, examples/benchmarks/loader.c and examples/dump_packet/loader.c: they
-- attach a program to an interface, wait, and on a signal take it off. What libbpf and the kernel
-- answer is an argument; what they do to the interface is the parameter `XdpLinks`.
pub mod Attached
mod Tests
use servant.Prelude.Int.{ℤ, pos, negsuc, minus_one, is_zero, is_negative}
use servant.Prelude.{
  ℕ, List, [], ◌∷◌, Bool, true, false, not, ◌||◌, ◌&&◌, Option, some, none, if◌then◌else◌, ltb,
  ◌==◌, ◌<◌, ◌≡◌, length, take, get_or, Outcome, returns, ◌>>=◌, ◌>>◌, require,
}

-- The bits of `xdp_flags`.
pub record Flags : Type 0 where
  pub if_noexist : Bool
  pub skb_mode : Bool
  pub drv_mode : Bool

-- What is attached to the interface, by the id of the program. `id_of` is the id of the program behind
-- a descriptor.
pub record XdpLinks : Type 1 where
  pub K : Type 0
  pub attached : K → Option ℕ
  pub id_of : ℕ → ℕ
  -- `bpf_set_link_xdp_fd`; true is a result that is not negative.
  pub set_link : K → ℤ → Flags → K × Bool
  -- A descriptor attaches its program; XDP_FLAGS_UPDATE_IF_NOEXIST refuses to replace another.
  pub attach :
      (k : K) (fd : ℕ) (f : Flags)
      → (set_link k (pos fd) f).1 ≡ true
      → attached (set_link k (pos fd) f).0 ≡ some (id_of fd)
  pub attach_busy :
      (k : K) (fd id : ℕ) (f : Flags)
      → f.if_noexist ≡ true
      → attached k ≡ some id
      → (set_link k (pos fd) f).1 ≡ false
  pub attach_refused :
      (k : K) (fd : ℕ) (f : Flags)
      → (set_link k (pos fd) f).1 ≡ false
      → attached (set_link k (pos fd) f).0 ≡ attached k
  -- A negative number takes off what is attached.
  pub detach :
      (k : K) (n : ℕ) (f : Flags)
      → ((set_link k (negsuc n) f).1 ≡ true) × (attached (set_link k (negsuc n) f).0 ≡ none)

-- What `getopt` gives; `opt_unknown` is its result for an option that is not listed.
pub data LoadOpt : Type 0 where
  opt_skb opt_native opt_force opt_unknown : LoadOpt
  opt_section : List ℕ → LoadOpt

-- What libbpf answers: the index of the interface, the descriptor of the first program of the object
-- (none: it cannot be loaded), `bpf_program__fd` of the program that `bpf_object__find_program_by_title`
-- gives, and the id that `bpf_obj_get_info_by_fd` reads (none: it fails, with that result).
pub record BpfAnswers : Type 0 where
  pub ifindex : ℕ
  pub loaded : Option ℕ
  pub section_fd : List ℕ → ℤ
  pub info : ℤ → Option ℕ
  pub info_error : ℤ

-- How `main` ends: it returns a code, or it waits for a signal, with its `prog_id` and `xdp_flags`.
pub data Ended : Type 0 where
  exit_code : ℤ → Ended
  waits : ℕ → Flags → Ended

-- The flags at the start.
abbrev pub default_flags : Flags
default_flags = record { if_noexist = true; skb_mode = false; drv_mode = false }

-- The loop over the options: the flags and the name of the section. None is an unknown option.
unfoldable pub read_opts : List LoadOpt → Flags → List ℕ → Option (Flags × List ℕ)
read_opts [] f section = some (f, section)
read_opts (opt_skb ∷ opts) f section = read_opts opts (record f { skb_mode = true }) section
read_opts (opt_native ∷ opts) f section = read_opts opts f section
read_opts (opt_force ∷ opts) f section = read_opts opts (record f { if_noexist = false }) section
read_opts (opt_section arg ∷ opts) f section = read_opts opts f arg
read_opts (opt_unknown ∷ opts) f section = none

-- `if (!(xdp_flags & XDP_FLAGS_SKB_MODE)) xdp_flags |= XDP_FLAGS_DRV_MODE;`
abbrev pub with_mode : Flags → Flags
with_mode f = if f.skb_mode then f else record f { drv_mode = true }

-- The descriptor to attach. `first` is that of the first program.
unfoldable pub choose_program : BpfAnswers → List ℕ → ℕ → ℤ
choose_program a section first =
    if get_or section 0 0 == b'-' then pos first else a.section_fd section

module _ (x : XdpLinks) where
  -- From `bpf_set_link_xdp_fd` on.
  unfoldable pub attach_program : BpfAnswers → ℤ → Flags → x.K → Ended × x.K
  attach_program a prog_fd f k =
      let out = x.set_link k prog_fd f in
      if not out.1 then (exit_code (pos 1), out.0) else elim (a.info prog_fd) [
        | none ↦ (exit_code a.info_error, out.0)
        | some id ↦ (waits id f, out.0)
      ]

  -- From the choice of the program on. An option -p that names no program gives a negative number,
  -- which is not 0.
  unfoldable pub start_program : BpfAnswers → List ℕ → Flags → ℕ → x.K → Ended × x.K
  unfolding attach_program choose_program
  start_program a section f first k =
      let prog_fd = choose_program a section first in
      if not (get_or section 0 0 == b'-') && is_zero prog_fd
      then (exit_code (pos 1), k)
      else attach_program a prog_fd f k

  -- From the options on; `args` are the arguments behind them.
  unfoldable pub load_object : BpfAnswers → Flags → List ℕ → List (List ℕ) → x.K → Ended × x.K
  unfolding start_program
  load_object a f section args k =
      if ltb (length args) 2
      then (exit_code (pos 1), k)
      else if a.ifindex == 0
      then (exit_code (pos 1), k)
      else elim a.loaded [
        | none ↦ (exit_code (pos 1), k)
        | some first ↦ start_program a section (with_mode f) first k
      ]

  -- `main` with a buffer in which a name of fewer than `room` bytes is ended by a zero. Longer ones are
  -- read on behind it.
  unfoldable pub run_loader :
      ℕ → BpfAnswers → List LoadOpt → List (List ℕ) → x.K → Outcome (Ended × x.K)
  unfolding load_object read_opts
  run_loader room a opts args k = elim (read_opts opts default_flags (b'-' ∷ [])) [
    | none ↦ returns (exit_code (pos 1), k)
    | some chosen ↦ do
      require (ltb (length chosen.1) room)
      require (ltb (length args) 2 || a.ifindex == 0 || ltb (length (get_or args 1 [])) room)
      returns (load_object a chosen.0 chosen.1 args k)
  ]

  -- `main` of dump_packet/loader.c, which copies 256 bytes at most into 256.
  unfoldable pub dump_packet_main :
      BpfAnswers → List LoadOpt → List (List ℕ) → x.K → Outcome (Ended × x.K)
  unfolding run_loader
  dump_packet_main a opts args k = run_loader 256 a opts args k

  -- `main` of benchmarks/loader.c, which copies 255 bytes at most and does not set the last one.
  -- `try_populate_maps` does not touch the interface.
  unfoldable pub benchmark_main :
      BpfAnswers → List LoadOpt → List (List ℕ) → x.K → Outcome (Ended × x.K)
  unfolding run_loader
  benchmark_main a opts args k = run_loader 255 a opts args k

  -- `int_exit`, by the id that `bpf_get_link_xdp_id` reads (0 for no program; none is its failure): the
  -- code it exits with.
  unfoldable pub int_exit : Option ℕ → ℕ → Flags → x.K → ℕ × x.K
  int_exit none prog_id f k = (1, k)
  int_exit (some current) prog_id f k =
      if prog_id == current then (0, (x.set_link k minus_one f).0) else (0, k)
