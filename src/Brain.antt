-- ===== src/Brain.antt =====
-- The set-up of the eBPF engine: src/brain.c, with the helpers that src/include/servant_engine.h
-- declares for the eBPF programs. The virtual machine is the library ubpf; what is kept of it is the
-- table of its helpers, the flags that are set, and the code it was given.
pub mod Load
pub mod Engine
mod Tests
use servant.Prelude.{
  Outcome, ℕ, Bool, List, ◌>>=◌, ◌>>◌, take, ◌∷◌, returns, ◌+◌, require, [], leb, ◌%◌, length, ◌^◌,
  ◌==◌, drop, ◌-◌, true, false, Option, none, some, zero, suc, not, if◌then◌else◌, ◌++◌, ltb,
  replicate, ◌*◌, ◌&&◌,
}
use servant.Prelude.Int.{to_int, ℤ, pos, negsuc, is_negative, is_positive}
use servant.Prelude.Text.{str_eq}

-- A stream of stdio: the bytes that are left, whether an error or the end comes after them, and the
-- two indicators.
pub record Stream : Type 0 where
  pub rest : List ℕ
  pub broken : Bool
  pub eof : Bool
  pub err : Bool

-- `fread(buf, 1, n, file)` of the C library: it gives fewer bytes than asked for only at the end of
-- the file or at an error, and then sets the indicator.
abbrev pub fread : ℕ → Stream → List ℕ × Stream
fread n f =
    if leb n (length f.rest)
    then (take n f.rest, record f { rest = drop n f.rest })
    else (f.rest, record f { rest = []; eof = not f.broken; err = f.broken })

-- The bytes at `data + offset` become those read.
abbrev pub write_at : ℕ → List ℕ → List ℕ → List ℕ
write_at offset bytes data_ = take offset data_ ++ (bytes ++ drop (offset + length bytes) data_)

pub record Buffer : Type 0 where
  pub bytes : List ℕ
  pub offset : ℕ
  pub file : Stream

-- What a turn makes of the result of `fread`: the comparison with 0, and the body.
unfoldable pub advance : Buffer → List ℕ × Stream → Bool × Buffer
advance b out =
    let read = record b { bytes = write_at b.offset out.0 b.bytes; file = out.1 } in
    elim (to_int (length out.0)) [
      | pos (suc n) ↦ (true, record read { offset = b.offset + suc n })
      | _ ↦ (false, read)
    ]

-- One turn of the loop `while ((rv = fread(data+offset, 1, maxlen-offset, file)) > 0)`: false is that
-- the condition fails.
unfoldable pub read_turn : ℕ → Buffer → Bool × Buffer
unfolding advance
read_turn maxlen b = advance b (fread (maxlen - b.offset) b.file)

-- The loop, on fuel: none is that it has not ended.
unfoldable pub read_loop : ℕ → ℕ → Buffer → Option Buffer
unfolding read_turn
read_loop zero maxlen b = none
read_loop (suc fuel) maxlen b =
    let next = read_turn maxlen b in
    let rest = read_loop fuel maxlen next.1 in if next.0 then rest else some next.1

-- What the process holds and has to give back.
pub data Resource : Type 0 where
  file_handle : Resource
  code_buffer : Resource
  error_message : Resource
  virtual_machine : Resource

abbrev pub same : Resource → Resource → Bool
same file_handle r = elim r [ file_handle ↦ true | _ ↦ false ]
same code_buffer r = elim r [ code_buffer ↦ true | _ ↦ false ]
same error_message r = elim r [ error_message ↦ true | _ ↦ false ]
same virtual_machine r = elim r [ virtual_machine ↦ true | _ ↦ false ]

-- `fclose`, `free` and `ubpf_destroy`, of what was acquired last.
abbrev pub release : Resource → List Resource → List Resource
release r [] = []
release r (h ∷ held) = let rest = h ∷ release r held in if same r h then held else rest

-- `readfile` behind its loop: the result by the indicators, and what is held.
abbrev pub finish_read : Buffer → List Resource → Option (List ℕ × ℕ) × List Resource
finish_read b held =
    let closed = release file_handle (code_buffer ∷ file_handle ∷ held) in
    if b.file.err
    then (none, release code_buffer closed)
    else if not b.file.eof
    then (none, release code_buffer closed)
    else (some (b.bytes, b.offset), closed)

-- `readfile`, by the results of `fopen` and `calloc`: none is NULL.
unfoldable pub readfile :
    ℕ
    → ℕ
    → Bool
    → Option Stream
    → List Resource
    → Option (Outcome (Option (List ℕ × ℕ) × List Resource))
unfolding read_loop
readfile fuel maxlen calloc none held = some (returns (none, held))
readfile fuel maxlen calloc (some file) held =
    elim (read_loop fuel maxlen (record { bytes = replicate maxlen 0; offset = 0; file = file })) [
      | none ↦ none
      | some b ↦ some (require calloc >> returns (finish_read b held))
    ]

-- The functions that are registered.
pub data Helper : Type 0 where
  map_lookup_elem_kern : Helper
  map_update_elem_kern : Helper
  map_elem_release : Helper
  map_lookup_elem_kern_fast : Helper
  print_format : Helper
  read_tsc : Helper
  move_memory : Helper
  lookup_map : Helper
  update_map : Helper
  time_get_ns : Helper
  unwind : Helper

-- What the runtime sets in `struct ubpf_vm`. `loaded` is whether as an ELF file, the bytes, and their
-- number.
pub record Vm : Type 0 where
  pub registered : List (ℕ × Helper)
  pub unwind_index : Option ℕ
  pub bounds_check : Bool
  pub loaded : Option (Bool × List ℕ × ℕ)

-- `ubpf_create`
abbrev pub new_vm : Vm
new_vm = record { registered = []; unwind_index = none; bounds_check = true; loaded = none }

-- `ubpf_register`
abbrev pub register : ℕ → Helper → Vm → Vm
register i h v = record v { registered = (i, h) ∷ v.registered }

-- The function behind a CALL instruction: the one registered last for the index.
abbrev pub called : List (ℕ × Helper) → ℕ → Option Helper
called [] i = none
called ((j, h) ∷ hs) i = let rest = called hs i in if i == j then some h else rest

unfoldable pub register_engine_functions : Vm → Vm
register_engine_functions v0 =
    let v1 = register 1 map_lookup_elem_kern v0 in
    let v2 = register 2 map_update_elem_kern v1 in
    let v3 = register 3 map_elem_release v2 in
    let v4 = register 10 map_lookup_elem_kern_fast v3 in
    let v5 = register 4 print_format v4 in
    let v6 = register 5 read_tsc v5 in
    let v7 = register 6 move_memory v6 in
    let v8 = register 7 lookup_map v7 in
    let v9 = register 8 update_map v8 in
    let v10 = register 9 time_get_ns v9 in
    let v11 = register 11 unwind v10 in record v11 { unwind_index = some 11 }

-- `ubpf_time_get_ns`, by the seconds and nanoseconds of the clock.
unfoldable pub ubpf_time_get_ns : ℕ → ℕ → ℕ
ubpf_time_get_ns sec nsec = (sec % 2 ^ 64 * 1000000000 + nsec) % 2 ^ 64

abbrev pub max_code_size : ℕ
max_code_size = 1024 * 1024

abbrev pub elf_magic : List ℕ
elf_magic = 127 ∷ b'E' ∷ b'L' ∷ b'F' ∷ []

abbrev pub is_elf : List ℕ → ℕ → Bool
is_elf bytes code_len = leb 4 code_len && str_eq (take 4 bytes) elf_magic

-- The answers of the system and of ubpf: `load` is the result of `ubpf_load_elf` or `ubpf_load`.
pub record EngineHost : Type 0 where
  pub file : Option Stream
  pub calloc : Bool
  pub create : Bool
  pub load : Bool → List ℕ → ℕ → ℤ

-- The part of `setup_ubpf_engine` after `readfile`: the result, `*_vm` if it is set, and what is held.
unfoldable pub load_program :
    EngineHost → List ℕ → ℕ → List Resource → ℕ × Option Vm × List Resource
unfolding register_engine_functions
load_program host bytes code_len held =
    let elf = is_elf bytes code_len in
    let prepared = record (register_engine_functions new_vm) { bounds_check = false } in
    let freed = release code_buffer (virtual_machine ∷ held) in
    let failed = release virtual_machine (release error_message (error_message ∷ freed)) in
    if not host.create
    then (1, none, held)
    else if is_negative (host.load elf bytes code_len)
    then (1, none, failed)
    else (0, some (record prepared { loaded = some (elf, bytes, code_len) }), freed)

-- What `setup_ubpf_engine` does with the result of `readfile`.
unfoldable pub engine_of :
    EngineHost → Option (List ℕ × ℕ) × List Resource → ℕ × Option Vm × List Resource
unfolding load_program
engine_of host (none, held) = (1, none, held)
engine_of host (some code, held) = load_program host code.0 code.1 held

unfoldable pub after_read :
    EngineHost
    → Option (Outcome (Option (List ℕ × ℕ) × List Resource))
    → Option (Outcome (ℕ × Option Vm × List Resource))
unfolding engine_of
after_read host none = none
after_read host (some out) = some (out >>= λ read. returns (engine_of host read))

-- `setup_ubpf_engine` with its bound on the file as an argument.
unfoldable pub setup_bounded :
    ℕ → ℕ → EngineHost → List Resource → Option (Outcome (ℕ × Option Vm × List Resource))
unfolding readfile after_read
setup_bounded fuel maxlen host held =
    after_read host (readfile fuel maxlen host.calloc host.file held)

unfoldable pub setup_ubpf_engine :
    ℕ → EngineHost → List Resource → Option (Outcome (ℕ × Option Vm × List Resource))
unfolding setup_bounded
setup_ubpf_engine fuel host held = setup_bounded fuel max_code_size host held

-- The functions that servant_engine.h declares for the eBPF programs, by their pointers.
pub data EngineFunction : Type 0 where
  lookup : EngineFunction
  lookup_fast : EngineFunction
  free_elem : EngineFunction
  ubpf_print : EngineFunction
  ubpf_rdtsc : EngineFunction
  ubpf_memmove : EngineFunction
  userspace_lookup : EngineFunction
  userspace_update : EngineFunction
  ubpf_get_ns : EngineFunction

unfoldable pub helper_id : EngineFunction → ℕ
helper_id lookup = 1
helper_id lookup_fast = 10
helper_id free_elem = 3
helper_id ubpf_print = 4
helper_id ubpf_rdtsc = 5
helper_id ubpf_memmove = 6
helper_id userspace_lookup = 7
helper_id userspace_update = 8
helper_id ubpf_get_ns = 9
