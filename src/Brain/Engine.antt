-- ===== src/Brain/Engine.antt =====
-- Setting up the engine in src/brain.c: the helpers that the programs call, and every way in which
-- `setup_ubpf_engine` ends.
use servant.Prelude.{
  ℕ, List, Option, ◌≡◌, ◌++◌, Bool, some, false, refl, length, replicate, ◌≤◌, if◌then◌else◌, ◌-◌,
  not, none, true, ltb, returns, arith, ◌&&◌, ◌∷◌, ◌<◌, ◌^◌, Bool-cases, inl, inr, ap, ap₂, ◌∙◌,
}
use servant.Prelude.Int.{is_negative}
use servant.Brain.{
  Resource, EngineFunction, Helper, EngineHost, Vm, code_buffer, virtual_machine, new_vm, called,
  max_code_size, is_elf, helper_id, register_engine_functions, load_program, setup_ubpf_engine,
  lookup, lookup_fast, free_elem, ubpf_print, ubpf_rdtsc, ubpf_memmove, userspace_lookup,
  userspace_update, ubpf_get_ns, map_lookup_elem_kern, map_lookup_elem_kern_fast, map_elem_release,
  print_format, read_tsc, move_memory, lookup_map, update_map, time_get_ns, Stream, setup_bounded,
  engine_of, after_read, readfile,
}
use servant.Brain.Load.{opened, file_read, readfile_lem}

-- What a program means by a function of servant_engine.h.
abbrev pub meant : EngineFunction → Helper
meant lookup = map_lookup_elem_kern
meant lookup_fast = map_lookup_elem_kern_fast
meant free_elem = map_elem_release
meant ubpf_print = print_format
meant ubpf_rdtsc = read_tsc
meant ubpf_memmove = move_memory
meant userspace_lookup = lookup_map
meant userspace_update = update_map
meant ubpf_get_ns = time_get_ns

-- Whatever was registered before, a call by the number that the header gives a function reaches the
-- function that is meant.
pub register-meant :
    (v : Vm) (f : EngineFunction)
    → called (register_engine_functions v).registered (helper_id f) ≡ some (meant f)
unfolding register_engine_functions helper_id
register-meant v lookup = refl
register-meant v lookup_fast = refl
register-meant v free_elem = refl
register-meant v ubpf_print = refl
register-meant v ubpf_rdtsc = refl
register-meant v ubpf_memmove = refl
register-meant v userspace_lookup = refl
register-meant v userspace_update = refl
register-meant v ubpf_get_ns = refl

-- What a file holds, and whether an error ends it.
abbrev pub open_file : Option (List ℕ × Bool) → Option Stream
open_file none = none
open_file (some f) = some (opened f.0 f.1)

abbrev pub padded : ℕ → List ℕ → List ℕ
padded maxlen content = content ++ replicate (maxlen - length content) 0

-- The machine that is handed out.
abbrev pub engine : ℕ → List ℕ → Vm
unfolding register_engine_functions
engine maxlen content = record (register_engine_functions new_vm) {
  bounds_check = false;
  loaded =
      some (is_elf (padded maxlen content) (length content), padded maxlen content, length content);
}

-- What is expected of a set-up, the memory it leaves included.
abbrev pub engine_outcome :
    ℕ → EngineHost → Option (List ℕ × Bool) → List Resource → ℕ × Option Vm × List Resource
engine_outcome maxlen host none held = (1, none, held)
engine_outcome maxlen host (some f) held =
    if not (ltb (length f.0) maxlen && not f.1)
    then (1, none, held)
    else if not host.create
    then (1, none, code_buffer ∷ held)
    else if is_negative
        (host.load (is_elf (padded maxlen f.0) (length f.0)) (padded maxlen f.0) (length f.0))
    then (1, none, held)
    else (0, some (engine maxlen f.0), virtual_machine ∷ held)

load_program_lem :
    (host : EngineHost) (maxlen : ℕ) (content : List ℕ) (held : List Resource)
    → load_program host (padded maxlen content) (length content) (code_buffer ∷ held) ≡ (
        if not host.create
        then (1, none, code_buffer ∷ held)
        else if is_negative (
            host.load
              (is_elf (padded maxlen content) (length content))
              (padded maxlen content)
              (length content))
        then (1, none, held)
        else (0, some (engine maxlen content), virtual_machine ∷ held))
unfolding load_program
load_program_lem host maxlen content held = refl

engine_of-file_read :
    (host : EngineHost) (maxlen : ℕ) (content : List ℕ) (broken : Bool) (held : List Resource)
    → engine_of host (file_read maxlen content broken held)
      ≡ engine_outcome maxlen host (some (content, broken)) held
unfolding engine_of
engine_of-file_read host maxlen content broken held =
    elim (Bool-cases (ltb (length content) maxlen && not broken)) [
      | inl h ↦ rw (h, load_program_lem host maxlen content held) refl
      | inr h ↦ rw h refl
    ]

setup_bounded_lem :
    (fuel maxlen : ℕ) (host : EngineHost) (file : Option (List ℕ × Bool)) (held : List Resource)
    → 2 ≤ fuel
    → maxlen < 2 ^ 31
    → host.calloc ≡ true
    → host.file ≡ open_file file
    → setup_bounded fuel maxlen host held ≡ some (returns (engine_outcome maxlen host file held))
unfolding setup_bounded after_read
setup_bounded_lem fuel maxlen host none held enough small c e = rw e refl
setup_bounded_lem fuel maxlen host (some f) held enough small c e =
    ap (after_read host) (
      ap₂ (λ m g. readfile fuel maxlen m g held) c e
      ∙ readfile_lem fuel maxlen f.0 f.1 held enough small)
    ∙ ap (λ o. some (returns o)) (engine_of-file_read host maxlen f.0 f.1 held)

-- With memory for the buffer, and fuel for two turns of the loop, the set-up always ends. It returns
-- 0 exactly if the file opens, has fewer bytes than `max_code_size`, is read without an error, the
-- machine is created, and ubpf, which is told the format by the first four bytes, accepts the program;
-- then `*_vm` has the helpers, no bounds check, and the program, and is all that is left. Otherwise it
-- returns 1 and leaves nothing, except that the buffer is left when the machine is not created.
pub setup_ubpf_engine-ends :
    (fuel : ℕ) (host : EngineHost) (file : Option (List ℕ × Bool)) (held : List Resource)
    → 2 ≤ fuel
    → host.calloc ≡ true
    → host.file ≡ open_file file
    → setup_ubpf_engine fuel host held
      ≡ some (returns (engine_outcome max_code_size host file held))
unfolding setup_ubpf_engine
setup_ubpf_engine-ends fuel host file held enough c e =
    setup_bounded_lem fuel max_code_size host file held enough (omega arith) c e
