-- ===== src/Brain/Tests.antt =====
-- Runs of the set-up of the engine, and the theorems at such runs.
use servant.Prelude.{
  ◌++◌, some, ◌≡◌, [], true, ◌∷◌, returns, false, refl, if◌then◌else◌, none, arith,
}
use servant.Prelude.Text.{str_eq}
use servant.Prelude.Int.{pos, negsuc}
use servant.Brain.{
  EngineHost, lookup_fast, map_lookup_elem_kern_fast, new_vm, called, max_code_size, helper_id,
  register_engine_functions, readfile, setup_ubpf_engine, elf_magic, code_buffer, is_elf,
}
use servant.Brain.Load.{opened, file_read, readfile_lem}
use servant.Brain.Engine.{register-meant, open_file, engine_outcome, setup_ubpf_engine-ends}

readfile-three :
    readfile 2 4 true (some (opened (7 ∷ 8 ∷ 9 ∷ []) false)) []
    ≡ some (returns (some (7 ∷ 8 ∷ 9 ∷ 0 ∷ [], 3), code_buffer ∷ []))
unfolding readfile
readfile-three = refl

-- A file of exactly `maxlen` bytes is refused.
readfile-four :
    readfile 2 4 true (some (opened (7 ∷ 8 ∷ 9 ∷ 6 ∷ []) false)) [] ≡ some (returns (none, []))
unfolding readfile
readfile-four = refl

is_elf-magic : is_elf (elf_magic ++ 2 ∷ []) 5 ≡ true
unfolding str_eq
is_elf-magic = refl

readfile_lem_example :
    readfile 2 4 true (some (opened (7 ∷ 8 ∷ 9 ∷ []) false)) []
    ≡ some (returns (file_read 4 (7 ∷ 8 ∷ 9 ∷ []) false []))
readfile_lem_example = readfile_lem 2 4 (7 ∷ 8 ∷ 9 ∷ []) false [] (omega arith) (omega arith)

registered_lookup :
    called (register_engine_functions new_vm).registered (helper_id lookup_fast)
    ≡ some map_lookup_elem_kern_fast
registered_lookup = register-meant new_vm lookup_fast

-- An ELF file that ubpf accepts.
abbrev host : EngineHost
host = record {
  file = open_file (some (elf_magic ++ 2 ∷ [], false));
  calloc = true;
  create = true;
  load = λ elf bytes n. if elf then pos 0 else negsuc 0;
}

setup_ubpf_engine-ends_example :
    setup_ubpf_engine 2 host []
    ≡ some (returns (engine_outcome max_code_size host (some (elf_magic ++ 2 ∷ [], false)) []))
setup_ubpf_engine-ends_example =
    setup_ubpf_engine-ends 2 host (some (elf_magic ++ 2 ∷ [], false)) [] (omega arith) refl refl
