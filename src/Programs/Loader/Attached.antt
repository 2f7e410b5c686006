-- ===== src/Programs/Loader/Attached.antt =====
-- The loaders of the examples: what is attached to the interface while one waits and after it.
use servant.Prelude.Int.{pos, negsuc}
use servant.Prelude.{
  ℕ, List, [], ◌∷◌, false, Option, some, none, ◌⊎◌, ◌<◌, ◌≤◌, ◌≡◌, ◌≢◌, ap, length, get_or, returns,
  ne→==, ge→ltb, lt→ltb, arith,
}
use servant.Programs.Loader.{
  Flags, XdpLinks, LoadOpt, BpfAnswers, Ended, exit_code, waits, default_flags, read_opts,
  with_mode, choose_program, start_program, load_object, run_loader,
}

-- libbpf tells the id of the program behind a descriptor, and nothing of a number that is none.
pub record AreTrue (x : XdpLinks) (a : BpfAnswers) : Type 0 where
  pub info_true : (fd id : ℕ) → a.info (pos fd) ≡ some id → id ≡ x.id_of fd
  pub info_none : (n : ℕ) → a.info (negsuc n) ≡ none

-- What waiting means for the interface.
abbrev pub Waiting : (x : XdpLinks) → x.K → Ended × x.K → Type 0
Waiting x k (exit_code c, k') = Unit
Waiting x k (waits id f, k') =
    (x.attached k' ≡ some id) × ((f.if_noexist ≡ false) ⊎ (x.attached k ≡ none))

-- The id that `bpf_get_link_xdp_id` reads.
abbrev pub current_id : Option ℕ → ℕ
current_id none = 0
current_id (some id) = id

-- An option -p with a name that the object does not have: the descriptor is negative, and the loader
-- takes it for one. Whatever is attached to the interface is taken off, and the loader ends with the
-- error of the question for its id.
pub run_loader_missing_section :
    (x : XdpLinks) (a : BpfAnswers) (room first n : ℕ) (opts : List LoadOpt) (args : List (List ℕ))
    (k : x.K) (f : Flags) (section : List ℕ)
    → AreTrue x a
    → read_opts opts default_flags (b'-' ∷ []) ≡ some (f, section)
    → get_or section 0 0 ≢ b'-'
    → a.section_fd section ≡ negsuc n
    → a.loaded ≡ some first
    → 0 < a.ifindex
    → length section < room
    → 2 ≤ length args
    → length (get_or args 1 []) < room
    → (k' : x.K) × (run_loader x room a opts args k ≡ returns (exit_code a.info_error, k'))
      × (x.attached k' ≡ none)
unfolding run_loader load_object start_program choose_program
run_loader_missing_section x a room first n opts args k f section t o named missing loaded index
      short many file =
    let (done, off) = x.detach k n (with_mode f) in
    let named' = ne→== (get_or section 0 0) b'-' named in
    let chosen : choose_program a section first ≡ negsuc n = rw (named', choose_program) missing in
    (
      (x.set_link k (negsuc n) (with_mode f)).0,
      rw
          (
            o,
            run_loader,
            lt→ltb (length section) room short,
            ge→ltb (length args) 2 many,
            ne→== a.ifindex 0 (omega arith),
            lt→ltb (length (get_or args 1 [])) room file,
            loaded,
            load_object,
            start_program,
            chosen,
            named',
            done,
            t.info_none n,
          )
          (ap (λ c. returns (exit_code a.info_error, (x.set_link k c (with_mode f)).0)) chosen),
      off,
    )
