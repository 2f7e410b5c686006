-- ===== src/Programs/Loader/Tests.antt =====
-- An interface that holds at most one program, and the loaders on it.
use servant.Prelude.Int.{ℤ, pos, negsuc}
use servant.Prelude.{
  ℕ, List, [], ◌∷◌, Bool, true, false, Option, some, none, ◌+◌, ◌≡◌, refl, sym, returns,
  some-injective, none≢some, arith, Bool-cases, inl, inr,
}
use servant.Programs.Loader.{
  Flags, XdpLinks, opt_section, BpfAnswers, exit_code, default_flags, read_opts, run_loader,
}
use servant.Programs.Loader.Attached.{AreTrue, run_loader_missing_section}

-- The program behind descriptor n has the id n + 100.
abbrev link : Option ℕ → ℤ → Flags → Option ℕ × Bool
link k (negsuc n) f = (none, true)
link none (pos fd) f = (some (fd + 100), true)
link (some id) (pos fd) f = elim f.if_noexist [
  | true ↦ (some id, false)
  | false ↦ (some (fd + 100), true)
]

attached-link :
    (k : Option ℕ) (fd : ℕ) (f : Flags)
    → (link k (pos fd) f).1 ≡ true
    → (link k (pos fd) f).0 ≡ some (fd + 100)
attached-link none fd f h = refl
attached-link (some id) fd f h = elim (Bool-cases f.if_noexist) [
  | inl t ↦ absurd (cc (rw t at h))
  | inr n ↦ rw n refl
]

busy :
    (k : Option ℕ) (fd id : ℕ) (f : Flags)
    → f.if_noexist ≡ true
    → k ≡ some id
    → (link k (pos fd) f).1 ≡ false
busy none fd id f h e = absurd (none≢some e)
busy (some old) fd id f h e = rw h refl

refused :
    (k : Option ℕ) (fd : ℕ) (f : Flags) → (link k (pos fd) f).1 ≡ false → (link k (pos fd) f).0 ≡ k
refused none fd f h = absurd (cc)
refused (some id) fd f h = elim (Bool-cases f.if_noexist) [
  | inl t ↦ rw t refl
  | inr n ↦ absurd (cc (rw n at h))
]

abbrev one_program : XdpLinks
one_program = record {
  K = Option ℕ;
  attached = λ k. k;
  id_of = λ fd. fd + 100;
  set_link = link;
  attach = attached-link;
  attach_busy = busy;
  attach_refused = refused;
  detach = λ k n f. (refl, refl);
}

abbrev program_info : ℤ → Option ℕ
program_info (pos fd) = some (fd + 100)
program_info (negsuc n) = none

-- No section has a program.
abbrev answers : BpfAnswers
answers = record {
  ifindex = 3;
  loaded = some 7;
  section_fd = λ s. negsuc 21;
  info = program_info;
  info_error = negsuc 0;
}

answers-AreTrue : AreTrue one_program answers
answers-AreTrue = record { info_true = λ fd id e. sym (some-injective e); info_none = λ n. refl }

abbrev arguments : List (List ℕ)
arguments = (b'e' ∷ b't' ∷ b'h' ∷ []) ∷ (b'x' ∷ b'.' ∷ b'o' ∷ []) ∷ []

abbrev native_flags : Flags
native_flags = record { if_noexist = true; skb_mode = false; drv_mode = true }

-- Program 5 is attached, and there is no section "xdp".
abbrev xdp_name : List ℕ
xdp_name = b'x' ∷ b'd' ∷ b'p' ∷ []

read_name :
    read_opts (opt_section xdp_name ∷ []) default_flags (b'-' ∷ []) ≡ some (default_flags, xdp_name)
unfolding read_opts
read_name = refl

loaded_missing_section :
    (k' : Option ℕ) × (run_loader one_program 256 answers
        (opt_section xdp_name ∷ [])
        arguments
        (some 5)
      ≡ returns (exit_code (negsuc 0), k'))
    × (k' ≡ none)
loaded_missing_section =
    run_loader_missing_section one_program answers 256 7 21 (opt_section xdp_name ∷ []) arguments
      (some 5) default_flags xdp_name answers-AreTrue read_name (omega arith) refl refl
      (omega arith) (omega arith) (omega arith) (omega arith)
