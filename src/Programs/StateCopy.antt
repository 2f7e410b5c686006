-- ===== src/Programs/StateCopy.antt =====
-- examples/benchmarks/state_overhead.c: the state that stands at the end of a packet is copied with a loop over
-- words and a loop over bytes.
pub mod Copied
use servant.Prelude.{
  ℕ, zero, suc, List, ◌++◌, ◌+◌, ◌-◌, ◌^◌, ◌&&◌, true, false, leb, ltb, length, take, drop, Outcome,
  returns, undefined, ◌>>=◌, ◌>>◌, require,
}
use servant.Programs.{drop_verdict}

-- `*(T *)(dst+i) = *(T *)(src+i)`, for a type of `n` bytes.
abbrev pub copy_part : ℕ → ℕ → List ℕ → List ℕ → List ℕ
copy_part n i dst src = take i dst ++ (take n (drop i src) ++ drop (i + n) dst)

-- A loop of `mymemcpy` from `i` on, in steps of `n` bytes, while one more fits `size`; where it ends, and `dst`.
-- `i` is a short, so from 2 ^ 15 on the next copy would be in front of the buffers. The fuel has one more
-- turn than there are bytes left.
unfoldable pub copy_loop : ℕ → ℕ → ℕ → ℕ → List ℕ → List ℕ → Outcome (ℕ × List ℕ)
copy_loop n zero i size dst src = undefined
copy_loop n (suc fuel) i size dst src =
    let rest = copy_loop n fuel (i + n) size (copy_part n i dst src) src in
    elim (leb (i + n) size) [
      | false ↦ returns (i, dst)
      | true ↦ do
        require (leb (i + n) (length dst) && leb (i + n) (length src))
        require (ltb (i + n) (2 ^ 15))
        rest
    ]

-- `mymemcpy`
unfoldable pub mymemcpy : List ℕ → List ℕ → ℕ → Outcome (List ℕ)
mymemcpy dst src size = do
  words ← copy_loop 8 (suc size) 0 size dst src
  bytes ← copy_loop 1 (suc size) words.0 size words.1 src
  returns bytes.1

-- `COPY_STATE`
abbrev pub copy_state : ℕ
copy_state = 32

-- `bpf_prog`, of a packet that ends at `end_byte` of the memory: the state, which the stack had other bytes for
-- before, and the count.
unfoldable pub state_prog :
    {T : Type 0} → (T → T) → List ℕ → List ℕ → ℕ → T → Outcome (ℕ × List ℕ × T)
state_prog inc_tput stack memory end_byte tput = do
  require (leb copy_state end_byte)
  state ← mymemcpy stack (drop (end_byte - copy_state) memory) copy_state
  returns (drop_verdict, state, inc_tput tput)
