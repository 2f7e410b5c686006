-- ===== src/Interpose/Init.antt =====
-- The initialisation of src/interpose/interpose.c: `init`, and `ensure_init`, which every interposed
-- call begins with, by any number of threads. A step is what one thread does between two reads or
-- writes of shared memory.
pub mod Once
mod Tests
use servant.Prelude.{
  ℕ, Bool, ◌+◌, Option, Outcome, if◌then◌else◌, ◌>>=◌, false, aborted, ◌%◌, ◌==◌, ◌≡◌, ◌^◌, true,
  some, none, ◌>>◌, returns, ◌≢◌, assert, or_undefined,
}
use servant.Prelude.Int.{ℤ, is_zero}
use servant.Channel.{SharedChannel, VChannel}
use servant.Channel.Ring.{Rings}
use servant.Channel.Connect.{Answers}
use servant.Channel.Link.{setup_interpose_vchannel}

-- `bind_symbol`, by the result of `dlsym`.
unfoldable pub bind_symbol : Option ℕ → Outcome ℕ
bind_symbol none = aborted
bind_symbol (some ptr) = returns ptr

-- The answers of the dynamic linker, and of the system on the channel.
pub record Linker (ring : Rings) : Type 0 where
  pub recvfrom : Option ℕ
  pub epoll_ctl : Option ℕ
  pub epoll_wait : Option ℕ
  pub os : Answers
  pub region : SharedChannel ring.R

-- What `init` sets: the functions of libc, and the descriptor of the channel.
pub record Bound : Type 0 where
  pub libc_recvfrom : ℕ
  pub libc_epoll_ctl : ℕ
  pub libc_epoll_wait : ℕ
  pub vc : VChannel

-- `init`
unfoldable pub init : (ring : Rings) → Linker ring → Outcome Bound
unfolding bind_symbol setup_interpose_vchannel
init ring linker = do
  recvfrom ← bind_symbol linker.recvfrom
  epoll_ctl ← bind_symbol linker.epoll_ctl
  epoll_wait ← bind_symbol linker.epoll_wait
  let out = setup_interpose_vchannel ring linker.os linker.region
  assert (is_zero out.0)
  made ← or_undefined out.1.made
  returns (record {
    libc_recvfrom = recvfrom;
    libc_epoll_ctl = epoll_ctl;
    libc_epoll_wait = epoll_wait;
    vc = made.0;
  })

-- Where a thread is: outside; before the test of `init_done`; before the fetch-and-add; in `init`, with
-- `in_init` set; before `init_done = 1`; in the waiting loop; and behind `ensure_init`.
pub data Pc : Type 0 where
  outside testing counting initialising finishing waiting through : Pc

-- The two variables, what `init` has set, and two facts of the past: how often `init` was begun, and by
-- which thread last.
pub record Shared : Type 0 where
  pub init_cnt : ℕ
  pub init_done : Bool
  pub bound : Option Bound
  pub inits : ℕ
  pub owner : ℕ

pub record System : Type 0 where
  pub mem : Shared
  pub pc : ℕ → Pc

abbrev pub update {ℓ} : {A : Type ℓ} → (ℕ → A) → ℕ → A → ℕ → A
update f i a j = if i == j then a else f j

-- `__sync_fetch_and_add(&init_cnt, 1)`
abbrev pub add_one : Shared → Shared
add_one m = record m { init_cnt = (m.init_cnt + 1) % 2 ^ 32 }

module _ (result : Outcome Bound) where
  -- A step of the thread `i`; the first number is how many fetch-and-adds it does. `result` is what
  -- `init` comes to: a thread in `init` goes on if that is a return.
  pub data Move (m : Shared) (i : ℕ) : ℕ → Pc → Shared → Pc → Type 0 where
    call : Move m i 0 outside m testing
    skip : m.init_done ≡ true → Move m i 0 testing m through
    contend : m.init_done ≡ false → Move m i 0 testing m counting
    -- The thread sets `in_init` and calls `init`.
    win :
        m.init_cnt ≡ 0
        → Move m i 1 counting (record (add_one m) { inits = m.inits + 1; owner = i }) initialising
    lose : m.init_cnt ≢ 0 → Move m i 1 counting (add_one m) waiting
    -- An interposed call inside `init`: `in_init` is set, and `ensure_init` returns at once.
    reenter : m.init_done ≡ false → Move m i 0 initialising m initialising
    initialise :
        (b : Bound)
        → result ≡ returns b
        → Move m i 0 initialising (record m { bound = some b }) finishing
    publish : Move m i 0 finishing (record m { init_done = true }) through
    yield : m.init_done ≡ false → Move m i 0 waiting m waiting
    pass : m.init_done ≡ true → Move m i 0 waiting m through
    leave : Move m i 0 through m outside

  pub data Step (s : System) : ℕ → System → Type 0 where
    pick :
        (i : ℕ) {k : ℕ} {m : Shared} {p : Pc}
        → Move s.mem i k (s.pc i) m p
        → Step s k (record { mem = m; pc = update s.pc i p })

  abbrev pub started : System
  started = record {
    mem = record { init_cnt = 0; init_done = false; bound = none; inits = 0; owner = 0 };
    pc = λ i. outside;
  }

  -- The states that so many fetch-and-adds lead to.
  pub data Reach : ℕ → System → Type 0 where
    start : Reach 0 started
    later : {k n : ℕ} {s t : System} → Reach k s → Step s n t → Reach (k + n) t
