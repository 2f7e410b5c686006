-- ===== src/Interpose/Init/Tests.antt =====
-- A schedule of two threads: the first one initialises, the second one waits for it.
use servant.Prelude.{ℕ, ◌≡◌, [], returns, some, ◌≤◌, arith, true, aborted, none, refl, ◌⊎◌}
use servant.Prelude.Int.{negsuc, pos}
use servant.Channel.ListRing.{list_rings, made}
use servant.Interpose.Init.{
  Bound, System, Linker, init, Reach, start, later, pick, call, contend, win, lose, initialise,
  waiting, through,
}
use servant.Interpose.Init.Once.{IsActive, IsBound, ensure_init-once}

-- A function that libc does not have ends the process.
abbrev linker : Linker list_rings
linker = record {
  recvfrom = some 10;
  epoll_ctl = none;
  epoll_wait = some 30;
  os = record {
    shm_open_excl = negsuc 0;
    shm_open = negsuc 0;
    ftruncate = negsuc 0;
    fstat = none;
    mmap = none;
    munmap_ret = pos 0;
    mmap_at = λ a. some a;
  };
  region = made;
}

init-unbound : init list_rings linker ≡ aborted
unfolding init
init-unbound = refl

abbrev bound : Bound
bound = record {
  libc_recvfrom = 10;
  libc_epoll_ctl = 20;
  libc_epoll_wait = 30;
  vc = record { name = []; proc_id = 1; ch = 4096 };
}

abbrev schedule : (n : ℕ) × (s : System) × Reach (returns bound) n s
schedule = (
  _,
  _,
  later
      (later
        (later
          (later (later (later (later start (pick 0 call)) (pick 1 call)) (pick 0 (contend refl)))
            (pick 1 (contend refl)))
          (pick 0 (win refl)))
        (pick 1 (lose (λ e. omega (arith, e)))))
      (pick 0 (initialise bound refl)),
)

second_waits : schedule.1.pc 1 ≡ waiting
second_waits = refl

ensure_init-once_example :
    (schedule.1.mem.inits ≤ 1)
    × ((i j : ℕ) → IsActive (schedule.1.pc i) → IsActive (schedule.1.pc j) → i ≡ j)
    × ((i : ℕ) → schedule.1.pc i ≡ through → IsBound (returns bound) schedule.1.mem)
    × ((i : ℕ)
        → schedule.1.pc i ≡ waiting
        → (schedule.1.mem.init_done ≡ true) ⊎ ((j : ℕ) × IsActive (schedule.1.pc j)))
ensure_init-once_example =
    ensure_init-once (returns bound) schedule.0 schedule.1 schedule.2 (omega arith)
