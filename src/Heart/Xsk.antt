-- ===== src/Heart/Xsk.antt =====
-- The rings of an AF_XDP socket as bpf/xsk.h of libbpf describes them. A producer ring has entries that
-- the kernel may take (`queue`), and behind them the entries reserved and not submitted (`window`). A
-- consumer ring has entries that were peeked and not released (`peeked`), and behind them those that
-- the kernel gave and that were not peeked (`pending`). No ring has more entries than 32 bits count. `slot` is the 32-bit index of an entry of the
-- window, or of those peeked.
use servant.Prelude.{
  ℕ, suc, ◌+◌, ◌%◌, ◌^◌, ◌<◌, ◌≤◌, min, ◌≡◌, Bool, List, ◌++◌, some, get_elem?, set, length, take,
  drop,
}

-- `i++` of a uint32_t.
abbrev pub next_index : ℕ → ℕ
next_index i = (i + 1) % 2 ^ 32

pub record Producers (E : Type 0) : Type 1 where
  pub P : Type 0
  -- `xsk_ring_prod__reserve`: the number reserved, the first index, the ring.
  pub reserve : P → ℕ → ℕ × ℕ × P
  -- A write through `xsk_ring_prod__fill_addr` or `xsk_ring_prod__tx_desc`.
  pub write : P → ℕ → E → P
  -- `xsk_ring_prod__submit`
  pub submit : P → ℕ → P
  -- `xsk_ring_prod__needs_wakeup`
  pub needs_wakeup : P → Bool
  pub queue : P → List E
  pub window : P → List E
  pub slot : P → ℕ → ℕ
  pub free : P → ℕ
  -- The size of the ring.
  pub capacity : P → ℕ
  pub slot-suc : (p : P) (i : ℕ) → slot p (suc i) ≡ next_index (slot p i)
  pub free-bound : (p : P) → free p ≤ 2 ^ 32
  -- What is not taken up is free.
  pub free-capacity : (p : P) → free p + (length (queue p) + length (window p)) ≡ capacity p
  pub capacity-reserve : (p : P) (n : ℕ) → capacity (reserve p n).2 ≡ capacity p
  pub capacity-write : (p : P) (i : ℕ) (e : E) → capacity (write p i e) ≡ capacity p
  pub capacity-submit : (p : P) (n : ℕ) → capacity (submit p n) ≡ capacity p
  -- All of the entries asked for are reserved, or none.
  pub reserve_full :
      (p : P) (n : ℕ)
      → free p < n
      → ((reserve p n).0 ≡ 0)
        × (queue (reserve p n).2 ≡ queue p)
        × (window (reserve p n).2 ≡ window p)
  pub reserve_room :
      (p : P) (n : ℕ)
      → n ≤ free p
      → ((reserve p n).0 ≡ n)
        × ((reserve p n).1 ≡ slot (reserve p n).2 (length (window p)))
        × (queue (reserve p n).2 ≡ queue p)
        × ((junk : List E) × (length junk ≡ n) × (window (reserve p n).2 ≡ window p ++ junk))
  pub write-window :
      (p : P) (i : ℕ) (e : E)
      → i < length (window p)
      → length (window p) ≤ 2 ^ 32
      → (window (write p (slot p i) e) ≡ set (window p) i e)
        × (queue (write p (slot p i) e) ≡ queue p)
        × ((j : ℕ) → slot (write p (slot p i) e) j ≡ slot p j)
  pub submit-window :
      (p : P) (n : ℕ)
      → n ≤ length (window p)
      → (queue (submit p n) ≡ queue p ++ take n (window p))
        × (window (submit p n) ≡ drop n (window p))

pub record Consumers (E : Type 0) : Type 1 where
  pub C : Type 0
  -- `xsk_ring_cons__peek`: the number peeked, the first index, the ring.
  pub peek : C → ℕ → ℕ × ℕ × C
  -- A read through `xsk_ring_cons__comp_addr` or `xsk_ring_cons__rx_desc`.
  pub read : C → ℕ → E
  -- `xsk_ring_cons__release`
  pub release : C → ℕ → C
  pub peeked : C → List E
  pub pending : C → List E
  pub slot : C → ℕ → ℕ
  pub slot-suc : (c : C) (i : ℕ) → slot c (suc i) ≡ next_index (slot c i)
  pub peek-pending :
      (c : C) (n : ℕ)
      → ((peek c n).0 ≡ min n (length (pending c)))
        × ((peek c n).1 ≡ slot (peek c n).2 (length (peeked c)))
        × (peeked (peek c n).2 ≡ peeked c ++ take n (pending c))
        × (pending (peek c n).2 ≡ drop n (pending c))
  pub read-peeked :
      (c : C) (i : ℕ) (e : E)
      → get_elem? (peeked c) i ≡ some e
      → length (peeked c) ≤ 2 ^ 32
      → read c (slot c i) ≡ e
  pub release-peeked :
      (c : C) (n : ℕ)
      → n ≤ length (peeked c)
      → (peeked (release c n) ≡ drop n (peeked c)) × (pending (release c n) ≡ pending c)
