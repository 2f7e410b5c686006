-- ===== src/Sockets/Fill.antt =====
-- The fill ring of a socket of src/sockets.c once it is set up, and every way in which `setup_socket`
-- ends.
use servant.Prelude.Int.{is_zero}
use servant.Prelude.{
  true, false, ℕ, length, List, ◌+◌, Bool, ◌≡◌, suc, ◌≤◌, ◌++◌, ◌*◌, [], ◌&&◌, Outcome, All, ◌>>◌,
  Option, ap, ◌<◌, ◌∷◌, if◌then◌else◌, ◌^◌, arith, zero, exited, not, refl, returns, ◌%◌, none, sym,
  some, eq→==, Bool-cases, inl, inr, ◌∙◌,
}
use native.Mathlib.Nat.{mul-le-mul_right, add-mul}
use servant.Config.{Config}
use servant.Heart.Xsk.{next_index}
use servant.Heart.Publish.{write_all, publish, publish-capacity}
use servant.Heart.{XskRings, Socket}
use servant.Sockets.{
  Host, Resource, fill_frames, populate, setup_socket, tear_down_socket, set_options, umem_config,
  socket_config, socket_resources, umem_size, double_size, exit_unless,
}

-- The first byte of so many frames, from the frame `i` on.
abbrev pub frames : ℕ → ℕ → ℕ → List ℕ
frames zero frame_size i = []
frames (suc n) frame_size i = i * frame_size ∷ frames n frame_size (i + 1)

pub length-frames : (n frame_size i : ℕ) → length (frames n frame_size i) ≡ n
length-frames zero frame_size i = refl
length-frames (suc n) frame_size i = ap suc (length-frames n frame_size (i + 1))

-- A frame lies in a memory of `size` bytes.
abbrev pub IsInside : ℕ → ℕ → ℕ → Type 0
IsInside frame_size size addr = addr + frame_size ≤ size

frames-IsInside :
    (n frame_size i size : ℕ)
    → (i + n) * frame_size ≤ size
    → All (IsInside frame_size size) (frames n frame_size i)
frames-IsInside zero frame_size i size h = tt
frames-IsInside (suc n) frame_size i size h =
    let shift : i + 1 + n ≡ i + suc n = omega arith in
    let next : (i + 1) * frame_size ≤ (i + suc n) * frame_size =
      mul-le-mul_right frame_size (omega arith) in
    (
      omega (arith, next, h, add-mul i 1 frame_size),
      frames-IsInside n frame_size (i + 1) size (rw shift h),
    )

module _ (r : XskRings) where
  -- While no product leaves 32 bits the loop writes the frames in order.
  fill_frames-write_all :
      (left frame_size i idx : ℕ) (fq : r.fill_ring.P)
      → (i + left) * frame_size < 2 ^ 32
      → fill_frames r left frame_size i idx fq
        ≡ write_all r.fill_ring (frames left frame_size i) idx fq
  unfolding fill_frames write_all
  fill_frames-write_all zero frame_size i idx fq h = refl
  fill_frames-write_all (suc left) frame_size i idx fq h =
      let shift : i + 1 + left ≡ i + suc left = omega arith in
      let here : i * frame_size ≤ (i + suc left) * frame_size =
        mul-le-mul_right frame_size (omega arith) in
      let e : i * frame_size % 2 ^ 32 ≡ i * frame_size = omega (arith, here, h) in
      rw e (fill_frames-write_all left frame_size (i + 1) (next_index idx) _ (rw shift h))

  -- The ring has got the first frames, nothing is reserved, and its size is what it was.
  abbrev pub IsFilled : ℕ → ℕ → r.fill_ring.P → r.fill_ring.P → Type 0
  IsFilled n frame_size before after =
      (r.fill_ring.queue after ≡ r.fill_ring.queue before ++ frames n frame_size 0)
      × (r.fill_ring.window after ≡ [])
      × (r.fill_ring.capacity after ≡ r.fill_ring.capacity before)

  populate_lem :
      (n frame_size : ℕ) (fq : r.fill_ring.P)
      → r.fill_ring.window fq ≡ []
      → n ≤ r.fill_ring.free fq
      → n * frame_size < 2 ^ 32
      → (after : r.fill_ring.P) × (populate r n frame_size fq ≡ returns after)
        × IsFilled n frame_size fq after
  unfolding populate
  populate_lem n frame_size fq empty room small =
      let zero_add : 0 + n ≡ n = omega arith in
      let got = r.fill_ring.reserve fq n in
      let (g, q, w) =
        publish r.fill_ring fq (frames n frame_size 0) n empty (sym (length-frames n frame_size 0))
          room in
      (
        r.fill_ring.submit (write_all r.fill_ring (frames n frame_size 0) got.1 got.2) n,
        rw (eq→== got.0 n g) (
            ap (λ p. returns (r.fill_ring.submit p n))
              (fill_frames-write_all n frame_size 0 got.1 got.2 (rw zero_add small))),
        (q, w, publish-capacity r.fill_ring fq (frames n frame_size 0) n got.1),
      )

exits {ℓ} :
    {A : Type ℓ} (b1 b2 b3 b4 : Bool) (o : Outcome A)
    → (exit_unless b1 >> (exit_unless b2 >> (exit_unless b3 >> (exit_unless b4 >> o))))
      ≡ (if b1 && (b2 && (b3 && b4)) then o else exited 1)
exits false b2 b3 b4 o = refl
exits true false b3 b4 o = refl
exits true true false b4 o = refl
exits true true true false o = refl
exits true true true true o = refl

module _ (r : XskRings) where
  -- That memory and libbpf give what they are asked for.
  abbrev pub is_served : Host r → Config → List ℕ → ℕ → Bool
  is_served host config ifname qid =
      host.alloc_umem
      && (is_zero (host.umem_create (umem_size config) (umem_config config))
          && (host.alloc_socket && is_zero (host.socket_create ifname qid (socket_config config))))

  -- The result of `setup_socket` by the filled ring.
  abbrev pub socket_outcome :
      Host r → Config → List ℕ → ℕ → r.fill_ring.P → Outcome (Option (Socket r) × List Resource)
  socket_outcome host config ifname qid fq =
      let xsk : Socket r = record {
        fq = fq;
        cq = host.cq;
        rx = host.rx;
        tx = host.tx;
        outstanding_tx = 0;
      } in
      if not (host.mmap (umem_size config))
      then returns (none, [])
      else if is_served host config ifname qid
      then returns (if set_options r host config then some xsk else none, socket_resources config)
      else exited 1

  setup_socket_lem :
      (host : Host r) (config : Config) (ifname : List ℕ) (qid : ℕ) (fq : r.fill_ring.P)
      → populate r (double_size config.rx_size) config.frame_size host.fq ≡ returns fq
      → setup_socket r host config ifname qid ≡ socket_outcome host config ifname qid fq
  unfolding setup_socket
  setup_socket_lem host config ifname qid fq e = elim (Bool-cases (host.mmap (umem_size config))) [
    | inl m ↦
        rw (setup_socket, m, e)
          (exits host.alloc_umem
            (is_zero (host.umem_create (umem_size config) (umem_config config))) host.alloc_socket
            (is_zero (host.socket_create ifname qid (socket_config config))) _)
    | inr m ↦ rw (setup_socket, m) refl
  ]

  -- With the room in a fresh fill ring for twice `rx_size` entries, as many frames at least, and a memory
  -- that 32 bits can count, `setup_socket` always ends: with NULL and nothing held if the memory cannot
  -- be mapped; by `exit(1)` if memory or libbpf refuses; with NULL, and all that was acquired still held,
  -- if an option of the socket is refused; and else with a socket. Then the kernel can fill twice
  -- `rx_size` frames, which are the first frames of the memory, in order, and lie inside it.
  pub setup_socket-fills :
      (host : Host r) (config : Config) (ifname : List ℕ) (qid : ℕ)
      → r.fill_ring.window host.fq ≡ []
      → config.rx_size * 2 ≤ r.fill_ring.free host.fq
      → config.rx_size * 2 ≤ config.num_frames
      → config.num_frames < 2 ^ 32
      → config.num_frames * config.frame_size < 2 ^ 32
      → (fq : r.fill_ring.P) × (setup_socket r host config ifname qid
          ≡ socket_outcome host config ifname qid fq)
        × IsFilled r (config.rx_size * 2) config.frame_size host.fq fq
        × All
            (IsInside config.frame_size (umem_size config))
            (frames (config.rx_size * 2) config.frame_size 0)
  unfolding setup_socket
  setup_socket-fills host config ifname qid empty room few n small =
      let le : config.rx_size * 2 * config.frame_size ≤ config.num_frames * config.frame_size =
        mul-le-mul_right config.frame_size few in
      let zero_add : 0 + config.rx_size * 2 ≡ config.rx_size * 2 = omega arith in
      let doubled : double_size config.rx_size ≡ config.rx_size * 2 = omega arith in
      let whole : umem_size config ≡ config.num_frames * config.frame_size = omega (arith, small) in
      let (fq, e, filled) =
        populate_lem r (config.rx_size * 2) config.frame_size host.fq empty room
          (omega (arith, le, small)) in
      (
        fq,
        setup_socket_lem host config ifname qid fq
            (ap (λ k. populate r k config.frame_size host.fq) doubled ∙ e),
        filled,
        frames-IsInside (config.rx_size * 2) config.frame_size 0 (umem_size config)
            (rw (zero_add, whole) le),
      )

-- Tearing a socket down gives back all that its set-up acquired.
pub tear_down_socket_lem :
    (r : XskRings) (config : Config) (xsk : Socket r)
    → tear_down_socket r config (some xsk) (socket_resources config) ≡ returns []
unfolding tear_down_socket
tear_down_socket_lem r config xsk = rw (eq→== (umem_size config) (umem_size config) refl) refl
