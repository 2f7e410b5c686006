-- ===== src/Sockets/Frames.antt =====
-- From `setup_socket` of src/sockets.c into the loop of src/heart.c: the frames that the set-up hands
-- out, while the program runs.
mod Tests
use servant.Prelude.{ℕ, [], ◌∷◌, ◌++◌, Bool, Outcome, exited, if◌then◌else◌, ◌==◌, ◌/◌, ◌<◌, ◌≡◌}
use servant.Config.{Config}
use servant.Heart as Loop
use servant.Heart.{XskRings, Socket}
use servant.Sockets.{Host, socket_resources}

-- The frame that an address lies in.
abbrev pub frame_number : ℕ → ℕ → ℕ
frame_number frame_size addr = addr / frame_size

module _ (frame_size : ℕ) (some_size : 0 < frame_size) where
  abbrev is_frame : ℕ → ℕ → Bool
  is_frame i addr = frame_number frame_size addr == i

module _ (r : XskRings) where
  -- The rings as libbpf sets them up: empty, and the fill ring with so many places.
  pub record IsFresh (host : Host r) (size : ℕ) : Type 0 where
    pub fill_empty : r.fill_ring.queue host.fq ≡ []
    pub fill_idle : r.fill_ring.window host.fq ≡ []
    pub fill_size : r.fill_ring.capacity host.fq ≡ size
    pub tx_empty : r.tx_ring.queue host.tx ≡ []
    pub tx_idle : r.tx_ring.window host.tx ≡ []
    pub comp_none : r.comp_ring.peeked host.cq ≡ []
    pub comp_empty : r.comp_ring.pending host.cq ≡ []
    pub rx_none : r.rx_ring.peeked host.rx ≡ []
    pub rx_empty : r.rx_ring.pending host.rx ≡ []

  abbrev socket_of : Host r → r.fill_ring.P → Socket r
  socket_of host fq = record {
    fq = fq;
    cq = host.cq;
    rx = host.rx;
    tx = host.tx;
    outstanding_tx = 0;
  }
