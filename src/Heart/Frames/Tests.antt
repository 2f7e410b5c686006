-- ===== src/Heart/Frames/Tests.antt =====
-- An iteration over rings kept as lists: the kernel has received a packet into the first frame of the
-- fill ring, and the transmission of another frame is over.
use servant.Prelude.{ℕ, [], ◌∷◌, ◌/◌, ◌%◌, ◌^◌, false}
use servant.Prelude.Int.{pos}
use servant.Channel.ListRing.{list_rings, runtime, made}
use servant.Heart.{Socket, Config, sendto_done}
use servant.Heart.Actions.{Machine, World, Round}
use servant.Heart.ListRings.{rings}
use servant.Heart.Frames.Loop.{Inside}

-- It sends every packet.
abbrev sender : Machine
sender = record {
  ring = list_rings;
  vc = runtime;
  fn = λ addr len memory. (300, len, pos 0, memory);
  sendto = λ buf. pos 0;
}

abbrev config : Config
config = record {
  copy_mode = false;
  busy_poll = false;
  batch_size = 64;
  use_packet_injection = false;
}

-- Frames of 2048 bytes.
abbrev frame : ℕ → ℕ
frame addr = addr % 2 ^ 64 / 2048

abbrev before : Socket rings
before = record {
  fq = record { room = 4; first = 0; submitted = 0 ∷ 2048 ∷ []; reserved = [] };
  cq = record { first = 0; taken = []; waiting = [] };
  rx = record { first = 0; taken = []; waiting = [] };
  tx = record {
    room = 4;
    first = 0;
    submitted = record { addr = 4100; len = 60 } ∷ [];
    reserved = [];
  };
  outstanding_tx = 1;
}

abbrev between : Socket rings
between = record {
  fq = record { room = 4; first = 0; submitted = 2048 ∷ []; reserved = [] };
  cq = record { first = 0; taken = []; waiting = 4096 ∷ [] };
  rx = record { first = 0; taken = []; waiting = record { addr = 256; len = 60 } ∷ [] };
  tx = record { room = 4; first = 1; submitted = []; reserved = [] };
  outstanding_tx = 1;
}

abbrev round : Round sender rings
round = record { kernel = λ xsk. between; kick = sendto_done }

abbrev world : World sender
world = record { memory = []; channel = made }

abbrev none_inside : Inside sender rings frame config
none_inside = λ p. 0
