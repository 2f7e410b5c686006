-- ===== src/Delivery/Tests.antt =====
-- A batch of two frames that the program passes without their Ethernet headers.
use servant.Prelude.Int.{pos, minus_one}
use servant.Prelude.{
  ℕ, List, [], ◌∷◌, ◌++◌, returns, ◌-◌, ◌≡◌, true, false, refl, replicate, map, arith, some, none,
}
use servant.Channel.{SharedChannel, VChannel, count_msg}
use servant.Channel.Connect.{
  Answers, connect, create, init_region, register, attach, remap, fresh_channel, shared_region_size,
}
use servant.Channel.Link.{link_attr, setup_interpose_link, setup_interpose_vchannel}
use servant.Channel.ListRing.{
  ListRing, list_rings, runtime, application, made, made-IsStream, ring_of_4,
}
use servant.Channel.Stream.{IsStream}
use servant.Heart.{Desc, Socket, Config}
use servant.Heart.Actions.{Machine, World, trim, pump_batch}
use servant.Heart.ListRings.{rings}
use servant.Delivery.{passed_bytes, AreShort, datagram, receive_each}
use servant.Interpose.{EpollData, no_data, no_epoll, no_epolls, get_epoll_index, epoll_ctl, ctl_add}
use servant.Delivery.Served.{serve_each, served, pump_batch-serve_each}
use servant.Delivery.Linked.{setup_interpose_link-serve_each}
use servant.Delivery.InOrder.{pump_batch-recvfrom}

-- It passes every packet without its first 14 bytes.
abbrev stripper : Machine
stripper = record {
  ring = list_rings;
  vc = runtime;
  fn = λ addr len memory. (100, len - 14, pos 14, memory);
  sendto = λ buf. pos 0;
}

abbrev injecting : Config
injecting = record {
  copy_mode = false;
  busy_poll = false;
  batch_size = 64;
  use_packet_injection = true;
}

-- Frames of 44 bytes, with two bytes of payload, and of 43 bytes.
abbrev frames : List Desc
frames = record { addr = 0; len = 44 } ∷ record { addr = 44; len = 43 } ∷ []

abbrev memory : List ℕ
memory = replicate 42 1 ++ (7 ∷ 8 ∷ []) ++ replicate 42 2 ++ 9 ∷ []

abbrev quiet : World stripper
quiet = record { memory = memory; channel = made }

abbrev receiving : Socket rings
receiving = record {
  fq = record { room = 4; first = 0; submitted = []; reserved = [] };
  cq = record { first = 0; taken = []; waiting = [] };
  rx = record { first = 5; taken = frames; waiting = [] };
  tx = record { room = 4; first = 0; submitted = []; reserved = [] };
  outstanding_tx = 0;
}

abbrev buffers : List (List ℕ)
buffers = replicate 64 0 ∷ replicate 64 0 ∷ []

frames-passed :
    passed_bytes stripper rings frames memory
    ≡ (replicate 28 1 ++ 7 ∷ 8 ∷ []) ∷ (replicate 28 2 ++ 9 ∷ []) ∷ []
unfolding passed_bytes trim
frames-passed = refl

received_in_order :
    (w' : World stripper) × (xsk' : Socket rings) × (ch' : SharedChannel ListRing)
    × (rr' : ListRing) × (start' : ℕ) × (pump_batch stripper rings injecting frames quiet receiving
        ≡ returns (w', xsk'))
    × (receive_each list_rings application buffers w'.channel
        ≡ returns (map datagram (passed_bytes stripper rings frames memory), ch'))
    × IsStream list_rings ch' 1 rr' start' 0
unfolding AreShort passed_bytes trim
received_in_order =
    pump_batch-recvfrom stripper rings injecting application frames quiet receiving ring_of_4 0
      buffers refl (omega arith) refl
      (record { fill_idle = refl; tx_idle = refl; small = omega arith }) (omega arith)
      ((λ _. (omega arith, omega arith)), ((λ _. (omega arith, omega arith)), tt)) (omega arith)
      made-IsStream
      (omega arith, omega arith, omega arith, (omega arith, omega arith, omega arith, tt))

-- An application that waits on 5 for its descriptor 7.
found_0 : get_epoll_index no_epolls 5 ≡ some 0
unfolding get_epoll_index
found_0 = refl

abbrev waiting : List EpollData
waiting = epoll_ctl (some 8080) ctl_add 5 7 70 no_epolls

pump_batch-serve_each_example :
    (w' : World stripper) × (xsk' : Socket rings) × (ch' : SharedChannel ListRing) × (pump_batch
        stripper rings injecting frames quiet receiving
      ≡ returns (w', xsk'))
    × (serve_each list_rings application waiting 5 minus_one (pos 0) (pos 0) buffers w'.channel
        ≡ returns (
          map
              (served list_rings application waiting 5 minus_one (pos 0) (pos 0) 70)
              (passed_bytes stripper rings frames memory),
          ch',
        ))
    × (count_msg list_rings application ch' ≡ returns 0)
unfolding AreShort passed_bytes trim
pump_batch-serve_each_example =
    pump_batch-serve_each stripper rings injecting application frames quiet receiving ring_of_4 0
      buffers no_epolls 5 7 70 0 minus_one (pos 0) (pos 0) no_epoll no_data (replicate 7 no_data)
      found_0 refl refl (omega arith) refl refl (omega arith) refl
      (record { fill_idle = refl; tx_idle = refl; small = omega arith }) (omega arith)
      ((λ _. (omega arith, omega arith)), ((λ _. (omega arith, omega arith)), tt)) (omega arith)
      made-IsStream
      (omega arith, omega arith, omega arith, (omega arith, omega arith, omega arith, tt))

-- The system's answers to the runtime, which makes the region, and to the application, which finds it.
abbrev to_runtime : Answers
to_runtime = record {
  shm_open_excl = pos 3;
  shm_open = minus_one;
  ftruncate = pos 0;
  fstat = none;
  mmap = some 4096;
  munmap_ret = pos 0;
  mmap_at = λ a. some a;
}

abbrev to_application : Answers
to_application = record {
  shm_open_excl = minus_one;
  shm_open = pos 5;
  ftruncate = pos 0;
  fstat = some (shared_region_size list_rings 512);
  mmap = some 4096;
  munmap_ret = pos 0;
  mmap_at = λ a. some a;
}

abbrev ring_of_512 : ListRing
ring_of_512 = record ring_of_4 { size = 512 }

abbrev linked_by : ℕ → SharedChannel ListRing
linked_by n = record (fresh_channel list_rings 4096 512 ring_of_512 ring_of_512) { connected = n }

abbrev end_of_link : ℕ → VChannel
end_of_link i = record { name = link_attr.name; proc_id = i; ch = 4096 }

runtime_links :
    (setup_interpose_link list_rings to_runtime made).1.made ≡ some (end_of_link 0, linked_by 1)
unfolding setup_interpose_link setup_interpose_vchannel connect create init_region register
    fresh_channel
runtime_links = refl

application_links :
    (setup_interpose_vchannel list_rings to_application (linked_by 1)).1.made
    ≡ some (end_of_link 1, linked_by 2)
unfolding setup_interpose_vchannel connect attach remap register fresh_channel
application_links = refl

-- The same packets over that link.
abbrev linked : Machine
linked = record stripper { vc = end_of_link 0 }

abbrev quiet_link : World linked
quiet_link = record { memory = memory; channel = linked_by 2 }

setup_interpose_link-serve_each_example :
    (w' : World linked) × (xsk' : Socket rings) × (ch' : SharedChannel ListRing) × (pump_batch
        linked rings injecting frames quiet_link receiving
      ≡ returns (w', xsk'))
    × (serve_each list_rings (end_of_link 1) waiting 5 minus_one (pos 0) (pos 0) buffers w'.channel
        ≡ returns (
          map
              (served list_rings (end_of_link 1) waiting 5 minus_one (pos 0) (pos 0) 70)
              (passed_bytes linked rings frames memory),
          ch',
        ))
    × (count_msg list_rings (end_of_link 1) ch' ≡ returns 0)
unfolding AreShort passed_bytes trim
setup_interpose_link-serve_each_example =
    setup_interpose_link-serve_each linked rings injecting to_runtime to_application made
      (linked_by 1) (end_of_link 1) frames quiet_link receiving buffers no_epolls 5 7 70 0 minus_one
      (pos 0) (pos 0) no_epoll no_data (replicate 7 no_data) refl refl runtime_links
      application_links found_0 refl refl (omega arith) refl refl
      (record { fill_idle = refl; tx_idle = refl; small = omega arith }) (omega arith)
      ((λ _. (omega arith, omega arith)), ((λ _. (omega arith, omega arith)), tt)) (omega arith)
      (omega arith, omega arith, omega arith, (omega arith, omega arith, omega arith, tt))
