-- ===== src/Programs/KernelMap/Tests.antt =====
-- A packet of UDP that carries "hi", where an entry still has the end of "wxyz".
use servant.Prelude.{ℕ, List, [], ◌∷◌, ◌≡◌, refl, replicate, returns, arith}
use servant.Programs.{drop_verdict}
use servant.Programs.KernelMap.{
  Data, Maps, redirect_map, xdp_pass, ubpf_map_test, print_packet, parse_packet,
}
use servant.Programs.KernelMap.Handover.{ubpf_map_test-print_packet}

abbrev hi : List ℕ
hi =
    2 ∷ 0 ∷ 0 ∷ 0 ∷ 0 ∷ 2 ∷ 1 ∷ 0 ∷ 0 ∷ 0 ∷ 0 ∷ 1 ∷ 8 ∷ 0 ∷ 69 ∷ 0 ∷ 0 ∷ 30 ∷ 0 ∷ 0 ∷ 0 ∷ 0 ∷ 64
    ∷ 17 ∷ 0 ∷ 0 ∷ 10 ∷ 0 ∷ 0 ∷ 1 ∷ 10 ∷ 0 ∷ 0 ∷ 2 ∷ 0 ∷ 1 ∷ 0 ∷ 2 ∷ 0 ∷ 10 ∷ 0 ∷ 0 ∷ 104 ∷ 105 ∷ []

abbrev wxyz : Data
wxyz = record {
  ether_type = 0x800;
  ip_proto = 17;
  len = 4;
  payload = 119 ∷ 120 ∷ 121 ∷ 122 ∷ replicate 252 0;
  count = 1;
}

abbrev maps : Maps
maps = record { test_map = 1024 ∷ []; data_map = replicate 1024 wxyz }

ubpf_map_test-print_packet_example :
    (m' : Maps) × (ubpf_map_test hi maps ≡ (redirect_map, m'))
    × (print_packet m'
        ≡ returns (
          drop_verdict,
          record {
            eth_proto = 0x800;
            ip_proto = 17;
            payload_size = 2;
            payload = 104 ∷ 105 ∷ 121 ∷ 122 ∷ [];
            count = 1025;
            total = 1025;
          },
        ))
ubpf_map_test-print_packet_example =
    ubpf_map_test-print_packet hi (omega arith) refl refl maps 1024 wxyz (121 ∷ 122 ∷ [])
      (replicate 251 0) refl refl refl refl (omega arith) (omega arith) (omega arith) (omega arith)
      (omega arith)

-- A packet that is no IP leaves its type in the entry, and goes on in the kernel.
no_ip : (ubpf_map_test (replicate 14 1) maps).0 ≡ xdp_pass
unfolding ubpf_map_test parse_packet
no_ip = refl
