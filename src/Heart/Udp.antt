-- ===== src/Heart/Udp.antt =====
-- src/udp_socket.c: the raw socket that packets are passed on through.
use servant.Prelude.{ℕ, Option, none, some, if◌then◌else◌, not}
use servant.Prelude.Int.{ℤ, pos, minus_one, is_positive}

-- `socket_fd` and the port and address of `dest`.
pub record UdpSocket : Type 0 where
  pub socket_fd : ℤ
  pub port : ℕ
  pub address : Option ℕ

-- The state before any call.
abbrev pub no_socket : UdpSocket
no_socket = record { socket_fd = pos 0; port = 0; address = none }

-- `setup_udp_socket`; `fd` is the result of `socket`, and `address` what `inet_aton` makes of
-- 192.168.1.1. A descriptor below 1 is taken for a failure, and one that is open is not closed when
-- the address fails.
unfoldable pub setup_udp_socket : ℤ → Option ℕ → UdpSocket → ℤ × UdpSocket
setup_udp_socket fd address s = if not (is_positive fd) then (minus_one, s) else elim address [
  | none ↦ (minus_one, record s { port = 8080 })
  | some a ↦ (pos 0, record s { socket_fd = fd; port = 8080; address = some a })
]

-- `teardown_udp_socket`: its result and the descriptor that it closes.
unfoldable pub teardown_udp_socket : UdpSocket → ℤ × ℤ
teardown_udp_socket s = (pos 0, s.socket_fd)
