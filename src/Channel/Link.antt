-- ===== src/Channel/Link.antt =====
-- src/interpose_link.c: the channel between the runtime and the application, from set-up to teardown.
use servant.Prelude.{ℕ, List, ◌∷◌, [], if◌then◌else◌}
use servant.Prelude.Int.{ℤ, pos, minus_one, is_zero}
use servant.Channel.{SharedChannel}
use servant.Channel.Ring.{Rings}
use servant.Channel.Connect.{ChannelAttr, Answers, Reply, OsCall, connect, disconnect}

-- The name "rx_data_inject", and 512 slots.
abbrev pub link_attr : ChannelAttr
link_attr = record {
  name =
      b'r' ∷ b'x' ∷ b'_' ∷ b'd' ∷ b'a' ∷ b't' ∷ b'a' ∷ b'_' ∷ b'i' ∷ b'n' ∷ b'j' ∷ b'e' ∷ b'c'
      ∷ b't' ∷ [];
  ring_size = 512;
}

module _ (ring : Rings) where
  -- `setup_interpose_vchannel`: its result, and what the connection gave.
  unfoldable pub setup_interpose_vchannel : Answers → SharedChannel ring.R → ℤ × Reply ring.R
  unfolding connect
  setup_interpose_vchannel os ch =
      let reply = connect ring os link_attr ch in
      (if is_zero reply.ret then pos 0 else minus_one, reply)

  -- `setup_interpose_link`
  unfoldable pub setup_interpose_link : Answers → SharedChannel ring.R → ℤ × Reply ring.R
  unfolding setup_interpose_vchannel
  setup_interpose_link os ch = setup_interpose_vchannel os ch

  -- `teardown_interpose_link`, of the descriptor at the address `self`.
  unfoldable pub teardown_interpose_link :
      ℕ → SharedChannel ring.R → ℤ × List OsCall × SharedChannel ring.R
  unfolding disconnect
  teardown_interpose_link self ch = let out = disconnect ring self ch in (pos 0, out.0, out.1)
