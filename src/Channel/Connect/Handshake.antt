-- ===== src/Channel/Connect/Handshake.antt =====
-- Who gets connected, with which number, and to what.
use servant.Channel.Span.{span}
use servant.Prelude.Int.{minus_one, pos, is_positive}
use servant.Prelude.{
  true, false, ℕ, ◌≡◌, none, ◌⊎◌, some, ◌+◌, arith, length, All, ◌<◌, ◌≤◌, ◌*◌, suc, ◌^◌,
  length-replicate, ap, zero, refl, inl, inr, none≢some, sym, ◌∙◌, if◌then◌else◌,
}
use servant.Channel.{SharedChannel, VChannel}
use servant.Channel.Connect.{
  ChannelAttr, Answers, Reply, register, fresh_objs, fresh_channel, create, attach, connect,
}
use servant.Channel.Ring.{Rings}
use servant.Channel.Stream.{IsSlot, IsStream}

-- How a reply relates to the channel `ch` that the region held: -1 and nothing made, or 0 and a
-- descriptor that carries the count of processes before, and that count one higher.
abbrev pub IsReply : {R : Type 0} → Reply R → ℕ → ChannelAttr → Type 0
IsReply reply before attr =
    ((reply.ret ≡ minus_one) × (reply.made ≡ none))
    ⊎ ((vc : VChannel) × (ch : SharedChannel _) × (reply.ret ≡ pos 0)
        × (reply.made ≡ some (vc, ch))
        × (vc.name ≡ attr.name)
        × (vc.proc_id ≡ before)
        × (ch.connected ≡ before + 1))

module _ (ring : Rings) (os : Answers) (attr : ChannelAttr) where
  -- The process that finds no region of that name is process 0.
  pub create-IsReply : IsReply (create ring os attr) 0 attr
  unfolding create register fresh_channel
  create-IsReply = ground arith

  -- `connect_shared_channel` on an existing region fails and leaves it, or registers the process
  -- under the number of those connected before, of which there was at most one.
  pub attach-IsReply :
      (ch : SharedChannel ring.R)
      → ch.connected < 2 ^ 31
      → IsReply (attach ring os attr ch) ch.connected attr
  unfolding attach register
  attach-IsReply ch h = ground arith

  -- A region with two processes takes no third one.
  pub attach-full :
      (ch : SharedChannel ring.R)
      → 2 ≤ ch.connected
      → ch.connected < 2 ^ 31
      → (attach ring os attr ch).made ≡ none
  unfolding attach
  attach-full ch h k = ground arith

  -- Where the system maps at the address that it is asked for, a process that attaches sees the
  -- region at the creator's address, so that the pointers in the region hold for it too.
  pub attach_address :
      (ch ch' : SharedChannel ring.R) (vc : VChannel)
      → os.mmap_at ch.master_virt_addr ≡ some ch.master_virt_addr
      → (attach ring os attr ch).made ≡ some (vc, ch')
      → vc.ch ≡ ch.master_virt_addr
  unfolding attach register
  attach_address ch ch' vc h e = ground arith

pub by_create :
    (ring : Rings) (os : Answers) (attr : ChannelAttr) (ch : SharedChannel ring.R)
    → is_positive os.shm_open_excl ≡ true
    → connect ring os attr ch ≡ create ring os attr
unfolding connect
by_create ring os attr ch h = ap (λ b. if b then create ring os attr else attach ring os attr ch) h

pub by_attach :
    (ring : Rings) (os : Answers) (attr : ChannelAttr) (ch : SharedChannel ring.R)
    → is_positive os.shm_open_excl ≡ false
    → connect ring os attr ch ≡ attach ring os attr ch
unfolding connect
by_attach ring os attr ch h = ap (λ b. if b then create ring os attr else attach ring os attr ch) h

pub made_fields :
    {R : Type 0} (reply : Reply R) (before : ℕ) (attr : ChannelAttr) {vc : VChannel}
    {ch : SharedChannel R}
    → IsReply reply before attr
    → reply.made ≡ some (vc, ch)
    → (vc.proc_id ≡ before) × (ch.connected ≡ before + 1)
made_fields reply before attr (inl h) e = absurd (none≢some (sym h.1 ∙ e))
made_fields reply before attr (inr h) e = ground arith

not_made :
    {R : Type 0} (reply : Reply R) (before : ℕ) (attr : ChannelAttr)
    → IsReply reply before attr
    → reply.made ≡ none
    → reply.ret ≡ minus_one
not_made reply before attr (inl h) e = h.0
not_made reply before attr (inr h) e = ground arith

-- `connect_shared_channel` connects two processes of one name at most, as 0 and 1: after a creator,
-- whose exclusive `shm_open` gives a positive descriptor, and one more process, whose does not, have
-- connected, every further call on the region, whose does not either, fails.
pub two_processes :
    (ring : Rings) (os0 os1 os2 : Answers) (attr0 attr1 attr2 : ChannelAttr)
    (ch ch0 ch1 : SharedChannel ring.R) (vc0 vc1 : VChannel)
    → is_positive os0.shm_open_excl ≡ true
    → is_positive os1.shm_open_excl ≡ false
    → is_positive os2.shm_open_excl ≡ false
    → (connect ring os0 attr0 ch).made ≡ some (vc0, ch0)
    → (connect ring os1 attr1 ch0).made ≡ some (vc1, ch1)
    → (vc0.proc_id ≡ 0)
      × (vc1.proc_id ≡ 1)
      × ((connect ring os2 attr2 ch1).made ≡ none)
      × ((connect ring os2 attr2 ch1).ret ≡ minus_one)
two_processes ring os0 os1 os2 attr0 attr1 attr2 ch ch0 ch1 vc0 vc1 h0 h1 h2 e0 e1 =
    let (p0, c0) =
      made_fields (create ring os0 attr0) 0 attr0 (create-IsReply ring os0 attr0)
        (sym (ap (λ r. r.made) (by_create ring os0 attr0 ch h0)) ∙ e0) in
    let (p1, c1) =
      made_fields (attach ring os1 attr1 ch0) ch0.connected attr1
        (attach-IsReply ring os1 attr1 ch0 (omega arith))
        (sym (ap (λ r. r.made) (by_attach ring os1 attr1 ch0 h1)) ∙ e1) in
    let third = attach-full ring os2 attr2 ch1 (omega arith) (omega arith) in
    (
      p0,
      omega arith,
      ap (λ r. r.made) (by_attach ring os2 attr2 ch1 h2) ∙ third,
      ap (λ r. r.ret) (by_attach ring os2 attr2 ch1 h2)
          ∙ not_made (attach ring os2 attr2 ch1) ch1.connected attr2
              (attach-IsReply ring os2 attr2 ch1 (omega arith)) third,
    )

fresh_objs-length : (i n : ℕ) → length (fresh_objs i n) ≡ n
unfolding fresh_objs
fresh_objs-length i zero = refl
fresh_objs-length i (suc n) = ap suc (fresh_objs-length (i + 1) n)

fresh_objs-IsSlot : (i n : ℕ) → All IsSlot (fresh_objs i n)
unfolding fresh_objs
fresh_objs-IsSlot i zero = tt
fresh_objs-IsSlot i (suc n) = (
  record { room = length-replicate {A = ℕ} 1500 0; sized = omega arith },
  fresh_objs-IsSlot (i + 1) n,
)

-- The region that the first process makes is an empty stream in both directions.
pub fresh_channel-IsStream :
    (ring : Rings) (buf slots : ℕ) (r : ring.R) (receiver : ℕ)
    → ring.init slots ≡ some r
    → 0 < slots
    → receiver ≤ 1
    → IsStream ring (fresh_channel ring buf slots r r) receiver r 0 0
unfolding fresh_channel span
fresh_channel-IsStream ring buf slots r receiver h k l = record {
  slots = fresh_objs-IsSlot 0 (2 * slots);
  count = fresh_objs-length 0 (2 * slots);
  start_lt = omega arith;
  fits = omega arith;
  ring_fits = omega (arith, ring.slots-init slots r h);
  top = omega arith;
  ring_of = ground arith;
  queued = ring.contents-init slots r h;
  full = tt;
}
