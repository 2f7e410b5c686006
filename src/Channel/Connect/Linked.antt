-- ===== src/Channel/Connect/Linked.antt =====
-- The region that two processes share once both are connected.
use servant.Prelude.Int.{is_zero, is_positive}
use servant.Prelude.{
  true, false, ℕ, some, inl, inr, Bool-cases, Option-cases, ◌≡◌, ◌<◌, ◌≤◌, ◌+◌, ◌%◌, ◌^◌, sym, ap,
  subst, ◌∙◌, arith,
}
use servant.Channel.{SharedChannel, VChannel}
use servant.Channel.Connect.{
  ChannelAttr, Answers, register, fresh_channel, init_region, create, remap, attach, connect,
}
use servant.Channel.Connect.Handshake.{
  by_create, by_attach, create-IsReply, attach-IsReply, made_fields, fresh_channel-IsStream,
}
use servant.Channel.Ring.{Rings}
use servant.Channel.Stream.{IsStream}

module _ (ring : Rings) where
  -- The same region with another count of processes.
  abbrev pub counted : ℕ → SharedChannel ring.R → SharedChannel ring.R
  counted n ch = record ch { connected = n }

  counted-IsStream :
      (k : ℕ) (ch : SharedChannel ring.R) (receiver : ℕ) (r : ring.R) (start n : ℕ)
      → IsStream ring ch receiver r start n
      → IsStream ring (counted k ch) receiver r start n
  counted-IsStream k ch receiver r start n s = record {
    slots = s.slots;
    count = s.count;
    start_lt = s.start_lt;
    fits = s.fits;
    ring_fits = s.ring_fits;
    top = s.top;
    ring_of = s.ring_of;
    queued = s.queued;
    full = s.full;
  }

  -- What the creator makes.
  create-fresh :
      (os : Answers) (attr : ChannelAttr) (vc : VChannel) (ch : SharedChannel ring.R)
      → (create ring os attr).made ≡ some (vc, ch)
      → (buf : ℕ) × (r : ring.R) × (ring.init attr.ring_size ≡ some r)
        × (ch ≡ counted 1 (fresh_channel ring buf attr.ring_size r r))
  unfolding create init_region register
  create-fresh os attr vc ch e = elim (Bool-cases (is_zero os.ftruncate)) [
    | inr bad ↦ ground (arith, bad, e)
    | inl ok ↦ elim (Option-cases os.mmap) [
      | inl missing ↦ ground (arith, ok, missing, e)
      | inr (buf, at) ↦ elim (Option-cases (ring.init attr.ring_size)) [
        | inl missing ↦ ground (arith, ok, at, missing, e)
        | inr (r, init) ↦ (buf, r, init, ground (arith, ok, at, init, e))
      ]
    ]
  ]

  -- What a process that attaches leaves.
  attach-counted :
      (os : Answers) (attr : ChannelAttr) (ch : SharedChannel ring.R) (vc : VChannel)
      (ch' : SharedChannel ring.R)
      → (attach ring os attr ch).made ≡ some (vc, ch')
      → ch' ≡ counted ((ch.connected + 1) % 2 ^ 32) ch
  unfolding attach remap register
  attach-counted os attr ch vc ch' e = ground arith

  -- A region is made by one process and then attached to by another: they are 0 and 1, and over the region
  -- as they then share it nothing is under way in either direction, with rings of the size that the
  -- first asked for.
  pub connect-IsStream :
      (os0 os1 : Answers) (attr0 attr1 : ChannelAttr) (ch ch0 ch1 : SharedChannel ring.R)
      (vc0 vc1 : VChannel)
      → 0 < attr0.ring_size
      → is_positive os0.shm_open_excl ≡ true
      → is_positive os1.shm_open_excl ≡ false
      → (connect ring os0 attr0 ch).made ≡ some (vc0, ch0)
      → (connect ring os1 attr1 ch0).made ≡ some (vc1, ch1)
      → (vc0.proc_id ≡ 0)
        × (vc1.proc_id ≡ 1)
        × (r : ring.R) × (ring.slots r ≡ attr0.ring_size)
        × ((receiver : ℕ) → receiver ≤ 1 → IsStream ring ch1 receiver r 0 0)
  connect-IsStream os0 os1 attr0 attr1 ch ch0 ch1 vc0 vc1 some_slots h0 h1 e0 e1 =
      let c0 = sym (ap (λ r. r.made) (by_create ring os0 attr0 ch h0)) ∙ e0 in
      let c1 = sym (ap (λ r. r.made) (by_attach ring os1 attr1 ch0 h1)) ∙ e1 in
      let (p0, n0) =
        made_fields (create ring os0 attr0) 0 attr0 (create-IsReply ring os0 attr0) c0 in
      let (p1, n1) =
        made_fields (attach ring os1 attr1 ch0) ch0.connected attr1
          (attach-IsReply ring os1 attr1 ch0 (omega arith)) c1 in
      let (buf, r, init, fresh) = create-fresh os0 attr0 vc0 ch0 c0 in
      (
        p0,
        omega arith,
        r,
        ring.slots-init attr0.ring_size r init,
        λ receiver l.
            subst (λ c. IsStream ring c receiver r 0 0)
              (sym (
                attach-counted os1 attr1 ch0 vc1 ch1 c1
                ∙ ap (counted ((ch0.connected + 1) % 2 ^ 32)) fresh))
              (counted-IsStream _ _ receiver r 0 0
                (fresh_channel-IsStream ring buf attr0.ring_size r receiver init some_slots l)),
      )
