-- ===== src/Channel.antt =====
-- src/vchannel.h and src/vchannel.c: the channel in shared memory over which the Servant runtime
-- hands packets to an application. Here its data and `vc_tx_msg`, `vc_rx_msg`, `vc_count_msg`; the
-- rings (src/llring.h, another project's code) are the parameter `Ring` of Channel/Ring.antt.
pub mod Ring
pub mod Connect
pub mod Layout
pub mod Span
pub mod Stream
pub mod Send
pub mod Receive
pub mod Overwrite
pub mod Session
pub mod Link
pub mod ListRing
mod Tests
use servant.Prelude.{
  ℕ, suc, ◌+◌, ◌-◌, ◌*◌, ◌%◌, ◌^◌, Bool, not, ◌||◌, Option, none, some, List, [], ◌∷◌, ltb, leb,
  ◌==◌, if◌then◌else◌, length, set, take, memcpy, Outcome, returns, undefined, ◌>>=◌, ◌>>◌, assert,
  require, at,
}
use servant.Prelude.Int.{ℤ, pos, minus_one}
use Ring.{Rings}

abbrev pub max_shared_obj_size : ℕ
max_shared_obj_size = 1500

abbrev pub count_rings : ℕ
count_rings = 2

-- `struct _interpose_msg`; `contents` is the array `data`.
pub record Msg : Type 0 where
  pub contents : List ℕ
  pub size : ℕ
  pub index : ℕ
  pub valid : ℕ

-- `struct _shared_channel` (`connected` is the 32 bits of an `int`): its pointers `rings` and `shared_objs` as the addresses `rings_at` and
-- `shared_objs_at`, and what they lead to.
pub record SharedChannel (R : Type 0) : Type 0 where
  pub master_virt_addr : ℕ
  pub region_size : ℕ
  pub connected : ℕ
  pub ring_size : ℕ
  pub rings_at : List ℕ
  pub rings : List R
  pub count_elements : ℕ
  pub ring_top : ℕ
  pub shared_objs_at : ℕ
  pub shared_objs : List Msg

-- `struct vchannel`: `ch` is the address of the shared channel, which is passed beside it.
pub record VChannel : Type 0 where
  pub name : List ℕ
  pub proc_id : ℕ
  pub ch : ℕ

-- The message that `vc_tx_msg` leaves in its slot.
pub fill_msg : Msg → ℕ → List ℕ → ℕ → Msg
fill_msg msg index buf size = record {
  contents = memcpy msg.contents buf size;
  size = size;
  index = index;
  valid = 1;
}

-- `msg->valid = 0; msg->size = 0;`
pub clear_msg : Msg → Msg
clear_msg msg = record msg { size = 0; valid = 0 }

-- What `vc_rx_msg` does with the slot that it took from its ring: the bytes copied to `buf`, the
-- length returned, and the slots. A copy behind the end of `buf` is undefined.
pub take_msg : List Msg → ℕ → List ℕ → ℕ → Outcome (ℕ × List ℕ × List Msg)
unfolding clear_msg
take_msg objs index buf size = do
  msg ← at objs index
  let len = if ltb msg.size size then msg.size else size
  require (msg.valid == 0 || leb len (length buf))
  returns (
      if msg.valid == 0
      then (0, buf, objs)
      else (len, memcpy buf msg.contents len, set objs index (clear_msg msg)))

module _ (ring : Rings) where
  -- The new ring table, and the bits that `llring_sp_enqueue_burst` returned.
  pub put_index : List ring.R → ℕ → ℕ → Outcome (List ring.R × ℕ)
  put_index rings i index = do
    r ← at rings i
    let out = ring.sp_enqueue_burst r index
    returns (set rings i out.0, out.1)

  -- `vc_tx_msg`. A proc_id above 1 makes `other` negative, and the ring's address undefined.
  pub tx_msg : VChannel → List ℕ → ℕ → SharedChannel ring.R → Outcome (ℤ × SharedChannel ring.R)
  unfolding put_index fill_msg
  tx_msg vc buf size ch = do
    assert (ltb size max_shared_obj_size)
    require (leb vc.proc_id 1)
    let other = 1 - vc.proc_id
    let index = ch.ring_top
    require (ltb 0 ch.count_elements)
    let top = (index + 1) % ch.count_elements
    msg ← at ch.shared_objs index
    let objs = set ch.shared_objs index (fill_msg msg index buf size)
    queued ← put_index ch.rings other index
    let ch' = record ch { ring_top = top; shared_objs = objs; rings = queued.0 }
    let ret = queued.1 % 2 ^ 31
    returns (if ltb ret 1 then minus_one else pos 0, ch')

  -- `vc_rx_msg`: the length, the caller's buffer, the channel.
  pub rx_msg :
      VChannel → List ℕ → ℕ → SharedChannel ring.R → Outcome (ℕ × List ℕ × SharedChannel ring.R)
  unfolding take_msg
  rx_msg vc buf size ch = do
    r ← at ch.rings vc.proc_id
    let out = ring.sc_dequeue_burst r
    let ch1 = record ch { rings = set ch.rings vc.proc_id out.0 }
    elim out.1 [
      | none ↦ returns (0, buf, ch1)
      | some index ↦ do
        got ← take_msg ch1.shared_objs index buf size
        returns (got.0, got.1, record ch1 { shared_objs = got.2 })
    ]

  -- `vc_count_msg`.
  pub count_msg : VChannel → SharedChannel ring.R → Outcome ℕ
  count_msg vc ch = do r ← at ch.rings vc.proc_id; returns (ring.count r)
