-- ===== src/Channel/Connect.antt =====
-- `connect_shared_channel` and `disconnect` of src/vchannel.c. What the operating system answers is
-- an argument of each call, and the calls that change what it holds are listed in order.
pub mod Handshake
pub mod Linked
use servant.Prelude.{
  ℕ, zero, suc, ◌+◌, ◌-◌, ◌*◌, ◌/◌, ◌%◌, ◌^◌, Bool, false, not, ◌&&◌, Option, none, some, List, [],
  ◌∷◌, ltb, leb, ◌==◌, if◌then◌else◌, replicate,
}
use servant.Prelude.Int.{is_zero, is_positive, ℤ, pos, negsuc, minus_one, is_negative}
use servant.Channel.{Msg, SharedChannel, VChannel, count_rings}
use servant.Channel.Ring.{Rings}

-- `size_t` arithmetic.
abbrev pub size_t : ℕ → ℕ
size_t x = x % 2 ^ 64

-- The macro ROUND_TO_64.
abbrev pub round_to_64 : ℕ → ℕ
round_to_64 x = size_t (x + 64) / 64 * 64

-- `sizeof(struct _shared_channel)`: 16 bytes of numbers, two `int`s, two pointers, a `size_t`, an
-- `int` and its padding, a pointer.
abbrev pub sizeof_channel : ℕ
sizeof_channel = 64

-- `sizeof(struct _interpose_msg)`: 1512 bytes, rounded up by `aligned(64)`.
abbrev pub sizeof_msg : ℕ
sizeof_msg = 1536

-- `struct channel_attr`
pub record ChannelAttr : Type 0 where
  pub name : List ℕ
  pub ring_size : ℕ

pub data OsCall : Type 0 where
  shm_unlink : OsCall
  munmap : ℕ → ℕ → OsCall

-- The answers of the system to the calls of one `connect_shared_channel`.
pub record Answers : Type 0 where
  pub shm_open_excl : ℤ
  pub shm_open : ℤ
  pub ftruncate : ℤ
  -- The `st_size` that `fstat` reads; none is its failure.
  pub fstat : Option ℕ
  -- The address that `mmap(NULL, …)` chose; none is MAP_FAILED.
  pub mmap : Option ℕ
  pub munmap_ret : ℤ
  -- `mmap` with the address wanted as a hint.
  pub mmap_at : ℕ → Option ℕ

pub record Reply (R : Type 0) : Type 0 where
  pub ret : ℤ
  pub calls : List OsCall
  -- The descriptor filled and the shared channel as it is left.
  pub made : Option (VChannel × SharedChannel R)

abbrev pub failed : {R : Type 0} → List OsCall → Reply R
failed calls = record { ret = minus_one; calls = calls; made = none }

-- `ch->connected >= COUNT_RINGS` on the 32 bits of an `int`.
abbrev at_least_two : ℕ → Bool
at_least_two c = leb count_rings c && ltb c (2 ^ 31)

-- The slots as the creator initialises them: `ch->shared_objs[i].index = i`. The region is zero.
unfoldable pub fresh_objs : ℕ → ℕ → List Msg
fresh_objs i zero = []
fresh_objs i (suc n) =
    record { contents = replicate 1500 0; size = 0; index = i; valid = 0 } ∷ fresh_objs (i + 1) n

-- The last lines of the function: `vc` is filled and `connected` counts it.
unfoldable pub register : {R : Type 0} → ChannelAttr → ℕ → List OsCall → SharedChannel R → Reply R
register attr buf calls ch = record {
  ret = pos 0;
  calls = calls;
  made = some (
    record { name = attr.name; proc_id = ch.connected; ch = buf },
    record ch { connected = (ch.connected + 1) % 2 ^ 32 },
  );
}

module _ (ring : Rings) where
  -- Size of a ring in bytes.
  abbrev pub ring_bytes : ℕ → ℕ
  ring_bytes slots = round_to_64 (ring.bytes_with_slots slots)

  abbrev pub objs_bytes : ℕ → ℕ
  objs_bytes slots = round_to_64 (size_t (count_rings * slots * sizeof_msg))

  abbrev pub shared_region_size : ℕ → ℕ
  shared_region_size slots =
      size_t (sizeof_channel + count_rings * ring_bytes slots + objs_bytes slots)

  abbrev pub ring_at : ℕ → ℕ → ℕ → ℕ
  ring_at buf slots i = size_t (buf + sizeof_channel + i * ring_bytes slots)

  abbrev pub objs_at : ℕ → ℕ → ℕ
  objs_at buf slots = size_t (buf + sizeof_channel + count_rings * ring_bytes slots)

  -- The region that the first process lays out, once both rings are initialised.
  unfoldable pub fresh_channel : ℕ → ℕ → ring.R → ring.R → SharedChannel ring.R
  unfolding fresh_objs
  fresh_channel buf slots r0 r1 = record {
    master_virt_addr = buf;
    region_size = shared_region_size slots;
    connected = 0;
    ring_size = slots;
    rings_at = ring_at buf slots 0 ∷ ring_at buf slots 1 ∷ [];
    rings = r0 ∷ r1 ∷ [];
    count_elements = count_rings * slots;
    ring_top = 0;
    shared_objs_at = objs_at buf slots;
    shared_objs = fresh_objs 0 (count_rings * slots);
  }

  -- `for (i = 0; i < 2; i++) llring_init(…)`, and the rest of the branch of the creator.
  unfoldable pub init_region : ChannelAttr → ℕ → Reply ring.R
  unfolding fresh_channel register
  init_region attr buf =
      let undo = munmap buf (shared_region_size attr.ring_size) ∷ shm_unlink ∷ [] in
      elim (ring.init attr.ring_size) [
        | none ↦ failed undo
        | some r0 ↦ elim (ring.init attr.ring_size) [
          | none ↦ failed undo
          | some r1 ↦ register attr buf [] (fresh_channel buf attr.ring_size r0 r1)
        ]
      ]

  unfoldable pub create : Answers → ChannelAttr → Reply ring.R
  unfolding init_region
  create os attr =
      if not (is_zero os.ftruncate)
      then failed (shm_unlink ∷ [])
      else elim os.mmap [ none ↦ failed (shm_unlink ∷ []) | some buf ↦ init_region attr buf ]

  -- The second mapping, when the first is not at the creator's address.
  unfoldable pub remap : Answers → ChannelAttr → ℕ → SharedChannel ring.R → Reply ring.R
  unfolding register
  remap os attr buf ch =
      let drop = munmap buf (shared_region_size attr.ring_size) ∷ [] in
      if buf == ch.master_virt_addr
      then register attr buf [] ch
      else if not (is_zero os.munmap_ret)
      then failed (munmap buf (shared_region_size attr.ring_size) ∷ shm_unlink ∷ [])
      else elim (os.mmap_at ch.master_virt_addr) [
        | none ↦ failed (munmap buf (shared_region_size attr.ring_size) ∷ shm_unlink ∷ [])
        | some at ↦ register attr at drop ch
      ]

  -- The branch of a process that finds the region `ch` made.
  unfoldable pub attach : Answers → ChannelAttr → SharedChannel ring.R → Reply ring.R
  unfolding remap
  attach os attr ch = if is_negative os.shm_open then failed [] else elim os.fstat [
    | none ↦ failed (shm_unlink ∷ [])
    | some size ↦
        if ltb size (shared_region_size attr.ring_size)
        then failed (shm_unlink ∷ [])
        else elim os.mmap [
          | none ↦ failed (shm_unlink ∷ [])
          | some buf ↦
              if at_least_two ch.connected
              then failed (munmap buf (shared_region_size attr.ring_size) ∷ shm_unlink ∷ [])
              else remap os attr buf ch
        ]
  ]

  -- `connect_shared_channel`; `ch` is what the region of that name holds, where there is one.
  unfoldable pub connect : Answers → ChannelAttr → SharedChannel ring.R → Reply ring.R
  connect os attr ch = if is_positive os.shm_open_excl then create os attr else attach os attr ch

  -- `disconnect` of the descriptor that stands at the address `self`: its field `ch` is 16 bytes in.
  unfoldable pub disconnect : ℕ → SharedChannel ring.R → List OsCall × SharedChannel ring.R
  disconnect self ch =
      let ch' = record ch { connected = (ch.connected + (2 ^ 32 - 1)) % 2 ^ 32 } in
      (shm_unlink ∷ munmap (self + 16) ch'.region_size ∷ [], ch')
