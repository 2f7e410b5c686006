-- ===== src/UserMaps.antt =====
-- src/userspace_maps.c: what the runtime writes to the maps in user space of the program, before the
-- first packet. The maps are those of the library ubpf, the parameter `UbpfMaps`.
pub mod Katran
pub mod ListMaps
mod Tests
use servant.Prelude.{
  ℕ, List, Option, Outcome, aborted, ◌++◌, replicate, ◌>>=◌, ◌≢◌, ◌∷◌, ◌%◌, ◌>>◌, ◌≡◌, [], ◌/◌,
  returns, some, take, assert, none, ◌^◌,
}
use servant.Prelude.Int.{ℤ, pos, is_zero, word_bytes}

-- The maps of a machine. A map that `ubpf_select_map` finds is a number, and a key or a value is the
-- bytes at the pointer that is passed; `value_size` of them are the value.
pub record UbpfMaps : Type 1 where
  pub M : Type 0
  pub select_map : List ℕ → M → Option ℕ
  pub update_map : ℕ → List ℕ → List ℕ → M → ℤ × M
  pub lookup_map : ℕ → List ℕ → M → Option (List ℕ)
  pub value_size : ℕ → ℕ
  -- Maps of two names are two.
  pub select-ne :
      (m : M) (a b : List ℕ) {i j : ℕ}
      → a ≢ b
      → select_map a m ≡ some i
      → select_map b m ≡ some j
      → i ≢ j
  pub select-update :
      (m : M) (a : List ℕ) (i : ℕ) (key value : List ℕ)
      → select_map a (update_map i key value m).1 ≡ select_map a m
  -- An update that succeeds is what a lookup then finds, and no other map notices: it gives what it gave,
  -- and takes what it took.
  pub lookup-update :
      (m : M) (i : ℕ) (key value : List ℕ)
      → (update_map i key value m).0 ≡ pos 0
      → lookup_map i key (update_map i key value m).1 ≡ some (take (value_size i) value)
  pub lookup-other :
      (m : M) (i j : ℕ) (key value other : List ℕ)
      → i ≢ j
      → lookup_map j other (update_map i key value m).1 ≡ lookup_map j other m
  pub update-other :
      (m : M) (i j : ℕ) (key value key' value' : List ℕ)
      → i ≢ j
      → (update_map j key' value' (update_map i key value m).1).0 ≡ (update_map j key' value' m).0

abbrev pub vip_map_name : List ℕ
vip_map_name = b'v' ∷ b'i' ∷ b'p' ∷ b'_' ∷ b'm' ∷ b'a' ∷ b'p' ∷ []

abbrev pub ch_rings_name : List ℕ
ch_rings_name = b'c' ∷ b'h' ∷ b'_' ∷ b'r' ∷ b'i' ∷ b'n' ∷ b'g' ∷ b's' ∷ []

abbrev pub reals_name : List ℕ
reals_name = b'r' ∷ b'e' ∷ b'a' ∷ b'l' ∷ b's' ∷ []

-- `struct vip_definition`, with its byte of padding: 16 bytes of address, the port as it is sent, and
-- the protocol.
unfoldable pub vip_definition : List ℕ → ℕ → ℕ → List ℕ
vip_definition vip port proto =
    vip ++ replicate 12 0 ++ (port / 2 ^ 8 % 2 ^ 8 ∷ port % 2 ^ 8 ∷ proto % 2 ^ 8 ∷ 0 ∷ [])

-- `struct vip_meta`
unfoldable pub vip_meta : ℕ → ℕ → List ℕ
vip_meta flags vip_num = word_bytes flags ++ word_bytes vip_num

-- `struct real_definition`, with its three bytes of padding.
unfoldable pub real_definition : List ℕ → ℕ → List ℕ
real_definition dst flags = dst ++ replicate 12 0 ++ (flags % 2 ^ 8 ∷ 0 ∷ 0 ∷ 0 ∷ [])

-- What `inet_pton` makes of 192.168.1.1 and 192.168.1.2.
abbrev pub vip_address : List ℕ
vip_address = 192 ∷ 168 ∷ 1 ∷ 1 ∷ []

abbrev pub dst_address : List ℕ
dst_address = 192 ∷ 168 ∷ 1 ∷ 2 ∷ []

-- `uint64_t zero`
abbrev pub zero_bytes : List ℕ
zero_bytes = replicate 8 0

unfoldable pub vipdef : List ℕ
unfolding vip_definition
vipdef = vip_definition vip_address 8080 17

unfoldable pub vipmeta : List ℕ
unfolding vip_meta
vipmeta = vip_meta 0 0

unfoldable pub realdef : List ℕ
unfolding real_definition
realdef = real_definition dst_address 0

-- `assert(p != NULL)`
abbrev pub assert_found {ℓ} : {A : Type ℓ} → Option A → Outcome A
assert_found none = aborted
assert_found (some a) = returns a

module _ (u : UbpfMaps) where
  -- A map that must be there, and an update of it that must succeed.
  unfoldable pub put_in : List ℕ → List ℕ → List ℕ → u.M → Outcome (ℕ × u.M)
  put_in name key value m = do
    i ← assert_found (u.select_map name m)
    let out = u.update_map i key value m
    assert (is_zero out.0)
    returns (i, out.1)

  -- `__configure_katran_maps`
  unfoldable pub configure_katran_maps : u.M → Outcome u.M
  unfolding put_in
  configure_katran_maps m0 = do
    vip ← put_in vip_map_name vipdef vipmeta m0
    found ← assert_found (u.lookup_map vip.0 vipdef vip.1)
    rings ← put_in ch_rings_name zero_bytes zero_bytes vip.1
    reals ← put_in reals_name zero_bytes realdef rings.1
    returns reals.1

  -- `launch_userspace_maps_server`
  unfoldable pub launch_userspace_maps_server : u.M → Outcome (ℕ × u.M)
  unfolding configure_katran_maps
  launch_userspace_maps_server m = do m' ← configure_katran_maps m; returns (0, m')
