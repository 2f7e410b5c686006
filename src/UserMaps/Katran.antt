-- ===== src/UserMaps/Katran.antt =====
-- The maps of a program once src/userspace_maps.c has configured them.
use servant.Prelude.{
  ℕ, List, ◌≡◌, returns, some, ◌≢◌, ◌∙◌, take, refl, sym, arith, get_or, ap, none, aborted,
}
use servant.Prelude.Int.{pos}
use servant.UserMaps.{
  UbpfMaps, vip_map_name, ch_rings_name, reals_name, vipdef, vipmeta, realdef, zero_bytes, put_in,
  configure_katran_maps,
}

first : List ℕ → ℕ
first s = get_or s 0 0

vip≢rings : vip_map_name ≢ ch_rings_name
unfolding first
vip≢rings e = omega (arith, ap first e)

vip≢reals : vip_map_name ≢ reals_name
unfolding first
vip≢reals e = omega (arith, ap first e)

rings≢reals : ch_rings_name ≢ reals_name
unfolding first
rings≢reals e = omega (arith, ap first e)

module _ (u : UbpfMaps) where
  put_in_lem :
      (name key value : List ℕ) (m : u.M) (i : ℕ)
      → u.select_map name m ≡ some i
      → (u.update_map i key value m).0 ≡ pos 0
      → put_in u name key value m ≡ returns (i, (u.update_map i key value m).1)
  unfolding put_in
  put_in_lem name key value m i s e = rw (s, e) refl

  -- A lookup in the map of the name finds the value, as far as the map has room for it.
  abbrev pub Finds : List ℕ → List ℕ → List ℕ → u.M → Type 0
  Finds name key value m =
      (i : ℕ) × (u.select_map name m ≡ some i)
      × (u.lookup_map i key m ≡ some (take (u.value_size i) value))

  -- A map of the name is there and has room for the entry.
  abbrev pub Takes : List ℕ → List ℕ → List ℕ → u.M → Type 0
  Takes name key value m =
      (i : ℕ) × (u.select_map name m ≡ some i) × ((u.update_map i key value m).0 ≡ pos 0)

  -- An update of another map leaves what a lookup finds.
  Finds-update :
      (name key value : List ℕ) (m : u.M) (other : List ℕ) (j : ℕ) (key' value' : List ℕ)
      → name ≢ other
      → u.select_map other m ≡ some j
      → Finds name key value m
      → Finds name key value (u.update_map j key' value' m).1
  Finds-update name key value m other j key' value' ne s (i, f, l) = (
    i,
    u.select-update m name j key' value' ∙ f,
    u.lookup-other m j i key' value' key (λ e. u.select-ne m name other ne f s (sym e)) ∙ l,
  )

  -- What one update does.
  Finds-put :
      (name key value : List ℕ) (m : u.M) (i : ℕ)
      → u.select_map name m ≡ some i
      → (u.update_map i key value m).0 ≡ pos 0
      → Finds name key value (u.update_map i key value m).1
  Finds-put name key value m i s room =
      (i, u.select-update m name i key value ∙ s, u.lookup-update m i key value room)

  pub configure-Finds :
      (m : u.M)
      → Takes vip_map_name vipdef vipmeta m
      → Takes ch_rings_name zero_bytes zero_bytes m
      → Takes reals_name zero_bytes realdef m
      → (m' : u.M) × (configure_katran_maps u m ≡ returns m')
        × Finds vip_map_name vipdef vipmeta m'
        × Finds ch_rings_name zero_bytes zero_bytes m'
        × Finds reals_name zero_bytes realdef m'
  unfolding configure_katran_maps
  configure-Finds m (v, sv, rv) (c, sc, rc) (l, sl, rl) =
      let m1 : u.M = (u.update_map v vipdef vipmeta m).1 in
      let m2 : u.M = (u.update_map c zero_bytes zero_bytes m1).1 in
      let m3 : u.M = (u.update_map l zero_bytes realdef m2).1 in
      let sc1 : u.select_map ch_rings_name m1 ≡ some c =
        u.select-update m ch_rings_name v vipdef vipmeta ∙ sc in
      let sl1 : u.select_map reals_name m1 ≡ some l =
        u.select-update m reals_name v vipdef vipmeta ∙ sl in
      let sl2 : u.select_map reals_name m2 ≡ some l =
        u.select-update m1 reals_name c zero_bytes zero_bytes ∙ sl1 in
      let v≢c : v ≢ c = u.select-ne m vip_map_name ch_rings_name vip≢rings sv sc in
      let v≢l : v ≢ l = u.select-ne m vip_map_name reals_name vip≢reals sv sl in
      let c≢l : c ≢ l = u.select-ne m ch_rings_name reals_name rings≢reals sc sl in
      let rc1 : (u.update_map c zero_bytes zero_bytes m1).0 ≡ pos 0 =
        u.update-other m v c vipdef vipmeta zero_bytes zero_bytes v≢c ∙ rc in
      let rl2 : (u.update_map l zero_bytes realdef m2).0 ≡ pos 0 =
        u.update-other m1 c l zero_bytes zero_bytes zero_bytes realdef c≢l
        ∙ u.update-other m v l vipdef vipmeta zero_bytes realdef v≢l
        ∙ rl in
      let run : configure_katran_maps u m ≡ returns m3 =
        rw
          (
            configure_katran_maps,
            put_in_lem vip_map_name vipdef vipmeta m v sv rv,
            u.lookup-update m v vipdef vipmeta rv,
            put_in_lem ch_rings_name zero_bytes zero_bytes m1 c sc1 rc1,
            put_in_lem reals_name zero_bytes realdef m2 l sl2 rl2,
          )
          refl in
      (
        m3,
        run,
        Finds-update vip_map_name vipdef vipmeta m2 reals_name l zero_bytes realdef vip≢reals sl2 (
            Finds-update vip_map_name vipdef vipmeta m1 ch_rings_name c zero_bytes zero_bytes
              vip≢rings sc1 (Finds-put vip_map_name vipdef vipmeta m v sv rv)),
        Finds-update ch_rings_name zero_bytes zero_bytes m2 reals_name l zero_bytes realdef
            rings≢reals sl2 (Finds-put ch_rings_name zero_bytes zero_bytes m1 c sc1 rc1),
        Finds-put reals_name zero_bytes realdef m2 l sl2 rl2,
      )

  -- Without the first map the process ends.
  pub configure-aborts :
      (m : u.M) → u.select_map vip_map_name m ≡ none → configure_katran_maps u m ≡ aborted
  unfolding configure_katran_maps put_in
  configure-aborts m e = rw e refl
