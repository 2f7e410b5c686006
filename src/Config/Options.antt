-- ===== src/Config/Options.antt =====
-- What the options of a command line make of the configuration.
use servant.Prelude.Text.{atoi}
use servant.Prelude.{
  List, ℕ, ◌∷◌, [], ◌≡◌, All, length, ◌++◌, ◌+◌, ◌≤◌, returns, sym, append-nil, lt→ltb,
  length-append, ◌<◌, arith, ap, undefined, dec_lt, ◌∙◌, ge→ltb, ◌*◌, refl, append_assoc, ◌%◌, ◌^◌,
  ap₂, ltb, true,
}
use servant.Config.{
  Config, Opt, to_uint32, apply_opt, apply_opts, defaults, with_args, parse_args, opt_help,
  opt_no_jit, opt_copy_mode, opt_skb_mode, opt_busypoll, opt_packet_injection, opt_unknown,
  opt_num_frames, opt_frame_size, opt_batch_size, opt_rx_size, opt_tx_size, opt_xdp_prog, opt_uth,
  opt_map_name, opt_core,
}

-- Neither `--help` nor an unknown option.
abbrev pub IsSetting : Opt → Type 0
IsSetting opt_help = ⊥
IsSetting opt_unknown = ⊥
IsSetting o = Unit

-- The arguments of `--map`.
abbrev map_arg : Opt → List (List ℕ)
map_arg (opt_map_name arg) = arg ∷ []
map_arg o = []

unfoldable pub maps_of : List Opt → List (List ℕ)
maps_of [] = []
maps_of (o ∷ os) = map_arg o ++ maps_of os

-- The last argument of `--rx-size`, and of `--tx-size`.
unfoldable pub rx_after : Opt → ℕ → ℕ
unfolding to_uint32
rx_after (opt_rx_size arg) d = to_uint32 (atoi arg)
rx_after o d = d

unfoldable pub last_rx : List Opt → ℕ → ℕ
unfolding rx_after
last_rx [] d = d
last_rx (o ∷ os) d = last_rx os (rx_after o d)

unfoldable pub tx_after : Opt → ℕ → ℕ
unfolding to_uint32
tx_after (opt_tx_size arg) d = to_uint32 (atoi arg)
tx_after o d = d

unfoldable pub last_tx : List Opt → ℕ → ℕ
unfolding tx_after
last_tx [] d = d
last_tx (o ∷ os) d = last_tx os (tx_after o d)

module _ (log2 : ℕ → ℕ) where
  -- What an option does to the fields that the theorems are about.
  apply_opt-IsSetting :
      (o : Opt) (c : Config)
      → IsSetting o
      → length c.maps + length (map_arg o) ≤ 10
      → (c' : Config) × (apply_opt log2 o c ≡ returns c')
        × ((c'.maps ≡ c.maps ++ map_arg o)
            × (c'.rx_size ≡ rx_after o c.rx_size)
            × (c'.tx_size ≡ tx_after o c.tx_size))
  unfolding apply_opt rx_after tx_after
  apply_opt-IsSetting opt_help c s h = absurd s
  apply_opt-IsSetting opt_unknown c s h = absurd s
  apply_opt-IsSetting opt_no_jit c s h = (_, refl, (sym (append-nil _), refl, refl))
  apply_opt-IsSetting opt_copy_mode c s h = (_, refl, (sym (append-nil _), refl, refl))
  apply_opt-IsSetting opt_skb_mode c s h = (_, refl, (sym (append-nil _), refl, refl))
  apply_opt-IsSetting opt_busypoll c s h = (_, refl, (sym (append-nil _), refl, refl))
  apply_opt-IsSetting opt_packet_injection c s h = (_, refl, (sym (append-nil _), refl, refl))
  apply_opt-IsSetting (opt_num_frames arg) c s h = (_, refl, (sym (append-nil _), refl, refl))
  apply_opt-IsSetting (opt_frame_size arg) c s h = (_, refl, (sym (append-nil _), refl, refl))
  apply_opt-IsSetting (opt_batch_size arg) c s h = (_, refl, (sym (append-nil _), refl, refl))
  apply_opt-IsSetting (opt_rx_size arg) c s h = (_, refl, (sym (append-nil _), refl, refl))
  apply_opt-IsSetting (opt_tx_size arg) c s h = (_, refl, (sym (append-nil _), refl, refl))
  apply_opt-IsSetting (opt_xdp_prog arg) c s h = (_, refl, (sym (append-nil _), refl, refl))
  apply_opt-IsSetting (opt_uth arg) c s h = (_, refl, (sym (append-nil _), refl, refl))
  apply_opt-IsSetting (opt_core arg) c s h = (_, refl, (sym (append-nil _), refl, refl))
  apply_opt-IsSetting (opt_map_name arg) c s h =
      let bound : ltb (length c.maps) 10 ≡ true = lt→ltb (length c.maps) 10 (omega arith) in
      (record c { maps = c.maps ++ arg ∷ [] }, rw bound refl, (refl, refl, refl))

  apply_opts-IsSetting :
      (os : List Opt) (c : Config)
      → All IsSetting os
      → length c.maps + length (maps_of os) ≤ 10
      → (c' : Config) × (apply_opts log2 os c ≡ returns c')
        × ((c'.maps ≡ c.maps ++ maps_of os)
            × (c'.rx_size ≡ last_rx os c.rx_size)
            × (c'.tx_size ≡ last_tx os c.tx_size))
  unfolding apply_opts maps_of last_rx last_tx
  apply_opts-IsSetting [] c s h = (c, refl, (sym (append-nil _), refl, refl))
  apply_opts-IsSetting (o ∷ os) c s h =
      let len = length-append (map_arg o) (maps_of os) in
      let (c1, e1, sets) = apply_opt-IsSetting o c s.0 (omega (arith, len)) in
      let (m1, r1, t1) = sets in
      let (c2, e2, sets2) =
        apply_opts-IsSetting os c1 s.1
          (omega (arith, len, ap length m1, length-append c.maps (map_arg o))) in
      let (m2, r2, t2) = sets2 in
      (
        c2,
        rw (e1, e2) refl,
        (
          m2 ∙ ap (λ l. l ++ maps_of os) m1 ∙ append_assoc c.maps (map_arg o) (maps_of os),
          r2 ∙ ap (last_rx os) r1,
          t2 ∙ ap (last_tx os) t1,
        ),
      )

  -- One `--map` too many.
  apply_opt_full :
      (o : Opt) (c : Config)
      → IsSetting o
      → length c.maps ≤ 10
      → 10 < length c.maps + length (map_arg o)
      → apply_opt log2 o c ≡ undefined
  unfolding apply_opt
  apply_opt_full (opt_map_name arg) c s h k = rw (ge→ltb (length c.maps) 10 (omega arith)) refl
  apply_opt_full o c s h k = absurd (omega arith)

  apply_opts_full :
      (os : List Opt) (c : Config)
      → All IsSetting os
      → length c.maps ≤ 10
      → 10 < length c.maps + length (maps_of os)
      → apply_opts log2 os c ≡ undefined
  unfolding apply_opts maps_of
  apply_opts_full [] c s h k = absurd (omega arith)
  apply_opts_full (o ∷ os) c s h k = elim (dec_lt 10 (length c.maps + length (map_arg o))) [
    | yes full ↦ rw (apply_opt_full o c s.0 h full) refl
    | no fits ↦
        let (c1, e1, sets) = apply_opt-IsSetting o c s.0 (omega arith) in
        let (m1, r1, t1) = sets in
        let len1 : length c1.maps ≡ length c.maps + length (map_arg o) =
          ap length m1 ∙ length-append c.maps (map_arg o) in
        rw e1 (
          apply_opts_full os c1 s.1 (omega arith)
            (omega (arith, length-append (map_arg o) (maps_of os))))
  ]

  -- With options other than `--help` that are known, at most ten `--map` and three arguments,
  -- `parse_args` returns the maps in the order of the options, the last sizes of the rings or 512, eight
  -- frames for each of their entries, the interface with whatever index `if_nametoindex` gives, 0 for
  -- an interface that does not exist included, the queue and the program.
  pub parse_args-sizes :
      (if_nametoindex : List ℕ → ℕ) (opts : List Opt) (ifname qid path : List ℕ)
      (rest : List (List ℕ))
      → All IsSetting opts
      → length (maps_of opts) ≤ 10
      → (c : Config) × (parse_args log2 if_nametoindex opts (ifname ∷ qid ∷ path ∷ rest)
          ≡ returns c)
        × (c.maps ≡ maps_of opts)
        × (c.rx_size ≡ last_rx opts 512)
        × (c.tx_size ≡ last_tx opts 512)
        × (c.num_frames ≡ (last_rx opts 512 + last_tx opts 512) * 8 % 2 ^ 32)
        × (c.ifname ≡ ifname)
        × (c.ifindex ≡ if_nametoindex ifname % 2 ^ 32)
        × (c.qid ≡ to_uint32 (atoi qid))
        × (c.ebpf_program_path ≡ path)
  unfolding parse_args defaults with_args
  parse_args-sizes if_nametoindex opts ifname qid path rest s h =
      let (c, e, sets) = apply_opts-IsSetting opts (defaults log2) s (omega arith) in
      let (m, r, t) = sets in
      (
        with_args log2 if_nametoindex ifname qid path c,
        rw e refl,
        m,
        r,
        t,
        ap₂ (λ a b. (a + b) % 2 ^ 32 * 8 % 2 ^ 32) r t ∙ omega arith,
        refl,
        refl,
        refl,
        refl,
      )

  -- With more than ten, `parse_args` writes behind the array that it allocated.
  pub parse_args-overflow :
      (if_nametoindex : List ℕ → ℕ) (opts : List Opt) (args : List (List ℕ))
      → All IsSetting opts
      → 10 < length (maps_of opts)
      → parse_args log2 if_nametoindex opts args ≡ undefined
  unfolding parse_args defaults
  parse_args-overflow if_nametoindex opts args s h =
      rw (apply_opts_full opts (defaults log2) s (omega arith) (omega arith)) refl
