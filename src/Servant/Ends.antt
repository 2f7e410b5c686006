-- ===== src/Servant/Ends.antt =====
-- How `main` of src/servant.c ends, and what it leaves.
use servant.Prelude.{
  ℕ, ◌≡◌, List, Option, Bool, [], some, ◌∷◌, returns, ◌⊎◌, inr, inl, false, Bool-cases, ltb, length,
  ◌&&◌, not, none, refl, >>=-returns, sym, true, ap, arith, ◌>>=◌, ◌∙◌, returns-injective, subst,
  if-split, ◌==◌, or_undefined, ==→eq, eq→==,
}
use servant.Prelude.Int.{to_int, pos, is_zero, is_negative}
use servant.Config.{Config, parse_args}
use servant.Heart.{XskRings, Socket}
use servant.Brain.{EngineHost, code_buffer, virtual_machine, max_code_size, is_elf}
use servant.Brain.Engine.{open_file, engine_outcome, padded, setup_ubpf_engine-ends}
use servant.Maps.{no_maps}
use servant.Maps.Setup.{setup_map_system}
use servant.Sockets.{
  setup_socket, set_options, populate, double_size, umem_size, umem_config, socket_config,
  socket_resources, exit_unless, is_some, enter_xsks_into_map,
}
use servant.Sockets.Fill.{tear_down_socket_lem}
use servant.Servant.{Host, Ending, Closed, channel_of, has_xdp, requests}
use servant.UserMaps.{launch_userspace_maps_server}
use servant.Servant.Main.{
  attach, pump, tear_down_passing, set_up_passing, main, start, run_engine, start_engine, serve,
  teardown, affinity_fails, ended,
}

-- What the engine may leave: nothing, or the buffer of the code if no machine could be created.
abbrev pub EngineLeft : EngineHost → List servant.Brain.Resource → Type 0
EngineLeft host held = (held ≡ []) ⊎ ((held ≡ code_buffer ∷ []) × (host.create ≡ false))

abbrev pub Leaves : EngineHost → Ending → Type 0
Leaves host e = (e.sockets ≡ []) × EngineLeft host e.engine

-- After an engine that was set up the machine is left, and after another one what `EngineLeft` says.
abbrev Prepared : EngineHost → ℕ × Option servant.Brain.Vm × List servant.Brain.Resource → Type 0
Prepared host o = ((o.0 ≡ 0) × (o.2 ≡ virtual_machine ∷ [])) ⊎ ((o.0 ≡ 1) × EngineLeft host o.2)

engine_outcome-Prepared :
    (maxlen : ℕ) (host : EngineHost) (file : Option (List ℕ × Bool))
    → Prepared host (engine_outcome maxlen host file [])
engine_outcome-Prepared maxlen host none = inr (refl, inl refl)
engine_outcome-Prepared maxlen host (some f) =
    elim (Bool-cases (ltb (length f.0) maxlen && not f.1)) [
      | inr h ↦ rw h (inr (refl, inl refl))
      | inl h ↦ elim (Bool-cases host.create) [
        | inr c ↦ rw (h, c) (inr (refl, inr (refl, refl)))
        | inl c ↦
            elim (Bool-cases (
              is_negative (
                host.load (is_elf (padded maxlen f.0) (length f.0)) (padded maxlen f.0)
                  (length f.0)))) [
                    | inl n ↦ rw (h, c, n) (inr (refl, inl refl))
                    | inr n ↦ rw (h, c, n) (inl (refl, refl))
                  ]
      ]
    ]

module _ (r : XskRings) (host : Host r) where
  -- The ending of a teardown.
  abbrev left : Config → Bool → List servant.Brain.Resource → Option Closed → Ending
  left config attached engine closed = record {
    status = pos 0;
    sockets = [];
    engine = engine;
    closed = closed;
    attached = attached;
    unlinked = has_xdp config;
  }

  teardown-returns :
      (config : Config) (attached : Bool) (xsk : Socket r) (engine : List servant.Brain.Resource)
      (closed : Option Closed) {e : Ending}
      → teardown r host config attached (some xsk) (socket_resources config) engine closed
        ≡ returns e
      → (e.sockets ≡ []) × (e.engine ≡ engine)
  unfolding teardown
  teardown-returns config attached xsk engine closed {e = e} h =
      let done : returns (left config attached engine closed) ≡ returns e =
        sym (
          ap
            (λ o. o >>= λ held.
              returns (record (left config attached engine closed) { sockets = held }))
            (tear_down_socket_lem r config xsk))
        ∙ h in
      let same : left config attached engine closed ≡ e = returns-injective done in
      (ap (λ x. x.sockets) (sym same), ap (λ x. x.engine) (sym same))

  serve-returns :
      (config : Config) (attached : Bool) (vm : servant.Brain.Vm)
      (passing : servant.Servant.Passing host.ring.R) (xsk : Socket r) {e : Ending}
      → serve r host config attached vm (virtual_machine ∷ []) passing xsk (socket_resources config)
        ≡ returns e
      → (e.sockets ≡ []) × (e.engine ≡ [])
  unfolding serve
  serve-returns config attached vm passing xsk h =
      let (configured, c, h1) =
        >>=-returns (launch_userspace_maps_server host.maps (host.program_maps vm)) _ h in
      let (out, o, h2) = >>=-returns (pump r host config vm configured.1 passing xsk) _ h1 in
      let (closed, t, h3) = >>=-returns (tear_down_passing r host passing out.0) _ h2 in
      teardown-returns config attached out.1 [] (some closed) h3

  module _ (file : Option (List ℕ × Bool)) (calloc : host.engine.calloc ≡ true)
      (opens : host.engine.file ≡ open_file file) where
    start_engine_lem :
        start_engine r host ≡ returns (engine_outcome max_code_size host.engine file [])
    unfolding start_engine
    start_engine_lem =
        ap ended (setup_ubpf_engine-ends 2 host.engine file [] (omega arith) calloc opens)

    run_engine-Leaves :
        (config : Config) (attached : Bool) (xsk : Socket r) {e : Ending}
        → run_engine r host config attached xsk (socket_resources config) ≡ returns e
        → Leaves host.engine e
    unfolding run_engine
    run_engine-Leaves config attached xsk {e = e} h =
        let (engine, s, h1) = >>=-returns (start_engine r host) _ h in
        let same : engine_outcome max_code_size host.engine file [] ≡ engine =
          returns-injective (sym start_engine_lem ∙ s) in
        elim (subst (Prepared host.engine) same
          (engine_outcome-Prepared max_code_size host.engine file)) [
            | inl (z, v) ↦ elim (if-split (engine.0 == 0) _ _ h1) [
              | inr (c, h2) ↦ let t : true ≡ false = sym (eq→== engine.0 0 z) ∙ c in cc
              | inl (c, h2) ↦
                  let (vm, o, h3) = >>=-returns (or_undefined engine.1) _ h2 in
                  let (a, b) = serve-returns config attached vm (set_up_passing r host config) xsk (
                    subst
                      (λ l.
                        serve r host config attached vm l (set_up_passing r host config) xsk
                          (socket_resources config)
                        ≡ returns e)
                      v h3) in
                  (a, inl b)
            ]
            | inr (z, v) ↦ elim (if-split (engine.0 == 0) _ _ h1) [
              | inl (c, h2) ↦ absurd (omega (arith, z, ==→eq engine.0 0 c))
              | inr (c, h2) ↦
                  let (closed, o, h3) =
                    >>=-returns
                      (tear_down_passing r host (set_up_passing r host config)
                        (channel_of (set_up_passing r host config)))
                      _ h2 in
                  let (a, b) = teardown-returns config attached xsk engine.2 (some closed) h3 in
                  (a, subst (EngineLeft host.engine) (sym b) v)
            ]
          ]

    start-Leaves :
        (config : Config) (attached : Bool) (xsk : Socket r) {e : Ending}
        → start r host config attached (some xsk) (socket_resources config) ≡ returns e
        → Leaves host.engine e
    unfolding start
    start-Leaves config attached xsk {e = e} h =
        let torn : teardown r host config attached (some xsk) (socket_resources config) [] none
              ≡ returns e
            → Leaves host.engine e =
          λ k. let (a, b) = teardown-returns config attached xsk [] none k in (a, inl b) in
        let (maps, m, h1) =
          >>=-returns (setup_map_system host.page_size host.kernel_maps (requests config) no_maps) _
            h in
        elim (if-split (not (maps.0 == 0)) _ _ h1) [
          | inl (c, h2) ↦ torn h2
          | inr (c, h2) ↦
              elim (if-split
                (is_some config.custom_kern_path
                  && not (
                      is_zero (
                        enter_xsks_into_map host.update_elem maps.1 (to_int config.qid)
                          host.xsk_fd)))
                _ _ h2) [
                  | inl (d, h3) ↦ torn h3
                  | inr (d, h3) ↦ run_engine-Leaves config attached xsk h3
                ]
        ]

    -- The socket of a set-up that succeeded holds what `tear_down_socket` gives back.
    setup_socket-held :
        (config : Config) (ifname : List ℕ) (qid : ℕ) (xsk : Socket r)
        (held : List servant.Sockets.Resource)
        → setup_socket r host.socket config ifname qid ≡ returns (some xsk, held)
        → held ≡ socket_resources config
    unfolding setup_socket
    setup_socket-held config ifname qid xsk held h =
        elim (if-split (not (host.socket.mmap (umem_size config))) _ _ h) [
          | inl (c, h1) ↦ cc
          | inr (c, h1) ↦
              let (t1, a1, h2) = >>=-returns (exit_unless host.socket.alloc_umem) _ h1 in
              let (t2, a2, h3) =
                >>=-returns
                  (exit_unless
                    (is_zero (host.socket.umem_create (umem_size config) (umem_config config))))
                  _ h2 in
              let (fq, a3, h4) =
                >>=-returns
                  (populate r (double_size config.rx_size) config.frame_size host.socket.fq) _ h3 in
              let (t4, a4, h5) = >>=-returns (exit_unless host.socket.alloc_socket) _ h4 in
              let (t5, a5, h6) =
                >>=-returns
                  (exit_unless
                    (is_zero (host.socket.socket_create ifname qid (socket_config config))))
                  _ h5 in
              sym (ap (λ p. p.1) (returns-injective h6))
        ]

    socket-Leaves :
        (config : Config) (attached : Bool)
        (got : Option (Socket r) × List servant.Sockets.Resource) {e : Ending}
        → setup_socket r host.socket config config.ifname config.qid ≡ returns got
        → start r host config attached got.0 got.1 ≡ returns e
        → Leaves host.engine e
    unfolding start
    socket-Leaves config attached (none, held) s h = cc
    socket-Leaves config attached (some xsk, held) {e = e} s h = start-Leaves config attached xsk (
        subst (λ l. start r host config attached (some xsk) l ≡ returns e)
          (setup_socket-held config config.ifname config.qid xsk held s) h)

    -- With memory for the code of the program, from a file that is opened anew or cannot be opened, and
    -- however else the system answers: when `main` returns, then nothing of the socket is held, its memory
    -- included, and nothing of the engine, except the buffer of the code if ubpf could create no machine.
    pub main-Leaves : (e : Ending) → main r host ≡ returns e → Leaves host.engine e
    unfolding main
    main-Leaves e h =
        let (config, p, h1) =
          >>=-returns (parse_args host.log2 host.if_nametoindex host.opts host.args) _ h in
        let (t, l, h2) = >>=-returns (exit_unless (is_zero host.setrlimit)) _ h1 in
        elim (if-split (affinity_fails r host config) _ _ h2) [
          | inl (a, h3) ↦ (
            ap (λ x. x.sockets) (sym (returns-injective h3)),
            inl (ap (λ x. x.engine) (sym (returns-injective h3))),
          )
          | inr (a, h3) ↦
              let (got, s, h4) =
                >>=-returns (setup_socket r host.socket config config.ifname config.qid) _ h3 in
              socket-Leaves config (attach r host config) got s h4
        ]
