-- ===== src/Programs/KernelMap/Handover.antt =====
-- examples/kernel_map_example: what the program of ubpf.c prints of the packet that xdp.c saw.
use servant.Prelude.Int.{word_bytes}
use servant.Prelude.{
  ℕ, zero, suc, List, [], ◌∷◌, ◌++◌, true, false, ◌&&◌, some, ltb, leb, ◌+◌, ◌-◌, ◌%◌, ◌^◌, ◌<◌,
  ◌≤◌, min, ◌≡◌, ◌≢◌, refl, sym, ap, ap₂, ◌∙◌, dec_lt, length, get_elem?, set, take, drop, All,
  All-append, returns, length-append, append_assoc, set-append, drop-get_or, ge→ltb, eq→==, ne→==,
  get_elem?-set_self, arith,
}
use servant.Programs.{byte, drop_verdict}
use servant.Programs.KernelMap.{
  Data, Maps, redirect_map, ntohs, payload_len, copy_payload, parse_udp, parse_ip, parse_packet,
  ubpf_map_test, c_string, print_packet,
}

-- How many bytes are copied: those that the length names, the packet has and the entry has room for.
abbrev pub copied : ℕ → ℕ → ℕ → ℕ → ℕ
copied left i room size = min left (min room (size - (42 + i)))

module _ (left i : ℕ) (pkt payload : List ℕ) where
  copy_stops :
      (leb (42 + i + 1) (length pkt) && ltb i 256) ≡ false
      → copy_payload (suc left) i pkt payload ≡ payload
  unfolding copy_payload
  copy_stops h = rw h refl

  copy_goes :
      (leb (42 + i + 1) (length pkt) && ltb i 256) ≡ true
      → copy_payload (suc left) i pkt payload
        ≡ copy_payload left (i + 1) pkt (set payload i (byte pkt (42 + i)))
  unfolding copy_payload
  copy_goes h = rw h refl

-- The loop writes the bytes of the packet over those of the entry.
copy_payload_lem :
    (left : ℕ) (pkt pre old : List ℕ)
    → length pre + length old ≡ 256
    → let n = copied left (length pre) (length old) (length pkt) in
      copy_payload left (length pre) pkt (pre ++ old)
      ≡ pre ++ (take n (drop (42 + length pre) pkt) ++ drop n old)
unfolding copy_payload
copy_payload_lem zero pkt pre old h =
    let n : copied 0 (length pre) (length old) (length pkt) ≡ 0 = omega arith in rw n refl
copy_payload_lem (suc left) pkt pre [] h =
    let n : copied (suc left) (length pre) 0 (length pkt) ≡ 0 = omega arith in
    rw n (copy_stops left (length pre) pkt (pre ++ []) (ground arith))
copy_payload_lem (suc left) pkt pre (o ∷ old) h = elim (dec_lt (42 + length pre) (length pkt)) [
  | no over ↦
      let n : copied (suc left) (length pre) (suc (length old)) (length pkt) ≡ 0 = omega arith in
      rw n (copy_stops left (length pre) pkt (pre ++ o ∷ old) (ground arith))
  | yes inside ↦
      let v = byte pkt (42 + length pre) in
      let n' = copied left (length (pre ++ v ∷ [])) (length old) (length pkt) in
      let len : length (pre ++ v ∷ []) ≡ length pre + 1 = length-append pre (v ∷ []) in
      let n : copied (suc left) (length pre) (suc (length old)) (length pkt) ≡ suc n' =
        omega arith in
      let next : suc (42 + length pre) ≡ 42 + length (pre ++ v ∷ []) = omega arith in
      let head : drop (42 + length pre) pkt ≡ v ∷ drop (42 + length (pre ++ v ∷ [])) pkt =
        drop-get_or pkt (42 + length pre) 0 inside ∙ ap (λ k. v ∷ drop k pkt) next in
      copy_goes left (length pre) pkt (pre ++ o ∷ old) (ground arith)
      ∙ ap₂ (λ i l. copy_payload left i pkt l) (sym len) (set-append pre o v old)
      ∙ copy_payload_lem left pkt (pre ++ v ∷ []) old (omega arith)
      ∙ append_assoc pre (v ∷ []) _
      ∙ rw (n, head) refl
]

-- `%s` of a text that a zero ends.
c_string-text :
    (text rest : List ℕ) → All (λ c. c ≢ 0) text → c_string (text ++ 0 ∷ rest) ≡ some text
unfolding c_string
c_string-text [] rest h = refl
c_string-text (c ∷ text) rest h = rw (ne→== c 0 h.0, c_string-text text rest h.1) refl

module _ (pkt : List ℕ) (h42 : 42 ≤ length pkt) (ip : ntohs pkt 12 ≡ 0x800)
    (udp : byte pkt 23 ≡ 17) where
  abbrev with_payload : ℕ → List ℕ → Data
  with_payload counted bytes = record {
    ether_type = 0x800;
    ip_proto = 17;
    len = payload_len pkt;
    payload = bytes;
    count = counted;
  }

  -- So many bytes of the packet over those of the entry.
  abbrev placed : ℕ → List ℕ → List ℕ
  placed n old = take n (drop 42 pkt) ++ drop n old

  -- The entry of a UDP packet.
  abbrev entry : ℕ → List ℕ → Data
  entry counted old =
      with_payload counted (placed (copied (payload_len pkt) 0 256 (length pkt)) old)

  parse_packet-entry :
      (d : Data)
      → length d.payload ≡ 256
      → parse_packet pkt d ≡ (redirect_map, entry d.count d.payload)
  unfolding parse_packet parse_ip parse_udp
  parse_packet-entry d room =
      rw
        (
          ge→ltb (length pkt) 14 (omega arith),
          eq→== (ntohs pkt 12) 0x800 ip,
          ge→ltb (length pkt) 34 (omega arith),
          eq→== (byte pkt 23) 17 udp,
          ge→ltb (length pkt) 42 (omega arith),
        )
        (rw (ip, udp)
          (ap (λ l. (redirect_map, with_payload d.count l))
            (copy_payload_lem (payload_len pkt) pkt [] d.payload (omega arith)
              ∙ ap (λ k. placed (copied (payload_len pkt) 0 k (length pkt)) d.payload) room)))

  -- A UDP packet that has its headers and all of its payload, of fewer than 256 bytes and none of them
  -- zero, at a count whose entry has a payload with `stale` and a zero behind as many bytes: xdp.c sends
  -- it to its socket, and then ubpf.c prints its protocols, its length and count, and as the payload
  -- that of the packet with `stale` behind it, the rest of an earlier and longer payload in the entry.
  pub ubpf_map_test-print_packet :
      (m : Maps) (val : ℕ) (d : Data) (stale rest : List ℕ)
      → let size = ntohs pkt 38 - 8 in
        let counted = (val + 1) % 2 ^ 32 in
        get_elem? m.test_map 0 ≡ some val
        → get_elem? m.data_map (counted % 1024) ≡ some d
        → length d.payload ≡ 256
        → drop size d.payload ≡ stale ++ 0 ∷ rest
        → 8 ≤ ntohs pkt 38
        → ntohs pkt 38 < 264
        → 42 + size ≤ length pkt
        → All (λ c. c ≢ 0) (take size (drop 42 pkt))
        → All (λ c. c ≢ 0) stale
        → (m' : Maps) × (ubpf_map_test pkt m ≡ (redirect_map, m'))
          × (print_packet m'
              ≡ returns (
                drop_verdict,
                record {
                  eth_proto = 0x800;
                  ip_proto = 17;
                  payload_size = size;
                  payload = take size (drop 42 pkt) ++ stale;
                  count = counted;
                  total = counted;
                },
              ))
  unfolding ubpf_map_test print_packet
  ubpf_map_test-print_packet m val d stale rest first found room old least most whole bytes olds =
      let size = ntohs pkt 38 - 8 in
      let counted = (val + 1) % 2 ^ 32 in
      let d' : Data = entry counted d.payload in
      let m' : Maps = record {
        test_map = set m.test_map 0 counted;
        data_map = set m.data_map (counted % 1024) d';
      } in
      let n : copied (payload_len pkt) 0 256 (length pkt) ≡ size = omega arith in
      let text : c_string (d'.payload ++ word_bytes counted)
          ≡ some (take size (drop 42 pkt) ++ stale) =
        ap (λ k. c_string (placed k d.payload ++ word_bytes counted)) n
        ∙ ap (λ l. c_string ((take size (drop 42 pkt) ++ l) ++ word_bytes counted)) old
        ∙ ap (λ l. c_string (l ++ word_bytes counted))
            (sym (append_assoc (take size (drop 42 pkt)) stale (0 ∷ rest)))
        ∙ ap c_string (append_assoc (take size (drop 42 pkt) ++ stale) (0 ∷ rest) _)
        ∙ c_string-text (take size (drop 42 pkt) ++ stale) (rest ++ word_bytes counted)
            (All-append (λ c. c ≢ 0) (take size (drop 42 pkt)) stale bytes olds) in
      let len : payload_len pkt ≡ size = omega arith in
      (
        m',
        rw (first, found, parse_packet-entry (record d { count = counted }) room, ubpf_map_test)
            refl,
        rw
            (
              get_elem?-set_self m.test_map 0 val counted first,
              get_elem?-set_self m.data_map (counted % 1024) d d' found,
              text,
              len,
              print_packet,
            )
            refl,
      )
