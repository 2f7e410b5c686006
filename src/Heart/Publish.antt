-- ===== src/Heart/Publish.antt =====
-- Reserve, write and submit: what a producer ring holds after all three.
use servant.Prelude.{
  set-append, List, ℕ, ◌≡◌, set, ◌∷◌, map, [], ◌++◌, length, ◌<◌, refl, ◌≤◌, arith, ◌∙◌, ap,
  length-append, suc, sym, append_assoc, drop, ap₂, take, take_all, subst, ◌+◌, ◌^◌,
}
use servant.Heart.{Desc, XskRings, fill_all, send_all}
use servant.Heart.Xsk.{Producers, next_index}

drop_all {ℓ} : {A : Type ℓ} (xs : List A) → drop (length xs) xs ≡ []
drop_all [] = refl
drop_all (x ∷ xs) = drop_all xs

module _ {E : Type 0} (prod : Producers E) where
  -- A write for each entry, at consecutive indices.
  unfoldable pub write_all : List E → ℕ → prod.P → prod.P
  write_all [] idx p = p
  write_all (e ∷ es) idx p = write_all es (next_index idx) (prod.write p idx e)

  write_all-window :
      (es pre junk : List E) (p : prod.P)
      → prod.window p ≡ pre ++ junk
      → length junk ≡ length es
      → length pre + length es ≤ 2 ^ 32
      → (prod.window (write_all es (prod.slot p (length pre)) p) ≡ pre ++ es)
        × (prod.queue (write_all es (prod.slot p (length pre)) p) ≡ prod.queue p)
  unfolding write_all
  write_all-window [] pre [] p h k b = (h, refl)
  write_all-window [] pre (j ∷ js) p h k b = absurd (omega arith)
  write_all-window (e ∷ es) pre [] p h k b = absurd (omega arith)
  write_all-window (e ∷ es) pre (j ∷ js) p h k b =
      let here : length pre < length (prod.window p) =
        rw h (omega (arith, length-append pre (j ∷ js))) in
      let (w0, w1, w2) =
        prod.write-window p (length pre) e here
          (rw h (omega (arith, length-append pre (j ∷ js)))) in
      let len : length (pre ++ e ∷ []) ≡ suc (length pre) =
        omega (arith, length-append pre (e ∷ [])) in
      let idx : prod.slot (prod.write p (prod.slot p (length pre)) e) (length (pre ++ e ∷ []))
          ≡ next_index (prod.slot p (length pre)) =
        rw len (w2 (suc (length pre)) ∙ prod.slot-suc p (length pre)) in
      let (r0, r1) =
        write_all-window es (pre ++ e ∷ []) js (prod.write p (prod.slot p (length pre)) e)
          (w0 ∙ ap (λ l. set l (length pre) e) h ∙ set-append pre j e js) (omega arith)
          (omega arith) in
      (
        ap (λ i. prod.window (write_all es i (prod.write p (prod.slot p (length pre)) e))) (sym idx)
            ∙ r0
            ∙ append_assoc pre (e ∷ []) es,
        ap (λ i. prod.queue (write_all es i (prod.write p (prod.slot p (length pre)) e))) (sym idx)
            ∙ r1
            ∙ w1,
      )

  -- `n` entries join the queue in order.
  abbrev pub Published : prod.P → List E → ℕ → Type 0
  Published p es n =
      let got = prod.reserve p n in
      let p' = prod.submit (write_all es got.1 got.2) n in
      (got.0 ≡ n) × (prod.queue p' ≡ prod.queue p ++ es) × (prod.window p' ≡ [])

  -- So they do with room, and nothing reserved before.
  publish_all :
      (p : prod.P) (es : List E)
      → prod.window p ≡ []
      → length es ≤ prod.free p
      → Published p es (length es)
  publish_all p es h k =
      let (g0, g1, g2, g3) = prod.reserve_room p (length es) k in
      let (junk, j0, j1) = g3 in
      let got = prod.reserve p (length es) in
      let idx : got.1 ≡ prod.slot got.2 0 = g1 ∙ ap (λ w. prod.slot got.2 (length w)) h in
      let (w0, w1) =
        write_all-window es [] junk got.2 (j1 ∙ ap (λ w. w ++ junk) h) j0
          (omega (arith, prod.free-bound p)) in
      let written = write_all es (prod.slot got.2 0) got.2 in
      let (s0, s1) = prod.submit-window written (length es) (rw w0 (omega arith)) in
      (
        g0,
        rw idx (
            s0
            ∙ ap₂ ◌++◌ (w1 ∙ g2)
                (ap (take (length es)) w0 ∙ take_all es (length es) (omega arith))),
        rw idx (s1 ∙ ap (drop (length es)) w0 ∙ drop_all es),
      )

  pub publish :
      (p : prod.P) (es : List E) (n : ℕ)
      → prod.window p ≡ []
      → n ≡ length es
      → n ≤ prod.free p
      → Published p es n
  publish p es n h e k = subst (Published p es) (sym e) (publish_all p es h (omega arith))

  -- Without room nothing changes.
  pub refused :
      (p : prod.P) (n : ℕ)
      → prod.window p ≡ []
      → prod.free p < n
      → let got = prod.reserve p n in
        (got.0 ≡ 0) × (prod.queue got.2 ≡ prod.queue p) × (prod.window got.2 ≡ [])
  refused p n h k = let (g0, g1, g2) = prod.reserve_full p n k in (g0, g1, g2 ∙ h)

  write_all-capacity :
      (es : List E) (idx : ℕ) (p : prod.P) → prod.capacity (write_all es idx p) ≡ prod.capacity p
  unfolding write_all
  write_all-capacity [] idx p = refl
  write_all-capacity (e ∷ es) idx p =
      write_all-capacity es (next_index idx) (prod.write p idx e) ∙ prod.capacity-write p idx e

  -- Entries that are published or refused leave the size of the ring.
  pub publish-capacity :
      (p : prod.P) (es : List E) (n idx : ℕ)
      → prod.capacity (prod.submit (write_all es idx (prod.reserve p n).2) n) ≡ prod.capacity p
  publish-capacity p es n idx =
      prod.capacity-submit _ n ∙ write_all-capacity es idx _ ∙ prod.capacity-reserve p n

module _ (r : XskRings) where
  pub fill_all-write_all :
      (ds : List Desc) (idx : ℕ) (fq : r.fill_ring.P)
      → fill_all r ds idx fq ≡ write_all r.fill_ring (map (λ d. r.extract_addr d.addr) ds) idx fq
  unfolding fill_all write_all
  fill_all-write_all [] idx fq = refl
  fill_all-write_all (d ∷ ds) idx fq = fill_all-write_all ds (next_index idx) _

  pub send_all-write_all :
      (ds : List Desc) (idx : ℕ) (tx : r.tx_ring.P)
      → send_all r ds idx tx
        ≡ write_all r.tx_ring
            (map (λ d. record { addr = r.extract_addr d.addr; len = d.len }) ds)
            idx
            tx
  unfolding send_all write_all
  send_all-write_all [] idx tx = refl
  send_all-write_all (d ∷ ds) idx tx = send_all-write_all ds (next_index idx) _
