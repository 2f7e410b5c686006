-- ===== src/Heart/ListRings.antt =====
-- Rings of a socket kept as lists, which fill the interface of libbpf's rings.
use servant.Heart.{Desc, XskRings}
use servant.Prelude.{
  Bool-cases, inl, inr, leb→le, length-append, length-set, length-take, length-drop, false, get_or,
  ℕ, min, if◌then◌else◌, set, ◌+◌, List, ◌<◌, ◌^◌, suc, ◌++◌, drop, ◌%◌, length, leb, ◌-◌, take,
  ◌≡◌, replicate, arith, ap, get_elem?, refl, ◌≤◌, gt→leb, some, le→leb, lt_of_get_elem?,
  some-injective, length-replicate, ◌∙◌, sym, get_elem?-some,
}
use servant.Heart.Xsk.{Producers, Consumers, next_index}

pub record Made (E : Type 0) : Type 0 where
  pub room : ℕ
  pub first : ℕ
  pub submitted : List E
  pub reserved : List E

pub record Given (E : Type 0) : Type 0 where
  pub first : ℕ
  pub taken : List E
  pub waiting : List E

-- The offset of an index from the first one.
abbrev pub offset : ℕ → ℕ → ℕ
offset first idx = (idx + 2 ^ 32 - first % 2 ^ 32) % 2 ^ 32

pub offset_slot : (first i : ℕ) → i < 2 ^ 32 → offset first ((first + i) % 2 ^ 32) ≡ i
offset_slot first i h = omega arith

pub slot-next : (first i : ℕ) → (first + suc i) % 2 ^ 32 ≡ next_index ((first + i) % 2 ^ 32)
slot-next first i = omega arith

module _ {E : Type 0} (blank : E) where
  abbrev pub free_of : Made E → ℕ
  free_of p = min p.room (2 ^ 31) - (length p.submitted + length p.reserved)

  abbrev pub capacity_of : Made E → ℕ
  capacity_of p = free_of p + (length p.submitted + length p.reserved)

  unfoldable pub reserve_made : Made E → ℕ → ℕ × ℕ × Made E
  reserve_made p n =
      if leb n (free_of p)
      then (
        n,
        (p.first + length p.reserved) % 2 ^ 32,
        record p { reserved = p.reserved ++ replicate n blank },
      )
      else (0, 0, p)

  abbrev pub write_made : Made E → ℕ → E → Made E
  write_made p idx e = record p { reserved = set p.reserved (offset p.first idx) e }

  abbrev pub submit_made : Made E → ℕ → Made E
  submit_made p n = record {
    room = p.room;
    first = p.first + n;
    submitted = p.submitted ++ take n p.reserved;
    reserved = drop n p.reserved;
  }

  pub reserve_made-full :
      (p : Made E) (n : ℕ)
      → free_of p < n
      → ((reserve_made p n).0 ≡ 0)
        × ((reserve_made p n).2.submitted ≡ p.submitted)
        × ((reserve_made p n).2.reserved ≡ p.reserved)
  unfolding reserve_made
  reserve_made-full p n h = rw (gt→leb n (free_of p) h) (refl, refl, refl)

  pub reserve_made-room :
      (p : Made E) (n : ℕ)
      → n ≤ free_of p
      → ((reserve_made p n).0 ≡ n)
        × ((reserve_made p n).1 ≡ ((reserve_made p n).2.first + length p.reserved) % 2 ^ 32)
        × ((reserve_made p n).2.submitted ≡ p.submitted)
        × ((junk : List E) × (length junk ≡ n)
            × ((reserve_made p n).2.reserved ≡ p.reserved ++ junk))
  unfolding reserve_made
  reserve_made-room p n h =
      rw (le→leb n (free_of p) h)
        (refl, refl, refl, (replicate n blank, length-replicate n blank, refl))

  pub capacity-reserve_made :
      (p : Made E) (n : ℕ) → capacity_of (reserve_made p n).2 ≡ capacity_of p
  unfolding reserve_made
  capacity-reserve_made p n = elim (Bool-cases (leb n (free_of p))) [
    | inl fits ↦ rw fits (
        omega (
          arith,
          leb→le n (free_of p) fits,
          length-append p.reserved (replicate n blank),
          length-replicate n blank,
        ))
    | inr full ↦ rw full refl
  ]

  pub capacity-write_made :
      (p : Made E) (i : ℕ) (e : E) → capacity_of (write_made p i e) ≡ capacity_of p
  capacity-write_made p i e = omega (arith, length-set p.reserved (offset p.first i) e)

  pub capacity-submit_made : (p : Made E) (n : ℕ) → capacity_of (submit_made p n) ≡ capacity_of p
  capacity-submit_made p n = omega (
    arith,
    length-append p.submitted (take n p.reserved),
    length-take n p.reserved,
    length-drop n p.reserved,
  )

  pub get_or-some : (xs : List E) (i : ℕ) (e : E) → get_elem? xs i ≡ some e → get_or xs i blank ≡ e
  get_or-some xs i e h =
      some-injective (sym (get_elem?-some xs i blank (lt_of_get_elem? xs i h)) ∙ h)

  pub read_given :
      (c : Given E) (i : ℕ) (e : E)
      → get_elem? c.taken i ≡ some e
      → length c.taken ≤ 2 ^ 32
      → get_or c.taken (offset c.first ((c.first + i) % 2 ^ 32)) blank ≡ e
  read_given c i e h b =
      ap (λ j. get_or c.taken j blank)
        (offset_slot c.first i (omega (arith, lt_of_get_elem? c.taken i h)))
      ∙ get_or-some c.taken i e h

  abbrev pub list_producers : Producers E
  list_producers = record {
    P = Made E;
    reserve = reserve_made;
    write = write_made;
    submit = submit_made;
    needs_wakeup = λ p. false;
    queue = λ p. p.submitted;
    window = λ p. p.reserved;
    slot = λ p i. (p.first + i) % 2 ^ 32;
    free = free_of;
    capacity = capacity_of;
    slot-suc = λ p i. slot-next p.first i;
    free-bound = λ p. omega arith;
    free-capacity = λ p. refl;
    capacity-reserve = capacity-reserve_made;
    capacity-write = capacity-write_made;
    capacity-submit = capacity-submit_made;
    reserve_full = reserve_made-full;
    reserve_room = reserve_made-room;
    write-window = λ p i e h b.
        (ap (λ j. set p.reserved j e) (offset_slot p.first i (omega arith)), refl, λ j. refl);
    submit-window = λ p n h. (refl, refl);
  }

  abbrev pub peek_given : Given E → ℕ → ℕ × ℕ × Given E
  peek_given c n = (
    min n (length c.waiting),
    (c.first + length c.taken) % 2 ^ 32,
    record c { taken = c.taken ++ take n c.waiting; waiting = drop n c.waiting },
  )

  abbrev pub list_consumers : Consumers E
  list_consumers = record {
    C = Given E;
    peek = peek_given;
    read = λ c idx. get_or c.taken (offset c.first idx) blank;
    release = λ c n. record c { first = c.first + n; taken = drop n c.taken };
    peeked = λ c. c.taken;
    pending = λ c. c.waiting;
    slot = λ c i. (c.first + i) % 2 ^ 32;
    slot-suc = λ c i. slot-next c.first i;
    peek-pending = λ c n. (refl, refl, refl, refl);
    read-peeked = read_given;
    release-peeked = λ c n h. (refl, refl);
  }

-- The rings of a socket as lists; frames keep their addresses.
abbrev pub no_desc : Desc
no_desc = record { addr = 0; len = 0 }

abbrev pub rings : XskRings
rings = record {
  fill_ring = list_producers 0;
  tx_ring = list_producers no_desc;
  comp_ring = list_consumers 0;
  rx_ring = list_consumers no_desc;
  extract_addr = λ a. a;
  add_offset_to_addr = λ a. a;
}
