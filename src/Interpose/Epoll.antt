-- ===== src/Interpose/Epoll.antt =====
-- What `epoll_ctl` leaves for a registration, and what `epoll_wait` then does.
use servant.Interpose.Search.{found-entry, get_epoll_index-set}
use servant.Prelude.Int.{ℤ, pos}
use servant.Prelude.{
  ℕ, List, Bool, ◌≡◌, if◌then◌else◌, ◌≢◌, true, ◌⊎◌, ◌∷◌, some, replicate, ◌==◌, false, get_elem?,
  ◌||◌, refl, suc, ◌++◌, set, none, zero, Bool-cases, arith, inl, ◌∙◌, eq→==, get_elem?-set_self,
  ne→==, ap, sym, inr, append-nil, [],
}
use servant.Interpose.{
  EpData, EpollData, get_epoll_index, follow, add_to, CtlOp, ctl_add, ctl_entry, epoll_ctl,
  first_followed, wait_loop, epoll_wait, one_event, from_libc,
}

-- An `epoll_wait` on a descriptor whose entry is there, by its first slot in use.
pub epoll_wait-entry :
    (table : List EpollData) (epfd i n : ℕ) (timeout libc : ℤ) (rounds : List (ℕ × ℤ))
    (ed : EpollData)
    → get_epoll_index table epfd ≡ some i
    → get_elem? table i ≡ some ed
    → ed.epfd ≡ epfd
    → epoll_wait table epfd (pos (suc n)) timeout libc rounds ≡ elim (first_followed ed.following) [
      | none ↦ some (from_libc libc)
      | some d ↦ wait_loop rounds d.payload
    ]
unfolding epoll_wait
epoll_wait-entry table epfd i n timeout libc rounds ed h1 h2 h3 =
    ground (arith, h1, h2, eq→== ed.epfd epfd h3)

-- What `epoll_ctl` leaves at the entry of a descriptor.
pub epoll_ctl-entry :
    (table : List EpollData) (op : CtlOp) (epfd fd payload i : ℕ) (ed : EpollData)
    → get_epoll_index table epfd ≡ some i
    → get_elem? table i ≡ some ed
    → epoll_ctl (some 8080) op epfd fd payload table
      ≡ set table i (ctl_entry op i ed epfd fd payload)
unfolding epoll_ctl
epoll_ctl-entry table op epfd fd payload i ed h1 h2 = rw (h1, h2) refl

-- Slots in use other than the first never matter.
pub first_followed-follow :
    (d : EpData) (ds : List EpData) (fd payload : ℕ)
    → fd ≢ 0
    → first_followed (follow (d ∷ ds) fd payload)
      ≡ some (if d.fd == 0 || d.fd == fd then record { fd = fd; payload = payload } else d)
unfolding first_followed follow
first_followed-follow d ds fd payload h = elim (Bool-cases (d.fd == 0 || d.fd == fd)) [
  | inl t ↦ rw (t, ne→== fd 0 h) refl
  | inr f ↦ let z : d.fd == 0 ≡ false = ground (arith, f) in rw (f, z) refl
]

-- What ADD and MOD leave at an entry is for the epoll descriptor, and what its first slot becomes.
pub add_to-first :
    (ed : EpollData) (epfd fd payload : ℕ) (d : EpData) (ds : List EpData)
    → (ed.epfd ≡ epfd) ⊎ (ed.epfd ≡ 0)
    → ed.following ≡ d ∷ ds
    → fd ≢ 0
    → ((add_to ed epfd fd payload).epfd ≡ epfd)
      × (first_followed (add_to ed epfd fd payload).following
          ≡ some (
              if ed.epfd == 0 || (d.fd == 0 || d.fd == fd)
              then record { fd = fd; payload = payload }
              else d))
unfolding add_to first_followed
add_to-first ed epfd fd payload d ds h1 h2 h3 = elim (Bool-cases (ed.epfd == 0)) [
  | inl z ↦ rw (z, h2, ne→== fd 0 h3) (refl, refl)
  | inr nz ↦
      rw (nz, h2)
        (
          elim h1 [ inl k ↦ k | inr z ↦ ground (arith, nz, z) ],
          first_followed-follow d ds fd payload h3,
        )
]

payload-if :
    (b : Bool) (x y : EpData) → (if b then x else y).payload ≡ (if b then x.payload else y.payload)
payload-if true x y = refl
payload-if false x y = refl

-- After `EPOLL_CTL_ADD` of a descriptor of port 8080 under an epoll descriptor that has an entry or for
-- which one is free, `epoll_wait` polls the channel and libc's in turn, and reports a message of the
-- channel with the payload of the first slot: that of the registration just made, unless the slot is
-- in use for another descriptor.
pub add-wait :
    (table : List EpollData) (epfd fd payload i n : ℕ) (timeout libc : ℤ) (rounds : List (ℕ × ℤ))
    (ed : EpollData) (d : EpData) (ds : List EpData)
    → get_epoll_index table epfd ≡ some i
    → get_elem? table i ≡ some ed
    → ed.following ≡ d ∷ ds
    → fd ≢ 0
    → epoll_wait
        (epoll_ctl (some 8080) ctl_add epfd fd payload table)
        epfd
        (pos (suc n))
        timeout
        libc
        rounds
      ≡ wait_loop rounds (if ed.epfd == 0 || (d.fd == 0 || d.fd == fd) then payload else d.payload)
unfolding ctl_entry add_to
add-wait table epfd fd payload i n timeout libc rounds ed d ds h1 h2 h3 h4 =
    let first = add_to-first ed epfd fd payload d ds (found-entry table epfd i ed h1 h2) h3 h4 in
    rw (epoll_ctl-entry table ctl_add epfd fd payload i ed h1 h2) (
      epoll_wait-entry _ epfd i n timeout libc rounds _
        (get_epoll_index-set table epfd i _ h1 first.0) (get_elem?-set_self table i ed _ h2) first.0
      ∙ ap (λ o. elim o [ none ↦ some (from_libc libc) | some d' ↦ wait_loop rounds d'.payload ])
          first.1
      ∙ ap (wait_loop rounds) (
          payload-if (ed.epfd == 0 || (d.fd == 0 || d.fd == fd))
            (record { fd = fd; payload = payload }) d))

-- A message of the channel ends the wait.
pub wait_loop-message :
    (c payload : ℕ) (r : ℤ) (rounds : List (ℕ × ℤ))
    → wait_loop ((suc c, r) ∷ rounds) payload ≡ some (one_event payload)
unfolding wait_loop
wait_loop-message c payload r rounds = rw (ne→== (suc c) 0 (omega arith)) refl

-- Rounds in which the channel stays empty and libc's `epoll_wait` has no event change nothing.
pub wait_loop-polls :
    (k : ℕ) (rounds : List (ℕ × ℤ)) (payload : ℕ)
    → wait_loop (replicate k (0, pos 0) ++ rounds) payload ≡ wait_loop rounds payload
unfolding wait_loop
wait_loop-polls zero rounds payload = refl
wait_loop-polls (suc k) rounds payload = wait_loop-polls k rounds payload

-- An `epoll_wait` on an entry with a slot in use, whatever the timeout it is given, has not returned
-- after any number of rounds without an event, and then returns the first message of the channel as an
-- event with the payload of the slot.
pub epoll_wait-no_timeout :
    (table : List EpollData) (epfd i n k c : ℕ) (timeout libc r : ℤ) (rounds : List (ℕ × ℤ))
    (ed : EpollData) (d : EpData)
    → get_epoll_index table epfd ≡ some i
    → get_elem? table i ≡ some ed
    → ed.epfd ≡ epfd
    → first_followed ed.following ≡ some d
    → (epoll_wait table epfd (pos (suc n)) timeout libc (replicate k (0, pos 0)) ≡ none)
      × (epoll_wait table epfd
            (pos (suc n))
            timeout
            libc
            (replicate k (0, pos 0) ++ (suc c, r) ∷ rounds)
          ≡ some (one_event d.payload))
unfolding wait_loop
epoll_wait-no_timeout table epfd i n k c timeout libc r rounds ed d h1 h2 h3 h4 = (
  epoll_wait-entry table epfd i n timeout libc _ ed h1 h2 h3
      ∙ rw h4 (
          ap (λ l. wait_loop l d.payload) (sym (append-nil (replicate k (0, pos 0))))
          ∙ wait_loop-polls k [] d.payload),
  epoll_wait-entry table epfd i n timeout libc _ ed h1 h2 h3
      ∙ rw h4 (
          wait_loop-polls k ((suc c, r) ∷ rounds) d.payload
          ∙ rw (ne→== (suc c) 0 (omega arith)) refl),
)
