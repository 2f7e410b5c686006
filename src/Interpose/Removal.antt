-- ===== src/Interpose/Removal.antt =====
-- `EPOLL_CTL_DEL`, and what `epoll_wait` does after it.
use servant.Interpose.Search.{found-entry, get_epoll_index-set}
use servant.Interpose.Epoll.{add_to-first, epoll_ctl-entry, add-wait, epoll_wait-entry}
use servant.Prelude.Int.{ℤ, pos}
use servant.Prelude.{
  List, ℕ, ◌≡◌, Option, suc, none, lt→ltb, some, ◌∷◌, if◌then◌else◌, Bool-cases, arith, get_elem?,
  ◌≢◌, ◌==◌, refl, inl, ◌||◌, ap, ◌∙◌, inr, [], set, get_elem?-set_self, set-set,
}
use servant.Interpose.{
  EpData, EpollData, get_epoll_index, unfollow, add_to, ctl_add, ctl_del, ctl_entry, epoll_ctl,
  first_followed, wait_loop, epoll_wait, from_libc,
}

-- The first slot in use for another descriptor than `fd`.
unfoldable pub first_other : List EpData → ℕ → Option EpData
first_other [] fd = none
first_other (d ∷ ds) fd =
    let rest = first_other ds fd in if d.fd == 0 || d.fd == fd then rest else some d

first_followed-unfollow :
    (ds : List EpData) (fd : ℕ) → first_followed (unfollow ds fd) ≡ first_other ds fd
unfolding first_followed unfollow first_other
first_followed-unfollow [] fd = refl
first_followed-unfollow (d ∷ ds) fd = elim (Bool-cases (d.fd == fd)) [
  | inl t ↦ ground (arith, t, first_followed-unfollow ds fd)
  | inr f ↦ ground (arith, f, first_followed-unfollow ds fd)
]

deleted :
    (i : ℕ) (ed : EpollData) (epfd fd payload : ℕ)
    → ctl_entry ctl_del (suc i) ed epfd fd payload
      ≡ record ed { following = unfollow ed.following fd }
unfolding ctl_entry
deleted i ed epfd fd payload = rw (lt→ltb 0 (suc i) (omega arith)) refl

-- After `EPOLL_CTL_DEL` under an epoll descriptor whose entry is not the first of the table,
-- `epoll_wait` reports messages for the first descriptor left, and only libc's events if none is.
pub del-wait :
    (table : List EpollData) (epfd fd payload i n : ℕ) (timeout libc : ℤ) (rounds : List (ℕ × ℤ))
    (ed : EpollData)
    → get_epoll_index table epfd ≡ some (suc i)
    → get_elem? table (suc i) ≡ some ed
    → ed.epfd ≡ epfd
    → epoll_wait
        (epoll_ctl (some 8080) ctl_del epfd fd payload table)
        epfd
        (pos (suc n))
        timeout
        libc
        rounds
      ≡ elim (first_other ed.following fd) [
        | none ↦ some (from_libc libc)
        | some d ↦ wait_loop rounds d.payload
      ]
del-wait table epfd fd payload i n timeout libc rounds ed h1 h2 h3 =
    rw
      (epoll_ctl-entry table ctl_del epfd fd payload (suc i) ed h1 h2
        ∙ ap (set table (suc i)) (deleted i ed epfd fd payload))
      (epoll_wait-entry _ epfd (suc i) n timeout libc rounds
          (record ed { following = unfollow ed.following fd })
          (get_epoll_index-set table epfd (suc i)
            (record ed { following = unfollow ed.following fd }) h1 h3)
          (get_elem?-set_self table (suc i) ed (record ed { following = unfollow ed.following fd })
            h2)
          h3
        ∙ ap (λ o. elim o [ none ↦ some (from_libc libc) | some d' ↦ wait_loop rounds d'.payload ])
            (first_followed-unfollow ed.following fd))

-- DEL leaves the table that ADD left in the first entry.
kept :
    (table : List EpollData) (epfd fd payload : ℕ) (ed : EpollData) (d : EpData) (ds : List EpData)
    → get_epoll_index table epfd ≡ some 0
    → get_elem? table 0 ≡ some ed
    → ed.following ≡ d ∷ ds
    → fd ≢ 0
    → epoll_ctl
        (some 8080)
        ctl_del
        epfd
        fd
        payload
        (epoll_ctl (some 8080) ctl_add epfd fd payload table)
      ≡ epoll_ctl (some 8080) ctl_add epfd fd payload table
unfolding ctl_entry
kept table epfd fd payload ed d ds h1 h2 h3 h4 =
    let new = add_to ed epfd fd payload in
    let first = add_to-first ed epfd fd payload d ds (found-entry table epfd 0 ed h1 h2) h3 h4 in
    rw (epoll_ctl-entry table ctl_add epfd fd payload 0 ed h1 h2) (
      epoll_ctl-entry (set table 0 new) ctl_del epfd fd payload 0 new
        (get_epoll_index-set table epfd 0 new h1 first.0) (get_elem?-set_self table 0 ed new h2)
      ∙ set-set table 0 new new)

-- Under the epoll descriptor of the first entry of the table `EPOLL_CTL_DEL` removes nothing: after a
-- registration in a free first slot and its removal, `epoll_wait` reports messages as before it.
pub del_first-wait :
    (table : List EpollData) (epfd fd payload n : ℕ) (timeout libc : ℤ) (rounds : List (ℕ × ℤ))
    (ed : EpollData) (d : EpData) (ds : List EpData)
    → get_epoll_index table epfd ≡ some 0
    → get_elem? table 0 ≡ some ed
    → ed.following ≡ d ∷ ds
    → d.fd ≡ 0
    → fd ≢ 0
    → epoll_wait
        (epoll_ctl
          (some 8080)
          ctl_del
          epfd
          fd
          payload
          (epoll_ctl (some 8080) ctl_add epfd fd payload table))
        epfd
        (pos (suc n))
        timeout
        libc
        rounds
      ≡ wait_loop rounds payload
unfolding ctl_entry
del_first-wait table epfd fd payload n timeout libc rounds ed d ds h1 h2 h3 h4 h5 =
    ap (λ t. epoll_wait t epfd (pos (suc n)) timeout libc rounds)
      (kept table epfd fd payload ed d ds h1 h2 h3 h5)
    ∙ add-wait table epfd fd payload 0 n timeout libc rounds ed d ds h1 h2 h3 h5
    ∙ ap (wait_loop rounds) (ground (arith, h4))
