-- ===== src/Interpose/Init/Once.antt =====
-- `ensure_init` of src/interpose/interpose.c over all schedules: `init` runs once at most, a call goes on
-- only behind it, and a thread waits only for one that is at it.
use servant.Prelude.{
  ℕ, ◌≡◌, ◌≢◌, Outcome, min, some, ◌≤◌, ◌+◌, eq→==, ne→==, refl, arith, true, returns, ◌<◌, ◌^◌,
  ◌⊎◌, inr, inl, sym, ◌∙◌, subst, ℕ_discrete,
}
use servant.Interpose.Init.{
  start, Pc, Shared, Bound, Move, update, outside, testing, counting, initialising, finishing,
  waiting, through, call, skip, contend, win, lose, reenter, initialise, publish, yield, pass,
  leave, add_one, System, Step, Reach, pick, later,
}

update_self {ℓ} : {A : Type ℓ} (f : ℕ → A) (i : ℕ) (a : A) → update f i a i ≡ a
update_self f i a = rw (eq→== i i refl) refl

update_ne {ℓ} : {A : Type ℓ} (f : ℕ → A) (i j : ℕ) (a : A) → i ≢ j → update f i a j ≡ f j
update_ne f i j a h = rw (ne→== i j h) refl

-- At `init`, or between it and `init_done = 1`.
abbrev pub IsActive : Pc → Type 0
IsActive initialising = Unit
IsActive finishing = Unit
IsActive _ = ⊥

module _ (result : Outcome Bound) where
  -- What `init` has to set is set.
  abbrev pub IsBound : Shared → Type 0
  IsBound m = (b : Bound) × (m.bound ≡ some b) × (result ≡ returns b)

  -- After `n` fetch-and-adds: the memory, a thread, and that somebody is at `init` or has finished it.
  abbrev MemOk : ℕ → Shared → Type 0
  MemOk n m = (m.init_cnt ≡ n) × (m.inits ≡ min n 1) × (m.init_done ≡ true → IsBound m)

  abbrev ThreadOk : ℕ → Shared → ℕ → Pc → Type 0
  ThreadOk n m i outside = Unit
  ThreadOk n m i testing = Unit
  ThreadOk n m i counting = Unit
  ThreadOk n m i initialising = (1 ≤ n) × (m.owner ≡ i)
  ThreadOk n m i finishing = (1 ≤ n) × (m.owner ≡ i) × IsBound m
  ThreadOk n m i waiting = 1 ≤ n
  ThreadOk n m i through = IsBound m

  abbrev IsLive : ℕ → Shared → (ℕ → Pc) → Type 0
  IsLive n m pc = 1 ≤ n → (m.init_done ≡ true) ⊎ IsActive (pc m.owner)

  Move-mem :
      {m m' : Shared} {i k : ℕ} {p q : Pc} (n : ℕ)
      → Move result m i k p m' q
      → n + k < 2 ^ 32
      → MemOk n m
      → ThreadOk n m i p
      → MemOk (n + k) m'
  Move-mem n call b (c, s, d) t = (omega arith, omega arith, d)
  Move-mem n (skip h) b (c, s, d) t = (omega arith, omega arith, d)
  Move-mem n (contend h) b (c, s, d) t = (omega arith, omega arith, d)
  Move-mem n (win h) b (c, s, d) t = (omega arith, omega arith, d)
  Move-mem n (lose h) b (c, s, d) t = (omega arith, omega arith, d)
  Move-mem n (reenter h) b (c, s, d) t = (omega arith, omega arith, d)
  Move-mem n (initialise bound h) b (c, s, d) t = (omega arith, omega arith, λ _. (bound, refl, h))
  Move-mem n publish b (c, s, d) t = (omega arith, omega arith, λ _. t.2)
  Move-mem n (yield h) b (c, s, d) t = (omega arith, omega arith, d)
  Move-mem n (pass h) b (c, s, d) t = (omega arith, omega arith, d)
  Move-mem n leave b (c, s, d) t = (omega arith, omega arith, d)

  Move-own :
      {m m' : Shared} {i k : ℕ} {p q : Pc} (n : ℕ)
      → Move result m i k p m' q
      → MemOk n m
      → ThreadOk n m i p
      → ThreadOk (n + k) m' i q
  Move-own n call (c, s, d) t = tt
  Move-own n (skip h) (c, s, d) t = d h
  Move-own n (contend h) (c, s, d) t = tt
  Move-own n (win h) (c, s, d) t = (omega arith, refl)
  Move-own n (lose h) (c, s, d) t = omega arith
  Move-own n (reenter h) (c, s, d) t = (omega (arith, t.0), t.1)
  Move-own n (initialise bound h) (c, s, d) t = (omega (arith, t.0), t.1, (bound, refl, h))
  Move-own n publish (c, s, d) t = t.2
  Move-own n (yield h) (c, s, d) t = omega (arith, t)
  Move-own n (pass h) (c, s, d) t = d h
  Move-own n leave (c, s, d) t = tt

  -- What holds of the other threads goes on to hold.
  ThreadOk-grow :
      (p : Pc) (n n' : ℕ) (m m' : Shared) (j : ℕ)
      → n ≤ n'
      → m.owner ≡ m'.owner
      → (IsBound m → IsBound m')
      → ThreadOk n m j p
      → ThreadOk n' m' j p
  ThreadOk-grow outside n n' m m' j le own keep t = tt
  ThreadOk-grow testing n n' m m' j le own keep t = tt
  ThreadOk-grow counting n n' m m' j le own keep t = tt
  ThreadOk-grow initialising n n' m m' j le own keep t = (omega (arith, t.0), sym own ∙ t.1)
  ThreadOk-grow finishing n n' m m' j le own keep t = (omega (arith, t.0), sym own ∙ t.1, keep t.2)
  ThreadOk-grow waiting n n' m m' j le own keep t = omega (arith, t)
  ThreadOk-grow through n n' m m' j le own keep t = keep t

  -- Before the first fetch-and-add no thread is at `init`.
  ThreadOk-zero :
      (p : Pc) (n n' : ℕ) (m m' : Shared) (j : ℕ)
      → n ≡ 0
      → (IsBound m → IsBound m')
      → ThreadOk n m j p
      → ThreadOk n' m' j p
  ThreadOk-zero outside n n' m m' j z keep t = tt
  ThreadOk-zero testing n n' m m' j z keep t = tt
  ThreadOk-zero counting n n' m m' j z keep t = tt
  ThreadOk-zero initialising n n' m m' j z keep t = absurd (omega (arith, t.0))
  ThreadOk-zero finishing n n' m m' j z keep t = absurd (omega (arith, t.0))
  ThreadOk-zero waiting n n' m m' j z keep t = absurd (omega (arith, t))
  ThreadOk-zero through n n' m m' j z keep t = keep t

  -- Only the first fetch-and-add makes a thread the owner, and what is set stays set.
  Move-owner :
      {m m' : Shared} {i k : ℕ} {p q : Pc} (n : ℕ)
      → Move result m i k p m' q
      → m.init_cnt ≡ n
      → (n ≡ 0) ⊎ (m.owner ≡ m'.owner)
  Move-owner n (win z) c = inl (omega arith)
  Move-owner n call c = inr refl
  Move-owner n (skip d) c = inr refl
  Move-owner n (contend d) c = inr refl
  Move-owner n (lose d) c = inr refl
  Move-owner n (reenter d) c = inr refl
  Move-owner n (initialise b e) c = inr refl
  Move-owner n publish c = inr refl
  Move-owner n (yield d) c = inr refl
  Move-owner n (pass d) c = inr refl
  Move-owner n leave c = inr refl

  Move-IsBound :
      {m m' : Shared} {i k : ℕ} {p q : Pc} → Move result m i k p m' q → IsBound m → IsBound m'
  Move-IsBound (initialise b e) h = (b, refl, e)
  Move-IsBound (win z) h = h
  Move-IsBound call h = h
  Move-IsBound (skip d) h = h
  Move-IsBound (contend d) h = h
  Move-IsBound (lose d) h = h
  Move-IsBound (reenter d) h = h
  Move-IsBound publish h = h
  Move-IsBound (yield d) h = h
  Move-IsBound (pass d) h = h
  Move-IsBound leave h = h

  Move-others :
      {m m' : Shared} {i k : ℕ} {p q : Pc} (n : ℕ)
      → Move result m i k p m' q
      → m.init_cnt ≡ n
      → (j : ℕ) (o : Pc) → ThreadOk n m j o
      → ThreadOk (n + k) m' j o
  Move-others {m = m} {m' = m'} {k = k} n move c j o t = elim (Move-owner n move c) [
    | inl z ↦ ThreadOk-zero o n (n + k) m m' j z (Move-IsBound move) t
    | inr own ↦ ThreadOk-grow o n (n + k) m m' j (omega arith) own (Move-IsBound move) t
  ]

  -- A thread that is not at `init` leaves the one that is where it is.
  IsLive-passive :
      (m m' : Shared) (pc : ℕ → Pc) (i : ℕ) (q : Pc)
      → ¬ IsActive (pc i)
      → m'.owner ≡ m.owner
      → m'.init_done ≡ m.init_done
      → (m.init_done ≡ true) ⊎ IsActive (pc m.owner)
      → (m'.init_done ≡ true) ⊎ IsActive (update pc i q m'.owner)
  IsLive-passive m m' pc i q idle own done (inl d) = inl (done ∙ d)
  IsLive-passive m m' pc i q idle own done (inr a) =
      let ne : i ≢ m.owner = λ e. idle (subst (λ x. IsActive (pc x)) (sym e) a) in
      inr (rw (own, update_ne pc i m.owner q ne) a)

  Move-IsLive :
      {m m' : Shared} {k : ℕ} {p q : Pc} (n i : ℕ) (pc : ℕ → Pc)
      → Move result m i k p m' q
      → pc i ≡ p
      → MemOk n m
      → ThreadOk n m i p
      → IsLive n m pc
      → IsLive (n + k) m' (update pc i q)
  Move-IsLive {m = m} n i pc call e h t l g =
      IsLive-passive m m pc i testing (rw e (λ a. a)) refl refl (l (omega arith))
  Move-IsLive {m = m} n i pc (skip d) e h t l g =
      IsLive-passive m m pc i through (rw e (λ a. a)) refl refl (l (omega arith))
  Move-IsLive {m = m} n i pc (contend d) e h t l g =
      IsLive-passive m m pc i counting (rw e (λ a. a)) refl refl (l (omega arith))
  Move-IsLive n i pc (win z) e h t l g = inr (rw (update_self pc i initialising) tt)
  Move-IsLive {m = m} n i pc (lose d) e h t l g =
      IsLive-passive m (add_one m) pc i waiting (rw e (λ a. a)) refl refl (l (omega (arith, h.0)))
  Move-IsLive n i pc (reenter d) e h t l g = inr (rw (t.1, update_self pc i initialising) tt)
  Move-IsLive n i pc (initialise b r) e h t l g = inr (rw (t.1, update_self pc i finishing) tt)
  Move-IsLive n i pc publish e h t l g = inl refl
  Move-IsLive {m = m} n i pc (yield d) e h t l g =
      IsLive-passive m m pc i waiting (rw e (λ a. a)) refl refl (l (omega arith))
  Move-IsLive {m = m} n i pc (pass d) e h t l g =
      IsLive-passive m m pc i through (rw e (λ a. a)) refl refl (l (omega arith))
  Move-IsLive {m = m} n i pc leave e h t l g =
      IsLive-passive m m pc i outside (rw e (λ a. a)) refl refl (l (omega arith))

  abbrev Inv : ℕ → System → Type 0
  Inv n s = MemOk n s.mem × ((i : ℕ) → ThreadOk n s.mem i (s.pc i)) × IsLive n s.mem s.pc

  -- The thread that moved, and the others.
  threads_after :
      {m' : Shared} {k : ℕ} {q : Pc} (n i : ℕ) (s : System)
      → Move result s.mem i k (s.pc i) m' q
      → Inv n s
      → (j : ℕ) → ThreadOk (n + k) m' j (update s.pc i q j)
  threads_after {m' = m'} {k = k} {q = q} n i s move (h, t, l) j = elim (ℕ_discrete i j) [
    | yes e ↦
        rw (e, update_self s.pc j q)
          (subst (λ x. ThreadOk (n + k) m' x q) e (Move-own n move h (t i)))
    | no ne ↦ rw (update_ne s.pc i j q ne) (Move-others n move h.0 j (s.pc j) (t j))
  ]

  Step-Inv :
      {s t : System} {k : ℕ} (n : ℕ) → Step result s k t → n + k < 2 ^ 32 → Inv n s → Inv (n + k) t
  Step-Inv {s = s} n (pick i move) b (h, t, l) = (
    Move-mem n move b h (t i),
    threads_after n i s move (h, t, l),
    Move-IsLive n i s.pc move refl h (t i) l,
  )

  Reach-Inv : {n : ℕ} {s : System} → Reach result n s → n < 2 ^ 32 → Inv n s
  Reach-Inv start b = ((refl, omega arith, λ e. cc), λ i. tt, λ h. absurd (omega arith))
  Reach-Inv (later {k = k} {n = n} r step) b = Step-Inv k step b (Reach-Inv r (omega arith))

  -- A thread at `init` is the owner.
  owner_of_IsActive :
      (n : ℕ) (m : Shared) (i : ℕ) (p : Pc) → IsActive p → ThreadOk n m i p → m.owner ≡ i
  owner_of_IsActive n m i outside a t = absurd a
  owner_of_IsActive n m i testing a t = absurd a
  owner_of_IsActive n m i counting a t = absurd a
  owner_of_IsActive n m i waiting a t = absurd a
  owner_of_IsActive n m i through a t = absurd a
  owner_of_IsActive n m i initialising a t = t.1
  owner_of_IsActive n m i finishing a t = t.1

  -- Whatever threads call `ensure_init` in whatever order, with fewer than 2^32 fetch-and-adds: `init` is
  -- begun once at most, no two threads are at it, a call goes on only when everything that `init` sets
  -- is set, and while a thread waits `init_done` is set or a thread is at `init`.
  pub ensure_init-once :
      (n : ℕ) (s : System)
      → Reach result n s
      → n < 2 ^ 32
      → (s.mem.inits ≤ 1)
        × ((i j : ℕ) → IsActive (s.pc i) → IsActive (s.pc j) → i ≡ j)
        × ((i : ℕ) → s.pc i ≡ through → IsBound s.mem)
        × ((i : ℕ) → s.pc i ≡ waiting → (s.mem.init_done ≡ true) ⊎ ((j : ℕ) × IsActive (s.pc j)))
  ensure_init-once n s r b =
      let ((c, one, d), t, l) = Reach-Inv r b in
      (
        omega arith,
        λ i j a a'.
            sym (owner_of_IsActive n s.mem i (s.pc i) a (t i))
            ∙ owner_of_IsActive n s.mem j (s.pc j) a' (t j),
        λ i e. subst (ThreadOk n s.mem i) e (t i),
        λ i e. elim (l (subst (ThreadOk n s.mem i) e (t i))) [
          | inl done ↦ inl done
          | inr a ↦ inr (s.mem.owner, a)
        ],
      )
