-- ===== src/Channel/Ring.antt =====
-- What src/vchannel.c uses of the ring in src/llring.h, which is a copy of another project's code:
-- one index put in or taken out at a time, and the behaviour that the comments of llring.h promise
-- for LLRING_QUEUE_VARIABLE: "n: actual number of objects enqueued" (or dequeued), in order, with
-- "free_entries always between 0 and slots-1". An entry is the index of a shared message.
use servant.Prelude.{
  ℕ, ◌+◌, ◌%◌, ◌^◌, ◌≤◌, ◌<◌, ◌≡◌, List, [], ◌∷◌, ◌++◌, Option, none, some, length,
}

pub record Rings : Type 1 where
  pub R : Type 0
  -- `llring_bytes_with_slots`
  pub bytes_with_slots : ℕ → ℕ
  -- `llring_init(r, slots, 0, 0)`; none is a non-zero result.
  pub init : ℕ → Option R
  -- `llring_sp_enqueue_burst(r, &msg, 1)`: the 32 bits of its result, the quota flag included.
  pub sp_enqueue_burst : R → ℕ → R × ℕ
  -- `llring_sc_dequeue_burst(r, &msg, 1)`; none is the result 0.
  pub sc_dequeue_burst : R → R × Option ℕ
  -- `llring_count`
  pub count : R → ℕ
  -- What is queued, oldest first, and the size given to `init`.
  pub contents : R → List ℕ
  pub slots : R → ℕ
  pub contents-init : (n : ℕ) (r : R) → init n ≡ some r → contents r ≡ []
  pub slots-init : (n : ℕ) (r : R) → init n ≡ some r → slots r ≡ n
  pub contents-enqueue :
      (r : R) (x : ℕ)
      → length (contents r) + 1 < slots r
      → contents (sp_enqueue_burst r x).0 ≡ contents r ++ x ∷ []
  pub enqueue-one :
      (r : R) (x : ℕ) → length (contents r) + 1 < slots r → (sp_enqueue_burst r x).1 % 2 ^ 31 ≡ 1
  pub contents-enqueue_full :
      (r : R) (x : ℕ)
      → slots r ≤ length (contents r) + 1
      → contents (sp_enqueue_burst r x).0 ≡ contents r
  pub enqueue_full-zero :
      (r : R) (x : ℕ) → slots r ≤ length (contents r) + 1 → (sp_enqueue_burst r x).1 % 2 ^ 31 ≡ 0
  pub slots-enqueue : (r : R) (x : ℕ) → slots (sp_enqueue_burst r x).0 ≡ slots r
  pub dequeue-nil : (r : R) → contents r ≡ [] → (sc_dequeue_burst r).1 ≡ none
  pub contents-dequeue_nil : (r : R) → contents r ≡ [] → contents (sc_dequeue_burst r).0 ≡ []
  pub dequeue-cons :
      (r : R) (x : ℕ) (xs : List ℕ) → contents r ≡ x ∷ xs → (sc_dequeue_burst r).1 ≡ some x
  pub contents-dequeue :
      (r : R) (x : ℕ) (xs : List ℕ) → contents r ≡ x ∷ xs → contents (sc_dequeue_burst r).0 ≡ xs
  pub slots-dequeue : (r : R) → slots (sc_dequeue_burst r).0 ≡ slots r
  pub count-contents : (r : R) → length (contents r) < slots r → count r ≡ length (contents r)
