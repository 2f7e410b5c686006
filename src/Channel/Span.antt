-- ===== src/Channel/Span.antt =====
-- Runs of slots round the shared objects, as `ch->ring_top = (index + 1) % ch->count_elements`
-- walks them.
use servant.Prelude.{
  ℕ, zero, suc, ◌+◌, ◌-◌, ◌%◌, ◌<◌, ◌≡◌, refl, ◌≢◌, sym, ap, ◌∙◌, List, [], ◌∷◌, ◌++◌, length, All,
  arith, dec_lt, ◌≤◌, subst,
}
use native.Mathlib.Nat.{mod-add-mod, mod-eq_of_lt, mod-eq-sub-mod}

-- The `n` slots from `start` on.
unfoldable pub span : ℕ → ℕ → ℕ → List ℕ
span count start zero = []
span count start (suc n) = start ∷ span count ((start + 1) % count) n

pub length-span : (count start n : ℕ) → length (span count start n) ≡ n
unfolding span
length-span count start zero = refl
length-span count start (suc n) = ap suc (length-span count ((start + 1) % count) n)

-- Stepping once and then `n` times is stepping `n + 1` times.
pub next_mod : (count start n : ℕ) → ((start + 1) % count + n) % count ≡ (start + suc n) % count
next_mod count start n = rw mod-add-mod (ap (λ k. k % count) (omega arith))

pub span-snoc :
    (count start n : ℕ)
    → start < count
    → span count start (suc n) ≡ span count start n ++ (start + n) % count ∷ []
unfolding span
span-snoc count start zero h =
    ap (λ k. k ∷ []) (omega (arith, mod-eq_of_lt h, ap (λ k. k % count) (start_zero start)))
  where
    start_zero : (s : ℕ) → s + 0 ≡ s
    start_zero s = omega arith
span-snoc count start (suc n) h =
    ap (λ l. start ∷ l)
      (span-snoc count ((start + 1) % count) n (omega arith)
        ∙ ap (λ k. span count ((start + 1) % count) n ++ k ∷ []) (next_mod count start n))

-- Fewer than `count` steps do not come back to the start.
mod-ne : (count start k : ℕ) → start < count → suc k < count → start ≢ (start + suc k) % count
mod-ne count start k h hk = elim (dec_lt (start + suc k) count) [
  | yes p ↦ omega (arith, mod-eq_of_lt p)
  | no p ↦ omega (
    arith,
    mod-eq-sub-mod {n = start + suc k} {m = count} (omega arith),
    mod-eq_of_lt {n = start + suc k - count} {m = count} (omega arith),
  )
]

-- The slot after a run of fewer than `count` slots is none of them.
pub span-ne :
    (count start n t : ℕ)
    → start < count
    → n < count
    → t ≡ (start + n) % count
    → All (λ j. t ≢ j) (span count start n)
unfolding span
span-ne count start zero t h hn e = tt
span-ne count start (suc n) t h hn e = (
  λ q. mod-ne count start n h hn (sym q ∙ e),
  span-ne count ((start + 1) % count) n t (omega arith) (omega arith)
      (e ∙ sym (next_mod count start n)),
)

-- The slots that lie more than `a` and fewer than `count` steps behind `start` are not `start`.
span_apart :
    (count start a n : ℕ)
    → start < count
    → suc a + n ≤ count
    → All (λ j. start ≢ j) (span count ((start + suc a) % count) n)
unfolding span
span_apart count start a zero h k = tt
span_apart count start a (suc n) h k = (
  mod-ne count start a h (omega arith),
  subst (λ s. All (λ j. start ≢ j) (span count s n))
      (sym (mod-add-mod (start + suc a) count 1 ∙ ap (λ t. t % count) (omega arith)))
      (span_apart count start (suc a) n h (omega arith)),
)

-- The first slot of a run that does not fill the circle does not come again in it.
pub span-tail_ne :
    (count start n : ℕ)
    → start < count
    → suc n < count
    → All (λ j. start ≢ j) (span count ((start + 1) % count) n)
span-tail_ne count start n h hn = span_apart count start 0 n h (omega arith)
