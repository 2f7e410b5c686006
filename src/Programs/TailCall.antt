-- ===== src/Programs/TailCall.antt =====
-- examples/benchmarks/tail_call.c, in the kernel, with the entry of `map_progs` that the loader of the
-- benchmarks puts there: the program itself. Every packet is dropped.
use servant.Prelude.{
  ℕ, zero, suc, List, [], ◌∷◌, ◌+◌, ◌%◌, ◌^◌, ◌≤◌, ◌≡◌, refl, ap, ◌==◌, if◌then◌else◌, replicate,
  arith, ne→==, false,
}

-- `REPEAT`
abbrev pub repeat : ℕ
repeat = 20

-- `bpf_prog`, with so many tail calls that the kernel still allows, and the count in `state`: how many tail
-- calls are made, and the count. A call that is not allowed returns.
unfoldable pub tail_call_prog : ℕ → ℕ → ℕ × ℕ
tail_call_prog zero r = if r == repeat then (0, r) else (0, (r + 1) % 2 ^ 64)
tail_call_prog (suc allowed) r =
    let rest = tail_call_prog allowed ((r + 1) % 2 ^ 64) in
    if r == repeat then (0, r) else (suc rest.0, rest.1)

-- So many packets, each with as many calls allowed: how many each makes.
unfoldable pub tail_call_packets : ℕ → ℕ → ℕ → List ℕ × ℕ
tail_call_packets allowed zero r = ([], r)
tail_call_packets allowed (suc packets) r =
    let one = tail_call_prog allowed r in
    let rest = tail_call_packets allowed packets one.1 in (one.0 ∷ rest.0, rest.1)

tail_call_prog-done : (allowed : ℕ) → tail_call_prog allowed repeat ≡ (0, repeat)
unfolding tail_call_prog
tail_call_prog-done zero = refl
tail_call_prog-done (suc allowed) = refl

tail_call_prog_lem :
    (left allowed r : ℕ)
    → r + left ≡ repeat
    → left ≤ allowed
    → tail_call_prog allowed r ≡ (left, repeat)
unfolding tail_call_prog
tail_call_prog_lem zero allowed r h l =
    let e : r ≡ repeat = omega arith in rw e (tail_call_prog-done allowed)
tail_call_prog_lem (suc left) zero r h l = absurd (omega arith)
tail_call_prog_lem (suc left) (suc allowed) r h l =
    let e : (r + 1) % 2 ^ 64 ≡ r + 1 = omega arith in
    let ne : (r == repeat) ≡ false = ne→== r repeat (λ q. absurd (omega arith)) in
    rw (e, ne)
      (ap (λ out. (suc out.0, out.1))
        (tail_call_prog_lem left allowed (r + 1) (omega arith) (omega arith)))

tail_call_packets-done :
    (allowed packets : ℕ) → tail_call_packets allowed packets repeat ≡ (replicate packets 0, repeat)
unfolding tail_call_packets
tail_call_packets-done allowed zero = refl
tail_call_packets-done allowed (suc packets) =
    rw (tail_call_prog-done allowed)
      (ap (λ out. (0 ∷ out.0, out.1)) (tail_call_packets-done allowed packets))

-- If the kernel allows 20 tail calls, and it allows 33, then from the count 0 on the first packet makes 20 of
-- them and no later packet makes any: nothing sets the count back.
pub tail_call_packets-first :
    (allowed packets : ℕ)
    → repeat ≤ allowed
    → tail_call_packets allowed (suc packets) 0 ≡ (repeat ∷ replicate packets 0, repeat)
unfolding tail_call_packets
tail_call_packets-first allowed packets h =
    rw (tail_call_prog_lem repeat allowed 0 refl h)
      (ap (λ out. (repeat ∷ out.0, out.1)) (tail_call_packets-done allowed packets))
