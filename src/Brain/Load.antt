-- ===== src/Brain/Load.antt =====
-- Reading a program in src/brain.c: the loop of `readfile` and its result.
use servant.Prelude.{
  ℕ, ◌<◌, replicate, ◌-◌, List, length, ◌^◌, Bool, ◌≡◌, take, false, ◌%◌, ◌∷◌, [], ◌++◌, drop,
  arith, true, ◌+◌, lt→ltb, suc, ap, refl, zero, not, ◌≤◌, some, gt→leb, le→leb, ◌∙◌, Option,
  if◌then◌else◌, dec_lt, ltb, length-take, ge→ltb, returns, ◌&&◌, none,
}
use servant.Prelude.Int.{pos, to_int}
use servant.Brain.{
  Stream, Buffer, Resource, fread, write_at, read_loop, readfile, advance, code_buffer, finish_read,
}

to_int-small : (n : ℕ) → n < 2 ^ 31 → to_int n ≡ pos n
to_int-small n h = let e : n % 2 ^ 32 ≡ n = omega arith in rw (e, lt→ltb n (2 ^ 31) h) refl

take++drop {ℓ} : {A : Type ℓ} (n : ℕ) (xs : List A) → take n xs ++ drop n xs ≡ xs
take++drop zero xs = refl
take++drop (suc n) [] = refl
take++drop (suc n) (x ∷ xs) = ap (λ l. x ∷ l) (take++drop n xs)

-- A file that has just been opened.
abbrev pub opened : List ℕ → Bool → Stream
opened content broken = record { rest = content; broken = broken; eof = false; err = false }

abbrev start : ℕ → Stream → Buffer
start maxlen file = record { bytes = replicate maxlen 0; offset = 0; file = file }

write_at-nothing : (n : ℕ) (xs : List ℕ) → write_at n [] xs ≡ xs
write_at-nothing n xs = let e : n + 0 ≡ n = omega arith in rw e (take++drop n xs)

-- Reading nothing ends the loop, and something takes it on.
advance-nothing : (b : Buffer) (f : Stream) → advance b ([], f) ≡ (false, record b { file = f })
unfolding advance
advance-nothing b f = rw (write_at-nothing b.offset b.bytes) refl

advance-something :
    (b : Buffer) (x : ℕ) (xs : List ℕ) (f : Stream)
    → length (x ∷ xs) < 2 ^ 31
    → advance b (x ∷ xs, f) ≡ (
      true,
      record {
        bytes = write_at b.offset (x ∷ xs) b.bytes;
        offset = b.offset + length (x ∷ xs);
        file = f;
      },
    )
unfolding advance
advance-something b x xs f small = rw (advance, to_int-small (length (x ∷ xs)) small) refl

go_on : ℕ → ℕ → Bool × Buffer → Option Buffer
go_on fuel maxlen p = let rest = read_loop fuel maxlen p.1 in if p.0 then rest else some p.1

-- The two turns that a call of `fread` for everything leaves the loop.
read_loop-nothing :
    (fuel maxlen : ℕ) (b : Buffer) (f : Stream)
    → fread (maxlen - b.offset) b.file ≡ ([], f)
    → read_loop (suc fuel) maxlen b ≡ some (record b { file = f })
unfolding read_loop go_on
read_loop-nothing fuel maxlen b f h =
    ap (go_on fuel maxlen) (ap (advance b) h ∙ advance-nothing b f)

read_loop-something :
    (fuel maxlen : ℕ) (b : Buffer) (x : ℕ) (xs : List ℕ) (f : Stream) (offset_ : ℕ)
    → length (x ∷ xs) < 2 ^ 31
    → b.offset + length (x ∷ xs) ≡ offset_
    → fread (maxlen - b.offset) b.file ≡ (x ∷ xs, f)
    → read_loop (suc fuel) maxlen b
      ≡ read_loop fuel maxlen
          (record { bytes = write_at b.offset (x ∷ xs) b.bytes; offset = offset_; file = f })
unfolding read_loop go_on
read_loop-something fuel maxlen b x xs f offset_ small e h =
    let moved : ℕ → Buffer =
      λ o. record { bytes = write_at b.offset (x ∷ xs) b.bytes; offset = o; file = f } in
    ap (go_on fuel maxlen)
      (ap (advance b) h ∙ advance-something b x xs f small ∙ ap (λ o. (true, moved o)) e)

fread-all :
    (n : ℕ) (f : Stream)
    → length f.rest < n
    → fread n f ≡ (f.rest, record f { rest = []; eof = not f.broken; err = f.broken })
fread-all n f h = rw (gt→leb n (length f.rest) h) refl

fread-some :
    (n : ℕ) (f : Stream)
    → n ≤ length f.rest
    → fread n f ≡ (take n f.rest, record f { rest = drop n f.rest })
fread-some n f h = rw (le→leb n (length f.rest) h) refl

drop-replicate : (m n : ℕ) → drop {A = ℕ} m (replicate n 0) ≡ replicate (n - m) 0
drop-replicate zero n = let e : n - 0 ≡ n = omega arith in rw e refl
drop-replicate (suc m) zero = let e : 0 - suc m ≡ 0 = omega arith in rw e refl
drop-replicate (suc m) (suc n) =
    let e : suc n - suc m ≡ n - m = omega arith in rw e (drop-replicate m n)

abbrev ended : Bool → Stream
ended broken = record { rest = []; broken = broken; eof = not broken; err = broken }

-- What is read first, and that it is everything.
abbrev filled : ℕ → List ℕ → ℕ → Stream → Buffer
filled maxlen bytes n f = record {
  bytes = bytes ++ drop n (replicate maxlen 0);
  offset = n;
  file = f;
}

read_loop-first :
    (fuel maxlen : ℕ) (bytes : List ℕ) (file f g : Stream)
    → length bytes < 2 ^ 31
    → fread maxlen file ≡ (bytes, f)
    → fread (maxlen - length bytes) f ≡ ([], g)
    → (bytes ≡ [] → f ≡ g)
    → read_loop (suc (suc fuel)) maxlen (start maxlen file)
      ≡ some (filled maxlen bytes (length bytes) g)
read_loop-first fuel maxlen [] file f g small first second same_file =
    let z : maxlen - 0 ≡ maxlen = omega arith in
    read_loop-nothing (suc fuel) maxlen (start maxlen file) g
      (ap (λ n. fread n file) z ∙ first ∙ ap (λ s. ([], s)) (same_file refl))
read_loop-first fuel maxlen (x ∷ xs) file f g small first second same_file =
    let n : ℕ = length (x ∷ xs) in
    let z : maxlen - 0 ≡ maxlen = omega arith in
    let e : 0 + length (x ∷ xs) ≡ length (x ∷ xs) = omega arith in
    let b : Buffer = record {
      bytes = write_at 0 (x ∷ xs) (replicate maxlen 0);
      offset = length (x ∷ xs);
      file = f;
    } in
    read_loop-something (suc fuel) maxlen (start maxlen file) x xs f (length (x ∷ xs)) small e
      (ap (λ k. fread k file) z ∙ first)
    ∙ (read_loop-nothing fuel maxlen b g second ∙ rw e refl)

-- The buffer and the indicators behind the loop, for every file.
abbrev read : ℕ → List ℕ → Bool → Buffer
read maxlen content broken =
    if ltb (length content) maxlen
    then filled maxlen content (length content) (ended broken)
    else filled maxlen (take maxlen content) maxlen
        (record (opened content broken) { rest = drop maxlen content })

-- The loop ends in its second turn at the latest.
pub read_loop_lem :
    (fuel maxlen : ℕ) (content : List ℕ) (broken : Bool)
    → 2 ≤ fuel
    → maxlen < 2 ^ 31
    → read_loop fuel maxlen (start maxlen (opened content broken))
      ≡ some (read maxlen content broken)
read_loop_lem zero maxlen content broken enough small = absurd (omega arith)
read_loop_lem (suc zero) maxlen content broken enough small = absurd (omega arith)
read_loop_lem (suc (suc fuel)) maxlen content broken enough small =
    elim (dec_lt (length content) maxlen) [
      | yes h ↦ rw (lt→ltb (length content) maxlen h) (
          read_loop-first fuel maxlen content (opened content broken) (ended broken) (ended broken)
            (omega arith) (fread-all maxlen (opened content broken) h)
            (fread-all (maxlen - length content) (ended broken) (omega arith)) (λ _. refl))
      | no h ↦
          let l : length (take maxlen content) ≡ maxlen =
            omega (arith, length-take maxlen content) in
          let f : Stream = record (opened content broken) { rest = drop maxlen content } in
          let z : maxlen - length (take maxlen content) ≡ 0 = omega arith in
          rw (ge→ltb (length content) maxlen (omega arith)) (
            read_loop-first fuel maxlen (take maxlen content) (opened content broken) f f
              (omega arith) (fread-some maxlen (opened content broken) (omega arith))
              (rw (z, le→leb 0 (length (drop maxlen content)) (omega arith)) refl) (λ _. refl)
            ∙ ap (λ n. some (filled maxlen (take maxlen content) n f)) l)
    ]

abbrev pub file_read : ℕ → List ℕ → Bool → List Resource → Option (List ℕ × ℕ) × List Resource
file_read maxlen content broken held =
    if ltb (length content) maxlen && not broken
    then (
      some (content ++ replicate (maxlen - length content) 0, length content),
      code_buffer ∷ held,
    )
    else (none, held)

finish_read-read :
    (maxlen : ℕ) (content : List ℕ) (broken : Bool) (held : List Resource)
    → finish_read (read maxlen content broken) held ≡ file_read maxlen content broken held
finish_read-read maxlen content true held = elim (dec_lt (length content) maxlen) [
  | yes h ↦ rw (lt→ltb (length content) maxlen h) refl
  | no h ↦ rw (ge→ltb (length content) maxlen (omega arith)) refl
]
finish_read-read maxlen content false held = elim (dec_lt (length content) maxlen) [
  | yes h ↦ rw (lt→ltb (length content) maxlen h, drop-replicate (length content) maxlen) refl
  | no h ↦ rw (ge→ltb (length content) maxlen (omega arith)) refl
]

-- With fuel for two turns of the loop, a bound below 2^31 and memory for the buffer, `readfile` returns
-- for every file that opens: the bytes with zeros behind them, and their number, exactly if they are
-- fewer than the bound and no error comes. What was acquired is given back, but for the buffer of a file
-- that was read.
pub readfile_lem :
    (fuel maxlen : ℕ) (content : List ℕ) (broken : Bool) (held : List Resource)
    → 2 ≤ fuel
    → maxlen < 2 ^ 31
    → readfile fuel maxlen true (some (opened content broken)) held
      ≡ some (returns (file_read maxlen content broken held))
unfolding readfile
readfile_lem fuel maxlen content broken held enough small =
    rw (readfile, read_loop_lem fuel maxlen content broken enough small)
      (ap (λ r. some (returns r)) (finish_read-read maxlen content broken held))
