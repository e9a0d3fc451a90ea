-- ===== src/NetTool/Read.antt =====
-- readn fills the buffer exactly, in however many pieces the bytes come.
use bo_atom.Prelude.{
  ℕ, ◌+◌, ◌-◌, ◌≤◌, ◌<◌, ◌≡◌, sym, ap, List, [], ◌∷◌, ◌++◌, leb, length, take, arith, Bool-cases,
  leb→le, tests, zero, suc, inl, inr, length-append, take-append,
}
use mathlib.Core.Path.{subst}
use mathlib.Core.List.{append_assoc}
use native.Mathlib.Numerals.{unary_clauses}
use bo_atom.NetTool.{
  Wait, Input, Round, ready, timed_out, wait_interrupted, wait_failed, got, input_again,
  input_failed, end_of_file, done, readn_loop, readn,
}

-- the bytes that a round brings
abbrev pub arrived : Wait → Input → List ℕ
arrived ready (got bytes) = bytes
arrived ready _ = []
arrived _ _ = []

-- the bytes that the rounds bring, in order
abbrev pub stream : List (Round Input) → List ℕ
stream [] = []
stream (r ∷ rs) = arrived r.wait r.call ++ stream rs

-- What read(2) promises, with `left` bytes asked for: a round brings at most these, and a
-- positive count is of one byte at least.
abbrev pub Brings : ℕ → Wait → Input → Type 0
Brings left ready (got bytes) = (0 < length bytes) × (length bytes ≤ left)
Brings left ready _ = Unit {0}
Brings left _ _ = Unit {0}

-- The rounds keep to it while `left` bytes are still wanted.
abbrev pub Obeys : ℕ → List (Round Input) → Type 0
Obeys left [] = Unit {0}
Obeys left (r ∷ rs) =
    Brings left r.wait r.call
    × (0 < left - length (arrived r.wait r.call) → Obeys (left - length (arrived r.wait r.call)) rs)

-- No round of the list ends the transfer early.
abbrev pub Benign : Wait → Input → Type 0
Benign ready (got bytes) = Unit {0}
Benign ready input_again = Unit {0}
Benign ready _ = ⊥
Benign wait_interrupted _ = Unit {0}
Benign _ _ = ⊥

abbrev pub AllBenign : List (Round Input) → Type 0
AllBenign [] = Unit {0}
AllBenign (r ∷ rs) = Benign r.wait r.call × AllBenign rs

fills :
    (size sum : ℕ) (bytes rest : List ℕ)
    → sum < size
    → size ≤ sum + length bytes
    → length bytes ≤ size - sum
    → take (size - sum) (bytes ++ rest) ≡ bytes
fills size sum bytes rest lt all few = take-append (size - sum) bytes rest (omega arith)

take-beyond :
    (n : ℕ) (xs ys : List ℕ) → length xs ≤ n → take n (xs ++ ys) ≡ xs ++ take (n - length xs) ys
take-beyond n [] ys h = ap (λ k. take k ys) (omega arith)
take-beyond zero (x ∷ xs) ys h = absurd (omega arith)
take-beyond (suc n) (x ∷ xs) ys h = simp (unary_clauses, take-beyond n xs ys (omega arith))

pub minus_plus : (a b c : ℕ) → a - (b + c) ≡ a - b - c
minus_plus a b c = omega arith

pub the_rest : (a : ℕ) → a - 0 ≡ a
the_rest a = omega arith

-- Over these rounds the loop, from any point, stores exactly what is wanted.
abbrev Fills : ℕ → List (Round Input) → Type 0
unfolding readn_loop
Fills size rs =
    (sum : ℕ) (buf : List ℕ)
    → sum < size
    → Obeys (size - sum) rs
    → AllBenign rs
    → size ≤ sum + length (stream rs)
    → readn_loop size sum buf rs ≡ done (buf ++ take (size - sum) (stream rs))

readn_step-stream :
    (size : ℕ) (w : Wait) (call : Input) (rs : List (Round Input))
    → Fills size rs
    → Fills size (record { wait = w; call = call } ∷ rs)
unfolding readn_loop
readn_step-stream size timed_out call rs ih sum buf lt o b enough = elim b.0 [ ]
readn_step-stream size wait_failed call rs ih sum buf lt o b enough = elim b.0 [ ]
readn_step-stream size wait_interrupted call rs ih sum buf lt o b enough =
    ih sum buf lt (subst (λ n. Obeys n rs) (omega arith) (o.1 (omega arith))) b.1 enough
readn_step-stream size ready input_again rs ih sum buf lt o b enough =
    ih sum buf lt (subst (λ n. Obeys n rs) (omega arith) (o.1 (omega arith))) b.1 enough
readn_step-stream size ready input_failed rs ih sum buf lt o b enough = elim b.0 [ ]
readn_step-stream size ready end_of_file rs ih sum buf lt o b enough = elim b.0 [ ]
readn_step-stream size ready (got bytes) rs ih sum buf lt o b enough =
    elim (Bool-cases (leb size (sum + length bytes))) [
      | inl e ↦
          rw (e, fills size sum bytes (stream rs) lt (leb→le size (sum + length bytes) e) o.0.1)
      | inr e ↦ rw (
        e,
        ih (sum + length bytes) (buf ++ bytes) (omega tests)
            (subst (λ n. Obeys n rs) (sym (minus_plus size sum (length bytes))) (o.1 (omega tests)))
            b.1 (omega (arith, length-append bytes (stream rs))),
        append_assoc buf bytes (take (size - (sum + length bytes)) (stream rs)),
        take-beyond (size - sum) bytes (stream rs) o.0.1,
        minus_plus size sum (length bytes),
      )
    ]

readn_loop-stream : (size : ℕ) (rs : List (Round Input)) → Fills size rs
unfolding readn_loop
readn_loop-stream size [] sum buf lt o b enough = absurd (omega arith)
readn_loop-stream size (r ∷ rs) sum buf lt o b enough =
    readn_step-stream size r.wait r.call rs (readn_loop-stream size rs) sum buf lt o b enough

-- If every answer of the system is a ready descriptor or an interruption, never a time-out, an
-- error or the end of file, if each read returns at least one byte and no more than it was asked
-- for, and if at least `size` bytes come, then readn returns 0 with exactly the first `size` of
-- the bytes, in order, however they were cut into pieces. `size` is positive.
pub readn-stream :
    (size : ℕ) (rs : List (Round Input))
    → 0 < size
    → Obeys size rs
    → AllBenign rs
    → size ≤ length (stream rs)
    → readn size rs ≡ done (take size (stream rs))
unfolding readn
readn-stream size rs pos o b enough = rw (
  readn_loop-stream size rs 0 [] pos (subst (λ n. Obeys n rs) (omega arith) o) b (omega arith),
  the_rest size,
)
