-- ===== src/NetTool/Write.antt =====
-- writen sends the buffer exactly, in however many pieces the system takes it.
use bo_atom.Prelude.{
  ℕ, zero, suc, ◌+◌, ◌-◌, ◌≤◌, ◌<◌, ◌≡◌, refl, sym, ◌∙◌, ap, List, [], ◌∷◌, ◌++◌, leb, take, drop,
  arith, tests, Bool-cases, inl, inr, leb→le,
}
use mathlib.Core.Path.{subst}
use bo_atom.NetTool.Read.{minus_plus, the_rest}
use bo_atom.NetTool.{
  Wait, Output, Round, ready, timed_out, wait_interrupted, wait_failed, wrote, output_again,
  output_failed, wrote_nothing, done, writen_loop, writen,
}

-- the number of bytes that a round takes, and that the rounds take
abbrev pub taken : Wait → Output → ℕ
taken ready (wrote n) = n
taken ready _ = 0
taken _ _ = 0

abbrev pub accepted : List (Round Output) → ℕ
accepted [] = 0
accepted (r ∷ rs) = taken r.wait r.call + accepted rs

-- What write(2) promises while `left` bytes are wanted: it takes no more than these.
abbrev pub Obeys : ℕ → List (Round Output) → Type 0
Obeys left [] = Unit {0}
Obeys left (r ∷ rs) =
    (taken r.wait r.call ≤ left)
    × (taken r.wait r.call < left → Obeys (left - taken r.wait r.call) rs)

-- No round of the list ends the transfer early.
abbrev pub Benign : Wait → Output → Type 0
Benign ready (wrote n) = Unit {0}
Benign ready output_again = Unit {0}
Benign ready _ = ⊥
Benign wait_interrupted _ = Unit {0}
Benign _ _ = ⊥

abbrev pub AllBenign : List (Round Output) → Type 0
AllBenign [] = Unit {0}
AllBenign (r ∷ rs) = Benign r.wait r.call × AllBenign rs

the_sum : (n m : ℕ) → suc (n + m) ≡ suc n + m
the_sum n m = omega arith

take-nil : (n : ℕ) → take {A = ℕ} n [] ≡ []
take-nil zero = refl
take-nil (suc n) = refl

take-take-drop : (n m : ℕ) (xs : List ℕ) → take n xs ++ take m (drop n xs) ≡ take (n + m) xs
take-take-drop zero m xs = ap (λ k. take k xs) (omega arith)
take-take-drop (suc n) m [] = take-nil m ∙ sym (take-nil (suc n + m))
take-take-drop (suc n) m (x ∷ xs) =
    ap (λ l. x ∷ l) (take-take-drop n m xs) ∙ ap (λ k. take k (x ∷ xs)) (the_sum n m)

whole : (a b : ℕ) (xs : List ℕ) → a ≤ b → b ≤ a → take b xs ≡ take a xs
whole a b xs le ge = ap (λ k. take k xs) (omega arith)

-- Over these rounds the loop, from any point, sends exactly what is wanted.
abbrev Sends : List ℕ → ℕ → List (Round Output) → Type 0
unfolding writen_loop
Sends buf size rs =
    (sum : ℕ)
    → sum < size
    → Obeys (size - sum) rs
    → AllBenign rs
    → size ≤ sum + accepted rs
    → writen_loop buf size sum (take sum buf) rs ≡ done (take size buf)

writen_step-Sends :
    (buf : List ℕ) (size : ℕ) (w : Wait) (call : Output) (rs : List (Round Output))
    → Sends buf size rs
    → Sends buf size (record { wait = w; call = call } ∷ rs)
unfolding writen_loop
writen_step-Sends buf size timed_out call rs ih sum lt o b enough = elim b.0 [ ]
writen_step-Sends buf size wait_failed call rs ih sum lt o b enough = elim b.0 [ ]
writen_step-Sends buf size wait_interrupted call rs ih sum lt o b enough =
    ih sum lt (subst (λ n. Obeys n rs) (omega arith) (o.1 (omega arith))) b.1 (omega arith)
writen_step-Sends buf size ready output_again rs ih sum lt o b enough =
    ih sum lt (subst (λ n. Obeys n rs) (omega arith) (o.1 (omega arith))) b.1 (omega arith)
writen_step-Sends buf size ready output_failed rs ih sum lt o b enough = elim b.0 [ ]
writen_step-Sends buf size ready wrote_nothing rs ih sum lt o b enough = elim b.0 [ ]
writen_step-Sends buf size ready (wrote n) rs ih sum lt o b enough =
    elim (Bool-cases (leb size (sum + n))) [
      | inl e ↦ rw (
        e,
        take-take-drop sum n buf,
        whole size (sum + n) buf (leb→le size (sum + n) e) (omega arith),
      )
      | inr e ↦ rw (
        e,
        take-take-drop sum n buf,
        ih (sum + n) (omega tests)
            (subst (λ n. Obeys n rs) (sym (minus_plus size sum n)) (o.1 (omega tests))) b.1
            (omega arith),
      )
    ]

writen_loop-Sends : (buf : List ℕ) (size : ℕ) (rs : List (Round Output)) → Sends buf size rs
unfolding writen_loop
writen_loop-Sends buf size [] sum lt o b enough = absurd (omega arith)
writen_loop-Sends buf size (r ∷ rs) sum lt o b enough =
    writen_step-Sends buf size r.wait r.call rs (writen_loop-Sends buf size rs) sum lt o b enough

-- If every answer of the system is a ready descriptor or an interruption, never a time-out or an
-- error, if each write takes no more than it was given, and if at least `size` bytes are taken in
-- all, then writen returns 0 after sending exactly the first `size` bytes of the buffer, in order
-- and each once, however the system cut them into pieces. `size` is positive.
pub writen-sends :
    (buf : List ℕ) (size : ℕ) (rs : List (Round Output))
    → 0 < size
    → Obeys size rs
    → AllBenign rs
    → size ≤ accepted rs
    → writen buf size rs ≡ done (take size buf)
unfolding writen
writen-sends buf size rs pos o b enough =
    writen_loop-Sends buf size rs 0 pos (subst (λ n. Obeys n rs) (sym (the_rest size)) o) b
      (omega arith)
