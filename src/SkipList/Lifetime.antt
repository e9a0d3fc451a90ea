-- ===== src/SkipList/Lifetime.antt =====
-- zslCreate makes the empty list, and zslFree frees every node of a list once.
use bo_atom.Prelude.{
  ℕ, zero, suc, ◌+◌, ◌<◌, ◌≡◌, refl, ◌∙◌, ap, Bool, true, Option, none, some, List, [], ◌∷◌, ◌++◌,
  ◌==◌, ltb, if◌then◌else◌, arith, length, All, Bool-cases, inl, inr,
}
use bo_atom.Server.Clients.Refines.{==_self}
use bo_atom.SkipList.{Level, Zsl, max_level, put, create, free_node, release}
use bo_atom.SkipList.Chain.{
  Entry, IsSkip, Linked, Holds, Distinct, Heights, reach, reach-first, first, put-same,
}
use bo_atom.SkipList.Parts.{Linked-put}
use bo_atom.SkipList.Insert.Keeps.{bind-some}
use bo_atom.SkipList.Insert.Backs.{Holds-put}
use bo_atom.SkipList.Query.{free_loop, zsl_free}
use bo_atom.SkipList.Remove.Loop.{freed_with, freed_with-cons, freed_with-nil}

header_at :
    (p i : ℕ)
    → i < max_level
    → (if ltb i max_level
          then put {A = Option Level} (λ q. none) p (some (record { forward = none; span = 0 }))
          else (λ q. none))
        p
      ≡ some (record { forward = none; span = 0 })
header_at p i small = let low : ltb i max_level ≡ true = ground arith in rw (low, ==_self p) refl

module _ {ℓ} {A : Type ℓ} where
  put-none : (f : ℕ → Option (Option A)) (q p : ℕ) → f p ≡ none → put f q none p ≡ none
  put-none f q p e = elim (Bool-cases (q == p)) [ inl same ↦ rw same refl | inr other ↦ rw other e ]

  -- zslCreate gives a structure that stands for the empty list.
  pub create-IsSkip : (p : ℕ) (has_free : Bool) → IsSkip (create {A = A} p has_free) []
  unfolding create
  create-IsSkip p has_free = record {
    head_obj = put-same (λ x. none) p (some none);
    head = λ i b. header_at p i (ground arith);
    above = λ i b c. (0, header_at p i (ground arith));
    linked = λ i. tt;
    holds = tt;
    backs = tt;
    tail = refl;
    distinct = (tt, tt);
    heights = tt;
    low = omega arith;
    high = omega arith;
    counted = refl;
  }

  free_step :
      (fuel x : ℕ) (l : Level) (z z' : Zsl A)
      → z.column 0 x ≡ some l
      → free_node x z ≡ some z'
      → free_loop (suc fuel) (some x) z ≡ free_loop fuel l.forward z'
  unfolding free_loop
  free_step fuel x l z z' c f = bind-some c _ ∙ bind-some f _

  free_loop_lem :
      (es : List (Entry A)) (n fuel : ℕ) (z : Zsl A)
      → Holds z.obj es
      → Linked 0 (z.column 0) es
      → Distinct es
      → Heights n es
      → length es < fuel
      → (z' : Zsl A) × (free_loop fuel (first es) z ≡ some z')
        × (z'.freed ≡ freed_with z es)
        × All (λ e. z'.obj e.at ≡ none) es
        × ((p : ℕ) → z.obj p ≡ none → z'.obj p ≡ none)
  unfolding free_loop
  free_loop_lem [] n zero z o l d h w = absurd (omega arith)
  free_loop_lem [] n (suc fuel) z o l d h w = (z, refl, freed_with-nil z, tt, λ p e. e)
  free_loop_lem (e ∷ es) n zero z o l d h w = absurd (omega arith)
  free_loop_lem (e ∷ es) n (suc fuel) z o l d h w =
      let z₁ : Zsl A = record (release e.at z) {
        freed = if z.has_free then z.freed ++ e.obj ∷ [] else z.freed;
      } in
      let run₁ : free_node e.at z ≡ some z₁ = unfold free_node in bind-some o.0 _ in
      let (z₂, run, freed, gone, kept) =
        free_loop_lem es n fuel z₁ (Holds-put z.obj e.at none es d.0 o.1)
          (Linked-put 0 e.at (z.column 0) none es d.0 l.1) d.1 h.2 (omega arith) in
      (
        z₂,
        free_step fuel e.at (reach 0 es) z z₁ (l.0 (ground arith)) run₁
            ∙ ap (λ f. free_loop fuel f z₁) (reach-first n es h.2)
            ∙ run,
        freed ∙ freed_with-cons z z₁ e es refl refl,
        (kept e.at (put-same z.obj e.at none), gone),
        λ p away. kept p (put-none z.obj e.at p away),
      )

  -- zslFree of a sound list follows no bad pointer and reads no freed node; it calls free_obj on
  -- each object once, in order, and frees the header and every node.
  pub zsl_free_lem :
      (z : Zsl A) (es : List (Entry A))
      → IsSkip z es
      → (z' : Zsl A) × (zsl_free z ≡ some z')
        × (z'.freed ≡ freed_with z es)
        × (z'.obj z.header ≡ none)
        × All (λ e. z'.obj e.at ≡ none) es
  unfolding zsl_free
  zsl_free_lem z es s =
      let (z', run, freed, gone, kept) =
        free_loop_lem es z.level (z.length + 1) (release z.header z)
          (Holds-put z.obj z.header none es s.distinct.0 s.holds)
          (Linked-put 0 z.header (z.column 0) none es s.distinct.0 (s.linked 0)) s.distinct.1
          s.heights (omega (arith, s.counted)) in
      (
        z',
        bind-some (s.head 0 (ground (arith, s.low))) _
            ∙ ap (λ f. free_loop (z.length + 1) f (release z.header z))
                (reach-first z.level es s.heights)
            ∙ run,
        freed,
        kept z.header (put-same z.obj z.header none),
        gone,
      )
