-- ===== src/SkipList/Remove/Parts.antt =====
-- The fields of the nodes and of the list around a node that is deleted, and free of such a node.
use bo_atom.Prelude.{
  ℕ, ◌<◌, ◌≡◌, refl, ◌∙◌, sym, false, Option, none, some, List, [], ◌∷◌, ◌++◌, ◌==◌, if◌then◌else◌,
}
use bo_atom.Server.Clients.Refines.{==_sym}
use bo_atom.SkipList.{Zsl, put, release, free_node}
use bo_atom.SkipList.Chain.{
  Entry, IsSkip, Holds, Absent, Distinct, Heights, Backs, first, last_of, put-same, put-other,
}
use bo_atom.SkipList.Parts.{Linked-put, Absent-right}
use bo_atom.SkipList.Insert.Backs.{Holds-put, Backs-put, last_of-append, last_of-insert}
use bo_atom.SkipList.Remove.{unlink_back}

module _ {ℓ} {A : Type ℓ} where
  pub Holds-remove :
      (obj : ℕ → Option (Option A)) (front back : List (Entry A)) (old : Entry A)
      → Holds obj (front ++ old ∷ back)
      → (obj old.at ≡ some (some old.obj)) × Holds obj (front ++ back)
  Holds-remove obj [] back old h = h
  Holds-remove obj (e ∷ front) back old h =
      let (at, rest) = Holds-remove obj front back old h.1 in (at, (h.0, rest))

  pub Heights-remove :
      (n : ℕ) (front back : List (Entry A)) (old : Entry A)
      → Heights n (front ++ old ∷ back)
      → (0 < old.height) × Heights n (front ++ back)
  Heights-remove n [] back old h = (h.0, h.2)
  Heights-remove n (e ∷ front) back old h =
      let (at, rest) = Heights-remove n front back old h.2 in (at, (h.0, h.1, rest))

  pub Absent-remove :
      (p : ℕ) (front back : List (Entry A)) (old : Entry A)
      → Absent p (front ++ old ∷ back)
      → (p == old.at) ≡ false × Absent p (front ++ back)
  Absent-remove p [] back old a = a
  Absent-remove p (e ∷ front) back old a =
      let (at, rest) = Absent-remove p front back old a.1 in (at, (a.0, rest))

  -- `backward` after zslDeleteNode, when `v` is that of the deleted node
  abbrev pub backward_of :
      (ℕ → Option (Option ℕ)) → Option ℕ → List (Entry A) → ℕ → Option (Option ℕ)
  backward_of b v [] = b
  backward_of b v (e ∷ es) = put b e.at (some v)

  pub Backs-remove :
      (b : ℕ → Option (Option ℕ)) (pre : Option ℕ) (front back : List (Entry A)) (old : Entry A)
      → Distinct (front ++ old ∷ back)
      → Backs b pre (front ++ old ∷ back)
      → (b old.at ≡ some (last_of pre front))
        × Backs b (some old.at) back
        × Backs (backward_of b (last_of pre front) back) pre (front ++ back)
  Backs-remove b pre [] [] old d k = (k.0, tt, tt)
  Backs-remove b pre [] (y ∷ back) old d k =
      (k.0, k.1, (put-same b y.at _, Backs-put b (some y.at) y.at _ back d.1.0 k.1.1))
  Backs-remove b pre (e ∷ front) [] old d k =
      let (at, rest, all) = Backs-remove b (some e.at) front [] old d.1 k.1 in
      (at, rest, (k.0, all))
  Backs-remove b pre (e ∷ front) (y ∷ back) old d k =
      let (at, rest, all) = Backs-remove b (some e.at) front (y ∷ back) old d.1 k.1 in
      let away = (Absent-right e.at front (old ∷ y ∷ back) d.0).1.0 in
      (at, rest, (put-other b y.at e.at _ (==_sym e.at y.at away) ∙ k.0, all))

  pub unlink_back_lem :
      (back : List (Entry A)) (v pre : Option ℕ) (y : Zsl A)
      → Backs y.backward pre back
      → unlink_back (first back) v y
        ≡ some (record y {
          backward = backward_of y.backward v back;
          tail = elim back [ [] ↦ v | _ ∷ _ ↦ y.tail ];
        })
  unfolding unlink_back
  unlink_back_lem [] v pre y b = refl
  unlink_back_lem (e ∷ back) v pre y b = rw (b.0) refl

  pub tail-remove :
      (front back : List (Entry A)) (old : Entry A) (t : Option ℕ)
      → t ≡ last_of none (front ++ old ∷ back)
      → elim back [ [] ↦ last_of none front | _ ∷ _ ↦ t ] ≡ last_of none (front ++ back)
  tail-remove front [] old t e = go none front
    where
      go : (pre : Option ℕ) (es : List (Entry A)) → last_of pre es ≡ last_of pre (es ++ [])
      go pre [] = refl
      go pre (e ∷ es) = go (some e.at) es
  tail-remove front (y ∷ back) old t e =
      e ∙ last_of-insert none front (y ∷ back) old ∙ sym (last_of-append none front back y)

  -- free of a node that is not in the list
  pub free_node-IsSkip :
      (z : Zsl A) (es : List (Entry A)) (p : ℕ) (a : A)
      → IsSkip z es
      → z.obj p ≡ some (some a)
      → (z.header == p) ≡ false
      → Absent p es
      → (z' : Zsl A) × (free_node p z ≡ some z')
        × IsSkip z' es
        × (z'.header ≡ z.header)
        × (z'.level ≡ z.level)
        × (z'.has_free ≡ z.has_free)
        × (z'.freed ≡ (if z.has_free then z.freed ++ a ∷ [] else z.freed))
  unfolding free_node
  free_node-IsSkip z es p a s o hp away = (
    record (release p z) { freed = if z.has_free then z.freed ++ a ∷ [] else z.freed },
    rw o refl,
    record {
      head_obj = put-other z.obj p z.header _ (==_sym z.header p hp) ∙ s.head_obj;
      head = λ i b. put-other (z.column i) p z.header _ (==_sym z.header p hp) ∙ s.head i b;
      above = λ i b c.
          let (h, there) = s.above i b c in
          (h, put-other (z.column i) p z.header _ (==_sym z.header p hp) ∙ there);
      linked = λ i. Linked-put i p (z.column i) none es away (s.linked i);
      holds = Holds-put z.obj p none es away s.holds;
      backs = Backs-put z.backward none p none es away s.backs;
      tail = s.tail;
      distinct = s.distinct;
      heights = s.heights;
      low = s.low;
      high = s.high;
      counted = s.counted;
    },
    refl,
    refl,
    refl,
    refl,
  )
