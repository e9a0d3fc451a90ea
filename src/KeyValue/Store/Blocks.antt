-- ===== src/KeyValue/Store/Blocks.antt =====
-- How long a response to GET can be read: the blocks of the dictionary's values that SETs free.
use bo_atom.Prelude.{
  ◌≡◌, refl, sym, ap, ◌∙◌, true, false, Option, none, some, List, [], ◌∷◌, arith, Bool-cases,
  Option-cases, inl, inr,
}
use mathlib.Core.Path.{subst}
use bo_atom.KeyValue.Store.{
  Bytes, same_bytes, DictItem, Dict, borrowed, read_block, stored_response,
}
use bo_atom.KeyValue.Store.Meaning.{Changes, IsDict, loaded, value_of}
use bo_atom.KeyValue.Store.Requests.{
  is_nil, false≢true, same_bytes→≡, Op, put, fetch, puts, puts_last, response_of, GetAnswered,
  Answered,
}

module _ {ℓ} {D : Type ℓ} (dict : Dict D) (Valid : D → Type 0) where
  -- the dictionary before and after a list of operations
  pub data Runs : List Op → D → D → Type ℓ where
    done : {d : D} → Runs [] d d
    stores :
        {d d₁ d₂ : D} {k v : Bytes} {os : List Op}
        → Changes dict Valid d d₁ k v
        → Runs os d₁ d₂
        → Runs (put k v ∷ os) d d₂
    reads : {d d₂ : D} {k : Bytes} {os : List Op} → Runs os d d₂ → Runs (fetch k ∷ os) d d₂

  -- While its key is not set, a block stays; the SET that comes last frees it.
  pub survives :
      {os : List Op} {d d' : D} (k : Bytes) (it : DictItem) (w : Bytes)
      → Runs os d d'
      → dict.find d k ≡ some it
      → dict.load d it.item ≡ some w
      → puts k os ≡ false
      → dict.load d' it.item ≡ some w
  survives k it w done found here quiet = here
  survives k it w (reads r) found here quiet = survives k it w r found here quiet
  survives k it w (stores {k = k'} c r) found here quiet =
      let other : same_bytes k' k ≡ false = ground (arith, quiet) in
      survives k it w r (rw (c.finds k, other) found) (c.keeps k it w found other here)
        (rw other at quiet)

  pub is_freed :
      {os : List Op} {d d' : D} (k : Bytes) (it : DictItem) (w : Bytes)
      → Runs os d d'
      → dict.find d k ≡ some it
      → dict.load d it.item ≡ some w
      → puts_last k os ≡ true
      → dict.load d' it.item ≡ none
  is_freed k it w done found here last = absurd (false≢true last)
  is_freed k it w (reads r) found here last = is_freed k it w r found here last
  is_freed k it w (stores {k = k'} {os = os} c r) found here last =
      elim (Bool-cases (same_bytes k' k)) [
        | inl same ↦
            freed_now os r (c.frees it (ap (dict.find _) (same_bytes→≡ k' k same) ∙ found))
              (rw same at last)
        | inr other ↦
            is_freed k it w r (rw (c.finds k, other) found) (c.keeps k it w found other here)
              (rw other at last)
      ]
    where
      freed_now :
          {d d' : D} (os : List Op)
          → Runs os d d'
          → dict.load d it.item ≡ none
          → is_nil os ≡ true
          → dict.load d' it.item ≡ none
      freed_now [] done gone e = gone
      freed_now (o ∷ os) r gone e = absurd (false≢true e)

module _ {ℓ} {D : Type ℓ} (dict : Dict D) (Valid : D → Type 0) (lawful : IsDict dict Valid) where
  -- GET_cmd's response, as it reads after the operations behind it
  pub get-Answered :
      {os : List Op} {d d' : D} (k : Bytes)
      → Valid d
      → Runs dict Valid os d d'
      → Answered dict d' (fetch k) os (value_of dict d) (response_of (dict.find d k))
  get-Answered {os} {d} {d'} k valid r = elim (Option-cases (dict.find d k)) [
    | inl absent ↦
        subst (λ (o : Option DictItem). GetAnswered dict d' k os (loaded dict d o) (response_of o))
          (sym absent) (λ q. refl, λ q. absurd (false≢true q))
    | inr (it, found) ↦
        let (v, here, size) = lawful.holds d k it valid found in
        subst (λ (o : Option DictItem). GetAnswered dict d' k os (loaded dict d o) (response_of o))
          (sym found)
          (subst (λ (o : Option Bytes). GetAnswered dict d' k os o (borrowed it)) (sym here)
            (
              λ quiet.
                  ap (λ o. read_block o it.length) (survives dict Valid k it v r found here quiet)
                  ∙ ap (λ n. some (stored_response v n)) size,
              λ last.
                  ap (λ o. read_block o it.length) (is_freed dict Valid k it v r found here last),
            ))
  ]
