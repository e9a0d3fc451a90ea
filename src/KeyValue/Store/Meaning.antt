-- ===== src/KeyValue/Store/Meaning.antt =====
-- SET_cmd implements a map from keys to values, over a dictionary that owns the blocks of its values.
use bo_atom.Prelude.{
  ◌≡◌, refl, ap, ◌∙◌, sym, false, Option, none, some, if◌then◌else◌, Bool-cases, Option-cases, inl,
  inr, length,
}
use mathlib.Core.Path.{fun_ext}
use bo_atom.KeyValue.Items.{Items}
use bo_atom.KeyValue.Store.{Bytes, same_bytes, DictItem, Dict, item, set_cmd, own, ok_response}

-- The value `v` is stored under the key `k`: the key finds a block of it, and the other keys find what
-- they found, in blocks that keep their bytes. The block that the key found before is freed.
pub record Changes {ℓ} {D : Type ℓ} (dict : Dict D) (Valid : D → Type 0) (d d' : D) (k v : Bytes)
    : Type ℓ where
  pub valid : Valid d'
  pub new : DictItem
  pub finds :
      (k' : Bytes) → dict.find d' k' ≡ (if same_bytes k k' then some new else dict.find d k')
  pub stored : dict.load d' new.item ≡ some v
  pub sized : new.length ≡ length v
  pub keeps :
      (k' : Bytes) (it : DictItem) (w : Bytes)
      → dict.find d k' ≡ some it
      → same_bytes k k' ≡ false
      → dict.load d it.item ≡ some w
      → dict.load d' it.item ≡ some w
  pub frees : (old : DictItem) → dict.find d k ≡ some old → dict.load d' old.item ≡ none

-- What the dictionary documents, for the states `Valid` that its calls lead to: a key finds a block
-- that is not freed; dictAdd stores under a new key and fails for no other reason than that the key
-- is there; dictReplace stores under a key that is there, and frees the value it had, as the value
-- destructor of the dictionary's type does.
pub record IsDict {ℓ} {D : Type ℓ} (dict : Dict D) (Valid : D → Type 0) : Type ℓ where
  pub holds :
      (d : D) (k : Bytes) (it : DictItem)
      → Valid d
      → dict.find d k ≡ some it
      → (v : Bytes) × (dict.load d it.item ≡ some v) × (it.length ≡ length v)
  pub adds :
      (d d' : D) (k v : Bytes) → Valid d → dict.add d k v ≡ some d' → Changes dict Valid d d' k v
  pub add_fails :
      (d : D) (k v : Bytes)
      → Valid d
      → dict.add d k v ≡ none
      → (old : DictItem) × (dict.find d k ≡ some old)
  pub replaces :
      (d : D) (k v : Bytes) (old : DictItem)
      → Valid d
      → dict.find d k ≡ some old
      → Changes dict Valid d (dict.replace d k v) k v

module _ {ℓ} {D : Type ℓ} (dict : Dict D) where
  -- the bytes that a key finds
  abbrev pub loaded : D → Option DictItem → Option Bytes
  loaded d none = none
  loaded d (some it) = dict.load d it.item

  abbrev pub value_of : D → Bytes → Option Bytes
  value_of d k = loaded d (dict.find d k)

module _ {ℓ} {D : Type ℓ} (dict : Dict D) (Valid : D → Type 0) (lawful : IsDict dict Valid) where
  -- A SET of three items answers OK, whether its key is new or old, and stores its value under its key.
  pub set_cmd-Changes :
      (c : Items) (d : D)
      → Valid d
      → c.args_num ≡ 3
      → ((set_cmd dict c d).1 ≡ own ok_response)
        × Changes dict Valid d (set_cmd dict c d).0 (item c 1) (item c 2)
  unfolding set_cmd
  set_cmd-Changes c d v three = elim (Option-cases (dict.add d (item c 1) (item c 2))) [
    | inl there ↦
        let (old, found) = lawful.add_fails d (item c 1) (item c 2) v there in
        rw (three, there) (refl, lawful.replaces d (item c 1) (item c 2) old v found)
    | inr (d', new) ↦ rw (three, new) (refl, lawful.adds d d' (item c 1) (item c 2) v new)
  ]

  pub Changes-value_of :
      (d d' : D) (k v : Bytes)
      → Valid d
      → Changes dict Valid d d' k v
      → value_of dict d' ≡ (λ k'. if same_bytes k k' then some v else value_of dict d k')
  Changes-value_of d d' k v valid c = fun_ext (λ k'. elim (Bool-cases (same_bytes k k')) [
    | inl same ↦
        let found : dict.find d' k' ≡ some c.new = c.finds k' ∙ rw same refl in
        rw same (ap (loaded dict d') found ∙ c.stored)
    | inr other ↦ elim (Option-cases (dict.find d k')) [
      | inl absent ↦
          let still : dict.find d' k' ≡ none = c.finds k' ∙ rw other absent in
          rw other (ap (loaded dict d') still ∙ sym (ap (loaded dict d) absent))
      | inr (it, found) ↦
          let (w, here, size) = lawful.holds d k' it valid found in
          let still : dict.find d' k' ≡ some it = c.finds k' ∙ rw other found in
          rw other (
            ap (loaded dict d') still
            ∙ c.keeps k' it w found other here
            ∙ sym (ap (loaded dict d) found ∙ here))
    ]
  ])
