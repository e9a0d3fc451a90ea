-- ===== src/Tests/Dictionary.antt =====
-- A dictionary of the key-value server with a heap of blocks: it obeys the laws that the commands rely
-- on.
use bo_atom.Prelude.{
  ℕ, ◌+◌, ◌<◌, ◌≡◌, refl, ap, sym, ◌∙◌, true, false, Option, none, some, if◌then◌else◌, ◌==◌, arith,
  length, Bool-cases, inl, inr, ◌⊎◌, [], ◌∷◌,
}
use mathlib.Core.Path.{subst}
use mathlib.Core.Option.{some-injective, none-ne-some}
use bo_atom.KeyValue.Store.{Bytes, same_bytes, DictItem, Dict}
use bo_atom.KeyValue.Store.Meaning.{Changes, IsDict}
use bo_atom.KeyValue.Store.Requests.{same_bytes→≡}
use mathlib.Core.Bool.{true≢false}

-- the keys with their items, the blocks, and the address of the next block
pub record Heap : Type 0 where
  pub table : Bytes → Option DictItem
  pub blocks : ℕ → Option Bytes
  pub next : ℕ

abbrev item_at : ℕ → Bytes → DictItem
item_at a v = record { item = a; length = length v }

abbrev store_in : Heap → Bytes → Bytes → Heap
store_in h k v = record {
  table = λ k'. if same_bytes k k' then some (item_at h.next v) else h.table k';
  blocks = λ a. if h.next == a then some v else h.blocks a;
  next = h.next + 1;
}

abbrev free_old : Option DictItem → Heap → Heap
free_old none h = h
free_old (some old) h = record h { blocks = λ a. if old.item == a then none else h.blocks a }

abbrev add_if : Option DictItem → Heap → Option Heap
add_if none h = some h
add_if (some old) h = none

abbrev pub heap_dict : Dict Heap
heap_dict = record {
  find = λ h k. h.table k;
  load = λ h a. h.blocks a;
  add = λ h k v. add_if (h.table k) (store_in h k v);
  replace = λ h k v. free_old (h.table k) (store_in h k v);
}

-- Every key has a block of its own, below the address of the next.
pub record IsHeap (h : Heap) : Type 0 where
  pub low : (k : Bytes) (it : DictItem) → h.table k ≡ some it → it.item < h.next
  pub owned :
      (k : Bytes) (it : DictItem)
      → h.table k ≡ some it
      → (v : Bytes) × (h.blocks it.item ≡ some v) × (it.length ≡ length v)
  pub apart :
      (k k' : Bytes) (it it' : DictItem)
      → h.table k ≡ some it
      → h.table k' ≡ some it'
      → it.item ≡ it'.item
      → k ≡ k'

abbrev pub no_blocks : Heap
no_blocks = record { table = λ k. none; blocks = λ a. none; next = 0 }

pub no_blocks-IsHeap : IsHeap no_blocks
no_blocks-IsHeap = record {
  low = λ k it e. absurd (none-ne-some _ e);
  owned = λ k it e. absurd (none-ne-some _ e);
  apart = λ k k' it it' e f g. absurd (none-ne-some _ e);
}

same_bytes_refl : (k : Bytes) → same_bytes k k ≡ true
same_bytes_refl [] = refl
same_bytes_refl (x ∷ k) = ground (arith, same_bytes_refl k)

same_item : {it it' : DictItem} → some it ≡ some it' → it.item ≡ it'.item
same_item e = ap (λ (i : DictItem). i.item) (some-injective _ _ e)

module _ (h : Heap) (k v : Bytes) (valid : IsHeap h) where
  -- the heap behind dictAdd, or behind dictReplace of the item `o`
  abbrev after : Option DictItem → Heap
  after o = free_old o (store_in h k v)

  after-table :
      (o : Option DictItem) (k' : Bytes)
      → (after o).table k' ≡ (if same_bytes k k' then some (item_at h.next v) else h.table k')
  after-table none k' = refl
  after-table (some old) k' = refl

  after-next : (o : Option DictItem) → (after o).next ≡ h.next + 1
  after-next none = refl
  after-next (some old) = refl

  after-stored : (o : Option DictItem) → h.table k ≡ o → (after o).blocks h.next ≡ some v
  after-stored none e = ground arith
  after-stored (some old) e = ground (arith, valid.low k old e)

  after-keeps :
      (o : Option DictItem) (k' : Bytes) (it : DictItem) (w : Bytes)
      → h.table k ≡ o
      → h.table k' ≡ some it
      → same_bytes k k' ≡ false
      → h.blocks it.item ≡ some w
      → (after o).blocks it.item ≡ some w
  after-keeps none k' it w e found other here =
      let apart : (h.next == it.item) ≡ false = ground (arith, valid.low k' it found) in
      rw apart here
  after-keeps (some old) k' it w e found other here =
      let new : (h.next == it.item) ≡ false = ground (arith, valid.low k' it found) in
      elim (Bool-cases (old.item == it.item)) [
        | inr differ ↦ rw (differ, new) here
        | inl meet ↦
            let key = valid.apart k k' old it e found (ground (arith, meet)) in
            let same : same_bytes k k' ≡ true =
              subst (λ l. same_bytes k l ≡ true) key (same_bytes_refl k) in
            absurd (true≢false (sym same ∙ other))
      ]

  after-frees :
      (o : Option DictItem) (old : DictItem)
      → h.table k ≡ o
      → h.table k ≡ some old
      → (after o).blocks old.item ≡ none
  after-frees none old e found = absurd (none-ne-some _ (sym e ∙ found))
  after-frees (some it) old e found =
      let met : (it.item == old.item) ≡ true = ground (arith, same_item (sym e ∙ found)) in
      rw met refl

  -- What a key finds afterwards is the new item, or what it found before.
  after-cases :
      (o : Option DictItem) (k' : Bytes) (it : DictItem)
      → (after o).table k' ≡ some it
      → ((k ≡ k') × (item_at h.next v ≡ it)) ⊎ ((same_bytes k k' ≡ false) × (h.table k' ≡ some it))
  after-cases o k' it e = elim (Bool-cases (same_bytes k k')) [
    | inl same ↦
        inl (same_bytes→≡ k k' same, some-injective _ _ (sym (after-table o k' ∙ rw same refl) ∙ e))
    | inr other ↦ inr (other, sym (after-table o k' ∙ rw other refl) ∙ e)
  ]

  after-low :
      (o : Option DictItem) (k' : Bytes) (it : DictItem)
      → (after o).table k' ≡ some it
      → it.item < (after o).next
  after-low o k' it e = elim (after-cases o k' it e) [
    | inl (same, new) ↦ omega (arith, after-next o, ap (λ (i : DictItem). i.item) new)
    | inr (other, old) ↦ omega (arith, after-next o, valid.low k' it old)
  ]

  after-owned :
      (o : Option DictItem) (k' : Bytes) (it : DictItem)
      → h.table k ≡ o
      → (after o).table k' ≡ some it
      → (w : Bytes) × ((after o).blocks it.item ≡ some w) × (it.length ≡ length w)
  after-owned o k' it free e = elim (after-cases o k' it e) [
    | inl (same, new) ↦
        subst
          (λ (i : DictItem).
            (w : Bytes) × ((after o).blocks i.item ≡ some w) × (i.length ≡ length w))
          new (v, after-stored o free, refl)
    | inr (other, old) ↦
        let (w, here, size) = valid.owned k' it old in
        (w, after-keeps o k' it w free old other here, size)
  ]

  after-apart :
      (o : Option DictItem) (i j : Bytes) (it it' : DictItem)
      → (after o).table i ≡ some it
      → (after o).table j ≡ some it'
      → it.item ≡ it'.item
      → i ≡ j
  after-apart o i j it it' e f meet = elim (after-cases o i it e) [
    | inl (same, new) ↦ elim (after-cases o j it' f) [
      | inl (same', new') ↦ sym same ∙ same'
      | inr (other, old) ↦
          absurd (omega (arith, valid.low j it' old, ap (λ (i : DictItem). i.item) new, meet))
    ]
    | inr (other, old) ↦ elim (after-cases o j it' f) [
      | inl (same', new') ↦
          absurd (omega (arith, valid.low i it old, ap (λ (i : DictItem). i.item) new', meet))
      | inr (other', old') ↦ valid.apart i j it it' old old' meet
    ]
  ]

  after-Changes : (o : Option DictItem) → h.table k ≡ o → Changes heap_dict IsHeap h (after o) k v
  after-Changes o e = record {
    valid = record {
      low = after-low o;
      owned = λ k' it. after-owned o k' it e;
      apart = after-apart o;
    };
    new = item_at h.next v;
    finds = after-table o;
    stored = after-stored o e;
    sized = refl;
    keeps = λ k' it w. after-keeps o k' it w e;
    frees = λ old. after-frees o old e;
  }

added :
    (h h' : Heap) (k v : Bytes) (o : Option DictItem)
    → IsHeap h
    → h.table k ≡ o
    → add_if o (store_in h k v) ≡ some h'
    → Changes heap_dict IsHeap h h' k v
added h h' k v none valid e run =
    subst (λ h'. Changes heap_dict IsHeap h h' k v) (some-injective _ _ run)
      (after-Changes h k v valid none e)
added h h' k v (some old) valid e run = absurd (none-ne-some _ run)

not_added :
    (h : Heap) (k v : Bytes) (o : Option DictItem)
    → h.table k ≡ o
    → add_if o (store_in h k v) ≡ none
    → (old : DictItem) × (h.table k ≡ some old)
not_added h k v none e run = absurd (none-ne-some _ (sym run))
not_added h k v (some old) e run = (old, e)

pub heap_dict-IsDict : IsDict heap_dict IsHeap
heap_dict-IsDict = record {
  holds = λ h k it valid e. valid.owned k it e;
  adds = λ h h' k v valid run. added h h' k v (h.table k) valid refl run;
  add_fails = λ h k v valid run. not_added h k v (h.table k) refl run;
  replaces = λ h k v old valid e. after-Changes h k v valid (h.table k) refl;
}
