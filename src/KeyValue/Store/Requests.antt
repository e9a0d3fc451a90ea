-- ===== src/KeyValue/Store/Requests.antt =====
-- What clients ask of the commands of Z_my_work_mem/cmd.c, and the answers that a map gives.
use bo_atom.Prelude.{
  ℕ, ◌≡◌, refl, sym, ap, Bool, true, false, ◌&&◌, ◌||◌, Option, none, some, List, [], ◌∷◌,
  if◌then◌else◌, length, arith,
}
use mathlib.Core.Bool.{true≢false}
use bo_atom.KeyValue.Items.{Items, cmd_complete, length_at, value_at}
use bo_atom.KeyValue.Store.{
  Bytes, same_bytes, DictItem, Dict, Reply, own, borrowed, item, read_reply, is_set_word,
  is_get_word, ok_response, err_response, stored_response,
}

abbrev pub is_some {ℓ} : {A : Type ℓ} → Option A → Bool
is_some none = false
is_some (some a) = true

abbrev pub is_nil {ℓ} : {A : Type ℓ} → List A → Bool
is_nil [] = true
is_nil (x ∷ xs) = false

pub false≢true : false ≡ true → ⊥
false≢true e = true≢false (sym e)

pub same_bytes→≡ : (xs ys : Bytes) → same_bytes xs ys ≡ true → xs ≡ ys
same_bytes→≡ [] [] e = refl
same_bytes→≡ [] (y ∷ ys) e = absurd (false≢true e)
same_bytes→≡ (x ∷ xs) [] e = absurd (false≢true e)
same_bytes→≡ (x ∷ xs) (y ∷ ys) e =
    let head : x ≡ y = ground (arith, e) in
    let tail : same_bytes xs ys ≡ true = ground (arith, e) in
    rw head (ap (λ l. y ∷ l) (same_bytes→≡ xs ys tail))

-- What a client asks for.
pub data Op : Type 0 where
  put : Bytes → Bytes → Op
  fetch : Bytes → Op

abbrev pub Map : Type 0
Map = Bytes → Option Bytes

-- The map after an operation, and the response to it.
abbrev pub next_map : Op → Map → Map
next_map (put k v) m k' = if same_bytes k k' then some v else m k'
next_map (fetch k) m k' = m k'

abbrev pub fetched : Option Bytes → Items
fetched none = err_response
fetched (some v) = stored_response v (length v)

abbrev pub answer : Op → Map → Items
answer (put k v) m = ok_response
answer (fetch k) m = fetched (m k)

abbrev pub last_map : List Op → Map → Map
last_map [] m = m
last_map (o ∷ os) m = last_map os (next_map o m)

-- The operation sets the key; one of the operations does; and the last one does, and none before it.
abbrev pub sets : Bytes → Op → Bool
sets k (put k' v) = same_bytes k' k
sets k (fetch k') = false

abbrev pub puts : Bytes → List Op → Bool
puts k [] = false
puts k (o ∷ os) = sets k o || puts k os

abbrev pub puts_last : Bytes → List Op → Bool
puts_last k [] = false
puts_last k (o ∷ os) = let rest = puts_last k os in if sets k o then is_nil os else rest

-- GET_cmd's response to what the dictionary finds.
abbrev pub response_of : Option DictItem → Reply
response_of none = own err_response
response_of (some it) = borrowed it

-- A complete command that asks for `o`. After a SET, whatever the freed first item reads is not GET.
abbrev pub Asks : (Items → Bytes) → Items → Op → Type 0
Asks stale c (put k v) =
    (c.args_num ≡ 3)
    × (is_set_word (length_at c 0) (value_at c 0) ≡ true)
    × (is_get_word (length_at c 0) (stale c) ≡ false)
    × (item c 1 ≡ k)
    × (item c 2 ≡ v)
Asks stale c (fetch k) =
    (c.args_num ≡ 2)
    × (is_set_word (length_at c 0) (value_at c 0) ≡ false)
    × (is_get_word (length_at c 0) (value_at c 0) ≡ true)
    × (item c 1 ≡ k)

-- The queue asks for the operations, in order.
abbrev pub AllAsk : (Items → Bytes) → List (ℕ × Items) → List Op → Type 0
AllAsk stale [] [] = Unit
AllAsk stale (c ∷ cs) (o ∷ os) = (cmd_complete c.1 ≡ true) × Asks stale c.1 o × AllAsk stale cs os
AllAsk stale _ _ = ⊥

module _ {ℓ} {D : Type ℓ} (dict : Dict D) (d : D) where
  -- The response to `o` as it reads in the dictionary `d`, where the operations `later` came behind `o`
  -- and `m` is the map before `o`. A SET is answered by OK. A GET is answered by the value of its
  -- key, or by ERR when the key is absent, unless the key is there and is set later: then, right
  -- after the first such SET, the response reads a freed block.
  abbrev pub GetAnswered : Bytes → List Op → Option Bytes → Reply → Type 0
  GetAnswered k later o r =
      ((is_some o && puts k later) ≡ false → read_reply dict d r ≡ some (fetched o))
      × ((is_some o && puts_last k later) ≡ true → read_reply dict d r ≡ none)

  abbrev pub Answered : Op → List Op → Map → Reply → Type 0
  Answered (put k v) later m r = read_reply dict d r ≡ some ok_response
  Answered (fetch k) later m r = GetAnswered k later (m k) r

  abbrev pub AllAnswered : List Op → Map → List Reply → Type 0
  AllAnswered [] m [] = Unit
  AllAnswered (o ∷ os) m (r ∷ rs) = Answered o os m r × AllAnswered os (next_map o m) rs
  AllAnswered _ m _ = ⊥
