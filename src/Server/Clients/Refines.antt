-- ===== src/Server/Clients/Refines.antt =====
-- The linked structure of the clients stands for a list: clientAdd puts a client in front, and
-- clientDelete takes one out, wherever it is.
use bo_atom.Prelude.{ℕ, ◌≡◌, refl, ◌∙◌, true, false, Option, none, some, List, [], ◌∷◌, ◌==◌, arith}
use bo_atom.Server.Clients.{Client, client, Clients, put, client_add}

pub ==_sym : (p q : ℕ) → (p == q) ≡ false → (q == p) ≡ false
==_sym p q h = ground arith

pub ==_self : (p : ℕ) → (p == p) ≡ true
==_self p = ground arith

module _ {ℓ} {B : Type ℓ} where
  abbrev pub first : List (ℕ × B) → Option ℕ
  first [] = none
  first (e ∷ es) = some e.0

  -- From the address `first es`, with `pre` before it, the nodes are the entries of `es`.
  abbrev pub Linked : (ℕ → Option (Client B)) → Option ℕ → List (ℕ × B) → Type ℓ
  Linked h pre [] = Unit
  Linked h pre (e ∷ es) = (h e.0 ≡ some (client (first es) pre e.1)) × Linked h (some e.0) es

  -- The address is not one of the list's.
  abbrev pub Absent : ℕ → List (ℕ × B) → Type 0
  Absent p [] = Unit
  Absent p (e ∷ es) = ((p == e.0) ≡ false) × Absent p es

  abbrev pub Distinct : List (ℕ × B) → Type 0
  Distinct [] = Unit
  Distinct (e ∷ es) = Absent e.0 es × Distinct es

  pub record IsList (c : Clients B) (es : List (ℕ × B)) : Type ℓ where
    pub start : c.queue ≡ first es
    pub linked : Linked c.nodes none es
    pub distinct : Distinct es

  -- A change elsewhere leaves the list.
  pub put-Linked :
      (h : ℕ → Option (Client B)) (p : ℕ) (v : Option (Client B)) (pre : Option ℕ)
      (es : List (ℕ × B))
      → Absent p es
      → Linked h pre es
      → Linked (put h p v) pre es
  put-Linked h p v pre [] a l = tt
  put-Linked h p v pre (e ∷ es) a l = (rw (a.0) (l.0), put-Linked h p v (some e.0) es a.1 l.1)

  pub put-same : (h : ℕ → Option (Client B)) (p : ℕ) (v : Option (Client B)) → put h p v p ≡ v
  put-same h p v = ground arith

  pub put-other :
      (h : ℕ → Option (Client B)) (p i : ℕ) (v : Option (Client B))
      → (p == i) ≡ false
      → put h p v i ≡ h i
  put-other h p i v e = rw e

  -- When the structure stands for a list and the client at `p` is allocated and not in it, clientAdd
  -- follows no bad pointer, and the structure stands for the list with that client in front.
  pub client_add-IsList :
      (c : Clients B) (es : List (ℕ × B)) (p : ℕ) (n : Client B)
      → IsList c es
      → c.nodes p ≡ some n
      → Absent p es
      → (c' : Clients B) × (client_add p c ≡ some c') × IsList c' ((p, n.stat) ∷ es)
  unfolding client_add
  client_add-IsList c [] p n l live away =
      let q = l.start in
      (
        record {
          nodes =
              put (put c.nodes p (some (client none n.pre n.stat))) p
                (some (client none none n.stat));
          queue = some p;
        },
        rw (live, q, ==_self p),
        record {
          start = refl;
          linked = (put-same (put c.nodes p (some (client none n.pre n.stat))) p _, tt);
          distinct = (tt, tt);
        },
      )
  client_add-IsList c (e ∷ es) p n l live away =
      let h₁ = put c.nodes p (some (client (some e.0) n.pre n.stat)) in
      let h₂ = put h₁ e.0 (some (client (first es) (some p) e.1)) in
      let h₃ = put h₂ p (some (client (some e.0) none n.stat)) in
      (
        record { nodes = h₃; queue = some p },
        rw (live, l.start, away.0, l.linked.0, ==_sym p e.0 away.0, ==_self p),
        record {
          start = refl;
          linked = (
            put-same h₂ p (some (client (some e.0) none n.stat)),
            (
              put-other h₂ p e.0 (some (client (some e.0) none n.stat)) away.0
                  ∙ put-same h₁ e.0 (some (client (first es) (some p) e.1)),
              put-Linked h₂ p (some (client (some e.0) none n.stat)) (some e.0) es away.1 (
                  put-Linked h₁ e.0 (some (client (first es) (some p) e.1)) (some e.0) es
                    l.distinct.0
                    (put-Linked c.nodes p (some (client (some e.0) n.pre n.stat)) (some e.0) es
                      away.1 l.linked.1)),
            ),
          );
          distinct = (away, l.distinct);
        },
      )
