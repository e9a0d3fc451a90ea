-- ===== src/Server/Clients/Delete.antt =====
-- clientDelete takes the client out of the list that the structure stands for.
use bo_atom.Prelude.{ℕ, ◌≡◌, refl, ◌∙◌, Option, none, some, List, [], ◌∷◌, ◌++◌}
use bo_atom.Server.Clients.{Client, client, Clients, put, set_next, set_pre_of, client_delete}
use bo_atom.Server.Clients.Refines.{
  first, Linked, Absent, Distinct, IsList, put-Linked, put-same, put-other, ==_sym, ==_self,
}

module _ {ℓ} {B : Type ℓ} where
  Absent-left : (x : ℕ) (front back : List (ℕ × B)) → Absent x (front ++ back) → Absent x front
  Absent-left x [] back a = tt
  Absent-left x (e ∷ front) back a = (a.0, Absent-left x front back a.1)

  Absent-right : (x : ℕ) (front back : List (ℕ × B)) → Absent x (front ++ back) → Absent x back
  Absent-right x [] back a = a
  Absent-right x (e ∷ front) back a = Absent-right x front back a.1

  Absent-both :
      (x : ℕ) (front back : List (ℕ × B))
      → Absent x front
      → Absent x back
      → Absent x (front ++ back)
  Absent-both x [] back a b = b
  Absent-both x (e ∷ front) back a b = (a.0, Absent-both x front back a.1 b)

  -- The client in the middle is in neither part, and the parts have no address in common.
  Distinct-middle :
      (front back : List (ℕ × B)) (e : ℕ × B)
      → Distinct (front ++ e ∷ back)
      → Absent e.0 front × Absent e.0 back × Distinct (front ++ back)
  Distinct-middle [] back e d = (tt, d.0, d.1)
  Distinct-middle (f ∷ front) back e d =
      let (a, b, c) = Distinct-middle front back e d.1 in
      let away = Absent-right f.0 front (e ∷ back) d.0 in
      (
        (==_sym f.0 e.0 away.0, a),
        b,
        (Absent-both f.0 front back (Absent-left f.0 front (e ∷ back) d.0) away.1, c),
      )

  -- the address of the last client, and what `pre` of a client after the list is
  last_ptr : ℕ × B → List (ℕ × B) → ℕ
  last_ptr e [] = e.0
  last_ptr e (f ∷ fs) = last_ptr f fs

  abbrev last_of : Option ℕ → List (ℕ × B) → Option ℕ
  unfolding last_ptr
  last_of pre [] = pre
  last_of pre (e ∷ es) = some (last_ptr e es)

  -- the nodes after `back->pre = v`, and after `last->next = back` for the last of `front`
  abbrev repre : (ℕ → Option (Client B)) → Option ℕ → List (ℕ × B) → ℕ → Option (Client B)
  repre h v [] = h
  repre h v (e ∷ es) = put h e.0 (some (client (first es) v e.1))

  abbrev renext :
      (ℕ → Option (Client B)) → Option ℕ → List (ℕ × B) → List (ℕ × B) → ℕ → Option (Client B)
  renext h pre [] back = h
  renext h pre (e ∷ []) back = put h e.0 (some (client (first back) pre e.1))
  renext h pre (e ∷ f ∷ front) back = renext h (some e.0) (f ∷ front) back

  repre-other :
      (h : ℕ → Option (Client B)) (v : Option ℕ) (back : List (ℕ × B)) (i : ℕ)
      → Absent i back
      → repre h v back i ≡ h i
  repre-other h v [] i a = refl
  repre-other h v (e ∷ es) i a = put-other h e.0 i _ (==_sym i e.0 a.0)

  renext-other :
      (h : ℕ → Option (Client B)) (pre : Option ℕ) (front back : List (ℕ × B)) (i : ℕ)
      → Absent i front
      → renext h pre front back i ≡ h i
  renext-other h pre [] back i a = refl
  renext-other h pre (e ∷ []) back i a = put-other h e.0 i _ (==_sym i e.0 a.0)
  renext-other h pre (e ∷ f ∷ front) back i a = renext-other h (some e.0) (f ∷ front) back i a.1

  repre-Linked :
      (h : ℕ → Option (Client B)) (u v : Option ℕ) (back : List (ℕ × B))
      → Distinct back
      → Linked h u back
      → Linked (repre h v back) v back
  repre-Linked h u v [] d l = tt
  repre-Linked h u v (e ∷ es) d l = (put-same h e.0 _, put-Linked h e.0 _ (some e.0) es d.0 l.1)

  -- A change of the last client before `e` leaves the clients behind it.
  renext-Linked :
      (h : ℕ → Option (Client B)) (pre u : Option ℕ) (front back : List (ℕ × B)) (e : ℕ × B)
      → Distinct (front ++ e ∷ back)
      → Linked h u back
      → Linked (renext h pre front back) u back
  renext-Linked h pre u [] back e d l = l
  renext-Linked h pre u (f ∷ []) back e d l = put-Linked h f.0 _ u back d.0.1 l
  renext-Linked h pre u (f ∷ g ∷ front) back e d l =
      renext-Linked h (some f.0) u (g ∷ front) back e d.1 l

  at_middle :
      (h : ℕ → Option (Client B)) (pre : Option ℕ) (front back : List (ℕ × B)) (e : ℕ × B)
      → Linked h pre (front ++ e ∷ back)
      → (h e.0 ≡ some (client (first back) (last_of pre front) e.1)) × Linked h (some e.0) back
  unfolding last_ptr
  at_middle h pre [] back e l = l
  at_middle h pre (f ∷ []) back e l = l.1
  at_middle h pre (f ∷ g ∷ front) back e l = at_middle h (some f.0) (g ∷ front) back e l.1

  pub stored_client :
      (h : ℕ → Option (Client B)) (pre : Option ℕ) (front back : List (ℕ × B)) (e : ℕ × B)
      → Linked h pre (front ++ e ∷ back)
      → (before : Option ℕ) × (h e.0 ≡ some (client (first back) before e.1))
  stored_client h pre front back e l = (last_of pre front, (at_middle h pre front back e l).0)

  -- Once both neighbours are changed, the rest of the list is linked without the client.
  bypassed-Linked :
      (h : ℕ → Option (Client B)) (pre : Option ℕ) (front back : List (ℕ × B)) (e : ℕ × B)
      → Distinct (front ++ e ∷ back)
      → Linked h pre (front ++ e ∷ back)
      → Linked (repre (renext h pre front back) (last_of pre front) back) pre (front ++ back)
  unfolding last_ptr
  bypassed-Linked h pre [] back e d l = repre-Linked h (some e.0) pre back d.1 l.1
  bypassed-Linked h pre (f ∷ []) back e d l = (
    repre-other (renext h pre (f ∷ []) back) (some f.0) back f.0 d.0.1 ∙ put-same h f.0 _,
    repre-Linked (renext h pre (f ∷ []) back) (some e.0) (some f.0) back d.1.1
        (put-Linked h f.0 _ (some e.0) back d.0.1 l.1.1),
  )
  bypassed-Linked h pre (f ∷ g ∷ front) back e d l = (
    repre-other (renext h pre (f ∷ g ∷ front) back) (last_of pre (f ∷ g ∷ front)) back f.0
          (Absent-right f.0 front (e ∷ back) d.0.1).1
        ∙ renext-other h (some f.0) (g ∷ front) back f.0
            (Absent-left f.0 (g ∷ front) (e ∷ back) d.0)
        ∙ l.0,
    bypassed-Linked h (some f.0) (g ∷ front) back e d.1 l.1,
  )

  set_pre_of-repre :
      (h : ℕ → Option (Client B)) (q u v : Option ℕ) (back : List (ℕ × B))
      → Linked h u back
      → set_pre_of (first back) v (record { nodes = h; queue = q })
        ≡ some (record { nodes = repre h v back; queue = q })
  set_pre_of-repre h q u v [] l = refl
  set_pre_of-repre h q u v (e ∷ es) l = rw (l.0)

  set_next-renext :
      (h : ℕ → Option (Client B)) (q pre : Option ℕ) (f : ℕ × B) (front back : List (ℕ × B))
      (e : ℕ × B)
      → Linked h pre (f ∷ front ++ e ∷ back)
      → set_next (first back) (last_ptr f front) (record { nodes = h; queue = q })
        ≡ some (record { nodes = renext h pre (f ∷ front) back; queue = q })
  unfolding last_ptr
  set_next-renext h q pre f [] back e l = rw (l.0)
  set_next-renext h q pre f (g ∷ front) back e l = set_next-renext h q (some f.0) g front back e l.1

  freed-IsList :
      (c : Clients B) (front back : List (ℕ × B)) (e : ℕ × B)
      → Distinct (front ++ e ∷ back)
      → c.queue ≡ first (front ++ back)
      → Linked c.nodes none (front ++ back)
      → IsList (record c { nodes = put c.nodes e.0 none }) (front ++ back)
  freed-IsList c front back e d s l =
      let (a, b, rest) = Distinct-middle front back e d in
      record {
        start = s;
        linked =
            put-Linked c.nodes e.0 none none (front ++ back) (Absent-both e.0 front back a b) l;
        distinct = rest;
      }

  -- When the structure stands for a list, clientDelete of any of its clients follows no bad pointer;
  -- the structure then stands for the list without that client, and its memory is freed.
  pub client_delete-IsList :
      (h : ℕ → Option (Client B)) (front back : List (ℕ × B)) (e : ℕ × B)
      → IsList (record { nodes = h; queue = first (front ++ e ∷ back) }) (front ++ e ∷ back)
      → (c' : Clients B) × (client_delete e.0
            (record { nodes = h; queue = first (front ++ e ∷ back) })
          ≡ some c')
        × IsList c' (front ++ back)
        × (c'.nodes e.0 ≡ none)
  unfolding client_delete last_of
  client_delete-IsList h [] back e l =
      let h' = repre h none back in
      (
        record { nodes = put h' e.0 none; queue = first back },
        rw (
          l.linked.0,
          ==_self e.0,
          set_pre_of-repre h (first back) (some e.0) none back l.linked.1,
        ),
        freed-IsList (record { nodes = h'; queue = first back }) [] back e l.distinct refl
            (bypassed-Linked h none [] back e l.distinct l.linked),
        put-same h' e.0 none,
      )
  client_delete-IsList h (f ∷ front) back e l =
      let q : Option ℕ = some f.0 in
      let h₁ = renext h none (f ∷ front) back in
      let h₂ = repre h₁ (last_of none (f ∷ front)) back in
      let (a, b, rest) = Distinct-middle (f ∷ front) back e l.distinct in
      let at = at_middle h none (f ∷ front) back e l.linked in
      let still = renext-other h none (f ∷ front) back e.0 a ∙ at.0 in
      (
        record { nodes = put h₂ e.0 none; queue = some f.0 },
        rw (
          at.0,
          a.0,
          set_next-renext h q none f front back e l.linked,
          still,
          set_pre_of-repre h₁ q (some e.0) (last_of none (f ∷ front)) back
              (renext-Linked h none (some e.0) (f ∷ front) back e l.distinct at.1),
        ),
        freed-IsList (record { nodes = h₂; queue = some f.0 }) (f ∷ front) back e l.distinct refl
            (bypassed-Linked h none (f ∷ front) back e l.distinct l.linked),
        put-same h₂ e.0 none,
      )
