-- ===== src/KeyValue/Queue/Responses.antt =====
-- The queue of responses stands for a list: ResponseInsert appends, ResponseDeleteHead drops the
-- first, ResponseCount is the length.
use bo_atom.Prelude.{
  ℕ, zero, suc, ◌≤◌, ◌≡◌, refl, sym, ap, ◌∙◌, false, Option, none, some, List, [], ◌∷◌, ◌++◌, ◌==◌,
  ◌>>=◌, length, arith,
}
use bo_atom.Server.Clients.Refines.{first, Absent, Distinct, ==_sym, ==_self}
use bo_atom.KeyValue.Queue.{
  Node, queued, Queue, write, link, response_insert, delete_head, count_from, response_count,
}

module _ {ℓ} {A : Type ℓ} where
  -- The nodes from the address `first es` are the entries of `es`.
  abbrev pub Chain : (ℕ → Option (Node A)) → List (ℕ × A) → Type ℓ
  Chain h [] = Unit
  Chain h (e ∷ es) = (h e.0 ≡ some (queued (first es) e.1)) × Chain h es

  -- the address of the last entry
  abbrev pub last_from : ℕ × A → List (ℕ × A) → ℕ
  last_from e [] = e.0
  last_from e (f ∷ fs) = last_from f fs

  abbrev pub last : List (ℕ × A) → Option ℕ
  last [] = none
  last (e ∷ es) = some (last_from e es)

  pub record IsQueue (q : Queue A) (es : List (ℕ × A)) : Type ℓ where
    pub front : q.head ≡ first es
    pub back : q.tail ≡ last es
    pub chain : Chain q.nodes es
    pub distinct : Distinct es

  pub write-Chain :
      (h : ℕ → Option (Node A)) (p : ℕ) (v : Option (Node A)) (es : List (ℕ × A))
      → Absent p es
      → Chain h es
      → Chain (write h p v) es
  write-Chain h p v [] a c = tt
  write-Chain h p v (e ∷ es) a c = (rw (a.0) (c.0), write-Chain h p v es a.1 c.1)

  pub write-same : (h : ℕ → Option (Node A)) (p : ℕ) (v : Option (Node A)) → write h p v p ≡ v
  write-same h p v = ground arith

  pub write-other :
      (h : ℕ → Option (Node A)) (p i : ℕ) (v : Option (Node A))
      → (p == i) ≡ false
      → write h p v i ≡ h i
  write-other h p i v e = rw e

  -- The nodes after `tail->next = p; p->next = NULL`.
  abbrev appended : (ℕ → Option (Node A)) → ℕ × A → List (ℕ × A) → ℕ × A → ℕ → Option (Node A)
  appended h e [] n =
      write (write h e.0 (some (queued (some n.0) e.1))) n.0 (some (queued none n.1))
  appended h e (f ∷ es) n = appended h f es n

  appended-other :
      (h : ℕ → Option (Node A)) (e : ℕ × A) (es : List (ℕ × A)) (n : ℕ × A) (i : ℕ)
      → Absent i (e ∷ es)
      → (i == n.0) ≡ false
      → appended h e es n i ≡ h i
  appended-other h e [] n i a b =
      write-other (write h e.0 (some (queued (some n.0) e.1))) n.0 i _ (==_sym i n.0 b)
      ∙ write-other h e.0 i _ (==_sym i e.0 a.0)
  appended-other h e (f ∷ es) n i a b = appended-other h f es n i a.1 b

  appended-Chain :
      (h : ℕ → Option (Node A)) (e : ℕ × A) (es : List (ℕ × A)) (n : ℕ × A)
      → Absent n.0 (e ∷ es)
      → Distinct (e ∷ es)
      → Chain h (e ∷ es)
      → Chain (appended h e es n) (e ∷ es ++ n ∷ [])
  appended-Chain h e [] n a d c =
      let h₁ = write h e.0 (some (queued (some n.0) e.1)) in
      (write-other h₁ n.0 e.0 _ a.0 ∙ write-same h e.0 _, (write-same h₁ n.0 _, tt))
  appended-Chain h e (f ∷ es) n a d c = (
    appended-other h f es n e.0 d.0 (==_sym n.0 e.0 a.0) ∙ c.0,
    appended-Chain h f es n a.1 d.1 c.1,
  )

  append-run :
      (h : ℕ → Option (Node A)) (e : ℕ × A) (es : List (ℕ × A)) (p : ℕ) (n : Node A)
      (hd tl : Option ℕ)
      → Chain h (e ∷ es)
      → h p ≡ some n
      → Absent p (e ∷ es)
      → (link (some (last_from e es)) (some p) (record { nodes = h; head = hd; tail = tl })
          >>= link (some p) none)
        ≡ some (record { nodes = appended h e es (p, n.item); head = hd; tail = tl })
  append-run h e [] p n hd tl c live a = rw (c.0, ==_sym p e.0 a.0, live)
  append-run h e (f ∷ es) p n hd tl c live a = append-run h f es p n hd tl c.1 live a.1

  last-snoc : (e : ℕ × A) (es : List (ℕ × A)) (n : ℕ × A) → last_from e (es ++ n ∷ []) ≡ n.0
  last-snoc e [] n = refl
  last-snoc e (f ∷ es) n = last-snoc f es n

  Absent-snoc :
      (i : ℕ) (es : List (ℕ × A)) (n : ℕ × A)
      → Absent i es
      → (i == n.0) ≡ false
      → Absent i (es ++ n ∷ [])
  Absent-snoc i [] n a b = (b, tt)
  Absent-snoc i (e ∷ es) n a b = (a.0, Absent-snoc i es n a.1 b)

  Distinct-snoc :
      (es : List (ℕ × A)) (n : ℕ × A) → Distinct es → Absent n.0 es → Distinct (es ++ n ∷ [])
  Distinct-snoc [] n d a = (tt, tt)
  Distinct-snoc (e ∷ es) n d a =
      (Absent-snoc e.0 es n d.0 (==_sym n.0 e.0 a.0), Distinct-snoc es n d.1 a.1)

  -- When the queue stands for a list and the response at `p` is allocated and not in it,
  -- ResponseInsert follows no bad pointer, and the queue stands for the list with that response at
  -- its end.
  pub response_insert-IsQueue :
      (q : Queue A) (es : List (ℕ × A)) (p : ℕ) (n : Node A)
      → IsQueue q es
      → q.nodes p ≡ some n
      → Absent p es
      → (q' : Queue A) × (response_insert p q ≡ some q') × IsQueue q' (es ++ (p, n.item) ∷ [])
  unfolding response_insert
  response_insert-IsQueue q [] p n i live a = (
    record { nodes = write q.nodes p (some (queued none n.item)); head = some p; tail = some p },
    rw (i.front, i.back, live),
    record { front = refl; back = refl; chain = (write-same q.nodes p _, tt); distinct = (tt, tt) },
  )
  response_insert-IsQueue q (e ∷ es) p n i live a = (
    record { nodes = appended q.nodes e es (p, n.item); head = q.head; tail = some p },
    rw (
      i.front,
      i.back,
      append-run q.nodes e es p n (some e.0) (some (last_from e es)) i.chain live a,
    ),
    record {
      front = i.front;
      back = ap some (sym (last-snoc e es (p, n.item)));
      chain = appended-Chain q.nodes e es (p, n.item) a i.distinct i.chain;
      distinct = Distinct-snoc (e ∷ es) (p, n.item) i.distinct a;
    },
  )

  last_from-other :
      (e f : ℕ × A) (es : List (ℕ × A)) → Distinct (e ∷ f ∷ es) → (e.0 == last_from f es) ≡ false
  last_from-other e f [] d = d.0.0
  last_from-other e f (g ∷ es) d = last_from-other e g es (d.0.1, d.1.1)

  -- When the queue stands for a list with a first response, ResponseDeleteHead follows no bad pointer;
  -- the queue then stands for the rest of the list, and the memory of the first is freed.
  pub delete_head-IsQueue :
      (q : Queue A) (e : ℕ × A) (es : List (ℕ × A))
      → IsQueue q (e ∷ es)
      → (q' : Queue A) × (delete_head q ≡ some q') × IsQueue q' es × (q'.nodes e.0 ≡ none)
  unfolding delete_head
  delete_head-IsQueue q e [] i = (
    record { nodes = write q.nodes e.0 none; head = none; tail = none },
    rw (i.front, i.back, i.chain.0, ==_self e.0),
    record { front = refl; back = refl; chain = tt; distinct = tt },
    write-same q.nodes e.0 none,
  )
  delete_head-IsQueue q e (f ∷ es) i = (
    record { nodes = write q.nodes e.0 none; head = some f.0; tail = some (last_from f es) },
    rw (i.front, i.back, i.chain.0, last_from-other e f es i.distinct),
    record {
      front = refl;
      back = refl;
      chain = write-Chain q.nodes e.0 none (f ∷ es) i.distinct.0 i.chain.1;
      distinct = i.distinct.1;
    },
    write-same q.nodes e.0 none,
  )

  count_from-length :
      (fuel : ℕ) (h : ℕ → Option (Node A)) (es : List (ℕ × A))
      → length es ≤ fuel
      → Chain h es
      → count_from fuel h (first es) ≡ some (length es)
  unfolding count_from
  count_from-length zero h [] le c = refl
  count_from-length (suc fuel) h [] le c = refl
  count_from-length zero h (e ∷ es) le c = absurd (omega arith)
  count_from-length (suc fuel) h (e ∷ es) le c =
      rw (c.0, count_from-length fuel h es (omega arith) c.1)

  -- When the queue stands for a list, ResponseCount ends after at most as many steps as it has
  -- responses, and returns their number.
  pub response_count-length :
      (fuel : ℕ) (q : Queue A) (es : List (ℕ × A))
      → IsQueue q es
      → length es ≤ fuel
      → response_count fuel q ≡ some (length es)
  unfolding response_count
  response_count-length fuel q es i le = rw (i.front) (count_from-length fuel q.nodes es le i.chain)
