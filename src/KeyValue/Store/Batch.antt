-- ===== src/KeyValue/Store/Batch.antt =====
-- ALL_cmd on a queue of complete commands runs them in order on a map from keys to values.
use bo_atom.Prelude.{
  ℕ, ◌≡◌, refl, sym, ap, ◌∙◌, true, false, Option, none, some, List, [], ◌∷◌, ◌++◌, ◌==◌, ltb,
  append_snoc,
}
use mathlib.Core.Path.{subst}
use mathlib.Core.List.{append-nil}
use bo_atom.KeyValue.Items.{Items, cmd_complete, length_at, value_at}
use bo_atom.KeyValue.Store.{
  Bytes, DictItem, Dict, Reply, own, borrowed, item, set_cmd, get_cmd, try_set, second_read,
  run_cmd, run_all, drop_complete, all_cmd, is_set_word, is_get_word, ok_response, err_response,
}
use bo_atom.KeyValue.Store.Meaning.{Changes, IsDict, value_of, set_cmd-Changes, Changes-value_of}
use bo_atom.KeyValue.Store.Requests.{
  Op, put, fetch, Map, next_map, last_map, response_of, AllAsk, Answered, AllAnswered,
}
use bo_atom.KeyValue.Store.Blocks.{Runs, done, stores, reads, get-Answered}

module _ {ℓ} {D : Type ℓ} (dict : Dict D) (Valid : D → Type 0) (lawful : IsDict dict Valid)
    (stale : Items → Bytes) where
  run_cmd-quiet :
      (c : Items) (d : D)
      → is_set_word (length_at c 0) (value_at c 0) ≡ true
      → (c.args_num == 3) ≡ true
      → is_get_word (length_at c 0) (stale c) ≡ false
      → run_cmd dict stale c d ≡ ((set_cmd dict c d).0, some (set_cmd dict c d).1)
  unfolding run_cmd try_set second_read
  run_cmd-quiet c d word is3 quiet = rw (word, is3, quiet)

  run_cmd-get :
      (c : Items) (d : D)
      → is_set_word (length_at c 0) (value_at c 0) ≡ false
      → is_get_word (length_at c 0) (value_at c 0) ≡ true
      → run_cmd dict stale c d ≡ (d, some (get_cmd dict c d))
  unfolding run_cmd try_set second_read
  run_cmd-get c d word get = rw (word, get)

  get_cmd-two :
      (c : Items) (k : Bytes) (d : D)
      → c.args_num ≡ 2
      → item c 1 ≡ k
      → get_cmd dict c d ≡ response_of (dict.find d k)
  unfolding get_cmd
  get_cmd-two c k d two key = rw (two, key) (chosen (dict.find d k))
    where
      chosen :
          (o : Option DictItem)
          → (elim o as (λ x. Reply) [ none ↦ own err_response | some v ↦ borrowed v ])
            ≡ response_of o
      chosen none = refl
      chosen (some v) = refl

  run_all-step :
      (c : ℕ × Items) (cs : List (ℕ × Items)) (d d₁ : D) (r : Reply) (rs : List Reply)
      → cmd_complete c.1 ≡ true
      → ltb 0 c.1.args_num ≡ true
      → run_cmd dict stale c.1 d ≡ (d₁, some r)
      → run_all dict stale none (c ∷ cs) d rs ≡ run_all dict stale none cs d₁ (rs ++ r ∷ [])
  unfolding run_all
  run_all-step c cs d d₁ r rs whole some_args ran = rw (whole, some_args, ran) refl

  -- what running the operations from `d` makes of the dictionary and the responses
  pub record Ran (os : List Op) (d : D) (m : Map) (rs : List Reply) (q : D × List Reply)
      : Type ℓ where
    pub new : List Reply
    pub runs : Runs dict Valid os d q.0
    pub appended : q.1 ≡ rs ++ new
    pub answered : AllAnswered dict q.0 os m new
    pub found : value_of dict q.0 ≡ last_map os m

  pub run_all-Ran :
      (cs : List (ℕ × Items)) (os : List Op) (d : D) (m : Map) (rs : List Reply)
      → AllAsk stale cs os
      → Valid d
      → value_of dict d ≡ m
      → Ran os d m rs (run_all dict stale none cs d rs)
  unfolding run_all
  run_all-Ran [] [] d m rs a valid same = record {
    new = [];
    runs = done;
    appended = sym (append-nil rs);
    answered = tt;
    found = same;
  }
  run_all-Ran [] (o ∷ os) d m rs a valid same = elim a [ ]
  run_all-Ran (c ∷ cs) [] d m rs a valid same = elim a [ ]
  run_all-Ran (c ∷ cs) (put k v ∷ os) d m rs (whole, (three, word, quiet, key, value), more) valid
        same =
      let (ok, changes) = set_cmd-Changes dict Valid lawful c.1 d valid three in
      let changes' : Changes dict Valid d (set_cmd dict c.1 d).0 k v =
        subst (λ b. Changes dict Valid d (set_cmd dict c.1 d).0 k b) value
          (subst (λ b. Changes dict Valid d (set_cmd dict c.1 d).0 b (item c.1 2)) key changes) in
      let rest =
        run_all-Ran cs os (set_cmd dict c.1 d).0 (next_map (put k v) m) (rs ++ own ok_response ∷ [])
          more (changes'.valid)
          (Changes-value_of dict Valid lawful d (set_cmd dict c.1 d).0 k v valid changes'
            ∙ ap (λ (m : Map). next_map (put k v) m) same) in
      let step =
        run_all-step c cs d (set_cmd dict c.1 d).0 (own ok_response) rs whole (rw three refl) (
          run_cmd-quiet c.1 d word (rw three refl) quiet
          ∙ ap (λ r. ((set_cmd dict c.1 d).0, some r)) ok) in
      subst (λ q. Ran (put k v ∷ os) d m rs q) (sym step)
        (record {
          new = own ok_response ∷ rest.new;
          runs = stores changes' (rest.runs);
          appended = rest.appended ∙ append_snoc rs (rest.new) (own ok_response);
          answered = (refl, rest.answered);
          found = rest.found;
        })
  run_all-Ran (c ∷ cs) (fetch k ∷ os) d m rs (whole, (two, word, get, key), more) valid same =
      let r = response_of (dict.find d k) in
      let rest = run_all-Ran cs os d m (rs ++ r ∷ []) more valid same in
      let step =
        run_all-step c cs d d r rs whole (rw two refl)
          (run_cmd-get c.1 d word get ∙ ap (λ r. (d, some r)) (get_cmd-two c.1 k d two key)) in
      subst (λ q. Ran (fetch k ∷ os) d m rs q) (sym step)
        (record {
          new = r ∷ rest.new;
          runs = reads (rest.runs);
          appended = rest.appended ∙ append_snoc rs (rest.new) r;
          answered = (
            subst
                (λ (m : Map).
                  Answered dict (run_all dict stale none cs d (rs ++ r ∷ [])).0 (fetch k) os m r)
                same (get-Answered dict Valid lawful k valid (rest.runs)),
            rest.answered,
          );
          found = rest.found;
        })

  drop_complete-all :
      (cs : List (ℕ × Items)) (os : List Op) → AllAsk stale cs os → drop_complete cs ≡ []
  unfolding drop_complete
  drop_complete-all [] os a = refl
  drop_complete-all (c ∷ cs) [] a = elim a [ ]
  drop_complete-all (c ∷ cs) (o ∷ os) a = rw (a.0) (drop_complete-all cs os a.2)

  -- When the queue holds complete commands that ask for a list of SETs and GETs, and none is being
  -- received, ALL_cmd empties the queue, leaves a dictionary that finds what the map finds after these
  -- operations, and appends one response for each command, in order. As they read at the end, a SET is
  -- answered by OK, and a GET by what the map finds before it, except for a GET of a key that is there
  -- and that a later SET of the queue sets: its response reads a freed block if the first such SET is
  -- the last command, and nothing is said of it otherwise. The dictionary is valid at the start.
  -- The dictionary obeys its laws, and
  -- a freed first item does not happen to read as GET.
  pub all_cmd-responses :
      (cs : List (ℕ × Items)) (os : List Op) (d : D) (rs : List Reply)
      → Valid d
      → AllAsk stale cs os
      → (new : List Reply) × ((all_cmd dict stale none cs d rs).0 ≡ [])
        × (value_of dict (all_cmd dict stale none cs d rs).1 ≡ last_map os (value_of dict d))
        × ((all_cmd dict stale none cs d rs).2 ≡ rs ++ new)
        × AllAnswered dict (all_cmd dict stale none cs d rs).1 os (value_of dict d) new
  unfolding all_cmd
  all_cmd-responses cs os d rs valid a =
      let r = run_all-Ran cs os d (value_of dict d) rs a valid refl in
      (r.new, drop_complete-all cs os a, r.found, r.appended, r.answered)
