-- ===== src/Tree/Serialize/Ids.antt =====
-- src/tree.rs: which ids reachable_data_ids lists.
use mathlib.Core.Path.{subst}
use mmdb_writer.Base.{
  ℕ, zero, suc, ◌+◌, ◌≡◌, refl, sym, ◌∙◌, true, Option, none, some, List, [], ◌∷◌, ◌++◌, ◌==◌, All,
  All-get_elem?, get_elem?, inl, inr, Bool-cases, Option-cases, arith,
}
use mmdb_writer.Tree.Run.{
  Record, no_data, node, fixed_node, populated, alias, reserved, Node, Nodes, child,
}
use mmdb_writer.Tree.{bit_at, get_step, get_loop, get}
use mmdb_writer.Tree.Serialize.{mem, first_ids, reachable_from, reachable_data_ids}

-- The id of a record, if it has one.
abbrev pub DataOf : (ℕ → Type 0) → Record → Type 0
DataOf P (populated id) = P id
DataOf P _ = Unit {0}

abbrev pub NodeData : (ℕ → Type 0) → Node → Type 0
NodeData P n = DataOf P n.left × DataOf P n.right

abbrev pub Listed : List ℕ → ℕ → Type 0
Listed ids id = mem id ids ≡ true

Listed-append : (id : ℕ) (xs ys : List ℕ) → Listed xs id → Listed (xs ++ ys) id
Listed-append id [] ys h = cc
Listed-append id (x ∷ xs) ys h = elim (Bool-cases (id == x)) [
  | inl e ↦ rw e refl
  | inr e ↦ ground (arith, Listed-append id xs ys)
]

Listed-last : (id : ℕ) (xs : List ℕ) → Listed (xs ++ (id ∷ [])) id
Listed-last id [] = ground arith
Listed-last id (x ∷ xs) = ground (arith, Listed-last id xs)

first_ids-kept : (r : Record) (ids : List ℕ) (id : ℕ) → Listed ids id → Listed (first_ids r ids) id
unfolding first_ids
first_ids-kept (populated i) ids id h = elim (Bool-cases (mem i ids)) [
  | inl e ↦ rw e h
  | inr e ↦ rw e (Listed-append id ids (i ∷ []) h)
]
first_ids-kept no_data ids id h = h
first_ids-kept (node i) ids id h = h
first_ids-kept (fixed_node i) ids id h = h
first_ids-kept (alias i) ids id h = h
first_ids-kept reserved ids id h = h

first_ids-here : (r : Record) (ids : List ℕ) → DataOf (Listed (first_ids r ids)) r
unfolding first_ids
first_ids-here (populated i) ids = elim (Bool-cases (mem i ids)) [
  | inl e ↦ rw e e
  | inr e ↦ rw e (Listed-last i ids)
]
first_ids-here no_data ids = tt
first_ids-here (node i) ids = tt
first_ids-here (fixed_node i) ids = tt
first_ids-here (alias i) ids = tt
first_ids-here reserved ids = tt

pub DataOf-mono :
    (P Q : ℕ → Type 0) (r : Record) → ((id : ℕ) → P id → Q id) → DataOf P r → DataOf Q r
DataOf-mono P Q (populated i) f h = f i h
DataOf-mono P Q no_data f h = tt
DataOf-mono P Q (node i) f h = tt
DataOf-mono P Q (fixed_node i) f h = tt
DataOf-mono P Q (alias i) f h = tt
DataOf-mono P Q reserved f h = tt

reachable_from-kept :
    (ns : Nodes) (ids : List ℕ) (id : ℕ) → Listed ids id → Listed (reachable_from ns ids) id
unfolding reachable_from
reachable_from-kept [] ids id h = h
reachable_from-kept (n ∷ ns) ids id h =
    reachable_from-kept ns _ id (first_ids-kept n.right _ id (first_ids-kept n.left ids id h))

reachable_from-All :
    (ns : Nodes) (ids : List ℕ) → All (NodeData (Listed (reachable_from ns ids))) ns
unfolding reachable_from
reachable_from-All [] ids = tt
reachable_from-All (n ∷ ns) ids =
    let lefts = first_ids n.left ids in
    let both = first_ids n.right lefts in
    (
      (
        DataOf-mono _ _ n.left
            (λ id h. reachable_from-kept ns both id (first_ids-kept n.right lefts id h))
            (first_ids-here n.left ids),
        DataOf-mono _ _ n.right (reachable_from-kept ns both) (first_ids-here n.right lefts),
      ),
      reachable_from-All ns both,
    )

-- Every id of the nodes is listed.
pub reachable_data_ids-All : (ns : Nodes) → All (NodeData (Listed (reachable_data_ids ns))) ns
unfolding reachable_data_ids
reachable_data_ids-All ns = reachable_from-All ns []

All-append_one : (P : ℕ → Type 0) (xs : List ℕ) (y : ℕ) → All P xs → P y → All P (xs ++ (y ∷ []))
All-append_one P [] y ps p = (p, tt)
All-append_one P (x ∷ xs) y ps p = (ps.0, All-append_one P xs y ps.1 p)

first_ids-only :
    (P : ℕ → Type 0) (r : Record) (ids : List ℕ) → DataOf P r → All P ids → All P (first_ids r ids)
unfolding first_ids
first_ids-only P (populated i) ids p ps = elim (Bool-cases (mem i ids)) [
  | inl e ↦ rw e ps
  | inr e ↦ rw e (All-append_one P ids i ps p)
]
first_ids-only P no_data ids p ps = ps
first_ids-only P (node i) ids p ps = ps
first_ids-only P (fixed_node i) ids p ps = ps
first_ids-only P (alias i) ids p ps = ps
first_ids-only P reserved ids p ps = ps

reachable_from-only :
    (P : ℕ → Type 0) (ns : Nodes) (ids : List ℕ)
    → All (NodeData P) ns
    → All P ids
    → All P (reachable_from ns ids)
unfolding reachable_from
reachable_from-only P [] ids all ps = ps
reachable_from-only P (n ∷ ns) ids all ps =
    reachable_from-only P ns _ all.1
      (first_ids-only P n.right _ all.0.1 (first_ids-only P n.left ids all.0.0 ps))

-- No other id is.
pub reachable_data_ids-only :
    (P : ℕ → Type 0) (ns : Nodes) → All (NodeData P) ns → All P (reachable_data_ids ns)
unfolding reachable_data_ids
reachable_data_ids-only P ns all = reachable_from-only P ns [] all tt

module _ (P : ℕ → Type 0) (ns : Nodes) (all : All (NodeData P) ns) (bits : ℕ) where
  get_step-found :
      (go : ℕ → Option (Option ℕ)) (r : Record) (id : ℕ)
      → ((i : ℕ) → go i ≡ some (some id) → P id)
      → DataOf P r
      → get_step go r ≡ some (some id)
      → P id
  unfolding get_step
  get_step-found go (node i) id rec p e = rec i e
  get_step-found go (fixed_node i) id rec p e = rec i e
  get_step-found go (alias i) id rec p e = rec i e
  get_step-found go (populated i) id rec p e = let same : i ≡ id = cc in subst P same p
  get_step-found go no_data id rec p e = cc
  get_step-found go reserved id rec p e = cc

  child-data : (n : Node) (b : ℕ) → NodeData P n → DataOf P (child n b)
  unfolding child
  child-data n b d = elim (Bool-cases (b == 0)) [ inl z ↦ rw z d.0 | inr z ↦ rw z d.1 ]

  get_loop_step :
      (k d i : ℕ) (n : Node)
      → get_elem? ns i ≡ some n
      → get_loop ns bits (suc k) d i
        ≡ get_step (get_loop ns bits k (d + 1)) (child n (bit_at bits d))
  unfolding get_loop
  get_loop_step k d i n here = rw (here, get_loop) refl

  get_loop_gone : (k d i : ℕ) → get_elem? ns i ≡ none → get_loop ns bits (suc k) d i ≡ none
  unfolding get_loop
  get_loop_gone k d i gone = rw (gone, get_loop) refl

  get_loop-found : (k d i id : ℕ) → get_loop ns bits k d i ≡ some (some id) → P id
  unfolding get_loop
  get_loop-found zero d i id e = cc
  get_loop-found (suc k) d i id e = elim (Option-cases (get_elem? ns i)) [
    | inl gone ↦ cc (sym (get_loop_gone k d i gone) ∙ e)
    | inr (n, here) ↦
        get_step-found (get_loop ns bits k (d + 1)) (child n (bit_at bits d)) id
          (λ j. get_loop-found k (d + 1) j id)
          (child-data n (bit_at bits d) (All-get_elem? (NodeData P) ns all i n here))
          (sym (get_loop_step k d i n here) ∙ e)
  ]

  -- What `get` finds is an id of a node.
  pub get-found : (depth id : ℕ) → get ns bits depth ≡ some (some id) → P id
  unfolding get
  get-found depth id e = get_loop-found depth 0 0 id e
