-- ===== src/Tree/Compact/Renumber.antt =====
-- `renumber_reachable` (src/tree.rs): it ends, drops the nodes that are not reached and keeps
-- lookups.
use mathlib.Core.Path.{subst, sym, ◌∙◌}
use mmdb_writer.Base.{
  get_elem?-lt, get_elem?-some, All-get_elem?, some-injective, ℕ, zero, suc, ◌+◌, ◌-◌, ◌*◌, ◌^◌,
  ◌≤◌, ◌<◌, ◌≡◌, ◌⊎◌, refl, ap, min, Option, some, List, [], ◌∷◌, ◌==◌, inl, inr, Bool-cases,
  Option-cases, All, length, get_elem?, arith,
}
use mmdb_writer.Tree.{bit_at, get, get_loop, get_step}
use mmdb_writer.Tree.Run.{
  Record, no_data, node, fixed_node, populated, alias, reserved, Node, pair, child, Nodes, ok,
}
use mmdb_writer.Tree.Returns.{load-ok}
use mmdb_writer.Tree.Compact.{
  new_index, push_target, remap_record, renumber_loop, new_nodes, renumber_reachable,
}
use mmdb_writer.Tree.Compact.Reached.{
  Reached, root, go_left, go_right, AliasIsReached, IsLinked, Known, Waits, number_of_target,
  Waits-Known, length-push_target, unvisited,
}
use mmdb_writer.Tree.Compact.Numbered.{Found, Found-pop, Found-visit, visits}

-- A record among `count` nodes and the old one that it comes from.
abbrev pub Kin : ℕ → Record → Record → Type 0
Kin count r (node j) = j < count
Kin count r (fixed_node j) = j < count
Kin count r (alias j) = j < count
Kin count r (populated id) = r ≡ populated id
Kin count r _ = Unit {0}

-- The node that was reached and became `n` among `count` nodes.
pub record Origin (ns : Nodes) (count : ℕ) (n : Node) : Type 0 where
  pub index : ℕ
  pub old : Node
  pub known : Reached ns index
  pub here : get_elem? ns index ≡ some old
  pub left : Kin count old.left n.left
  pub right : Kin count old.right n.right

-- The nodes after the renumbering.
pub record Renumbered (ns nodes : Nodes) : Type 0 where
  pub filled : 0 < length nodes
  pub fewer : length nodes ≤ length ns
  pub same : (bits depth : ℕ) → get nodes bits depth ≡ get ns bits depth
  pub origin : (j : ℕ) (n : Node) → get_elem? nodes j ≡ some n → Origin ns (length nodes) n

module _ (ns : Nodes) (linked : IsLinked ns) where
  module _ {S : Type 0} (few : length ns ≤ 2 ^ 32) (s : S) where
    -- The index is not capped.
    index_fits : (k u : ℕ) → k + u ≡ length ns → 0 < u → min k (2 ^ 32 - 1) ≡ k
    index_fits k u e h = omega arith

    -- What is left to do: what waits, and two pushes for each node without a number.
    renumber_loop-Found :
        (fuel : ℕ) (stack : List ℕ) (m : List (ℕ × ℕ)) (order : List ℕ)
        → Found ns stack m order
        → length stack + 2 * unvisited (length ns) m < fuel
        → (found : List (ℕ × ℕ) × List ℕ) × (renumber_loop fuel stack m order ns s ≡ ok found ns s)
          × Found ns [] found.0 found.1
    unfolding renumber_loop
    renumber_loop-Found zero stack m order f h = absurd (omega arith)
    renumber_loop-Found (suc fuel) [] m order f h = ((m, order), refl, f)
    renumber_loop-Found (suc fuel) (x ∷ stack) m order f h = elim (Option-cases (new_index m x)) [
      | inr (j, e) ↦
          let (found, is, done) =
            renumber_loop-Found fuel stack m order (Found-pop ns x j stack m order e f)
              (omega arith) in
          (found, rw (e, renumber_loop) is, done)
      | inl e ↦
          let (n, here, _, _) = linked x f.waiting.0 in
          let left = visits ns x stack m order e f n here in
          let fits : min (length order) (2 ^ 32 - 1) ≡ length order =
            index_fits (length order) (unvisited (length ns) m) f.count (omega (arith, left)) in
          let (found, is, done) =
            renumber_loop-Found fuel _ _ _ (Found-visit ns x stack m order e f n here) (
              omega (
                arith,
                left,
                length-push_target n.left (push_target n.right stack),
                length-push_target n.right stack,
              )) in
          (found, rw (e, renumber_loop, load-ok ns x n here s, fits) is, done)
    ]

    -- The new nodes, in their order.
    new_nodes-ok :
        (m : List (ℕ × ℕ)) (order : List ℕ)
        → All (Reached ns) order
        → (nodes : Nodes) × (new_nodes m order ns s ≡ ok nodes ns s)
          × (length nodes ≡ length order)
          × ((i j : ℕ) (n : Node)
              → get_elem? order j ≡ some i
              → get_elem? ns i ≡ some n
              → get_elem? nodes j ≡ some (pair (remap_record m n.left) (remap_record m n.right)))
    unfolding new_nodes
    new_nodes-ok m [] a = ([], refl, refl, λ i j n e h. cc)
    new_nodes-ok m (x ∷ order) a =
        let (n, here, _, _) = linked x a.0 in
        let (rest, is, long, each) = new_nodes-ok m order a.1 in
        let first = pair (remap_record m n.left) (remap_record m n.right) in
        (
          first ∷ rest,
          rw (load-ok ns x n here s, is) refl,
          ap suc long,
          λ i j k e h. at n here rest each i j k e h,
        )
      where
        at :
            (n : Node)
            → get_elem? ns x ≡ some n
            → (rest : Nodes)
            → ((i j : ℕ) (k : Node)
                → get_elem? order j ≡ some i
                → get_elem? ns i ≡ some k
                → get_elem? rest j ≡ some (pair (remap_record m k.left) (remap_record m k.right)))
            → (i j : ℕ) (k : Node) → get_elem? (x ∷ order) j ≡ some i
            → get_elem? ns i ≡ some k
            → get_elem? (pair (remap_record m n.left) (remap_record m n.right) ∷ rest) j
              ≡ some (pair (remap_record m k.left) (remap_record m k.right))
        at n here rest each i zero k e h = cc (e, h, here)
        at n here rest each i (suc j) k e h = each i j k e h

  first_number : (m : List (ℕ × ℕ)) (order : List ℕ) → Found ns [] m order → new_index m 0 ≡ some 0
  first_number m order f = first f.start
    where
      first :
          (new_index m 0 ≡ some 0) ⊎ ((◌≡◌ {A = List ℕ} [] (0 ∷ [])) × (order ≡ []))
          → new_index m 0 ≡ some 0
      first (inl e) = e
      first (inr (e, o)) = cc

  -- All that is reached has a number when nothing waits.
  Reached-Known :
      (m : List (ℕ × ℕ)) (order : List ℕ) → Found ns [] m order → (i : ℕ) → Reached ns i → Known m i
  Reached-Known m order f i root = (0, first_number m order f)
  Reached-Known m order f i (go_left {i = p} n r here l) =
      let (j, e) = Reached-Known m order f p r in Waits-Known m n.left i l (f.closed p j e n here).0
  Reached-Known m order f i (go_right {i = p} n r here l) =
      let (j, e) = Reached-Known m order f p r in
      Waits-Known m n.right i l (f.closed p j e n here).1

  child_cases : (P : Record → Type 0) (n : Node) (b : ℕ) → P n.left → P n.right → P (child n b)
  unfolding child
  child_cases P n b l r = elim (Bool-cases (b == 0)) [ inl z ↦ rw z l | inr z ↦ rw z r ]

  child-remap :
      (m : List (ℕ × ℕ)) (n : Node) (b : ℕ)
      → child (pair (remap_record m n.left) (remap_record m n.right)) b ≡ remap_record m (child n b)
  unfolding child
  child-remap m n b = elim (Bool-cases (b == 0)) [ inl z ↦ rw z refl | inr z ↦ rw z refl ]

  module _ (m : List (ℕ × ℕ)) (order : List ℕ) (f : Found ns [] m order) (nodes : Nodes)
      (each : (i j : ℕ) (n : Node)
        → get_elem? order j ≡ some i
        → get_elem? ns i ≡ some n
        → get_elem? nodes j ≡ some (pair (remap_record m n.left) (remap_record m n.right))) where
    -- What a record leads to has a number.
    Lands : Record → Type 0
    Lands r = Waits m [] r × AliasIsReached ns r

    get_step-remap :
        (go go' : ℕ → Option (Option ℕ)) (r : Record)
        → ((i j : ℕ) → new_index m i ≡ some j → go' j ≡ go i)
        → Lands r
        → get_step go' (remap_record m r) ≡ get_step go r
    unfolding get_step remap_record Lands
    get_step-remap go go' (node t) same h =
        let (j, e) = number_of_target m t h.0 in rw (e, remap_record) (same t j e)
    get_step-remap go go' (fixed_node t) same h =
        let (j, e) = number_of_target m t h.0 in rw (e, remap_record) (same t j e)
    get_step-remap go go' (alias t) same h =
        let (j, e) = Reached-Known m order f t h.1 in rw (e, remap_record) (same t j e)
    get_step-remap go go' no_data same h = refl
    get_step-remap go go' (populated a) same h = refl
    get_step-remap go go' reserved same h = refl

    get_loop-remap :
        (bits k d i j : ℕ)
        → new_index m i ≡ some j
        → get_loop nodes bits k d j ≡ get_loop ns bits k d i
    unfolding get_loop Lands
    get_loop-remap bits zero d i j e = refl
    get_loop-remap bits (suc k) d i j e =
        let (n, here, al, ar) = linked i (f.reached i j e) in
        let (cl, cr) = f.closed i j e n here in
        let there = each i j n (f.placed i j e) here in
        rw (here, get_loop, there, child-remap m n (bit_at bits d))
          (get_step-remap (get_loop ns bits k (d + 1)) (get_loop nodes bits k (d + 1))
            (child n (bit_at bits d)) (λ i' j' e'. get_loop-remap bits k (d + 1) i' j' e')
            (child_cases Lands n (bit_at bits d) (cl, al) (cr, ar)))

  unvisited-none : (n : ℕ) → unvisited n [] ≡ n
  unfolding unvisited new_index
  unvisited-none zero = refl
  unvisited-none (suc n) = omega (arith, unvisited-none n)

  Found-start : Found ns (0 ∷ []) [] []
  unfolding new_index
  Found-start = record {
    placed = λ i j e. cc;
    reached = λ i j e. cc;
    ordered = tt;
    waiting = (root, tt);
    closed = λ i j e n h. cc;
    start = inr (refl, refl);
    count = omega (arith, unvisited-none (length ns));
  }

  remap-Kin :
      (m : List (ℕ × ℕ)) (order : List ℕ) (r : Record)
      → ((i j : ℕ) → new_index m i ≡ some j → get_elem? order j ≡ some i)
      → Kin (length order) r (remap_record m r)
  unfolding remap_record
  remap-Kin m order (node t) at = elim (Option-cases (new_index m t)) [
    | inl e ↦ rw (e, Kin) tt
    | inr (j, e) ↦ rw (e, Kin) (get_elem?-lt order j t (at t j e))
  ]
  remap-Kin m order (fixed_node t) at = elim (Option-cases (new_index m t)) [
    | inl e ↦ rw (e, Kin) tt
    | inr (j, e) ↦ rw (e, Kin) (get_elem?-lt order j t (at t j e))
  ]
  remap-Kin m order (alias t) at = elim (Option-cases (new_index m t)) [
    | inl e ↦ rw (e, Kin) tt
    | inr (j, e) ↦ rw (e, Kin) (get_elem?-lt order j t (at t j e))
  ]
  remap-Kin m order no_data at = tt
  remap-Kin m order (populated a) at = refl
  remap-Kin m order reserved at = tt

  -- Where the new nodes come from.
  origins :
      (m : List (ℕ × ℕ)) (order : List ℕ) (f : Found ns [] m order) (nodes : Nodes)
      → length nodes ≡ length order
      → ((i j : ℕ) (n : Node)
          → get_elem? order j ≡ some i
          → get_elem? ns i ≡ some n
          → get_elem? nodes j ≡ some (pair (remap_record m n.left) (remap_record m n.right)))
      → (j : ℕ) (n' : Node) → get_elem? nodes j ≡ some n'
      → Origin ns (length nodes) n'
  origins m order f nodes long each j n' e =
      let (i, at) = get_elem?-some order j (subst (λ k. j < k) long (get_elem?-lt nodes j n' e)) in
      let known = All-get_elem? (Reached ns) order f.ordered j i at in
      let (n, here, _, _) = linked i known in
      let same : n' ≡ pair (remap_record m n.left) (remap_record m n.right) =
        some-injective (sym e ∙ each i j n at here) in
      record {
        index = i;
        old = n;
        known = known;
        here = here;
        left =
            subst (λ k. Kin k n.left n'.left) (sym long)
              (subst (λ x. Kin (length order) n.left x.left) (sym same)
                (remap-Kin m order n.left f.placed));
        right =
            subst (λ k. Kin k n.right n'.right) (sym long)
              (subst (λ x. Kin (length order) n.right x.right) (sym same)
                (remap-Kin m order n.right f.placed));
      }

  -- In at most 2^32 nodes of which all that are reached from the root are there, and where aliases
  -- go to nodes that are reached by nodes, the renumbering ends within its fuel and without a
  -- panic. It leaves a node, but no more than there were, and every lookup, to any depth, finds in
  -- them what it found before. Each of its nodes comes from one that is reached, and its records
  -- lead to nodes that are there and to the data of the old ones.
  pub renumber_reachable-Renumbered :
      {S : Type 0} (s : S)
      → length ns ≤ 2 ^ 32
      → (nodes : Nodes) × (renumber_reachable ns s ≡ ok tt nodes s) × Renumbered ns nodes
  unfolding renumber_reachable get
  renumber_reachable-Renumbered s few =
      let (found, is, f) =
        renumber_loop-Found few s (2 + 2 * length ns) (0 ∷ []) [] [] Found-start
          (omega (arith, unvisited-none (length ns))) in
      let (nodes, made, long, each) = new_nodes-ok few s found.0 found.1 f.ordered in
      let first = first_number found.0 found.1 f in
      (
        nodes,
        rw (is, made) refl,
        record {
          filled = subst (λ k. 0 < k) (sym long) (get_elem?-lt found.1 0 0 (f.placed 0 0 first));
          fewer = omega (arith, long, f.count);
          same = λ bits depth. get_loop-remap found.0 found.1 f nodes each bits depth 0 0 0 first;
          origin = origins found.0 found.1 f nodes long each;
        },
      )
