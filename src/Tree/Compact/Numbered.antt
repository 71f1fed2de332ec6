-- ===== src/Tree/Compact/Numbered.antt =====
-- The loop of `renumber_reachable` (src/tree.rs): it ends, and it numbers the nodes that are
-- reached.
use mathlib.Core.Path.{subst}
use mmdb_writer.Base.{
  ℕ, ◌+◌, ◌≡◌, ◌⊎◌, refl, sym, ◌∙◌, ap, true, false, none, some, List, [], ◌∷◌, ◌++◌, ◌==◌, ==_iff,
  inl, inr, Bool-cases, All, length, get_elem?, get_elem?-lt, get_elem?-append_left,
  get_elem?-append_here, length-append, some-injective, arith,
}
use mmdb_writer.Tree.Run.{Node, Nodes}
use mmdb_writer.Tree.Compact.{new_index, push_target}
use mmdb_writer.Tree.Compact.Reached.{
  Reached, go_left, go_right, In, Known, Waits, Known-add, Known-here, Waits-mono, In-push_target,
  Waits-push_target, All-push_target, unvisited, unvisited-add,
}

module _ (ns : Nodes) where
  -- What the loop has found: the map numbers the nodes of the order by their places, and all that a
  -- numbered node leads to is numbered or waits.
  pub record Found (stack : List ℕ) (m : List (ℕ × ℕ)) (order : List ℕ) : Type 0 where
    pub placed : (i j : ℕ) → new_index m i ≡ some j → get_elem? order j ≡ some i
    pub reached : (i j : ℕ) → new_index m i ≡ some j → Reached ns i
    pub ordered : All (Reached ns) order
    pub waiting : All (Reached ns) stack
    pub closed :
        (i j : ℕ)
        → new_index m i ≡ some j
        → (n : Node) → get_elem? ns i ≡ some n
        → Waits m stack n.left × Waits m stack n.right
    pub start : (new_index m 0 ≡ some 0) ⊎ ((stack ≡ 0 ∷ []) × (order ≡ []))
    pub count : length order + unvisited (length ns) m ≡ length ns

  new_index_add :
      (x k i : ℕ) (m : List (ℕ × ℕ)) → (x == i) ≡ true → new_index ((x, k) ∷ m) i ≡ some k
  unfolding new_index
  new_index_add x k i m h = rw h refl

  new_index_other :
      (x k i : ℕ) (m : List (ℕ × ℕ)) → (x == i) ≡ false → new_index ((x, k) ∷ m) i ≡ new_index m i
  unfolding new_index
  new_index_other x k i m h = rw h refl

  no_place : (order : List ℕ) (j i : ℕ) → order ≡ [] → get_elem? order j ≡ some i → ⊥
  no_place [] j i e h = cc
  no_place (y ∷ order) j i e h = cc

  top_of : {x y : ℕ} {xs ys : List ℕ} → x ∷ xs ≡ y ∷ ys → x ≡ y
  top_of e = cc

  -- The top of the stack has its number.
  pub Found-pop :
      (x j : ℕ) (stack : List ℕ) (m : List (ℕ × ℕ)) (order : List ℕ)
      → new_index m x ≡ some j
      → Found (x ∷ stack) m order
      → Found stack m order
  Found-pop x j stack m order e f = record {
    placed = f.placed;
    reached = f.reached;
    ordered = f.ordered;
    waiting = f.waiting.1;
    closed = λ i k h n here.
        let (l, r) = f.closed i k h n here in
        (
          Waits-mono m m (x ∷ stack) stack n.left met l,
          Waits-mono m m (x ∷ stack) stack n.right met r,
        );
    start = started f.start;
    count = f.count;
  }
    where
      started :
          (new_index m 0 ≡ some 0) ⊎ ((x ∷ stack ≡ 0 ∷ []) × (order ≡ []))
          → (new_index m 0 ≡ some 0) ⊎ ((stack ≡ 0 ∷ []) × (order ≡ []))
      started (inl h) = inl h
      started (inr (s, o)) = absurd (no_place order j x o (f.placed x j e))

      met : (t : ℕ) → Known m t ⊎ In t (x ∷ stack) → Known m t ⊎ In t stack
      met t (inl k) = inl k
      met t (inr (inl same)) = inl (j, ap (new_index m) same ∙ e)
      met t (inr (inr h)) = inr h

  module _ (x : ℕ) (stack : List ℕ) (m : List (ℕ × ℕ)) (order : List ℕ) (new : new_index m x ≡ none)
      (f : Found (x ∷ stack) m order) (n : Node) (here : get_elem? ns x ≡ some n) where
    abbrev pub stack' : List ℕ
    stack' = push_target n.left (push_target n.right stack)

    abbrev pub m' : List (ℕ × ℕ)
    m' = (x, length order) ∷ m

    pub visits : unvisited (length ns) m' + 1 ≡ unvisited (length ns) m
    visits = unvisited-add (length ns) x (length order) m (get_elem?-lt ns x n here) new

    met : (t : ℕ) → Known m t ⊎ In t (x ∷ stack) → Known m' t ⊎ In t stack'
    met t (inl k) = inl (Known-add x (length order) t m k)
    met t (inr (inl same)) = inl (Known-here x (length order) t m same)
    met t (inr (inr h)) =
        inr (In-push_target t n.left (push_target n.right stack) (In-push_target t n.right stack h))

    x-Reached : Reached ns x
    x-Reached = f.waiting.0

    placed' : (i j : ℕ) → new_index m' i ≡ some j → get_elem? (order ++ (x ∷ [])) j ≡ some i
    placed' i j h = elim (Bool-cases (x == i)) [
      | inl same ↦
          subst (λ k. get_elem? (order ++ (x ∷ [])) k ≡ some i)
            (some-injective (sym (new_index_add x (length order) i m same) ∙ h))
            (get_elem?-append_here order x ∙ ap some ((==_iff x i).0 same))
      | inr other ↦
          let old = f.placed i j (sym (new_index_other x (length order) i m other) ∙ h) in
          get_elem?-append_left order (x ∷ []) j (get_elem?-lt order j i old) ∙ old
    ]

    reached' : (i j : ℕ) → new_index m' i ≡ some j → Reached ns i
    reached' i j h = elim (Bool-cases (x == i)) [
      | inl same ↦ subst (Reached ns) ((==_iff x i).0 same) x-Reached
      | inr other ↦ f.reached i j (sym (new_index_other x (length order) i m other) ∙ h)
    ]

    here_closed : Waits m' stack' n.left × Waits m' stack' n.right
    here_closed = (
      Waits-push_target m' n.left (push_target n.right stack) stack' (λ t h. h),
      Waits-push_target m' n.right stack stack'
          (λ t h. In-push_target t n.left (push_target n.right stack) h),
    )

    closed' :
        (i j : ℕ)
        → new_index m' i ≡ some j
        → (k : Node) → get_elem? ns i ≡ some k
        → Waits m' stack' k.left × Waits m' stack' k.right
    closed' i j h k at = elim (Bool-cases (x == i)) [
      | inl same ↦
          let eq : n ≡ k =
            some-injective (sym here ∙ ap (get_elem? ns) ((==_iff x i).0 same) ∙ at) in
          subst (λ (y : Node). Waits m' stack' y.left × Waits m' stack' y.right) eq here_closed
      | inr other ↦
          let (l, r) = f.closed i j (sym (new_index_other x (length order) i m other) ∙ h) k at in
          (
            Waits-mono m m' (x ∷ stack) stack' k.left met l,
            Waits-mono m m' (x ∷ stack) stack' k.right met r,
          )
    ]

    All-one : (P : ℕ → Type 0) (xs : List ℕ) (y : ℕ) → All P xs → P y → All P (xs ++ (y ∷ []))
    All-one P [] y a p = (p, tt)
    All-one P (z ∷ xs) y a p = (a.0, All-one P xs y a.1 p)

    started :
        (new_index m 0 ≡ some 0) ⊎ ((x ∷ stack ≡ 0 ∷ []) × (order ≡ [])) → new_index m' 0 ≡ some 0
    started (inl h) = elim (Bool-cases (x == 0)) [
      | inl same ↦ cc (new, h, (==_iff x 0).0 same)
      | inr other ↦ new_index_other x (length order) 0 m other ∙ h
    ]
    started (inr (s, o)) =
        new_index_add x (length order) 0 m ((==_iff x 0).1 (top_of s))
        ∙ ap (λ (ys : List ℕ). some (length ys)) o

    -- A new node is numbered, and what it leads to is pushed.
    pub Found-visit : Found stack' m' (order ++ (x ∷ []))
    Found-visit = record {
      placed = placed';
      reached = reached';
      ordered = All-one (Reached ns) order x f.ordered x-Reached;
      waiting =
          All-push_target (Reached ns) n.left (push_target n.right stack)
            (λ t l. go_left n x-Reached here l)
            (All-push_target (Reached ns) n.right stack (λ t l. go_right n x-Reached here l)
              f.waiting.1);
      closed = closed';
      start = inl (started f.start);
      count = omega (arith, f.count, visits, length-append order (x ∷ []));
    }
