-- ===== src/Tree/Prefix.antt =====
-- The bitwise test of an insertion is equality of prefixes.
use mathlib.Core.Path.{subst}
use native.Mathlib.Nat.{div-div-eq-div-mul, pow-suc}
use mmdb_writer.Base.{
  ℕ, zero, suc, ◌+◌, ◌-◌, ◌/◌, ◌%◌, ◌^◌, ◌≤◌, ◌<◌, ◌≡◌, ◌↔◌, refl, sym, ◌∙◌, ap, true, ◌==◌, ==_iff,
  &&-true, arith,
}
use mmdb_writer.Tree.{bit_at}
use mmdb_writer.Tree.Update.{covers}

-- The first `n` of 128 bits.
abbrev pub prefix : ℕ → ℕ → ℕ
prefix x n = x / 2 ^ (128 - n)

-- One bit more.
prefix-suc : (x d : ℕ) → d < 128 → prefix x d ≡ prefix x (suc d) / 2
prefix-suc x d h =
    ap (λ k. x / 2 ^ k) (short d h)
    ∙ ap (λ m. x / m) (pow-suc 2 (127 - d))
    ∙ sym (div-div-eq-div-mul x (2 ^ (127 - d)) 2)
    ∙ ap (λ k. x / 2 ^ k / 2) (long d h)
  where
    short : (d : ℕ) → d < 128 → 128 - d ≡ suc (127 - d)
    short d h = omega arith

    long : (d : ℕ) → d < 128 → 127 - d ≡ 128 - suc d
    long d h = omega arith

bit-prefix : (x d : ℕ) → d < 128 → bit_at x d ≡ prefix x (suc d) % 2
unfolding bit_at
bit-prefix x d h = ap (λ k. x / 2 ^ k % 2) (long d h)
  where
    long : (d : ℕ) → d < 128 → 127 - d ≡ 128 - suc d
    long d h = omega arith

shift : (m d : ℕ) → m + suc d ≡ suc m + d
shift m d = omega arith

covers→prefix :
    (m d bits addr : ℕ)
    → m + d ≤ 128
    → prefix bits d ≡ prefix addr d
    → covers m d bits addr ≡ true
    → prefix bits (m + d) ≡ prefix addr (m + d)
unfolding covers
covers→prefix zero d bits addr h e c = subst (λ k. prefix bits k ≡ prefix addr k) (omega arith) e
covers→prefix (suc m) d bits addr h e c =
    let (here, rest) = &&-true (bit_at bits d == bit_at addr d) (covers m (suc d) bits addr) c in
    subst (λ k. prefix bits k ≡ prefix addr k) (shift m d)
      (covers→prefix m (suc d) bits addr (omega arith)
        (omega (
          arith,
          (==_iff (bit_at bits d) (bit_at addr d)).0 here,
          prefix-suc bits d (omega arith),
          prefix-suc addr d (omega arith),
          bit-prefix bits d (omega arith),
          bit-prefix addr d (omega arith),
        ))
        rest)

prefix→covers :
    (m d bits addr : ℕ)
    → m + d ≤ 128
    → prefix bits (m + d) ≡ prefix addr (m + d)
    → (prefix bits d ≡ prefix addr d) × (covers m d bits addr ≡ true)
unfolding covers
prefix→covers zero d bits addr h e =
    (subst (λ k. prefix bits k ≡ prefix addr k) (omega arith) e, refl)
prefix→covers (suc m) d bits addr h e =
    let (next, rest) =
      prefix→covers m (suc d) bits addr (omega arith)
        (subst (λ k. prefix bits k ≡ prefix addr k) (sym (shift m d)) e) in
    (
      omega (arith, prefix-suc bits d (omega arith), prefix-suc addr d (omega arith)),
      rw rest (ground (arith, bit-prefix bits d (omega arith), bit-prefix addr d (omega arith))),
    )

-- An address has the bits of a network on the path of `n` bits down the tree exactly if the first
-- `n` of their 128 bits are the same number.
pub covers_iff :
    (n bits addr : ℕ)
    → n ≤ 128
    → bits < 2 ^ 128
    → addr < 2 ^ 128
    → (covers n 0 bits addr ≡ true) ↔ (prefix bits n ≡ prefix addr n)
covers_iff n bits addr h hb ha = (
  λ c.
      subst (λ k. prefix bits k ≡ prefix addr k) (omega arith)
        (covers→prefix n 0 bits addr (omega arith) (omega arith) c),
  λ e.
      (prefix→covers n 0 bits addr (omega arith)
        (subst (λ k. prefix bits k ≡ prefix addr k) (omega arith) e)).1,
)
