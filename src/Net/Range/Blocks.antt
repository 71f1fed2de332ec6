-- ===== src/Net/Range/Blocks.antt =====
-- The blocks of a range: their alignment and their size.
use native.Mathlib.Nat.{
  pow-suc, mul_assoc, mul_comm, suc-mul, mul-le-mul_right, lt_of_mul-lt-mul_right,
}
use mmdb_writer.Base.{
  ℕ, zero, suc, ◌+◌, ◌-◌, ◌*◌, ◌/◌, ◌%◌, ◌^◌, ◌≤◌, ◌<◌, ◌≡◌, refl, sym, ◌∙◌, ap, Bool, leb, ◌==◌,
  inl, inr, Bool-cases, ==_iff, arith,
}
use mmdb_writer.Net.Range.{Checked, done, shl_one, add_u128, trailing_zeros, shrink}

-- A multiple of 2^n.
abbrev pub IsAligned : ℕ → ℕ → Type 0
IsAligned n v = (q : ℕ) × (v ≡ q * 2 ^ n)

pub pow_pos : (n : ℕ) → 0 < 2 ^ n
pow_pos zero = omega arith
pow_pos (suc n) = omega (arith, pow_pos n, pow-suc 2 n)

doubled : (v q x y : ℕ) → v % 2 ≡ 0 → v / 2 ≡ q * x → y ≡ x * 2 → v ≡ q * y
doubled v q x y even half e = omega (arith, mul_assoc q x 2, ap (λ k. q * k) e)

-- 2^n as a multiple of 2^m.
pub pow_split : (k m : ℕ) → 2 ^ (k + m) ≡ 2 ^ k * 2 ^ m
pow_split zero m = ap (λ i. 2 ^ i) (from m) ∙ one_time (2 ^ m)
  where
    from : (m : ℕ) → 0 + m ≡ m
    from m = omega arith

    one_time : (x : ℕ) → x ≡ 2 ^ 0 * x
    one_time x = omega arith
pow_split (suc k) m =
    ap (λ i. 2 ^ i) (next k m)
    ∙ pow-suc 2 (k + m)
    ∙ ap (λ x. x * 2) (pow_split k m)
    ∙ swap (2 ^ k) (2 ^ m)
    ∙ ap (λ x. x * 2 ^ m) (sym (pow-suc 2 k))
  where
    next : (k m : ℕ) → suc k + m ≡ suc (k + m)
    next k m = omega arith

    swap : (x y : ℕ) → x * y * 2 ≡ x * 2 * y
    swap x y = mul_assoc x y 2 ∙ ap (λ z. x * z) (mul_comm y 2) ∙ sym (mul_assoc x 2 y)

room_of : (q y x : ℕ) → q * x < y * x → q * x + x ≤ y * x
room_of q y x h = omega (arith, suc-mul q x, mul-le-mul_right x (lt_of_mul-lt-mul_right x h))

pub trailing_zeros-IsAligned : (k v : ℕ) → IsAligned (trailing_zeros k v) v
unfolding trailing_zeros
trailing_zeros-IsAligned zero v = (v, omega arith)
trailing_zeros-IsAligned (suc k) v = elim (Bool-cases (v % 2 == 0)) [
  | inl e ↦
      let (q, half) = trailing_zeros-IsAligned k (v / 2) in
      rw e (
        q,
        doubled v q (2 ^ trailing_zeros k (v / 2)) (2 ^ suc (trailing_zeros k (v / 2)))
            ((==_iff (v % 2) 0).0 e) half (pow-suc 2 (trailing_zeros k (v / 2))),
      )
  | inr e ↦ rw e (v, omega arith)
]

pub IsAligned-le : (m n v : ℕ) → m ≤ n → IsAligned n v → IsAligned m v
IsAligned-le m n v h (q, e) = (
  q * 2 ^ (n - m),
  e
      ∙ ap (λ k. q * 2 ^ k) (split m n h)
      ∙ ap (λ x. q * x) (pow_split (n - m) m)
      ∙ sym (mul_assoc q (2 ^ (n - m)) (2 ^ m)),
)
  where
    split : (m n : ℕ) → m ≤ n → n ≡ n - m + m
    split m n h = omega arith

-- A block that is aligned ends within the words.
pub IsAligned-room : (n v : ℕ) → n ≤ 128 → v < 2 ^ 128 → IsAligned n v → v + 2 ^ n ≤ 2 ^ 128
IsAligned-room n v h lt (q, e) =
    let whole : 2 ^ 128 ≡ 2 ^ (128 - n) * 2 ^ n =
      ap (λ k. 2 ^ k) (split n h) ∙ pow_split (128 - n) n in
    omega (arith, e, whole, room_of q (2 ^ (128 - n)) (2 ^ n) (omega (arith, e, whole)))
  where
    split : (n : ℕ) → n ≤ 128 → 128 ≡ 128 - n + n
    split n h = omega arith

pub shl_one-done : (checked : Bool) (n : ℕ) → n < 128 → shl_one checked n ≡ done (2 ^ n)
unfolding shl_one
shl_one-done checked n h = ground arith

add_u128-done : (checked : Bool) (a b : ℕ) → a + b < 2 ^ 128 → add_u128 checked a b ≡ done (a + b)
unfolding add_u128
add_u128-done checked a b h = ground arith

-- The size on which the inner loop settles.
pub record Settled (start end size : ℕ) (r : Checked ℕ) : Type 0 where
  pub at : ℕ
  pub is : r ≡ done at
  pub below : at ≤ size
  pub inside : start + 2 ^ at ≤ suc end

pub shrink-Settled :
    (checked : Bool) (start end size : ℕ)
    → size < 128
    → start + 2 ^ size ≤ 2 ^ 128
    → start ≤ end
    → Settled start end size (shrink checked start end size)
unfolding shrink
shrink-Settled checked start end zero h room le = record {
  at = 0;
  is = refl;
  below = omega arith;
  inside = omega arith;
}
shrink-Settled checked start end (suc size) h room le =
    rw
      (
        shl_one-done checked (suc size) h,
        add_u128-done checked start (2 ^ suc size - 1) (omega (arith, pow_pos (suc size))),
      )
      (elim (Bool-cases (leb (start + (2 ^ suc size - 1)) end)) [
        | inl t ↦ rw t (record {
          at = suc size;
          is = refl;
          below = omega arith;
          inside = ground (arith, pow_pos (suc size));
        })
        | inr t ↦ rw t (
            let s =
              shrink-Settled checked start end size (omega arith) (omega (arith, pow-suc 2 size))
                le in
            record { at = s.at; is = s.is; below = omega (arith, s.below); inside = s.inside })
      ])
