-- ===== src/Net/Range/Whole.antt =====
-- `range_to_cidrs`: all ranges that it decomposes, and the ones that it does not.
use mathlib.Core.Path.{subst}
use native.Mathlib.Nat.{zero-div, div-lt_iff_lt-mul, pow-le-pow_right}
use mmdb_writer.Base.{
  ℕ, suc, ◌-◌, ◌*◌, ◌/◌, ◌^◌, ◌≤◌, ◌<◌, ◌≡◌, ◌↔◌, refl, sym, ◌∙◌, ap, Bool, true, false, ◌&&◌, List,
  [], ◌∷◌, ltb, leb, ◌==◌, inl, inr, Bool-cases, &&-true, ==_iff, arith,
}
use mmdb_writer.Net.Range.{
  done, panic, add_u128, ◌>>=◌, shl_one, align_bits, shrink, next_start, range_loop, max_for_bits,
  range_to_cidrs,
}
use mmdb_writer.Net.Range.Blocks.{pow_pos}
use mmdb_writer.Net.Range.Cover.{in_network, Covers, next_start-cases, range_loop-Covers}

in_whole : (total addr : ℕ) → in_network total addr (0, 0) ≡ ltb addr (2 ^ total)
in_whole total addr =
    let high : (addr / 2 ^ total < suc 0) ↔ (addr < suc 0 * 2 ^ total) =
      div-lt_iff_lt-mul (pow_pos total) in
    ap (λ k. addr / 2 ^ k == 0 / 2 ^ k) (all total)
    ∙ rw (zero-div (2 ^ total)) (ground (arith, high))
  where
    all : (total : ℕ) → total - 0 ≡ total
    all total = omega arith

max_for_bits-pow : (total : ℕ) → total ≤ 128 → max_for_bits total ≡ 2 ^ total - 1
unfolding max_for_bits
max_for_bits-pow total lim = elim (Bool-cases (leb 128 total)) [
  | inl t ↦ rw t (ap (λ k. 2 ^ k - 1) (is_128 total lim t))
  | inr t ↦ rw t refl
]
  where
    is_128 : (total : ℕ) → total ≤ 128 → leb 128 total ≡ true → 128 ≡ total
    is_128 total lim t = ground arith

whole_space :
    (end total : ℕ)
    → total ≤ 128
    → end ≡ max_for_bits total
    → Covers 0 end total (done ((0, 0) ∷ []))
whole_space end total lim e = record {
  networks = (0, 0) ∷ [];
  is = refl;
  bounded = ((omega arith, omega arith), tt);
  exactly = λ addr.
      rw (in_whole total addr) (ground (arith, pow_pos total, e, max_for_bits-pow total lim));
}

-- A range of addresses of at most 128 bits, unless it is one of 128 bits that starts at 0 and ends
-- before the last address, is decomposed without an overflow and in finitely many rounds, in either
-- build profile, into networks that hold the addresses of the range and no others.
pub range_to_cidrs-Covers :
    (checked : Bool) (start end total : ℕ)
    → start ≤ end
    → end < 2 ^ total
    → total ≤ 128
    → (start ≡ 0 → total ≡ 128 → end ≡ 2 ^ 128 - 1)
    → Covers start end total (range_to_cidrs checked start end total)
unfolding range_to_cidrs
range_to_cidrs-Covers checked start end total le lt lim exc =
    elim (Bool-cases (start == 0 && end == max_for_bits total)) [
      | inl t ↦
          let (first, all) = &&-true (start == 0) (end == max_for_bits total) t in
          rw t (
            subst (λ s. Covers s end total (done ((0, 0) ∷ []))) (sym ((==_iff start 0).0 first))
              (whole_space end total lim ((==_iff end (max_for_bits total)).0 all)))
      | inr t ↦ rw t (
          range_loop-Covers checked (suc (end - start)) start end total (omega arith) le
            (omega (arith, pow-le-pow_right {n = 2} (omega arith) lim)) lim (λ z. small z t))
    ]
  where
    is_128 : (total : ℕ) → total ≤ 128 → leb 128 total ≡ true → total ≡ 128
    is_128 total lim t = ground arith

    small : start ≡ 0 → (start == 0 && end == max_for_bits total) ≡ false → total < 128
    small z t = elim (Bool-cases (leb 128 total)) [
      | inl b ↦
          absurd (ground (arith, exc z, max_for_bits-pow 128 (omega arith), is_128 total lim b))
      | inr b ↦ ground arith
    ]

leb_zero : (n : ℕ) → leb 0 n ≡ true
leb_zero n = ground arith

-- Without overflow checks the first block has size 128.
first_is_all :
    (end : ℕ)
    → end < 2 ^ 128
    → (rest : List (ℕ × ℕ)) × (range_loop false (suc (end - 0)) 0 end 128 ≡ done ((0, 0) ∷ rest))
unfolding range_loop shrink align_bits shl_one add_u128
first_is_all end h =
    rw (leb_zero end, ◌>>=◌)
      (elim (next_start-cases 0 1 end (omega arith) h) [
        | inl (e, m) ↦
            let rest =
              range_loop-Covers false (end - 0) 1 end 128 (omega arith) m h (omega arith)
                (λ z. absurd (omega arith)) in
            rw (e, ◌>>=◌, shl_one, rest.is) (rest.networks, refl)
        | inr (e, m) ↦ rw (e, ◌>>=◌, shl_one) ([], refl)
      ])

-- A range of 128 bits that starts at 0 and ends before the last address makes a build with overflow
-- checks panic, and without them the first network is the whole space.
pub range_to_cidrs-from_unspecified :
    (end : ℕ)
    → end < 2 ^ 128 - 1
    → (range_to_cidrs true 0 end 128 ≡ panic)
      × (rest : List (ℕ × ℕ)) × (range_to_cidrs false 0 end 128 ≡ done ((0, 0) ∷ rest))
unfolding range_to_cidrs range_loop shrink align_bits shl_one add_u128 next_start max_for_bits
range_to_cidrs-from_unspecified end h = elim (Bool-cases (end == max_for_bits 128)) [
  | inl t ↦ absurd (ground arith)
  | inr t ↦ let (rest, e) = first_is_all end (omega arith) in rw t (refl, rest, e)
]
