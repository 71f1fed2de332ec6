-- ===== src/Net/Range/Cover.antt =====
-- The networks of a range cover its addresses and no others.
use native.Mathlib.Nat.{le-div_iff_mul-le, div-lt_iff_lt-mul, mul-div_cancel, suc-mul}
use mmdb_writer.Base.{
  All, ℕ, zero, suc, ◌+◌, ◌-◌, ◌*◌, ◌/◌, ◌%◌, ◌^◌, ◌≤◌, ◌<◌, ◌≡◌, ◌↔◌, ◌⊎◌, refl, ◌∙◌, min, Bool,
  false, ◌&&◌, ◌||◌, none, some, List, [], ◌∷◌, ◌≢◌, ltb, ltb→lt, leb, ◌==◌, inl, inr, Bool-cases,
  ==_iff, arith,
}
use mmdb_writer.Net.Range.{
  Checked, done, ◌>>=◌, trailing_zeros, align_bits, shrink, next_start, range_loop,
}
use mmdb_writer.Net.Range.Blocks.{
  IsAligned, IsAligned-le, IsAligned-room, pow_pos, trailing_zeros-IsAligned, shl_one-done,
  shrink-Settled,
}

-- `addr` is an address of the network: it has the first `prefix_len` of `total` bits of the base.
abbrev pub in_network : ℕ → ℕ → ℕ × ℕ → Bool
in_network total addr (base, prefix_len) =
    addr / 2 ^ (total - prefix_len) == base / 2 ^ (total - prefix_len)

abbrev pub in_some : ℕ → ℕ → List (ℕ × ℕ) → Bool
in_some total addr [] = false
in_some total addr (c ∷ cs) = in_network total addr c || in_some total addr cs

abbrev pub in_range : ℕ → ℕ → ℕ → Bool
in_range start end addr = leb start addr && leb addr end

-- The quotients by `m` agree in the block of `m` numbers from a multiple on.
same_block :
    (q m addr : ℕ) → 0 < m → (addr / m == q * m / m) ≡ leb (q * m) addr && ltb addr (q * m + m)
same_block q m addr h =
    let low : (q ≤ addr / m) ↔ (q * m ≤ addr) = le-div_iff_mul-le h in
    let high : (addr / m < suc q) ↔ (addr < suc q * m) = div-lt_iff_lt-mul h in
    rw (mul-div_cancel q h) (ground (arith, low, high, suc-mul q m))

-- A network from an aligned base on, of the size that the loop gives it.
in_network-block :
    (total size start addr : ℕ)
    → size ≤ total
    → total ≤ 128
    → IsAligned size start
    → in_network total addr (start, (total - size) % 256)
      ≡ leb start addr && ltb addr (start + 2 ^ size)
in_network-block total size start addr h lim (q, e) =
    rw (back total size h lim, e) (same_block q (2 ^ size) addr (pow_pos size))
  where
    back : (total size : ℕ) → size ≤ total → total ≤ 128 → total - (total - size) % 256 ≡ size
    back total size h lim = omega arith

-- What the outer loop has to work with.
record Aligned (start total n : ℕ) : Type 0 where
  is : IsAligned n start
  small : n < 128
  within : n ≤ total

Aligned-min :
    (start total t : ℕ)
    → start < 2 ^ 128
    → start ≢ 0
    → IsAligned t start
    → Aligned start total (min t total)
Aligned-min start total t h ne a = record {
  is = IsAligned-le (min t total) t start (omega arith) a;
  small = elim (Bool-cases (ltb t 128)) [
    | inl e ↦ omega (arith, ltb→lt t 128 e)
    | inr e ↦
        let (q, whole) = IsAligned-le 128 t start (ground arith) a in absurd (ne (omega arith))
  ];
  within = omega arith;
}

align_bits-Aligned :
    (start total : ℕ)
    → start < 2 ^ 128
    → total ≤ 128
    → (start ≡ 0 → total < 128)
    → Aligned start total (align_bits start total)
unfolding align_bits
align_bits-Aligned start total h lim zero_start = elim (Bool-cases (start == 0)) [
  | inl e ↦
      let none = (==_iff start 0).0 e in
      rw (e, align_bits)
        (record {
          is = (0, none ∙ nothing (2 ^ total));
          small = zero_start none;
          within = omega arith;
        })
  | inr e ↦
      rw (e, align_bits)
        (Aligned-min start total (trailing_zeros 128 start) h (λ z. cc (e, (==_iff start 0).1 z))
          (trailing_zeros-IsAligned 128 start))
]
  where
    nothing : (x : ℕ) → 0 ≡ 0 * x
    nothing x = omega arith

-- The networks `cs` are those of the range.
pub record Covers (start end total : ℕ) (r : Checked (List (ℕ × ℕ))) : Type 0 where
  pub networks : List (ℕ × ℕ)
  pub is : r ≡ done networks
  pub bounded : All (λ c. (c.1 ≤ total) × (c.0 ≤ end)) networks
  pub exactly : (addr : ℕ) → in_some total addr networks ≡ in_range start end addr

pub next_start-cases :
    (start block end : ℕ)
    → start + block ≤ suc end
    → end < 2 ^ 128
    → ((next_start start block end ≡ some (start + block)) × start + block ≤ end)
      ⊎ ((next_start start block end ≡ none) × (start + block ≡ suc end))
unfolding next_start
next_start-cases start block end h lim =
    elim (Bool-cases (ltb (start + block) (2 ^ 128) && leb (start + block) end)) [
      | inl t ↦ inl (rw t refl, ground arith)
      | inr t ↦ inr (rw t refl, ground arith)
    ]

-- One round, given its size and the rest.
round-Covers :
    (checked : Bool) (fuel start end total size : ℕ)
    → shrink checked start end (align_bits start total) ≡ done size
    → size < 128
    → size ≤ total
    → total ≤ 128
    → IsAligned size start
    → start + 2 ^ size ≤ suc end
    → end < 2 ^ 128
    → (start + 2 ^ size ≤ end
        → Covers
            (start + 2 ^ size)
            end
            total
            (range_loop checked fuel (start + 2 ^ size) end total))
    → Covers start end total (range_loop checked (suc fuel) start end total)
unfolding range_loop
round-Covers checked fuel start end total size settled small within lim a inside h go =
    rw (settled, range_loop, shl_one-done checked size small)
      (elim (next_start-cases start (2 ^ size) end inside h) [
        | inl (e, le) ↦
            let rest = go le in
            rw (e, ◌>>=◌, rest.is)
              (record {
                networks = (start, (total - size) % 256) ∷ rest.networks;
                is = refl;
                bounded = ((omega arith, omega (arith, pow_pos size)), rest.bounded);
                exactly = λ addr.
                    rw (in_network-block total size start addr within lim a, rest.exactly addr)
                      (ground (arith, pow_pos size));
              })
        | inr (e, whole) ↦
            rw (e, ◌>>=◌)
              (record {
                networks = (start, (total - size) % 256) ∷ [];
                is = refl;
                bounded = ((omega arith, omega (arith, pow_pos size)), tt);
                exactly =
                    λ addr. rw (in_network-block total size start addr within lim a) (ground arith);
              })
      ])

pub range_loop-Covers :
    (checked : Bool) (fuel start end total : ℕ)
    → end - start < fuel
    → start ≤ end
    → end < 2 ^ 128
    → total ≤ 128
    → (start ≡ 0 → total < 128)
    → Covers start end total (range_loop checked fuel start end total)
range_loop-Covers checked zero start end total f le h lim z = absurd (omega arith)
range_loop-Covers checked (suc fuel) start end total f le h lim z =
    let a = align_bits-Aligned start total (omega arith) lim z in
    let s =
      shrink-Settled checked start end (align_bits start total) a.small
        (IsAligned-room (align_bits start total) start (omega (arith, a.small)) (omega arith) a.is)
        le in
    round-Covers checked fuel start end total s.at s.is (omega (arith, s.below, a.small))
      (omega (arith, s.below, a.within)) lim
      (IsAligned-le s.at (align_bits start total) start s.below a.is) s.inside h
      (λ more.
        range_loop-Covers checked fuel (start + 2 ^ s.at) end total (omega (arith, pow_pos s.at))
          more h lim (λ e. absurd (omega (arith, pow_pos s.at))))
