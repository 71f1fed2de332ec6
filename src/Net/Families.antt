-- ===== src/Net/Families.antt =====
-- `range_to_networks` (src/net.rs): the networks of a range of either family.
use mmdb_writer.Base.{
  ℕ, ◌-◌, ◌≤◌, ◌<◌, ◌%◌, ◌^◌, ◌≡◌, refl, ap, ◌∙◌, Bool, ◌||◌, false, List, [], ◌∷◌, ltb, All, arith,
}
use mmdb_writer.Error.{Result, ok}
use mmdb_writer.Net.Range.{Checked, done, ◌>>=◌}
use mmdb_writer.Net.Range.Cover.{in_network, in_some, in_range}
use mmdb_writer.Net.Range.Whole.{range_to_cidrs-Covers}
use mmdb_writer.Net.Networks.{
  Ipnet, IpnetLaws, IpNet, net4, net6, NetError, addr_v4, addr_v6, networks4, networks6,
  range_to_networks,
}

module _ (I : Ipnet) where
  -- `addr` is an address of the network, one of its family.
  abbrev pub in_net : ℕ → IpNet I → Bool
  in_net addr (net4 n) = in_network 32 addr (I.addr4 n, I.prefix_len4 n)
  in_net addr (net6 n) = in_network 128 addr (I.addr6 n, I.prefix_len6 n)

  abbrev pub in_some_net : ℕ → List (IpNet I) → Bool
  in_some_net addr [] = false
  in_some_net addr (n ∷ ns) = in_net addr n || in_some_net addr ns

module _ (I : Ipnet) (laws : IpnetLaws I) where
  -- The networks of the pairs `cs`.
  record Built (total : ℕ) (cs : List (ℕ × ℕ)) (r : Checked (List (IpNet I))) : Type 0 where
    nets : List (IpNet I)
    is : r ≡ done nets
    same : (addr : ℕ) → in_some_net I addr nets ≡ in_some total addr cs

  networks4-Built :
      (end : ℕ) (cs : List (ℕ × ℕ))
      → end < 2 ^ 32
      → All (λ c. (c.1 ≤ 32) × (c.0 ≤ end)) cs
      → Built 32 cs (networks4 I cs)
  unfolding networks4
  networks4-Built end [] h a = record { nets = []; is = refl; same = λ addr. refl }
  networks4-Built end ((base, len) ∷ cs) h a =
      let (n, e, at, wide) = laws.new4-some (base % 2 ^ 32) len (omega arith) a.0.0 in
      let rest = networks4-Built end cs h a.1 in
      rw (e, networks4, rest.is, ◌>>=◌)
        (record {
          nets = net4 n ∷ rest.nets;
          is = refl;
          same = λ addr.
              ap (λ b. in_network 32 addr (b, I.prefix_len4 n) || in_some_net I addr rest.nets)
                (at ∙ low base (omega (arith, a.0.1)))
              ∙ ap (λ p. in_network 32 addr (base, p) || in_some_net I addr rest.nets) wide
              ∙ ap (λ b. in_network 32 addr (base, len) || b) (rest.same addr);
        })
    where
      low : (b : ℕ) → b < 2 ^ 32 → b % 2 ^ 32 ≡ b
      low b lt = omega arith

  networks6-Built :
      (end : ℕ) (cs : List (ℕ × ℕ))
      → end < 2 ^ 128
      → All (λ c. (c.1 ≤ 128) × (c.0 ≤ end)) cs
      → Built 128 cs (networks6 I cs)
  unfolding networks6
  networks6-Built end [] h a = record { nets = []; is = refl; same = λ addr. refl }
  networks6-Built end ((base, len) ∷ cs) h a =
      let (n, e, at, wide) = laws.new6-some base len (omega (arith, a.0.1)) a.0.0 in
      let rest = networks6-Built end cs h a.1 in
      rw (e, networks6, rest.is, ◌>>=◌)
        (record {
          nets = net6 n ∷ rest.nets;
          is = refl;
          same = λ addr.
              ap (λ b. in_network 128 addr (b, I.prefix_len6 n) || in_some_net I addr rest.nets) at
              ∙ ap (λ p. in_network 128 addr (base, p) || in_some_net I addr rest.nets) wide
              ∙ ap (λ b. in_network 128 addr (base, len) || b) (rest.same addr);
        })

  -- The networks that a call returns hold the addresses of the range and no others.
  pub record Split (start end : ℕ) (r : Checked (Result (NetError I) (List (IpNet I))))
      : Type 0 where
    pub nets : List (IpNet I)
    pub is : r ≡ done (ok nets)
    pub exactly : (addr : ℕ) → in_some_net I addr nets ≡ in_range start end addr

  not_below : (s e : ℕ) → s ≤ e → ltb e s ≡ false
  not_below s e h = ground arith

  -- With ipnet as documented, a range of IPv4 addresses is split without a panic, in either build
  -- profile, into networks that hold its addresses and no others.
  pub range_to_networks4-Split :
      (checked : Bool) (start end : ℕ)
      → start ≤ end
      → end < 2 ^ 32
      → Split start end (range_to_networks I checked (addr_v4 start) (addr_v4 end))
  unfolding range_to_networks
  range_to_networks4-Split checked start end le lt =
      let c =
        range_to_cidrs-Covers checked start end 32 le lt (omega arith)
          (λ z t. absurd (omega arith)) in
      let b = networks4-Built end c.networks lt c.bounded in
      rw (not_below start end le, range_to_networks, c.is, ◌>>=◌, b.is)
        (record { nets = b.nets; is = refl; exactly = λ addr. b.same addr ∙ c.exactly addr })

  -- With ipnet as documented, a range of IPv6 addresses that does not start at 0, or that is the
  -- whole space, is split without a panic, in either build profile, into networks that hold its
  -- addresses and no others.
  pub range_to_networks6-Split :
      (checked : Bool) (start end : ℕ)
      → start ≤ end
      → end < 2 ^ 128
      → (start ≡ 0 → end ≡ 2 ^ 128 - 1)
      → Split start end (range_to_networks I checked (addr_v6 start) (addr_v6 end))
  unfolding range_to_networks
  range_to_networks6-Split checked start end le lt exc =
      let c = range_to_cidrs-Covers checked start end 128 le lt (omega arith) (λ z t. exc z) in
      let b = networks6-Built end c.networks lt c.bounded in
      rw (not_below start end le, range_to_networks, c.is, ◌>>=◌, b.is)
        (record { nets = b.nets; is = refl; exactly = λ addr. b.same addr ∙ c.exactly addr })
