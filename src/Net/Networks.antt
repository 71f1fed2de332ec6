-- ===== src/Net/Networks.antt =====
-- src/net.rs: networks as words of the tree, the aliased networks, and the networks of a range. The
-- types of networks are those of the crate ipnet, which is a parameter.
use mmdb_writer.Base.{
  ℕ, ◌+◌, ◌-◌, ◌*◌, ◌/◌, ◌%◌, ◌^◌, ◌≤◌, ◌<◌, ◌≡◌, refl, sym, ap, ◌∙◌, Option, none, some, List, [],
  ◌∷◌, ltb, if◌then◌else◌, Bool, false, arith,
}
use native.Mathlib.Nat.{mul_assoc}
use mmdb_writer.Net.Range.Blocks.{pow_split}
use mmdb_writer.Error.{
  Error, ipv6_in_ipv4_tree, invalid_range, start_above_end, different_families, Result, ok, err,
}
use mmdb_writer.Net.{IpVersion, v4, v6, tree_depth}
use mmdb_writer.Net.Range.{Checked, done, panic, ◌>>=◌, range_to_cidrs}

-- What the source uses of ipnet. An address is the number of its octets; `none` is the error of a
-- prefix that is too long, `host4` and `host6` are the networks of one address.
pub record Ipnet : Type 1 where
  pub Ipv4Net : Type 0
  pub Ipv6Net : Type 0
  pub new4 : ℕ → ℕ → Option Ipv4Net
  pub new6 : ℕ → ℕ → Option Ipv6Net
  pub host4 : ℕ → Ipv4Net
  pub host6 : ℕ → Ipv6Net
  pub addr4 : Ipv4Net → ℕ
  pub addr6 : Ipv6Net → ℕ
  pub prefix_len4 : Ipv4Net → ℕ
  pub prefix_len6 : Ipv6Net → ℕ
  pub trunc4 : Ipv4Net → Ipv4Net
  pub trunc6 : Ipv6Net → Ipv6Net
  pub contains4 : Ipv4Net → Ipv4Net → Bool
  pub contains6 : Ipv6Net → Ipv6Net → Bool

-- Its documented behaviour: `new` builds a network of any address with a prefix in bounds, the
-- network of one address has the longest prefix, `trunc` keeps the prefix length and clears the
-- bits of the host.
pub record IpnetLaws (I : Ipnet) : Type 0 where
  pub new4-some :
      (a p : ℕ)
      → a < 2 ^ 32
      → p ≤ 32
      → (n : I.Ipv4Net) × (I.new4 a p ≡ some n) × (I.addr4 n ≡ a) × (I.prefix_len4 n ≡ p)
  pub new6-some :
      (a p : ℕ)
      → a < 2 ^ 128
      → p ≤ 128
      → (n : I.Ipv6Net) × (I.new6 a p ≡ some n) × (I.addr6 n ≡ a) × (I.prefix_len6 n ≡ p)
  pub addr4-host4 : (a : ℕ) → a < 2 ^ 32 → I.addr4 (I.host4 a) ≡ a
  pub addr6-host6 : (a : ℕ) → a < 2 ^ 128 → I.addr6 (I.host6 a) ≡ a
  pub prefix_len4-host4 : (a : ℕ) → I.prefix_len4 (I.host4 a) ≡ 32
  pub prefix_len6-host6 : (a : ℕ) → I.prefix_len6 (I.host6 a) ≡ 128
  pub prefix_len4-le : (n : I.Ipv4Net) → I.prefix_len4 n ≤ 32
  pub prefix_len6-le : (n : I.Ipv6Net) → I.prefix_len6 n ≤ 128
  pub prefix_len4-trunc4 : (n : I.Ipv4Net) → I.prefix_len4 (I.trunc4 n) ≡ I.prefix_len4 n
  pub prefix_len6-trunc6 : (n : I.Ipv6Net) → I.prefix_len6 (I.trunc6 n) ≡ I.prefix_len6 n
  pub addr4-lt : (n : I.Ipv4Net) → I.addr4 n < 2 ^ 32
  pub addr6-lt : (n : I.Ipv6Net) → I.addr6 n < 2 ^ 128
  pub addr4-trunc4 :
      (n : I.Ipv4Net)
      → I.addr4 (I.trunc4 n) ≡ I.addr4 n / 2 ^ (32 - I.prefix_len4 n) * 2 ^ (32 - I.prefix_len4 n)
  pub addr6-trunc6 :
      (n : I.Ipv6Net)
      → I.addr6 (I.trunc6 n) ≡ I.addr6 n / 2 ^ (128 - I.prefix_len6 n) * 2 ^ (128 - I.prefix_len6 n)

module _ (I : Ipnet) where
  pub data IpNet : Type 0 where
    net4 : I.Ipv4Net → IpNet
    net6 : I.Ipv6Net → IpNet

  abbrev pub NetError : Type 0
  NetError = Error I.Ipv6Net IpNet

  unfoldable pub to_tree_prefix : IpNet → IpVersion → Result NetError (ℕ × ℕ)
  to_tree_prefix (net6 n) v6 = ok (I.addr6 (I.trunc6 n), I.prefix_len6 (I.trunc6 n))
  to_tree_prefix (net4 n) v6 = ok (I.addr4 (I.trunc4 n), 96 + I.prefix_len4 (I.trunc4 n))
  to_tree_prefix (net4 n) v4 = ok (I.addr4 (I.trunc4 n) * 2 ^ 96, I.prefix_len4 (I.trunc4 n))
  to_tree_prefix (net6 n) v4 = err (ipv6_in_ipv4_tree (I.trunc6 n))

  -- `contains`; networks of different families do not contain each other.
  unfoldable pub contains : IpNet → IpNet → Bool
  contains (net4 m) (net4 n) = I.contains4 m n
  contains (net6 m) (net6 n) = I.contains6 m n
  contains _ _ = false

  -- `std::net::IpAddr`
  pub data IpAddr : Type 0 where
    addr_v4 : ℕ → IpAddr
    addr_v6 : ℕ → IpAddr

  -- `IpNet::from(ip)`
  unfoldable pub net_of : IpAddr → IpNet
  net_of (addr_v4 a) = net4 (I.host4 a)
  net_of (addr_v6 a) = net6 (I.host6 a)

  -- `.map(|(base, prefix)| IpNet::V4(Ipv4Net::new(base as u32, prefix).expect(…)))`
  unfoldable pub networks4 : List (ℕ × ℕ) → Checked (List IpNet)
  networks4 [] = done []
  networks4 ((base, prefix) ∷ cs) =
      let rest = networks4 cs in
      (elim (I.new4 (base % 2 ^ 32) prefix) [
        | none ↦ panic
        | some n ↦ rest >>= λ ns. done (net4 n ∷ ns)
      ])

  unfoldable pub networks6 : List (ℕ × ℕ) → Checked (List IpNet)
  networks6 [] = done []
  networks6 ((base, prefix) ∷ cs) =
      let rest = networks6 cs in
      (elim (I.new6 base prefix) [ none ↦ panic | some n ↦ rest >>= λ ns. done (net6 n ∷ ns) ])

  -- ::ffff:0:0/96, 2001::/32 and 2002::/16; `panic` is that of `expect`.
  unfoldable pub alias_networks : Checked (List IpNet)
  alias_networks =
      networks6 ((0xffff * 2 ^ 32, 96) ∷ (0x2001 * 2 ^ 112, 32) ∷ (0x2002 * 2 ^ 112, 16) ∷ [])

  unfoldable pub range_to_networks : Bool → IpAddr → IpAddr → Checked (Result NetError (List IpNet))
  range_to_networks checked (addr_v4 s) (addr_v4 e) =
      if ltb e s
      then done (err (invalid_range start_above_end))
      else (do cidrs ← range_to_cidrs checked s e 32; ns ← networks4 cidrs; done (ok ns))
  range_to_networks checked (addr_v6 s) (addr_v6 e) =
      if ltb e s
      then done (err (invalid_range start_above_end))
      else (do cidrs ← range_to_cidrs checked s e 128; ns ← networks6 cidrs; done (ok ns))
  range_to_networks checked _ _ = done (err (invalid_range different_families))

-- The word and the prefix length of a network in the tree: the length is within the depth of the
-- tree, the word has 128 bits, and those after the prefix are 0.
abbrev pub IsTreePrefix : IpVersion → ℕ × ℕ → Type 0
IsTreePrefix version (bits, len) =
    (len ≤ tree_depth version) × (bits < 2 ^ 128) × ((q : ℕ) × (bits ≡ q * 2 ^ (128 - len)))

-- What `to_tree_prefix` promises: an IPv6 network is refused in an IPv4 tree, and every other
-- network has a prefix.
abbrev pub IsTreeResult : (I : Ipnet) → IpNet I → IpVersion → Result (NetError I) (ℕ × ℕ) → Type 0
IsTreeResult I net version (ok p) = IsTreePrefix version p
IsTreeResult I (net6 n) v4 (err e) = e ≡ ipv6_in_ipv4_tree (I.trunc6 n)
IsTreeResult I _ _ (err e) = ⊥

-- With ipnet as documented, every network but an IPv6 network for an IPv4 tree is converted to a
-- prefix that is no longer than the tree is deep and has no bits after its length, and that one is
-- refused.
pub to_tree_prefix-IsTreeResult :
    (I : Ipnet)
    → IpnetLaws I
    → (net : IpNet I) (version : IpVersion)
    → IsTreeResult I net version (to_tree_prefix I net version)
unfolding to_tree_prefix tree_depth
to_tree_prefix-IsTreeResult I laws (net6 n) v6 = (
  omega (arith, laws.prefix_len6-trunc6 n, laws.prefix_len6-le n),
  laws.addr6-lt (I.trunc6 n),
  (I.addr6 n / 2 ^ (128 - I.prefix_len6 n), rw (laws.prefix_len6-trunc6 n) (laws.addr6-trunc6 n)),
)
to_tree_prefix-IsTreeResult I laws (net4 n) v6 = (
  omega (arith, laws.prefix_len4-trunc4 n, laws.prefix_len4-le n),
  omega (arith, laws.addr4-lt (I.trunc4 n)),
  (
    I.addr4 n / 2 ^ (32 - I.prefix_len4 n),
    rw (laws.prefix_len4-trunc4 n) (
        laws.addr4-trunc4 n
        ∙ ap (λ k. I.addr4 n / 2 ^ (32 - I.prefix_len4 n) * 2 ^ k) (lift (I.prefix_len4 n))),
  ),
)
  where
    lift : (len : ℕ) → 32 - len ≡ 128 - (96 + len)
    lift len = omega arith
to_tree_prefix-IsTreeResult I laws (net4 n) v4 = (
  omega (arith, laws.prefix_len4-trunc4 n, laws.prefix_len4-le n),
  omega (arith, laws.addr4-lt (I.trunc4 n)),
  (
    I.addr4 n / 2 ^ (32 - I.prefix_len4 n),
    rw (laws.prefix_len4-trunc4 n) (
        ap (λ a. a * 2 ^ 96) (laws.addr4-trunc4 n)
        ∙ mul_assoc (I.addr4 n / 2 ^ (32 - I.prefix_len4 n)) (2 ^ (32 - I.prefix_len4 n)) (2 ^ 96)
        ∙ ap (λ x. I.addr4 n / 2 ^ (32 - I.prefix_len4 n) * x)
            (sym (pow_split (32 - I.prefix_len4 n) 96)
              ∙ ap (λ k. 2 ^ k) (shift (I.prefix_len4 n) (laws.prefix_len4-le n)))),
  ),
)
  where
    shift : (len : ℕ) → len ≤ 32 → 32 - len + 96 ≡ 128 - len
    shift len h = omega arith
to_tree_prefix-IsTreeResult I laws (net6 n) v4 = refl
