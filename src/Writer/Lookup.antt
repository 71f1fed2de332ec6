-- ===== src/Writer/Lookup.antt =====
-- src/writer.rs: `get` on an IPv6 writer is the lookup of the address's word.
use mmdb_writer.Base.{ℕ, ◌-◌, ◌*◌, ◌/◌, ◌^◌, ◌<◌, ◌≡◌, sym, ap, ◌∙◌, arith}
use mathlib.Core.Path.{subst}
use mmdb_writer.Net.Networks.{Ipnet, IpnetLaws, IpAddr, addr_v4, addr_v6, net_of, to_tree_prefix}
use mmdb_writer.Writer.{Writer}
use mmdb_writer.Writer.Get.{value_at, value_at_prefix, get}
use mmdb_writer.Writer.Sound.{IsSound}

-- An address of either family.
abbrev pub IsAddr : (I : Ipnet) → IpAddr I → Type 0
IsAddr I (addr_v4 a) = a < 2 ^ 32
IsAddr I (addr_v6 a) = a < 2 ^ 128

-- Its word in an IPv6 tree.
abbrev pub word : (I : Ipnet) → IpAddr I → ℕ
word I (addr_v4 a) = a
word I (addr_v6 a) = a

pub IsAddr-word : (I : Ipnet) (ip : IpAddr I) → IsAddr I ip → word I ip < 2 ^ 128
IsAddr-word I (addr_v4 a) h = omega arith
IsAddr-word I (addr_v6 a) h = h

-- Nothing is cut off a network of one address.
whole : (a b k : ℕ) → k ≡ 0 → b ≡ a → b / 2 ^ k * 2 ^ k ≡ a
whole a b k e same = subst (λ j. b / 2 ^ j * 2 ^ j ≡ a) (sym e) (omega (arith, same))

module _ (I : Ipnet) (laws : IpnetLaws I) (w : Writer) (s : IsSound w) where
  pub get-value_at : (ip : IpAddr I) → IsAddr I ip → get I ip w ≡ value_at w (word I ip)
  unfolding get value_at_prefix net_of to_tree_prefix
  get-value_at (addr_v4 a) h =
      ap (λ version. value_at_prefix w (to_tree_prefix I (net_of I (addr_v4 a)) version)) s.six
      ∙ ap (value_at w) (
          laws.addr4-trunc4 (I.host4 a)
          ∙ whole a (I.addr4 (I.host4 a)) (32 - I.prefix_len4 (I.host4 a))
              (omega (arith, laws.prefix_len4-host4 a)) (laws.addr4-host4 a h))
  get-value_at (addr_v6 a) h =
      ap (λ version. value_at_prefix w (to_tree_prefix I (net_of I (addr_v6 a)) version)) s.six
      ∙ ap (value_at w) (
          laws.addr6-trunc6 (I.host6 a)
          ∙ whole a (I.addr6 (I.host6 a)) (128 - I.prefix_len6 (I.host6 a))
              (omega (arith, laws.prefix_len6-host6 a)) (laws.addr6-host6 a h))
