-- ===== src/Reserved.antt =====
-- src/reserved.rs: the reserved networks, as the address and the prefix length of each string.
use mmdb_writer.Base.{ℕ, ◌*◌, ◌+◌, ◌^◌, List, [], ◌∷◌, ◌++◌}
use mmdb_writer.Net.{IpVersion, v4, v6}
use mmdb_writer.Net.Range.{Checked, done, ◌>>=◌}
use mmdb_writer.Net.Networks.{Ipnet, IpNet, networks4, networks6}

-- The number of an IPv4 address in dotted form.
abbrev pub dotted : ℕ → ℕ → ℕ → ℕ → ℕ
dotted a b c d = ((a * 256 + b) * 256 + c) * 256 + d

-- The number of an IPv6 address with two groups before `::`.
abbrev pub groups : ℕ → ℕ → ℕ
groups a b = a * 2 ^ 112 + b * 2 ^ 96

abbrev pub ipv4 : List (ℕ × ℕ)
ipv4 =
    (dotted 0 0 0 0, 8)
    ∷ (dotted 10 0 0 0, 8)
    ∷ (dotted 100 64 0 0, 10)
    ∷ (dotted 127 0 0 0, 8)
    ∷ (dotted 169 254 0 0, 16)
    ∷ (dotted 172 16 0 0, 12)
    ∷ (dotted 192 0 0 0, 29)
    ∷ (dotted 192 0 2 0, 24)
    ∷ (dotted 192 88 99 0, 24)
    ∷ (dotted 192 168 0 0, 16)
    ∷ (dotted 198 18 0 0, 15)
    ∷ (dotted 198 51 100 0, 24)
    ∷ (dotted 203 0 113 0, 24)
    ∷ (dotted 224 0 0 0, 4)
    ∷ (dotted 240 0 0 0, 4)
    ∷ []

abbrev pub ipv6 : List (ℕ × ℕ)
ipv6 =
    (groups 0x0100 0, 64)
    ∷ (groups 0x2001 0x1, 32)
    ∷ (groups 0x2001 0x2, 31)
    ∷ (groups 0x2001 0x4, 30)
    ∷ (groups 0x2001 0x8, 29)
    ∷ (groups 0x2001 0x10, 28)
    ∷ (groups 0x2001 0x20, 27)
    ∷ (groups 0x2001 0x40, 26)
    ∷ (groups 0x2001 0x80, 25)
    ∷ (groups 0x2001 0x100, 24)
    ∷ (groups 0x2001 0xdb8, 32)
    ∷ (groups 0xfc00 0, 7)
    ∷ (groups 0xfe80 0, 10)
    ∷ (groups 0xff00 0, 8)
    ∷ []

module _ (I : Ipnet) where
  -- Parsing a constant is building its network; `panic` is that of `expect`.
  unfoldable pub networks : IpVersion → Checked (List (IpNet I))
  networks v4 = networks4 I ipv4
  networks v6 = do ns ← networks4 I ipv4; ms ← networks6 I ipv6; done (ns ++ ms)
