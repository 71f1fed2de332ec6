-- ===== src/Examples/Networks.antt =====
-- The theorem on prefixes with a concrete ipnet: a network is an address and a length in bounds.
use native.Mathlib.Nat.{div-mul-le_self, mod-lt}
use mmdb_writer.Net.Range.Blocks.{pow_pos}
use mmdb_writer.Base.{
  ap, ◌∙◌, false, [], inl, ℕ, ◌-◌, ◌*◌, ◌/◌, ◌%◌, ◌+◌, ◌^◌, ◌≤◌, ◌<◌, ◌≡◌, refl, Bool, ◌&&◌, true,
  Option, none, some, leb, ltb, ltb→lt, ◌==◌, arith,
}
use mmdb_writer.Value.{u32}
use mmdb_writer.Error.{of_tree, ok}
use mmdb_writer.Options.{Ipv4Aliasing, ReservedNetworks, MetadataPointers, is_enabled, is_excluded}
use mmdb_writer.Reserved
use mmdb_writer.Pool
use mmdb_writer.Pool.{new-IsPool}
use mmdb_writer.Tree
use mmdb_writer.Tree.Insert.{new-IsTree}
use mmdb_writer.Net.Range.{done}
use mmdb_writer.Writer.{Writer, ensure_insertable, insert_value}
use mmdb_writer.Writer.Stored.{Stored, Succeeds, insert_value-Stored}
use mmdb_writer.Net.{v4, v6}
use mmdb_writer.Net.Families.{Split, range_to_networks4-Split, range_to_networks6-Split}
use mmdb_writer.Net.Networks.{
  addr_v4, addr_v6, range_to_networks, Ipnet, IpnetLaws, net4, alias_networks, networks4, networks6,
  contains, to_tree_prefix, IsTreeResult, to_tree_prefix-IsTreeResult,
}

pub record Network (width : ℕ) : Type 0 where
  pub addr : ℕ
  pub len : ℕ
  pub addr-lt : addr < 2 ^ width
  pub len-le : len ≤ width

pub leb→le : (a b : ℕ) → leb a b ≡ true → a ≤ b
leb→le a b h = ground arith

abbrev if_true : (b : Bool) → Option (b ≡ true)
if_true true = some refl
if_true false = none

abbrev make_with :
    (width addr len : ℕ)
    → Option (ltb addr (2 ^ width) ≡ true)
    → Option (leb len width ≡ true)
    → Option (Network width)
make_with width addr len (some a) (some l) = some (record {
  addr = addr;
  len = len;
  addr-lt = ltb→lt addr (2 ^ width) a;
  len-le = leb→le len width l;
})
make_with width addr len _ _ = none

abbrev make : (width addr len : ℕ) → Option (Network width)
make width addr len =
    make_with width addr len (if_true (ltb addr (2 ^ width))) (if_true (leb len width))

if_true-some : (b : Bool) → b ≡ true → (h : b ≡ true) × (if_true b ≡ some h)
if_true-some true e = (refl, refl)
if_true-some false e = cc

pub make-some :
    (width a p : ℕ)
    → a < 2 ^ width
    → p ≤ width
    → (n : Network width) × (make width a p ≡ some n) × (n.addr ≡ a) × (n.len ≡ p)
make-some width a p ha hp =
    let (h, e) = if_true-some (ltb a (2 ^ width)) (ground arith) in
    let (k, f) = if_true-some (leb p width) (ground arith) in
    (
      record { addr = a; len = p; addr-lt = ltb→lt a (2 ^ width) h; len-le = leb→le p width k },
      ap (λ x. make_with width a p x (if_true (leb p width))) e
          ∙ ap (make_with width a p (some h)) f,
      refl,
      refl,
    )

abbrev host : (width : ℕ) → ℕ → Network width
host width a = record {
  addr = a % 2 ^ width;
  len = width;
  addr-lt = mod-lt a (pow_pos width);
  len-le = omega arith;
}

abbrev cut : (width : ℕ) → Network width → Network width
cut width n = record {
  addr = n.addr / 2 ^ (width - n.len) * 2 ^ (width - n.len);
  len = n.len;
  addr-lt = omega (arith, n.addr-lt, div-mul-le_self n.addr (2 ^ (width - n.len)));
  len-le = n.len-le;
}

abbrev holds_in : (width : ℕ) → Network width → Network width → Bool
holds_in width m n =
    leb m.len n.len && (n.addr / 2 ^ (width - m.len) == m.addr / 2 ^ (width - m.len))

abbrev pub ipnet : Ipnet
ipnet = record {
  Ipv4Net = Network 32;
  Ipv6Net = Network 128;
  new4 = make 32;
  new6 = make 128;
  host4 = host 32;
  host6 = host 128;
  addr4 = λ n. n.addr;
  addr6 = λ n. n.addr;
  prefix_len4 = λ n. n.len;
  prefix_len6 = λ n. n.len;
  trunc4 = cut 32;
  trunc6 = cut 128;
  contains4 = holds_in 32;
  contains6 = holds_in 128;
}

abbrev pub ipnet_laws : IpnetLaws ipnet
ipnet_laws = record {
  new4-some = make-some 32;
  new6-some = make-some 128;
  addr4-host4 = λ a h. omega arith;
  addr6-host6 = λ a h. omega arith;
  prefix_len4-host4 = λ a. refl;
  prefix_len6-host6 = λ a. refl;
  prefix_len4-le = λ n. n.len-le;
  prefix_len6-le = λ n. n.len-le;
  prefix_len4-trunc4 = λ n. refl;
  prefix_len6-trunc6 = λ n. refl;
  addr4-lt = λ n. n.addr-lt;
  addr6-lt = λ n. n.addr-lt;
  addr4-trunc4 = λ n. refl;
  addr6-trunc6 = λ n. refl;
}

-- 10.0.0.1/8
abbrev pub ten : Network 32
ten = record { addr = 10 * 2 ^ 24 + 1; len = 8; addr-lt = omega arith; len-le = omega arith }

to_tree_prefix-IsTreeResult_example :
    IsTreeResult ipnet (net4 ten) v4 (to_tree_prefix ipnet (net4 ten) v4)
to_tree_prefix-IsTreeResult_example = to_tree_prefix-IsTreeResult ipnet ipnet_laws (net4 ten) v4

abbrev pub fresh : Writer
fresh = record {
  database_type = [];
  description = [];
  languages = [];
  ip_version = v6;
  record_size = none;
  ipv4_aliasing = Ipv4Aliasing.enabled;
  reserved_networks = ReservedNetworks.excluded;
  metadata_pointers = MetadataPointers.enabled;
  build_epoch = some 0;
  tree = Tree.new;
  pool = Pool.new;
}

-- 11.0.0.0/8
abbrev pub eleven : Network 32
eleven = record { addr = 11 * 2 ^ 24; len = 8; addr-lt = omega arith; len-le = omega arith }

pub eleven_allowed : ensure_insertable ipnet (net4 eleven) fresh ≡ done none
unfolding ensure_insertable alias_networks networks4 networks6 contains Reserved.networks is_enabled
    is_excluded
eleven_allowed = refl

eleven_prefix : to_tree_prefix ipnet (net4 eleven) v6 ≡ ok (11 * 2 ^ 24, 104)
unfolding to_tree_prefix
eleven_prefix = refl

insert_value-Stored_example :
    Succeeds of_tree
      (Stored (11 * 2 ^ 24, 104) (u32 7) fresh new-IsTree)
      (insert_value ipnet (net4 eleven) (u32 7) fresh)
unfolding Pool.new
insert_value-Stored_example =
    insert_value-Stored ipnet (net4 eleven) (u32 7) fresh (11 * 2 ^ 24, 104) ipnet_laws
      eleven_allowed eleven_prefix new-IsTree new-IsPool (inl (omega arith))

range_to_networks4-Split_example :
    Split ipnet ipnet_laws 5 300 (range_to_networks ipnet true (addr_v4 5) (addr_v4 300))
range_to_networks4-Split_example =
    range_to_networks4-Split ipnet ipnet_laws true 5 300 (omega arith) (omega arith)

range_to_networks6-Split_example :
    Split ipnet ipnet_laws 5 300 (range_to_networks ipnet true (addr_v6 5) (addr_v6 300))
range_to_networks6-Split_example =
    range_to_networks6-Split ipnet ipnet_laws true 5 300 (omega arith) (omega arith)
      (λ z. absurd (omega arith))
