-- ===== src/Ser/Ranges.antt =====
-- What the serializer of src/ser.rs may be called with: the ranges of the arguments' types.
use mmdb_writer.Base.{ℕ, ◌^◌, ◌<◌}
use mmdb_writer.Value.{ℤ, pos, negsuc}
use mmdb_writer.Value.Typed.{AreBytes}
use mmdb_writer.Ser.Model.{
  Content, Elements, no_elements, element, MapCalls, no_calls, Members, no_members, member,
}

-- What a signed type of `n + 1` bits can hold.
abbrev pub IsSigned : ℕ → ℤ → Type 0
IsSigned n (pos i) = i < 2 ^ n
IsSigned n (negsuc i) = i < 2 ^ n

-- The arguments of the calls are in the range of their types.
unfoldable mutual
  pub ContentIsTyped : Content → Type 0
  ContentIsTyped (Content.bool v) = Unit {0}
  ContentIsTyped (Content.i8 v) = IsSigned 7 v
  ContentIsTyped (Content.i16 v) = IsSigned 15 v
  ContentIsTyped (Content.i32 v) = IsSigned 31 v
  ContentIsTyped (Content.i64 v) = IsSigned 63 v
  ContentIsTyped (Content.u8 v) = v < 2 ^ 8
  ContentIsTyped (Content.u16 v) = v < 2 ^ 16
  ContentIsTyped (Content.u32 v) = v < 2 ^ 32
  ContentIsTyped (Content.u64 v) = v < 2 ^ 64
  ContentIsTyped (Content.u128 v) = v < 2 ^ 128
  ContentIsTyped (Content.f32 v) = v < 2 ^ 32
  ContentIsTyped (Content.f64 v) = v < 2 ^ 64
  ContentIsTyped (Content.char v) = v < 0x110000
  ContentIsTyped (Content.str v) = AreBytes v
  ContentIsTyped (Content.bytes v) = AreBytes v
  ContentIsTyped Content.none = Unit {0}
  ContentIsTyped (Content.some v) = ContentIsTyped v
  ContentIsTyped Content.unit = Unit {0}
  ContentIsTyped Content.unit_struct = Unit {0}
  ContentIsTyped (Content.unit_variant variant) = AreBytes variant
  ContentIsTyped (Content.newtype_struct v) = ContentIsTyped v
  ContentIsTyped (Content.newtype_variant variant v) = AreBytes variant × ContentIsTyped v
  ContentIsTyped (Content.seq es) = ElementsAreTyped es
  ContentIsTyped (Content.tuple es) = ElementsAreTyped es
  ContentIsTyped (Content.tuple_struct es) = ElementsAreTyped es
  ContentIsTyped (Content.tuple_variant variant es) = AreBytes variant × ElementsAreTyped es
  ContentIsTyped (Content.map calls) = CallsAreTyped calls
  ContentIsTyped (Content.struct ms) = MembersAreTyped ms
  ContentIsTyped (Content.struct_variant variant ms) = AreBytes variant × MembersAreTyped ms
  ContentIsTyped (Content.custom msg) = Unit {0}

  pub ElementsAreTyped : Elements → Type 0
  ElementsAreTyped no_elements = Unit {0}
  ElementsAreTyped (element v es) = ContentIsTyped v × ElementsAreTyped es

  pub CallsAreTyped : MapCalls → Type 0
  CallsAreTyped no_calls = Unit {0}
  CallsAreTyped (MapCalls.key k calls) = ContentIsTyped k × CallsAreTyped calls
  CallsAreTyped (MapCalls.value v calls) = ContentIsTyped v × CallsAreTyped calls

  pub MembersAreTyped : Members → Type 0
  MembersAreTyped no_members = Unit {0}
  MembersAreTyped (member name v ms) = AreBytes name × ContentIsTyped v × MembersAreTyped ms
