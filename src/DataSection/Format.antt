-- ===== src/DataSection/Format.antt =====
-- The reading relation of the data section: what value a reader that stands before the bytes `xs`
-- of a section `bs` finds, and which bytes are left. Independent of the encoder.
use mmdb_writer.Base.{ℕ, ◌≤◌, ◌≡◌, List, ◌++◌, Bool, some, length, drop, if◌then◌else◌}
use mmdb_writer.Value.{
  ℤ, Value, string, double, bytes, u16, u32, map, i32, u64, u128, array, bool, float, Items, nil,
  cons, Fields, end, field, items_len, fields_len,
}
use mmdb_writer.DataSection.Reader.{from_be, read_control, read_pointer, as_i32}

mutual
  -- A value that is spelled out where the reader stands.
  pub data Direct (bs : List ℕ) : List ℕ → Value → List ℕ → Type 0 where
    d_string :
        {xs ys : List ℕ} (s : List ℕ)
        → read_control xs ≡ some (2, length s, s ++ ys)
        → Direct bs xs (string s) ys
    d_double :
        {xs ys : List ℕ} (x : ℕ) (p : List ℕ)
        → read_control xs ≡ some (3, 8, p ++ ys)
        → length p ≡ 8
        → from_be p ≡ x
        → Direct bs xs (double x) ys
    d_bytes :
        {xs ys : List ℕ} (b : List ℕ)
        → read_control xs ≡ some (4, length b, b ++ ys)
        → Direct bs xs (bytes b) ys
    d_u16 :
        {xs ys : List ℕ} (n : ℕ) (p : List ℕ)
        → read_control xs ≡ some (5, length p, p ++ ys)
        → length p ≤ 2
        → from_be p ≡ n
        → Direct bs xs (u16 n) ys
    d_u32 :
        {xs ys : List ℕ} (n : ℕ) (p : List ℕ)
        → read_control xs ≡ some (6, length p, p ++ ys)
        → length p ≤ 4
        → from_be p ≡ n
        → Direct bs xs (u32 n) ys
    d_map :
        {xs ys zs : List ℕ} (m : Fields)
        → read_control xs ≡ some (7, fields_len m, ys)
        → ReadsFields bs ys m zs
        → Direct bs xs (map m) zs
    d_i32 :
        {xs ys : List ℕ} (n : ℤ) (p : List ℕ)
        → read_control xs ≡ some (8, length p, p ++ ys)
        → length p ≤ 4
        → as_i32 (from_be p) ≡ n
        → Direct bs xs (i32 n) ys
    d_u64 :
        {xs ys : List ℕ} (n : ℕ) (p : List ℕ)
        → read_control xs ≡ some (9, length p, p ++ ys)
        → length p ≤ 8
        → from_be p ≡ n
        → Direct bs xs (u64 n) ys
    d_u128 :
        {xs ys : List ℕ} (n : ℕ) (p : List ℕ)
        → read_control xs ≡ some (10, length p, p ++ ys)
        → length p ≤ 16
        → from_be p ≡ n
        → Direct bs xs (u128 n) ys
    d_array :
        {xs ys zs : List ℕ} (items : Items)
        → read_control xs ≡ some (11, items_len items, ys)
        → ReadsItems bs ys items zs
        → Direct bs xs (array items) zs
    d_bool :
        {xs ys : List ℕ} (b : Bool)
        → read_control xs ≡ some (14, (if b then 1 else 0), ys)
        → Direct bs xs (bool b) ys
    d_float :
        {xs ys : List ℕ} (x : ℕ) (p : List ℕ)
        → read_control xs ≡ some (15, 4, p ++ ys)
        → length p ≡ 4
        → from_be p ≡ x
        → Direct bs xs (float x) ys

  -- A value that is spelled out, or a pointer to a place where it is; never a pointer to a pointer.
  pub data Reads (bs : List ℕ) : List ℕ → Value → List ℕ → Type 0 where
    direct : {xs ys : List ℕ} {v : Value} → Direct bs xs v ys → Reads bs xs v ys
    pointer :
        {xs ys zs : List ℕ} {v : Value} (offset : ℕ)
        → read_pointer xs ≡ some (offset, ys)
        → offset ≤ length bs
        → Direct bs (drop offset bs) v zs
        → Reads bs xs v ys

  pub data ReadsItems (bs : List ℕ) : List ℕ → Items → List ℕ → Type 0 where
    no_items : {xs : List ℕ} → ReadsItems bs xs nil xs
    item :
        {xs ys zs : List ℕ} {v : Value} {items : Items}
        → Reads bs xs v ys
        → ReadsItems bs ys items zs
        → ReadsItems bs xs (cons v items) zs

  -- A key is a string, in full or behind a pointer.
  pub data ReadsFields (bs : List ℕ) : List ℕ → Fields → List ℕ → Type 0 where
    no_fields : {xs : List ℕ} → ReadsFields bs xs end xs
    entry :
        {xs ys zs ws : List ℕ} {k : List ℕ} {v : Value} {m : Fields}
        → Reads bs xs (string k) ys
        → Reads bs ys v zs
        → ReadsFields bs zs m ws
        → ReadsFields bs xs (field k v m) ws
