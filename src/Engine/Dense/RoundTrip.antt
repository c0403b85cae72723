-- ===== src/Engine/Dense/RoundTrip.antt =====
-- `DenseIndex::encode` and `DenseIndex::decode` of crates/cce-engine/src/dense.rs together.
use cce.Prelude.{
  ℕ, ◌*◌, ◌^◌, ◌<◌, ◌≡◌, refl, List, [], ◌++◌, Text, txt, true, false, ◌==◌, eq_refl, length, All,
  arith, nat_eq,
}
use mathlib.Core.List.{append_assoc, append-nil}
use cce.Prelude.Strings.{list_eq, list_beq}
use cce.Prelude.Bytes.{to_le_bytes}
use cce.Prelude.Utf8.Encoding.{as_bytes}
use cce.Engine.Dense.{
  DenseIndex, ok, encode, decode, read_header, read_entries, entry_bytes, zip, chunks, chunks,
  magic, format_version,
}
use cce.Engine.Dense.Written.{
  IsName, IsF32, Written, Written-entries, take-append, u32-to_le_bytes, u64-to_le_bytes,
  text-as_bytes, u32_bytes-ok,
}

-- What stands before the entries.
unfoldable pub header : ℕ → ℕ → Text → List ℕ
header dimensions count profile =
    magic
    ++ to_le_bytes 4 format_version
    ++ to_le_bytes 4 dimensions
    ++ to_le_bytes 8 count
    ++ to_le_bytes 4 (length (as_bytes profile))
    ++ as_bytes profile

-- An index that the format can hold: a vector of `dimensions` floats for each id.
pub record IsStorable (index : DenseIndex) : Type 0 where
  pub positive : 0 < index.dimensions
  pub narrow : index.dimensions < 2 ^ 32
  pub profile_name : IsName index.profile
  pub names : All IsName index.ids
  pub floats : All IsF32 index.vectors
  pub aligned : length index.vectors ≡ length index.ids * index.dimensions
  pub ids_fit : length index.ids * 24 < 2 ^ 63
  pub vectors_fit : length index.vectors * 4 < 2 ^ 63

-- Reading the header leaves the entries.
decode-header :
    (index : DenseIndex) (entries : List ℕ)
    → IsStorable index
    → read_entries (length index.ids) index.dimensions entries ≡ ok ((index.ids, index.vectors), [])
    → decode (header index.dimensions (length index.ids) index.profile ++ entries) ≡ ok index
unfolding decode read_header header
decode-header index entries v read =
    rw
      (
        append_assoc
            (magic
              ++ to_le_bytes 4 format_version
              ++ to_le_bytes 4 d
              ++ to_le_bytes 8 n
              ++ to_le_bytes 4 p)
            (as_bytes index.profile) entries,
        append_assoc (magic ++ to_le_bytes 4 format_version ++ to_le_bytes 4 d ++ to_le_bytes 8 n)
            (to_le_bytes 4 p) r5,
        append_assoc (magic ++ to_le_bytes 4 format_version ++ to_le_bytes 4 d) (to_le_bytes 8 n)
            r4,
        append_assoc (magic ++ to_le_bytes 4 format_version) (to_le_bytes 4 d) r3,
        append_assoc magic (to_le_bytes 4 format_version) r2,
        take-append 8 magic r1 refl,
        list_beq_refl,
        u32-to_le_bytes format_version r2 (omega arith),
        u32-to_le_bytes d r3 v.narrow,
        u64-to_le_bytes n r4 (omega (arith, v.ids_fit)),
        u32-to_le_bytes p r5 v.profile_name.1,
        text-as_bytes index.profile (txt "invalid vector profile") entries v.profile_name.0,
        positive,
        read,
      )
      (ground (arith, v.positive, v.aligned, v.ids_fit, v.vectors_fit))
  where
    d : ℕ
    d = index.dimensions

    n : ℕ
    n = length index.ids

    p : ℕ
    p = length (as_bytes index.profile)

    r5 : List ℕ
    r5 = as_bytes index.profile ++ entries

    r4 : List ℕ
    r4 = to_le_bytes 4 p ++ r5

    r3 : List ℕ
    r3 = to_le_bytes 8 n ++ r4

    r2 : List ℕ
    r2 = to_le_bytes 4 d ++ r3

    r1 : List ℕ
    r1 = to_le_bytes 4 format_version ++ r2

    positive : (d == 0) ≡ false
    positive = ground (arith, v.positive)

    list_beq_refl : list_beq magic magic ≡ true
    list_beq_refl = eq_refl magic

-- The header is written before the entries.
pub encode-header :
    (index : DenseIndex) (entries : List ℕ)
    → 0 < index.dimensions
    → index.dimensions < 2 ^ 32
    → length (as_bytes index.profile) < 2 ^ 32
    → entry_bytes (zip index.ids (chunks index.dimensions index.vectors)) ≡ ok entries
    → encode index ≡ ok (header index.dimensions (length index.ids) index.profile ++ entries)
unfolding encode header
encode-header index entries pos narrow short e =
    rw
      (
        u32_bytes-ok index.dimensions (txt "vector dimension exceeds format") narrow,
        u32_bytes-ok (length (as_bytes index.profile)) (txt "profile name too long") short,
        e,
      )
      (ground arith)

-- A storable index is encoded without an error or a panic, and decoding the bytes gives the index
-- back.
pub decode-encode :
    (index : DenseIndex)
    → IsStorable index
    → (bytes : List ℕ) × (encode index ≡ ok bytes) × (decode bytes ≡ ok index)
unfolding Written
decode-encode index v =
    let (entries, we, re) =
      Written-entries (length index.vectors) index.dimensions index.ids index.vectors v.aligned
        (grind (arith, v.positive, v.aligned)) v.names v.floats in
    (
      header index.dimensions (length index.ids) index.profile ++ entries,
      encode-header index entries v.positive v.narrow v.profile_name.1 we,
      decode-header index entries v (rw (append-nil entries) at (re [])),
    )
