-- ===== src/Engine/Dense.antt =====
-- `DenseIndex` of crates/cce-engine/src/dense.rs: its data and the `CCEVEC1` format. An f32 is its
-- 32 bits, a usize has 64, and a Rust panic is an outcome of its own.
pub mod Written
pub mod RoundTrip
pub mod Parsed
pub mod Canonical
pub mod Build
pub mod Search
pub mod Deterministic
use cce.Prelude.{
  ℕ, zero, suc, ◌+◌, ◌*◌, ◌^◌, Bool, not, ◌&&◌, Option, none, some, List, [], ◌∷◌, ◌++◌, Text, txt,
  ◌==◌, nat_eq, ltb, ◌≡◌, refl, if◌then◌else◌, length,
}
use cce.Prelude.Strings.{list_eq}
use cce.Prelude.Trim.{is_empty}
use cce.Prelude.Bytes.{to_le_bytes, from_le_bytes, split_at_checked}
use cce.Prelude.Utf8.Encoding.{as_bytes, from_utf8}

-- `CceError`, as far as this file returns it.
pub data CceError : Type 0 where
  configuration embedding artifact_corrupt : Text → CceError
  unsupported_format : ℕ → ℕ → CceError  -- the version found and the one supported

pub data Result {ℓ} (A : Type ℓ) : Type ℓ where
  ok : A → Result A
  err : CceError → Result A
  panic : Result A

infixl 5 ◌>>=◌ ◌>>◌
abbrev pub ◌>>=◌ {ℓ κ} : {A : Type ℓ} {B : Type κ} → Result A → (A → Result B) → Result B
ok a >>= f = f a
err e >>= f = err e
panic >>= f = panic

abbrev pub ◌>>◌ {ℓ} : {B : Type ℓ} → Result (Unit {0}) → Result B → Result B
m >> k = m >>= λ _. k

-- A chain that succeeds: its first step gave `a`, and what follows gave `b`.
pub data Bound {ℓ κ} {A : Type ℓ} {B : Type κ} (m : Result A) (f : A → Result B) (b : B)
    : Type (ℓ ⊔ κ) where
  bound : (a : A) → m ≡ ok a → f a ≡ ok b → Bound m f b

pub >>=-eq-ok {ℓ κ} :
    {A : Type ℓ} {B : Type κ} (m : Result A) (f : A → Result B) {b : B}
    → (m >>= f) ≡ ok b
    → Bound m f b
>>=-eq-ok (ok a) f h = bound a refl h
>>=-eq-ok (err e) f h = cc
>>=-eq-ok panic f h = cc

-- An early return under a condition.
abbrev pub fail_if : Bool → CceError → Result (Unit {0})
fail_if b e = if b then err e else ok tt

abbrev pub panic_if : Bool → Result (Unit {0})
panic_if b = if b then panic else ok tt

abbrev pub expect {ℓ} : {A : Type ℓ} → Option A → CceError → Result A
expect none e = err e
expect (some a) e = ok a

-- The bits of an f32.
abbrev pub F32 : Type 0
F32 = ℕ

pub record DenseIndex : Type 0 where
  pub profile : Text
  pub dimensions : ℕ
  pub ids : List Text
  pub vectors : List F32

-- `chunks_exact` of a positive width: what is left over is dropped.
unfoldable pub chunks_exact : {A : Type 0} → ℕ → ℕ → List A → List (List A)
chunks_exact zero width xs = []
chunks_exact (suc fuel) width xs = elim (split_at_checked width xs) [
  | none ↦ []
  | some (front, back) ↦ front ∷ chunks_exact fuel width back
]

abbrev pub chunks : {A : Type 0} → ℕ → List A → List (List A)
chunks width xs = chunks_exact (length xs) width xs

-- A chunk beside each id, as `zip` pairs them.
unfoldable pub zip : {A B : Type 0} → List A → List B → List (A × B)
zip [] ys = []
zip (x ∷ xs) [] = []
zip (x ∷ xs) (y ∷ ys) = (x, y) ∷ zip xs ys

abbrev pub magic : List ℕ
magic = b'C' ∷ b'C' ∷ b'E' ∷ b'V' ∷ b'E' ∷ b'C' ∷ b'1' ∷ 0 ∷ []

abbrev pub format_version : ℕ
format_version = 1

-- `u32::try_from(n)` with its error, in four bytes.
unfoldable pub u32_bytes : ℕ → Text → Result (List ℕ)
u32_bytes n message = if ltb n (2 ^ 32) then ok (to_le_bytes 4 n) else err (configuration message)

unfoldable pub floats_bytes : List F32 → List ℕ
floats_bytes [] = []
floats_bytes (x ∷ xs) = to_le_bytes 4 x ++ floats_bytes xs

unfoldable pub entry_bytes : List (Text × List F32) → Result (List ℕ)
entry_bytes [] = ok []
entry_bytes ((id, vector) ∷ entries) = do
  len ← u32_bytes (length (as_bytes id)) (txt "document id too long")
  rest ← entry_bytes entries
  ok (len ++ as_bytes id ++ floats_bytes vector ++ rest)

unfoldable pub encode : DenseIndex → Result (List ℕ)
encode index = do
  dimension ← u32_bytes index.dimensions (txt "vector dimension exceeds format")
  len ← u32_bytes (length (as_bytes index.profile)) (txt "profile name too long")
  panic_if (index.dimensions == 0)
  entries ← entry_bytes (zip index.ids (chunks index.dimensions index.vectors))
  ok (
      magic
      ++ to_le_bytes 4 format_version
      ++ dimension
      ++ to_le_bytes 8 (length index.ids)
      ++ len
      ++ as_bytes index.profile
      ++ entries)

-- `SliceReader`: the bytes that remain. A method returns its value and what then remains.
abbrev pub Read : Type 0 → Type 0
Read A = Result (A × List ℕ)

unfoldable pub take : ℕ → List ℕ → Read (List ℕ)
take n remaining =
    expect (split_at_checked n remaining) (artifact_corrupt (txt "truncated vector index"))

unfoldable pub u32 : List ℕ → Read ℕ
u32 remaining = do (value, rest) ← take 4 remaining; ok (from_le_bytes value, rest)

unfoldable pub u64 : List ℕ → Read ℕ
u64 remaining = do (value, rest) ← take 8 remaining; ok (from_le_bytes value, rest)

unfoldable pub text : ℕ → Text → List ℕ → Read Text
text n message remaining = do
  (value, rest) ← take n remaining
  s ← expect (from_utf8 value) (artifact_corrupt message)
  ok (s, rest)

unfoldable pub read_floats : ℕ → List ℕ → Read (List F32)
read_floats zero remaining = ok ([], remaining)
read_floats (suc n) remaining = do
  (x, rest) ← u32 remaining
  (xs, rest') ← read_floats n rest
  ok (x ∷ xs, rest')

unfoldable pub read_entry : ℕ → List ℕ → Read (Text × List F32)
read_entry dimensions remaining = do
  (id_len, r1) ← u32 remaining
  (id, r2) ← text id_len (txt "invalid document id") r1
  (vector, r3) ← read_floats dimensions r2
  ok ((id, vector), r3)

unfoldable pub read_entries : ℕ → ℕ → List ℕ → Read (List Text × List F32)
read_entries zero dimensions remaining = ok (([], []), remaining)
read_entries (suc n) dimensions remaining = do
  ((id, vector), rest) ← read_entry dimensions remaining
  ((ids, vectors), rest') ← read_entries n dimensions rest
  ok ((id ∷ ids, vector ++ vectors), rest')

-- `Vec::with_capacity` panics where the elements would take more than `isize::MAX` bytes.
abbrev pub with_capacity : ℕ → ℕ → Result (Unit {0})
with_capacity n size = panic_if (not (ltb (n * size) (2 ^ 63)))

-- The dimensions, the number of entries and the profile.
unfoldable pub read_header : List ℕ → Read (ℕ × (ℕ × Text))
read_header bytes = do
  (found_magic, r1) ← take 8 bytes
  fail_if (not (found_magic == magic)) (artifact_corrupt (txt "invalid vector magic"))
  (version, r2) ← u32 r1
  fail_if (not (version == format_version)) (unsupported_format version format_version)
  (dimensions, r3) ← u32 r2
  (count, r4) ← u64 r3
  fail_if (dimensions == 0 && not (count == 0))
      (artifact_corrupt (txt "zero-dimensional non-empty index"))
  (profile_len, r5) ← u32 r4
  (profile, r6) ← text profile_len (txt "invalid vector profile") r5
  ok ((dimensions, (count, profile)), r6)

unfoldable pub decode : List ℕ → Result DenseIndex
decode bytes = do
  ((dimensions, (count, profile)), r6) ← read_header bytes
  with_capacity count 24
  fail_if (not (ltb (count * dimensions) (2 ^ 64)))
      (artifact_corrupt (txt "vector allocation overflow"))
  with_capacity (count * dimensions) 4
  ((ids, vectors), rest) ← read_entries count dimensions r6
  fail_if (not (is_empty rest)) (artifact_corrupt (txt "trailing bytes in vector index"))
  ok (record { profile = profile; dimensions = dimensions; ids = ids; vectors = vectors })
