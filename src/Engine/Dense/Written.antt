-- ===== src/Engine/Dense/Written.antt =====
-- The parts of the `CCEVEC1` format of crates/cce-engine/src/dense.rs, written and read back.
use cce.Prelude.{
  ℕ, zero, suc, ◌*◌, ◌^◌, ◌≤◌, ◌<◌, ◌≡◌, refl, sym, ap, List, [], ◌∷◌, ◌++◌, Text, txt, lt→ltb,
  length, length-append, All, All-append_inv, subst, arith, some, nat_eq,
}
use mathlib.Core.List.{append_assoc}
use cce.Prelude.Strings.{list_eq}
use cce.Prelude.Bytes.{
  to_le_bytes, split_at_checked, split_at_checked-append, split_at_checked_of_le,
  from_le_bytes-to_le_bytes, length-to_le_bytes,
}
use cce.Prelude.Utf8.Encoding.{as_bytes, IsScalar, from_utf8-as_bytes}
use cce.Engine.Dense.{
  F32, ok, take, u32, u64, text, read_floats, read_entries, read_entry, u32_bytes, floats_bytes,
  entry_bytes, zip, chunks_exact,
}

pub take-append :
    (n : ℕ) (front back : List ℕ) → length front ≡ n → take n (front ++ back) ≡ ok (front, back)
unfolding take
take-append n front back h = rw (sym h, split_at_checked-append front back) refl

pub u32-to_le_bytes :
    (n : ℕ) (rest : List ℕ) → n < 2 ^ 32 → u32 (to_le_bytes 4 n ++ rest) ≡ ok (n, rest)
unfolding u32
u32-to_le_bytes n rest h =
    rw
      (
        take-append 4 (to_le_bytes 4 n) rest (length-to_le_bytes 4 n),
        from_le_bytes-to_le_bytes 4 n h,
      )
      refl

pub u64-to_le_bytes :
    (n : ℕ) (rest : List ℕ) → n < 2 ^ 64 → u64 (to_le_bytes 8 n ++ rest) ≡ ok (n, rest)
unfolding u64
u64-to_le_bytes n rest h =
    rw
      (
        take-append 8 (to_le_bytes 8 n) rest (length-to_le_bytes 8 n),
        from_le_bytes-to_le_bytes 8 n h,
      )
      refl

pub text-as_bytes :
    (s : Text) (message : Text) (rest : List ℕ)
    → All IsScalar s
    → text (length (as_bytes s)) message (as_bytes s ++ rest) ≡ ok (s, rest)
unfolding text
text-as_bytes s message rest h =
    rw (take-append (length (as_bytes s)) (as_bytes s) rest refl, from_utf8-as_bytes s h) refl

abbrev pub IsF32 : F32 → Type 0
IsF32 x = x < 2 ^ 32

read_floats-floats_bytes :
    (xs : List F32) (rest : List ℕ)
    → All IsF32 xs
    → read_floats (length xs) (floats_bytes xs ++ rest) ≡ ok (xs, rest)
unfolding read_floats floats_bytes
read_floats-floats_bytes [] rest h = refl
read_floats-floats_bytes (x ∷ xs) rest (hx, h) =
    rw
      (
        append_assoc (to_le_bytes 4 x) (floats_bytes xs) rest,
        u32-to_le_bytes x (floats_bytes xs ++ rest) hx,
        read_floats-floats_bytes xs rest h,
      )
      refl

read_vector :
    (d : ℕ) (xs : List F32) (rest : List ℕ)
    → All IsF32 xs
    → length xs ≡ d
    → read_floats d (floats_bytes xs ++ rest) ≡ ok (xs, rest)
read_vector d xs rest h w = rw (sym w) (read_floats-floats_bytes xs rest h)

pub chunks_exact_step :
    (fuel d : ℕ) (xs front back : List F32)
    → split_at_checked d xs ≡ some (front, back)
    → chunks_exact (suc fuel) d xs ≡ front ∷ chunks_exact fuel d back
unfolding chunks_exact
chunks_exact_step fuel d xs front back h = rw (h, chunks_exact) refl

-- A text that the format can hold.
abbrev pub IsName : Text → Type 0
IsName s = All IsScalar s × (length (as_bytes s) < 2 ^ 32)

pub u32_bytes-ok :
    (n : ℕ) (message : Text) → n < 2 ^ 32 → u32_bytes n message ≡ ok (to_le_bytes 4 n)
unfolding u32_bytes
u32_bytes-ok n message h = rw (lt→ltb _ _ h) refl

-- What the entries of an index are written as, and that they are read back.
unfoldable pub Written : ℕ → List Text → List F32 → List (Text × List F32) → Type 0
Written d ids vectors entries =
    (bytes : List ℕ) × (entry_bytes entries ≡ ok bytes)
    × ((rest : List ℕ) → read_entries (length ids) d (bytes ++ rest) ≡ ok ((ids, vectors), rest))

Written-entry :
    (d : ℕ) (id : Text) (vector : List F32) (ids : List Text) (vectors : List F32)
    (entries : List (Text × List F32))
    → IsName id
    → All IsF32 vector
    → length vector ≡ d
    → Written d ids vectors entries
    → Written d (id ∷ ids) (vector ++ vectors) ((id, vector) ∷ entries)
unfolding Written entry_bytes read_entries read_entry
Written-entry d id vector ids vectors entries (hs, hl) hv w (bytes, we, re) = (
  to_le_bytes 4 (length (as_bytes id)) ++ as_bytes id ++ floats_bytes vector ++ bytes,
  rw (u32_bytes-ok (length (as_bytes id)) (txt "document id too long") hl, we) refl,
  λ rest.
      rw
        (
          append_assoc (len ++ as_bytes id ++ floats_bytes vector) bytes rest,
          append_assoc (len ++ as_bytes id) (floats_bytes vector) (bytes ++ rest),
          append_assoc len (as_bytes id) (floats_bytes vector ++ (bytes ++ rest)),
          u32-to_le_bytes (length (as_bytes id))
              (as_bytes id ++ (floats_bytes vector ++ (bytes ++ rest))) hl,
          text-as_bytes id (txt "invalid document id") (floats_bytes vector ++ (bytes ++ rest)) hs,
          read_vector d vector (bytes ++ rest) hv w,
          re rest,
        )
        refl,
)
  where
    len : List ℕ
    len = to_le_bytes 4 (length (as_bytes id))

pub Written-entries :
    (fuel d : ℕ) (ids : List Text) (vectors : List F32)
    → length vectors ≡ length ids * d
    → length ids ≤ fuel
    → All IsName ids
    → All IsF32 vectors
    → Written d ids vectors (zip ids (chunks_exact fuel d vectors))
unfolding Written zip chunks_exact entry_bytes read_entries
Written-entries fuel d [] [] l f hi hv = ([], refl, λ rest. refl)
Written-entries fuel d [] (x ∷ vectors) l f hi hv = absurd (omega arith)
Written-entries zero d (id ∷ ids) vectors l f hi hv = absurd (omega arith)
Written-entries (suc fuel) d (id ∷ ids) vectors l f (hid, hi) hv =
    let (front, back, cut, whole, width) = split_at_checked_of_le d vectors (omega arith) in
    let (hf, hb) =
      All-append_inv IsF32 front back (subst (λ (v : List F32). All IsF32 v) whole hv) in
    rw (chunks_exact_step fuel d vectors front back cut) (
      subst
        (λ (v : List F32).
          Written d (id ∷ ids) v ((id, front) ∷ zip ids (chunks_exact fuel d back)))
        (sym whole)
        (Written-entry d id front ids back (zip ids (chunks_exact fuel d back)) hid hf width (
          Written-entries fuel d ids back (omega (arith, length-append front back, ap length whole))
            (omega arith) hi hb)))
