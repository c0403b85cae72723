-- ===== src/Engine/Dense/Parsed.antt =====
-- What the steps of `DenseIndex::decode` of crates/cce-engine/src/dense.rs have read when they
-- succeed.
use cce.Prelude.{
  ℕ, zero, suc, ◌*◌, ◌^◌, ◌≤◌, ◌<◌, ◌≡◌, refl, sym, ap, ◌∙◌, List, [], ◌∷◌, ◌++◌, Text, txt, length,
  length-append, All, All-append_inv, subst, arith, nat_eq, Option-cases, inl, inr,
}
use mathlib.Core.List.{append_assoc}
use cce.Prelude.Bytes.{
  to_le_bytes, from_le_bytes, split_at_checked, split_at_checked-some, split_at_checked-append,
  to_le_bytes-from_le_bytes, from_le_bytes-lt, IsByte,
}
use cce.Prelude.Utf8.Encoding.{as_bytes, from_utf8, as_bytes-from_utf8}
use cce.Engine.Dense.Written.{chunks_exact_step, u32_bytes-ok}
use cce.Engine.Dense.{
  F32, ok, ◌>>=◌, >>=-eq-ok, bound, Read, take, u32, u64, text, read_floats, read_entries,
  read_entry, floats_bytes, entry_bytes, zip, chunks_exact,
}

pub ok_inj : {A : Type 0} {a b : A} → ok a ≡ ok b → a ≡ b
ok_inj e = cc e

pub take-ok :
    (n : ℕ) (remaining front back : List ℕ)
    → take n remaining ≡ ok (front, back)
    → (remaining ≡ front ++ back) × (length front ≡ n)
unfolding take
take-ok n remaining front back h = elim (Option-cases (split_at_checked n remaining)) [
  | inl e ↦ cc (rw e at h)
  | inr ((f, b), e) ↦ ground (arith, split_at_checked-some n remaining f b e, rw e at h)
]

word : ℕ → List ℕ → Read ℕ
word k remaining = do (value, rest) ← take k remaining; ok (from_le_bytes value, rest)

-- A word of `k` bytes that has been read is below `256 ^ k`, and was written like this.
word-ok :
    (k n : ℕ) (remaining rest : List ℕ)
    → All IsByte remaining
    → word k remaining ≡ ok (n, rest)
    → (remaining ≡ to_le_bytes k n ++ rest) × (n < 256 ^ k) × All IsByte rest
unfolding word
word-ok k n remaining rest h e = elim (>>=-eq-ok (take k remaining) _ e) [
  | bound (value, rest') t f ↦
      let (whole, width) = take-ok k remaining value rest' t in
      let (hv, hr) = All-append_inv IsByte value rest' (subst (All IsByte) whole h) in
      ground
        (arith, f, whole, width, hr, to_le_bytes-from_le_bytes value hv, from_le_bytes-lt value hv)
]

pub u32-ok :
    (n : ℕ) (remaining rest : List ℕ)
    → All IsByte remaining
    → u32 remaining ≡ ok (n, rest)
    → (remaining ≡ to_le_bytes 4 n ++ rest) × (n < 2 ^ 32) × All IsByte rest
unfolding u32 word
u32-ok n remaining rest h e = word-ok 4 n remaining rest h e

pub u64-ok :
    (n : ℕ) (remaining rest : List ℕ)
    → All IsByte remaining
    → u64 remaining ≡ ok (n, rest)
    → (remaining ≡ to_le_bytes 8 n ++ rest) × (n < 2 ^ 64) × All IsByte rest
unfolding u64 word
u64-ok n remaining rest h e = word-ok 8 n remaining rest h e

pub text-ok :
    (n : ℕ) (message : Text) (remaining rest : List ℕ) (s : Text)
    → All IsByte remaining
    → text n message remaining ≡ ok (s, rest)
    → (remaining ≡ as_bytes s ++ rest) × (length (as_bytes s) ≡ n) × All IsByte rest
unfolding text
text-ok n message remaining rest s h e = elim (>>=-eq-ok (take n remaining) _ e) [
  | bound (value, rest') t f ↦
      let (whole, width) = take-ok n remaining value rest' t in
      let (hv, hr) = All-append_inv IsByte value rest' (subst (All IsByte) whole h) in
      elim (Option-cases (from_utf8 value)) [
        | inl malformed ↦ cc (rw malformed at f)
        | inr (s', k) ↦ ground (arith, rw k at f, whole, width, hr, as_bytes-from_utf8 value s' k)
      ]
]

read_floats-ok :
    (d : ℕ) (remaining rest : List ℕ) (xs : List F32)
    → All IsByte remaining
    → read_floats d remaining ≡ ok (xs, rest)
    → (remaining ≡ floats_bytes xs ++ rest) × (length xs ≡ d) × All IsByte rest
unfolding read_floats floats_bytes
read_floats-ok zero remaining rest xs h e = ground arith
read_floats-ok (suc d) remaining rest xs h e = elim (>>=-eq-ok (u32 remaining) _ e) [
  | bound (x, r1) e1 f1 ↦ elim (>>=-eq-ok (read_floats d r1) _ f1) [
    | bound (xs', r2) e2 f2 ↦
        let (p1, _, h1) = u32-ok x remaining r1 h e1 in
        let (p2, w2, h2) = read_floats-ok d r1 r2 xs' h1 e2 in
        ground (arith, f2, p1, p2, w2, h2, append_assoc (to_le_bytes 4 x) (floats_bytes xs') r2)
  ]
]

-- Entries that were read, and the bytes that they are written as.
pub record Entries (fuel n d : ℕ) (remaining : List ℕ) (found : (List Text × List F32) × List ℕ)
    : Type 0 where
  pub bytes : List ℕ
  pub written : entry_bytes (zip found.0.0 (chunks_exact fuel d found.0.1)) ≡ ok bytes
  pub whole : remaining ≡ bytes ++ found.1
  pub ids_read : length found.0.0 ≡ n
  pub floats_read : length found.0.1 ≡ n * d

written_entry :
    (fuel d : ℕ) (id : Text) (ids : List Text) (vector vectors : List F32) (bytes : List ℕ)
    → length (as_bytes id) < 2 ^ 32
    → length vector ≡ d
    → entry_bytes (zip ids (chunks_exact fuel d vectors)) ≡ ok bytes
    → entry_bytes (zip (id ∷ ids) (chunks_exact (suc fuel) d (vector ++ vectors)))
      ≡ ok (to_le_bytes 4 (length (as_bytes id)) ++ as_bytes id ++ floats_bytes vector ++ bytes)
unfolding entry_bytes zip
written_entry fuel d id ids vector vectors bytes hl w e =
    rw
      (
        chunks_exact_step fuel d (vector ++ vectors) vector vectors
            (rw w at (split_at_checked-append vector vectors)),
        u32_bytes-ok (length (as_bytes id)) (txt "document id too long") hl,
        e,
      )
      refl

read_entry-ok :
    (d : ℕ) (remaining rest : List ℕ) (id : Text) (vector : List F32)
    → All IsByte remaining
    → read_entry d remaining ≡ ok ((id, vector), rest)
    → (remaining
        ≡ to_le_bytes 4 (length (as_bytes id)) ++ as_bytes id ++ floats_bytes vector ++ rest)
      × (length (as_bytes id) < 2 ^ 32)
      × (length vector ≡ d)
      × All IsByte rest
unfolding read_entry
read_entry-ok d remaining rest id vector h e = elim (>>=-eq-ok (u32 remaining) _ e) [
  | bound (id_len, r1) e1 f1 ↦ elim (>>=-eq-ok (text id_len _ r1) _ f1) [
    | bound (id', r2) e2 f2 ↦ elim (>>=-eq-ok (read_floats d r2) _ f2) [
      | bound (vector', r3) e3 f3 ↦
          let (p1, small, h1) = u32-ok id_len remaining r1 h e1 in
          let (p2, w2, h2) = text-ok id_len _ r1 r2 id' h1 e2 in
          let (p3, w3, h3) = read_floats-ok d r2 r3 vector' h2 e3 in
          ground (
            arith,
            append_assoc (to_le_bytes 4 id_len) (as_bytes id') (floats_bytes vector' ++ r3),
            append_assoc (to_le_bytes 4 id_len ++ as_bytes id') (floats_bytes vector') r3,
          )
    ]
  ]
]

nothing_read :
    (fuel d : ℕ) (remaining : List ℕ) → Entries fuel zero d remaining (([], []), remaining)
unfolding entry_bytes zip
nothing_read fuel d remaining = record {
  bytes = [];
  written = refl;
  whole = refl;
  ids_read = refl;
  floats_read = omega arith;
}

Entries-cons :
    (fuel n d : ℕ) (remaining r1 r2 : List ℕ) (id : Text) (vector : List F32) (ids : List Text)
    (vectors : List F32)
    → All IsByte remaining
    → read_entry d remaining ≡ ok ((id, vector), r1)
    → Entries fuel n d r1 ((ids, vectors), r2)
    → Entries (suc fuel) (suc n) d remaining ((id ∷ ids, vector ++ vectors), r2)
Entries-cons fuel n d remaining r1 r2 id vector ids vectors h e tail =
    let (whole, small, width, _) = read_entry-ok d remaining r1 id vector h e in
    record {
      bytes = entry ++ tail.bytes;
      written = written_entry fuel d id ids vector vectors tail.bytes small width tail.written;
      whole =
          whole
          ∙ ap (λ (r : List ℕ). entry ++ r) tail.whole
          ∙ sym (append_assoc entry tail.bytes r2);
      ids_read = ap (λ (m : ℕ). suc m) tail.ids_read;
      floats_read = omega (arith, length-append vector vectors, width, tail.floats_read);
    }
  where
    entry : List ℕ
    entry = to_le_bytes 4 (length (as_bytes id)) ++ as_bytes id ++ floats_bytes vector

pub read_entries-ok :
    (fuel n d : ℕ) (remaining : List ℕ) (found : (List Text × List F32) × List ℕ)
    → n ≤ fuel
    → All IsByte remaining
    → read_entries n d remaining ≡ ok found
    → Entries fuel n d remaining found
unfolding read_entries
read_entries-ok fuel zero d remaining found f h e =
    subst (Entries fuel zero d remaining) (ok_inj e) (nothing_read fuel d remaining)
read_entries-ok zero (suc n) d remaining found f h e = absurd (omega arith)
read_entries-ok (suc fuel) (suc n) d remaining found f h e =
    elim (>>=-eq-ok (read_entry d remaining) _ e) [
      | bound ((id, vector), r1) e1 f1 ↦ elim (>>=-eq-ok (read_entries n d r1) _ f1) [
        | bound ((ids, vectors), r2) e2 f2 ↦
            subst (Entries (suc fuel) (suc n) d remaining) (ok_inj f2) (
              Entries-cons fuel n d remaining r1 r2 id vector ids vectors h e1 (
                read_entries-ok fuel n d r1 ((ids, vectors), r2) (omega arith)
                  (read_entry-ok d remaining r1 id vector h e1).3 e2))
      ]
    ]
