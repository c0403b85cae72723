-- ===== src/Engine/Dense/Canonical.antt =====
-- What `DenseIndex::decode` of crates/cce-engine/src/dense.rs accepts.
use cce.Prelude.{
  ℕ, ◌*◌, ◌^◌, ◌<◌, ◌≡◌, refl, sym, ap, List, [], ◌∷◌, ◌++◌, Text, txt, ltb, length, All,
  All-append_inv, subst, arith, nat_eq, text_eq, eq_iff, not, ◌==◌, ◌&&◌, ◌∙◌,
}
use mathlib.Core.List.{append_assoc, append-nil}
use cce.Prelude.Strings.{list_eq}
use cce.Prelude.Trim.{is_empty}
use cce.Prelude.Bytes.{to_le_bytes, IsByte}
use cce.Prelude.Utf8.Encoding.{as_bytes}
use cce.Engine.Dense.RoundTrip.{header, encode-header}
use cce.Engine.Dense.Parsed.{ok_inj, take-ok, u32-ok, u64-ok, text-ok, read_entries-ok}
use cce.Engine.Dense.{
  DenseIndex, F32, ok, >>=-eq-ok, bound, Result, encode, decode, take, u32, u64, text, read_header,
  read_entries, magic, format_version, fail_if, with_capacity, artifact_corrupt, unsupported_format,
}

bad_magic : List ℕ → Result (Unit {0})
bad_magic m = fail_if (not (m == magic)) (artifact_corrupt (txt "invalid vector magic"))

bad_version : ℕ → Result (Unit {0})
bad_version version =
    fail_if (not (version == format_version)) (unsupported_format version format_version)

overflow : ℕ → ℕ → Result (Unit {0})
overflow n d =
    fail_if (not (ltb (n * d) (2 ^ 64))) (artifact_corrupt (txt "vector allocation overflow"))

trailing : List ℕ → Result (Unit {0})
trailing rest =
    fail_if (not (is_empty rest)) (artifact_corrupt (txt "trailing bytes in vector index"))

empty_vectors : ℕ → ℕ → Result (Unit {0})
empty_vectors d n =
    fail_if (d == 0 && not (n == 0)) (artifact_corrupt (txt "zero-dimensional non-empty index"))

-- Each part stands before what remains after it.
chained :
    {r0 r1 r2 r3 r4 r5 : List ℕ} (a b c d e f r6 : List ℕ)
    → r0 ≡ a ++ r1
    → r1 ≡ b ++ r2
    → r2 ≡ c ++ r3
    → r3 ≡ d ++ r4
    → r4 ≡ e ++ r5
    → r5 ≡ f ++ r6
    → r0 ≡ a ++ b ++ c ++ d ++ e ++ f ++ r6
chained a b c d e f r6 p1 p2 p3 p4 p5 p6 = rw (p1, p2, p3, p4, p5, p6) (simp append_assoc)

read_header-ok :
    (bytes : List ℕ) (dimensions count : ℕ) (profile : Text) (rest : List ℕ)
    → All IsByte bytes
    → read_header bytes ≡ ok ((dimensions, (count, profile)), rest)
    → (bytes ≡ header dimensions count profile ++ rest)
      × (dimensions < 2 ^ 32)
      × (length (as_bytes profile) < 2 ^ 32)
      × All IsByte rest
unfolding read_header header bad_magic bad_version empty_vectors
read_header-ok bytes dimensions count profile rest h e = elim (>>=-eq-ok (take 8 bytes) _ e) [
  | bound (m, r1) e1 f1 ↦ elim (>>=-eq-ok (bad_magic m) _ f1) [
    | bound _ g1 f1' ↦ elim (>>=-eq-ok (u32 r1) _ f1') [
      | bound (version, r2) e2 f2 ↦ elim (>>=-eq-ok (bad_version version) _ f2) [
        | bound _ g2 f2' ↦ elim (>>=-eq-ok (u32 r2) _ f2') [
          | bound (d, r3) e3 f3 ↦ elim (>>=-eq-ok (u64 r3) _ f3) [
            | bound (n, r4) e4 f4 ↦ elim (>>=-eq-ok (empty_vectors d n) _ f4) [
              | bound _ _ f4' ↦ elim (>>=-eq-ok (u32 r4) _ f4') [
                | bound (len, r5) e5 f5 ↦ elim (>>=-eq-ok (text len message r5) _ f5) [
                  | bound (s, r6) e6 f6 ↦
                      let (p1, _) = take-ok 8 bytes m r1 e1 in
                      let (_, h1) = All-append_inv IsByte m r1 (subst (All IsByte) p1 h) in
                      let (p2, _, h2) = u32-ok version r1 r2 h1 e2 in
                      let (p3, small, h3) = u32-ok d r2 r3 h2 e3 in
                      let (p4, _, h4) = u64-ok n r3 r4 h3 e4 in
                      let (p5, short, h5) = u32-ok len r4 r5 h4 e5 in
                      let (p6, width, h6) = text-ok len message r5 r6 s h5 e6 in
                      ground (
                        arith,
                        chained m (to_le_bytes 4 version) (to_le_bytes 4 d) (to_le_bytes 8 n)
                            (to_le_bytes 4 len) (as_bytes s) r6 p1 p2 p3 p4 p5 p6,
                        eq_iff m magic,
                      )
                ]
              ]
            ]
          ]
        ]
      ]
    ]
  ]
]
  where
    message : Text
    message = txt "invalid vector profile"

trailing-ok : (rest : List ℕ) {u : Unit {0}} → trailing rest ≡ ok u → rest ≡ []
unfolding trailing
trailing-ok [] h = refl
trailing-ok (b ∷ rest) h = cc

decoded :
    (bytes r1 : List ℕ) (d n : ℕ) (profile : Text) (ids : List Text) (vectors : List F32)
    → All IsByte bytes
    → 0 < d
    → read_header bytes ≡ ok ((d, (n, profile)), r1)
    → read_entries n d r1 ≡ ok ((ids, vectors), [])
    → encode (record { profile = profile; dimensions = d; ids = ids; vectors = vectors }) ≡ ok bytes
decoded bytes r1 d n profile ids vectors h pos e1 e2 =
    let (whole, narrow, short, h1) = read_header-ok bytes d n profile r1 h e1 in
    let first = read_entries-ok n n d r1 ((ids, vectors), []) (omega arith) h1 e2 in
    let all =
      read_entries-ok (length vectors) n d r1 ((ids, vectors), [])
        (grind (arith, first.floats_read)) h1 e2 in
    encode-header _ all.bytes pos narrow short all.written
    ∙ ap (λ (m : ℕ). ok (header d m profile ++ all.bytes)) first.ids_read
    ∙ ap (λ (bs : List ℕ). ok (header d n profile ++ bs)) (sym (all.whole ∙ append-nil all.bytes))
    ∙ ap ok (sym whole)

-- Bytes that decode to an index of positive dimension are what encoding that index gives: no other
-- bytes are accepted for it, so that the input was neither cut short nor continued.
pub decode-canonical :
    (bytes : List ℕ) (index : DenseIndex)
    → All IsByte bytes
    → 0 < index.dimensions
    → decode bytes ≡ ok index
    → encode index ≡ ok bytes
unfolding decode overflow trailing
decode-canonical bytes index h pos e = elim (>>=-eq-ok (read_header bytes) _ e) [
  | bound ((d, (n, profile)), r1) e1 f1 ↦ elim (>>=-eq-ok (with_capacity n 24) _ f1) [
    | bound _ _ f2 ↦ elim (>>=-eq-ok (overflow n d) _ f2) [
      | bound _ _ f3 ↦ elim (>>=-eq-ok (with_capacity (n * d) 4) _ f3) [
        | bound _ _ f4 ↦ elim (>>=-eq-ok (read_entries n d r1) _ f4) [
          | bound ((ids, vectors), rest) e5 f5 ↦ elim (>>=-eq-ok (trailing rest) _ f5) [
            | bound _ g6 f6 ↦
                subst (λ i. encode i ≡ ok bytes) (ok_inj f6)
                  (decoded bytes r1 d n profile ids vectors h
                    (subst (λ i. 0 < i.dimensions) (sym (ok_inj f6)) pos) e1
                    (subst (λ r. read_entries n d r1 ≡ ok ((ids, vectors), r)) (trailing-ok rest g6)
                      e5))
          ]
        ]
      ]
    ]
  ]
]
