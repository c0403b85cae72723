-- ===== src/Gateway/Ingest/Tree.antt =====
-- The tree that a push of apps/gateway/src/main.rs stages.
use cce.Prelude.{
  ℕ, ◌+◌, ◌≡◌, refl, ap, ◌∙◌, Bool, true, false, none, some, List, [], ◌∷◌, Text, text_eq, nat_eq,
  ◌==◌, eq_iff, eq_refl, length, All, arith, inl, inr, Option-cases, Bool-cases,
}
use cce.Prelude.Lists.{any}
use cce.Prelude.Map.{lookup, insert, Every, Every-insert, lookup-insert}
use cce.Gateway.Ingest.{
  Disk, StagedFile, Path_, path_eq, read, exists, is_prefix, obstructs, link_or_copy, size_at,
  stage, stage_all, or_zero,
}

-- Neither path leads through the other.
abbrev pub Apart : Path_ → Path_ → Type 0
Apart p q = (is_prefix p q ≡ false) × (is_prefix q p ≡ false)

is_prefix_refl : (p : Path_) → is_prefix p p ≡ true
unfolding is_prefix
is_prefix_refl [] = refl
is_prefix_refl (a ∷ p) = ground (arith, eq_iff a a, is_prefix_refl p)

Apart-ne : (p q : Path_) → Apart p q → (q == p) ≡ false
Apart-ne p q (h, k) = elim (Bool-cases (q == p)) [
  | inl e ↦ ground (arith, eq_iff q p, is_prefix_refl p)
  | inr e ↦ e
]

absent :
    (p : Path_) (tree : List (Path_ × ℕ)) → Every (λ q _. Apart p q) tree → lookup p tree ≡ none
unfolding lookup
absent p [] h = refl
absent p ((q, i) ∷ tree) (hq, h) = rw (Apart-ne p q hq) (absent p tree h)

unobstructed :
    (p : Path_) (tree : List (Path_ × ℕ))
    → Every (λ q _. Apart p q) tree
    → any (λ e. obstructs p e.0) tree ≡ false
unfolding any obstructs
unobstructed p [] h = refl
unobstructed p ((q, i) ∷ tree) ((a, b), h) = ground (arith, a, b, unobstructed p tree h)

-- The inode that a staged file shares with its blob.
abbrev pub blob_of : Disk → StagedFile → ℕ
blob_of d file = or_zero (lookup file.digest d.blobs)

-- No path of the manifest leads through another, and every blob is there.
abbrev pub Distinct : List StagedFile → Type 0
Distinct [] = Unit
Distinct (file ∷ plan) = All (λ other. Apart file.rel other.rel) plan × Distinct plan

abbrev pub Stored : Disk → List StagedFile → Type 0
Stored d plan = All (λ file. exists d file.digest ≡ true) plan

abbrev pub Clear : List StagedFile → List (Path_ × ℕ) → Type 0
Clear plan tree = All (λ file. Every (λ q _. Apart file.rel q) tree) plan

-- How many bytes the blobs of a manifest have.
abbrev pub bytes_of : Disk → List StagedFile → ℕ
bytes_of d [] = 0
bytes_of d (file ∷ plan) = length (read d (blob_of d file)) + bytes_of d plan

unfoldable pub tree_of : Disk → List StagedFile → List (Path_ × ℕ) → List (Path_ × ℕ)
tree_of d [] tree = tree
tree_of d (file ∷ plan) tree = tree_of d plan (insert file.rel (blob_of d file) tree)

pub stored_blob :
    (d : Disk) (digest : Text)
    → exists d digest ≡ true
    → lookup digest d.blobs ≡ some (or_zero (lookup digest d.blobs))
stored_blob d digest h = elim (Option-cases (lookup digest d.blobs)) [
  | inl e ↦ cc (rw (e, exists) at h)
  | inr (i, e) ↦ rw e refl
]

pub stage-some :
    (links : Bool) (file : StagedFile) (d : Disk) (blob : ℕ)
    → lookup file.digest d.blobs ≡ some blob
    → any (λ e. obstructs file.rel e.0) d.staging ≡ false
    → stage links file d ≡ some (link_or_copy links file.rel blob d)
unfolding stage
stage-some links file d blob h o = rw (h, stage, o) refl

link-new :
    (target : Path_) (blob : ℕ) (d : Disk)
    → lookup target d.staging ≡ none
    → link_or_copy true target blob d ≡ record d { staging = insert target blob d.staging }
unfolding link_or_copy
link-new target blob d h = rw (h, link_or_copy) refl

pub stage-link :
    (file : StagedFile) (d : Disk)
    → exists d file.digest ≡ true
    → Every (λ q _. Apart file.rel q) d.staging
    → stage true file d ≡ some (record d { staging = insert file.rel (blob_of d file) d.staging })
stage-link file d h c =
    stage-some true file d (blob_of d file) (stored_blob d file.digest h)
      (unobstructed file.rel d.staging c)
    ∙ ap (λ e. some e) (link-new file.rel (blob_of d file) d (absent file.rel d.staging c))

pub stage_all-step :
    (links : Bool) (file : StagedFile) (plan : List StagedFile) (total : ℕ) (d d' : Disk)
    → stage links file d ≡ some d'
    → stage_all links (file ∷ plan) total d ≡ stage_all links plan (total + size_at file.rel d') d'
unfolding stage_all
stage_all-step links file plan total d d' h = rw (h, stage_all) refl

pub size-link :
    (file : StagedFile) (d : Disk) (tree : List (Path_ × ℕ))
    → size_at file.rel (record d { staging = insert file.rel (blob_of d file) tree })
      ≡ length (read d (blob_of d file))
unfolding size_at read
size-link file d tree =
    rw (lookup-insert file.rel file.rel (blob_of d file) tree, eq_refl file.rel) refl

Clear-insert :
    (file : StagedFile) (i : ℕ) (plan : List StagedFile) (tree : List (Path_ × ℕ))
    → All (λ other. Apart file.rel other.rel) plan
    → Clear plan tree
    → Clear plan (insert file.rel i tree)
Clear-insert file i [] tree a c = tt
Clear-insert file i (other ∷ plan) tree (h, a) (k, c) = (
  Every-insert (λ q _. Apart other.rel q) (λ q _. Apart other.rel q) file.rel i tree (λ _ _ _ r. r)
      (h.1, h.0) k,
  Clear-insert file i plan tree a c,
)

pub stage_all-link :
    (plan : List StagedFile) (total : ℕ) (d : Disk) (tree : List (Path_ × ℕ))
    → Distinct plan
    → Stored d plan
    → Clear plan tree
    → stage_all true plan total (record d { staging = tree })
      ≡ (some (total + bytes_of d plan), record d { staging = tree_of d plan tree })
unfolding stage_all tree_of
stage_all-link [] total d tree n s c =
    ap (λ (k : ℕ). (some k, record d { staging = tree })) (omega arith)
stage_all-link (file ∷ plan) total d tree (a, n) (h, s) (k, c) =
    stage_all-step true file plan total (record d { staging = tree }) (record d { staging = next })
      (stage-link file (record d { staging = tree }) h k)
    ∙ ap (λ (m : ℕ). stage_all true plan (total + m) (record d { staging = next }))
        (size-link file d tree)
    ∙ stage_all-link plan (total + length (read d (blob_of d file))) d next n s
        (Clear-insert file (blob_of d file) plan tree a c)
    ∙ ap (λ (m : ℕ). (some m, record d { staging = tree_of d plan next })) (omega arith)
  where
    next : List (Path_ × ℕ)
    next = insert file.rel (blob_of d file) tree

-- A path that the manifest does not name keeps what it had.
lookup-tree_of_other :
    (d : Disk) (p : Path_) (plan : List StagedFile) (tree : List (Path_ × ℕ))
    → All (λ file. Apart p file.rel) plan
    → lookup p (tree_of d plan tree) ≡ lookup p tree
unfolding tree_of
lookup-tree_of_other d p [] tree h = refl
lookup-tree_of_other d p (file ∷ plan) tree (a, h) =
    lookup-tree_of_other d p plan (insert file.rel (blob_of d file) tree) h
    ∙ lookup-insert file.rel p (blob_of d file) tree
    ∙ rw (Apart-ne p file.rel a) refl

pub lookup-tree_of :
    (d : Disk) (plan : List StagedFile) (tree : List (Path_ × ℕ))
    → Distinct plan
    → All (λ file. lookup file.rel (tree_of d plan tree) ≡ some (blob_of d file)) plan
unfolding tree_of
lookup-tree_of d [] tree n = tt
lookup-tree_of d (file ∷ plan) tree (a, n) = (
  lookup-tree_of_other d file.rel plan (insert file.rel (blob_of d file) tree) a
      ∙ lookup-insert file.rel file.rel (blob_of d file) tree
      ∙ rw (eq_refl file.rel) refl,
  lookup-tree_of d plan (insert file.rel (blob_of d file) tree) n,
)

pub Clear-nil : (plan : List StagedFile) → Clear plan []
Clear-nil [] = tt
Clear-nil (file ∷ plan) = (tt, Clear-nil plan)
