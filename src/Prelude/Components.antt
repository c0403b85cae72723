-- ===== src/Prelude/Components.antt =====
-- `std::path::Path::components` on Unix.
use mathlib.Core.Path.{◌≡◌}
use mathlib.Core.Bool.{Bool, true, false}
use mathlib.Core.Option.{Option, none, some}
use mathlib.Core.List.{List, [], ◌∷◌}
use cce.Prelude.Tests.{◌==◌, nat_eq, if◌then◌else◌}
use cce.Prelude.Lists.{All}
use cce.Prelude.Strings.{Text, txt, text_eq}
use cce.Prelude.Split.{split_on, Lacks}
use cce.Prelude.Trim.{is_empty, starts_with}

pub data Component : Type 0 where
  root_dir cur_dir parent_dir : Component
  normal : Text → Component

-- The pieces between slashes; an empty piece is dropped, and so is `.` but at the front of a
-- relative path.
unfoldable pub components_of : Bool → List Text → List Component
components_of front [] = []
components_of front (piece ∷ pieces) =
    let rest = components_of false pieces in
    if is_empty piece
    then rest
    else (if piece == txt "."
        then (if front then cur_dir ∷ rest else rest)
        else (if piece == txt ".." then parent_dir ∷ rest else normal piece ∷ rest))

-- `Path::is_absolute`.
abbrev pub is_absolute : Text → Bool
is_absolute path = starts_with (txt "/") path

unfoldable pub components : Text → List Component
components path =
    if is_absolute path
    then root_dir ∷ components_of false (split_on b'/' path)
    else components_of true (split_on b'/' path)

-- Where the components lead from a directory.
unfoldable pub walk : List Text → List Component → List Text
walk dirs [] = dirs
walk dirs (root_dir ∷ cs) = walk [] cs
walk dirs (cur_dir ∷ cs) = walk dirs cs
walk dirs (parent_dir ∷ cs) = walk (up dirs) cs
  where
    up : List Text → List Text
    up [] = []
    up (d ∷ ds) = ds
walk dirs (normal name ∷ cs) = walk (name ∷ dirs) cs

-- Not empty, without a slash, neither `.` nor `..`.
pub record IsName (name : Text) : Type 0 where
  pub nonempty : is_empty name ≡ false
  pub below : (name == txt ".") ≡ false
  pub inside : (name == txt "..") ≡ false
  pub one : Lacks b'/' name

pub IsName-Lacks : (ns : List Text) → All IsName ns → All (Lacks b'/') ns
IsName-Lacks [] h = tt
IsName-Lacks (n ∷ ns) (h, hs) = (h.one, IsName-Lacks ns hs)

abbrev last_name : List Component → Option Text
last_name [] = none
last_name (normal name ∷ []) = some name
last_name (_ ∷ []) = none
last_name (_ ∷ c ∷ cs) = last_name (c ∷ cs)

-- `Path::file_name`.
unfoldable pub file_name : Text → Option Text
unfolding components
file_name path = last_name (components path)

abbrev last_piece : List Text → Option Text
last_piece [] = none
last_piece (_ ∷ []) = none
last_piece ([] ∷ _ ∷ []) = none
last_piece (_ ∷ piece ∷ []) = some piece
last_piece (_ ∷ q ∷ r ∷ ps) = last_of q r ps
  where
    last_of : Text → Text → List Text → Option Text
    last_of q r [] = some r
    last_of q r (s ∷ ps) = last_of r s ps

-- The part after the last dot of a file name, unless that dot is its first character.
unfoldable pub extension : Text → Option Text
unfolding file_name
extension path = elim (file_name path) [ none ↦ none | some name ↦ last_piece (split_on b'.' name) ]
