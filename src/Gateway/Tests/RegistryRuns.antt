-- ===== src/Gateway/Tests/RegistryRuns.antt =====
-- Runs of the registry and the path checks of apps/gateway/src/main.rs.
use cce.Prelude.{◌≡◌, ◌≢◌, ◌⊎◌, ◌↔◌, refl, true, none, List, [], ◌∷◌, Text, txt, text_eq, All, map}
use cce.Prelude.Lists.{any}
use cce.Prelude.Strings.{list_beq}
use cce.Prelude.Map.{lookup, insert, remove}
use cce.Prelude.Split.{split_on, join}
use cce.Prelude.Trim.{starts_with, trim_start, trim_end}
use cce.Prelude.Components.{components, components_of, walk, IsName}
use cce.Gateway.Registry.{
  ok, is_http, update_worker, find_by, register_repo, ensure_repo, require_repo, fresh_entry,
}
use cce.Gateway.Registry.Slug.{slugify, slug_char, IsSlug, slugify_sound}
use cce.Gateway.Registry.Lookups.{Refused, Registered, register_repo_outcome}
use cce.Gateway.Registry.Runs.{handle, run, register, registered_is_found}
use cce.Gateway.Registry.Paths.{safe_relpath, safe_relpath_stays_inside, descend}

program : Unit {0}
unfolding slugify slug_char lookup insert remove split_on join starts_with trim_start trim_end
    components components_of walk is_http update_worker find_by register_repo ensure_repo
    require_repo handle run safe_relpath any list_beq
program = tt

-- Two names with one slug, and a slug that names the parent directory.
slugs :
    (slugify (txt "My Repo!") ≡ txt "my-repo")
    × (slugify (txt "my-repo") ≡ txt "my-repo")
    × (slugify (txt "..") ≡ txt "..")
    × (slugify (txt "--") ≡ txt "repo")
unfolding program
slugs = (refl, refl, refl, refl)

slugify_sound_example :
    IsSlug (slugify (txt "A b")) × (IsSlug (txt "a-b") ↔ (slugify (txt "a-b") ≡ txt "a-b"))
unfolding program
slugify_sound_example = slugify_sound (txt "A b") (txt "a-b")

-- In place of a hash: the name itself.
abbrev same_text : Text → Text
same_text name = name

abbrev url : Text
url = txt "http://w:1/"

register_repo_outcome_example :
    Refused same_text [] (register_repo same_text true true (txt "now") (txt "a") url [])
    ⊎ Registered same_text true
        (txt "a")
        (txt "http://w:1")
        []
        (register_repo same_text true true (txt "now") (txt "a") url [])
unfolding program
register_repo_outcome_example =
    register_repo_outcome same_text true true (txt "now") (txt "a") url [] tt

registered_is_found_example :
    (require_repo
        (map (λ e. e.1))
        (txt "repo_a")
        (register_repo same_text true true
          (txt "now")
          (txt "a")
          url
          (run same_text (register true true [] (txt "b") url ∷ []) [])).1
      ≡ ok (fresh_entry same_text (txt "a") (txt "http://w:1") (txt "now")))
    × (txt "http://w:1" ≡ trim_end b'/' url)
unfolding program
registered_is_found_example =
    registered_is_found same_text (register true true [] (txt "b") url ∷ []) (map (λ e. e.1)) true
      true (txt "now") (txt "a") url
      (fresh_entry same_text (txt "a") (txt "http://w:1") (txt "now")) refl

rejected_paths :
    (safe_relpath (txt "a/../b") ≡ none)
    × (safe_relpath (txt "/a") ≡ none)
    × (safe_relpath (txt ".") ≡ none)
unfolding program
rejected_paths = (refl, refl, refl)

safe_relpath_stays_inside_example :
    (txt "a/./b" ≡ txt "a/./b")
    × (ns : List Text) × (ns ≢ [])
    × All IsName ns
    × ((dir : List Text) → walk dir (components (txt "a/./b")) ≡ descend dir ns)
unfolding program
safe_relpath_stays_inside_example = safe_relpath_stays_inside (txt "a/./b") (txt "a/./b") refl

a-IsName : IsName (txt "a")
unfolding list_beq
a-IsName = record { nonempty = refl; below = refl; inside = refl; one = (refl, tt) }
