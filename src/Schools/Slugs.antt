-- ===== src/Schools/Slugs.antt =====
-- `slugify` of src/schools/schools.service.ts. The Unicode lower case and normal form come first, and are an
-- argument; a name that reduces to nothing takes a random end, which is one too.
use mathlib.Core.List.{reverse}
use tutor_app_back.Prelude.{
  ℕ, Bool, true, false, ◌&&◌, ◌||◌, [], ◌∷◌, ◌++◌, leb, ◌==◌, if◌then◌else◌, take,
}
use tutor_app_back.Model.Text.{Text, ascii}

-- `[a-z0-9]`
abbrev pub is_slug_char : ℕ → Bool
is_slug_char c = (leb 97 c && leb c 122) || (leb 48 c && leb c 57)

-- `replace(/[^a-z0-9]+/g, '-')`: each run of other characters becomes one dash. The flag says that the
-- character before belonged to such a run.
pub dash_runs : Bool → Text → Text
dash_runs in_run [] = []
dash_runs in_run (c ∷ s) =
    if is_slug_char c
    then c ∷ dash_runs false s
    else (if in_run then dash_runs true s else 45 ∷ dash_runs true s)

-- `replace(/^-+/, '')`
pub drop_dashes : Text → Text
drop_dashes [] = []
drop_dashes (c ∷ s) = if c == 45 then drop_dashes s else c ∷ s

-- `replace(/^-+|-+$/g, '')`
abbrev pub trim_dashes : Text → Text
unfolding drop_dashes
trim_dashes s = reverse (drop_dashes (reverse (drop_dashes s)))

abbrev pub or_else : Text → Text → Text
or_else [] t = t
or_else (c ∷ s) t = c ∷ s

unfoldable pub slugify : (Text → Text) → Text → Text → Text
unfolding dash_runs
slugify normalise end value =
    or_else (take 60 (trim_dashes (dash_runs false (normalise value)))) (ascii "school-" ++ end)
