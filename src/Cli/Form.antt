-- ===== src/Cli/Form.antt =====
-- src/cli/mod.rs: Go's single-dash long form.
use awtrix_controller.Prelude.{
  ℕ, ◌∷◌, ◌++◌, ◌&&◌, not, Bool, true, false, Option, none, some, List, [], ltb, ◌==◌, any, find,
  if◌then◌else◌, filter_map,
}
use awtrix_controller.Prelude.Text.{Text, bytes, same}

-- What clap knows of one argument: its long name, its short one, and whether its value may be the next
-- token: it takes a value and does not require an equals sign.
pub record Arg : Type 0 where
  pub long : Option Text
  pub short : Option ℕ
  pub require_equals : Bool
  pub min_values : ℕ

abbrev pub takes_separate_value : Arg → Bool
takes_separate_value option = not option.require_equals && ltb 0 option.min_values

-- The long names, with `help`.
abbrev pub long_names : List Arg → List Text
long_names options = filter_map (λ option. option.long) options ++ (bytes "help" ∷ [])

abbrev pub is_name : Text → Option Text → Bool
is_name name none = false
is_name name (some long) = same long name

abbrev pub is_short : ℕ → Option ℕ → Bool
is_short c none = false
is_short c (some short) = c == short

abbrev pub has_equals : Text → Bool
has_equals s = any (λ c. c == b'=') s

abbrev pub is_listed : Text → List Text → Bool
is_listed name names = any (λ known. same known name) names

-- The text before the first `=`.
unfoldable pub name_of : Text → Text
name_of [] = []
name_of (c ∷ s) = let rest = c ∷ name_of s in if c == b'=' then [] else rest

abbrev pub is_end : Text → Bool
is_end [] = true
is_end (_ ∷ _) = false

-- Whether a cluster of short flags ends in one that takes the next token.
unfoldable pub cluster_takes_next : List Arg → Text → Bool
cluster_takes_next options [] = false
cluster_takes_next options (c ∷ rest) =
    let later = cluster_takes_next options rest in
    elim (find (λ option. is_short c option.short) options) [
      | none ↦ false
      | some option ↦ if takes_separate_value option then is_end rest else later
    ]

-- What one argument comes to: the end of the search, a hit, or the next argument, which may be skipped.
pub data Verdict : Type 0 where
  stop : Verdict
  hit : Text → Text → Verdict
  go_on : Bool → Verdict

-- `strip_prefix("--")`, given what follows the first byte of the argument.
abbrev pub after_dash : List Arg → Text → Verdict
after_dash options [] = go_on false
after_dash options (c ∷ rest) =
    if c == b'-'
    then (if is_end rest
        then stop
        else go_on (
            not (has_equals rest)
            && any (λ option. is_name rest option.long && takes_separate_value option) options))
    else if is_listed (name_of (c ∷ rest)) (long_names options)
    then hit (b'-' ∷ c ∷ rest) (bytes "--" ++ name_of (c ∷ rest))
    else go_on (cluster_takes_next options (c ∷ rest))

-- The body of the loop; an argument that is not UTF-8 is passed over.
unfoldable pub verdict : List Arg → Option Text → Verdict
verdict options none = go_on false
verdict options (some []) = go_on false
verdict options (some (c ∷ rest)) = if c == b'-' then after_dash options rest else go_on false

-- `options` are the arguments of the command; `skip` passes over the next one.
unfoldable pub search_form : List Arg → Bool → List (Option Text) → Option (Text × Text)
search_form options skip [] = none
search_form options true (arg ∷ args) = search_form options false args
search_form options false (arg ∷ args) = elim (verdict options arg) [
  | stop ↦ none
  | hit given meant ↦ some (given, meant)
  | go_on skip ↦ search_form options skip args
]

abbrev pub single_dash_long_form : List Arg → List (Option Text) → Option (Text × Text)
single_dash_long_form options args = search_form options false args
