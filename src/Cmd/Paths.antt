-- ===== src/Cmd/Paths.antt =====
-- path/filepath on Unix, as cmd/monod/cmd/testnet_multi_node.go uses it.
use mono_chain.Prelude.{Bool, true, false, ◌&&◌, List, [], ◌∷◌, ◌++◌, ◌==◌, bytes_eq, if◌then◌else◌}
use mono_chain.Cmd.Text.{Text}
use mono_chain.Cmd.Testnet.{onto_first}

-- `strings.Split(s, "/")`
unfoldable pub split_slashes : Text → List Text
split_slashes [] = [] ∷ []
split_slashes (c ∷ cs) =
    let rest = split_slashes cs in if c == 47 then [] ∷ rest else onto_first c rest

abbrev pub dot : Text
dot = 46 ∷ []

abbrev pub dot_dot : Text
dot_dot = 46 ∷ 46 ∷ []

-- `filepath.IsAbs`
abbrev pub is_abs : Text → Bool
is_abs [] = false
is_abs (c ∷ cs) = c == 47

-- One `..` behind the names that are open, the last one first.
abbrev pub up : (rooted : Bool) → List Text → List Text
up true [] = []
up false [] = dot_dot ∷ []
up rooted (name ∷ names_open) =
    if bytes_eq name dot_dot then dot_dot ∷ name ∷ names_open else names_open

abbrev pub push : (rooted : Bool) → Text → List Text → List Text
push rooted name names_open =
    if bytes_eq name []
    then names_open
    else if bytes_eq name dot
    then names_open
    else if bytes_eq name dot_dot
    then up rooted names_open
    else name ∷ names_open

unfoldable pub resolve : (rooted : Bool) → List Text → (names_open : List Text) → List Text
resolve rooted [] names_open = names_open
resolve rooted (name ∷ names) names_open = resolve rooted names (push rooted name names_open)

unfoldable pub reverse_onto : List Text → List Text → List Text
reverse_onto [] out = out
reverse_onto (name ∷ names) out = reverse_onto names (name ∷ out)

-- The names of a cleaned path.
unfoldable pub components : Text → List Text
unfolding resolve reverse_onto split_slashes bytes_eq
components path = reverse_onto (resolve (is_abs path) (split_slashes path) []) []

unfoldable pub with_slashes : List Text → Text
with_slashes [] = []
with_slashes (name ∷ []) = name
with_slashes (name ∷ next ∷ names) = name ++ (47 ∷ with_slashes (next ∷ names))

abbrev pub or_dot : Text → Text
or_dot [] = dot
or_dot (c ∷ cs) = c ∷ cs

-- `filepath.Clean`
unfoldable pub clean : Text → Text
unfolding components with_slashes
clean path =
    if is_abs path
    then 47 ∷ with_slashes (components path)
    else or_dot (with_slashes (components path))

-- `filepath.Join`, which leaves out what is empty in front.
unfoldable pub join : List Text → Text
unfolding clean
join [] = []
join ([] ∷ names) = join names
join ((c ∷ cs) ∷ names) = clean (with_slashes ((c ∷ cs) ∷ names))

unfoldable pub last_name : List Text → Text → Text
last_name [] found = found
last_name ([] ∷ names) found = last_name names found
last_name ((c ∷ cs) ∷ names) found = last_name names (c ∷ cs)

-- `filepath.Base`
unfoldable pub base : Text → Text
unfolding last_name split_slashes
base [] = dot
base (c ∷ cs) = last_name (split_slashes (c ∷ cs)) (47 ∷ [])

unfoldable pub all_up : List Text → List Text → List Text
all_up [] targets = targets
all_up (b ∷ bases) targets = dot_dot ∷ all_up bases targets

-- What is left of two cleaned paths behind their common names.
unfoldable pub rel_components : (bases targets : List Text) → List Text
unfolding all_up
rel_components [] targets = targets
rel_components (b ∷ bases) [] = all_up (b ∷ bases) []
rel_components (b ∷ bases) (t ∷ targets) =
    let rest = rel_components bases targets in
    if bytes_eq b t then rest else all_up (b ∷ bases) (t ∷ targets)

-- `filepath.Rel` of two absolute paths, which returns no error.
unfoldable pub rel : (base_path target_path : Text) → Text
unfolding rel_components with_slashes bytes_eq
rel base_path target_path =
    or_dot (with_slashes (rel_components (components base_path) (components target_path)))

-- `strings.HasPrefix(s, "..")`
abbrev pub starts_dot_dot : Text → Bool
starts_dot_dot [] = false
starts_dot_dot (c ∷ []) = false
starts_dot_dot (c ∷ d ∷ ds) = c == 46 && d == 46
