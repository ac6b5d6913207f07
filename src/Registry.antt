-- ===== src/Registry.antt =====
-- src/builtin_registry.rs: the one table of the builtins that a script may call.
pub mod Laws
use Prim.Native.String.{String}
use tsumugi.Base.{
  ℕ, Bool, true, false, ◌||◌, Option, none, some, List, [], ◌∷◌, ◌++◌, leb, ◌==◌, if◌then◌else◌,
  codes, same_text,
}
use tsumugi.Audit.Payload.{Text}

-- `map_fn`, `type_of`, `min_of` and `max_of` are `Map`, `Type`, `Min` and `Max`.
pub data BuiltinId : Type 0 where
  len push pop keys values has_key type_of slice contains sort reverse range split join trim upper
        lower starts_with ends_with replace to_int to_str to_float abs min_of max_of floor ceil
        round now format_time print input args exit map_fn filter each read_file read_lines
        write_file append_file env path_exists path_join mkdir remove remove_dir remove_tree rename
        list_dir file_size is_file is_dir :
      BuiltinId

-- The discriminant, by which the derived equality compares.
unfoldable pub discriminant : BuiltinId → ℕ
discriminant BuiltinId.len = 0
discriminant BuiltinId.push = 1
discriminant BuiltinId.pop = 2
discriminant BuiltinId.keys = 3
discriminant BuiltinId.values = 4
discriminant BuiltinId.has_key = 5
discriminant BuiltinId.type_of = 6
discriminant BuiltinId.slice = 7
discriminant BuiltinId.contains = 8
discriminant BuiltinId.sort = 9
discriminant BuiltinId.reverse = 10
discriminant BuiltinId.range = 11
discriminant BuiltinId.split = 12
discriminant BuiltinId.join = 13
discriminant BuiltinId.trim = 14
discriminant BuiltinId.upper = 15
discriminant BuiltinId.lower = 16
discriminant BuiltinId.starts_with = 17
discriminant BuiltinId.ends_with = 18
discriminant BuiltinId.replace = 19
discriminant BuiltinId.to_int = 20
discriminant BuiltinId.to_str = 21
discriminant BuiltinId.to_float = 22
discriminant BuiltinId.abs = 23
discriminant BuiltinId.min_of = 24
discriminant BuiltinId.max_of = 25
discriminant BuiltinId.floor = 26
discriminant BuiltinId.ceil = 27
discriminant BuiltinId.round = 28
discriminant BuiltinId.now = 29
discriminant BuiltinId.format_time = 30
discriminant BuiltinId.print = 31
discriminant BuiltinId.input = 32
discriminant BuiltinId.args = 33
discriminant BuiltinId.exit = 34
discriminant BuiltinId.map_fn = 35
discriminant BuiltinId.filter = 36
discriminant BuiltinId.each = 37
discriminant BuiltinId.read_file = 38
discriminant BuiltinId.read_lines = 39
discriminant BuiltinId.write_file = 40
discriminant BuiltinId.append_file = 41
discriminant BuiltinId.env = 42
discriminant BuiltinId.path_exists = 43
discriminant BuiltinId.path_join = 44
discriminant BuiltinId.mkdir = 45
discriminant BuiltinId.remove = 46
discriminant BuiltinId.remove_dir = 47
discriminant BuiltinId.remove_tree = 48
discriminant BuiltinId.rename = 49
discriminant BuiltinId.list_dir = 50
discriminant BuiltinId.file_size = 51
discriminant BuiltinId.is_file = 52
discriminant BuiltinId.is_dir = 53

abbrev pub same_id : BuiltinId → BuiltinId → Bool
unfolding discriminant
same_id a b = discriminant a == discriminant b

pub data Execution : Type 0 where
  pure_core context : Execution

pub data Arity : Type 0 where
  exact : ℕ → Arity
  one_of : ℕ → ℕ → Arity
  variadic : (min : ℕ) → Arity

unfoldable pub accepts : Arity → ℕ → Bool
accepts (exact n) actual = actual == n
accepts (one_of a b) actual = actual == a || actual == b
accepts (variadic min) actual = leb min actual

pub record BuiltinSpec : Type 0 where
  pub id : BuiltinId
  pub name : Text
  pub arity : Arity
  pub execution : Execution

abbrev spec : BuiltinId → String → Arity → Execution → BuiltinSpec
spec id name arity execution = record {
  id = id;
  name = codes name;
  arity = arity;
  execution = execution;
}

abbrev pub collection_specs : List BuiltinSpec
collection_specs =
    spec BuiltinId.len "len" (exact 1) Execution.pure_core
    ∷ spec BuiltinId.push "push" (exact 2) Execution.context
    ∷ spec BuiltinId.pop "pop" (exact 1) Execution.context
    ∷ spec BuiltinId.keys "keys" (exact 1) Execution.pure_core
    ∷ spec BuiltinId.values "values" (exact 1) Execution.pure_core
    ∷ spec BuiltinId.has_key "has_key" (exact 2) Execution.pure_core
    ∷ spec BuiltinId.type_of "type" (exact 1) Execution.pure_core
    ∷ spec BuiltinId.slice "slice" (exact 3) Execution.pure_core
    ∷ spec BuiltinId.contains "contains" (exact 2) Execution.pure_core
    ∷ spec BuiltinId.sort "sort" (exact 1) Execution.pure_core
    ∷ spec BuiltinId.reverse "reverse" (exact 1) Execution.pure_core
    ∷ spec BuiltinId.range "range" (exact 2) Execution.pure_core
    ∷ []

abbrev pub text_specs : List BuiltinSpec
text_specs =
    spec BuiltinId.split "split" (exact 2) Execution.pure_core
    ∷ spec BuiltinId.join "join" (exact 2) Execution.pure_core
    ∷ spec BuiltinId.trim "trim" (exact 1) Execution.pure_core
    ∷ spec BuiltinId.upper "upper" (exact 1) Execution.pure_core
    ∷ spec BuiltinId.lower "lower" (exact 1) Execution.pure_core
    ∷ spec BuiltinId.starts_with "starts_with" (exact 2) Execution.pure_core
    ∷ spec BuiltinId.ends_with "ends_with" (exact 2) Execution.pure_core
    ∷ spec BuiltinId.replace "replace" (exact 3) Execution.pure_core
    ∷ []

abbrev pub number_specs : List BuiltinSpec
number_specs =
    spec BuiltinId.to_int "to_int" (exact 1) Execution.pure_core
    ∷ spec BuiltinId.to_str "to_str" (exact 1) Execution.pure_core
    ∷ spec BuiltinId.to_float "to_float" (exact 1) Execution.pure_core
    ∷ spec BuiltinId.abs "abs" (exact 1) Execution.pure_core
    ∷ spec BuiltinId.min_of "min" (exact 2) Execution.pure_core
    ∷ spec BuiltinId.max_of "max" (exact 2) Execution.pure_core
    ∷ spec BuiltinId.floor "floor" (exact 1) Execution.pure_core
    ∷ spec BuiltinId.ceil "ceil" (exact 1) Execution.pure_core
    ∷ spec BuiltinId.round "round" (exact 1) Execution.pure_core
    ∷ []

abbrev pub time_specs : List BuiltinSpec
time_specs =
    spec BuiltinId.now "now" (exact 0) Execution.context
    ∷ spec BuiltinId.format_time "format_time" (exact 2) Execution.pure_core
    ∷ []

abbrev pub process_specs : List BuiltinSpec
process_specs =
    spec BuiltinId.print "print" (exact 0) Execution.context
    ∷ spec BuiltinId.input "input" (exact 0) Execution.context
    ∷ spec BuiltinId.args "args" (exact 0) Execution.context
    ∷ spec BuiltinId.exit "exit" (one_of 0 1) Execution.context
    ∷ []

abbrev pub higher_order_specs : List BuiltinSpec
higher_order_specs =
    spec BuiltinId.map_fn "map" (exact 2) Execution.context
    ∷ spec BuiltinId.filter "filter" (exact 2) Execution.context
    ∷ spec BuiltinId.each "each" (exact 2) Execution.context
    ∷ []

abbrev pub file_specs : List BuiltinSpec
file_specs =
    spec BuiltinId.read_file "read_file" (exact 1) Execution.pure_core
    ∷ spec BuiltinId.read_lines "read_lines" (exact 1) Execution.pure_core
    ∷ spec BuiltinId.write_file "write_file" (exact 2) Execution.pure_core
    ∷ spec BuiltinId.append_file "append_file" (exact 2) Execution.pure_core
    ∷ []

abbrev pub environment_specs : List BuiltinSpec
environment_specs = spec BuiltinId.env "env" (exact 1) Execution.context ∷ []

abbrev pub path_specs : List BuiltinSpec
path_specs =
    spec BuiltinId.path_exists "path_exists" (exact 1) Execution.pure_core
    ∷ spec BuiltinId.path_join "path_join" (variadic 0) Execution.pure_core
    ∷ spec BuiltinId.mkdir "mkdir" (exact 1) Execution.pure_core
    ∷ spec BuiltinId.remove "remove" (exact 1) Execution.pure_core
    ∷ spec BuiltinId.remove_dir "remove_dir" (exact 1) Execution.pure_core
    ∷ spec BuiltinId.remove_tree "remove_tree" (exact 1) Execution.pure_core
    ∷ spec BuiltinId.rename "rename" (exact 2) Execution.pure_core
    ∷ spec BuiltinId.list_dir "list_dir" (exact 1) Execution.pure_core
    ∷ spec BuiltinId.file_size "file_size" (exact 1) Execution.pure_core
    ∷ spec BuiltinId.is_file "is_file" (exact 1) Execution.pure_core
    ∷ spec BuiltinId.is_dir "is_dir" (exact 1) Execution.pure_core
    ∷ []

abbrev pub public_builtins : List BuiltinSpec
public_builtins =
    collection_specs
    ++ (text_specs
        ++ (number_specs
            ++ (time_specs
                ++ (process_specs
                    ++ (higher_order_specs
                        ++ (file_specs ++ (environment_specs ++ (path_specs))))))))

unfoldable pub find_name : Text → List BuiltinSpec → Option BuiltinSpec
find_name name [] = none
find_name name (s ∷ ss) =
    let rest = find_name name ss in if same_text s.name name then some s else rest

unfoldable pub find_id : BuiltinId → List BuiltinSpec → Option BuiltinSpec
unfolding discriminant
find_id id [] = none
find_id id (s ∷ ss) = let rest = find_id id ss in if same_id s.id id then some s else rest

unfoldable pub lookup_public : Text → Option BuiltinSpec
unfolding find_name
lookup_public name = find_name name public_builtins

unfoldable pub is_public_builtin : Text → Bool
unfolding lookup_public
is_public_builtin name = elim (lookup_public name) [ none ↦ false | some s ↦ true ]

abbrev pub is_context : Execution → Bool
is_context Execution.context = true
is_context Execution.pure_core = false

abbrev pub is_pure_core : Execution → Bool
is_pure_core Execution.context = false
is_pure_core Execution.pure_core = true

unfoldable pub is_context_builtin : Text → Bool
unfolding lookup_public
is_context_builtin name = elim (lookup_public name) [
  | none ↦ false
  | some s ↦ is_context s.execution
]

unfoldable pub is_pure_core_builtin : Text → Bool
unfolding lookup_public
is_pure_core_builtin name = elim (lookup_public name) [
  | none ↦ false
  | some s ↦ is_pure_core s.execution
]

unfoldable pub id_of : Text → Option BuiltinId
unfolding lookup_public
id_of name = elim (lookup_public name) [ none ↦ none | some s ↦ some s.id ]

unfoldable pub is_registered : BuiltinId → Bool
unfolding find_id
is_registered id = elim (find_id id public_builtins) [ none ↦ false | some s ↦ true ]

unfoldable pub name_of : BuiltinId → Text
unfolding find_id
name_of id = elim (find_id id public_builtins) [ none ↦ [] | some s ↦ s.name ]
