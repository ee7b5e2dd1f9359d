-- ===== src/Mapping/Select.antt =====
-- What `find_field_path` of src/mapping.rs selects.
use mathlib.Core.Option
use sinker.Prelude.{String, ◌≡◌, Option, List, [], ◌∷◌}
use sinker.Json.{Value, null}
use sinker.Result.{Result, ok, err, ◌>>=◌, map_err}
use sinker.Error.{Error, serialization_error, json_path_error, json_path_exactly_one_value}
use sinker.Kube.{DynamicObject}
use sinker.Kube.Libraries.{Libraries, AtMostOne}
use sinker.Mapping.{source_path, find_field_path}

-- No node selects null, one node itself, and more are an error that names the expression.
abbrev pub the_node : String → List Value → Result Error Value
the_node path [] = ok null
the_node path (v ∷ []) = ok v
the_node path (v ∷ w ∷ vs) = err (json_path_exactly_one_value path)

module _ (lib : Libraries) (single : AtMostOne lib) where
  nodes_lem :
      (path : String) (nodes : List Value)
      → (do
        subtree ← map_err (λ _. json_path_exactly_one_value path) (lib.at_most_one nodes)
        ok (Option.get_or subtree null))
        ≡ the_node path nodes
  nodes_lem path [] = rw single.no_node
  nodes_lem path (v ∷ []) = rw (single.one_node v)
  nodes_lem path (v ∷ w ∷ vs) = rw (single.more_nodes v w vs).1

  -- Where `at_most_one` keeps its documentation, the selection is the single node of the query on
  -- the object's JSON form, null if there is none, and an error if there are more. The errors of
  -- the conversion and of the parser come first, in this order.
  pub find_field_path_lem :
      (resource : DynamicObject) (from : Option String)
      → find_field_path lib resource from ≡ (do
        json ← map_err serialization_error (lib.object_to_value resource)
        query ← map_err json_path_error (lib.parse_json_path (source_path from))
        the_node (source_path from) (query json))
  unfolding find_field_path
  find_field_path_lem resource from = simp (nodes_lem (source_path from))
