-- ===== src/Examples/Tools.antt =====
-- The tool deferral's theorems at a request with twelve tools.
use orichum.Base.{String, true, ◌≡◌, ◌≢◌, refl, some, List, [], ◌∷◌, ◌++◌, string_eq, nat_eq}
use orichum.Base.Dict.{lookup, insert, has_key}
use orichum.Base.Text.{after_last, has_code}
use orichum.Json.{
  Json, Items, Fields, bool, str, arr, obj, object, array, items, entries, from_entries,
}
use orichum.ToolDeferral.{
  search_tool, is_verified_tool_search_model, is_dict, get, is_str, is_true, is_dict_value, has,
  named_in, is_tool_search, is_deferred, well_formed_tool, eligible_client_tool, set_key, defer,
  is_source, is_resident, find_last, preserve_cache_breakpoint, accepts, transform_tools,
  transform_document,
}
use orichum.ToolDeferral.Shape.{Pointwise, Kept, transform_document-Kept}

abbrev tool : String → Json
tool name = object (("name", str name) ∷ ("input_schema", object []) ∷ [])

abbrev late : String → Json
late name =
    object (("name", str name) ∷ ("input_schema", object []) ∷ ("defer_loading", bool true) ∷ [])

abbrev tools : List Json
tools =
    tool "mcp__leanctx__ctx_read"
    ∷ tool "b"
    ∷ tool "c"
    ∷ tool "d"
    ∷ tool "e"
    ∷ tool "f"
    ∷ tool "g"
    ∷ tool "h"
    ∷ tool "i"
    ∷ tool "j"
    ∷ tool "k"
    ∷ tool "l"
    ∷ []

abbrev deferred : List Json
deferred =
    tool "mcp__leanctx__ctx_read"
    ∷ late "b"
    ∷ late "c"
    ∷ late "d"
    ∷ late "e"
    ∷ late "f"
    ∷ late "g"
    ∷ late "h"
    ∷ late "i"
    ∷ late "j"
    ∷ late "k"
    ∷ late "l"
    ∷ search_tool
    ∷ []

abbrev fields : Fields
fields = from_entries (("model", str "x/claude-opus-5") ∷ ("tools", array tools) ∷ [])

abbrev changed : Json
changed = object (("model", str "x/claude-opus-5") ∷ ("tools", array deferred) ∷ [])

abbrev resident : List String
resident = "mcp__leanctx__ctx_read" ∷ []

transformed : transform_document resident (obj fields) ≡ some changed
unfolding transform_document transform_tools accepts preserve_cache_breakpoint defer is_source
    is_resident find_last is_verified_tool_search_model is_dict get is_str is_true is_dict_value has
    named_in is_tool_search is_deferred well_formed_tool eligible_client_tool set_key after_last
    has_code lookup insert has_key string_eq nat_eq
transformed = refl

transform_document-Kept_example :
    (xs : Items) × (ys : List Json) × (lookup "tools" (entries fields) ≡ some (arr xs))
    × (get "tools" changed ≡ some (array (ys ++ search_tool ∷ [])))
    × ((k : String) → k ≢ "tools" → get k changed ≡ lookup k (entries fields))
    × Pointwise (Kept resident) (items xs) ys
transform_document-Kept_example = transform_document-Kept resident fields changed transformed
