-- ===== src/ToolDeferral.antt =====
-- integrations/common/tool_deferral.py with leanctx_profiles.py: a request's tools that the profile
-- does not keep resident are marked for deferred loading. `loads` and `dumps` are those of `json`;
-- what they do is not modelled, and no law of theirs is used where none is stated.
pub mod Shape
pub mod Again
use orichum.Base.{
  ℕ, String, Bool, true, false, not, ◌&&◌, ◌||◌, Option, none, some, List, [], ◌∷◌, ◌++◌, map, ltb,
  leb, ◌==◌, string_eq, contains, length, select, all, any, if◌then◌else◌,
}
use orichum.Base.Dict.{Dict, lookup, has_key, insert, erase}
use orichum.Base.Text.{after_last}
use orichum.Json.{Json, null, bool, str, arr, obj, entries, items, from_entries, array, object}

abbrev pub lean_resident_names : List String
lean_resident_names =
    "mcp__leanctx__ctx_read" ∷ "mcp__leanctx__ctx_search" ∷ "mcp__leanctx__ctx_tree"
    ∷ "mcp__leanctx__ctx_shell" ∷ []

abbrev pub full_resident_names : List String
full_resident_names =
    lean_resident_names
    ++ "mcp__leanctx__ctx_graph" ∷ "mcp__leanctx__ctx_impact" ∷ "mcp__leanctx__ctx_callgraph"
      ∷ "mcp__leanctx__ctx_patch" ∷ "mcp__leanctx__ctx_expand" ∷ []

abbrev pub all_leanctx_names : List String
all_leanctx_names =
    full_resident_names ++ "mcp__leanctx__ctx_knowledge" ∷ "mcp__leanctx__ctx_overview" ∷ []

-- `none` is the `ValueError` for a profile that is neither.
unfoldable pub resident_tool_names : String → Option (List String)
resident_tool_names profile =
    if profile == "lean"
    then some lean_resident_names
    else if profile == "full"
    then some full_resident_names
    else none

abbrev pub verified_models : List String
verified_models =
    "gpt-5.6-sol" ∷ "gpt-5.6-terra" ∷ "claude-sonnet-5" ∷ "claude-opus-4-8" ∷ "claude-opus-5"
    ∷ "claude-opus-4-6-thinking" ∷ []

abbrev pub search_tool : Json
search_tool =
    object (
      ("type", str "tool_search_tool_regex_20251119") ∷ ("name", str "tool_search_tool_regex") ∷ [])

unfoldable pub is_verified_tool_search_model : Option Json → Bool
is_verified_tool_search_model (some (str s)) = contains verified_models (after_last b'/' s)
is_verified_tool_search_model _ = false

unfoldable pub is_dict : Json → Bool
is_dict (obj fs) = true
is_dict _ = false

-- `tool.get(k)` on a dict; another value has no entries.
unfoldable pub get : String → Json → Option Json
get k (obj fs) = lookup k (entries fs)
get k _ = none

unfoldable pub is_str : Option Json → Bool
is_str (some (str s)) = true
is_str _ = false

unfoldable pub is_true : Option Json → Bool
is_true (some (bool true)) = true
is_true _ = false

unfoldable pub is_dict_value : Option Json → Bool
is_dict_value (some (obj fs)) = true
is_dict_value _ = false

unfoldable pub has : String → Json → Bool
has k t = elim (get k t) [ none ↦ false | some v ↦ true ]

-- `tool.get("name") in names`
unfoldable pub named_in : List String → Json → Bool
named_in names t = elim (get "name" t) [ some (str s) ↦ contains names s | _ ↦ false ]

unfoldable pub is_tool_search : Json → Bool
is_tool_search t = elim (get "type" t) [
  | some (str s) ↦ s == "tool_search_tool_regex_20251119"
  | _ ↦ false
]

unfoldable pub is_deferred : Json → Bool
is_deferred t = is_true (get "defer_loading" t)

unfoldable pub well_formed_tool : Json → Bool
well_formed_tool t =
    is_dict t
    && is_str (get "name" t)
    && (if has "type" t
        then is_str (get "type" t)
          && (not (has "input_schema" t) || is_dict_value (get "input_schema" t))
        else is_dict_value (get "input_schema" t))

unfoldable pub eligible_client_tool : Json → Bool
eligible_client_tool t =
    is_dict t
    && is_str (get "name" t)
    && is_dict_value (get "input_schema" t)
    && not (is_str (get "type" t))

unfoldable pub set_key : String → Json → Json → Json
set_key k v (obj fs) = object (insert k v (entries fs))
set_key k v t = t

unfoldable pub pop_key : String → Json → Json
pop_key k (obj fs) = object (erase k (entries fs))
pop_key k t = t

-- One turn of the loop over the tools.
unfoldable pub defer : List String → Json → Json
defer resident t =
    if eligible_client_tool t && not (named_in resident t)
    then set_key "defer_loading" (bool true) t
    else t

unfoldable pub is_source : Json → Bool
is_source t = is_deferred t && has "cache_control" t

unfoldable pub is_resident : List String → Json → Bool
is_resident resident t = eligible_client_tool t && named_in resident t

-- The last item that passes the test, and the list with `f` applied to it.
unfoldable pub find_last : (Json → Bool) → List Json → Option Json
find_last p [] = none
find_last p (x ∷ xs) = elim (find_last p xs) [
  | some y ↦ some y
  | none ↦ (if p x then some x else none)
]

unfoldable pub change_last : (Json → Bool) → (Json → Json) → List Json → List Json
change_last p f [] = []
change_last p f (x ∷ xs) =
    let rest = change_last p f xs in
    elim (find_last p xs) [ some y ↦ x ∷ rest | none ↦ (if p x then f x ∷ xs else x ∷ xs) ]

-- `resident["cache_control"] = sources[0].pop("cache_control")`, on the copies of the tools: the
-- only source is changed, and the last resident tool.
unfoldable pub move_breakpoint : List String → Json → List Json → List Json
move_breakpoint resident value tools =
    change_last (is_resident resident) (set_key "cache_control" value)
      (map (λ t. if is_source t then pop_key "cache_control" t else t) tools)

-- `none` where the function returns False; the list as it leaves it otherwise.
unfoldable pub preserve_cache_breakpoint : List String → List Json → Option (List Json)
preserve_cache_breakpoint resident tools =
    if any (λ t. has "cache_control" t && not (is_dict_value (get "cache_control" t))) tools
    then none
    else elim (select is_source tools) [
      | [] ↦ some tools
      | source ∷ [] ↦ elim (find_last (is_resident resident) tools) [
        | none ↦ none
        | some r ↦ elim (get "cache_control" source) [
          | none ↦ none
          | some value ↦
              (if has "cache_control" r then none else some (move_breakpoint resident value tools))
        ]
      ]
      | a ∷ b ∷ more ↦ none
    ]

-- The tests before the loop.
unfoldable pub accepts : Dict String Json → List Json → Bool
accepts document tools =
    is_verified_tool_search_model (lookup "model" document)
    && leb 12 (length tools)
    && all well_formed_tool tools
    && not (any (λ t. is_tool_search t || is_deferred t) tools)
    && any (λ t. named_in all_leanctx_names t) tools

unfoldable pub transform_tools : List String → List Json → Option (List Json)
transform_tools resident tools =
    let deferred = map (defer resident) tools in
    if any is_deferred deferred
    then elim (preserve_cache_breakpoint resident deferred) [
      | none ↦ none
      | some kept ↦ some (kept ++ search_tool ∷ [])
    ]
    else none

-- The new document, or `none` where the request is passed on as it came.
unfoldable pub transform_document : List String → Json → Option Json
transform_document resident (obj fs) = elim (lookup "tools" (entries fs)) [
  | some (arr xs) ↦
      (if accepts (entries fs) (items xs)
        then elim (transform_tools resident (items xs)) [
          | none ↦ none
          | some tools ↦ some (object (insert "tools" (array tools) (entries fs)))
        ]
        else none)
  | _ ↦ none
]
transform_document resident _ = none

pub record TransformResult : Type 0 where
  pub body : String
  pub transformed : Bool

module _ (loads : String → Option Json) (dumps : Json → String) where
  unfoldable pub transform_request : String → List String → TransformResult
  transform_request body resident = elim (loads body) [
    | none ↦ record { body = body; transformed = false }
    | some document ↦ elim (transform_document resident document) [
      | none ↦ record { body = body; transformed = false }
      | some changed ↦ record { body = dumps changed; transformed = true }
    ]
  ]
