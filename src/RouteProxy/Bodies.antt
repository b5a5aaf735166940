-- ===== src/RouteProxy/Bodies.antt =====
-- The request bodies: `_request_model`, `_strip_unsupported_prompt_cache_retention` and
-- `_replace_model`, over the `loads` and `dumps` of `json`.
use orichum.Base.{String, not, ◌||◌, Option, none, some, ◌==◌, string_eq, if◌then◌else◌}
use orichum.Base.Dict.{lookup, has_key, insert, erase}
use orichum.Base.Text.{after_last}
use orichum.Json.{Json, str, obj, entries, object}

-- What the code needs of the JSON library: a body is text.
pub record Codec : Type 0 where
  pub loads : String → Option Json
  pub dumps : Json → String

module _ (json : Codec) where
  unfoldable pub request_model : String → Option String
  request_model body = elim (json.loads body) [
    | some (obj fs) ↦ elim (lookup "model" (entries fs)) [ some (str m) ↦ some m | _ ↦ none ]
    | _ ↦ none
  ]

  unfoldable pub strip_unsupported : String → String
  strip_unsupported body = elim (json.loads body) [
    | some (obj fs) ↦ elim (lookup "model" (entries fs)) [
      | some (str m) ↦
          (if not (after_last b'/' m == "gpt-5.6-sol")
              || not (has_key "prompt_cache_retention" (entries fs))
            then body
            else json.dumps (object (erase "prompt_cache_retention" (entries fs))))
      | _ ↦ body
    ]
    | _ ↦ body
  ]

  -- `none` is a `RouteProxyError`.
  unfoldable pub replace_model : String → String → String → Option String
  replace_model body expected replacement = elim (json.loads body) [
    | some (obj fs) ↦ elim (lookup "model" (entries fs)) [
      | some (str m) ↦
          (if m == expected
            then some (json.dumps (object (insert "model" (str replacement) (entries fs))))
            else none)
      | _ ↦ none
    ]
    | _ ↦ none
  ]
