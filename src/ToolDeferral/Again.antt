-- ===== src/ToolDeferral/Again.antt =====
-- A request is transformed once: what was transformed is passed on as it is.
use orichum.Base.{
  String, Bool, true, false, ◌||◌, none, some, List, [], ◌∷◌, ◌++◌, ◌≡◌, refl, ◌∙◌, string_eq, any,
  arith,
}
use orichum.Base.Dict.{Dict, lookup, insert, lookup-insert}
use orichum.Json.{
  Json, null, obj, entries, items, array, object, entries-from_entries, items-from_items,
}
use orichum.ToolDeferral.{
  accepts, transform_document, search_tool, is_tool_search, is_deferred, get,
}
use orichum.ToolDeferral.Shape.{transform_document-Made, transform_tools-Kept}

search_tool-found : is_tool_search search_tool ≡ true
unfolding is_tool_search get lookup string_eq
search_tool-found = refl

any-append :
    (p : Json → Bool) (xs : List Json) (x : Json) → p x ≡ true → any p (xs ++ x ∷ []) ≡ true
any-append p [] x h = ground arith
any-append p (y ∷ xs) x h = ground (arith, any-append p xs x h)

not-accepts :
    (document : Dict String Json) (ys : List Json)
    → accepts document (ys ++ search_tool ∷ []) ≡ false
unfolding accepts
not-accepts document ys = ground (
  arith,
  any-append (λ t. is_tool_search t || is_deferred t) ys search_tool
      (ground (arith, search_tool-found)),
)

passed :
    (names : List String) (d : Dict String Json) (ys : List Json)
    → lookup "tools" d ≡ some (array (ys ++ search_tool ∷ []))
    → transform_document names (object d) ≡ none
unfolding transform_document
passed names d ys e =
    ground (
      arith,
      entries-from_entries d,
      e,
      items-from_items (ys ++ search_tool ∷ []),
      not-accepts d ys,
    )

-- A transformed request is not transformed again, whatever the profile of the second pass.
pub transform_document-again :
    (resident other : List String) (document new : Json)
    → transform_document resident document ≡ some new
    → transform_document other new ≡ none
unfolding transform_document
transform_document-again resident other (obj fs) new h =
    let made = transform_document-Made resident fs new h in
    let (ys, shape, kept) = transform_tools-Kept resident (items made.xs) made.tools made.steps in
    let document = insert "tools" (array (ys ++ search_tool ∷ [])) (entries fs) in
    let built : new ≡ object document = made.result ∙ rw shape refl in
    rw built
      (passed other document ys (lookup-insert "tools" "tools" _ (entries fs) ∙ ground arith))
transform_document-again resident other null new h = ground arith
transform_document-again resident other document new h = ground arith
