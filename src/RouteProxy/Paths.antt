-- ===== src/RouteProxy/Paths.antt =====
-- `_upstream_path`: the Claudex profile's prefix is taken off the request's path.
use orichum.Base.{
  ℕ, String, false, Option, none, some, ◌≡◌, ◌≢◌, refl, ap, ◌∙◌, ◌==◌, string_eq, nat_eq,
  if◌then◌else◌, arith,
}
use orichum.Base.Text.{◌<>◌, strip_prefix, strip_prefix-append, has_code, append-nil, size}
use Prim.Native.Char.{code}

-- `s.partition(c)`: what stands before the first `c`, and what stands after it, if it is there.
unfoldable pub partition : ℕ → String → String × Option String
partition m String.[] = (String.[], none)
partition m (String.◌∷◌ c s) =
    let (before, after) = partition m s in
    if code c == m then (String.[], some s) else (String.◌∷◌ c before, after)

-- The normalised path, or `none` for a profile that is not the proxy's own.
unfoldable pub normalized : String → Option String
normalized path =
    if path == "/proxy/gpt" then some "/" else elim (strip_prefix "/proxy/gpt/" path) [
      | some rest ↦ some ("/" <> rest)
      | none ↦ elim (strip_prefix "/proxy/" path) [ some rest ↦ none | none ↦ some path ]
    ]

unfoldable pub upstream_path : String → Option String
upstream_path path =
    let (route_path, query) = partition b'?' path in
    elim (normalized route_path) [
      | none ↦ none
      | some p ↦ some (p <> elim query [ none ↦ "" | some q ↦ "?" <> q ])
    ]

partition-append :
    (m : ℕ) (p q : String)
    → has_code m p ≡ false
    → partition m (p <> q) ≡ (p <> (partition m q).0, (partition m q).1)
unfolding partition has_code ◌<>◌
partition-append m String.[] q h = refl
partition-append m (String.◌∷◌ c p) q h = ground (arith, partition-append m p q)

partition-none : (m : ℕ) (p : String) → has_code m p ≡ false → partition m p ≡ (p, none)
unfolding partition has_code
partition-none m String.[] h = refl
partition-none m (String.◌∷◌ c p) h = ground (arith, partition-none m p)

partition-query : (q : String) → partition b'?' ("?" <> q) ≡ ("", some q)
unfolding partition ◌<>◌ nat_eq
partition-query q = refl

with_query : (p q : String) → has_code b'?' p ≡ false → partition b'?' (p <> "?" <> q) ≡ (p, some q)
with_query p q h =
    partition-append b'?' p ("?" <> q) h
    ∙ rw (partition-query q) (ap (λ t. (t, some q)) (append-nil p))

upstream_path-query :
    (p q : String)
    → has_code b'?' p ≡ false
    → upstream_path (p <> "?" <> q)
      ≡ elim (normalized p) [ none ↦ none | some t ↦ some (t <> "?" <> q) ]
unfolding upstream_path
upstream_path-query p q h = ground (arith, with_query p q h)

prefix_free : (p : String) → has_code b'?' p ≡ false → has_code b'?' ("/proxy/gpt/" <> p) ≡ false
unfolding has_code ◌<>◌ nat_eq
prefix_free p h = h

longer : (t : String) → ("/proxy/gpt/" <> t) ≢ "/proxy/gpt"
unfolding ◌<>◌ size
longer t e = omega (arith, ap size e)

normalized-own : (p : String) → normalized ("/proxy/gpt/" <> p) ≡ some ("/" <> p)
unfolding normalized
normalized-own p = ground (arith, strip_prefix-append "/proxy/gpt/" p, longer p)

-- A request to the profile's own prefix, with a query, goes upstream without the prefix, and keeps
-- its query.
pub upstream_path-own :
    (p q : String)
    → has_code b'?' p ≡ false
    → upstream_path (("/proxy/gpt/" <> p) <> "?" <> q) ≡ some (("/" <> p) <> "?" <> q)
upstream_path-own p q h =
    upstream_path-query ("/proxy/gpt/" <> p) q (prefix_free p h) ∙ rw (normalized-own p)

-- With a query, another path under `/proxy/` is refused, and any path outside it goes upstream as
-- it is.
pub upstream_path-other :
    (p q : String)
    → has_code b'?' p ≡ false
    → p ≢ "/proxy/gpt"
    → strip_prefix "/proxy/gpt/" p ≡ none
    → upstream_path (p <> "?" <> q)
      ≡ elim (strip_prefix "/proxy/" p) [ none ↦ some (p <> "?" <> q) | some rest ↦ none ]
upstream_path-other p q h n m = upstream_path-query p q h ∙ (unfold normalized in ground (arith, m))
