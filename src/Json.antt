-- ===== src/Json.antt =====
-- What `json.loads` returns, as the code tells values apart: `bool` is no `int` here, which is
-- how `type(value) is int` reads it. A float is kept as its literal.
use orichum.Base.{
  String, Bool, ℤ, List, [], ◌∷◌, none, some, ◌≡◌, refl, ap, string_eq, contains, all, ◌&&◌,
}
use orichum.Base.Dict.{Dict, keys, lookup}

mutual
  pub data Json : Type 0 where
    null : Json
    bool : Bool → Json
    int : ℤ → Json
    float : String → Json
    str : String → Json
    arr : Items → Json
    obj : Fields → Json

  pub data Items : Type 0 where
    nil : Items
    cons : Json → Items → Items

  pub data Fields : Type 0 where
    end : Fields
    field : String → Json → Fields → Fields

abbrev pub items : Items → List Json
items nil = []
items (cons x xs) = x ∷ items xs

abbrev pub from_items : List Json → Items
from_items [] = nil
from_items (x ∷ xs) = cons x (from_items xs)

abbrev pub entries : Fields → Dict String Json
entries end = []
entries (field k v fs) = (k, v) ∷ entries fs

abbrev pub from_entries : Dict String Json → Fields
from_entries [] = end
from_entries ((k, v) ∷ d) = field k v (from_entries d)

-- `list` and `dict` values built from the model's lists.
abbrev pub array : List Json → Json
array xs = arr (from_items xs)

abbrev pub object : Dict String Json → Json
object d = obj (from_entries d)

pub items-from_items : (xs : List Json) → items (from_items xs) ≡ xs
items-from_items [] = refl
items-from_items (x ∷ xs) = ap (λ t. x ∷ t) (items-from_items xs)

pub entries-from_entries : (d : Dict String Json) → entries (from_entries d) ≡ d
entries-from_entries [] = refl
entries-from_entries ((k, v) ∷ d) = ap (λ t. (k, v) ∷ t) (entries-from_entries d)

-- `set(value) == {…}`
unfoldable pub has_exactly : List String → Dict String Json → Bool
has_exactly names d = all (λ k. contains (keys d) k) names && all (λ k. contains names k) (keys d)

-- `value[k]`, where the key is known to be there.
unfoldable pub item : String → Dict String Json → Json
unfolding lookup
item k d = elim (lookup k d) [ none ↦ null | some v ↦ v ]
