-- ===== src/ModelRouting/Roles.antt =====
-- Dictionaries with an entry for each of the six roles.
use orichum.Base.{
  String, true, false, none, some, List, [], ◌∷◌, map, ◌≡◌, refl, sym, ap, ◌∙◌, ◌==◌, contains,
  string_eq, nat_eq, arith, All,
}
use orichum.Base.Dict.{Dict, lookup, keys}
use orichum.Account.Registry.{distinct}
use orichum.ModelRouting.{roles}

module _ {V : Type 0} (missing : V) where
  -- `d[k]`, for a key that is there.
  abbrev pub value_of : Dict String V → String → V
  value_of d k = elim (lookup k d) [ none ↦ missing | some v ↦ v ]

  abbrev pub tabulate : Dict String V → List String → Dict String V
  tabulate d rs = map (λ r. (r, value_of d r)) rs

  found-cons :
      (k : String) (v : V) (d e : Dict String V)
      → contains (keys e) k ≡ false
      → All (λ x. lookup x.0 d ≡ some x.1) e
      → All (λ x. lookup x.0 ((k, v) ∷ d) ≡ some x.1) e
  unfolding lookup
  found-cons k v d [] n h = tt
  found-cons k v d ((j, w) ∷ e) n h = (
    let apart : (j == k) ≡ false = ground arith in rw apart h.0,
    found-cons k v d e (ground arith) h.1,
  )

  found : (d : Dict String V) → distinct (keys d) ≡ true → All (λ x. lookup x.0 d ≡ some x.1) d
  unfolding lookup distinct
  found [] h = tt
  found ((k, v) ∷ d) h = (ground arith, found-cons k v d d (ground arith) (found d (ground arith)))

  tabulate_go :
      (d e : Dict String V) → All (λ x. lookup x.0 e ≡ some x.1) d → d ≡ tabulate e (keys d)
  tabulate_go [] e h = refl
  tabulate_go ((k, v) ∷ d) e h = ground (arith, h.0, tabulate_go d e h.1)

  roles-distinct : distinct roles ≡ true
  unfolding distinct string_eq
  roles-distinct = refl

  pub tabulate-roles : (d : Dict String V) → keys d ≡ roles → tabulate d roles ≡ d
  tabulate-roles d h =
      sym (tabulate_go d d (found d (ap distinct h ∙ roles-distinct)) ∙ ap (tabulate d) h)
