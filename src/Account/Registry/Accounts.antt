-- ===== src/Account/Registry/Accounts.antt =====
-- `find_account` and `new_account`.
use orichum.Base.{
  ℕ, zero, suc, ◌+◌, String, Bool, true, false, not, ◌&&◌, ◌≡◌, inl, inr, refl, sym, ap, ◌∙◌, List,
  [], ◌∷◌, map, arith, string_eq, option_eq, nat_eq, contains, In, select, In-select, select-In,
  Bool-cases, List-cases, ◌↔◌,
}
use orichum.Base.Result.{ok}
use orichum.Base.Text.{◌<>◌, strip}
use orichum.Account.{Account, as_json, parse_account}
use orichum.Account.Valid.{IsValid, parse_account-IsValid, parse_account-SameBut}
use orichum.Account.Registry.{
  distinct, matches_selector, find_account, Request, request_json, attempt, new_account,
}
use orichum.Account.Registry.Laws.{IsRegistry}

contains-select :
    (p : Account → Bool) (k : String) (xs : List Account)
    → contains (map (λ a. a.id) xs) k ≡ false
    → contains (map (λ a. a.id) (select p xs)) k ≡ false
contains-select p k [] h = refl
contains-select p k (x ∷ xs) h = ground (arith, contains-select p k xs)

distinct-select :
    (p : Account → Bool) (xs : List Account)
    → distinct (map (λ a. a.id) xs) ≡ true
    → distinct (map (λ a. a.id) (select p xs)) ≡ true
unfolding distinct
distinct-select p [] h = refl
distinct-select p (x ∷ xs) h = ground (arith, distinct-select p xs, contains-select p x.id xs)

distinct_two :
    (b c : Account) (l : List Account)
    → distinct (map (λ a. a.id) (b ∷ c ∷ l)) ≡ true
    → ¬ (b.id ≡ c.id)
unfolding distinct
distinct_two b c l h q = ground arith

abbrev Only : List Account → String → Account → Type 0
Only xs s a =
    In a xs
    × (matches_selector s a ≡ true)
    × ((b : Account) → In b xs → matches_selector s b ≡ true → b ≡ a)

find_account-Only :
    (xs : List Account) (s : String) (a : Account) → find_account xs s ≡ ok a → Only xs s a
unfolding find_account
find_account-Only xs s a h = elim (List-cases (select (matches_selector s) xs)) [
  | inl e ↦ ground (arith, e)
  | inr (inl (b, e)) ↦
      let same : b ≡ a = ground (arith, e) in
      let (stands, fits) = In-select (matches_selector s) b xs (rw e (inl refl)) in
      (
        rw (← same) stands,
        rw (← same) fits,
        λ c m t. only c (rw e at (select-In (matches_selector s) c xs m t)) ∙ same,
      )
  | inr (inr (b, c, l, e)) ↦ ground (arith, e)
]
  where
    only : {b : Account} (c : Account) → In c (b ∷ []) → c ≡ b
    only c (inl q) = q
    only c (inr x) = elim x [ ]

find_account_of-Only :
    (xs : List Account) (s : String) (a : Account)
    → IsRegistry xs
    → Only xs s a
    → find_account xs s ≡ ok a
unfolding find_account
find_account_of-Only xs s a r (stands, fits, alone) =
    elim (List-cases (select (matches_selector s) xs)) [
      | inl e ↦ absurd (rw e at (select-In (matches_selector s) a xs stands fits))
      | inr (inl (b, e)) ↦
          let (m, t) = In-select (matches_selector s) b xs (rw e (inl refl)) in
          ground (arith, e, alone b m t)
      | inr (inr (b, c, l, e)) ↦
          let (m, t) = In-select (matches_selector s) b xs (rw e (inl refl)) in
          let (n, u) = In-select (matches_selector s) c xs (rw e (inr (inl refl))) in
          absurd (
            distinct_two b c l (rw e at (distinct-select (matches_selector s) xs r.ids))
              (ap (λ d. d.id) (alone b m t ∙ sym (alone c n u))))
    ]

-- In a registry, a selector finds an account exactly when that account, and no other, has it as its
-- ID or as its name.
pub find_account_iff :
    (xs : List Account) (s : String) (a : Account)
    → IsRegistry xs
    → (find_account xs s ≡ ok a) ↔ (
        In a xs
        × (matches_selector s a ≡ true)
        × ((b : Account) → In b xs → matches_selector s b ≡ true → b ≡ a))
find_account_iff xs s a r = (find_account-Only xs s a, find_account_of-Only xs s a r)

module _ (tokens : ℕ → String) (request : Request) (existing : List Account) where
  -- The account that the attempt from the `i`-th token on would make.
  pub record IsFresh (a : Account) : Type 0 where
    pub valid : IsValid a
    pub id_fresh : contains (map (λ b. b.id) existing) a.id ≡ false
    pub prefix_fresh : contains (map (λ b. b.routing_prefix) existing) a.routing_prefix ≡ false
    pub name : a.name ≡ strip request.name
    pub provider : a.provider ≡ request.provider
    pub pool : a.pool ≡ request.pool
    pub priority : a.priority ≡ request.priority
    pub credential_ref : a.credential_ref ≡ request.credential_ref
    pub state : a.state ≡ request.state
    pub original_prefix : a.original_prefix ≡ request.original_prefix
    pub original_priority : a.original_priority ≡ request.original_priority

  attempt-IsFresh :
      (left i : ℕ) (a : Account) → attempt tokens request existing left i ≡ ok a → IsFresh a
  unfolding attempt as_json request_json
  attempt-IsFresh zero i a h = ground arith
  attempt-IsFresh (suc left) i a h = elim (Bool-cases free) [
    | inl e ↦
        let made : parse_account (request_json request identifier prefix) ≡ ok a = rw e at h in
        let same = parse_account-SameBut _ a made in
        record {
          valid = parse_account-IsValid _ a made;
          id_fresh = ground (arith, e, same.id);
          prefix_fresh = ground (arith, e, same.routing_prefix);
          name = same.name;
          provider = same.provider;
          pool = same.pool;
          priority = same.priority;
          credential_ref = same.credential_ref;
          state = same.state;
          original_prefix = same.original_prefix;
          original_priority = same.original_priority;
        }
    | inr e ↦ attempt-IsFresh left (i + 2) a (rw e at h)
  ]
    where
      identifier : String
      identifier = "oc-a-" <> tokens i

      prefix : String
      prefix = "oc-r-" <> tokens (i + 1)

      free : Bool
      free =
          not (contains (map (λ b. b.id) existing) identifier)
          && not (contains (map (λ b. b.routing_prefix) existing) prefix)

  -- The account made is valid, no existing account has its ID or its routing prefix, and all else is
  -- as requested: provider, credential reference, pool, priority, state and the original prefix and
  -- priority are the request's, and the name is the request's without the white space round it.
  pub new_account-IsFresh : (a : Account) → new_account tokens request existing ≡ ok a → IsFresh a
  unfolding new_account
  new_account-IsFresh a h = attempt-IsFresh 32 0 a h
