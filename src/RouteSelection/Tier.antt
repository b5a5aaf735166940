-- ===== src/RouteSelection/Tier.antt =====
-- The highest priority of a list of routes, and the routes that have it.
use orichum.Base.{
  ◌≤◌, ◌<◌, List, [], ◌∷◌, ◌≡◌, inl, inr, refl, leb, ◌==◌, string_eq, nat_eq, In, In-select,
  select-In, Bool-cases, arith, length, In-get_elem?,
}
use orichum.RouteSelection.{Route, max_priority, top_tier}

pub max_priority-max : (r : Route) (rs : List Route) → In r rs → r.priority ≤ max_priority rs
unfolding max_priority
max_priority-max r [] h = elim h [ ]
max_priority-max r (s ∷ rs) (inl e) = ground (arith, e)
max_priority-max r (s ∷ rs) (inr h) = ground (arith, max_priority-max r rs h)

-- Some route has the highest priority.
pub max_priority-In :
    (s : Route) (rs : List Route)
    → (r : Route) × In r (s ∷ rs) × (r.priority ≡ max_priority (s ∷ rs))
unfolding max_priority
max_priority-In s [] = (s, inl refl, ground arith)
max_priority-In s (t ∷ rs) =
    let (r, m, e) = max_priority-In t rs in
    elim (Bool-cases (leb (max_priority (t ∷ rs)) s.priority)) [
      | inl le ↦ (s, inl refl, ground (arith, le))
      | inr gt ↦ (r, inr m, ground (arith, gt, e))
    ]

pub top_tier-In :
    (r : Route) (rs : List Route)
    → In r (top_tier rs)
    → In r rs × ((s : Route) → In s rs → s.priority ≤ r.priority)
unfolding top_tier
top_tier-In r rs h =
    let (m, t) = In-select (λ s. s.priority == max_priority rs) r rs h in
    (m, λ s n. ground (arith, max_priority-max s rs n))

pub In-top_tier :
    (r : Route) (rs : List Route)
    → In r rs
    → ((s : Route) → In s rs → s.priority ≤ r.priority)
    → In r (top_tier rs)
unfolding top_tier
In-top_tier r [] m top = elim m [ ]
In-top_tier r (s ∷ rs) m top =
    let (b, stands, e) = max_priority-In s rs in
    select-In (λ c. c.priority == max_priority (s ∷ rs)) r (s ∷ rs) m
      (ground (arith, top b stands, max_priority-max r (s ∷ rs) m))

pub tier_pos : (s : Route) (rs : List Route) → 0 < length (top_tier (s ∷ rs))
tier_pos s rs =
    let (r, m, e) = max_priority-In s rs in
    let (i, lt, g) =
      In-get_elem? r (top_tier (s ∷ rs))
        (In-top_tier r (s ∷ rs) m (λ t n. ground (arith, e, max_priority-max t (s ∷ rs) n))) in
    omega arith
