-- ===== src/Cooldowns.antt =====
-- integrations/common/route_proxy.py, `Cooldowns`: which models are left alone for a while. The
-- clock is the argument `now`, in any unit in which `seconds` is given too; a monotonic clock never
-- reads below 0, which is the default of `_until`.
pub mod Laws
use orichum.Base.{
  ℕ, ◌+◌, String, Bool, true, false, leb, if◌then◌else◌, Option, none, some, string_eq,
}
use orichum.Base.Dict.{Dict, lookup, insert, erase}

pub record Cooldowns : Type 0 where
  pub seconds : ℕ
  pub until : Dict String ℕ

unfoldable pub active : String → ℕ → Cooldowns → Bool × Cooldowns
active model now c =
    let until : ℕ = elim (lookup model c.until) [ none ↦ 0 | some t ↦ t ] in
    if leb until now then (false, record c { until = erase model c.until }) else (true, c)

unfoldable pub trip : String → ℕ → Cooldowns → Cooldowns
trip model now c = record c { until = insert model (now + c.seconds) c.until }

unfoldable pub clear : String → Cooldowns → Cooldowns
clear model c = record c { until = erase model c.until }
