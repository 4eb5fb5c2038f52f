-- ===== src/Cluster/Dedup.antt =====
-- internal/cluster/noderpc_dedup.go: which messages were seen before.
pub mod Window
mod Tests
use pulse_rtc.Prelude.{
  ℕ, zero, suc, ◌+◌, ◌-◌, ◌*◌, ◌≤◌, ◌<◌, ◌≡◌, ◌≢◌, ◌↔◌, ◌⊎◌, inl, inr, refl, sym, ap, ◌∙◌, Bool,
  true, false, ◌&&◌, ◌||◌, not, Option, none, some, List, [], ◌∷◌, ◌++◌, map, String, arith, ltb,
  leb, ◌==◌, if◌then◌else◌, Bool-cases, Option-cases, length, length-append, take, drop, Eq, ◌=?◌,
  string_eq, All, All-append, is_some,
}
use pulse_rtc.Prelude.Map.{
  Map, lookup, insert, delete, lookup-insert, lookup-delete, Distinct, insert-Distinct,
  delete-Distinct, beq_self, lookup-insert_self, lookup-delete_self, map_laws, length-delete-le,
}
use pulse_rtc.Cluster.Node.{Time, seconds}

-- `seen` has the time at which an id expires.
pub record DedupCache : Type 0 where
  pub ttl : ℕ
  pub seen : Map String Time

unfoldable pub new_dedup_cache : ℕ → DedupCache
new_dedup_cache ttl = record { ttl = if ttl == 0 then seconds 30 else ttl; seen = [] }

-- `ok && now.Before(exp)`.
abbrev pub live : Time → Option Time → Bool
live now none = false
live now (some exp) = ltb now exp

unfoldable pub mark_seen : Time → String → DedupCache → Bool × DedupCache
mark_seen now id d =
    if live now (lookup id d.seen)
    then (true, d)
    else (false, record d { seen = insert id (now + d.ttl) d.seen })

sweep_seen : Time → Map String Time → Map String Time
sweep_seen now [] = []
sweep_seen now ((id, exp) ∷ m) =
    let rest = sweep_seen now m in if ltb exp now then rest else (id, exp) ∷ rest

unfoldable pub sweep : Time → DedupCache → DedupCache
unfolding sweep_seen
sweep now d = record d { seen = sweep_seen now d.seen }
