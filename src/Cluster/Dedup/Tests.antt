-- ===== src/Cluster/Dedup/Tests.antt =====
-- The theorems about the cache of seen messages at concrete inputs.
use pulse_rtc.Prelude.{◌≡◌, refl, false, [], ◌∷◌, string_eq}
use pulse_rtc.Prelude.Map.{lookup}
use pulse_rtc.Cluster.Dedup.{DedupCache, mark_seen}

abbrev cache : DedupCache
cache = record { ttl = 10; seen = ("x", 4) ∷ [] }

expired : (mark_seen 5 "x" cache).0 ≡ false
unfolding mark_seen lookup
expired = refl
