-- ===== src/Cluster/Handler/Delivery.antt =====
-- internal/cluster/noderpc_handler.go: how often a request id is acted on.
use pulse_rtc.Prelude.{
  ℕ, ◌+◌, ◌≤◌, ◌<◌, ◌≡◌, ◌≢◌, ◌⊎◌, inl, inr, refl, Bool, true, false, Option, none, some, List, [],
  ◌∷◌, ◌++◌, String, arith, leb, if◌then◌else◌, ◌=?◌, string_eq, All,
}
use pulse_rtc.Prelude.Map.{lookup, insert, lookup-insert}
use pulse_rtc.Cluster.Node.{Time, Error}
use pulse_rtc.Cluster.Dedup.{DedupCache, live, mark_seen}
use pulse_rtc.Cluster.Handler.{
  ClusterMessage, LocalDelivery, HandlerConfig, Call, to_participant, to_room, to_media, to_local,
  to_media_bridge, handle,
}

-- The message that a call is about.
abbrev pub message_of : Call → ClusterMessage
message_of (to_participant m) = m
message_of (to_room m) = m
message_of (to_media m) = m

-- No call, or one that is about the message.
abbrev pub OneCallAtMost : ClusterMessage → List Call → Type 0
OneCallAtMost m [] = Unit
OneCallAtMost m (c ∷ []) = message_of c ≡ m
OneCallAtMost m (c ∷ c' ∷ cs) = ⊥

to_local_one :
    (delivery : Option LocalDelivery) (m : ClusterMessage) → OneCallAtMost m (to_local delivery m).1
unfolding to_local
to_local_one none m = tt
to_local_one (some d) m = ground arith

to_media_one :
    (media : Option (ClusterMessage → Option Error)) (m : ClusterMessage)
    → OneCallAtMost m (to_media_bridge media m).1
unfolding to_media_bridge
to_media_one none m = tt
to_media_one (some media) m = refl

-- The number of calls for a request id.
pub calls_for : String → List Call → ℕ
calls_for id [] = 0
calls_for id (c ∷ cs) =
    if (message_of c).request_id =? id then calls_for id cs + 1 else calls_for id cs

-- Messages that arrive one after the other, with the times of their arrival.
unfoldable pub handle_all :
    HandlerConfig → List (Time × ClusterMessage) → DedupCache → List Call × DedupCache
handle_all h [] d = ([], d)
handle_all h ((now, m) ∷ ms) d =
    let (x, d') = handle now h m d in let (rest, d'') = handle_all h ms d' in (x.1 ++ rest, d'')

calls_for-append :
    (id : String) (xs ys : List Call) → calls_for id (xs ++ ys) ≡ calls_for id xs + calls_for id ys
unfolding calls_for
calls_for-append id [] ys = omega arith
calls_for-append id (x ∷ xs) ys = ground (arith, calls_for-append id xs ys)

calls_for_one :
    (id : String) (m : ClusterMessage) (cs : List Call)
    → OneCallAtMost m cs
    → (calls_for id cs ≤ 1) × (m.request_id ≢ id → calls_for id cs ≡ 0)
unfolding calls_for
calls_for_one id m [] h = (omega arith, λ _. refl)
calls_for_one id m (c ∷ []) h =
    (ground arith, λ ne. ground (arith, string_eq.beq_iff (message_of c).request_id id))
calls_for_one id m (c ∷ c' ∷ cs) h = absurd h

-- The id is remembered until the time.
abbrev kept_until : Time → Option Time → Bool
kept_until t none = false
kept_until t (some exp) = leb t exp

abbrev remembered : String → Time → DedupCache → Bool
remembered id t d = kept_until t (lookup id d.seen)

handle_cases :
    (now : Time) (h : HandlerConfig) (m : ClusterMessage) (d : DedupCache)
    → (((handle now h m d).0.1 ≡ []) × ((handle now h m d).1 ≡ d))
      ⊎ ((live now (lookup m.request_id d.seen) ≡ false)
          × ((handle now h m d).1 ≡ record d { seen = insert m.request_id (now + d.ttl) d.seen })
          × OneCallAtMost m (handle now h m d).0.1)
unfolding handle mark_seen
handle_cases now h m d = ground (arith, to_local_one h.delivery m, to_media_one h.media m)

-- The calls for an id by one message, and whether the id is remembered afterwards.
handle_id :
    (id : String) (t now ttl : ℕ) (h : HandlerConfig) (m : ClusterMessage) (d : DedupCache)
    → t ≤ now
    → now < t + ttl
    → d.ttl ≡ ttl
    → (remembered id (t + ttl) d ≡ true
        → (calls_for id (handle now h m d).0.1 ≡ 0)
          × (remembered id (t + ttl) (handle now h m d).1 ≡ true))
      × ((handle now h m d).1.ttl ≡ ttl)
      × ((calls_for id (handle now h m d).0.1 ≡ 0)
          ⊎ ((calls_for id (handle now h m d).0.1 ≡ 1)
              × (remembered id (t + ttl) (handle now h m d).1 ≡ true)))
unfolding calls_for
handle_id id t now ttl h m d lo hi same = elim (handle_cases now h m d) [
  | inl (none_made, kept) ↦ rw (none_made, kept) (λ k. (refl, k), same, inl refl)
  | inr (fresh, stored, one) ↦
      let few = calls_for_one id m (handle now h m d).0.1 one in
      rw stored (
        ground (
          arith,
          few,
          string_eq.beq_iff m.request_id id,
          lookup-insert m.request_id id (now + d.ttl) d.seen,
        ))
]

-- The messages arrive within one lifetime of an id.
abbrev pub Within : ℕ → ℕ → List (Time × ClusterMessage) → Type 0
Within t ttl = All (λ e. (t ≤ e.0) × (e.0 < t + ttl))

no_more_calls :
    (id : String) (t ttl : ℕ) (h : HandlerConfig) (ms : List (Time × ClusterMessage))
    (d : DedupCache)
    → Within t ttl ms
    → d.ttl ≡ ttl
    → remembered id (t + ttl) d ≡ true
    → calls_for id (handle_all h ms d).0 ≡ 0
unfolding handle_all calls_for
no_more_calls id t ttl h [] d w same k = refl
no_more_calls id t ttl h ((now, m) ∷ ms) d w same k =
    let (quiet, same', _) = handle_id id t now ttl h m d w.0.0 w.0.1 same in
    let (zero_now, k') = quiet k in
    let rest = no_more_calls id t ttl h ms (handle now h m d).1 w.1 same' k' in
    omega (
      arith,
      calls_for-append id (handle now h m d).0.1 (handle_all h ms (handle now h m d).1).0,
      zero_now,
      rest,
    )

at_most_one :
    (id : String) (t ttl : ℕ) (h : HandlerConfig) (ms : List (Time × ClusterMessage))
    (d : DedupCache)
    → Within t ttl ms
    → d.ttl ≡ ttl
    → calls_for id (handle_all h ms d).0 ≤ 1
unfolding handle_all calls_for
at_most_one id t ttl h [] d w same = omega arith
at_most_one id t ttl h ((now, m) ∷ ms) d w same =
    let (_, same', now_or_never) = handle_id id t now ttl h m d w.0.0 w.0.1 same in
    let later = (handle now h m d).1 in
    let split = calls_for-append id (handle now h m d).0.1 (handle_all h ms later).0 in
    elim now_or_never [
      | inl zero_now ↦ omega (arith, split, zero_now, at_most_one id t ttl h ms later w.1 same')
      | inr (one_now, k) ↦
          omega (arith, split, one_now, no_more_calls id t ttl h ms later w.1 same' k)
    ]

-- Of all messages that arrive within one lifetime of an id, in any order, with whatever contents
-- and starting from any cache: at most one with a given request id leads to a call.
pub handle_all_lem :
    (id : String) (t : Time) (h : HandlerConfig) (ms : List (Time × ClusterMessage))
    (d : DedupCache)
    → Within t d.ttl ms
    → calls_for id (handle_all h ms d).0 ≤ 1
handle_all_lem id t h ms d w = at_most_one id t d.ttl h ms d w refl
