-- ===== src/Sfu/Room/Retirement.antt =====
-- internal/sfu/core_room.go: nobody stays subscribed to a publication that is retired.
use pulse_rtc.Prelude.{
  ◌≡◌, ◌≢◌, refl, Option, none, some, [], ◌∷◌, String, arith, if◌then◌else◌, ◌=?◌, string_eq,
}
use pulse_rtc.Prelude.Map.{Map, lookup, lookup-delete, lookup-delete_self}
use pulse_rtc.Sfu.Room.{Pub, Member, SfuRoom, unsubscribe_from, retract, on_publication_removed}

abbrev pub retired : Pub → String → Option Member → Option Member
retired p k none = none
retired p k (some m) = some (if k =? p.participant_id then m else (unsubscribe_from p.id m).0)

lookup-retract :
    (p : Pub) (k : String) (ms : Map String Member)
    → lookup k (retract p ms).0 ≡ retired p k (lookup k ms)
unfolding retract lookup
lookup-retract p k [] = refl
lookup-retract p k ((j, m) ∷ ms) =
    let rest = lookup-retract p k ms in
    ground (
      arith,
      rest,
      string_eq.beq_iff j k,
      string_eq.beq_iff j p.participant_id,
      string_eq.beq_iff k p.participant_id,
    )

lookup-unsubscribe_from :
    (k : String) (m : Member) → lookup k (unsubscribe_from k m).0.subscriptions ≡ none
unfolding unsubscribe_from
lookup-unsubscribe_from k m = ground (arith, lookup-delete_self k m.subscriptions)

lookup-unsubscribe_from_ne :
    (k other : String) (m : Member)
    → other ≢ k
    → lookup other (unsubscribe_from k m).0.subscriptions ≡ lookup other m.subscriptions
unfolding unsubscribe_from
lookup-unsubscribe_from_ne k other m apart =
    ground (arith, lookup-delete k other m.subscriptions, string_eq.beq_iff k other)

-- When a publication is retired, every participant but its publisher is still in the room, is not
-- subscribed to it any more, and keeps each of its other subscriptions.
pub on_publication_removed_lem :
    (p : Pub) (r : SfuRoom) (k other : String) (m : Member)
    → lookup k r.participants ≡ some m
    → k ≢ p.participant_id
    → other ≢ p.id
    → (n : Member) × (lookup k (on_publication_removed p r).0.participants ≡ some n)
      × (lookup p.id n.subscriptions ≡ none)
      × (lookup other n.subscriptions ≡ lookup other m.subscriptions)
unfolding on_publication_removed
on_publication_removed_lem p r k other m h ne apart = (
  (unsubscribe_from p.id m).0,
  ground (arith, lookup-retract p k r.participants, string_eq.beq_iff k p.participant_id),
  lookup-unsubscribe_from p.id m,
  lookup-unsubscribe_from_ne p.id other m apart,
)
