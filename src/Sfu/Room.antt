-- ===== src/Sfu/Room.antt =====
-- internal/sfu/core_room.go, and the publications and subscriptions of core_participant.go. Each
-- operation is one step. A loop over the participants visits them in the order of the map; what it
-- sends is the list of events. The queue and the writer of a subscription are in Sfu/SendQueue,
-- Sfu/Publication and Sfu/WriteLoop. A participant that has left is no longer reached from here.
pub mod Authorization
pub mod Retirement
mod Tests
use pulse_rtc.Prelude.{
  ℕ, zero, suc, ◌+◌, ◌-◌, ◌*◌, ◌≤◌, ◌<◌, ◌≡◌, ◌≢◌, ◌↔◌, ◌⊎◌, inl, inr, refl, sym, ap, ◌∙◌, Bool,
  true, false, ◌&&◌, ◌||◌, not, Option, none, some, List, [], ◌∷◌, ◌++◌, map, String, arith, ltb,
  leb, ◌==◌, if◌then◌else◌, Bool-cases, Option-cases, length, length-append, take, drop, Eq, ◌=?◌,
  string_eq, All, All-append, is_some,
}
use pulse_rtc.Prelude.Map.{
  Map, lookup, insert, delete, lookup-insert, lookup-delete, Distinct, insert-Distinct,
  delete-Distinct, beq_self, lookup-insert_self, lookup-delete_self, map_laws, length-delete-le,
}

pub record Pub : Type 0 where
  pub id : String
  pub participant_id : String

-- `negotiations` counts the calls of `scheduleNegotiate`.
pub record Member : Type 0 where
  pub id : String
  pub can_publish : Bool
  pub can_subscribe : Bool
  pub publications : Map String Pub
  pub subscriptions : Map String Pub
  pub opted_out : Map String Bool
  pub negotiations : ℕ
  pub closed : Bool

pub record SfuRoom : Type 0 where
  pub participants : Map String Member
  pub remote_pubs : Map String Pub

abbrev pub new_room : SfuRoom
new_room = record { participants = []; remote_pubs = [] }

abbrev pub new_member : String → Bool → Bool → Member
new_member id can_publish can_subscribe = record {
  id = id;
  can_publish = can_publish;
  can_subscribe = can_subscribe;
  publications = [];
  subscriptions = [];
  opted_out = [];
  negotiations = 0;
  closed = false;
}

-- Messages to a participant, by its id, and the hook for the room's publications.
pub data Event : Type 0 where
  publication_added publication_removed subscription_added subscription_removed :
      (to pub_id : String) → Event
  publish_denied subscribe_denied : (to : String) → Event
  fired : (added : Bool) → (pub_id : String) → Event

pub data SubscribeResult : Type 0 where
  subscribed denied not_found own_publication : SubscribeResult

abbrev pub has {ℓ} : {V : Type ℓ} → String → Map String V → Bool
has k m = is_some (lookup k m)

-- `findPublication`: first among the participants, then among the mirrored ones.
unfoldable pub find_in : String → Map String Member → Option Pub
find_in pub_id [] = none
find_in pub_id ((k, m) ∷ ms) =
    let rest = find_in pub_id ms in
    if has pub_id m.publications then lookup pub_id m.publications else rest

unfoldable pub find_publication : String → SfuRoom → Option Pub
find_publication pub_id r =
    let local = find_in pub_id r.participants in
    if is_some local then local else lookup pub_id r.remote_pubs

-- Whether Pion makes and adds the track, for a subscriber and a publication.
module _ (track_ok : String → String → Bool) where
  -- `subscribe`.
  unfoldable pub subscribe_to : Pub → Member → Member × List Event
  subscribe_to p m =
      if m.closed
      then (m, [])
      else if has p.id m.subscriptions
      then (m, [])
      else if not (track_ok m.id p.id)
      then (m, [])
      else (
        record m {
          subscriptions = insert p.id p m.subscriptions;
          negotiations = suc m.negotiations;
        },
        subscription_added m.id p.id ∷ [],
      )

  unfoldable pub maybe_auto_subscribe : Pub → Member → Member × List Event
  maybe_auto_subscribe p m =
      if not m.can_subscribe
      then (m, [])
      else if has p.id m.opted_out || has p.id m.subscriptions || m.closed
      then (m, [])
      else subscribe_to p m

  -- `onPublicationAdded`, over the participants.
  unfoldable pub announce : Pub → Map String Member → Map String Member × List Event
  announce p [] = ([], [])
  announce p ((k, m) ∷ ms) =
      let rest = announce p ms in
      let r = maybe_auto_subscribe p m in
      if k =? p.participant_id
      then ((k, m) ∷ rest.0, rest.1)
      else ((k, r.0) ∷ rest.0, publication_added m.id p.id ∷ (r.1 ++ rest.1))

  unfoldable pub on_publication_added : Pub → SfuRoom → SfuRoom × List Event
  on_publication_added p r =
      let a = announce p r.participants in
      (record r { participants = a.0 }, a.1 ++ (fired true p.id ∷ []))

  -- `onTrack`, with the id that the new publication gets.
  unfoldable pub publish_as : String → SfuRoom → Option Member → SfuRoom × List Event
  publish_as pub_id r none = (r, [])
  publish_as pub_id r (some m) =
      if not m.can_publish
      then (r, publish_denied m.id ∷ [])
      else let p : Pub = record { id = pub_id; participant_id = m.id } in
        let a = on_publication_added p (record r {
          participants =
              insert m.id (record m { publications = insert pub_id p m.publications })
                r.participants;
        }) in
        (a.0, publication_added m.id pub_id ∷ a.1)

  unfoldable pub on_track : String → String → SfuRoom → SfuRoom × List Event
  on_track id pub_id r = publish_as pub_id r (lookup id r.participants)

  unfoldable pub add_remote : Pub → SfuRoom → SfuRoom × List Event
  add_remote p r =
      if has p.id r.remote_pubs
      then (r, [])
      else on_publication_added p (record r { remote_pubs = insert p.id p r.remote_pubs })

  -- `Subscribe`.
  unfoldable pub subscribe_found :
      Member → SfuRoom → Option Pub → SfuRoom × (SubscribeResult × List Event)
  subscribe_found m r none = (r, (not_found, []))
  subscribe_found m r (some p) =
      if p.participant_id =? m.id
      then (r, (own_publication, []))
      else let opted = record m { opted_out = delete p.id m.opted_out } in
        let s =
          if has p.id m.subscriptions
          then (opted, subscription_added m.id p.id ∷ [])
          else subscribe_to p opted in
        (record r { participants = insert m.id s.0 r.participants }, (subscribed, s.1))

  unfoldable pub subscribe_as :
      String → SfuRoom → Option Member → SfuRoom × (SubscribeResult × List Event)
  subscribe_as pub_id r none = (r, (not_found, []))
  subscribe_as pub_id r (some m) =
      if not m.can_subscribe
      then (r, (denied, subscribe_denied m.id ∷ []))
      else subscribe_found m r (find_publication pub_id r)

  unfoldable pub subscribe : String → String → SfuRoom → SfuRoom × (SubscribeResult × List Event)
  subscribe id pub_id r = subscribe_as pub_id r (lookup id r.participants)

  -- `bootstrap`: the publications of the other participants, in order.
  unfoldable pub auto_all : List (String × Pub) → Member → Member × List Event
  auto_all [] m = (m, [])
  auto_all ((k, p) ∷ ps) m =
      let s = maybe_auto_subscribe p m in let t = auto_all ps s.0 in (t.0, s.1 ++ t.1)

  unfoldable pub auto_others : Map String Member → Member → Member × List Event
  auto_others [] m = (m, [])
  auto_others ((k, o) ∷ os) m =
      let s = if k =? m.id then (m, []) else auto_all o.publications m in
      let t = auto_others os s.0 in (t.0, s.1 ++ t.1)

  unfoldable pub bootstrap_as : SfuRoom → Option Member → SfuRoom × List Event
  bootstrap_as r none = (r, [])
  bootstrap_as r (some m) =
      let s = auto_others r.participants m in
      (record r { participants = insert m.id s.0 r.participants }, s.1)

  unfoldable pub bootstrap : String → SfuRoom → SfuRoom × List Event
  bootstrap id r = bootstrap_as r (lookup id r.participants)

-- `unsubscribe`.
unfoldable pub unsubscribe_from : String → Member → Member × List Event
unsubscribe_from pub_id m =
    if has pub_id m.subscriptions
    then (
      record m {
        subscriptions = delete pub_id m.subscriptions;
        negotiations = if m.closed then m.negotiations else suc m.negotiations;
      },
      subscription_removed m.id pub_id ∷ [],
    )
    else (m, [])

-- `Unsubscribe`, with the opt-out; a failed subscription is the same without it.
unfoldable pub unsubscribe_as : Bool → String → SfuRoom → Option Member → SfuRoom × List Event
unsubscribe_as opt_out pub_id r none = (r, [])
unsubscribe_as opt_out pub_id r (some m) =
    let s =
      unsubscribe_from pub_id
        (if opt_out then record m { opted_out = insert pub_id true m.opted_out } else m) in
    (record r { participants = insert m.id s.0 r.participants }, s.1)

unfoldable pub unsubscribe : String → String → SfuRoom → SfuRoom × List Event
unsubscribe id pub_id r = unsubscribe_as true pub_id r (lookup id r.participants)

unfoldable pub on_subscription_fatal : String → String → SfuRoom → SfuRoom × List Event
on_subscription_fatal id pub_id r = unsubscribe_as false pub_id r (lookup id r.participants)

-- `onPublicationRemoved`, over the participants.
unfoldable pub retract : Pub → Map String Member → Map String Member × List Event
retract p [] = ([], [])
retract p ((k, m) ∷ ms) =
    let rest = retract p ms in
    let r = unsubscribe_from p.id m in
    if k =? p.participant_id
    then ((k, m) ∷ rest.0, rest.1)
    else ((k, r.0) ∷ rest.0, r.1 ++ (publication_removed m.id p.id ∷ rest.1))

unfoldable pub on_publication_removed : Pub → SfuRoom → SfuRoom × List Event
on_publication_removed p r =
    let a = retract p r.participants in
    (record r { participants = a.0 }, a.1 ++ (fired false p.id ∷ []))

unfoldable pub remove_pub : Member → SfuRoom → Option Pub → SfuRoom × List Event
remove_pub m r none = (r, [])
remove_pub m r (some p) = on_publication_removed p (record r {
  participants =
      insert m.id (record m { publications = delete p.id m.publications }) r.participants;
})

unfoldable pub remove_as : String → SfuRoom → Option Member → SfuRoom × List Event
remove_as pub_id r none = (r, [])
remove_as pub_id r (some m) = remove_pub m r (lookup pub_id m.publications)

unfoldable pub remove_publication : String → String → SfuRoom → SfuRoom × List Event
remove_publication id pub_id r = remove_as pub_id r (lookup id r.participants)

unfoldable pub remove_remote_found : String → SfuRoom → Option Pub → SfuRoom × List Event
remove_remote_found pub_id r none = (r, [])
remove_remote_found pub_id r (some p) =
    on_publication_removed p (record r { remote_pubs = delete pub_id r.remote_pubs })

unfoldable pub remove_remote : String → SfuRoom → SfuRoom × List Event
remove_remote pub_id r = remove_remote_found pub_id r (lookup pub_id r.remote_pubs)

-- `JoinWithPermissions`.
unfoldable pub join : String → Bool → Bool → SfuRoom → SfuRoom
join id can_publish can_subscribe r = record r {
  participants = insert id (new_member id can_publish can_subscribe) r.participants;
}

-- `Leave`.
unfoldable pub retire_all : List (String × Pub) → SfuRoom → SfuRoom × List Event
retire_all [] r = (r, [])
retire_all ((k, p) ∷ ps) r =
    let a = on_publication_removed p r in let b = retire_all ps a.0 in (b.0, a.1 ++ b.1)

unfoldable pub leave_as : String → SfuRoom → Option Member → SfuRoom × List Event
leave_as id r none = (r, [])
leave_as id r (some m) =
    retire_all m.publications (record r { participants = delete id r.participants })

unfoldable pub leave : String → SfuRoom → SfuRoom × List Event
leave id r = leave_as id r (lookup id r.participants)
