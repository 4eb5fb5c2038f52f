-- ===== src/Room/Manager/Membership.antt =====
-- internal/room/manager.go and room.go: who is in a room, and which rooms there are.
use pulse_rtc.Prelude.{
  ℕ, zero, suc, ◌<◌, ◌≡◌, refl, ap, ◌∙◌, Bool, true, false, Option, none, some, List, [], ◌∷◌,
  String, arith, if◌then◌else◌, length, ◌=?◌, string_eq,
}
use pulse_rtc.Prelude.Map.{Map, lookup, delete, lookup-delete_self}
use pulse_rtc.Prelude.{get_elem?, set, get_elem?-set_self}
use pulse_rtc.Room.Manager.{
  Room, Manager, remove, is_empty, broadcast_to, broadcast, remove_at, remove_found,
  remove_participant,
}

module _ {V : Type 0} where
  abbrev pub room_of : Manager V → Option ℕ → Option (Room V)
  room_of m none = none
  room_of m (some ref) = get_elem? m.objects ref

  -- The room that the manager has under an id.
  abbrev pub managed : String → Manager V → Option (Room V)
  managed room_id m = room_of m (lookup room_id m.rooms)

  pub get_elem?-lt :
      (xs : List (Room V)) (i : ℕ) (r : Room V) → get_elem? xs i ≡ some r → i < length xs
  get_elem?-lt [] i r h = absurd (let no : ⊥ = ground arith in no)
  get_elem?-lt (x ∷ xs) zero r h = omega arith
  get_elem?-lt (x ∷ xs) (suc i) r h = omega (arith, get_elem?-lt xs i r h)

  pub room_of-ref :
      (m : Manager V) (o : Option ℕ) (r : Room V)
      → room_of m o ≡ some r
      → (ref : ℕ) × (o ≡ some ref) × (get_elem? m.objects ref ≡ some r)
  room_of-ref m none r h = absurd (let no : ⊥ = ground arith in no)
  room_of-ref m (some ref) r h = (ref, refl, h)

  managed-if :
      (room_id : String) (ref : ℕ) (b : Bool) (os : List (Room V)) (r : Room V)
      (rooms : Map String ℕ)
      → lookup room_id rooms ≡ some ref
      → get_elem? os ref ≡ some r
      → managed room_id (record { objects = os; rooms = if b then delete room_id rooms else rooms })
        ≡ (if b then none else some r)
  managed-if room_id ref true os r rooms e h =
      ap (room_of (record { objects = os; rooms = delete room_id rooms }))
        (lookup-delete_self room_id rooms)
  managed-if room_id ref false os r rooms e h =
      ap (room_of (record { objects = os; rooms = rooms })) e ∙ h

  pub remove_participant_lem :
      (room_id id : String) (ref : ℕ) (m : Manager V) (r : Room V)
      → lookup room_id m.rooms ≡ some ref
      → get_elem? m.objects ref ≡ some r
      → remove_participant room_id id m ≡ record {
        objects = set m.objects ref (remove id r).0;
        rooms = if (remove id r).1 then delete room_id m.rooms else m.rooms;
      }
  unfolding remove_participant remove_found remove_at
  remove_participant_lem room_id id ref m r e h =
      ap (remove_found room_id id m) e ∙ ap (remove_at room_id id ref m) h

  abbrev pub left_over : String → Room V → Option (Room V)
  left_over id r =
      if is_empty (delete id r.participants)
      then none
      else some (record r { participants = delete id r.participants })

  -- Where a room is managed, a participant that is removed is no longer in it; the others stay, and
  -- the manager keeps the room exactly when there is one.
  pub managed-remove_participant :
      (room_id id : String) (m : Manager V) (r : Room V)
      → managed room_id m ≡ some r
      → managed room_id (remove_participant room_id id m) ≡ left_over id r
  unfolding remove
  managed-remove_participant room_id id m r h =
      let e = room_of-ref m (lookup room_id m.rooms) r h in
      let ref = e.0 in
      let gone = remove id r in
      let here : get_elem? (set m.objects ref gone.0) ref ≡ some gone.0 =
        get_elem?-set_self m.objects ref gone.0 (get_elem?-lt m.objects ref r e.2) in
      ap (managed room_id) (remove_participant_lem room_id id ref m r e.1 e.2)
      ∙ managed-if room_id ref gone.1 (set m.objects ref gone.0) gone.0 m.rooms e.1 here

  lookup-broadcast_to :
      (except id : String) (m : Map String V)
      → lookup id (broadcast_to except m) ≡ (if except =? id then none else lookup id m)
  unfolding broadcast_to lookup
  lookup-broadcast_to except id [] = ground arith
  lookup-broadcast_to except id ((j, v) ∷ m) = ground (
    arith,
    lookup-broadcast_to except id m,
    string_eq.beq_iff j except,
    string_eq.beq_iff j id,
    string_eq.beq_iff except id,
  )

  -- A message reaches a participant of the room exactly when it is in the room and not the one who
  -- is left out.
  pub lookup-broadcast :
      (except id : String) (r : Room V)
      → lookup id (broadcast except r) ≡ (if except =? id then none else lookup id r.participants)
  unfolding broadcast
  lookup-broadcast except id r = lookup-broadcast_to except id r.participants
