-- ===== src/Room/Manager/Joining.antt =====
-- internal/room/manager.go and signaling/ws_server.go: a join is `GetOrCreate` and then `Add`, with
-- other steps in between.
use pulse_rtc.Prelude.{
  ℕ, ◌<◌, ◌≡◌, refl, sym, ap, ◌∙◌, Bool, true, none, some, List, [], ◌∷◌, ◌++◌, String,
  if◌then◌else◌, string_eq, length,
}
use pulse_rtc.Prelude.Map.{lookup, insert, delete, lookup-insert_self, lookup-delete_self}
use pulse_rtc.Prelude.{get_elem?, set, get_elem?-set_self}
use mathlib.Core.Path.{subst}
use pulse_rtc.Room.Manager.{
  Room, Manager, add, remove, is_empty, create_if, get_or_create, remove_participant, add_found,
  add_at, get_participant, new_room,
}
use pulse_rtc.Room.Manager.Membership.{
  managed, room_of, room_of-ref, get_elem?-lt, remove_participant_lem,
}

module _ {V : Type 0} where
  -- The participant is in the object that the reference is to.
  abbrev pub Holds : String → V → ℕ → Manager V → Type 0
  Holds id v ref m =
      (r : Room V) × (get_elem? m.objects ref ≡ some r) × (get_participant id r ≡ some v)

  get_or_create_found :
      (room_id : String) (m : Manager V) (ref : ℕ)
      → lookup room_id m.rooms ≡ some ref
      → get_or_create room_id m ≡ (m, ref)
  unfolding get_or_create create_if
  get_or_create_found room_id m ref e = ap (create_if room_id m) e

  add_at_lem :
      (id : String) (v : V) (ref : ℕ) (m : Manager V) (r : Room V)
      → get_elem? m.objects ref ≡ some r
      → add_at id v ref m ≡ record m { objects = set m.objects ref (add id v r) }
  unfolding add_at add_found
  add_at_lem id v ref m r e = ap (add_found id v ref m) e

  add_at-Holds :
      (id : String) (v : V) (ref : ℕ) (m : Manager V) (r : Room V)
      → get_elem? m.objects ref ≡ some r
      → Holds id v ref (add_at id v ref m)
  unfolding add get_participant
  add_at-Holds id v ref m r e = (
    add id v r,
    ap (λ (x : Manager V). get_elem? x.objects ref) (add_at_lem id v ref m r e)
        ∙ get_elem?-set_self m.objects ref (add id v r) (get_elem?-lt m.objects ref r e),
    lookup-insert_self id v r.participants,
  )

  get_elem?-append_new :
      (rs : List (Room V)) (r : Room V) → get_elem? (rs ++ (r ∷ [])) (length rs) ≡ some r
  get_elem?-append_new [] r = refl
  get_elem?-append_new (x ∷ rs) r = get_elem?-append_new rs r

  -- A join to a room that the manager does not know makes a new one.
  get_or_create_new :
      (room_id : String) (m : Manager V)
      → lookup room_id m.rooms ≡ none
      → ((get_or_create room_id m).1 ≡ length m.objects)
        × (managed room_id (get_or_create room_id m).0 ≡ some (new_room room_id))
  unfolding get_or_create create_if
  get_or_create_new room_id m e =
      let made : Manager V = record {
        objects = m.objects ++ (new_room room_id ∷ []);
        rooms = insert room_id (length m.objects) m.rooms;
      } in
      let is : get_or_create room_id m ≡ (made, length m.objects) = ap (create_if room_id m) e in
      (
        ap (λ (x : Manager V × ℕ). x.1) is,
        ap (λ (x : Manager V × ℕ). managed room_id x.0) is
            ∙ ap (room_of made) (lookup-insert_self room_id (length m.objects) m.rooms)
            ∙ get_elem?-append_new m.objects (new_room room_id),
      )

  -- What a lost join leaves behind, at the object `ref` of the room.
  abbrev Lost : String → String → V → ℕ → Manager V → Type 0
  Lost room_id id v ref u =
      Holds id v ref u
      × (managed room_id u ≡ none)
      × (ref < (get_or_create room_id u).1)
      × (managed room_id (get_or_create room_id u).0 ≡ some (new_room room_id))

  -- The last participant of a room leaves while another one is joining, between that one's
  -- `GetOrCreate` and `Add`. The newcomer is then in a room object that the manager no longer
  -- knows: it has no room under the id, and the next join gets another object, a new and empty
  -- room.
  pub add_at-remove_participant :
      (room_id id last : String) (v : V) (m : Manager V) (r : Room V)
      → managed room_id m ≡ some r
      → is_empty (delete last r.participants) ≡ true
      → let ref = (get_or_create room_id m).1 in
        let u = add_at id v ref (remove_participant room_id last (get_or_create room_id m).0) in
        Holds id v ref u
        × (managed room_id u ≡ none)
        × (ref < (get_or_create room_id u).1)
        × (managed room_id (get_or_create room_id u).0 ≡ some (new_room room_id))
  unfolding remove
  add_at-remove_participant room_id id last v m r h e =
      let f = room_of-ref m (lookup room_id m.rooms) r h in
      let ref = f.0 in
      let gone = (remove last r).0 in
      let left : Manager V = record {
        objects = set m.objects ref gone;
        rooms = delete room_id m.rooms;
      } in
      let removed : remove_participant room_id last m ≡ left =
        remove_participant_lem room_id last ref m r f.1 f.2
        ∙ ap
            (λ (b : Bool). record {
              objects = set m.objects ref gone;
              rooms = if b then delete room_id m.rooms else m.rooms;
            })
            e in
      let there : get_elem? left.objects ref ≡ some gone =
        get_elem?-set_self m.objects ref gone (get_elem?-lt m.objects ref r f.2) in
      let Q : Manager V × ℕ → Type 0 =
        λ x. Lost room_id id v x.1 (add_at id v x.1 (remove_participant room_id last x.0)) in
      let u : Manager V = record left { objects = set left.objects ref (add id v gone) } in
      let added : add_at id v ref left ≡ u = add_at_lem id v ref left gone there in
      let no_room : lookup room_id u.rooms ≡ none = lookup-delete_self room_id m.rooms in
      let next = get_or_create_new room_id u no_room in
      let holds = add_at-Holds id v ref left gone there in
      let below : ref < length u.objects = get_elem?-lt u.objects ref (add id v gone) (
        get_elem?-set_self left.objects ref (add id v gone)
          (get_elem?-lt left.objects ref gone there)) in
      let lost : Lost room_id id v ref u = (
        subst (λ x. Holds id v ref x) added holds,
        ap (room_of u) no_room,
        subst (λ n. ref < n) (sym next.0) below,
        next.1,
      ) in
      subst (λ x. Q x) (sym (get_or_create_found room_id m ref f.1))
        (subst (λ x. Lost room_id id v ref (add_at id v ref x)) (sym removed)
          (subst (λ x. Lost room_id id v ref x) (sym added) lost))
