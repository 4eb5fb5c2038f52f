-- ===== src/Room/Manager.antt =====
-- internal/room/manager.go and room.go: rooms are shared objects. The manager has references to
-- them, and so has whoever called `GetOrCreate`; a reference is an index into the objects ever
-- made. Each method runs under its lock, so it is one step.
pub mod Membership
pub mod Joining
use pulse_rtc.Prelude.{
  ℕ, zero, suc, ◌+◌, ◌-◌, ◌*◌, ◌≤◌, ◌<◌, ◌≡◌, ◌≢◌, ◌↔◌, ◌⊎◌, inl, inr, refl, sym, ap, ◌∙◌, Bool,
  true, false, ◌&&◌, ◌||◌, not, Option, none, some, List, [], ◌∷◌, ◌++◌, map, String, arith, ltb,
  leb, ◌==◌, if◌then◌else◌, Bool-cases, Option-cases, length, length-append, take, drop, Eq, ◌=?◌,
  string_eq, All, All-append, is_some,
}
use pulse_rtc.Prelude.Map.{
  Map, lookup, insert, delete, lookup-insert, lookup-delete, Distinct, insert-Distinct,
  delete-Distinct, beq_self, lookup-insert_self, lookup-delete_self, map_laws, length-delete-le,
}
use pulse_rtc.Prelude.{get_elem?, set}

-- `V` is what stands for a participant's connection.
pub record Room (V : Type 0) : Type 0 where
  pub id : String
  pub participants : Map String V

pub record Manager (V : Type 0) : Type 0 where
  pub objects : List (Room V)
  pub rooms : Map String ℕ

module _ {V : Type 0} where
  abbrev pub new_manager : Manager V
  new_manager = record { objects = []; rooms = [] }

  abbrev pub new_room : String → Room V
  new_room id = record { id = id; participants = [] }

  unfoldable pub add : String → V → Room V → Room V
  add id v r = record r { participants = insert id v r.participants }

  abbrev pub is_empty : Map String V → Bool
  is_empty [] = true
  is_empty (e ∷ es) = false

  -- The room, and whether it is now empty.
  unfoldable pub remove : String → Room V → Room V × Bool
  remove id r =
      let rest = delete id r.participants in (record r { participants = rest }, is_empty rest)

  unfoldable pub get_participant : String → Room V → Option V
  get_participant id r = lookup id r.participants

  unfoldable pub participant_ids : Room V → List String
  participant_ids r = map (λ e. e.0) r.participants

  unfoldable pub size : Room V → ℕ
  size r = length r.participants

  -- Those to whom the message is sent.
  unfoldable pub broadcast_to : String → Map String V → List (String × V)
  broadcast_to except [] = []
  broadcast_to except ((id, v) ∷ m) =
      let rest = broadcast_to except m in if id =? except then rest else (id, v) ∷ rest

  unfoldable pub broadcast : String → Room V → List (String × V)
  broadcast except r = broadcast_to except r.participants

  unfoldable pub create_if : String → Manager V → Option ℕ → Manager V × ℕ
  create_if id m (some ref) = (m, ref)
  create_if id m none = (
    record {
      objects = m.objects ++ (new_room id ∷ []);
      rooms = insert id (length m.objects) m.rooms;
    },
    length m.objects,
  )

  unfoldable pub get_or_create : String → Manager V → Manager V × ℕ
  get_or_create id m = create_if id m (lookup id m.rooms)

  unfoldable pub get : String → Manager V → Option ℕ
  get id m = lookup id m.rooms

  unfoldable pub remove_at : String → String → ℕ → Manager V → Option (Room V) → Manager V
  remove_at room_id id ref m none = m
  remove_at room_id id ref m (some r) =
      let s = remove id r in
      record {
        objects = set m.objects ref s.0;
        rooms = if s.1 then delete room_id m.rooms else m.rooms;
      }

  unfoldable pub remove_found : String → String → Manager V → Option ℕ → Manager V
  remove_found room_id id m none = m
  remove_found room_id id m (some ref) = remove_at room_id id ref m (get_elem? m.objects ref)

  unfoldable pub remove_participant : String → String → Manager V → Manager V
  remove_participant room_id id m = remove_found room_id id m (lookup room_id m.rooms)

  unfoldable pub count : Manager V → ℕ
  count m = length m.rooms

  -- `Add` through a reference.
  unfoldable pub add_found : String → V → ℕ → Manager V → Option (Room V) → Manager V
  add_found id v ref m none = m
  add_found id v ref m (some r) = record m { objects = set m.objects ref (add id v r) }

  unfoldable pub add_at : String → V → ℕ → Manager V → Manager V
  add_at id v ref m = add_found id v ref m (get_elem? m.objects ref)
