-- ===== src/Cluster/Rooms.antt =====
-- internal/cluster/routing_room_locator.go: which node owns a room. Each operation runs under the
-- locator's mutex, so it is one step.
pub mod View
pub mod Race
mod Tests
use pulse_rtc.Prelude.{
  ℕ, zero, suc, ◌+◌, ◌-◌, ◌*◌, ◌≤◌, ◌<◌, ◌≡◌, ◌≢◌, ◌↔◌, ◌⊎◌, inl, inr, refl, sym, ap, ◌∙◌, Bool,
  true, false, ◌&&◌, ◌||◌, not, Option, none, some, List, [], ◌∷◌, ◌++◌, map, String, arith, ltb,
  leb, ◌==◌, if◌then◌else◌, Bool-cases, Option-cases, length, length-append, take, drop, Eq, ◌=?◌,
  string_eq, All, All-append, is_some,
}
use pulse_rtc.Prelude.Map.{
  Map, lookup, insert, delete, lookup-insert, lookup-delete, Distinct, insert-Distinct,
  delete-Distinct, beq_self, lookup-insert_self, lookup-delete_self, map_laws, length-delete-le,
}

-- `owners` and `gens` are the two maps of the locator. A metric hook is `none` if it is not set,
-- and else the number of its calls.
pub record RoomLocator : Type 0 where
  pub owners : Map String String
  pub gens : Map String ℕ
  pub on_claim : Option ℕ
  pub on_conflict : Option ℕ

pub data RecoverOutcome : Type 0 where
  recover_failed recover_conflict recover_already recover_ok : RecoverOutcome

pub record RecoverResult : Type 0 where
  pub outcome : RecoverOutcome
  pub owner : String
  pub generation : ℕ

abbrev pub fire : Option ℕ → Option ℕ
fire none = none
fire (some n) = some (n + 1)

-- `m[k]` where a missing key reads as 0.
abbrev pub count_of : Option ℕ → ℕ
count_of none = 0
count_of (some n) = n

abbrev pub generation_of : String → RoomLocator → ℕ
generation_of room l = count_of (lookup room l.gens)

unfoldable pub new_room_locator : Option ℕ → Option ℕ → RoomLocator
new_room_locator claim conflict = record {
  owners = [];
  gens = [];
  on_claim = claim;
  on_conflict = conflict;
}

unfoldable pub get_owner : String → RoomLocator → Option String
get_owner room l = lookup room l.owners

unfoldable pub ownership : String → RoomLocator → Option (String × ℕ)
ownership room l = elim (lookup room l.owners) [
  | none ↦ none
  | some owner ↦ some (owner, generation_of room l)
]

unfoldable pub recover_owner : String → String → String → RoomLocator → RecoverResult × RoomLocator
recover_owner room old_owner new_owner l = elim (lookup room l.owners) [
  | none ↦ (record { outcome = recover_failed; owner = ""; generation = 0 }, l)
  | some cur ↦
      if cur =? new_owner
      then (record { outcome = recover_already; owner = cur; generation = generation_of room l }, l)
      else if not (cur =? old_owner)
      then (
        record { outcome = recover_conflict; owner = cur; generation = generation_of room l },
        record l { on_conflict = fire l.on_conflict },
      )
      else (
        record { outcome = recover_ok; owner = new_owner; generation = generation_of room l + 1 },
        record l {
          owners = insert room new_owner l.owners;
          gens = insert room (generation_of room l + 1) l.gens;
        },
      )
]

unfoldable pub claim_owner : String → String → RoomLocator → (String × Bool) × RoomLocator
claim_owner room node l = elim (lookup room l.owners) [
  | some cur ↦
      ((cur, false), if cur =? node then l else record l { on_conflict = fire l.on_conflict })
  | none ↦
      ((node, true), record l { owners = insert room node l.owners; on_claim = fire l.on_claim })
]

unfoldable pub set_owner : String → String → RoomLocator → RoomLocator
set_owner room node l = record l { owners = insert room node l.owners }

unfoldable pub remove_owner : String → RoomLocator → RoomLocator
remove_owner room l = record l { owners = delete room l.owners; gens = delete room l.gens }

unfoldable pub release_owner : String → String → RoomLocator → Bool × RoomLocator
unfolding remove_owner
release_owner room node l = elim (lookup room l.owners) [
  | none ↦ (false, l)
  | some cur ↦ if cur =? node then (true, remove_owner room l) else (false, l)
]

-- The rooms of a node, in the order of the map.
rooms_of : String → Map String String → List String
rooms_of node [] = []
rooms_of node ((room, owner) ∷ m) =
    let rest = rooms_of node m in if owner =? node then room ∷ rest else rest

unfoldable pub owned_by : String → RoomLocator → List String
unfolding rooms_of
owned_by node l = rooms_of node l.owners
