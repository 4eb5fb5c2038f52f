-- ===== src/Cluster/Rooms/View.antt =====
-- A locator as a function from rooms to owners with generations, and its operations as changes of
-- one cell of that function.
use pulse_rtc.Prelude.{
  ℕ, ◌+◌, ◌≤◌, ◌≡◌, refl, ap, ◌∙◌, ◌&&◌, not, Option, none, some, List, [], ◌∷◌, String, arith,
  if◌then◌else◌, ◌=?◌, string_eq, All,
}
use pulse_rtc.Prelude.Map.{lookup, lookup-insert, lookup-delete}
use pulse_rtc.Cluster.Rooms.{
  RoomLocator, generation_of, new_room_locator, ownership, recover_owner, claim_owner, set_owner,
  remove_owner, release_owner,
}

pub data Op : Type 0 where
  claims : (room node : String) → Op
  recovers : (room old_owner new_owner : String) → Op
  sets : (room node : String) → Op
  removes : (room : String) → Op
  releases : (room node : String) → Op

unfoldable pub step : RoomLocator → Op → RoomLocator
step l (claims room node) = (claim_owner room node l).1
step l (recovers room old_owner new_owner) = (recover_owner room old_owner new_owner l).1
step l (sets room node) = set_owner room node l
step l (removes room) = remove_owner room l
step l (releases room node) = (release_owner room node l).1

unfoldable pub run : RoomLocator → List Op → RoomLocator
run l [] = l
run l (o ∷ os) = run (step l o) os

abbrev pub room_of : Op → String
room_of (claims room _) = room
room_of (recovers room _ _) = room
room_of (sets room _) = room
room_of (removes room) = room
room_of (releases room _) = room

-- An owner with its generation, if the room is owned.
abbrev pub Cell : Type 0
Cell = Option (String × ℕ)

-- What an operation is meant to do to the cell of its room.
abbrev pub change : Op → Cell → Cell
change (claims _ node) none = some (node, 0)
change (claims _ node) (some c) = some c
change (recovers _ old_owner new_owner) none = none
change (recovers _ old_owner new_owner) (some (owner, g)) =
    if owner =? old_owner && not (owner =? new_owner)
    then some (new_owner, g + 1)
    else some (owner, g)
change (sets _ node) none = some (node, 0)
change (sets _ node) (some (owner, g)) = some (node, g)
change (removes _) c = none
change (releases _ node) none = none
change (releases _ node) (some (owner, g)) = if owner =? node then none else some (owner, g)

-- The operations of a history that concern one room, in their order.
abbrev pub changes : String → List Op → Cell → Cell
changes room [] c = c
changes room (o ∷ os) c = changes room os (if room_of o =? room then change o c else c)

-- Only an owned room has a generation.
pub record IsValid (l : RoomLocator) : Type 0 where
  pub owned : (room : String) → lookup room l.owners ≡ none → lookup room l.gens ≡ none

pub new-IsValid : (claim conflict : Option ℕ) → IsValid (new_room_locator claim conflict)
unfolding new_room_locator lookup
new-IsValid claim conflict = record { owned = λ room h. refl }

module _ (l : RoomLocator) (room : String)
    (v : lookup room l.owners ≡ none → lookup room l.gens ≡ none) where
  step-owned : (o : Op) → lookup room (step l o).owners ≡ none → lookup room (step l o).gens ≡ none
  unfolding step claim_owner recover_owner set_owner remove_owner release_owner
  step-owned (claims r n) =
      ground (arith, lookup-insert r room n l.owners, string_eq.beq_iff r room)
  step-owned (recovers r old new) = ground (
    arith,
    lookup-insert r room new l.owners,
    lookup-insert r room (generation_of r l + 1) l.gens,
    string_eq.beq_iff r room,
  )
  step-owned (sets r n) = ground (arith, lookup-insert r room n l.owners)
  step-owned (removes r) =
      ground (arith, lookup-delete r room l.owners, lookup-delete r room l.gens)
  step-owned (releases r n) =
      ground (arith, lookup-delete r room l.owners, lookup-delete r room l.gens)

  ownership-step :
      (o : Op)
      → ownership room (step l o)
        ≡ (if room_of o =? room then change o (ownership room l) else ownership room l)
  unfolding step claim_owner recover_owner set_owner remove_owner release_owner ownership
  ownership-step (claims r n) =
      ground (arith, lookup-insert r room n l.owners, string_eq.beq_iff r room)
  ownership-step (recovers r old new) = ground (
    arith,
    lookup-insert r room new l.owners,
    lookup-insert r room (generation_of r l + 1) l.gens,
    string_eq.beq_iff r room,
  )
  ownership-step (sets r n) =
      ground (arith, lookup-insert r room n l.owners, string_eq.beq_iff r room)
  ownership-step (removes r) =
      ground (
        arith,
        lookup-delete r room l.owners,
        lookup-delete r room l.gens,
        string_eq.beq_iff r room,
      )
  ownership-step (releases r n) =
      ground (
        arith,
        lookup-delete r room l.owners,
        lookup-delete r room l.gens,
        string_eq.beq_iff r room,
      )

step-IsValid : (l : RoomLocator) (o : Op) → IsValid l → IsValid (step l o)
step-IsValid l o v = record { owned = λ room. step-owned l room (v.owned room) o }

-- From a locator in which only owned rooms have a generation: after every history of claims,
-- recoveries, forced assignments, removals and releases, the owner and generation of a room are
-- what the operations on that room alone, in their order, make of them by `change`; a claim changes
-- only an unowned room, and a recovery moves a room only from the named owner to another node, with
-- its generation one higher.
pub ownership-run :
    (l : RoomLocator) (os : List Op) (room : String)
    → IsValid l
    → ownership room (run l os) ≡ changes room os (ownership room l)
unfolding run
ownership-run l [] room v = refl
ownership-run l (o ∷ os) room v =
    ownership-run (step l o) os room (step-IsValid l o v)
    ∙ ap (changes room os) (ownership-step l room (v.owned room) o)

-- The generation of a cell, 0 for an unowned room.
abbrev pub generation : Cell → ℕ
generation none = 0
generation (some (owner, g)) = g

abbrev pub KeepsRoom : Op → Type 0
KeepsRoom (removes _) = ⊥
KeepsRoom (releases _ _) = ⊥
KeepsRoom _ = Unit

change_mono : (o : Op) (c : Cell) → KeepsRoom o → generation c ≤ generation (change o c)
change_mono (claims r n) c k = ground arith
change_mono (recovers r old new) c k = ground arith
change_mono (sets r n) c k = ground arith
change_mono (removes r) c k = absurd k
change_mono (releases r n) c k = absurd k

changes_mono :
    (room : String) (os : List Op) (c : Cell)
    → All KeepsRoom os
    → generation c ≤ generation (changes room os c)
changes_mono room [] c k = omega arith
changes_mono room (o ∷ os) c k = ground (
  arith,
  change_mono o c k.0,
  changes_mono room os (if room_of o =? room then change o c else c) k.1,
)

-- As long as no room is removed or released, the generation of a room never falls.
pub generation_mono :
    (l : RoomLocator) (os : List Op) (room : String)
    → IsValid l
    → All KeepsRoom os
    → generation (ownership room l) ≤ generation (ownership room (run l os))
generation_mono l os room v k =
    rw (ownership-run l os room v) (changes_mono room os (ownership room l) k)
