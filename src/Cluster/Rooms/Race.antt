-- ===== src/Cluster/Rooms/Race.antt =====
-- Many nodes that want one room at the same time: their calls reach the locator one after the
-- other.
use pulse_rtc.Prelude.{
  ℕ, ◌+◌, ◌≡◌, ◌≢◌, refl, Bool, true, false, none, some, List, [], ◌∷◌, map, String, arith,
  if◌then◌else◌, ◌=?◌, string_eq,
}
use pulse_rtc.Prelude.Map.{lookup-insert_self}
use pulse_rtc.Cluster.Rooms.{
  RoomLocator, RecoverOutcome, recover_already, recover_conflict, recover_ok, fire, generation_of,
  get_owner, ownership, recover_owner, claim_owner,
}

-- The answers to the claims of one room by a list of nodes, and the locator after them.
unfoldable pub claim_all : String → List String → RoomLocator → List (String × Bool) × RoomLocator
claim_all room [] l = ([], l)
claim_all room (n ∷ ns) l =
    let (answer, l') = claim_owner room n l in
    let (answers, l'') = claim_all room ns l' in (answer ∷ answers, l'')

unfoldable pub recover_all :
    String → String → List String → RoomLocator → List RecoverOutcome × RoomLocator
recover_all room old [] l = ([], l)
recover_all room old (n ∷ ns) l =
    let (answer, l') = recover_owner room old n l in
    let (answers, l'') = recover_all room old ns l' in (answer.outcome ∷ answers, l'')

lose_claim :
    (room n owner : String) (l : RoomLocator)
    → get_owner room l ≡ some owner
    → ((claim_owner room n l).0 ≡ (owner, false))
      × (get_owner room (claim_owner room n l).1 ≡ some owner)
      × ((claim_owner room n l).1.on_claim ≡ l.on_claim)
unfolding get_owner claim_owner
lose_claim room n owner l h = ground arith

lose_claims :
    (room owner : String) (ns : List String) (l : RoomLocator)
    → get_owner room l ≡ some owner
    → ((claim_all room ns l).0 ≡ map (λ _. (owner, false)) ns)
      × (get_owner room (claim_all room ns l).1 ≡ some owner)
      × ((claim_all room ns l).1.on_claim ≡ l.on_claim)
unfolding claim_all
lose_claims room owner [] l h = (refl, h, refl)
lose_claims room owner (n ∷ ns) l h =
    ground (arith, lose_claim room n owner l, lose_claims room owner ns (claim_owner room n l).1)

-- If a room has no owner, then of any number of claims exactly the first succeeds: it is told that
-- it claimed the room, every other one is told the first node's name and that it did not, the first
-- node owns the room in the end, and the claim hook ran once.
pub claim_all_lem :
    (room first : String) (rest : List String) (l : RoomLocator)
    → get_owner room l ≡ none
    → ((claim_all room (first ∷ rest) l).0 ≡ (first, true) ∷ map (λ _. (first, false)) rest)
      × (get_owner room (claim_all room (first ∷ rest) l).1 ≡ some first)
      × ((claim_all room (first ∷ rest) l).1.on_claim ≡ fire l.on_claim)
unfolding claim_all claim_owner get_owner
claim_all_lem room first rest l h = ground (
  arith,
  lose_claims room first rest (claim_owner room first l).1,
  lookup-insert_self room first l.owners,
)

-- The answer to a recovery from `old` that comes after node `first` won.
abbrev pub answer_after : String → String → RecoverOutcome
answer_after first n = if first =? n then recover_already else recover_conflict

lose_recovery :
    (room old n owner : String) (g : ℕ) (l : RoomLocator)
    → ownership room l ≡ some (owner, g)
    → owner ≢ old
    → ((recover_owner room old n l).0.outcome ≡ answer_after owner n)
      × (ownership room (recover_owner room old n l).1 ≡ some (owner, g))
unfolding ownership recover_owner
lose_recovery room old n owner g l h ne = ground (arith, string_eq.beq_iff owner old)

lose_recoveries :
    (room old owner : String) (g : ℕ) (ns : List String) (l : RoomLocator)
    → ownership room l ≡ some (owner, g)
    → owner ≢ old
    → ((recover_all room old ns l).0 ≡ map (answer_after owner) ns)
      × (ownership room (recover_all room old ns l).1 ≡ some (owner, g))
unfolding recover_all
lose_recoveries room old owner g [] l h ne = (refl, h)
lose_recoveries room old owner g (n ∷ ns) l h ne = ground (
  arith,
  lose_recovery room old n owner g l,
  lose_recoveries room old owner g ns (recover_owner room old n l).1,
)

-- If node `old` owns a room at generation `g`, and any number of other nodes try to recover it from
-- `old`, the first of them one that is not `old`: the first wins, every later attempt is told that
-- it has the room already, if it is by the winner, and else that there was a conflict; the winner
-- owns the room in the end, and the generation has moved exactly once.
pub recover_all_lem :
    (room old first : String) (g : ℕ) (rest : List String) (l : RoomLocator)
    → ownership room l ≡ some (old, g)
    → first ≢ old
    → ((recover_all room old (first ∷ rest) l).0 ≡ recover_ok ∷ map (answer_after first) rest)
      × (ownership room (recover_all room old (first ∷ rest) l).1 ≡ some (first, g + 1))
unfolding recover_all recover_owner ownership
recover_all_lem room old first g rest l h ne = ground (
  arith,
  string_eq.beq_iff old first,
  string_eq.beq_iff old old,
  lose_recoveries room old first (g + 1) rest (recover_owner room old first l).1,
  lookup-insert_self room first l.owners,
  lookup-insert_self room (generation_of room l + 1) l.gens,
)
