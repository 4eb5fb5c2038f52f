-- ===== src/Cluster/Router/Answers.antt =====
-- When a selection answers, what it changes, and how long its answer lasts.
use pulse_rtc.Prelude.{
  ◌+◌, ◌≤◌, ◌≡◌, ◌≢◌, inl, inr, refl, sym, ap, ◌∙◌, Bool, true, false, ◌&&◌, Option, none, some,
  List, [], ◌∷◌, String, arith, Bool-cases, Option-cases, string_eq,
}
use pulse_rtc.Prelude.Map.{lookup}
use mathlib.Core.List.{not-mem-nil}
use pulse_rtc.Prelude.Float.{Floats}
use pulse_rtc.Cluster.Node.{Time, seconds, NodeInfo}
use pulse_rtc.Cluster.Registry
use pulse_rtc.Cluster.Registry.{NodeRegistry}
use pulse_rtc.Cluster.Load.{NodeLoad, room_assignment, put_room_assignment}
use pulse_rtc.Cluster.Load.Expiry.{room_assignment-put}
use pulse_rtc.Cluster.Policy.{Reason, assigned, Result, ok, err, find_node}
use pulse_rtc.Cluster.Policy.Choice.{select-Choice, find_node_lem}
use pulse_rtc.Cluster.Registry.Heartbeats.{IsValid, lookup-named}
use pulse_rtc.Cluster.Router.{
  RouterConfig, RouterState, state_usable, fresh_reports, note_pending, info_or_id, candidates,
  select_new, assigned_candidate, select_among, select_node,
}

abbrev pub is_ok : Result (NodeInfo × Reason) → Bool
is_ok (ok _) = true
is_ok (err _) = false

abbrev pub has_candidate : List NodeLoad → Bool
has_candidate [] = false
has_candidate (_ ∷ _) = true

module _ (fl : Floats) (now : Time) (self : NodeInfo) (r : NodeRegistry)
    (cfg : RouterConfig fl.Float) (room : String) (s : RouterState) where
  select_new-ok :
      (c : NodeLoad) (cs : List NodeLoad)
      → is_ok (select_new fl now self r cfg room (c ∷ cs) s).0 ≡ true
  unfolding select_new
  select_new-ok c cs =
      let ch = select-Choice fl (record cfg.policy { local_node_id = self.id }) c cs in
      rw (ch.answer, select_new) refl

  select_among-ok :
      (cs : List NodeLoad) → is_ok (select_among fl now self r cfg room cs s).0 ≡ has_candidate cs
  unfolding select_among
  select_among-ok [] = refl
  select_among-ok (c ∷ cs) =
      elim (Option-cases (assigned_candidate fl (room_assignment now room s.load) (c ∷ cs))) [
        | inl e ↦ rw (e, select_among) (select_new-ok c cs)
        | inr (l, e) ↦ rw (e, select_among) refl
      ]

-- A selection answers with a node exactly if the load snapshot could be read, the shared state was
-- not reported unusable, and at least one node is a candidate.
pub select_node-is_ok :
    (fl : Floats) (now : Time) (self : NodeInfo) (state_ok : Option Bool) (r : NodeRegistry)
    (cfg : RouterConfig fl.Float) (snapshot : List NodeLoad) (room : String) (s : RouterState)
    → (is_ok (select_node fl now self state_ok r cfg none room s).0 ≡ false)
      × (is_ok (select_node fl now self state_ok r cfg (some snapshot) room s).0 ≡ (
          state_usable state_ok
          && has_candidate (
              candidates fl now r cfg s
                (fresh_reports now cfg.load_stale snapshot [])
                (Registry.list r))))
unfolding select_node
select_node-is_ok fl now self state_ok r cfg snapshot room s = (
  refl,
  ground (
    arith,
    select_among-ok fl now self r cfg room s (
        candidates fl now r cfg s (fresh_reports now cfg.load_stale snapshot []) (Registry.list r)),
  ),
)

info_or_id-id :
    (id : String) (r : NodeRegistry) → IsValid r → (info_or_id id (Registry.get id r)).id ≡ id
unfolding Registry.get
info_or_id-id id r v = elim (Option-cases (lookup id r.nodes)) [
  | inl e ↦ rw e refl
  | inr (m, e) ↦ ap (λ o. (info_or_id id o).id) e ∙ lookup-named id m r.nodes v.named e
]

-- A selection of a node for the room that was made by the policy.
record Made (t : Time) (r : NodeRegistry) (room : String) (s : RouterState)
    (answer : Result (NodeInfo × Reason) × RouterState) (n : NodeInfo) : Type 0 where
  pub id : String
  pub is_n : info_or_id id (Registry.get id r) ≡ n
  pub stored : answer.1.load ≡ put_room_assignment t room id (seconds 15) s.load
  pub noted : answer.1.pending ≡ (note_pending t id s).pending

module _ (fl : Floats) (t : Time) (self : NodeInfo) (r : NodeRegistry) (cfg : RouterConfig fl.Float)
    (room : String) (s : RouterState) (n : NodeInfo) (reason : Reason)
    (new : reason ≢ assigned) where
  select_new-Made :
      (c : NodeLoad) (cs : List NodeLoad)
      → (select_new fl t self r cfg room (c ∷ cs) s).0 ≡ ok (n, reason)
      → Made t r room s (select_new fl t self r cfg room (c ∷ cs) s) n
  unfolding select_new note_pending
  select_new-Made c cs h =
      let ch = select-Choice fl (record cfg.policy { local_node_id = self.id }) c cs in
      let h' = rw (ch.answer, select_new) at h in
      record {
        id = ch.chosen.node_id;
        is_n = ground arith;
        stored = rw (ch.answer, select_new) refl;
        noted = rw (ch.answer, select_new) refl;
      }

  select_among-Made :
      (cs : List NodeLoad)
      → (select_among fl t self r cfg room cs s).0 ≡ ok (n, reason)
      → Made t r room s (select_among fl t self r cfg room cs s) n
  unfolding select_among
  select_among-Made [] h = let failed : err _ ≡ ok (n, reason) = h in cc
  select_among-Made (c ∷ cs) h =
      elim (Option-cases (assigned_candidate fl (room_assignment t room s.load) (c ∷ cs))) [
        | inl e ↦ rw (e, select_among) (select_new-Made c cs (rw (e, select_among) at h))
        | inr (l, e) ↦
            let h' : ok (_, assigned) ≡ ok (n, reason) = rw (e, select_among) at h in
            absurd (new (let same : assigned ≡ reason = ground arith in sym same))
      ]

-- A room that is assigned to a candidate is answered with it.
select_among-assigned :
    (fl : Floats) (u : Time) (self : NodeInfo) (r : NodeRegistry) (cfg : RouterConfig fl.Float)
    (room id : String) (cs : List NodeLoad) (s : RouterState) (l : NodeLoad)
    → room_assignment u room s.load ≡ some id
    → find_node id cs ≡ some l
    → select_among fl u self r cfg room cs s ≡ (ok (info_or_id id (Registry.get id r), assigned), s)
unfolding select_among
select_among-assigned fl u self r cfg room id [] s l a found =
    absurd (not-mem-nil (find_node_lem id l [] found).0)
select_among-assigned fl u self r cfg room id (c ∷ cs) s l a found =
    let named : l.node_id ≡ id = (find_node_lem id l (c ∷ cs) found).1 in
    let here : assigned_candidate fl (room_assignment u room s.load) (c ∷ cs) ≡ some l =
      ap (λ o. assigned_candidate fl o (c ∷ cs)) a ∙ found in
    rw (here, select_among) (ap (λ i. (ok (info_or_id i (Registry.get i r), assigned), s)) named)

-- A room stays where it was put. Let a selection with a readable snapshot, on a valid registry,
-- return a node by a new choice of the policy. Then until 15 seconds later, the same call on the
-- state it left, by any node, with any registry, configuration and load, returns the entry of that
-- node, with the reason `assigned` and no change of state, as long as the state is usable and the
-- node is among the candidates.
pub select_node-select_node :
    (fl : Floats) (t u : Time) (self self' : NodeInfo) (state_ok state_ok' : Option Bool)
    (r r' : NodeRegistry) (cfg cfg' : RouterConfig fl.Float) (snapshot snapshot' : List NodeLoad)
    (room : String) (s s' : RouterState) (n : NodeInfo) (reason : Reason) (l : NodeLoad)
    → IsValid r
    → select_node fl t self state_ok r cfg (some snapshot) room s ≡ (ok (n, reason), s')
    → reason ≢ assigned
    → u ≤ t + seconds 15
    → state_usable state_ok' ≡ true
    → find_node n.id (
        candidates fl u r' cfg' s'
          (fresh_reports u cfg'.load_stale snapshot' [])
          (Registry.list r'))
      ≡ some l
    → select_node fl u self' state_ok' r' cfg' (some snapshot') room s'
      ≡ (ok (info_or_id n.id (Registry.get n.id r'), assigned), s')
unfolding select_node
select_node-select_node fl t u self self' state_ok state_ok' r r' cfg cfg' snapshot snapshot' room s
      s' n reason l v h new soon usable found =
    elim (Bool-cases (state_usable state_ok)) [
      | inr e ↦ let failed : (err _, s) ≡ (ok (n, reason), s') = rw e at h in cc
      | inl e ↦
          let cs =
            candidates fl t r cfg s (fresh_reports t cfg.load_stale snapshot [])
              (Registry.list r) in
          let made_at : select_among fl t self r cfg room cs s ≡ (ok (n, reason), s') = rw e at h in
          let made =
            select_among-Made fl t self r cfg room s n reason new cs (ap (λ p. p.0) made_at) in
          let id_is : n.id ≡ made.id = sym (ap (λ m. m.id) made.is_n) ∙ info_or_id-id made.id r v in
          let stored : s'.load ≡ put_room_assignment t room made.id (seconds 15) s.load =
            sym (ap (λ p. p.1.load) made_at) ∙ made.stored in
          let kept : room_assignment u room s'.load ≡ some n.id =
            ground (arith, (room_assignment-put t u room made.id (seconds 15) s.load).0) in
          rw usable (select_among-assigned fl u self' r' cfg' room n.id _ s' l kept found)
    ]
