-- ===== src/Cluster/Handler/Acceptance.antt =====
-- internal/cluster/noderpc_message.go, noderpc_handler.go: what becomes of one message.
use pulse_rtc.Prelude.{
  ℕ, ◌+◌, ◌≤◌, ◌≡◌, ◌≢◌, ◌⊎◌, inl, inr, refl, sym, Bool, true, false, not, Option, none, some, List,
  [], ◌∷◌, arith, if◌then◌else◌, ◌=?◌, string_eq, is_some, Bool-cases, Option-cases, ltb, ◌==◌,
  ◌&&◌, ◌||◌,
}
use pulse_rtc.Prelude.Map.{lookup}
use Prim.Native.String.{len}
use text.Mathlib.Text.{starts_with}
use mathlib.Core.Path.{subst}
use pulse_rtc.Prelude.Text.{is_blank}
use pulse_rtc.Cluster.Node.{Time, Error, seconds}
use pulse_rtc.Cluster.Dedup.{DedupCache, live, mark_seen}
use pulse_rtc.Cluster.Handler.{
  ClusterMessage, LocalDelivery, HandlerConfig, Call, to_participant, to_room, to_media, to_local,
  is_participant_type, to_media_bridge, validate, handle, contains, known_message_types, unix_milli,
  outside,
}
use pulse_rtc.Cluster.Handler.Delivery.{message_of}

-- What a message must be for this node to act on it: of a known type, with its ids, not too large
-- and with a time in the window where such limits are set, and meant for this node.
pub record Acceptable (now : Time) (h : HandlerConfig) (m : ClusterMessage) : Type 0 where
  pub known : contains m.type known_message_types ≡ true
  pub named : is_blank m.request_id ≡ false
  pub from : is_blank m.source_node_id ≡ false
  pub small : (h.max_size ≡ 0) ⊎ (len m.payload ≤ h.max_size)
  pub stamped : m.timestamp ≢ 0
  pub in_time :
      (h.max_age ≡ 0)
      ⊎ ((now ≤ unix_milli m.timestamp + h.max_age)
          × (unix_milli m.timestamp ≤ now + h.max_age + seconds 30))
  pub here : m.target_node_id ≡ h.self

-- No call, and an error.
abbrev pub Refused : Option Error × List Call → Type 0
Refused x = (x.1 ≡ []) × (is_some x.0 ≡ true)

-- One call, which is about the message.
abbrev pub PassedOn : ClusterMessage → Option Error × List Call → Type 0
PassedOn m x = (c : Call) × (x.1 ≡ c ∷ []) × (message_of c ≡ m)

to_local_cases :
    (d : Option LocalDelivery) (m : ClusterMessage)
    → Refused (to_local d m) ⊎ PassedOn m (to_local d m)
unfolding to_local
to_local_cases none m = inl (refl, refl)
to_local_cases (some d) m = elim (Bool-cases (is_participant_type m.type)) [
  | inl p ↦ inr (to_participant m, ground arith, refl)
  | inr n ↦ elim (Bool-cases (m.type =? "room.event")) [
    | inl r ↦ inr (to_room m, ground arith, refl)
    | inr o ↦ inl (ground arith)
  ]
]

to_media_cases :
    (media : Option (ClusterMessage → Option Error)) (m : ClusterMessage)
    → Refused (to_media_bridge media m) ⊎ PassedOn m (to_media_bridge media m)
unfolding to_media_bridge
to_media_cases none m = inl (refl, refl)
to_media_cases (some media) m = inr (to_media m, refl, refl)

-- A test that refuses did not hold where nothing was refused.
passed :
    (b : Bool) (e : Error) (x : Option Error)
    → (if b then some e else x) ≡ none
    → (b ≡ false) × (x ≡ none)
passed true e x h = cc
passed false e x h = (refl, h)

or-false : (a b : Bool) → (a || b) ≡ false → (a ≡ false) × (b ≡ false)
or-false true b h = cc
or-false false b h = (refl, h)

not-false : (b : Bool) → not b ≡ false → b ≡ true
not-false true h = refl
not-false false h = cc

ne_zero : (n : ℕ) → (n == 0) ≡ false → n ≢ 0
ne_zero n h = λ e. ground arith

size_small : (max size : ℕ) → (not (max == 0) && ltb max size) ≡ false → (max ≡ 0) ⊎ (size ≤ max)
size_small max size h = elim (Bool-cases (max == 0)) [
  | inl z ↦ inl (ground arith)
  | inr n ↦ inr (ground arith)
]

outside-false :
    (now age ts : ℕ)
    → outside now age ts ≡ false
    → (age ≡ 0) ⊎ ((now ≤ ts + age) × (ts ≤ now + age + seconds 30))
outside-false now age ts h = elim (Bool-cases (age == 0)) [
  | inl z ↦ inl (ground arith)
  | inr n ↦ inr (ground arith)
]

validate-Acceptable :
    (now : Time) (h : HandlerConfig) (m : ClusterMessage)
    → validate now h.max_age h.max_size m ≡ none
    → m.target_node_id ≡ h.self
    → Acceptable now h m
unfolding validate
validate-Acceptable now h m e here =
    let (type, e1) = passed _ _ _ e in
    let (request, e2) = passed _ _ _ e1 in
    let (source, e3) = passed _ _ _ e2 in
    let (target, e4) = passed _ _ _ e3 in
    let (size, e5) = passed _ _ _ e4 in
    let (stamp, e6) = passed _ _ _ e5 in
    let (window, e7) = passed _ _ _ e6 in
    record {
      known = not-false _ (or-false _ _ type).1;
      named = request;
      from = source;
      small = size_small h.max_size (len m.payload) size;
      stamped = ne_zero m.timestamp stamp;
      in_time = outside-false now h.max_age (unix_milli m.timestamp) window;
      here = here;
    }

abbrev Ends : Time → HandlerConfig → ClusterMessage → DedupCache → Option Error × List Call → Type 0
Ends now h m d x =
    Refused x
    ⊎ ((Acceptable now h m × (live now (lookup m.request_id d.seen) ≡ true) × (x ≡ (none, [])))
        ⊎ (Acceptable now h m × (live now (lookup m.request_id d.seen) ≡ false) × PassedOn m x))

new-Ends :
    (now : Time) (h : HandlerConfig) (m : ClusterMessage) (d : DedupCache)
    (x : Option Error × List Call)
    → Acceptable now h m
    → live now (lookup m.request_id d.seen) ≡ false
    → Refused x ⊎ PassedOn m x
    → Ends now h m d x
new-Ends now h m d x a n (inl refused) = inl refused
new-Ends now h m d x a n (inr passed) = inr (inr (a, n, passed))

-- A message comes to one of three ends. It is refused: it makes no call and is answered with an
-- error. Or it is acceptable and its request id is remembered: it makes no call and there is no
-- error. Or it is acceptable and its id is not remembered: it makes one call, which passes it on.
pub handle_lem :
    (now : Time) (h : HandlerConfig) (m : ClusterMessage) (d : DedupCache)
    → let x = (handle now h m d).0 in
      Refused x
      ⊎ ((Acceptable now h m × (live now (lookup m.request_id d.seen) ≡ true) × (x ≡ (none, [])))
          ⊎ (Acceptable now h m × (live now (lookup m.request_id d.seen) ≡ false) × PassedOn m x))
unfolding handle mark_seen
handle_lem now h m d = elim (Option-cases (validate now h.max_age h.max_size m)) [
  | inr (e, bad) ↦ inl (ground arith)
  | inl valid ↦ elim (Bool-cases (m.target_node_id =? h.self)) [
    | inr away ↦ inl (ground arith)
    | inl here ↦
        let ok =
          validate-Acceptable now h m valid ((string_eq.beq_iff m.target_node_id h.self).0 here) in
        elim (Bool-cases (live now (lookup m.request_id d.seen))) [
          | inl seen ↦ inr (inl (ok, seen, ground arith))
          | inr new ↦ elim (Bool-cases (starts_with m.type "media.")) [
            | inl media ↦
                let e : (handle now h m d).0 ≡ to_media_bridge h.media m = ground arith in
                subst (Ends now h m d) (sym e)
                  (new-Ends now h m d (to_media_bridge h.media m) ok new (to_media_cases h.media m))
            | inr local ↦
                let e : (handle now h m d).0 ≡ to_local h.delivery m = ground arith in
                subst (Ends now h m d) (sym e)
                  (new-Ends now h m d (to_local h.delivery m) ok new (to_local_cases h.delivery m))
          ]
        ]
  ]
]
