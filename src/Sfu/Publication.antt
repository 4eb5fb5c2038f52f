-- ===== src/Sfu/Publication.antt =====
-- internal/sfu/publication.go: the sinks of one published track, and requests for a keyframe. The
-- lists that the source replaces by compare-and-swap change in one step each; `once` of a detach is
-- the fact that its id is given out once. Marshalling an RTCP packet does not fail.
pub mod Fanout
pub mod Keyframe
use pulse_rtc.Prelude.{
  ℕ, zero, suc, ◌+◌, ◌-◌, ◌*◌, ◌≤◌, ◌<◌, ◌≡◌, ◌≢◌, ◌↔◌, ◌⊎◌, inl, inr, refl, sym, ap, ◌∙◌, Bool,
  true, false, ◌&&◌, ◌||◌, not, Option, none, some, List, [], ◌∷◌, ◌++◌, map, String, arith, ltb,
  leb, ◌==◌, if◌then◌else◌, Bool-cases, Option-cases, length, length-append, take, drop, Eq, ◌=?◌,
  string_eq, All, All-append, is_some,
}
use pulse_rtc.Sfu.SendQueue.{SendQueue, Packet, QueueKind, audio, video, push}

pub record SubSink : Type 0 where
  pub id : ℕ
  pub q : SendQueue

-- `nil` of either list is the empty list.
pub record Publication : Type 0 where
  pub kind : QueueKind
  pub ssrc : ℕ
  pub source : String
  pub remote : Bool
  pub remote_rtcp_sink : Bool
  -- The room is known, and the publisher is in it.
  pub publisher_here : Bool
  -- Nanoseconds of the last request, 0 at first.
  pub last_keyframe : ℕ
  pub remote_sinks : List ℕ
  pub sink_seq : ℕ
  pub sub_sinks : List SubSink
  pub sub_seq : ℕ

abbrev pub keyframe_rate_limit : ℕ
keyframe_rate_limit = 1000000000

abbrev pub is_video : QueueKind → Bool
is_video audio = false
is_video video = true

-- The publication and the id that the detach keeps.
unfoldable pub attach_sink : SendQueue → Publication → Publication × ℕ
attach_sink q p =
    let id = suc p.sub_seq in
    (record p { sub_sinks = p.sub_sinks ++ (record { id = id; q = q } ∷ []); sub_seq = id }, id)

unfoldable pub without : ℕ → List SubSink → List SubSink
without id [] = []
without id (e ∷ es) = let rest = without id es in if e.id == id then rest else e ∷ rest

unfoldable pub detach : ℕ → Publication → Publication
detach id p = record p { sub_sinks = without id p.sub_sinks }

unfoldable pub add_remote_sink : Publication → Publication × ℕ
add_remote_sink p =
    let id = suc p.sink_seq in
    (record p { remote_sinks = p.remote_sinks ++ (id ∷ []); sink_seq = id }, id)

unfoldable pub without_remote : ℕ → List ℕ → List ℕ
without_remote id [] = []
without_remote id (e ∷ es) = let rest = without_remote id es in if e == id then rest else e ∷ rest

unfoldable pub remove_remote_sink : ℕ → Publication → Publication
remove_remote_sink id p = record p { remote_sinks = without_remote id p.remote_sinks }

unfoldable pub has_remote_sinks : Publication → Bool
has_remote_sinks p = ltb 0 (length p.remote_sinks)

-- The calls that `fanRemote` makes: the sink and the packet.
unfoldable pub fan_remote : Packet → Publication → List (ℕ × Packet)
fan_remote pkt p = map (λ id. (id, pkt)) p.remote_sinks

-- To whom a picture-loss indication goes.
pub data Pli : Type 0 where
  to_origin to_publisher : (ssrc : ℕ) → Pli

abbrev pub pli_of : Publication → List Pli
pli_of p =
    if p.remote
    then (if p.remote_rtcp_sink then to_origin p.ssrc ∷ [] else [])
    else if p.publisher_here
    then to_publisher p.ssrc ∷ []
    else []

-- `swapped` is the answer of the compare-and-swap, false where another caller was first. The clock
-- does not go back.
unfoldable pub request_keyframe : ℕ → Bool → Publication → Publication × List Pli
request_keyframe now swapped p =
    if not (is_video p.kind)
    then (p, [])
    else if ltb (now - p.last_keyframe) keyframe_rate_limit
    then (p, [])
    else if not swapped
    then (p, [])
    else (record p { last_keyframe = now }, pli_of p)

unfoldable pub push_all : Packet → List SubSink → List SubSink
push_all pkt [] = []
push_all pkt (e ∷ es) = record e { q = push pkt e.q } ∷ push_all pkt es

unfoldable pub write_rtp : Packet → Publication → Publication
write_rtp pkt p = record p { sub_sinks = push_all pkt p.sub_sinks }

abbrev pub default_source : QueueKind → String
default_source video = "camera"
default_source audio = "microphone"

unfoldable pub source_of : Publication → String
source_of p = if p.source =? "" then default_source p.kind else p.source

-- `queueKind`.
abbrev pub queue_kind : Publication → QueueKind
queue_kind p = p.kind
