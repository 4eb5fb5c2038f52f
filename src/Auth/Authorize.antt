-- ===== src/Auth/Authorize.antt =====
-- internal/auth/permissions.go, claims.go: what an identity may do. An identity is `none` where the
-- source has nil, and the answer `none` is no error.
use pulse_rtc.Prelude.{
  ◌≡◌, ◌↔◌, Bool, true, false, ◌&&◌, ◌||◌, not, Option, none, some, String, arith, if◌then◌else◌,
  ◌=?◌, string_eq,
}
use pulse_rtc.Prelude.Text.{is_blank}
use pulse_rtc.Auth.Errors.{
  AuthError, missing, join_denied, room_access_denied, publish_denied, subscribe_denied,
  control_denied, Identity,
}

unfoldable pub room_allowed : Identity → String → Bool
room_allowed i room = if is_blank i.room then true else i.room =? room

unfoldable pub authorize_join : Option Identity → String → Option AuthError
unfolding room_allowed
authorize_join none room = some missing
authorize_join (some i) room =
    if not i.permissions.join
    then some join_denied
    else if not (room_allowed i room)
    then some room_access_denied
    else none

unfoldable pub authorize_publish : Option Identity → Option AuthError
authorize_publish none = some missing
authorize_publish (some i) = if not i.permissions.publish then some publish_denied else none

unfoldable pub authorize_subscribe : Option Identity → Option AuthError
authorize_subscribe none = some missing
authorize_subscribe (some i) = if not i.permissions.subscribe then some subscribe_denied else none

unfoldable pub authorize_control : Option Identity → Option AuthError
authorize_control none = some missing
authorize_control (some i) = if not i.permissions.control then some control_denied else none

-- There is an identity, and the test holds of it.
abbrev pub may : Option Identity → (Identity → Bool) → Bool
may none f = false
may (some i) f = f i

-- A participant may join a room exactly if it is authenticated, has the join permission, and its
-- token names that room or, up to spaces, no room. It may publish, subscribe or control others
-- exactly if it is authenticated with that permission; without an identity, every answer is that
-- authentication is missing.
pub authorize_lem :
    (o : Option Identity) (room : String)
    → ((authorize_join o room ≡ none)
        ↔ (may o (λ i. i.permissions.join && (is_blank i.room || (i.room =? room))) ≡ true))
      × ((authorize_publish o ≡ none) ↔ (may o (λ i. i.permissions.publish) ≡ true))
      × ((authorize_subscribe o ≡ none) ↔ (may o (λ i. i.permissions.subscribe) ≡ true))
      × ((authorize_control o ≡ none) ↔ (may o (λ i. i.permissions.control) ≡ true))
      × (o ≡ none
          → (authorize_join o room ≡ some missing)
            × (authorize_publish o ≡ some missing)
            × (authorize_subscribe o ≡ some missing)
            × (authorize_control o ≡ some missing))
unfolding authorize_join authorize_publish authorize_subscribe authorize_control room_allowed
authorize_lem none room = ground arith
authorize_lem (some i) room = ground arith
