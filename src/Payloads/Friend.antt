-- ===== src/Payloads/Friend.antt =====
-- src/payloads/friend_payloads.rs: friend requests, removals and status.
pub mod Inverse
pub mod RoundTrip
pub mod Total
use mathlib.Core.Bool.{not}
use chatix_protocol.Base.{
  ℕ, Bool, List, [], ◌∷◌, ◌++◌, ok, err, ◌>>=◌, ◌>>◌, ◌==◌, if◌then◌else◌, length, index, slice,
  slice_from, to_be_bytes, from_be_bytes,
}
use chatix_protocol.Error.{IoResult, data_error}
use chatix_protocol.Payloads.Common.{
  encode_sized_string, decode_sized_string, add_usize, require_fully_consumed, decode_bool,
  encode_bool, try_into,
}

pub record SendFriendRequestPayload : Type 0 where
  pub target_username : List ℕ

unfoldable pub encode_send_friend_request : SendFriendRequestPayload → IoResult (List ℕ)
encode_send_friend_request p = encode_sized_string p.target_username

unfoldable pub decode_send_friend_request : List ℕ → IoResult SendFriendRequestPayload
unfolding require_fully_consumed
decode_send_friend_request bytes = do
  (target_username, consumed) ← decode_sized_string bytes
  require_fully_consumed bytes consumed "send_friend_request"
  ok (record { target_username = target_username })

pub data FriendRequestStatus : Type 0 where
  accepted rejected user_not_found : FriendRequestStatus

unfoldable pub friend_request_status_as_u8 : FriendRequestStatus → ℕ
friend_request_status_as_u8 accepted = 0
friend_request_status_as_u8 rejected = 1
friend_request_status_as_u8 user_not_found = 2

unfoldable pub friend_request_status_from_u8 : ℕ → IoResult FriendRequestStatus
friend_request_status_from_u8 v =
    if v == 0
    then ok accepted
    else if v == 1
    then ok rejected
    else if v == 2
    then ok user_not_found
    else err (data_error "unknown friend_request status")

pub record FriendRequestResultPayload : Type 0 where
  pub status : FriendRequestStatus

unfoldable pub encode_friend_request_result : FriendRequestResultPayload → List ℕ
unfolding friend_request_status_as_u8
encode_friend_request_result p = friend_request_status_as_u8 p.status ∷ []

unfoldable pub decode_friend_request_result : List ℕ → IoResult FriendRequestResultPayload
unfolding friend_request_status_from_u8
decode_friend_request_result bytes = do
  (if not (length bytes == 1)
      then err (data_error "friend_request_result must be exactly 1 byte")
      else ok tt)
  byte ← index bytes 0
  status ← friend_request_status_from_u8 byte
  ok (record { status = status })

pub record IncomingFriendRequestPayload : Type 0 where
  pub sender_username : List ℕ

unfoldable pub encode_incoming_friend_request : IncomingFriendRequestPayload → IoResult (List ℕ)
encode_incoming_friend_request p = encode_sized_string p.sender_username

unfoldable pub decode_incoming_friend_request : List ℕ → IoResult IncomingFriendRequestPayload
unfolding require_fully_consumed
decode_incoming_friend_request bytes = do
  (sender_username, consumed) ← decode_sized_string bytes
  require_fully_consumed bytes consumed "incoming_friend_request"
  ok (record { sender_username = sender_username })

pub record FriendRequestDecisionPayload : Type 0 where
  pub sender_username : List ℕ
  pub accepted : Bool

unfoldable pub encode_friend_request_decision : FriendRequestDecisionPayload → IoResult (List ℕ)
unfolding encode_bool
encode_friend_request_decision p = do
  out ← encode_sized_string p.sender_username
  ok (out ++ encode_bool p.accepted ∷ [])

unfoldable pub decode_friend_request_decision : List ℕ → IoResult FriendRequestDecisionPayload
unfolding decode_bool
decode_friend_request_decision bytes = do
  (sender_username, consumed) ← decode_sized_string bytes
  (if not (length bytes == add_usize consumed 1)
      then err (data_error "friend_request_decision payload length mismatch")
      else ok tt)
  byte ← index bytes consumed
  is_accepted ← decode_bool byte "friend_request_decision accepted"
  ok (record { sender_username = sender_username; accepted = is_accepted })

pub record RemoveFriendPayload : Type 0 where
  pub friend_username : List ℕ

unfoldable pub encode_remove_friend : RemoveFriendPayload → IoResult (List ℕ)
encode_remove_friend p = encode_sized_string p.friend_username

unfoldable pub decode_remove_friend : List ℕ → IoResult RemoveFriendPayload
unfolding require_fully_consumed
decode_remove_friend bytes = do
  (friend_username, consumed) ← decode_sized_string bytes
  require_fully_consumed bytes consumed "remove_friend"
  ok (record { friend_username = friend_username })

pub data RemoveFriendStatus : Type 0 where
  success not_found : RemoveFriendStatus

unfoldable pub remove_friend_status_as_u8 : RemoveFriendStatus → ℕ
remove_friend_status_as_u8 success = 0
remove_friend_status_as_u8 not_found = 1

unfoldable pub remove_friend_status_from_u8 : ℕ → IoResult RemoveFriendStatus
remove_friend_status_from_u8 v =
    if v == 0
    then ok success
    else if v == 1
    then ok not_found
    else err (data_error "unknown remove_friend status")

pub record RemoveFriendResultPayload : Type 0 where
  pub status : RemoveFriendStatus

unfoldable pub encode_remove_friend_result : RemoveFriendResultPayload → List ℕ
unfolding remove_friend_status_as_u8
encode_remove_friend_result p = remove_friend_status_as_u8 p.status ∷ []

unfoldable pub decode_remove_friend_result : List ℕ → IoResult RemoveFriendResultPayload
unfolding remove_friend_status_from_u8
decode_remove_friend_result bytes = do
  (if not (length bytes == 1)
      then err (data_error "remove_friend_result must be exactly 1 byte")
      else ok tt)
  byte ← index bytes 0
  status ← remove_friend_status_from_u8 byte
  ok (record { status = status })

pub record FriendRemovedNotificationPayload : Type 0 where
  pub removed_by_username : List ℕ

unfoldable pub encode_friend_removed_notification :
    FriendRemovedNotificationPayload → IoResult (List ℕ)
encode_friend_removed_notification p = encode_sized_string p.removed_by_username

unfoldable pub decode_friend_removed_notification :
    List ℕ → IoResult FriendRemovedNotificationPayload
unfolding require_fully_consumed
decode_friend_removed_notification bytes = do
  (removed_by_username, consumed) ← decode_sized_string bytes
  require_fully_consumed bytes consumed "friend_removed_notification"
  ok (record { removed_by_username = removed_by_username })

pub data FriendStatus : Type 0 where
  online offline is_typing : FriendStatus

unfoldable pub friend_status_as_u8 : FriendStatus → ℕ
friend_status_as_u8 online = 0
friend_status_as_u8 offline = 1
friend_status_as_u8 is_typing = 2

unfoldable pub friend_status_from_u8 : ℕ → IoResult FriendStatus
friend_status_from_u8 v =
    if v == 0
    then ok online
    else if v == 1
    then ok offline
    else if v == 2
    then ok is_typing
    else err (data_error "unknown friend_status value")

pub record FriendStatusUpdatePayload : Type 0 where
  pub friend_username : List ℕ
  pub status : FriendStatus
  pub last_seen : ℕ

unfoldable pub encode_friend_status_update : FriendStatusUpdatePayload → IoResult (List ℕ)
unfolding friend_status_as_u8
encode_friend_status_update p = do
  out ← encode_sized_string p.friend_username
  ok (out ++ friend_status_as_u8 p.status ∷ to_be_bytes 8 p.last_seen)

unfoldable pub decode_friend_status_update : List ℕ → IoResult FriendStatusUpdatePayload
unfolding friend_status_from_u8 try_into
decode_friend_status_update bytes = do
  (friend_username, consumed) ← decode_sized_string bytes
  rest ← slice_from bytes consumed
  (if not (length rest == 9)
      then err (data_error "friend_status_update missing status/last_seen fields")
      else ok tt)
  byte ← index rest 0
  status ← friend_status_from_u8 byte
  tail ← slice rest 1 9
  last_seen ← try_into 8 tail (data_error "failed to decode friend_status_update last_seen")
  ok (record {
    friend_username = friend_username;
    status = status;
    last_seen = from_be_bytes last_seen;
  })

pub record SendTypingIndicatorPayload : Type 0 where
  pub recipient_username : List ℕ

unfoldable pub encode_send_typing_indicator : SendTypingIndicatorPayload → IoResult (List ℕ)
encode_send_typing_indicator p = encode_sized_string p.recipient_username

unfoldable pub decode_send_typing_indicator : List ℕ → IoResult SendTypingIndicatorPayload
unfolding require_fully_consumed
decode_send_typing_indicator bytes = do
  (recipient_username, consumed) ← decode_sized_string bytes
  require_fully_consumed bytes consumed "send_typing_indicator"
  ok (record { recipient_username = recipient_username })
