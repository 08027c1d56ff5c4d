-- ===== src/Payloads/Friend/RoundTrip.antt =====
-- The payloads of friends are read back as they were written.
use chatix_protocol.Base.{
  ◌<◌, ◌^◌, refl, to_be_bytes, length-to_be_bytes, from_be_bytes-to_be_bytes, slice-append, index,
  ℕ, ◌+◌, ◌≡◌, arith, Bool, List, [], ◌∷◌, ok, ◌>>=◌, length, index-append,
}
use mathlib.Core.List.{append-nil}
use chatix_protocol.Error.{IoError}
use chatix_protocol.Payloads.Common.{decode_bool, encode_bool, require_fully_consumed}
use chatix_protocol.Payloads.Common.Sized.{
  sized_string, encode_sized_string-ok, IsSizedString, length-sized_string,
  decode_sized_string-front, decode_sized_string-whole,
}
use chatix_protocol.Payloads.Common.{try_into}
use chatix_protocol.Payloads.Common.Sized.{slice_from-sized_string}
use chatix_protocol.Payloads.Friend.{
  FriendRequestStatus, FriendStatus, RemoveFriendStatus, accepted, rejected, user_not_found,
  success, not_found, online, offline, is_typing, friend_request_status_as_u8,
  friend_request_status_from_u8, remove_friend_status_as_u8, remove_friend_status_from_u8,
  friend_status_as_u8, friend_status_from_u8, encode_friend_request_result,
  decode_friend_request_result, encode_remove_friend_result, decode_remove_friend_result,
  encode_friend_status_update, decode_friend_status_update,
}
use chatix_protocol.Payloads.Friend.{
  encode_friend_request_decision, decode_friend_request_decision, encode_send_friend_request,
  decode_send_friend_request, encode_incoming_friend_request, decode_incoming_friend_request,
  encode_remove_friend, decode_remove_friend, encode_friend_removed_notification,
  decode_friend_removed_notification, encode_send_typing_indicator, decode_send_typing_indicator,
}

friend_status_from_u8_lem :
    (x : FriendStatus) → friend_status_from_u8 (friend_status_as_u8 x) ≡ ok x
unfolding friend_status_from_u8 friend_status_as_u8
friend_status_from_u8_lem online = refl
friend_status_from_u8_lem offline = refl
friend_status_from_u8_lem is_typing = refl

module _ (s : List ℕ) (v : IsSizedString s) where
  pub decode_send_friend_request_lem :
      (encode_send_friend_request (record { target_username = s }) >>= decode_send_friend_request)
      ≡ ok (record { target_username = s })
  unfolding encode_send_friend_request decode_send_friend_request require_fully_consumed
  decode_send_friend_request_lem =
      ground (arith, encode_sized_string-ok s v.short, decode_sized_string-whole s v)

  pub decode_incoming_friend_request_lem :
      (encode_incoming_friend_request (record { sender_username = s })
        >>= decode_incoming_friend_request)
      ≡ ok (record { sender_username = s })
  unfolding encode_incoming_friend_request decode_incoming_friend_request require_fully_consumed
  decode_incoming_friend_request_lem =
      ground (arith, encode_sized_string-ok s v.short, decode_sized_string-whole s v)

  pub decode_remove_friend_lem :
      (encode_remove_friend (record { friend_username = s }) >>= decode_remove_friend)
      ≡ ok (record { friend_username = s })
  unfolding encode_remove_friend decode_remove_friend require_fully_consumed
  decode_remove_friend_lem =
      ground (arith, encode_sized_string-ok s v.short, decode_sized_string-whole s v)

  pub decode_friend_removed_notification_lem :
      (encode_friend_removed_notification (record { removed_by_username = s })
        >>= decode_friend_removed_notification)
      ≡ ok (record { removed_by_username = s })
  unfolding encode_friend_removed_notification decode_friend_removed_notification
      require_fully_consumed
  decode_friend_removed_notification_lem =
      ground (arith, encode_sized_string-ok s v.short, decode_sized_string-whole s v)

  pub decode_send_typing_indicator_lem :
      (encode_send_typing_indicator (record { recipient_username = s })
        >>= decode_send_typing_indicator)
      ≡ ok (record { recipient_username = s })
  unfolding encode_send_typing_indicator decode_send_typing_indicator require_fully_consumed
  decode_send_typing_indicator_lem =
      ground (arith, encode_sized_string-ok s v.short, decode_sized_string-whole s v)

  pub decode_friend_request_decision_lem :
      (b : Bool)
      → (encode_friend_request_decision (record { sender_username = s; accepted = b })
          >>= decode_friend_request_decision)
        ≡ ok (record { sender_username = s; accepted = b })
  unfolding encode_friend_request_decision decode_friend_request_decision decode_bool encode_bool
  decode_friend_request_decision_lem b = ground (
    arith,
    encode_sized_string-ok s v.short,
    decode_sized_string-front s v (encode_bool b ∷ []),
    length-sized_string s (encode_bool b ∷ []),
    length-sized_string s [],
    append-nil (sized_string s),
    index-append {E = IoError} (sized_string s) (encode_bool b) [] (2 + length s),
    v.short,
  )

  pub decode_friend_status_update_lem :
      (x : FriendStatus) (n : ℕ)
      → n < 2 ^ 64
      → (encode_friend_status_update (record { friend_username = s; status = x; last_seen = n })
          >>= decode_friend_status_update)
        ≡ ok (record { friend_username = s; status = x; last_seen = n })
  unfolding encode_friend_status_update decode_friend_status_update try_into friend_status_from_u8
      index
  decode_friend_status_update_lem x n h = ground (
    arith,
    encode_sized_string-ok s v.short,
    decode_sized_string-front s v (friend_status_as_u8 x ∷ to_be_bytes 8 n),
    slice_from-sized_string s (friend_status_as_u8 x ∷ to_be_bytes 8 n),
    friend_status_from_u8_lem x,
    length-to_be_bytes 8 n,
    slice-append {E = IoError} (friend_status_as_u8 x ∷ []) (to_be_bytes 8 n) [] 1 9,
    append-nil (to_be_bytes 8 n),
    from_be_bytes-to_be_bytes 8 n,
  )

pub decode_friend_request_result_lem :
    (x : FriendRequestStatus)
    → decode_friend_request_result (encode_friend_request_result (record { status = x }))
      ≡ ok (record { status = x })
unfolding encode_friend_request_result decode_friend_request_result friend_request_status_as_u8
    friend_request_status_from_u8 index
decode_friend_request_result_lem accepted = refl
decode_friend_request_result_lem rejected = refl
decode_friend_request_result_lem user_not_found = refl

pub decode_remove_friend_result_lem :
    (x : RemoveFriendStatus)
    → decode_remove_friend_result (encode_remove_friend_result (record { status = x }))
      ≡ ok (record { status = x })
unfolding encode_remove_friend_result decode_remove_friend_result remove_friend_status_as_u8
    remove_friend_status_from_u8 index
decode_remove_friend_result_lem success = refl
decode_remove_friend_result_lem not_found = refl
