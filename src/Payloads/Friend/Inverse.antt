-- ===== src/Payloads/Friend/Inverse.antt =====
-- The payloads of friends: what the decoders accept is what the encoders write.
use chatix_protocol.Base.{
  ℕ, ◌+◌, ◌≡◌, sym, subst, arith, List, [], ◌∷◌, ◌++◌, ok, AreBytes, length, slice, index, take_all,
  from_be_bytes, >>=-eq-ok, index-append,
}
use mathlib.Core.List.{append-nil}
use chatix_protocol.Error.{IoError}
use chatix_protocol.Payloads.Common.{
  try_into, require_fully_consumed, decode_bool, encode_bool, decode_sized_string,
}
use chatix_protocol.Payloads.Common.Sized.{
  sized_string, IsSizedString, encode_sized_string-ok, decode_sized_string-front,
  length-sized_string, slice_from-sized_string,
}
use chatix_protocol.Payloads.Common.Inverse.{
  decode_sized_string-IsSizedString, from_be_bytes_small, decode_sized_string-whole_inv,
  decode_sized_string-front_inv, to_be_bytes_inv,
}
use chatix_protocol.PacketType.{
  send_friend_request, friend_request_result, incoming_friend_request, friend_request_decision,
  remove_friend, remove_friend_result, friend_removed_notification, friend_status_update,
  send_typing_indicator,
}
use chatix_protocol.Payloads.OfType.{IsPayload}
use chatix_protocol.Payloads.Friend.{
  SendFriendRequestPayload, encode_send_friend_request, decode_send_friend_request,
  FriendRequestResultPayload, encode_friend_request_result, decode_friend_request_result,
  IncomingFriendRequestPayload, encode_incoming_friend_request, decode_incoming_friend_request,
  FriendRequestDecisionPayload, encode_friend_request_decision, decode_friend_request_decision,
  RemoveFriendPayload, encode_remove_friend, decode_remove_friend, RemoveFriendResultPayload,
  encode_remove_friend_result, decode_remove_friend_result, FriendRemovedNotificationPayload,
  encode_friend_removed_notification, decode_friend_removed_notification, FriendStatusUpdatePayload,
  encode_friend_status_update, decode_friend_status_update, SendTypingIndicatorPayload,
  encode_send_typing_indicator, decode_send_typing_indicator, friend_request_status_from_u8,
  friend_request_status_as_u8, remove_friend_status_from_u8, remove_friend_status_as_u8,
  friend_status_from_u8, friend_status_as_u8,
}

pub decode_send_friend_request_inv :
    (bytes : List ℕ) (p : SendFriendRequestPayload)
    → AreBytes bytes
    → decode_send_friend_request bytes ≡ ok p
    → IsPayload send_friend_request p × (encode_send_friend_request p ≡ ok bytes)
unfolding encode_send_friend_request decode_send_friend_request require_fully_consumed IsPayload
decode_send_friend_request_inv bytes p h e =
    let ((s, n), d, e') = >>=-eq-ok (decode_sized_string bytes) _ e in
    let (short, q) = decode_sized_string-whole_inv bytes h d in
    let same : p.target_username ≡ s = ground arith in
    (subst IsSizedString (sym same) (decode_sized_string-IsSizedString bytes h d), ground arith)

pub decode_incoming_friend_request_inv :
    (bytes : List ℕ) (p : IncomingFriendRequestPayload)
    → AreBytes bytes
    → decode_incoming_friend_request bytes ≡ ok p
    → IsPayload incoming_friend_request p × (encode_incoming_friend_request p ≡ ok bytes)
unfolding encode_incoming_friend_request decode_incoming_friend_request require_fully_consumed
    IsPayload
decode_incoming_friend_request_inv bytes p h e =
    let ((s, n), d, e') = >>=-eq-ok (decode_sized_string bytes) _ e in
    let (short, q) = decode_sized_string-whole_inv bytes h d in
    let same : p.sender_username ≡ s = ground arith in
    (subst IsSizedString (sym same) (decode_sized_string-IsSizedString bytes h d), ground arith)

pub decode_remove_friend_inv :
    (bytes : List ℕ) (p : RemoveFriendPayload)
    → AreBytes bytes
    → decode_remove_friend bytes ≡ ok p
    → IsPayload remove_friend p × (encode_remove_friend p ≡ ok bytes)
unfolding encode_remove_friend decode_remove_friend require_fully_consumed IsPayload
decode_remove_friend_inv bytes p h e =
    let ((s, n), d, e') = >>=-eq-ok (decode_sized_string bytes) _ e in
    let (short, q) = decode_sized_string-whole_inv bytes h d in
    let same : p.friend_username ≡ s = ground arith in
    (subst IsSizedString (sym same) (decode_sized_string-IsSizedString bytes h d), ground arith)

pub decode_friend_removed_notification_inv :
    (bytes : List ℕ) (p : FriendRemovedNotificationPayload)
    → AreBytes bytes
    → decode_friend_removed_notification bytes ≡ ok p
    → IsPayload friend_removed_notification p × (encode_friend_removed_notification p ≡ ok bytes)
unfolding encode_friend_removed_notification decode_friend_removed_notification
    require_fully_consumed IsPayload
decode_friend_removed_notification_inv bytes p h e =
    let ((s, n), d, e') = >>=-eq-ok (decode_sized_string bytes) _ e in
    let (short, q) = decode_sized_string-whole_inv bytes h d in
    let same : p.removed_by_username ≡ s = ground arith in
    (subst IsSizedString (sym same) (decode_sized_string-IsSizedString bytes h d), ground arith)

pub decode_send_typing_indicator_inv :
    (bytes : List ℕ) (p : SendTypingIndicatorPayload)
    → AreBytes bytes
    → decode_send_typing_indicator bytes ≡ ok p
    → IsPayload send_typing_indicator p × (encode_send_typing_indicator p ≡ ok bytes)
unfolding encode_send_typing_indicator decode_send_typing_indicator require_fully_consumed IsPayload
decode_send_typing_indicator_inv bytes p h e =
    let ((s, n), d, e') = >>=-eq-ok (decode_sized_string bytes) _ e in
    let (short, q) = decode_sized_string-whole_inv bytes h d in
    let same : p.recipient_username ≡ s = ground arith in
    (subst IsSizedString (sym same) (decode_sized_string-IsSizedString bytes h d), ground arith)

pub decode_friend_request_result_inv :
    (bytes : List ℕ) (p : FriendRequestResultPayload)
    → AreBytes bytes
    → decode_friend_request_result bytes ≡ ok p
    → IsPayload friend_request_result p × (encode_friend_request_result p ≡ bytes)
unfolding encode_friend_request_result decode_friend_request_result IsPayload index
    friend_request_status_from_u8 friend_request_status_as_u8
decode_friend_request_result_inv bytes p h e = (tt, grind (arith))

pub decode_remove_friend_result_inv :
    (bytes : List ℕ) (p : RemoveFriendResultPayload)
    → AreBytes bytes
    → decode_remove_friend_result bytes ≡ ok p
    → IsPayload remove_friend_result p × (encode_remove_friend_result p ≡ bytes)
unfolding encode_remove_friend_result decode_remove_friend_result IsPayload index
    remove_friend_status_from_u8 remove_friend_status_as_u8
decode_remove_friend_result_inv bytes p h e = (tt, grind (arith))

module _ (s : List ℕ) (v : IsSizedString s) where
  friend_request_decision_after :
      (rest : List ℕ) (p : FriendRequestDecisionPayload)
      → AreBytes rest
      → decode_friend_request_decision (sized_string s ++ rest) ≡ ok p
      → IsPayload friend_request_decision p
        × (encode_friend_request_decision p ≡ ok (sized_string s ++ rest))
  unfolding encode_friend_request_decision decode_friend_request_decision decode_bool encode_bool
      IsPayload
  friend_request_decision_after [] p h e =
      absurd (ground (arith, decode_sized_string-front s v [], length-sized_string s [], v.short))
  friend_request_decision_after (b ∷ []) p h e =
      let same : p.sender_username ≡ s = ground (arith, decode_sized_string-front s v (b ∷ [])) in
      (
        subst IsSizedString (sym same) v,
        ground (
          arith,
          encode_sized_string-ok s v.short,
          decode_sized_string-front s v (b ∷ []),
          length-sized_string s (b ∷ []),
          index-append {E = IoError} (sized_string s) b [] (2 + length s),
          length-sized_string s [],
          append-nil (sized_string s),
          v.short,
        ),
      )
  friend_request_decision_after (b ∷ c ∷ rest) p h e = absurd (
      ground (
        arith,
        decode_sized_string-front s v (b ∷ c ∷ rest),
        length-sized_string s (b ∷ c ∷ rest),
        v.short,
      ))

  friend_status_update_after :
      (rest : List ℕ) (p : FriendStatusUpdatePayload)
      → AreBytes rest
      → decode_friend_status_update (sized_string s ++ rest) ≡ ok p
      → IsPayload friend_status_update p
        × (encode_friend_status_update p ≡ ok (sized_string s ++ rest))
  unfolding encode_friend_status_update decode_friend_status_update friend_status_from_u8
      friend_status_as_u8 try_into slice index IsPayload
  friend_status_update_after [] p h e =
      absurd (ground (arith, decode_sized_string-front s v [], slice_from-sized_string s []))
  friend_status_update_after (b ∷ rest) p h e =
      let same : p.friend_username ≡ s = ground (arith, decode_sized_string-front s v (b ∷ rest)) in
      let size : length rest ≡ 8 =
        ground
          (arith, decode_sized_string-front s v (b ∷ rest), slice_from-sized_string s (b ∷ rest)) in
      let seen : p.last_seen ≡ from_be_bytes rest = ground (
        arith,
        decode_sized_string-front s v (b ∷ rest),
        slice_from-sized_string s (b ∷ rest),
        take_all rest 8,
      ) in
      (
        (subst IsSizedString (sym same) v, omega (arith, seen, from_be_bytes_small rest h.1 size)),
        ground (
          arith,
          encode_sized_string-ok s v.short,
          decode_sized_string-front s v (b ∷ rest),
          slice_from-sized_string s (b ∷ rest),
          take_all rest 8,
          to_be_bytes_inv rest h.1,
          v.short,
        ),
      )

pub decode_friend_request_decision_inv :
    (bytes : List ℕ) (p : FriendRequestDecisionPayload)
    → AreBytes bytes
    → decode_friend_request_decision bytes ≡ ok p
    → IsPayload friend_request_decision p × (encode_friend_request_decision p ≡ ok bytes)
unfolding decode_friend_request_decision
decode_friend_request_decision_inv bytes p h e =
    let (s, rest, v, b, q) = decode_sized_string-front_inv bytes _ h e in
    rw q (friend_request_decision_after s v rest p b (rw q at e))

pub decode_friend_status_update_inv :
    (bytes : List ℕ) (p : FriendStatusUpdatePayload)
    → AreBytes bytes
    → decode_friend_status_update bytes ≡ ok p
    → IsPayload friend_status_update p × (encode_friend_status_update p ≡ ok bytes)
unfolding decode_friend_status_update
decode_friend_status_update_inv bytes p h e =
    let (s, rest, v, b, q) = decode_sized_string-front_inv bytes _ h e in
    rw q (friend_status_update_after s v rest p b (rw q at e))
