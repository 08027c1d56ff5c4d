-- ===== src/Payloads/Account/RoundTrip.antt =====
-- The status of an account is read back as it was written.
use chatix_protocol.Base.{
  ℕ, ◌+◌, ◌<◌, ◌^◌, ◌≡◌, arith, Bool, List, [], ◌∷◌, ◌++◌, ok, ◌>>=◌, length, to_be_bytes,
  length-to_be_bytes, from_be_bytes-to_be_bytes, slice_from-append, index, slice-append,
}
use mathlib.Core.List.{append-nil}
use chatix_protocol.Error.{IoError}
use chatix_protocol.Payloads.Common.{try_into, decode_bool, encode_bool, require_fully_consumed}
use chatix_protocol.Payloads.Common.Sized.{
  sized_string, encode_sized_string-ok, IsSizedString, length-sized_string,
  decode_sized_string-front,
}
use chatix_protocol.Payloads.Account.{
  encode_account_status_response, decode_account_status_response,
}

pub decode_account_status_response_lem :
    (banned : Bool) (s : List ℕ) (active : Bool) (n : ℕ)
    → IsSizedString s
    → n < 2 ^ 64
    → (encode_account_status_response (record {
      is_banned = banned;
      ban_reason = s;
      subscription_active = active;
      subscription_expiry_timestamp = n;
    })
        >>= decode_account_status_response)
      ≡ ok (record {
        is_banned = banned;
        ban_reason = s;
        subscription_active = active;
        subscription_expiry_timestamp = n;
      })
unfolding encode_account_status_response decode_account_status_response require_fully_consumed
    decode_bool encode_bool try_into index
decode_account_status_response_lem banned s active n v h =
    let after : List ℕ = encode_bool active ∷ to_be_bytes 8 n in
    ground (
      arith,
      encode_sized_string-ok s v.short,
      decode_sized_string-front s v after,
      length-sized_string s after,
      length-to_be_bytes 8 n,
      slice_from-append {E = IoError} (encode_bool banned ∷ []) (sized_string s ++ after) 1,
      slice_from-append {E = IoError} (encode_bool banned ∷ sized_string s) after (3 + length s),
      length-sized_string s [],
      append-nil (sized_string s),
      slice-append {E = IoError} (encode_bool active ∷ []) (to_be_bytes 8 n) [] 1 9,
      append-nil (to_be_bytes 8 n),
      from_be_bytes-to_be_bytes 8 n,
      v.short,
    )
