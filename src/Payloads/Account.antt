-- ===== src/Payloads/Account.antt =====
-- src/payloads/account_payloads.rs: the status of an account.
pub mod Inverse
pub mod RoundTrip
pub mod Total
use mathlib.Core.Bool.{not}
use chatix_protocol.Base.{
  ℕ, Bool, List, [], ◌∷◌, ◌++◌, ok, err, ◌>>=◌, ◌>>◌, ◌==◌, if◌then◌else◌, length, index, slice,
  slice_from, to_be_bytes, from_be_bytes,
}
use chatix_protocol.Error.{IoResult, data_error}
use chatix_protocol.Payloads.Common.{
  encode_sized_string, decode_sized_string, add_usize, require_fully_consumed, decode_bool,
  encode_bool, try_into,
}

-- A payload with no fields is the unit type.
abbrev pub QueryAccountStatusPayload : Type 0
QueryAccountStatusPayload = Unit {0}

unfoldable pub encode_query_account_status : QueryAccountStatusPayload → List ℕ
encode_query_account_status p = []

unfoldable pub decode_query_account_status : List ℕ → IoResult QueryAccountStatusPayload
unfolding require_fully_consumed
decode_query_account_status bytes = do require_fully_consumed bytes 0 "query_account_status"; ok tt

pub record AccountStatusResponsePayload : Type 0 where
  pub is_banned : Bool
  pub ban_reason : List ℕ
  pub subscription_active : Bool
  pub subscription_expiry_timestamp : ℕ

unfoldable pub encode_account_status_response : AccountStatusResponsePayload → IoResult (List ℕ)
unfolding encode_bool
encode_account_status_response p = do
  ban_reason ← encode_sized_string p.ban_reason
  ok (
      encode_bool p.is_banned
      ∷ (ban_reason
          ++ encode_bool p.subscription_active ∷ to_be_bytes 8 p.subscription_expiry_timestamp))

unfoldable pub decode_account_status_response : List ℕ → IoResult AccountStatusResponsePayload
unfolding require_fully_consumed decode_bool try_into
decode_account_status_response bytes = do
  (if length bytes == 0
      then err (data_error "account_status_response payload too short")
      else ok tt)
  first ← index bytes 0
  is_banned ← decode_bool first "account_status_response is_banned"
  after_flag ← slice_from bytes 1
  (ban_reason, consumed) ← decode_sized_string after_flag
  rest ← slice_from bytes (add_usize 1 consumed)
  (if not (length rest == 9)
      then err (data_error "account_status_response missing subscription fields")
      else ok tt)
  active ← index rest 0
  subscription_active ← decode_bool active "account_status_response subscription_active"
  tail ← slice rest 1 9
  expiry ← try_into 8 tail (data_error "failed to decode account_status_response expiry")
  require_fully_consumed bytes (add_usize (add_usize 1 consumed) 9) "account_status_response"
  ok (record {
    is_banned = is_banned;
    ban_reason = ban_reason;
    subscription_active = subscription_active;
    subscription_expiry_timestamp = from_be_bytes expiry;
  })
