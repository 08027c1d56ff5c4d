-- ===== src/Tests/Payloads.antt =====
-- The payloads at concrete inputs.
use chatix_protocol.Base.{
  AreBytes, ◌≤◌, ◌↔◌, length, ℕ, ◌≡◌, ◌≢◌, refl, arith, List, [], ◌∷◌, ok, err, panic, ◌>>=◌,
  to_be_bytes, from_be_bytes, slice, slice_to, slice_from, index,
}
use chatix_protocol.PacketType.{send_message, close, client_finish, max_payload_size}
use chatix_protocol.Error.{data_error}
use chatix_protocol.Payloads.Common.{
  encode_sized_string, decode_sized_string, encode_sized_bytes, decode_sized_bytes, try_into,
}
use chatix_protocol.Payloads.Common.Utf8.{is_utf8, from_utf8}
use chatix_protocol.Payloads.Common.Sized.{IsSizedString}
use chatix_protocol.Payloads.Message.{SendMessagePayload, encode_send_message, decode_send_message}
use chatix_protocol.Payloads.OfType.{encode_payload, decode_payload, IsPayload}
use chatix_protocol.Payloads.OfType.RoundTrip.{decode_payload-encode_payload}
use chatix_protocol.Payloads.OfType.Inverse.{decode_payload_iff}
use chatix_protocol.Payloads.OfType.Limits.{Fits, encode_payload-Fits}
use chatix_protocol.Payloads.Hello.{decode_client_finish}
use chatix_protocol.Payloads.Common.{decode_bool}
use chatix_protocol.Error.{invalid_data, text}
use chatix_protocol.Payloads.OfType.Total.{decode_payload-ne-panic}

-- "bé", in UTF-8.
abbrev name : List ℕ
name = 98 ∷ 195 ∷ 169 ∷ []

abbrev message : SendMessagePayload
message = record { message_id = 300; recipient_id = name; content = 1 ∷ 2 ∷ [] }

abbrev message_bytes : List ℕ
message_bytes = 0 ∷ 0 ∷ 0 ∷ 0 ∷ 0 ∷ 0 ∷ 1 ∷ 44 ∷ 0 ∷ 3 ∷ 98 ∷ 195 ∷ 169 ∷ 0 ∷ 0 ∷ 0 ∷ 2 ∷ 1 ∷ 2 ∷ []

encode_test : encode_send_message message ≡ ok message_bytes
unfolding encode_send_message encode_sized_string encode_sized_bytes to_be_bytes
encode_test = refl

decode_test : decode_send_message message_bytes ≡ ok message
unfolding decode_send_message decode_sized_string decode_sized_bytes from_be_bytes slice slice_to
    slice_from index try_into from_utf8 is_utf8
decode_test = refl

-- An overlong encoding is no text.
utf8_test : from_utf8 (0xc0 ∷ 0x80 ∷ []) ≡ err (data_error "string is not valid UTF-8")
unfolding from_utf8 is_utf8
utf8_test = refl

name-IsSizedString : IsSizedString name
unfolding is_utf8
name-IsSizedString = record {
  text = record { bytes = (omega arith, (omega arith, (omega arith, tt))); utf8 = refl };
  short = omega arith;
}

message-IsPayload : IsPayload send_message message
unfolding IsPayload
message-IsPayload = (omega arith, name-IsSizedString, omega arith)

decode_payload-encode_payload_example :
    (encode_payload send_message message >>= decode_payload send_message) ≡ ok message
decode_payload-encode_payload_example =
    decode_payload-encode_payload send_message message message-IsPayload

decode_payload-ne-panic_example : decode_payload close (9 ∷ 0 ∷ 255 ∷ []) ≢ panic
decode_payload-ne-panic_example = decode_payload-ne-panic close (9 ∷ 0 ∷ 255 ∷ [])

abbrev string_bytes : List ℕ
string_bytes = 0 ∷ 2 ∷ 104 ∷ 105 ∷ 7 ∷ []

string_read : decode_sized_string string_bytes ≡ ok (104 ∷ 105 ∷ [], 4)
unfolding decode_sized_string from_be_bytes slice index from_utf8 is_utf8
string_read = refl

abbrev content_bytes : List ℕ
content_bytes = 0 ∷ 0 ∷ 0 ∷ 1 ∷ 200 ∷ []

content_read : decode_sized_bytes content_bytes ≡ ok (200 ∷ [], 5)
unfolding decode_sized_bytes from_be_bytes slice index
content_read = refl

message_bytes-AreBytes : AreBytes message_bytes
message_bytes-AreBytes = (
  omega arith,
  (
    omega arith,
    (
      omega arith,
      (
        omega arith,
        (
          omega arith,
          (
            omega arith,
            (
              omega arith,
              (
                omega arith,
                (
                  omega arith,
                  (
                    omega arith,
                    (
                      omega arith,
                      (
                        omega arith,
                        (
                          omega arith,
                          (
                            omega arith,
                            (
                              omega arith,
                              (omega arith, (omega arith, (omega arith, (omega arith, tt)))),
                            ),
                          ),
                        ),
                      ),
                    ),
                  ),
                ),
              ),
            ),
          ),
        ),
      ),
    ),
  ),
)

message_encoded : encode_payload send_message message ≡ ok message_bytes
unfolding encode_payload
message_encoded = encode_test

decode_payload_iff_example :
    (decode_payload send_message message_bytes ≡ ok message)
    ↔ (IsPayload send_message message × (encode_payload send_message message ≡ ok message_bytes))
decode_payload_iff_example =
    decode_payload_iff send_message message_bytes message message_bytes-AreBytes

-- A flag that is neither 0 nor 1, and a byte too many.
strict_test :
    (decode_payload client_finish (2 ∷ [])
      ≡ err (record {
        kind = invalid_data;
        message = text "client_finish ready" ∷ text " must be encoded as 0 or 1" ∷ [];
      }))
    × (decode_payload client_finish (1 ∷ 0 ∷ [])
        ≡ err (data_error "client_finish payload must be exactly 1 byte"))
unfolding decode_payload decode_client_finish decode_bool index
strict_test = (refl, refl)

encode_payload-Fits_example :
    (length message_bytes ≤ max_payload_size send_message) ↔ Fits send_message message
encode_payload-Fits_example =
    encode_payload-Fits send_message message message-IsPayload message_encoded
