-- ===== src/Tests/Connection.antt =====
-- The states of a connection at concrete inputs.
use chatix_protocol.Base.{◌≢◌, ◌⊎◌, ◌≤◌, length, arith}
use chatix_protocol.Connection.Progress.{remaining, receive_all_ends, receive_all_can_establish}
use chatix_protocol.Base.{◌≡◌, ◌↔◌, refl, ok, err, List, [], ◌∷◌, All}
use chatix_protocol.Error.{invalid_state_transition}
use chatix_protocol.PacketType.{
  PacketType, client_hello, client_finish, auth_response, send_message, server_hello, server_accept,
  auth_challenge, auth_accept, auth_reject, ping, deliver_message, close, error,
}
use chatix_protocol.Connection.{
  client, server, initial, awaiting_auth_result, awaiting_client_finish, awaiting_client_hello,
  established, closing, validate_incoming, advance,
}
use chatix_protocol.Connection.Graph.{
  StateOf, Step, Works, server_waits_finish, client_waits_result, validate_incoming_iff,
  advance-StateOf,
}
use chatix_protocol.Connection.Handshake.{receive_all, server_handshake, client_handshake}

abbrev server_run : List PacketType
server_run = client_hello ∷ client_finish ∷ auth_response ∷ ping ∷ send_message ∷ []

abbrev client_run : List PacketType
client_run = server_hello ∷ server_accept ∷ auth_challenge ∷ auth_accept ∷ deliver_message ∷ []

server_run_test : receive_all server (initial server) server_run ≡ ok established
unfolding receive_all initial
server_run_test = refl

client_run_test : receive_all client (initial client) client_run ≡ ok established
unfolding receive_all initial
client_run_test = refl

rejected_test :
    receive_all client
      (initial client)
      (server_hello ∷ server_accept ∷ auth_challenge ∷ auth_reject ∷ ping ∷ [])
    ≡ err invalid_state_transition
unfolding receive_all initial
rejected_test = refl

-- Before a connection is established, a `Close` is refused.
early_close_test :
    validate_incoming awaiting_client_finish server close ≡ err invalid_state_transition
unfolding validate_incoming
early_close_test = refl

-- The first packet of a client is not an `Error`.
early_error_test :
    validate_incoming awaiting_client_hello server error ≡ err invalid_state_transition
unfolding validate_incoming
early_error_test = refl

auth_reject_accepted : validate_incoming awaiting_auth_result client auth_reject ≡ ok tt
unfolding validate_incoming
auth_reject_accepted = refl

ping_accepted :
    (validate_incoming established client ping ≡ ok tt)
    × (validate_incoming established server ping ≡ ok tt)
unfolding validate_incoming
ping_accepted = (refl, refl)

server_handshake_example :
    (rest : List PacketType) × (server_run ≡ client_hello ∷ client_finish ∷ auth_response ∷ rest)
    × All (Works server) rest
server_handshake_example = server_handshake server_run server_run_test

client_handshake_example :
    (rest : List PacketType) × (client_run
      ≡ server_hello ∷ server_accept ∷ auth_challenge ∷ auth_accept ∷ rest)
    × All (Works client) rest
client_handshake_example = client_handshake client_run client_run_test

validate_incoming_iff_example :
    (validate_incoming awaiting_client_finish server client_finish ≡ ok tt)
    ↔ Step server awaiting_client_finish client_finish
        (advance awaiting_client_finish client_finish)
validate_incoming_iff_example = validate_incoming_iff client_finish server_waits_finish

advance-StateOf_example : StateOf client (advance awaiting_auth_result auth_reject)
advance-StateOf_example = advance-StateOf auth_reject client_waits_result auth_reject_accepted

-- Two packets after its hello, a server has finished the handshake.
server_finished :
    receive_all server awaiting_client_finish (client_finish ∷ auth_response ∷ []) ≡ ok established
unfolding receive_all
server_finished = refl

two_remain : remaining awaiting_client_finish ≤ 2
unfolding remaining
two_remain = omega arith

receive_all_ends_example : (established ≡ established) ⊎ (established ≡ closing)
receive_all_ends_example =
    receive_all_ends (client_finish ∷ auth_response ∷ []) server_waits_finish two_remain
      server_finished

not_closing : awaiting_auth_result ≢ closing
not_closing h = cc

receive_all_can_establish_example :
    (ps : List PacketType) × (length ps ≡ remaining awaiting_auth_result)
    × (receive_all client awaiting_auth_result ps ≡ ok established)
receive_all_can_establish_example = receive_all_can_establish client_waits_result not_closing
