-- ===== src/Connection/Progress.antt =====
-- How long a handshake takes, and that it can be finished.
use chatix_protocol.Base.{
  ℕ, ◌-◌, ◌≤◌, ◌≡◌, ◌≢◌, ◌⊎◌, inl, inr, refl, ok, arith, List, [], ◌∷◌, length,
}
use chatix_protocol.Base.{Result}
use chatix_protocol.Error.{ProtocolError}
use chatix_protocol.PacketType.{
  PacketType, client_hello, client_finish, auth_response, server_hello, server_accept,
  auth_challenge, auth_accept,
}
use chatix_protocol.Connection.{
  Role, ConnectionState, awaiting_client_hello, awaiting_client_finish, awaiting_auth,
  awaiting_server_hello, awaiting_server_accept, awaiting_auth_challenge, awaiting_auth_result,
  established, closing,
}
use chatix_protocol.Connection.Graph.{
  StateOf, Step, Step-StateOf, receive_client_hello, receive_client_finish, receive_auth_response,
  receive_server_hello, receive_server_accept, receive_auth_challenge, receive_auth_accept,
  receive_auth_reject, give_up, fail, leave, work, server_waits_hello, server_waits_finish,
  server_waits_auth, server_open, server_closed, client_waits_hello, client_waits_accept,
  client_waits_challenge, client_waits_result, client_open, client_closed,
}
use chatix_protocol.Connection.Handshake.{receive_all, first_accepted}

-- The packets that a handshake still waits for.
unfoldable pub remaining : ConnectionState → ℕ
remaining awaiting_client_hello = 3
remaining awaiting_client_finish = 2
remaining awaiting_auth = 1
remaining awaiting_server_hello = 4
remaining awaiting_server_accept = 3
remaining awaiting_auth_challenge = 2
remaining awaiting_auth_result = 1
remaining established = 0
remaining closing = 0

one_less_remains :
    {r : Role} {s t : ConnectionState} {p : PacketType}
    → Step r s p t
    → remaining t ≤ remaining s - 1
unfolding remaining
one_less_remains receive_client_hello = omega arith
one_less_remains receive_client_finish = omega arith
one_less_remains receive_auth_response = omega arith
one_less_remains receive_server_hello = omega arith
one_less_remains receive_server_accept = omega arith
one_less_remains receive_auth_challenge = omega arith
one_less_remains receive_auth_accept = omega arith
one_less_remains receive_auth_reject = omega arith
one_less_remains (give_up g) = omega arith
one_less_remains fail = omega arith
one_less_remains leave = omega arith
one_less_remains (work w) = omega arith

nothing_remains :
    {r : Role} {s : ConnectionState}
    → StateOf r s
    → remaining s ≤ 0
    → (s ≡ established) ⊎ (s ≡ closing)
unfolding remaining
nothing_remains server_waits_hello h = absurd (omega arith)
nothing_remains server_waits_finish h = absurd (omega arith)
nothing_remains server_waits_auth h = absurd (omega arith)
nothing_remains client_waits_hello h = absurd (omega arith)
nothing_remains client_waits_accept h = absurd (omega arith)
nothing_remains client_waits_challenge h = absurd (omega arith)
nothing_remains client_waits_result h = absurd (omega arith)
nothing_remains server_open h = inl refl
nothing_remains client_open h = inl refl
nothing_remains server_closed h = inr refl
nothing_remains client_closed h = inr refl

ended :
    {s t : ConnectionState}
    → (s ≡ established) ⊎ (s ≡ closing)
    → ◌≡◌ {A = Result ProtocolError ConnectionState} (ok s) (ok t)
    → (t ≡ established) ⊎ (t ≡ closing)
ended (inl e) h = inl cc
ended (inr e) h = inr cc

-- A handshake does not go on for ever: from a state of a side, once as many packets have been
-- accepted as the handshake still waits for (a server that has received nothing waits for three,
-- a client for four), the side is established or closing.
pub receive_all_ends :
    {r : Role} {s t : ConnectionState} (ps : List PacketType)
    → StateOf r s
    → remaining s ≤ length ps
    → receive_all r s ps ≡ ok t
    → (t ≡ established) ⊎ (t ≡ closing)
receive_all_ends {r} {s} {t} [] o h e = ended (nothing_remains o h) (unfold receive_all in e)
receive_all_ends {r} {s} {t} (p ∷ ps) o h e =
    let (u, step, rest) = first_accepted p ps o e in
    receive_all_ends {r = r} {s = u} {t = t} ps (Step-StateOf step)
      (omega (arith, one_less_remains step)) rest

-- From every state of a side but the closing one there is a list of packets, as many as the
-- handshake still waits for, that the side accepts one after the other and after which it is
-- established.
pub receive_all_can_establish :
    {r : Role} {s : ConnectionState}
    → StateOf r s
    → s ≢ closing
    → (ps : List PacketType) × (length ps ≡ remaining s) × (receive_all r s ps ≡ ok established)
unfolding receive_all remaining
receive_all_can_establish server_waits_hello h =
    (client_hello ∷ client_finish ∷ auth_response ∷ [], refl, refl)
receive_all_can_establish server_waits_finish h = (client_finish ∷ auth_response ∷ [], refl, refl)
receive_all_can_establish server_waits_auth h = (auth_response ∷ [], refl, refl)
receive_all_can_establish client_waits_hello h =
    (server_hello ∷ server_accept ∷ auth_challenge ∷ auth_accept ∷ [], refl, refl)
receive_all_can_establish client_waits_accept h =
    (server_accept ∷ auth_challenge ∷ auth_accept ∷ [], refl, refl)
receive_all_can_establish client_waits_challenge h = (auth_challenge ∷ auth_accept ∷ [], refl, refl)
receive_all_can_establish client_waits_result h = (auth_accept ∷ [], refl, refl)
receive_all_can_establish server_open h = ([], refl, refl)
receive_all_can_establish client_open h = ([], refl, refl)
receive_all_can_establish server_closed h = absurd (h refl)
receive_all_can_establish client_closed h = absurd (h refl)
