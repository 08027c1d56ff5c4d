-- ===== src/Connection/Graph.antt =====
-- The diagram of the protocol as a step relation, and that the code follows it.
use chatix_protocol.Base.{◌≡◌, ◌≤◌, ◌<◌, ◌↔◌, ◌⊎◌, inl, inr, refl, true, ok, arith}
use chatix_protocol.PacketType.{
  PacketType, direction, client_hello, client_finish, auth_response, server_hello, server_accept,
  auth_challenge, auth_accept, auth_reject, error, close, as_u8,
}
use chatix_protocol.Connection.{
  Role, client, server, ConnectionState, awaiting_client_hello, awaiting_client_finish,
  awaiting_auth, awaiting_server_hello, awaiting_server_accept, awaiting_auth_challenge,
  awaiting_auth_result, established, closing, initial, direction_allowed, validate_incoming,
  advance,
}

-- The states of each side. Both sides share the last two.
pub data StateOf : Role → ConnectionState → Type 0 where
  server_waits_hello : StateOf server awaiting_client_hello
  server_waits_finish : StateOf server awaiting_client_finish
  server_waits_auth : StateOf server awaiting_auth
  server_open : StateOf server established
  server_closed : StateOf server closing
  client_waits_hello : StateOf client awaiting_server_hello
  client_waits_accept : StateOf client awaiting_server_accept
  client_waits_challenge : StateOf client awaiting_auth_challenge
  client_waits_result : StateOf client awaiting_auth_result
  client_open : StateOf client established
  client_closed : StateOf client closing

-- The control and messaging packets, by the ranges of their codes, that a side may be sent.
pub record Works (r : Role) (p : PacketType) : Type 0 where
  pub sent_to : direction_allowed r (direction p) ≡ true
  pub low : 20 ≤ as_u8 p
  pub high : as_u8 p < 80

-- Where a handshake may be given up by an `Error` packet: everywhere but at its very start.
pub data GivesUp : Role → ConnectionState → Type 0 where
  finish_fails : GivesUp server awaiting_client_finish
  auth_fails : GivesUp server awaiting_auth
  hello_fails : GivesUp client awaiting_server_hello
  accept_fails : GivesUp client awaiting_server_accept
  challenge_fails : GivesUp client awaiting_auth_challenge
  result_fails : GivesUp client awaiting_auth_result

-- The protocol: side, state, packet received, next state.
pub data Step : Role → ConnectionState → PacketType → ConnectionState → Type 0 where
  receive_client_hello : Step server awaiting_client_hello client_hello awaiting_client_finish
  receive_client_finish : Step server awaiting_client_finish client_finish awaiting_auth
  receive_auth_response : Step server awaiting_auth auth_response established
  receive_server_hello : Step client awaiting_server_hello server_hello awaiting_server_accept
  receive_server_accept : Step client awaiting_server_accept server_accept awaiting_auth_challenge
  receive_auth_challenge : Step client awaiting_auth_challenge auth_challenge awaiting_auth_result
  receive_auth_accept : Step client awaiting_auth_result auth_accept established
  receive_auth_reject : Step client awaiting_auth_result auth_reject closing
  give_up : {r : Role} {s : ConnectionState} → GivesUp r s → Step r s error closing
  fail : {r : Role} → Step r established error closing
  leave : {r : Role} → Step r established close closing
  work : {r : Role} {p : PacketType} → Works r p → Step r established p established

pub initial-StateOf : (r : Role) → StateOf r (initial r)
unfolding initial
initial-StateOf client = client_waits_hello
initial-StateOf server = server_waits_hello

-- What an established connection accepts.
established_accepts :
    (r : Role) (p : PacketType)
    → validate_incoming established r p ≡ ok tt
    → (p ≡ error) ⊎ (p ≡ close) ⊎ (Works r p × (advance established p ≡ established))
unfolding validate_incoming advance as_u8
established_accepts r client_hello h = ground arith
established_accepts r _ h = ground arith

established-Step :
    (r : Role) (p : PacketType)
    → validate_incoming established r p ≡ ok tt
    → Step r established p (advance established p)
established-Step r p h = go (established_accepts r p h)
  where
    go :
        (p ≡ error) ⊎ (p ≡ close) ⊎ (Works r p × (advance established p ≡ established))
        → Step r established p (advance established p)
    go (inl e) = rw e (unfold advance in fail)
    go (inr (inl e)) = rw e (unfold advance in leave)
    go (inr (inr (w, e))) = rw e (work w)

-- A packet that passes `validate_incoming`, in a state of its side, is a step of the protocol.
pub validate_incoming-Step :
    {r : Role} {s : ConnectionState} (p : PacketType)
    → StateOf r s
    → validate_incoming s r p ≡ ok tt
    → Step r s p (advance s p)
unfolding validate_incoming advance
validate_incoming-Step client_hello server_waits_hello h = receive_client_hello
validate_incoming-Step _ server_waits_hello h = cc
validate_incoming-Step client_finish server_waits_finish h = receive_client_finish
validate_incoming-Step error server_waits_finish h = give_up finish_fails
validate_incoming-Step _ server_waits_finish h = cc
validate_incoming-Step auth_response server_waits_auth h = receive_auth_response
validate_incoming-Step error server_waits_auth h = give_up auth_fails
validate_incoming-Step _ server_waits_auth h = cc
validate_incoming-Step server_hello client_waits_hello h = receive_server_hello
validate_incoming-Step error client_waits_hello h = give_up hello_fails
validate_incoming-Step _ client_waits_hello h = cc
validate_incoming-Step server_accept client_waits_accept h = receive_server_accept
validate_incoming-Step error client_waits_accept h = give_up accept_fails
validate_incoming-Step _ client_waits_accept h = cc
validate_incoming-Step auth_challenge client_waits_challenge h = receive_auth_challenge
validate_incoming-Step error client_waits_challenge h = give_up challenge_fails
validate_incoming-Step _ client_waits_challenge h = cc
validate_incoming-Step auth_accept client_waits_result h = receive_auth_accept
validate_incoming-Step auth_reject client_waits_result h = receive_auth_reject
validate_incoming-Step error client_waits_result h = give_up result_fails
validate_incoming-Step _ client_waits_result h = cc
validate_incoming-Step p server_open h = established-Step server p h
validate_incoming-Step p client_open h = established-Step client p h
validate_incoming-Step client_hello server_closed h = cc
validate_incoming-Step _ server_closed h = cc
validate_incoming-Step client_hello client_closed h = cc
validate_incoming-Step _ client_closed h = cc

works_accepted :
    (r : Role) (p : PacketType)
    → Works r p
    → (validate_incoming established r p ≡ ok tt) × (advance established p ≡ established)
unfolding validate_incoming advance as_u8
works_accepted r client_hello w = ground arith
works_accepted r _ w = ground arith

-- Each step of the protocol passes `validate_incoming`, and `advance` takes it.
pub Step-validate_incoming :
    {r : Role} {s t : ConnectionState} {p : PacketType}
    → Step r s p t
    → (validate_incoming s r p ≡ ok tt) × (advance s p ≡ t)
unfolding validate_incoming advance
Step-validate_incoming receive_client_hello = (refl, refl)
Step-validate_incoming receive_client_finish = (refl, refl)
Step-validate_incoming receive_auth_response = (refl, refl)
Step-validate_incoming receive_server_hello = (refl, refl)
Step-validate_incoming receive_server_accept = (refl, refl)
Step-validate_incoming receive_auth_challenge = (refl, refl)
Step-validate_incoming receive_auth_accept = (refl, refl)
Step-validate_incoming receive_auth_reject = (refl, refl)
Step-validate_incoming (give_up finish_fails) = (refl, refl)
Step-validate_incoming (give_up auth_fails) = (refl, refl)
Step-validate_incoming (give_up hello_fails) = (refl, refl)
Step-validate_incoming (give_up accept_fails) = (refl, refl)
Step-validate_incoming (give_up challenge_fails) = (refl, refl)
Step-validate_incoming (give_up result_fails) = (refl, refl)
Step-validate_incoming (fail {r = client}) = (refl, refl)
Step-validate_incoming (fail {r = server}) = (refl, refl)
Step-validate_incoming (leave {r = client}) = (refl, refl)
Step-validate_incoming (leave {r = server}) = (refl, refl)
Step-validate_incoming (work {r} {p} w) = works_accepted r p w

pub Step-StateOf : {r : Role} {s t : ConnectionState} {p : PacketType} → Step r s p t → StateOf r t
Step-StateOf receive_client_hello = server_waits_finish
Step-StateOf receive_client_finish = server_waits_auth
Step-StateOf receive_auth_response = server_open
Step-StateOf receive_server_hello = client_waits_accept
Step-StateOf receive_server_accept = client_waits_challenge
Step-StateOf receive_auth_challenge = client_waits_result
Step-StateOf receive_auth_accept = client_open
Step-StateOf receive_auth_reject = client_closed
Step-StateOf (give_up {r = client} g) = client_closed
Step-StateOf (give_up {r = server} g) = server_closed
Step-StateOf (fail {r = client}) = client_closed
Step-StateOf (fail {r = server}) = server_closed
Step-StateOf (leave {r = client}) = client_closed
Step-StateOf (leave {r = server}) = server_closed
Step-StateOf (work {r = client} w) = client_open
Step-StateOf (work {r = server} w) = server_open

-- From a state that belongs to its side, `advance` on a packet that `validate_incoming` accepts
-- leads to a state of the same side.
pub advance-StateOf :
    {r : Role} {s : ConnectionState} (p : PacketType)
    → StateOf r s
    → validate_incoming s r p ≡ ok tt
    → StateOf r (advance s p)
advance-StateOf p o h = Step-StateOf (validate_incoming-Step p o h)

-- In a state that belongs to its side, a packet passes `validate_incoming` exactly when the
-- protocol graph, an independent inductive relation, has a step for it, and that step leads to
-- the state that `advance` gives.
pub validate_incoming_iff :
    {r : Role} {s : ConnectionState} (p : PacketType)
    → StateOf r s
    → (validate_incoming s r p ≡ ok tt) ↔ Step r s p (advance s p)
validate_incoming_iff p o = (validate_incoming-Step p o, λ st. (Step-validate_incoming st).0)
