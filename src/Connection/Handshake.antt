-- ===== src/Connection/Handshake.antt =====
-- Runs of a connection: a packet is checked by `validate_incoming` and then given to `advance`, as
-- the comment on `advance` asks of its callers.
use chatix_protocol.Base.{
  ◌≡◌, ◌≢◌, refl, ok, err, arith, List, [], ◌∷◌, Option, none, some, All, Result, ◌>>=◌, ◌>>◌,
  >>=-eq-ok, ap, inl, inr, ◌⊎◌,
}
use chatix_protocol.Error.{ProtocolError, invalid_state_transition}
use chatix_protocol.PacketType.{
  PacketType, client_hello, client_finish, auth_response, server_hello, server_accept,
  auth_challenge, auth_accept,
}
use chatix_protocol.Connection.{
  Role, client, server, ConnectionState, awaiting_client_hello, awaiting_client_finish,
  awaiting_auth, awaiting_server_hello, awaiting_server_accept, awaiting_auth_challenge,
  awaiting_auth_result, established, closing, initial, validate_incoming, advance,
}
use chatix_protocol.Connection.Graph.{
  StateOf, Step, receive_client_hello, receive_client_finish, receive_auth_response,
  receive_server_hello, receive_server_accept, receive_auth_challenge, receive_auth_accept,
  receive_auth_reject, give_up, fail, leave, work, Works, validate_incoming-Step,
  server_waits_hello, server_waits_finish, server_waits_auth, server_open, client_waits_hello,
  client_waits_accept, client_waits_challenge, client_waits_result, client_open,
}

unfoldable pub receive : Role → ConnectionState → PacketType → Result ProtocolError ConnectionState
unfolding validate_incoming advance
receive role state p = do validate_incoming state role p; ok (advance state p)

unfoldable pub receive_all :
    Role → ConnectionState → List PacketType → Result ProtocolError ConnectionState
unfolding receive
receive_all role state [] = ok state
receive_all role state (p ∷ ps) = do next ← receive role state p; receive_all role next ps

accepted :
    (r : Role) (s : ConnectionState) (p : PacketType) (ps : List PacketType) {t : ConnectionState}
    → receive_all r s (p ∷ ps) ≡ ok t
    → (validate_incoming s r p ≡ ok tt) × (receive_all r (advance s p) ps ≡ ok t)
unfolding receive_all
accepted r s p ps h =
    let (u, e, rest) = >>=-eq-ok (receive r s p) (λ next. receive_all r next ps) h in
    let (v, passed, e') = >>=-eq-ok (validate_incoming s r p) (λ _. ok (advance s p)) e in
    (passed, cc)

ok-injective :
    {s t : ConnectionState} → ◌≡◌ {A = Result ProtocolError ConnectionState} (ok s) (ok t) → s ≡ t
ok-injective h = cc

-- The first packet of a run that succeeds is a step.
pub first_accepted :
    {r : Role} {s t : ConnectionState} (p : PacketType) (ps : List PacketType)
    → StateOf r s
    → receive_all r s (p ∷ ps) ≡ ok t
    → (u : ConnectionState) × Step r s p u × (receive_all r u ps ≡ ok t)
first_accepted {r} {s} p ps o h =
    let (passed, rest) = accepted r s p ps h in
    (advance s p, validate_incoming-Step p o passed, rest)

-- A connection that is closing refuses any packet, whichever side it is and whatever follows.
closing-receive_all :
    (r : Role) (p : PacketType) (ps : List PacketType)
    → receive_all r closing (p ∷ ps) ≡ err invalid_state_transition
unfolding receive_all
closing-receive_all r p ps = ground arith

closed_stays : (r : Role) (ps : List PacketType) → receive_all r closing ps ≢ ok established
closed_stays r [] h = unfold receive_all in cc
closed_stays r (p ∷ ps) h = cc (closing-receive_all r p ps)

-- A step from the established state closes the connection, or is work.
closes_or_works :
    {r : Role} {u : ConnectionState} {p : PacketType}
    → Step r established p u
    → (u ≡ closing) ⊎ (Works r p × (u ≡ established))
closes_or_works (give_up g) = elim g [ ]
closes_or_works fail = inl refl
closes_or_works leave = inl refl
closes_or_works (work w) = inr (w, refl)

-- A run that stays established is made of work packets alone.
pub established_run :
    {r : Role} (ps : List PacketType)
    → StateOf r established
    → receive_all r established ps ≡ ok established
    → All (Works r) ps
established_run [] o h = tt
established_run {r} (p ∷ ps) o h =
    let (u, step, rest) = first_accepted p ps o h in
    elim (closes_or_works step) [
      | inl closed ↦ absurd (closed_stays r ps (rw closed at rest))
      | inr (w, stays) ↦ (w, established_run ps o (rw stays at rest))
    ]

-- The packet that a handshake state waits for, and the state after it.
abbrev expected : ConnectionState → Option (PacketType × ConnectionState)
expected awaiting_client_hello = some (client_hello, awaiting_client_finish)
expected awaiting_client_finish = some (client_finish, awaiting_auth)
expected awaiting_auth = some (auth_response, established)
expected awaiting_server_hello = some (server_hello, awaiting_server_accept)
expected awaiting_server_accept = some (server_accept, awaiting_auth_challenge)
expected awaiting_auth_challenge = some (auth_challenge, awaiting_auth_result)
expected awaiting_auth_result = some (auth_accept, established)
expected established = none
expected closing = none

-- A step closes the connection, takes the expected packet, or is work.
closes_expected_or_established :
    {r : Role} {s u : ConnectionState} {p : PacketType}
    → Step r s p u
    → (u ≡ closing) ⊎ (expected s ≡ some (p, u)) ⊎ (s ≡ established)
closes_expected_or_established receive_client_hello = inr (inl refl)
closes_expected_or_established receive_client_finish = inr (inl refl)
closes_expected_or_established receive_auth_response = inr (inl refl)
closes_expected_or_established receive_server_hello = inr (inl refl)
closes_expected_or_established receive_server_accept = inr (inl refl)
closes_expected_or_established receive_auth_challenge = inr (inl refl)
closes_expected_or_established receive_auth_accept = inr (inl refl)
closes_expected_or_established receive_auth_reject = inl refl
closes_expected_or_established (give_up g) = inl refl
closes_expected_or_established fail = inl refl
closes_expected_or_established leave = inl refl
closes_expected_or_established (work w) = inr (inr refl)

same_state :
    {o : Option (PacketType × ConnectionState)} {p q : PacketType} {u t : ConnectionState}
    → o ≡ some (p, u)
    → o ≡ some (q, t)
    → u ≡ t
same_state e e' = cc

-- A run from a handshake state to the established one begins with the packet that is waited for.
expected_first :
    {r : Role} (s : ConnectionState) (q : PacketType) (t : ConnectionState) (ps : List PacketType)
    → expected s ≡ some (q, t)
    → StateOf r s
    → receive_all r s ps ≡ ok established
    → (rest : List PacketType) × (ps ≡ q ∷ rest) × (receive_all r t rest ≡ ok established)
unfolding receive_all
expected_first s q t [] e o h = absurd (cc (ap expected (ok-injective h)))
expected_first {r} s q t (p ∷ ps) e o h =
    let (u, step, rest) = first_accepted p ps o h in
    elim (closes_expected_or_established step) [
      | inl closed ↦ absurd (closed_stays r ps (rw closed at rest))
      | inr (inl e') ↦ (ps, cc, rw (same_state e' e) at rest)
      | inr (inr e') ↦ absurd (cc (ap expected e'))
    ]

-- A server that has accepted a list of packets and is then established has received a client
-- hello, a client finish and an authentication response first, in this order and with nothing
-- between them, and since then only packets of an established connection that may travel to it
-- and are neither an error nor a close.
pub server_handshake :
    (ps : List PacketType)
    → receive_all server (initial server) ps ≡ ok established
    → (rest : List PacketType) × (ps ≡ client_hello ∷ client_finish ∷ auth_response ∷ rest)
      × All (Works server) rest
unfolding initial
server_handshake ps h =
    let (a, ea, ha) = expected_first awaiting_client_hello _ _ ps refl server_waits_hello h in
    let (b, eb, hb) = expected_first awaiting_client_finish _ _ a refl server_waits_finish ha in
    let (c, ec, hc) = expected_first awaiting_auth _ _ b refl server_waits_auth hb in
    (c, cc, established_run c server_open hc)

-- A client that has accepted a list of packets and is then established has received a server
-- hello, a server accept, an authentication challenge and an authentication accept first, in this
-- order and with nothing between them, and since then only packets of an established connection
-- that may travel to it and are neither an error nor a close.
pub client_handshake :
    (ps : List PacketType)
    → receive_all client (initial client) ps ≡ ok established
    → (rest : List PacketType) × (ps
        ≡ server_hello ∷ server_accept ∷ auth_challenge ∷ auth_accept ∷ rest)
      × All (Works client) rest
unfolding initial
client_handshake ps h =
    let (a, ea, ha) = expected_first awaiting_server_hello _ _ ps refl client_waits_hello h in
    let (b, eb, hb) = expected_first awaiting_server_accept _ _ a refl client_waits_accept ha in
    let (c, ec, hc) = expected_first awaiting_auth_challenge _ _ b refl client_waits_challenge hb in
    let (d, ed, hd) = expected_first awaiting_auth_result _ _ c refl client_waits_result hc in
    (d, cc, established_run d client_open hd)
