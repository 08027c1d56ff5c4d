-- ===== src/Crypto/Session/Secured.antt =====
-- From the key exchange to the packets: a connection whose session comes from the exchange.
use chatix_protocol.Base.{◌≤◌, ◌≡◌, List, [], ok, length, All, IsByte, some, ℕ, ◌∷◌}
use chatix_protocol.PacketType.{max_payload_size}
use chatix_protocol.Codec.{SessionCipher, establish_session}
use chatix_protocol.Codec.Interfaces.{Reader, Delivers, Writer, Collects, Aead, IsAead}
use chatix_protocol.Codec.Sent.{IsNew}
use chatix_protocol.Codec.Nonces.{Outgoing}
use chatix_protocol.Codec.Channel.{
  Event, client_sends, server_sends, client_receives, server_receives, Network, Link, link_step,
  queues_step, run,
}
use chatix_protocol.Codec.Channel.Refinement.{MayDo, run_refines_queues}
use chatix_protocol.Crypto.Primitives.{X25519, IsX25519, MlKem, IsMlKem, Hkdf, IsHkdf}
use chatix_protocol.Crypto.Session.{
  SessionKeys, ClientHandshakeState, ServerHandshakeState, generate, derive_session_keys, respond,
}
use chatix_protocol.Crypto.Session.Agreement.{establish_session-Agree}

-- A packet within the limit of its type, with any flags.
abbrev pub IsSendable : Outgoing → Type 0
IsSendable p = IsByte p.flags × (length p.payload ≤ max_payload_size p.packet_type)

abbrev pub SendsSendable : Event → Type 0
SendsSendable (client_sends p) = IsSendable p
SendsSendable (server_sends p) = IsSendable p
SendsSendable client_receives = Unit
SendsSendable server_receives = Unit

SendsSendable-MayDo :
    (c d : SessionCipher) (es : List Event)
    → All SendsSendable es
    → All (MayDo (some c) (some d)) es
SendsSendable-MayDo c d [] h = tt
SendsSendable-MayDo c d (client_sends p ∷ es) h = (h.0, SendsSendable-MayDo c d es h.1)
SendsSendable-MayDo c d (server_sends p ∷ es) h = (h.0, SendsSendable-MayDo c d es h.1)
SendsSendable-MayDo c d (client_receives ∷ es) h = (tt, SendsSendable-MayDo c d es h.1)
SendsSendable-MayDo c d (server_receives ∷ es) h = (tt, SendsSendable-MayDo c d es h.1)

module _ (reader : Reader) (writer : Writer) (aead : Aead) (delivers : Delivers reader)
    (collects : Collects writer) (network : Network reader delivers) where
  -- The connection once both sides have set up the session.
  abbrev pub secured :
      Link reader writer aead delivers collects network
      → SessionKeys
      → SessionKeys
      → Link reader writer aead delivers collects network
  secured l client_keys server_keys = record l {
    client = establish_session l.client client_keys.client_to_server client_keys.server_to_client;
    server = establish_session l.server server_keys.server_to_client server_keys.client_to_server;
  }

module _ (dh : X25519) (kem : MlKem) (hkdf : Hkdf) (is_dh : IsX25519 dh) (is_kem : IsMlKem kem)
    (is_hkdf : IsHkdf hkdf) (reader : Reader) (writer : Writer) (aead : Aead)
    (delivers : Delivers reader) (collects : Collects writer) (network : Network reader delivers)
    (is_aead : IsAead aead) where
  open delivers use {pending}

  -- Whatever random values are drawn, a key exchange over primitives that keep their documented
  -- laws, in which both sides get the other's public values unchanged, succeeds on both sides;
  -- and once client and server have established the session with the keys they derived, their
  -- connection, over streams that are empty and with numbers that the other side has not seen,
  -- refines two queues of packets: for every list of sends and receives of packets within the
  -- limit of their type, in any order, every call has the outcome that the queues give.
  pub exchange_refines_queues :
      (l : Link reader writer aead delivers collects network) (a b : dh.EphemeralSecret)
      (seed r : List ℕ) (es : List Event)
      → IsNew l.server.last_recv_seq l.client.next_send_seq
      → IsNew l.client.last_recv_seq l.server.next_send_seq
      → pending l.to_server.output ≡ []
      → pending l.to_client.output ≡ []
      → All SendsSendable es
      → (client : ClientHandshakeState dh kem) × (server : ServerHandshakeState)
        × (keys : SessionKeys) × (generate dh kem a seed ≡ ok client)
        × (respond dh kem hkdf b r client.x25519_public client.ml_kem_ek ≡ ok server)
        × (derive_session_keys dh kem hkdf client server.x25519_public server.ml_kem_ciphertext
            ≡ ok keys)
        × (let s =
              secured reader writer aead delivers collects network l keys server.session_keys in
            run (link_step reader writer aead delivers collects network) es s
            ≡ run (queues_step s.client.session s.server.session delivers.eof) es (record {
              to_server = record { next_number = l.client.next_send_seq; under_way = [] };
              to_client = record { next_number = l.server.next_send_seq; under_way = [] };
            }))
  unfolding establish_session
  exchange_refines_queues l a b seed r es new_up new_down empty_up empty_down may =
      let (client, server, keys, made, answered, derived, (up, down)) =
        establish_session-Agree dh kem hkdf is_dh is_kem is_hkdf l.client l.server a b seed r in
      (
        client,
        server,
        keys,
        made,
        answered,
        derived,
        run_refines_queues reader writer aead delivers collects network is_aead
            (secured reader writer aead delivers collects network l keys server.session_keys) es up
            down new_up new_down empty_up empty_down
            (SendsSendable-MayDo
              (record { outbound_key = keys.client_to_server; inbound_key = keys.server_to_client })
              (record {
                outbound_key = server.session_keys.server_to_client;
                inbound_key = server.session_keys.client_to_server;
              })
              es may),
      )
