-- ===== src/Transport.antt =====
-- src/transport/ovnc_transport.c, on the transport that the client points to.
pub mod Blocks
use libopenvnc.Base.{ℕ, ◌-◌, Option, none, some, List, length, ltb, if◌then◌else◌, ◌==ℤ◌}
use libopenvnc.Error.{nomem}
use libopenvnc.State.{Client, Transport, invalid_socket, Socket}
use libopenvnc.Run.{
  Outcome, ok, fail, crash, null_pointer, out_of_bounds, St, Action, System, transport_struct, pure,
  raise, abort, ◌>>=◌, ◌>>◌, modify_client, free, malloc,
}
use libopenvnc.Socket.{Read, socket_recv_all, socket_send_all}
use libopenvnc.Socket.Connect.{socket_connect, socket_close}

abbrev pub point_to : Option Transport → Client → Client
point_to t c = record c { transport = t }

module _ {E : Type 0} where
  -- `client->transport`, which the functions below look into: a fault if it is NULL.
  abbrev pub on_transport : {A : Type 0} → Option Transport → (Transport → Action E A) → Action E A
  on_transport none f = abort null_pointer
  on_transport (some t) f = f t

  module _ ⦃sys : System E⦄ where
    -- ovnc__transport_create(&client->transport)
    unfoldable pub transport_create : Action E Unit
    unfolding malloc
    transport_create = do
      found ← malloc (sys.size_of transport_struct)
      if found
          then modify_client (point_to (some (record { sock = invalid_socket })))
          else raise nomem

    -- ovnc__transport_close
    unfoldable pub transport_close : Transport → Action E Unit
    unfolding socket_close
    transport_close t s = if t.sock ==ℤ invalid_socket then (ok tt, s) else (
      ok tt,
      record s {
        client = point_to (some (record { sock = invalid_socket })) s.client;
        world = socket_close t.sock s.world;
      },
    )

    -- ovnc__transport_destroy(client->transport). The pointer is left as it is.
    abbrev pub destroy_pointed : Option Transport → Action E Unit
    destroy_pointed none = pure tt
    destroy_pointed (some t) = transport_close t >> free

    unfoldable pub transport_destroy : Action E Unit
    unfolding transport_close
    transport_destroy s = destroy_pointed s.client.transport s

    abbrev pub connected_to : St E → Socket × Outcome Unit × E → Outcome Unit × St E
    connected_to s (sock, r, w) =
        (r, record s { client = point_to (some (record { sock = sock })) s.client; world = w })

    -- ovnc__transport_connect(client->transport, …), which writes `t->sock`.
    unfoldable pub transport_connect : List ℕ → ℕ → ℕ → Action E Unit
    unfolding socket_connect
    transport_connect host port timeout_ms s =
        on_transport s.client.transport
          (λ t s'. connected_to s' (socket_connect host port timeout_ms s'.world)) s

    abbrev pub sent : St E → Outcome Unit × E → Outcome Unit × St E
    sent s (r, w) = (r, record s { world = w })

    -- ovnc__transport_send(client->transport, …)
    unfoldable pub transport_send : List ℕ → Action E Unit
    unfolding socket_send_all
    transport_send p s =
        on_transport s.client.transport (λ t s'. sent s' (socket_send_all t.sock p s'.world)) s

    -- What a read leaves in memory: `keep` stores the bytes that came, also before an error.
    abbrev pub delivered : (List ℕ → Client → Client) → St E → Read E → Outcome (List ℕ) × St E
    delivered keep s (bs, ok _, w) = (ok bs, record s { client = keep bs s.client; world = w })
    delivered keep s (bs, fail e, w) = (fail e, record s { client = keep bs s.client; world = w })
    delivered keep s (bs, crash f, w) = (crash f, record s { client = keep bs s.client; world = w })

    -- ovnc__transport_recv(client->transport, buf, n) into memory of the client.
    unfoldable pub transport_recv_to : (List ℕ → Client → Client) → ℕ → Action E (List ℕ)
    unfolding socket_recv_all
    transport_recv_to keep n s =
        on_transport s.client.transport
          (λ t s'. delivered keep s' (socket_recv_all t.sock n s'.world)) s

    -- The same into a local array of `n` bytes.
    unfoldable pub transport_recv : ℕ → Action E (List ℕ)
    unfolding transport_recv_to
    transport_recv n = transport_recv_to (λ _ c. c) n

    -- What a read leaves in a heap block of `cap` bytes: where more came, it was written outside.
    abbrev pub stored : ℕ → St E → Read E → Outcome (List ℕ) × St E
    stored cap s (bs, r, w) =
        if ltb cap (length bs)
        then (crash out_of_bounds, record s { world = w })
        else delivered (λ _ c. c) s (bs, r, w)

    -- The same into a heap block of `cap` bytes.
    unfoldable pub recv_block : ℕ → ℕ → Action E (List ℕ)
    unfolding socket_recv_all
    recv_block cap n s =
        on_transport s.client.transport (λ t s'. stored cap s' (socket_recv_all t.sock n s'.world))
          s

    abbrev pub freed : Outcome (List ℕ) × St E → Outcome (List ℕ) × St E
    freed (ok bs, s) = (ok bs, s)
    freed (fail e, s) = (fail e, record s { live = s.live - 1 })
    freed (crash f, s) = (crash f, s)

    -- `err = ovnc__transport_recv(…, block, n); if (err != OVNC_OK) { free(block); return err; }`, for
    -- a block of `cap` bytes.
    unfoldable pub recv_or_free : ℕ → ℕ → Action E (List ℕ)
    unfolding recv_block
    recv_or_free cap n s = freed (recv_block cap n s)
