-- ===== src/Peers.antt =====
-- The gRPC clients that the two services keep for gateways, by address.
pub mod Cache
pub mod Discovery
pub mod Racing
mod Tests
use tinytelegram.Base.{String, Bool, ◌≡◌, some, refl, arith, eq_refl}
use tinytelegram.Base.Dict.{Dict, get, put, get-put}
use tinytelegram.Base.Exec.{Result, ok, err, Exec}
use tinytelegram.Proto.{PersistedMessage, DeliveryAck}

-- grpc-go: `new_client` is grpc.NewClient, and `call` is DeliverMessage of a client with the time limit.
pub record Grpc : Type 1 where
  pub State : Type 0
  pub Client : Type 0
  pub new_client : String → Exec State Client
  pub call : Client → PersistedMessage → Exec State DeliveryAck

-- NewClient opens no connection, so whether it fails is decided by the address.
abbrev pub Dials : Grpc → String → Type 0
Dials G addr = (s : G.State) → (c : G.Client) × ((G.new_client addr s).0 ≡ ok c)

module _ (G : Grpc) where
  open G use {State, Client, new_client, call}

  pub record Peers : Type 0 where
    pub clients : Dict Client
    pub outside : State

  abbrev pub keep : String → Result Client × State → Peers → Result Client × Peers
  keep addr (ok c, s) p = (ok c, record { clients = put p.clients addr c; outside = s })
  keep addr (err e, s) p = (err e, record { clients = p.clients; outside = s })

  -- A client is made and kept for its address.
  unfoldable pub dial : String → Exec Peers Client
  dial addr p = keep addr (new_client addr p.outside) p

  keep-kept :
      (addr : String) (c : Client) (r : Result Client × State) (p : Peers)
      → (keep addr r p).0 ≡ ok c
      → get (keep addr r p).1.clients addr ≡ some c
  keep-kept addr c (ok d, s) p h = ground (arith, get-put p.clients addr d addr, eq_refl addr)
  keep-kept addr c (err e, s) p h = absurd (ground arith)

  pub dial-kept :
      (addr : String) (c : Client) (p : Peers)
      → (dial addr p).0 ≡ ok c
      → get (dial addr p).1.clients addr ≡ some c
  unfolding dial
  dial-kept addr c p h = keep-kept addr c (new_client addr p.outside) p h

  pub dial-ok :
      (addr : String) (c : Client) (p : Peers)
      → (new_client addr p.outside).0 ≡ ok c
      → (dial addr p).0 ≡ ok c
  unfolding dial
  dial-ok addr c p made = rw made refl

  keep-outside :
      (addr : String) (r : Result Client × State) (p : Peers) → (keep addr r p).1.outside ≡ r.1
  keep-outside addr (ok c, s) p = refl
  keep-outside addr (err e, s) p = refl

  pub dial-outside :
      (addr : String) (p : Peers) → (dial addr p).1.outside ≡ (new_client addr p.outside).1
  unfolding dial
  dial-outside addr p = keep-outside addr (new_client addr p.outside) p

  abbrev pub delivered_of : Result DeliveryAck → Result Bool
  delivered_of (ok ack) = ok ack.delivered
  delivered_of (err e) = err e

  unfoldable pub ask : Client → PersistedMessage → Exec Peers Bool
  ask c msg p =
      let (ack, s) = call c msg p.outside in
      (delivered_of ack, record { clients = p.clients; outside = s })
