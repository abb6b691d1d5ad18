-- ===== src/Peers/Tests.antt =====
-- The theorems about the clients at concrete inputs.
use tinytelegram.Base.{ℕ, ◌≡◌, refl, String, true, none, arith, some, List, [], ◌∷◌, ◌++◌, inl, inr}
use tinytelegram.Base.Dict.{get}
use tinytelegram.Base.Exec.{ok, err}
use tinytelegram.Proto.{PersistedMessage}
use tinytelegram.Peers.{Grpc, Dials, Peers, delivered_of}
use tinytelegram.Peers.Racing.{Racing, returns, Made, IsMade, Has, racing-IsMade}
use tinytelegram.Peers.Racing.Twice.{at_phase, two_dialed}
use tinytelegram.Peers.Discovery.{deliver_message, discover_gateways, discovered_called}

-- A client is its address, and every delivery arrives.
abbrev grpc : Grpc
grpc = record {
  State = ℕ;
  Client = String;
  new_client = λ addr n. (ok addr, n);
  call = λ c msg n. (ok (record { delivered = true }), n);
}

abbrev start : Peers grpc
start = record { clients = record { key = "gw0"; value = "gw0" } ∷ []; outside = 0 }

abbrev two_gateways : List String
two_gateways = "gw0" ∷ "gw1" ∷ []

grpc-Dials : (addr : String) → Dials grpc addr
grpc-Dials addr s = (addr, refl)

discovered_called_example :
    let q = discover_gateways grpc ((err "EOF" ∷ []) ++ (ok two_gateways ∷ err "EOF" ∷ [])) start in
    ((addr c : String) → get start.clients addr ≡ some c → get q.clients addr ≡ some c)
    × ((c : String) × (get q.clients "gw1" ≡ some c)
        × ((msg : PersistedMessage)
            → (deliver_message grpc "gw1" msg q).0
              ≡ delivered_of grpc (grpc.call c msg q.outside).0))
discovered_called_example =
    discovered_called grpc (err "EOF" ∷ []) (err "EOF" ∷ []) two_gateways "gw1" start
      (grpc-Dials "gw1") (inr (inl refl))

abbrev idle : Racing grpc
idle = record { peers = record { clients = []; outside = 0 }; calls = [] }

no_client : (addr : String) → get idle.peers.clients addr ≡ none
unfolding get
no_client addr = refl

-- Two calls for gw1 that race.
abbrev raced : Racing grpc
raced = (two_dialed grpc "gw1" idle.peers "gw1" "gw1" (no_client "gw1") refl refl).0

raced_calls :
    raced.calls
    ≡ at_phase grpc "gw1" (returns (ok "gw1")) ∷ at_phase grpc "gw1" (returns (ok "gw1")) ∷ []
raced_calls = (two_dialed grpc "gw1" idle.peers "gw1" "gw1" (no_client "gw1") refl refl).2

racing-IsMade_example :
    IsMade grpc raced × ((addr : String) → Has grpc idle.peers addr → Has grpc raced.peers addr)
racing-IsMade_example =
    racing-IsMade grpc {s = idle} {s' = raced} ((λ addr c kept. nothing_kept addr c kept), tt)
      (two_dialed grpc "gw1" idle.peers "gw1" "gw1" (no_client "gw1") refl refl).1
  where
    nothing_kept : (addr c : String) → get idle.peers.clients addr ≡ some c → Made grpc addr c
    nothing_kept addr c kept = absurd (ground (arith, no_client addr))
