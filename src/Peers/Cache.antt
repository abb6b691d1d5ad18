-- ===== src/Peers/Cache.antt =====
-- gateway/peer/client.go: a client for each peer gateway, made at the first delivery.
use tinytelegram.Base.{
  String, Bool, Option, ◌≡◌, refl, arith, some, none, sym, ap, Option-cases, inl, inr,
}
use tinytelegram.Base.Dict.{get}
use tinytelegram.Base.Exec.{ok, Exec, continue}
use tinytelegram.Proto.{PersistedMessage}
use tinytelegram.Peers.{Grpc, Peers, dial, dial-kept, ask}

module _ (G : Grpc) where
  unfoldable pub connect_found : Option G.Client → String → Exec (Peers G) G.Client
  connect_found (some c) addr p = (ok c, p)
  connect_found none addr p = dial G addr p

  -- A call that no other goroutine interrupts.
  unfoldable pub get_or_connect : String → Exec (Peers G) G.Client
  unfolding connect_found
  get_or_connect addr p = connect_found (get p.clients addr) addr p

  unfoldable pub deliver_message : String → PersistedMessage → Exec (Peers G) Bool
  deliver_message addr msg p = continue (get_or_connect addr p) λ c p'. ask G c msg p'

  get_or_connect-kept :
      (addr : String) (c : G.Client) (p : Peers G)
      → (get_or_connect addr p).0 ≡ ok c
      → get (get_or_connect addr p).1.clients addr ≡ some c
  unfolding get_or_connect connect_found dial
  get_or_connect-kept addr c p h = elim (Option-cases (get p.clients addr)) [
    | inr (d, e) ↦ rw e (ground (arith, e))
    | inl absent ↦ rw absent (dial-kept G addr c p (rw absent at h))
  ]

  -- When a delivery found or made a client, the next one to the same address uses that client, and
  -- makes none.
  pub connected_once :
      (addr : String) (c : G.Client) (p q : Peers G)
      → get_or_connect addr p ≡ (ok c, q)
      → get_or_connect addr q ≡ (ok c, q)
  unfolding get_or_connect connect_found
  connected_once addr c p q h =
      let kept : get q.clients addr ≡ some c =
        rw (sym (ap (λ r. r.1) h)) (get_or_connect-kept addr c p (ap (λ r. r.0) h)) in
      rw kept refl
