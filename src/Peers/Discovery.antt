-- ===== src/Peers/Discovery.antt =====
-- message-service/grpc/client.go: the clients that a loop makes for the gateways in Redis.
use tinytelegram.Base.{
  String, Bool, false, ◌≡◌, refl, arith, Option, some, none, eq_iff, List, [], ◌∷◌, ◌++◌, ◌⊎◌, inl,
  inr, Option-cases, sym,
}
use tinytelegram.Base.Dict.{get, get-put}
use tinytelegram.Base.Exec.{Result, ok, err, Exec, Result-cases}
use tinytelegram.Proto.{PersistedMessage}
use tinytelegram.Peers.{Grpc, Dials, Peers, dial, dial-kept, dial-ok, ask, delivered_of}

-- The address is one of those listed.
abbrev pub IsListed : String → List String → Type 0
IsListed addr [] = ⊥
IsListed addr (a ∷ addrs) = (addr ≡ a) ⊎ IsListed addr addrs

module _ (G : Grpc) where
  -- A failure to make the client is only logged.
  unfoldable pub register_gateway : String → Peers G → Peers G
  register_gateway addr p = (dial G addr p).1

  -- No client is no error.
  unfoldable pub deliver_found : Option G.Client → PersistedMessage → Exec (Peers G) Bool
  deliver_found none msg p = (ok false, p)
  deliver_found (some c) msg p = ask G c msg p

  unfoldable pub deliver_message : String → PersistedMessage → Exec (Peers G) Bool
  unfolding deliver_found
  deliver_message addr msg p = deliver_found (get p.clients addr) msg p

  unfoldable pub discover_found : Option G.Client → String → Peers G → Peers G
  unfolding register_gateway
  discover_found (some c) addr p = p
  discover_found none addr p = register_gateway addr p

  unfoldable pub discover_one : String → Peers G → Peers G
  unfolding discover_found
  discover_one addr p = discover_found (get p.clients addr) addr p

  unfoldable pub discover_all : List String → Peers G → Peers G
  discover_all [] p = p
  discover_all (addr ∷ addrs) p = discover_all addrs (discover_one addr p)

  -- One turn, by what HGETALL answers: the addresses, in the order in which the map is iterated.
  unfoldable pub discover_round : Result (List String) → Peers G → Peers G
  discover_round (err e) p = p
  discover_round (ok addrs) p = discover_all addrs p

  unfoldable pub discover_gateways : List (Result (List String)) → Peers G → Peers G
  discover_gateways [] p = p
  discover_gateways (answer ∷ answers) p = discover_gateways answers (discover_round answer p)

  -- Every client of the first is one of the second.
  abbrev Keeps : Peers G → Peers G → Type 0
  Keeps p q =
      (addr : String) (c : G.Client) → get p.clients addr ≡ some c → get q.clients addr ≡ some c

  dial-Keeps : (addr : String) (p : Peers G) → get p.clients addr ≡ none → Keeps p (dial G addr p).1
  unfolding dial
  dial-Keeps addr p absent other c h = elim (Result-cases (G.new_client addr p.outside).0) [
    | inl (d, e) ↦ rw e (ground (arith, get-put p.clients addr d other, eq_iff other addr))
    | inr (reason, e) ↦ rw e h
  ]

  one-Keeps : (addr : String) (p : Peers G) → Keeps p (discover_one addr p)
  unfolding discover_one discover_found register_gateway
  one-Keeps addr p other c h = elim (Option-cases (get p.clients addr)) [
    | inl absent ↦ rw absent (dial-Keeps addr p absent other c h)
    | inr (d, e) ↦ rw e h
  ]

  all-Keeps : (addrs : List String) (p : Peers G) → Keeps p (discover_all addrs p)
  unfolding discover_all
  all-Keeps [] p other c h = h
  all-Keeps (addr ∷ addrs) p other c h =
      all-Keeps addrs (discover_one addr p) other c (one-Keeps addr p other c h)

  discover-Keeps :
      (answers : List (Result (List String))) (p : Peers G) → Keeps p (discover_gateways answers p)
  unfolding discover_gateways discover_round
  discover-Keeps [] p other c h = h
  discover-Keeps (err e ∷ answers) p other c h = discover-Keeps answers p other c h
  discover-Keeps (ok addrs ∷ answers) p other c h =
      discover-Keeps answers (discover_all addrs p) other c (all-Keeps addrs p other c h)

  abbrev Has : String → Peers G → Type 0
  Has addr p = (c : G.Client) × (get p.clients addr ≡ some c)

  one-Has : (addr : String) (p : Peers G) → Dials G addr → Has addr (discover_one addr p)
  unfolding discover_one discover_found register_gateway dial
  one-Has addr p dials = elim (Option-cases (get p.clients addr)) [
    | inr (d, e) ↦ rw e (d, e)
    | inl absent ↦
        let (c, made) = dials p.outside in
        rw absent (c, dial-kept G addr c p (dial-ok G addr c p made))
  ]

  all-Has :
      (addr : String) (addrs : List String) (p : Peers G)
      → Dials G addr
      → IsListed addr addrs
      → Has addr (discover_all addrs p)
  unfolding discover_all
  all-Has addr [] p dials h = absurd h
  all-Has addr (a ∷ addrs) p dials (inl same) =
      let (c, found) = one-Has addr p dials in
      (c, all-Keeps addrs (discover_one a p) addr c (rw (sym same) found))
  all-Has addr (a ∷ addrs) p dials (inr later) = all-Has addr addrs (discover_one a p) dials later

  discover-append :
      (xs ys : List (Result (List String))) (p : Peers G)
      → discover_gateways (xs ++ ys) p ≡ discover_gateways ys (discover_gateways xs p)
  unfolding discover_gateways
  discover-append [] ys p = refl
  discover-append (x ∷ xs) ys p = discover-append xs ys (discover_round x p)

  -- When one turn of the discovery loop lists an address that NewClient takes, then after it, whatever
  -- the turns before and after it answer, `DeliverMessage` to the address is a call of the client
  -- kept for it, and no client that was there is lost or replaced.
  pub discovered_called :
      (before after : List (Result (List String))) (addrs : List String) (addr : String)
      (p : Peers G)
      → Dials G addr
      → IsListed addr addrs
      → let q = discover_gateways (before ++ (ok addrs ∷ after)) p in
        Keeps p q
        × ((c : G.Client) × (get q.clients addr ≡ some c)
            × ((msg : PersistedMessage)
                → (deliver_message addr msg q).0 ≡ delivered_of G (G.call c msg q.outside).0))
  unfolding discover_gateways discover_round deliver_message deliver_found ask
  discovered_called before after addrs addr p dials listed =
      let q = discover_gateways (before ++ (ok addrs ∷ after)) p in
      let mid = discover_gateways before p in
      let (c, found) = all-Has addr addrs mid dials listed in
      let kept : get q.clients addr ≡ some c =
        rw (discover-append before (ok addrs ∷ after) p)
          (discover-Keeps after (discover_all addrs mid) addr c found) in
      (discover-Keeps (before ++ (ok addrs ∷ after)) p, (c, kept, λ msg. rw kept refl))
