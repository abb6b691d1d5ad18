-- ===== src/Peers/Racing/Twice.antt =====
-- One call of GetOrConnect alone, and two for the same address.
use tinytelegram.Base.{
  String, some, none, ◌≡◌, refl, eq_refl, List, [], ◌∷◌, ◌++◌, Option-cases, inl, inr, ◌∙◌,
}
use tinytelegram.Base.Dict.{get, put, get-put}
use tinytelegram.Base.Exec.{ok, Result-cases}
use tinytelegram.Peers.{Grpc, Peers, dial}
use tinytelegram.Peers.Cache.{connect_found, get_or_connect}
use tinytelegram.Peers.Racing.{
  Phase, looks, dials, stores, returns, advance, Call, Racing, Step, begins, moves, Reach, here,
  next,
}

module _ (G : Grpc) where
  open G use {State, Client, new_client}

  -- Three accesses of one call, with no other in between, are the whole call.
  pub alone :
      (addr : String) (p : Peers G)
      → let (phase₁, p₁) = advance G addr looks p in
        let (phase₂, p₂) = advance G addr phase₁ p₁ in
        let (phase₃, p₃) = advance G addr phase₂ p₂ in
        (phase₃ ≡ returns (get_or_connect G addr p).0) × (p₃ ≡ (get_or_connect G addr p).1)
  unfolding advance get_or_connect connect_found dial
  alone addr p = elim (Option-cases (get p.clients addr)) [
    | inr (c, e) ↦ rw e (refl, refl)
    | inl absent ↦ elim (Result-cases (new_client addr p.outside).0) [
      | inl (c, e) ↦ rw (absent, e) (refl, refl)
      | inr (t, e) ↦ rw (absent, e) (refl, refl)
    ]
  ]

  abbrev pub at_phase : String → Phase G → Call G
  at_phase addr phase = record { addr = addr; phase = phase }

  abbrev racing : Peers G → List (Call G) → Racing G
  racing p calls = record { peers = p; calls = calls }

  move :
      (before after : List (Call G)) (addr : String) (phase phase' : Phase G) (p p' : Peers G)
      → advance G addr phase p ≡ (phase', p')
      → Step G
          (racing p (before ++ (at_phase addr phase ∷ after)))
          (racing p' (before ++ (at_phase addr phase' ∷ after)))
  move before after addr phase phase' p p' e = moves before after addr phase refl (rw e refl)

  -- Two calls for an address without a client, each before the other has written the map, make a
  -- client each: both return theirs, and the map keeps the second.
  pub two_dialed :
      (addr : String) (p : Peers G) (c d : Client)
      → get p.clients addr ≡ none
      → (new_client addr p.outside).0 ≡ ok c
      → let s = (new_client addr p.outside).1 in
        (new_client addr s).0 ≡ ok d
        → (s' : Racing G) × Reach G (record { peers = p; calls = [] }) s'
          × (s'.calls ≡ at_phase addr (returns (ok c)) ∷ at_phase addr (returns (ok d)) ∷ [])
          × (get s'.peers.clients addr ≡ some d)
  unfolding advance
  two_dialed addr p c d absent first second =
      let s₁ = (new_client addr p.outside).1 in
      let s₂ = (new_client addr s₁).1 in
      let p₁ : Peers G = record { clients = p.clients; outside = s₁ } in
      let p₂ : Peers G = record { clients = p.clients; outside = s₂ } in
      let p₃ : Peers G = record { clients = put p.clients addr c; outside = s₂ } in
      let p₄ : Peers G = record { clients = put p₃.clients addr d; outside = s₂ } in
      let other : Phase G → List (Call G) = λ phase. at_phase addr phase ∷ [] in
      let begun = next (next here (begins addr refl)) (begins addr refl) in
      let looked = next begun (move [] (other looks) addr looks dials p p (rw absent refl)) in
      let looked' = next looked (move (other dials) [] addr looks dials p p (rw absent refl)) in
      let dialed =
        next looked' (move [] (other dials) addr dials (stores c) p p₁ (rw first refl)) in
      let dialed' =
        next dialed (move (other (stores c)) [] addr dials (stores d) p₁ p₂ (rw second refl)) in
      let stored =
        next dialed' (move [] (other (stores d)) addr (stores c) (returns (ok c)) p₂ p₃ refl) in
      let stored' =
        next stored
          (move (other (returns (ok c))) [] addr (stores d) (returns (ok d)) p₃ p₄ refl) in
      (
        racing p₄ (at_phase addr (returns (ok c)) ∷ at_phase addr (returns (ok d)) ∷ []),
        stored',
        refl,
        get-put p₃.clients addr d addr ∙ rw (eq_refl addr) refl,
      )
