-- ===== src/Peers/Racing.antt =====
-- gateway/peer/client.go: calls of GetOrConnect by several goroutines, which hold the lock only while they
-- read the map and while they write it.
pub mod Twice
use tinytelegram.Base.{
  String, Bool, true, false, Option, some, none, ◌≡◌, refl, ◌==◌, eq_iff, eq_refl, List, [], ◌∷◌,
  ◌++◌, All, arith, Option-cases, Bool-cases, inl, inr, ap, ◌∙◌, sym,
}
use tinytelegram.Base.Dict.{Dict, get, put, get-put}
use tinytelegram.Base.Exec.{Result, ok, err, Exec, Result-cases}
use tinytelegram.Peers.{Grpc, Peers, dial}
use tinytelegram.Peers.Cache.{connect_found, get_or_connect}

module _ (G : Grpc) where
  open G use {State, Client, new_client}

  -- Where a call stands: before the map is read, before grpc.NewClient, before the map is written, and
  -- at the end.
  pub data Phase : Type 0 where
    looks : Phase
    dials : Phase
    stores : Client → Phase
    returns : Result Client → Phase

  abbrev found : Option Client → Phase
  found (some c) = returns (ok c)
  found none = dials

  abbrev made : Result Client → Phase
  made (ok c) = stores c
  made (err e) = returns (err e)

  -- One access of a call for the address.
  unfoldable pub advance : String → Phase → Peers G → Phase × Peers G
  advance addr looks p = (found (get p.clients addr), p)
  advance addr dials p =
      let (c, s) = new_client addr p.outside in
      (made c, record { clients = p.clients; outside = s })
  advance addr (stores c) p =
      (returns (ok c), record { clients = put p.clients addr c; outside = p.outside })
  advance addr (returns r) p = (returns r, p)

  pub record Call : Type 0 where
    pub addr : String
    pub phase : Phase

  pub record Racing : Type 0 where
    pub peers : Peers G
    pub calls : List Call

  -- A call begins, or one of those under way makes one access.
  pub data Step (s s' : Racing) : Type 0 where
    begins :
        (addr : String)
        → s' ≡ record { peers = s.peers; calls = record { addr = addr; phase = looks } ∷ s.calls }
        → Step s s'
    moves :
        (before after : List Call) (addr : String) (phase : Phase)
        → s.calls ≡ before ++ (record { addr = addr; phase = phase } ∷ after)
        → s' ≡ record {
          peers = (advance addr phase s.peers).1;
          calls =
              before ++ (record { addr = addr; phase = (advance addr phase s.peers).0 } ∷ after);
        }
        → Step s s'

  pub data Reach (s : Racing) : Racing → Type 0 where
    here : Reach s s
    next : {u v : Racing} → Reach s u → Step u v → Reach s v

  -- The client is one that grpc.NewClient made for the address.
  abbrev pub Made : String → Client → Type 0
  Made addr c = (s : State) × ((new_client addr s).0 ≡ ok c)

  abbrev pub Fits : String → Phase → Type 0
  Fits addr looks = Unit
  Fits addr dials = Unit
  Fits addr (stores c) = Made addr c
  Fits addr (returns (ok c)) = Made addr c
  Fits addr (returns (err e)) = Unit

  abbrev pub AllMade : Peers G → Type 0
  AllMade p = (addr : String) (c : Client) → get p.clients addr ≡ some c → Made addr c

  advance-Fits :
      (addr : String) (phase : Phase) (p : Peers G)
      → AllMade p
      → Fits addr phase
      → AllMade (advance addr phase p).1 × Fits addr (advance addr phase p).0
  unfolding advance
  advance-Fits addr looks p h fits = elim (Option-cases (get p.clients addr)) [
    | inl absent ↦ rw absent (h, tt)
    | inr (c, e) ↦ rw e (h, h addr c e)
  ]
  advance-Fits addr dials p h fits = elim (Result-cases (new_client addr p.outside).0) [
    | inl (c, e) ↦ rw e (h, (p.outside, e))
    | inr (t, e) ↦ rw e (h, tt)
  ]
  advance-Fits addr (stores c) p h fits = (
    λ other d kept. elim (Bool-cases (other == addr)) [
      | inl same ↦
          let is_c : c ≡ d = ground (arith, get-put p.clients addr c other, same, kept) in
          rw ((eq_iff other addr).0 same, ← is_c) fits
      | inr differs ↦ h other d (ground (arith, get-put p.clients addr c other, differs, kept))
    ],
    fits,
  )
  advance-Fits addr (returns r) p h fits = (h, fits)

  -- The address has a client.
  abbrev pub Has : Peers G → String → Type 0
  Has p addr = (c : Client) × (get p.clients addr ≡ some c)

  advance-Has :
      (addr : String) (phase : Phase) (p : Peers G) (other : String)
      → Has p other
      → Has (advance addr phase p).1 other
  unfolding advance
  advance-Has addr looks p other has = has
  advance-Has addr dials p other has = has
  advance-Has addr (stores c) p other (d, kept) = elim (Bool-cases (other == addr)) [
    | inl same ↦ (c, get-put p.clients addr c other ∙ rw same refl)
    | inr differs ↦ (d, get-put p.clients addr c other ∙ rw differs kept)
  ]
  advance-Has addr (returns r) p other has = has

  abbrev pub IsMade : Racing → Type 0
  IsMade s = AllMade s.peers × All (λ (c : Call). Fits c.addr c.phase) s.calls

  -- One call among others.
  among :
      (before after : List Call) (addr : String) (phase phase' : Phase)
      → All
          (λ (c : Call). Fits c.addr c.phase)
          (before ++ (record { addr = addr; phase = phase } ∷ after))
      → Fits addr phase
        × (Fits addr phase'
            → All
                (λ (c : Call). Fits c.addr c.phase)
                (before ++ (record { addr = addr; phase = phase' } ∷ after)))
  among [] after addr phase phase' h = (h.0, λ fits. (fits, h.1))
  among (c ∷ before) after addr phase phase' h =
      let (fits, put_back) = among before after addr phase phase' h.1 in
      (fits, λ fits'. (h.0, put_back fits'))

  Step-IsMade : (s s' : Racing) → Step s s' → IsMade s → IsMade s'
  Step-IsMade s s' (begins addr e) h = rw e (h.0, (tt, h.1))
  Step-IsMade s s' (moves before after addr phase calls e) h =
      let p = s.peers in
      let (fits, put_back) =
        among before after addr phase (advance addr phase p).0 (rw calls at h.1) in
      let (kept, fits') = advance-Fits addr phase p h.0 fits in rw e (kept, put_back fits')

  Step-Has : (s s' : Racing) (addr : String) → Step s s' → Has s.peers addr → Has s'.peers addr
  Step-Has s s' addr (begins other e) has = rw e has
  Step-Has s s' addr (moves before after other phase calls e) has =
      rw e (advance-Has other phase s.peers addr has)

  -- However calls of GetOrConnect interleave: if every client in the map was made for its address,
  -- then so is every client in it later and every client that a call returns, and no address loses
  -- its client.
  pub racing-IsMade :
      {s s' : Racing}
      → IsMade s
      → Reach s s'
      → IsMade s' × ((addr : String) → Has s.peers addr → Has s'.peers addr)
  racing-IsMade h here = (h, λ addr has. has)
  racing-IsMade h (next {u} {v} r step) =
      let (earlier, keeps) = racing-IsMade h r in
      (Step-IsMade u v step earlier, λ addr has. Step-Has u v addr step (keeps addr has))
