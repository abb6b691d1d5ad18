-- ===== src/Scripts/Deck/Slides/DataPlane.antt =====
-- Slide 8 of scripts/generate_ppt.py.
use tinytelegram.Base.{List, String, [], false, some, true, ◌∷◌}
use tinytelegram.Scripts.Deck.Pptx.{
  Slide, box, dkgray, flatten, ftr, green, hdr, left, line, mdgray, ml, plain, red, tx, unstyled,
  vlight, white,
}
use tinytelegram.Scripts.Deck.Rows.{env_rows}

abbrev pub env_items : List (String × String)
env_items =
    ("RDS PostgreSQL 16.3", "db.m6g.large, Multi-AZ, 100 GB gp3")
    ∷ ("ElastiCache Redis 7.1", "cache.m6g.large, TLS + AUTH")
    ∷ ("Connectivity", "SSM Session Manager port-forward")
    ∷ ("Services", "Local Go binaries → cloud data")
    ∷ ("Load Driver", "k6 1.7.0, 5 VUs")
    ∷ []

unfoldable pub data_plane_slide : Slide
data_plane_slide = record {
  background = white;
  items = flatten (
      hdr "Phase 1: Cloud Data Plane Validation"
        "Local services → SSM tunnel → RDS + ElastiCache in us-east-1 Multi-AZ"
      ∷ ftr 8
      ∷ box 800 1450 5600 2600 (record unstyled { fill = some vlight; rd = true })
      ∷ tx 1050 1550 5100 300 "Test (a): 10-min Sustained Load"
          (record plain { sz = 14; c = red; b = true })
      ∷ ml 1050 1950 5100 2000 (
          line "5 VUs × 10 min via SSM bastion tunnel" 12 dkgray false left
          ∷ line "" 4 white false left
          ∷ line "•  7,359 messages persisted" 12 dkgray false left
          ∷ line "•  0 duplicate receiver_pts" 12 green true left
          ∷ line "•  0 duplicate sender_pts" 12 green true left
          ∷ line "•  ~12 msg/s (tunnel-bound, not in-VPC)" 11 mdgray false left
          ∷ line "" 4 white false left
          ∷ line "PTS gaps = CP behavior: writes rejected when" 10 mdgray false left
          ∷ line "WAIT replica-ack timed out over tunnel RTT." 10 mdgray false left
          ∷ [])
      ∷ box 800 4300 5600 2350 (record unstyled { fill = some vlight; rd = true })
      ∷ tx 1050 4400 5100 300 "Test (b): Mid-Run Service Kill"
          (record plain { sz = 14; c = red; b = true })
      ∷ ml 1050 4780 5100 1800 (
          line "taskkill message-service at t = 60s, relaunch" 12 dkgray false left
          ∷ line "" 4 white false left
          ∷ line "•  Downtime: 3 seconds (target ≤ 10s)" 12 dkgray false left
          ∷ line "•  1,433 messages across 3 min" 12 dkgray false left
          ∷ line "•  0 PTS duplicates" 12 green true left
          ∷ line "•  5/5 VU sessions survived restart" 12 dkgray false left
          ∷ [])
      ∷ box 6800 1450 5700 3200 (record unstyled { fill = some vlight; rd = true })
      ∷ tx 7050 1550 5200 300 "Test Environment" (record plain { sz = 14; c = red; b = true })
      ∷ env_rows 1950 env_items
      ∷ box 6800 4900 5700 1750 (record unstyled { fill = some green; rd = true })
      ∷ ml 7050 5000 5200 1500 (
          line "✓  Phase 1 Exit Criteria: ALL PASSED" 16 white true left
          ∷ line "" 6 white false left
          ∷ line "Data plane proves CP semantics hold on" 12 white false left
          ∷ line "real cloud infrastructure. PTS monotonicity" 12 white false left
          ∷ line "guaranteed: rejects writes it cannot replicate" 12 white false left
          ∷ line "rather than admitting out-of-order data." 12 white false left
          ∷ [])
      ∷ []);
}
