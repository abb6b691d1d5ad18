-- ===== src/Scripts/Deck/Slides/Demo.antt =====
-- Slide 9 of scripts/generate_ppt.py.
use tinytelegram.Base.{List, String, [], false, some, true, ◌∷◌}
use tinytelegram.Scripts.Deck.Pptx.{
  Slide, box, dkgray, flatten, ftr, green, hdr, left, line, mdgray, ml, plain, red, tx, unstyled,
  vlight, white,
}
use tinytelegram.Scripts.Deck.Rows.{topo_rows}

abbrev pub topo_items : List (String × String)
topo_items =
    ("Web Client", "S3 + CloudFront (public URL)")
    ∷ ("Gateway", "2 Fargate tasks, 2 AZs, behind ALB")
    ∷ ("Message Service", "1 Fargate task, CloudMap DNS")
    ∷ ("PostgreSQL", "RDS db.m6g.large Multi-AZ")
    ∷ ("Redis", "ElastiCache cache.m6g.large Multi-AZ")
    ∷ ("Stacks", "VPC + Data + Compute + Edge (CDK)")
    ∷ []

unfoldable pub demo_slide : Slide
demo_slide = record {
  background = white;
  items = flatten (
      hdr "Phase 2+3: End-to-End Fargate Demo"
        "CloudFront → ALB → ECS Fargate → RDS + ElastiCache  —  two laptops, real-time messaging"
      ∷ ftr 9
      ∷ box 800 1450 5600 2400 (record unstyled { fill = some vlight; rd = true })
      ∷ tx 1050 1550 5100 300 "Cross-AZ Messaging Verified"
          (record plain { sz = 14; c = red; b = true })
      ∷ ml 1050 1950 5100 1800 (
          line "Two gateway tasks in two AZs (10.20.8.x," 12 dkgray false left
          ∷ line "10.20.7.x) — alice on GW-a, bob on GW-b" 12 dkgray false left
          ∷ line "" 4 white false left
          ∷ line "•  alice → bob: gRPC peer call across AZs" 12 dkgray false left
          ∷ line "•  PTS monotonically incrementing" 12 green true left
          ∷ line "•  \"Sending…\" cleared on ack (both sides)" 12 dkgray false left
          ∷ [])
      ∷ box 800 4100 5600 2550 (record unstyled { fill = some vlight; rd = true })
      ∷ tx 1050 4200 5100 300 "Bugs Found & Fixed in Production"
          (record plain { sz = 14; c = red; b = true })
      ∷ ml 1050 4580 5100 2000 (
          line "B1 — Gateway self-identity empty" 12 dkgray true left
          ∷ line "  ECS metadata not published to os.Environ;" 10 mdgray false left
          ∷ line "  cross-GW delivery silently dropped." 10 mdgray false left
          ∷ line "" 3 white false left
          ∷ line "B2 — Optimistic send bubble stuck" 12 dkgray true left
          ∷ line "  \"Sending…\" never reconciled with ack;" 10 mdgray false left
          ∷ line "  added FIFO pendingAcks queue." 10 mdgray false left
          ∷ line "" 3 white false left
          ∷ line "B3 — Missing logs:CreateLogGroup IAM" 12 dkgray true left
          ∷ line "  One-shot tasks failed; workaround: pre-create." 10 mdgray false left
          ∷ [])
      ∷ box 6800 1450 5700 2800 (record unstyled { fill = some vlight; rd = true })
      ∷ tx 7050 1550 5200 300 "Deployed Topology" (record plain { sz = 14; c = red; b = true })
      ∷ topo_rows 1950 topo_items
      ∷ box 6800 4500 5700 2150 (record unstyled { fill = some vlight; rd = true })
      ∷ tx 7050 4600 5200 300 "Live Demo Validation" (record plain { sz = 14; c = red; b = true })
      ∷ ml 7050 5000 5200 1500 (
          line "Two humans, two laptops, public URL:" 12 dkgray false left
          ∷ line "d1ji1p758sdqkv.cloudfront.net" 11 red true left
          ∷ line "" 4 white false left
          ∷ line "•  alice + bob exchanged messages" 11 dkgray false left
          ∷ line "•  Both sides rendered correctly" 11 dkgray false left
          ∷ line "•  PTS visible and monotonic" 11 green true left
          ∷ line "" 4 white false left
          ∷ line "✓  Phase 2 + Phase 3 Exit: PASSED" 14 green true left
          ∷ [])
      ∷ []);
}
