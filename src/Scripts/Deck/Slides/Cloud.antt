-- ===== src/Scripts/Deck/Slides/Cloud.antt =====
-- Slide 7 of scripts/generate_ppt.py.
use tinytelegram.Base.{[], false, some, true, ◌∷◌}
use tinytelegram.Scripts.Deck.Pptx.{
  Slide, box, center, dkgray, flatten, ftr, green, hdr, left, line, mdgray, ml, plain, red, tx,
  unstyled, vlight, white,
}

unfoldable pub cloud_slide : Slide
cloud_slide = record {
  background = white;
  items = flatten (
      hdr "Cloud Deployment: AWS Multi-AZ"
        "Production-grade infrastructure via AWS CDK  (Infrastructure as Code)"
      ∷ ftr 7
      ∷ box 800 1450 5600 4900 (record unstyled { fill = some vlight; rd = true })
      ∷ box 1100 1850 2500 3300 (record unstyled { line = some red; rd = true })
      ∷ tx 1100 1900 2500 300 "us-east-1a"
          (record plain { sz = 10; c = red; b = true; al = center })
      ∷ ml 1250 2250 2200 2800 (
          line "ECS Fargate" 11 dkgray true left
          ∷ line "  Gateway ×1" 10 mdgray false left
          ∷ line "  MsgService ×1" 10 mdgray false left
          ∷ line "" 6 white false left
          ∷ line "Data (Primary)" 11 dkgray true left
          ∷ line "  RDS PostgreSQL" 10 mdgray false left
          ∷ line "  ElastiCache Redis" 10 mdgray false left
          ∷ [])
      ∷ box 3800 1850 2500 3300 (record unstyled { line = some red; rd = true })
      ∷ tx 3800 1900 2500 300 "us-east-1b"
          (record plain { sz = 10; c = red; b = true; al = center })
      ∷ ml 3950 2250 2200 2800 (
          line "ECS Fargate" 11 dkgray true left
          ∷ line "  Gateway ×1" 10 mdgray false left
          ∷ line "  MsgService ×1" 10 mdgray false left
          ∷ line "" 6 white false left
          ∷ line "Data (Standby)" 11 dkgray true left
          ∷ line "  RDS Read Replica" 10 mdgray false left
          ∷ line "  ElastiCache Replica" 10 mdgray false left
          ∷ [])
      ∷ tx 800 5350 5600 300 "CloudFront + S3  (Static Web Client)"
          (record plain { sz = 11; c = red; b = true; al = center })
      ∷ tx 800 5650 5600 300 "ALB  →  ECS Service Discovery  →  gRPC"
          (record plain { sz = 10; c = mdgray; al = center })
      ∷ tx 800 5950 5600 300 "AWS CDK (TypeScript) — all infra as code"
          (record plain { sz = 10; c = mdgray; al = center })
      ∷ box 6800 1450 5700 4900 (record unstyled { fill = some vlight; rd = true })
      ∷ ml 7100 1600 5200 4700 (
          line "Cloud Validation Results" 14 red true left
          ∷ line "" 8 white false left
          ∷ line "Phase 1 — Data Plane" 13 dkgray true left
          ∷ line "  •  7,359 messages persisted (10 min)" 11 dkgray false left
          ∷ line "  •  0 duplicate PTS violations" 11 green false left
          ∷ line "  •  GW crash recovery: 3 seconds" 11 dkgray false left
          ∷ line "" 8 white false left
          ∷ line "Phase 2 — Compute (ECS Fargate)" 13 dkgray true left
          ∷ line "  •  Multi-AZ deployment validated" 11 dkgray false left
          ∷ line "  •  Cross-AZ messaging confirmed" 11 dkgray false left
          ∷ line "  •  Service discovery operational" 11 dkgray false left
          ∷ line "" 8 white false left
          ∷ line "Phase 3 — Edge Layer" 13 dkgray true left
          ∷ line "  •  S3 + CloudFront static hosting" 11 dkgray false left
          ∷ line "  •  Live demo: 2 laptops, real-time" 11 dkgray false left
          ∷ line "" 8 white false left
          ∷ line "Technology Stack" 13 red true left
          ∷ line "  AWS CDK (TS) · ECS Fargate · ALB" 11 mdgray false left
          ∷ line "  RDS PostgreSQL · ElastiCache Redis" 11 mdgray false left
          ∷ line "  S3 · CloudFront · Docker" 11 mdgray false left
          ∷ [])
      ∷ []);
}
