-- ===== src/Scripts/Deck/Slides/Failover.antt =====
-- Slide 5 of scripts/generate_ppt.py.
use tinytelegram.Base.{[], false, none, some, true, ◌∷◌}
use tinytelegram.Scripts.Deck.Pptx.{
  Slide, addimg, box, dkgray, flatten, ftr, green, hdr, left, line, ml, red, unstyled, vlight,
  white,
}
use tinytelegram.Scripts.Deck.Charts.Lines.{make_exp3}

unfoldable pub failover_slide : Slide
failover_slide = record {
  background = white;
  items = flatten (
      hdr "Experiment 3: Gateway Failover & Recovery"
        "Measuring reconnection behavior and message integrity when a gateway crashes"
      ∷ ftr 5
      ∷ addimg make_exp3 200 1500 (some 7800) none
      ∷ box 8500 1500 4300 5300 (record unstyled { fill = some vlight; rd = true })
      ∷ ml 8750 1700 3800 5000 (
          line "Key Finding" 14 red true left
          ∷ line "" 6 white false left
          ∷ line "Zero message loss during" 13 dkgray false left
          ∷ line "failover. Connections auto-" 13 dkgray false left
          ∷ line "redistribute to survivors." 13 dkgray false left
          ∷ line "" 8 white false left
          ∷ line "Failover Sequence" 12 red true left
          ∷ line "" 3 white false left
          ∷ line "1. Baseline: 3 GWs, 50 conns" 10 dkgray false left
          ∷ line "2. GW1 killed at t = 31s" 10 dkgray false left
          ∷ line "3. Clients reconnect to GW2/3" 10 dkgray false left
          ∷ line "4. getDiff(pts) recovers msgs" 10 dkgray false left
          ∷ line "" 8 white false left
          ∷ line "Recovery Metrics" 12 red true left
          ∷ line "" 3 white false left
          ∷ line "•  Drops: 22 (GW1 users)" 10 dkgray false left
          ∷ line "•  Recovery: < 3 seconds" 10 dkgray false left
          ∷ line "•  Message loss: 0" 11 green true left
          ∷ line "" 12 white false left
          ∷ line "Verdict:  ✓ PASS" 16 green true left
          ∷ [])
      ∷ []);
}
