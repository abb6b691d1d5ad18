-- ===== src/Scripts/Deck/Slides/Scaling.antt =====
-- Slide 3 of scripts/generate_ppt.py.
use tinytelegram.Base.{[], false, none, some, true, ◌∷◌}
use tinytelegram.Scripts.Deck.Pptx.{
  Slide, addimg, box, dkgray, flatten, ftr, green, hdr, left, line, mdgray, ml, red, unstyled,
  vlight, white,
}
use tinytelegram.Scripts.Deck.Charts.Bars.{make_exp1}

unfoldable pub scaling_slide : Slide
scaling_slide = record {
  background = white;
  items = flatten (
      hdr "Experiment 1: Gateway Horizontal Scaling"
        "2,000 concurrent WebSocket connections across 1 / 3 / 5 gateway configurations"
      ∷ ftr 3
      ∷ addimg make_exp1 400 1500 (some 6200) none
      ∷ box 7100 1500 5500 5300 (record unstyled { fill = some vlight; rd = true })
      ∷ ml 7400 1700 5000 5000 (
          line "Key Finding" 14 red true left
          ∷ line "" 6 white false left
          ∷ line "Per-gateway memory scales linearly with" 13 dkgray false left
          ∷ line "connections. Adding gateways distributes" 13 dkgray false left
          ∷ line "load via consistent hashing." 13 dkgray false left
          ∷ line "" 10 white false left
          ∷ line "Metrics @ 2,000 Total Connections" 13 red true left
          ∷ line "" 4 white false left
          ∷ line "•  1 GW:  55 MB/gw  (2000 conns each)" 12 dkgray false left
          ∷ line "•  3 GW:  17 MB/gw  (~667 conns each)" 12 dkgray false left
          ∷ line "•  5 GW:  10 MB/gw  (~400 conns each)" 12 dkgray false left
          ∷ line "" 10 white false left
          ∷ line "Total system memory ~50-55 MB regardless" 11 mdgray false left
          ∷ line "of gateway count — load is distributed." 11 mdgray false left
          ∷ line "" 14 white false left
          ∷ line "Verdict:  ✓ PASS" 18 green true left
          ∷ [])
      ∷ []);
}
