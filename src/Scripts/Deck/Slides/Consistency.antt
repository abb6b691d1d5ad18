-- ===== src/Scripts/Deck/Slides/Consistency.antt =====
-- Slide 6 of scripts/generate_ppt.py.
use tinytelegram.Base.{List, String, [], some, true, ◌-◌, ◌∷◌}
use tinytelegram.Scripts.Deck.Pptx.{
  Color, Slide, box, center, dkgray, flatten, ftr, green, hdr, ltgray, middle, plain, sw, tx,
  unstyled, white,
}
use tinytelegram.Scripts.Deck.Rows.{condition_cards, metric_cards}

abbrev pub cards1 : List (String × String × Color)
cards1 =
    ("218,059", "Total Iterations", dkgray)
    ∷ ("0", "PTS Violations", green)
    ∷ ("1,211", "Messages / sec", dkgray)
    ∷ []

abbrev pub cards2 : List (String × String)
cards2 =
    ("50 VUs", "Concurrent Users")
    ∷ ("2.5 min", "Test Duration")
    ∷ ("Service Crash", "Mid-Test Restart")
    ∷ []

unfoldable pub consistency_slide : Slide
consistency_slide = record {
  background = white;
  items = flatten (
      hdr "Experiment 4: Consistency Validation"
        "Verifying PTS strict ordering under concurrent load with mid-test service crash"
      ∷ ftr 6
      ∷ metric_cards 0 cards1
      ∷ box 1200 3450 (sw - 2400) 12 (record unstyled { fill = some ltgray })
      ∷ condition_cards 0 cards2
      ∷ box 2200 5200 (sw - 4400) 1200 (record unstyled { fill = some green; rd = true })
      ∷ tx 2200 5250 (sw - 4400) 650 "VERDICT:  ✓ PASS"
          (record plain { sz = 30; c = white; b = true; al = center; anc = middle })
      ∷ tx 2200 5850 (sw - 4400) 450
          "Redis INCR provides strict causal ordering without Raft consensus"
          (record plain { sz = 14; c = white; al = center })
      ∷ []);
}
