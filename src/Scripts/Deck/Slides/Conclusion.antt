-- ===== src/Scripts/Deck/Slides/Conclusion.antt =====
-- Slide 10 of scripts/generate_ppt.py, for any list of takeaways.
use tinytelegram.Base.{ℕ, ◌+◌, ◌-◌, true, some, String, List, [], ◌∷◌}
use tinytelegram.Scripts.Deck.Pptx.{
  Slide, Item, box, tx, flatten, unstyled, plain, black, white, red, mdgray, center, middle, sw, sh,
}
use tinytelegram.Scripts.Deck.Rows.{takeaway_rows, takeaways_end}

abbrev pub results : List (String × String × String)
results =
    ("Exp 1", "Horizontal Scaling", "✓  Linear memory scaling validates consistent hashing")
    ∷ ("Exp 2", "Bottleneck Analysis", "✓  Redis INCR justified as PTS allocator (4.5× faster)")
    ∷ ("Exp 3", "Failover Recovery", "✓  Zero message loss with automatic reconnection")
    ∷ ("Exp 4", "Consistency", "✓  218K iterations, zero PTS violations under failures")
    ∷ ("Ph1", "Data Plane", "✓  7,359 msgs, 0 PTS duplicates, 3s crash recovery")
    ∷ ("Ph2+3", "Fargate Demo", "✓  Cross-AZ messaging live on CloudFront + ECS")
    ∷ []

-- The line of concepts below the takeaways, which end at `cy`.
unfoldable pub concepts_line : ℕ → List Item
unfolding tx
concepts_line cy =
    tx 0 (cy + 450) sw 400
      "Consistent Hashing  ·  Redis INCR (PTS)  ·  gRPC Mesh  ·  getDiff Sync  ·  CP Semantics"
      (record plain { sz = 13; c = red; al = center })

unfoldable pub thank_you : List Item
unfolding tx
thank_you =
    tx 0 (sh - 1800) sw 700 "Thank You!"
      (record plain { sz = 40; c = white; b = true; al = center })

unfoldable pub conclusion_with : List (String × String × String) → Slide
unfolding box tx takeaway_rows takeaways_end concepts_line thank_you
conclusion_with rows =
    let cy = takeaways_end 1200 rows in
    record {
      background = black;
      items = flatten (
          box 0 0 sw 950 (record unstyled { fill = some red })
          ∷ tx 0 50 sw 850 "Conclusion & Key Takeaways"
              (record plain { sz = 34; c = white; b = true; al = center; anc = middle })
          ∷ takeaway_rows 1200 rows
          ∷ box 1000 (cy + 250) (sw - 2000) 12 (record unstyled { fill = some mdgray })
          ∷ concepts_line cy
          ∷ thank_you
          ∷ tx 0 (sh - 1000) sw 500 "Questions?" (record plain { sz = 20; c = mdgray; al = center })
          ∷ []);
    }

unfoldable pub conclusion_slide : Slide
unfolding conclusion_with
conclusion_slide = conclusion_with results
