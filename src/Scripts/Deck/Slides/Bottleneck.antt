-- ===== src/Scripts/Deck/Slides/Bottleneck.antt =====
-- Slide 4 of scripts/generate_ppt.py.
use tinytelegram.Base.{[], false, none, some, true, ◌∷◌}
use tinytelegram.Scripts.Deck.Pptx.{
  Slide, addimg, box, dkgray, flatten, ftr, green, hdr, left, line, mdgray, ml, red, unstyled,
  vlight, white,
}
use tinytelegram.Scripts.Deck.Charts.Bars.{make_exp2}

unfoldable pub bottleneck_slide : Slide
bottleneck_slide = record {
  background = white;
  items = flatten (
      hdr "Experiment 2: Write-Path Bottleneck Analysis"
        "Isolating Redis INCR vs Postgres INSERT latency in the persistence pipeline"
      ∷ ftr 4
      ∷ addimg make_exp2 400 1700 (some 6200) none
      ∷ box 7100 1500 5500 5300 (record unstyled { fill = some vlight; rd = true })
      ∷ ml 7400 1700 5000 5000 (
          line "Key Finding" 14 red true left
          ∷ line "" 6 white false left
          ∷ line "Postgres INSERT is 4.5× slower than" 13 dkgray false left
          ∷ line "Redis INCR. Redis atomic operations are" 13 dkgray false left
          ∷ line "NOT the bottleneck." 13 dkgray true left
          ∷ line "" 10 white false left
          ∷ line "Latency Breakdown" 13 red true left
          ∷ line "" 4 white false left
          ∷ line "•  Redis INCR (PTS):      0.69 ms avg" 12 dkgray false left
          ∷ line "•  Postgres INSERT:       3.10 ms avg" 12 dkgray false left
          ∷ line "" 10 white false left
          ∷ line "Implication" 13 red true left
          ∷ line "" 4 white false left
          ∷ line "Redis INCR justified as PTS allocator —" 11 mdgray false left
          ∷ line "no need for heavier consensus (e.g. Raft)." 11 mdgray false left
          ∷ line "To improve throughput: optimize PG writes" 11 mdgray false left
          ∷ line "(batch inserts, connection pooling)." 11 mdgray false left
          ∷ line "" 14 white false left
          ∷ line "Verdict:  ✓ PASS" 18 green true left
          ∷ [])
      ∷ []);
}
