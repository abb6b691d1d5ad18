-- ===== src/Scripts/Deck/Slides/Title.antt =====
-- Slide 1 of scripts/generate_ppt.py.
use tinytelegram.Base.{[], some, true, ◌-◌, ◌∷◌}
use tinytelegram.Scripts.Deck.Pptx.{
  Slide, black, box, center, dkred, flatten, ltgray, mdgray, plain, red, sw, tx, unstyled, white,
}

unfoldable pub title_slide : Slide
title_slide = record {
  background = black;
  items = flatten (
      box 0 0 sw 1600 (record unstyled { fill = some red })
      ∷ box 0 1600 sw 150 (record unstyled { fill = some dkred })
      ∷ tx 0 2300 sw 1000 "TinyTelegram"
          (record plain { sz = 60; c = white; b = true; al = center; fn = "Segoe UI" })
      ∷ tx 0 3300 sw 500 "A Distributed Instant Messaging System"
          (record plain { sz = 22; c = ltgray; al = center })
      ∷ box 4500 4150 (sw - 9000) 15 (record unstyled { fill = some mdgray })
      ∷ tx 0 4500 sw 400 "CS6650  ·  Building Scalable Distributed Systems"
          (record plain { sz = 16; c = mdgray; al = center })
      ∷ tx 0 5300 sw 500 "Fazheng Han   &   Emily Chen"
          (record plain { sz = 20; c = white; b = true; al = center })
      ∷ tx 0 5950 sw 400 "Northeastern University  ·  Spring 2026"
          (record plain { sz = 14; c = red; al = center })
      ∷ []);
}
