-- ===== src/Scripts/Deck/Whole.antt =====
-- The presentation that scripts/generate_ppt.py saves.
use tinytelegram.Base.{List, [], ◌∷◌}
use tinytelegram.Scripts.Deck.Pptx.{Slide}
use tinytelegram.Scripts.Deck.Slides.Title.{title_slide}
use tinytelegram.Scripts.Deck.Slides.Architecture.{architecture_slide}
use tinytelegram.Scripts.Deck.Slides.Scaling.{scaling_slide}
use tinytelegram.Scripts.Deck.Slides.Bottleneck.{bottleneck_slide}
use tinytelegram.Scripts.Deck.Slides.Failover.{failover_slide}
use tinytelegram.Scripts.Deck.Slides.Consistency.{consistency_slide}
use tinytelegram.Scripts.Deck.Slides.Cloud.{cloud_slide}
use tinytelegram.Scripts.Deck.Slides.DataPlane.{data_plane_slide}
use tinytelegram.Scripts.Deck.Slides.Demo.{demo_slide}
use tinytelegram.Scripts.Deck.Slides.Conclusion.{conclusion_slide}

-- prs.slides, in the order in which they are added
unfoldable pub presentation : List Slide
presentation =
    title_slide ∷ architecture_slide ∷ scaling_slide ∷ bottleneck_slide ∷ failover_slide
    ∷ consistency_slide ∷ cloud_slide ∷ data_plane_slide ∷ demo_slide ∷ conclusion_slide ∷ []
