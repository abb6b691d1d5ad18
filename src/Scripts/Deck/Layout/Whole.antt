-- ===== src/Scripts/Deck/Layout/Whole.antt =====
-- All slides, with pictures of any size that leaves them on the slide.
use tinytelegram.Base.{ℕ, ◌+◌, ◌≤◌, ◌≡◌, refl, arith, Bool, true, List, [], ◌∷◌, ◌&&◌, leb}
use tinytelegram.Scripts.Deck.Pptx.{Image, Slide, box, tx, ml, hdr, ftr, addimg}
use tinytelegram.Scripts.Deck.Charts.Arch.{make_arch}
use tinytelegram.Scripts.Deck.Charts.Bars.{make_exp1, make_exp2}
use tinytelegram.Scripts.Deck.Charts.Lines.{make_exp3}
use tinytelegram.Scripts.Deck.Rows.{
  concept_items, metric_cards, condition_cards, env_rows, topo_rows,
}
use tinytelegram.Scripts.Deck.Slides.Title.{title_slide}
use tinytelegram.Scripts.Deck.Slides.Architecture.{architecture_slide}
use tinytelegram.Scripts.Deck.Slides.Scaling.{scaling_slide}
use tinytelegram.Scripts.Deck.Slides.Bottleneck.{bottleneck_slide}
use tinytelegram.Scripts.Deck.Slides.Failover.{failover_slide}
use tinytelegram.Scripts.Deck.Slides.Consistency.{consistency_slide}
use tinytelegram.Scripts.Deck.Slides.Cloud.{cloud_slide}
use tinytelegram.Scripts.Deck.Slides.DataPlane.{data_plane_slide}
use tinytelegram.Scripts.Deck.Slides.Demo.{demo_slide}
use tinytelegram.Scripts.Deck.Slides.Conclusion.{conclusion_slide, results}
use tinytelegram.Scripts.Deck.Whole.{presentation}
use tinytelegram.Scripts.Deck.Layout.{all_fit}
use tinytelegram.Scripts.Deck.Layout.Closing.{conclusion_fits}

abbrev pub slides_fit : (Image → ℕ → ℕ) → List Slide → Bool
slides_fit height [] = true
slides_fit height (s ∷ slides) = all_fit height s.items && slides_fit height slides

le→leb : (a b : ℕ) → a ≤ b → leb a b ≡ true
le→leb a b h = ground arith

module _ (height : Image → ℕ → ℕ) where
  title_fits : all_fit height title_slide.items ≡ true
  unfolding title_slide box tx
  title_fits = refl

  architecture_fits : height make_arch 8800 ≤ 6150 → all_fit height architecture_slide.items ≡ true
  unfolding architecture_slide box tx ml hdr ftr addimg concept_items
  architecture_fits h = rw (le→leb (1350 + height make_arch 8800) 7500 (omega arith)) refl

  scaling_fits : height make_exp1 6200 ≤ 6000 → all_fit height scaling_slide.items ≡ true
  unfolding scaling_slide box tx ml hdr ftr addimg
  scaling_fits h = rw (le→leb (1500 + height make_exp1 6200) 7500 (omega arith)) refl

  bottleneck_fits : height make_exp2 6200 ≤ 5800 → all_fit height bottleneck_slide.items ≡ true
  unfolding bottleneck_slide box tx ml hdr ftr addimg
  bottleneck_fits h = rw (le→leb (1700 + height make_exp2 6200) 7500 (omega arith)) refl

  failover_fits : height make_exp3 7800 ≤ 6000 → all_fit height failover_slide.items ≡ true
  unfolding failover_slide box tx ml hdr ftr addimg
  failover_fits h = rw (le→leb (1500 + height make_exp3 7800) 7500 (omega arith)) refl

  consistency_fits : all_fit height consistency_slide.items ≡ true
  unfolding consistency_slide box tx ml hdr ftr metric_cards condition_cards
  consistency_fits = refl

  cloud_fits : all_fit height cloud_slide.items ≡ true
  unfolding cloud_slide box tx ml hdr ftr
  cloud_fits = refl

  data_plane_fits : all_fit height data_plane_slide.items ≡ true
  unfolding data_plane_slide box tx ml hdr ftr env_rows
  data_plane_fits = refl

  demo_fits : all_fit height demo_slide.items ≡ true
  unfolding demo_slide box tx ml hdr ftr topo_rows
  demo_fits = refl

  closing_fits : all_fit height conclusion_slide.items ≡ true
  unfolding conclusion_slide
  closing_fits = (conclusion_fits height results).1 (omega arith)

  -- However high the four charts come out at their widths, as long as each stays above the lower edge
  -- of its slide, every shape, text and picture of the presentation lies on its slide.
  pub presentation_fits :
      height make_arch 8800 ≤ 6150
      → height make_exp1 6200 ≤ 6000
      → height make_exp2 6200 ≤ 5800
      → height make_exp3 7800 ≤ 6000
      → slides_fit height presentation ≡ true
  unfolding presentation
  presentation_fits h₁ h₂ h₃ h₄ =
      rw
        (
          title_fits,
          architecture_fits h₁,
          scaling_fits h₂,
          bottleneck_fits h₃,
          failover_fits h₄,
          consistency_fits,
          cloud_fits,
          data_plane_fits,
          demo_fits,
          closing_fits,
        )
        refl
