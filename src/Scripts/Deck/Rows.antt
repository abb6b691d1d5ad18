-- ===== src/Scripts/Deck/Rows.antt =====
-- The loops of scripts/generate_ppt.py that place one row or card after another.
use tinytelegram.Base.{ℕ, suc, ◌+◌, ◌*◌, String, true, some, List, [], ◌∷◌, ◌++◌}
use tinytelegram.Scripts.Deck.Pptx.{
  Color, Item, box, tx, flatten, unstyled, plain, red, dkred, white, dkgray, mdgray, ltgray, vlight,
  center, middle,
}

-- for title, desc in concepts
unfoldable pub concept_items : ℕ → List (String × String) → List Item
unfolding box tx
concept_items cy [] = []
concept_items cy ((title, desc) ∷ rest) =
    flatten (
      box 9350 cy 70 850 (record unstyled { fill = some red })
      ∷ tx 9600 cy 3300 300 title (record plain { sz = 13; b = true; c = dkgray })
      ∷ tx 9600 (cy + 330) 3300 550 desc (record plain { sz = 10; c = mdgray })
      ∷ [])
    ++ concept_items (cy + 1250) rest

-- for i, (num, label, c) in enumerate(cards1)
unfoldable pub metric_cards : ℕ → List (String × String × Color) → List Item
unfolding box tx
metric_cards i [] = []
metric_cards i ((num, label, c) ∷ rest) =
    let cx = 1200 + i * 4100 in
    flatten (
      box cx 1550 3200 1600 (record unstyled { fill = some vlight; rd = true })
      ∷ tx cx 1650 3200 850 num (record plain { sz = 48; c = c; b = true; al = center })
      ∷ tx cx 2550 3200 400 label (record plain { sz = 15; c = mdgray; al = center })
      ∷ [])
    ++ metric_cards (suc i) rest

-- for i, (val, label) in enumerate(cards2)
unfoldable pub condition_cards : ℕ → List (String × String) → List Item
unfolding box tx
condition_cards i [] = []
condition_cards i ((val, label) ∷ rest) =
    let cx = 1200 + i * 4100 in
    flatten (
      box cx 3700 3200 1150 (record unstyled { fill = some vlight; rd = true })
      ∷ tx cx 3780 3200 600 val (record plain { sz = 26; c = red; b = true; al = center })
      ∷ tx cx 4350 3200 350 label (record plain { sz = 13; c = mdgray; al = center })
      ∷ [])
    ++ condition_cards (suc i) rest

-- for label, desc in env_items
unfoldable pub env_rows : ℕ → List (String × String) → List Item
unfolding tx
env_rows ey [] = []
env_rows ey ((label, desc) ∷ rest) =
    flatten (
      tx 7050 ey 2300 250 label (record plain { sz = 10; c = dkgray; b = true })
      ∷ tx 9300 ey 3000 250 desc (record plain { sz = 10; c = mdgray })
      ∷ [])
    ++ env_rows (ey + 360) rest

-- for label, desc in topo_items
unfoldable pub topo_rows : ℕ → List (String × String) → List Item
unfolding tx
topo_rows ty [] = []
topo_rows ty ((label, desc) ∷ rest) =
    flatten (
      tx 7050 ty 2300 250 label (record plain { sz = 10; c = dkgray; b = true })
      ∷ tx 9300 ty 3200 250 desc (record plain { sz = 10; c = mdgray })
      ∷ [])
    ++ topo_rows (ty + 360) rest

-- for tag, topic, finding in results
unfoldable pub takeaway_rows : ℕ → List (String × String × String) → List Item
unfolding box tx
takeaway_rows cy [] = []
takeaway_rows cy ((tag, topic, finding) ∷ rest) =
    flatten (
      box 1000 cy 1500 580 (record unstyled { fill = some dkred; rd = true })
      ∷ tx 1000 cy 1500 580 tag
          (record plain { sz = 12; c = white; b = true; al = center; anc = middle })
      ∷ tx 2800 (cy + 30) 2500 500 topic (record plain { sz = 14; c = white; b = true })
      ∷ tx 5600 (cy + 30) 7000 500 finding (record plain { sz = 13; c = ltgray })
      ∷ [])
    ++ takeaway_rows (cy + 730) rest

-- The height `cy` after that loop.
unfoldable pub takeaways_end : ℕ → List (String × String × String) → ℕ
takeaways_end cy [] = cy
takeaways_end cy (row ∷ rest) = takeaways_end (cy + 730) rest
