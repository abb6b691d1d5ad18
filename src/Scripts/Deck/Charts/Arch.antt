-- ===== src/Scripts/Deck/Charts/Arch.antt =====
-- The architecture diagram of scripts/generate_ppt.py.
use tinytelegram.Base.{true, false, [], ◌∷◌, ◌++◌}
use tinytelegram.Scripts.Figure.{text, int, dec, neg, kw, pair, call}
use tinytelegram.Scripts.Deck.Pptx.{Image}
use tinytelegram.Scripts.Deck.Charts.{m_red, m_dkred, m_blk, m_dk, concat, tobuf, bx, ar}

unfoldable pub make_arch : Image
unfolding tobuf bx ar
make_arch = tobuf (
    (call "plt" "subplots" (kw "figsize" (pair (int 11) (int 5)) ∷ [])
      ∷ call "ax" "set_xlim" (neg (dec 2 1) ∷ dec 112 1 ∷ [])
      ∷ call "ax" "set_ylim" (neg (dec 2 1) ∷ dec 55 1 ∷ [])
      ∷ call "ax" "axis" (text "off" ∷ [])
      ∷ call "fig.patch" "set_facecolor" (text "white" ∷ [])
      ∷ [])
    ++ concat (
        bx 1000 2500 1600 800 m_dk "Web Client" "Browser / WS"
        ∷ bx 3300 2500 1600 800 m_red "Nginx LB" "hash(user_id)"
        ∷ bx 5800 4000 1400 600 m_dkred "Gateway 1" ""
        ∷ bx 5800 2500 1400 600 m_dkred "Gateway 2" ""
        ∷ bx 5800 1000 1400 600 m_dkred "Gateway 3" ""
        ∷ bx 8300 2500 1700 800 m_dk "Msg Service" "Stateless / gRPC"
        ∷ bx 10300 3300 1300 600 m_red "Redis" "PTS (INCR)"
        ∷ bx 10300 1700 1300 600 m_blk "Postgres" "Messages"
        ∷ ar 1800 2500 2500 2500 false "#999" 15
        ∷ ar 4100 2750 5100 3850 false "#999" 15
        ∷ ar 4100 2500 5100 2500 false "#999" 15
        ∷ ar 4100 2250 5100 1150 false "#999" 15
        ∷ ar 6500 3700 7450 2800 false "#bbb" 10
        ∷ ar 6500 2500 7450 2500 false "#999" 15
        ∷ ar 6500 1300 7450 2200 false "#bbb" 10
        ∷ ar 9150 2750 9650 3150 false "#999" 15
        ∷ ar 9150 2250 9650 1850 false "#999" 15
        ∷ ar 6650 3650 6650 2850 true m_red 20
        ∷ ar 6650 2150 6650 1350 true m_red 20
        ∷ [])
    ++ (call "ax" "text" (
          dec 215 2
          ∷ dec 272 2
          ∷ text "WS"
          ∷ kw "fontsize" (int 8)
          ∷ kw "color" (text "#888")
          ∷ kw "ha" (text "center")
          ∷ [])
        ∷ call "ax" "text" (
            dec 70 1
            ∷ dec 272 2
            ∷ text "gRPC"
            ∷ kw "fontsize" (int 8)
            ∷ kw "color" (text "#888")
            ∷ kw "ha" (text "center")
            ∷ [])
        ∷ call "ax" "text" (
            dec 715 2
            ∷ dec 315 2
            ∷ text "gRPC\nmesh"
            ∷ kw "fontsize" (dec 85 1)
            ∷ kw "color" (text m_red)
            ∷ kw "ha" (text "left")
            ∷ kw "va" (text "center")
            ∷ kw "fontweight" (text "bold")
            ∷ [])
        ∷ call "ax" "text" (
            dec 58 1
            ∷ dec 455 2
            ∷ text "Gateway Layer (Stateful)"
            ∷ kw "fontsize" (dec 95 1)
            ∷ kw "color" (text m_dkred)
            ∷ kw "ha" (text "center")
            ∷ kw "fontweight" (text "bold")
            ∷ [])
        ∷ []))
