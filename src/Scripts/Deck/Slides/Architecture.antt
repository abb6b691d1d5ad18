-- ===== src/Scripts/Deck/Slides/Architecture.antt =====
-- Slide 2 of scripts/generate_ppt.py.
use tinytelegram.Base.{List, String, [], none, some, ◌∷◌}
use tinytelegram.Scripts.Deck.Pptx.{Slide, addimg, flatten, ftr, hdr, white}
use tinytelegram.Scripts.Deck.Charts.Arch.{make_arch}
use tinytelegram.Scripts.Deck.Rows.{concept_items}

abbrev pub concepts : List (String × String)
concepts =
    ("Consistent Hashing", "Nginx hash(user_id) → O(1)\nrouting, minimal remapping")
    ∷ ("PTS via Redis INCR", "Atomic per-user sequence\nnumbers, no Raft needed")
    ∷ ("gRPC Mesh Routing", "Gateway-to-gateway delivery\nfor cross-node messages")
    ∷ ("getDiff(pts) Sync", "Incremental recovery on\nreconnect, zero message loss")
    ∷ []

unfoldable pub architecture_slide : Slide
architecture_slide = record {
  background = white;
  items = flatten (
      hdr "System Architecture" "Stateful/stateless split with Redis-based global ordering"
      ∷ ftr 2
      ∷ addimg make_arch 300 1350 (some 8800) none
      ∷ concept_items 1550 concepts
      ∷ []);
}
