-- ===== src/Base/Text.antt =====
-- Texts in the parts between their slashes: strings.Split(s, "/") of Go, and what path.normalize of
-- Node reads. A test of two texts for equality.
use Prim.Native.Char.{Char, code}
use Prim.Native.String.{String, ◌++◌ as ◌<>◌, [] as no_text, ◌∷◌ as ◌in_front◌}
use text.Mathlib.TextLemmas.{nil-append, cons-append}
use mathlib.Core.Path.{◌≡◌, refl, ap, ◌∙◌}
use mathlib.Core.Logic.{inl, inr}
use mathlib.Core.Bool.{false}
use native.Mathlib.Omega.{arith}
use text.Mathlib.Text.{◌==◌}
use text.Mathlib.TextEquality.{eq_iff}
use mathlib.Core.List.{List, [], ◌∷◌, ◌++◌}
use Prim.Native.Nat.{ℕ}
use tinytelegram.Base.Lists.{All}
use tinytelegram.Base.Tests.{eqb, if◌then◌else◌, Bool-cases}

abbrev pub slash : ℕ
slash = b'/'

-- A character in front of the first part.
abbrev on_first : Char → List String → List String
on_first c [] = (c in_front no_text) ∷ []
on_first c (part ∷ parts) = (c in_front part) ∷ parts

-- strings.Split(s, "/")
unfoldable pub split_slash : String → List String
split_slash no_text = no_text ∷ []
split_slash (c in_front s) =
    let parts = split_slash s in if eqb (code c) slash then no_text ∷ parts else on_first c parts

-- There is a first part.
abbrev pub Parts : String → Type 0
Parts s = (part : String) × (parts : List String) × (split_slash s ≡ part ∷ parts)

pub split_slash-Parts : (s : String) → Parts s
unfolding split_slash
split_slash-Parts no_text = (no_text, [], refl)
split_slash-Parts (c in_front s) =
    let (part, parts, e) = split_slash-Parts s in
    elim (Bool-cases (eqb (code c) slash)) [
      | inl same ↦ rw same (no_text, split_slash s, refl)
      | inr other ↦ rw (other, e) (c in_front part, parts, refl)
    ]

-- The parts of two texts with a slash between them.
pub split_slash-join :
    (s t : String) → split_slash (s <> ("/" <> t)) ≡ split_slash s ++ split_slash t
unfolding split_slash
split_slash-join no_text t =
    ap split_slash
      (nil-append ("/" <> t) ∙ cons-append "/" no_text t ∙ ap (λ u. "/" in_front u) (nil-append t))
split_slash-join (c in_front s) t =
    let (part, parts, e) = split_slash-Parts s in
    ap split_slash (cons-append c s ("/" <> t)) ∙ elim (Bool-cases (eqb (code c) slash)) [
      | inl same ↦ rw (same, split_slash-join s t) refl
      | inr other ↦ rw (other, split_slash-join s t, e) refl
    ]

on_first-All :
    (c : Char) (parts : List String)
    → eqb (code c) slash ≡ false
    → All (λ part. split_slash part ≡ part ∷ []) parts
    → All (λ part. split_slash part ≡ part ∷ []) (on_first c parts)
unfolding split_slash
on_first-All c [] other h = rw other (refl, tt)
on_first-All c (part ∷ parts) other h = rw (other, h.0) (refl, h.1)

-- No part has a slash.
pub split_slash-All : (s : String) → All (λ part. split_slash part ≡ part ∷ []) (split_slash s)
unfolding split_slash
split_slash-All no_text = (refl, tt)
split_slash-All (c in_front s) = elim (Bool-cases (eqb (code c) slash)) [
  | inl same ↦ rw same (refl, split_slash-All s)
  | inr other ↦ rw other (on_first-All c (split_slash s) other (split_slash-All s))
]

-- A test for equality, turned around.
pub flip : (s t : String) → (s == t) ≡ false → (t == s) ≡ false
flip s t other = ground (arith, eq_iff s t, eq_iff t s)
