-- ===== src/Common/Text/Splitting.antt =====
-- Splitting at a separator.
use Prim.Native.Char.{Char, code}
use Prim.Native.String.{String, [], ◌∷◌}
use mathlib.Core.Path.{◌≡◌, ap, ◌∙◌, sym}
use mathlib.Core.Bool.{Bool, true, false, not}
use mathlib.Core.List.{List}
use Prim.Native.Nat.{ℕ}
use text.Mathlib.TextLemmas.{cons-append, nil-append, append-nil, append_assoc}
use authometry.Common.Tests.{◌==◌, and_parts, not-true}
use authometry.Common.Text.{◌+s◌, push, split_from, split, every_code}

-- No character of the text is the separator.
abbrev pub Free : ℕ → String → Type 0
Free sep s = every_code (λ n. not (n == sep)) s ≡ true

module _ (sep : ℕ) where
  -- One character more in the piece that is read.
  piece : (cur s : String) (c : Char) → push cur c +s s ≡ cur +s (c ∷ s)
  piece cur s c =
      append_assoc cur (c ∷ []) s
      ∙ ap (λ x. cur +s x) (cons-append c [] s ∙ ap (λ x. c ∷ x) (nil-append s))

  longer :
      (cur s : String) (c : Char)
      → (code c == sep) ≡ false
      → split_from sep cur (c ∷ s) ≡ split_from sep (push cur c) s
  unfolding split_from
  longer cur s c h = rw h

  closed :
      (cur s : String) (c : Char)
      → (code c == sep) ≡ true
      → split_from sep cur (c ∷ s) ≡ List.◌∷◌ cur (split_from sep "" s)
  unfolding split_from
  closed cur s c h = rw h

  split_from-Free :
      (cur s : String) → Free sep s → split_from sep cur s ≡ List.◌∷◌ (cur +s s) List.[]
  unfolding split_from every_code
  split_from-Free cur [] h = ap (λ x. List.◌∷◌ x List.[]) (sym (append-nil cur))
  split_from-Free cur (c ∷ s) h =
      let (other, rest) = and_parts (not (code c == sep)) _ h in
      longer cur s c (not-true _ other)
      ∙ split_from-Free (push cur c) s rest
      ∙ ap (λ x. List.◌∷◌ x List.[]) (piece cur s c)

  split_from-cut :
      (cur s t : String) (c : Char)
      → Free sep s
      → (code c == sep) ≡ true
      → split_from sep cur (s +s (c ∷ t)) ≡ List.◌∷◌ (cur +s s) (split_from sep "" t)
  unfolding split_from every_code
  split_from-cut cur [] t c h e =
      ap (split_from sep cur) (nil-append (c ∷ t))
      ∙ closed cur t c e
      ∙ ap (λ x. List.◌∷◌ x (split_from sep "" t)) (sym (append-nil cur))
  split_from-cut cur (d ∷ s) t c h e =
      let (other, rest) = and_parts (not (code d == sep)) _ h in
      ap (split_from sep cur) (cons-append d s (c ∷ t))
      ∙ longer cur (s +s (c ∷ t)) d (not-true _ other)
      ∙ split_from-cut (push cur d) s t c rest e
      ∙ ap (λ x. List.◌∷◌ x (split_from sep "" t)) (piece cur s d)

  -- Two texts that are free of the separator, with it between them.
  pub split-join :
      (s t : String) (c : Char)
      → Free sep s
      → Free sep t
      → (code c == sep) ≡ true
      → split sep (s +s (c ∷ t)) ≡ List.◌∷◌ s (List.◌∷◌ t List.[])
  unfolding split
  split-join s t c left right e =
      split_from-cut "" s t c left e
      ∙ ap (λ x. List.◌∷◌ x (split_from sep "" t)) (nil-append s)
      ∙ ap (List.◌∷◌ s) (split_from-Free "" t right ∙ ap (λ x. List.◌∷◌ x List.[]) (nil-append t))

  -- The text of the one character that is the separator.
  abbrev pub is_marker : String → Bool
  is_marker [] = false
  is_marker (c ∷ []) = code c == sep
  is_marker (c ∷ (d ∷ s)) = false

  pub split-marker :
      (s dot t : String)
      → Free sep s
      → Free sep t
      → is_marker dot ≡ true
      → split sep (s +s dot +s t) ≡ List.◌∷◌ s (List.◌∷◌ t List.[])
  split-marker s [] t left right h = absurd (cc)
  split-marker s (c ∷ []) t left right h =
      ap (λ x. split sep (s +s x)) (cons-append c [] t ∙ ap (λ x. c ∷ x) (nil-append t))
      ∙ split-join s t c left right h
  split-marker s (c ∷ (d ∷ x)) t left right h = absurd (cc)
