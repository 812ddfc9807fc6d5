-- ===== src/SystemConfig/Lists.antt =====
-- The controls that edit a list as a text.
use mihomo_cp.Prelude.{
  ◌≡◌, refl, sym, ◌∙◌, ap, Bool, true, false, not, List, [], ◌∷◌, ◌++◌, map, keep, All,
}
use mathlib.Core.List.{append_assoc, append-nil}
use mihomo_cp.Js.Text.{Text, codes, trim, is_empty}
use mihomo_cp.Js.Text.Split.{Free, split, join, split-Free, split-append}
use mihomo_cp.Js.Value.{Value, Number, str, arr}
use mihomo_cp.SystemConfig.{lines, of_texts, line_items, joined_texts, shown_list, shown, entered}

-- An item that a text area keeps as one line: without a line feed, without white space at its ends,
-- not empty.
pub record Line (p : Text) : Type 0 where
  pub plain : Free 10 p
  pub trimmed : trim p ≡ p
  pub full : is_empty p ≡ false

cleaned : List Text → List Text
cleaned pieces = keep (λ (p : Text). not (is_empty p)) (map trim pieces)

cleaned-cons : (p : Text) (ps : List Text) → Line p → cleaned (p ∷ ps) ≡ p ∷ cleaned ps
unfolding cleaned
cleaned-cons p ps l =
    let full : is_empty (trim p) ≡ false = ap is_empty l.trimmed ∙ l.full in
    rw (keep, full) (ap (λ (q : Text). q ∷ cleaned ps) l.trimmed)

-- A text behind the lines of a text area, with the cursor at its end: nothing, or a line feed.
ends : Bool → Text
ends true = 10 ∷ []
ends false = []

nothing_more : cleaned (split 10 []) ≡ []
unfolding cleaned split trim
nothing_more = refl

nothing_at_all : cleaned [] ≡ []
unfolding cleaned
nothing_at_all = refl

line_items-cleaned : (s : Text) → line_items s ≡ cleaned (split 10 s)
unfolding line_items cleaned
line_items-cleaned [] = sym nothing_more
line_items-cleaned (c ∷ s) = refl

lines-join :
    (p : Text) (ps : List Text) (b : Bool)
    → All Line (p ∷ ps)
    → cleaned (split 10 (join (codes "\n") (p ∷ ps) ++ ends b)) ≡ p ∷ ps
unfolding join ends
lines-join p [] true (l, h) =
    ap cleaned (split-append 10 p [] refl l.plain)
    ∙ cleaned-cons p _ l
    ∙ ap (λ (ss : List Text). p ∷ ss) nothing_more
lines-join p [] false (l, h) =
    ap (λ (s : Text). cleaned (split 10 s)) (append-nil p)
    ∙ ap cleaned (split-Free 10 p l.plain)
    ∙ cleaned-cons p [] l
    ∙ ap (λ (ss : List Text). p ∷ ss) nothing_at_all
lines-join p (q ∷ ps) b (l, h) =
    ap (λ (s : Text). cleaned (split 10 s))
      (append_assoc p (10 ∷ join (codes "\n") (q ∷ ps)) (ends b))
    ∙ ap cleaned (split-append 10 p (join (codes "\n") (q ∷ ps) ++ ends b) refl l.plain)
    ∙ cleaned-cons p _ l
    ∙ ap (λ (ss : List Text). p ∷ ss) (lines-join q ps b h)

joined_texts-of_texts :
    (to_text : Value → Text) (ps : List Text) → joined_texts to_text (of_texts ps) ≡ ps
joined_texts-of_texts to_text [] = refl
joined_texts-of_texts to_text (p ∷ ps) =
    ap (λ (ss : List Text). p ∷ ss) (joined_texts-of_texts to_text ps)

two_empty : cleaned ([] ∷ split 10 []) ≡ []
unfolding cleaned split trim
two_empty = refl

line_items-join :
    (ps : List Text) (b : Bool) → All Line ps → line_items (join (codes "\n") ps ++ ends b) ≡ ps
unfolding line_items join ends
line_items-join [] true h =
    line_items-cleaned (10 ∷ []) ∙ ap cleaned (split-append 10 [] [] refl tt) ∙ two_empty
line_items-join [] false h = refl
line_items-join (p ∷ ps) b h =
    line_items-cleaned (join (codes "\n") (p ∷ ps) ++ ends b) ∙ lines-join p ps b h

module _ (to_text : Value → Text) (to_number : Text → Number) where
  -- A list of texts, none of them empty, none with a line feed in it or with white space at its ends,
  -- shown in a text area of the page and entered without a change, is the same list,
  -- and so it is when a line feed is typed behind the shown text: the text area then shows what it
  -- showed before.
  pub shown-entered :
      (ps : List Text)
      → All Line ps
      → (shown to_text lines (arr (of_texts ps)) ≡ str (join (codes "\n") ps))
        × (entered to_number lines (join (codes "\n") ps) ≡ arr (of_texts ps))
        × (shown to_text lines (entered to_number lines (join (codes "\n") ps ++ codes "\n"))
            ≡ shown to_text lines (arr (of_texts ps)))
  unfolding shown shown_list entered ends
  shown-entered ps h = (
    ap (λ (ss : List Text). str (join (codes "\n") ss)) (joined_texts-of_texts to_text ps),
    ap (λ (ss : List Text). arr (of_texts ss))
        (ap line_items (sym (append-nil (join (codes "\n") ps))) ∙ line_items-join ps false h),
    ap (λ (ss : List Text). shown to_text lines (arr (of_texts ss))) (line_items-join ps true h),
  )
