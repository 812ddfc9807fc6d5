-- ===== src/Api/Segments.antt =====
-- Paths with an argument as one segment, as the routes take them apart.
use mihomo_cp.Prelude.{
  Bool, true, ◌&&◌, ℕ, ◌≡◌, refl, ◌∙◌, ap, false, List, [], ◌∷◌, ◌++◌, Option, none, some, ◌>>=◌,
}
use mihomo_cp.Js.Text.{Text, codes, text_eq, is_empty}
use mihomo_cp.Js.Text.Split.{Free, split, split-Free, split-append, split-between}
use mihomo_cp.Api.{Method, get}
use mihomo_cp.Api.Routes.{
  Call, call, Guard, protected, decoded, dispatch, serve, Route, lit, wild, protected,
  most_specific, front_end, taken,
}

module _ (decode : Text → Option Text) (g : Guard) (h : Text) where
  -- The call with the decoded values of some segments.
  abbrev pub with_values : List Text → Option Call
  unfolding decoded
  with_values raw = decoded decode raw >>= (λ (values : List Text). some (call g h values))

  -- A path that ends in a segment of its own.
  pub at_end :
      (m : Method) (pre raw value : Text)
      → Free 47 raw
      → is_empty raw ≡ false
      → decode raw ≡ some value
      → ((c : ℕ) (s : Text)
          → raw ≡ c ∷ s
          → dispatch decode m (split 47 pre ++ (c ∷ s) ∷ []) ≡ with_values ((c ∷ s) ∷ []))
      → serve decode m (pre ++ 47 ∷ raw) ≡ some (call g h (value ∷ []))
  unfolding serve decoded
  at_end m pre [] value free full held go = cc
  at_end m pre (c ∷ s) value free full held go =
      ap (dispatch decode m) (
        split-between 47 pre (c ∷ s) refl
        ∙ ap (λ (ps : List Text). split 47 pre ++ ps) (split-Free 47 (c ∷ s) free))
      ∙ go c s refl
      ∙ rw held refl

  -- A path with a segment of its own before its end.
  pub inside :
      (m : Method) (pre raw value rest : Text)
      → Free 47 raw
      → is_empty raw ≡ false
      → decode raw ≡ some value
      → ((c : ℕ) (s : Text)
          → raw ≡ c ∷ s
          → dispatch decode m (split 47 pre ++ (c ∷ s) ∷ split 47 rest)
            ≡ with_values ((c ∷ s) ∷ []))
      → serve decode m (pre ++ 47 ∷ (raw ++ 47 ∷ rest)) ≡ some (call g h (value ∷ []))
  unfolding serve decoded
  inside m pre [] value rest free full held go = cc
  inside m pre (c ∷ s) value rest free full held go =
      ap (dispatch decode m) (
        split-between 47 pre ((c ∷ s) ++ 47 ∷ rest) refl
        ∙ ap (λ (ps : List Text). split 47 pre ++ ps) (split-append 47 (c ∷ s) rest refl free))
      ∙ go c s refl
      ∙ rw held refl

-- The choice between the two routes of a subscription's path, by the test for the literal one.
by_test : (Text → Option Text) → Text → Text → Bool → Option Call
unfolding most_specific taken
by_test decode first id literal =
    let one : Route = record {
      method = get;
      pattern = lit (codes "subscriptions") ∷ wild ∷ [];
      guard = protected;
      handler = codes "subscriptionHandler.Get";
    } in
    let other : Route = record {
      method = get;
      pattern = lit (codes "subscriptions") ∷ lit (codes "providers") ∷ [];
      guard = protected;
      handler = codes "subscriptionHandler.Discover";
    } in
    elim (most_specific (elim (literal && true) [ true ↦ other ∷ one ∷ [] | false ↦ one ∷ [] ])) [
      | none ↦ some front_end
      | some r ↦ taken decode (first ∷ id ∷ []) r
    ]

pub dispatch-subscription :
    (decode : Text → Option Text) (c : ℕ) (s : Text)
    → text_eq (codes "providers") (c ∷ s) ≡ false
    → dispatch decode get (codes "subscriptions" ∷ (c ∷ s) ∷ [])
      ≡ with_values decode protected (codes "subscriptionHandler.Get") ((c ∷ s) ∷ [])
unfolding dispatch taken decoded text_eq by_test
dispatch-subscription decode c s miss =
    let e : dispatch decode get (codes "subscriptions" ∷ (c ∷ s) ∷ [])
        ≡ by_test decode (codes "subscriptions") (c ∷ s) (text_eq (codes "providers") (c ∷ s)) =
      refl in
    e ∙ ap (by_test decode (codes "subscriptions") (c ∷ s)) miss
