-- ===== src/ProxyList/Delays.antt =====
-- All delay tests at once: the answers may come in any order.
use mihomo_cp.Prelude.{
  ◌≡◌, ◌≢◌, refl, sym, ap, subst, ◌∙◌, inl, inr, List, [], ◌∷◌, map, some, some_inj, Bool-cases, In,
  All,
}
use mihomo_cp.Prelude.Unique.{Unique, All-In}
use mihomo_cp.Js.Text.{Text, text_eq}
use mihomo_cp.Js.Text.Laws.{text_eq_iff, text_eq_refl}
use mihomo_cp.Js.Value.{Value}
use mihomo_cp.NodeInventory.{NodeRow, Proxy, RuntimeProxyProvider}
use mihomo_cp.NodeInventory.Rows.{build_node_rows}
use mihomo_cp.NodeInventory.Push.{keys}
use mihomo_cp.NodeInventory.Build.{build_node_rows_lem}
use mihomo_cp.NodeInventory.Filter.{NodeFilters, filter_node_rows, In-filter_node_rows}
use mihomo_cp.ProxyList.{
  DelayState, Delays, put, Answer, state_of, finish, start_all, finish_all, test_all,
}

abbrev pub answer_keys : List (NodeRow × Answer) → List Text
answer_keys answers = map (λ p. p.0.key) answers

put_same : (key : Text) (s : DelayState) (m : Delays) → put key s m key ≡ some s
unfolding put
put_same key s m = rw (text_eq_refl key) refl

put_other : (key k : Text) (s : DelayState) (m : Delays) → k ≢ key → put key s m k ≡ m k
unfolding put
put_other key k s m n = elim (Bool-cases (text_eq key k)) [
  | inl e ↦ absurd (n (sym ((text_eq_iff key k).0 e)))
  | inr e ↦ rw e refl
]

In-answer_keys :
    (row : NodeRow) (a : Answer) (answers : List (NodeRow × Answer))
    → In (row, a) answers
    → In row.key (answer_keys answers)
In-answer_keys row a [] m = m
In-answer_keys row a (p ∷ ps) (inl e) = inl (ap (λ q. q.0.key) e)
In-answer_keys row a (p ∷ ps) (inr m) = inr (In-answer_keys row a ps m)

finish_untouched :
    (answers : List (NodeRow × Answer)) (m : Delays) (k : Text)
    → ¬ In k (answer_keys answers)
    → finish_all answers m k ≡ m k
unfolding finish_all finish
finish_untouched [] m k n = refl
finish_untouched ((row, a) ∷ rest) m k n =
    finish_untouched rest (put row.key (state_of a) m) k (λ h. n (inr h))
    ∙ put_other row.key k (state_of a) m (λ e. n (inl e))

finish_all_lem :
    (answers : List (NodeRow × Answer)) (m : Delays) (row : NodeRow) (a : Answer)
    → Unique (answer_keys answers)
    → In (row, a) answers
    → finish_all answers m row.key ≡ some (state_of a)
unfolding finish_all finish
finish_all_lem [] m row a u h = absurd h
finish_all_lem ((r, b) ∷ rest) m row a (n, u) (inl e) =
    let same : row.key ≡ r.key = ap (λ q. q.0.key) e in
    let answer : a ≡ b = ap (λ q. q.1) e in
    finish_untouched rest (put r.key (state_of b) m) row.key
      (λ h. n (subst (λ k. In k (answer_keys rest)) same h))
    ∙ ap (put r.key (state_of b) m) same
    ∙ put_same r.key (state_of b) m
    ∙ ap (λ x. some (state_of x)) (sym answer)
finish_all_lem ((r, b) ∷ rest) m row a (n, u) (inr h) =
    finish_all_lem rest (put r.key (state_of b) m) row a u h

test_all_lem :
    (rows : List NodeRow) (answers : List (NodeRow × Answer)) (m : Delays) (row : NodeRow)
    (a : Answer)
    → Unique (answer_keys answers)
    → In (row, a) answers
    → test_all rows answers m row.key ≡ some (state_of a)
unfolding test_all
test_all_lem rows answers m row a u h = finish_all_lem answers (start_all rows m) row a u h

In-keys : (r : NodeRow) (rows : List NodeRow) → In r rows → In r.key (keys rows)
In-keys r [] m = m
In-keys r (q ∷ qs) (inl e) = inl (ap (λ x. x.key) e)
In-keys r (q ∷ qs) (inr m) = inr (In-keys r qs m)

-- Rows of a table with distinct keys are told apart by their keys.
key_injective :
    (rows : List NodeRow) (r s : NodeRow)
    → Unique (keys rows)
    → In r rows
    → In s rows
    → r.key ≡ s.key
    → r ≡ s
key_injective [] r s u a b e = absurd a
key_injective (q ∷ qs) r s (n, u) (inl a) (inl b) e = a ∙ sym b
key_injective (q ∷ qs) r s (n, u) (inl a) (inr b) e =
    absurd (n (subst (λ k. In k (keys qs)) (sym e ∙ ap (λ x. x.key) a) (In-keys s qs b)))
key_injective (q ∷ qs) r s (n, u) (inr a) (inl b) e =
    absurd (n (subst (λ k. In k (keys qs)) (e ∙ ap (λ x. x.key) b) (In-keys r qs a)))
key_injective (q ∷ qs) r s (n, u) (inr a) (inr b) e = key_injective qs r s u a b e

In-answers :
    (answers : List (NodeRow × Answer)) (k : Text)
    → In k (answer_keys answers)
    → (r : NodeRow) × In r (map (λ p. p.0) answers) × (k ≡ r.key)
In-answers [] k m = absurd m
In-answers (p ∷ ps) k (inl e) = (p.0, inl refl, e)
In-answers (p ∷ ps) k (inr m) = let (r, there, e) = In-answers ps k m in (r, inr there, e)

answer_keys-Unique :
    (rows : List NodeRow) (answers : List (NodeRow × Answer))
    → Unique (keys rows)
    → All (λ r. In r rows) (map (λ p. p.0) answers)
    → Unique (map (λ p. p.0) answers)
    → Unique (answer_keys answers)
answer_keys-Unique rows [] u h v = tt
answer_keys-Unique rows (p ∷ ps) u (here, h) (n, v) = (
  λ m.
      let (r, there, e) = In-answers ps p.0.key m in
      let same : p.0 ≡ r =
        key_injective rows p.0 r u here (All-In (λ x. In x rows) r _ h there) e in
      n (subst (λ x. In x (map (λ q. q.0) ps)) (sym same) there),
  answer_keys-Unique rows ps u h v,
)

module _ (lower : Text → Text) (to_text : Value → Text) where
  shown_rows :
      (proxies : List Proxy) (providers : List RuntimeProxyProvider) (rows : List NodeRow)
      → build_node_rows lower to_text proxies providers ≡ some rows
      → Unique (keys rows)
  shown_rows proxies providers rows e =
      let (built, same, distinct, _) = build_node_rows_lem lower to_text proxies providers in
      subst (λ rs. Unique (keys rs)) (some_inj (sym same ∙ e)) distinct

  from_shown :
      (rows : List NodeRow) (filters : NodeFilters) (rs : List NodeRow)
      → All (λ r. In r (filter_node_rows lower rows filters)) rs
      → All (λ r. In r rows) rs
  unfolding filter_node_rows
  from_shown rows filters [] h = tt
  from_shown rows filters (r ∷ rs) (m, h) =
      (((In-filter_node_rows lower r rows filters).0 m).0, from_shown rows filters rs h)

  -- All rows that the page shows, whatever its filters are, are tested at once, and each answers at
  -- most once, in any order: then every row that has answered shows the result of its own answer, even
  -- where nodes of several providers have the same name.
  pub build_node_rows-test_all :
      (proxies : List Proxy) (providers : List RuntimeProxyProvider) (filters : NodeFilters)
      (rows : List NodeRow) (answers : List (NodeRow × Answer)) (m : Delays) (row : NodeRow)
      (a : Answer)
      → build_node_rows lower to_text proxies providers ≡ some rows
      → All (λ r. In r (filter_node_rows lower rows filters)) (map (λ p. p.0) answers)
      → Unique (map (λ p. p.0) answers)
      → In (row, a) answers
      → test_all (filter_node_rows lower rows filters) answers m row.key ≡ some (state_of a)
  build_node_rows-test_all proxies providers filters rows answers m row a built shown once h =
      test_all_lem (filter_node_rows lower rows filters) answers m row a
        (answer_keys-Unique rows answers (shown_rows proxies providers rows built)
          (from_shown rows filters (map (λ p. p.0) answers) shown) once)
        h
