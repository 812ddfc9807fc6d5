-- ===== src/Witnesses/ProxyList.antt =====
-- Delay tests and their paths at concrete rows, where two providers have a node of the same name.
use mihomo_cp.Prelude.{
  ◌≡◌, ◌≢◌, refl, inl, inr, List, [], ◌∷◌, Option, none, some, In, All, ◌==◌, Option-cases,
  if◌then◌else◌, Bool-cases, some_inj, sym, ap, ◌∙◌, subst,
}
use mihomo_cp.Js.Text.{Text, codes, text_eq}
use mihomo_cp.Js.Text.Laws.{text_eq-eq-false}
use mihomo_cp.Js.Value.{int, num}
use mihomo_cp.NodeInventory.{RuntimeProviderNode, RuntimeProxyProvider, NodeRow, ok}
use mihomo_cp.NodeInventory.Rows.{provider_row, build_node_rows}
use mihomo_cp.NodeInventory.Filter.{NodeFilters, filter_node_rows}
use mihomo_cp.ProxyList.{provider_node_healthcheck, Answer, answered, rejected, state_of, test_all}
use mihomo_cp.ProxyList.Delays.{build_node_rows-test_all}
use mihomo_cp.Runtime.{Segment, UriComponent, path_of, path_of-injective}
use mihomo_cp.Witnesses.Inputs.{ascii_lower, plain_text}

abbrev node : Text → RuntimeProviderNode
node id = record {
  id = id;
  name = codes "A";
  type = codes "ss";
  alive = none;
  udp = none;
  delay = none;
}

abbrev owner : Text → RuntimeProxyProvider
owner name = record {
  name = name;
  status = ok;
  updated_at = none;
  node_count = none;
  nodes = some (node name ∷ []);
}

abbrev row : Text → NodeRow
row name = provider_row ascii_lower plain_text (owner name) (node name)

abbrev rows : List NodeRow
rows = row (codes "P") ∷ row (codes "Q") ∷ []

abbrev no_filters : NodeFilters
no_filters = record { search = none; protocol = none; source = none; country = none }

built :
    build_node_rows ascii_lower plain_text [] (owner (codes "P") ∷ owner (codes "Q") ∷ [])
    ≡ some rows
unfolding build_node_rows provider_row
built = refl

abbrev answers : List (NodeRow × Answer)
answers = (row (codes "Q"), answered (num (int 7))) ∷ (row (codes "P"), rejected) ∷ []

shown :
    All
      (λ r. In r (filter_node_rows ascii_lower rows no_filters))
      (row (codes "Q") ∷ row (codes "P") ∷ [])
unfolding filter_node_rows provider_row
shown = (inr (inl refl), (inl refl, tt))

apart : row (codes "Q") ≢ row (codes "P")
unfolding provider_row text_eq
apart e = text_eq-eq-false (codes "Q") (codes "P") refl (ap (λ r. r.provider_name) e)

build_node_rows-test_all_example :
    test_all
      (filter_node_rows ascii_lower rows no_filters)
      answers
      (λ k. none)
      (row (codes "P")).key
    ≡ some (state_of rejected)
build_node_rows-test_all_example =
    build_node_rows-test_all ascii_lower plain_text [] (owner (codes "P") ∷ owner (codes "Q") ∷ [])
      no_filters rows answers (λ k. none) (row (codes "P")) rejected built shown
      (λ m. elim m [ inl e ↦ apart e | inr k ↦ k ], (λ k. k, tt)) (inr (inl refl))

-- An encoding that knows texts without `/` only.
abbrev one_segment : Text → Option Text
one_segment [] = some []
one_segment (c ∷ s) =
    let rest = one_segment s in
    if c == 47 then none else elim rest [ none ↦ none | some t ↦ some (c ∷ t) ]

pub one_segment_lem : (s e : Text) → one_segment s ≡ some e → (e ≡ s) × Segment e
one_segment_lem [] e h = (sym (some_inj h), subst Segment (some_inj h) tt)
one_segment_lem (c ∷ s) e h = elim (Bool-cases (c == 47)) [
  | inl slash ↦ cc (rw (one_segment, slash) at h)
  | inr plain ↦ elim (Option-cases (one_segment s)) [
    | inl gone ↦ cc (rw (one_segment, plain, gone) at h)
    | inr (t, rest) ↦
        let (same, segment) = one_segment_lem s t rest in
        let all : (c ∷ t) ≡ e = some_inj (rw (one_segment, plain, rest) at h) in
        (sym all ∙ ap (λ (x : Text). c ∷ x) same, subst Segment all (plain, segment))
  ]
]

abbrev pub uri : UriComponent
uri = record {
  encode = one_segment;
  decode = some;
  encode_decode = λ s e h. ap some (one_segment_lem s e h).0;
  encode_segment = λ s e h. (one_segment_lem s e h).1;
}

path_of-injective_example :
    provider_node_healthcheck (codes "P") (codes "A")
    ≡ provider_node_healthcheck (codes "P") (codes "A")
unfolding path_of
path_of-injective_example =
    path_of-injective uri (provider_node_healthcheck (codes "P") (codes "A"))
      (provider_node_healthcheck (codes "P") (codes "A"))
      (codes "runtime/proxy-providers/P/A/healthcheck") refl refl
