-- ===== src/NodeInventory/Statics.antt =====
-- The static part of the node table does not depend on the providers.
use mihomo_cp.Prelude.{
  ◌≡◌, refl, sym, ◌∙◌, ap, subst, List, [], ◌∷◌, ◌++◌, map, keep, some, some_inj, All, All-append,
}
use mihomo_cp.Js.Text.{Text}
use mihomo_cp.Js.Value.{Value}
use mihomo_cp.NodeInventory.{
  Proxy, RuntimeProviderNode, RuntimeProxyProvider, NodeKind, static, provider, NodeRow, is_static,
}
use mihomo_cp.NodeInventory.Rows.{or_default, static_row, provider_row, build_node_rows}
use mihomo_cp.NodeInventory.Push.{Relabelled, start, push_all, grow_all, push_all-append}
use mihomo_cp.NodeInventory.Build.{provider_rows, build_as_push_all}

abbrev pub static_part : List NodeRow → List NodeRow
static_part rows = keep (λ r. is_static r.kind) rows

abbrev OfKind : NodeKind → List NodeRow → Type 0
OfKind k rows = All (λ r. r.kind ≡ k) rows

static_part_all : (rows : List NodeRow) → OfKind static rows → static_part rows ≡ rows
static_part_all [] h = refl
static_part_all (r ∷ rows) (e, h) =
    rw (keep, ap is_static e) (ap (λ (rest : List NodeRow). r ∷ rest) (static_part_all rows h))

static_part_none : (rows : List NodeRow) → OfKind provider rows → static_part rows ≡ []
static_part_none [] h = refl
static_part_none (r ∷ rows) (e, h) = rw (keep, ap is_static e) (static_part_none rows h)

static_part-append :
    (front back : List NodeRow)
    → OfKind static front
    → OfKind provider back
    → static_part (front ++ back) ≡ front
static_part-append [] back h k = static_part_none back k
static_part-append (r ∷ front) back (e, h) k =
    rw (keep, ap is_static e)
      (ap (λ (rest : List NodeRow). r ∷ rest) (static_part-append front back h k))

Relabelled-OfKind :
    (k : NodeKind) (rs qs : List NodeRow) → Relabelled rs qs → OfKind k rs → OfKind k qs
Relabelled-OfKind k [] [] l h = tt
Relabelled-OfKind k [] (_ ∷ _) l h = absurd l
Relabelled-OfKind k (_ ∷ _) [] l h = absurd l
Relabelled-OfKind k (r ∷ rs) (q ∷ qs) ((same, made), l) (e, h) =
    (ap (λ x. x.kind) same ∙ e, Relabelled-OfKind k rs qs l h)

module _ (lower : Text → Text) (to_text : Value → Text) where
  statics-OfKind : (proxies : List Proxy) → OfKind static (map (static_row lower to_text) proxies)
  unfolding static_row
  statics-OfKind [] = tt
  statics-OfKind (p ∷ ps) = (refl, statics-OfKind ps)

  nodes-OfKind :
      (owner : RuntimeProxyProvider) (nodes : List RuntimeProviderNode)
      → OfKind provider (map (provider_row lower to_text owner) nodes)
  unfolding provider_row
  nodes-OfKind owner [] = tt
  nodes-OfKind owner (n ∷ ns) = (refl, nodes-OfKind owner ns)

  provider_rows-OfKind :
      (providers : List RuntimeProxyProvider)
      → OfKind provider (provider_rows lower to_text providers)
  provider_rows-OfKind [] = tt
  provider_rows-OfKind (owner ∷ rest) =
      All-append (λ r. r.kind ≡ provider)
        (map (provider_row lower to_text owner) (or_default owner.nodes []))
        (provider_rows lower to_text rest) (nodes-OfKind owner (or_default owner.nodes []))
        (provider_rows-OfKind rest)

  -- The static rows of a table are, keys included, the table of the same proxies without providers.
  pub build_node_rows-static_part :
      (proxies : List Proxy) (providers : List RuntimeProxyProvider) (rows : List NodeRow)
      → build_node_rows lower to_text proxies providers ≡ some rows
      → build_node_rows lower to_text proxies [] ≡ some (static_part rows)
  unfolding start push_all
  build_node_rows-static_part proxies providers rows e =
      let statics = map (static_row lower to_text) proxies in
      let nodes = provider_rows lower to_text providers in
      let front = grow_all statics start (record { tracked = refl; distinct = tt }) in
      let back = grow_all nodes front.after front.valid in
      let whole : build_node_rows lower to_text proxies providers ≡ some back.after.rows =
        build_as_push_all lower to_text proxies providers
        ∙ rw (push_all-append statics nodes start, front.pushed, back.pushed) refl in
      let alone : build_node_rows lower to_text proxies [] ≡ some front.after.rows =
        build_as_push_all lower to_text proxies []
        ∙ rw (push_all-append statics [] start, front.pushed) refl in
      let front_kind : OfKind static front.after.rows =
        subst (OfKind static) (sym front.appended) (
          Relabelled-OfKind static statics front.added front.relabelled (statics-OfKind proxies)) in
      let back_kind : OfKind provider back.added =
        Relabelled-OfKind provider nodes back.added back.relabelled
          (provider_rows-OfKind providers) in
      let split : rows ≡ front.after.rows ++ back.added =
        some_inj (sym e ∙ whole) ∙ back.appended in
      alone
      ∙ ap some (
          sym (
            ap static_part split
            ∙ static_part-append front.after.rows back.added front_kind back_kind))
