-- ===== src/Runtime.antt =====
-- The request paths of web/src/lib/proxy-path.ts, and the two requests of web/src/api/runtime.ts that
-- use them. `encodeURIComponent` is the `encode` of a `UriComponent`; it throws on a lone surrogate.
use mihomo_cp.Prelude.{
  ℕ, arith, ◌≢◌, ◌≡◌, refl, sym, ap, ◌∙◌, false, [], ◌∷◌, ◌++◌, Option, none, some, some_inj, All,
  ◌==◌, Option-cases, inl, inr, drop,
}
use mihomo_cp.Js.Text.{Text, codes}
use mihomo_cp.Js.Text.Laws.{append_cancel_left}
use mihomo_cp.ProxyList.{Request, provider_node_healthcheck, proxy_delay}

-- No `/` stands in a text that is one segment of a path.
abbrev pub Segment : Text → Type 0
Segment s = All (λ c. c == 47 ≡ false) s

pub record UriComponent : Type 0 where
  pub encode : Text → Option Text
  pub decode : Text → Option Text
  pub encode_decode : (s e : Text) → encode s ≡ some e → decode e ≡ some s
  pub encode_segment : (s e : Text) → encode s ≡ some e → Segment e

module _ (uri : UriComponent) where
  unfoldable pub proxy_delay_path : Text → Option Text
  proxy_delay_path name = elim (uri.encode name) [
    | none ↦ none
    | some e ↦ some (codes "runtime/proxies/" ++ e ++ codes "/delay")
  ]

  unfoldable pub provider_healthcheck_path : Text → Text → Option Text
  provider_healthcheck_path provider node = elim (uri.encode provider) [
    | none ↦ none
    | some p ↦ elim (uri.encode node) [
      | none ↦ none
      | some n ↦ some (codes "runtime/proxy-providers/" ++ p ++ 47 ∷ (n ++ codes "/healthcheck"))
    ]
  ]

  -- `runtimeApi.proxyDelay` and `runtimeApi.providerNodeHealthcheck`.
  unfoldable pub path_of : Request → Option Text
  unfolding proxy_delay_path provider_healthcheck_path
  path_of (proxy_delay name) = proxy_delay_path name
  path_of (provider_node_healthcheck provider node) = provider_healthcheck_path provider node

cut_at_slash :
    (a b s t : Text) → Segment a → Segment b → a ++ 47 ∷ s ≡ b ++ 47 ∷ t → (a ≡ b) × (s ≡ t)
cut_at_slash [] [] s t ha hb e = (refl, ap (drop 1) e)
cut_at_slash [] (c ∷ b) s t ha (hc, hb) e = cc
cut_at_slash (c ∷ a) [] s t (hc, ha) hb e = cc
cut_at_slash (c ∷ a) (d ∷ b) s t (hc, ha) (hd, hb) e =
    let (same, rest) = cut_at_slash a b s t ha hb (cc) in let head : c ≡ d = cc in (cc, rest)

differs_at : Text → ℕ
differs_at s = elim (drop 12 s) [ [] ↦ 0 | c ∷ _ ↦ c ]

prefixes_differ :
    (s t : Text) → codes "runtime/proxies/" ++ s ≢ codes "runtime/proxy-providers/" ++ t
unfolding differs_at
prefixes_differ s t e = let clash : 105 ≡ 121 = ap differs_at e in omega (arith, clash)

module _ (uri : UriComponent) where
  encode_injective :
      (s t a b : Text) → uri.encode s ≡ some a → uri.encode t ≡ some b → a ≡ b → s ≡ t
  encode_injective s t a b ea eb e =
      some_inj (sym (uri.encode_decode s a ea) ∙ ap uri.decode e ∙ uri.encode_decode t b eb)

  proxy_delay_path-eq-some :
      (name path : Text)
      → proxy_delay_path uri name ≡ some path
      → (e : Text) × (uri.encode name ≡ some e)
        × (path ≡ codes "runtime/proxies/" ++ e ++ codes "/delay")
  unfolding proxy_delay_path
  proxy_delay_path-eq-some name path h = elim (Option-cases (uri.encode name)) [
    | inl e ↦ cc (rw (proxy_delay_path, e) at h)
    | inr (e, held) ↦ (e, held, sym (some_inj (rw (proxy_delay_path, held) at h)))
  ]

  provider_healthcheck_path-eq-some :
      (provider node path : Text)
      → provider_healthcheck_path uri provider node ≡ some path
      → (p n : Text) × (uri.encode provider ≡ some p)
        × (uri.encode node ≡ some n)
        × (path ≡ codes "runtime/proxy-providers/" ++ p ++ 47 ∷ (n ++ codes "/healthcheck"))
  unfolding provider_healthcheck_path
  provider_healthcheck_path-eq-some provider node path h =
      elim (Option-cases (uri.encode provider)) [
        | inl e ↦ cc (rw (provider_healthcheck_path, e) at h)
        | inr (p, held) ↦ elim (Option-cases (uri.encode node)) [
          | inl e ↦ cc (rw (provider_healthcheck_path, held, e) at h)
          | inr (n, also) ↦
              (p, n, held, also, sym (some_inj (rw (provider_healthcheck_path, held, also) at h)))
        ]
      ]

  -- Two requests with the same path are the same request, whatever characters the names hold: no name
  -- runs into another segment, and the nodes of two providers never share a path, nor with a proxy.
  pub path_of-injective :
      (r s : Request) (path : Text) → path_of uri r ≡ some path → path_of uri s ≡ some path → r ≡ s
  unfolding path_of
  path_of-injective (proxy_delay a) (proxy_delay b) path hr hs =
      let (e, ea, pe) = proxy_delay_path-eq-some a path hr in
      let (f, eb, pf) = proxy_delay_path-eq-some b path hs in
      let rest =
        append_cancel_left (codes "runtime/proxies/") (e ++ codes "/delay") (f ++ codes "/delay")
          (sym pe ∙ pf) in
      let (same, _) =
        cut_at_slash e f (codes "delay") (codes "delay") (uri.encode_segment a e ea)
          (uri.encode_segment b f eb) rest in
      ap proxy_delay (encode_injective a b e f ea eb same)
  path_of-injective (proxy_delay a) (provider_node_healthcheck q m) path hr hs =
      let (e, ea, pe) = proxy_delay_path-eq-some a path hr in
      let (p, n, ep, en, pp) = provider_healthcheck_path-eq-some q m path hs in
      absurd (
        prefixes_differ (e ++ codes "/delay") (p ++ 47 ∷ (n ++ codes "/healthcheck")) (sym pe ∙ pp))
  path_of-injective (provider_node_healthcheck q m) (proxy_delay a) path hr hs =
      let (e, ea, pe) = proxy_delay_path-eq-some a path hs in
      let (p, n, ep, en, pp) = provider_healthcheck_path-eq-some q m path hr in
      absurd (
        prefixes_differ (e ++ codes "/delay") (p ++ 47 ∷ (n ++ codes "/healthcheck")) (sym pe ∙ pp))
  path_of-injective (provider_node_healthcheck q m) (provider_node_healthcheck u v) path hr hs =
      let (p, n, ep, en, pp) = provider_healthcheck_path-eq-some q m path hr in
      let (g, k, eg, ek, pg) = provider_healthcheck_path-eq-some u v path hs in
      let rest =
        append_cancel_left (codes "runtime/proxy-providers/")
          (p ++ 47 ∷ (n ++ codes "/healthcheck")) (g ++ 47 ∷ (k ++ codes "/healthcheck"))
          (sym pp ∙ pg) in
      let (same, after) =
        cut_at_slash p g (n ++ codes "/healthcheck") (k ++ codes "/healthcheck")
          (uri.encode_segment q p ep) (uri.encode_segment u g eg) rest in
      let (also, _) =
        cut_at_slash n k (codes "healthcheck") (codes "healthcheck") (uri.encode_segment m n en)
          (uri.encode_segment v k ek) after in
      let first : q ≡ u = encode_injective q u p g ep eg same in
      let second : m ≡ v = encode_injective m v n k en ek also in
      ap (λ x. provider_node_healthcheck x m) first ∙ ap (provider_node_healthcheck u) second
