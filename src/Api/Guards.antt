-- ===== src/Api/Guards.antt =====
-- Which calls a session without the role of an administrator may make.
use mihomo_cp.Prelude.{
  ◌≡◌, refl, sym, ◌∙◌, ap, subst, ◌⊎◌, inl, inr, Bool, true, false, ◌&&◌, ◌||◌, List, [], ◌∷◌,
  Option, none, some, some_inj, >>=-eq-some, keep, all, length, ◌==◌, In, Bool-cases, Option-cases,
}
use mihomo_cp.Prelude.Kept.{In-keep, all-In}
use mihomo_cp.Js.Text.{Text, codes}
use mihomo_cp.Js.Text.Split.{split}
use mihomo_cp.Js.TextSet.{has}
use mihomo_cp.Api.{Method, get, post, put, delete}
use mihomo_cp.Api.Routes.{
  fits, Call, call, Route, Guard, anyone, protected, admin_only, same_method, routes, matches,
  most_specific, captured, decoded, dispatch, serve, more_specific, front_end, taken,
}

most_specific-In : (rs : List Route) (r : Route) → most_specific rs ≡ some r → In r rs
unfolding most_specific
most_specific-In [] r e = cc
most_specific-In (q ∷ rs) r e = elim (Option-cases (most_specific rs)) [
  | inl h ↦ inl (some_inj (sym (rw h at e)))
  | inr (best, h) ↦ elim (Bool-cases (more_specific best.pattern q.pattern)) [
    | inl b ↦ inr (most_specific-In rs r (h ∙ rw (h, b) at e))
    | inr b ↦ inl (some_inj (sym (rw (h, b) at e)))
  ]
]

-- The handlers that serve calls other than reads and are open to every account, or to everyone.
abbrev pub exempt : List Text
exempt =
    codes "authHandler.Login"
    ∷ codes "authHandler.Refresh"
    ∷ codes "authHandler.ChangePassword"
    ∷ codes "precheckHandler.Check"
    ∷ codes "frontend"
    ∷ []

front_end-exempt : has exempt front_end.handler ≡ true
unfolding has
front_end-exempt = refl

is_admin_only : Guard → Bool
is_admin_only admin_only = true
is_admin_only _ = false

-- A read, behind `adminOnly`, or one of the exempt handlers.
restricted : Route → Bool
unfolding is_admin_only has
restricted r = same_method r.method get || (is_admin_only r.guard || has exempt r.handler)

routes-restricted : all restricted routes ≡ true
unfolding restricted
routes-restricted = refl

same_method-get : (m : Method) → same_method m get ≡ true → m ≡ get
same_method-get get e = refl
same_method-get post e = cc
same_method-get put e = cc
same_method-get delete e = cc

is_admin_only-eq-true : (g : Guard) → is_admin_only g ≡ true → g ≡ admin_only
unfolding is_admin_only
is_admin_only-eq-true admin_only e = refl
is_admin_only-eq-true protected e = cc
is_admin_only-eq-true anyone e = cc

abbrev pub Allowed : Method → Guard → Text → Type 0
Allowed m g h = (m ≡ get) ⊎ ((g ≡ admin_only) ⊎ (has exempt h ≡ true))

restricted-Allowed : (r : Route) → restricted r ≡ true → Allowed r.method r.guard r.handler
unfolding restricted
restricted-Allowed r e = elim (Bool-cases (same_method r.method get)) [
  | inl a ↦ inl (same_method-get r.method a)
  | inr a ↦ elim (Bool-cases (is_admin_only r.guard)) [
    | inl b ↦ inr (inl (is_admin_only-eq-true r.guard b))
    | inr b ↦ inr (inr (rw (a, b) at e))
  ]
]

-- The route behind a call that is not for the front end, among routes that all pass a test.
route_of_call :
    (decode : Text → Option Text) (m : Method) (path : List Text) (rs : List Route) (c : Call)
    → all restricted rs ≡ true
    → (elim (most_specific (keep (matches m path) rs)) as (λ _. Option Call) [
      | none ↦ some front_end
      | some r ↦ taken decode path r
    ])
      ≡ some c
    → (c ≡ front_end)
      ⊎ ((r : Route) × ((matches m path r ≡ true)
            × ((restricted r ≡ true) × ((r.guard ≡ c.guard) × (r.handler ≡ c.handler)))))
unfolding taken
route_of_call decode m path rs c ok e =
    elim (Option-cases (most_specific (keep (matches m path) rs))) [
      | inl h ↦ inl (sym (some_inj (rw h at e)))
      | inr (r, chosen) ↦
          let (values, (held, made)) =
            >>=-eq-some (decoded decode (captured r.pattern path)) _ (rw chosen at e) in
          let (here, fits) = (In-keep (matches m path) r rs).0 (most_specific-In _ r chosen) in
          let same : call r.guard r.handler values ≡ c = some_inj made in
          inr (
            r,
            (
              fits,
              (
                all-In restricted rs r ok here,
                (ap (λ (x : Call). x.guard) same, ap (λ (x : Call). x.handler) same),
              ),
            ),
          )
    ]

and_left : (a b : Bool) → (a && b) ≡ true → a ≡ true
and_left true b e = refl
and_left false b e = e

matches-method :
    (m : Method) (path : List Text) (r : Route) → matches m path r ≡ true → r.method ≡ get → m ≡ get
unfolding matches
matches-method m path r e g =
    let first : same_method m r.method ≡ true =
      and_left _ (length r.pattern == length path) (and_left _ (fits r.pattern path) e) in
    same_method-get m (subst (λ (n : Method). same_method m n ≡ true) g first)

-- Of the calls with the four methods that the front end uses, on any clean path: one that is no read, and
-- whose handler is not the login, the refresh of tokens, the change of the own password, the precheck
-- or the one of the embedded front end, is behind `adminOnly`.
pub serve-Allowed :
    (decode : Text → Option Text) (m : Method) (path : Text) (c : Call)
    → serve decode m path ≡ some c
    → Allowed m c.guard c.handler
unfolding serve dispatch
serve-Allowed decode m path c e =
    elim (route_of_call decode m (split b'/' path) routes c routes-restricted e) [
      | inl page ↦ inr (inr (ap (λ (x : Call). has exempt x.handler) page ∙ front_end-exempt))
      | inr (r, (fits, (ok, (g, h)))) ↦ elim (restricted-Allowed r ok) [
        | inl read ↦ inl (matches-method m (split b'/' path) r fits read)
        | inr rest ↦ elim rest [
          | inl admin ↦ inr (inl (sym g ∙ admin))
          | inr free ↦ inr (inr (ap (has exempt) (sym h) ∙ free))
        ]
      ]
    ]
