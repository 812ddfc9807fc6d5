-- ===== src/Witnesses/Api.antt =====
-- Requests and their routes at concrete arguments.
use mihomo_cp.Prelude.{◌≡◌, refl, [], ◌∷◌, some}
use mihomo_cp.Js.Text.{Text, codes, text_eq}
use mihomo_cp.Api
use mihomo_cp.Api.{get, delete}
use mihomo_cp.Api.Routes.{call, admin_only, protected, front_end, serve}
use mihomo_cp.Api.Meant.{Plain, served, meant}
use mihomo_cp.Api.Served.{served-meant}
use mihomo_cp.Api.Guards.{Allowed, serve-Allowed}
use mihomo_cp.Witnesses.ProxyList.{uri}

abbrev id : Text
id = codes "1f"

id-Plain : Plain some id
unfolding text_eq
id-Plain = record {
  segment = (refl, (refl, tt));
  no_query = (refl, (refl, tt));
  no_fragment = (refl, (refl, tt));
  no_dots = record { one = refl; two = refl };
  full = refl;
  verbatim = refl;
}

served-meant_example :
    served uri (Api.subscriptions (Api.get_subscription id))
    ≡ some (call protected (codes "subscriptionHandler.Get") (id ∷ []))
unfolding meant text_eq
served-meant_example =
    served-meant uri (Api.subscriptions (Api.get_subscription id)) (id-Plain, refl)

-- No handler of its own takes the detection of countries.
countries_unserved : served uri (Api.proxies Api.detect_countries) ≡ some front_end
unfolding meant
countries_unserved = served-meant uri (Api.proxies Api.detect_countries) tt

-- A subscription with the id `providers` would be the list of providers.
literal_first :
    serve some get (codes "subscriptions/providers")
    ≡ some (call protected (codes "subscriptionHandler.Discover") [])
unfolding serve
literal_first = refl

deleting :
    serve some delete (codes "rules/1f")
    ≡ some (call admin_only (codes "ruleHandler.Delete") (id ∷ []))
unfolding serve
deleting = refl

serve-Allowed_example : Allowed delete admin_only (codes "ruleHandler.Delete")
serve-Allowed_example =
    serve-Allowed some delete (codes "rules/1f")
      (call admin_only (codes "ruleHandler.Delete") (id ∷ [])) deleting
