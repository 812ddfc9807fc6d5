-- ===== src/NodeScore/Facts.antt =====
-- Where the facts of a normalized payload come from: each is a value of its own type that the
-- payload holds under one of the names of that fact. Nothing is invented.
use mihomo_cp.Prelude.{
  ◌≡◌, refl, ap, ◌⊎◌, inl, inr, Bool, true, false, List, [], ◌∷◌, Option, some, ◌or_else◌,
  or_else-eq-some, Bool-cases, some_inj,
}
use mihomo_cp.Js.Text.{Text, codes, is_empty, trim}
use mihomo_cp.Js.Value.{Number, is_finite, Value, undefined, bool, num, str, Object, get}
use mihomo_cp.NodeScore.{IpIntel}
use mihomo_cp.NodeScore.Info.{as_text, as_bool, as_number, text_at, bool_at, finite, intel_of}

-- The text stands under one of the names, and is not blank.
abbrev pub StatedText : Object → List Text → Text → Type 0
StatedText c [] s = ⊥
StatedText c (name ∷ names) s =
    ((get name c ≡ str s) × (is_empty (trim s) ≡ false)) ⊎ StatedText c names s

abbrev pub StatedBool : Object → List Text → Bool → Type 0
StatedBool c [] b = ⊥
StatedBool c (name ∷ names) b = (get name c ≡ bool b) ⊎ StatedBool c names b

as_text-eq-some :
    (v : Value) (s : Text) → as_text v ≡ some s → (v ≡ str s) × (is_empty (trim s) ≡ false)
unfolding as_text
as_text-eq-some (str t) s e = elim (Bool-cases (is_empty (trim t))) [
  | inl blank ↦ cc (rw blank at e)
  | inr full ↦ let same : t ≡ s = some_inj (rw full at e) in rw (← same) (refl, full)
]
as_text-eq-some undefined s e = cc
as_text-eq-some _ s e = cc

as_bool-eq-some : (v : Value) (b : Bool) → as_bool v ≡ some b → v ≡ bool b
unfolding as_bool
as_bool-eq-some (bool c) b e = cc
as_bool-eq-some _ b e = cc

text_at_lem :
    (c : Object) (name : Text) (s : Text) → text_at c name ≡ some s → StatedText c (name ∷ []) s
text_at_lem c name s e = inl (as_text-eq-some (get name c) s e)

StatedText-cons :
    (c : Object) (name : Text) (names : List Text) (o : Option Text) (s : Text)
    → (o ≡ some s → StatedText c names s)
    → (text_at c name or_else o) ≡ some s
    → StatedText c (name ∷ names) s
StatedText-cons c name names o s later e = elim (or_else-eq-some (text_at c name) o e) [
  | inl here ↦ inl (as_text-eq-some (get name c) s here)
  | inr there ↦ inr (later there)
]

StatedText₂ :
    (c : Object) (k l : Text) (s : Text)
    → (text_at c k or_else text_at c l) ≡ some s
    → StatedText c (k ∷ l ∷ []) s
StatedText₂ c k l s = StatedText-cons c k (l ∷ []) (text_at c l) s (text_at_lem c l s)

StatedText₃ :
    (c : Object) (k l m : Text) (s : Text)
    → (text_at c k or_else text_at c l or_else text_at c m) ≡ some s
    → StatedText c (k ∷ l ∷ m ∷ []) s
StatedText₃ c k l m s = StatedText-cons c k (l ∷ m ∷ []) _ s (StatedText₂ c l m s)

StatedText₄ :
    (c : Object) (k l m n : Text) (s : Text)
    → (text_at c k or_else text_at c l or_else text_at c m or_else text_at c n) ≡ some s
    → StatedText c (k ∷ l ∷ m ∷ n ∷ []) s
StatedText₄ c k l m n s = StatedText-cons c k (l ∷ m ∷ n ∷ []) _ s (StatedText₃ c l m n s)

StatedBool₂ :
    (c : Object) (m n : Text) (b : Bool)
    → (bool_at c m or_else bool_at c n) ≡ some b
    → StatedBool c (m ∷ n ∷ []) b
StatedBool₂ c m n b e = elim (or_else-eq-some (bool_at c m) (bool_at c n) e) [
  | inl here ↦ inl (as_bool-eq-some (get m c) b here)
  | inr there ↦ inr (inl (as_bool-eq-some (get n c) b there))
]

module _ (to_number : Text → Number) where
  -- The number is finite, and stands under one of the names as itself or as a text.
  abbrev pub NumberIs : Value → Number → Type 0
  NumberIs v n = (v ≡ num n) ⊎ ((s : Text) × (v ≡ str s) × (to_number s ≡ n))

  abbrev pub StatedNumber : Object → List Text → Number → Type 0
  StatedNumber c [] n = ⊥
  StatedNumber c (name ∷ names) n =
      ((is_finite n ≡ true) × NumberIs (get name c) n) ⊎ StatedNumber c names n

  finite-eq-some : (m n : Number) → finite m ≡ some n → (is_finite n ≡ true) × (m ≡ n)
  finite-eq-some m n e = elim (Bool-cases (is_finite m)) [
    | inl f ↦ let same : m ≡ n = some_inj (rw f at e) in (rw (← same) f, same)
    | inr f ↦ cc (rw f at e)
  ]

  as_number-eq-some :
      (v : Value) (n : Number)
      → as_number to_number v ≡ some n
      → (is_finite n ≡ true) × NumberIs v n
  unfolding as_number
  as_number-eq-some (num m) n e = let (f, same) = finite-eq-some m n e in (f, inl (ap num same))
  as_number-eq-some (str s) n e = elim (Bool-cases (is_empty (trim s))) [
    | inl blank ↦ cc (rw blank at e)
    | inr full ↦
        let (f, same) = finite-eq-some (to_number s) n (rw full at e) in (f, inr (s, refl, same))
  ]
  as_number-eq-some undefined n e = cc
  as_number-eq-some _ n e = cc

  -- Every fact of `i` is stated by the payload `c`, under the names of that fact.
  pub record StatedBy (c : Object) (i : IpIntel) : Type 0 where
    pub ip : (s : Text) → i.ip ≡ some s → StatedText c (codes "ip" ∷ []) s
    pub cidr : (s : Text) → i.cidr ≡ some s → StatedText c (codes "cidr" ∷ []) s
    pub country : (s : Text) → i.country ≡ some s → StatedText c (codes "country" ∷ []) s
    pub country_code :
        (s : Text)
        → i.country_code ≡ some s
        → StatedText c (codes "countryCode" ∷ codes "country_code" ∷ []) s
    pub region : (s : Text) → i.region ≡ some s → StatedText c (codes "region" ∷ []) s
    pub city : (s : Text) → i.city ≡ some s → StatedText c (codes "city" ∷ []) s
    pub asn : (n : Number) → i.asn ≡ some n → StatedNumber c (codes "asn" ∷ []) n
    pub asn_org :
        (s : Text)
        → i.asn_org ≡ some s
        → StatedText c
            (codes "asOrganization"
              ∷ codes "as_organization"
              ∷ codes "asn_org"
              ∷ codes "asnOrg"
              ∷ [])
            s
    pub company_type :
        (s : Text)
        → i.company_type ≡ some s
        → StatedText c (codes "company_type" ∷ codes "companyType" ∷ []) s
    pub company_name :
        (s : Text)
        → i.company_name ≡ some s
        → StatedText c (codes "company_name" ∷ codes "companyName" ∷ codes "isp" ∷ []) s
    pub is_residential :
        (b : Bool)
        → i.is_residential ≡ some b
        → StatedBool c (codes "isResidential" ∷ codes "is_residential" ∷ []) b
    pub is_datacenter :
        (b : Bool)
        → i.is_datacenter ≡ some b
        → StatedBool c (codes "is_datacenter" ∷ codes "isDatacenter" ∷ []) b
    pub is_vpn :
        (b : Bool) → i.is_vpn ≡ some b → StatedBool c (codes "is_vpn" ∷ codes "isVpn" ∷ []) b
    pub is_proxy :
        (b : Bool) → i.is_proxy ≡ some b → StatedBool c (codes "is_proxy" ∷ codes "isProxy" ∷ []) b
    pub is_tor :
        (b : Bool) → i.is_tor ≡ some b → StatedBool c (codes "is_tor" ∷ codes "isTor" ∷ []) b
    pub is_mobile :
        (b : Bool)
        → i.is_mobile ≡ some b
        → StatedBool c (codes "is_mobile" ∷ codes "isMobile" ∷ []) b
    pub is_crawler :
        (b : Bool)
        → i.is_crawler ≡ some b
        → StatedBool c (codes "is_crawler" ∷ codes "isCrawler" ∷ []) b
    pub is_abuser :
        (b : Bool)
        → i.is_abuser ≡ some b
        → StatedBool c (codes "is_abuser" ∷ codes "isAbuser" ∷ []) b
    pub datacenter_name :
        (s : Text)
        → i.datacenter_name ≡ some s
        → StatedText c (codes "datacenter_name" ∷ codes "datacenterName" ∷ []) s
    pub abuser_score :
        (s : Text)
        → i.abuser_score ≡ some s
        → StatedText c (codes "abuser_score" ∷ codes "abuserScore" ∷ []) s
    pub trust_score :
        (n : Number)
        → i.trust_score ≡ some n
        → StatedNumber c (codes "trust_score" ∷ codes "trustScore" ∷ []) n

  -- Of any payload, the addresses, places, owner, flags and scores of its normal form are values
  -- that the payload itself holds: texts that are not blank, Booleans, and finite numbers (or texts
  -- that read as one), each under one of the names of its fact.
  pub intel_of-StatedBy : (c : Object) → StatedBy c (intel_of to_number c)
  unfolding intel_of
  intel_of-StatedBy c = record {
    ip = text_at_lem c _;
    cidr = text_at_lem c _;
    country = text_at_lem c _;
    country_code = StatedText₂ c _ _;
    region = text_at_lem c _;
    city = text_at_lem c _;
    asn = λ n e. inl (as_number-eq-some _ n e);
    asn_org = StatedText₄ c _ _ _ _;
    company_type = StatedText₂ c _ _;
    company_name = StatedText₃ c _ _ _;
    is_residential = StatedBool₂ c _ _;
    is_datacenter = StatedBool₂ c _ _;
    is_vpn = StatedBool₂ c _ _;
    is_proxy = StatedBool₂ c _ _;
    is_tor = StatedBool₂ c _ _;
    is_mobile = StatedBool₂ c _ _;
    is_crawler = StatedBool₂ c _ _;
    is_abuser = StatedBool₂ c _ _;
    datacenter_name = StatedText₂ c _ _;
    abuser_score = StatedText₂ c _ _;
    trust_score = λ n e.
        elim (or_else-eq-some (as_number to_number (get (codes "trust_score") c)) _ e) [
          | inl here ↦ inl (as_number-eq-some _ n here)
          | inr there ↦ inr (inl (as_number-eq-some _ n there))
        ];
  }
