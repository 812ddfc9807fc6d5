-- ===== src/ApiError.antt =====
-- web/src/lib/api-error.ts: `readApiError`. An error that is no `HTTPError` is `none`; the body of a
-- response is `none` where reading it as JSON throws.
use mihomo_cp.Prelude.{
  ◌≡◌, refl, sym, ap, ◌⊎◌, inl, inr, List, [], ◌∷◌, Option, none, some, ◌or_else◌, or_else-eq-some,
  some_inj, subst, In, ℕ,
}
use mihomo_cp.Js.Text.{Text, codes}
use mihomo_cp.Js.Value.{Value, str, arr, obj, Items, nil, cons, Object, empty, get}

pub record Response : Type 0 where
  pub status : ℕ
  pub body : Option Value

pub record ApiErrorInfo : Type 0 where
  pub status : Option ℕ
  pub code : Text
  pub message : Text
  pub references : Option (List Text)

abbrev pub read_string : Value → Text
read_string (str s) = s
read_string _ = []

-- `filter` with `typeof v === 'string'`.
abbrev pub only_strings : Items → List Text
only_strings nil = []
only_strings (cons (str s) rest) = s ∷ only_strings rest
only_strings (cons _ rest) = only_strings rest

abbrev pub read_references : Value → Option (List Text)
read_references (arr items) = some (only_strings items)
read_references _ = none

-- `v && typeof v === 'object' ? v : {}`: an array has none of the names that are read.
abbrev pub object_or_empty : Value → Object
object_or_empty (obj o) = o
object_or_empty _ = empty

-- `s || t`.
abbrev pub first_text : Text → Text → Text
first_text [] t = t
first_text (c ∷ s) t = c ∷ s

abbrev pub body_root : Option Value → Object
body_root none = empty
body_root (some body) = object_or_empty body

-- `root`, `envelope` and `data`.
abbrev pub root_of : Response → Object
root_of response = body_root response.body

unfoldable pub envelope_of : Response → Object
unfolding get
envelope_of response = object_or_empty (get (codes "error") (root_of response))

unfoldable pub data_of : Response → Object
unfolding get
data_of response = object_or_empty (get (codes "data") (root_of response))

abbrev pub text_under : Text → Response → Text
text_under name response =
    first_text (read_string (get name (envelope_of response)))
      (read_string (get name (root_of response)))

unfoldable pub read_api_error : Option Response → ApiErrorInfo
unfolding get envelope_of data_of
read_api_error none = record { status = none; code = []; message = []; references = none }
read_api_error (some response) = record {
  status = some response.status;
  code = text_under (codes "code") response;
  message = text_under (codes "message") response;
  references =
      read_references (get (codes "references") (envelope_of response))
      or_else read_references (get (codes "references") (data_of response))
      or_else read_references (get (codes "references") (root_of response));
}

-- The items of a value that is an array.
abbrev pub HoldsText : Value → Text → Type 0
HoldsText (arr nil) s = ⊥
HoldsText (arr (cons v rest)) s = (v ≡ str s) ⊎ HoldsText (arr rest) s
HoldsText _ s = ⊥

only_strings-In : (items : Items) (s : Text) → In s (only_strings items) → HoldsText (arr items) s
only_strings-In nil s i = i
only_strings-In (cons (str t) rest) s (inl e) = inl (ap str (sym e))
only_strings-In (cons (str t) rest) s (inr i) = inr (only_strings-In rest s i)
only_strings-In (cons _ rest) s i = inr (only_strings-In rest s i)

read_references-In :
    (v : Value) (refs : List Text) (s : Text)
    → read_references v ≡ some refs
    → In s refs
    → HoldsText v s
read_references-In (arr items) refs s e i =
    only_strings-In items s (subst (In s) (sym (some_inj e)) i)
read_references-In _ refs s e i = cc

-- The text is empty, or the `error` object or the body holds it under this name.
abbrev pub Reported : Text → Response → Text → Type 0
Reported name response s =
    (s ≡ []) ⊎ ((get name (envelope_of response) ≡ str s) ⊎ (get name (root_of response) ≡ str s))

read_string_lem : (v : Value) → (read_string v ≡ []) ⊎ (v ≡ str (read_string v))
read_string_lem (str s) = inr refl
read_string_lem _ = inl refl

first_text-cases :
    (v w : Value)
    → (first_text (read_string v) (read_string w) ≡ [])
      ⊎ ((v ≡ str (first_text (read_string v) (read_string w)))
          ⊎ (w ≡ str (first_text (read_string v) (read_string w))))
first_text-cases (str (c ∷ s)) w = inr (inl refl)
first_text-cases (str []) w = elim (read_string_lem w) [ inl e ↦ inl e | inr e ↦ inr (inr e) ]
first_text-cases _ w = elim (read_string_lem w) [ inl e ↦ inl e | inr e ↦ inr (inr e) ]

text_under-Reported :
    (name : Text) (response : Response) → Reported name response (text_under name response)
text_under-Reported name response =
    first_text-cases (get name (envelope_of response)) (get name (root_of response))

-- Of an HTTP error, the code and the message are empty or texts that the `error` object of the body,
-- or the body itself, holds under these names, and nothing else of the response.
read_api_error-Reported :
    (response : Response)
    → Reported (codes "code") response (read_api_error (some response)).code
      × Reported (codes "message") response (read_api_error (some response)).message
unfolding read_api_error
read_api_error-Reported response =
    (text_under-Reported (codes "code") response, text_under-Reported (codes "message") response)

-- Each reference of an HTTP error is a text in an array `references` of the `error` object, of the
-- `data` object or of the body.
pub read_api_error-HoldsText :
    (response : Response) (refs : List Text) (s : Text)
    → (read_api_error (some response)).references ≡ some refs
    → In s refs
    → HoldsText (get (codes "references") (envelope_of response)) s
      ⊎ (HoldsText (get (codes "references") (data_of response)) s
          ⊎ HoldsText (get (codes "references") (root_of response)) s)
unfolding read_api_error
read_api_error-HoldsText response refs s e i = elim (or_else-eq-some _ _ e) [
  | inl here ↦ inl (read_references-In _ refs s here i)
  | inr later ↦ elim (or_else-eq-some _ _ later) [
    | inl here ↦ inr (inl (read_references-In _ refs s here i))
    | inr here ↦ inr (inr (read_references-In _ refs s here i))
  ]
]
