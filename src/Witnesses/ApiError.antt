-- ===== src/Witnesses/ApiError.antt =====
-- `readApiError` at a concrete response.
use mihomo_cp.Prelude.{◌≡◌, refl, [], ◌∷◌, some}
use mihomo_cp.Js.Text.{codes}
use mihomo_cp.Js.Value.{str, arr, obj, nil, cons, empty, field}
use mihomo_cp.ApiError.{Response, read_api_error}

-- `{"error": {"code": "in_use", "references": ["Auto"]}}`.
abbrev pub in_use : Response
in_use = record {
  status = 409;
  body = some (
      obj (
        field (codes "error")
          (obj (
            field (codes "code") (str (codes "in_use"))
              (field (codes "references") (arr (cons (str (codes "Auto")) nil)) empty)))
          empty));
}

in_use_references : (read_api_error (some in_use)).references ≡ some (codes "Auto" ∷ [])
unfolding read_api_error
in_use_references = refl
