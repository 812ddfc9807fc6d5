-- ===== src/NodeScore/View/Facts.antt =====
-- The score of the claude card, the status words and the timestamps of a row's view.
use mihomo_cp.Prelude.{
  ◌≡◌, refl, if◌then◌else◌, ◌↔◌, ◌⊎◌, inl, inr, Bool, true, List, Option, none, some, arith,
  ◌or_else◌,
}
use mihomo_cp.Js.Text.{Text, codes, text_eq}
use mihomo_cp.Js.Text.Laws.{text_eq_iff}
use mihomo_cp.Js.Value.{Number, is_finite, get}
use mihomo_cp.NodeScore.{claude, SourceIntel}
use mihomo_cp.NodeScore.Info.{normalize_ip_info, as_number}
use mihomo_cp.NodeScore.Sources.{parse_score_sources}
use mihomo_cp.NodeScore.Split.{source_of, parse_score_sources-InOrder}
use mihomo_cp.NodeScore.View.{
  NodeScore, ViewStatus, pending, checking, ok, error, skipped, normalize_score_status, row_payload,
  view_sources, parent_match,
}
use mihomo_cp.NodeScore.View.Laws.{
  Shape, no_source, claude_source, lookup_source, two_sources, Shape-of_InOrder, completed,
}

or_else-some {ℓ} :
    {A : Type ℓ} (o p : Option A) {b : A} → p ≡ some b → (a : A) × ((o or_else p) ≡ some a)
or_else-some (some a) p e = (a, refl)
or_else-some none p {b} e = (b, e)

-- The chain of tests of `normalizeScoreStatus`, over the results of the tests.
abbrev status_of : Bool → Bool → Bool → Bool → Bool → Bool → ViewStatus
status_of testing failed same_checking same_ok same_error same_skipped =
    if testing
    then checking
    else if failed
    then error
    else if same_checking
    then checking
    else if same_ok
    then ok
    else if same_error
    then error
    else if same_skipped
    then skipped
    else pending

module _ (a b c d e f : Bool) where
  status_of-checking : status_of a b c d e f ≡ checking → (a ≡ true) ⊎ (c ≡ true)
  status_of-checking h = ground arith

  status_of-error : status_of a b c d e f ≡ error → (b ≡ true) ⊎ (e ≡ true)
  status_of-error h = ground arith

  status_of-ok : status_of a b c d e f ≡ ok → d ≡ true
  status_of-ok h = ground arith

  status_of-skipped : status_of a b c d e f ≡ skipped → f ≡ true
  status_of-skipped h = ground arith

-- A status of the view other than `pending` stands for exactly its own word, or for the older word
-- of that status: `testing` for `checking`, `failed` for `error`. All else is pending.
normalize_score_status_iff :
    (value : Text)
    → ((normalize_score_status value ≡ checking)
        ↔ ((value ≡ codes "checking") ⊎ (value ≡ codes "testing")))
      × ((normalize_score_status value ≡ error)
          ↔ ((value ≡ codes "error") ⊎ (value ≡ codes "failed")))
      × ((normalize_score_status value ≡ ok) ↔ (value ≡ codes "ok"))
      × ((normalize_score_status value ≡ skipped) ↔ (value ≡ codes "skipped"))
unfolding normalize_score_status
normalize_score_status_iff value =
    let t = text_eq value (codes "testing") in
    let f = text_eq value (codes "failed") in
    let c = text_eq value (codes "checking") in
    let o = text_eq value (codes "ok") in
    let r = text_eq value (codes "error") in
    let s = text_eq value (codes "skipped") in
    (
      (
        λ e. elim (status_of-checking t f c o r s e) [
          | inl t ↦ inr ((text_eq_iff _ _).0 t)
          | inr c ↦ inl ((text_eq_iff _ _).0 c)
        ],
        λ h. elim h [ inl e ↦ rw e | inr e ↦ rw e ],
      ),
      (
        λ e. elim (status_of-error t f c o r s e) [
          | inl t ↦ inr ((text_eq_iff _ _).0 t)
          | inr c ↦ inl ((text_eq_iff _ _).0 c)
        ],
        λ h. elim h [ inl e ↦ rw e | inr e ↦ rw e ],
      ),
      (λ e. (text_eq_iff _ _).0 (status_of-ok t f c o r s e), λ e. rw e),
      (λ e. (text_eq_iff _ _).0 (status_of-skipped t f c o r s e), λ e. rw e),
    )

module _ (to_number : Text → Number) where
  -- A claude source with a score among its facts.
  abbrev pub Scored : List SourceIntel → Type 0
  Scored sources =
      (s : SourceIntel) × (n : Number) × (source_of claude sources ≡ some s)
      × (s.intel.trust_score ≡ some n)

  synthetic_score :
      (row : NodeScore) {n : Number}
      → row.trust_score ≡ some n
      → is_finite n ≡ true
      → (normalize_ip_info to_number (mihomo_cp.Js.Value.Value.obj (row_payload row))).trust_score
        ≡ some n
  unfolding normalize_ip_info row_payload as_number
  synthetic_score row {n} e f = rw e (rw f)

  completed-Scored :
      (row : NodeScore) {n : Number} {sources : List SourceIntel}
      → row.trust_score ≡ some n
      → is_finite n ≡ true
      → Shape sources
      → Scored (completed to_number row sources)
  unfolding completed
  completed-Scored row {n} e f no_source = (_, n, refl, synthetic_score row e f)
  completed-Scored row {n} e f (lookup_source s) = (_, n, refl, synthetic_score row e f)
  completed-Scored row {n} e f (claude_source s) =
      let (m, h) = or_else-some s.intel.trust_score row.trust_score e in (_, m, refl, h)
  completed-Scored row {n} e f (two_sources s t) =
      let (m, h) = or_else-some s.intel.trust_score row.trust_score e in (_, m, refl, h)

  -- A row with a finite score always has a claude card with a score among its facts, whatever its
  -- payload holds or lacks.
  view_sources-Scored :
      (row : NodeScore) (n : Number)
      → row.trust_score ≡ some n
      → is_finite n ≡ true
      → Scored (view_sources to_number row)
  unfolding view_sources completed
  view_sources-Scored row n e f = completed-Scored row e f (
      Shape-of_InOrder (parse_score_sources to_number row.ip_info (parent_match to_number row)) _
        refl (parse_score_sources-InOrder to_number row.ip_info (parent_match to_number row)))
