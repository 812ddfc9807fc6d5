-- ===== src/NodeInventory/Push.antt =====
-- Pushing rows, one and many: what each push adds, and the invariant of the set of used keys.
use mihomo_cp.Prelude.{
  ◌>>=◌, suc, ◌≡◌, refl, sym, ◌∙◌, ap, subst, inl, inr, false, List, [], ◌∷◌, ◌++◌, map, Option,
  none, some, Bool-cases, In, length, if◌then◌else◌,
}
use mathlib.Core.Path.{ap₂}
use mathlib.Core.List.{append_assoc, append-nil, map-append}
use mihomo_cp.Prelude.Unique.{Unique, Unique-concat, In-append_right}
use mihomo_cp.Js.Text.{Text, text_eq}
use mihomo_cp.Js.Text.Laws.{text_eq_iff}
use mihomo_cp.Js.TextSet.{has, add, has_iff, has-eq-false}
use mihomo_cp.NodeInventory.{NodeRow}
use mihomo_cp.NodeInventory.Rows.{fresh, Pushed, push}
use mihomo_cp.NodeInventory.Keys.{KeyOf, fresh-total, fresh-new, fresh_unused}

abbrev pub keys : List NodeRow → List Text
keys = map (λ r. r.key)

-- `q` is `r` with a key made from the key of `r`.
abbrev pub IsRelabelling : NodeRow → NodeRow → Type 0
IsRelabelling r q = (q ≡ record r { key = q.key }) × KeyOf r.key q.key

abbrev pub Relabelled : List NodeRow → List NodeRow → Type 0
Relabelled [] [] = Unit
Relabelled [] (_ ∷ _) = ⊥
Relabelled (_ ∷ _) [] = ⊥
Relabelled (r ∷ rs) (q ∷ qs) = IsRelabelling r q × Relabelled rs qs

-- Between two pushes the set holds the keys of the rows, which are all different.
pub record IsValid (p : Pushed) : Type 0 where
  pub tracked : p.used ≡ keys p.rows
  pub distinct : Unique p.used

unfoldable pub start : Pushed
start = record { used = []; rows = [] }

-- One push adds one row, relabelled.
record Grown (r : NodeRow) (p : Pushed) : Type 0 where
  after : Pushed
  row : NodeRow
  pushed : push r p ≡ some after
  appended : after.rows ≡ p.rows ++ row ∷ []
  relabelled : IsRelabelling r row
  valid : IsValid after

abbrev relabel : NodeRow → Text → NodeRow
relabel r key = if text_eq key r.key then r else record r { key = key }

relabel_lem : (r : NodeRow) (key : Text) → relabel r key ≡ record r { key = key }
relabel_lem r key = elim (Bool-cases (text_eq key r.key)) [
  | inl same ↦ rw same (ap (λ k. record r { key = k }) (sym ((text_eq_iff key r.key).0 same)))
  | inr other ↦ rw other
]

push_key :
    (r : NodeRow) (p : Pushed) (key : Text)
    → fresh (suc (length p.used)) p.used r.key r.key 2 ≡ some key
    → push r p
      ≡ some (record { used = add p.used key; rows = p.rows ++ record r { key = key } ∷ [] })
unfolding push
push_key r p key e =
    rw e (
      ap (λ q. some (record { used = add p.used key; rows = p.rows ++ q ∷ [] }))
        (relabel_lem r key))

add_new : (used : List Text) (key : Text) → has used key ≡ false → add used key ≡ used ++ key ∷ []
unfolding add
add_new used key e = rw e

grow : (r : NodeRow) (p : Pushed) → IsValid p → Grown r p
grow r p v =
    let (key, e) = fresh-total p.used r.key in
    let (new, made) = fresh-new _ p.used r.key r.key 2 e (inl refl) in
    record {
      after = record { used = add p.used key; rows = p.rows ++ record r { key = key } ∷ [] };
      row = record r { key = key };
      pushed = push_key r p key e;
      appended = refl;
      relabelled = (refl, made);
      valid = record {
        tracked =
            add_new p.used key new
            ∙ ap (λ l. l ++ key ∷ []) v.tracked
            ∙ sym (map-append (λ q. q.key) p.rows (record r { key = key } ∷ []));
        distinct =
            rw (add_new p.used key new)
              (Unique-concat p.used key v.distinct (has-eq-false p.used key new));
      };
    }

-- Pushing a list of rows, one after the other.
unfoldable pub push_all : List NodeRow → Pushed → Option Pushed
unfolding push
push_all [] p = some p
push_all (r ∷ rs) p = do p' ← push r p; push_all rs p'

pub record Pushes (rs : List NodeRow) (p : Pushed) : Type 0 where
  pub after : Pushed
  pub added : List NodeRow
  pub pushed : push_all rs p ≡ some after
  pub appended : after.rows ≡ p.rows ++ added
  pub relabelled : Relabelled rs added
  pub valid : IsValid after

pub grow_all : (rs : List NodeRow) (p : Pushed) → IsValid p → Pushes rs p
unfolding push_all
grow_all [] p v = record {
  after = p;
  added = [];
  pushed = refl;
  appended = sym (append-nil p.rows);
  relabelled = tt;
  valid = v;
}
grow_all (r ∷ rs) p v =
    let g = grow r p v in
    let rest = grow_all rs g.after g.valid in
    record {
      after = rest.after;
      added = g.row ∷ rest.added;
      pushed = rw (g.pushed) rest.pushed;
      appended =
          rest.appended
          ∙ ap (λ l. l ++ rest.added) g.appended
          ∙ append_assoc p.rows (g.row ∷ []) rest.added;
      relabelled = (g.relabelled, rest.relabelled);
      valid = rest.valid;
    }

pub push_all-append :
    (rs qs : List NodeRow) (p : Pushed)
    → push_all (rs ++ qs) p ≡ (push_all rs p >>= λ p'. push_all qs p')
unfolding push_all
push_all-append [] qs p = refl
push_all-append (r ∷ rs) qs p = onward (push r p) (push_all-append rs qs)
  where
    onward :
        (o : Option Pushed)
        → ((p' : Pushed) → push_all (rs ++ qs) p' ≡ (push_all rs p' >>= λ q. push_all qs q))
        → (o >>= λ p'. push_all (rs ++ qs) p')
          ≡ ((o >>= λ p'. push_all rs p') >>= λ q. push_all qs q)
    onward none h = refl
    onward (some p') h = h p'

pub bind_cong :
    (o : Option Pushed) (f g : Pushed → Option Pushed)
    → ((p : Pushed) → f p ≡ g p)
    → (o >>= f) ≡ (o >>= g)
bind_cong none f g h = refl
bind_cong (some p) f g h = h p

In-middle : (a : Text) (xs ys : List Text) → Unique (xs ++ a ∷ ys) → ¬ In a xs
In-middle a [] ys u m = m
In-middle a (x ∷ xs) ys (f, u) (inl e) = f (rw (← e) (In-append_right a xs (a ∷ ys) (inl refl)))
In-middle a (x ∷ xs) ys (f, u) (inr m) = In-middle a xs ys u m

has_fresh : (used : List Text) (key : Text) → ¬ In key used → has used key ≡ false
has_fresh used key n = elim (Bool-cases (has used key)) [
  | inl old ↦ absurd (n ((has_iff used key).0 old))
  | inr new ↦ new
]

-- A row whose key is not in use is pushed as it is.
push_unused :
    (r : NodeRow) (p : Pushed)
    → ¬ In r.key p.used
    → push r p ≡ some (record { used = p.used ++ r.key ∷ []; rows = p.rows ++ r ∷ [] })
push_unused r p n =
    let new = has_fresh p.used r.key n in
    push_key r p r.key (fresh_unused (length p.used) p.used r.key new)
    ∙ ap (λ u. some (record { used = u; rows = p.rows ++ r ∷ [] })) (add_new p.used r.key new)

-- Rows with keys that are all different and not in use keep them.
pub push_all_unused :
    (rs : List NodeRow) (p : Pushed)
    → Unique (p.used ++ keys rs)
    → push_all rs p ≡ some (record { used = p.used ++ keys rs; rows = p.rows ++ rs })
unfolding push_all
push_all_unused [] p u =
    sym (ap₂ (λ k q. some (record { used = k; rows = q })) (append-nil p.used) (append-nil p.rows))
push_all_unused (r ∷ rs) p u = rw (push_unused r p (In-middle r.key p.used (keys rs) u)) (
    push_all_unused rs (record { used = p.used ++ r.key ∷ []; rows = p.rows ++ r ∷ [] })
      (subst Unique (sym (append_assoc p.used (r.key ∷ []) (keys rs))) u)
    ∙ ap₂ (λ k q. some (record { used = k; rows = q })) (append_assoc p.used (r.key ∷ []) (keys rs))
        (append_assoc p.rows (r ∷ []) rs))
