-- ===== src/Witnesses/Moving.antt =====
-- `arrayMove` at positions of the list, as a function.
use mihomo_cp.Prelude.{refl, List, none, some}
use mihomo_cp.Js.Date.{ℤ, pos, negsuc}
use mihomo_cp.Js.Move.{get_elem?, remove_at, insert_at, MovesItem}

module _ {A : Type 0} where
  abbrev pub array_move : List A → ℤ → ℤ → List A
  array_move xs (pos i) (pos j) = elim (get_elem? xs i) [
    | none ↦ xs
    | some a ↦ insert_at j a (remove_at i xs)
  ]
  array_move xs (pos i) (negsuc j) = xs
  array_move xs (negsuc i) j = xs

  pub array_move-MovesItem : MovesItem array_move
  array_move-MovesItem xs i j a e h = rw (array_move, e) refl
