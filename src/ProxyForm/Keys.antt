-- ===== src/ProxyForm/Keys.antt =====
-- What a change of the type keeps.
use mihomo_cp.Prelude.{
  ◌≡◌, refl, sym, ◌∙◌, Bool, true, false, ◌&&◌, ◌||◌, List, [], ◌∷◌, map, if◌then◌else◌, Bool-cases,
  inl, inr,
}
use mihomo_cp.Js.Text.{Text, text_eq}
use mihomo_cp.Js.Text.Laws.{text_eq_iff}
use mihomo_cp.Js.TextSet.{has}
use mihomo_cp.Js.Value.{
  Value, undefined, null, bool, num, str, arr, obj, Object, empty, get, is_defined,
}
use mihomo_cp.Js.Record.{put, get-put, get-put-other}
use mihomo_cp.ProxyForm.{FieldDef, FormState, protocol_fields, preserved, handle_type_change}

abbrev keys : List FieldDef → List Text
keys = map (λ (f : FieldDef). f.key)

undefined_value : (v : Value) → is_defined v ≡ false → v ≡ undefined
undefined_value undefined e = refl
undefined_value null e = cc
undefined_value (bool _) e = cc
undefined_value (num _) e = cc
undefined_value (str _) e = cc
undefined_value (arr _) e = cc
undefined_value (obj _) e = cc

collapse : (b : Bool) (v : Value) → v ≡ undefined → (if b then v else undefined) ≡ undefined
collapse true v e = e
collapse false v e = refl

nothing_new :
    (b c : Bool) (v : Value)
    → (if b then v else undefined) ≡ (if b || (c && false) then v else undefined)
nothing_new true c v = refl
nothing_new false true v = refl
nothing_new false false v = refl

one_other :
    (key k : Text) (v : Value) (kept : Object) (c : Bool)
    → text_eq key k ≡ false
    → get k (if c then put key v kept else kept) ≡ get k kept
one_other key k v kept true e = get-put-other key k v kept e
one_other key k v kept false e = refl

-- One step of the loop at the key itself, before a rest of the loop that keeps it in this way.
same_key :
    (config : Object) (k : Text) (n rest : Bool) (loop : Object → Object) (kept : Object) (b : Bool)
    → ((o : Object) (c : Bool)
        → get k o ≡ (if c then get k config else undefined)
        → get k (loop o) ≡ (if c || (n && rest) then get k config else undefined))
    → get k kept ≡ (if b then get k config else undefined)
    → get k (loop (if n && is_defined (get k config) then put k (get k config) kept else kept))
      ≡ (if b || (n && true) then get k config else undefined)
same_key config k false rest loop kept b ih h = ih kept b h
same_key config k true rest loop kept b ih h = elim (Bool-cases (is_defined (get k config))) [
  | inl d ↦ rw d (ih (put k (get k config) kept) true (get-put k (get k config) kept) ∙ both b)
  | inr d ↦ rw d (
      let missing : get k config ≡ undefined = undefined_value (get k config) d in
      ih kept b h
      ∙ collapse (b || (true && rest)) (get k config) missing
      ∙ sym (collapse (b || (true && true)) (get k config) missing))
]
  where
    both : (b : Bool) → get k config ≡ (if b || true then get k config else undefined)
    both true = refl
    both false = refl

-- What the loop keeps for a key, from an object that has the key where `b` says so.
get-preserved :
    (config : Object) (new : List Text) (fs : List FieldDef) (kept : Object) (k : Text) (b : Bool)
    → get k kept ≡ (if b then get k config else undefined)
    → get k (preserved config new fs kept)
      ≡ (if b || (has new k && has (keys fs) k) then get k config else undefined)
unfolding preserved has
get-preserved config new [] kept k b h = h ∙ nothing_new b (has new k) (get k config)
get-preserved config new (f ∷ fs) kept k b h = elim (Bool-cases (text_eq f.key k)) [
  | inl e ↦
      let same : f.key ≡ k = (text_eq_iff f.key k).0 e in
      let step =
        same_key config k (has new k) (has (keys fs) k) (preserved config new fs) kept b
          (λ o c g. get-preserved config new fs o k c g) h in
      rw (e, same) step
  | inr e ↦
      let c = has new f.key && is_defined (get f.key config) in
      rw e (
        get-preserved config new fs (if c then put f.key (get f.key config) kept else kept) k b
          (one_other f.key k (get f.key config) kept c e ∙ h))
]

-- A change of the type keeps the name, the server and the port, and of the configuration exactly the keys
-- that are fields of the old type and of the new one, with their values.
pub handle_type_change_lem :
    (new_type : Text) (form : FormState) (k : Text)
    → ((handle_type_change new_type form).name ≡ form.name)
      × ((handle_type_change new_type form).server ≡ form.server)
      × ((handle_type_change new_type form).port ≡ form.port)
      × (get k (handle_type_change new_type form).config ≡ (
          if has (keys (protocol_fields new_type)) k && has (keys (protocol_fields form.type)) k
          then get k form.config
          else undefined))
unfolding handle_type_change get
handle_type_change_lem new_type form k = (
  refl,
  refl,
  refl,
  get-preserved form.config (keys (protocol_fields new_type)) (protocol_fields form.type) empty k
      false refl,
)
