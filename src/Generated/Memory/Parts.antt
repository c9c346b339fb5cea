-- ===== src/Generated/Memory/Parts.antt =====
-- Deep copies of pairs, of lists of values, of slices and of values that may be nil, from those of their
-- parts.
use kubesphere_schedule.Base.{
  ◌≡◌, ◌∷◌, ◌∙◌, ◌&&◌, true, some, refl, none, map, false, ap, [], Option, List, Bool,
}
use mathlib.Core.Option
use kubesphere_schedule.Generated.Memory.{
  Heap, Copier, IsDeep, Extends, Extends-refl, Extends-trans, AgreesFrom, AgreesFrom-earlier,
  AgreesFrom-above,
}

-- One value after the other.
abbrev pub pair_copier :
    {K A B U V : Type 0} → Copier K A U → Copier K B V → Copier K (A × B) (U × V)
pair_copier ca cb = record {
  copy = λ x h. let a = ca.copy x.0 h in let b = cb.copy x.1 a.1 in ((a.0, b.0), b.1);
  read = λ h x. (ca.read h x.0, cb.read h x.1);
  inside = λ h x. ca.inside h x.0 && cb.inside h x.1;
}

-- The parts of a conjunction.
pub and_true : (a b : Bool) → (a && b) ≡ true → (a ≡ true) × (b ≡ true)
and_true true b h = (refl, h)
and_true false b h = cc

pub pair-IsDeep :
    {K A B U V : Type 0} (ca : Copier K A U) (cb : Copier K B V)
    → IsDeep ca
    → IsDeep cb
    → IsDeep (pair_copier ca cb)
pair-IsDeep {K} {A} {B} ca cb da db = record {
  extends = λ x h. Extends-trans (da.extends x.0 h) (db.extends x.1 (ca.copy x.0 h).1);
  kept = λ x h h' i e.
      let i' = and_true (ca.inside h x.0) (cb.inside h x.1) i in
      let ka = da.kept x.0 h h' i'.0 e in
      let kb = db.kept x.1 h h' i'.1 e in (rw (ka.0, kb.0), λ j. (ka.1 j, kb.1 j));
  apart = λ x h h' i a.
      let i' = and_true (ca.inside h x.0) (cb.inside h x.1) i in
      let h1 = (ca.copy x.0 h).1 in
      let first = da.extends x.0 h in
      let kb = db.kept x.1 h h1 i'.1 first in
      let pa = da.apart x.0 h h' i'.0 (AgreesFrom-earlier (db.extends x.1 h1) a) in
      let pb = db.apart x.1 h1 h' kb.0 (AgreesFrom-above first.grows a) ∙ kb.1 in λ j. (pa j, pb j);
}

-- `for i := range *in { (*in)[i].DeepCopyInto(&(*out)[i]) }`.
module _ {K A V : Type 0} (c : Copier K A V) where
  unfoldable pub copy_each : List A → Heap K → List A × Heap K
  copy_each [] h = ([], h)
  copy_each (x ∷ xs) h = let a = c.copy x h in let rest = copy_each xs a.1 in (a.0 ∷ rest.0, rest.1)

  abbrev pub inside_each : Heap K → List A → Bool
  inside_each h [] = true
  inside_each h (x ∷ xs) = c.inside h x && inside_each h xs

  abbrev pub list_copier : Copier K (List A) (List V)
  list_copier = record { copy = copy_each; read = λ h xs. map (c.read h) xs; inside = inside_each }

  module _ (deep : IsDeep c) where
    each-Extends : (xs : List A) (h : Heap K) → Extends h (copy_each xs h).1
    unfolding copy_each
    each-Extends [] h = Extends-refl h
    each-Extends (x ∷ xs) h = Extends-trans (deep.extends x h) (each-Extends xs (c.copy x h).1)

    each-kept :
        (xs : List A) (h h' : Heap K)
        → inside_each h xs ≡ true
        → Extends h h'
        → (inside_each h' xs ≡ true) × (map (c.read h') xs ≡ map (c.read h) xs)
    each-kept [] h h' i e = (refl, refl)
    each-kept (x ∷ xs) h h' i e =
        let i' = and_true (c.inside h x) (inside_each h xs) i in
        let first = deep.kept x h h' i'.0 e in
        let rest = each-kept xs h h' i'.1 e in (rw (first.0, rest.0), λ j. first.1 j ∷ rest.1 j)

    each-apart :
        (xs : List A) (h h' : Heap K)
        → inside_each h xs ≡ true
        → AgreesFrom h.next (copy_each xs h).1 h'
        → map (c.read h') (copy_each xs h).0 ≡ map (c.read h) xs
    unfolding copy_each
    each-apart [] h h' i a = refl
    each-apart (x ∷ xs) h h' i a =
        let i' = and_true (c.inside h x) (inside_each h xs) i in
        let h1 = (c.copy x h).1 in
        let grown = deep.extends x h in
        let rest = each-kept xs h h1 i'.1 grown in
        let px = deep.apart x h h' i'.0 (AgreesFrom-earlier (each-Extends xs h1) a) in
        let pxs = each-apart xs h1 h' rest.0 (AgreesFrom-above grown.grows a) ∙ rest.1 in
        λ j. px j ∷ pxs j

    pub list-IsDeep : IsDeep list_copier
    list-IsDeep = record { extends = each-Extends; kept = each-kept; apart = each-apart }

-- A value that may be nil.
module _ {K A V : Type 0} (c : Copier K A V) where
  unfoldable pub copy_option : Option A → Heap K → Option A × Heap K
  copy_option none h = (none, h)
  copy_option (some x) h = let a = c.copy x h in (some a.0, a.1)

  abbrev pub inside_option : Heap K → Option A → Bool
  inside_option h none = true
  inside_option h (some x) = c.inside h x

  abbrev pub option_copier : Copier K (Option A) (Option V)
  option_copier = record {
    copy = copy_option;
    read = λ h. Option.map (c.read h);
    inside = inside_option;
  }

  pub option-IsDeep : IsDeep c → IsDeep option_copier
  unfolding copy_option
  option-IsDeep deep = record { extends = extends; kept = kept; apart = apart }
    where
      extends : (x : Option A) (h : Heap K) → Extends h (copy_option x h).1
      extends none h = Extends-refl h
      extends (some x) h = deep.extends x h

      kept :
          (x : Option A) (h h' : Heap K)
          → inside_option h x ≡ true
          → Extends h h'
          → (inside_option h' x ≡ true) × (Option.map (c.read h') x ≡ Option.map (c.read h) x)
      kept none h h' i e = (refl, refl)
      kept (some x) h h' i e = let k = deep.kept x h h' i e in (k.0, ap some k.1)

      apart :
          (x : Option A) (h h' : Heap K)
          → inside_option h x ≡ true
          → AgreesFrom h.next (copy_option x h).1 h'
          → Option.map (c.read h') (copy_option x h).0 ≡ Option.map (c.read h) x
      apart none h h' i a = refl
      apart (some x) h h' i a = ap some (deep.apart x h h' i a)
