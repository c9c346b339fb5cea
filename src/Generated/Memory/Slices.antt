-- ===== src/Generated/Memory/Slices.antt =====
-- Deep copies of slices: `*out = make([]T, len(*in))` and the loop over the items. A slice is nil or a
-- reference to the cell with its items; `put` and `take_items` are the cells of that type of item.
use kubesphere_schedule.Generated.Memory.Parts.{
  list-IsDeep, list_copier, copy_each, and_true, inside_each,
}
use kubesphere_schedule.Base.{
  ◌∙◌, ◌<◌, ◌≡◌, ◌&&◌, ℕ, true, some, refl, none, map, ltb→lt, ltb, arith, ap, [], Option, List,
  Bool,
}
use kubesphere_schedule.Generated.Memory.{
  Extends-refl, Heap, Copier, IsDeep, Extends, Extends-trans, Extends-reserve, Extends-write,
  AgreesFrom, reserve, write,
}

write-cell : {K : Type 0} (p : ℕ) (k : K) (h : Heap K) → (write p k h).cell p ≡ some k
unfolding write
write-cell p k h = ground arith

-- A reserved cell is in use from then on.
reserve-lt : {K : Type 0} (h h' : Heap K) → Extends (reserve h) h' → h.next < h'.next
unfolding reserve
reserve-lt h h' e = omega (arith, e.grows)

-- The cells behind one that was written last.
AgreesFrom-write :
    {K : Type 0} (h h' made : Heap K) (k : K)
    → AgreesFrom h.next (write h.next k made) h'
    → AgreesFrom (reserve h).next made h'
unfolding write reserve
AgreesFrom-write h h' made k a = record {
  agrees = λ p b u. ground (arith, a.agrees p (omega arith) u);
}

module _ {K A V : Type 0} (put : List A → K) (take_items : K → List A) (c : Copier K A V) where
  abbrev pub items_of : Option K → List A
  items_of none = []
  items_of (some k) = take_items k

  -- The items behind a reference.
  unfoldable pub items_at : Heap K → ℕ → List A
  items_at h r = items_of (h.cell r)

  unfoldable pub copy_slice : Option ℕ → Heap K → Option ℕ × Heap K
  unfolding items_at copy_each reserve write
  copy_slice none h = (none, h)
  copy_slice (some r) h =
      let items = copy_each c (items_at h r) (reserve h) in
      (some h.next, write h.next (put items.0) items.1)

  abbrev pub read_slice : Heap K → Option ℕ → Option (List V)
  read_slice h none = none
  read_slice h (some r) = some (map (c.read h) (items_at h r))

  abbrev pub inside_slice : Heap K → Option ℕ → Bool
  inside_slice h none = true
  inside_slice h (some r) = ltb r h.next && inside_each c h (items_at h r)

  abbrev pub slice_copier : Copier K (Option ℕ) (Option (List V))
  slice_copier = record { copy = copy_slice; read = read_slice; inside = inside_slice }

  items_at-Extends :
      (h h' : Heap K) (r : ℕ) → ltb r h.next ≡ true → Extends h h' → items_at h' r ≡ items_at h r
  unfolding items_at
  items_at-Extends h h' r u e = ap items_of (e.keeps r (ltb→lt r h.next u))

  module _ (deep : IsDeep c) (stored : (xs : List A) → take_items (put xs) ≡ xs) where
    each : IsDeep (list_copier c)
    each = list-IsDeep c deep

    slice-Extends : (s : Option ℕ) (h : Heap K) → Extends h (copy_slice s h).1
    unfolding copy_slice
    slice-Extends none h = Extends-refl h
    slice-Extends (some r) h =
        Extends-write h.next _ (omega arith)
          (Extends-trans (Extends-reserve h) (each.extends (items_at h r) (reserve h)))

    slice-kept :
        (s : Option ℕ) (h h' : Heap K)
        → inside_slice h s ≡ true
        → Extends h h'
        → (inside_slice h' s ≡ true) × (read_slice h' s ≡ read_slice h s)
    slice-kept none h h' i e = (refl, refl)
    slice-kept (some r) h h' i e =
        let i' = and_true (ltb r h.next) (inside_each c h (items_at h r)) i in
        let same = items_at-Extends h h' r i'.0 e in
        let k = each.kept (items_at h r) h h' i'.1 e in
        rw same (ground (arith, e.grows, k.0), ap some k.1)

    slice-apart :
        (s : Option ℕ) (h h' : Heap K)
        → inside_slice h s ≡ true
        → AgreesFrom h.next (copy_slice s h).1 h'
        → read_slice h' (copy_slice s h).0 ≡ read_slice h s
    unfolding copy_slice
    slice-apart none h h' i a = refl
    slice-apart (some r) h h' i a =
        let i' = and_true (ltb r h.next) (inside_each c h (items_at h r)) i in
        let xs = items_at h r in
        let start = Extends-reserve h in
        let made = copy_each c xs (reserve h) in
        let grown = each.extends xs (reserve h) in
        let here : h'.cell h.next ≡ some (put made.0) =
          a.agrees h.next (omega arith) (reserve-lt h made.1 grown)
          ∙ write-cell h.next (put made.0) made.1 in
        let written : items_at h' h.next ≡ made.0 = ap items_of here ∙ stored made.0 in
        let k = each.kept xs h (reserve h) i'.1 start in
        let above = AgreesFrom-write h h' made.1 (put made.0) a in
        rw written (ap some (each.apart xs (reserve h) h' k.0 above ∙ k.1))

    pub slice-IsDeep : IsDeep slice_copier
    slice-IsDeep = record { extends = slice-Extends; kept = slice-kept; apart = slice-apart }
