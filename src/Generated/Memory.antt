-- ===== src/Generated/Memory.antt =====
-- Memory for the deep copies of api/schedule/v1alpha1/zz_generated.deepcopy.go: cells behind references,
-- of which those below `next` are in use, and what it means that a function copies deeply. `K` is
-- what a cell holds.
pub mod Parts
pub mod Slices
use kubesphere_schedule.Base.{
  ◌≤◌, ◌≡◌, ◌∙◌, ◌<◌, ℕ, true, suc, some, refl, not, if◌then◌else◌, eqb, arith, Option, Bool,
}

pub record Heap (K : Type 0) : Type 0 where
  pub next : ℕ
  pub cell : ℕ → Option K

-- A function that copies values of type `A`, what is read of such a value in a memory, and whether
-- the memory that it refers to is in use.
pub record Copier (K A V : Type 0) : Type 0 where
  pub copy : A → Heap K → A × Heap K
  pub read : Heap K → A → V
  pub inside : Heap K → A → Bool

-- The second memory has the used cells of the first unchanged.
pub record Extends {K : Type 0} (h h' : Heap K) : Type 0 where
  pub grows : h.next ≤ h'.next
  pub keeps : (p : ℕ) → p < h.next → h'.cell p ≡ h.cell p

-- The second memory has the used cells of the first from a reference on, whatever stands below it.
pub record AgreesFrom {K : Type 0} (from : ℕ) (h h' : Heap K) : Type 0 where
  pub agrees : (p : ℕ) → from ≤ p → p < h.next → h'.cell p ≡ h.cell p

-- A deep copy. Making it changes no used cell; the value read of the original stays what it was in
-- every memory that keeps the cells used before; and the value read of the copy is that of the
-- original in every memory that keeps the cells used for the copy, whatever is written to the others.
pub record IsDeep {K A V : Type 0} (c : Copier K A V) : Type 0 where
  pub extends : (a : A) (h : Heap K) → Extends h (c.copy a h).1
  pub kept :
      (a : A) (h h' : Heap K)
      → c.inside h a ≡ true
      → Extends h h'
      → (c.inside h' a ≡ true) × (c.read h' a ≡ c.read h a)
  pub apart :
      (a : A) (h h' : Heap K)
      → c.inside h a ≡ true
      → AgreesFrom h.next (c.copy a h).1 h'
      → c.read h' (c.copy a h).0 ≡ c.read h a

module _ {K : Type 0} where
  pub Extends-refl : (h : Heap K) → Extends h h
  Extends-refl h = record { grows = omega arith; keeps = λ p b. refl }

  pub Extends-trans : {h h' h'' : Heap K} → Extends h h' → Extends h' h'' → Extends h h''
  Extends-trans e e' = record {
    grows = omega (arith, e.grows, e'.grows);
    keeps = λ p b. e'.keeps p (omega (arith, e.grows)) ∙ e.keeps p b;
  }

  -- A memory that agrees with a later one agrees with the earlier one.
  pub AgreesFrom-earlier :
      {n : ℕ} {h h' h'' : Heap K} → Extends h h' → AgreesFrom n h' h'' → AgreesFrom n h h''
  AgreesFrom-earlier e a = record {
    agrees = λ p b u. a.agrees p b (omega (arith, e.grows)) ∙ e.keeps p u;
  }

  pub AgreesFrom-above : {n m : ℕ} {h h' : Heap K} → n ≤ m → AgreesFrom n h h' → AgreesFrom m h h'
  AgreesFrom-above b a = record { agrees = λ p c u. a.agrees p (omega arith) u }

  -- A fresh cell, whose content is still to be written, and a write.
  unfoldable pub reserve : Heap K → Heap K
  reserve h = record h { next = suc h.next }

  unfoldable pub write : ℕ → K → Heap K → Heap K
  write p k h = record h { cell = λ q. if eqb q p then some k else h.cell q }

  pub Extends-reserve : (h : Heap K) → Extends h (reserve h)
  unfolding reserve
  Extends-reserve h = record { grows = omega arith; keeps = λ p b. refl }

  -- A write to a cell that was not in use before.
  pub Extends-write :
      {h h' : Heap K} (p : ℕ) (k : K) → h.next ≤ p → Extends h h' → Extends h (write p k h')
  unfolding write
  Extends-write p k b e = record { grows = e.grows; keeps = λ q u. ground (arith, e.keeps q u) }
