-- ===== src/Apiserver/Context.antt =====
-- pkg/apiserver/request/context.go. `U` are users and `E` audit events; a nil interface or pointer is
-- `none`.
use kubesphere_schedule.Http.{or_empty}
use kubesphere_schedule.Base.{
  ◌≡◌, ◌∷◌, ◌==◌, true, some, refl, none, if◌then◌else◌, false, ap, [], String, Option, List, Bool,
}

-- The keys have a type of their own, so no key of another package is one of them.
pub data Key : Type 0 where
  namespace_key user_key audit_key audiences_key : Key
  foreign_key : String → Key

pub data Value (U E : Type 0) : Type 0 where
  text : String → Value U E
  user : Option U → Value U E
  event : Option E → Value U E
  other : Value U E

-- `context.TODO`, and `context.WithValue` of a parent.
pub data Ctx (U E : Type 0) : Type 0 where
  todo : Ctx U E
  derived : Ctx U E → Key → Value U E → Ctx U E

-- A write into a context; a sequence of them has the last one first.
pub data Write (U E : Type 0) : Type 0 where
  namespace_write : String → Write U E
  user_write : Option U → Write U E
  event_write : Option E → Write U E

-- What a context holds: its namespace, user and event.
abbrev pub Contents : Type 0 → Type 0 → Type 0
Contents U E = Option String × Option U × Option E

abbrev pub same_key : Key → Key → Bool
same_key namespace_key namespace_key = true
same_key user_key user_key = true
same_key audit_key audit_key = true
same_key audiences_key audiences_key = true
same_key (foreign_key a) (foreign_key b) = a == b
same_key a b = false

module _ {U E : Type 0} where
  -- `ctx.Value`.
  unfoldable pub value_of : Ctx U E → Key → Option (Value U E)
  value_of todo key = none
  value_of (derived parent k v) key =
      let outer = value_of parent key in if same_key k key then some v else outer

  unfoldable pub new_context : Ctx U E
  new_context = todo

  unfoldable pub with_value : Ctx U E → Key → Value U E → Ctx U E
  with_value parent key val = derived parent key val

  unfoldable pub with_namespace : Ctx U E → String → Ctx U E
  unfolding with_value
  with_namespace parent namespace = with_value parent namespace_key (text namespace)

  unfoldable pub new_default_context : Ctx U E
  unfolding new_context with_namespace
  new_default_context = with_namespace new_context "default"

  abbrev pub as_text : Option (Value U E) → Option String
  as_text (some (text s)) = some s
  as_text v = none

  unfoldable pub namespace_from : Ctx U E → Option String
  unfolding value_of
  namespace_from ctx = as_text (value_of ctx namespace_key)

  unfoldable pub namespace_value : Ctx U E → String
  unfolding namespace_from
  namespace_value ctx = or_empty (namespace_from ctx)

  unfoldable pub with_user : Ctx U E → Option U → Ctx U E
  unfolding with_value
  with_user parent u = with_value parent user_key (user u)

  abbrev pub as_user : Option (Value U E) → Option U
  as_user (some (user u)) = u
  as_user v = none

  unfoldable pub user_from : Ctx U E → Option U
  unfolding value_of
  user_from ctx = as_user (value_of ctx user_key)

  unfoldable pub with_audit_event : Ctx U E → Option E → Ctx U E
  unfolding with_value
  with_audit_event parent ev = with_value parent audit_key (event ev)

  abbrev pub as_event : Option (Value U E) → Option E
  as_event (some (event ev)) = ev
  as_event v = none

  unfoldable pub audit_event_from : Ctx U E → Option E
  unfolding value_of
  audit_event_from ctx = as_event (value_of ctx audit_key)

  abbrev pub written : List (Write U E) → Ctx U E → Ctx U E
  written [] ctx = ctx
  written (namespace_write s ∷ writes) ctx = with_namespace (written writes ctx) s
  written (user_write u ∷ writes) ctx = with_user (written writes ctx) u
  written (event_write ev ∷ writes) ctx = with_audit_event (written writes ctx) ev

  abbrev pub contents : Ctx U E → Contents U E
  contents ctx = (namespace_from ctx, user_from ctx, audit_event_from ctx)

  -- The same writes on three variables.
  abbrev pub assigned : List (Write U E) → Contents U E → Contents U E
  assigned [] c = c
  assigned (namespace_write s ∷ writes) c = (some s, (assigned writes c).1, (assigned writes c).2)
  assigned (user_write u ∷ writes) c = ((assigned writes c).0, u, (assigned writes c).2)
  assigned (event_write ev ∷ writes) c = ((assigned writes c).0, (assigned writes c).1, ev)

  -- A context refines three variables: what is read behind any sequence of writes is what the same
  -- writes leave in variables for the namespace, the user and the audit event.
  pub contents-written :
      (writes : List (Write U E)) (ctx : Ctx U E)
      → contents (written writes ctx) ≡ assigned writes (contents ctx)
  unfolding with_namespace with_user with_audit_event with_value namespace_from user_from
      audit_event_from value_of
  contents-written [] ctx = refl
  contents-written (namespace_write s ∷ writes) ctx =
      ap (λ c. (some s, c.1, c.2)) (contents-written writes ctx)
  contents-written (user_write u ∷ writes) ctx =
      ap (λ c. (c.0, u, c.2)) (contents-written writes ctx)
  contents-written (event_write ev ∷ writes) ctx =
      ap (λ c. (c.0, c.1, ev)) (contents-written writes ctx)
