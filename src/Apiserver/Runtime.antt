-- ===== src/Apiserver/Runtime.antt =====
-- pkg/apiserver/runtime/runtime.go. The web service of go-restful is a record with the fields that
-- are set; `C` is the state of a container.
use mathlib.Core.List.{append-nil, append_assoc}
use kubesphere_schedule.Base.{
  ◌∙◌, inr, inl, Option-cases, ◌≡◌, ◌∷◌, ◌++◌, sym, some, refl, none, join, is_empty, if◌then◌else◌,
  [], String, Option, List,
}

pub record GroupVersion : Type 0 where
  pub group : String
  pub version : String

-- `GroupVersion.String`.
abbrev pub text_of : GroupVersion → String
text_of gv = if is_empty gv.group then gv.version else join gv.group (join "/" gv.version)

pub record WebService : Type 0 where
  pub root_path : String
  pub produces : List String

unfoldable pub new_web_service : GroupVersion → WebService
new_web_service gv = record {
  root_path = join "/kapis" (join "/" (text_of gv));
  produces = "application/json" ∷ [];
}

unfoldable pub new_web_service_without_group : GroupVersion → WebService
new_web_service_without_group gv = record {
  root_path = join "/" gv.version;
  produces = "application/json" ∷ [];
}

abbrev pub ContainerBuilder : Type 0 → Type 0
ContainerBuilder C = List (C → Option String × C)

module _ {C : Type 0} where
  -- The first error ends the loop.
  unfoldable pub add_to_container : ContainerBuilder C → C → Option String × C
  add_to_container [] c = (none, c)
  add_to_container (f ∷ fs) c =
      let (err, c') = f c in elim err [ some e ↦ (some e, c') | none ↦ add_to_container fs c' ]

  unfoldable pub register : ContainerBuilder C → List (C → Option String × C) → ContainerBuilder C
  register cb [] = cb
  register cb (f ∷ funcs) = register (cb ++ (f ∷ [])) funcs

  unfoldable pub new_container_builder : List (C → Option String × C) → ContainerBuilder C
  unfolding register
  new_container_builder funcs = register [] funcs

  register-append :
      (cb : ContainerBuilder C) (funcs : List (C → Option String × C))
      → register cb funcs ≡ cb ++ funcs
  unfolding register
  register-append cb [] = sym (append-nil cb)
  register-append cb (f ∷ funcs) =
      register-append (cb ++ (f ∷ [])) funcs ∙ append_assoc cb (f ∷ []) funcs

  -- A builder behind the result of another one.
  abbrev pub and_then : ContainerBuilder C → Option String × C → Option String × C
  and_then gs (none, c) = add_to_container gs c
  and_then gs (some e, c) = (some e, c)

  add_to_container-append :
      (fs gs : ContainerBuilder C) (c : C)
      → add_to_container (fs ++ gs) c ≡ and_then gs (add_to_container fs c)
  unfolding add_to_container
  add_to_container-append [] gs c = refl
  add_to_container-append (f ∷ fs) gs c = elim (Option-cases (f c).0) [
    | inl fine ↦ rw (add_to_container, fine) (add_to_container-append fs gs (f c).1)
    | inr (e, stops) ↦ rw (add_to_container, stops) refl
  ]

  -- A builder that is made of some functions and then registers others runs them all in the order
  -- given, each on the container that the one before it left, and stops at the first error.
  pub register-runs :
      (funcs others : List (C → Option String × C)) (c : C)
      → add_to_container (register (new_container_builder funcs) others) c
        ≡ and_then others (add_to_container funcs c)
  unfolding new_container_builder
  register-runs funcs others c =
      rw (register-append (register [] funcs) others, register-append [] funcs)
        (add_to_container-append funcs others c)
