-- ===== src/Utils/ResourceParse.antt =====
-- pkg/utils/resourceparse/resource_parse.go. The builder of cli-runtime is a parameter, and so is the
-- read of an object `R` from the API server, which fills it in.
use kubesphere_schedule.Base.Results.{failed, ok, Result}
use kubesphere_schedule.Base.{◌∷◌, some, none, if◌then◌else◌, [], String, Option, List, Bool}

pub record BuilderLib (R : Type 0) : Type 0 where
  pub infos : (namespace rls_name : String) → (local : Bool) → List R × Option String
  pub with_namespace : String → R → R
  pub get : R → R × Option String

module _ {R : Type 0} (lib : BuilderLib R) where
  -- The loop over the objects: the first error ends it.
  unfoldable pub read_infos : String → List R → Result (List R)
  read_infos namespace [] = ok []
  read_infos namespace (info ∷ infos) =
      let (read, err) = lib.get (lib.with_namespace namespace info) in
      let rest = read_infos namespace infos in
      elim err [
        | some e ↦ failed e
        | none ↦ elim rest [ failed e ↦ failed e | ok reads ↦ ok (read ∷ reads) ]
      ]

  unfoldable pub parse : (namespace rls_name : String) → (local : Bool) → Result (List R)
  unfolding read_infos
  parse namespace rls_name local =
      let (infos, err) = lib.infos namespace rls_name local in
      let reads = read_infos namespace infos in
      elim err [ some e ↦ failed e | none ↦ if local then ok infos else reads ]
