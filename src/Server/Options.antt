-- ===== src/Server/Options.antt =====
-- `ServerRunOptions` and its `Validate`; `os.Stat` is a parameter, which gives an error or none.
use kubesphere_schedule.Base.Int.{ltb_ℤ, eqb_ℤ, ℤ, pos}
use kubesphere_schedule.Utils.Net.{is_valid_port}
use kubesphere_schedule.Base.{
  append-nil, ◌⊎◌, ◌≡◌, ◌∷◌, ◌↔◌, ◌++◌, ◌&&◌, some, none, is_empty, if◌then◌else◌, false, arith, [],
  String, Option, List,
}

pub record ServerRunOptions : Type 0 where
  pub bind_address : String
  pub insecure_port : ℤ
  pub secure_port : ℤ
  pub tls_cert_file : String
  pub tls_private_key : String

unfoldable pub new_server_run_options : ServerRunOptions
new_server_run_options = record {
  bind_address = "0.0.0.0";
  insecure_port = pos 9090;
  secure_port = pos 0;
  tls_cert_file = "";
  tls_private_key = "";
}

-- What is wrong with a file of the secure server.
unfoldable pub check_file : (String → Option String) → String → String → List String
check_file stat message file =
    if is_empty file then message ∷ [] else elim (stat file) [ none ↦ [] | some err ↦ err ∷ [] ]

unfoldable pub validate : (String → Option String) → ServerRunOptions → List String
validate stat s =
    let cert = check_file stat "tls cert file is empty while secure serving" s.tls_cert_file in
    let key =
      check_file stat "tls private key file is empty while secure serving" s.tls_private_key in
    let errs =
      if eqb_ℤ s.secure_port (pos 0) && eqb_ℤ s.insecure_port (pos 0)
      then "insecure and secure port can not be disabled at the same time" ∷ []
      else [] in
    if is_valid_port s.secure_port then errs ++ (cert ++ key) else errs

-- A file that a secure server can use.
abbrev pub IsUsable : (String → Option String) → String → Type 0
IsUsable stat file = (is_empty file ≡ false) × (stat file ≡ none)

check_file-IsUsable_iff :
    (stat : String → Option String) (message file : String)
    → (check_file stat message file ≡ []) ↔ IsUsable stat file
unfolding check_file
check_file-IsUsable_iff stat message file = ground arith

-- The options are accepted exactly where a port is not 0 and, if the secure port lies strictly
-- between 0 and 65535, both its files are named and can be read.
pub validate-ok_iff :
    (stat : String → Option String) (s : ServerRunOptions)
    → (validate stat s ≡ []) ↔ (
        ((eqb_ℤ s.secure_port (pos 0) && eqb_ℤ s.insecure_port (pos 0)) ≡ false)
        × (((ltb_ℤ (pos 0) s.secure_port && ltb_ℤ s.secure_port (pos 65535)) ≡ false)
            ⊎ (IsUsable stat s.tls_cert_file × IsUsable stat s.tls_private_key)))
unfolding validate is_valid_port
validate-ok_iff stat s =
    let cert = check_file stat "tls cert file is empty while secure serving" s.tls_cert_file in
    let key =
      check_file stat "tls private key file is empty while secure serving" s.tls_private_key in
    ground (
      arith,
      append-nil cert key,
      check_file-IsUsable_iff stat "tls cert file is empty while secure serving" s.tls_cert_file,
      check_file-IsUsable_iff stat "tls private key file is empty while secure serving"
          s.tls_private_key,
    )
