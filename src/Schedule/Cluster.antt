-- ===== src/Schedule/Cluster.antt =====
-- The clients of the cluster's API server, which the generated code and the Kubernetes and Crane
-- libraries implement. `W` is the state of the cluster, `D` a merge patch.
use kubesphere_schedule.Base.{◌≡◌, ℕ, none, String, Option, List, Bool}

-- The error types that the program tells apart: `errors.APIStatus` and `restful.ServiceError` carry
-- a status code.
pub data ErrorStatus : Type 0 where
  api_status service_error : ℕ → ErrorStatus
  no_status : ErrorStatus

-- An error; `not_found` is what `errors.IsNotFound` says of it.
pub record ApiError : Type 0 where
  pub status : ErrorStatus
  pub not_found : Bool
  pub message : String

-- A client of objects `T`. As in Go a call returns an object and an error; where the error is not
-- nil the object is what the client leaves in its result. `merge_data a b` is the patch that
-- `client.MergeFrom(a)` computes for `b`, and `data_len` its length in bytes.
pub record Client (W T D : Type 0) : Type 0 where
  pub get : String → String → W → T × Option ApiError
  pub create : String → T → W → (T × Option ApiError) × W
  pub patch : String → String → D → W → (T × Option ApiError) × W
  pub delete : String → String → W → Option ApiError × W
  pub list_all : W → List T × Option ApiError
  pub merge_data : T → T → D × Option ApiError
  pub data_len : D → ℕ

-- What is documented of a merge patch: from an object to itself it is `{}`.
pub record HasEmptyPatch {W T D : Type 0} (client : Client W T D) : Type 0 where
  pub no_error : (t : T) → (client.merge_data t t).1 ≡ none
  pub two_bytes : (t : T) → client.data_len (client.merge_data t t).0 ≡ 2
