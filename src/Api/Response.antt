-- ===== src/Api/Response.antt =====
-- The responses of app/api.py, and what becomes of exceptions (`_send_error`).
use ab_bedd4c0e_tsig_bugfix.Prelude.{ℕ, Bool, Option, List, []}
use ab_bedd4c0e_tsig_bugfix.Errors.{
  internal, not_found, ApiError, Fault, out_of_fuel, api, Result, ok, err,
}
use ab_bedd4c0e_tsig_bugfix.Text.{Text}
use ab_bedd4c0e_tsig_bugfix.Json.{Json}
use ab_bedd4c0e_tsig_bugfix.Canonical.{api_error}
use ab_bedd4c0e_tsig_bugfix.Storage.Tables.{Database, KeyRow, RequestRow}
use ab_bedd4c0e_tsig_bugfix.Storage.Publish.{Reply}
use ab_bedd4c0e_tsig_bugfix.Storage.Zones.{Metadata, KeyView}

-- The JSON bodies of the responses.
pub data Body : Type 0 where
  health : Bool → Bool → Bool → Body
  zones_body : List Metadata → Body
  zone_body : Metadata → Body
  request_body : RequestRow → Body
  keys_body : List KeyView → Body
  key_body : KeyRow → Body
  revoked_body : Text → ℕ → Body
  result_body : Reply → Body
  retention_body : Text → ℕ → Body
  error_body : ApiError → Body

pub record Response : Type 0 where
  pub status : ℕ
  pub body : Body

abbrev pub send : ℕ → Body → Response
send status body = record { status = status; body = body }

abbrev pub internal_error : ApiError
internal_error = record { code = internal; http_status = 500; details = [] }

-- `except ApiError: … except Exception: …`; an exhausted bound is no exception
abbrev pub answered : Result Response → Result Response
answered (ok r) = ok r
answered (err out_of_fuel) = err out_of_fuel
answered (err (api e)) = ok (send e.http_status (error_body e))
answered (err e) = ok (send 500 (error_body internal_error))

-- A handler that changes nothing where it raises.
abbrev pub kept : Database → Result (Database × Response) → Database × Result Response
kept db (ok (db', r)) = (db', ok r)
kept db (err e) = (db, err e)

abbrev pub closed : Database × Result Response → Database × Result Response
closed (db, r) = (db, answered r)

abbrev pub no_endpoint : Fault
no_endpoint = api_error not_found 404 []

-- What a request gives: the path, its parts decoded, the Content-Length and the payload of that length.
pub record Request : Type 0 where
  pub path : Text
  pub parts : List Text
  pub content_length : Text
  pub payload : ℕ → Option Json

-- What goes on only where nothing is raised.
abbrev pub or_kept {ℓ} :
    {A : Type ℓ}
    → Database
    → Result A
    → (A → Database × Result Response)
    → Database × Result Response
or_kept db (ok a) next = next a
or_kept db (err e) next = (db, err e)
