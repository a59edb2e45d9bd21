-- ===== src/Api/Routes.antt =====
-- `ApiHandler` of app/api.py: the routes and what they do with the store. A handler gives the database
-- afterwards and the response. The clock, the new secret, the hash and what the standard library makes
-- of paths, floats and addresses are arguments; a negative `_ttl` of an SOA value is left out, and
-- raises here.
use ab_bedd4c0e_tsig_bugfix.Prelude.{
  ℕ, Bool, true, false, ◌&&◌, Option, none, some, List, [], ◌∷◌, if◌then◌else◌, map,
}
use ab_bedd4c0e_tsig_bugfix.Errors.{method_not_allowed, Fault, value_error, Result, ok, err, ◌>>=◌}
use ab_bedd4c0e_tsig_bugfix.Text.{Text, Bytes, codes, text_eq}
use ab_bedd4c0e_tsig_bugfix.Json.{
  ℤ, pos, negsuc, Json, whole, str, object, Fields, no_fields, field, get_or, get_or_null, set,
  int_of, str_of,
}
use ab_bedd4c0e_tsig_bugfix.Canonical.{canonical_zone_arg}
use ab_bedd4c0e_tsig_bugfix.Canonical.Rdata.{invalid}
use ab_bedd4c0e_tsig_bugfix.Storage.Tables.{Database, ZoneRow}
use ab_bedd4c0e_tsig_bugfix.Storage.Keys.{install_key, revoke_key}
use ab_bedd4c0e_tsig_bugfix.Storage.Cleanup.{set_retention}
use ab_bedd4c0e_tsig_bugfix.Storage.Publish.{Reply, publish}
use ab_bedd4c0e_tsig_bugfix.Storage.Zones.{
  Metadata, list_zones, zone_metadata, get_request, list_keys, create_zone,
}
use ab_bedd4c0e_tsig_bugfix.Api.Request.{
  read_json, retention_of, expiry_of, key_id_of, key_name_of, check_publish, check_create,
  with_defaults,
}
use ab_bedd4c0e_tsig_bugfix.Api.Response.{
  health, zones_body, zone_body, request_body, keys_body, key_body, revoked_body, result_body,
  retention_body, error_body, Response, send, answered, kept, or_kept, closed, no_endpoint, Request,
}
use ab_bedd4c0e_tsig_bugfix.Api.Fingerprint.{norm_ops, payload_of}

-- `_health`, at a database that answers
unfoldable pub health_of : Option (Bool × Bool) → Response
health_of none = send 503 (health true false false)
health_of (some (udp, tcp)) = send (if udp && tcp then 200 else 503) (health true udp tcp)

abbrev metadata_of : Database → List ZoneRow → Result (List Metadata)
metadata_of db [] = ok []
metadata_of db (z ∷ zs) = do m ← zone_metadata db z.name; ms ← metadata_of db zs; ok (m ∷ ms)

abbrev pub is_zones : Text → Text → Bool
is_zones v zones = text_eq v (codes "v1") && text_eq zones (codes "zones")

abbrev get_parts : Database → List Text → Result Response
get_parts db (v ∷ zs ∷ name ∷ []) =
    if is_zones v zs
    then (do zone ← canonical_zone_arg name; m ← zone_metadata db zone; ok (send 200 (zone_body m)))
    else err no_endpoint
get_parts db (v ∷ zs ∷ name ∷ what ∷ []) =
    if is_zones v zs && text_eq what (codes "keys")
    then (do zone ← canonical_zone_arg name; ks ← list_keys db zone; ok (send 200 (keys_body ks)))
    else err no_endpoint
get_parts db (v ∷ zs ∷ name ∷ what ∷ id ∷ []) =
    if is_zones v zs && text_eq what (codes "requests")
    then (do
      zone ← canonical_zone_arg name
      r ← get_request db zone id
      ok (send 200 (request_body r)))
    else err no_endpoint
get_parts db _ = err no_endpoint

-- `do_GET`
unfoldable pub do_get : Option (Bool × Bool) → Database → Request → Result Response
unfolding health_of
do_get ready db req = answered (
    if text_eq req.path (codes "/healthz")
    then ok (health_of ready)
    else if text_eq req.path (codes "/v1/zones")
    then (do ms ← metadata_of db (list_zones db); ok (send 200 (zones_body ms)))
    else get_parts db req.parts)

-- `_set_retention`
unfoldable pub set_retention_route : Database → Text → Fields → ℕ → Result (Database × Response)
set_retention_route db name body ts = do
  zone ← canonical_zone_arg name
  retain ← retention_of (get_or_null (codes "retainVersions") body)
  db' ← set_retention db zone retain ts
  ok (db', send 200 (retention_body zone retain))

abbrev pub put_parts : Database → List Text → Fields → ℕ → Result (Database × Response)
put_parts db (v ∷ zs ∷ name ∷ what ∷ []) body ts =
    if is_zones v zs && text_eq what (codes "retention")
    then set_retention_route db name body ts
    else err no_endpoint
put_parts db _ body ts = err no_endpoint

-- `do_PUT`
unfoldable pub do_put : Database → Request → ℕ → Database × Result Response
unfolding set_retention_route
do_put db req ts =
    closed
      (kept db (do body ← read_json req.content_length req.payload; put_parts db req.parts body ts))

-- `do_DELETE`
abbrev pub do_delete : Response
do_delete =
    send 405 (error_body (record { code = method_not_allowed; http_status = 405; details = [] }))

unfoldable pub revoke_route : Database → Text → Text → ℕ → Result (Database × Response)
revoke_route db name key_id ts = do
  zone ← canonical_zone_arg name
  db' ← revoke_key db zone key_id ts
  ok (db', send 200 (revoked_body key_id ts))

abbrev ttl_in : ℤ → Result ℕ
ttl_in (pos n) = ok n
ttl_in (negsuc n) = err value_error

-- `int(soa.get("_ttl", 3600))`
abbrev pub soa_ttl : Fields → Result ℕ
soa_ttl fs = do z ← int_of (get_or (codes "_ttl") (whole (pos 3600)) fs); ttl_in z

abbrev pub no_names : Fault
no_names = invalid

abbrev pub published : Database × Result Reply → Database × Result Response
published (db, ok r) = (db, ok (send (if r.replayed then 200 else 201) (result_body r)))
published (db, err e) = (db, err e)

module _ (repr : Json → Text) (canonical_rdata : Text → Json → Text → Result (Text × Bytes))
    (json_serial : Text → ℕ) (sha256 : Text → Text) (secret : Bytes) (ts : ℕ) where
  abbrev pub soa_rdata : Fields → ℕ → Text → Result (Text × Bytes)
  soa_rdata fs serial zone =
      canonical_rdata (codes "SOA") (object (set (codes "serial") (whole (pos serial)) fs)) zone

  abbrev pub ns_rdata : Text → Text → Result (Text × Bytes)
  ns_rdata t zone =
      canonical_rdata (codes "NS") (object (field (codes "target") (str t) no_fields)) zone

  -- `_create_zone`
  unfoldable pub create_zone_route : Database → Fields → Result (Database × Response)
  create_zone_route db body = do
    c ← check_create repr body
    (db', meta) ←
        create_zone soa_rdata soa_ttl ns_rdata db c.zone c.serial (with_defaults c.soa)
          (map (str_of repr) c.servers) c.retain ts
    ok (db', send 201 (zone_body meta))

  -- `_install_key`
  unfoldable pub install_key_route : Database → Text → Fields → Result (Database × Response)
  install_key_route db name body = do
    zone ← canonical_zone_arg name
    key_id ← key_id_of repr (get_or_null (codes "keyId") body)
    key_name ← key_name_of repr (get_or_null (codes "keyName") body)
    expires_at ← expiry_of (get_or_null (codes "retireInSeconds") body) ts
    (db', key) ← install_key db zone key_id key_name expires_at secret ts
    ok (db', send 201 (key_body key))

  -- `_publish`
  unfoldable pub publish_route : Database → Text → Fields → Database × Result Response
  publish_route db name body = or_kept db (check_publish name body) λ c.
      or_kept db (norm_ops repr canonical_rdata c.zone c.changes) λ (ns, ops). published (
        publish canonical_rdata json_serial db c.zone c.request_id c.base_serial c.next_serial ops
          (sha256 (payload_of c.base_serial c.next_serial ns)) ts)

  abbrev pub post_parts : Database → List Text → Fields → Database × Result Response
  post_parts db (v ∷ zs ∷ []) body =
      if is_zones v zs then kept db (create_zone_route db body) else (db, err no_endpoint)
  post_parts db (v ∷ zs ∷ name ∷ what ∷ []) body =
      if is_zones v zs && text_eq what (codes "publish")
      then publish_route db name body
      else if is_zones v zs && text_eq what (codes "keys")
      then kept db (install_key_route db name body)
      else (db, err no_endpoint)
  post_parts db (v ∷ zs ∷ name ∷ what ∷ key_id ∷ verb ∷ []) body =
      if is_zones v zs && text_eq what (codes "keys") && text_eq verb (codes "revoke")
      then kept db (revoke_route db name key_id ts)
      else (db, err no_endpoint)
  post_parts db _ body = (db, err no_endpoint)

  -- `do_POST`
  unfoldable pub do_post : Database → Request → Database × Result Response
  unfolding create_zone_route install_key_route publish_route revoke_route
  do_post db req =
      closed
        (or_kept db (read_json req.content_length req.payload) λ body. post_parts db req.parts body)
