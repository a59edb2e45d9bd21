-- ===== src/Service/Walk.antt =====
-- The service touches the key table by `install_key` and `revoke_key` alone: a relation between
-- databases that both keep to, and that goes by the key table, is kept to by every event.
use ab_bedd4c0e_tsig_bugfix.Prelude.{
  ℕ, ◌≡◌, refl, sym, ap, ◌∙◌, ◌&&◌, Option, List, [], ◌∷◌, Bool-cases, inl, inr, map,
}
use ab_bedd4c0e_tsig_bugfix.Errors.{Result, ok, err, ◌>>=◌, >>=-eq-ok, ok-inj}
use ab_bedd4c0e_tsig_bugfix.Text.{Text, Bytes, codes, text_eq}
use ab_bedd4c0e_tsig_bugfix.Json.{Json, Fields, get_or_null, str_of}
use ab_bedd4c0e_tsig_bugfix.Storage.Tables.{Database, KeyRow}
use ab_bedd4c0e_tsig_bugfix.Storage.Keys.{install_key, revoke_key}
use ab_bedd4c0e_tsig_bugfix.Storage.Cleanup.{set_retention}
use ab_bedd4c0e_tsig_bugfix.Storage.Publish.{Reply, publish}
use ab_bedd4c0e_tsig_bugfix.Canonical.{canonical_zone_arg}
use ab_bedd4c0e_tsig_bugfix.Canonical.Rdata.{canonical_rdata}
use ab_bedd4c0e_tsig_bugfix.Server.Handlers.Connection.{tcp_handle-keys}
use ab_bedd4c0e_tsig_bugfix.Server.Handlers.{tcp_handle}
use ab_bedd4c0e_tsig_bugfix.Cleaner.{run_once}
use ab_bedd4c0e_tsig_bugfix.Api.Request.{
  read_json, check_create, with_defaults, retention_of, key_id_of, key_name_of, expiry_of,
  check_publish,
}
use ab_bedd4c0e_tsig_bugfix.Api.Fingerprint.{norm_ops, payload_of}
use ab_bedd4c0e_tsig_bugfix.Storage.Zones.{create_zone}
use ab_bedd4c0e_tsig_bugfix.Api.Response.{Response, Request, kept, or_kept, closed}
use ab_bedd4c0e_tsig_bugfix.Api.Routes.{
  soa_ttl, soa_rdata, ns_rdata, is_zones, put_parts, post_parts, published, set_retention_route,
  revoke_route, create_zone_route, install_key_route, publish_route, do_post, do_put,
}
use ab_bedd4c0e_tsig_bugfix.Service.{Event, post, put, connection, cleanup, Outside, serve}
use ab_bedd4c0e_tsig_bugfix.Service.Tables.{
  run_once-keys, set_retention-keys, create_zone-keys, publish-keys,
}

module _ (R : Database → Database → Type 0)
    (same : (db db' : Database) → db'.keys ≡ db.keys → R db db')
    (by_install : (db : Database) (zone key_id : Text) (key_name : Option Text)
        (expires_at : Option ℕ) (secret : Bytes) (ts : ℕ) (db' : Database) (key : KeyRow)
      → install_key db zone key_id key_name expires_at secret ts ≡ ok (db', key)
      → R db db')
    (by_revoke : (db : Database) (zone key_id : Text) (ts : ℕ) (db' : Database)
      → revoke_key db zone key_id ts ≡ ok db'
      → R db db') where
  kept-keeps :
      (db : Database) (r : Result (Database × Response))
      → ((db' : Database) (resp : Response) → r ≡ ok (db', resp) → R db db')
      → R db (kept db r).0
  kept-keeps db (ok (db', resp)) h = h db' resp refl
  kept-keeps db (err e) h = same db db refl

  or_kept-keeps {ℓ} :
      {A : Type ℓ} (db : Database) (r : Result A) (next : A → Database × Result Response)
      → ((a : A) → r ≡ ok a → R db (next a).0)
      → R db (or_kept db r next).0
  or_kept-keeps db (ok a) next h = h a refl
  or_kept-keeps db (err e) next h = same db db refl

  closed-keeps : (db : Database) (p : Database × Result Response) → R db p.0 → R db (closed p).0
  closed-keeps db (db', r) h = h

  ended :
      (db db2 db' : Database) (r resp : Response)
      → ◌≡◌ {A = Result (Database × Response)} (ok (db2, r)) (ok (db', resp))
      → db2.keys ≡ db.keys
      → R db db'
  ended db db2 db' r resp h e =
      same db db' (sym (ap (λ (p : Database × Response). p.0.keys) (ok-inj h)) ∙ e)

  set_retention_route-keeps :
      (db : Database) (name : Text) (body : Fields) (ts : ℕ) (db' : Database) (resp : Response)
      → set_retention_route db name body ts ≡ ok (db', resp)
      → R db db'
  unfolding set_retention_route
  set_retention_route-keeps db name body ts db' resp h =
      let (zone, e1, h1) = >>=-eq-ok (canonical_zone_arg name) _ h in
      let (retain, e2, h2) =
        >>=-eq-ok (retention_of (get_or_null (codes "retainVersions") body)) _ h1 in
      let (db2, e3, h3) = >>=-eq-ok (set_retention db zone retain ts) _ h2 in
      ended db db2 db' _ resp h3 (set_retention-keys db zone retain ts db2 e3)

  revoke_route-keeps :
      (db : Database) (name key_id : Text) (ts : ℕ) (db' : Database) (resp : Response)
      → revoke_route db name key_id ts ≡ ok (db', resp)
      → R db db'
  unfolding revoke_route
  revoke_route-keeps db name key_id ts db' resp h =
      let (zone, e1, h1) = >>=-eq-ok (canonical_zone_arg name) _ h in
      let (db2, e2, h2) = >>=-eq-ok (revoke_key db zone key_id ts) _ h1 in
      let same : db2 ≡ db' = ap (λ (p : Database × Response). p.0) (ok-inj h2) in
      rw same at (by_revoke db zone key_id ts db2 e2)

  put_parts-keeps :
      (db : Database) (parts : List Text) (body : Fields) (ts : ℕ) (db' : Database)
      (resp : Response)
      → put_parts db parts body ts ≡ ok (db', resp)
      → R db db'
  put_parts-keeps db [] body ts db' resp h = cc
  put_parts-keeps db (v ∷ []) body ts db' resp h = cc
  put_parts-keeps db (v ∷ zs ∷ []) body ts db' resp h = cc
  put_parts-keeps db (v ∷ zs ∷ name ∷ []) body ts db' resp h = cc
  put_parts-keeps db (v ∷ zs ∷ name ∷ what ∷ []) body ts db' resp h =
      elim (Bool-cases (is_zones v zs && text_eq what (codes "retention"))) [
        | inl e ↦ set_retention_route-keeps db name body ts db' resp (rw e at h)
        | inr e ↦ cc (rw e at h)
      ]
  put_parts-keeps db (v ∷ zs ∷ name ∷ what ∷ more ∷ rest) body ts db' resp h = cc

  do_put-keeps : (db : Database) (req : Request) (ts : ℕ) → R db (do_put db req ts).0
  unfolding do_put
  do_put-keeps db req ts =
      let put_body : Fields → Result (Database × Response) =
        λ body. put_parts db req.parts body ts in
      let read = read_json req.content_length req.payload in
      closed-keeps db (kept db (read >>= put_body)) (
        kept-keeps db (read >>= put_body) λ db' resp h.
          (let (body, e, h1) = >>=-eq-ok read put_body h in
            put_parts-keeps db req.parts body ts db' resp h1))

  published-keeps :
      (db : Database) (p : Database × Result Reply) → p.0.keys ≡ db.keys → R db (published p).0
  published-keeps db (db', ok r) e = same db db' e
  published-keeps db (db', err f) e = same db db' e

  module _ (repr : Json → Text) (canonical : Text → Json → Text → Result (Text × Bytes))
      (json_serial : Text → ℕ) (sha256 : Text → Text) (secret : Bytes) (ts : ℕ) where
    install_key_route-keeps :
        (db : Database) (name : Text) (body : Fields) (db' : Database) (resp : Response)
        → install_key_route repr canonical json_serial sha256 secret ts db name body
          ≡ ok (db', resp)
        → R db db'
    unfolding install_key_route
    install_key_route-keeps db name body db' resp h =
        let (zone, e1, h1) = >>=-eq-ok (canonical_zone_arg name) _ h in
        let (key_id, e2, h2) = >>=-eq-ok (key_id_of repr (get_or_null (codes "keyId") body)) _ h1 in
        let (key_name, e3, h3) =
          >>=-eq-ok (key_name_of repr (get_or_null (codes "keyName") body)) _ h2 in
        let (expires_at, e4, h4) =
          >>=-eq-ok (expiry_of (get_or_null (codes "retireInSeconds") body) ts) _ h3 in
        let ((db2, key), e5, h5) =
          >>=-eq-ok (install_key db zone key_id key_name expires_at secret ts) _ h4 in
        let same : db2 ≡ db' = ap (λ (p : Database × Response). p.0) (ok-inj h5) in
        rw same at (by_install db zone key_id key_name expires_at secret ts db2 key e5)

    publish_route-keeps :
        (db : Database) (name : Text) (body : Fields)
        → R db (publish_route repr canonical json_serial sha256 secret ts db name body).0
    unfolding publish_route
    publish_route-keeps db name body = or_kept-keeps db (check_publish name body) _ λ c e.
        or_kept-keeps db (norm_ops repr canonical c.zone c.changes) _ λ ops f.
          published-keeps db
            (publish canonical json_serial db c.zone c.request_id c.base_serial c.next_serial ops.1
              (sha256 (payload_of c.base_serial c.next_serial ops.0)) ts)
            (publish-keys canonical json_serial db c.zone c.request_id c.base_serial c.next_serial
              ops.1 (sha256 (payload_of c.base_serial c.next_serial ops.0)) ts _ refl)

    create_zone_route-keeps :
        (db : Database) (body : Fields) (db' : Database) (resp : Response)
        → create_zone_route repr canonical json_serial sha256 secret ts db body ≡ ok (db', resp)
        → R db db'
    unfolding create_zone_route
    create_zone_route-keeps db body db' resp h =
        let (c, e1, h1) = >>=-eq-ok (check_create repr body) _ h in
        let soa_of = soa_rdata repr canonical json_serial sha256 secret ts in
        let ns_of = ns_rdata repr canonical json_serial sha256 secret ts in
        let targets = map (str_of repr) c.servers in
        let ((db2, meta), e2, h2) =
          >>=-eq-ok
            (create_zone soa_of soa_ttl ns_of db c.zone c.serial (with_defaults c.soa) targets
              c.retain ts)
            _ h1 in
        ended db db2 db' _ resp h2 (
          create_zone-keys soa_of soa_ttl ns_of db c.zone c.serial (with_defaults c.soa) targets
            c.retain ts db2 meta e2)

    create_at_keeps :
        (db : Database) (v zs : Text) (body : Fields)
        → R db (post_parts repr canonical json_serial sha256 secret ts db (v ∷ zs ∷ []) body).0
    create_at_keeps db v zs body = elim (Bool-cases (is_zones v zs)) [
      | inl e ↦ rw e (kept-keeps db _ (create_zone_route-keeps db body))
      | inr e ↦ rw e (same db db refl)
    ]

    zone_at_keeps :
        (db : Database) (v zs name what : Text) (body : Fields)
        → R db
            (post_parts repr canonical json_serial sha256 secret ts db
              (v ∷ zs ∷ name ∷ what ∷ [])
              body).0
    zone_at_keeps db v zs name what body =
        elim (Bool-cases (is_zones v zs && text_eq what (codes "publish"))) [
          | inl e ↦ rw e (publish_route-keeps db name body)
          | inr e ↦ elim (Bool-cases (is_zones v zs && text_eq what (codes "keys"))) [
            | inl f ↦ rw (e, f) (kept-keeps db _ (install_key_route-keeps db name body))
            | inr f ↦ rw (e, f) (same db db refl)
          ]
        ]

    revoke_at_keeps :
        (db : Database) (v zs name what key_id verb : Text) (body : Fields)
        → R db
            (post_parts repr canonical json_serial sha256 secret ts db
              (v ∷ zs ∷ name ∷ what ∷ key_id ∷ verb ∷ [])
              body).0
    revoke_at_keeps db v zs name what key_id verb body =
        elim (Bool-cases
          (is_zones v zs && text_eq what (codes "keys") && text_eq verb (codes "revoke"))) [
            | inl e ↦ rw e (kept-keeps db _ (revoke_route-keeps db name key_id ts))
            | inr e ↦ rw e (same db db refl)
          ]

    post_parts-keeps :
        (db : Database) (parts : List Text) (body : Fields)
        → R db (post_parts repr canonical json_serial sha256 secret ts db parts body).0
    post_parts-keeps db [] body = same db db refl
    post_parts-keeps db (v ∷ []) body = same db db refl
    post_parts-keeps db (v ∷ zs ∷ []) body = create_at_keeps db v zs body
    post_parts-keeps db (v ∷ zs ∷ n ∷ []) body = same db db refl
    post_parts-keeps db (v ∷ zs ∷ n ∷ w ∷ []) body = zone_at_keeps db v zs n w body
    post_parts-keeps db (v ∷ zs ∷ n ∷ w ∷ k ∷ []) body = same db db refl
    post_parts-keeps db (v ∷ zs ∷ n ∷ w ∷ k ∷ x ∷ []) body = revoke_at_keeps db v zs n w k x body
    post_parts-keeps db (v ∷ zs ∷ n ∷ w ∷ k ∷ x ∷ y ∷ more) body = same db db refl

    do_post-keeps :
        (db : Database) (req : Request)
        → R db (do_post repr canonical json_serial sha256 secret ts db req).0
    unfolding do_post
    do_post-keeps db req =
        let post_body = post_parts repr canonical json_serial sha256 secret ts db req.parts in
        let read = read_json req.content_length req.payload in
        closed-keeps db (or_kept db read post_body)
          (or_kept-keeps db read post_body λ body e. post_parts-keeps db req.parts body)

  pub serve-keeps : (o : Outside) (e : Event) (db : Database) → R db (serve o e db)
  unfolding serve
  serve-keeps o (post secret ts req) db =
      do_post-keeps o.repr (canonical_rdata o.repr o.compressed o.packed) o.json_serial o.sha256
        secret ts db req
  serve-keeps o (put ts req) db = do_put-keeps db req ts
  serve-keeps o (connection now when ts ref_id conn) db =
      same db (tcp_handle o.hmac now when ts o.instance_id ref_id o.budget db conn).0
        (tcp_handle-keys o.hmac now when ts o.instance_id ref_id o.budget db conn)
  serve-keeps o (cleanup token now now_ms) db =
      same db (run_once db token now now_ms).0 (run_once-keys db token now now_ms)
