-- ===== src/Service.antt =====
-- The whole service on one store: what a request to the HTTP interface, a TCP connection and a round
-- of the cleanup worker do to the database, one after the other. Every transaction is one step, as
-- SQLite has one writer at a time; the clock, the random values and what the standard library is asked
-- for are arguments.
pub mod Tables
pub mod Walk
pub mod Keys
use ab_bedd4c0e_tsig_bugfix.Prelude.{ℕ, Option, List, [], ◌∷◌}
use ab_bedd4c0e_tsig_bugfix.Errors.{Result}
use ab_bedd4c0e_tsig_bugfix.Text.{Text, Bytes}
use ab_bedd4c0e_tsig_bugfix.Json.{Json}
use ab_bedd4c0e_tsig_bugfix.Storage.Tables.{Database}
use ab_bedd4c0e_tsig_bugfix.Canonical.Rdata.{canonical_rdata}
use ab_bedd4c0e_tsig_bugfix.Server.Socket.{Arrival}
use ab_bedd4c0e_tsig_bugfix.Server.Handlers.{tcp_handle}
use ab_bedd4c0e_tsig_bugfix.Api.Response.{Request}
use ab_bedd4c0e_tsig_bugfix.Api.Routes.{do_post, do_put}
use ab_bedd4c0e_tsig_bugfix.Cleaner.{run_once}

-- What happens to the service, with the values that the clock and the random source give then.
pub data Event : Type 0 where
  post : Bytes → ℕ → Request → Event
  put : ℕ → Request → Event
  connection : ℕ → ℕ → ℕ → Text → List Arrival → Event
  cleanup : Text → ℕ → ℕ → Event

-- What the program takes from outside it.
pub record Outside : Type 0 where
  pub hmac : Bytes → Bytes → Bytes
  pub sha256 : Text → Text
  pub repr : Json → Text
  pub compressed : Text → Option Text
  pub packed : Text → Result Bytes
  pub json_serial : Text → ℕ
  pub instance_id : Text
  pub budget : ℕ

unfoldable pub serve : Outside → Event → Database → Database
serve o (post secret ts req) db =
    (do_post o.repr (canonical_rdata o.repr o.compressed o.packed) o.json_serial o.sha256 secret ts
      db req).0
serve o (put ts req) db = (do_put db req ts).0
serve o (connection now when ts ref_id conn) db =
    (tcp_handle o.hmac now when ts o.instance_id ref_id o.budget db conn).0
serve o (cleanup token now now_ms) db = (run_once db token now now_ms).0

unfoldable pub run : Outside → List Event → Database → Database
run o [] db = db
run o (e ∷ es) db = run o es (serve o e db)
