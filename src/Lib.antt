-- ===== src/Lib.antt =====
-- The zone distribution service of app/: primary servers publish versions of a DNS zone, and
-- secondaries fetch them by AXFR and IXFR in messages that are authenticated by TSIG.
--
-- The parts and where they are modelled:
--   app/serial.py      Serial (SerialRelation, compare, is_forward), Serial.Order
--   app/errors.py      Errors (ErrorCode, ApiError), with the result type of all fallible code:
--                      `err wire_error` stands for a raised WireError, `err (api e)` for an ApiError
--   app/dnswire.py     Wire.Bytes (struct.pack and struct.unpack at the formats used), Wire.Names
--                      (encode_name, decode_name), Wire.Tsig (headers, records, TSIG records,
--                      parse_tsig_rdata, verify_tsig_time), Wire.Query (parse_query), Wire.Mac (the
--                      digests, sign_response), Wire.Response (error and simple responses)
--   app/dnsclient.py   Client (build_tsig_query, parse_message, verify_response_mac), with its proofs
--                      in Client.Layout, Authority, Accepted, Record, Signature and Verified
--   app/dns_server.py  Server.Packer (_rr_batches, _wrap, _frame), Server.Stream
--                      (_stream_signed_transfer)
--                      Server.Access (authorize_transfer, _resolve_in_tx, _decide_ixfr),
--                      Server.Transfer (the record streams, _handle_transfer), Server.Answer
--                      (answer_question, with find_zone_by_name of app/storage.py)
--   app/storage.py     Storage.Tables (the rows of migrations/0001_init.sql and SELECT, UPDATE and
--                      DELETE over them), Storage.Keys (install_key, revoke_key), Storage.Transfers
--                      (pins), Storage.Cleanup (claim_cleanup_task, run_cleanup)
--                      Storage.Changeset (_load_rrsets, _apply_ops, _validate_zone_invariants),
--                      Storage.Materialize (_materialize), Storage.Publish (publish and the
--                      ledger), with proofs in Storage.Changeset.Valid, Storage.Materialize.Rows and
--                      Storage.Publish.Writes, Ledger, Replay, Immutable
--   app/canonical.py   Canonical (names, times to live, the size limit)
--   app/dns_server.py  Server.Socket (_recv_exact, _read_message on what arrives), Server.Handlers (the UDP
--                      and TCP handlers), with proofs in Server.Socket.Ends, Server.Socket.Framing and
--                      Server.Handlers.Replies, Connection, Denial
--   app/storage.py     Storage.Zones (create_zone, zone_metadata, list_zones, get_soa, get_request,
--                      list_keys), with the proofs in Storage.Zones.Rows and Storage.Zones.Created;
--                      Storage.Keys.View is an abstract view of the key table and Storage.Keys.Lifecycle
--                      shows the operations on keys as steps of it
--   app/dnswire.py     Wire.Rdata (encode_rdata)
--   app/canonical.py   Canonical.Rdata (canonical_rdata, _u32), with its proofs in Canonical.Rdata.Targets,
--                      Canonical.Rdata.Again and Canonical.Rdata.Stable
--   app/api.py         Api.Request (_read_json and the checks of values, with valid_u32 of app/serial.py),
--                      Api.Fingerprint (canonical_fingerprint), Api.Response, Api.Routes (do_GET, do_POST,
--                      do_PUT, do_DELETE and what they call); Json holds the JSON values
--   app/cleaner.py     Cleaner (run_once)
--
-- Service puts the parts together: an event is a request, a connection or a round of the cleanup worker,
-- and a run is a list of events on one database. Service.Walk carries what both operations on keys keep
-- to through all handlers, and Service.Keys states it.
--
-- Prelude and Text hold what these share: lists with lengths over the native numbers, and Python's
-- strings as lists of code points. Tests runs the theorems at concrete inputs.
--
-- A transaction takes the database and gives the one after it; where it raises, the result is an
-- error with no database, since the code rolls back; a publish gives the database in both cases,
-- and a failure that its ledger keeps commits what the transaction has written by then.
--
-- How the code is rendered. Bytes and texts are lists of numbers. struct.pack fails on a number
-- that is too large, as in Python; reading past the end of a slice gives a shorter list.
-- HMAC-SHA256 is a parameter `hmac key block`, of which nothing is assumed. The loop of
-- decode_name runs on a bound, `rounds buf`: a position may be jumped to once, and between two
-- jumps the reader moves forward, so the loop ends within the square of the buffer's length. `err
-- out_of_fuel` stands for an exhausted bound and for nothing in the program.
--
-- What is left out: the endless loops of the servers and of the cleanup worker, threads, clocks
-- and random numbers (their values are arguments), log messages and the texts of error messages.
pub mod Prelude
pub mod Errors
pub mod Serial
pub mod Text
pub mod Wire
pub mod Client
pub mod Server
pub mod Canonical
pub mod Json
pub mod Api
pub mod Cleaner
pub mod Service
pub mod Storage
pub mod Tests
