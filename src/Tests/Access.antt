-- ===== src/Tests/Access.antt =====
-- Runs of the theorems on granted transfers and their records at concrete inputs.
use ab_bedd4c0e_tsig_bugfix.Storage.Keys.{revoke_key, has_id, revoke, retire}
use ab_bedd4c0e_tsig_bugfix.Server.Access.{resolve_in_tx, newest}
use ab_bedd4c0e_tsig_bugfix.Server.Access.Revoked.{resolve_in_tx-revoke_key}
use ab_bedd4c0e_tsig_bugfix.Tests.Store.{rotated, fresh_key}
use ab_bedd4c0e_tsig_bugfix.Storage.Tables.{Database, get_zone_row, update}
use ab_bedd4c0e_tsig_bugfix.Wire.Query.{Tsig}
use ab_bedd4c0e_tsig_bugfix.Prelude.{false, ◌%◌, ◌^◌, ◌≡◌, refl, true, none, some, List, [], ◌∷◌}
use ab_bedd4c0e_tsig_bugfix.Errors.{ok}
use ab_bedd4c0e_tsig_bugfix.Text.{
  text_leb, Bytes, codes, text_eq, lower, lower_char, rstrip_dots, split_dots,
}
use ab_bedd4c0e_tsig_bugfix.Storage.Tables.{order_by, ZoneRow, select, delete, fetchone}
use ab_bedd4c0e_tsig_bugfix.Storage.Transfers.{pin_transfer}
use ab_bedd4c0e_tsig_bugfix.Wire.Names.{encode_name, encode_labels, encode_label}
use ab_bedd4c0e_tsig_bugfix.Wire.Names.RoundTrip.{normal}
use ab_bedd4c0e_tsig_bugfix.Wire.Bytes.{pack_h, pack_i, pack_hhih, pack_hih, pack_hhh}
use ab_bedd4c0e_tsig_bugfix.Wire.Tsig.{
  build_header, patch_arcount, pack_time, tsig_rdata, tsig_variables, tsig_rr, type_axfr,
  verify_tsig_time, pack_rr, check_u32,
}
use ab_bedd4c0e_tsig_bugfix.Wire.Query.{Query, parse_query}
use ab_bedd4c0e_tsig_bugfix.Client.Authority.{authority_of}
use ab_bedd4c0e_tsig_bugfix.Client.{question_wire, build_tsig_query}
use ab_bedd4c0e_tsig_bugfix.Server.Access.{axfr, Plan, has_name, is_live, authorize_transfer}
use ab_bedd4c0e_tsig_bugfix.Server.Access.Granted.{plan_of, IsGranted, authorize_transfer-IsGranted}
use ab_bedd4c0e_tsig_bugfix.Server.Access.Secondary.{signed_axfr_granted}
use ab_bedd4c0e_tsig_bugfix.Server.Transfer.{axfr_rr_stream, type_by_name, rr_wire}
use ab_bedd4c0e_tsig_bugfix.Server.Transfer.Streams.{IsAxfr, axfr_rr_stream-IsAxfr}
use ab_bedd4c0e_tsig_bugfix.Tests.{digest}
use ab_bedd4c0e_tsig_bugfix.Tests.Store.{zone, zone_row, old_key, db}

abbrev pub msg : Bytes
msg =
    0 ∷ 7 ∷ 1 ∷ 0 ∷ 0 ∷ 1 ∷ 0 ∷ 0 ∷ 0 ∷ 0 ∷ 0 ∷ 1 ∷ 7 ∷ 101 ∷ 120 ∷ 97 ∷ 109 ∷ 112 ∷ 108 ∷ 101 ∷ 0
    ∷ 0 ∷ 252 ∷ 0 ∷ 1 ∷ 2 ∷ 107 ∷ 49 ∷ 0 ∷ 0 ∷ 250 ∷ 0 ∷ 255 ∷ 0 ∷ 0 ∷ 0 ∷ 0 ∷ 0 ∷ 31 ∷ 11 ∷ 104
    ∷ 109 ∷ 97 ∷ 99 ∷ 45 ∷ 115 ∷ 104 ∷ 97 ∷ 50 ∷ 53 ∷ 54 ∷ 0 ∷ 0 ∷ 0 ∷ 101 ∷ 83 ∷ 241 ∷ 0 ∷ 1 ∷ 44
    ∷ 0 ∷ 2 ∷ 6 ∷ 42 ∷ 0 ∷ 7 ∷ 0 ∷ 0 ∷ 0 ∷ 0 ∷ []

msg-built :
    build_tsig_query digest 7
      (codes "Example.")
      type_axfr
      (codes "K1")
      (1 ∷ 2 ∷ 3 ∷ [])
      1700000000
      300
      []
    ≡ ok msg
unfolding build_tsig_query build_header question_wire patch_arcount tsig_variables tsig_rr pack_time
    tsig_rdata encode_name encode_labels encode_label text_eq lower lower_char rstrip_dots
    split_dots pack_h pack_i pack_hhih pack_hih pack_hhh
msg-built = refl

abbrev plan : Plan
plan = plan_of zone_row (codes "k1.") (1 ∷ 2 ∷ 3 ∷ []) 7 (codes "new") (some axfr) 2

abbrev rrs : List Bytes
rrs =
    (7 ∷ 101 ∷ 120 ∷ 97 ∷ 109 ∷ 112 ∷ 108 ∷ 101 ∷ 0 ∷ 0 ∷ 6 ∷ 0 ∷ 1 ∷ 0 ∷ 0 ∷ 14 ∷ 16 ∷ 0 ∷ 2 ∷ 1
      ∷ 2 ∷ [])
    ∷ (1 ∷ 97 ∷ 7 ∷ 101 ∷ 120 ∷ 97 ∷ 109 ∷ 112 ∷ 108 ∷ 101 ∷ 0 ∷ 0 ∷ 1 ∷ 0 ∷ 1 ∷ 0 ∷ 0 ∷ 0 ∷ 60 ∷ 0
        ∷ 4 ∷ 10 ∷ 0 ∷ 0 ∷ 1 ∷ [])
    ∷ (7 ∷ 101 ∷ 120 ∷ 97 ∷ 109 ∷ 112 ∷ 108 ∷ 101 ∷ 0 ∷ 0 ∷ 6 ∷ 0 ∷ 1 ∷ 0 ∷ 0 ∷ 14 ∷ 16 ∷ 0 ∷ 2 ∷ 1
        ∷ 2 ∷ [])
    ∷ []

axfr_rr_stream-rrs : axfr_rr_stream db plan ≡ ok rrs
unfolding axfr_rr_stream rr_wire type_by_name order_by text_leb select delete text_eq pack_rr
    check_u32 encode_name encode_labels encode_label lower lower_char rstrip_dots split_dots
    pack_hhih
axfr_rr_stream-rrs = refl

axfr_rr_stream-IsAxfr_example : IsAxfr db plan rrs
axfr_rr_stream-IsAxfr_example = axfr_rr_stream-IsAxfr db plan rrs axfr_rr_stream-rrs

no_authority : authority_of (codes "Example.") none ≡ ok []
unfolding authority_of
no_authority = refl

zone_found :
    fetchone (select (λ (r : ZoneRow). text_eq r.name (normal (codes "Example."))) db.zones)
    ≡ some zone_row
unfolding select text_eq lower lower_char rstrip_dots normal
zone_found = refl

key_found : select is_live (select (has_name zone (normal (codes "K1"))) db.keys) ≡ old_key ∷ []
unfolding select text_eq lower lower_char rstrip_dots normal
key_found = refl

in_time : verify_tsig_time (1700000000 % 2 ^ 48) 300 1700000100 ≡ true
unfolding verify_tsig_time
in_time = refl

abbrev Granted : Type 0
Granted =
    (q : Query) × (parse_query msg ≡ ok q)
    × (authorize_transfer digest 1700000100 1700000100000 (codes "i") (codes "new") db q
        ≡ ok (
          pin_transfer db zone (codes "i") 2 2 0 (codes "new") 1700000100000,
          plan_of zone_row (normal (codes "K1")) (1 ∷ 2 ∷ 3 ∷ []) 7 (codes "new") (some axfr) 2,
        ))

signed_axfr_granted_example : Granted
signed_axfr_granted_example =
    signed_axfr_granted digest 1700000100 1700000100000 (codes "i") (codes "new") db 7
      (codes "Example.") (codes "K1") (1 ∷ 2 ∷ 3 ∷ []) 1700000000 300 none [] msg zone_row old_key
      no_authority msg-built zone_found key_found refl refl in_time

grant : Granted
grant =
    signed_axfr_granted digest 1700000100 1700000100000 (codes "i") (codes "new") db 7
      (codes "Example.") (codes "K1") (1 ∷ 2 ∷ 3 ∷ []) 1700000000 300 none [] msg zone_row old_key
      no_authority msg-built zone_found key_found refl refl in_time

authorize_transfer-IsGranted_example :
    IsGranted digest 1700000100 1700000100000
      (codes "i")
      (codes "new")
      db
      grant.0
      (pin_transfer db zone (codes "i") 2 2 0 (codes "new") 1700000100000)
      (plan_of zone_row (normal (codes "K1")) (1 ∷ 2 ∷ 3 ∷ []) 7 (codes "new") (some axfr) 2)
authorize_transfer-IsGranted_example =
    authorize_transfer-IsGranted digest 1700000100 1700000100000 (codes "i") (codes "new") db
      grant.0 (pin_transfer db zone (codes "i") 2 2 0 (codes "new") 1700000100000)
      (plan_of zone_row (normal (codes "K1")) (1 ∷ 2 ∷ 3 ∷ []) 7 (codes "new") (some axfr) 2)
      grant.2

abbrev pub after_revoke : Database
after_revoke = record rotated { keys = revoke 100 (retire 9000 old_key) ∷ fresh_key ∷ [] }

revoke_key-after : revoke_key rotated zone (codes "k1") 100 ≡ ok after_revoke
unfolding revoke_key get_zone_row select update text_eq
revoke_key-after = refl

abbrev entry : Tsig
entry = record {
  name = codes "k2";
  rdata = record {
    algorithm = codes "hmac-sha256.";
    time = 1000;
    fudge = 300;
    mac = [];
    orig_id = 7;
    error = 0;
    other = [];
  };
}

resolve_in_tx-fresh : resolve_in_tx after_revoke zone entry 1100 ≡ ok fresh_key
unfolding resolve_in_tx newest select text_eq verify_tsig_time
resolve_in_tx-fresh = refl

resolve_in_tx-revoke_key_example : has_id zone (codes "k1") fresh_key ≡ false
resolve_in_tx-revoke_key_example =
    resolve_in_tx-revoke_key rotated zone (codes "k1") 100 after_revoke entry 1100 fresh_key
      revoke_key-after resolve_in_tx-fresh
