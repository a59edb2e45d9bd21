-- ===== src/Server/Access/Contiguous.antt =====
-- When `_decide_ixfr` of app/dns_server.py chooses an incremental transfer: the count of the
-- versions between the client's and the target shows that none of them is missing.
use ab_bedd4c0e_tsig_bugfix.Prelude.{
  ℕ, ◌+◌, ◌-◌, ◌≤◌, ◌<◌, ◌≡◌, refl, arith, false, Option, none, some, ◌==◌, leb, length, Bool-cases,
  inl, inr, ◌↔◌, ==_iff,
}
use ab_bedd4c0e_tsig_bugfix.Text.{Text}
use ab_bedd4c0e_tsig_bugfix.Serial.{SerialRelation, equal, greater, less, undecidable, compare}
use ab_bedd4c0e_tsig_bugfix.Storage.Tables.{Database, VersionRow, select}
use ab_bedd4c0e_tsig_bugfix.Server.Access.{
  ixfr, version_by_serial, in_range, from_start, by_relation, decide_ixfr,
}
use ab_bedd4c0e_tsig_bugfix.Server.Access.Counting.{
  HasUniqueVersions, HasVersion, in_range_full, in_range_complete, has_version,
}

-- What an incremental transfer rests on: the client has the target's serial, or the version that
-- it has is known and older than the target, and each version behind it up to the target is there.
pub data HasHistory (db : Database) (zone : Text) (target_version target_serial : ℕ)
    : Option ℕ → Type 0 where
  up_to_date :
      {serial : ℕ}
      → compare serial target_serial ≡ equal
      → HasHistory db zone target_version target_serial (some serial)
  contiguous :
      {serial : ℕ} (start : VersionRow)
      → compare serial target_serial ≡ greater
      → version_by_serial db zone serial ≡ some start
      → start.version_id < target_version
      → ((v : ℕ) → start.version_id < v → v ≤ target_version → HasVersion db zone v)
      → HasHistory db zone target_version target_serial (some serial)

abbrev counted : Database → Text → ℕ → ℕ → ℕ
counted db zone low high = length (select (in_range zone low high) db.versions)

from_start-ixfr :
    (db : Database) (zone : Text) (target_version : ℕ) (o : Option VersionRow)
    → from_start db zone target_version o ≡ ixfr
    → (start : VersionRow) × (o ≡ some start)
      × (start.version_id < target_version)
      × (counted db zone start.version_id target_version ≡ target_version - start.version_id)
from_start-ixfr db zone target_version none h = cc
from_start-ixfr db zone target_version (some start) h =
    elim (Bool-cases (leb target_version start.version_id)) [
      | inl e ↦ cc (rw e at h)
      | inr e ↦
          elim (Bool-cases (
            counted db zone start.version_id target_version == target_version - start.version_id)) [
              | inl k ↦ (start, refl, ground (arith, e), (==_iff _ _).0 k)
              | inr k ↦ cc (rw (e, k) at h)
            ]
    ]

history-ixfr :
    (db : Database) (zone : Text) (target_version target_serial serial : ℕ)
    → HasUniqueVersions db zone
    → by_relation
        (compare serial target_serial)
        (from_start db zone target_version (version_by_serial db zone serial))
      ≡ ixfr
    → HasHistory db zone target_version target_serial (some serial)
history-ixfr db zone target_version target_serial serial u h =
    go (compare serial target_serial) refl h
  where
    go :
        (rel : SerialRelation)
        → compare serial target_serial ≡ rel
        → by_relation rel (from_start db zone target_version (version_by_serial db zone serial))
          ≡ ixfr
        → HasHistory db zone target_version target_serial (some serial)
    go equal e k = up_to_date e
    go greater e k =
        let (start, found, older, full) =
          from_start-ixfr db zone target_version (version_by_serial db zone serial) k in
        let span : start.version_id + (target_version - start.version_id) ≡ target_version =
          omega (arith, older) in
        contiguous start e found older (λ v l m. has_version db zone v (
          in_range_full db zone start.version_id (target_version - start.version_id) v u
            (rw span full) l (rw span m)))
    go less e k = cc
    go undecidable e k = cc

ixfr-history :
    (db : Database) (zone : Text) (target_version target_serial : ℕ) (client : Option ℕ)
    → HasUniqueVersions db zone
    → HasHistory db zone target_version target_serial client
    → decide_ixfr db zone target_version target_serial client ≡ ixfr
unfolding decide_ixfr
ixfr-history db zone target_version target_serial client u (up_to_date e) = rw e refl
ixfr-history db zone target_version target_serial client u (contiguous start e found older all) =
    let span : start.version_id + (target_version - start.version_id) ≡ target_version =
      omega (arith, older) in
    let full =
      in_range_complete db zone start.version_id (target_version - start.version_id) u
        (λ v l m. all v l (omega (arith, m, span))) in
    let same : counted db zone start.version_id target_version ≡ target_version - start.version_id =
      (rw span at full) in
    let not_older : leb target_version start.version_id ≡ false = ground (arith, older) in
    rw (e, found, not_older, (==_iff _ _).1 same) refl

-- In a zone that has each version in one row at most, an IXFR request is answered incrementally
-- exactly when the client's serial is the target's, or it stands in RFC 1982's order before the
-- target's, its version is known and older than the target, and not one of the versions after it up
-- to the target is missing; in all other cases the whole zone is sent.
pub decide_ixfr_iff :
    (db : Database) (zone : Text) (target_version target_serial : ℕ) (client : Option ℕ)
    → HasUniqueVersions db zone
    → (decide_ixfr db zone target_version target_serial client ≡ ixfr)
      ↔ HasHistory db zone target_version target_serial client
unfolding decide_ixfr
decide_ixfr_iff db zone target_version target_serial none u = (λ h. cc, λ h. elim h [ ])
decide_ixfr_iff db zone target_version target_serial (some serial) u = (
  history-ixfr db zone target_version target_serial serial u,
  ixfr-history db zone target_version target_serial (some serial) u,
)
