-- ===== src/Storage/Cleanup/Retention.antt =====
-- What `run_cleanup` never deletes: versions that are retained, that a live transfer may read, or of
-- other zones.
use Prim.Native.Nat.{max, min}
use ab_bedd4c0e_tsig_bugfix.Prelude.{
  ℕ, ◌+◌, ◌<◌, ◌≤◌, ◌≡◌, refl, ap, ◌∙◌, Bool, true, false, ◌&&◌, Option, none, some, List, [], ◌∷◌,
  ◌==◌, leb, map, arith, Bool-cases, inl, inr, ◌⊎◌,
}
use ab_bedd4c0e_tsig_bugfix.Text.{Text, text_eq}
use ab_bedd4c0e_tsig_bugfix.Text.Laws.{text_eq→eq}
use ab_bedd4c0e_tsig_bugfix.Storage.Tables.{
  Database, ZoneRow, VersionRow, RecordRow, ChangeRow, RefRow, TaskRow, select, delete, fetchone,
  found,
}
use ab_bedd4c0e_tsig_bugfix.Storage.Tables.Laws.{select-delete}
use ab_bedd4c0e_tsig_bugfix.Storage.Cleanup.{
  doomed, purge, candidates, clean_zone, run_cleanup, reap, pin_of, min_pin, min_or, coalesce,
  live_ref, dead_ref, sort_ids, insert_sorted,
}

-- The rows of one version.
abbrev pub version_at : Text → ℕ → VersionRow → Bool
version_at zone vid v = text_eq v.zone zone && v.version_id == vid

abbrev pub record_at : Text → ℕ → RecordRow → Bool
record_at zone vid r = text_eq r.zone zone && r.version_id == vid

abbrev pub change_at : Text → ℕ → ChangeRow → Bool
change_at zone vid c = text_eq c.zone zone && c.version_id == vid

-- Two databases have the same of a version: its row, its snapshot and its delta.
pub record IsSame (zone : Text) (vid : ℕ) (db db' : Database) : Type 0 where
  pub versions_eq :
      select (version_at zone vid) db'.versions ≡ select (version_at zone vid) db.versions
  pub records_eq : select (record_at zone vid) db'.records ≡ select (record_at zone vid) db.records
  pub changes_eq : select (change_at zone vid) db'.changes ≡ select (change_at zone vid) db.changes

-- None of these versions of one zone is that version of the other.
abbrev AllApart : Text → Text → ℕ → List ℕ → Type 0
AllApart zone other vid [] = Unit
AllApart zone other vid (w ∷ ws) =
    ((text_eq other zone ≡ false) ⊎ ((w == vid) ≡ false)) × AllApart zone other vid ws

apart_at :
    (zone other a : Text) (vid w x : ℕ)
    → (text_eq other zone ≡ false) ⊎ ((w == vid) ≡ false)
    → (text_eq a other && x == vid) ≡ true
    → (text_eq a zone && x == w) ≡ false
apart_at zone other a vid w x (inl e) h = elim (Bool-cases (text_eq a zone)) [
  | inl i ↦ ground (arith, text_eq→eq a other)
  | inr i ↦ rw i refl
]
apart_at zone other a vid w x (inr e) h = ground arith

purge-IsSame :
    (zone other : Text) (vid : ℕ) (ids : List ℕ) (db : Database)
    → AllApart zone other vid ids
    → IsSame other vid db (purge zone ids db)
unfolding purge
purge-IsSame zone other vid [] db a = record {
  versions_eq = refl;
  records_eq = refl;
  changes_eq = refl;
}
purge-IsSame zone other vid (w ∷ ids) db (here, there) =
    let same =
      purge-IsSame zone other vid ids
        (record db {
          records = delete (record_at zone w) db.records;
          changes = delete (change_at zone w) db.changes;
          versions = delete (version_at zone w) db.versions;
        })
        there in
    record {
      versions_eq =
          same.versions_eq
          ∙ select-delete (version_at other vid) (version_at zone w) db.versions
              (λ r e. apart_at zone other r.zone vid w r.version_id here e);
      records_eq =
          same.records_eq
          ∙ select-delete (record_at other vid) (record_at zone w) db.records
              (λ r e. apart_at zone other r.zone vid w r.version_id here e);
      changes_eq =
          same.changes_eq
          ∙ select-delete (change_at other vid) (change_at zone w) db.changes
              (λ r e. apart_at zone other r.zone vid w r.version_id here e);
    }

insert_sorted-AllApart :
    (zone other : Text) (vid w : ℕ) (ws : List ℕ)
    → (text_eq other zone ≡ false) ⊎ ((w == vid) ≡ false)
    → AllApart zone other vid ws
    → AllApart zone other vid (insert_sorted w ws)
unfolding insert_sorted
insert_sorted-AllApart zone other vid w [] h a = (h, tt)
insert_sorted-AllApart zone other vid w (x ∷ ws) h (here, there) = elim (Bool-cases (leb w x)) [
  | inl e ↦ rw e (h, (here, there))
  | inr e ↦ rw e (here, insert_sorted-AllApart zone other vid w ws h there)
]

sort_ids-AllApart :
    (zone other : Text) (vid : ℕ) (ws : List ℕ)
    → AllApart zone other vid ws
    → AllApart zone other vid (sort_ids ws)
unfolding sort_ids
sort_ids-AllApart zone other vid [] a = tt
sort_ids-AllApart zone other vid (w ∷ ws) (here, there) =
    insert_sorted-AllApart zone other vid w (sort_ids ws) here
      (sort_ids-AllApart zone other vid ws there)

-- A version that may not go: it is of another zone, or it is not doomed.
abbrev Spared : Text → Text → ZoneRow → ℕ → ℕ → Type 0
Spared zone other z pin vid = (text_eq other zone ≡ false) ⊎ (doomed z pin vid ≡ false)

Spared-apart :
    (zone other : Text) (z : ZoneRow) (pin vid w : ℕ) (b : Bool)
    → Spared zone other z pin vid
    → (b && doomed z pin w) ≡ true
    → (text_eq other zone ≡ false) ⊎ ((w == vid) ≡ false)
Spared-apart zone other z pin vid w b (inl e) h = inl e
Spared-apart zone other z pin vid w b (inr e) h = inr (ground arith)

ids-AllApart :
    (zone other : Text) (z : ZoneRow) (pin vid : ℕ) (vs : List VersionRow)
    → Spared zone other z pin vid
    → AllApart zone other vid (
        map
          (λ (v : VersionRow). v.version_id)
          (select (λ (v : VersionRow). text_eq v.zone zone && doomed z pin v.version_id) vs))
unfolding select
ids-AllApart zone other z pin vid [] h = tt
ids-AllApart zone other z pin vid (v ∷ vs) h =
    elim (Bool-cases (text_eq v.zone zone && doomed z pin v.version_id)) [
      | inl e ↦ rw e (
        Spared-apart zone other z pin vid v.version_id (text_eq v.zone zone) h e,
        ids-AllApart zone other z pin vid vs h,
      )
      | inr e ↦ rw e (ids-AllApart zone other z pin vid vs h)
    ]

candidates-AllApart :
    (zone other : Text) (z : ZoneRow) (pin vid : ℕ) (vs : List VersionRow)
    → Spared zone other z pin vid
    → AllApart zone other vid (candidates zone z pin vs)
candidates-AllApart zone other z pin vid vs h =
    sort_ids-AllApart zone other vid _ (ids-AllApart zone other z pin vid vs h)

-- The row that `run_cleanup` finds for the zone of its task.
abbrev pub zone_of : Database → Text → Option ZoneRow
zone_of db zone = fetchone (select (λ (z : ZoneRow). text_eq z.name zone) db.zones)

live-not_dead :
    (zone : Text) (now : ℕ) (r : RefRow) → live_ref zone now r ≡ true → dead_ref zone now r ≡ false
live-not_dead zone now r e = ground arith

pin_of-reap :
    (db : Database) (zone : Text) (now : ℕ)
    → pin_of (reap zone now db) zone now ≡ pin_of db zone now
pin_of-reap db zone now =
    ap (λ (rs : List RefRow). coalesce (min_pin rs))
      (select-delete (live_ref zone now) (dead_ref zone now) db.transfer_refs
        (live-not_dead zone now))

clean_zone-IsSame :
    (db : Database) (z : ZoneRow) (task : TaskRow) (now : ℕ) (other : Text) (vid : ℕ)
    → Spared task.zone other z (pin_of db task.zone now) vid
    → IsSame other vid db (clean_zone db z task now).0
unfolding clean_zone
clean_zone-IsSame db z task now other vid h =
    let same = purge-IsSame task.zone other vid _ (reap task.zone now db) (
      candidates-AllApart task.zone other z (pin_of (reap task.zone now db) task.zone now) vid
        db.versions (rw (pin_of-reap db task.zone now) h)) in
    record {
      versions_eq = same.versions_eq;
      records_eq = same.records_eq;
      changes_eq = same.changes_eq;
    }

run_cleanup-IsSame :
    (db : Database) (z : ZoneRow) (task : TaskRow) (now : ℕ) (other : Text) (vid : ℕ)
    → zone_of db task.zone ≡ some z
    → Spared task.zone other z (pin_of db task.zone now) vid
    → IsSame other vid db (run_cleanup db task now).0
unfolding run_cleanup
run_cleanup-IsSame db z task now other vid found h =
    rw found (clean_zone-IsSame db z task now other vid h)

not_doomed : (z : ZoneRow) (m vid : ℕ) → m ≤ vid → doomed z m vid ≡ false
not_doomed z m vid h = ground arith

-- A live pin of the zone whose transfer may read this version.
abbrev pub covers : Text → ℕ → ℕ → RefRow → Bool
covers zone now vid r = live_ref zone now r && leb (min r.version_id r.min_version) vid

min_or-le : (a vid : ℕ) (o : Option ℕ) → leb a vid ≡ true → min_or a o ≤ vid
min_or-le a vid none h = ground arith
min_or-le a vid (some b) h = ground arith

min_pin-covers :
    (zone : Text) (now vid : ℕ) (rs : List RefRow)
    → found (select (covers zone now vid) rs) ≡ true
    → (m : ℕ) × (min_pin (select (live_ref zone now) rs) ≡ some m) × (m ≤ vid)
unfolding select min_pin
min_pin-covers zone now vid [] h = cc
min_pin-covers zone now vid (r ∷ rs) h = elim (Bool-cases (live_ref zone now r)) [
  | inl e ↦ elim (Bool-cases (leb (min r.version_id r.min_version) vid)) [
    | inl i ↦ rw e (
      min_or (min r.version_id r.min_version) (min_pin (select (live_ref zone now) rs)),
      refl,
      min_or-le (min r.version_id r.min_version) vid (min_pin (select (live_ref zone now) rs)) i,
    )
    | inr i ↦
        let (m, k, l) = min_pin-covers zone now vid rs (rw (e, i) at h) in
        rw (e, k) (min (min r.version_id r.min_version) m, refl, omega (arith, l))
  ]
  | inr e ↦ rw e (min_pin-covers zone now vid rs (rw e at h))
]

-- A cleanup leaves the newest versions of its zone, as many as the zone retains and one at least,
-- as they are: their rows, their snapshots and their deltas.
pub run_cleanup-retained :
    (db : Database) (z : ZoneRow) (task : TaskRow) (now vid : ℕ)
    → zone_of db task.zone ≡ some z
    → z.current_version < vid + max 1 z.retain_versions
    → IsSame task.zone vid db (run_cleanup db task now).0
run_cleanup-retained db z task now vid e h =
    run_cleanup-IsSame db z task now task.zone vid e (inr (ground arith))

-- A cleanup leaves a version of its zone as it is if a live transfer, one that is open and was heard
-- of within the last 300 seconds, is pinned to it or to an older one.
pub run_cleanup-pinned :
    (db : Database) (z : ZoneRow) (task : TaskRow) (now vid : ℕ)
    → zone_of db task.zone ≡ some z
    → found (select (covers task.zone now vid) db.transfer_refs) ≡ true
    → IsSame task.zone vid db (run_cleanup db task now).0
run_cleanup-pinned db z task now vid e h =
    let (m, k, l) = min_pin-covers task.zone now vid db.transfer_refs h in
    run_cleanup-IsSame db z task now task.zone vid e (inr (rw k (not_doomed z m vid l)))

-- A cleanup leaves the versions of all other zones as they are.
pub run_cleanup-other_zone :
    (db : Database) (z : ZoneRow) (task : TaskRow) (now : ℕ) (other : Text) (vid : ℕ)
    → zone_of db task.zone ≡ some z
    → text_eq other task.zone ≡ false
    → IsSame other vid db (run_cleanup db task now).0
run_cleanup-other_zone db z task now other vid e h =
    run_cleanup-IsSame db z task now other vid e (inl h)
