-- ===== src/Storage/Tables.antt =====
-- The tables of migrations/0001_init.sql as app/storage.py uses them, and the SQL statements over
-- them: SELECT, UPDATE … WHERE and DELETE … WHERE with a Boolean test on rows.
pub mod Laws
use ab_bedd4c0e_tsig_bugfix.Prelude.{
  ℕ, ◌≡◌, refl, Bool, true, false, not, ◌&&◌, Option, none, some, List, [], ◌∷◌, ◌++◌, ◌==◌,
  if◌then◌else◌, Bool-cases, inl, inr,
}
use ab_bedd4c0e_tsig_bugfix.Errors.{
  ErrorCode, zone_not_found, ApiError, Detail, Result, ok, err, api,
}
use ab_bedd4c0e_tsig_bugfix.Text.{Text, Bytes, text_eq}

pub record ZoneRow : Type 0 where
  pub name : Text
  pub current_serial : ℕ
  pub current_version : ℕ
  pub retain_versions : ℕ
  pub record_count : ℕ
  pub rrset_count : ℕ
  pub created_at : ℕ
  pub updated_at : ℕ

pub record VersionRow : Type 0 where
  pub zone : Text
  pub version_id : ℕ
  pub serial : ℕ
  pub request_id : Text
  pub created_at : ℕ

pub record RecordRow : Type 0 where
  pub zone : Text
  pub version_id : ℕ
  pub name : Text
  pub rtype : Text
  pub ttl : ℕ
  pub rdata : Text
  pub rdata_wire : Bytes

pub data ChangeOp : Type 0 where
  del add : ChangeOp

pub record ChangeRow : Type 0 where
  pub zone : Text
  pub version_id : ℕ
  pub seq : ℕ
  pub op : ChangeOp
  pub name : Text
  pub rtype : Text
  pub ttl : ℕ
  pub rdata : Text
  pub rdata_wire : Bytes

pub data KeyState : Type 0 where
  active retiring revoked : KeyState

pub record KeyRow : Type 0 where
  pub zone : Text
  pub key_id : Text
  pub gen : ℕ
  pub key_name : Text
  pub secret : Bytes
  pub state : KeyState
  pub created_at : ℕ
  pub expires_at : Option ℕ
  pub revoked_at : Option ℕ

pub data RefState : Type 0 where
  is_open is_done : RefState

pub record RefRow : Type 0 where
  pub ref_id : Text
  pub zone : Text
  pub instance_id : Text
  pub version_id : ℕ
  pub min_version : ℕ
  pub key_gen : ℕ
  pub started_at : ℕ
  pub last_seen : ℕ
  pub state : RefState

pub data TaskState : Type 0 where
  pending running finished : TaskState

pub record TaskRow : Type 0 where
  pub task_id : ℕ
  pub zone : Text
  pub state : TaskState
  pub token : Option Text
  pub leased_at : Option ℕ
  pub lease_expires : Option ℕ
  pub attempts : ℕ
  pub last_error : Option Text
  pub created_at : ℕ
  pub finished_at : Option ℕ

pub data RequestStatus : Type 0 where
  committed failed : RequestStatus

-- The code, the message, the status and the details of the error are one column here.
pub record RequestRow : Type 0 where
  pub zone : Text
  pub request_id : Text
  pub fingerprint : Text
  pub status : RequestStatus
  pub version_id : Option ℕ
  pub serial : Option ℕ
  pub error : Option ApiError
  pub base_serial : ℕ
  pub next_serial : ℕ
  pub created_at : ℕ

pub record Database : Type 0 where
  pub zones : List ZoneRow
  pub versions : List VersionRow
  pub records : List RecordRow
  pub changes : List ChangeRow
  pub publish_requests : List RequestRow
  pub keys : List KeyRow
  pub transfer_refs : List RefRow
  pub cleanup_tasks : List TaskRow
  -- the value that AUTOINCREMENT gives next
  pub next_task : ℕ

-- `SELECT * … WHERE p`
unfoldable pub select {ℓ} : {A : Type ℓ} → (A → Bool) → List A → List A
select p [] = []
select p (r ∷ rs) = if p r then r ∷ select p rs else select p rs

-- `DELETE … WHERE p`
unfoldable pub delete {ℓ} : {A : Type ℓ} → (A → Bool) → List A → List A
delete p [] = []
delete p (r ∷ rs) = if p r then delete p rs else r ∷ delete p rs

-- `UPDATE … SET f WHERE p`
unfoldable pub update {ℓ} : {A : Type ℓ} → (A → Bool) → (A → A) → List A → List A
update p f [] = []
update p f (r ∷ rs) = (if p r then f r else r) ∷ update p f rs

-- `ORDER BY`
unfoldable pub insert_by {ℓ} : {A : Type ℓ} → (A → A → Bool) → A → List A → List A
insert_by le a [] = a ∷ []
insert_by le a (b ∷ bs) = let rest = insert_by le a bs in if le a b then a ∷ b ∷ bs else b ∷ rest

unfoldable pub order_by {ℓ} : {A : Type ℓ} → (A → A → Bool) → List A → List A
unfolding insert_by
order_by le [] = []
order_by le (a ∷ as') = insert_by le a (order_by le as')

-- `.fetchone()`
abbrev pub fetchone {ℓ} : {A : Type ℓ} → List A → Option A
fetchone [] = none
fetchone (r ∷ rs) = some r

-- `if ….fetchone():`
abbrev pub found {ℓ} : {A : Type ℓ} → List A → Bool
found [] = false
found (r ∷ rs) = true

abbrev pub plain_error : ErrorCode → ℕ → ApiError
plain_error code status = record { code = code; http_status = status; details = [] }

abbrev of_zone_row : Option ZoneRow → Result ZoneRow
of_zone_row none = err (api (plain_error zone_not_found 404))
of_zone_row (some z) = ok z

unfoldable pub get_zone_row : Database → Text → Result ZoneRow
get_zone_row db zone = of_zone_row (fetchone (select (λ z. text_eq z.name zone) db.zones))
