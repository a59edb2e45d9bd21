-- ===== src/Errors.antt =====
-- app/errors.py, and the results of fallible code: the API's errors, the codec's `WireError` and the
-- standard library's exceptions. Human-readable messages are left out; codes, statuses and details
-- stay.
use ab_bedd4c0e_tsig_bugfix.Prelude.{ℕ, Bool, Option, String, List, ◌≡◌, refl}

-- `class ErrorCode`
pub data ErrorCode : Type 0 where
  internal malformed_json validation_error limit_exceeded method_not_allowed not_found : ErrorCode
  zone_not_found zone_already_exists name_out_of_zone : ErrorCode
  version_conflict idempotency_conflict serial_invalid serial_undecidable : ErrorCode
  zone_invalid changeset_invalid : ErrorCode
  key_not_found no_active_key key_state_invalid request_not_found : ErrorCode
  dns_formerr dns_servfail dns_notimp dns_refused transfer_denied transfer_protocol : ErrorCode

-- A value of an error's `details`.
pub data Detail : Type 0 where
  num : ℕ → Detail
  text : List ℕ → Detail
  flag : Bool → Detail

-- `class ApiError`
pub record ApiError : Type 0 where
  pub code : ErrorCode
  pub http_status : ℕ
  pub details : List (String × Detail)

-- What a call may raise. `out_of_fuel` is no exception of the program: it is what a bounded loop of
-- the model gives when its bound is too small.
pub data Fault : Type 0 where
  wire_error unicode_error struct_error value_error type_error integrity_error assertion_error :
      Fault
  key_error overflow_error : Fault
  out_of_fuel : Fault
  -- an `OSError` of a socket
  os_error : Fault
  api : ApiError → Fault
  -- `_TransferDenied`, with its TSIG error and server time
  denied : Option ℕ → Option ℕ → Fault

pub data Result {ℓ} (A : Type ℓ) : Type ℓ where
  ok : A → Result A
  err : Fault → Result A

-- An exception ends the block it is raised in.
infixl 5 ◌>>=◌ ◌>>◌
abbrev pub ◌>>=◌ {ℓ ℓ'} : {T : Type ℓ} {U : Type ℓ'} → Result T → (T → Result U) → Result U
err raised >>= next = err raised
ok value >>= next = next value

abbrev pub ◌>>◌ {ℓ} : {U : Type ℓ} → Result (Unit {0}) → Result U → Result U
check >> next = check >>= λ done. next

-- `if bad: raise e`
abbrev pub raise_if : Bool → Fault → Result (Unit {0})
raise_if Bool.true e = err e
raise_if Bool.false e = ok tt

-- Inversion of a successful bind.
pub >>=-eq-ok {ℓ ℓ'} :
    {T : Type ℓ} {U : Type ℓ'} (r : Result T) (next : T → Result U) {end : U}
    → (r >>= next) ≡ ok end
    → (value : T) × (r ≡ ok value) × (next value ≡ ok end)
>>=-eq-ok (err raised) next h = cc
>>=-eq-ok (ok value) next h = (value, refl, h)

pub raise_if-eq-ok : (b : Bool) (e : Fault) → raise_if b e ≡ ok tt → b ≡ Bool.false
raise_if-eq-ok Bool.true e h = cc
raise_if-eq-ok Bool.false e h = refl

-- `try: … except WireError: pass`, with what stands when the exception is passed over
abbrev pub except_wire {ℓ} : {A : Type ℓ} → Result A → A → Result A
except_wire (ok a) d = ok a
except_wire (err wire_error) d = ok d
except_wire (err e) d = err e

-- Binds agree if their continuations agree.
pub >>=-ext {ℓ κ} :
    {A : Type ℓ} {B : Type κ} (m : Result A) (f g : A → Result B)
    → ((a : A) → f a ≡ g a)
    → (m >>= f) ≡ (m >>= g)
>>=-ext (ok a) f g h = h a
>>=-ext (err e) f g h = refl

-- A check that is passed.
pub raise_if->>-eq-ok {ℓ} :
    {U : Type ℓ} (b : Bool) (e : Fault) (next : Result U) {end : U}
    → (raise_if b e >> next) ≡ ok end
    → (b ≡ Bool.false) × (next ≡ ok end)
raise_if->>-eq-ok Bool.true e next h = cc
raise_if->>-eq-ok Bool.false e next h = (refl, h)

pub ok-inj {ℓ} : {T : Type ℓ} {a b : T} → ok a ≡ ok b → a ≡ b
ok-inj h = cc
