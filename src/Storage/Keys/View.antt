-- ===== src/Storage/Keys/View.antt =====
-- An abstract view of the key table, the state of each key id in each zone, with the steps that it may
-- take.
use ab_bedd4c0e_tsig_bugfix.Prelude.{◌≡◌, false, ◌&&◌, Option, none, some, List, if◌then◌else◌}
use ab_bedd4c0e_tsig_bugfix.Text.{Text, text_eq}
use ab_bedd4c0e_tsig_bugfix.Storage.Tables.{
  Database, KeyRow, KeyState, active, retiring, revoked, select, fetchone,
}
use ab_bedd4c0e_tsig_bugfix.Storage.Keys.{is_revoked, has_id}

-- The state of the key with this id, if the zone has one.
abbrev pub View : Type 0
View = Text → Text → Option KeyState

abbrev pub state_of_row : Option KeyRow → Option KeyState
state_of_row none = none
state_of_row (some k) = some k.state

abbrev pub state_in : List KeyRow → View
state_in ks zone key_id = state_of_row (fetchone (select (has_id zone key_id) ks))

abbrev pub view : Database → View
view db = state_in db.keys

abbrev pub retired : Option KeyState → Option KeyState
retired (some active) = some retiring
retired s = s

-- The view after an installation, and after a revocation.
abbrev pub with_installed : Text → Text → View → View
with_installed zone key_id v z i =
    if text_eq z zone then if text_eq i key_id then some active else retired (v z i) else v z i

abbrev pub with_revoked : Text → Text → View → View
with_revoked zone key_id v z i = if text_eq z zone && text_eq i key_id then some revoked else v z i

-- The steps that the view may take: none; a new id becomes ACTIVE and whatever was ACTIVE in its zone
-- becomes RETIRING; an id that is not REVOKED becomes REVOKED.
pub data Step (v w : View) : Type 0 where
  stays : ((z i : Text) → w z i ≡ v z i) → Step v w
  installs :
      (zone key_id : Text)
      → v zone key_id ≡ none
      → ((z i : Text) → w z i ≡ with_installed zone key_id v z i)
      → Step v w
  revokes :
      (zone key_id : Text) (s : KeyState)
      → v zone key_id ≡ some s
      → is_revoked s ≡ false
      → ((z i : Text) → w z i ≡ with_revoked zone key_id v z i)
      → Step v w
