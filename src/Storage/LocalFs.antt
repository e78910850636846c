-- ===== src/Storage/LocalFs.antt =====
-- libs/storage/src/landstorage/port.py and drivers/local_fs.py: the store on a file system. A run has
-- the store to itself, so the second look at the path in `put` sees what the first one saw.
pub mod Contents
use land_record_digitalizati.Prelude.{
  ℕ, zero, suc, String, ◌<>◌, Bool, true, false, Option, none, some, ◌==◌, is_some, if◌then◌else◌,
}
use land_record_digitalizati.Audit.World.{World}
use land_record_digitalizati.Backend.Correction.{after_slash}

pub data StorageError : Type 0 where
  object_already_exists_with_different_content : StorageError
  key_error : StorageError

pub data Outcome (A : Type 0) : Type 0 where
  ok : A → Outcome A
  err : StorageError → Outcome A

-- The bytes of each path that is there.
abbrev pub Files : Type 0
Files = String → Option String

pub record PutResult : Type 0 where
  pub key : String
  pub digest : String
  pub created : Bool

-- `text[:n]` and `text[n:]`
unfoldable pub first_chars : ℕ → String → String
first_chars zero s = ""
first_chars (suc n) String.[] = ""
first_chars (suc n) (String.◌∷◌ c s) = String.◌∷◌ c (first_chars n s)

unfoldable pub later_chars : ℕ → String → String
later_chars zero s = s
later_chars (suc n) String.[] = ""
later_chars (suc n) (String.◌∷◌ c s) = later_chars n s

unfoldable pub key_for : String → String
unfolding first_chars later_chars
key_for digest =
    "sha256/"
    <> (first_chars 2 digest <> ("/" <> (first_chars 2 (later_chars 2 digest) <> ("/" <> digest))))

-- `digest_of`
abbrev pub digest_of : World → String → String
digest_of w data_bytes = w.sha256 data_bytes

abbrev pub written : String → String → Files → Files
written key bytes files path = if key == path then some bytes else files path

-- `put` by what stands at the key.
unfoldable pub put_at :
    String → String → String → Files → Option String → Outcome (PutResult × Files)
put_at key digest bytes files (some existing) =
    if existing == bytes
    then ok (record { key = key; digest = digest; created = false }, files)
    else err object_already_exists_with_different_content
put_at key digest bytes files none =
    ok (record { key = key; digest = digest; created = true }, written key bytes files)

unfoldable pub put : World → String → Files → Outcome (PutResult × Files)
unfolding put_at key_for
put w bytes files =
    let key = key_for (digest_of w bytes) in put_at key (digest_of w bytes) bytes files (files key)

-- `KeyError` for a path that is not there
unfoldable pub present_at : Option String → Outcome String
present_at none = err key_error
present_at (some bytes) = ok bytes

unfoldable pub get : String → Files → Outcome String
unfolding present_at
get key files = present_at (files key)

unfoldable pub exists : String → Files → Bool
exists key files = is_some (files key)

unfoldable pub same_digest : World → String → Outcome String → Outcome Bool
unfolding after_slash
same_digest w key (ok bytes) = ok (digest_of w bytes == after_slash key key)
same_digest w key (err e) = err e

unfoldable pub verify_fixity : World → String → Files → Outcome Bool
unfolding get same_digest
verify_fixity w key files = same_digest w key (get key files)
