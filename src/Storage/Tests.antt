-- ===== src/Storage/Tests.antt =====
-- An object that is put into an empty store and read back.
use land_record_digitalizati.Prelude.{none, ◌≡◌, refl, inl}
use land_record_digitalizati.Audit.World.{World}
use land_record_digitalizati.Storage.LocalFs.{ok, Files, PutResult, key_for, put}
use land_record_digitalizati.Storage.LocalFs.Contents.{NoSlash, Kept, put-Kept}

abbrev world : World
world = record { sha256 = λ s. "ab12cd"; uuid4 = λ n. "u"; clock = λ n. n; isoformat = λ n. "t" }

abbrev nothing : Files
nothing path = none

key : key_for "ab12cd" ≡ "sha256/ab/12/ab12cd"
unfolding key_for
key = refl

no_slash : NoSlash "ab12cd"
unfolding NoSlash
no_slash = (refl, (refl, (refl, (refl, (refl, (refl, tt))))))

put-Kept_example :
    (r : PutResult × Files) × (put world "deed" nothing ≡ ok r) × Kept world "deed" nothing r
put-Kept_example = put-Kept world "deed" nothing no_slash (inl refl)
