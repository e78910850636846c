-- ===== src/Audit/World.antt =====
-- What the program takes from outside: SHA-256, the clock and the random identifiers.
use land_record_digitalizati.Prelude.{ℕ, ◌+◌, ◌<◌, String, ◌<>◌, count, ◌≡◌, ◌≢◌}

-- The n-th reading of the clock and of `uuid.uuid4` are values of a sequence, so that a run of the
-- program is a function of them. Times are counted in microseconds from an epoch.
pub record World : Type 0 where
  -- `hashlib.sha256(text.encode()).hexdigest()`
  pub sha256 : String → String
  -- `str(uuid.uuid4())`
  pub uuid4 : ℕ → String
  -- `datetime.now(timezone.utc)`
  pub clock : ℕ → ℕ
  -- `datetime.isoformat()`
  pub isoformat : ℕ → String

-- A hexadecimal digest has 64 characters, none of them a bar.
pub record IsHexDigest (w : World) : Type 0 where
  pub width : (s : String) → count (w.sha256 s) ≡ 64
  pub no_bar : (s t : String) → w.sha256 s ≢ "|" <> t

-- No two texts of a set have one digest.
abbrev pub TellsApart : World → (String → Type 0) → Type 0
TellsApart w H = (a b : String) → H a → H b → w.sha256 a ≡ w.sha256 b → a ≡ b

-- Each reading of the clock is later than the one before.
abbrev pub IsForward : World → Type 0
IsForward w = (n : ℕ) → w.clock n < w.clock (n + 1)
