-- ===== src/Audit/Verify/Anchor.antt =====
-- What a report that is in order says: the log tells the history that the anchored root commits to.
use text.Mathlib.TextLemmas.{length-nil}
use land_record_digitalizati.Prelude.{
  ℕ, String, count, ◌≡◌, refl, ap, inl, inr, true, Option, none, some, List, [], ◌∷◌, map, arith,
  all, All, or_empty, last?, &&-eq-true, Option-cases, eq_iff,
}
use land_record_digitalizati.Audit.World.{World, IsHexDigest, TellsApart}
use land_record_digitalizati.Audit.Chain.{
  AuditEntry, Log, first_broken, shard_entries, shard_head, verify_shard, hash_of_last,
}
use land_record_digitalizati.Audit.Chain.Material.{body}
use land_record_digitalizati.Audit.Chain.History.{EntriesIn, first_broken-history, head-width}
use land_record_digitalizati.Audit.Merkle.{shards, current_shard_heads, compute_root}
use land_record_digitalizati.Audit.Merkle.Binding.{RootIn, compute_root-inj}
use land_record_digitalizati.Audit.Verify.{
  ChainRoot, finding, structural_findings, report_ok, verify_against_anchor,
}

module _ (w : World) where
  -- The chain of a shard recomputes from its start.
  abbrev pub IsSoundAt : Log → ℕ → Type 0
  IsSoundAt log s = first_broken w none (shard_entries log.entries s) ≡ none

  finding-ok :
      (log : Log) (s : ℕ) → (finding s (verify_shard w log s true)).ok ≡ true → IsSoundAt log s
  unfolding verify_shard
  finding-ok log s h = elim (Option-cases (first_broken w none (shard_entries log.entries s))) [
    | inl good ↦ good
    | inr (e, bad) ↦ absurd (ground arith)
  ]

  findings-ok :
      (log : Log) (ss : List ℕ)
      → all (λ f. f.ok) (map (λ s. finding s (verify_shard w log s true)) ss) ≡ true
      → All (IsSoundAt log) ss
  findings-ok log [] h = tt
  findings-ok log (s ∷ ss) h =
      let (one, rest) = &&-eq-true _ _ h in (finding-ok log s one, findings-ok log ss rest)

  -- The structural check passes only if every shard recomputes.
  pub structural_findings_sound :
      (log : Log) → all (λ f. f.ok) (structural_findings w log) ≡ true → All (IsSoundAt log) shards
  unfolding structural_findings
  structural_findings_sound log h = findings-ok log shards h

  sound-findings :
      (log : Log) (ss : List ℕ)
      → All (IsSoundAt log) ss
      → all (λ f. f.ok) (map (λ s. finding s (verify_shard w log s true)) ss) ≡ true
  unfolding verify_shard
  sound-findings log [] h = refl
  sound-findings log (s ∷ ss) h = rw h.0 (sound-findings log ss h.1)

  pub sound-structural_findings :
      (log : Log) → All (IsSoundAt log) shards → all (λ f. f.ok) (structural_findings w log) ≡ true
  unfolding structural_findings
  sound-structural_findings log h = sound-findings log shards h

  module _ (d : IsHexDigest w) (H : String → Type 0) (tells : TellsApart w H) where
    same_head :
        (es fs : List AuditEntry) (o p : Option String)
        → EntriesIn w H none es
        → EntriesIn w H none fs
        → first_broken w none es ≡ none
        → first_broken w none fs ≡ none
        → hash_of_last (last? es) ≡ o
        → hash_of_last (last? fs) ≡ p
        → or_empty o ≡ or_empty p
        → o ≡ p
    same_head es fs none none i j c k h g e = refl
    same_head es fs none (some q) i j c k h g e =
        absurd (omega (arith, ap count e, head-width w H fs d j k g, length-nil))
    same_head es fs (some q) none i j c k h g e =
        absurd (omega (arith, ap count e, head-width w H es d i c h, length-nil))
    same_head es fs (some q) (some r) i j c k h g e = ap some e

    -- The texts that the walk of a shard hashes are in the set.
    abbrev pub ShardIn : Log → ℕ → Type 0
    ShardIn log s = EntriesIn w H none (shard_entries log.entries s)

    -- The rows of a shard tell the same history in both logs.
    abbrev pub SameHistory : Log → Log → ℕ → Type 0
    SameHistory a b s =
        map (body w) (shard_entries a.entries s) ≡ map (body w) (shard_entries b.entries s)

    shard_history :
        (a b : Log) (s : ℕ)
        → ShardIn a s
        → ShardIn b s
        → IsSoundAt a s
        → IsSoundAt b s
        → or_empty (shard_head a s) ≡ or_empty (shard_head b s)
        → SameHistory a b s
    unfolding shard_head
    shard_history a b s i j c k h =
        first_broken-history w H (shard_entries a.entries s) (shard_entries b.entries s) d tells i j
          c k
          (same_head (shard_entries a.entries s) (shard_entries b.entries s) _ _ i j c k refl refl
            h)

    histories :
        (a b : Log) (ss : List ℕ)
        → All (ShardIn a) ss
        → All (ShardIn b) ss
        → All (IsSoundAt a) ss
        → All (IsSoundAt b) ss
        → All (λ s. or_empty (shard_head a s) ≡ or_empty (shard_head b s)) ss
        → All (SameHistory a b) ss
    histories a b [] i j c k h = tt
    histories a b (s ∷ ss) i j c k h =
        (shard_history a b s i.0 j.0 c.0 k.0 h.0, histories a b ss i.1 j.1 c.1 k.1 h.1)

-- Every text that the verification of a log hashes, for the entries, the heads and the tree, is in
-- the set.
pub record HashesIn (w : World) (H : String → Type 0) (log : Log) : Type 0 where
  pub root : RootIn w H log
  pub chains : All (λ s. EntriesIn w H none (shard_entries log.entries s)) shards

report-parts :
    (w : World) (log : Log) (rolls : List ChainRoot) (trusted : String)
    → report_ok (verify_against_anchor w log rolls (some trusted)) ≡ true
    → (all (λ f. f.ok) (structural_findings w log) ≡ true)
      × (compute_root w (current_shard_heads log) ≡ trusted)
unfolding report_ok verify_against_anchor
report-parts w log rolls trusted h =
    ground (arith, eq_iff (compute_root w (current_shard_heads log)) trusted)

-- Let a root be rolled from a log whose shards all recompute, and let a later state of the tables
-- pass verification against that root. If no two of the texts that the two verifications hash have
-- one digest, and digests have 64 characters and do not begin with a bar, then every shard of that
-- state has the entries of the log from which the root was rolled, in their order, with the same
-- actor, action, subject, purpose, value hash and time joined into the same text.
pub report_ok-history :
    (w : World) (anchored log : Log) (rolls : List ChainRoot) (H : String → Type 0)
    → IsHexDigest w
    → TellsApart w H
    → HashesIn w H anchored
    → HashesIn w H log
    → all (λ f. f.ok) (structural_findings w anchored) ≡ true
    → report_ok
        (verify_against_anchor w log rolls (some (compute_root w (current_shard_heads anchored))))
      ≡ true
    → All
        (λ s.
          map (body w) (shard_entries log.entries s)
          ≡ map (body w) (shard_entries anchored.entries s))
        shards
report_ok-history w anchored log rolls H d tells i j honest report =
    let (good, root) =
      report-parts w log rolls (compute_root w (current_shard_heads anchored)) report in
    histories w d H tells log anchored shards j.chains i.chains
      (structural_findings_sound w log good) (structural_findings_sound w anchored honest)
      (compute_root-inj w d H tells log anchored j.root i.root root)
