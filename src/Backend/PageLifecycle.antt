-- ===== src/Backend/PageLifecycle.antt =====
-- services/backend/src/backend/domain/page_lifecycle.py, and `record_page_processed` of audit_log.py.
use land_record_digitalizati.Prelude.{
  ℕ, String, Bool, true, false, ◌&&◌, Option, none, some, List, [], ◌∷◌, map, filter, find, any,
  all, ◌==◌, if◌then◌else◌, same_text,
}
use land_record_digitalizati.Audit.World.{World}
use land_record_digitalizati.Audit.Chain.{
  AuditEntry, Request, shard_for, shard_key_for, truthy, in_shard,
}
use land_record_digitalizati.Backend.Entities.{Batch, SourceDocument, Page, Extraction}
use land_record_digitalizati.Backend.Session.{Session, M, ok, entry, audit_append, ◌>>◌, pure}
use land_record_digitalizati.Backend.Policy.{is_valid_outcome}

abbrev batch_district : Session → Option SourceDocument → Option String
batch_district s none = none
batch_district s (some doc) = elim (find (λ (b : Batch). b.id == doc.batch_id) s.batches) [
  | none ↦ none
  | some b ↦ some b.district
]

unfoldable pub district_for_page : Session → String → Option String
district_for_page s page_id = elim (find (λ (p : Page). p.id == page_id) s.pages) [
  | none ↦ none
  | some page ↦
      batch_district s (find (λ (d : SourceDocument). d.id == page.document_id) s.documents)
]

-- `shard_key_for(district=district) if district else None`
abbrev pub district_key : Option String → Option String
district_key d = if truthy d then some (shard_key_for d none) else none

-- The shard of a page's own entries.
unfoldable pub page_shard : World → String → Option String → ℕ
page_shard w page_id district =
    if truthy district then shard_for w (shard_key_for district none) else shard_for w page_id

abbrev pub is_processed_entry : ℕ → String → AuditEntry → Bool
is_processed_entry shard page_id e =
    in_shard shard e && (e.action == "page.processed" && same_text e.subject (some page_id))

unfoldable pub already_processed : World → Session → String → Option String → Bool
already_processed w s page_id district =
    any (is_processed_entry (page_shard w page_id district) page_id) s.log.entries

abbrev pub page_processed : String → Option String → Request
page_processed page_id district =
    record (entry "system:decision-engine" "page.processed" (some page_id) none) {
      shard_key = district_key district;
      district = district;
    }

unfoldable pub record_page_processed : World → String → Option String → M (Unit {0})
record_page_processed w page_id district = audit_append w (page_processed page_id district)

abbrev pub on_page : String → Extraction → Bool
on_page page_id x = x.page_id == page_id

-- The routing outcomes of the fields of a page.
abbrev pub page_outcomes : Session → String → List (Option String)
page_outcomes s page_id =
    map (λ (x : Extraction). x.routing_outcome) (filter (on_page page_id) s.extractions)

-- There are outcomes, and each is one of the five.
abbrev pub all_terminal : List (Option String) → Bool
all_terminal [] = false
all_terminal (o ∷ os) = all is_valid_outcome (o ∷ os)

unfoldable pub mark_processed_if_terminal : World → String → M Bool
unfolding record_page_processed
mark_processed_if_terminal w page_id s =
    let district = district_for_page s page_id in
    if already_processed w s page_id district
    then (ok false, s)
    else if all_terminal (page_outcomes s page_id)
    then (record_page_processed w page_id district >> pure true) s
    else (ok false, s)
