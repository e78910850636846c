-- ===== src/Backend/Decision/Replay.antt =====
-- The branches of `route`: what is refused, what is decided first, and what is replayed.
use land_record_digitalizati.Prelude.{
  String, ◌≡◌, refl, ap, ◌∙◌, true, false, Option, none, some, List, [], ◌∷◌, or_empty,
}
use land_record_digitalizati.Audit.World.{World}
use land_record_digitalizati.Backend.Entities.{Extraction, DecisionRecord}
use land_record_digitalizati.Backend.Session.{
  Session, Result, err, ◌>>=◌, or_raise, one_or_none, extraction_not_found, multiple_results_found,
  unroutable_extraction,
}
use land_record_digitalizati.Backend.Session.ReadsOnly.{ReadsOnly, reads_only_rules}
use land_record_digitalizati.Backend.Policy.{is_valid_outcome}
use land_record_digitalizati.Backend.Decision.{
  RouteResult, replay, route, route_known, route_by, route_first, route_decided, extraction_of,
  decisions_of,
}

module _ (w : World) (c env : Option String) (s : Session) where
  pub route-found :
      (id : String) (x : Extraction)
      → extraction_of id s ≡ some x
      → route w id c env s ≡ route_known w x c env s
  unfolding route
  route-found id x p =
      ap
        (λ (o : Option Extraction).
          (or_raise extraction_not_found o >>= λ y. route_known w y c env) s)
        p

  pub route-missing :
      (id : String) → extraction_of id s ≡ none → route w id c env s ≡ (err extraction_not_found, s)
  unfolding route
  route-missing id p =
      ap
        (λ (o : Option Extraction).
          (or_raise extraction_not_found o >>= λ y. route_known w y c env) s)
        p

  pub route_known-invalid :
      (x : Extraction)
      → is_valid_outcome x.routing_outcome ≡ false
      → route_known w x c env s ≡ (err unroutable_extraction, s)
  unfolding route_known
  route_known-invalid x p = rw p refl

  after_query : Extraction → List DecisionRecord → Result RouteResult × Session
  after_query x ds = (one_or_none ds >>= route_by w x (or_empty x.routing_outcome) c env) s

  route_known-valid :
      (x : Extraction)
      → is_valid_outcome x.routing_outcome ≡ true
      → route_known w x c env s ≡ after_query x (decisions_of x.id s)
  unfolding route_known after_query
  route_known-valid x p = rw p refl

  pub route_known-first :
      (x : Extraction)
      → is_valid_outcome x.routing_outcome ≡ true
      → decisions_of x.id s ≡ []
      → route_known w x c env s ≡ route_first w x (or_empty x.routing_outcome) c env s
  unfolding after_query one_or_none route_by
  route_known-first x p q = route_known-valid x p ∙ ap (after_query x) q

  pub route_known-decided :
      (x : Extraction) (d : DecisionRecord)
      → is_valid_outcome x.routing_outcome ≡ true
      → decisions_of x.id s ≡ d ∷ []
      → route_known w x c env s ≡ route_decided x (or_empty x.routing_outcome) d s
  unfolding after_query one_or_none route_by
  route_known-decided x d p q = route_known-valid x p ∙ ap (after_query x) q

-- A replay reads the tables and writes nothing, whatever it returns or raises.
replay-ReadsOnly : (x o : String) → ReadsOnly (replay x o)
unfolding replay
replay-ReadsOnly x o = search reads_only_rules depth 9

pub route_known-several :
    (w : World) (c env : Option String) (s : Session) (x : Extraction) (d e : DecisionRecord)
    (rest : List DecisionRecord)
    → is_valid_outcome x.routing_outcome ≡ true
    → decisions_of x.id s ≡ d ∷ e ∷ rest
    → route_known w x c env s ≡ (err multiple_results_found, s)
unfolding after_query one_or_none
route_known-several w c env s x d e rest p q =
    route_known-valid w c env s x p ∙ ap (after_query w c env s x) q

pub route_decided-ReadsOnly :
    (x : Extraction) (o : String) (d : DecisionRecord) → ReadsOnly (route_decided x o d)
unfolding route_decided
route_decided-ReadsOnly x o d = search (reads_only_rules, replay-ReadsOnly) depth 9
