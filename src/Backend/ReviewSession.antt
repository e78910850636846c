-- ===== src/Backend/ReviewSession.antt =====
-- services/backend/src/backend/domain/review_session.py: how long an officer has been at work.
use land_record_digitalizati.Prelude.{
  ℕ, ◌-◌, ◌*◌, ◌/◌, String, Bool, not, ◌&&◌, Option, none, some, List, [], ◌∷◌, ◌++◌, map, filter,
  leb, ltb, ◌==◌, is_some, if◌then◌else◌,
}
use land_record_digitalizati.Audit.World.{World}
use land_record_digitalizati.Backend.Entities.{ReviewSession, ℤ, pos, negsuc}
use land_record_digitalizati.Backend.Session.{Session, M, pure, gets, modify, ◌>>=◌, ◌>>◌, fresh}
use land_record_digitalizati.Backend.Policy.{review_session_gap, second}

abbrev pub open_for : String → ReviewSession → Bool
open_for actor r = r.actor == actor && not (is_some r.ended_at)

-- `ORDER BY started_at DESC`, first row
unfoldable pub latest_session : List ReviewSession → Option ReviewSession
latest_session [] = none
latest_session (r ∷ rs) = elim (latest_session rs) [
  | none ↦ some r
  | some q ↦ some (if ltb r.started_at q.started_at then q else r)
]

-- The gap is longer than allowed; a clock that went back gives no gap.
abbrev pub is_stale : ℕ → ReviewSession → Bool
is_stale now r = ltb review_session_gap (now - r.last_activity_at)

abbrev pub update_session : String → (ReviewSession → ReviewSession) → Session → Session
update_session id f s = record s {
  review_sessions = map (λ r. if r.id == id then f r else r) s.review_sessions;
}

abbrev close_session : ReviewSession → ReviewSession
close_session r = record r { ended_at = some r.last_activity_at }

abbrev touched : ℕ → ReviewSession → ReviewSession
touched now r = record r { last_activity_at = now }

abbrev add_session : ReviewSession → Session → Session
add_session r s = record s { review_sessions = s.review_sessions ++ r ∷ [] }

abbrev new_session : World → String → ℕ → ℕ → ReviewSession
new_session w actor now tick = record {
  id = w.uuid4 tick;
  actor = actor;
  started_at = now;
  last_activity_at = now;
  ended_at = none;
}

unfoldable pub start_session : World → String → ℕ → M ReviewSession
unfolding fresh
start_session w actor now = do
  tick ← fresh
  modify (add_session (new_session w actor now tick))
  pure (new_session w actor now tick)

unfoldable pub continue_session : World → String → ℕ → Option ReviewSession → M ReviewSession
unfolding start_session
continue_session w actor now none = start_session w actor now
continue_session w actor now (some r) =
    if is_stale now r
    then modify (update_session r.id close_session) >> start_session w actor now
    else modify (update_session r.id (touched now)) >> pure (touched now r)

-- `int((now - started_at).total_seconds() // 3600)`, rounded down.
unfoldable pub hours_since : ℕ → ℕ → ℤ
hours_since started now =
    if leb started now
    then pos ((now - started) / (3600 * second))
    else negsuc ((started - now - 1) / (3600 * second))

unfoldable pub touch_session : World → String → M (ReviewSession × ℤ)
unfolding fresh continue_session latest_session
touch_session w actor = do
  tick ← fresh
  current ← gets (λ s. latest_session (filter (open_for actor) s.review_sessions))
  r ← continue_session w actor (w.clock tick) current
  pure (r, hours_since r.started_at (w.clock tick))
