-- ===== src/Projections/Histories.antt =====
-- Writers of a model, and the notifications by which its projection follows
-- (crates/atomo_projectors/src/current_state.rs, projector_manager.rs). A writer commits, and its
-- notification is on its way from then on; notifications are handled in any order, or lost: where a
-- listener lags, or the database fails while one is handled.
use atomo.Prelude.{string_key, ℕ, zero, suc, String, Option, none, some, List, [], ◌∷◌, get_elem?}
use atomo.Prelude.Map.{Map, insert, remove}
use atomo.Projections.{BaseRow, Result, ok}
use atomo.Projections.CurrentState.{Database, initialize_and_sync, refresh}

pub record World : Type 0 where
  pub database : Database
  pub pending : List String
  pub lost : List String

pub data Step : Type 0 where
  writes : String → Option BaseRow → Step
  handles : ℕ → Step
  loses : ℕ → Step
  syncs : Step

-- Events whose `id` is no text are passed over.
unfoldable pub handle_event : List String → Option String → Database → Result (Unit {0}) × Database
unfolding refresh
handle_event cs none d = (ok tt, d)
handle_event cs (some id) d = refresh cs id d

abbrev pub write : String → Option BaseRow → Map String BaseRow → Map String BaseRow
write id none source = remove id source
write id (some b) source = insert id b source

abbrev pub remove_at : ℕ → List String → List String
remove_at i [] = []
remove_at zero (x ∷ xs) = xs
remove_at (suc i) (x ∷ xs) = x ∷ remove_at i xs

abbrev pub handled : List String → ℕ → Option String → World → World
handled cs i none w = w
handled cs i (some id) w = record w {
  database = (handle_event cs (some id) w.database).1;
  pending = remove_at i w.pending;
}

abbrev pub dropped : ℕ → Option String → World → World
dropped i none w = w
dropped i (some id) w = record w { pending = remove_at i w.pending; lost = id ∷ w.lost }

unfoldable pub step : List String → Step → World → World
unfolding handle_event initialize_and_sync
step cs (writes id row) w = record w {
  database = record w.database { source = write id row w.database.source };
  pending = id ∷ w.pending;
}
step cs (handles i) w = handled cs i (get_elem? w.pending i) w
step cs (loses i) w = dropped i (get_elem? w.pending i) w
step cs syncs w = record w { database = (initialize_and_sync cs w.database).1 }

unfoldable pub run : List String → List Step → World → World
unfolding step
run cs [] w = w
run cs (s ∷ rest) w = run cs rest (step cs s w)

abbrev pub start : Database → World
start d = record { database = d; pending = []; lost = [] }

-- A projection is synchronised, and then the steps are taken.
abbrev pub followed : List String → List Step → Database → World
followed cs steps d = run cs steps (start (initialize_and_sync cs d).1)
