-- ===== src/History/Interceptor.antt =====
-- shell/internal/history/interceptor.go: the interceptor that records destructive commands. The store
-- and the snapshotter are operations on a world.
pub mod Redacted
use aish.Prelude.{
  ℕ, Bool, true, false, ◌||◌, Option, none, some, List, [], ◌∷◌, ◌++◌, map, if◌then◌else◌, Text,
  codes, text_eq,
}
use aish.Prelude.Int.{ℤ}
use aish.Parser.{Command, Pipeline}
use aish.History.Detect.{is_destructive, rename_targets, target_paths}
use aish.Shell.State.{Interceptor}

-- A row of a snapshot: its path, whether it was skipped, and whether it holds no bytes.
pub record Affected : Type 0 where
  pub path : Text
  pub op : Text
  pub snapshot_dir : Text

pub record Event : Type 0 where
  pub id : Text
  pub timestamp : ℕ
  pub command : Text
  pub cwd : Text
  pub affected : List Affected

-- The snapshotter, the store, which says whether it succeeds, new ids, the clock, the directory, and
-- the canonical form of a path in a directory.
pub record Services (W : Type 0) : Type 0 where
  pub snapshot_move : Text → Text → W → List Affected × W
  pub snapshot_many : List Text → W → List Affected × W
  pub append : Event → W → Bool × W
  pub finalize : Text → ℤ → ℕ → W → Bool × W
  pub new_event_id : W → Text × W
  pub now : W → ℕ × W
  pub current_cwd : W → Text
  pub canonical : Text → Text → Text

-- What notify writes.
pub data Notified : Type 0 where
  skipped_path : Text → Notified
  append_failed finalize_failed : Notified

-- The struct, with the rest of the world.
pub record History (W : Type 0) : Type 0 where
  pub pending : Text
  pub notices : List Notified
  pub outer : W

abbrev pub redacted_tainted : Text
redacted_tainted = codes "[REDACTED:tainted]"

-- recordCommand
unfoldable pub record_command : Pipeline → Text → Text
record_command pl line = if pl.tainted then redacted_tainted else line

unfoldable pub has_mv : List Command → Bool
unfolding text_eq
has_mv [] = false
has_mv (c ∷ cs) = text_eq c.name (codes "mv") || has_mv cs

-- The notices of the skipped rows.
unfoldable pub skipped_notices : List Affected → List Notified
unfolding text_eq
skipped_notices [] = []
skipped_notices (r ∷ recs) =
    let rest = skipped_notices recs in
    if text_eq r.op (codes "skipped") then skipped_path r.path ∷ rest else rest

module _ {W : Type 0} (srv : Services W) where
  -- The loop over the pairs of RenameTargets.
  unfoldable pub snapshot_moves : Text → List (Text × Text) → W → List Affected × W
  snapshot_moves cwd [] w = ([], w)
  snapshot_moves cwd ((src, dst) ∷ pairs) w =
      let (recs, w₁) = srv.snapshot_move (srv.canonical cwd src) (srv.canonical cwd dst) w in
      let (more, w₂) = snapshot_moves cwd pairs w₁ in (recs ++ more, w₂)

  -- The rows of a destructive pipeline.
  unfoldable pub snapshots : Pipeline → W → List Affected × W
  unfolding snapshot_moves rename_targets target_paths has_mv
  snapshots pl w =
      let cwd = srv.current_cwd w in
      let (moved, w₁) = snapshot_moves cwd (rename_targets pl) w in
      if has_mv pl.commands
      then (moved, w₁)
      else (let (more, w₂) = srv.snapshot_many (map (srv.canonical cwd) (target_paths pl)) w₁ in
          (moved ++ more, w₂))

  -- From the construction of the event on.
  unfoldable pub append_event : Text → List Affected → History W → History W
  unfolding skipped_notices
  append_event command recs h =
      let (id, w₁) = srv.new_event_id h.outer in
      let (time, w₂) = srv.now w₁ in
      let (stored, w₃) =
        srv.append
          (record {
            id = id;
            timestamp = time;
            command = command;
            cwd = srv.current_cwd w₂;
            affected = recs;
          })
          w₂ in
      let notices = h.notices ++ skipped_notices recs in
      if stored
      then record { pending = id; notices = notices; outer = w₃ }
      else record { pending = []; notices = notices ++ append_failed ∷ []; outer = w₃ }

  -- Before
  unfoldable pub before : Pipeline → Text → History W → Bool × History W
  unfolding is_destructive snapshots append_event record_command
  before pl line h =
      if is_destructive pl
      then (let (recs, w) = snapshots pl h.outer in
          (false, append_event (record_command pl line) recs (record h { outer = w })))
      else (false, record h { pending = [] })

  finalized : Bool × W → History W → History W
  finalized (true, w) h = record h { pending = []; outer = w }
  finalized (false, w) h = record {
    pending = [];
    notices = h.notices ++ finalize_failed ∷ [];
    outer = w;
  }

  -- After
  unfoldable pub after : Pipeline → Text → ℤ → ℕ → History W → History W
  unfolding finalized
  after pl line code dur h = elim h.pending [
    | [] ↦ h
    | c ∷ id ↦ finalized (srv.finalize (c ∷ id) code dur h.outer) h
  ]

  abbrev pub history : Interceptor (History W)
  history = record { before = before; after = after }
