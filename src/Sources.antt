-- ===== src/Sources.antt =====
-- pkg/sourceman/sourceman.go and pkg/source/main.go: the sources of components, their syncing and
-- their rollback. A source is a record of what it does to the state of the world.
pub mod Rollback
pub mod Remotes
use materia.Base.{
  String, Bool, true, false, not, ◌&&◌, Option, none, some, List, [], ◌∷◌, ◌++◌, ◌==◌,
  if◌then◌else◌,
}
use materia.Errors.{
  Error, Result, ok, err, rollback_unsupported, no_sync_report, rollback_to_nothing,
}

pub record SyncOpts : Type 0 where
  pub revision : String
  pub subpath : String

abbrev no_opts : SyncOpts
no_opts = record { revision = ""; subpath = "" }

pub record SyncReport : Type 0 where
  pub old_revision : String
  pub new_revision : String

unfoldable pub can_rollback : SyncReport → Bool
can_rollback r = not (r.old_revision == "")

module _ (S : Type 0) where
  pub record Source : Type 0 where
    pub sync : SyncOpts → S → S × Result SyncReport
    pub supports_rollback : Bool
    pub clean : S → S × Result (Unit {0})

  pub record SourcePlan : Type 0 where
    pub source : Source
    pub primary : Bool
    pub opts : Option SyncOpts
    pub report : Option SyncReport

-- what a call leaves: the world, the sources with their reports, and an error
abbrev pub Synced : Type 0 → Type 0
Synced S = S × (List (SourcePlan S) × Option Error)

unfoldable pub opts_or : Option SyncOpts → SyncOpts → SyncOpts
opts_or none o = o
opts_or (some o) _ = o

unfoldable pub subpath_of : Option SyncOpts → String
subpath_of none = ""
subpath_of (some o) = o.subpath

module _ {S : Type 0} where
  abbrev put_first : SourcePlan S → Synced S → Synced S
  put_first src (s, (srcs, e)) = (s, (src ∷ srcs, e))

  -- the source behind a call that gives a report, and the rest of the loop
  unfoldable pub and_then :
      SourcePlan S → List (SourcePlan S) → S × Result SyncReport → (S → Synced S) → Synced S
  and_then src rest (s, err e) next = (s, (src ∷ rest, some e))
  and_then src rest (s, ok report) next = put_first (record src { report = some report }) (next s)

  unfoldable pub sync_all : Option SyncOpts → List (SourcePlan S) → S → Synced S
  unfolding opts_or and_then
  sync_all opts [] s = (s, ([], none))
  sync_all opts (src ∷ rest) s =
      and_then src rest (src.source.sync (opts_or opts (opts_or src.opts no_opts)) s)
        (sync_all opts rest)

  unfoldable pub all_support : List (SourcePlan S) → Bool
  all_support [] = true
  all_support (src ∷ rest) = src.source.supports_rollback && all_support rest

  unfoldable pub and_cleaned :
      SourcePlan S → List (SourcePlan S) → S × Result (Unit {0}) → (S → Synced S) → Synced S
  and_cleaned src rest (s, err e) next = (s, (src ∷ rest, some e))
  and_cleaned src rest (s, ok u) next = put_first src (next s)

  -- one source with its report, and the rest of the loop
  unfoldable pub roll_back_one :
      SourcePlan S → List (SourcePlan S) → Option SyncReport → S → (S → Synced S) → Synced S
  unfolding and_then and_cleaned subpath_of
  roll_back_one src rest none s next = (s, (src ∷ rest, some no_sync_report))
  roll_back_one src rest (some r) s next =
      if r.old_revision == ""
      then (if src.primary
          then (s, (src ∷ rest, some rollback_to_nothing))
          else and_cleaned src rest (src.source.clean s) next)
      else and_then src rest
          (src.source.sync (record { revision = r.old_revision; subpath = subpath_of src.opts }) s)
          next

  unfoldable pub roll_back_all : List (SourcePlan S) → S → Synced S
  unfolding roll_back_one
  roll_back_all [] s = (s, ([], none))
  roll_back_all (src ∷ rest) s = roll_back_one src rest src.report s (roll_back_all rest)

  unfoldable pub roll_back : List (SourcePlan S) → S → Synced S
  unfolding roll_back_all all_support
  roll_back srcs s =
      let done = roll_back_all srcs s in
      if all_support srcs then done else (s, (srcs, some rollback_unsupported))

  unfoldable pub add_source :
      List (SourcePlan S)
      → Source S
      → Option SyncOpts
      → Option SyncReport
      → Bool
      → List (SourcePlan S)
  add_source srcs new opts report primary =
      srcs ++ (record { source = new; primary = primary; opts = opts; report = report } ∷ [])
