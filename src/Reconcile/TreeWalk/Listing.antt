-- ===== src/Reconcile/TreeWalk/Listing.antt =====
-- src/reconcile/tree_walk.rs: how the three replicas' directories are listed and the context of a
-- directory is set up, the first part of `process_dir_impl`.
use ensync.Base.{Bool, true, false, ◌||◌, Option, none, some, List, [], ◌∷◌, if◌then◌else◌}
use ensync.Base.Panic.{◌>>=◌}
use ensync.Base.Text.{Text, text_eq}
use ensync.Base.Map.{Map, insert}
use ensync.FileData.{FileData}
use ensync.Log.{ReplicaSide, client_side, ancestor_side, server_side, list_op}
use ensync.Replica.{Answer, ok, err, Run, done, panic, Replica, Ancestor, End}
use ensync.Rules.Tree.{DirEngine, DirEngineBuilder, contains, build}
use ensync.Reconcile.Context.{DirContext}
use ensync.Reconcile.Mutate.{Logged, log_error}
use ensync.Reconcile.Mutate.Chain.{◌>>-◌, and_then}

module _ {Rx : Type 0} (is_match : Rx → Text → Bool) where
  -- The loop of `read_dir_contents`, over the listing. `none` is a panic of the rules.
  unfoldable pub read_entries :
      Option (DirEngineBuilder Rx)
      → Map FileData
      → List (Text × FileData)
      → Option (Option (DirEngineBuilder Rx) × Map FileData)
  read_entries rb ret [] = some (rb, ret)
  read_entries none ret ((name, value) ∷ list) = read_entries none (insert name value ret) list
  read_entries (some b) ret ((name, value) ∷ list) =
      contains is_match b (record { name = name; fd = value }) >>= λ b'.
      read_entries (some b') (insert name value ret) list

  module _ {X E : Type 0} (is_fatal : E → Bool) (R : Replica X E) where
    -- What `read_dir_contents` returns, with the end, the builder and the log.
    abbrev pub Read : Type 0
    Read = Run (Bool × (End R × Option (DirEngineBuilder Rx) × Logged E))

    unfoldable pub in_table :
        R.Directory
        → R.State
        → Logged E
        → Option (Option (DirEngineBuilder Rx) × Map FileData)
        → Read
    in_table d s log none = panic
    in_table d s log (some (rb, ret)) =
        done (true, (record { dir = d; files = ret; state = s }, rb, log))

    unfoldable pub answered :
        Text
        → Option (DirEngineBuilder Rx)
        → ReplicaSide
        → Logged E
        → Answer E (List (Text × FileData)) × (R.Directory × R.State)
        → Read
    unfolding log_error read_entries in_table
    answered dir_path rb side log (ok list, (d, s)) = in_table d s log (read_entries rb [] list)
    answered dir_path rb side log (err x, (d, s)) = done (
      false,
      (
        record { dir = d; files = []; state = s },
        rb,
        log_error is_fatal side dir_path list_op x log,
      ),
    )

    -- `read_dir_contents(r, dir, dir_path, rb, log, side)`
    unfoldable pub read_dir_contents :
        R.Directory → R.State → Text → Option (DirEngineBuilder Rx) → Logged E → ReplicaSide → Read
    unfolding answered
    read_dir_contents d s dir_path rb log side = answered dir_path rb side log (R.list (d, s))

-- A set of names, from the keys of the tables.
unfoldable pub has_name : Text → List Text → Bool
has_name k [] = false
has_name k (x ∷ xs) = text_eq x k || has_name k xs

unfoldable pub add_names : Map FileData → List Text → List Text
unfolding has_name
add_names [] names = names
add_names ((k, x) ∷ t) names =
    let rest = add_names t names in if has_name k rest then rest else k ∷ rest

-- What `process_dir_impl` is given, with the end directories not listed yet.
pub record Opening {X Y E : Type 0} (Rx : Type 0) (CLI : Replica X E) (ANC : Ancestor Y E)
    (SRV : Replica X E) : Type 0 where
  pub cli : End CLI
  pub anc : End ANC.replica
  pub srv : End SRV
  pub builder : DirEngineBuilder Rx
  pub log : Logged E

-- The builder that a listing leaves.
abbrev pub or_builder :
    {Rx : Type 0} → DirEngineBuilder Rx → Option (DirEngineBuilder Rx) → DirEngineBuilder Rx
or_builder b none = b
or_builder b (some b') = b'

module _ {X Y E Rx : Type 0} (is_match : Rx → Text → Bool) (is_fatal : E → Bool) (CLI : Replica X E)
    (ANC : Ancestor Y E) (SRV : Replica X E) where
  abbrev O : Type 0
  O = Opening Rx CLI ANC SRV

  unfoldable pub list_client : Text → O → Run (Bool × O)
  unfolding read_dir_contents
  list_client dir_path o =
      read_dir_contents is_match is_fatal CLI o.cli.dir o.cli.state dir_path (some o.builder) o.log
        client_side
      >>- λ (b, (e, rb, l)).
          done (b, record o { cli = e; builder = or_builder o.builder rb; log = l })

  unfoldable pub list_ancestor : Text → O → Run (Bool × O)
  unfolding read_dir_contents
  list_ancestor dir_path o =
      read_dir_contents is_match is_fatal ANC.replica o.anc.dir o.anc.state dir_path none o.log
        ancestor_side
      >>- λ (b, (e, rb, l)). done (b, record o { anc = e; log = l })

  unfoldable pub list_server : Text → O → Run (Bool × O)
  unfolding read_dir_contents
  list_server dir_path o =
      read_dir_contents is_match is_fatal SRV o.srv.dir o.srv.state dir_path (some o.builder) o.log
        server_side
      >>- λ (b, (e, rb, l)).
          done (b, record o { srv = e; builder = or_builder o.builder rb; log = l })

  -- The context, with the names of all files to be processed.
  unfoldable pub context_of :
      O → Option (DirEngine Rx) → Run (Option (DirContext CLI ANC SRV Rx) × O)
  unfolding add_names
  context_of o none = panic
  context_of o (some rules) = done (
    some (record {
      cli = o.cli;
      anc = o.anc;
      srv = o.srv;
      todo = add_names o.srv.files (add_names o.anc.files (add_names o.cli.files []));
      rules = rules;
      log = o.log;
    }),
    o,
  )

  unfoldable pub built : Bool × O → Run (Option (DirContext CLI ANC SRV Rx) × O)
  unfolding context_of
  built (false, o) = done (none, o)
  built (true, o) = context_of o (build o.builder)

  -- `process_dir_impl` up to its loop; `none` is its early error. `stop` is what `should_stop` says.
  unfoldable pub open_dir : Bool → O → Run (Option (DirContext CLI ANC SRV Rx) × O)
  unfolding list_client list_ancestor list_server built
  open_dir stop o =
      if stop
      then done (none, o)
      else (let dir_path = CLI.full_path o.cli.dir in
          and_then (and_then (list_client dir_path o) (list_ancestor dir_path))
            (list_server dir_path)
          >>- built)
