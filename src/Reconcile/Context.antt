-- ===== src/Reconcile/Context.antt =====
-- src/reconcile/context.rs: what is known of a directory while its files are reconciled, with the
-- states of the three replicas and with what was logged.
use ensync.Base.{Bool, ◌||◌, List}
use ensync.Base.Text.{Text}
use ensync.Base.Map.{contains_key}
use ensync.Replica.{Replica, Ancestor, End}
use ensync.Reconcile.Mutate.{Logged, World}
use ensync.Rules.Tree.{DirEngine}

-- `DirContext`. The queue of names `todo` is a list: its order is of no account, since the least name
-- is taken.
pub record DirContext {X Y E : Type 0} (CLI : Replica X E) (ANC : Ancestor Y E) (SRV : Replica X E)
    (Rx : Type 0) : Type 0 where
  pub cli : End CLI
  pub anc : End ANC.replica
  pub srv : End SRV
  pub todo : List Text
  pub rules : DirEngine Rx
  pub log : Logged E

module _ {X Y E Rx : Type 0} {CLI : Replica X E} {ANC : Ancestor Y E} {SRV : Replica X E} where
  -- `dir.name_in_use(name)`
  unfoldable pub name_in_use : DirContext CLI ANC SRV Rx → Text → Bool
  name_in_use dir name =
      contains_key name dir.cli.files
      || (contains_key name dir.anc.files || contains_key name dir.srv.files)

  -- The server, or the client, is what changes.
  abbrev pub to_server : DirContext CLI ANC SRV Rx → World SRV ANC CLI
  to_server dir = record { dst = dir.srv; anc = dir.anc; src = dir.cli; log = dir.log }

  abbrev pub from_server : DirContext CLI ANC SRV Rx → World SRV ANC CLI → DirContext CLI ANC SRV Rx
  from_server dir w = record dir { srv = w.dst; anc = w.anc; cli = w.src; log = w.log }

  abbrev pub to_client : DirContext CLI ANC SRV Rx → World CLI ANC SRV
  to_client dir = record { dst = dir.cli; anc = dir.anc; src = dir.srv; log = dir.log }

  abbrev pub from_client : DirContext CLI ANC SRV Rx → World CLI ANC SRV → DirContext CLI ANC SRV Rx
  from_client dir w = record dir { cli = w.dst; anc = w.anc; srv = w.src; log = w.log }
