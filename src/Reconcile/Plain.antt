-- ===== src/Reconcile/Plain.antt =====
-- src/replica.rs: replicas that keep no files of their own and whose calls succeed, for tests.
use ensync.Base.{ℕ, zero, suc, ◌<◌, ◌≡◌, true, false, [], arith}
use ensync.Replica.{Answer, ok, err, Replica, Ancestor}
use ensync.Reconcile.Mutate.Depth.{HasHeights}
use ensync.Base.{◌∷◌}
use ensync.Base.Int.{pos}
use ensync.Base.Text.{Text, text}
use ensync.FileData.{FileData, regular}
use ensync.SyncMode.{on, all_of}
use ensync.Rules.Tree.{single_mode}
use ensync.Rules.Engine.{engine_state_new}
use ensync.Reconcile.Context.{DirContext}

unfoldable pub below : ℕ × Unit {0} → Answer Unit ℕ × Unit {0}
below (zero, s) = (err tt, s)
below (suc d, s) = (ok d, s)

pub below-lower :
    (d : ℕ) (s : Unit {0}) (sub : ℕ) (s' : Unit {0}) → below (d, s) ≡ (ok sub, s') → sub < d
unfolding below
below-lower zero s sub s' q = cc
below-lower (suc d) s sub s' q = let e : d ≡ sub = cc in omega arith

-- A directory is the number of levels below it.
abbrev pub plain : Replica Unit Unit
plain = record {
  State = Unit;
  Directory = ℕ;
  full_path = λ d. [];
  is_fatal = λ s. false;
  is_dir_dirty = λ d s. true;
  set_dir_clean = λ d s. (ok true, s);
  root = λ s. (ok 2, s);
  list = λ (d, s). (ok [], (d, s));
  rename = λ old new w. (ok tt, w);
  remove = λ f w. (ok tt, w);
  create = λ f x w. (ok f.fd, w);
  update = λ name old new x w. (ok new, w);
  chdir = λ name w. below w;
  synthdir = λ name mode (d, s). (0, (d, s));
  rmdir = λ w. (ok tt, w);
  transfer = λ f w. (ok tt, w.1);
}

abbrev pub plain_ancestor : Ancestor Unit Unit
plain_ancestor = record {
  replica = plain;
  null_transfer = λ fd. tt;
  condemn = λ name w. (ok tt, w);
  uncondemn = λ name w. (ok tt, w);
}

unfoldable pub plain-HasHeights : HasHeights plain
plain-HasHeights = record {
  height = λ d. d;
  chdir_lower = λ name d s sub s' q. below-lower d s sub s' q;
  list_height = λ d s. omega arith;
  remove_height = λ f d s. omega arith;
}

abbrev pub old_file : FileData
old_file = regular 420 5 (pos 10) (1 ∷ [])

abbrev pub new_file : FileData
new_file = regular 420 6 (pos 20) (2 ∷ [])

abbrev pub name : Text
name = text "a"

-- The client has an edited file, which the ancestor and the server have as it was.
abbrev pub edited : DirContext plain plain_ancestor plain Unit
edited = record {
  cli = record { dir = 2; files = (name, new_file) ∷ []; state = tt };
  anc = record { dir = 2; files = (name, old_file) ∷ []; state = tt };
  srv = record { dir = 2; files = (name, old_file) ∷ []; state = tt };
  todo = [];
  rules = record {
    rules = single_mode (record { inbound = all_of on; outbound = all_of on }) false;
    state = engine_state_new 0;
  };
  log = [];
}
