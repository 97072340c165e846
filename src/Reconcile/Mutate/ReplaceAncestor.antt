-- ===== src/Reconcile/Mutate/ReplaceAncestor.antt =====
-- src/reconcile/mutate.rs: `replace_ancestor`, over any replica that is used as the ancestor.
use ensync.Base.{ℕ, zero, suc, ◌&&◌, not, Option, none, some, List, [], ◌∷◌, if◌then◌else◌}
use ensync.Base.Text.{Text}
use ensync.FileData.{FileData, is_dir, is_dir_data, file_eq}
use ensync.Replica.{ok, done, no_fuel, Ancestor, End}
use ensync.Reconcile.Mutate.Chain.{M, ◌>>=◌, within, take_out, put_new, put_over, call}

module _ {X E : Type 0} (A : Ancestor X E) where
  open A use {replica}

  -- The body of the loop of `remove_recursively`, with the call on a subdirectory.
  unfoldable pub remove_entries :
      (replica.Directory × replica.State → M E (replica.Directory × replica.State) Unit)
      → List (Text × FileData)
      → replica.Directory × replica.State
      → M E (replica.Directory × replica.State) Unit
  remove_entries rec [] w = done (ok tt, w)
  remove_entries rec ((name, fd) ∷ entries) (d, s) =
      (if is_dir_data fd
        then (within (λ s'. (d, s')) (done (replica.chdir name (d, s))) >>= λ (sub, (_, s')).
            within (λ (_, s''). (d, s'')) (rec (sub, s')))
        else done (ok tt, (d, s)))
      >>= λ (_, w). done (replica.remove (record { name = name; fd = fd }) w) >>= λ (_, w').
          remove_entries rec entries w'

  -- `remove_recursively`, down to the given depth.
  unfoldable pub remove_recursively :
      ℕ → replica.Directory × replica.State → M E (replica.Directory × replica.State) Unit
  unfolding remove_entries
  remove_recursively zero w = no_fuel
  remove_recursively (suc depth) w = done (replica.list w) >>= λ (entries, w').
      remove_entries (remove_recursively depth) entries w'

  -- The directory is emptied before something else takes its name.
  unfoldable pub clear_subdir : ℕ → Text → End replica → M E (End replica) Unit
  unfolding remove_recursively
  clear_subdir depth name e =
      within (λ s. record e { state = s }) (done (replica.chdir name (e.dir, e.state)))
      >>= λ (sub, e').
          within (λ (_, s). record e' { state = s }) (remove_recursively depth (sub, e'.state))

  -- The `match` of `replace_ancestor`.
  unfoldable pub change_ancestor :
      Text → Option FileData → Option FileData → End replica → M E (End replica) Unit
  unfolding take_out put_new put_over
  change_ancestor name none none e = done (ok tt, e)
  change_ancestor name (some oldfd) none e =
      call (replica.remove (record { name = name; fd = oldfd })) e >>= λ (_, e'). take_out name e'
  change_ancestor name none (some newfd) e =
      call (replica.create (record { name = name; fd = newfd }) (A.null_transfer newfd)) e
      >>= λ (_, e'). put_new name newfd e'
  change_ancestor name (some oldfd) (some newfd) e =
      call (replica.update name oldfd newfd (A.null_transfer newfd)) e >>= λ (_, e').
      put_over name newfd e'

  -- `replace_ancestor(replica, in_dir, files, name, old, new)`
  unfoldable pub replace_ancestor :
      ℕ → Text → Option FileData → Option FileData → End replica → M E (End replica) Unit
  unfolding clear_subdir change_ancestor
  replace_ancestor depth name old new e =
      if file_eq old new
      then done (ok tt, e)
      else ((if is_dir old && not (is_dir new) then clear_subdir depth name e else done (ok tt, e))
          >>= λ (_, e'). change_ancestor name old new e')
