-- ===== src/Reconcile/Mutate/Depth.antt =====
-- src/reconcile/mutate.rs: how deep `remove_recursively` goes.
use ensync.Base.{
  ℕ, zero, suc, ◌<◌, ◌≤◌, ◌≡◌, refl, Bool, true, false, List, [], ◌∷◌, if◌then◌else◌, arith,
}
use ensync.Base.Text.{Text}
use ensync.FileData.{FileData, File, is_dir_data}
use ensync.Replica.{Answer, ok, err, done, Replica, Ancestor, End}
use ensync.Reconcile.Mutate.Chain.{M, ◌>>=◌, within}
use ensync.Reconcile.Mutate.Ends.{Ends, fine, broken, bind-Ends, part-Ends}
use ensync.Reconcile.Mutate.ReplaceAncestor.{remove_entries, remove_recursively, clear_subdir}

-- Directories have a height, which a subdirectory does not reach: no tree is infinitely deep.
pub record HasHeights {X E : Type 0} (R : Replica X E) : Type 0 where
  pub height : R.Directory → ℕ
  pub chdir_lower :
      (name : Text) (d : R.Directory) (s : R.State) (sub : R.Directory) (s' : R.State)
      → R.chdir name (d, s) ≡ (ok sub, s')
      → height sub < height d
  pub list_height : (d : R.Directory) (s : R.State) → height (R.list (d, s)).1.0 ≤ height d
  pub remove_height :
      (f : File) (d : R.Directory) (s : R.State) → height (R.remove f (d, s)).1.0 ≤ height d

module _ {X E : Type 0} (A : Ancestor X E) (H : HasHeights A.replica) where
  open A use {replica}
  open H use {height}

  abbrev pub Handle : Type 0
  Handle = replica.Directory × replica.State

  -- The call ends, with the directory no higher than `n`.
  unfoldable pub Lower : ℕ → M E Handle Unit → Type 0
  Lower n m = Ends (λ _ w. height w.0 ≤ n) (λ _ w. Unit {0}) m

  answer-Lower : (n : ℕ) (r : Answer E Unit × Handle) → height r.1.0 ≤ n → Lower n (done r)
  unfolding Lower
  answer-Lower n (ok u, w) h = fine h
  answer-Lower n (err x, w) h = broken tt

  -- The call on a subdirectory.
  module _ (n : ℕ) (rec : Handle → M E Handle Unit)
      (k : (w : Handle) → height w.0 < n → Lower (height w.0) (rec w)) (d : replica.Directory)
      (h : height d ≤ n) where
    enter-Lower :
        (r : Answer E replica.Directory × replica.State)
        → ((sub : replica.Directory) (s : replica.State) → r ≡ (ok sub, s) → height sub < height d)
        → Lower n (
            within (λ s'. (d, s')) (done r) >>= λ (sub, (_, s')).
            within (λ (_, s''). (d, s'')) (rec (sub, s')))
    unfolding Lower
    enter-Lower (ok sub, s) lower =
        part-Ends (λ (_, s''). (d, s'')) (k (sub, s) (omega (arith, lower sub s refl, h)))
          (λ a w b. h) (λ x w b. tt)
    enter-Lower (err x, s) lower = broken tt

    if_dir-Lower :
        (b : Bool) (name : Text) (s : replica.State)
        → Lower n (
            if b
            then (within (λ s'. (d, s')) (done (replica.chdir name (d, s))) >>= λ (sub, (_, s')).
                within (λ (_, s''). (d, s'')) (rec (sub, s')))
            else done (ok tt, (d, s)))
    unfolding Lower
    if_dir-Lower true name s =
        enter-Lower (replica.chdir name (d, s)) λ sub s' q. H.chdir_lower name d s sub s' q
    if_dir-Lower false name s = fine h

  remove_entries-Lower :
      (n : ℕ) (rec : Handle → M E Handle Unit)
      → ((w : Handle) → height w.0 < n → Lower (height w.0) (rec w))
      → (entries : List (Text × FileData)) (w : Handle) → height w.0 ≤ n
      → Lower n (remove_entries A rec entries w)
  unfolding remove_entries Lower
  remove_entries-Lower n rec k [] (d, s) h = fine h
  remove_entries-Lower n rec k ((name, fd) ∷ entries) (d, s) h =
      bind-Ends _ (if_dir-Lower n rec k d h (is_dir_data fd) name s) (λ e w t. tt)
        λ _ (d', s') h'.
          bind-Ends _
            (answer-Lower n (replica.remove (record { name = name; fd = fd }) (d', s'))
              (omega (arith, H.remove_height (record { name = name; fd = fd }) d' s', h')))
            (λ e w t. tt) λ _ w'' h''. remove_entries-Lower n rec k entries w'' h''

  -- `remove_recursively` ends, with the directory no higher than it was or with an error, if the depth
  -- exceeds the height of the directory.
  pub remove_recursively-Lower :
      (depth : ℕ) (w : Handle)
      → height w.0 < depth
      → Lower (height w.0) (remove_recursively A depth w)
  unfolding remove_recursively Lower
  remove_recursively-Lower zero w h = elim h [ ]
  remove_recursively-Lower (suc depth) (d, s) h =
      by_list (replica.list (d, s)) (H.list_height d s)
        (λ w'' lt. remove_recursively-Lower depth w'' lt)
    where
      by_list :
          (r : Answer E (List (Text × FileData)) × Handle)
          → height r.1.0 ≤ height d
          → ((w'' : Handle)
              → height w''.0 < depth
              → Lower (height w''.0) (remove_recursively A depth w''))
          → Lower
              (height d)
              (done r >>= λ (entries, w'). remove_entries A (remove_recursively A depth) entries w')
      by_list (err x, w') b k = broken tt
      by_list (ok entries, w') b k =
          remove_entries-Lower (height d) (remove_recursively A depth)
            (λ w'' lt. k w'' (omega (arith, lt, h))) entries w' b

  -- The subdirectory is cleared without a change of the table, or of the directory.
  pub clear_subdir-keeps :
      (depth : ℕ) (name : Text) (e : End replica)
      → height e.dir ≤ depth
      → Ends (λ _ e'. e'.files ≡ e.files) (λ _ e'. e'.files ≡ e.files) (clear_subdir A depth name e)
  unfolding clear_subdir Lower
  clear_subdir-keeps depth name e h =
      by_chdir (replica.chdir name (e.dir, e.state))
        (λ sub s' q. H.chdir_lower name e.dir e.state sub s' q)
    where
      by_chdir :
          (r : Answer E replica.Directory × replica.State)
          → ((sub : replica.Directory) (s : replica.State)
              → r ≡ (ok sub, s)
              → height sub < height e.dir)
          → Ends
              (λ _ e'. e'.files ≡ e.files)
              (λ _ e'. e'.files ≡ e.files)
              (within (λ s. record e { state = s }) (done r) >>= λ (sub, e').
                within
                  (λ (_, s). record e' { state = s })
                  (remove_recursively A depth (sub, e'.state)))
      by_chdir (err x, s) lower = broken refl
      by_chdir (ok sub, s) lower =
          part-Ends (λ (_, s'). record e { state = s' })
            (remove_recursively-Lower depth (sub, s) (omega (arith, lower sub s refl, h)))
            (λ a w b. refl) (λ x w b. refl)
