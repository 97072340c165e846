-- ===== src/Reconcile/TreeWalk/Opened.antt =====
-- src/reconcile/tree_walk.rs: the context of a directory that `process_dir_impl` sets up.
use ensync.Base.{
  ◌≡◌, refl, ap, Bool, true, false, ◌||◌, Option, none, some, List, [], ◌∷◌, arith, Bool-cases, inl,
  inr,
}
use ensync.Base.Text.{Text, text_eq_iff}
use ensync.Base.Map.{Map, lookup, insert, contains_key}
use ensync.FileData.{FileData}
use ensync.Log.{ReplicaSide, client_side, ancestor_side, server_side}
use ensync.Replica.{Answer, ok, err, Replica, Ancestor}
use ensync.Rules.Tree.{DirEngineBuilder}
use ensync.Reconcile.Context.{DirContext, name_in_use}
use ensync.Reconcile.Mutate.{Logged}
use ensync.Base.{◌≤◌, length}
use ensync.Rules.Engine.Runs.{IsWellFormed, EngineFits}
use ensync.Rules.Tree.Walk.{IsBuilder, contains_total, build_total}
use ensync.Reconcile.Mutate.Ends.{Yields, yields, bind-Yields, weaken-Yields, and_then-Yields}
use ensync.Reconcile.Mutate.Depth.{HasHeights}
use ensync.Reconcile.TreeWalk.Listing.{
  read_entries, read_dir_contents, in_table, answered, Opening, or_builder, list_client,
  list_ancestor, list_server, context_of, built, open_dir, has_name, add_names,
}

-- The names without repetition.
abbrev pub Distinct : List Text → Type 0
Distinct [] = Unit
Distinct (x ∷ xs) = (has_name x xs ≡ false) × Distinct xs

has_name-add_names :
    (k : Text) (t : Map FileData) (names : List Text)
    → has_name k (add_names t names) ≡ (contains_key k t || has_name k names)
unfolding has_name add_names lookup
has_name-add_names k [] names = refl
has_name-add_names k ((j, x) ∷ t) names =
    ground (arith, text_eq_iff j k, has_name-add_names k t names, has_name-add_names j t names)

has_name-all :
    (k : Text) (c a s : Map FileData)
    → has_name k (add_names s (add_names a (add_names c [])))
      ≡ (contains_key k c || (contains_key k a || contains_key k s))
unfolding has_name
has_name-all k c a s = ground (
  arith,
  has_name-add_names k s (add_names a (add_names c [])),
  has_name-add_names k a (add_names c []),
  has_name-add_names k c [],
)

Distinct-add_names :
    (t : Map FileData) (names : List Text) → Distinct names → Distinct (add_names t names)
unfolding add_names
Distinct-add_names [] names h = h
Distinct-add_names ((j, x) ∷ t) names h = elim (Bool-cases (has_name j (add_names t names))) [
  | inl e ↦ rw e (Distinct-add_names t names h)
  | inr e ↦ rw e (e, Distinct-add_names t names h)
]

module _ {Rx : Type 0} (is_match : Rx → Text → Bool) (p : Text) where
  abbrev BuilderFits : Option (DirEngineBuilder Rx) → Type 0
  BuilderFits none = Unit
  BuilderFits (some b) = IsBuilder is_match p b

  read_entries_total :
      (rb : Option (DirEngineBuilder Rx)) (t : Map FileData) (list : List (Text × FileData))
      → BuilderFits rb
      → (rb' : Option (DirEngineBuilder Rx)) × (t' : Map FileData) × (read_entries is_match rb t
            list
          ≡ some (rb', t'))
        × BuilderFits rb'
  unfolding read_entries
  read_entries_total rb t [] h = (rb, t, refl, h)
  read_entries_total none t ((name, value) ∷ list) h =
      read_entries_total none (insert name value t) list h
  read_entries_total (some b) t ((name, value) ∷ list) h =
      let (b', e, h') = contains_total is_match p (record { name = name; fd = value }) b h in
      let (rb', t', q, f) = read_entries_total (some b') (insert name value t) list h' in
      (rb', t', rw e q, f)

  read_dir_contents-Yields :
      {X E : Type 0} (is_fatal : E → Bool) (R : Replica X E) (d : R.Directory) (s : R.State)
      (dir_path : Text) (rb : Option (DirEngineBuilder Rx)) (log : Logged E) (side : ReplicaSide)
      → BuilderFits rb
      → Yields
          (λ w. (w.1.0.dir ≡ (R.list (d, s)).1.0) × BuilderFits w.1.1)
          (read_dir_contents is_match is_fatal R d s dir_path rb log side)
  unfolding read_dir_contents answered in_table
  read_dir_contents-Yields {X} {E} is_fatal R d s dir_path rb log side h = by_answer (R.list (d, s))
    where
      in_table-Yields :
          (d' : R.Directory) (s' : R.State)
          (o : Option (Option (DirEngineBuilder Rx) × Map FileData))
          (rb' : Option (DirEngineBuilder Rx)) (t' : Map FileData)
          → o ≡ some (rb', t')
          → BuilderFits rb'
          → Yields
              (λ w. (w.1.0.dir ≡ d') × BuilderFits w.1.1)
              (in_table is_match is_fatal R d' s' log o)
      in_table-Yields d' s' o rb' t' e f = rw e (yields (refl, f))

      by_answer :
          (a : Answer E (List (Text × FileData)) × (R.Directory × R.State))
          → Yields
              (λ w. (w.1.0.dir ≡ a.1.0) × BuilderFits w.1.1)
              (answered is_match is_fatal R dir_path rb side log a)
      by_answer (ok list, (d', s')) =
          let (rb', t', e, f) = read_entries_total rb [] list h in
          in_table-Yields d' s' _ rb' t' e f
      by_answer (err x, (d', s')) = yields (refl, h)

module _ {X Y E Rx : Type 0} (is_match : Rx → Text → Bool) (is_fatal : E → Bool) (CLI : Replica X E)
    (ANC : Ancestor Y E) (SRV : Replica X E) (H : HasHeights ANC.replica) (p : Text) where
  abbrev Opens : Type 0
  Opens = Opening Rx CLI ANC SRV

  -- A listing leaves a builder that fits, and the ancestor's directory no higher.
  record Listed (o : Opens) (w : Bool × Opens) : Type 0 where
    pub builder : IsBuilder is_match p w.1.builder
    pub lower : H.height w.1.anc.dir ≤ H.height o.anc.dir

  or_builder-IsBuilder :
      (b : DirEngineBuilder Rx) (rb : Option (DirEngineBuilder Rx))
      → IsBuilder is_match p b
      → BuilderFits is_match p rb
      → IsBuilder is_match p (or_builder b rb)
  or_builder-IsBuilder b none h f = h
  or_builder-IsBuilder b (some b') h f = f

  module _ (dir_path : Text) (o : Opens) (h : IsBuilder is_match p o.builder) where
    list_client-Listed : Yields (Listed o) (list_client is_match is_fatal CLI ANC SRV dir_path o)
    unfolding list_client
    list_client-Listed =
        bind-Yields _
          (read_dir_contents-Yields is_match p is_fatal CLI o.cli.dir o.cli.state dir_path
            (some o.builder) o.log client_side h)
          λ w (q, f).
            yields
              (record { builder = or_builder-IsBuilder o.builder w.1.1 h f; lower = omega arith })

    list_server-Listed : Yields (Listed o) (list_server is_match is_fatal CLI ANC SRV dir_path o)
    unfolding list_server
    list_server-Listed =
        bind-Yields _
          (read_dir_contents-Yields is_match p is_fatal SRV o.srv.dir o.srv.state dir_path
            (some o.builder) o.log server_side h)
          λ w (q, f).
            yields
              (record { builder = or_builder-IsBuilder o.builder w.1.1 h f; lower = omega arith })

    list_ancestor-Listed :
        Yields (Listed o) (list_ancestor is_match is_fatal CLI ANC SRV dir_path o)
    unfolding list_ancestor
    list_ancestor-Listed =
        bind-Yields _
          (read_dir_contents-Yields is_match p is_fatal ANC.replica o.anc.dir o.anc.state dir_path
            none o.log ancestor_side tt)
          λ w (q, f). yields (record {
            builder = h;
            lower = omega (arith, ap (λ d. H.height d) q, H.list_height o.anc.dir o.anc.state);
          })

  -- The context of a directory, as `process_file` needs it: each name that a table has is to be
  -- processed, once; the rules are well formed, at the path `p`; the ancestor's directory is no higher.
  pub record Opened (o : Opens) (d : DirContext CLI ANC SRV Rx) : Type 0 where
    pub names : (k : Text) → has_name k d.todo ≡ name_in_use d k
    pub distinct : Distinct d.todo
    pub well_formed : IsWellFormed d.rules.rules
    pub fits : EngineFits (length d.rules.rules.states) p d.rules.state
    pub lower : H.height d.anc.dir ≤ H.height o.anc.dir

  unfoldable pub IsOpened : Opens → Option (DirContext CLI ANC SRV Rx) × Opens → Type 0
  IsOpened o (none, _) = Unit
  IsOpened o (some d, _) = Opened o d

  built-IsOpened :
      (o : Opens) (w : Bool × Opens)
      → Listed o w
      → Yields (IsOpened o) (built is_match is_fatal CLI ANC SRV w)
  unfolding built context_of IsOpened name_in_use has_name
  built-IsOpened o (false, o') l = yields tt
  built-IsOpened o (true, o') l =
      let (rules, e, wf, f) = build_total is_match p o'.builder l.builder in
      rw e (
        yields (record {
          names = λ k. has_name-all k o'.cli.files o'.anc.files o'.srv.files;
          distinct =
              Distinct-add_names o'.srv.files _
                (Distinct-add_names o'.anc.files _ (Distinct-add_names o'.cli.files [] tt));
          well_formed = wf;
          fits = f;
          lower = l.lower;
        }))

  -- From a builder over a well-formed rule set, at the path `p`, setting up a directory ends without a
  -- panic. If it succeeds, the names to be processed are those that some table has, each once; the
  -- rules of the directory are well formed and at the path `p`; and the ancestor's directory is no
  -- higher than it was.
  pub open_dir-IsOpened :
      (stop : Bool) (o : Opening Rx CLI ANC SRV)
      → IsBuilder is_match p o.builder
      → Yields (IsOpened o) (open_dir is_match is_fatal CLI ANC SRV stop o)
  unfolding open_dir IsOpened
  open_dir-IsOpened true o h = yields tt
  open_dir-IsOpened false o h =
      bind-Yields _
        (and_then-Yields {Q = Listed o} _
          (and_then-Yields {Q = Listed o} _ (list_client-Listed dir_path o h)
            (λ o' l. weaken-Yields (list_ancestor-Listed dir_path o' l.builder) (listed_trans o' l))
            (λ o' l. l))
          (λ o' l. weaken-Yields (list_server-Listed dir_path o' l.builder) (listed_trans o' l))
          (λ o' l. l))
        (built-IsOpened o)
    where
      dir_path : Text
      dir_path = CLI.full_path o.cli.dir

      listed_trans :
          (o' : Opens) → Listed o (true, o') → (w : Bool × Opens) → Listed o' w → Listed o w
      listed_trans o' l w l' = record {
        builder = l'.builder;
        lower = omega (arith, l.lower, l'.lower);
      }
