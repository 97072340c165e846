-- ===== src/Reconcile/Choose/Agreement.antt =====
-- src/reconcile/compute.rs: when files count as in sync, and when a conflict is reported.
use ensync.Base.{◌≡◌, refl, true, false, Option, none, some, arith}
use ensync.FileData.{FileData, matches, matches_data, matches_content}
use ensync.FileData.Compare.{matches→matches_data}
use ensync.SyncMode.{SyncMode}
use ensync.Reconcile.Choose.{is_special, choose_reconciliation, Reconciliation, in_sync}
use ensync.Reconcile.Choose.{update_file, create_file, delete_file, choose_arm}
use ensync.Reconcile.Choose.{agree, replace_side, map_or_false}
use ensync.Reconcile.Choose.{
  Conflict, client, server, ReconciliationSide, edit_delete, no_conflict, edit_edit,
  ConflictingEdit, mode, content,
}
use ensync.Reconcile.Choose.Rules.{use_client_of, use_server_of, update_file_rule}

-- Both ends lack the file, or hold the same file up to its modification time.
abbrev pub SameData : Option FileData → Option FileData → Type 0
SameData none none = Unit
SameData (some c) (some s) = matches_data c s ≡ true
SameData _ _ = ⊥

replace_side-ne-in_sync :
    (d s : Option FileData) (x y : ReconciliationSide) → replace_side d x s y ≡ in_sync → ⊥
unfolding replace_side
replace_side-ne-in_sync d s x y h = ground arith

update-SameData :
    (c : FileData) (a : Option FileData) (s : FileData) (m : SyncMode) (uc us : Reconciliation)
    → (uc ≡ in_sync → ⊥)
    → (us ≡ in_sync → ⊥)
    → (update_file c a s m uc us).0 ≡ in_sync
    → matches_data c s ≡ true
update-SameData c a s m uc us hc hs =
    update_file_rule (λ r. r ≡ in_sync → matches_data c s ≡ true) m uc us c a s
      (λ _ e. absurd (hs e)) (λ _ e. absurd (hc e)) (λ same _. same) (λ e. cc) (λ _ e. cc)
      (λ _ _ _ e. cc)

-- A file is declared in sync only if both ends lack it or hold it alike up to its modification
-- time. So the ancestor is never overwritten while the ends hold different data.
pub choose_in_sync :
    (cli anc srv : Option FileData) (m : SyncMode)
    → (choose_reconciliation cli anc srv m).0 ≡ in_sync
    → SameData cli srv
unfolding choose_reconciliation choose_arm create_file delete_file agree
choose_in_sync none a none m h = tt
choose_in_sync (some c) none none m h = ground (
  arith,
  replace_side-ne-in_sync none (some c) server client,
  replace_side-ne-in_sync (some c) none client server,
)
choose_in_sync none none (some s) m h = ground (
  arith,
  replace_side-ne-in_sync none (some s) client server,
  replace_side-ne-in_sync (some s) none server client,
)
choose_in_sync (some c) (some a) none m h = ground (
  arith,
  replace_side-ne-in_sync none (some c) server client,
  replace_side-ne-in_sync (some c) none client server,
)
choose_in_sync none (some a) (some s) m h = ground (
  arith,
  replace_side-ne-in_sync none (some s) client server,
  replace_side-ne-in_sync (some s) none server client,
)
choose_in_sync (some c) none (some s) m h = ground (
  arith,
  matches→matches_data c s,
  update-SameData c none s m _ _ (replace_side-ne-in_sync (some s) (some c) server client)
      (replace_side-ne-in_sync (some c) (some s) client server),
)
choose_in_sync (some c) (some a) (some s) m h = ground (
  arith,
  matches→matches_data c s,
  update-SameData c (some a) s m _ _ (replace_side-ne-in_sync (some s) (some c) server client)
      (replace_side-ne-in_sync (some c) (some s) client server),
)

pub SameData-is_special : (c s : Option FileData) → SameData c s → is_special c ≡ is_special s
unfolding matches_data
SameData-is_special none none h = refl
SameData-is_special none (some s) h = elim h [ ]
SameData-is_special (some c) none h = elim h [ ]
SameData-is_special (some c) (some s) h = ground (arith, h)

-- How a file was edited, relative to the ancestor.
abbrev pub EditedTo : Option FileData → FileData → ConflictingEdit → Type 0
EditedTo anc f mode = map_or_false (λ a. matches_content a f) anc ≡ true
EditedTo anc f content = map_or_false (λ a. matches_content a f) anc ≡ false

-- What a reported conflict says of the files.
abbrev pub Explains : Option FileData → Option FileData → Option FileData → Conflict → Type 0
Explains cli anc srv no_conflict = Unit
Explains (some c) (some a) none (edit_delete server) = matches_content a c ≡ false
Explains none (some a) (some s) (edit_delete client) = matches_content a s ≡ false
Explains (some c) anc (some s) (edit_edit x y) =
    EditedTo anc c x
    × EditedTo anc s y
    × (map_or_false (λ a. matches a c) anc ≡ false)
    × (map_or_false (λ a. matches a s) anc ≡ false)
    × (matches_data c s ≡ false)
Explains _ _ _ _ = ⊥

update-Explains :
    (c : FileData) (a : Option FileData) (s : FileData) (m : SyncMode) (uc us : Reconciliation)
    → matches c s ≡ false
    → Explains (some c) a (some s) (update_file c a s m uc us).1
unfolding update_file
update-Explains c none s m uc us h = ground arith
update-Explains c (some a) s m uc us h = ground arith

-- A reported conflict is one: an edit/delete conflict names the end that lacks the file, and the
-- content at the other end is not the ancestor's; in an edit/edit conflict both ends hold the file,
-- with different data, neither of them as the ancestor has it, and each edit is called one of the
-- mode or one of the content according to whether the content is still the ancestor's, also where both
-- ends agree on the content.
pub choose-Explains :
    (cli anc srv : Option FileData) (m : SyncMode)
    → Explains cli anc srv (choose_reconciliation cli anc srv m).1
unfolding choose_reconciliation choose_arm create_file delete_file agree
choose-Explains none a none m = tt
choose-Explains (some c) none none m = ground arith
choose-Explains none none (some s) m = ground arith
choose-Explains (some c) (some a) none m = ground arith
choose-Explains none (some a) (some s) m = ground arith
choose-Explains (some c) none (some s) m = ground (
  arith,
  update-Explains c none s m (use_client_of (some c) (some s)) (use_server_of (some c) (some s)),
)
choose-Explains (some c) (some a) (some s) m = ground (
  arith,
  update-Explains c (some a) s m (use_client_of (some c) (some s))
      (use_server_of (some c) (some s)),
)
